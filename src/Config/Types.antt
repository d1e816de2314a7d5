-- ===== src/Config/Types.antt =====
-- The configuration's types: momo_feed/include/config/Config.hpp and ConfigError.hpp, and
-- momo_common/include/config.
use momo_hdb.Base.{ℕ, Bool, List, Text}
use momo_hdb.Base.Int.{ℤ}

-- `cfg::OverflowPolicy`
pub data Overflow : Type 0 where
  block drop_oldest : Overflow

pub record LoggerCfg : Type 0 where
  pub file_path : Text
  pub also_console : Bool
  pub level : Text
  pub queue_size : ℕ
  pub worker_threads : ℕ
  pub overflow : Overflow
  pub json : Bool
  pub flush_on : Text

pub record FutuSessionCfg : Type 0 where
  pub opend_ip : Text
  pub opend_port : ℤ

pub record SubscriptionManagerCfg : Type 0 where
  pub refresh_ms : ℤ
  pub capacity : ℕ
  pub overflow : Overflow
  pub first_push : Bool

pub record RedpandaSinkCfg : Type 0 where
  pub brokers : Text
  pub client_id : Text
  pub compression : Text
  pub acks : Text

pub data SinkCfg : Type 0 where
  redpanda : RedpandaSinkCfg → SinkCfg
  demo_log : SinkCfg

pub record DownstreamCfg : Type 0 where
  pub name : Text
  pub sink : SinkCfg

pub record AppConfig : Type 0 where
  pub logger : LoggerCfg
  pub futu : FutuSessionCfg
  pub subscription : Text
  pub submanager : SubscriptionManagerCfg
  pub downstreams : List DownstreamCfg

pub record ConfigError : Type 0 where
  pub file : Text
  pub path : Text
  pub message : Text
