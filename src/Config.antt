-- ===== src/Config.antt =====
-- momo_feed/include/config/{Config,ConfigError,ConfigLoader}.hpp, momo_feed/src/config/ConfigLoader.cpp
-- and momo_common/include/config: the application's configuration. `resolve` is the path that a
-- relative path stands for, beside the configuration file (`std::filesystem`, outside the repository).
pub mod Types
pub mod Bounds
use momo_hdb.Base.{
  ℕ, zero, suc, ◌+◌, ◌^◌, Bool, true, false, not, ◌&&◌, ◌||◌, ltb, List, [], ◌∷◌, ◌++◌,
}
use momo_hdb.Base.{Text, bytes, text_eq, if◌then◌else◌}
use momo_hdb.Base.Int.{ℤ, pos, negsuc}
use momo_hdb.Yaml.{
  Yaml, Call, returned, raised, Attempt, done, failed, threw, let_pass, handled, guard, ◌>>=◌, ◌>>◌,
}
use momo_hdb.Decoders.{to_string}
pub use momo_hdb.Config.Types.{
  Overflow, LoggerCfg, FutuSessionCfg, SubscriptionManagerCfg, RedpandaSinkCfg, SinkCfg,
  DownstreamCfg, AppConfig, ConfigError, block, drop_oldest, redpanda, demo_log,
}

unfoldable pub error_string : ConfigError → Text
error_string e = e.file ++ (bytes ":" ++ (e.path ++ (bytes " -> " ++ e.message)))

abbrev pub default_logger : LoggerCfg
default_logger = record {
  file_path = bytes "logs/app.jsonl";
  also_console = true;
  level = bytes "Info";
  queue_size = 65536;
  worker_threads = 1;
  overflow = Overflow.drop_oldest;
  json = true;
  flush_on = bytes "warn";
}

abbrev pub default_capacity : ℕ
default_capacity = 1024

-- `parse_overflow`, which throws on any other text.
unfoldable pub parse_overflow : Text → Call Overflow
parse_overflow s =
    if text_eq s (bytes "block")
    then returned Overflow.block
    else if text_eq s (bytes "drop_oldest")
    then returned Overflow.drop_oldest
    else raised
        (bytes "invalid overflow policy: '" ++ (s ++ bytes "' (expected: block | drop_oldest )"))

abbrev Loading : Type 0 → Type 0
Loading A = Attempt ConfigError A

abbrev config_error : Text → Text → Text → ConfigError
config_error file path message = record { file = file; path = path; message = message }

abbrev pub is_port : ℤ → Bool
is_port (pos n) = ltb 0 n && ltb n 65536
is_port (negsuc n) = false

abbrev pub is_positive : ℤ → Bool
is_positive (pos n) = ltb 0 n
is_positive (negsuc n) = false

module _ {N : Type 0} (yaml : Yaml N) (file : Text) where
  -- `require_scalar_as<T>`, with `as<T>()` as an argument.
  unfoldable pub require_scalar_as : {T : Type 0} → (N → Call T) → N → Text → Loading T
  require_scalar_as as_t n path = do
    guard (yaml.is_defined n && yaml.is_scalar n)
        (config_error file path (bytes "required scalar missing"))
    handled (config_error file path) (as_t n)

  unfoldable pub defined_scalar_as : {T : Type 0} → (N → Call T) → N → Text → Loading T
  defined_scalar_as as_t n path = do
    guard (yaml.is_scalar n) (config_error file path (bytes "expected scalar value"))
    handled (config_error file path) (as_t n)

  unfoldable pub optional_scalar_as : {T : Type 0} → (N → Call T) → N → Text → T → Loading T
  optional_scalar_as as_t n path default_value =
      if not (yaml.is_defined n) then done default_value else defined_scalar_as as_t n path

  unfoldable pub parse_overflow_policy : Text → Text → Loading Overflow
  parse_overflow_policy value path = handled (config_error file path) (parse_overflow value)

  -- `root[key]` or `n[key]`, read as an optional or a required scalar.
  abbrev optional_at : {T : Type 0} → (N → Call T) → N → Text → Text → T → Loading T
  optional_at as_t n key path default_value =
      let_pass (yaml.at_key n key) >>= λ v. optional_scalar_as as_t v path default_value

  abbrev required_at : {T : Type 0} → (N → Call T) → N → Text → Text → Loading T
  required_at as_t n key path = let_pass (yaml.at_key n key) >>= λ v. require_scalar_as as_t v path

  -- A section that must be a map.
  unfoldable pub section_at : N → Text → Text → Text → Loading N
  section_at root key path message = do
    n ← let_pass (yaml.at_key root key)
    guard (yaml.is_defined n && yaml.is_map n) (config_error file path message)
    done n

  unfoldable pub overflow_at : N → Text → Loading Overflow
  overflow_at n path = do
    value ← optional_at yaml.as_text n (bytes "overflow") path (bytes "drop_oldest")
    parse_overflow_policy value path

  -- `path` before `file`.
  unfoldable pub logger_path : N → N → Loading Text
  logger_path n named =
      if yaml.is_defined named
      then optional_at yaml.as_text n (bytes "path") (bytes "logger.path") default_logger.file_path
      else optional_at yaml.as_text n (bytes "file") (bytes "logger.file") default_logger.file_path

  unfoldable pub load_logger : N → Loading LoggerCfg
  load_logger root = do
    n ← section_at root (bytes "logger") (bytes "logger") (bytes "missing logger section")
    level ← optional_at yaml.as_text n (bytes "level") (bytes "logger.level") default_logger.level
    console ←
        optional_at yaml.as_bool n (bytes "also_console") (bytes "logger.also_console")
          default_logger.also_console
    named ← let_pass (yaml.at_key n (bytes "path"))
    path ← logger_path n named
    size ←
        optional_at yaml.as_size n (bytes "queue_size") (bytes "logger.queue_size")
          default_logger.queue_size
    threads ←
        optional_at yaml.as_size n (bytes "worker_threads") (bytes "logger.worker_threads")
          default_logger.worker_threads
    overflow ← overflow_at n (bytes "logger.overflow")
    flush_on ←
        optional_at yaml.as_text n (bytes "flush_on") (bytes "logger.flush_on")
          default_logger.flush_on
    done (record {
      file_path = path;
      also_console = console;
      level = level;
      queue_size = size;
      worker_threads = threads;
      overflow = overflow;
      json = default_logger.json;
      flush_on = flush_on;
    })

  unfoldable pub load_futu : N → Loading FutuSessionCfg
  load_futu root = do
    n ← section_at root (bytes "futu") (bytes "futu") (bytes "missing futu section")
    ip ← required_at yaml.as_text n (bytes "opend_ip") (bytes "futu.opend_ip")
    port ← required_at yaml.as_int n (bytes "opend_port") (bytes "futu.opend_port")
    guard (is_port port) (config_error file (bytes "futu.opend_port") (bytes "port out of range"))
    done (record { opend_ip = ip; opend_port = port })

  unfoldable pub load_subscription : (Text → Text) → N → Loading Text
  load_subscription resolve root = do
    n ←
        section_at root (bytes "subscriptions") (bytes "subscriptions")
          (bytes "missing subscription section")
    p ← required_at yaml.as_text n (bytes "path") (bytes "subscriptions.path")
    done (resolve p)

  unfoldable pub load_submanager : N → Loading SubscriptionManagerCfg
  load_submanager root = do
    n ←
        section_at root (bytes "subscriptionmanager") (bytes "submanager")
          (bytes "missing subscription manager section")
    refresh ←
        required_at yaml.as_int n (bytes "refresh_ms") (bytes "subscriptionmanager.refresh_ms")
    guard (is_positive refresh) (
        config_error file (bytes "subscriptionmanager.refresh_ms")
          (bytes "refresh_ms must be greater than zero"))
    capacity ←
        optional_at yaml.as_size n (bytes "capacity") (bytes "subscriptionmanager.capacity")
          default_capacity
    overflow ← overflow_at n (bytes "subscriptionmanager.overflow")
    first ←
        optional_at yaml.as_bool n (bytes "first_push") (bytes "subscriptionmanager.first_push")
          false
    done (record {
      refresh_ms = refresh;
      capacity = capacity;
      overflow = overflow;
      first_push = first;
    })

  unfoldable pub load_redpanda : N → Text → Loading SinkCfg
  load_redpanda d base = do
    r ←
        section_at d (bytes "redpanda") (base ++ bytes ".redpanda")
          (bytes "missing redpanda section")
    brokers ← required_at yaml.as_text r (bytes "brokers") (base ++ bytes ".redpanda.brokers")
    client ←
        optional_at yaml.as_text r (bytes "client_id") (base ++ bytes ".redpanda.client_id")
          (bytes "futu-feedhandler")
    compression ←
        optional_at yaml.as_text r (bytes "compression") (base ++ bytes ".redpanda.compression")
          (bytes "lz4")
    acks ← optional_at yaml.as_text r (bytes "acks") (base ++ bytes ".redpanda.acks") (bytes "all")
    done (
        SinkCfg.redpanda (record {
          brokers = brokers;
          client_id = client;
          compression = compression;
          acks = acks;
        }))

  unfoldable pub load_sink : N → Text → Text → Loading SinkCfg
  load_sink d base kind =
      if text_eq kind (bytes "redpanda")
      then load_redpanda d base
      else if text_eq kind (bytes "demo_log")
      then done SinkCfg.demo_log
      else failed (config_error file (base ++ bytes ".type") (bytes "unknown type"))

  -- The loop over the downstreams, the `i`-th of which is next.
  unfoldable pub load_downstreams : ℕ → List N → List DownstreamCfg → Loading (List DownstreamCfg)
  load_downstreams i [] sofar = done sofar
  load_downstreams i (d ∷ ds) sofar = do
    let base = bytes "downstreams[" ++ (to_string (pos i) ++ bytes "]")
    name ← required_at yaml.as_text d (bytes "name") (base ++ bytes ".name")
    kind ← required_at yaml.as_text d (bytes "type") (base ++ bytes ".type")
    sink ← load_sink d base kind
    load_downstreams (i + 1) ds (sofar ++ (record { name = name; sink = sink } ∷ []))

  unfoldable pub load_root : (Text → Text) → N → Loading AppConfig
  load_root resolve root = do
    logger ← load_logger root
    futu ← load_futu root
    subscription ← load_subscription resolve root
    submanager ← load_submanager root
    arr ← let_pass (yaml.at_key root (bytes "downstreams"))
    guard (yaml.is_defined arr && yaml.is_sequence arr)
        (config_error file (bytes "downstreams") (bytes "must be sequence"))
    downstreams ← load_downstreams 0 (yaml.elements arr) []
    done (record {
      logger = logger;
      futu = futu;
      subscription = subscription;
      submanager = submanager;
      downstreams = downstreams;
    })

  -- `load`, on what `YAML::LoadFile` does with the path.
  unfoldable pub load : (Text → Text) → Call N → Loading AppConfig
  load resolve loaded =
      handled (λ what. config_error file [] (bytes "failed to load yaml")) loaded
      >>= load_root resolve
