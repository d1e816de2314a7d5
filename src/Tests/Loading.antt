-- ===== src/Tests/Loading.antt =====
-- The theorems on the two configuration files, on small documents.
use momo_hdb.Base.{
  ℕ, ◌≡◌, refl, Bool, true, false, List, [], ◌∷◌, ◌++◌, All, Text, bytes, text_eq, if◌then◌else◌,
}
use momo_hdb.Base.Int.{pos}
use momo_hdb.Decoders.{to_string}
use momo_hdb.Yaml.{Yaml, Call, returned, raised, done}
use momo_hdb.Subscription.{Market, SubType, SecurityId, SubscribeConfig, canonicalize}
use momo_hdb.Subscription.Canon.{view}
use momo_hdb.Loader
use momo_hdb.Loader.Names.{file_names}
use momo_hdb.Loader.Nodes.{view-load}
use momo_hdb.Loader.Sound.{IsSpec, load_lem}
use momo_hdb.Config
use momo_hdb.Config.{AppConfig, Overflow, SinkCfg}
use momo_hdb.Config.Bounds.{IsSafe, load_config_lem}

-- A document: the entries of a map carry their keys, those of a sequence none.
mutual
  data Node : Type 0 where
    missing : Node
    scalar : Text → Node
    number : ℕ → Node
    mapping sequence : Entries → Node

  data Entries : Type 0 where
    nothing : Entries
    entry : Text → Node → Entries → Entries

abbrev find : Text → Entries → Node
find key nothing = missing
find key (entry k n rest) = let later = find key rest in if text_eq k key then n else later

abbrev values : Entries → List Node
values nothing = []
values (entry k n rest) = n ∷ values rest

abbrev at_key : Node → Text → Call Node
at_key (mapping es) key = returned (find key es)
at_key missing key = returned missing
at_key (scalar s) key = raised (bytes "bad subscript")
at_key (number n) key = raised (bytes "bad subscript")
at_key (sequence es) key = returned missing

abbrev is_defined : Node → Bool
is_defined missing = false
is_defined _ = true

abbrev is_scalar : Node → Bool
is_scalar (scalar s) = true
is_scalar (number n) = true
is_scalar _ = false

abbrev is_map : Node → Bool
is_map (mapping es) = true
is_map _ = false

abbrev is_sequence : Node → Bool
is_sequence (sequence es) = true
is_sequence _ = false

abbrev elements : Node → List Node
elements (sequence es) = values es
elements _ = []

abbrev as_text : Node → Call Text
as_text (scalar s) = returned s
as_text (number n) = returned (to_string (pos n))
as_text _ = raised (bytes "bad conversion")

abbrev as_number : {A : Type 0} → (ℕ → A) → Node → Call A
as_number f (number n) = returned (f n)
as_number f _ = raised (bytes "bad conversion")

abbrev as_bool : Node → Call Bool
as_bool (scalar s) = if text_eq s (bytes "true") then returned true else returned false
as_bool _ = raised (bytes "bad conversion")

abbrev yaml : Yaml Node
yaml = record {
  at_key = at_key;
  is_defined = is_defined;
  is_scalar = is_scalar;
  is_map = is_map;
  is_sequence = is_sequence;
  elements = elements;
  as_text = as_text;
  as_int = as_number pos;
  as_size = as_number (λ n. n);
  as_bool = as_bool;
}

abbrev item : Text → Node → Entries → Entries
item symbol subtypes =
    entry []
      (mapping (entry (bytes "symbol") (scalar symbol) (entry (bytes "subtypes") subtypes nothing)))

abbrev subscriptions : Node
subscriptions = mapping (
    entry (bytes "version") (number 2) (
      entry (bytes "defaults")
        (mapping (
          entry (bytes "subtypes") (sequence (entry [] (scalar (bytes "Ticker")) nothing)) nothing))
        (entry (bytes "securities")
          (sequence (
            item (bytes "HK.00700") missing (
              item (bytes "US.BRK.B") (sequence (entry [] (scalar (bytes "BasicQot")) nothing))
                nothing)))
          nothing)))

abbrev expected : SubscribeConfig
expected = record {
  version = pos 2;
  default_subtypes = SubType.ticker ∷ [];
  securities =
      record { market = Market.hk_security; code = bytes "00700"; subtypes = SubType.ticker ∷ [] }
      ∷ record { market = Market.us_security; code = bytes "BRK.B"; subtypes = SubType.basic ∷ [] }
      ∷ [];
}

loaded : Loader.load yaml (pos 0) (returned subscriptions) ≡ done expected
unfolding Loader.load Loader.load_root Loader.default_list Loader.version_or Loader.load_items
    Loader.load_item Loader.parse_security Loader.split_dot Loader.parse_parts Loader.parse_market
    Loader.parse_code Loader.subtypes_or Loader.parse_security_subtypes Loader.parse_entries
    Loader.parse_subtype
loaded = refl

load_lem_example : All IsSpec expected.securities
load_lem_example = load_lem yaml (pos 0) (returned subscriptions) loaded

abbrev tencent : SecurityId
tencent = record { market = Market.hk_security; code = bytes "00700" }

view-load_example :
    view (canonicalize expected) tencent SubType.ticker
    ≡ file_names yaml subscriptions tencent SubType.ticker
view-load_example = view-load yaml (pos 0) subscriptions tencent SubType.ticker loaded

abbrev section : Text → Entries → Entries → Entries
section key es = entry key (mapping es)

abbrev outputs : Node
outputs = sequence (
    section []
      (entry (bytes "name") (scalar (bytes "kafka")) (
        entry (bytes "type") (scalar (bytes "redpanda")) (
          section (bytes "redpanda")
            (entry (bytes "brokers") (scalar (bytes "localhost:9092")) nothing) nothing)))
      nothing)

abbrev app : Node
app = mapping (
    section (bytes "logger") (entry (bytes "level") (scalar (bytes "debug")) nothing) (
      section (bytes "futu")
        (entry (bytes "opend_ip") (scalar (bytes "::1"))
          (entry (bytes "opend_port") (number 11111) nothing))
        (section (bytes "subscriptions") (entry (bytes "path") (scalar (bytes "subs.yaml")) nothing)
          (section (bytes "subscriptionmanager")
            (entry (bytes "refresh_ms") (number 500)
              (entry (bytes "overflow") (scalar (bytes "block")) nothing))
            (entry (bytes "downstreams") outputs nothing)))))

abbrev pub app_config : AppConfig
app_config = record {
  logger = record Config.default_logger { level = bytes "debug" };
  futu = record { opend_ip = bytes "::1"; opend_port = pos 11111 };
  subscription = bytes "/etc/momo/subs.yaml";
  submanager = record {
    refresh_ms = pos 500;
    capacity = 1024;
    overflow = Overflow.block;
    first_push = false;
  };
  downstreams =
      record {
        name = bytes "kafka";
        sink = SinkCfg.redpanda (record {
          brokers = bytes "localhost:9092";
          client_id = bytes "futu-feedhandler";
          compression = bytes "lz4";
          acks = bytes "all";
        });
      }
      ∷ [];
}

abbrev beside : Text → Text
beside p = bytes "/etc/momo/" ++ p

app_loaded : Config.load yaml (bytes "app.yaml") beside (returned app) ≡ done app_config
unfolding Config.load Config.load_root Config.load_logger Config.load_futu Config.load_subscription
    Config.load_submanager Config.load_downstreams Config.load_sink Config.load_redpanda
    Config.section_at Config.overflow_at Config.logger_path Config.parse_overflow_policy
    Config.parse_overflow Config.optional_scalar_as Config.defined_scalar_as
    Config.require_scalar_as
app_loaded = refl

load_config_lem_example : IsSafe 1 app_config
load_config_lem_example = load_config_lem yaml (bytes "app.yaml") beside app outputs refl app_loaded
