-- ===== src/Loader.antt =====
-- momo_feed/src/config/SubscriptionLoader.cpp: the subscription file. Out parameters are results: on an
-- error the caller drops what was written to them. `unset` is the value of `version`, which the source
-- leaves uninitialised when the file has none.
pub mod Sound
pub mod Names
pub mod Texts
pub mod Nodes
use momo_hdb.Base.{
  ℕ, zero, suc, Bool, true, false, not, ◌&&◌, ◌||◌, ◌==◌, Option, none, some, List, [], ◌∷◌, ◌++◌,
}
use momo_hdb.Base.{Text, bytes, text_eq, length, if◌then◌else◌}
use momo_hdb.Base.Int.{ℤ}
use momo_hdb.Yaml.{Yaml, Call, Attempt, done, failed, threw, let_pass, handled, guard, ◌>>=◌, ◌>>◌}
use momo_hdb.Subscription.{Market, SubType, SecuritySpec, SubscribeConfig}

unfoldable pub parse_market : Text → Attempt Text Market
parse_market s =
    if text_eq s (bytes "HK")
    then done Market.hk_security
    else if text_eq s (bytes "US")
    then done Market.us_security
    else if text_eq s (bytes "SH")
    then done Market.cnsh_security
    else if text_eq s (bytes "SZ")
    then done Market.cnsz_security
    else failed (bytes "unknown market: " ++ s)

-- `parse_code`, which nothing calls.
unfoldable pub parse_code : Text → Attempt Text Text
parse_code s = done s

unfoldable pub parse_subtype : Text → Attempt Text SubType
parse_subtype s =
    if text_eq s (bytes "BasicQot")
    then done SubType.basic
    else if text_eq s (bytes "OrderBook")
    then done SubType.order_book
    else if text_eq s (bytes "Ticker")
    then done SubType.ticker
    else if text_eq s (bytes "KL_1Min")
    then done SubType.kl_1min
    else if text_eq s (bytes "RT")
    then done SubType.rt
    else if text_eq s (bytes "Broker")
    then done SubType.broker
    else failed (bytes "unknown subtype: " ++ s)

abbrev pub push_front : ℕ → Option (Text × Text) → Option (Text × Text)
push_front c none = none
push_front c (some (mk, code)) = some (c ∷ mk, code)

-- `symbol.find('.')` with what stands before the dot and behind it.
unfoldable pub split_dot : Text → Option (Text × Text)
split_dot [] = none
split_dot (c ∷ s) = if c == b'.' then some ([], s) else push_front c (split_dot s)

abbrev invalid_symbol : {A : Type 0} → Text → Attempt Text A
invalid_symbol symbol = failed (bytes "invalid security symbol: " ++ symbol)

abbrev pub with_code : Text → Market → Attempt Text (Market × Text)
with_code code market = done (market, code)

unfoldable pub parse_parts : Text → Option (Text × Text) → Attempt Text (Market × Text)
parse_parts symbol none = invalid_symbol symbol
parse_parts symbol (some (mk, code)) =
    if length mk == 0 || length code == 0
    then invalid_symbol symbol
    else (parse_market mk >>= with_code code)

unfoldable pub parse_security : Text → Attempt Text (Market × Text)
parse_security symbol = parse_parts symbol (split_dot symbol)

module _ {N : Type 0} (yaml : Yaml N) where
  -- The loop over the entries of a list of subtypes.
  unfoldable pub parse_entries : List N → List SubType → Attempt Text (List SubType)
  parse_entries [] subtypes = done subtypes
  parse_entries (it ∷ rest) subtypes = do
    guard (yaml.is_scalar it) (bytes "subtype entry must be scalar")
    name ← let_pass (yaml.as_text it)
    st ← parse_subtype name
    parse_entries rest (subtypes ++ (st ∷ []))

  unfoldable pub parse_security_subtypes : N → Attempt Text (List SubType)
  parse_security_subtypes node = do
    guard (yaml.is_defined node) (bytes "subtypes node missing")
    guard (yaml.is_sequence node) (bytes "subtypes must be sequence")
    parse_entries (yaml.elements node) []

  -- `if (node) parse_security_subtypes(node, out);` over what `out` is otherwise.
  unfoldable pub subtypes_or : List SubType → N → Attempt Text (List SubType)
  subtypes_or otherwise node =
      if yaml.is_defined node then parse_security_subtypes node else done otherwise

  unfoldable pub version_or : ℤ → N → Attempt Text ℤ
  version_or unset v =
      if yaml.is_defined v && yaml.is_scalar v then let_pass (yaml.as_int v) else done unset

  unfoldable pub default_list : N → Attempt Text (List SubType)
  default_list d =
      if yaml.is_defined d && yaml.is_map d
      then let_pass (yaml.at_key d (bytes "subtypes")) >>= subtypes_or []
      else done []

  unfoldable pub load_item : List SubType → N → Attempt Text SecuritySpec
  load_item defaults item = do
    sym ← let_pass (yaml.at_key item (bytes "symbol"))
    guard (yaml.is_defined sym && yaml.is_scalar sym) (bytes "security symbol must be a scalar")
    symbol ← let_pass (yaml.as_text sym)
    parsed ← parse_security symbol
    st ← let_pass (yaml.at_key item (bytes "subtypes"))
    subtypes ← subtypes_or defaults st
    done (record { code = parsed.1; market = parsed.0; subtypes = subtypes })

  unfoldable pub load_items :
      List SubType → List N → List SecuritySpec → Attempt Text (List SecuritySpec)
  load_items defaults [] securities = done securities
  load_items defaults (item ∷ items) securities = do
    spec ← load_item defaults item
    load_items defaults items (securities ++ (spec ∷ []))

  unfoldable pub load_root : ℤ → N → Attempt Text SubscribeConfig
  load_root unset root = do
    v ← let_pass (yaml.at_key root (bytes "version"))
    version ← version_or unset v
    d ← let_pass (yaml.at_key root (bytes "defaults"))
    defaults ← default_list d
    secs ← let_pass (yaml.at_key root (bytes "securities"))
    guard (yaml.is_defined secs && yaml.is_sequence secs) (bytes "securities must be a sequence")
    securities ← load_items defaults (yaml.elements secs) []
    done (record { version = version; default_subtypes = defaults; securities = securities })

  -- `load`, on what `YAML::LoadFile` does with the path.
  unfoldable pub load : ℤ → Call N → Attempt Text SubscribeConfig
  load unset file = do
    root ← handled (λ what. bytes "failed to load yaml: " ++ what) file
    load_root unset root
