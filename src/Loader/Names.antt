-- ===== src/Loader/Names.antt =====
-- What a subscription file names, read off its nodes alone.
use momo_hdb.Base.{Bool, false, ◌&&◌, ◌||◌}
use momo_hdb.Base.{Option, none, some, List, [], ◌∷◌, ◌++◌, Text, bytes, text_eq, if◌then◌else◌}
use momo_hdb.Yaml.{Yaml, Call, returned, raised}
use momo_hdb.Subscription.{SubType, SecurityId}
use momo_hdb.Loader.Sound.{market_text}

-- How the file writes a subtype, and a security.
abbrev pub subtype_text : SubType → Option Text
subtype_text SubType.basic = some (bytes "BasicQot")
subtype_text SubType.order_book = some (bytes "OrderBook")
subtype_text SubType.ticker = some (bytes "Ticker")
subtype_text SubType.kl_1min = some (bytes "KL_1Min")
subtype_text SubType.rt = some (bytes "RT")
subtype_text SubType.broker = some (bytes "Broker")
subtype_text _ = none

abbrev pub with_dot : Text → Option Text → Option Text
with_dot code none = none
with_dot code (some mk) = some (mk ++ (b'.' ∷ code))

abbrev pub symbol_text : SecurityId → Option Text
symbol_text id = with_dot id.code (market_text id.market)

abbrev pub is_text : Option Text → Text → Bool
is_text none s = false
is_text (some w) s = text_eq s w

abbrev pub says : Option Text → Call Text → Bool
says w (returned s) = is_text w s
says w (raised what) = false

abbrev pub any : {A : Type 0} → (A → Bool) → List A → Bool
any p [] = false
any p (x ∷ xs) = p x || any p xs

module _ {N : Type 0} (yaml : Yaml N) where
  abbrev pub writes : SubType → N → Bool
  writes t it = says (subtype_text t) (yaml.as_text it)

  -- A list of subtypes, or what holds where the list is missing.
  abbrev pub lists_subtype : SubType → Bool → Call N → Bool
  lists_subtype t otherwise (raised what) = false
  lists_subtype t otherwise (returned st) =
      if yaml.is_defined st then any (writes t) (yaml.elements st) else otherwise

  abbrev pub defaults_list : SubType → Call N → Bool
  defaults_list t (raised what) = false
  defaults_list t (returned d) =
      if yaml.is_defined d && yaml.is_map d
      then lists_subtype t false (yaml.at_key d (bytes "subtypes"))
      else false

  abbrev pub has_symbol : SecurityId → Call N → Bool
  has_symbol id (raised what) = false
  has_symbol id (returned s) = says (symbol_text id) (yaml.as_text s)

  -- An item names the security, and lists the subtype or leaves it to the defaults.
  abbrev pub item_names : SecurityId → SubType → Bool → N → Bool
  item_names id t by_default item =
      has_symbol id (yaml.at_key item (bytes "symbol"))
      && lists_subtype t by_default (yaml.at_key item (bytes "subtypes"))

  abbrev pub items_name : SecurityId → SubType → Bool → Call N → Bool
  items_name id t by_default (raised what) = false
  items_name id t by_default (returned secs) = any (item_names id t by_default) (yaml.elements secs)

  -- The file names the subtype for the security.
  unfoldable pub file_names : N → SecurityId → SubType → Bool
  file_names root id t =
      items_name id t (defaults_list t (yaml.at_key root (bytes "defaults")))
        (yaml.at_key root (bytes "securities"))
