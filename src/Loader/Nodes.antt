-- ===== src/Loader/Nodes.antt =====
-- A configuration loaded from a file (momo_feed/src/config/SubscriptionLoader.cpp) holds just what the file
-- names.
use momo_hdb.Base.{◌≡◌, refl, sym, ap, ap₂, ◌∙◌, Bool, true, false, ◌&&◌, ◌||◌, arith}
use momo_hdb.Base.{List, [], ◌∷◌, ◌++◌, Text, bytes}
use momo_hdb.Base.{Bool-cases, inl, inr}
use momo_hdb.Base.Int.{ℤ}
use momo_hdb.Yaml.{Yaml, Call, returned, raised, Attempt, done, failed, threw, let_pass, Ends}
use momo_hdb.Yaml.{Ends-bind, Ends-after, Ends-guard, Ends→, Ends-of_eq}
use momo_hdb.Subscription.{
  SubType, SecurityId, SecuritySpec, SubscribeConfig, canonicalize, same_security,
}
use momo_hdb.Subscription.Mask.{contains}
use momo_hdb.Subscription.Canon.{view, listed}
use momo_hdb.Loader.Sound.{view-listed}
use momo_hdb.Loader
use momo_hdb.Loader.Names.{
  subtype_text, symbol_text, says, any, writes, lists_subtype, defaults_list, has_symbol,
  item_names, items_name, file_names,
}
use momo_hdb.Loader.Texts.{subtype_lem, symbol_lem, contains-snoc, listed-snoc}

or_assoc : (a b c : Bool) → (a || b) || c ≡ a || (b || c)
or_assoc true b c = refl
or_assoc false b c = refl

Ends-map :
    {E A : Type 0} (P Q : A → Type 0) (m : Attempt E A)
    → ((a : A) → P a → Q a)
    → Ends P m
    → Ends Q m
Ends-map P Q (done a) f h = f a h
Ends-map P Q (failed e) f h = tt
Ends-map P Q (threw what) f h = tt

passed : {A : Type 0} (c : Call A) → Ends (λ a. c ≡ returned a) (let_pass {E = Text} c)
passed (returned a) = refl
passed (raised what) = tt

module _ {N : Type 0} (yaml : Yaml N) (t : SubType) where
  entries_hold :
      (entries : List N) (sofar : List SubType)
      → Ends
          (λ ts. contains t ts ≡ contains t sofar || any (writes yaml t) entries)
          (Loader.parse_entries yaml entries sofar)
  unfolding Loader.parse_entries
  entries_hold [] sofar = ground arith
  entries_hold (it ∷ rest) sofar = Ends-guard _ (yaml.is_scalar it) _ _ λ scalar.
      Ends-bind (λ name. yaml.as_text it ≡ returned name) _ (let_pass (yaml.as_text it)) _
        (passed (yaml.as_text it))
        λ name read.
          Ends-bind (λ st. Loader.parse_subtype name ≡ done st) _ (Loader.parse_subtype name) _
            (Ends-of_eq _ (Loader.parse_subtype name) (λ st e. e))
            λ st parsed.
              Ends-map _ _ (Loader.parse_entries yaml rest (sofar ++ (st ∷ [])))
                (λ ts h.
                  h
                  ∙ ap (λ b. b || any (writes yaml t) rest)
                      (contains-snoc t st sofar
                        ∙ ap (λ b. contains t sofar || b)
                            (sym (ap (says (subtype_text t)) read ∙ subtype_lem name st t parsed)))
                  ∙ or_assoc (contains t sofar) (writes yaml t it) (any (writes yaml t) rest))
                (entries_hold rest (sofar ++ (st ∷ [])))

  list_holds :
      (otherwise : List SubType) (c : Call N) (node : N)
      → c ≡ returned node
      → Ends
          (λ ts. contains t ts ≡ lists_subtype yaml t (contains t otherwise) c)
          (Loader.subtypes_or yaml otherwise node)
  unfolding Loader.subtypes_or Loader.parse_security_subtypes contains
  list_holds otherwise c node at = rw at (elim (Bool-cases (yaml.is_defined node)) [
    | inl here ↦
        rw here (
          Ends-guard _ (yaml.is_sequence node) _ _ λ sequence. entries_hold (yaml.elements node) [])
    | inr missing ↦ rw missing refl
  ])

  defaults_hold :
      (c : Call N) (d : N)
      → c ≡ returned d
      → Ends (λ ts. contains t ts ≡ defaults_list yaml t c) (Loader.default_list yaml d)
  unfolding Loader.default_list contains
  defaults_hold c d at = rw at (elim (Bool-cases (yaml.is_defined d && yaml.is_map d)) [
    | inl here ↦ rw here (
        Ends-bind (λ st. yaml.at_key d (bytes "subtypes") ≡ returned st) _
          (let_pass (yaml.at_key d (bytes "subtypes"))) _
          (passed (yaml.at_key d (bytes "subtypes")))
          λ st found. list_holds [] (yaml.at_key d (bytes "subtypes")) st found)
    | inr missing ↦ rw missing refl
  ])

  module _ (id : SecurityId) where
    abbrev Names : List SubType → N → SecuritySpec → Type 0
    Names defaults item spec =
        (same_security (record { market = spec.market; code = spec.code }) id
          && contains t spec.subtypes)
        ≡ item_names yaml id t (contains t defaults) item

    item_holds :
        (defaults : List SubType) (item : N)
        → Ends (Names defaults item) (Loader.load_item yaml defaults item)
    unfolding Loader.load_item
    item_holds defaults item =
        Ends-bind (λ s. yaml.at_key item (bytes "symbol") ≡ returned s) _
          (let_pass (yaml.at_key item (bytes "symbol"))) _
          (passed (yaml.at_key item (bytes "symbol")))
          λ sym_node found.
            Ends-guard _ (yaml.is_defined sym_node && yaml.is_scalar sym_node) _ _ λ scalar.
              Ends-bind (λ s. yaml.as_text sym_node ≡ returned s) _
                (let_pass (yaml.as_text sym_node)) _ (passed (yaml.as_text sym_node))
                λ symbol read.
                  Ends-bind (λ p. Loader.parse_security symbol ≡ done p) _
                    (Loader.parse_security symbol) _
                    (Ends-of_eq _ (Loader.parse_security symbol) (λ p e. e))
                    λ p parsed.
                      Ends-bind (λ st. yaml.at_key item (bytes "subtypes") ≡ returned st) _
                        (let_pass (yaml.at_key item (bytes "subtypes"))) _
                        (passed (yaml.at_key item (bytes "subtypes")))
                        λ st at.
                          Ends-bind _ _ (Loader.subtypes_or yaml defaults st) _
                            (list_holds defaults (yaml.at_key item (bytes "subtypes")) st at)
                            λ ts listing.
                              ap₂ (λ a b. a && b)
                                (sym (
                                  ap (has_symbol yaml id) found
                                  ∙ ap (says (symbol_text id)) read
                                  ∙ symbol_lem symbol p id parsed))
                                listing

    items_hold :
        (defaults : List SubType) (items : List N) (sofar : List SecuritySpec)
        → Ends
            (λ ss.
              listed ss id t
              ≡ listed sofar id t || any (item_names yaml id t (contains t defaults)) items)
            (Loader.load_items yaml defaults items sofar)
    unfolding Loader.load_items
    items_hold defaults [] sofar = ground arith
    items_hold defaults (item ∷ items) sofar =
        Ends-bind (Names defaults item) _ (Loader.load_item yaml defaults item) _
          (item_holds defaults item)
          λ spec names.
            Ends-map _ _ (Loader.load_items yaml defaults items (sofar ++ (spec ∷ [])))
              (λ ss h.
                h
                ∙ ap (λ b. b || any (item_names yaml id t (contains t defaults)) items)
                    (listed-snoc sofar spec id t ∙ ap (λ b. listed sofar id t || b) names)
                ∙ or_assoc (listed sofar id t) (item_names yaml id t (contains t defaults) item)
                    (any (item_names yaml id t (contains t defaults)) items))
              (items_hold defaults items (sofar ++ (spec ∷ [])))

    abbrev Held : N → SubscribeConfig → Type 0
    Held root cfg = listed cfg.securities id t ≡ file_names yaml root id t

    root_holds : (unset : ℤ) (root : N) → Ends (Held root) (Loader.load_root yaml unset root)
    unfolding Loader.load_root file_names listed
    root_holds unset root = Ends-after _ (let_pass (yaml.at_key root (bytes "version"))) _ λ v.
        Ends-after _ (Loader.version_or yaml unset v) _ λ version.
          Ends-bind (λ d. yaml.at_key root (bytes "defaults") ≡ returned d) _
            (let_pass (yaml.at_key root (bytes "defaults"))) _
            (passed (yaml.at_key root (bytes "defaults")))
            λ d found.
              Ends-bind _ _ (Loader.default_list yaml d) _
                (defaults_hold (yaml.at_key root (bytes "defaults")) d found)
                λ defaults by_default.
                  Ends-bind (λ s. yaml.at_key root (bytes "securities") ≡ returned s) _
                    (let_pass (yaml.at_key root (bytes "securities"))) _
                    (passed (yaml.at_key root (bytes "securities")))
                    λ secs at.
                      Ends-guard _ (yaml.is_defined secs && yaml.is_sequence secs) _ _ λ sequence.
                        Ends-bind _ _ (Loader.load_items yaml defaults (yaml.elements secs) []) _
                          (items_hold defaults (yaml.elements secs) [])
                          λ securities all.
                            all
                            ∙ ap (λ b. any (item_names yaml id t b) (yaml.elements secs)) by_default
                            ∙ sym (
                                ap
                                  (items_name yaml id t
                                    (defaults_list yaml t (yaml.at_key root (bytes "defaults"))))
                                  at)

-- From the file to the state: for a file that loads, the canonical state has a subtype of a security
-- exactly if the file names it: some item of its `securities` has for its symbol the market's name, a
-- dot and the code, and has the subtype's name among its own `subtypes`, or has no such list and the
-- `subtypes` of the file's `defaults` have it. Nothing that the file names is lost or changed, and
-- nothing is added.
pub view-load :
    {N : Type 0} (yaml : Yaml N) (unset : ℤ) (root : N) {cfg : SubscribeConfig} (id : SecurityId)
    (t : SubType)
    → Loader.load yaml unset (returned root) ≡ done cfg
    → view (canonicalize cfg) id t ≡ file_names yaml root id t
unfolding Loader.load
view-load yaml unset root {cfg} id t e =
    view-listed yaml unset (returned root) id t e
    ∙ Ends→ (Held yaml t id root) (Loader.load_root yaml unset root)
        (root_holds yaml t id unset root) e
