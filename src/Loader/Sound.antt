-- ===== src/Loader/Sound.antt =====
-- What the loader accepts, and what holds of a configuration that it loads.
use momo_hdb.Base.{
  ℕ, ◌≡◌, ◌≢◌, ◌↔◌, refl, sym, ap, subst, ◌∙◌, Bool, true, false, ◌&&◌, ◌==◌, arith,
}
use momo_hdb.Base.{
  Option, none, some, List, [], ◌∷◌, ◌++◌, Text, bytes, text_eq_iff, All, if◌then◌else◌,
}
use momo_hdb.Base.{Bool-cases, inl, inr, ==_iff}
use momo_hdb.Base.Int.{ℤ}
use momo_hdb.Yaml.{Yaml, Call, Attempt, done, failed, threw, let_pass, handled, ◌>>=◌, Ends}
use momo_hdb.Yaml.{Ends-bind, Ends-after, Ends-if, Ends-guard, Ends→, Ends-of_eq}
use momo_hdb.Subscription.{Market, SubType, SecurityId, SecuritySpec, SubscribeConfig, canonicalize}
use momo_hdb.Subscription.Mask.{contains, is_named, subtype_eq}
use momo_hdb.Subscription.Canon.{view, listed, view-canonicalize}
use momo_hdb.Loader

-- How the file writes a market.
abbrev pub market_text : Market → Option Text
market_text Market.hk_security = some (bytes "HK")
market_text Market.us_security = some (bytes "US")
market_text Market.cnsh_security = some (bytes "SH")
market_text Market.cnsz_security = some (bytes "SZ")
market_text (Market.other n) = none

parse_market_lem : (s : Text) {m : Market} → Loader.parse_market s ≡ done m → market_text m ≡ some s
unfolding Loader.parse_market
parse_market_lem s e = ground (
  arith,
  text_eq_iff s (bytes "HK"),
  text_eq_iff s (bytes "US"),
  text_eq_iff s (bytes "SH"),
  text_eq_iff s (bytes "SZ"),
)

split_step :
    (c : ℕ) (s : Text) (dot : Bool) (o : Option (Text × Text)) {mk code : Text}
    → (dot ≡ true → c ≡ b'.')
    → ((mk code : Text) → o ≡ some (mk, code) → s ≡ mk ++ (b'.' ∷ code))
    → (if dot then some ([], s) else Loader.push_front c o) ≡ some (mk, code)
    → c ∷ s ≡ mk ++ (b'.' ∷ code)
split_step c s true o is_dot ih e = let here = is_dot refl in ground arith
split_step c s false none is_dot ih e = cc
split_step c s false (some (mk', code')) is_dot ih e = let rest = ih mk' code' refl in ground arith

pub split_dot_lem :
    (s : Text) (mk code : Text) → Loader.split_dot s ≡ some (mk, code) → s ≡ mk ++ (b'.' ∷ code)
unfolding Loader.split_dot
split_dot_lem [] mk code e = cc
split_dot_lem (c ∷ s) mk code e =
    split_step c s (c == b'.') (Loader.split_dot s) ((==_iff c b'.').0) (split_dot_lem s) e

pub parse_parts_lem :
    (s : Text) (o : Option (Text × Text)) {m : Market} {code : Text}
    → Loader.parse_parts s o ≡ done (m, code)
    → (mk : Text) × (o ≡ some (mk, code)) × (market_text m ≡ some mk) × (code ≢ [])
unfolding Loader.parse_parts
parse_parts_lem s none e = cc
parse_parts_lem s (some ([], code')) e = cc
parse_parts_lem s (some (x ∷ mk, [])) e = absurd (ground arith)
parse_parts_lem s (some (x ∷ mk, y ∷ code')) {m} {code} e =
    by_market (Loader.parse_market (x ∷ mk)) refl (ground arith)
  where
    by_market :
        (r : Attempt Text Market)
        → Loader.parse_market (x ∷ mk) ≡ r
        → (r >>= Loader.with_code (y ∷ code')) ≡ done (m, code)
        → (mk' : Text) × (◌≡◌ {A = Option (Text × Text)}
            (some (x ∷ mk, y ∷ code'))
            (some (mk', code)))
          × (market_text m ≡ some mk')
          × (code ≢ [])
    by_market (done market) known eq =
        let same : market ≡ m = cc in
        (x ∷ mk, cc, parse_market_lem (x ∷ mk) (known ∙ ap done same), λ none_left. cc)
    by_market (failed why) known eq = cc
    by_market (threw what) known eq = cc

accepted :
    (m : Market) (mk code : Text)
    → market_text m ≡ some mk
    → code ≢ []
    → Loader.parse_security (mk ++ (b'.' ∷ code)) ≡ done (m, code)
unfolding Loader.parse_security Loader.split_dot Loader.parse_parts Loader.parse_market
accepted m mk [] known ne = absurd (ne refl)
accepted Market.hk_security mk (c ∷ code) known ne = ground arith
accepted Market.us_security mk (c ∷ code) known ne = ground arith
accepted Market.cnsh_security mk (c ∷ code) known ne = ground arith
accepted Market.cnsz_security mk (c ∷ code) known ne = ground arith
accepted (Market.other n) mk (c ∷ code) known ne = cc

-- The symbols that `parse_security` accepts are the four markets' names, a dot and a code that is not
-- empty; it returns that market and that code.
pub parse_security_iff :
    (s : Text) (m : Market) (code : Text)
    → (Loader.parse_security s ≡ done (m, code))
      ↔ ((mk : Text) × (market_text m ≡ some mk) × (s ≡ mk ++ (b'.' ∷ code)) × (code ≢ []))
unfolding Loader.parse_security
parse_security_iff s m code = (
  λ e.
      let (mk, split, known, ne) = parse_parts_lem s (Loader.split_dot s) e in
      (mk, known, split_dot_lem s mk code split, ne),
  λ (mk, known, eq, ne).
      subst (λ t. Loader.parse_security t ≡ done (m, code)) (sym eq) (accepted m mk code known ne),
)

-- A security of a loaded configuration: of a market and with subtypes that the file can name, and with
-- a code.
pub record IsSpec (s : SecuritySpec) : Type 0 where
  pub known : (mk : Text) × (market_text s.market ≡ some mk)
  pub coded : s.code ≢ []
  pub named : All (λ t. is_named t ≡ true) s.subtypes

AllNamed : List SubType → Type 0
AllNamed ts = All (λ t. is_named t ≡ true) ts

AllNamed-snoc :
    (ts : List SubType) (t : SubType) → AllNamed ts → is_named t ≡ true → AllNamed (ts ++ (t ∷ []))
unfolding AllNamed
AllNamed-snoc [] t h k = (k, tt)
AllNamed-snoc (u ∷ us) t (p, h) k = (p, AllNamed-snoc us t h k)

parse_subtype-Ends : (s : Text) → Ends (λ t. is_named t ≡ true) (Loader.parse_subtype s)
unfolding Loader.parse_subtype is_named
parse_subtype-Ends s = Ends-of_eq _ (Loader.parse_subtype s) (λ t e. ground arith)

module _ {N : Type 0} (yaml : Yaml N) where
  parse_entries-Ends :
      (entries : List N) (sofar : List SubType)
      → AllNamed sofar
      → Ends AllNamed (Loader.parse_entries yaml entries sofar)
  unfolding Loader.parse_entries
  parse_entries-Ends [] sofar h = h
  parse_entries-Ends (it ∷ rest) sofar h = Ends-guard AllNamed (yaml.is_scalar it) _ _ λ scalar.
      Ends-after AllNamed (let_pass (yaml.as_text it)) _ λ name.
        Ends-bind _ AllNamed (Loader.parse_subtype name) _ (parse_subtype-Ends name)
          λ st named. parse_entries-Ends rest (sofar ++ (st ∷ [])) (AllNamed-snoc sofar st h named)

  subtypes_or-Ends :
      (otherwise : List SubType) (node : N)
      → AllNamed otherwise
      → Ends AllNamed (Loader.subtypes_or yaml otherwise node)
  unfolding Loader.subtypes_or Loader.parse_security_subtypes AllNamed
  subtypes_or-Ends otherwise node h =
      Ends-if AllNamed (yaml.is_defined node) _ _
        (Ends-guard AllNamed (yaml.is_defined node) _ _ λ defined.
          Ends-guard AllNamed (yaml.is_sequence node) _ _
            λ sequence. parse_entries-Ends (yaml.elements node) [] tt)
        h

  default_list-Ends : (d : N) → Ends AllNamed (Loader.default_list yaml d)
  unfolding Loader.default_list AllNamed
  default_list-Ends d =
      Ends-if AllNamed (yaml.is_defined d && yaml.is_map d) _ _
        (Ends-after AllNamed (let_pass (yaml.at_key d (bytes "subtypes"))) _
          λ sts. subtypes_or-Ends [] sts tt)
        tt

  load_item-Ends :
      (defaults : List SubType) (item : N)
      → AllNamed defaults
      → Ends IsSpec (Loader.load_item yaml defaults item)
  unfolding Loader.load_item AllNamed
  load_item-Ends defaults item h =
      Ends-after IsSpec (let_pass (yaml.at_key item (bytes "symbol"))) _ λ sym.
        Ends-guard IsSpec (yaml.is_defined sym && yaml.is_scalar sym) _ _ λ scalar.
          Ends-after IsSpec (let_pass (yaml.as_text sym)) _ λ symbol.
            Ends-bind Symbol IsSpec (Loader.parse_security symbol) _ (parsed symbol)
              λ p (mk, known, ne).
                Ends-after IsSpec (let_pass (yaml.at_key item (bytes "subtypes"))) _ λ st.
                  Ends-bind AllNamed IsSpec (Loader.subtypes_or yaml defaults st) _
                    (subtypes_or-Ends defaults st h)
                    λ ts named. record { known = (mk, known); coded = ne; named = named }
    where
      Symbol : Market × Text → Type 0
      Symbol p = (mk : Text) × (market_text p.0 ≡ some mk) × (p.1 ≢ [])

      parsed : (symbol : Text) → Ends Symbol (Loader.parse_security symbol)
      parsed symbol = Ends-of_eq Symbol (Loader.parse_security symbol) λ p e.
          let (mk, known, eq, ne) = (parse_security_iff symbol p.0 p.1).0 e in (mk, known, ne)

  AllSpecs-snoc :
      (ss : List SecuritySpec) (s : SecuritySpec)
      → All IsSpec ss
      → IsSpec s
      → All IsSpec (ss ++ (s ∷ []))
  AllSpecs-snoc [] s h k = (k, tt)
  AllSpecs-snoc (u ∷ us) s (p, h) k = (p, AllSpecs-snoc us s h k)

  load_items-Ends :
      (defaults : List SubType) (items : List N) (sofar : List SecuritySpec)
      → AllNamed defaults
      → All IsSpec sofar
      → Ends (All IsSpec) (Loader.load_items yaml defaults items sofar)
  unfolding Loader.load_items
  load_items-Ends defaults [] sofar h k = k
  load_items-Ends defaults (item ∷ items) sofar h k =
      Ends-bind IsSpec (All IsSpec) (Loader.load_item yaml defaults item) _
        (load_item-Ends defaults item h)
        λ spec is.
          load_items-Ends defaults items (sofar ++ (spec ∷ [])) h (AllSpecs-snoc sofar spec k is)

  load-Ends :
      (unset : ℤ) (file : Call N)
      → Ends (λ cfg. All IsSpec cfg.securities) (Loader.load yaml unset file)
  unfolding Loader.load Loader.load_root
  load-Ends unset file =
      let Good : SubscribeConfig → Type 0 = λ cfg. All IsSpec cfg.securities in
      Ends-after Good (handled (λ what. bytes "failed to load yaml: " ++ what) file) _ λ root.
        Ends-after Good (let_pass (yaml.at_key root (bytes "version"))) _ λ v.
          Ends-after Good (Loader.version_or yaml unset v) _ λ version.
            Ends-after Good (let_pass (yaml.at_key root (bytes "defaults"))) _ λ d.
              Ends-bind AllNamed Good (Loader.default_list yaml d) _ (default_list-Ends d)
                λ defaults named.
                  Ends-after Good (let_pass (yaml.at_key root (bytes "securities"))) _ λ secs.
                    Ends-guard Good (yaml.is_defined secs && yaml.is_sequence secs) _ _ λ sequence.
                      Ends-bind (All IsSpec) Good
                        (Loader.load_items yaml defaults (yaml.elements secs) []) _
                        (load_items-Ends defaults (yaml.elements secs) [] named tt)
                        λ securities good. good

  -- Every security of a configuration that loads has one of the four markets, a code that is not empty,
  -- and subtypes among the six that the file can name.
  pub load_lem :
      (unset : ℤ) (file : Call N) {cfg : SubscribeConfig}
      → Loader.load yaml unset file ≡ done cfg
      → All IsSpec cfg.securities
  load_lem unset file e =
      Ends→ (λ cfg. All IsSpec cfg.securities) (Loader.load yaml unset file) (load-Ends unset file)
        e

subtype_eq_lem : (u t : SubType) → subtype_eq u t ≡ true → u ≡ t
subtype_eq_lem u t e = ground arith

contains_named :
    (ts : List SubType) (t : SubType) → AllNamed ts → contains t ts ≡ true → is_named t ≡ true
unfolding contains AllNamed
contains_named [] t h e = cc
contains_named (u ∷ us) t (named, h) e = elim (Bool-cases (subtype_eq u t)) [
  | inl same ↦ subst (λ v. is_named v ≡ true) (subtype_eq_lem u t same) named
  | inr other ↦ contains_named us t h (ground (arith, other))
]

listed_named :
    (ss : List SecuritySpec) (id : SecurityId) (t : SubType)
    → All IsSpec ss
    → listed ss id t ≡ true
    → is_named t ≡ true
unfolding listed AllNamed
listed_named [] id t h e = cc
listed_named (s ∷ ss) id t (spec, h) e =
    ground (arith, contains_named s.subtypes t spec.named, listed_named ss id t h)

-- For a configuration that loads, the canonical state has a subtype of a security exactly if some entry
-- of the configuration for that security lists it.
pub view-listed :
    {N : Type 0} (yaml : Yaml N) (unset : ℤ) (file : Call N) {cfg : SubscribeConfig}
    (id : SecurityId) (t : SubType)
    → Loader.load yaml unset file ≡ done cfg
    → view (canonicalize cfg) id t ≡ listed cfg.securities id t
view-listed yaml unset file {cfg} id t e = ground (
  arith,
  view-canonicalize cfg id t,
  listed_named cfg.securities id t (load_lem yaml unset file e),
)
