-- ===== src/Loader/Texts.antt =====
-- The texts of the subscription file, as the loader (momo_feed/src/config/SubscriptionLoader.cpp) takes them and
-- as Loader.Names writes them.
use momo_hdb.Base.{◌≡◌, refl, sym, ap, ap₂, ◌∙◌, Bool, true, false, ◌&&◌, ◌||◌, arith}
use momo_hdb.Base.{Option, none, some, List, [], ◌∷◌, ◌++◌, Text, bytes, text_eq_iff}
use momo_hdb.Yaml.{done}
use momo_hdb.Subscription.{
  Market, SubType, SecurityId, SecuritySpec, same_security, same_security_iff,
}
use momo_hdb.Subscription.Mask.{contains, subtype_eq}
use momo_hdb.Subscription.Canon.{listed}
use momo_hdb.Loader.Sound.{market_text, parse_parts_lem, split_dot_lem}
use momo_hdb.Loader
use momo_hdb.Loader.Names.{subtype_text, with_dot, symbol_text, is_text}

iff_eq : (a b : Bool) → (a ≡ true → b ≡ true) → (b ≡ true → a ≡ true) → a ≡ b
iff_eq true b f g = sym (f refl)
iff_eq false true f g = g refl
iff_eq false false f g = refl

pub subtype_lem :
    (s : Text) (u t : SubType)
    → Loader.parse_subtype s ≡ done u
    → is_text (subtype_text t) s ≡ subtype_eq u t
unfolding Loader.parse_subtype
subtype_lem s u t e = ground (
  arith,
  text_eq_iff s (bytes "BasicQot"),
  text_eq_iff s (bytes "OrderBook"),
  text_eq_iff s (bytes "Ticker"),
  text_eq_iff s (bytes "KL_1Min"),
  text_eq_iff s (bytes "RT"),
  text_eq_iff s (bytes "Broker"),
)

split_symbol :
    (m : Market) (mk code : Text)
    → market_text m ≡ some mk
    → Loader.split_dot (mk ++ (b'.' ∷ code)) ≡ some (mk, code)
unfolding Loader.split_dot
split_symbol Market.hk_security mk code e = ground arith
split_symbol Market.us_security mk code e = ground arith
split_symbol Market.cnsh_security mk code e = ground arith
split_symbol Market.cnsz_security mk code e = ground arith
split_symbol (Market.other n) mk code e = cc

market_of_text :
    (m : Market) (mk : Text) → market_text m ≡ some mk → Loader.parse_market mk ≡ done m
unfolding Loader.parse_market
market_of_text Market.hk_security mk e = ground arith
market_of_text Market.us_security mk e = ground arith
market_of_text Market.cnsh_security mk e = ground arith
market_of_text Market.cnsz_security mk e = ground arith
market_of_text (Market.other n) mk e = cc

split_unique :
    {mk mk' c c' : Text}
    → ◌≡◌ {A = Option (Text × Text)} (some (mk, c)) (some (mk', c'))
    → (mk ≡ mk') × (c ≡ c')
split_unique e = (cc, cc)

symbol_by :
    (s mk c : Text) (m : Market) (id : SecurityId) (o : Option Text)
    → s ≡ mk ++ (b'.' ∷ c)
    → market_text m ≡ some mk
    → market_text id.market ≡ o
    → is_text (with_dot id.code o) s ≡ same_security (record { market = m; code = c }) id
symbol_by s mk c m id none eq known o =
    iff_eq _ _ (λ e. cc)
      λ e.
        let same = (same_security_iff (record { market = m; code = c }) id).0 e in
        let clash : some mk ≡ none = sym known ∙ ap (λ i. market_text i.market) same ∙ o in cc
symbol_by s mk c m id (some mk') eq known o =
    iff_eq _ _
      (λ e.
        let whole = (text_eq_iff s (mk' ++ (b'.' ∷ id.code))).0 e in
        let (mks, codes) = split_unique (
          sym (split_symbol m mk c known)
          ∙ ap Loader.split_dot (sym eq ∙ whole)
          ∙ split_symbol id.market mk' id.code o) in
        let markets : done m ≡ done id.market =
          sym (market_of_text m mk known)
          ∙ ap Loader.parse_market mks
          ∙ market_of_text id.market mk' o in
        let market : m ≡ id.market = cc in
        (same_security_iff (record { market = m; code = c }) id).1
          (ap₂ (λ x y. record { market = x; code = y }) market codes))
      (λ e.
        let same = (same_security_iff (record { market = m; code = c }) id).0 e in
        let mks : some mk ≡ some mk' = sym known ∙ ap (λ i. market_text i.market) same ∙ o in
        let mk_same : mk ≡ mk' = cc in
        let codes = ap (λ i. i.code) same in
        (text_eq_iff s (mk' ++ (b'.' ∷ id.code))).1
          (eq ∙ ap₂ (λ (x y : Text). x ++ (b'.' ∷ y)) mk_same codes))

pub symbol_lem :
    (s : Text) (p : Market × Text) (id : SecurityId)
    → Loader.parse_security s ≡ done p
    → is_text (symbol_text id) s ≡ same_security (record { market = p.0; code = p.1 }) id
unfolding Loader.parse_security
symbol_lem s (m, c) id e =
    let (mk, split, known, ne) = parse_parts_lem s (Loader.split_dot s) e in
    symbol_by s mk c m id (market_text id.market) (split_dot_lem s mk c split) known refl

pub contains-snoc :
    (t u : SubType) (us : List SubType)
    → contains t (us ++ (u ∷ [])) ≡ contains t us || subtype_eq u t
unfolding contains
contains-snoc t u [] = ground arith
contains-snoc t u (v ∷ us) = ground (arith, contains-snoc t u us)

pub listed-snoc :
    (ss : List SecuritySpec) (s : SecuritySpec) (id : SecurityId) (t : SubType)
    → listed (ss ++ (s ∷ [])) id t
      ≡ listed ss id t
        || (same_security (record { market = s.market; code = s.code }) id && contains t s.subtypes)
unfolding listed
listed-snoc [] s id t = ground arith
listed-snoc (r ∷ ss) s id t = ground (arith, listed-snoc ss s id t)
