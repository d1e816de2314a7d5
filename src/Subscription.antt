-- ===== src/Subscription.antt =====
-- momo_feed/include/futu_quote/{Subscription,SubscriptionTools}.hpp: the securities to subscribe to,
-- as masks of subtypes, and the difference of two such states.
-- `Qot_Common::QotMarket` and `SubType` are protobuf enumerations: the enumerators that the source
-- names are constructors, all others are `other`. A `SubMask` is a number below 2 ^ 64.
pub mod Mask
pub mod Canon
pub mod Same
pub mod Diff
use Prim.Native.Nat.{bit_and, bit_or}
use momo_hdb.Base.{
  ℕ, ◌+◌, ◌-◌, ◌^◌, ◌≡◌, ◌↔◌, refl, Bool, true, false, not, ◌&&◌, Option, none, some, arith,
}
use momo_hdb.Base.{List, [], ◌∷◌, ◌++◌, length, Text, text_eq, text_eq_iff, Eq, ◌==◌, if◌then◌else◌}
use momo_hdb.Base.Int.{ℤ}
use momo_hdb.Base.Maps.{find, insert}

pub data Market : Type 0 where
  hk_security us_security cnsh_security cnsz_security : Market
  other : ℕ → Market

pub data SubType : Type 0 where
  basic order_book ticker kl_1min rt broker : SubType
  other : ℕ → SubType

pub record SecurityId : Type 0 where
  pub market : Market
  pub code : Text

abbrev pub market_eq : Market → Market → Bool
market_eq Market.hk_security Market.hk_security = true
market_eq Market.us_security Market.us_security = true
market_eq Market.cnsh_security Market.cnsh_security = true
market_eq Market.cnsz_security Market.cnsz_security = true
market_eq (Market.other n) (Market.other m) = n == m
market_eq _ _ = false

pub market_eq_iff : (a b : Market) → (market_eq a b ≡ true) ↔ (a ≡ b)
market_eq_iff a b = ground arith

-- `SecurityId::operator==`
abbrev pub same_security : SecurityId → SecurityId → Bool
same_security a b = market_eq a.market b.market && text_eq a.code b.code

pub same_security_iff : (a b : SecurityId) → (same_security a b ≡ true) ↔ (a ≡ b)
same_security_iff a b = ground (arith, market_eq_iff a.market b.market, text_eq_iff a.code b.code)

instance abbrev pub security_eq : Eq SecurityId
security_eq = record { beq = same_security; beq_iff = same_security_iff }

pub record SecuritySpec : Type 0 where
  pub code : Text
  pub market : Market
  pub subtypes : List SubType

pub record SubscribeConfig : Type 0 where
  pub version : ℤ
  pub default_subtypes : List SubType
  pub securities : List SecuritySpec

abbrev pub SubMask : Type 0
SubMask = ℕ

abbrev pub SubState : Type 0
SubState = List (SecurityId × SubMask)

unfoldable pub subtype_bit : SubType → SubMask
subtype_bit SubType.basic = 2 ^ 0
subtype_bit SubType.order_book = 2 ^ 1
subtype_bit SubType.ticker = 2 ^ 2
subtype_bit SubType.kl_1min = 2 ^ 3
subtype_bit SubType.rt = 2 ^ 4
subtype_bit SubType.broker = 2 ^ 5
subtype_bit (SubType.other n) = 0

-- `for (auto sub : s.subtypes) m |= subtype_bit(sub);`
unfoldable pub or_bits : SubMask → List SubType → SubMask
unfolding subtype_bit
or_bits m [] = m
or_bits m (t ∷ ts) = or_bits (bit_or m (subtype_bit t)) ts

-- `st[id]`: a missing key reads as 0.
unfoldable pub mask_at : SecurityId → SubState → SubMask
unfolding find
mask_at id st = elim (find id st) [ none ↦ 0 | some m ↦ m ]

unfoldable pub merge : SubState → SecuritySpec → SubState
unfolding mask_at insert or_bits
merge st s =
    let id : SecurityId = record { market = s.market; code = s.code } in
    insert id (bit_or (mask_at id st) (or_bits 0 s.subtypes)) st

unfoldable pub merge_all : SubState → List SecuritySpec → SubState
unfolding merge
merge_all st [] = st
merge_all st (s ∷ ss) = merge_all (merge st s) ss

unfoldable pub canonicalize : SubscribeConfig → SubState
unfolding merge_all
canonicalize cfg = merge_all [] cfg.securities

-- `if (m & (1ull << k)) out.push_back(t);`
abbrev pub pick : SubMask → ℕ → SubType → List SubType → List SubType
pick m k t rest = if bit_and m (2 ^ k) == 0 then rest else t ∷ rest

unfoldable pub mask_to_vec : SubMask → List SubType
mask_to_vec m = pick m 0 SubType.basic (
    pick m 1 SubType.order_book (
      pick m 2 SubType.ticker
        (pick m 3 SubType.kl_1min (pick m 4 SubType.rt (pick m 5 SubType.broker [])))))

-- The loop of `st_equal` over the first state.
unfoldable pub all_found : SubState → SubState → Bool
unfolding find
all_found [] b = true
all_found ((id, am) ∷ a) b = elim (find id b) [
  | none ↦ false
  | some bm ↦ if not (bm == am) then false else all_found a b
]

unfoldable pub st_equal : SubState → SubState → Bool
unfolding all_found
st_equal a b = if not (length a == length b) then false else all_found a b

pub record DiffItem : Type 0 where
  pub id : SecurityId
  pub mask : SubMask

pub record SubscriptionTools : Type 0 where
  pub add_security : List DiffItem
  pub remove_security : List DiffItem
  pub add_subtypes : List DiffItem
  pub del_subtypes : List DiffItem

-- `a & ~b` on 64 bits.
abbrev pub and_not : SubMask → SubMask → SubMask
and_not a b = bit_and a (2 ^ 64 - 1 - b)

item : SecurityId → SubMask → DiffItem
item i m = record { id = i; mask = m }

-- One security of the old state, against what the new one has for it.
unfoldable pub compare_old :
    SecurityId → SubMask → Option SubMask → SubscriptionTools → SubscriptionTools
unfolding item
compare_old id old none d = record d { remove_security = d.remove_security ++ (item id old ∷ []) }
compare_old id old (some new) d =
    let add = and_not new old in
    let del = and_not old new in
    record d {
      add_subtypes =
          if not (add == 0) then d.add_subtypes ++ (item id add ∷ []) else d.add_subtypes;
      del_subtypes =
          if not (del == 0) then d.del_subtypes ++ (item id del ∷ []) else d.del_subtypes;
    }

-- The first loop of `diff_state`.
unfoldable pub diff_old : SubState → SubState → SubscriptionTools → SubscriptionTools
unfolding compare_old find
diff_old [] new d = d
diff_old ((id, m) ∷ old) new d = diff_old old new (compare_old id m (find id new) d)

unfoldable pub compare_new :
    SecurityId → SubMask → Option SubMask → SubscriptionTools → SubscriptionTools
unfolding item
compare_new id new none d = record d { add_security = d.add_security ++ (item id new ∷ []) }
compare_new id new (some old) d = d

-- The second loop.
unfoldable pub diff_new : SubState → SubState → SubscriptionTools → SubscriptionTools
unfolding compare_new find
diff_new old [] d = d
diff_new old ((id, m) ∷ new) d = diff_new old new (compare_new id m (find id old) d)

abbrev pub no_difference : SubscriptionTools
no_difference = record {
  add_security = [];
  remove_security = [];
  add_subtypes = [];
  del_subtypes = [];
}

unfoldable pub diff_state : SubState → SubState → SubscriptionTools
unfolding diff_old diff_new
diff_state old new = diff_new old new (diff_old old new no_difference)
