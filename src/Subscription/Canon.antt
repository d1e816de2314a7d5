-- ===== src/Subscription/Canon.antt =====
-- `canonicalize`: which subtypes of which securities the state of a configuration has.
use Prim.Native.Nat.{bit_or}
use momo_hdb.Base.{◌^◌, ◌<◌, ◌≡◌, Bool, false, ◌&&◌, ◌||◌, arith}
use momo_hdb.Base.{List, [], ◌∷◌, if◌then◌else◌}
use momo_hdb.Base.Maps.{find, insert, IsMap, find-insert, insert-IsMap}
use momo_hdb.Subscription.{
  SubType, SecurityId, SecuritySpec, SubscribeConfig, SubMask, SubState, same_security,
}
use momo_hdb.Subscription.{
  security_eq, same_security_iff, mask_at, merge, merge_all, canonicalize, or_bits,
}
use momo_hdb.Subscription.Mask.{
  contains, wants, is_named, wants-bit_or, wants-or_bits, wants_zero, bit_or-lt, or_bits-lt,
}

-- Whether the state has the security with the subtype.
unfoldable pub view : SubState → SecurityId → SubType → Bool
view st id t = wants t (mask_at id st)

-- Whether some entry of the configuration has the security and lists the subtype.
unfoldable pub listed : List SecuritySpec → SecurityId → SubType → Bool
listed [] id t = false
listed (s ∷ ss) id t =
    (same_security (record { market = s.market; code = s.code }) id && contains t s.subtypes)
    || listed ss id t

mask_at-insert :
    (k id : SecurityId) (v : SubMask) (st : SubState)
    → mask_at id (insert k v st) ≡ (if same_security k id then v else mask_at id st)
unfolding mask_at
mask_at-insert k id v st = ground (arith, find-insert k id v st)

abbrev id_of : SecuritySpec → SecurityId
id_of s = record { market = s.market; code = s.code }

mask_at-merge :
    (st : SubState) (s : SecuritySpec) (id : SecurityId)
    → mask_at id (merge st s) ≡ (
        if same_security (id_of s) id
        then bit_or (mask_at (id_of s) st) (or_bits 0 s.subtypes)
        else mask_at id st)
unfolding merge
mask_at-merge st s id =
    mask_at-insert (id_of s) id (bit_or (mask_at (id_of s) st) (or_bits 0 s.subtypes)) st

view-merge :
    (st : SubState) (s : SecuritySpec) (id : SecurityId) (t : SubType)
    → view (merge st s) id t ≡ view st id t || (is_named t && listed (s ∷ []) id t)
unfolding view listed
view-merge st s id t = ground (
  arith,
  mask_at-merge st s id,
  same_security_iff (id_of s) id,
  wants-bit_or t (mask_at id st) (or_bits 0 s.subtypes),
  wants-or_bits t 0 s.subtypes,
  wants_zero t,
)

view-merge_all :
    (st : SubState) (ss : List SecuritySpec) (id : SecurityId) (t : SubType)
    → view (merge_all st ss) id t ≡ view st id t || (is_named t && listed ss id t)
unfolding merge_all listed
view-merge_all st [] id t = ground arith
view-merge_all st (s ∷ ss) id t =
    ground (arith, view-merge_all (merge st s) ss id t, view-merge st s id t)

-- The canonical state has a subtype of a security exactly if some entry for that security lists it
-- and it is one of the six with a bit: entries for one security are united, their order and
-- repetitions do not matter.
pub view-canonicalize :
    (cfg : SubscribeConfig) (id : SecurityId) (t : SubType)
    → view (canonicalize cfg) id t ≡ is_named t && listed cfg.securities id t
unfolding canonicalize
view-canonicalize cfg id t = ground (arith, view-merge_all [] cfg.securities id t, empty)
  where
    empty : view [] id t ≡ false
    empty = unfold view mask_at find in wants_zero t

merge_all-IsMap : (st : SubState) (ss : List SecuritySpec) → IsMap st → IsMap (merge_all st ss)
unfolding merge_all merge
merge_all-IsMap st [] h = h
merge_all-IsMap st (s ∷ ss) h = merge_all-IsMap (merge st s) ss (insert-IsMap _ _ st h)

-- Every mask of the state has the six bits at most.
unfoldable pub IsSmall : SubState → Type 0
IsSmall st = (id : SecurityId) → mask_at id st < 2 ^ 6

merge-IsSmall : (st : SubState) (s : SecuritySpec) → IsSmall st → IsSmall (merge st s)
unfolding IsSmall
merge-IsSmall st s h id =
    let united =
      bit_or-lt 6 (mask_at (id_of s) st) (or_bits 0 s.subtypes) (h (id_of s))
        (or_bits-lt 0 s.subtypes (omega arith)) in
    ground (arith, mask_at-merge st s id, united, h id)

merge_all-IsSmall :
    (st : SubState) (ss : List SecuritySpec) → IsSmall st → IsSmall (merge_all st ss)
unfolding merge_all
merge_all-IsSmall st [] h = h
merge_all-IsSmall st (s ∷ ss) h = merge_all-IsSmall (merge st s) ss (merge-IsSmall st s h)

-- The canonical state has one entry for a security, and no bit of a mask but the six.
pub canonicalize_shape :
    (cfg : SubscribeConfig) → IsMap (canonicalize cfg) × IsSmall (canonicalize cfg)
unfolding canonicalize IsSmall
canonicalize_shape cfg =
    (merge_all-IsMap [] cfg.securities tt, merge_all-IsSmall [] cfg.securities empty)
  where
    empty : IsSmall []
    empty = λ id. unfold mask_at find in omega arith
