-- ===== src/Subscription/Diff.antt =====
-- `diff_state`: what the four lists of `SubscriptionTools` have, as sets of subscriptions.
use momo_hdb.Base.{
  ◌^◌, ◌<◌, ◌≡◌, refl, sym, ◌∙◌, Bool, false, not, ◌&&◌, ◌||◌, Option, none, some, arith,
}
use momo_hdb.Base.{List, [], ◌∷◌, ◌++◌, ◌==◌, if◌then◌else◌}
use momo_hdb.Base.Maps.{find, IsMap, any_at, any_at-find, passes}
use momo_hdb.Subscription.{
  SubType, SecurityId, SubMask, SubState, DiffItem, SubscriptionTools, same_security,
}
use momo_hdb.Subscription.{
  same_security_iff, security_eq, item, and_not, compare_old, diff_old, compare_new, diff_new,
  diff_state, mask_at, no_difference,
}
use momo_hdb.Subscription.Mask.{wants, wants_zero, wants-and_not}
use momo_hdb.Subscription.Canon.{view}

-- Whether some item of the list has the security with the subtype.
unfoldable pub hit : List DiffItem → SecurityId → SubType → Bool
hit [] id t = false
hit (i ∷ is) id t = (same_security i.id id && wants t i.mask) || hit is id t

hit-append :
    (is js : List DiffItem) (id : SecurityId) (t : SubType)
    → hit (is ++ js) id t ≡ hit is id t || hit js id t
unfolding hit
hit-append [] js id t = refl
hit-append (i ∷ is) js id t = ground (arith, hit-append is js id t)

-- All masks of the state are 64 bits wide.
abbrev pub IsWide : SubState → Type 0
IsWide st = (id : SecurityId) → mask_at id st < 2 ^ 64

module _ (id : SecurityId) (t : SubType) where
  hit_one :
      (i : SecurityId) (m : SubMask) → hit (item i m ∷ []) id t ≡ same_security i id && wants t m
  unfolding hit item
  hit_one i m = ground arith

  -- What an old entry of `id` with mask `m` leaves for the new entry's optional mask.
  gone : Option SubMask → SubMask → Bool
  gone none m = wants t m
  gone (some n) m = false

  less : Option SubMask → SubMask → Bool
  less none m = false
  less (some n) m = wants t (and_not m n)

  more : Option SubMask → SubMask → Bool
  more none m = false
  more (some n) m = wants t (and_not n m)

  hit_guarded :
      (i : SecurityId) (m : SubMask) (is : List DiffItem)
      → hit (if not (m == 0) then is ++ (item i m ∷ []) else is) id t
        ≡ hit is id t || (same_security i id && wants t m)
  hit_guarded i m is = ground (arith, hit-append is (item i m ∷ []) id t, hit_one i m, wants_zero t)

  record OldStep (i : SecurityId) (m : SubMask) (n : Option SubMask) (d e : SubscriptionTools)
      : Type 0 where
    removed :
        hit e.remove_security id t ≡ hit d.remove_security id t || (same_security i id && gone n m)
    dropped : hit e.del_subtypes id t ≡ hit d.del_subtypes id t || (same_security i id && less n m)
    gained : hit e.add_subtypes id t ≡ hit d.add_subtypes id t || (same_security i id && more n m)
    added : e.add_security ≡ d.add_security

  compare_old-OldStep :
      (i : SecurityId) (m : SubMask) (n : Option SubMask) (d : SubscriptionTools)
      → OldStep i m n d (compare_old i m n d)
  unfolding compare_old gone less more
  compare_old-OldStep i m none d = record {
    removed = ground (arith, hit-append d.remove_security (item i m ∷ []) id t, hit_one i m);
    dropped = ground arith;
    gained = ground arith;
    added = refl;
  }
  compare_old-OldStep i m (some n) d = record {
    removed = ground arith;
    dropped = hit_guarded i (and_not m n) d.del_subtypes;
    gained = hit_guarded i (and_not n m) d.add_subtypes;
    added = refl;
  }

  record OldLoop (old new : SubState) (d e : SubscriptionTools) : Type 0 where
    removed :
        hit e.remove_security id t
        ≡ hit d.remove_security id t || any_at id (gone (find id new)) old
    dropped :
        hit e.del_subtypes id t ≡ hit d.del_subtypes id t || any_at id (less (find id new)) old
    gained : hit e.add_subtypes id t ≡ hit d.add_subtypes id t || any_at id (more (find id new)) old
    added : e.add_security ≡ d.add_security

  -- An entry counts for `id` only if it is the one of `id`.
  at_id :
      (f : Option SubMask → SubMask → Bool) (i : SecurityId) (m : SubMask) (new : SubState)
      → same_security i id && f (find i new) m ≡ same_security i id && f (find id new) m
  at_id f i m new = ground (arith, same_security_iff i id)

  diff_old-OldLoop :
      (old new : SubState) (d : SubscriptionTools) → OldLoop old new d (diff_old old new d)
  unfolding diff_old any_at
  diff_old-OldLoop [] new d = record {
    removed = ground arith;
    dropped = ground arith;
    gained = ground arith;
    added = refl;
  }
  diff_old-OldLoop ((i, m) ∷ old) new d =
      let s = compare_old-OldStep i m (find i new) d in
      let l = diff_old-OldLoop old new (compare_old i m (find i new) d) in
      record {
        removed = ground (arith, l.removed, s.removed, at_id gone i m new);
        dropped = ground (arith, l.dropped, s.dropped, at_id less i m new);
        gained = ground (arith, l.gained, s.gained, at_id more i m new);
        added = l.added ∙ s.added;
      }

  -- What a new entry of `id` brings, if the old state has none.
  fresh : Option SubMask → SubMask → Bool
  fresh none m = wants t m
  fresh (some n) m = false

  record NewLoop (old new : SubState) (d e : SubscriptionTools) : Type 0 where
    added : hit e.add_security id t ≡ hit d.add_security id t || any_at id (fresh (find id old)) new
    removed : e.remove_security ≡ d.remove_security
    dropped : e.del_subtypes ≡ d.del_subtypes
    gained : e.add_subtypes ≡ d.add_subtypes

  compare_new_step :
      (i : SecurityId) (m : SubMask) (n : Option SubMask) (d : SubscriptionTools)
      → let e = compare_new i m n d in
        (hit e.add_security id t ≡ hit d.add_security id t || (same_security i id && fresh n m))
        × (e.remove_security ≡ d.remove_security)
        × (e.del_subtypes ≡ d.del_subtypes)
        × (e.add_subtypes ≡ d.add_subtypes)
  unfolding compare_new fresh
  compare_new_step i m none d = (
    ground (arith, hit-append d.add_security (item i m ∷ []) id t, hit_one i m),
    refl,
    refl,
    refl,
  )
  compare_new_step i m (some n) d = (ground arith, refl, refl, refl)

  diff_new-NewLoop :
      (old new : SubState) (d : SubscriptionTools) → NewLoop old new d (diff_new old new d)
  unfolding diff_new any_at
  diff_new-NewLoop old [] d = record {
    added = ground arith;
    removed = refl;
    dropped = refl;
    gained = refl;
  }
  diff_new-NewLoop old ((i, m) ∷ new) d =
      let (added, removed, dropped, gained) = compare_new_step i m (find i old) d in
      let l = diff_new-NewLoop old new (compare_new i m (find i old) d) in
      record {
        added = ground (arith, l.added, added, at_id fresh i m old);
        removed = l.removed ∙ removed;
        dropped = l.dropped ∙ dropped;
        gained = l.gained ∙ gained;
      }

find-IsWide :
    (id : SecurityId) (m : SubMask) (st : SubState)
    → mask_at id st < 2 ^ 64
    → find id st ≡ some m
    → m < 2 ^ 64
unfolding mask_at
find-IsWide id m st w e = ground arith

abbrev mask_of : Option SubMask → SubMask
mask_of none = 0
mask_of (some m) = m

view-find :
    (st : SubState) (id : SecurityId) (t : SubType) → view st id t ≡ wants t (mask_of (find id st))
unfolding view mask_at
view-find st id t = refl

module _ (id : SecurityId) (t : SubType) where
  by_options :
      (o n : Option SubMask)
      → ((m : SubMask) → o ≡ some m → m < 2 ^ 64)
      → ((m : SubMask) → n ≡ some m → m < 2 ^ 64)
      → (passes (gone id t n) o || passes (less id t n) o
          ≡ wants t (mask_of o) && not (wants t (mask_of n)))
        × (passes (more id t n) o || passes (fresh id t o) n
            ≡ wants t (mask_of n) && not (wants t (mask_of o)))
  unfolding passes gone less more fresh
  by_options none none wo wn = (ground (arith, wants_zero t), ground (arith, wants_zero t))
  by_options none (some n) wo wn = (ground (arith, wants_zero t), ground (arith, wants_zero t))
  by_options (some m) none wo wn = (ground (arith, wants_zero t), ground (arith, wants_zero t))
  by_options (some m) (some n) wo wn = (
    ground (arith, wants-and_not t m n (wn n refl)),
    ground (arith, wants-and_not t n m (wo m refl)),
  )

-- For states with one entry for each security and masks of 64 bits: the lists of securities and of
-- subtypes to remove have exactly the subscriptions that the old state has and the new one has not, and
-- the lists to add exactly those that the new state has and the old one has not.
pub diff_state_lem :
    (old new : SubState) (id : SecurityId) (t : SubType)
    → IsMap old
    → IsMap new
    → IsWide old
    → IsWide new
    → let d = diff_state old new in
      (hit d.remove_security id t || hit d.del_subtypes id t ≡ view old id t && not (view new id t))
      × (hit d.add_subtypes id t || hit d.add_security id t ≡ view new id t && not (view old id t))
unfolding diff_state
diff_state_lem old new id t mo mn wo wn =
    let o = diff_old-OldLoop id t old new no_difference in
    let n = diff_new-NewLoop id t old new (diff_old old new no_difference) in
    let b =
      by_options id t (find id old) (find id new) (λ m. find-IsWide id m old (wo id))
        (λ m. find-IsWide id m new (wn id)) in
    let vo = view-find old id t in
    let vn = view-find new id t in
    (
      ground (
        arith,
        o.removed,
        o.dropped,
        n.removed,
        n.dropped,
        nothing,
        any_at-find id (gone id t (find id new)) old mo,
        any_at-find id (less id t (find id new)) old mo,
      ),
      ground (
        arith,
        o.gained,
        o.added,
        n.added,
        n.gained,
        nothing,
        any_at-find id (more id t (find id new)) old mo,
        any_at-find id (fresh id t (find id old)) new mn,
      ),
    )
  where
    nothing : hit [] id t ≡ false
    nothing = unfold hit in refl

-- In a map the entries that pass are those that the view shows.
pub any_at-view :
    (st : SubState) (id : SecurityId) (t : SubType)
    → IsMap st
    → any_at id (wants t) st ≡ view st id t
any_at-view st id t m =
    any_at-find id (wants t) st m ∙ passed (find id st) ∙ sym (view-find st id t)
  where
    passed : (o : Option SubMask) → passes (wants t) o ≡ wants t (mask_of o)
    passed none = unfold passes in sym (wants_zero t)
    passed (some m) = unfold passes in refl
