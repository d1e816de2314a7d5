-- ===== src/Subscription/Same.antt =====
-- `st_equal` decides whether two states have the same securities with the same masks.
use momo_hdb.Base.{◌≡◌, ◌↔◌, refl, sym, ◌∙◌, true, none, some, arith}
use momo_hdb.Base.{[], ◌∷◌}
use momo_hdb.Base.Maps.{find, IsMap, find_eq_of_sub, length_eq_of_find}
use momo_hdb.Subscription.{
  SecurityId, SubMask, SubState, same_security_iff, security_eq, all_found, st_equal,
}

all_found→sub :
    (a b : SubState) (k : SecurityId) (v : SubMask)
    → all_found a b ≡ true
    → find k a ≡ some v
    → find k b ≡ some v
unfolding all_found find
all_found→sub [] b k v h e = cc
all_found→sub ((id, am) ∷ a) b k v h e =
    ground (arith, same_security_iff id k, all_found→sub a b k v)

sub→all_found :
    (a b : SubState)
    → IsMap a
    → ((k : SecurityId) (v : SubMask) → find k a ≡ some v → find k b ≡ some v)
    → all_found a b ≡ true
unfolding all_found find
sub→all_found [] b m h = refl
sub→all_found ((id, am) ∷ a) b (new, m) h =
    let here : find id b ≡ some am = h id am (head id am a) in
    ground (arith, here, sub→all_found a b m (λ k v e. h k v (below id k am v a new e)))
  where
    head : (id : SecurityId) (am : SubMask) (a : SubState) → find id ((id, am) ∷ a) ≡ some am
    head id am a = ground (arith, same_security_iff id id)

    below :
        (id k : SecurityId) (am v : SubMask) (a : SubState)
        → find id a ≡ none
        → find k a ≡ some v
        → find k ((id, am) ∷ a) ≡ some v
    below id k am v a new e = ground (arith, same_security_iff id k)

-- On states with one entry for each security, `st_equal` answers true exactly if both have the same
-- securities with the same masks, in whatever order they are stored.
pub st_equal_iff :
    (a b : SubState)
    → IsMap a
    → IsMap b
    → (st_equal a b ≡ true) ↔ ((id : SecurityId) → find id a ≡ find id b)
unfolding st_equal
st_equal_iff a b ha hb = (to, from)
  where
    to : st_equal a b ≡ true → (id : SecurityId) → find id a ≡ find id b
    to e = find_eq_of_sub a b ha hb (ground arith) (λ k v h. all_found→sub a b k v (ground arith) h)

    from : ((id : SecurityId) → find id a ≡ find id b) → st_equal a b ≡ true
    from same =
        ground (
          arith,
          length_eq_of_find a b ha hb same,
          sub→all_found a b ha (λ k v e. sym (same k) ∙ e),
        )
