-- ===== src/Logger/Read.antt =====
-- A reader of the lines that momo_common/include/JsonLogger.hpp writes: one JSON object each.
use momo_hdb.Base.{
  ℕ, zero, suc, Bool, ◌==◌, ◌||◌, Option, none, some, List, [], ◌∷◌, Text, if◌then◌else◌,
}
use momo_hdb.Logger.Escape.{push, Place, read_string}

-- A value of a JSON object: a string, or the text of anything else.
pub data Value : Type 0 where
  quoted bare : Text → Value

abbrev pub Member : Type 0
Member = Text × Value

abbrev pub ends_bare : ℕ → Bool
ends_bare c = c == b',' || c == b'}'

-- The text up to the next comma or brace, and the text from there.
unfoldable pub read_bare : Text → Option (Text × Text)
read_bare [] = none
read_bare (c ∷ r) =
    let rest = push c (read_bare r) in if ends_bare c then some ([], c ∷ r) else rest

abbrev pub expect : ℕ → Text → Option Text
expect c [] = none
expect c (x ∷ r) = if x == c then some r else none

abbrev pub with_value : (Text → Value) → Text → Option (Text × Text) → Option (Member × Text)
with_value mk k none = none
with_value mk k (some (v, r)) = some ((k, mk v), r)

unfoldable pub read_value : Text → Option Text → Option (Member × Text)
read_value k none = none
read_value k (some []) = none
read_value k (some (c ∷ r)) =
    if c == b'"'
    then with_value quoted k (read_string Place.plain r)
    else with_value bare k (read_bare (c ∷ r))

abbrev pub behind_key : Option (Text × Text) → Option (Member × Text)
behind_key none = none
behind_key (some (k, r)) = read_value k (expect b':' r)

unfoldable pub read_member : Text → Option (Member × Text)
read_member [] = none
read_member (c ∷ r) = if c == b'"' then behind_key (read_string Place.plain r) else none

abbrev pub add : Member → Option (List Member) → Option (List Member)
add m none = none
add m (some ms) = some (m ∷ ms)

-- The last member, with nothing behind the brace.
abbrev pub last : Member → Text → Option (List Member)
last m [] = some (m ∷ [])
last m (c ∷ r) = none

-- What is behind a member: a comma and more members, or the brace that ends the line.
abbrev pub next : (Text → Option (List Member)) → Option (Member × Text) → Option (List Member)
next more none = none
next more (some (m, [])) = none
next more (some (m, c ∷ r)) =
    if c == b'}' then last m r else if c == b',' then add m (more r) else none

-- The members up to the brace; the first argument bounds their number.
unfoldable pub read_members : ℕ → Text → Option (List Member)
read_members zero r = none
read_members (suc n) r = next (read_members n) (read_member r)

abbrev pub opened : ℕ → Option Text → Option (List Member)
opened n none = none
opened n (some r) = read_members n r

-- A line of at most `n` members.
unfoldable pub read_record : ℕ → Text → Option (List Member)
read_record n line = opened n (expect b'{' line)
