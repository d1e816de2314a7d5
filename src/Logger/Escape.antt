-- ===== src/Logger/Escape.antt =====
-- Reading back the JSON text that the logger writes.
use momo_hdb.Base.{
  ℕ, zero, suc, ◌≡◌, refl, sym, ◌∙◌, ◌+◌, ◌-◌, ◌*◌, leb, ltb, ◌==◌, arith, Bool, ◌&&◌, ◌||◌,
}
use momo_hdb.Base.{Option, none, some, [], ◌∷◌, ◌++◌, Text, if◌then◌else◌, append_assoc, append-nil}
use momo_hdb.Logger

abbrev pub push : ℕ → Option (Text × Text) → Option (Text × Text)
push c none = none
push c (some (s, rest)) = some (c ∷ s, rest)

-- Where a reader of a JSON string stands: between two characters, behind a backslash, or behind
-- `\u` with that many digits to go and that value so far.
pub data Place : Type 0 where
  plain slash : Place
  digits : ℕ → ℕ → Place

digit_value : ℕ → ℕ
digit_value c = if leb b'a' c then c - b'a' + 10 else c - b'0'

-- The byte that a backslash and `c` stand for; JSON has no other such pair but `\u`.
short : ℕ → Option ℕ
short c =
    if c == b'b'
    then some 8
    else if c == b'f'
    then some 12
    else if c == b'n'
    then some 10
    else if c == b'r'
    then some 13
    else if c == b't'
    then some 9
    else if c == b'"' || (c == b'\\' || c == b'/')
    then some c
    else none

is_hex : ℕ → Bool
is_hex c = (leb b'0' c && leb c b'9') || (leb b'a' c && leb c b'f')

push_short : Option ℕ → Option (Text × Text) → Option (Text × Text)
push_short none later = none
push_short (some c) later = push c later

-- A string of JSON up to its closing quote, and the text behind the quote. As JSON wants it, a control
-- byte (below 32) is refused unless it is escaped, and so is a backslash before any other byte.
unfoldable pub read_string : Place → Text → Option (Text × Text)
unfolding digit_value short push_short is_hex
read_string p [] = none
read_string Place.plain (c ∷ r) =
    let later = read_string Place.plain r in
    let behind = read_string Place.slash r in
    if c == b'"'
    then some ([], r)
    else if c == b'\\'
    then behind
    else if ltb c 32
    then none
    else push c later
read_string Place.slash (c ∷ r) =
    let later = read_string Place.plain r in
    let behind = read_string (Place.digits 3 0) r in
    if c == b'u' then behind else push_short (short c) later
read_string (Place.digits zero v) (c ∷ r) =
    let later = push (v * 16 + digit_value c) (read_string Place.plain r) in
    if is_hex c then later else none
read_string (Place.digits (suc k) v) (c ∷ r) =
    let later = read_string (Place.digits k (v * 16 + digit_value c)) r in
    if is_hex c then later else none

escaped_lem :
    (c : ℕ) (r : Text)
    → read_string Place.plain (Logger.escaped c ++ r) ≡ push c (read_string Place.plain r)
unfolding read_string Logger.escaped digit_value short push_short is_hex
escaped_lem c r = ground arith

-- What is appended for a text.
unfoldable pub escape : Text → Text
unfolding Logger.escaped
escape [] = []
escape (c ∷ s) = Logger.escaped c ++ escape s

pub append_json_escaped_lem : (out s : Text) → Logger.append_json_escaped out s ≡ out ++ escape s
unfolding Logger.append_json_escaped escape
append_json_escaped_lem out [] = sym (append-nil out)
append_json_escaped_lem out (c ∷ s) =
    append_json_escaped_lem (out ++ Logger.escaped c) s
    ∙ append_assoc out (Logger.escaped c) (escape s)

pub read-escape :
    (s rest : Text) → read_string Place.plain (escape s ++ (b'"' ∷ rest)) ≡ some (s, rest)
unfolding escape read_string
read-escape [] rest = refl
read-escape (c ∷ s) rest =
    rw (append_assoc (Logger.escaped c) (escape s) (b'"' ∷ rest))
      (rw (escaped_lem c (escape s ++ (b'"' ∷ rest))) (rw (read-escape s rest) refl))
