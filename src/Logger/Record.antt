-- ===== src/Logger/Record.antt =====
-- What the reader of Logger.Read gets from a line of the log.
use momo_hdb.Base.{
  ℕ, zero, suc, ◌≡◌, refl, ap, ◌∙◌, ◌+◌, ◌/◌, ◌%◌, Bool, true, not, ltb, ◌==◌, arith,
}
use momo_hdb.Base.{
  some, List, [], ◌∷◌, ◌++◌, map, Text, bytes, All, length, append_assoc, length-map, Bool-cases,
  inl, inr, ◌||◌,
}
use momo_hdb.Base.Int.{ℤ, pos, negsuc}
use momo_hdb.Decoders.{to_string, digits_of}
use momo_hdb.Logger.{Level, Kind, View, NumType, Field, Scratch, view_text}
use momo_hdb.Logger
pub use momo_hdb.Logger.Read.{
  Value, quoted, bare, Member, ends_bare, read_bare, expect, with_value, read_value, behind_key,
  read_member, add, last, next, read_members, opened, read_record,
}
use momo_hdb.Logger.Escape.{escape, append_json_escaped_lem, read-escape}

-- A byte that a number or a Boolean may hold.
abbrev pub is_bare : ℕ → Bool
is_bare c = not (ends_bare c || c == b'"')

abbrev pub IsBare : Text → Type 0
IsBare = All (λ c. is_bare c ≡ true)

abbrev IsReadable : Value → Type 0
IsReadable (quoted v) = Unit
IsReadable (bare v) = IsBare v

value_text : Value → Text
value_text (quoted v) = b'"' ∷ (escape v ++ (b'"' ∷ []))
value_text (bare v) = v

member_text : Member → Text
member_text m = b'"' ∷ (escape m.0 ++ (b'"' ∷ b':' ∷ value_text m.1))

-- The member that a field of the call becomes.
abbrev pub shown_as : Scratch → Kind → Text → View → Member
shown_as s Kind.string_kind k v = (k, quoted (view_text s v))
shown_as s Kind.raw_json k v = (k, bare (view_text s v))

abbrev pub shown : Scratch → Field → Member
shown s f = shown_as s f.kind f.key f.value

read_bare_lem :
    (v : Text) (c : ℕ) (r : Text)
    → IsBare v
    → ends_bare c ≡ true
    → read_bare (v ++ (c ∷ r)) ≡ some (v, c ∷ r)
unfolding read_bare
read_bare_lem [] c r h e = ground arith
read_bare_lem (x ∷ v) c r (p, h) e = ground (arith, read_bare_lem v c r h e)

read_value_lem :
    (k : Text) (v : Value) (c : ℕ) (r : Text)
    → IsReadable v
    → ends_bare c ≡ true
    → read_value k (some (value_text v ++ (c ∷ r))) ≡ some ((k, v), c ∷ r)
unfolding read_value value_text
read_value_lem k (quoted v) c r h e =
    rw (append_assoc (escape v) (b'"' ∷ []) (c ∷ r)) (rw (read-escape v (c ∷ r)) refl)
read_value_lem k (bare []) c r h e = ground (arith, read_bare_lem [] c r h e)
read_value_lem k (bare (x ∷ v)) c r h e = ground (arith, read_bare_lem (x ∷ v) c r h e)

read-member_text :
    (m : Member) (c : ℕ) (r : Text)
    → IsReadable m.1
    → ends_bare c ≡ true
    → read_member (member_text m ++ (c ∷ r)) ≡ some (m, c ∷ r)
unfolding read_member member_text
read-member_text (k, v) c r h e =
    rw (append_assoc (escape k) (b'"' ∷ b':' ∷ value_text v) (c ∷ r))
      (rw (read-escape k (b':' ∷ (value_text v ++ (c ∷ r)))) (read_value_lem k v c r h e))

members_text : Member → List Member → Text
members_text m [] = member_text m ++ (b'}' ∷ [])
members_text m (m' ∷ ms) = member_text m ++ (b',' ∷ members_text m' ms)

read-members_text :
    (m : Member) (ms : List Member)
    → IsReadable m.1
    → All (λ m'. IsReadable m'.1) ms
    → read_members (suc (length ms)) (members_text m ms) ≡ some (m ∷ ms)
unfolding read_members members_text
read-members_text m [] h hs = rw (read-member_text m b'}' [] h refl) refl
read-members_text m (m' ∷ ms) h (h', hs) =
    rw (read-member_text m b',' (members_text m' ms) h refl)
      (rw (read-members_text m' ms h' hs) refl)

append_field_lem :
    (s : Scratch) (out : Text) (kind : Kind) (k : Text) (v : View)
    → Logger.append_field s out kind k v ≡ out ++ member_text (shown_as s kind k v)
unfolding Logger.append_field Logger.append_kv_string Logger.append_kv_raw member_text value_text
append_field_lem s out Kind.string_kind k v = simp (append_json_escaped_lem, append_assoc) refl
append_field_lem s out Kind.raw_json k v = simp (append_json_escaped_lem, append_assoc) refl

append_fields_lem :
    (s : Scratch) (out : Text) (m : Member) (fields : List Field)
    → Logger.append_fields s (out ++ member_text m) fields ++ (b'}' ∷ [])
      ≡ out ++ members_text m (map (shown s) fields)
unfolding Logger.append_fields members_text
append_fields_lem s out m [] = append_assoc out (member_text m) (b'}' ∷ [])
append_fields_lem s out m (f ∷ fields) =
    rw (append_field_lem s ((out ++ member_text m) ++ (b',' ∷ [])) f.kind f.key f.value) (
      append_fields_lem s ((out ++ member_text m) ++ (b',' ∷ [])) (shown s f) fields
      ∙ simp append_assoc refl)

-- The members that every line begins with.
abbrev pub head_members : ℤ → Level → Text → Text → List Member → List Member
head_members ts lv component event ms =
    (bytes "ts_ms", bare (to_string ts))
    ∷ (bytes "level", quoted (Logger.level_str lv))
    ∷ (bytes "component", quoted component)
    ∷ (bytes "event", quoted event)
    ∷ ms

escape-level_str : (lv : Level) → escape (Logger.level_str lv) ≡ Logger.level_str lv
unfolding escape Logger.escaped Logger.level_str
escape-level_str Level.debug = refl
escape-level_str Level.info = refl
escape-level_str Level.warn = refl
escape-level_str Level.error = refl

log_record_lem :
    (ts : ℤ) (lv : Level) (component event : Text) (fields : List Field) (s : Scratch)
    → Logger.log_record ts lv component event fields s
      ≡ b'{'
        ∷ members_text
            (bytes "ts_ms", bare (to_string ts))
            ((bytes "level", quoted (Logger.level_str lv))
              ∷ (bytes "component", quoted component)
              ∷ (bytes "event", quoted event)
              ∷ map (shown s) fields)
unfolding Logger.log_record members_text member_text value_text escape Logger.escaped
log_record_lem ts lv component event fields s =
    let ts_text = to_string ts in
    let lv_text = Logger.level_str lv in
    let b1 =
      ((b'{' ∷ []) ++ (bytes "\"ts_ms\":" ++ ts_text))
      ++ (bytes ",\"level\":\"" ++ (lv_text ++ bytes "\"")) in
    let b2 =
      Logger.append_json_escaped (b1 ++ bytes ",\"component\":\"") component ++ (b'"' ∷ []) in
    let b3 = Logger.append_json_escaped (b2 ++ bytes ",\"event\":\"") event ++ (b'"' ∷ []) in
    let m : Member = (bytes "event", quoted event) in
    let last : b3 ≡ (b2 ++ (b',' ∷ [])) ++ member_text m =
      simp (append_json_escaped_lem, append_assoc) refl in
    ap (λ b. Logger.append_fields s b fields ++ (b'}' ∷ [])) last
    ∙ append_fields_lem s (b2 ++ (b',' ∷ [])) m fields
    ∙ simp (append_json_escaped_lem, append_assoc, escape-level_str) refl

IsBare-append : (s t : Text) → IsBare s → IsBare t → IsBare (s ++ t)
IsBare-append [] t h k = k
IsBare-append (c ∷ s) t (p, h) k = (p, IsBare-append s t h k)

IsBare-digits_of : (fuel n : ℕ) → IsBare (digits_of fuel n)
IsBare-digits_of zero n = tt
IsBare-digits_of (suc fuel) n = elim (Bool-cases (ltb n 10)) [
  | inl small ↦ rw small (ground arith, tt)
  | inr large ↦ rw large (
      IsBare-append (digits_of fuel (n / 10)) ((48 + n % 10) ∷ []) (IsBare-digits_of fuel (n / 10))
        (ground arith, tt))
]

pub IsBare-to_string : (n : ℤ) → IsBare (to_string n)
IsBare-to_string (pos n) = IsBare-digits_of (n + 1) n
IsBare-to_string (negsuc n) = (refl, IsBare-digits_of (n + 2) (n + 1))

abbrev IsReadableField : Scratch → Kind → View → Type 0
IsReadableField s Kind.string_kind v = Unit
IsReadableField s Kind.raw_json v = IsBare (view_text s v)

All-IsReadable :
    (s : Scratch) (fields : List Field)
    → All (λ f. IsReadableField s f.kind f.value) fields
    → All (λ m. IsReadable m.1) (map (shown s) fields)
All-IsReadable s [] h = tt
All-IsReadable s (f ∷ fields) (h, hs) = (readable f.kind h, All-IsReadable s fields hs)
  where
    readable :
        (kind : Kind)
        → IsReadableField s kind f.value
        → IsReadable (shown_as s kind f.key f.value).1
    readable Kind.string_kind h = tt
    readable Kind.raw_json h = h

-- Whatever texts are logged, the line reads back: for fields whose raw values hold no comma, brace or
-- quote, a JSON reader gets from the record the time, the level, the component and the event, and then
-- each field's key and value, in the order of the call, and nothing behind the closing brace.
pub read-log_record :
    (ts : ℤ) (lv : Level) (component event : Text) (fields : List Field) (s : Scratch)
    → All (λ f. IsReadableField s f.kind f.value) fields
    → read_record (4 + length fields) (Logger.log_record ts lv component event fields s)
      ≡ some (head_members ts lv component event (map (shown s) fields))
unfolding read_record
read-log_record ts lv component event fields s h =
    let first : Member = (bytes "ts_ms", bare (to_string ts)) in
    let others : List Member =
      (bytes "level", quoted (Logger.level_str lv))
      ∷ (bytes "component", quoted component)
      ∷ (bytes "event", quoted event)
      ∷ map (shown s) fields in
    let more : 4 + length fields ≡ suc (length others) =
      omega (arith, length-map fields (shown s)) in
    rw (log_record_lem ts lv component event fields s) (
      ap (λ (n : ℕ). read_members n (members_text first others)) more
      ∙ read-members_text first others (IsBare-to_string ts)
          (tt, (tt, (tt, All-IsReadable s fields h))))
