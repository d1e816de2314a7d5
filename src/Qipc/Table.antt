-- ===== src/Qipc/Table.antt =====
-- A reader of kdb+ tables, and that it reads back what is written.
use momo_hdb.Base.{
  ℕ, zero, suc, ◌^◌, ◌<◌, ◌≡◌, refl, sym, ap, ◌∙◌, false, ◌&&◌, ◌==◌, arith, if◌then◌else◌,
}
use momo_hdb.Base.{
  Option, none, some, List, [], ◌∷◌, ◌++◌, All, Text, length, drop, append_assoc, append-nil,
}
use momo_hdb.Qipc.Wire.{read_word, read_word-le_bytes}
use momo_hdb.Qipc

-- The types of the columns of words.
pub data WordType : Type 0 where
  time_type float_type long_type int_type : WordType

pub data Column : Type 0 where
  syms : List Text → Column
  words : WordType → List ℕ → Column

abbrev pub code : WordType → ℕ
code WordType.time_type = Qipc.kp_ts
code WordType.float_type = Qipc.kf_list
code WordType.long_type = Qipc.kj_list
code WordType.int_type = Qipc.ki_list

abbrev pub width : WordType → ℕ
width WordType.int_type = 4
width _ = 8

infixl 5 ◌>>=◌
abbrev pub ◌>>=◌ : {A B : Type 0} → Option A → (A → Option B) → Option B
none >>= f = none
some a >>= f = f a

abbrev read_words : ℕ → ℕ → List ℕ → Option (List ℕ × List ℕ)
read_words k zero bs = some ([], bs)
read_words k (suc n) bs =
    read_word k bs >>= λ (w, r). read_words k n r >>= λ (ws, rest). some (w ∷ ws, rest)

abbrev push : ℕ → Option (Text × List ℕ) → Option (Text × List ℕ)
push c none = none
push c (some (s, rest)) = some (c ∷ s, rest)

unfoldable pub read_cstr : List ℕ → Option (Text × List ℕ)
read_cstr [] = none
read_cstr (b ∷ bs) = let later = push b (read_cstr bs) in if b == 0 then some ([], bs) else later

abbrev read_cstrs : ℕ → List ℕ → Option (List Text × List ℕ)
read_cstrs zero bs = some ([], bs)
read_cstrs (suc n) bs =
    read_cstr bs >>= λ (s, r). read_cstrs n r >>= λ (ss, rest). some (s ∷ ss, rest)

abbrev read_typed : WordType → ℕ → List ℕ → Option (Column × List ℕ)
read_typed t n bs = read_words (width t) n bs >>= λ (ws, rest). some (words t ws, rest)

abbrev read_syms : ℕ → List ℕ → Option (Column × List ℕ)
read_syms n bs = read_cstrs n bs >>= λ (ss, rest). some (syms ss, rest)

-- The cells of a list of type `t`.
abbrev read_cells : ℕ → ℕ → List ℕ → Option (Column × List ℕ)
read_cells t n bs =
    if t == 11
    then read_syms n bs
    else if t == 12
    then read_typed WordType.time_type n bs
    else if t == 9
    then read_typed WordType.float_type n bs
    else if t == 7
    then read_typed WordType.long_type n bs
    else if t == 6
    then read_typed WordType.int_type n bs
    else none

abbrev read_column : List ℕ → Option (Column × List ℕ)
read_column (t ∷ attributes ∷ bs) =
    if attributes == 0 then (read_word 4 bs >>= λ (n, r). read_cells t n r) else none
read_column _ = none

abbrev read_columns : ℕ → List ℕ → Option (List Column × List ℕ)
read_columns zero bs = some ([], bs)
read_columns (suc n) bs =
    read_column bs >>= λ (c, r). read_columns n r >>= λ (cs, rest). some (c ∷ cs, rest)

-- The columns behind the header of a general list, up to the end of the message.
abbrev ended : List Column × List ℕ → Option (List Column)
ended (cs, []) = some cs
ended (cs, b ∷ bs) = none

abbrev read_values : List ℕ → Option (List Column)
read_values (t ∷ attributes ∷ bs) =
    if t == 0 && attributes == 0
    then (read_word 4 bs >>= λ (n, r). read_columns n r >>= ended)
    else none
read_values _ = none

abbrev read_dict : Column × List ℕ → Option (List Text × List Column)
read_dict (syms names, r) = read_values r >>= λ cs. some (names, cs)
read_dict (words t ws, r) = none

abbrev pub read_body : List ℕ → Option (List Text × List Column)
read_body (a ∷ b ∷ c ∷ bs) =
    if a == 98 && (b == 0 && c == 99) then (read_column bs >>= read_dict) else none
read_body _ = none

-- A table: the names and the columns behind a message's header.
unfoldable pub read_table : List ℕ → Option (List Text × List Column)
read_table m = read_body (drop 8 m)

-- The length that a message's header tells, behind the marks of little-endian bytes, an asynchronous
-- message, and no compression; and what follows the header.
abbrev pub read_header : List ℕ → Option (ℕ × List ℕ)
read_header (order ∷ kind ∷ zipped ∷ reserved ∷ bs) =
    if order == 1 && (kind == 0 && (zipped == 0 && reserved == 0)) then read_word 4 bs else none
read_header _ = none

abbrev pub of_length : ℕ → ℕ × List ℕ → Option (List Text × List Column)
of_length whole (n, body) = if n == whole then read_body body else none

-- A message whose header tells its length, and the table in it.
unfoldable pub read_message : List ℕ → Option (List Text × List Column)
read_message m = read_header m >>= of_length (length m)

abbrev pub cstr_bytes : List Text → List ℕ
cstr_bytes [] = []
cstr_bytes (s ∷ ss) = s ++ (0 ∷ cstr_bytes ss)

abbrev pub word_bytes : ℕ → List ℕ → List ℕ
word_bytes k [] = []
word_bytes k (w ∷ ws) = Qipc.le_bytes k w ++ word_bytes k ws

abbrev pub list_bytes : ℕ → ℕ → List ℕ → List ℕ
list_bytes t n cells = t ∷ 0 ∷ (Qipc.le_bytes 4 n ++ cells)

unfoldable pub column_bytes : Column → List ℕ
column_bytes (syms ss) = list_bytes 11 (length ss) (cstr_bytes ss)
column_bytes (words t ws) = list_bytes (code t) (length ws) (word_bytes (width t) ws)

abbrev pub columns_bytes : List Column → List ℕ
columns_bytes [] = []
columns_bytes (c ∷ cs) = column_bytes c ++ columns_bytes cs

-- A text that a C string holds.
abbrev pub HasNoNul : Text → Type 0
HasNoNul = All (λ c. 0 < c)

-- What the wire can carry: as many rows as 32 bits count, C strings, and words of the width.
abbrev pub Fits : Column → Type 0
Fits (syms ss) = (length ss < 2 ^ 32) × All HasNoNul ss
Fits (words t ws) = (length ws < 2 ^ 32) × All (λ w. w < 256 ^ width t) ws

read_words_lem :
    (k : ℕ) (ws : List ℕ) (rest : List ℕ)
    → All (λ w. w < 256 ^ k) ws
    → read_words k (length ws) (word_bytes k ws ++ rest) ≡ some (ws, rest)
read_words_lem k [] rest h = refl
read_words_lem k (w ∷ ws) rest (lt, h) =
    rw (append_assoc (Qipc.le_bytes k w) (word_bytes k ws) rest) (
      rw (read_word-le_bytes k w (word_bytes k ws ++ rest) lt)
        (rw (read_words_lem k ws rest h) refl))

read_cstr_lem :
    (s : Text) (rest : List ℕ) → HasNoNul s → read_cstr (s ++ (0 ∷ rest)) ≡ some (s, rest)
unfolding read_cstr
read_cstr_lem [] rest h = refl
read_cstr_lem (c ∷ s) rest (p, h) =
    let more : (c == 0) ≡ false = ground arith in rw more (rw (read_cstr_lem s rest h) refl)

read_cstrs_lem :
    (ss : List Text) (rest : List ℕ)
    → All HasNoNul ss
    → read_cstrs (length ss) (cstr_bytes ss ++ rest) ≡ some (ss, rest)
read_cstrs_lem [] rest h = refl
read_cstrs_lem (s ∷ ss) rest (p, h) =
    rw (append_assoc s (0 ∷ cstr_bytes ss) rest)
      (rw (read_cstr_lem s (cstr_bytes ss ++ rest) p) (rw (read_cstrs_lem ss rest h) refl))

read_cells-code :
    (t : WordType) (n : ℕ) (bs : List ℕ) → read_cells (code t) n bs ≡ read_typed t n bs
read_cells-code WordType.time_type n bs = refl
read_cells-code WordType.float_type n bs = refl
read_cells-code WordType.long_type n bs = refl
read_cells-code WordType.int_type n bs = refl

read_column_lem :
    (c : Column) (rest : List ℕ) → Fits c → read_column (column_bytes c ++ rest) ≡ some (c, rest)
unfolding column_bytes
read_column_lem (syms ss) rest (lt, h) =
    rw (append_assoc (Qipc.le_bytes 4 (length ss)) (cstr_bytes ss) rest) (
      rw (read_word-le_bytes 4 (length ss) (cstr_bytes ss ++ rest) (omega arith))
        (rw (read_cstrs_lem ss rest h) refl))
read_column_lem (words t ws) rest (lt, h) =
    rw (append_assoc (Qipc.le_bytes 4 (length ws)) (word_bytes (width t) ws) rest) (
      rw (read_word-le_bytes 4 (length ws) (word_bytes (width t) ws ++ rest) (omega arith)) (
        read_cells-code t (length ws) (word_bytes (width t) ws ++ rest)
        ∙ ap (λ o. o >>= λ (vs, r). some (words t vs, r)) (read_words_lem (width t) ws rest h)))

read_columns_lem :
    (cs : List Column) (rest : List ℕ)
    → All Fits cs
    → read_columns (length cs) (columns_bytes cs ++ rest) ≡ some (cs, rest)
read_columns_lem [] rest h = refl
read_columns_lem (c ∷ cs) rest (p, h) =
    rw (append_assoc (column_bytes c) (columns_bytes cs) rest)
      (rw (read_column_lem c (columns_bytes cs ++ rest) p) (rw (read_columns_lem cs rest h) refl))

-- A table, without the message's header.
unfoldable pub table_bytes : List Text → List Column → List ℕ
table_bytes names cs =
    98 ∷ 0 ∷ 99 ∷ (column_bytes (syms names) ++ list_bytes 0 (length names) (columns_bytes cs))

pub read_body_lem :
    (names : List Text) (cs : List Column)
    → Fits (syms names)
    → length names ≡ length cs
    → All Fits cs
    → read_body (table_bytes names cs) ≡ some (names, cs)
unfolding table_bytes
read_body_lem names cs (lt, no_nul) same h =
    let count : read_word 4 (Qipc.le_bytes 4 (length names) ++ columns_bytes cs)
        ≡ some (length cs, columns_bytes cs) =
      read_word-le_bytes 4 (length names) (columns_bytes cs) (omega arith)
      ∙ ap (λ n. some (n, columns_bytes cs)) same in
    let columns : read_columns (length cs) (columns_bytes cs) ≡ some (cs, []) =
      ap (read_columns (length cs)) (sym (append-nil (columns_bytes cs)))
      ∙ read_columns_lem cs [] h in
    rw (read_column_lem (syms names) (list_bytes 0 (length names) (columns_bytes cs)) (lt, no_nul))
      (rw count (rw columns refl))
