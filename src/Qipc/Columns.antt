-- ===== src/Qipc/Columns.antt =====
-- The columns that the serializers write: their bytes.
use momo_hdb.Base.{ℕ, ◌/◌, ◌%◌, ◌^◌, ◌<◌, ◌≡◌, refl, sym, ap, ap₂, ◌∙◌, arith}
use momo_hdb.Base.{List, [], ◌∷◌, ◌++◌, map, Text, length, length-map, append_assoc, append-nil}
use momo_hdb.Base.Int.{ℤ, pos, ◌-ℤ◌, word_of}
use momo_hdb.Qipc.Table.{
  Column, syms, words, WordType, width, code, list_bytes, cstr_bytes, word_bytes, column_bytes,
  columns_bytes,
}
use momo_hdb.Qipc

put_u32-le_bytes : (b : List ℕ) (n : ℕ) → Qipc.put_u32_le b n ≡ b ++ Qipc.le_bytes 4 n
unfolding Qipc.put_u32_le Qipc.le_bytes
put_u32-le_bytes b n =
    let third : n / 65536 ≡ n / 256 / 256 = omega arith in
    let fourth : n / 16777216 ≡ n / 256 / 256 / 256 = omega arith in
    ap₂ (λ (x y : ℕ). b ++ (n % 256 ∷ n / 256 % 256 ∷ x % 256 ∷ y % 256 ∷ [])) third fourth

hdr_lem :
    (b : List ℕ) (t n : ℕ) (cells : List ℕ)
    → Qipc.emit_typed_list_hdr b t n ++ cells ≡ b ++ list_bytes t n cells
unfolding Qipc.emit_typed_list_hdr Qipc.put_u8
hdr_lem b t n cells =
    ap (λ c. c ++ cells) (put_u32-le_bytes ((b ++ (t ∷ [])) ++ (0 ∷ [])) n) ∙ simp append_assoc refl

put_i64-words :
    (b : List ℕ) (v : ℤ) → Qipc.put_i64_le b v ≡ b ++ Qipc.le_bytes 8 (word_of (2 ^ 64) v)
unfolding Qipc.put_i64_le Qipc.put_u64_le
put_i64-words b v = refl

put_i32-words :
    (b : List ℕ) (v : ℤ) → Qipc.put_i32_le b v ≡ b ++ Qipc.le_bytes 4 (word_of (2 ^ 32) v)
unfolding Qipc.put_i32_le
put_i32-words b v = put_u32-le_bytes b (word_of (2 ^ 32) v)

put_f64-words : (b : List ℕ) (d : ℕ) → Qipc.put_f64_le b d ≡ b ++ Qipc.le_bytes 8 d
unfolding Qipc.put_f64_le Qipc.put_u64_le
put_f64-words b d = refl

-- kdb+ counts a time in nanoseconds from the start of 2000, 10957 days after the start of 1970.
abbrev pub since_2000 : ℤ → ℤ
since_2000 ns = ns -ℤ pos 946684800000000000

-- A column of a table of these rows: how the source writes it, and what it gets of a row.
pub data ColumnOf (R : Type 0) : Type 0 where
  sym_col : (R → Text) → ColumnOf R
  ts_col i64_col i32_col : (R → ℤ) → ColumnOf R
  f64_col : (R → ℕ) → ColumnOf R

module _ {R : Type 0} where
  put_rows-cstr :
      (rows : List R) (get : R → Text) (b : List ℕ)
      → Qipc.put_rows Qipc.put_cstr get rows b ≡ b ++ cstr_bytes (map get rows)
  unfolding Qipc.put_rows Qipc.put_cstr
  put_rows-cstr [] get b = sym (append-nil b)
  put_rows-cstr (r ∷ rows) get b =
      put_rows-cstr rows get ((b ++ get r) ++ (0 ∷ [])) ∙ simp append_assoc refl

  -- A column of words, by what writes one.
  put_rows-words :
      {A : Type 0} (put : List ℕ → A → List ℕ) (k : ℕ) (word : A → ℕ)
      → ((b : List ℕ) (a : A) → put b a ≡ b ++ Qipc.le_bytes k (word a))
      → (rows : List R) (get : R → A) (b : List ℕ)
      → Qipc.put_rows put get rows b ≡ b ++ word_bytes k (map (λ r. word (get r)) rows)
  unfolding Qipc.put_rows
  put_rows-words put k word one [] get b = sym (append-nil b)
  put_rows-words put k word one (r ∷ rows) get b =
      put_rows-words put k word one rows get (put b (get r))
      ∙ ap (λ c. c ++ word_bytes k (map (λ x. word (get x)) rows)) (one b (get r))
      ∙ append_assoc b (Qipc.le_bytes k (word (get r)))
          (word_bytes k (map (λ x. word (get x)) rows))

  abbrev pub emit : List ℕ → ℕ → List R → ColumnOf R → List ℕ
  emit b n rows (sym_col get) = Qipc.emit_sym_col b n rows get
  emit b n rows (ts_col get) = Qipc.emit_ts_col b n rows get
  emit b n rows (i64_col get) = Qipc.emit_i64_col b n rows get
  emit b n rows (i32_col get) = Qipc.emit_i32_col b n rows get
  emit b n rows (f64_col get) = Qipc.emit_f64_col b n rows get

  abbrev pub emit_all : List ℕ → ℕ → List R → List (ColumnOf R) → List ℕ
  emit_all b n rows [] = b
  emit_all b n rows (c ∷ cs) = emit_all (emit b n rows c) n rows cs

  -- The cells: texts, and the words of numbers.
  abbrev pub column : List R → ColumnOf R → Column
  column rows (sym_col get) = syms (map get rows)
  column rows (ts_col get) =
      words WordType.time_type (map (λ r. word_of (2 ^ 64) (since_2000 (get r))) rows)
  column rows (i64_col get) = words WordType.long_type (map (λ r. word_of (2 ^ 64) (get r)) rows)
  column rows (i32_col get) = words WordType.int_type (map (λ r. word_of (2 ^ 32) (get r)) rows)
  column rows (f64_col get) = words WordType.float_type (map get rows)

  words_lem :
      {A : Type 0} (t : WordType) (put : List ℕ → A → List ℕ) (word : A → ℕ)
      → ((b : List ℕ) (a : A) → put b a ≡ b ++ Qipc.le_bytes (width t) (word a))
      → (b : List ℕ) (n : ℕ) (rows : List R) (get : R → A) → n ≡ length rows
      → Qipc.put_rows put get rows (Qipc.emit_typed_list_hdr b (code t) n)
        ≡ b ++ column_bytes (words t (map (λ r. word (get r)) rows))
  unfolding column_bytes
  words_lem t put word one b n rows get e =
      let ws = map (λ r. word (get r)) rows in
      put_rows-words put (width t) word one rows get (Qipc.emit_typed_list_hdr b (code t) n)
      ∙ hdr_lem b (code t) n (word_bytes (width t) ws)
      ∙ ap (λ (k : ℕ). b ++ list_bytes (code t) k (word_bytes (width t) ws))
          (e ∙ sym (length-map rows (λ r. word (get r))))

  emit_lem :
      (b : List ℕ) (n : ℕ) (rows : List R) (c : ColumnOf R)
      → n ≡ length rows
      → emit b n rows c ≡ b ++ column_bytes (column rows c)
  unfolding column_bytes Qipc.emit_sym_col Qipc.emit_ts_col Qipc.emit_i64_col Qipc.emit_i32_col
      Qipc.emit_f64_col Qipc.to_kdb_timestamp_ns
  emit_lem b n rows (sym_col get) e =
      put_rows-cstr rows get (Qipc.emit_typed_list_hdr b 11 n)
      ∙ hdr_lem b 11 n (cstr_bytes (map get rows))
      ∙ ap (λ (k : ℕ). b ++ list_bytes 11 k (cstr_bytes (map get rows)))
          (e ∙ sym (length-map rows get))
  emit_lem b n rows (ts_col get) e =
      words_lem WordType.time_type Qipc.put_i64_le (word_of (2 ^ 64)) put_i64-words b n rows
        (λ r. since_2000 (get r)) e
  emit_lem b n rows (i64_col get) e =
      words_lem WordType.long_type Qipc.put_i64_le (word_of (2 ^ 64)) put_i64-words b n rows get e
  emit_lem b n rows (i32_col get) e =
      words_lem WordType.int_type Qipc.put_i32_le (word_of (2 ^ 32)) put_i32-words b n rows get e
  emit_lem b n rows (f64_col get) e =
      words_lem WordType.float_type Qipc.put_f64_le (λ d. d) put_f64-words b n rows get e

  pub emit_all_lem :
      (cs : List (ColumnOf R)) (b : List ℕ) (n : ℕ) (rows : List R)
      → n ≡ length rows
      → emit_all b n rows cs ≡ b ++ columns_bytes (map (column rows) cs)
  emit_all_lem [] b n rows e = sym (append-nil b)
  emit_all_lem (c ∷ cs) b n rows e =
      emit_all_lem cs (emit b n rows c) n rows e
      ∙ ap (λ x. x ++ columns_bytes (map (column rows) cs)) (emit_lem b n rows c e)
      ∙ append_assoc b (column_bytes (column rows c)) (columns_bytes (map (column rows) cs))

map-same : (ss : List Text) → map (λ (s : Text). s) ss ≡ ss
map-same [] = refl
map-same (s ∷ ss) = ap (◌∷◌ s) (map-same ss)

emit_sym_list_lem :
    (b : List ℕ) (names : List Text)
    → length names < 2 ^ 32
    → Qipc.emit_sym_list b names ≡ b ++ column_bytes (syms names)
unfolding column_bytes Qipc.emit_sym_list Qipc.size_u32
emit_sym_list_lem b names small =
    let n : length names % 2 ^ 32 ≡ length names = omega arith in
    put_rows-cstr names (λ s. s) (Qipc.emit_typed_list_hdr b 11 (length names % 2 ^ 32))
    ∙ hdr_lem b 11 (length names % 2 ^ 32) (cstr_bytes (map (λ s. s) names))
    ∙ ap₂ (λ (k : ℕ) (ss : List Text). b ++ list_bytes 11 k (cstr_bytes ss)) n (map-same names)

pub begin_table_lem :
    (b : List ℕ) (names : List Text) (values : List ℕ)
    → length names < 2 ^ 32
    → Qipc.begin_table b names ++ values
      ≡ b ++ (98 ∷ 0 ∷ 99 ∷ (column_bytes (syms names) ++ list_bytes 0 (length names) values))
unfolding Qipc.begin_table Qipc.emit_general_list_hdr Qipc.emit_dict_begin Qipc.emit_table_begin
    Qipc.put_u8 Qipc.size_u32
begin_table_lem b names values small =
    let n : length names % 2 ^ 32 ≡ length names = omega arith in
    let b1 = ((b ++ (98 ∷ [])) ++ (0 ∷ [])) ++ (99 ∷ []) in
    ap
      (λ (k : ℕ).
        Qipc.put_u32_le ((Qipc.emit_sym_list b1 names ++ (0 ∷ [])) ++ (0 ∷ [])) k ++ values)
      n
    ∙ ap (λ x. Qipc.put_u32_le ((x ++ (0 ∷ [])) ++ (0 ∷ [])) (length names) ++ values)
        (emit_sym_list_lem b1 names small)
    ∙ ap (λ x. x ++ values)
        (put_u32-le_bytes (((b1 ++ column_bytes (syms names)) ++ (0 ∷ [])) ++ (0 ∷ []))
          (length names))
    ∙ simp append_assoc refl
