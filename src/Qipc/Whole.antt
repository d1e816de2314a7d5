-- ===== src/Qipc/Whole.antt =====
-- A whole message of a table, read back without its header and with it.
use momo_hdb.Base.{ℕ, ◌+◌, ◌*◌, ◌==◌, true, ◌/◌, ◌%◌, ◌^◌, ◌<◌, ◌≡◌, refl, sym, ap, ◌∙◌, arith}
use momo_hdb.Base.{some, List, ◌∷◌, ◌++◌, map, All, Text, length, length-map, drop}
use momo_hdb.Qipc.Table.{
  syms, columns_bytes, table_bytes, read_table, read_message, of_length, ◌>>=◌, read_body,
  read_body_lem, Fits,
}
use momo_hdb.Qipc.Wire.{read_word}
use momo_hdb.Qipc
use momo_hdb.Qipc.Columns.{ColumnOf, emit_all, column, emit_all_lem, begin_table_lem}

finish_ipc_body : (buf : List ℕ) → drop 8 (Qipc.finish_ipc buf) ≡ drop 8 buf
unfolding Qipc.finish_ipc Qipc.put_u32_le
finish_ipc_body buf = refl

abbrev four_bytes : ℕ → List ℕ → List ℕ
four_bytes v body = v % 256 ∷ v / 256 % 256 ∷ v / 65536 % 256 ∷ v / 16777216 % 256 ∷ body

read_four : (v : ℕ) (body : List ℕ) → v < 2 ^ 32 → read_word 4 (four_bytes v body) ≡ some (v, body)
read_four v body small =
    let digits : v % 256
          + 256 * (v / 256 % 256 + 256 * (v / 65536 % 256 + 256 * (v / 16777216 % 256 + 256 * 0)))
        ≡ v =
      omega arith in
    ap (λ (n : ℕ). some (n, body)) digits

-- What a finished message reads as.
finished :
    (body : List ℕ)
    → 8 + length body < 2 ^ 32
    → read_message (Qipc.finish_ipc (Qipc.begin_ipc ++ body)) ≡ read_body body
unfolding read_message Qipc.finish_ipc Qipc.put_u32_le Qipc.size_u32
finished body small =
    let v = length (Qipc.begin_ipc ++ body) % 2 ^ 32 in
    let n : v ≡ 8 + length body = omega arith in
    let whole = length (1 ∷ 0 ∷ 0 ∷ 0 ∷ four_bytes v body) in
    let same : (v == whole) ≡ true = ground arith in
    ap (λ o. o >>= of_length whole) (read_four v body (omega arith)) ∙ rw same refl

abbrev pub message_of : {R : Type 0} → List Text → List (ColumnOf R) → List R → List ℕ
message_of names cs rows =
    Qipc.finish_ipc (emit_all (Qipc.begin_table Qipc.begin_ipc names) (Qipc.size_u32 rows) rows cs)

table_written :
    {R : Type 0} (names : List Text) (cs : List (ColumnOf R)) (rows : List R)
    → length rows < 2 ^ 32
    → length names < 2 ^ 32
    → emit_all (Qipc.begin_table Qipc.begin_ipc names) (Qipc.size_u32 rows) rows cs
      ≡ Qipc.begin_ipc ++ table_bytes names (map (column rows) cs)
unfolding table_bytes Qipc.size_u32
table_written names cs rows few small =
    let n : length rows % 2 ^ 32 ≡ length rows = omega arith in
    emit_all_lem cs (Qipc.begin_table Qipc.begin_ipc names) (Qipc.size_u32 rows) rows n
    ∙ begin_table_lem Qipc.begin_ipc names (columns_bytes (map (column rows) cs)) small

-- A message of these names and columns, its header left aside, reads back as the names and the columns'
-- cells.
pub table_message :
    {R : Type 0} (names : List Text) (cs : List (ColumnOf R)) (rows : List R)
    → length rows < 2 ^ 32
    → Fits (syms names)
    → length names ≡ length cs
    → All Fits (map (column rows) cs)
    → read_table (message_of names cs rows) ≡ some (names, map (column rows) cs)
unfolding read_table
table_message names cs rows few (small, no_nul) same fit =
    ap read_body (
      finish_ipc_body
        (emit_all (Qipc.begin_table Qipc.begin_ipc names) (Qipc.size_u32 rows) rows cs)
      ∙ ap (drop 8) (table_written names cs rows few small))
    ∙ read_body_lem names (map (column rows) cs) (small, no_nul)
        (same ∙ sym (length-map cs (column rows))) fit

length-finish_ipc :
    (body : List ℕ) → length (Qipc.finish_ipc (Qipc.begin_ipc ++ body)) ≡ 8 + length body
unfolding Qipc.finish_ipc Qipc.put_u32_le
length-finish_ipc body = omega arith

-- The same with the header, for a message whose length 32 bits hold.
pub whole_message :
    {R : Type 0} (names : List Text) (cs : List (ColumnOf R)) (rows : List R)
    → length rows < 2 ^ 32
    → Fits (syms names)
    → length names ≡ length cs
    → All Fits (map (column rows) cs)
    → length (message_of names cs rows) < 2 ^ 32
    → read_message (message_of names cs rows) ≡ some (names, map (column rows) cs)
whole_message names cs rows few (small, no_nul) same fit word =
    let body = table_bytes names (map (column rows) cs) in
    let written = ap Qipc.finish_ipc (table_written names cs rows few small) in
    let size : 8 + length body < 2 ^ 32 =
      omega (arith, word, ap length written, length-finish_ipc body) in
    ap read_message written
    ∙ finished body size
    ∙ read_body_lem names (map (column rows) cs) (small, no_nul)
        (same ∙ sym (length-map cs (column rows))) fit
