-- ===== src/Logger.antt =====
-- momo_common/include/JsonLogger.hpp: records of one JSON object a line. spdlog is outside the
-- repository: `should_log` is its level test, and a sink is a list of lines. Numbers arrive as the text
-- that `fmt::format("{}", v)` gives; the clock, the environment's variables and the paths are arguments.
pub mod Escape
pub mod Read
pub mod Record
pub mod Fields
pub mod Settings
use momo_hdb.Base.{
  ℕ, zero, suc, ◌+◌, ◌-◌, ◌/◌, ◌%◌, Bool, true, false, not, ◌&&◌, ◌||◌, ltb, leb, ◌==◌,
}
use momo_hdb.Base.{
  Option, none, some, List, [], ◌∷◌, ◌++◌, map, Text, bytes, text_eq, length, take, drop,
  if◌then◌else◌,
}
use momo_hdb.Base.Int.{ℤ}
use momo_hdb.Decoders.{to_string}
use momo_hdb.Config.{LoggerCfg, Overflow}

pub data Level : Type 0 where
  debug info warn error : Level

-- `logger::OverflowPolicy`
pub data LogOverflow : Type 0 where
  overrun_oldest block : LogOverflow

-- The levels of spdlog that `to_spd` gives.
pub data SpdLevel : Type 0 where
  debug info warn err : SpdLevel

-- The types of numbers, each with a scratch text of its own in `num`.
pub data NumType : Type 0 where
  int_type size_type i64_type other_type : NumType

pub data Kind : Type 0 where
  string_kind raw_json : Kind

-- What a `std::string_view` looks at: text that outlives the call, or so many bytes of the scratch
-- string of `num`.
pub data View : Type 0 where
  of_text : Text → View
  of_scratch : NumType → ℕ → View

pub record Field : Type 0 where
  pub kind : Kind
  pub key : Text
  pub value : View

-- The bytes of the thread's scratch strings, of which each holds its short texts in itself, with a
-- terminator, so that a new text overwrites the bytes that an earlier view looks at.
abbrev pub Scratch : Type 0
Scratch = NumType → Text

abbrev pub type_eq : NumType → NumType → Bool
type_eq NumType.int_type NumType.int_type = true
type_eq NumType.size_type NumType.size_type = true
type_eq NumType.i64_type NumType.i64_type = true
type_eq NumType.other_type NumType.other_type = true
type_eq _ _ = false

abbrev pub store : NumType → Text → Scratch → Scratch
store t v s u = if type_eq t u then v ++ (0 ∷ drop (length v + 1) (s u)) else s u

abbrev pub view_text : Scratch → View → Text
view_text s (of_text v) = v
view_text s (of_scratch t n) = take n (s t)

unfoldable pub field : Text → Text → Field
field k v = record { kind = Kind.string_kind; key = k; value = of_text v }

unfoldable pub raw : Text → View → Field
raw k v = record { kind = Kind.raw_json; key = k; value = v }

-- The bytes that a `std::string` holds in itself. A longer text goes to the heap, and a later number of
-- the same type then frees what an earlier view looks at.
abbrev pub own_buffer : ℕ
own_buffer = 15

-- `num`, on the text of the number. Two numbers of one type in one call are modelled only where both
-- texts are at most `own_buffer` bytes long: beyond that the first view dangles.
unfoldable pub num : NumType → Text → Text → Scratch → Field × Scratch
unfolding raw
num t k v s = (raw k (of_scratch t (length v)), store t v s)

unfoldable pub b : Text → Bool → Field
unfolding raw
b k v = raw k (of_text (if v then bytes "true" else bytes "false"))

unfoldable pub level_str : Level → Text
level_str Level.debug = bytes "debug"
level_str Level.info = bytes "info"
level_str Level.warn = bytes "warn"
level_str Level.error = bytes "error"

unfoldable pub to_spd : Level → SpdLevel
to_spd Level.debug = SpdLevel.debug
to_spd Level.info = SpdLevel.info
to_spd Level.warn = SpdLevel.warn
to_spd Level.error = SpdLevel.err

abbrev pub hex_digit : ℕ → ℕ
hex_digit d = if ltb d 10 then b'0' + d else b'a' + (d - 10)

-- What `append_json_escaped` appends for one byte.
unfoldable pub escaped : ℕ → Text
escaped c =
    if c == b'"'
    then b'\\' ∷ b'"' ∷ []
    else if c == b'\\'
    then b'\\' ∷ b'\\' ∷ []
    else if c == 8
    then b'\\' ∷ b'b' ∷ []
    else if c == 12
    then b'\\' ∷ b'f' ∷ []
    else if c == 10
    then b'\\' ∷ b'n' ∷ []
    else if c == 13
    then b'\\' ∷ b'r' ∷ []
    else if c == 9
    then b'\\' ∷ b't' ∷ []
    else if ltb c 32
    then b'\\' ∷ b'u' ∷ b'0' ∷ b'0' ∷ hex_digit (c / 16) ∷ hex_digit (c % 16) ∷ []
    else c ∷ []

unfoldable pub append_json_escaped : Text → Text → Text
append_json_escaped out [] = out
append_json_escaped out (c ∷ s) = append_json_escaped (out ++ escaped c) s

unfoldable pub append_kv_string : Text → Text → Text → Text
append_kv_string out k v =
    append_json_escaped (append_json_escaped (out ++ (b'"' ∷ [])) k ++ bytes "\":\"") v
    ++ (b'"' ∷ [])

unfoldable pub append_kv_raw : Text → Text → Text → Text
append_kv_raw out k fragment =
    append_json_escaped (out ++ (b'"' ∷ [])) k ++ (bytes "\":" ++ fragment)

unfoldable pub append_field : Scratch → Text → Kind → Text → View → Text
append_field s out Kind.string_kind k v = append_kv_string out k (view_text s v)
append_field s out Kind.raw_json k v = append_kv_raw out k (view_text s v)

-- The loop over the extra fields.
unfoldable pub append_fields : Scratch → Text → List Field → Text
append_fields s out [] = out
append_fields s out (f ∷ fields) =
    append_fields s (append_field s (out ++ (b',' ∷ [])) f.kind f.key f.value) fields

-- What `log` leaves in `buf`.
unfoldable pub log_record : ℤ → Level → Text → Text → List Field → Scratch → Text
log_record ts_ms lv component event fields s =
    let b0 = (b'{' ∷ []) ++ (bytes "\"ts_ms\":" ++ to_string ts_ms) in
    let b1 = b0 ++ (bytes ",\"level\":\"" ++ (level_str lv ++ bytes "\"")) in
    let b2 = append_json_escaped (b1 ++ bytes ",\"component\":\"") component ++ (b'"' ∷ []) in
    let b3 = append_json_escaped (b2 ++ bytes ",\"event\":\"") event ++ (b'"' ∷ []) in
    append_fields s b3 fields ++ (b'}' ∷ [])

-- `spdlog::async_logger`, with the lines that were handed to it.
pub record AsyncLogger : Type 0 where
  pub level : SpdLevel
  pub flush_on : SpdLevel
  pub overflow : LogOverflow
  pub console : Bool
  pub file_path : Text
  pub lines : List (SpdLevel × Text)

-- `JsonLogger`
pub record JsonLogger : Type 0 where
  pub inited : Bool
  pub logger : Option AsyncLogger

abbrev pub lower : ℕ → ℕ
lower c = if leb b'A' c && leb c b'Z' then c + 32 else c

unfoldable pub parse_level : Text → Level
parse_level s =
    let tmp = map lower s in
    if text_eq tmp (bytes "debug")
    then Level.debug
    else if text_eq tmp (bytes "info")
    then Level.info
    else if text_eq tmp (bytes "warn") || text_eq tmp (bytes "warning")
    then Level.warn
    else if text_eq tmp (bytes "error") || text_eq tmp (bytes "err")
    then Level.error
    else Level.info

abbrev overflow_of : Overflow → LogOverflow
overflow_of Overflow.block = LogOverflow.block
overflow_of Overflow.drop_oldest = LogOverflow.overrun_oldest

unfoldable pub init : LoggerCfg → JsonLogger → JsonLogger
init cfg self = if self.inited then self else record {
  inited = true;
  logger = some (record {
    level = to_spd (parse_level cfg.level);
    flush_on = to_spd (parse_level cfg.flush_on);
    overflow = overflow_of cfg.overflow;
    console = cfg.also_console;
    file_path = cfg.file_path;
    lines = [];
  });
}

unfoldable pub shutdown : JsonLogger → JsonLogger
shutdown self = if not self.inited then self else record { inited = false; logger = none }

abbrev at_level : SpdLevel → Option AsyncLogger → Option AsyncLogger
at_level lv none = none
at_level lv (some lg) = some (record lg { level = lv })

unfoldable pub set_level : Level → JsonLogger → JsonLogger
set_level lv self = record self { logger = at_level (to_spd lv) self.logger }

module _ (should_log : SpdLevel → SpdLevel → Bool) where
  unfoldable pub write_record : Option AsyncLogger → SpdLevel → Text → Option AsyncLogger
  write_record none lv line = none
  write_record (some lg) lv line =
      some
        (if should_log lg.level lv then record lg { lines = lg.lines ++ ((lv, line) ∷ []) } else lg)

  -- `log`, and `info`, `warn`, `error` and `debug`, which call it with their level.
  unfoldable pub log : ℤ → Level → Text → Text → List Field → Scratch → JsonLogger → JsonLogger
  log now lv component event fields s self = record self {
    logger = write_record self.logger (to_spd lv) (log_record now lv component event fields s);
  }
