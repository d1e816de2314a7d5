-- ===== src/Tests/Logging.antt =====
-- The theorems on the log, on a line with a text that needs escapes and on a line with two numbers.
use momo_hdb.Base.{◌≡◌, refl, true, some, List, [], ◌∷◌, map, bytes, length, arith, replicate, ◌+◌}
use momo_hdb.Base.Int.{pos}
use momo_hdb.Logger.{Level, NumType, Field, Scratch}
use momo_hdb.Logger
use momo_hdb.Logger.Record.{bare, read_record, head_members, read-log_record, shown}
use momo_hdb.Logger.Fields.{two_numbers, read-two_numbers}

abbrev empty_scratch : Scratch
empty_scratch t = replicate 16 0

abbrev fields : List Field
fields = Logger.field (bytes "path") (bytes "a\"b\\c\n") ∷ Logger.b (bytes "ok") true ∷ []

read-log_record_example :
    read_record
      (4 + length fields)
      (Logger.log_record (pos 1700) Level.info (bytes "main") (bytes "start") fields empty_scratch)
    ≡ some (
        head_members
          (pos 1700)
          Level.info
          (bytes "main")
          (bytes "start")
          (map (shown empty_scratch) fields))
unfolding Logger.field Logger.b Logger.raw
read-log_record_example =
    read-log_record (pos 1700) Level.info (bytes "main") (bytes "start") fields empty_scratch
      (tt, ((refl, (refl, (refl, (refl, tt)))), tt))

read-two_numbers_example :
    read_record 6 (
      two_numbers
        (pos 1700)
        Level.info
        (bytes "submgr")
        (bytes "load_cfg")
        NumType.size_type
        NumType.size_type
        (bytes "securities")
        (bytes "default_subtypes")
        (bytes "3")
        (bytes "6")
        empty_scratch)
    ≡ some (
        head_members (pos 1700) Level.info (bytes "submgr") (bytes "load_cfg") (
          (bytes "securities", bare (bytes "6"))
          ∷ (bytes "default_subtypes", bare (bytes "6"))
          ∷ []))
read-two_numbers_example =
    read-two_numbers (pos 1700) Level.info (bytes "submgr") (bytes "load_cfg") NumType.size_type
      NumType.size_type (bytes "securities") (bytes "default_subtypes") (bytes "3") (bytes "6")
      empty_scratch (refl, tt) (refl, tt) (omega arith) (omega arith)
