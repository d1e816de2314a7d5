-- ===== src/Logger/Settings.antt =====
-- The logger's options and what the environment makes of them (`apply_env` and `default_options_for` of
-- momo_common/include/JsonLogger.hpp). The environment's variables and the paths are arguments.
use momo_hdb.Base.{ℕ, Bool, true, not, ◌||◌}
use momo_hdb.Base.{Option, none, some, ◌++◌, Text, bytes, text_eq, if◌then◌else◌}
use momo_hdb.Logger.{Level, LogOverflow, SpdLevel, parse_level}

-- `JsonLogger::Options`
pub record LogOptions : Type 0 where
  pub file_path : Text
  pub also_console : Bool
  pub level : Level
  pub queue_size : ℕ
  pub worker_threads : ℕ
  pub overflow : LogOverflow
  pub flush_on : SpdLevel

unfoldable pub env_bool : Option Text → Bool → Bool
env_bool none defv = defv
env_bool (some v) defv =
    not (text_eq v (bytes "0") || text_eq v (bytes "false") || text_eq v (bytes "FALSE"))

-- The environment's variables that `apply_env` reads; `join` is the path of a file in a directory.
pub record LogEnv : Type 0 where
  pub log_level : Option Text
  pub log_console : Option Text
  pub log_overflow : Option Text
  pub log_file : Option Text
  pub log_dir : Option Text

abbrev env_level : Option Text → Level → Level
env_level none lv = lv
env_level (some v) lv = parse_level v

abbrev env_overflow : Option Text → LogOverflow → LogOverflow
env_overflow none o = o
env_overflow (some v) o =
    if text_eq v (bytes "drop")
    then LogOverflow.overrun_oldest
    else if text_eq v (bytes "block")
    then LogOverflow.block
    else o

abbrev env_path : (Text → Text → Text) → Text → Option Text → Option Text → Text → Text
env_path join app_name (some v) dir path = v
env_path join app_name none (some dir) path = join dir (app_name ++ bytes ".jsonl")
env_path join app_name none none path = path

unfoldable pub apply_env : (Text → Text → Text) → LogEnv → LogOptions → Text → LogOptions
apply_env join env opt app_name = record opt {
  level = env_level env.log_level opt.level;
  also_console = env_bool env.log_console opt.also_console;
  overflow = env_overflow env.log_overflow opt.overflow;
  file_path = env_path join app_name env.log_file env.log_dir opt.file_path;
}

unfoldable pub default_options_for : (Text → Text → Text) → LogEnv → Text → LogOptions
default_options_for join env app_name =
    apply_env join env
      (record {
        file_path = bytes "logs/" ++ (app_name ++ bytes ".jsonl");
        also_console = true;
        level = Level.info;
        queue_size = 65536;
        worker_threads = 1;
        overflow = LogOverflow.overrun_oldest;
        flush_on = SpdLevel.warn;
      })
      app_name
