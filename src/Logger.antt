-- ===== src/Logger.antt =====
-- src/onm_logger.c, with the levels of src/config.h. A message is its text behind the expansion of the format.
pub mod Levels
mod Tests
use onm_cli.Base.{ℕ, Option, none, some, [], ◌∷◌, ◌++◌, Str, codes, leb, ◌==◌, if◌then◌else◌}

abbrev pub level_info : ℕ
level_info = 1

abbrev pub level_error : ℕ
level_error = 2

abbrev pub level_warning : ℕ
level_warning = 3

abbrev pub level_debug : ℕ
level_debug = 4

-- LOG_LEVEL, which is ONM_LOG_LEVEL
abbrev pub log_level : ℕ
log_level = level_debug

-- `logFile`: NULL, or the text of the file.
abbrev pub LogFile : Type 0
LogFile = Option Str

-- `fprintf` to the file.
abbrev pub fprintf : Str → LogFile → Option LogFile
fprintf text none = none
fprintf text (some written) = some (some (written ++ text))

-- The word of the switch
abbrev pub level_text : ℕ → Str
level_text level =
    if level == level_info
    then codes "[INFO] "
    else if level == level_debug
    then codes "[DEBUG] "
    else if level == level_warning
    then codes "[WARNING] "
    else if level == level_error
    then codes "[ERROR] "
    else []

-- `none` is a write to a file that is not open. `timestamp` is the text of `logTimestamp`.
unfoldable pub log_message : ℕ → Str → Str → LogFile → Option LogFile
log_message level timestamp text file =
    if leb log_level level
    then fprintf (timestamp ++ level_text level ++ text ++ b'\n' ∷ []) file
    else some file

abbrev pub log_info : Str → Str → LogFile → Option LogFile
log_info timestamp text file = log_message level_info timestamp text file

abbrev pub log_debug : Str → Str → LogFile → Option LogFile
log_debug timestamp text file = log_message level_debug timestamp text file

abbrev pub log_warning : Str → Str → LogFile → Option LogFile
log_warning timestamp text file = log_message level_warning timestamp text file

abbrev pub log_error : Str → Str → LogFile → Option LogFile
log_error timestamp text file = log_message level_error timestamp text file

-- `onm_logger_init` appends to the file, where it can be opened; otherwise the program exits.
unfoldable pub onm_logger_init : Option Str → Option (ℕ × LogFile)
onm_logger_init none = none
onm_logger_init (some written) = some (0, some written)
