-- ===== src/Logger/Tests.antt =====
-- The theorem on onm_logger.c for an error and a debug message.
use onm_cli.Base.{◌≡◌, none, some, List, [], ◌∷◌, codes}
use onm_cli.Logger.{LogFile, onm_logger_init}
use onm_cli.Logger.Levels.{error, debug, Message, log_all, log_all-levels}

abbrev messages : List Message
messages =
    record { level = error; timestamp = codes "[t] "; text = codes "m" }
    ∷ record { level = debug; timestamp = codes "[u] "; text = codes "n" }
    ∷ []

log_all-levels_example :
    (file : LogFile) × (onm_logger_init (some []) ≡ some (0, file))
    × (log_all messages file ≡ some (some (codes "[u] [DEBUG] n\n")))
    × (log_all messages none ≡ none)
log_all-levels_example = log_all-levels messages []
