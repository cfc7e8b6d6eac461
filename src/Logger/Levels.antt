-- ===== src/Logger/Levels.antt =====
-- src/onm_logger.c: which messages are written.
use mathlib.Core.List.{append_assoc, append-nil}
use onm_cli.Base.{
  ◌≡◌, refl, ap, ◌∙◌, Bool, true, false, ◌||◌, Bool-cases, inl, inr, Option, none, some, List, [],
  ◌∷◌, ◌++◌, Str, codes, if◌then◌else◌,
}
use onm_cli.Logger.{
  LogFile, log_message, log_info, log_debug, log_warning, log_error, onm_logger_init,
}

-- The function that a message is given to.
pub data Level : Type 0 where
  info error warning debug : Level

pub record Message : Type 0 where
  pub level : Level
  pub timestamp : Str
  pub text : Str

abbrev pub logged : Level → Str → Str → LogFile → Option LogFile
logged info = log_info
logged error = log_error
logged warning = log_warning
logged debug = log_debug

-- One message after the other.
abbrev pub log_all : List Message → LogFile → Option LogFile
log_all [] file = some file
log_all (m ∷ next) file = elim (logged m.level m.timestamp m.text file) [
  | none ↦ none
  | some file' ↦ log_all next file'
]

abbrev pub is_debug : Level → Bool
is_debug debug = true
is_debug _ = false

abbrev pub has_debug : List Message → Bool
has_debug [] = false
has_debug (m ∷ next) = is_debug m.level || has_debug next

-- The lines of the debug messages.
abbrev pub line_of : Level → Str → Str → Str
line_of debug timestamp text = timestamp ++ codes "[DEBUG] " ++ text ++ b'\n' ∷ []
line_of _ timestamp text = []

abbrev pub debug_lines : List Message → Str
debug_lines [] = []
debug_lines (m ∷ next) = line_of m.level m.timestamp m.text ++ debug_lines next

logged-open :
    (level : Level) (timestamp text written : Str)
    → logged level timestamp text (some written)
      ≡ some (some (written ++ line_of level timestamp text))
unfolding log_message
logged-open debug timestamp text written = refl
logged-open _ timestamp text written = rw (append-nil written)

log_all-open :
    (messages : List Message) (written : Str)
    → log_all messages (some written) ≡ some (some (written ++ debug_lines messages))
log_all-open [] written = rw (append-nil written)
log_all-open (m ∷ next) written =
    rw (log_all, logged-open m.level m.timestamp m.text written)
      (log_all-open next (written ++ line_of m.level m.timestamp m.text)
        ∙ ap (λ (l : Str). some (some l))
            (append_assoc written (line_of m.level m.timestamp m.text) (debug_lines next)))

logged-closed :
    (level : Level) (timestamp text : Str)
    → logged level timestamp text none ≡ (if is_debug level then none else some none)
unfolding log_message
logged-closed debug timestamp text = refl
logged-closed _ timestamp text = refl

log_all-closed :
    (messages : List Message)
    → log_all messages none ≡ (if has_debug messages then none else some none)
log_all-closed [] = refl
log_all-closed (m ∷ next) =
    rw (log_all, logged-closed m.level m.timestamp m.text)
      (elim (Bool-cases (is_debug m.level)) [ inl d ↦ rw d | inr n ↦ rw n (log_all-closed next) ])

-- Behind `onm_logger_init` for a file that can be opened, whatever messages are logged, none fails,
-- and the file then holds the debug messages and no other behind what it held: no information, no
-- warning and no error. Where no file is open, messages are passed over if none of them is a debug
-- message, and otherwise written to a file that is not there.
pub log_all-levels :
    (messages : List Message) (written : Str)
    → (file : LogFile) × (onm_logger_init (some written) ≡ some (0, file))
      × (log_all messages file ≡ some (some (written ++ debug_lines messages)))
      × (log_all messages none ≡ (if has_debug messages then none else some none))
unfolding onm_logger_init
log_all-levels messages written =
    (some written, refl, log_all-open messages written, log_all-closed messages)
