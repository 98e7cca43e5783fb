-- ===== src/Logger.antt =====
-- logger/logger.go: levels as sets of bits, the test that lets a message through, and what is
-- printed. `fmt`'s rendering of values is a parameter, and so is the clock of Go's own logger: a
-- printed line is the text that is handed to `Output`.
pub mod Global
pub mod Printed
pub mod Severity
use talent_challenge.Prelude.{
  ℕ, zero, suc, ◌+◌, ◌*◌, ◌/◌, ◌%◌, ◌^◌, Bool, true, false, Option, none, some, List, [], ◌∷◌, ◌++◌,
  String, ◌==◌, ◌||◌, if◌then◌else◌,
}
use talent_challenge.Prelude.Texts.{text_eq, concat}

-- `a|b` on ints of `w` bits
unfoldable pub bit_or : (w a b : ℕ) → ℕ
bit_or zero a b = 0
bit_or (suc w) a b = (if (a % 2 == 1) || (b % 2 == 1) then 1 else 0) + 2 * bit_or w (a / 2) (b / 2)

abbrev pub int_or : ℕ → ℕ → ℕ
int_or = bit_or 64

-- `LogType`
abbrev pub log_fatal : ℕ
log_fatal = 0x1

abbrev pub log_error : ℕ
log_error = 0x2

abbrev pub log_warning : ℕ
log_warning = 0x4

abbrev pub log_info : ℕ
log_info = 0x8

abbrev pub log_debug : ℕ
log_debug = 0x10

-- `LogLevel`
unfoldable pub log_level_none : ℕ
log_level_none = 0x0

unfoldable pub log_level_fatal : ℕ
unfolding log_level_none bit_or
log_level_fatal = int_or log_level_none log_fatal

unfoldable pub log_level_error : ℕ
unfolding log_level_fatal
log_level_error = int_or log_level_fatal log_error

unfoldable pub log_level_warn : ℕ
unfolding log_level_error
log_level_warn = int_or log_level_error log_warning

unfoldable pub log_level_info : ℕ
unfolding log_level_warn
log_level_info = int_or log_level_warn log_info

unfoldable pub log_level_debug : ℕ
unfolding log_level_info
log_level_debug = int_or log_level_info log_debug

unfoldable pub log_level_all : ℕ
unfolding log_level_debug
log_level_all = log_level_debug

unfoldable pub string_to_log_level : String → ℕ
unfolding log_level_all
string_to_log_level level =
    if text_eq level "fatal"
    then log_level_fatal
    else if text_eq level "error"
    then log_level_error
    else if text_eq level "warn"
    then log_level_warn
    else if text_eq level "warning"
    then log_level_warn
    else if text_eq level "debug"
    then log_level_debug
    else if text_eq level "info"
    then log_level_info
    else log_level_all

unfoldable pub log_type_to_string : ℕ → String × String
log_type_to_string t =
    if t == log_fatal
    then ("fatal", "[0;31")
    else if t == log_error
    then ("error", "[0;31")
    else if t == log_warning
    then ("warning", "[0;33")
    else if t == log_debug
    then ("debug", "[0;36")
    else if t == log_info
    then ("info", "[0;37")
    else ("unknown", "[0;37")

-- `Logger` with what its `log.Logger` keeps: the flags, the prefix, and the texts printed so far
pub record Logger : Type 0 where
  pub prefix : String
  pub flags : ℕ
  pub lines : List String
  pub level : ℕ
  pub highlighting : Bool

-- `log.LstdFlags`
abbrev std_flags : ℕ
std_flags = 3

-- `NewLogger`, with the variable LOG_LEVEL, which is empty where it is not set
unfoldable pub new_logger : (env prefix : String) → Logger
unfolding log_level_info string_to_log_level
new_logger env prefix = record {
  prefix = prefix;
  flags = std_flags;
  lines = [];
  level = if text_eq env "" then log_level_info else string_to_log_level env;
  highlighting = true;
}

unfoldable pub set_highlighting : Bool → Logger → Logger
set_highlighting on l = record l { highlighting = on }

unfoldable pub set_flags : ℕ → Logger → Logger
set_flags flags l = record l { flags = flags }

unfoldable pub set_level : ℕ → Logger → Logger
set_level level l = record l { level = level }

unfoldable pub set_level_by_string : String → Logger → Logger
unfolding string_to_log_level
set_level_by_string level l = record l { level = string_to_log_level level }

-- `_log.Output`, whose error is dropped
unfoldable pub output : String → Logger → Logger
output s l = record l { lines = l.lines ++ s ∷ [] }

-- The package fmt: a slice is a value too, and `Sprint` is what `log.Panic` prints.
pub record Fmt (A : Type 0) : Type 0 where
  pub sprintf : String → List A → String
  pub sprint : List A → String
  pub of_slice : List A → A

-- What becomes of the program after a call
pub data After : Type 0 where
  continues : After
  exits : (status : ℕ) → After
  panicked : (message : String) → After

module _ {A : Type 0} (fmt : Fmt A) where
  -- The text that `logf` hands to `Output`
  unfoldable pub rendered : ℕ → String → List A → Bool → String
  rendered t format v highlighting =
      let names = log_type_to_string t in
      let text = fmt.sprintf format v in
      if highlighting
      then concat ("\u{1b}" ∷ names.1 ∷ "m[" ∷ names.0 ∷ "] " ∷ text ∷ "\u{1b}[0m" ∷ [])
      else concat ("[" ∷ names.0 ∷ "] " ∷ text ∷ [])

  unfoldable pub logf : (t : ℕ) → String → List A → Logger → Logger
  unfolding rendered
  logf t format v l =
      if int_or l.level t == l.level then output (rendered t format v l.highlighting) l else l

  -- `log` hands the slice on as one value.
  unfoldable pub log : (t : ℕ) → List A → Logger → Logger
  unfolding logf
  log t v l = logf t "%v\n" (fmt.of_slice v ∷ []) l

  -- `os.Exit(-1)`: the status is a byte.
  unfoldable pub fatal : List A → Logger → Logger × After
  unfolding log
  fatal v l = (log log_fatal v l, After.exits 255)

  unfoldable pub fatalf : String → List A → Logger → Logger × After
  unfolding logf
  fatalf format v l = (logf log_fatal format v l, After.exits 255)

  -- The package log prints the message, whatever the level, and panics with it.
  unfoldable pub panic : List A → Logger → Logger × After
  unfolding output
  panic v l = let s = fmt.sprint v in (output s l, After.panicked s)

  unfoldable pub panicf : String → List A → Logger → Logger × After
  unfolding output
  panicf format v l = let s = fmt.sprintf format v in (output s l, After.panicked s)

  unfoldable pub error : List A → Logger → Logger
  unfolding log
  error v l = log log_error v l

  unfoldable pub errorf : String → List A → Logger → Logger
  unfolding logf
  errorf format v l = logf log_error format v l

  unfoldable pub warn : List A → Logger → Logger
  unfolding log
  warn v l = log log_warning v l

  unfoldable pub warnf : String → List A → Logger → Logger
  unfolding logf
  warnf format v l = logf log_warning format v l

  unfoldable pub debug : List A → Logger → Logger
  unfolding log
  debug v l = log log_debug v l

  unfoldable pub debugf : String → List A → Logger → Logger
  unfolding logf
  debugf format v l = logf log_debug format v l

  unfoldable pub info : List A → Logger → Logger
  unfolding log
  info v l = log log_info v l

  unfoldable pub infof : String → List A → Logger → Logger
  unfolding logf
  infof format v l = logf log_info format v l
