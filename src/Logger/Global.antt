-- ===== src/Logger/Global.antt =====
-- logger/logger.go: the logger of the process, which the functions of the package write to.
use talent_challenge.Prelude.{ℕ, ◌+◌, List, Bool, true, String}
use talent_challenge.Logger
use talent_challenge.Logger.{Fmt, After}

-- `_log`
pub record Global : Type 0 where
  pub log : Logger.Logger

-- `log.Ldate | log.Ltime | log.Lshortfile`
abbrev init_flags : ℕ
init_flags = 1 + 2 + 16

unfoldable pub new : (env : String) → Logger.Logger
new env = Logger.new_logger env ""

unfoldable pub set_level : ℕ → Global → Global
set_level level g = record g { log = Logger.set_level level g.log }

unfoldable pub get_log_level : Global → ℕ
get_log_level g = g.log.level

unfoldable pub set_flags : ℕ → Global → Global
set_flags flags g = record g { log = Logger.set_flags flags g.log }

unfoldable pub set_level_by_string : String → Global → Global
set_level_by_string level g = record g { log = Logger.set_level_by_string level g.log }

unfoldable pub set_highlighting : Bool → Global → Global
set_highlighting on g = record g { log = Logger.set_highlighting on g.log }

-- The package's variables and `init`, with the variable LOG_LEVEL
unfoldable pub init : (env : String) → Global
unfolding new set_flags set_highlighting
init env = set_highlighting true (set_flags init_flags (record { log = new env }))

module _ {A : Type 0} (fmt : Fmt A) where
  unfoldable pub info : List A → Global → Global
  info v g = record g { log = Logger.info fmt v g.log }

  unfoldable pub infof : String → List A → Global → Global
  infof format v g = record g { log = Logger.infof fmt format v g.log }

  unfoldable pub debug : List A → Global → Global
  debug v g = record g { log = Logger.debug fmt v g.log }

  unfoldable pub debugf : String → List A → Global → Global
  debugf format v g = record g { log = Logger.debugf fmt format v g.log }

  unfoldable pub warn : List A → Global → Global
  warn v g = record g { log = Logger.warn fmt v g.log }

  unfoldable pub warnf : String → List A → Global → Global
  warnf format v g = record g { log = Logger.warnf fmt format v g.log }

  unfoldable pub error : List A → Global → Global
  error v g = record g { log = Logger.error fmt v g.log }

  unfoldable pub errorf : String → List A → Global → Global
  errorf format v g = record g { log = Logger.errorf fmt format v g.log }

  unfoldable pub panic : List A → Global → Global × After
  panic v g = let (l, after) = Logger.panic fmt v g.log in (record g { log = l }, after)

  unfoldable pub panicf : String → List A → Global → Global × After
  panicf format v g =
      let (l, after) = Logger.panicf fmt format v g.log in (record g { log = l }, after)

  unfoldable pub fatal : List A → Global → Global × After
  fatal v g = let (l, after) = Logger.fatal fmt v g.log in (record g { log = l }, after)

  unfoldable pub fatalf : String → List A → Global → Global × After
  fatalf format v g =
      let (l, after) = Logger.fatalf fmt format v g.log in (record g { log = l }, after)
