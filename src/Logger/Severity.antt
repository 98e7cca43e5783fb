-- ===== src/Logger/Severity.antt =====
-- Which messages are printed: the test on the mask against the single bit of a type, and the levels
-- that have names against an order of severity.
use talent_challenge.Prelude.{
  ℕ, zero, suc, ◌-◌, ◌/◌, ◌%◌, ◌^◌, ◌<◌, ◌≡◌, refl, ap, ◌∙◌, Bool, true, false, List, String, arith,
  ltb, ◌==◌, if◌then◌else◌,
}
use talent_challenge.Prelude.Texts.{text_eq}
use talent_challenge.Logger.{
  bit_or, log_level_fatal, log_level_error, log_level_warn, log_level_info, log_level_debug,
  log_level_all, string_to_log_level, Logger, Fmt, rendered, output, logf, set_level_by_string,
}

-- A bit of a number, the lowest first
unfoldable pub is_set : ℕ → ℕ → Bool
is_set zero l = l % 2 == 1
is_set (suc k) l = is_set k (l / 2)

bit_or-zero : (w l : ℕ) → l < 2 ^ w → bit_or w l 0 ≡ l
unfolding bit_or
bit_or-zero zero l small = omega arith
bit_or-zero (suc w) l small = ground (arith, bit_or-zero w (l / 2) (omega arith))

pub bit_or-flag : (w k l : ℕ) → k < w → l < 2 ^ w → (bit_or w l (2 ^ k) == l) ≡ is_set k l
unfolding bit_or is_set
bit_or-flag zero k l there small = absurd (omega arith)
bit_or-flag (suc w) zero l there small = ground (arith, bit_or-zero w (l / 2) (omega arith))
bit_or-flag (suc w) (suc k) l there small =
    ground (arith, bit_or-flag w k (l / 2) (omega arith) (omega arith))

-- How many of the types fatal, error, warning, info and debug a name lets through
abbrev pub verbosity_by : (fatal error warn warning debug info : Bool) → ℕ
verbosity_by true e w w' d i = 1
verbosity_by false true w w' d i = 2
verbosity_by false false true w' d i = 3
verbosity_by false false false true d i = 3
verbosity_by false false false false true i = 5
verbosity_by false false false false false true = 4
verbosity_by false false false false false false = 5

abbrev pub verbosity : String → ℕ
verbosity name =
    verbosity_by (text_eq name "fatal") (text_eq name "error") (text_eq name "warn")
      (text_eq name "warning") (text_eq name "debug") (text_eq name "info")

level_by : (fatal error warn warning debug info : Bool) → ℕ
level_by f e w w' d i =
    if f
    then log_level_fatal
    else if e
    then log_level_error
    else if w
    then log_level_warn
    else if w'
    then log_level_warn
    else if d
    then log_level_debug
    else if i
    then log_level_info
    else log_level_all

level_by-verbosity_by :
    (f e w w' d i : Bool) → level_by f e w w' d i ≡ 2 ^ verbosity_by f e w w' d i - 1
unfolding level_by log_level_all
level_by-verbosity_by true e w w' d i = refl
level_by-verbosity_by false true w w' d i = refl
level_by-verbosity_by false false true w' d i = refl
level_by-verbosity_by false false false true d i = refl
level_by-verbosity_by false false false false true i = refl
level_by-verbosity_by false false false false false true = refl
level_by-verbosity_by false false false false false false = refl

pub string_to_log_level-verbosity :
    (name : String) → string_to_log_level name ≡ 2 ^ verbosity name - 1
unfolding string_to_log_level level_by
string_to_log_level-verbosity name =
    level_by-verbosity_by (text_eq name "fatal") (text_eq name "error") (text_eq name "warn")
      (text_eq name "warning") (text_eq name "debug") (text_eq name "info")

pow_pos : (n : ℕ) → 0 < 2 ^ n
pow_pos zero = omega arith
pow_pos (suc n) = omega (arith, pow_pos n)

half : (n : ℕ) → (2 ^ suc n - 1) / 2 ≡ 2 ^ n - 1
half n = omega arith

pub is_set-ones : (k n : ℕ) → is_set k (2 ^ n - 1) ≡ ltb k n
unfolding is_set
is_set-ones zero zero = refl
is_set-ones zero (suc n) = ground (arith, pow_pos n)
is_set-ones (suc k) zero = is_set-ones k zero ∙ ground arith
is_set-ones (suc k) (suc n) = ap (is_set k) (half n) ∙ is_set-ones k n ∙ ground arith

pub verbosity_by_small : (f e w w' d i : Bool) → 2 ^ verbosity_by f e w w' d i - 1 < 2 ^ 64
verbosity_by_small true e w w' d i = omega arith
verbosity_by_small false true w w' d i = omega arith
verbosity_by_small false false true w' d i = omega arith
verbosity_by_small false false false true d i = omega arith
verbosity_by_small false false false false true i = omega arith
verbosity_by_small false false false false false true = omega arith
verbosity_by_small false false false false false false = omega arith

module _ {A : Type 0} (fmt : Fmt A) where
  -- A message of the type with bit `k` is printed by a logger of any level of 64 bits exactly where
  -- bit `k` of the level is set: the rendered text stands behind the lines before it. Otherwise
  -- nothing changes.
  pub logf-is_set :
      (k : ℕ) (format : String) (v : List A) (l : Logger)
      → k < 64
      → l.level < 2 ^ 64
      → logf fmt (2 ^ k) format v l
        ≡ (if is_set k l.level then output (rendered fmt (2 ^ k) format v l.highlighting) l else l)
  unfolding logf
  logf-is_set k format v l there small = rw (bit_or-flag 64 k l.level there small) refl

  -- After the level is set by a name, the first 1, 2, 3 or 4 of the types fatal, error, warning,
  -- info and debug are printed for "fatal", "error", "warn" or "warning", and "info", and all five
  -- for every other name.
  pub logf-verbosity :
      (name : String) (k : ℕ) (format : String) (v : List A) (l : Logger)
      → k < 64
      → logf fmt (2 ^ k) format v (set_level_by_string name l) ≡ (
          if ltb k (verbosity name)
          then output (rendered fmt (2 ^ k) format v l.highlighting) (set_level_by_string name l)
          else set_level_by_string name l)
  unfolding set_level_by_string
  logf-verbosity name k format v l there = rw (string_to_log_level-verbosity name) (
      rw
        (logf-is_set k format v (record l { level = 2 ^ verbosity name - 1 }) there
          (verbosity_by_small (text_eq name "fatal") (text_eq name "error") (text_eq name "warn")
            (text_eq name "warning") (text_eq name "debug") (text_eq name "info")))
        (rw (is_set-ones k (verbosity name)) refl))
