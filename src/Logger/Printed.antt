-- ===== src/Logger/Printed.antt =====
-- What a sequence of messages leaves in the log.
use talent_challenge.Prelude.{
  ℕ, ◌^◌, ◌<◌, ◌≡◌, sym, ap, ◌∙◌, inl, inr, Bool, List, [], ◌∷◌, ◌++◌, String, All, ltb, Bool-cases,
  append_assoc, append-nil, if◌then◌else◌,
}
use talent_challenge.Logger.{Logger, Fmt, rendered, output, logf, set_level_by_string}
use talent_challenge.Logger.Severity.{verbosity, logf-verbosity}

-- A message: the bit of its type, and what it prints
abbrev pub Message : Type 0 → Type 0
Message A = ℕ × String × List A

module _ {A : Type 0} (fmt : Fmt A) where
  unfoldable pub log_all : List (Message A) → Logger → Logger
  unfolding logf
  log_all [] l = l
  log_all ((k, format, v) ∷ ms) l = log_all ms (logf fmt (2 ^ k) format v l)

  -- The texts of the messages whose bits are below a number
  unfoldable pub printed : ℕ → (highlighting : Bool) → List (Message A) → List String
  printed n on [] = []
  printed n on ((k, format, v) ∷ ms) =
      let rest = printed n on ms in
      if ltb k n then rendered fmt (2 ^ k) format v on ∷ rest else rest

  -- Messages are logged in order, the types' bits below 64, after the level is set by a name: the
  -- log then ends in exactly the texts of those that the name lets through, in order, the texts
  -- that it held before in front of them.
  pub log_all-printed :
      (name : String) (ms : List (Message A)) (l : Logger)
      → All (λ m. m.0 < 64) ms
      → (log_all ms (set_level_by_string name l)).lines
        ≡ l.lines ++ printed (verbosity name) l.highlighting ms
  unfolding log_all printed set_level_by_string output
  log_all-printed name [] l small = sym (append-nil l.lines)
  log_all-printed name ((k, format, v) ∷ ms) l small =
      let here = rendered fmt (2 ^ k) format v l.highlighting in
      ap (λ after. (log_all ms after).lines) (logf-verbosity fmt name k format v l small.0)
      ∙ elim (Bool-cases (ltb k (verbosity name))) [
        | inl e ↦ rw e (
            log_all-printed name ms (output here l) small.1
            ∙ append_assoc l.lines (here ∷ []) (printed (verbosity name) l.highlighting ms))
        | inr e ↦ rw e (log_all-printed name ms l small.1)
      ]
