-- ===== src/Process/Exits.antt =====
-- When the process of cmd/server/main.go ends, and with which code.
use talent_challenge.Prelude.{
  ℕ, ◌≡◌, refl, ◌⊎◌, inl, inr, true, none, some, some-injective, List, [], ◌∷◌, arith, ap, sym, ◌∙◌,
}
use talent_challenge.Process.{
  Signal, sighup, sigint, sigterm, sigquit, Process, Event, received, stopped, start_returned,
  new_process, exit, code_of, on_signal, on_stopped, on_event, run_events,
}

abbrev signals : List Event → List Signal
signals [] = []
signals (received sig ∷ events) = sig ∷ signals events
signals (stopped ∷ events) = signals events
signals (start_returned ∷ events) = signals events

abbrev HasEnded : Process → Type 0
HasEnded p = (code : ℕ) × (p.exit_code ≡ some code)

run_events-ended :
    (events : List Event) (p : Process) (code : ℕ)
    → p.exit_code ≡ some code
    → (run_events events p).exit_code ≡ some code
unfolding run_events
run_events-ended [] p code ended = ended
run_events-ended (event ∷ events) p code ended = rw (ended, run_events) ended

-- The process with one goroutine that stops the server
abbrev pub stopping_on : Signal → Process
stopping_on sig = record { stopping = true; stops = sig ∷ []; exit_code = none }

ended_by :
    (events : List Event) (code : ℕ) (p : Process) → HasEnded (run_events events (exit code p))
ended_by events code p = (code, run_events-ended events (exit code p) code refl)

-- While it stops, any further signal ends it.
run_events-stopping_on :
    (events : List Event) (first next : Signal) (rest : List Signal)
    → signals events ≡ next ∷ rest
    → HasEnded (run_events events (stopping_on first))
unfolding run_events on_event on_signal on_stopped
run_events-stopping_on [] first next rest h = cc
run_events-stopping_on (received sig ∷ events) first next rest h =
    ended_by events 0 (stopping_on first)
run_events-stopping_on (stopped ∷ events) first next rest h =
    ended_by events (code_of first) (stopping_on first)
run_events-stopping_on (start_returned ∷ events) first next rest h =
    ended_by events 1 (stopping_on first)

tail-eq : {x y : Signal} {xs ys : List Signal} → x ∷ xs ≡ y ∷ ys → xs ≡ ys
tail-eq h = cc

-- Two signals end the process, whatever comes between them.
run_events-two_signals :
    (events : List Event) (first next : Signal) (rest : List Signal)
    → signals events ≡ first ∷ next ∷ rest
    → HasEnded (run_events events new_process)
unfolding run_events on_event on_signal on_stopped
run_events-two_signals [] first next rest h = cc
run_events-two_signals (received sig ∷ events) first next rest h =
    run_events-stopping_on events sig next rest (tail-eq h)
run_events-two_signals (stopped ∷ events) first next rest h =
    run_events-two_signals events first next rest h
run_events-two_signals (start_returned ∷ events) first next rest h = ended_by events 1 new_process

code_of-sigterm : (sig : Signal) → code_of sig ≡ 0 → sig ≡ sigterm
unfolding code_of
code_of-sigterm sighup h = cc
code_of-sigterm sigint h = cc
code_of-sigterm sigterm h = refl
code_of-sigterm sigquit h = cc

exit_zero-stopping_on :
    (events : List Event) (first : Signal)
    → (run_events events (stopping_on first)).exit_code ≡ some 0
    → ((next : Signal) × (rest : List Signal) × (signals events ≡ next ∷ rest)) ⊎ (first ≡ sigterm)
unfolding run_events on_event on_signal on_stopped
exit_zero-stopping_on [] first h = cc
exit_zero-stopping_on (received sig ∷ events) first h = inl (sig, signals events, refl)
exit_zero-stopping_on (stopped ∷ events) first h =
    let code = code_of first in
    let same = run_events-ended events (exit code (stopping_on first)) code refl in
    inr (code_of-sigterm first (some-injective (sym same ∙ h)))
exit_zero-stopping_on (start_returned ∷ events) first h =
    let same = run_events-ended events (exit 1 (stopping_on first)) 1 refl in
    absurd (omega (arith, some-injective (sym same ∙ h)))

-- The process ends with the code 0 only after two signals, or after SIGTERM as the first.
exit_zero-signals :
    (events : List Event)
    → (run_events events new_process).exit_code ≡ some 0
    → ((first next : Signal) × (rest : List Signal) × (signals events ≡ first ∷ next ∷ rest))
      ⊎ ((rest : List Signal) × (signals events ≡ sigterm ∷ rest))
unfolding run_events on_event on_signal on_stopped
exit_zero-signals [] h = cc
exit_zero-signals (received sig ∷ events) h = elim (exit_zero-stopping_on events sig h) [
  | inl (next, rest, more) ↦ inl (sig, next, rest, ap (λ (xs : List Signal). sig ∷ xs) more)
  | inr term ↦ inr (signals events, ap (λ (x : Signal). x ∷ signals events) term)
]
exit_zero-signals (stopped ∷ events) h = exit_zero-signals events h
exit_zero-signals (start_returned ∷ events) h =
    let same = run_events-ended events (exit 1 new_process) 1 refl in
    absurd (omega (arith, some-injective (sym same ∙ h)))
