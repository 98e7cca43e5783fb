-- ===== src/Process.antt =====
-- cmd/server/main.go and the parsing of cfg/cfg.go: the process of the server, from its configuration
-- to its exit. The signals, the goroutine that stops the server, and the end of `Start` are events,
-- in the order in which they come. What it prints is left out.
pub mod Exits
use talent_challenge.Prelude.{
  ℕ, Bool, true, false, Option, none, some, List, [], ◌∷◌, if◌then◌else◌,
}
use talent_challenge.Api.Model.{Try, failed, done}
use talent_challenge.Api.Store.{NewStore}
use talent_challenge.Api.Server.{Cfg, Server, new_server}

-- The signals of `signal.Notify`
pub data Signal : Type 0 where
  sighup sigint sigterm sigquit : Signal

-- `log.Fatalf` ends the process with the code 1.
pub data Main (A : Type 0) : Type 0 where
  exits : (code : ℕ) → Main A
  goes_on : A → Main A

-- `MustParseCfg` on what `toml.DecodeFile` gives
unfoldable pub must_parse_cfg : {E : Type 0} → Try E Cfg → Main Cfg
must_parse_cfg (failed e) = exits 1
must_parse_cfg (done c) = goes_on c

-- `main` up to the server; `NewServer` returns no error.
unfoldable pub start_server : {E : Type 0} → Try E Cfg → Main (Server NewStore)
unfolding must_parse_cfg new_server
start_server decoded = elim (must_parse_cfg decoded) [
  | exits code ↦ exits code
  | goes_on c ↦ goes_on (new_server c)
]

-- `stopping`, the goroutines that stop the server, with their signals, and how the process ended
pub record Process : Type 0 where
  pub stopping : Bool
  pub stops : List Signal
  pub exit_code : Option ℕ

abbrev pub new_process : Process
new_process = record { stopping = false; stops = []; exit_code = none }

pub data Event : Type 0 where
  received : Signal → Event
  stopped : Event
  start_returned : Event

-- The `switch` of the goroutine
unfoldable pub code_of : Signal → ℕ
code_of sigterm = 0
code_of _ = 1

abbrev pub exit : ℕ → Process → Process
exit code p = record p { exit_code = some code }

-- The loop on a signal
unfoldable pub on_signal : Signal → Process → Process
on_signal sig p =
    if p.stopping then exit 0 p else record p { stopping = true; stops = sig ∷ p.stops }

-- The goroutine's turn, if it is there; `Stop` does nothing and its error is dropped.
unfoldable pub on_stopped : Process → Process
unfolding code_of
on_stopped p = elim p.stops [ [] ↦ p | sig ∷ stops ↦ exit (code_of sig) p ]

unfoldable pub on_event : Event → Process → Process
unfolding on_signal on_stopped
on_event (received sig) p = on_signal sig p
on_event stopped p = on_stopped p
on_event start_returned p = exit 1 p

-- Nothing happens after the exit.
unfoldable pub run_events : List Event → Process → Process
unfolding on_event
run_events [] p = p
run_events (event ∷ events) p = elim p.exit_code [
  | some code ↦ p
  | none ↦ run_events events (on_event event p)
]
