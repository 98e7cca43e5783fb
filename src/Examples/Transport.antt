-- ===== src/Examples/Transport.antt =====
-- A gRPC whose first sends may fail, messages over it, and messages in a log.
use talent_challenge.Prelude.{
  ℕ, zero, suc, ◌≡◌, refl, true, false, Option, none, some, List, [], ◌∷◌, ◌++◌, map, String, arith,
}
use talent_challenge.Prelude.Texts.{concat}
use talent_challenge.Transport.Client.{Message, RaftMsgReq, RaftConn, Grpc}
use talent_challenge.Transport.Client.Delivers.{watched, unwatched}
use talent_challenge.Transport.Client.Hands.{at_addr}
use talent_challenge.Transport.Router.{peer_addr, new_router, peer_msg, send_raft_msgs}
use talent_challenge.Logger.{Fmt, rendered, log_type_to_string, new_logger, set_level_by_string}
use talent_challenge.Logger.Severity.{verbosity}
use talent_challenge.Logger.Printed.{Message as LogMessage, log_all, printed, log_all-printed}

-- How many sends fail from here on, and what was taken for which address
abbrev pub Net : Type 0
Net = ℕ × List (String × RaftMsgReq)

abbrev net_send : RaftConn → RaftMsgReq → Net → Option ℕ × Net
net_send c msg (zero, taken) = (none, (zero, taken ++ (c.addr, msg) ∷ []))
net_send c msg (suc n, taken) = (some 1, (n, taken))

abbrev pub net : Grpc Net
net = record { dial = λ addr w. (none, w); open_stream = λ c w. (none, w); stream_send = net_send }

abbrev message : ℕ → ℕ → Message
message to n = record { to = to; from = 1; content = n ∷ [] }

abbrev messages : List Message
messages = message 2 0 ∷ message 3 1 ∷ message 7 2 ∷ message 2 3 ∷ []

-- No send fails: both messages for the peer 2 are handed over.
no_failure :
    let after =
      send_raft_msgs (watched net) messages (new_router "127.0.0.1:6060") (unwatched (0, [])) in
    (after.1.errors ≡ 0)
    × (at_addr "127.0.0.1:6061" after.1.calls
        ≡ peer_msg (message 2 0) ∷ peer_msg (message 2 3) ∷ [])
unfolding send_raft_msgs new_router peer_addr
no_failure = (refl, refl)

-- Three sends fail: the first message is lost, the second needs a second attempt.
three_failures :
    let after = send_raft_msgs net messages (new_router "127.0.0.1:6060") (3, []) in
    map (λ a. a.0) after.1.1 ≡ "127.0.0.1:6062" ∷ "127.0.0.1:6061" ∷ []
unfolding send_raft_msgs new_router peer_addr
three_failures = refl

abbrev fmt : Fmt String
fmt = record { sprintf = λ format v. concat (format ∷ v); sprint = concat; of_slice = concat }

abbrev logged : List (LogMessage String)
logged = (4, "d", []) ∷ (0, "f", []) ∷ (2, "w", "x" ∷ []) ∷ (3, "i", []) ∷ []

log_all-printed_example :
    (log_all fmt logged (set_level_by_string "warn" (new_logger "" ""))).lines
    ≡ printed fmt (verbosity "warn") true logged
unfolding new_logger
log_all-printed_example =
    log_all-printed fmt "warn" logged (new_logger "" "")
      (omega arith, (omega arith, (omega arith, (omega arith, tt))))

warn_prints_two : printed fmt (verbosity "warn") false logged ≡ "[fatal] f" ∷ "[warning] wx" ∷ []
unfolding printed rendered concat log_type_to_string
warn_prints_two = refl
