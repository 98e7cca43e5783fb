-- ===== src/Transport/Client.antt =====
-- raft_conn/raft_client.go: one connection per address, made when it is needed and made again after
-- a message could not be sent. gRPC is a parameter, which may change a world. The client is used
-- by one goroutine, the one that handles Readies, so its mutex has nothing to order.
pub mod Clean
pub mod Sends
pub mod Delivers
pub mod Hands
use talent_challenge.Prelude.{
  ℕ, suc, Bool, true, false, Option, none, some, String, ◌==◌, ◌||◌, if◌then◌else◌,
}
use talent_challenge.Prelude.Outcome.{Try, failed, done}
use talent_challenge.Prelude.Bytes.{Bytes}
use talent_challenge.Prelude.Texts.{text_eq}

-- raftpb.Message, with the fields that the program reads; `content` is all else.
pub record Message : Type 0 where
  pub to : ℕ
  pub from : ℕ
  pub content : Bytes

-- `RaftMsgReq`
pub record RaftMsgReq : Type 0 where
  pub message : Option Message
  pub from_peer : ℕ
  pub to_peer : ℕ

-- `raftConn`, named by the number of its context
pub record RaftConn : Type 0 where
  pub addr : String
  pub context : ℕ

-- gRPC: `Dial`, the call that opens a stream, and `Send` on a stream, with the numbers of errors
pub record Grpc (W : Type 0) : Type 0 where
  pub dial : String → W → Option ℕ × W
  pub open_stream : RaftConn → W → Option ℕ × W
  pub stream_send : RaftConn → RaftMsgReq → W → Option ℕ × W

-- `RaftClient`, with the contexts that were made, 0, 1, …, and which of them are cancelled
pub record RaftClient : Type 0 where
  pub conns : String → Option RaftConn
  pub made : ℕ
  pub cancelled : ℕ → Bool

unfoldable pub new_raft_client : RaftClient
new_raft_client = record { conns = λ addr. none; made = 0; cancelled = λ n. false }

-- `c.cancel()`, which `Stop` calls
unfoldable pub stop : RaftConn → RaftClient → RaftClient
stop c rc = record rc { cancelled = λ n. (n == c.context) || rc.cancelled n }

-- `delete(rc.conns, addr)` and `rc.conns[addr] = conn`
unfoldable pub remove_conn : String → RaftClient → RaftClient
remove_conn addr rc = record rc { conns = λ a. if text_eq a addr then none else rc.conns a }

unfoldable pub put_conn : String → RaftConn → RaftClient → RaftClient
put_conn addr c rc = record rc { conns = λ a. if text_eq a addr then some c else rc.conns a }

unfoldable pub stop_old : Option RaftConn → RaftClient → RaftClient
stop_old none rc = rc
stop_old (some old) rc = stop old rc

module _ {W : Type 0} (grpc : Grpc W) where
  -- `context.WithCancel` and the stream on it
  unfoldable pub open_conn : String → RaftClient → W → Try ℕ RaftConn × RaftClient × W
  unfolding stop
  open_conn addr rc w =
      let c : RaftConn = record { addr = addr; context = rc.made } in
      let counted : RaftClient = record rc { made = suc rc.made } in
      let (err, after) = grpc.open_stream c w in
      elim err [ none ↦ (done c, counted, after) | some e ↦ (failed e, stop c counted, after) ]

  unfoldable pub new_raft_conn : String → RaftClient → W → Try ℕ RaftConn × RaftClient × W
  unfolding open_conn
  new_raft_conn addr rc w =
      let (err, after) = grpc.dial addr w in
      let opened = open_conn addr rc after in
      elim err [ none ↦ opened | some e ↦ (failed e, rc, after) ]

  -- The new connection takes the place of one that was put there meanwhile.
  unfoldable pub install : String → RaftConn → RaftClient → RaftClient
  unfolding put_conn stop_old
  install addr c rc = put_conn addr c (stop_old (rc.conns addr) rc)

  unfoldable pub use_new :
      String → Try ℕ RaftConn × RaftClient × W → Try ℕ RaftConn × RaftClient × W
  unfolding install
  use_new addr (failed e, rc, w) = (failed e, rc, w)
  use_new addr (done c, rc, w) = (done c, install addr c rc, w)

  unfoldable pub get_raft_conn : String → RaftClient → W → Try ℕ RaftConn × RaftClient × W
  unfolding new_raft_conn use_new
  get_raft_conn addr rc w =
      let opened = use_new addr (new_raft_conn addr rc w) in
      elim (rc.conns addr) [ some c ↦ (done c, rc, w) | none ↦ opened ]

  -- The second attempt of `Send`, on the connection that was got
  unfoldable pub send_on : RaftMsgReq → Try ℕ RaftConn × RaftClient × W → Option ℕ × RaftClient × W
  send_on msg (failed e, rc, w) = (some e, rc, w)
  send_on msg (done c, rc, w) = let (err, after) = grpc.stream_send c msg w in (err, rc, after)

  -- The first attempt: after an error the connection is stopped, and a new one sends again.
  unfoldable pub send_first :
      String → RaftMsgReq → Try ℕ RaftConn × RaftClient × W → Option ℕ × RaftClient × W
  unfolding get_raft_conn send_on stop remove_conn
  send_first addr msg (failed e, rc, w) = (some e, rc, w)
  send_first addr msg (done c, rc, w) =
      let (err, after) = grpc.stream_send c msg w in
      let again = send_on msg (get_raft_conn addr (remove_conn addr (stop c rc)) after) in
      elim err [ none ↦ (none, rc, after) | some e ↦ again ]

  unfoldable pub send : String → RaftMsgReq → RaftClient → W → Option ℕ × RaftClient × W
  unfolding get_raft_conn send_first
  send addr msg rc w = send_first addr msg (get_raft_conn addr rc w)
