-- ===== src/Transport/Router.antt =====
-- router.go, raft_conn/raft_server.go, and the constants and receiver of peer.go.
pub mod Hands
pub mod Order
use talent_challenge.Prelude.{
  ℕ, zero, suc, ◌+◌, Bool, Option, none, some, List, [], ◌∷◌, ◌++◌, String, ◌==◌, map, length,
  if◌then◌else◌,
}
use talent_challenge.Prelude.Outcome.{Outcome, returns, panics, ◌>>=◌}
use talent_challenge.Transport.Client.{Message, RaftMsgReq, Grpc, RaftClient, new_raft_client, send}

-- `peerMap`
unfoldable pub peer_addr : ℕ → Option String
peer_addr id =
    if id == 1
    then some "127.0.0.1:6060"
    else if id == 2
    then some "127.0.0.1:6061"
    else if id == 3
    then some "127.0.0.1:6062"
    else none

-- `len(peerMap)`
abbrev peer_count : ℕ
peer_count = 3

abbrev ids_from : ℕ → ℕ → List ℕ
ids_from i zero = []
ids_from i (suc n) = i ∷ ids_from (i + 1) n

-- `loadRaftPeers`; a `raft.Peer` is its id.
unfoldable pub load_raft_peers : List ℕ
load_raft_peers = ids_from 1 peer_count

-- `router`; `msgc` is the channel that its server sends to, as the list of what was sent.
pub record Router : Type 0 where
  pub addr : String
  pub raft_client : RaftClient

unfoldable pub new_router : String → Router
unfolding new_raft_client
new_router addr = record { addr = addr; raft_client = new_raft_client }

unfoldable pub peer_msg : Message → RaftMsgReq
peer_msg msg = record { message = some msg; from_peer = msg.from; to_peer = msg.to }

module _ {W : Type 0} (grpc : Grpc W) where
  -- A message of an unknown peer is passed over, and so is the error of a send.
  unfoldable pub send_raft_msg : Message → Router → W → Router × W
  unfolding peer_msg send
  send_raft_msg msg r w = elim (peer_addr msg.to) [
    | none ↦ (r, w)
    | some addr ↦
        (let (err, rc, after) = send grpc addr (peer_msg msg) r.raft_client w in
          (record r { raft_client = rc }, after))
  ]

  unfoldable pub send_raft_msgs : List Message → Router → W → Router × W
  unfolding send_raft_msg
  send_raft_msgs [] r w = (r, w)
  send_raft_msgs (msg ∷ msgs) r w =
      let sent = send_raft_msg msg r w in send_raft_msgs msgs sent.0 sent.1

-- `raftMsg`, which takes the message behind a pointer
unfoldable pub raft_msg : RaftMsgReq → Outcome Message
raft_msg req = elim req.message [ none ↦ panics | some msg ↦ returns msg ]

-- `RaftMessage` on a stream that gives these requests and then an error: what is put on the channel
unfoldable pub receive_all : List RaftMsgReq → Outcome (List Message)
unfolding raft_msg
receive_all [] = returns []
receive_all (req ∷ reqs) = do msg ← raft_msg req; msgs ← receive_all reqs; returns (msg ∷ msgs)

-- One round of `handleRaftMsgs` on what the channel holds, which is not empty: the messages that
-- raft is given by `Step`, in order
unfoldable pub handle_raft_msgs : (id : ℕ) → List Message → List Message
handle_raft_msgs id [] = []
handle_raft_msgs id (msg ∷ msgs) =
    let rest = handle_raft_msgs id msgs in if msg.to == id then msg ∷ rest else rest
