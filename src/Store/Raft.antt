-- ===== src/Store/Raft.antt =====
-- raftstore/raftstore.go: the store over a peer. `Get` waits for a response that may be lost.
use talent_challenge.Prelude.{Option, none, some}
use talent_challenge.Prelude.Outcome.{not_found, lost_read_response, Result, ok, err}
use talent_challenge.Prelude.Bytes.{Bytes}
use talent_challenge.Messages.{Proto}
use talent_challenge.Peer.Commands.{GetResponse, new_put_cmd_request, new_delete_cmd_request}
use talent_challenge.Peer.Compaction.{propose}

-- `Set` and `Delete`, up to the call of raft's `Propose` with the bytes
unfoldable pub set : Proto → (key value : Bytes) → Result Bytes
set pb key value = propose pb (new_put_cmd_request key value)

unfoldable pub delete : Proto → (key : Bytes) → Result Bytes
delete pb key = propose pb (new_delete_cmd_request key)

-- `Get`, from the response that the callback has when the wait is over
unfoldable pub get : Option GetResponse → Result Bytes
get none = err lost_read_response
get (some resp) = elim resp.value [ none ↦ err not_found | some value ↦ ok value ]
