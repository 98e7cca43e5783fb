-- ===== src/Peer/Commands.antt =====
-- raftstore/internal/message.go: the commands that are proposed, and the response to a read. Their
-- headers are never read.
use talent_challenge.Prelude.{ℕ, Option, none, some}
use talent_challenge.Prelude.Bytes.{Bytes}
use talent_challenge.Messages.{RaftCmdRequest, put_cmd, delete_cmd, compact_log_cmd}

-- raftstorepb.GetResponse, the part of a `RaftCmdResponse` that is set; a nil value is `none`.
pub record GetResponse : Type 0 where
  pub value : Option Bytes

unfoldable pub new_get_cmd_response : Option Bytes → GetResponse
new_get_cmd_response value = record { value = value }

unfoldable pub new_put_cmd_request : (key value : Bytes) → RaftCmdRequest
new_put_cmd_request key value = record {
  request = some (record {
    cmd_type = put_cmd;
    put = some (record { key = key; value = value });
    delete = none;
  });
  admin_request = none;
}

unfoldable pub new_delete_cmd_request : (key : Bytes) → RaftCmdRequest
new_delete_cmd_request key = record {
  request =
      some (record { cmd_type = delete_cmd; put = none; delete = some (record { key = key }) });
  admin_request = none;
}

unfoldable pub new_compact_cmd_request : (index term : ℕ) → RaftCmdRequest
new_compact_cmd_request index term = record {
  request = none;
  admin_request = some (record {
    cmd_type = compact_log_cmd;
    compact_log = some (record { compact_index = index; compact_term = term });
  });
}
