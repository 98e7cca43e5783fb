-- ===== src/Messages.antt =====
-- The messages of raftstorepb (cmdpb.proto, messagepb.proto, metapb.proto and the generated Go
-- types), and the messages of etcd's raftpb with the fields that the program reads. A number is a
-- uint64. A field that points to a message is an `Option` where the program tests it for nil.
use talent_challenge.Prelude.{ℕ, Bool, Option, List}
use talent_challenge.Prelude.Bytes.{Bytes}
use talent_challenge.Vendor.Codec.{Codec, IsLossless}

-- raftpb.Entry
pub record Entry : Type 0 where
  pub term : ℕ
  pub index : ℕ
  pub entry_type : ℕ
  pub payload : Bytes

-- raftpb.HardState
pub record HardState : Type 0 where
  pub term : ℕ
  pub vote : ℕ
  pub commit : ℕ

-- raftpb.ConfState
pub record ConfState : Type 0 where
  pub voters : List ℕ
  pub voters_outgoing : List ℕ
  pub learners : List ℕ
  pub learners_next : List ℕ
  pub auto_leave : Bool

-- raftpb.SnapshotMetadata
pub record SnapshotMetadata : Type 0 where
  pub conf_state : ConfState
  pub index : ℕ
  pub term : ℕ

-- raftpb.Snapshot
pub record Snapshot : Type 0 where
  pub payload : Bytes
  pub metadata : SnapshotMetadata

-- The program makes a `RaftLocalState` with a hard state that is not nil.
pub record RaftLocalState : Type 0 where
  pub hard_state : HardState
  pub last_index : ℕ
  pub last_term : ℕ

pub record RaftTruncatedState : Type 0 where
  pub index : ℕ
  pub term : ℕ

-- The program makes a `RaftApplyState` with a truncated state that is not nil.
pub record RaftApplyState : Type 0 where
  pub apply_index : ℕ
  pub truncated_state : RaftTruncatedState

pub data CmdType : Type 0 where
  get_cmd put_cmd delete_cmd : CmdType

pub record PutRequest : Type 0 where
  pub key : Bytes
  pub value : Bytes

pub record DeleteRequest : Type 0 where
  pub key : Bytes

pub record CompactLogRequest : Type 0 where
  pub compact_index : ℕ
  pub compact_term : ℕ

-- The program never sets the field `get` of a `Request`.
pub record Request : Type 0 where
  pub cmd_type : CmdType
  pub put : Option PutRequest
  pub delete : Option DeleteRequest

pub data AdminCmdType : Type 0 where
  compact_log_cmd : AdminCmdType

pub record AdminRequest : Type 0 where
  pub cmd_type : AdminCmdType
  pub compact_log : Option CompactLogRequest

-- The header is never read.
pub record RaftCmdRequest : Type 0 where
  pub request : Option Request
  pub admin_request : Option AdminRequest

abbrev pub empty_hard_state : HardState
empty_hard_state = record { term = 0; vote = 0; commit = 0 }

abbrev pub empty_conf_state : ConfState
empty_conf_state = record {
  voters = List.[];
  voters_outgoing = List.[];
  learners = List.[];
  learners_next = List.[];
  auto_leave = Bool.false;
}

-- `proto.Marshal` and `proto.Unmarshal` at the types that are stored or proposed.
pub record Proto : Type 0 where
  pub entry : Codec Entry
  pub local_state : Codec RaftLocalState
  pub apply_state : Codec RaftApplyState
  pub conf_state : Codec ConfState
  pub command : Codec RaftCmdRequest

pub record IsLosslessProto (pb : Proto) : Type 0 where
  pub entry : IsLossless pb.entry
  pub local_state : IsLossless pb.local_state
  pub apply_state : IsLossless pb.apply_state
  pub conf_state : IsLossless pb.conf_state
  pub command : IsLossless pb.command
