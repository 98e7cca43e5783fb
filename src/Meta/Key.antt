-- ===== src/Meta/Key.antt =====
-- meta/key.go: one key for each log entry, and three single-byte keys.
use talent_challenge.Prelude.{ℕ, ◌^◌, ◌<◌, ◌≡◌, refl, false, [], ◌∷◌, ◌++◌, arith, ◌==◌, ==_iff}
use talent_challenge.Prelude.Bytes.{Bytes, bytes_eq, bytes_eq_iff, le_bytes, le_bytes_injective}

abbrev meta_kind_log_entry : ℕ
meta_kind_log_entry = 0x01

abbrev meta_kind_local_state : ℕ
meta_kind_local_state = 0x02

abbrev meta_kind_apply_state : ℕ
meta_kind_apply_state = 0x03

abbrev meta_kind_conf_state : ℕ
meta_kind_conf_state = 0x04

build_meta_key : ℕ → Bytes
build_meta_key kind = kind ∷ []

unfoldable pub raft_log_entry_key : ℕ → Bytes
unfolding build_meta_key
raft_log_entry_key index = build_meta_key meta_kind_log_entry ++ le_bytes 8 index

unfoldable pub raft_local_state_key : Bytes
unfolding build_meta_key
raft_local_state_key = build_meta_key meta_kind_local_state

unfoldable pub raft_apply_state_key : Bytes
unfolding build_meta_key
raft_apply_state_key = build_meta_key meta_kind_apply_state

unfoldable pub raft_conf_state_key : Bytes
unfolding build_meta_key
raft_conf_state_key = build_meta_key meta_kind_conf_state

pub raft_log_entry_key-injective :
    (i j : ℕ) → i < 2 ^ 64 → j < 2 ^ 64 → raft_log_entry_key i ≡ raft_log_entry_key j → i ≡ j
unfolding raft_log_entry_key
raft_log_entry_key-injective i j hi hj e = le_bytes_injective 8 i j (omega arith) (omega arith) (cc)

-- The test of two keys of log entries is the test of their indices, which are uint64 numbers.
pub bytes_eq-raft_log_entry_key :
    (i j : ℕ)
    → i < 2 ^ 64
    → j < 2 ^ 64
    → bytes_eq (raft_log_entry_key i) (raft_log_entry_key j) ≡ (i == j)
bytes_eq-raft_log_entry_key i j hi hj = ground (
  arith,
  bytes_eq_iff (raft_log_entry_key i) (raft_log_entry_key j),
  raft_log_entry_key-injective i j,
  ==_iff i j,
)

-- The keys of the three states differ from each other and from that of every log entry.
pub local_entry : (i : ℕ) → bytes_eq raft_local_state_key (raft_log_entry_key i) ≡ false
unfolding raft_local_state_key raft_log_entry_key bytes_eq
local_entry i = refl

pub entry_local : (i : ℕ) → bytes_eq (raft_log_entry_key i) raft_local_state_key ≡ false
unfolding raft_local_state_key raft_log_entry_key bytes_eq
entry_local i = refl

pub apply_entry : (i : ℕ) → bytes_eq raft_apply_state_key (raft_log_entry_key i) ≡ false
unfolding raft_apply_state_key raft_log_entry_key bytes_eq
apply_entry i = refl

pub entry_apply : (i : ℕ) → bytes_eq (raft_log_entry_key i) raft_apply_state_key ≡ false
unfolding raft_apply_state_key raft_log_entry_key bytes_eq
entry_apply i = refl

pub conf_entry : (i : ℕ) → bytes_eq raft_conf_state_key (raft_log_entry_key i) ≡ false
unfolding raft_conf_state_key raft_log_entry_key bytes_eq
conf_entry i = refl

pub entry_conf : (i : ℕ) → bytes_eq (raft_log_entry_key i) raft_conf_state_key ≡ false
unfolding raft_conf_state_key raft_log_entry_key bytes_eq
entry_conf i = refl

pub local_apply : bytes_eq raft_local_state_key raft_apply_state_key ≡ false
unfolding raft_local_state_key raft_apply_state_key bytes_eq
local_apply = refl

pub apply_local : bytes_eq raft_apply_state_key raft_local_state_key ≡ false
unfolding raft_local_state_key raft_apply_state_key bytes_eq
apply_local = refl

pub local_conf : bytes_eq raft_local_state_key raft_conf_state_key ≡ false
unfolding raft_local_state_key raft_conf_state_key bytes_eq
local_conf = refl

pub conf_local : bytes_eq raft_conf_state_key raft_local_state_key ≡ false
unfolding raft_local_state_key raft_conf_state_key bytes_eq
conf_local = refl

pub apply_conf : bytes_eq raft_apply_state_key raft_conf_state_key ≡ false
unfolding raft_apply_state_key raft_conf_state_key bytes_eq
apply_conf = refl

pub conf_apply : bytes_eq raft_conf_state_key raft_apply_state_key ≡ false
unfolding raft_apply_state_key raft_conf_state_key bytes_eq
conf_apply = refl

pub ruleset key_laws = (
  local_entry, entry_local, apply_entry, entry_apply, conf_entry, entry_conf, local_apply,
  apply_local, local_conf, conf_local, apply_conf, conf_apply,
)
