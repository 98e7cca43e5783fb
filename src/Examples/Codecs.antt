-- ===== src/Examples/Codecs.antt =====
-- Codecs for the messages that lose nothing, over lists of numbers: each part is printed in front
-- of the rest and parsed back from it.
use talent_challenge.Prelude.{
  ℕ, zero, suc, ◌≡◌, refl, ap, Bool, true, false, Option, none, some, [], ◌∷◌, ◌++◌, length, take,
  drop, arith, take-length-append, drop-length-append,
}
use talent_challenge.Prelude.Bytes.{Bytes}
use talent_challenge.Vendor.Codec.{Codec, IsLossless}
use talent_challenge.Messages.{
  Entry, HardState, ConfState, RaftLocalState, RaftApplyState, Request, CmdType, get_cmd, put_cmd,
  delete_cmd, PutRequest, DeleteRequest, CompactLogRequest, AdminRequest, AdminCmdType,
  compact_log_cmd, RaftCmdRequest, Proto, IsLosslessProto,
}

infixl 5 ◌>>=◌
abbrev pub ◌>>=◌ : {A B : Type 0} → Option A → (A → Option B) → Option B
none >>= f = none
some a >>= f = f a

-- A printer in front of a rest, and a parser that gives the rest back.
pub record Format (A : Type 0) : Type 0 where
  pub print : A → Bytes → Bytes
  pub parse : Bytes → Option (A × Bytes)
  pub law : (a : A) (rest : Bytes) → parse (print a rest) ≡ some (a, rest)

abbrev pub finish : {A : Type 0} → Option (A × Bytes) → Option A
finish none = none
finish (some (a, rest)) = some a

abbrev pub codec : {A : Type 0} → Format A → Codec A
codec f = record { marshal = λ a. some (f.print a []); unmarshal = λ b. finish (f.parse b) }

pub codec-IsLossless : {A : Type 0} (f : Format A) → IsLossless (codec f)
codec-IsLossless f = record { round_trip = λ a. (f.print a [], refl, ap finish (f.law a [])) }

abbrev pub parse_bytes : Bytes → Option (Bytes × Bytes)
parse_bytes [] = none
parse_bytes (n ∷ rest) = some (take n rest, drop n rest)

pub parse_bytes_law : (b rest : Bytes) → parse_bytes (length b ∷ (b ++ rest)) ≡ some (b, rest)
parse_bytes_law b rest = rw (take-length-append b rest, drop-length-append b rest)

abbrev pub bytes_format : Format Bytes
bytes_format = record {
  print = λ b rest. length b ∷ (b ++ rest);
  parse = parse_bytes;
  law = parse_bytes_law;
}

module _ {A B : Type 0} (f : Format A) (g : Format B) where
  abbrev pub parse_pair : Bytes → Option ((A × B) × Bytes)
  parse_pair bs = do (a, r) ← f.parse bs; (b, r') ← g.parse r; some ((a, b), r')

  pub pair_law :
      (ab : A × B) (rest : Bytes) → parse_pair (f.print ab.0 (g.print ab.1 rest)) ≡ some (ab, rest)
  pair_law ab rest = ground (arith, f.law ab.0 (g.print ab.1 rest), g.law ab.1 rest)

  abbrev pub pair_format : Format (A × B)
  pair_format = record {
    print = λ ab rest. f.print ab.0 (g.print ab.1 rest);
    parse = parse_pair;
    law = pair_law;
  }

module _ {A : Type 0} (f : Format A) where
  abbrev pub print_option : Option A → Bytes → Bytes
  print_option none rest = 0 ∷ rest
  print_option (some a) rest = 1 ∷ f.print a rest

  abbrev pub parse_option : Bytes → Option (Option A × Bytes)
  parse_option [] = none
  parse_option (zero ∷ rest) = some (none, rest)
  parse_option (suc n ∷ rest) = do (a, r) ← f.parse rest; some (some a, r)

  pub option_law :
      (a : Option A) (rest : Bytes) → parse_option (print_option a rest) ≡ some (a, rest)
  option_law none rest = refl
  option_law (some a) rest = ground (arith, f.law a rest)

  abbrev pub option_format : Format (Option A)
  option_format = record { print = print_option; parse = parse_option; law = option_law }

module _ {A B : Type 0} (f : Format A) (to : A → B) (from : B → A)
    (back : (b : B) → to (from b) ≡ b) where
  abbrev pub parse_convert : Bytes → Option (B × Bytes)
  parse_convert bs = do (a, r) ← f.parse bs; some (to a, r)

  pub convert_law : (b : B) (rest : Bytes) → parse_convert (f.print (from b) rest) ≡ some (b, rest)
  convert_law b rest = ground (arith, f.law (from b) rest, back b)

  abbrev pub convert : Format B
  convert = record {
    print = λ b rest. f.print (from b) rest;
    parse = parse_convert;
    law = convert_law;
  }

abbrev pub parse_number : Bytes → Option (ℕ × Bytes)
parse_number [] = none
parse_number (n ∷ rest) = some (n, rest)

abbrev pub number : Format ℕ
number = record { print = λ n rest. n ∷ rest; parse = parse_number; law = λ n rest. refl }

abbrev pub bool_of : ℕ → Bool
bool_of zero = false
bool_of (suc n) = true

abbrev pub number_of : Bool → ℕ
number_of false = 0
number_of true = 1

pub bool_of-number_of : (b : Bool) → bool_of (number_of b) ≡ b
bool_of-number_of false = refl
bool_of-number_of true = refl

abbrev pub type_of : ℕ → CmdType
type_of zero = get_cmd
type_of (suc zero) = put_cmd
type_of (suc (suc n)) = delete_cmd

abbrev pub number_of_type : CmdType → ℕ
number_of_type get_cmd = 0
number_of_type put_cmd = 1
number_of_type delete_cmd = 2

pub type_of-number_of_type : (t : CmdType) → type_of (number_of_type t) ≡ t
type_of-number_of_type get_cmd = refl
type_of-number_of_type put_cmd = refl
type_of-number_of_type delete_cmd = refl

abbrev pub entry_format : Format Entry
entry_format =
    convert (pair_format number (pair_format number (pair_format number bytes_format)))
      (λ t. record { term = t.0; index = t.1.0; entry_type = t.1.1.0; payload = t.1.1.1 })
      (λ e. (e.term, (e.index, (e.entry_type, e.payload)))) (λ e. refl)

abbrev pub hard_state_format : Format HardState
hard_state_format =
    convert (pair_format number (pair_format number number))
      (λ t. record { term = t.0; vote = t.1.0; commit = t.1.1 }) (λ h. (h.term, (h.vote, h.commit)))
      (λ h. refl)

abbrev pub local_state_format : Format RaftLocalState
local_state_format =
    convert (pair_format hard_state_format (pair_format number number))
      (λ t. record { hard_state = t.0; last_index = t.1.0; last_term = t.1.1 })
      (λ l. (l.hard_state, (l.last_index, l.last_term))) (λ l. refl)

abbrev pub apply_state_format : Format RaftApplyState
apply_state_format =
    convert (pair_format number (pair_format number number))
      (λ t. record { apply_index = t.0; truncated_state = record { index = t.1.0; term = t.1.1 } })
      (λ a. (a.apply_index, (a.truncated_state.index, a.truncated_state.term))) (λ a. refl)

abbrev pub conf_state_format : Format ConfState
conf_state_format =
    convert
      (pair_format bytes_format (
        pair_format bytes_format (
          pair_format bytes_format
            (pair_format bytes_format (convert number bool_of number_of bool_of-number_of)))))
      (λ t. record {
        voters = t.0;
        voters_outgoing = t.1.0;
        learners = t.1.1.0;
        learners_next = t.1.1.1.0;
        auto_leave = t.1.1.1.1;
      })
      (λ c. (c.voters, (c.voters_outgoing, (c.learners, (c.learners_next, c.auto_leave)))))
      (λ c. refl)

abbrev pub put_format : Format PutRequest
put_format =
    convert (pair_format bytes_format bytes_format) (λ t. record { key = t.0; value = t.1 })
      (λ r. (r.key, r.value)) (λ r. refl)

abbrev pub delete_format : Format DeleteRequest
delete_format = convert bytes_format (λ k. record { key = k }) (λ r. r.key) (λ r. refl)

abbrev pub request_format : Format Request
request_format =
    convert
      (pair_format (convert number type_of number_of_type type_of-number_of_type)
        (pair_format (option_format put_format) (option_format delete_format)))
      (λ t. record { cmd_type = t.0; put = t.1.0; delete = t.1.1 })
      (λ r. (r.cmd_type, (r.put, r.delete))) (λ r. refl)

abbrev pub compact_format : Format CompactLogRequest
compact_format =
    convert (pair_format number number) (λ t. record { compact_index = t.0; compact_term = t.1 })
      (λ c. (c.compact_index, c.compact_term)) (λ c. refl)

pub only_type : (t : AdminCmdType) → compact_log_cmd ≡ t
only_type compact_log_cmd = refl

abbrev pub admin_format : Format AdminRequest
admin_format =
    convert (option_format compact_format)
      (λ c. record { cmd_type = compact_log_cmd; compact_log = c }) (λ a. a.compact_log)
      (λ a i. record { cmd_type = only_type a.cmd_type i; compact_log = a.compact_log })

abbrev pub command_format : Format RaftCmdRequest
command_format =
    convert (pair_format (option_format request_format) (option_format admin_format))
      (λ t. record { request = t.0; admin_request = t.1 }) (λ c. (c.request, c.admin_request))
      (λ c. refl)

abbrev pub proto : Proto
proto = record {
  entry = codec entry_format;
  local_state = codec local_state_format;
  apply_state = codec apply_state_format;
  conf_state = codec conf_state_format;
  command = codec command_format;
}

pub proto-IsLossless : IsLosslessProto proto
proto-IsLossless = record {
  entry = codec-IsLossless entry_format;
  local_state = codec-IsLossless local_state_format;
  apply_state = codec-IsLossless apply_state_format;
  conf_state = codec-IsLossless conf_state_format;
  command = codec-IsLossless command_format;
}
