-- ===== src/Query/Types.antt =====
-- vm/types/types.go: the type of a value is a number.
use talent_challenge.Prelude.{ℕ, String, none, some, List, [], ◌∷◌, get_elem?}
use talent_challenge.Query.Reply.{Reply, returned, panicked}

abbrev pub t_int : ℕ
t_int = 1

abbrev pub t_float : ℕ
t_float = 3

pub record T : Type 0 where
  pub oid : ℕ

-- The names by number, in the order of the constants
abbrev names : List String
names =
    "NULL" ∷ "INT" ∷ "BOOL" ∷ "FLOAT" ∷ "ARRAY" ∷ "STRING" ∷ "TIMESTAMP" ∷ "UINT8" ∷ "UINT16"
    ∷ "UINT32" ∷ "UINT64" ∷ "INT8" ∷ "INT16" ∷ "INT32" ∷ "INT64" ∷ "FLOAT32" ∷ "FLOAT64" ∷ []

-- `SQLString` panics on a number that is no type.
unfoldable pub sql_string : T → Reply String
sql_string t = elim (get_elem? names t.oid) [ none ↦ panicked | some name ↦ returned name ]
