-- ===== src/Examples/Queries.antt =====
-- The theorems on the query engine at a table of an int column and a float column.
use talent_challenge.Prelude.{
  ℕ, ◌<◌, ◌≡◌, ◌≢◌, refl, inl, false, none, some, List, [], ◌∷◌, get_elem?, All, arith, ◌||◌,
}
use talent_challenge.Prelude.Bytes.{bytes_eq}
use talent_challenge.Query.Reply.{Name, returned}
use talent_challenge.Query.Util.{has_name, contain, unseen, merge_attributes}
use talent_challenge.Query.Util.Merged.{Distinct, merge_attributes-Distinct}
use talent_challenge.Query.Types.{t_int, t_float}
use talent_challenge.Query.Value.{Value, Columns, int, float, length_of, must_be_int, must_be_float}
use talent_challenge.Query.Columns.{
  Tuples, ints, floats, int64s, float64s, read_segment, value_list,
}
use talent_challenge.Query.Overload.{
  plus, minus, each, on_int_float, entries_of, bin_ops, first_fit, binary_check, binary_eval,
  on_float_int,
}
use talent_challenge.Query.Extend.{
  Extend, attribute, constant, binary, column, attributes, eval, joined_type,
}
use talent_challenge.Query.Extend as extend
use talent_challenge.Query.Extend.Typed.{NoFloatInt, eval-return_type, return_type_float_int}
use talent_challenge.Query.Extend.Sound.{Sound, IsTable, Fits, eval-Sound}
use talent_challenge.Query.Relation.{
  Relation, index_of, add_tuples, find_columns, read_columns, named, read_block, block_attributes,
  read as read_relation,
}
use talent_challenge.Query.Relation.Segments.{IsAligned, tuple_values, add_tuples-read}
use talent_challenge.Query.Projection.{
  Projected, Op, relation, projection, alias_or_name, alias_list, attribute_list, attributes_seen,
  sub_extend, act_on_attributes, find_all, check, checks, op_attributes, append_column, eval_all,
  project, read,
}
use talent_challenge.Query.Projection.Reads.{IsColumn, read-IsColumn}
use talent_challenge.Query.Projection.Repeated.{read-again, read_aliased}
use talent_challenge.Examples.Numbers.{Number, numbers}

abbrev missing : Value Number
missing = float none

abbrev present : Value Number
present = float (some 1)

merge_attributes-Distinct_example :
    Distinct (merge_attributes ((b'a' ∷ []) ∷ (b'a' ∷ []) ∷ []) ((b'b' ∷ []) ∷ []))
    × ((z : Name)
        → has_name z (merge_attributes ((b'a' ∷ []) ∷ (b'a' ∷ []) ∷ []) ((b'b' ∷ []) ∷ []))
          ≡ (has_name z ((b'a' ∷ []) ∷ (b'a' ∷ []) ∷ []) || has_name z ((b'b' ∷ []) ∷ [])))
merge_attributes-Distinct_example =
    merge_attributes-Distinct ((b'a' ∷ []) ∷ (b'a' ∷ []) ∷ []) ((b'b' ∷ []) ∷ [])

abbrev a_name : Name
a_name = b'a' ∷ []

abbrev b_name : Name
b_name = b'b' ∷ []

abbrev c_name : Name
c_name = b'c' ∷ []

-- One segment: a is 1, 2 and b is 10, 20.
abbrev table : Relation Number
table = record {
  mp = (b_name, 1) ∷ (a_name, 0) ∷ [];
  md = record {
    num = 1;
    attrs = record { typ = t_int; name = a_name } ∷ record { typ = t_float; name = b_name } ∷ [];
  };
  columns =
      record { typ = t_int; vs = ints (1 ∷ 2 ∷ []) ∷ [] }
      ∷ record { typ = t_float; vs = floats (some 10 ∷ some 20 ∷ []) ∷ [] }
      ∷ [];
}

abbrev more : List (Tuples Number)
more = int64s (3 ∷ []) ∷ float64s (some 30 ∷ []) ∷ []

add_tuples-read_example :
    (r' : Relation Number) × (add_tuples more table ≡ returned r')
    × IsAligned r'
    × (r'.md.num ≡ 2)
    × ((attr : Name)
        → index_of attr table.mp < 2
        → (t : Tuples Number) × (get_elem? more (index_of attr table.mp) ≡ some t)
          × (read_relation 1 (attr ∷ []) r' ≡ returned (tuple_values t ∷ []))
          × ((seg : ℕ)
              → seg < 1
              → read_relation seg (attr ∷ []) r' ≡ read_relation seg (attr ∷ []) table))
add_tuples-read_example = add_tuples-read more table (refl, (refl, tt)) (refl, (refl, tt))

-- a + b
abbrev sum_of : Extend Number
sum_of = binary plus (attribute t_int a_name) (attribute t_float b_name)

abbrev columns : Columns Number
columns = (a_name, int 1 ∷ int 2 ∷ []) ∷ (b_name, float (some 10) ∷ float (some 20) ∷ []) ∷ []

sum_of-Fits : Fits columns sum_of
unfolding column bytes_eq
sum_of-Fits = (
  (int 1 ∷ int 2 ∷ [], refl, (refl, (refl, tt))),
  (float (some 10) ∷ float (some 20) ∷ [], refl, (refl, (refl, tt))),
)

columns-IsTable : IsTable 2 columns
unfolding length_of
columns-IsTable = (refl, (refl, (refl, tt)))

eval-Sound_example : Sound numbers 2 (eval numbers sum_of columns)
eval-Sound_example =
    eval-Sound numbers sum_of 2 columns (inl refl, tt, tt) columns-IsTable sum_of-Fits

abbrev sums : List (Value Number)
sums = float (some 11) ∷ float (some 22) ∷ []

sum_of_columns : eval numbers sum_of columns ≡ returned (sums, t_float)
unfolding eval column bytes_eq binary_eval bin_ops first_fit entries_of binary_check each
    on_int_float must_be_int must_be_float
sum_of_columns = refl

sum_of-NoFloatInt : NoFloatInt sum_of
unfolding extend.return_type
sum_of-NoFloatInt = (tt, tt, λ l r. absurd (omega (arith, l)))

eval-return_type_example : t_float ≡ extend.return_type sum_of
eval-return_type_example =
    eval-return_type numbers sum_of columns sums t_float sum_of-NoFloatInt sum_of_columns

-- b - a
abbrev difference : Extend Number
difference = binary minus (attribute t_float b_name) (attribute t_int a_name)

abbrev differences : List (Value Number)
differences = float (some 9) ∷ float (some 18) ∷ []

difference_of_columns : eval numbers difference columns ≡ returned (differences, t_float)
unfolding eval column bytes_eq binary_eval bin_ops first_fit entries_of binary_check each
    on_float_int must_be_int must_be_float
difference_of_columns = refl

return_type_float_int_example : (extend.return_type difference ≡ t_int) × (t_float ≡ t_float)
return_type_float_int_example =
    return_type_float_int numbers minus (attribute t_float b_name) (attribute t_int a_name) columns
      differences t_float tt tt (unfold extend.return_type in refl)
      (unfold extend.return_type in refl) difference_of_columns

-- a, and a + b as c
abbrev projected : List (Projected Number)
projected =
    record { alias = []; e = attribute t_int a_name } ∷ record { alias = c_name; e = sum_of } ∷ []

abbrev asked : List Name
asked = a_name ∷ c_name ∷ []

abbrev result : Columns Number
result = (a_name, int 1 ∷ int 2 ∷ []) ∷ (c_name, sums) ∷ []

abbrev op : Op Number
op = projection false (relation 0 (some table)) projected

read-asked : (read numbers op asked).0 ≡ returned (some result)
unfolding read checks check op_attributes block_attributes act_on_attributes find_all contain
    alias_list alias_or_name attribute_list attributes_seen attributes sub_extend merge_attributes
    unseen has_name bytes_eq read_block read_relation find_columns read_columns read_segment
    value_list index_of named project eval_all append_column eval column binary_eval bin_ops
    first_fit entries_of binary_check each on_int_float must_be_int must_be_float
read-asked = refl

asked-Distinct : Distinct (alias_list (sub_extend projected (merge_attributes asked [])))
unfolding alias_list alias_or_name sub_extend merge_attributes unseen has_name bytes_eq
asked-Distinct = (refl, (refl, tt))

read-IsColumn_example :
    (mp : Columns Number) × ((read numbers
        (relation 0 (some table))
        (attribute_list (sub_extend projected (merge_attributes asked [])))).0
      ≡ returned (some mp))
    × All (IsColumn numbers mp result) (sub_extend projected (merge_attributes asked []))
read-IsColumn_example =
    read-IsColumn numbers false (relation 0 (some table)) projected asked result read-asked
      asked-Distinct

read-again_example : (read numbers (read numbers op asked).1 (c_name ∷ [])).0 ≡ returned none
read-again_example = read-again numbers op asked (c_name ∷ []) (some result) read-asked

c_name_apart :
    has_name c_name (attribute_list (sub_extend projected (merge_attributes (c_name ∷ []) [])))
    ≡ false
unfolding attribute_list attributes_seen attributes alias_or_name sub_extend merge_attributes unseen
    has_name bytes_eq
c_name_apart = refl

-- The sum asked for first: there is no table.
read_aliased_example :
    (read numbers (projection false (relation 0 (some table)) projected) (c_name ∷ [])).0
    ≢ returned (some result)
read_aliased_example =
    read_aliased numbers false 0 (some table) projected c_name [] result c_name_apart
