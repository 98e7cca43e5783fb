-- ===== src/Query/Util.antt =====
-- vm/util/util.go: a set of names is the list of the names put into it.
pub mod Merged
use talent_challenge.Prelude.{
  Bool, true, false, Option, none, some, List, [], ◌∷◌, ◌++◌, ◌||◌, if◌then◌else◌,
}
use talent_challenge.Prelude.Bytes.{bytes_eq}
use talent_challenge.Query.Reply.{Name, Failure, not_in}

-- `_, ok := mp[x]`
unfoldable pub has_name : Name → List Name → Bool
has_name x [] = false
has_name x (y ∷ ys) = bytes_eq x y || has_name x ys

-- `Contain`: the error names the first of `xs` that is not in `ys`.
unfoldable pub contain : (xs ys : List Name) → Option Failure
contain [] ys = none
contain (x ∷ xs) ys = if has_name x ys then contain xs ys else some (not_in x)

-- One loop of `MergeAttributes`, with the names seen so far: the names that it appends.
unfoldable pub unseen : (seen xs : List Name) → List Name
unseen seen [] = []
unseen seen (x ∷ xs) =
    let again = unseen seen xs in
    let fresh = unseen (x ∷ seen) xs in if has_name x seen then again else x ∷ fresh

-- After the first loop the names seen are the names appended.
unfoldable pub merge_attributes : (xs ys : List Name) → List Name
merge_attributes xs ys = let rs = unseen [] xs in rs ++ unseen rs ys
