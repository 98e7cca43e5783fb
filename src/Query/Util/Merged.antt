-- ===== src/Query/Util/Merged.antt =====
-- What `MergeAttributes` and `Contain` of vm/util/util.go compute, as sets of names.
use talent_challenge.Prelude.{
  ◌≡◌, refl, ap, ◌⊎◌, inl, inr, true, false, not, none, some, List, [], ◌∷◌, ◌++◌, ◌||◌, ◌&&◌,
  arith, Bool-cases,
}
use talent_challenge.Prelude.Bytes.{bytes_eq, bytes_eq_iff, bytes_eq_refl}
use talent_challenge.Query.Reply.{Name, not_in}
use talent_challenge.Query.Util.{has_name, contain, unseen, merge_attributes}

-- No name stands twice in the list.
abbrev pub Distinct : List Name → Type 0
Distinct [] = Unit {0}
Distinct (x ∷ xs) = (has_name x xs ≡ false) × Distinct xs

pub has_name-append :
    (z : Name) (xs ys : List Name) → has_name z (xs ++ ys) ≡ (has_name z xs || has_name z ys)
unfolding has_name
has_name-append z [] ys = refl
has_name-append z (x ∷ xs) ys = ground (arith, has_name-append z xs ys)

pub same_name :
    (z x : Name) (seen : List Name) → bytes_eq z x ≡ true → has_name z seen ≡ has_name x seen
same_name z x seen h = ap (λ n. has_name n seen) ((bytes_eq_iff z x).0 h)

pub has_name-unseen :
    (z : Name) (seen xs : List Name)
    → has_name z (unseen seen xs) ≡ (has_name z xs && not (has_name z seen))
unfolding has_name unseen
has_name-unseen z seen [] = refl
has_name-unseen z seen (x ∷ xs) =
    ground (arith, has_name-unseen z seen xs, has_name-unseen z (x ∷ seen) xs, same_name z x seen)

pub unseen-Distinct : (seen xs : List Name) → Distinct (unseen seen xs)
unfolding has_name unseen
unseen-Distinct seen [] = tt
unseen-Distinct seen (x ∷ xs) =
    elim (Bool-cases (has_name x seen)) as (λ u. Distinct (unseen seen (x ∷ xs))) [
      | inl old ↦ rw old (unseen-Distinct seen xs)
      | inr new ↦ rw new (
        ground (arith, has_name-unseen x (x ∷ seen) xs, bytes_eq_refl x),
        unseen-Distinct (x ∷ seen) xs,
      )
    ]

pub Distinct-append :
    (xs ys : List Name)
    → Distinct xs
    → Distinct ys
    → ((z : Name) → has_name z xs ≡ true → has_name z ys ≡ false)
    → Distinct (xs ++ ys)
unfolding has_name
Distinct-append [] ys dx dy apart = dy
Distinct-append (x ∷ xs) ys dx dy apart = (
  ground (arith, dx.0, has_name-append x xs ys, apart x, bytes_eq_refl x),
  Distinct-append xs ys dx.1 dy (λ z h. ground (arith, h, apart z)),
)

-- `MergeAttributes` of two lists has no name twice, and a name is in it where it is in one of them.
pub merge_attributes-Distinct :
    (xs ys : List Name)
    → Distinct (merge_attributes xs ys)
      × ((z : Name) → has_name z (merge_attributes xs ys) ≡ (has_name z xs || has_name z ys))
unfolding merge_attributes has_name
merge_attributes-Distinct xs ys =
    let rs = unseen [] xs in
    (
      Distinct-append rs (unseen rs ys) (unseen-Distinct [] xs) (unseen-Distinct rs ys)
          (λ z h. ground (arith, h, has_name-unseen z rs ys)),
      λ z. ground (
        arith,
        has_name-append z rs (unseen rs ys),
        has_name-unseen z rs ys,
        has_name-unseen z [] xs,
      ),
    )

-- `Contain` finds no fault exactly where every name of the first list is in the second. Else its
-- error names one of the first that is not in the second.
contain-has_name :
    (xs ys : List Name)
    → ((contain xs ys ≡ none) × ((z : Name) → has_name z xs ≡ true → has_name z ys ≡ true))
      ⊎ ((z : Name) × (contain xs ys ≡ some (not_in z))
          × (has_name z xs ≡ true)
          × (has_name z ys ≡ false))
unfolding contain has_name
contain-has_name [] ys = inl (refl, λ z h. cc)
contain-has_name (x ∷ xs) ys = elim (Bool-cases (has_name x ys)) [
  | inr out ↦ inr (x, rw out refl, ground (arith, bytes_eq_refl x), out)
  | inl inside ↦ elim (contain-has_name xs ys) [
    | inl (fine, all) ↦
        inl (rw inside fine, λ z h. ground (arith, inside, h, all z, same_name z x ys))
    | inr (z, fault, here, out) ↦ inr (z, rw inside fault, ground (arith, here), out)
  ]
]
