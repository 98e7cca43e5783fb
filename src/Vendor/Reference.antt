-- ===== src/Vendor/Reference.antt =====
-- A database in memory that meets `IsReliable`: the list of its items.
use talent_challenge.Prelude.{◌≡◌, refl, sym, none, List, [], ◌∷◌, arith, if◌then◌else◌}
use talent_challenge.Prelude.Bytes.{Bytes, bytes_eq, bytes_eq_iff, bytes_eq_refl}
use talent_challenge.Vendor.Pebble.{Pebble, IsReliable, missing, Item, lookup_item, DistinctKeys}

unfoldable pub without : Bytes → List Item → List Item
without k [] = []
without k ((j, v) ∷ items) =
    let rest = without k items in if bytes_eq j k then rest else (j, v) ∷ rest

pub lookup_item-without :
    (k j : Bytes) (items : List Item)
    → lookup_item j (without k items) ≡ (if bytes_eq k j then missing else lookup_item j items)
unfolding without
lookup_item-without k j [] = ground arith
lookup_item-without k j ((i, v) ∷ items) =
    ground
      (arith, lookup_item-without k j items, bytes_eq_iff i k, bytes_eq_iff i j, bytes_eq_iff k j)

without-DistinctKeys :
    (k : Bytes) (items : List Item) → DistinctKeys items → DistinctKeys (without k items)
unfolding without
without-DistinctKeys k [] h = tt
without-DistinctKeys k ((i, v) ∷ items) h =
    ground (arith, without-DistinctKeys k items h.1, lookup_item-without k i items)

-- The items without the older ones of a key.
newest : List Item → List Item
newest [] = []
newest ((k, v) ∷ items) = (k, v) ∷ without k (newest items)

lookup_item-newest :
    (j : Bytes) (items : List Item) → lookup_item j (newest items) ≡ lookup_item j items
unfolding newest
lookup_item-newest j [] = refl
lookup_item-newest j ((k, v) ∷ items) =
    ground (arith, lookup_item-newest j items, lookup_item-without k j (newest items))

newest-DistinctKeys : (items : List Item) → DistinctKeys (newest items)
unfolding newest
newest-DistinctKeys [] = tt
newest-DistinctKeys ((k, v) ∷ items) = (
  rw (lookup_item-without k k (newest items), bytes_eq_refl),
  without-DistinctKeys k (newest items) (newest-DistinctKeys items),
)

unfoldable pub list_db : Pebble (List Item)
unfolding newest without
list_db = record {
  set = λ k v sync d. (none, (k, v) ∷ d);
  delete = λ k sync d. (none, without k d);
  get = lookup_item;
  items = newest;
}

pub list_db-IsReliable : IsReliable list_db
unfolding list_db
list_db-IsReliable = record {
  set_succeeds = λ k v sync d. refl;
  delete_succeeds = λ k sync d. refl;
  get-set = λ k v sync d j. refl;
  get-delete = λ k sync d j. lookup_item-without k j d;
  get_items = λ d k. sym (lookup_item-newest k d);
  items_distinct = newest-DistinctKeys;
}
