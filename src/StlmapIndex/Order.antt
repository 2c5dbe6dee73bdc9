-- ===== src/StlmapIndex/Order.antt =====
-- The index as a sorted sequence: insertion and lookup.
use babydb_private.Prelude.{
  ℕ, ◌≤◌, ◌<◌, ◌≡◌, refl, none, some, [], ◌∷◌, nat_eq, if◌then◌else◌, arith,
}
use babydb_private.Outcome.{ok, throws, duplicated_key, ◌>>=◌}
use babydb_private.StlmapIndex.{Entries, find, assign, insert_entry, lookup_key}

abbrev pub Above : ℕ → Entries → Type 0
Above b [] = Unit
Above b ((k, row) ∷ rest) = (b < k) × Above b rest

-- The keys rise along the list.
abbrev pub IsSorted : Entries → Type 0
IsSorted [] = Unit
IsSorted ((k, row) ∷ rest) = Above k rest × IsSorted rest

Above-mono : {a b : ℕ} (index : Entries) → a ≤ b → Above b index → Above a index
Above-mono [] h s = tt
Above-mono ((k, row) ∷ rest) h s = (omega arith, Above-mono rest h s.1)

find-Above : (key k : ℕ) (index : Entries) → Above k index → key ≤ k → find key index ≡ none
unfolding find
find-Above key k [] h lt = refl
find-Above key k ((j, row) ∷ rest) h lt = ground (arith, find-Above key k rest)

find-assign :
    (key j row_id : ℕ) (index : Entries)
    → IsSorted index
    → find j (assign key row_id index) ≡ (if nat_eq key j then some row_id else find j index)
unfolding find assign
find-assign key j row_id [] s = refl
find-assign key j row_id ((k, row) ∷ rest) s = ground (arith, find-assign key j row_id rest s.1)

assign-Above :
    (key row_id b : ℕ) (index : Entries)
    → b < key
    → Above b index
    → Above b (assign key row_id index)
unfolding assign
assign-Above key row_id b [] lt h = (lt, tt)
assign-Above key row_id b ((k, row) ∷ rest) lt h = ground (arith, assign-Above key row_id b rest)

assign-IsSorted :
    (key row_id : ℕ) (index : Entries) → IsSorted index → IsSorted (assign key row_id index)
unfolding assign
assign-IsSorted key row_id [] s = (tt, tt)
assign-IsSorted key row_id ((k, row) ∷ rest) s = ground (
  arith,
  assign-IsSorted key row_id rest,
  assign-Above key row_id k rest,
  Above-mono {a = key} {b = k} rest,
)

-- On a sorted index without the key, `InsertEntry` returns a sorted index in which `LookupKey`
-- gives the new row for the key, and for every other key what it gave before.
pub insert_entry_lem :
    (index : Entries) (key row_id : ℕ)
    → IsSorted index
    → find key index ≡ none
    → (index' : Entries) × (insert_entry index key row_id ≡ ok index')
      × IsSorted index'
      × ((j : ℕ) → lookup_key index' j ≡ (if nat_eq key j then row_id else lookup_key index j))
unfolding insert_entry lookup_key
insert_entry_lem index key row_id s e = (
  assign key row_id index,
  rw (e, insert_entry),
  assign-IsSorted key row_id index s,
  λ j. ground (arith, find-assign key j row_id index s),
)

-- After `InsertEntry` of a key that is not there, a second one of the same key throws.
pub insert_entry_twice :
    (index : Entries) (key row_id other : ℕ)
    → IsSorted index
    → find key index ≡ none
    → (insert_entry index key row_id >>= λ index'. insert_entry index' key other)
      ≡ throws duplicated_key
unfolding insert_entry
insert_entry_twice index key row_id other s e = ground (arith, find-assign key key row_id index s)
