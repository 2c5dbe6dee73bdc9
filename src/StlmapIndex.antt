-- ===== src/StlmapIndex.antt =====
-- src/storage/stlmap_index.cpp: the index over `std::map`.
pub mod Order
pub mod Scan
use babydb_private.Prelude.{
  ℕ, zero, suc, ◌+◌, ◌<◌, ◌≡◌, Bool, true, false, Option, none, some, List, [], ◌∷◌, ltb, leb,
  nat_eq, if◌then◌else◌, drop,
}
use babydb_private.Outcome.{Outcome, ok, throws, undefined, duplicated_key, ◌>>=◌}
use babydb_private.Schema.{RangeInfo, invalid_id}

-- The entries of `index_`, in the order in which an iterator meets them.
abbrev pub Entries : Type 0
Entries = List (ℕ × ℕ)

unfoldable pub find : ℕ → Entries → Option ℕ
find key [] = none
find key ((k, row) ∷ rest) = if nat_eq k key then some row else find key rest

-- `index_[key] = row_id`
unfoldable pub assign : ℕ → ℕ → Entries → Entries
assign key row_id [] = (key, row_id) ∷ []
assign key row_id ((k, row) ∷ rest) =
    if ltb key k
    then (key, row_id) ∷ (k, row) ∷ rest
    else (if nat_eq k key then (k, row_id) ∷ rest else (k, row) ∷ assign key row_id rest)

unfoldable pub insert_entry : Entries → ℕ → ℕ → Outcome Entries
unfolding find assign
insert_entry index key row_id = elim (find key index) [
  | some _ ↦ throws duplicated_key
  | none ↦ ok (assign key row_id index)
]

unfoldable pub lookup_key : Entries → ℕ → ℕ
unfolding find
lookup_key index key = elim (find key index) [ none ↦ invalid_id | some row ↦ row ]

-- Iterators are positions. `lower_bound` is the first key that is not below, `upper_bound` the
-- first that is above; `end()` is the number of entries.
pub lower_bound : ℕ → Entries → ℕ
lower_bound x [] = 0
lower_bound x ((k, row) ∷ rest) = if ltb k x then suc (lower_bound x rest) else 0

pub upper_bound : ℕ → Entries → ℕ
upper_bound x [] = 0
upper_bound x ((k, row) ∷ rest) = if leb k x then suc (upper_bound x rest) else 0

-- The loop of `ScanRange` from the iterator at position `ite`, where `suffix` begins. Reading or
-- moving the iterator at `end()` is undefined.
pub collect : Entries → ℕ → ℕ → Outcome (List ℕ)
collect [] ite stop = if nat_eq ite stop then ok [] else undefined
collect ((k, row) ∷ suffix) ite stop =
    let rest = collect suffix (suc ite) stop in
    if nat_eq ite stop then ok [] else (rest >>= λ rows. ok (row ∷ rows))

unfoldable pub start_ite : RangeInfo → Entries → ℕ
unfolding lower_bound upper_bound
start_ite range index =
    if range.contain_start then lower_bound range.start index else upper_bound range.start index

unfoldable pub end_ite : RangeInfo → Entries → ℕ
unfolding lower_bound upper_bound
end_ite range index =
    if range.contain_end then upper_bound range.end index else lower_bound range.end index

unfoldable pub scan_range : Entries → RangeInfo → Outcome (List ℕ)
unfolding collect start_ite end_ite
scan_range index range =
    let start = start_ite range index in collect (drop start index) start (end_ite range index)
