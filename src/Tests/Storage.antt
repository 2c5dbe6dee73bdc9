-- ===== src/Tests/Storage.antt =====
-- Schemas, indexes and the catalog on concrete inputs.
use babydb_private.Prelude.{ℕ, ◌≡◌, refl, true, false, [], ◌∷◌, arith, if◌then◌else◌, nat_eq}
use babydb_private.Outcome.{ok, throws, undefined, invalid_key_schema, duplicated_key, ◌>>=◌}
use babydb_private.Schema.{Schema, RangeInfo, get_key_attr}
use babydb_private.Schema.Lookup.{get_key_attr_lem, position_of}
use babydb_private.Filter.{range_accepts}
use babydb_private.StlmapIndex.{Entries, find, insert_entry, lookup_key, scan_range}
use babydb_private.StlmapIndex.Order.{IsSorted, insert_entry_lem, insert_entry_twice}
use babydb_private.StlmapIndex.Scan.{scan_range_lem, rows, keep, some_key}

abbrev columns : Schema
columns = "id" ∷ "name" ∷ "x" ∷ []

found_column : get_key_attr columns "name" ≡ ok 1
unfolding get_key_attr
found_column = refl

missing_column : get_key_attr columns "address" ≡ undefined
unfolding get_key_attr
missing_column = refl

-- The third column has a name of one byte, so it is not found.
get_key_attr_lem_example : get_key_attr columns "x" ≡ throws invalid_key_schema
unfolding position_of
get_key_attr_lem_example = get_key_attr_lem columns "x" (omega arith)

abbrev index : Entries
index = (1, 10) ∷ (5, 50) ∷ (9, 90) ∷ []

index-IsSorted : IsSorted index
index-IsSorted = omega arith

insert_entry_lem_example :
    (index' : Entries) × (insert_entry index 3 30 ≡ ok index')
    × IsSorted index'
    × ((j : ℕ) → lookup_key index' j ≡ (if nat_eq 3 j then 30 else lookup_key index j))
unfolding find
insert_entry_lem_example = insert_entry_lem index 3 30 index-IsSorted refl

insert_entry_twice_example :
    (insert_entry index 3 30 >>= λ index'. insert_entry index' 3 31) ≡ throws duplicated_key
unfolding find
insert_entry_twice_example = insert_entry_twice index 3 30 31 index-IsSorted refl

abbrev half_open : RangeInfo
half_open = record { start = 1; end = 9; contain_start = false; contain_end = true }

scan_range_lem_example : scan_range index half_open ≡ ok (50 ∷ 90 ∷ [])
unfolding rows keep some_key range_accepts
scan_range_lem_example = scan_range_lem index half_open index-IsSorted

-- Both ends open at the same key, which the index has.
scan_past_end :
    scan_range index (record { start = 5; end = 5; contain_start = false; contain_end = false })
    ≡ undefined
unfolding scan_range
scan_past_end = refl
