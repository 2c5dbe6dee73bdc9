-- ===== src/Art/Tree.antt =====
-- src/storage/art.cpp: `ArtIndex`, the calls on the root of the tree.
use babydb_private.Prelude.{ℕ, false, nat_eq, not, Bool, List, [], if◌then◌else◌}
use babydb_private.Outcome.{Outcome, ok, throws, duplicated_key, unimplemented, ◌>>=◌}
use babydb_private.Schema.{RangeInfo, invalid_id}
use babydb_private.Art.{TreePointer, null, leaf, node}
use babydb_private.Art.Key.{load_key}
use babydb_private.Art.Search.{lookup}
use babydb_private.Art.Insert.{insert}
use babydb_private.Art.Destroy.{destroy}

-- A key has eight bytes and every node on the way takes at least one, so no way is longer.
abbrev pub descent_fuel : ℕ
descent_fuel = 10

abbrev pub found_id : TreePointer → ℕ
found_id null = invalid_id
found_id (leaf value) = value
found_id (node h b) = invalid_id

unfoldable pub lookup_key : TreePointer → ℕ → Outcome ℕ
unfolding lookup load_key
lookup_key root key = lookup descent_fuel false root (load_key key) 0 >>= λ p. ok (found_id p)

-- The row id is not stored.
unfoldable pub insert_entry : TreePointer → ℕ → ℕ → Outcome TreePointer
unfolding lookup_key insert load_key
insert_entry root key row_id = do
  present ← lookup_key root key
  if not (nat_eq present invalid_id)
      then throws duplicated_key
      else insert descent_fuel root (load_key key) 0 key

unfoldable pub range_scan : TreePointer → List ℕ → List ℕ → Bool → Bool → List ℕ → Outcome (List ℕ)
range_scan top lower_key upper_key contain_start contain_end row_ids = throws unimplemented

unfoldable pub scan_range : TreePointer → RangeInfo → Outcome (List ℕ)
unfolding range_scan load_key
scan_range root range =
    range_scan root (load_key range.start) (load_key range.end) range.contain_start
      range.contain_end []

-- `ArtTree` is its root, null at first; its destructor.
unfoldable pub destroy_tree : TreePointer → Outcome ℕ
unfolding destroy
destroy_tree root = destroy descent_fuel root
