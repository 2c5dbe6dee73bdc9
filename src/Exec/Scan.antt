-- ===== src/Exec/Scan.antt =====
-- src/execution/seq_scan_operator.cpp and src/execution/range_index_scan_operator.cpp.
use Prim.Native.String.{◌++◌ as str_append}
use babydb_private.Prelude.{
  ℕ, ◌+◌, String, Bool, true, false, not, Option, none, some, List, [], ◌∷◌, nat_eq, leb, str_eq,
  if◌then◌else◌, length, get_elem?, map,
}
use babydb_private.Outcome.{
  Outcome, ok, throws, deref, schema_mismatch, disallowed, throw_if, ◌>>=◌, ◌>>◌,
}
use babydb_private.Schema.{RangeInfo, Schema, keys_from_tuple, get_key_attrs}
use babydb_private.Table.{Row}
use babydb_private.Index.{Contents, stlmap_index, art_index}
use babydb_private.Catalog.{Catalog, fetch_table, fetch_index}
use babydb_private.Exec.Operator.{ChunkRow, Next, emit}
use babydb_private.StlmapIndex
use babydb_private.Art.Tree

pub record SeqScanOperator : Type 0 where
  pub output_schema : Schema
  pub table_name : String
  pub fetch_columns : Schema
  pub next_row_id : ℕ

unfoldable pub combine_schema : String → Schema → Schema
combine_schema table_name = map λ column. str_append table_name (str_append "." column)

-- All the constructors end in the last one, which throws.
unfoldable pub make_seq_scan : String → Schema → Schema → Outcome SeqScanOperator
make_seq_scan table_name fetch_columns output_schema = throws disallowed

unfoldable pub seq_scan_init : SeqScanOperator → SeqScanOperator
seq_scan_init o = record o { next_row_id = 0 }

unfoldable pub seq_scan_check : Catalog → SeqScanOperator → Outcome (Unit {0})
unfolding fetch_table get_key_attrs
seq_scan_check c o = do
  table ← fetch_table c o.table_name
  _ ← get_key_attrs table.schema o.fetch_columns
  throw_if (not (nat_eq (length o.fetch_columns) (length o.output_schema))) schema_mismatch

unfoldable pub seq_scan_step :
    List Row → List ℕ → SeqScanOperator → Outcome (Option (ChunkRow × SeqScanOperator))
seq_scan_step rows key_attrs o =
    if leb (length rows) o.next_row_id
    then ok none
    else (deref (get_elem? rows o.next_row_id) >>= λ row.
        keys_from_tuple row.tuple key_attrs >>= λ keys.
        ok (some ((keys, o.next_row_id), record o { next_row_id = o.next_row_id + 1 })))

unfoldable pub seq_scan_next : Catalog → ℕ → Next SeqScanOperator
unfolding fetch_table get_key_attrs seq_scan_step emit
seq_scan_next c chunk_size o = do
  table ← fetch_table c o.table_name
  key_attrs ← get_key_attrs table.schema o.fetch_columns
  emit (seq_scan_step table.rows key_attrs) chunk_size o

-- The iterator `next_ite_` is the list of the ids that it has still to meet.
pub record RangeIndexScanOperator : Type 0 where
  pub output_schema : Schema
  pub table_name : String
  pub fetch_columns : Schema
  pub index_name : String
  pub range : RangeInfo
  pub row_ids : List ℕ
  pub next_ite : List ℕ
  pub results_scanned : Bool

unfoldable pub range_scan_init : RangeIndexScanOperator → RangeIndexScanOperator
range_scan_init o = record o { row_ids = []; results_scanned = false; next_ite = [] }

unfoldable pub range_scan_check : Catalog → RangeIndexScanOperator → Outcome (Unit {0})
unfolding fetch_table fetch_index get_key_attrs
range_scan_check c o = do
  table ← fetch_table c o.table_name
  index ← fetch_index c o.index_name
  throw_if (not (str_eq index.table_name o.table_name)) schema_mismatch
  _ ← get_key_attrs table.schema o.fetch_columns
  throw_if (not (nat_eq (length o.fetch_columns) (length o.output_schema))) schema_mismatch

-- The virtual `ScanRange`. Both classes of indexes are range indexes, so the cast succeeds.
unfoldable pub scan_contents : Contents → RangeInfo → Outcome (List ℕ)
unfolding StlmapIndex.scan_range Tree.scan_range
scan_contents (stlmap_index entries) range = StlmapIndex.scan_range entries range
scan_contents (art_index root) range = Tree.scan_range root range

unfoldable pub range_scan_step :
    List Row
    → List ℕ
    → RangeIndexScanOperator
    → Outcome (Option (ChunkRow × RangeIndexScanOperator))
range_scan_step rows key_attrs o = elim o.next_ite [
  | [] ↦ ok none
  | row_id ∷ rest ↦ deref (get_elem? rows row_id) >>= λ row.
      keys_from_tuple row.tuple key_attrs >>= λ keys.
      ok (some ((keys, row_id), record o { next_ite = rest }))
]

unfoldable pub scan_once : Catalog → RangeIndexScanOperator → Outcome RangeIndexScanOperator
unfolding fetch_index scan_contents
scan_once c o =
    if o.results_scanned
    then ok o
    else (fetch_index c o.index_name >>= λ index. scan_contents index.contents o.range >>= λ ids.
        ok (record o { results_scanned = true; row_ids = ids; next_ite = ids }))

unfoldable pub range_scan_next : Catalog → ℕ → Next RangeIndexScanOperator
unfolding fetch_table get_key_attrs scan_once range_scan_step emit
range_scan_next c chunk_size o = do
  table ← fetch_table c o.table_name
  key_attrs ← get_key_attrs table.schema o.fetch_columns
  o' ← scan_once c o
  emit (range_scan_step table.rows key_attrs) chunk_size o'
