-- ===== src/Tests/Scans.antt =====
-- Scans of a concrete table and index.
use babydb_private.Prelude.{◌≡◌, refl, true, false, List, [], ◌∷◌, arith}
use babydb_private.Exec.Operator.{Chunk}
use babydb_private.Exec.Drain.{Produces, rows_of}
use babydb_private.Schema.{keys_from_tuple, get_key_attrs}
use babydb_private.Filter.{range_accepts}
use babydb_private.Table.{Table}
use babydb_private.Index.{Index, stlmap_index}
use babydb_private.Assoc
use babydb_private.Catalog.{Catalog, fetch_table, fetch_index}
use babydb_private.StlmapIndex.{Entries}
use babydb_private.StlmapIndex.Scan.{rows, keep, some_key}
use babydb_private.Exec.Scan.{
  SeqScanOperator, seq_scan_init, seq_scan_next, RangeIndexScanOperator, range_scan_init,
  range_scan_next,
}
use babydb_private.Exec.SeqScan.{read_all, seq_scan-Produces}
use babydb_private.Exec.RangeScan.{read_rows, range_scan-Produces}

abbrev scanned_table : Table
scanned_table = record {
  name = "t";
  schema = "k" ∷ "value" ∷ [];
  rows =
      record { tuple = 1 ∷ 10 ∷ [] }
      ∷ record { tuple = 5 ∷ 50 ∷ [] }
      ∷ record { tuple = 9 ∷ 90 ∷ [] }
      ∷ [];
  index_name = "i";
}

abbrev entries : Entries
entries = (1, 0) ∷ (5, 1) ∷ (9, 2) ∷ []

abbrev scanned_index : Index
scanned_index = record {
  name = "i";
  table_name = "t";
  key_name = "k";
  contents = stlmap_index entries;
}

abbrev catalog : Catalog
catalog = record { tables = ("t", scanned_table) ∷ []; indexes = ("i", scanned_index) ∷ [] }

abbrev scanning : RangeIndexScanOperator
scanning = record {
  output_schema = "v" ∷ [];
  table_name = "t";
  fetch_columns = "value" ∷ [];
  index_name = "i";
  range = record { start = 1; end = 9; contain_start = false; contain_end = true };
  row_ids = [];
  next_ite = [];
  results_scanned = false;
}

range_scan-Produces_example :
    (cs : List Chunk) × (o' : RangeIndexScanOperator) × Produces
      (range_scan_next catalog 1)
      (range_scan_init scanning)
      cs
      o'
    × (rows_of cs ≡ (50 ∷ [], 1) ∷ (90 ∷ [], 2) ∷ [])
unfolding get_key_attrs fetch_table fetch_index Assoc.find rows keep some_key range_accepts
    read_rows keys_from_tuple
range_scan-Produces_example =
    range_scan-Produces catalog 1 scanning scanned_table (1 ∷ []) scanned_index entries
      ((50 ∷ [], 1) ∷ (90 ∷ [], 2) ∷ []) (omega arith) refl refl refl refl (omega arith) refl refl

abbrev all_rows : SeqScanOperator
all_rows = record {
  output_schema = "t.value" ∷ [];
  table_name = "t";
  fetch_columns = "value" ∷ [];
  next_row_id = 2;
}

seq_scan-Produces_example :
    (cs : List Chunk) × (o' : SeqScanOperator) × Produces
      (seq_scan_next catalog 2)
      (seq_scan_init all_rows)
      cs
      o'
    × (rows_of cs ≡ (10 ∷ [], 0) ∷ (50 ∷ [], 1) ∷ (90 ∷ [], 2) ∷ [])
unfolding get_key_attrs fetch_table Assoc.find read_all keys_from_tuple
seq_scan-Produces_example =
    seq_scan-Produces catalog 2 all_rows scanned_table (1 ∷ [])
      ((10 ∷ [], 0) ∷ (50 ∷ [], 1) ∷ (90 ∷ [], 2) ∷ []) (omega arith) refl refl refl
