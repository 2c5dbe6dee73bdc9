-- ===== src/Exec/RangeScan.antt =====
-- src/execution/range_index_scan_operator.cpp over a map index: what the operator hands out.
use babydb_private.Prelude.{
  ℕ, ◌<◌, ◌≡◌, refl, true, false, not, ◌&&◌, none, some, List, [], ◌∷◌, List-cases, inl, inr,
  get_elem?, arith, String,
}
use babydb_private.Outcome.{Outcome, ok, deref, ◌>>=◌, >>=-eq-ok}
use babydb_private.Schema.{Schema, Tuple, keys_from_tuple, get_key_attrs}
use babydb_private.Filter.{range_accepts}
use babydb_private.Table.{Table, Row}
use babydb_private.Index.{Index, stlmap_index}
use babydb_private.Catalog.{Catalog, fetch_table, fetch_index}
use babydb_private.StlmapIndex.{Entries, scan_range}
use babydb_private.StlmapIndex.Order.{IsSorted}
use babydb_private.StlmapIndex.Scan.{scan_range_lem, rows, keep, some_key, skipped, passed}
use babydb_private.Exec.Operator.{ChunkRow, Chunk, emit}
use babydb_private.Exec.Drain.{Produces, rows_of, emit-Produces}
use babydb_private.Exec.Once.{Produces-emit, Produces-first}
use babydb_private.Exec.Scan.{
  RangeIndexScanOperator, range_scan_init, range_scan_step, range_scan_next, scan_once,
  scan_contents,
}

-- The columns of the rows with these ids, as one pass reads them.
unfoldable pub read_rows : List Row → List ℕ → List ℕ → Outcome Chunk
read_rows stored key_attrs [] = ok []
read_rows stored key_attrs (row_id ∷ ids) = do
  row ← deref (get_elem? stored row_id)
  keys ← keys_from_tuple row.tuple key_attrs
  rest ← read_rows stored key_attrs ids
  ok ((keys, row_id) ∷ rest)

module _ (stored : List Row) (key_attrs : List ℕ) where
  abbrev Left : RangeIndexScanOperator → List ChunkRow → Type 0
  Left o result = read_rows stored key_attrs o.next_ite ≡ ok result

  read_rows-ok :
      (row_id : ℕ) (ids : List ℕ) (result : Chunk)
      → read_rows stored key_attrs (row_id ∷ ids) ≡ ok result
      → (row : Row) × (keys : Tuple) × (rest : Chunk) × (get_elem? stored row_id ≡ some row)
        × (keys_from_tuple row.tuple key_attrs ≡ ok keys)
        × (read_rows stored key_attrs ids ≡ ok rest)
        × ((keys, row_id) ∷ rest ≡ result)
  unfolding read_rows
  read_rows-ok row_id ids result h =
      let (row, e, h1) = >>=-eq-ok (deref (get_elem? stored row_id)) _ {b = result} h in
      let (keys, e', h2) = >>=-eq-ok (keys_from_tuple row.tuple key_attrs) _ {b = result} h1 in
      let (rest, e'', h3) = >>=-eq-ok (read_rows stored key_attrs ids) _ {b = result} h2 in
      (row, keys, rest, ground (arith, e), e', e'', ground arith)

  at_end : (o : RangeIndexScanOperator) → Left o [] → range_scan_step stored key_attrs o ≡ ok none
  unfolding range_scan_step
  at_end o h = elim (List-cases o.next_ite) [
    | inl e ↦ rw e refl
    | inr (id, ids, e) ↦
        let (row, keys, rest, _, _, _, split) = read_rows-ok id ids [] (rw e at h) in
        absurd (ground (arith, split))
  ]

  at_row :
      (o : RangeIndexScanOperator) (row : ChunkRow) (result : List ChunkRow)
      → Left o (row ∷ result)
      → (o' : RangeIndexScanOperator) × (range_scan_step stored key_attrs o ≡ ok (some (row, o')))
        × Left o' result
  unfolding range_scan_step
  at_row o row result h = elim (List-cases o.next_ite) [
    | inl e ↦ absurd (unfold read_rows in ground (arith, rw e at h))
    | inr (id, ids, e) ↦
        let (found, keys, rest, here, read, later, split) =
          read_rows-ok id ids (row ∷ result) (rw e at h) in
        (
          record o { next_ite = ids },
          rw (e, here, read) (ground (arith, split)),
          ground (arith, split, later),
        )
  ]

  module _ (table_name : String) (fetch_columns : Schema) where
    abbrev Ready : RangeIndexScanOperator → Type 0
    Ready o =
        (o.results_scanned ≡ true) × (o.table_name ≡ table_name) × (o.fetch_columns ≡ fetch_columns)

    kept :
        (o : RangeIndexScanOperator) (row : ChunkRow) (o' : RangeIndexScanOperator)
        → Ready o
        → range_scan_step stored key_attrs o ≡ ok (some (row, o'))
        → Ready o'
    unfolding range_scan_step
    kept o row o' ready h = elim (List-cases o.next_ite) [
      | inl e ↦ absurd (ground (arith, rw e at h))
      | inr (id, ids, e) ↦
          let (found, _, h1) =
            >>=-eq-ok (deref (get_elem? stored id)) _ {b = some (row, o')} (rw e at h) in
          let (keys, _, h2) =
            >>=-eq-ok (keys_from_tuple found.tuple key_attrs) _ {b = some (row, o')} h1 in
          ground (arith, ready.0, ready.1, ready.2, h2)
    ]

next-emit :
    (c : Catalog) (table : Table) (key_attrs : List ℕ) (table_name : String)
    (fetch_columns : Schema) (room : ℕ) (o : RangeIndexScanOperator)
    → fetch_table c table_name ≡ ok table
    → get_key_attrs table.schema fetch_columns ≡ ok key_attrs
    → Ready table.rows key_attrs table_name fetch_columns o
    → range_scan_next c room o ≡ emit (range_scan_step table.rows key_attrs) room o
unfolding range_scan_next scan_once
next-emit c table key_attrs table_name fetch_columns room o et ea ready =
    rw (ready.1, ready.2, et, ea, ready.0) refl

-- On a table with a map index that is sorted and that has no key both before the start and past the
-- end of the range, if every row id of a key in the range names a row that has the fetched columns,
-- then with chunks of at least one row the scan is exhausted after finitely many calls from `Init`
-- on, and has then handed out those columns and ids, for exactly the keys that a range filter
-- accepts and in the order of the keys.
pub range_scan-Produces :
    (c : Catalog) (room : ℕ) (o : RangeIndexScanOperator) (table : Table) (key_attrs : List ℕ)
    (index : Index) (entries : Entries) (result : Chunk)
    → 0 < room
    → fetch_table c o.table_name ≡ ok table
    → get_key_attrs table.schema o.fetch_columns ≡ ok key_attrs
    → fetch_index c o.index_name ≡ ok index
    → index.contents ≡ stlmap_index entries
    → IsSorted entries
    → some_key (λ k. skipped o.range k && not (passed o.range k)) entries ≡ false
    → read_rows table.rows key_attrs (rows (keep (range_accepts o.range) entries)) ≡ ok result
    → (cs : List Chunk) × (o' : RangeIndexScanOperator) × Produces
        (range_scan_next c room)
        (range_scan_init o)
        cs
        o'
      × (rows_of cs ≡ result)
unfolding range_scan_init
range_scan-Produces c room o table key_attrs index entries result pos et ea ei ec sorted inside
      read =
    let ids = rows (keep (range_accepts o.range) entries) in
    let scanned : scan_range entries o.range ≡ ok ids =
      rw inside at (scan_range_lem entries o.range sorted) in
    let ready : RangeIndexScanOperator = record o {
      row_ids = ids;
      next_ite = ids;
      results_scanned = true;
    } in
    let (cs, o', p, joined) =
      emit-Produces (range_scan_step table.rows key_attrs) (Left table.rows key_attrs)
        (at_end table.rows key_attrs) (at_row table.rows key_attrs) room ready result pos read in
    let later =
      Produces-emit (range_scan_step table.rows key_attrs)
        (Ready table.rows key_attrs o.table_name o.fetch_columns)
        (kept table.rows key_attrs o.table_name o.fetch_columns) room (range_scan_next c room)
        (λ s. next-emit c table key_attrs o.table_name o.fetch_columns room s et ea) {s = ready}
        (refl, refl, refl) p in
    (
      cs,
      o',
      Produces-first (range_scan_next c room) {t = ready}
          (unfold range_scan_next scan_once scan_contents in rw (et, ea, ei, ec, scanned) refl)
          later,
      joined,
    )
