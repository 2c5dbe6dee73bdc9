-- ===== src/Exec/SeqScan.antt =====
-- src/execution/seq_scan_operator.cpp: what a sequential scan hands out.
use babydb_private.Prelude.{
  ℕ, suc, ◌+◌, ◌<◌, ◌≡◌, refl, sym, ◌∙◌, Bool-cases, inl, inr, false, none, some, List, [], ◌∷◌,
  length, drop, length-drop, drop-get_elem?, get_elem?, leb, arith, String,
}
use babydb_private.Outcome.{Outcome, ok, deref, ◌>>=◌, >>=-eq-ok}
use babydb_private.Schema.{Schema, Tuple, keys_from_tuple, get_key_attrs}
use babydb_private.Table.{Table, Row}
use babydb_private.Catalog.{Catalog, fetch_table}
use babydb_private.Exec.Operator.{ChunkRow, Chunk, emit}
use babydb_private.Exec.Drain.{Produces, rows_of, emit-Produces}
use babydb_private.Exec.Once.{Produces-emit}
use babydb_private.Exec.Scan.{SeqScanOperator, seq_scan_init, seq_scan_step, seq_scan_next}

-- The columns of all rows, numbered from `row_id` on, as one pass reads them.
unfoldable pub read_all : List ℕ → List Row → ℕ → Outcome Chunk
read_all key_attrs [] row_id = ok []
read_all key_attrs (row ∷ stored) row_id = do
  keys ← keys_from_tuple row.tuple key_attrs
  rest ← read_all key_attrs stored (suc row_id)
  ok ((keys, row_id) ∷ rest)

module _ (stored : List Row) (key_attrs : List ℕ) where
  abbrev Left : SeqScanOperator → List ChunkRow → Type 0
  Left o result = read_all key_attrs (drop o.next_row_id stored) o.next_row_id ≡ ok result

  read_all-ok :
      (row : Row) (later : List Row) (id : ℕ) (result : Chunk)
      → read_all key_attrs (row ∷ later) id ≡ ok result
      → (keys : Tuple) × (rest : Chunk) × (keys_from_tuple row.tuple key_attrs ≡ ok keys)
        × (read_all key_attrs later (suc id) ≡ ok rest)
        × ((keys, id) ∷ rest ≡ result)
  unfolding read_all
  read_all-ok row later id result h =
      let (keys, e, h1) = >>=-eq-ok (keys_from_tuple row.tuple key_attrs) _ {b = result} h in
      let (rest, e', h2) = >>=-eq-ok (read_all key_attrs later (suc id)) _ {b = result} h1 in
      (keys, rest, e, e', ground arith)

  here_left :
      (o : SeqScanOperator) (result : List ChunkRow)
      → Left o result
      → leb (length stored) o.next_row_id ≡ false
      → (row : Row) × (keys : Tuple) × (rest : Chunk) × (get_elem? stored o.next_row_id ≡ some row)
        × (keys_from_tuple row.tuple key_attrs ≡ ok keys)
        × (read_all key_attrs (drop (suc o.next_row_id) stored) (suc o.next_row_id) ≡ ok rest)
        × ((keys, o.next_row_id) ∷ rest ≡ result)
  here_left o result h more =
      let (row, here, split) = drop-get_elem? o.next_row_id stored (ground (arith, more)) in
      let (keys, rest, read, later, same) =
        read_all-ok row (drop (suc o.next_row_id) stored) o.next_row_id result (rw split at h) in
      (row, keys, rest, here, read, later, same)

  at_end : (o : SeqScanOperator) → Left o [] → seq_scan_step stored key_attrs o ≡ ok none
  unfolding seq_scan_step
  at_end o h = elim (Bool-cases (leb (length stored) o.next_row_id)) [
    | inl e ↦ rw e refl
    | inr e ↦ let (_, _, _, _, _, _, split) = here_left o [] h e in absurd (ground (arith, split))
  ]

  nothing_left : (rows : List Row) (id : ℕ) → length rows ≡ 0 → read_all key_attrs rows id ≡ ok []
  unfolding read_all
  nothing_left [] id h = refl
  nothing_left (row ∷ rows) id h = absurd (omega (arith, h))

  at_row :
      (o : SeqScanOperator) (row : ChunkRow) (result : List ChunkRow)
      → Left o (row ∷ result)
      → (o' : SeqScanOperator) × (seq_scan_step stored key_attrs o ≡ ok (some (row, o')))
        × Left o' result
  unfolding seq_scan_step
  at_row o row result h = elim (Bool-cases (leb (length stored) o.next_row_id)) [
    | inl e ↦
        let past =
          nothing_left (drop o.next_row_id stored) o.next_row_id
            (ground (arith, e, length-drop o.next_row_id stored)) in
        absurd (ground (arith, sym h ∙ past))
    | inr e ↦
        let (found, keys, rest, here, read, later, split) = here_left o (row ∷ result) h e in
        let next : o.next_row_id + 1 ≡ suc o.next_row_id = omega arith in
        (
          record o { next_row_id = o.next_row_id + 1 },
          rw (e, here, read) (ground (arith, split)),
          rw next (later ∙ ground (arith, split)),
        )
  ]

  module _ (table_name : String) (fetch_columns : Schema) where
    abbrev Ready : SeqScanOperator → Type 0
    Ready o = (o.table_name ≡ table_name) × (o.fetch_columns ≡ fetch_columns)

    kept :
        (o : SeqScanOperator) (row : ChunkRow) (o' : SeqScanOperator)
        → Ready o
        → seq_scan_step stored key_attrs o ≡ ok (some (row, o'))
        → Ready o'
    unfolding seq_scan_step
    kept o row o' ready h = elim (Bool-cases (leb (length stored) o.next_row_id)) [
      | inl e ↦ absurd (ground (arith, rw e at h))
      | inr e ↦
          let (found, _, h1) =
            >>=-eq-ok (deref (get_elem? stored o.next_row_id)) _ {b = some (row, o')} (rw e at h) in
          let (keys, _, h2) =
            >>=-eq-ok (keys_from_tuple found.tuple key_attrs) _ {b = some (row, o')} h1 in
          ground (arith, ready.0, ready.1, h2)
    ]

next-emit :
    (c : Catalog) (table : Table) (key_attrs : List ℕ) (table_name : String)
    (fetch_columns : Schema) (room : ℕ) (o : SeqScanOperator)
    → fetch_table c table_name ≡ ok table
    → get_key_attrs table.schema fetch_columns ≡ ok key_attrs
    → Ready table.rows key_attrs table_name fetch_columns o
    → seq_scan_next c room o ≡ emit (seq_scan_step table.rows key_attrs) room o
unfolding seq_scan_next
next-emit c table key_attrs table_name fetch_columns room o et ea ready =
    rw (ready.0, ready.1, et, ea) refl

-- Every constructor of `SeqScanOperator` throws, so the program has no such operator yet; this is about
-- what `Init` and `Next` would do on one, as they are written. If every row of the table has the
-- fetched columns, then with chunks of at least one row an operator with given fields is exhausted
-- after finitely many calls from `Init` on, and has then handed out those columns of all the rows, in
-- order, each with the row's position as its id.
pub seq_scan-Produces :
    (c : Catalog) (room : ℕ) (o : SeqScanOperator) (table : Table) (key_attrs : List ℕ)
    (result : Chunk)
    → 0 < room
    → fetch_table c o.table_name ≡ ok table
    → get_key_attrs table.schema o.fetch_columns ≡ ok key_attrs
    → read_all key_attrs table.rows 0 ≡ ok result
    → (cs : List Chunk) × (o' : SeqScanOperator) × Produces
        (seq_scan_next c room)
        (seq_scan_init o)
        cs
        o'
      × (rows_of cs ≡ result)
unfolding seq_scan_init
seq_scan-Produces c room o table key_attrs result pos et ea read =
    let start : SeqScanOperator = record o { next_row_id = 0 } in
    let (cs, o', p, joined) =
      emit-Produces (seq_scan_step table.rows key_attrs) (Left table.rows key_attrs)
        (at_end table.rows key_attrs) (at_row table.rows key_attrs) room start result pos read in
    (
      cs,
      o',
      Produces-emit (seq_scan_step table.rows key_attrs)
          (Ready table.rows key_attrs o.table_name o.fetch_columns)
          (kept table.rows key_attrs o.table_name o.fetch_columns) room (seq_scan_next c room)
          (λ s. next-emit c table key_attrs o.table_name o.fetch_columns room s et ea) {s = start}
          (refl, refl) p,
      joined,
    )
