-- ===== src/Exec/Stored.antt =====
-- src/execution/insert_operator.cpp, update_operator.cpp: what `Next` hands to `InsertRow`.
use babydb_private.Prelude.{
  ℕ, ◌≤◌, ◌≡◌, refl, ap, ◌∙◌, sym, List, [], ◌∷◌, ◌++◌, length, arith, append-nil, append_assoc,
}
use babydb_private.Outcome.{Outcome, ok, ◌>>=◌, bind_assoc, >>=-eq-ok}
use babydb_private.Schema.{Tuple, keys_from_tuple, key_from_tuple, get_key_attrs}
use babydb_private.Table.{Table, Row}
use babydb_private.Index.{Index}
use babydb_private.Catalog.{Catalog, fetch_table}
use babydb_private.Exec.Operator.{Chunk, exhausted, Next}
use babydb_private.Exec.Drain.{Produces, rows_of}
use babydb_private.Exec.Drained.{drain_rows}
use babydb_private.Exec.Modify.{
  insert_row, InsertOperator, index_of, insert_chunk, insert_next, UpdateOperator, update_chunk,
  update_next, input_attrs,
}

-- For each row of the input, the tuple in the table's order of columns, and its key.
unfoldable pub read_inserts : List ℕ → ℕ → Chunk → Outcome (List (Tuple × ℕ))
read_inserts key_attrs attr [] = ok []
read_inserts key_attrs attr ((t, id) ∷ rows) = do
  insert_tuple ← keys_from_tuple t key_attrs
  key ← key_from_tuple insert_tuple attr
  rest ← read_inserts key_attrs attr rows
  ok ((insert_tuple, key) ∷ rest)

-- For each row of the input, its tuple as it is, and its key.
unfoldable pub read_updates : ℕ → Chunk → Outcome (List (Tuple × ℕ))
read_updates attr [] = ok []
read_updates attr ((t, id) ∷ rows) = do
  key ← key_from_tuple t attr
  rest ← read_updates attr rows
  ok ((t, key) ∷ rest)

-- What `InsertRow` may do to the rows of a table.
abbrev pub Store : Type 0
Store = List Row → Tuple → Index → ℕ → List Row

-- The rows of the table after one call of `InsertRow` on each of them in turn.
abbrev pub stored : Store → Index → List (Tuple × ℕ) → List Row → List Row
stored store index [] rows = rows
stored store index ((t, key) ∷ inserts) rows = stored store index inserts (store rows t index key)

insert_chunk-append :
    (store : Store) (key_attrs : List ℕ) (index : Index) (attr : ℕ) (xs ys : Chunk)
    (rows : List Row)
    → insert_chunk store key_attrs index attr (xs ++ ys) rows ≡ (
        insert_chunk store key_attrs index attr xs rows
        >>= insert_chunk store key_attrs index attr ys)
unfolding insert_chunk
insert_chunk-append store key_attrs index attr [] ys rows = refl
insert_chunk-append store key_attrs index attr ((t, id) ∷ xs) ys rows =
    simp (bind_assoc, insert_chunk-append store key_attrs index attr xs ys)

insert_chunk-stored :
    (store : Store) (key_attrs : List ℕ) (index : Index) (attr : ℕ) (chunk : Chunk)
    (inserts : List (Tuple × ℕ)) (rows : List Row)
    → read_inserts key_attrs attr chunk ≡ ok inserts
    → insert_chunk store key_attrs index attr chunk rows ≡ ok (stored store index inserts rows)
unfolding read_inserts insert_chunk
insert_chunk-stored store key_attrs index attr [] inserts rows h =
    let none_there : [] ≡ inserts = ground (arith, h) in
    ap (λ i. ok (stored store index i rows)) none_there
insert_chunk-stored store key_attrs index attr ((t, id) ∷ chunk) inserts rows h =
    let (tuple, e, h1) = >>=-eq-ok (keys_from_tuple t key_attrs) _ {b = inserts} h in
    let (key, e', h2) = >>=-eq-ok (key_from_tuple tuple attr) _ {b = inserts} h1 in
    let (rest, later, h3) = >>=-eq-ok (read_inserts key_attrs attr chunk) _ {b = inserts} h2 in
    let whole : (tuple, key) ∷ rest ≡ inserts = ground (arith, h3) in
    rw (e, e')
      (insert_chunk-stored store key_attrs index attr chunk rest (store rows tuple index key) later
        ∙ ap (λ i. ok (stored store index i rows)) whole)

stored_same :
    (index : Index) (inserts : List (Tuple × ℕ)) (rows : List Row)
    → stored insert_row index inserts rows ≡ rows
unfolding insert_row
stored_same index [] rows = refl
stored_same index ((t, key) ∷ inserts) rows = stored_same index inserts rows

insert_next-stored :
    (store : Store) {S : Type 0} (child_next : Next S) (c : Catalog) (fuel : ℕ)
    (o : InsertOperator S) (table : Table) (index : Index) (key_attrs : List ℕ) (attr : ℕ) {s' : S}
    {cs : List Chunk} (inserts : List (Tuple × ℕ))
    → fetch_table c o.table_name ≡ ok table
    → get_key_attrs o.child_schema o.input_schema ≡ ok key_attrs
    → index_of c table ≡ ok (index, attr)
    → Produces child_next o.child cs s'
    → length cs ≤ fuel
    → read_inserts key_attrs attr (rows_of cs) ≡ ok inserts
    → insert_next store child_next c fuel o
      ≡ ok (
        stored store index inserts table.rows,
        record { chunk = []; answer = exhausted; rest = record o { child = s' } },
      )
unfolding insert_next
insert_next-stored store child_next c fuel o table index key_attrs attr {s'} {cs} inserts there
      attrs target produced enough read =
    let run =
      drain_rows child_next (insert_chunk store key_attrs index attr)
        (λ rows. unfold insert_chunk in refl) (insert_chunk-append store key_attrs index attr) fuel
        table.rows (stored store index inserts table.rows) produced enough
        (insert_chunk-stored store key_attrs index attr (rows_of cs) inserts table.rows read) in
    rw (there, attrs, target, run) refl

-- If the table and its index are there, the child has the columns of the input schema, is exhausted
-- after some chunks for which the fuel allows, and each of its rows has a tuple and a key for the
-- table, then with any function in the place of `InsertRow`, `InsertOperator::Next` ends exhausted with
-- an empty chunk, and the rows of the table are what calls of that function on these tuples, their
-- keys and the index make of them, one call for each in the order of the rows. With the repository's
-- `InsertRow`, which is empty, the rows are as before.
pub insert_next_lem :
    (store : Store) {S : Type 0} (child_next : Next S) (c : Catalog) (fuel : ℕ)
    (o : InsertOperator S) (table : Table) (index : Index) (key_attrs : List ℕ) (attr : ℕ) {s' : S}
    {cs : List Chunk} (inserts : List (Tuple × ℕ))
    → fetch_table c o.table_name ≡ ok table
    → get_key_attrs o.child_schema o.input_schema ≡ ok key_attrs
    → index_of c table ≡ ok (index, attr)
    → Produces child_next o.child cs s'
    → length cs ≤ fuel
    → read_inserts key_attrs attr (rows_of cs) ≡ ok inserts
    → (insert_next store child_next c fuel o
        ≡ ok (
          stored store index inserts table.rows,
          record { chunk = []; answer = exhausted; rest = record o { child = s' } },
        ))
      × (insert_next insert_row child_next c fuel o
          ≡ ok (
            table.rows,
            record { chunk = []; answer = exhausted; rest = record o { child = s' } },
          ))
insert_next_lem store child_next c fuel o table index key_attrs attr {s'} inserts there attrs target
      produced enough read =
    (
      insert_next-stored store child_next c fuel o table index key_attrs attr inserts there attrs
          target produced enough read,
      insert_next-stored insert_row child_next c fuel o table index key_attrs attr inserts there
            attrs target produced enough read
          ∙ ap
              (λ rows.
                ok
                  (rows, record { chunk = []; answer = exhausted; rest = record o { child = s' } }))
              (stored_same index inserts table.rows),
    )

update_chunk-stored :
    (store : Store) (index : Index) (attr : ℕ) (chunk : Chunk) (updates : List (Tuple × ℕ))
    (rows : List Row)
    → read_updates attr chunk ≡ ok updates
    → update_chunk store index attr chunk rows ≡ ok (stored store index updates rows)
unfolding read_updates update_chunk
update_chunk-stored store index attr [] updates rows h =
    let none_there : [] ≡ updates = ground (arith, h) in
    ap (λ i. ok (stored store index i rows)) none_there
update_chunk-stored store index attr ((t, id) ∷ chunk) updates rows h =
    let (key, e, h1) = >>=-eq-ok (key_from_tuple t attr) _ {b = updates} h in
    let (rest, later, h2) = >>=-eq-ok (read_updates attr chunk) _ {b = updates} h1 in
    let whole : (t, key) ∷ rest ≡ updates = ground (arith, h2) in
    rw e (
      update_chunk-stored store index attr chunk rest (store rows t index key) later
      ∙ ap (λ i. ok (stored store index i rows)) whole)

update_next-stored :
    (store : Store) {S : Type 0} (child_next : Next S) (c : Catalog) (fuel : ℕ) (given : Chunk)
    (o : UpdateOperator S) (table : Table) (index : Index) (key_attrs : List ℕ) (attr : ℕ) {s' : S}
    {cs : List Chunk} (updates : List (Tuple × ℕ))
    → fetch_table c o.table_name ≡ ok table
    → input_attrs o.child_schema o.input_schema ≡ ok key_attrs
    → index_of c table ≡ ok (index, attr)
    → Produces child_next o.child cs s'
    → length cs ≤ fuel
    → read_updates attr (rows_of cs) ≡ ok updates
    → update_next store child_next c fuel given o
      ≡ ok (
        stored store index updates table.rows,
        record { chunk = given; answer = exhausted; rest = record o { child = s' } },
      )
unfolding update_next
update_next-stored store child_next c fuel given o table index key_attrs attr {s'} {cs} updates
      there attrs target produced enough read =
    let fetched =
      drain_rows child_next (λ chunk all. ok (all ++ chunk)) (λ all. ap ok (append-nil all))
        (λ xs ys all. ap ok (sym (append_assoc all xs ys))) fuel [] (rows_of cs) produced enough
        refl in
    let run = update_chunk-stored store index attr (rows_of cs) updates table.rows read in
    rw (there, attrs, target, fetched, run) refl

-- If the table and its index are there, the child has the columns of the input schema, if there is
-- one, is exhausted after some chunks for which the fuel allows, and each of its rows has a key at the
-- place of the table's key, then with any function in the place of `InsertRow`,
-- `UpdateOperator::Next` ends exhausted with the output chunk as it was given, and the rows of the
-- table are what calls of that function on the rows' tuples, their keys and the index make of them,
-- one call for each in order, with the columns in the order of the child whatever the input schema
-- says. With the repository's `InsertRow`, which is empty, the rows are as before.
pub update_next_lem :
    (store : Store) {S : Type 0} (child_next : Next S) (c : Catalog) (fuel : ℕ) (given : Chunk)
    (o : UpdateOperator S) (table : Table) (index : Index) (key_attrs : List ℕ) (attr : ℕ) {s' : S}
    {cs : List Chunk} (updates : List (Tuple × ℕ))
    → fetch_table c o.table_name ≡ ok table
    → input_attrs o.child_schema o.input_schema ≡ ok key_attrs
    → index_of c table ≡ ok (index, attr)
    → Produces child_next o.child cs s'
    → length cs ≤ fuel
    → read_updates attr (rows_of cs) ≡ ok updates
    → (update_next store child_next c fuel given o
        ≡ ok (
          stored store index updates table.rows,
          record { chunk = given; answer = exhausted; rest = record o { child = s' } },
        ))
      × (update_next insert_row child_next c fuel given o
          ≡ ok (
            table.rows,
            record { chunk = given; answer = exhausted; rest = record o { child = s' } },
          ))
update_next_lem store child_next c fuel given o table index key_attrs attr {s'} updates there attrs
      target produced enough read =
    (
      update_next-stored store child_next c fuel given o table index key_attrs attr updates there
          attrs target produced enough read,
      update_next-stored insert_row child_next c fuel given o table index key_attrs attr updates
            there attrs target produced enough read
          ∙ ap
              (λ rows. ok (
                rows,
                record { chunk = given; answer = exhausted; rest = record o { child = s' } },
              ))
              (stored_same index updates table.rows),
    )
