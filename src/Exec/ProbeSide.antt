-- ===== src/Exec/ProbeSide.antt =====
-- src/execution/hash_join_operator.cpp: what a join hands out once its table is built.
use babydb_private.Prelude.{
  ℕ, suc, ◌+◌, ◌≤◌, ◌<◌, ◌≡◌, refl, ap, sym, ◌∙◌, subst, String, true, false, not, ◌&&◌, some, List,
  [], ◌∷◌, ◌++◌, length, drop, drop-length, drop-get_elem?, get_elem?, map, nat_eq, nat_eq_iff,
  if_false, arith, Bool-cases, ◌⊎◌, inl, inr,
}
use babydb_private.Outcome.{Outcome, ok, ◌>>=◌}
use babydb_private.Schema.{Tuple, Schema, invalid_id, key_from_tuple}
use babydb_private.Exec.Operator.{ChunkRow, Chunk, have_more_output, exhausted, Batch, Next}
use babydb_private.Exec.Drain.{Produces, last, more, rows_of}
use babydb_private.Exec.Join.{Builds, HashJoinOperator, with_key, refill}

-- The chunks before the first one that is empty.
abbrev pub until_empty : List Chunk → List Chunk
until_empty [] = []
until_empty ([] ∷ cs) = []
until_empty ((row ∷ c) ∷ cs) = (row ∷ c) ∷ until_empty cs

-- The pairs of a probe row with every build row of the same key.
abbrev pub pairs : (List Tuple → List Tuple) → Builds → ℕ → Tuple → Chunk
pairs order table key t = map (λ b. (t ++ b, invalid_id)) (order (with_key key table))

-- The join of probe rows, one after another.
unfoldable pub join_rows : (List Tuple → List Tuple) → Builds → ℕ → Chunk → Outcome Chunk
join_rows order table attr [] = ok []
join_rows order table attr (row ∷ rows) = do
  key ← key_from_tuple row.0 attr
  rest ← join_rows order table attr rows
  ok (pairs order table key row.0 ++ rest)

module _ (order : List Tuple → List Tuple) {P B : Type 0} (probe_next : Next P)
    (build_next : Next B) (table : Builds) (schema : Schema) (column : String) where
  -- The fields that a probe does not change.
  abbrev pub IsBuilt : HashJoinOperator P B → Type 0
  IsBuilt o =
      (o.hash_table ≡ table)
      × (o.hash_table_build ≡ true)
      × (o.probe_schema ≡ schema)
      × (o.probe_column_name ≡ column)

  -- The probe child still hands out some chunks, or it has answered that it is exhausted.
  abbrev pub Source : HashJoinOperator P B → List Chunk → Type 0
  Source o cs =
      ((o.probe_child_exhausted ≡ true) × (cs ≡ []))
      ⊎ ((o.probe_child_exhausted ≡ false) × (p : P) × Produces probe_next o.probe_child cs p)

  -- The probe rows to come: those of the buffer, then those that the child hands out.
  abbrev pub Rest : HashJoinOperator P B → List ChunkRow → Type 0
  Rest o rows =
      IsBuilt o
      × (o.buffer_ptr ≤ length o.buffer)
      × (cs : List Chunk) × Source o cs
      × (drop o.buffer_ptr o.buffer ++ rows_of (until_empty cs) ≡ rows)

  -- `refill` leaves the used buffer when no row is to come, and otherwise the next row at the head of
  -- the buffer.
  abbrev pub Turned : HashJoinOperator P B → List ChunkRow → Type 0
  Turned o rows =
      ((o' : HashJoinOperator P B) × (refill order probe_next build_next o ≡ ok o')
        × (nat_eq o'.buffer_ptr (length o'.buffer) ≡ true)
        × (rows ≡ []))
      ⊎ ((o' : HashJoinOperator P B) × (row : ChunkRow) × (rows' : List ChunkRow) × (refill order
              probe_next build_next o
            ≡ ok o')
          × (nat_eq o'.buffer_ptr (length o'.buffer) ≡ false)
          × (get_elem? o'.buffer o'.buffer_ptr ≡ some row)
          × (rows ≡ row ∷ rows')
          × (o'.hash_table ≡ table)
          × Rest (record o' { buffer_ptr = o'.buffer_ptr + 1 }) rows')

  at_head :
      (o o' : HashJoinOperator P B) (rows : List ChunkRow) (cs : List Chunk)
      → refill order probe_next build_next o ≡ ok o'
      → IsBuilt o'
      → o'.buffer_ptr < length o'.buffer
      → Source o' cs
      → drop o'.buffer_ptr o'.buffer ++ rows_of (until_empty cs) ≡ rows
      → Turned o rows
  at_head o o' rows cs run built within source split =
      let (row, here, tail) = drop-get_elem? o'.buffer_ptr o'.buffer within in
      let next_place : o'.buffer_ptr + 1 ≡ suc o'.buffer_ptr = omega arith in
      inr (
        o',
        row,
        drop (suc o'.buffer_ptr) o'.buffer ++ rows_of (until_empty cs),
        run,
        ground (arith, within),
        here,
        sym split ∙ ap (λ l. l ++ rows_of (until_empty cs)) tail,
        built.0,
        (
          built,
          omega (arith, within),
          cs,
          source,
          ap (λ i. drop i o'.buffer ++ rows_of (until_empty cs)) next_place,
        ),
      )

  refill_kept :
      (o : HashJoinOperator P B)
      → (nat_eq o.buffer_ptr (length o.buffer) && not o.probe_child_exhausted) ≡ false
      → refill order probe_next build_next o ≡ ok o
  unfolding refill
  refill_kept o e = if_false _ _ _ e

  refill_asks :
      (o : HashJoinOperator P B) (b : Batch P)
      → nat_eq o.buffer_ptr (length o.buffer) ≡ true
      → o.probe_child_exhausted ≡ false
      → probe_next o.probe_child ≡ ok b
      → refill order probe_next build_next o
        ≡ ok (record o {
          buffer = b.chunk;
          buffer_ptr = 0;
          probe_child = b.rest;
          probe_child_exhausted = elim b.answer [ exhausted ↦ true | have_more_output ↦ false ];
        })
  unfolding refill
  refill_asks o b used held e = rw (used, held, e) refl

  -- The child is asked for a chunk.
  asked :
      (o : HashJoinOperator P B) (cs : List Chunk) (p : P)
      → IsBuilt o
      → nat_eq o.buffer_ptr (length o.buffer) ≡ true
      → o.probe_child_exhausted ≡ false
      → Produces probe_next o.probe_child cs p
      → Turned o (rows_of (until_empty cs))
  asked o _ p built used held (last {s' = s} [] e) = inl (
    record o { buffer = []; buffer_ptr = 0; probe_child = s; probe_child_exhausted = true },
    refill_asks o _ used held e,
    refl,
    refl,
  )
  asked o _ p built used held (last {s' = s} (row ∷ c) e) =
      at_head o
        (record o {
          buffer = row ∷ c;
          buffer_ptr = 0;
          probe_child = s;
          probe_child_exhausted = true;
        })
        (row ∷ c ++ []) [] (refill_asks o _ used held e) built (omega arith) (inl (refl, refl)) refl
  asked o _ p built used held (more {s' = s} [] {cs = cs} e rest) = inl (
    record o { buffer = []; buffer_ptr = 0; probe_child = s; probe_child_exhausted = false },
    refill_asks o _ used held e,
    refl,
    refl,
  )
  asked o _ p built used held (more {s' = s} (row ∷ c) {cs = cs} e rest) =
      at_head o
        (record o {
          buffer = row ∷ c;
          buffer_ptr = 0;
          probe_child = s;
          probe_child_exhausted = false;
        })
        (row ∷ c ++ rows_of (until_empty cs)) cs (refill_asks o _ used held e) built (omega arith)
        (inr (refl, p, rest)) refl

  pub turned : (o : HashJoinOperator P B) (rows : List ChunkRow) → Rest o rows → Turned o rows
  turned o rows (built, within, cs, source, split) =
      elim (Bool-cases (nat_eq o.buffer_ptr (length o.buffer))) [
        | inr e ↦
            at_head o o rows cs (refill_kept o (rw e refl)) built (ground (arith, e, within)) source
              split
        | inl e ↦
            let all_used : drop o.buffer_ptr o.buffer ≡ [] =
              ap (λ i. drop i o.buffer) ((nat_eq_iff _ _).0 e) ∙ drop-length o.buffer in
            let left : rows_of (until_empty cs) ≡ rows =
              ap (λ l. l ++ rows_of (until_empty cs)) (sym all_used) ∙ split in
            elim source [
              | inl (ended, none_left) ↦ inl (
                o,
                refill_kept o (rw (e, ended) refl),
                e,
                sym left ∙ ap (λ cs. rows_of (until_empty cs)) none_left,
              )
              | inr (held, p, chunks) ↦ subst (Turned o) left (asked o cs p built e held chunks)
            ]
      ]
