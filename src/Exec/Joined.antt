-- ===== src/Exec/Joined.antt =====
-- src/execution/hash_join_operator.cpp: the whole output of a join.
use babydb_private.Prelude.{
  ℕ, zero, suc, ◌≤◌, ◌<◌, ◌≡◌, refl, ap, ◌∙◌, String, true, false, List, [], ◌∷◌, ◌++◌, append-nil,
  length, arith, inl, inr,
}
use babydb_private.Outcome.{ok}
use babydb_private.Schema.{Tuple, Schema, get_key_attr}
use babydb_private.Exec.Operator.{ChunkRow, Chunk, Next}
use babydb_private.Exec.Drain.{Produces, last, more, rows_of}
use babydb_private.Exec.Once.{Produces-first}
use babydb_private.Exec.Join.{
  Builds, HashJoinOperator, insert_rows, build_hash_table, probe_loop, next, self_init,
}
use babydb_private.Exec.BuildSide.{but_last, build_loop_lem}
use babydb_private.Exec.ProbeSide.{until_empty, join_rows, Rest}
use babydb_private.Exec.ProbeLoop.{looped}

module _ (order : List Tuple → List Tuple) {P B : Type 0} (probe_next : Next P)
    (build_next : Next B) (table : Builds) (schema : Schema) (column : String) (size attr : ℕ) where
  next-run :
      (fuel : ℕ) (o : HashJoinOperator P B) (rows : List ChunkRow)
      → get_key_attr schema column ≡ ok attr
      → Rest order probe_next build_next table schema column o rows
      → next order probe_next build_next fuel size o
        ≡ probe_loop order probe_next build_next fuel size attr o []
  unfolding next
  next-run fuel o rows found (built, _, _, _, _) = rw (built.1, built.2, built.3, found) refl

  abbrev Handed : ℕ → HashJoinOperator P B → Chunk → Type 0
  Handed fuel o result =
      (cs : List Chunk) × (o' : HashJoinOperator P B) × Produces
        (next order probe_next build_next fuel size) o cs o'
      × (rows_of cs ≡ result)

  outputs_add_up :
      (k fuel : ℕ) (o : HashJoinOperator P B) (rows : List ChunkRow) (result : Chunk)
      → 0 < size
      → get_key_attr schema column ≡ ok attr
      → length rows < k
      → length rows < fuel
      → Rest order probe_next build_next table schema column o rows
      → join_rows order table attr rows ≡ ok result
      → Handed fuel o result
  outputs_add_up zero fuel o rows result pos found less lt coming h = absurd (omega arith)
  outputs_add_up (suc k) fuel o rows result pos found less lt coming h =
      let start = next-run fuel o rows found coming in
      elim (looped order probe_next build_next table schema column size attr fuel o rows [] result
        lt coming h) [
          | inl (o', ended) ↦
              (result ∷ [], o', last {s' = o'} result (start ∙ ended), append-nil result)
          | inr (o', rows', front, result', partly, coming', later, parts, fewer) ↦
              let some_used : suc (length rows') ≤ length rows = ground (arith, pos, fewer) in
              let (cs, o'', p, joined_up) =
                outputs_add_up k fuel o' rows' result' pos found (omega (arith, less, some_used))
                  (omega (arith, lt, some_used)) coming' later in
              (
                front ∷ cs,
                o'',
                more {s' = o'} front (start ∙ partly) p,
                ap (λ c. front ++ c) joined_up ∙ parts,
              )
        ]

-- If both children are exhausted after some chunks, the build rows and the probe rows have the
-- columns of the join, and the fuel allows for the chunks of the build child and the rows of the
-- probe child, then with chunks of at least one row the join is exhausted after finitely many calls
-- from `Init` on, and has then handed out, for each probe row in order, its pairs with every build
-- row of the same key; but only for the probe rows before the first empty chunk, and without the
-- build rows of the last chunk.
pub join-Produces :
    (order : List Tuple → List Tuple) {P B : Type 0} (probe_next : Next P) (build_next : Next B)
    (o : HashJoinOperator P B) (table : Builds) (fuel size build_attr attr : ℕ) {p : P} {b : B}
    {probes builds : List Chunk} (result : Chunk)
    → 0 < size
    → get_key_attr o.build_schema o.build_column_name ≡ ok build_attr
    → get_key_attr o.probe_schema o.probe_column_name ≡ ok attr
    → Produces build_next o.build_child builds b
    → Produces probe_next o.probe_child probes p
    → length builds ≤ fuel
    → length (rows_of (until_empty probes)) < fuel
    → insert_rows build_attr (rows_of (but_last builds)) [] ≡ ok table
    → join_rows order table attr (rows_of (until_empty probes)) ≡ ok result
    → (cs : List Chunk) × (o' : HashJoinOperator P B) × Produces
        (next order probe_next build_next fuel size)
        (self_init o)
        cs
        o'
      × (rows_of cs ≡ result)
unfolding self_init
join-Produces order {P} {B} probe_next build_next o table fuel size build_attr attr {p} {b} {probes}
      {builds} result pos build_found found built probed enough lt inserted h =
    let start : HashJoinOperator P B = record o {
      hash_table = table;
      buffer = [];
      buffer_ptr = 0;
      probe_child_exhausted = false;
      hash_table_build = true;
      build_child = b;
    } in
    let rows = rows_of (until_empty probes) in
    let (cs, o', produced, whole) =
      outputs_add_up order probe_next build_next table o.probe_schema o.probe_column_name size attr
        (suc (length rows)) fuel start rows result pos found (omega arith) lt
        ((refl, refl, refl, refl), omega arith, probes, inr (refl, p, probed), refl) h in
    let loop = build_loop_lem build_next fuel build_attr [] table built enough inserted in
    (
      cs,
      o',
      Produces-first (next order probe_next build_next fuel size) {t = start}
          (unfold next build_hash_table in rw (build_found, loop, found) refl) produced,
      whole,
    )
