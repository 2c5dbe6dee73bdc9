-- ===== src/Exec/Groups.antt =====
-- src/execution/aggregate_operator.cpp: what the operator hands out.
use babydb_private.Prelude.{
  ℕ, ◌<◌, ◌≤◌, ◌≡◌, refl, ap, true, none, some, List-cases, inl, inr, List, [], ◌∷◌, length, map,
  All, arith, ◌∙◌,
}
use babydb_private.Outcome.{ok}
use babydb_private.Schema.{invalid_id, word_mod, get_key_attr}
use babydb_private.Exec.Operator.{ChunkRow, Chunk, Next, emit}
use babydb_private.Exec.Drain.{Produces, rows_of, emit-Produces}
use babydb_private.Exec.Once.{Produces-emit, Produces-first}
use babydb_private.Exec.Aggregate.{Sums, AggregateOperator, self_init, aggregate_step, next}
use babydb_private.Exec.Sums.{read_pairs, IsSummary, build_hash_table_lem}

abbrev pub group_row : ℕ × ℕ → ChunkRow
group_row entry = (entry.0 ∷ entry.1 ∷ [], invalid_id)

module _ (order : Sums → Sums) {S : Type 0} (child_next : Next S) where
  abbrev Left : AggregateOperator S → List ChunkRow → Type 0
  Left o rows = rows ≡ map group_row o.output_ptr

  at_end : (o : AggregateOperator S) → Left o [] → aggregate_step order child_next o ≡ ok none
  unfolding aggregate_step
  at_end o h = elim (List-cases o.output_ptr) [
    | inl e ↦ rw e refl
    | inr (entry, rest, e) ↦ absurd (ground (arith, h, ap (map group_row) e))
  ]

  at_row :
      (o : AggregateOperator S) (row : ChunkRow) (rows : List ChunkRow)
      → Left o (row ∷ rows)
      → (o' : AggregateOperator S) × (aggregate_step order child_next o ≡ ok (some (row, o')))
        × Left o' rows
  unfolding aggregate_step
  at_row o row rows h = elim (List-cases o.output_ptr) [
    | inl e ↦ absurd (ground (arith, h, ap (map group_row) e))
    | inr (entry, rest, e) ↦
        let split : row ∷ rows ≡ group_row entry ∷ map group_row rest = h ∙ ap (map group_row) e in
        (record o { output_ptr = rest }, rw e (ground (arith, split)), ground (arith, split))
  ]

  kept :
      (o : AggregateOperator S) (row : ChunkRow) (o' : AggregateOperator S)
      → o.hash_table_build ≡ true
      → aggregate_step order child_next o ≡ ok (some (row, o'))
      → o'.hash_table_build ≡ true
  unfolding aggregate_step
  kept o row o' built h = elim (List-cases o.output_ptr) [
    | inl e ↦ absurd (ground (arith, rw e at h))
    | inr (entry, rest, e) ↦ ground (arith, built, rw e at h)
  ]

  next-emit :
      (fuel room : ℕ) (o : AggregateOperator S)
      → o.hash_table_build ≡ true
      → next order child_next fuel room o ≡ emit (aggregate_step order child_next) room o
  unfolding next
  next-emit fuel room o built = rw built refl

  -- Under the conditions on which the hash table is built, and with chunks of at least one row, the
  -- operator is exhausted after finitely many calls from `Init` on, and has then handed out one row
  -- for each entry of the table, its group and its sum, in the order of the hash table.
  pub aggregate-Produces :
      (fuel room ga va : ℕ) (o : AggregateOperator S) {s' : S} {cs : List Chunk} (ps : List (ℕ × ℕ))
      → 0 < room
      → Produces child_next o.child cs s'
      → length cs ≤ fuel
      → get_key_attr o.child_schema o.group_by ≡ ok ga
      → get_key_attr o.child_schema o.aggregate_column ≡ ok va
      → read_pairs ga va (rows_of cs) ≡ ok ps
      → All (λ p. p.1 < word_mod) ps
      → (table : Sums) × IsSummary ps table
        × (out : List Chunk) × (o' : AggregateOperator S) × Produces
            (next order child_next fuel room)
            (self_init o)
            out
            o'
        × (rows_of out ≡ map group_row (order table))
  unfolding self_init
  aggregate-Produces fuel room ga va o {s'} {cs} ps pos produced enough eg ev read small =
      let flagged : AggregateOperator S = record (self_init o) { hash_table_build = true } in
      let (table, run, summary) =
        build_hash_table_lem order child_next fuel ga va flagged ps produced enough refl eg ev read
          small in
      let ready : AggregateOperator S = record flagged {
        hash_table = table;
        child = s';
        output_ptr = order table;
      } in
      let (out, o', p, joined) =
        emit-Produces (aggregate_step order child_next) Left at_end at_row room ready
          (map group_row (order table)) pos refl in
      let later =
        Produces-emit (aggregate_step order child_next) (λ a. a.hash_table_build ≡ true) kept room
          (next order child_next fuel room) (next-emit fuel room) {s = ready} refl p in
      (
        table,
        summary,
        out,
        o',
        Produces-first (next order child_next fuel room) {t = ready}
            (unfold next in rw (run, next) refl) later,
        joined,
      )
