-- ===== src/Exec/ProbeLoop.antt =====
-- src/execution/hash_join_operator.cpp: the loop of `Next` over the probe rows.
use babydb_private.Prelude.{
  ℕ, zero, suc, ◌+◌, ◌≤◌, ◌<◌, ◌≡◌, refl, ap, sym, ◌∙◌, String, true, false, some, List, [], ◌∷◌,
  ◌++◌, append_assoc, append-nil, length, get_elem?, nat_eq, ltb, if◌then◌else◌, if_true, if_false,
  arith, Bool-cases, ◌⊎◌, inl, inr,
}
use babydb_private.Outcome.{Outcome, ok, >>=-eq-ok}
use babydb_private.Schema.{Tuple, Schema, key_from_tuple}
use babydb_private.Exec.Operator.{
  OperatorState, ChunkRow, Chunk, have_more_output, exhausted, Batch, Next,
}
use babydb_private.Exec.Join.{Builds, HashJoinOperator, refill, joined, probe_loop}
use babydb_private.Exec.ProbeSide.{pairs, join_rows, Rest, turned}

module _ (order : List Tuple → List Tuple) {P B : Type 0} (probe_next : Next P)
    (build_next : Next B) (table : Builds) (schema : Schema) (column : String) (size attr : ℕ) where
  abbrev Coming : HashJoinOperator P B → List ChunkRow → Type 0
  Coming o rows = Rest order probe_next build_next table schema column o rows

  -- What the loop of `Next` makes of the rows to come: all of the result, or a part of it, with some
  -- row used up if the chunk was not full at the start.
  abbrev Looped : Outcome (Batch (HashJoinOperator P B)) → Chunk → List ChunkRow → Chunk → Type 0
  Looped run out rows result =
      ((o' : HashJoinOperator P B) × (run
          ≡ ok (record { chunk = out ++ result; answer = exhausted; rest = o' })))
      ⊎ ((o' : HashJoinOperator P B) × (rows' : List ChunkRow) × (front : Chunk) × (result' : Chunk)
          × (run ≡ ok (record { chunk = out ++ front; answer = have_more_output; rest = o' }))
          × Coming o' rows'
          × (join_rows order table attr rows' ≡ ok result')
          × (front ++ result' ≡ result)
          × (length rows' + (if ltb (length out) size then 1 else 0) ≤ length rows))

  joined-pairs :
      (o : HashJoinOperator P B) (key : ℕ) (t : Tuple)
      → o.hash_table ≡ table
      → joined order probe_next build_next o key t ≡ pairs order table key t
  unfolding joined
  joined-pairs o key t e = rw e refl

  abbrev run : ℕ → HashJoinOperator P B → Chunk → Outcome (Batch (HashJoinOperator P B))
  run fuel o out = probe_loop order probe_next build_next fuel size attr o out

  run_full :
      (fuel : ℕ) (o : HashJoinOperator P B) (out : Chunk)
      → ltb (length out) size ≡ false
      → run (suc fuel) o out ≡ ok (record { chunk = out; answer = have_more_output; rest = o })
  unfolding probe_loop
  run_full fuel o out e = if_false _ _ _ e

  run_end :
      (fuel : ℕ) (o o' : HashJoinOperator P B) (out : Chunk)
      → ltb (length out) size ≡ true
      → refill order probe_next build_next o ≡ ok o'
      → nat_eq o'.buffer_ptr (length o'.buffer) ≡ true
      → run (suc fuel) o out ≡ ok (record { chunk = out; answer = exhausted; rest = o' })
  unfolding probe_loop
  run_end fuel o o' out e filled used = if_true _ _ _ e ∙ rw filled (if_true _ _ _ used)

  run_row :
      (fuel : ℕ) (o o' : HashJoinOperator P B) (out : Chunk) (row : ChunkRow) (key : ℕ)
      → ltb (length out) size ≡ true
      → refill order probe_next build_next o ≡ ok o'
      → nat_eq o'.buffer_ptr (length o'.buffer) ≡ false
      → get_elem? o'.buffer o'.buffer_ptr ≡ some row
      → key_from_tuple row.0 attr ≡ ok key
      → o'.hash_table ≡ table
      → run (suc fuel) o out
        ≡ run fuel
            (record o' { buffer_ptr = o'.buffer_ptr + 1 })
            (out ++ pairs order table key row.0)
  unfolding probe_loop
  run_row fuel o o' out row key e filled unused here keyed same =
      if_true _ _ _ e
      ∙ rw filled (
          if_false _ _ _ unused
          ∙ rw (here, keyed)
              (ap (λ c. run fuel (record o' { buffer_ptr = o'.buffer_ptr + 1 }) (out ++ c))
                (joined-pairs o' key row.0 same)))

  join_rows-ok :
      (row : ChunkRow) (rows : List ChunkRow) (result : Chunk)
      → join_rows order table attr (row ∷ rows) ≡ ok result
      → (key : ℕ) × (rest : Chunk) × (key_from_tuple row.0 attr ≡ ok key)
        × (join_rows order table attr rows ≡ ok rest)
        × (pairs order table key row.0 ++ rest ≡ result)
  unfolding join_rows
  join_rows-ok row rows result h =
      let (key, e, h1) = >>=-eq-ok (key_from_tuple row.0 attr) _ {b = result} h in
      let (rest, e', h2) = >>=-eq-ok (join_rows order table attr rows) _ {b = result} h1 in
      (key, rest, e, e', ground arith)

  join_rows-nil :
      (rows : List ChunkRow) (result : Chunk)
      → rows ≡ []
      → join_rows order table attr rows ≡ ok result
      → result ≡ []
  unfolding join_rows
  join_rows-nil [] result e h = ground (arith, h)
  join_rows-nil (row ∷ rows) result e h = absurd (ground (arith, e))

  abbrev batch :
      OperatorState → HashJoinOperator P B → Chunk → Outcome (Batch (HashJoinOperator P B))
  batch answer o c = ok (record { chunk = c; answer = answer; rest = o })

  pub looped :
      (fuel : ℕ) (o : HashJoinOperator P B) (rows : List ChunkRow) (out result : Chunk)
      → length rows < fuel
      → Coming o rows
      → join_rows order table attr rows ≡ ok result
      → Looped (run fuel o out) out rows result
  looped zero o rows out result lt coming h = absurd (omega arith)
  looped (suc fuel) o rows out result lt coming h = elim (Bool-cases (ltb (length out) size)) [
    | inr e ↦ inr (
      o,
      rows,
      [],
      result,
      run_full fuel o out e ∙ ap (batch have_more_output o) (sym (append-nil out)),
      coming,
      h,
      refl,
      rw e (omega arith),
    )
    | inl e ↦ elim (turned order probe_next build_next table schema column o rows coming) [
      | inl (o', filled, used, none_left) ↦ inl (
        o',
        run_end fuel o o' out e filled used
            ∙ ap (batch exhausted o') (
                sym (append-nil out)
                ∙ ap (λ c. out ++ c) (sym (join_rows-nil rows result none_left h))),
      )
      | inr (o', row, rows', filled, unused, here, split, same, coming') ↦
          let (key, rest, keyed, later, whole) = join_rows-ok row rows' result (rw split at h) in
          let found = pairs order table key row.0 in
          let step = run_row fuel o o' out row key e filled unused here keyed same in
          elim (looped fuel (record o' { buffer_ptr = o'.buffer_ptr + 1 }) rows'
            (out ++ pairs order table key row.0) rest (omega (arith, lt, ap length split)) coming'
            later) [
              | inl (o'', ended) ↦ inl (
                o'',
                step
                    ∙ ended
                    ∙ ap (batch exhausted o'')
                        (append_assoc out found rest ∙ ap (λ c. out ++ c) whole),
              )
              | inr (o'', rows'', front, result', partly, coming'', later', parts, fewer) ↦ inr (
                o'',
                rows'',
                pairs order table key row.0 ++ front,
                result',
                step ∙ partly ∙ ap (batch have_more_output o'') (append_assoc out found front),
                coming'',
                later',
                append_assoc found front result' ∙ ap (λ c. found ++ c) parts ∙ whole,
                rw e (omega (arith, fewer, ap length split)),
              )
            ]
    ]
  ]
