-- ===== src/Exec/Projected.antt =====
-- src/execution/projection_operator.cpp: the rows that a projection hands out.
use babydb_private.Prelude.{
  ◌≡◌, refl, ap, sym, ◌∙◌, List, [], ◌∷◌, ◌++◌, map, append-nil, All, All-split,
}
use babydb_private.Outcome.{ok}
use babydb_private.Schema.{Tuple, Schema}
use babydb_private.Exec.Operator.{Chunk, Batch, Next}
use babydb_private.Exec.Drain.{Produces, last, more, rows_of}
use babydb_private.Exec.Projection.{Projection, ProjectionOperator, project, project_rows, next}

-- The tuple is replaced and the row id kept.
abbrev pub replaces : (Tuple → Tuple) → Chunk → Chunk
replaces p [] = []
replaces p ((t, id) ∷ rows) = (p t, id) ∷ replaces p rows

replaces-append :
    (p : Tuple → Tuple) (xs ys : Chunk) → replaces p (xs ++ ys) ≡ replaces p xs ++ replaces p ys
replaces-append p [] ys = refl
replaces-append p ((t, id) ∷ xs) ys = ap (◌∷◌ (p t, id)) (replaces-append p xs ys)

project_rows-replaces :
    (ps : List Projection) (p : Tuple → Tuple) (rows : Chunk)
    → All (λ row. project ps row.0 ≡ ok (p row.0)) rows
    → project_rows ps rows ≡ ok (replaces p rows)
unfolding project_rows
project_rows-replaces ps p [] h = refl
project_rows-replaces ps p ((t, id) ∷ rows) h = rw (h.0, project_rows-replaces ps p rows h.1) refl

module _ {S : Type 0} (child_next : Next S) (schema child_schema : Schema) (ps : List Projection)
    (p : Tuple → Tuple) where
  abbrev pub projecting : S → ProjectionOperator S
  projecting s = record {
    output_schema = schema;
    projections = ps;
    child_schema = child_schema;
    child = s;
  }

  next-ok :
      (s : S) (b : Batch S)
      → child_next s ≡ ok b
      → All (λ row. project ps row.0 ≡ ok (p row.0)) b.chunk
      → next child_next (projecting s)
        ≡ ok (record { chunk = replaces p b.chunk; answer = b.answer; rest = projecting b.rest })
  unfolding next
  next-ok s b e h = rw (e, project_rows-replaces ps p b.chunk h) refl

  -- If the projections compute on every row that the child hands out, and `p` says what, then the
  -- operator hands out those values for each of the child's rows, in order and with their row ids; it
  -- makes one chunk of each chunk of the child and is exhausted when the child is.
  pub projection-Produces :
      {s s' : S} {cs : List Chunk}
      → Produces child_next s cs s'
      → All (λ row. project ps row.0 ≡ ok (p row.0)) (rows_of cs)
      → Produces (next child_next) (projecting s) (map (replaces p) cs) (projecting s')
        × (rows_of (map (replaces p) cs) ≡ replaces p (rows_of cs))
  projection-Produces {s = s} {s' = s'} (last c e) h = (
    last {s' = projecting s'} (replaces p c) (next-ok s _ e (rw append-nil at h)),
    rw (append-nil c) (append-nil (replaces p c)),
  )
  projection-Produces {s = s} (more {s' = t} c {cs = cs} e rest) h =
      let (mine, others) = All-split _ c (rows_of cs) h in
      let (q, joined) = projection-Produces rest others in
      (
        more {s' = projecting t} (replaces p c) (next-ok s _ e mine) q,
        ap (◌++◌ (replaces p c)) joined ∙ sym (replaces-append p c (rows_of cs)),
      )
