-- ===== src/Exec/Pipeline.antt =====
-- src/execution: a projection over a filter over given tuples.
use babydb_private.Prelude.{ℕ, ◌<◌, ◌≡◌, sym, ◌∙◌, ap, subst, Bool, List, map, All}
use babydb_private.Outcome.{ok}
use babydb_private.Schema.{Tuple, Schema}
use babydb_private.Filter.{Filter}
use babydb_private.Exec.Operator.{Chunk}
use babydb_private.Exec.Drain.{Produces, rows_of}
use babydb_private.Exec.Value
use babydb_private.Exec.Value.{ValueOperator, with_ids, value-Produces}
use babydb_private.Exec.Filter as Selection
use babydb_private.Exec.Filter.{FilterOperator, passes, selects, above, filter-Produces}
use babydb_private.Exec.Projection
use babydb_private.Exec.Projection.{Projection, ProjectionOperator, project}
use babydb_private.Exec.Projected.{replaces, projecting, projection-Produces}

-- Over given tuples, on each of which the filters decide, and on those that pass the projections
-- compute, a projection over a filter is exhausted after finitely many calls of `Next` with chunks of
-- at least one row, and has then handed out one row for each tuple that passes, in order.
pub pipeline-Produces :
    (chunk_size : ℕ) (o : ValueOperator) (filter_schema schema child_schema : Schema)
    (fs : List Filter) (q : Tuple → Bool) (ps : List Projection) (p : Tuple → Tuple)
    → 0 < chunk_size
    → All (λ row. passes fs row.0 ≡ ok (q row.0)) (with_ids o.tuples)
    → All (λ row. project ps row.0 ≡ ok (p row.0)) (selects q (with_ids o.tuples))
    → (cs : List Chunk) × (end : ProjectionOperator (FilterOperator ValueOperator)) × Produces
        (Projection.next (Selection.next (Value.next chunk_size)))
        (record {
          output_schema = schema;
          projections = ps;
          child_schema = child_schema;
          child = record { output_schema = filter_schema; filters = fs; child = Value.self_init o };
        })
        cs
        end
      × (rows_of cs ≡ replaces p (selects q (with_ids o.tuples)))
pipeline-Produces chunk_size o filter_schema schema child_schema fs q ps p pos decided computed =
    let (cs, o', values, rows) = value-Produces chunk_size o pos in
    let decided' = subst (All (λ row. passes fs row.0 ≡ ok (q row.0))) (sym rows) decided in
    let (kept, kept_rows) =
      filter-Produces (Value.next chunk_size) filter_schema fs q values decided' in
    let kept_all = kept_rows ∙ ap (selects q) rows in
    let computed' = subst (All (λ row. project ps row.0 ≡ ok (p row.0))) (sym kept_all) computed in
    let (made, made_rows) =
      projection-Produces (Selection.next (Value.next chunk_size)) schema child_schema ps p kept
        computed' in
    (
      map (replaces p) (map (selects q) cs),
      projecting (Selection.next (Value.next chunk_size)) schema child_schema ps p
          (above (Value.next chunk_size) filter_schema fs q o'),
      made,
      made_rows ∙ ap (replaces p) kept_all,
    )
