-- ===== src/Exec/Widths/Query.antt =====
-- src/execution: a query plan that passed its checks, and the schema of its output.
use babydb_private.Prelude.{
  ℕ, ◌+◌, ◌≡◌, ap, sym, ◌∙◌, subst, true, Option, List, [], ◌∷◌, ◌++◌, length, length-append, arith,
}
use babydb_private.Outcome.{ok, >>=-eq-ok}
use babydb_private.Schema.{Tuple, Schema}
use babydb_private.Filter.{Filter}
use babydb_private.Exec.Operator.{Chunk}
use babydb_private.Exec.Drain.{Produces, rows_of}
use babydb_private.Exec.Value
use babydb_private.Exec.Value.{ValueOperator, self_check-All}
use babydb_private.Exec.Filter as Selection
use babydb_private.Exec.Filter.{FilterOperator, make_filter_operator}
use babydb_private.Exec.Projection
use babydb_private.Exec.Projection.{
  Projection, ProjectionOperator, make_projection, init_projections,
}
use babydb_private.Exec.Join
use babydb_private.Exec.Join.{HashJoinOperator}
use babydb_private.Exec.Widths.{RowsFit, TuplesFit, Fits-Produces}
use babydb_private.Exec.Widths.Rows.{
  value-Fits, filter-Fits, projection-Fits, ProjectionTyped, ValueTyped, make_projection-in_place,
}
use babydb_private.Exec.Widths.Joins.{join-Fits}

length-init_projections :
    (schema : Schema) (ps ps' : List Projection)
    → init_projections schema ps ≡ ok ps'
    → length ps' ≡ length ps
unfolding init_projections
length-init_projections schema [] ps' h = ground (arith, h)
length-init_projections schema (p ∷ ps) ps' h =
    let (p', _, h1) = >>=-eq-ok (Projection.init p schema) _ {b = ps'} h in
    let (rest, run, h2) = >>=-eq-ok (init_projections schema ps) _ {b = ps'} h1 in
    ground (arith, h2, length-init_projections schema ps rest run)

self_init-kept :
    {S : Type 0} (o o' : ProjectionOperator S)
    → Projection.self_init o ≡ ok o'
    → (length o'.projections ≡ length o.projections)
      × (o'.child ≡ o.child)
      × (o'.output_schema ≡ o.output_schema)
unfolding Projection.self_init
self_init-kept o o' h =
    let (ps, run, h1) = >>=-eq-ok (init_projections o.child_schema o.projections) _ {b = o'} h in
    (
      ground (arith, h1, length-init_projections o.child_schema o.projections ps run),
      ground (arith, h1),
      ground (arith, h1),
    )

-- If the tuples of both sides pass the checks of their operators, and the hash table only orders
-- equal keys, then a join of a filter over the one with a projection that updates the other in place
-- hands out rows that have exactly one value for each column of its output schema, the columns of
-- the filter and then those of the projection.
pub query-RowsFit :
    (order : List Tuple → List Tuple) (fuel size : ℕ) (v u : ValueOperator) (fs : List Filter)
    (given : List (Option Projection)) (made ready : ProjectionOperator ValueOperator)
    (o : HashJoinOperator (FilterOperator ValueOperator) (ProjectionOperator ValueOperator))
    {cs : List Chunk}
    {end : HashJoinOperator (FilterOperator ValueOperator) (ProjectionOperator ValueOperator)}
    → ((width : ℕ) (ts : List Tuple) → TuplesFit width ts → TuplesFit width (order ts))
    → Value.self_check v ≡ ok tt
    → Value.self_check u ≡ ok tt
    → make_projection u u.output_schema given true ≡ ok made
    → Projection.self_init made ≡ ok ready
    → o.probe_child ≡ make_filter_operator v.output_schema v fs
    → o.build_child ≡ ready
    → Produces
        (Join.next order
          (Selection.next (Value.next size))
          (Projection.next (Value.next size))
          fuel
          size)
        (Join.self_init o)
        cs
        end
    → RowsFit (length (o.probe_child.output_schema ++ o.build_child.output_schema)) (rows_of cs)
unfolding Join.self_init make_filter_operator
query-RowsFit order fuel size v u fs given made ready o {cs} ordered checked_v checked_u constructed
      initialised probes builds run =
    let left = length v.output_schema in
    let right = length u.output_schema in
    let all =
      join-Fits order (filter-Fits (value-Fits left size))
        (projection-Fits (value-Fits right size) right) (ordered right) fuel size in
    let (count, columns, child) =
      make_projection-in_place u u.output_schema given made constructed in
    let (count', child', columns') = self_init-kept made ready initialised in
    let probe_typed : ValueTyped left o.probe_child.child =
      subst (ValueTyped left) (sym (ap (λ p. p.child) probes)) (self_check-All v checked_v) in
    let build_typed : ProjectionTyped (value-Fits right size) right o.build_child =
      subst (ProjectionTyped (value-Fits right size) right) (sym builds) (
        count' ∙ count,
        subst (ValueTyped right) (sym (child' ∙ child)) (self_check-All u checked_u),
      ) in
    let names = length-append o.probe_child.output_schema o.build_child.output_schema in
    let widths : left + right
        ≡ length (o.probe_child.output_schema ++ o.build_child.output_schema) =
      omega (
        arith,
        names,
        ap (λ (p : FilterOperator ValueOperator). length p.output_schema) probes,
        ap (λ (p : ProjectionOperator ValueOperator). length p.output_schema) builds,
        ap length (columns' ∙ columns),
      ) in
    subst (λ n. RowsFit n (rows_of cs)) widths
      (Fits-Produces all run (probe_typed, build_typed, tt, tt))
