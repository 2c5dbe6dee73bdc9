-- ===== src/Tests/Projections.antt =====
-- Projections on concrete rows.
use babydb_private.Prelude.{◌≡◌, refl, Bool, false, List, [], ◌∷◌, arith, map, nat_eq, All}
use babydb_private.Outcome.{ok}
use babydb_private.Schema.{Tuple}
use babydb_private.Filter.{Filter, equal_filter, check}
use babydb_private.Exec.Operator.{Chunk}
use babydb_private.Exec.Drain.{Produces, last, rows_of}
use babydb_private.Exec.Value
use babydb_private.Exec.Value.{ValueOperator, with_ids}
use babydb_private.Exec.Filter as Selection
use babydb_private.Exec.Filter.{FilterOperator, selects}
use babydb_private.Exec.Projection
use babydb_private.Exec.Projection.{Projection, ProjectionOperator, unit_projection, project}
use babydb_private.Exec.Projected.{replaces, projecting, projection-Produces}
use babydb_private.Exec.Pipeline.{pipeline-Produces}

abbrev sales : ValueOperator
sales = record {
  output_schema = "shop" ∷ "sum" ∷ [];
  tuples = (1 ∷ 10 ∷ []) ∷ (2 ∷ 20 ∷ []) ∷ (1 ∷ 5 ∷ []) ∷ [];
  next_tuple_id = 0;
}

abbrev only_sum : List Projection
only_sum =
    record {
      keys_schema = "sum" ∷ [];
      output_name = "sum";
      key_attrs = 1 ∷ [];
      calculation = unit_projection;
    }
    ∷ []

abbrev second : Tuple → Tuple
second (x ∷ y ∷ _) = y ∷ []
second _ = []

abbrev first_shop : List Filter
first_shop =
    record { keys_schema = "shop" ∷ []; key_attrs = 0 ∷ []; condition = equal_filter 1 } ∷ []

abbrev of_first_shop : Tuple → Bool
of_first_shop [] = false
of_first_shop (shop ∷ _) = nat_eq shop 1

-- One call hands out all three rows.
sales-Produces :
    Produces (Value.next 4) sales (with_ids sales.tuples ∷ []) (record sales { next_tuple_id = 3 })
unfolding Value.next with_ids
sales-Produces = last (with_ids sales.tuples) refl

sums-All :
    All (λ row. project only_sum row.0 ≡ ok (second row.0)) (rows_of (with_ids sales.tuples ∷ []))
unfolding project with_ids
sums-All = (refl, (refl, (refl, tt)))

projection-Produces_example :
    Produces
      (Projection.next (Value.next 4))
      (projecting (Value.next 4) ("sum" ∷ []) sales.output_schema only_sum second sales)
      (map (replaces second) (with_ids sales.tuples ∷ []))
      (projecting
        (Value.next 4)
        ("sum" ∷ [])
        sales.output_schema
        only_sum
        second
        (record sales { next_tuple_id = 3 }))
    × (rows_of (map (replaces second) (with_ids sales.tuples ∷ []))
        ≡ replaces second (rows_of (with_ids sales.tuples ∷ [])))
projection-Produces_example =
    projection-Produces (Value.next 4) ("sum" ∷ []) sales.output_schema only_sum second
      sales-Produces sums-All

shops-All :
    All
      (λ row. Selection.passes first_shop row.0 ≡ ok (of_first_shop row.0))
      (with_ids sales.tuples)
unfolding Selection.passes check with_ids
shops-All = (refl, (refl, (refl, tt)))

kept-All :
    All
      (λ row. project only_sum row.0 ≡ ok (second row.0))
      (selects of_first_shop (with_ids sales.tuples))
unfolding project with_ids
kept-All = (refl, (refl, tt))

pipeline-Produces_example :
    (cs : List Chunk) × (end : ProjectionOperator (FilterOperator ValueOperator)) × Produces
      (Projection.next (Selection.next (Value.next 1)))
      (record {
        output_schema = "sum" ∷ [];
        projections = only_sum;
        child_schema = sales.output_schema;
        child = record {
          output_schema = sales.output_schema;
          filters = first_shop;
          child = Value.self_init sales;
        };
      })
      cs
      end
    × (rows_of cs ≡ replaces second (selects of_first_shop (with_ids sales.tuples)))
pipeline-Produces_example =
    pipeline-Produces 1 sales sales.output_schema ("sum" ∷ []) sales.output_schema first_shop
      of_first_shop only_sum second (omega arith) shops-All kept-All
