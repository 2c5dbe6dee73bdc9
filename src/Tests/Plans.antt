-- ===== src/Tests/Plans.antt =====
-- Operators of query plans on concrete rows.
use babydb_private.Prelude.{
  ℕ, ◌≡◌, refl, Bool, true, false, some, List, [], ◌∷◌, length, arith, map, get_elem?, nat_eq, ◌+◌,
  All,
}
use babydb_private.Outcome.{ok, deref, ◌>>=◌}
use babydb_private.Schema.{Tuple, invalid_id, get_key_attr, key_from_tuple}
use babydb_private.Filter.{Filter, equal_filter, check}
use babydb_private.Exec.Operator.{Chunk, ChunkRow}
use babydb_private.Exec.Drain.{Produces, last, more, rows_of}
use babydb_private.Exec.Value
use babydb_private.Exec.Value.{ValueOperator, with_ids, value-Produces}
use babydb_private.Exec.Filter as Selection
use babydb_private.Exec.Aggregate
use babydb_private.Exec.Sums.{build_hash_table_lem, IsSummary, read_pairs}
use babydb_private.Exec.Groups.{group_row, aggregate-Produces}
use babydb_private.Exec.Join
use babydb_private.Exec.BuildSide.{but_last, build_loop_lem}
use babydb_private.Exec.Projection

abbrev source : ValueOperator
source = record {
  output_schema = "k" ∷ "value" ∷ [];
  tuples = (1 ∷ 10 ∷ []) ∷ (2 ∷ 20 ∷ []) ∷ (1 ∷ 5 ∷ []) ∷ [];
  next_tuple_id = 7;
}

value-Produces_example :
    (cs : List Chunk) × (o' : ValueOperator) × Produces
      (Value.next 2)
      (Value.self_init source)
      cs
      o'
    × (rows_of cs ≡ with_ids source.tuples)
value-Produces_example = value-Produces 2 source (omega arith)

abbrev at_row : ℕ → ValueOperator
at_row n = record source { next_tuple_id = n }

abbrev row : ℕ → ℕ → ChunkRow
row k v = (k ∷ v ∷ [], invalid_id)

abbrev chunks : List Chunk
chunks = (row 1 10 ∷ row 2 20 ∷ []) ∷ (row 1 5 ∷ []) ∷ []

source-Produces : Produces (Value.next 2) (at_row 0) chunks (at_row 3)
unfolding Value.next
source-Produces = more {s' = at_row 2} (row 1 10 ∷ row 2 20 ∷ []) refl (last (row 1 5 ∷ []) refl)

abbrev first_is_one : Filter
first_is_one = record { keys_schema = "k" ∷ []; key_attrs = 0 ∷ []; condition = equal_filter 1 }

abbrev starts_with_one : Tuple → Bool
starts_with_one [] = false
starts_with_one (k ∷ _) = nat_eq k 1

source-All :
    All (λ r. Selection.passes (first_is_one ∷ []) r.0 ≡ ok (starts_with_one r.0)) (rows_of chunks)
unfolding Selection.passes check
source-All = (refl, (refl, (refl, tt)))

abbrev selecting : ValueOperator → Selection.FilterOperator ValueOperator
selecting s = record { output_schema = "k" ∷ "value" ∷ []; filters = first_is_one ∷ []; child = s }

filter-Produces_example :
    Produces
      (Selection.next (Value.next 2))
      (selecting (at_row 0))
      ((row 1 10 ∷ []) ∷ (row 1 5 ∷ []) ∷ [])
      (selecting (at_row 3))
    × ((row 1 10 ∷ row 1 5 ∷ []) ≡ row 1 10 ∷ row 1 5 ∷ [])
filter-Produces_example =
    Selection.filter-Produces (Value.next 2) ("k" ∷ "value" ∷ []) (first_is_one ∷ [])
      starts_with_one source-Produces source-All

abbrev summing : Aggregate.AggregateOperator ValueOperator
summing = record {
  group_by = "k";
  aggregate_column = "value";
  child_schema = "k" ∷ "value" ∷ [];
  hash_table = [];
  output_ptr = [];
  hash_table_build = true;
  child = at_row 0;
}

abbrev pairs : List (ℕ × ℕ)
pairs = (1, 10) ∷ (2, 20) ∷ (1, 5) ∷ []

build_hash_table_lem_example :
    (table : Aggregate.Sums) × (Aggregate.build_hash_table (λ t. t) (Value.next 2) 5 summing
      ≡ ok (record summing { hash_table = table; child = at_row 3 }))
    × IsSummary pairs table
unfolding get_key_attr read_pairs key_from_tuple
build_hash_table_lem_example =
    build_hash_table_lem (λ t. t) (Value.next 2) 5 0 1 summing pairs source-Produces (omega arith)
      refl refl refl refl (omega arith)

-- The last chunk, with the row of key 1 and value 5, is not in the table.
build_loop_lem_example :
    Join.build_loop (Value.next 2) 4 0 (at_row 0) []
    ≡ ok ((1, 1 ∷ 10 ∷ []) ∷ (2, 2 ∷ 20 ∷ []) ∷ [], at_row 3)
unfolding Join.insert_rows but_last key_from_tuple
build_loop_lem_example =
    build_loop_lem (Value.next 2) 4 0 [] ((1, 1 ∷ 10 ∷ []) ∷ (2, 2 ∷ 20 ∷ []) ∷ []) source-Produces
      (omega arith) refl

abbrev doubling : Projection.Projection
doubling = record {
  keys_schema = "value" ∷ [];
  output_name = "double";
  key_attrs = 1 ∷ [];
  calculation = Projection.ud_projection (λ keys. deref (get_elem? keys 0) >>= λ v. ok (v + v));
}

abbrev projecting : Projection.ProjectionOperator ValueOperator
projecting = record {
  output_schema = "k" ∷ "value" ∷ "double" ∷ [];
  projections = doubling ∷ [];
  child_schema = "k" ∷ "value" ∷ [];
  child = at_row 0;
}

projection_widths_example : length projecting.output_schema ≡ 2 + length {A = ℕ} (20 ∷ [])
unfolding Projection.make_projection Projection.project
projection_widths_example =
    Projection.projection_widths (at_row 0) ("k" ∷ "value" ∷ []) (some doubling ∷ []) projecting
      (1 ∷ 10 ∷ []) (20 ∷ []) refl refl

aggregate-Produces_example :
    (table : Aggregate.Sums) × IsSummary pairs table
    × (out : List Chunk) × (o' : Aggregate.AggregateOperator ValueOperator) × Produces
        (Aggregate.next (λ t. t) (Value.next 2) 5 2)
        (Aggregate.self_init summing)
        out
        o'
    × (rows_of out ≡ map group_row table)
unfolding get_key_attr read_pairs key_from_tuple
aggregate-Produces_example =
    aggregate-Produces (λ t. t) (Value.next 2) 5 2 0 1 summing pairs (omega arith) source-Produces
      (omega arith) refl refl refl (omega arith)
