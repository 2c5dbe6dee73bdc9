-- ===== src/Tests/Joins.antt =====
-- A join of two lists of tuples.
use babydb_private.Prelude.{ℕ, ◌≡◌, refl, true, List, [], ◌∷◌, arith}
use babydb_private.Schema.{invalid_id, get_key_attr, key_from_tuple}
use babydb_private.Outcome.{ok}
use babydb_private.Exec.Operator.{Chunk, Next}
use babydb_private.Exec.Filter as Selection
use babydb_private.Exec.Filter.{FilterOperator, make_filter_operator, filter-Produces}
use babydb_private.Exec.Projection
use babydb_private.Exec.Projection.{ProjectionOperator, unit_projection, make_projection}
use babydb_private.Exec.Projected.{projection-Produces}
use babydb_private.Exec.Widths.{RowsFit}
use babydb_private.Exec.Widths.Query.{query-RowsFit}
use babydb_private.Exec.Drain.{Produces, last, more, rows_of}
use babydb_private.Exec.Value
use babydb_private.Exec.Value.{ValueOperator}
use babydb_private.Exec.Join
use babydb_private.Exec.Join.{HashJoinOperator}
use babydb_private.Exec.BuildSide.{but_last}
use babydb_private.Exec.ProbeSide.{join_rows}
use babydb_private.Exec.Joined.{join-Produces}

abbrev orders : ℕ → ValueOperator
orders n = record {
  output_schema = "u" ∷ "sum" ∷ [];
  tuples = (1 ∷ 10 ∷ []) ∷ (2 ∷ 20 ∷ []) ∷ (1 ∷ 5 ∷ []) ∷ [];
  next_tuple_id = n;
}

-- The user 3 comes with the last chunk.
abbrev users : ℕ → ValueOperator
users n = record {
  output_schema = "i" ∷ "age" ∷ [];
  tuples = (2 ∷ 30 ∷ []) ∷ (1 ∷ 40 ∷ []) ∷ (3 ∷ 50 ∷ []) ∷ [];
  next_tuple_id = n;
}

abbrev order_chunks : List Chunk
order_chunks =
    ((1 ∷ 10 ∷ [], invalid_id) ∷ (2 ∷ 20 ∷ [], invalid_id) ∷ [])
    ∷ ((1 ∷ 5 ∷ [], invalid_id) ∷ [])
    ∷ []

orders-Produces : Produces (Value.next 2) (orders 0) order_chunks (orders 3)
unfolding Value.next
orders-Produces =
    more {s' = orders 2} ((1 ∷ 10 ∷ [], invalid_id) ∷ (2 ∷ 20 ∷ [], invalid_id) ∷ []) refl
      (last ((1 ∷ 5 ∷ [], invalid_id) ∷ []) refl)

abbrev user_chunks : List Chunk
user_chunks =
    ((2 ∷ 30 ∷ [], invalid_id) ∷ (1 ∷ 40 ∷ [], invalid_id) ∷ [])
    ∷ ((3 ∷ 50 ∷ [], invalid_id) ∷ [])
    ∷ []

users-Produces : Produces (Value.next 2) (users 0) user_chunks (users 3)
unfolding Value.next
users-Produces =
    more {s' = users 2} ((2 ∷ 30 ∷ [], invalid_id) ∷ (1 ∷ 40 ∷ [], invalid_id) ∷ []) refl
      (last ((3 ∷ 50 ∷ [], invalid_id) ∷ []) refl)

abbrev by_user : HashJoinOperator ValueOperator ValueOperator
by_user = record {
  probe_column_name = "u";
  build_column_name = "i";
  probe_schema = "u" ∷ "sum" ∷ [];
  build_schema = "i" ∷ "age" ∷ [];
  hash_table = [];
  buffer = [];
  buffer_ptr = 0;
  probe_child_exhausted = true;
  hash_table_build = true;
  probe_child = orders 0;
  build_child = users 0;
}

join-Produces_example :
    (cs : List Chunk) × (o' : HashJoinOperator ValueOperator ValueOperator) × Produces
      (Join.next (λ ts. ts) (Value.next 2) (Value.next 2) 9 1)
      (Join.self_init by_user)
      cs
      o'
    × (rows_of cs
        ≡ (1 ∷ 10 ∷ 1 ∷ 40 ∷ [], invalid_id)
          ∷ (2 ∷ 20 ∷ 2 ∷ 30 ∷ [], invalid_id)
          ∷ (1 ∷ 5 ∷ 1 ∷ 40 ∷ [], invalid_id)
          ∷ [])
unfolding get_key_attr key_from_tuple join_rows Join.insert_rows but_last
join-Produces_example =
    join-Produces (λ ts. ts) (Value.next 2) (Value.next 2) by_user
      ((2, 2 ∷ 30 ∷ []) ∷ (1, 1 ∷ 40 ∷ []) ∷ []) 9 1 0 0 _ (omega arith) refl refl users-Produces
      orders-Produces (omega arith) (omega arith) refl refl

-- No projection is given, so both columns are passed on.
abbrev same_users : List ℕ → List ℕ → ProjectionOperator ValueOperator
same_users first second = record {
  output_schema = "i" ∷ "age" ∷ [];
  projections =
      record {
        keys_schema = "i" ∷ [];
        output_name = "i";
        key_attrs = first;
        calculation = unit_projection;
      }
      ∷ record {
        keys_schema = "age" ∷ [];
        output_name = "age";
        key_attrs = second;
        calculation = unit_projection;
      }
      ∷ [];
  child_schema = "i" ∷ "age" ∷ [];
  child = users 0;
}

users_made : make_projection (users 0) ("i" ∷ "age" ∷ []) [] true ≡ ok (same_users [] [])
unfolding make_projection
users_made = refl

users_ready : Projection.self_init (same_users [] []) ≡ ok (same_users (0 ∷ []) (1 ∷ []))
unfolding Projection.self_init get_key_attr
users_ready = refl

abbrev over_filter :
    HashJoinOperator (FilterOperator ValueOperator) (ProjectionOperator ValueOperator)
over_filter = record {
  probe_column_name = "u";
  build_column_name = "i";
  probe_schema = "u" ∷ "sum" ∷ [];
  build_schema = "i" ∷ "age" ∷ [];
  hash_table = [];
  buffer = [];
  buffer_ptr = 0;
  probe_child_exhausted = true;
  hash_table_build = true;
  probe_child = record { output_schema = "u" ∷ "sum" ∷ []; filters = []; child = orders 0 };
  build_child = same_users (0 ∷ []) (1 ∷ []);
}

checked_orders : Value.self_check (orders 0) ≡ ok tt
unfolding Value.self_check
checked_orders = refl

checked_users : Value.self_check (users 0) ≡ ok tt
unfolding Value.self_check
checked_users = refl

abbrev left_next : Next (FilterOperator ValueOperator)
left_next = Selection.next (Value.next 2)

abbrev right_next : Next (ProjectionOperator ValueOperator)
right_next = Projection.next (Value.next 2)

left-Produces :
    Produces left_next over_filter.probe_child order_chunks
      (record { output_schema = "u" ∷ "sum" ∷ []; filters = []; child = orders 3 })
unfolding Selection.passes
left-Produces =
    (filter-Produces (Value.next 2) ("u" ∷ "sum" ∷ []) [] (λ t. true) orders-Produces
      (refl, (refl, (refl, tt)))).0

right-Produces :
    Produces right_next over_filter.build_child user_chunks
      (record (same_users (0 ∷ []) (1 ∷ [])) { child = users 3 })
unfolding Projection.project
right-Produces =
    (projection-Produces (Value.next 2) ("i" ∷ "age" ∷ []) ("i" ∷ "age" ∷ [])
      (same_users (0 ∷ []) (1 ∷ [])).projections (λ t. t) users-Produces
      (refl, (refl, (refl, tt)))).0

abbrev query_rows : Chunk
query_rows =
    (1 ∷ 10 ∷ 1 ∷ 40 ∷ [], invalid_id)
    ∷ (2 ∷ 20 ∷ 2 ∷ 30 ∷ [], invalid_id)
    ∷ (1 ∷ 5 ∷ 1 ∷ 40 ∷ [], invalid_id)
    ∷ []

query_run :
    (cs : List Chunk) × (o' : HashJoinOperator
      (FilterOperator ValueOperator)
      (ProjectionOperator ValueOperator))
    × Produces (Join.next (λ ts. ts) left_next right_next 9 2) (Join.self_init over_filter) cs o'
    × (rows_of cs ≡ query_rows)
unfolding get_key_attr key_from_tuple join_rows Join.insert_rows but_last
query_run =
    join-Produces (λ ts. ts) left_next right_next over_filter
      ((2, 2 ∷ 30 ∷ []) ∷ (1, 1 ∷ 40 ∷ []) ∷ []) 9 2 0 0 query_rows (omega arith) refl refl
      right-Produces left-Produces (omega arith) (omega arith) refl refl

query-RowsFit_example : RowsFit 4 (rows_of query_run.0)
unfolding make_filter_operator
query-RowsFit_example =
    query-RowsFit (λ ts. ts) 9 2 (orders 0) (users 0) [] [] (same_users [] [])
      (same_users (0 ∷ []) (1 ∷ [])) over_filter (λ width ts fits. fits) checked_orders
      checked_users users_made users_ready refl refl query_run.2
