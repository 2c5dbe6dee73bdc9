-- ===== src/Tests/Stores.antt =====
-- Inserting and updating the rows of a concrete table.
use babydb_private.Prelude.{ℕ, ◌++◌, ◌≡◌, refl, some, [], ◌∷◌, List, arith}
use babydb_private.Schema.{invalid_id, get_key_attrs, keys_from_tuple, key_from_tuple}
use babydb_private.Outcome.{ok}
use babydb_private.Assoc
use babydb_private.Table.{Table}
use babydb_private.Index.{Index, stlmap_index}
use babydb_private.Catalog.{Catalog, fetch_table}
use babydb_private.Exec.Operator.{Chunk, exhausted}
use babydb_private.Exec.Drain.{Produces, last, more}
use babydb_private.Exec.Value
use babydb_private.Exec.Value.{ValueOperator}
use babydb_private.Exec.Modify.{
  insert_row, InsertOperator, insert_next, UpdateOperator, update_next, index_of, input_attrs,
}
use babydb_private.Exec.Stored.{Store, read_inserts, insert_next_lem, read_updates, update_next_lem}

abbrev accounts : Table
accounts = record {
  name = "t";
  schema = "k" ∷ "value" ∷ [];
  rows = record { tuple = 1 ∷ 10 ∷ [] } ∷ [];
  index_name = "i";
}

abbrev accounts_index : Index
accounts_index = record {
  name = "i";
  table_name = "t";
  key_name = "k";
  contents = stlmap_index ((1, 0) ∷ []);
}

abbrev catalog : Catalog
catalog = record { tables = ("t", accounts) ∷ []; indexes = ("i", accounts_index) ∷ [] }

-- An `InsertRow` that appends the tuple.
abbrev append_row : Store
append_row rows tuple index key = rows ++ record { tuple = tuple } ∷ []

-- The columns stand in another order than the table's.
abbrev amounts : ℕ → ValueOperator
amounts n = record {
  output_schema = "amount" ∷ "id" ∷ [];
  tuples = (20 ∷ 7 ∷ []) ∷ (30 ∷ 8 ∷ []) ∷ [];
  next_tuple_id = n;
}

abbrev amount_chunks : List Chunk
amount_chunks = ((20 ∷ 7 ∷ [], invalid_id) ∷ []) ∷ ((30 ∷ 8 ∷ [], invalid_id) ∷ []) ∷ [] ∷ []

amounts-Produces : Produces (Value.next 1) (amounts 0) amount_chunks (amounts 2)
unfolding Value.next
amounts-Produces =
    more {s' = amounts 1} ((20 ∷ 7 ∷ [], invalid_id) ∷ []) refl
      (more {s' = amounts 2} ((30 ∷ 8 ∷ [], invalid_id) ∷ []) refl (last [] refl))

abbrev inserting : InsertOperator ValueOperator
inserting = record {
  table_name = "t";
  input_schema = "id" ∷ "amount" ∷ [];
  child_schema = "amount" ∷ "id" ∷ [];
  child = amounts 0;
}

insert_next_lem_example :
    (insert_next append_row (Value.next 1) catalog 3 inserting
      ≡ ok (
        record { tuple = 1 ∷ 10 ∷ [] }
            ∷ record { tuple = 7 ∷ 20 ∷ [] }
            ∷ record { tuple = 8 ∷ 30 ∷ [] }
            ∷ [],
        record { chunk = []; answer = exhausted; rest = record inserting { child = amounts 2 } },
      ))
    × (insert_next insert_row (Value.next 1) catalog 3 inserting
        ≡ ok (
          accounts.rows,
          record { chunk = []; answer = exhausted; rest = record inserting { child = amounts 2 } },
        ))
unfolding fetch_table get_key_attrs index_of read_inserts keys_from_tuple key_from_tuple Assoc.find
insert_next_lem_example =
    insert_next_lem append_row (Value.next 1) catalog 3 inserting accounts accounts_index
      (1 ∷ 0 ∷ []) 0 ((7 ∷ 20 ∷ [], 7) ∷ (8 ∷ 30 ∷ [], 8) ∷ []) refl refl refl amounts-Produces
      (omega arith) refl

-- The key of the first row is then its amount.
abbrev updating : UpdateOperator ValueOperator
updating = record {
  table_name = "t";
  input_schema = some ("id" ∷ "amount" ∷ []);
  child_schema = "amount" ∷ "id" ∷ [];
  child = amounts 0;
}

update_next_lem_example :
    (update_next append_row (Value.next 1) catalog 3 [] updating
      ≡ ok (
        record { tuple = 1 ∷ 10 ∷ [] }
            ∷ record { tuple = 20 ∷ 7 ∷ [] }
            ∷ record { tuple = 30 ∷ 8 ∷ [] }
            ∷ [],
        record { chunk = []; answer = exhausted; rest = record updating { child = amounts 2 } },
      ))
    × (update_next insert_row (Value.next 1) catalog 3 [] updating
        ≡ ok (
          accounts.rows,
          record { chunk = []; answer = exhausted; rest = record updating { child = amounts 2 } },
        ))
unfolding fetch_table input_attrs index_of read_updates key_from_tuple Assoc.find
update_next_lem_example =
    update_next_lem append_row (Value.next 1) catalog 3 [] updating accounts accounts_index
      (1 ∷ 0 ∷ []) 0 ((20 ∷ 7 ∷ [], 20) ∷ (30 ∷ 8 ∷ [], 30) ∷ []) refl refl refl amounts-Produces
      (omega arith) refl
