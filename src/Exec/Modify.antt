-- ===== src/Exec/Modify.antt =====
-- src/execution/insert_operator.cpp, update_operator.cpp, delete_operator.cpp and
-- execution_common.cpp: the operators that hand rows to `InsertRow`.
use babydb_private.Prelude.{
  ℕ, String, not, Option, none, some, List, [], ◌∷◌, ◌++◌, nat_eq, str_eq, if◌then◌else◌, length,
}
use babydb_private.Outcome.{Outcome, ok, throws, schema_mismatch, disallowed, throw_if, ◌>>=◌, ◌>>◌}
use babydb_private.Schema.{
  Tuple, Schema, invalid_name, key_from_tuple, keys_from_tuple, get_key_attr, get_key_attrs,
}
use babydb_private.Table.{Table, Row}
use babydb_private.Index.{Index}
use babydb_private.Catalog.{Catalog, fetch_table, fetch_index}
use babydb_private.Exec.Operator.{Chunk, exhausted, Batch, Next}
use babydb_private.Exec.Aggregate.{drain}

-- The rows of the table after a call; the body of `InsertRow` is empty. The operators below are
-- modelled over any function in its place, and are the repository's with this one.
unfoldable pub insert_row : List Row → Tuple → Index → ℕ → List Row
insert_row rows tuple index key = rows

pub record InsertOperator (S : Type 0) : Type 0 where
  pub table_name : String
  pub input_schema : Schema
  pub child_schema : Schema
  pub child : S

-- The two constructors: without an input schema it is the child's.
unfoldable pub make_insert_operator : {S : Type 0} → String → Schema → S → InsertOperator S
make_insert_operator table_name child_schema child = record {
  table_name = table_name;
  input_schema = child_schema;
  child_schema = child_schema;
  child = child;
}

unfoldable pub make_insert_operator_with :
    {S : Type 0} → String → Schema → Schema → S → InsertOperator S
make_insert_operator_with table_name input_schema child_schema child = record {
  table_name = table_name;
  input_schema = input_schema;
  child_schema = child_schema;
  child = child;
}

unfoldable pub insert_check : {S : Type 0} → Catalog → InsertOperator S → Outcome (Unit {0})
unfolding fetch_table get_key_attrs
insert_check c o = do
  table ← fetch_table c o.table_name
  throw_if (not (nat_eq (length o.input_schema) (length table.schema))) schema_mismatch
  _ ← get_key_attrs o.child_schema o.input_schema
  ok tt

-- The table's index, and the place of its key in a tuple of the table.
unfoldable pub index_of : Catalog → Table → Outcome (Index × ℕ)
unfolding fetch_index get_key_attr
index_of c table =
    if not (str_eq table.index_name invalid_name)
    then (fetch_index c table.index_name >>= λ index.
        get_key_attr table.schema index.key_name >>= λ attr. ok (index, attr))
    else throws disallowed

-- The loop over one chunk of input; the accumulator is the rows of the table, and `store` is
-- `InsertRow`.
unfoldable pub insert_chunk :
    (List Row → Tuple → Index → ℕ → List Row)
    → List ℕ
    → Index
    → ℕ
    → Chunk
    → List Row
    → Outcome (List Row)
unfolding keys_from_tuple key_from_tuple
insert_chunk store key_attrs index attr [] rows = ok rows
insert_chunk store key_attrs index attr ((t, id) ∷ chunk) rows = do
  insert_tuple ← keys_from_tuple t key_attrs
  key ← key_from_tuple insert_tuple attr
  insert_chunk store key_attrs index attr chunk (store rows insert_tuple index key)

-- What a modifying `Next` leaves: the rows of the table and the batch.
module _ (store : List Row → Tuple → Index → ℕ → List Row) {S : Type 0} (child_next : Next S) where
  unfoldable pub insert_next :
      Catalog → ℕ → InsertOperator S → Outcome (List Row × Batch (InsertOperator S))
  unfolding fetch_table get_key_attrs index_of drain insert_chunk
  insert_next c fuel o = do
    table ← fetch_table c o.table_name
    key_attrs ← get_key_attrs o.child_schema o.input_schema
    target ← index_of c table
    result ←
        drain child_next (insert_chunk store key_attrs target.0 target.1) fuel o.child table.rows
    ok (result.0, record { chunk = []; answer = exhausted; rest = record o { child = result.1 } })

-- `table_name` is the child's `BindTableName`.
pub record UpdateOperator (S : Type 0) : Type 0 where
  pub table_name : String
  pub input_schema : Option Schema
  pub child_schema : Schema
  pub child : S

unfoldable pub make_update_operator :
    {S : Type 0} → String → Option Schema → Schema → S → UpdateOperator S
make_update_operator table_name input_schema child_schema child = record {
  table_name = table_name;
  input_schema = input_schema;
  child_schema = child_schema;
  child = child;
}

unfoldable pub update_check : {S : Type 0} → Catalog → UpdateOperator S → Outcome (Unit {0})
unfolding fetch_table get_key_attrs
update_check c o = do
  table ← fetch_table c o.table_name
  elim o.input_schema [
    | some input_schema ↦
        throw_if (not (nat_eq (length input_schema) (length table.schema))) schema_mismatch >>= λ _.
        get_key_attrs o.child_schema input_schema >>= λ _. ok tt
    | none ↦ throw_if (not (nat_eq (length o.child_schema) (length table.schema))) schema_mismatch
  ]

-- The rows as the child hands them out; the positions of the input schema are not used.
unfoldable pub update_chunk :
    (List Row → Tuple → Index → ℕ → List Row) → Index → ℕ → Chunk → List Row → Outcome (List Row)
unfolding key_from_tuple
update_chunk store index attr [] rows = ok rows
update_chunk store index attr ((t, id) ∷ chunk) rows = do
  key ← key_from_tuple t attr
  update_chunk store index attr chunk (store rows t index key)

unfoldable pub input_attrs : Schema → Option Schema → Outcome (List ℕ)
unfolding get_key_attrs
input_attrs child_schema none = ok []
input_attrs child_schema (some input_schema) = get_key_attrs child_schema input_schema

-- `Next` does not touch the output chunk that it is given, here `output_chunk`.
module _ (store : List Row → Tuple → Index → ℕ → List Row) {S : Type 0} (child_next : Next S) where
  unfoldable pub update_next :
      Catalog → ℕ → Chunk → UpdateOperator S → Outcome (List Row × Batch (UpdateOperator S))
  unfolding fetch_table input_attrs index_of drain update_chunk
  update_next c fuel output_chunk o = do
    table ← fetch_table c o.table_name
    key_attrs ← input_attrs o.child_schema o.input_schema
    target ← index_of c table
    fetched ← drain child_next (λ chunk all. ok (all ++ chunk)) fuel o.child []
    rows ← update_chunk store target.0 target.1 fetched.0 table.rows
    ok (
      rows,
      record { chunk = output_chunk; answer = exhausted; rest = record o { child = fetched.1 } },
    )

pub record DeleteOperator (S : Type 0) : Type 0 where
  pub table_name : String
  pub child : S

-- The constructor, the check and `Next` of the delete operator all throw.
unfoldable pub make_delete_operator : {S : Type 0} → String → S → Outcome (DeleteOperator S)
make_delete_operator table_name child = throws disallowed

unfoldable pub delete_check : {S : Type 0} → DeleteOperator S → Outcome (DeleteOperator S)
delete_check o = throws disallowed

unfoldable pub delete_next : {S : Type 0} → Next (DeleteOperator S)
delete_next o = throws disallowed
