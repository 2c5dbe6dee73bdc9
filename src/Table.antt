-- ===== src/Table.antt =====
-- src/include/storage/table.hpp: rows and tables.
pub mod Guards
pub mod Exclusion
pub mod Latch
pub mod Free
use babydb_private.Prelude.{String, List, []}
use babydb_private.Schema.{Tuple, Schema, invalid_name}

-- `TupleMeta` has no fields.
pub record Row : Type 0 where
  pub tuple : Tuple

pub record Table : Type 0 where
  pub name : String
  pub schema : Schema
  pub rows : List Row
  pub index_name : String

unfoldable pub make_table : String → Schema → Table
make_table name schema = record {
  name = name;
  schema = schema;
  rows = [];
  index_name = invalid_name;
}
