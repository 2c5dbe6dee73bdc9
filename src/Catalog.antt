-- ===== src/Catalog.antt =====
-- src/storage/catalog.cpp: the tables and indexes of the database by name.
pub mod Consistent
pub mod Operations
use babydb_private.Prelude.{
  String, Bool, not, Option, none, some, List, [], ◌∷◌, ◌≡◌, str_eq, if◌then◌else◌, Key_string,
}
use babydb_private.Assoc.{find, insert, assign, erase}
use babydb_private.Outcome.{
  Outcome, ok, throws, undefined, table_exists, table_missing, index_exists, index_missing,
  table_has_index, ◌>>=◌, ◌>>◌, throw_if, found_or, deref,
}
use babydb_private.Schema.{invalid_name}
use babydb_private.Table.{Table}
use babydb_private.Index.{Index}

pub record Catalog : Type 0 where
  pub tables : List (String × Table)
  pub indexes : List (String × Index)

unfoldable pub empty : Catalog
empty = record { tables = []; indexes = [] }

unfoldable pub create_table : Catalog → Table → Outcome Catalog
create_table c table = elim (find table.name c.tables) [
  | some _ ↦ throws table_exists
  | none ↦ ok (record c { tables = insert table.name table c.tables })
]

-- The table's index goes with the table.
unfoldable pub drop_table : Catalog → String → Outcome Catalog
drop_table c table_name = do
  table ← found_or table_missing (find table_name c.tables)
  ok (record {
    tables = erase table_name c.tables;
    indexes =
        if not (str_eq table.index_name invalid_name)
        then erase table.index_name c.indexes
        else c.indexes;
  })

unfoldable pub create_index : Catalog → Index → Outcome Catalog
create_index c index = elim (find index.name c.indexes) [
  | some _ ↦ throws index_exists
  | none ↦ do
    table ← found_or table_missing (find index.table_name c.tables)
    throw_if (not (str_eq table.index_name invalid_name)) table_has_index
    ok (record {
      tables = assign index.table_name (record table { index_name = index.name }) c.tables;
      indexes = insert index.name index c.indexes;
    })
]

-- The table of the index is dereferenced without a test.
unfoldable pub drop_index : Catalog → String → Outcome Catalog
drop_index c index_name = do
  index ← found_or index_missing (find index_name c.indexes)
  table ← deref (find index.table_name c.tables)
  ok (record {
    tables = assign index.table_name (record table { index_name = invalid_name }) c.tables;
    indexes = erase index_name c.indexes;
  })

unfoldable pub fetch_table : Catalog → String → Outcome Table
fetch_table c table_name = found_or table_missing (find table_name c.tables)

unfoldable pub fetch_index : Catalog → String → Outcome Index
fetch_index c index_name = found_or index_missing (find index_name c.indexes)
