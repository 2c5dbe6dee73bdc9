-- ===== src/Index.antt =====
-- src/include/storage/index.hpp, src/include/common/types.hpp and the constructors of the two index
-- classes.
use babydb_private.Prelude.{String, List, [], ◌∷◌, ◌≡◌, arith}
use babydb_private.Outcome.{Outcome, ok, throws, table_not_empty}
use babydb_private.Art.{TreePointer, null}
use babydb_private.StlmapIndex.{Entries}
use babydb_private.Table.{Table, Row}

pub data IndexType : Type 0 where
  stlmap art : IndexType

-- What the two subclasses add to the common fields.
pub data Contents : Type 0 where
  stlmap_index : Entries → Contents
  art_index : TreePointer → Contents

pub record Index : Type 0 where
  pub name : String
  pub table_name : String
  pub key_name : String
  pub contents : Contents

abbrev empty_contents : IndexType → Contents
empty_contents stlmap = stlmap_index []
empty_contents art = art_index null

-- Both constructors refuse a table that has rows.
refuse_rows : List Row → Index → Outcome Index
refuse_rows [] index = ok index
refuse_rows (row ∷ rows) index = throws table_not_empty

unfoldable pub make_index : String → Table → String → IndexType → Outcome Index
unfolding refuse_rows
make_index name table key_name kind = refuse_rows table.rows (record {
  name = name;
  table_name = table.name;
  key_name = key_name;
  contents = empty_contents kind;
})

refuse_rows-ok : (rows : List Row) (i j : Index) → refuse_rows rows i ≡ ok j → j ≡ i
unfolding refuse_rows
refuse_rows-ok [] i j h = ground arith
refuse_rows-ok (row ∷ rows) i j h = ground arith

pub make_index-name :
    (name : String) (table : Table) (key_name : String) (kind : IndexType) (i : Index)
    → make_index name table key_name kind ≡ ok i
    → i.name ≡ name
unfolding make_index
make_index-name name table key_name kind i h = ground (arith, refuse_rows-ok table.rows _ i h)
