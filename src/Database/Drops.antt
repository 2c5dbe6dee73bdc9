-- ===== src/Database/Drops.antt =====
-- src/babydb.cpp, src/storage/catalog.cpp: what `DropIndex` and `DropTable` find and leave.
use babydb_private.Prelude.{
  ◌^◌, ◌<◌, ◌≡◌, refl, ap, sym, ◌∙◌, String, true, none, some, List, length, All, str_eq,
  if◌then◌else◌, not, Key_string, arith,
}
use babydb_private.Assoc.{find, erase}
use babydb_private.Outcome.{ok}
use babydb_private.Schema.{invalid_name}
use babydb_private.Table.{Table}
use babydb_private.Index.{Index}
use babydb_private.Catalog.{Catalog, drop_table}
use babydb_private.Catalog.Operations.{drop_table_lookups, drop_index_lookups}
use babydb_private.Database.{
  Database, Call, change, drop_table_call, drop_index_call, Change, apply, after_change, call, run,
  make_database, returned,
}
use babydb_private.Database.Run.{IsNamedCall, run-IsValid}

changed :
    (d : Database) (ch : Change) (c : Catalog)
    → d.readers ≡ 0
    → apply d.catalog ch ≡ ok c
    → call d (change ch) ≡ (record d { catalog = c }, returned true)
unfolding call after_change
changed d ch c quiet run = rw (quiet, run) refl

-- The catalog without a table and the index that it names.
abbrev pub WithoutTable : String → Table → Catalog → Catalog → Type 0
WithoutTable n t c c' =
    ((m : String) → find m c'.tables ≡ (if str_eq n m then none else find m c.tables))
    × ((m : String)
        → find m c'.indexes ≡ (if str_eq t.index_name m then none else find m c.indexes))

-- The catalog without an index, and with its table naming none.
abbrev pub WithoutIndex : String → Index → Table → Catalog → Catalog → Type 0
WithoutIndex n i t c c' =
    ((m : String)
      → find m c'.tables ≡ (
          if str_eq i.table_name m
          then some (record t { index_name = invalid_name })
          else find m c.tables))
    × ((m : String) → find m c'.indexes ≡ (if str_eq n m then none else find m c.indexes))

dropped :
    (c : Catalog) (n : String) (t : Table)
    → find n c.tables ≡ some t
    → (c' : Catalog) × (drop_table c n ≡ ok c')
unfolding drop_table
dropped c n t here = (
  record {
    tables = erase n c.tables;
    indexes =
        if not (str_eq t.index_name invalid_name) then erase t.index_name c.indexes else c.indexes;
  },
  rw here refl,
)

-- After fewer than 2 ^ 62 calls on a fresh database, none of which creates an index with the empty
-- name, and while no transaction holds the lock, `DropTable` of a table that there is returns, and the
-- catalog then has neither the table nor the index that it named; every other name finds what it
-- found before.
pub drop_table_lem :
    (calls : List Call) (n : String) (t : Table)
    → All IsNamedCall calls
    → length calls < 2 ^ 62
    → (run make_database calls).readers ≡ 0
    → find n (run make_database calls).catalog.tables ≡ some t
    → let d = run make_database calls in
      (c' : Catalog) × (call d (change (drop_table_call n))
        ≡ (record d { catalog = c' }, returned true))
      × WithoutTable n t d.catalog c'
drop_table_lem calls n t named small quiet here =
    let d = run make_database calls in
    let v = (run-IsValid calls named small).consistent in
    let (c', run_it) = dropped d.catalog n t here in
    (
      c',
      changed d (drop_table_call n) c' quiet (unfold apply in run_it),
      drop_table_lookups v n t here run_it,
    )

-- After fewer than 2 ^ 62 calls on a fresh database, none of which creates an index with the empty
-- name, and while no transaction holds the lock, `DropIndex` of an index that there is finds the table
-- that it dereferences, and that table names this index; the call returns, the catalog then has the
-- index no more, the table names none, and every other name finds what it found before.
pub drop_index_lem :
    (calls : List Call) (n : String) (i : Index)
    → All IsNamedCall calls
    → length calls < 2 ^ 62
    → (run make_database calls).readers ≡ 0
    → find n (run make_database calls).catalog.indexes ≡ some i
    → let d = run make_database calls in
      (t : Table) × (c' : Catalog) × (find i.table_name d.catalog.tables ≡ some t)
      × (t.index_name ≡ n)
      × (call d (change (drop_index_call n)) ≡ (record d { catalog = c' }, returned true))
      × WithoutIndex n i t d.catalog c'
drop_index_lem calls n i named small quiet here =
    let d = run make_database calls in
    let v = (run-IsValid calls named small).consistent in
    let (t, c', held, run_it, tables, indexes) = drop_index_lookups v n i here in
    let (u, held', back) = v.index_owned n i here in
    let same : u ≡ t = ground (arith, held, held') in
    (
      t,
      c',
      held,
      ap (λ (x : Table). x.index_name) (sym same) ∙ back,
      changed d (drop_index_call n) c' quiet (unfold apply in run_it),
      (tables, indexes),
    )
