-- ===== src/Catalog/Operations.antt =====
-- Every operation of the catalog keeps it consistent, and finds what it looks for.
use babydb_private.Prelude.{
  String, none, some, ◌≡◌, ◌≢◌, subst, str_eq, eq_iff, if◌then◌else◌, Key_string, arith,
  Option-cases, inl, inr,
}
use babydb_private.Assoc.{find, assign, erase, find-insert, find-assign, find-erase}
use babydb_private.Outcome.{ok}
use babydb_private.Schema.{invalid_name}
use babydb_private.Table.{Table}
use babydb_private.Index.{Index}
use babydb_private.Catalog.{Catalog, create_table, drop_table, create_index, drop_index}
use babydb_private.Catalog.Consistent.{
  IsConsistent, added-IsConsistent, dropped-IsConsistent, indexed-IsConsistent,
  unindexed-IsConsistent, no_unnamed,
}

module _ {c : Catalog} (v : IsConsistent c) where
  pub create_table-IsConsistent :
      (t : Table) {c' : Catalog}
      → t.index_name ≡ invalid_name
      → create_table c t ≡ ok c'
      → IsConsistent c'
  unfolding create_table
  create_table-IsConsistent t {c'} fresh h = elim (Option-cases (find t.name c.tables)) [
    | inr (u, e) ↦ absurd (ground arith)
    | inl e ↦ subst IsConsistent (ground arith) (added-IsConsistent c v t e fresh)
  ]

  -- The index that a table names goes away with it, and no other does.
  pub drop_table_lookups :
      (n : String) (t : Table) {c' : Catalog}
      → find n c.tables ≡ some t
      → drop_table c n ≡ ok c'
      → ((m : String) → find m c'.tables ≡ (if str_eq n m then none else find m c.tables))
        × ((m : String)
            → find m c'.indexes ≡ (if str_eq t.index_name m then none else find m c.indexes))
  unfolding drop_table
  drop_table_lookups n t {c'} here h = (
    λ m. ground (arith, find-erase n m c.tables),
    λ m. ground (
      arith,
      find-erase t.index_name m c.indexes,
      eq_iff t.index_name m,
      eq_iff t.index_name invalid_name,
      no_unnamed c v,
    ),
  )

  pub drop_table-IsConsistent :
      (n : String) {c' : Catalog} → drop_table c n ≡ ok c' → IsConsistent c'
  drop_table-IsConsistent n {c'} h = elim (Option-cases (find n c.tables)) [
    | inl e ↦ absurd (unfold drop_table in ground arith)
    | inr (t, here) ↦
        let (tables, indexes) = drop_table_lookups n t here h in
        dropped-IsConsistent c v n t here tables indexes
  ]

  pub create_index_lookups :
      (i : Index) (t : Table) {c' : Catalog}
      → find i.table_name c.tables ≡ some t
      → create_index c i ≡ ok c'
      → (find i.name c.indexes ≡ none)
        × (t.index_name ≡ invalid_name)
        × ((m : String)
            → find m c'.tables ≡ (
                if str_eq i.table_name m
                then some (record t { index_name = i.name })
                else find m c.tables))
        × ((m : String)
            → find m c'.indexes ≡ (if str_eq i.name m then some i else find m c.indexes))
  unfolding create_index
  create_index_lookups i t {c'} here h = (
    ground arith,
    ground (arith, eq_iff t.index_name invalid_name),
    λ m. ground (
      arith,
      find-assign i.table_name m (record t { index_name = i.name }) c.tables,
      eq_iff i.table_name m,
    ),
    λ m. ground (arith, find-insert i.name m i c.indexes),
  )

  pub create_index-IsConsistent :
      (i : Index) {c' : Catalog}
      → i.name ≢ invalid_name
      → create_index c i ≡ ok c'
      → IsConsistent c'
  create_index-IsConsistent i {c'} named h = elim (Option-cases (find i.table_name c.tables)) [
    | inl e ↦ absurd (unfold create_index in ground arith)
    | inr (t, here) ↦
        let (fresh, bare, tables, indexes) = create_index_lookups i t here h in
        indexed-IsConsistent c v i t fresh here bare named tables indexes
  ]

  -- The table that `DropIndex` dereferences is there.
  pub drop_index_lookups :
      (n : String) (i : Index)
      → find n c.indexes ≡ some i
      → (t : Table) × (c' : Catalog) × (find i.table_name c.tables ≡ some t)
        × (drop_index c n ≡ ok c')
        × ((m : String)
            → find m c'.tables ≡ (
                if str_eq i.table_name m
                then some (record t { index_name = invalid_name })
                else find m c.tables))
        × ((m : String) → find m c'.indexes ≡ (if str_eq n m then none else find m c.indexes))
  unfolding drop_index
  drop_index_lookups n i here =
      let (t, held, back) = v.index_owned n i here in
      let bare = record t { index_name = invalid_name } in
      (
        t,
        record { tables = assign i.table_name bare c.tables; indexes = erase n c.indexes },
        held,
        rw (here, held),
        λ m. ground (arith, find-assign i.table_name m bare c.tables, eq_iff i.table_name m),
        λ m. find-erase n m c.indexes,
      )

  pub drop_index-IsConsistent :
      (n : String) {c' : Catalog} → drop_index c n ≡ ok c' → IsConsistent c'
  drop_index-IsConsistent n {c'} h = elim (Option-cases (find n c.indexes)) [
    | inl e ↦ absurd (unfold drop_index in ground arith)
    | inr (i, here) ↦
        let (t, d, held, run, tables, indexes) = drop_index_lookups n i here in
        subst IsConsistent (ground arith)
          (unindexed-IsConsistent c v n i t here held tables indexes)
  ]
