-- ===== src/Catalog/Consistent.antt =====
-- Tables and indexes name each other.
use babydb_private.Prelude.{
  String, none, some, some, ◌≡◌, ◌≢◌, refl, str_eq, eq_iff, if◌then◌else◌, Key_string, arith,
  Bool-cases, Option-cases, inl, inr,
}
use babydb_private.Assoc.{find, insert, find-insert}
use babydb_private.Schema.{invalid_name}
use babydb_private.Table.{Table}
use babydb_private.Index.{Index}
use babydb_private.Catalog.{Catalog, empty}

-- Each entry stands under its own name, an index belongs to a table that names it, and the index
-- that a table names exists and belongs to it.
pub record IsConsistent (c : Catalog) : Type 0 where
  pub table_named : (n : String) (t : Table) → find n c.tables ≡ some t → t.name ≡ n
  pub index_named :
      (n : String) (i : Index) → find n c.indexes ≡ some i → (i.name ≡ n) × (n ≢ invalid_name)
  pub index_owned :
      (n : String) (i : Index)
      → find n c.indexes ≡ some i
      → (t : Table) × (find i.table_name c.tables ≡ some t) × (t.index_name ≡ n)
  pub table_served :
      (n : String) (t : Table)
      → find n c.tables ≡ some t
      → t.index_name ≢ invalid_name
      → (i : Index) × (find t.index_name c.indexes ≡ some i) × (i.table_name ≡ n)

pub empty-IsConsistent : IsConsistent empty
unfolding empty find
empty-IsConsistent = record {
  table_named = λ n t h. cc;
  index_named = λ n i h. cc;
  index_owned = λ n i h. cc;
  table_served = λ n t h g. cc;
}

module _ (c : Catalog) (v : IsConsistent c) where
  pub added-IsConsistent :
      (t : Table)
      → find t.name c.tables ≡ none
      → t.index_name ≡ invalid_name
      → IsConsistent (record c { tables = insert t.name t c.tables })
  added-IsConsistent t absent fresh = record {
    table_named = λ n u h.
        ground (arith, eq_iff t.name n, find-insert t.name n t c.tables absent, v.table_named n u);
    index_named = v.index_named;
    index_owned = λ n i h.
        let (u, held, back) = v.index_owned n i h in
        (
          u,
          ground (
            arith,
            eq_iff t.name i.table_name,
            find-insert t.name i.table_name t c.tables absent,
          ),
          back,
        );
    table_served = λ n u h g.
        v.table_served n u (ground (arith, eq_iff t.name n, find-insert t.name n t c.tables absent))
          g;
  }

  -- Removing a table with the index that it names, stated of the lookups.
  pub dropped-IsConsistent :
      (n : String) (t : Table) {c' : Catalog}
      → find n c.tables ≡ some t
      → ((m : String) → find m c'.tables ≡ (if str_eq n m then none else find m c.tables))
      → ((m : String)
          → find m c'.indexes ≡ (if str_eq t.index_name m then none else find m c.indexes))
      → IsConsistent c'
  dropped-IsConsistent n t {c'} here tables_eq indexes_eq = record {
    table_named = λ m u h. v.table_named m u (ground (arith, tables_eq m));
    index_named = λ m i h. v.index_named m i (ground (arith, indexes_eq m));
    index_owned = λ m i h.
        let (u, held, back) = v.index_owned m i (ground (arith, indexes_eq m)) in
        (
          u,
          ground (
            arith,
            tables_eq i.table_name,
            indexes_eq m,
            eq_iff n i.table_name,
            eq_iff t.index_name m,
          ),
          back,
        );
    table_served = λ m u h g.
        let (i, held, owner) = v.table_served m u (ground (arith, tables_eq m)) g in
        (
          i,
          ground (
            arith,
            tables_eq m,
            indexes_eq u.index_name,
            eq_iff n m,
            eq_iff t.index_name u.index_name,
            v.table_served n t here,
          ),
          owner,
        );
  }

  -- Giving the table `t` the index `i`.
  pub indexed-IsConsistent :
      (i : Index) (t : Table) {c' : Catalog}
      → find i.name c.indexes ≡ none
      → find i.table_name c.tables ≡ some t
      → t.index_name ≡ invalid_name
      → i.name ≢ invalid_name
      → ((m : String)
          → find m c'.tables ≡ (
              if str_eq i.table_name m
              then some (record t { index_name = i.name })
              else find m c.tables))
      → ((m : String) → find m c'.indexes ≡ (if str_eq i.name m then some i else find m c.indexes))
      → IsConsistent c'
  indexed-IsConsistent i t {c'} fresh here bare named tables_eq indexes_eq = record {
    table_named = λ m u h.
        ground (arith, tables_eq m, eq_iff i.table_name m, v.table_named m u, v.table_named m t);
    index_named = λ m j h. ground (arith, indexes_eq m, eq_iff i.name m, v.index_named m j);
    index_owned = λ m j h. elim (Bool-cases (str_eq i.name m)) [
      | inl new ↦ (
        record t { index_name = i.name },
        ground (arith, indexes_eq m, tables_eq j.table_name, eq_iff i.table_name j.table_name),
        (eq_iff i.name m).0 new,
      )
      | inr old ↦
          let (u, held, back) = v.index_owned m j (ground (arith, indexes_eq m)) in
          (
            u,
            ground (
              arith,
              indexes_eq m,
              v.index_named m j,
              tables_eq j.table_name,
              eq_iff i.table_name j.table_name,
            ),
            back,
          )
    ];
    table_served = λ m u h g. elim (Bool-cases (str_eq i.table_name m)) [
      | inl new ↦ (
        i,
        ground (arith, tables_eq m, indexes_eq u.index_name, eq_iff i.name u.index_name),
        (eq_iff i.table_name m).0 new,
      )
      | inr old ↦
          let (j, held, owner) = v.table_served m u (ground (arith, tables_eq m)) g in
          (
            j,
            ground (arith, tables_eq m, indexes_eq u.index_name, eq_iff i.name u.index_name),
            owner,
          )
    ];
  }

  -- Taking the index `i` from its table `t`.
  pub unindexed-IsConsistent :
      (n : String) (i : Index) (t : Table) {c' : Catalog}
      → find n c.indexes ≡ some i
      → find i.table_name c.tables ≡ some t
      → ((m : String)
          → find m c'.tables ≡ (
              if str_eq i.table_name m
              then some (record t { index_name = invalid_name })
              else find m c.tables))
      → ((m : String) → find m c'.indexes ≡ (if str_eq n m then none else find m c.indexes))
      → IsConsistent c'
  unindexed-IsConsistent n i t {c'} here held tables_eq indexes_eq = record {
    table_named = λ m u h.
        ground (arith, tables_eq m, eq_iff i.table_name m, v.table_named m u, v.table_named m t);
    index_named = λ m j h. ground (arith, indexes_eq m, v.index_named m j);
    index_owned = λ m j h.
        let (u, at, back) = v.index_owned m j (ground (arith, indexes_eq m)) in
        (
          u,
          ground (
            arith,
            indexes_eq m,
            tables_eq j.table_name,
            eq_iff i.table_name j.table_name,
            eq_iff n m,
            v.index_owned n i here,
          ),
          back,
        );
    table_served = λ m u h g.
        let (j, at, owner) = v.table_served m u (ground (arith, tables_eq m)) g in
        (
          j,
          ground (
            arith,
            tables_eq m,
            indexes_eq u.index_name,
            eq_iff n u.index_name,
            eq_iff i.table_name m,
          ),
          owner,
        );
  }

  -- No index is called by the name that stands for none.
  pub no_unnamed : find invalid_name c.indexes ≡ none
  no_unnamed = elim (Option-cases (find invalid_name c.indexes)) [
    | inl e ↦ e
    | inr (i, e) ↦ absurd ((v.index_named invalid_name i e).1 refl)
  ]
