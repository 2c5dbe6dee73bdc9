-- ===== src/Database/Run.antt =====
-- Every call keeps the database valid, and so does every sequence of calls.
use babydb_private.Prelude.{
  ℕ, ◌+◌, ◌^◌, ◌≤◌, ◌<◌, ◌≡◌, ◌≢◌, refl, sym, ◌∙◌, subst, String, Bool, none, some, List, [], ◌∷◌,
  inl, inr, length, get_elem?, All, arith, length-append, nat_eq, Key_nat, Option-cases, Bool-cases,
}
use babydb_private.Assoc.{find}
use babydb_private.Outcome.{Outcome, ok, throws, undefined, unfinished, >>=-eq-ok}
use babydb_private.Schema.{invalid_name}
use babydb_private.Table.{Table, make_table}
use babydb_private.Index.{Index, IndexType, make_index, make_index-name}
use babydb_private.Catalog.{Catalog, fetch_table, create_index}
use babydb_private.Catalog.Consistent.{IsConsistent, empty-IsConsistent}
use babydb_private.Catalog.Operations.{
  create_table-IsConsistent, drop_table-IsConsistent, create_index-IsConsistent,
  drop_index-IsConsistent,
}
use babydb_private.Transaction.{
  Transaction, tainted, Scope, commit, abort, set_tainted, make_manager,
}
use babydb_private.Database.{
  Database, Change, create_table_call, drop_table_call, create_index_call, drop_index_call, Call,
  change, create_txn_call, commit_call, abort_call, taint_call, apply, after_change, call, run,
  on_txn, restore, taint, make_database, Reply, crashed,
}
use babydb_private.Database.Preserve.{
  scope_of, created-IsValid, marked-IsValid, commit-IsValid, abort-IsValid,
}
use babydb_private.Database.Valid.{IsValid, length-set, holders-nil}

pub on_txn-none :
    (d : Database) (k : ℕ) (method : Scope → Scope × Outcome Bool)
    → get_elem? d.transactions k ≡ none
    → on_txn d k method ≡ (d, crashed)
unfolding on_txn
on_txn-none d k method e = rw (e, on_txn)

pub on_txn-some :
    (d : Database) (k : ℕ) (method : Scope → Scope × Outcome Bool) (t : Transaction)
    → get_elem? d.transactions k ≡ some t
    → on_txn d k method
      ≡ restore d k (method (record { manager = d.manager; readers = d.readers; txn = t }))
unfolding on_txn
on_txn-some d k method t e = rw (e, on_txn)

-- A change of the catalog that names no index by the empty string.
abbrev pub IsNamed : Change → Type 0
IsNamed (create_index_call name table_name key_column kind) = name ≢ invalid_name
IsNamed _ = Unit

abbrev pub IsNamedCall : Call → Type 0
IsNamedCall (change c) = IsNamed c
IsNamedCall _ = Unit

pub make_database-IsValid : IsValid make_database
unfolding make_database make_manager find
make_database-IsValid = record {
  consistent = empty-IsConsistent;
  counted = sym holders-nil;
  numbered = refl;
  bounded = omega arith;
  fresh = λ n h. refl;
  good = λ k t h. cc;
  unique = λ j k t u h g. cc;
}

apply_index :
    (c c' : Catalog) (name table_name key_column : String) (kind : IndexType)
    → apply c (create_index_call name table_name key_column kind) ≡ ok c'
    → (t : Table) × (i : Index) × (make_index name t key_column kind ≡ ok i)
      × (create_index c i ≡ ok c')
unfolding apply
apply_index c c' name table_name key_column kind h =
    let (t, _, h') = >>=-eq-ok (fetch_table c table_name) _ {b = c'} h in
    let (i, made, h'') = >>=-eq-ok (make_index name t key_column kind) _ {b = c'} h' in
    (t, i, made, h'')

apply-IsConsistent :
    (c : Catalog) {c' : Catalog} (ch : Change)
    → IsConsistent c
    → IsNamed ch
    → apply c ch ≡ ok c'
    → IsConsistent c'
apply-IsConsistent c (create_table_call name schema) v n h =
    create_table-IsConsistent v (make_table name schema) (unfold make_table in refl)
      (unfold apply in h)
apply-IsConsistent c (drop_table_call name) v n h =
    drop_table-IsConsistent v name (unfold apply in h)
apply-IsConsistent c {c'} (create_index_call name table_name key_column kind) v n h =
    let (t, i, made, h') = apply_index c c' name table_name key_column kind h in
    create_index-IsConsistent v i (λ e. n (sym (make_index-name name t key_column kind i made) ∙ e))
      h'
apply-IsConsistent c (drop_index_call name) v n h =
    drop_index-IsConsistent v name (unfold apply in h)

taint-IsValid :
    (d : Database) (v : IsValid d) (k : ℕ) (t : Transaction)
    → get_elem? d.transactions k ≡ some t
    → IsValid (restore d k (taint (scope_of d v t))).0
unfolding restore taint set_tainted
taint-IsValid d v k t e = marked-IsValid d v k t e tainted refl (λ q. cc) (λ q. cc)

module _ (d : Database) (v : IsValid d) where
  on_txn-IsValid :
      (k : ℕ) (method : Scope → Scope × Outcome Bool)
      → ((t : Transaction)
          → get_elem? d.transactions k ≡ some t
          → IsValid (restore d k (method (scope_of d v t))).0)
      → IsValid (on_txn d k method).0
  on_txn-IsValid k method each = elim (Option-cases (get_elem? d.transactions k)) [
    | inl e ↦ subst (λ (p : Database × Reply). IsValid p.0) (sym (on_txn-none d k method e)) v
    | inr (t, e) ↦
        subst (λ (p : Database × Reply). IsValid p.0) (sym (on_txn-some d k method t e)) (each t e)
  ]

  changed-IsValid :
      (result : Outcome Catalog)
      → ((c : Catalog) → result ≡ ok c → IsConsistent c)
      → IsValid (after_change d result).0
  unfolding after_change
  changed-IsValid (ok c) keeps = record {
    consistent = keeps c refl;
    counted = v.counted;
    numbered = v.numbered;
    bounded = v.bounded;
    fresh = v.fresh;
    good = v.good;
    unique = v.unique;
  }
  changed-IsValid (throws e) keeps = v
  changed-IsValid undefined keeps = v
  changed-IsValid unfinished keeps = v

  pub call-IsValid :
      (c : Call) → IsNamedCall c → length d.transactions < 2 ^ 62 → IsValid (call d c).0
  unfolding call
  call-IsValid (change ch) named small = elim (Bool-cases (nat_eq d.readers 0)) [
    | inl quiet ↦ rw quiet (
        changed-IsValid (apply d.catalog ch)
          (λ c e. apply-IsConsistent d.catalog ch v.consistent named e))
    | inr busy ↦ rw busy v
  ]
  call-IsValid create_txn_call named small = created-IsValid d v small
  call-IsValid (commit_call k) named small =
      on_txn-IsValid k commit (λ t e. commit-IsValid d v k t e small)
  call-IsValid (abort_call k) named small = on_txn-IsValid k abort (λ t e. abort-IsValid d v k t e)
  call-IsValid (taint_call k) named small = on_txn-IsValid k taint (λ t e. taint-IsValid d v k t e)

length-on_txn :
    (d : Database) (k : ℕ) (method : Scope → Scope × Outcome Bool)
    → length (on_txn d k method).0.transactions ≡ length d.transactions
length-on_txn d k method = elim (Option-cases (get_elem? d.transactions k)) [
  | inl e ↦ rw (on_txn-none d k method e)
  | inr (t, e) ↦ rw (on_txn-some d k method t e) (unfold restore in length-set d.transactions k _)
]

pub after_change-transactions :
    (d : Database) (result : Outcome Catalog)
    → (after_change d result).0.transactions ≡ d.transactions
unfolding after_change
after_change-transactions d (ok c) = refl
after_change-transactions d (throws e) = refl
after_change-transactions d undefined = refl
after_change-transactions d unfinished = refl

pub length-call :
    (d : Database) (c : Call) → length (call d c).0.transactions ≤ length d.transactions + 1
unfolding call
length-call d (change ch) = ground (arith, after_change-transactions d (apply d.catalog ch))
length-call d create_txn_call = omega (arith, length-append d.transactions (_ ∷ []))
length-call d (commit_call k) = omega (arith, length-on_txn d k commit)
length-call d (abort_call k) = omega (arith, length-on_txn d k abort)
length-call d (taint_call k) = omega (arith, length-on_txn d k taint)

-- Transactions are never taken off the list.
pub call-grows :
    (d : Database) (c : Call) → length d.transactions ≤ length (call d c).0.transactions
unfolding call
call-grows d (change ch) = ground (arith, after_change-transactions d (apply d.catalog ch))
call-grows d create_txn_call = omega (arith, length-append d.transactions (_ ∷ []))
call-grows d (commit_call k) = omega (arith, length-on_txn d k commit)
call-grows d (abort_call k) = omega (arith, length-on_txn d k abort)
call-grows d (taint_call k) = omega (arith, length-on_txn d k taint)

pub run_from-IsValid :
    (d : Database) (calls : List Call)
    → IsValid d
    → All IsNamedCall calls
    → length d.transactions + length calls < 2 ^ 62
    → IsValid (run d calls)
unfolding run
run_from-IsValid d [] v named small = v
run_from-IsValid d (c ∷ calls) v named small =
    run_from-IsValid (call d c).0 calls (call-IsValid d v c named.0 (omega arith)) named.1
      (omega (arith, length-call d c))

-- After any sequence of fewer than 2 ^ 62 calls on a fresh database, none of which creates an
-- index with the empty name, the database is valid: catalog, lock count, transaction map and
-- timestamps agree.
pub run-IsValid :
    (calls : List Call)
    → All IsNamedCall calls
    → length calls < 2 ^ 62
    → IsValid (run make_database calls)
run-IsValid calls named small =
    run_from-IsValid make_database calls make_database-IsValid named
      (unfold make_database in omega arith)
