-- ===== src/Database/Locks.antt =====
-- What a running transaction can rely on, and how `Commit` and `Abort` end.
use native.Mathlib.Nat.{le_trans}
use babydb_private.Prelude.{
  ℕ, ◌+◌, ◌^◌, ◌<◌, ◌≡◌, refl, ◌∙◌, Bool, true, false, some, List, [], ◌∷◌, inl, inr, length,
  get_elem?, All, arith, Option-cases, Key_nat,
}
use babydb_private.Outcome.{Outcome}
use babydb_private.Transaction.{Transaction, is_running, Scope, commit, abort, set_tainted}
use babydb_private.Database.{
  Database, Call, change, create_txn_call, commit_call, abort_call, taint_call, apply, call, run,
  on_txn, restore, taint,
}
use babydb_private.Database.Valid.{IsValid, holders-set, get_elem?-set, get_elem?-snoc}
use babydb_private.Database.Run.{
  IsNamedCall, after_change-transactions, call-grows, on_txn-none, on_txn-some, call-IsValid,
  length-call,
}

-- A running transaction holds the lock that changes of the catalog wait for.
running_readers :
    (d : Database) (k : ℕ) (t : Transaction)
    → IsValid d
    → get_elem? d.transactions k ≡ some t
    → is_running t.state ≡ true
    → 0 < d.readers
running_readers d k t v here runs = ground (
  arith,
  holders-set d.transactions k t (record t { owns_lock = false }) here,
  v.counted,
  (v.good k t here).owning runs,
)

on_txn-catalog :
    (d : Database) (k : ℕ) (method : Scope → Scope × Outcome Bool)
    → (on_txn d k method).0.catalog ≡ d.catalog
on_txn-catalog d k method = elim (Option-cases (get_elem? d.transactions k)) [
  | inl e ↦ rw (on_txn-none d k method e)
  | inr (t, e) ↦ rw (on_txn-some d k method t e) (unfold restore in refl)
]

call-catalog :
    (d : Database) (c : Call) (k : ℕ) (t : Transaction)
    → IsValid d
    → get_elem? d.transactions k ≡ some t
    → is_running t.state ≡ true
    → (call d c).0.catalog ≡ d.catalog
unfolding call
call-catalog d (change ch) k t v here runs = ground (arith, running_readers d k t v here runs)
call-catalog d create_txn_call k t v here runs = refl
call-catalog d (commit_call j) k t v here runs = on_txn-catalog d j commit
call-catalog d (abort_call j) k t v here runs = on_txn-catalog d j abort
call-catalog d (taint_call j) k t v here runs = on_txn-catalog d j taint

-- An operation on a transaction after which it does not run unless it did and was left alone.
abbrev Stops : (Scope → Scope × Outcome Bool) → Type 0
Stops method = (s : Scope) → is_running (method s).0.txn.state ≡ true → ⊥

commit-Stops : Stops commit
unfolding commit
commit-Stops s h = ground arith

abort-Stops : Stops abort
unfolding abort
abort-Stops s h = ground arith

taint-Stops : Stops taint
unfolding taint set_tainted
taint-Stops s h = cc

on_txn-running :
    (d : Database) (j k : ℕ) (method : Scope → Scope × Outcome Bool) (u : Transaction)
    → Stops method
    → get_elem? (on_txn d j method).0.transactions k ≡ some u
    → is_running u.state ≡ true
    → get_elem? d.transactions k ≡ some u
unfolding restore
on_txn-running d j k method u stops h runs = elim (Option-cases (get_elem? d.transactions j)) [
  | inl e ↦ rw (on_txn-none d j method e) at h
  | inr (t, e) ↦
      let s : Scope = record { manager = d.manager; readers = d.readers; txn = t } in
      elim (get_elem?-set d.transactions j (method s).0.txn k u
        (rw (on_txn-some d j method t e) at h)) [
          | inl (apart, f) ↦ f
          | inr (same, f) ↦ absurd (stops s (rw f at runs))
        ]
]

-- No transaction starts to run but by its creation.
call-running :
    (d : Database) (c : Call) (k : ℕ) (u : Transaction)
    → k < length d.transactions
    → get_elem? (call d c).0.transactions k ≡ some u
    → is_running u.state ≡ true
    → get_elem? d.transactions k ≡ some u
unfolding call
call-running d (change ch) k u old h runs =
    ground (arith, after_change-transactions d (apply d.catalog ch))
call-running d create_txn_call k u old h runs =
    ground (arith, get_elem?-snoc d.transactions _ k u h)
call-running d (commit_call j) k u old h runs = on_txn-running d j k commit u commit-Stops h runs
call-running d (abort_call j) k u old h runs = on_txn-running d j k abort u abort-Stops h runs
call-running d (taint_call j) k u old h runs = on_txn-running d j k taint u taint-Stops h runs

run-running :
    (d : Database) (calls : List Call) (k : ℕ) (u : Transaction)
    → k < length d.transactions
    → get_elem? (run d calls).transactions k ≡ some u
    → is_running u.state ≡ true
    → get_elem? d.transactions k ≡ some u
unfolding run
run-running d [] k u old h runs = h
run-running d (c ∷ calls) k u old h runs =
    call-running d c k u old
      (run-running (call d c).0 calls k u (le_trans old (call-grows d c)) h runs) runs

-- As long as a transaction runs, the catalog is the one that it started with: from a valid
-- database, if an existing transaction still runs after the calls, then the catalog after them is
-- the catalog before them.
pub run-catalog :
    (d : Database) (calls : List Call) (k : ℕ) (u : Transaction)
    → IsValid d
    → All IsNamedCall calls
    → length d.transactions + length calls < 2 ^ 62
    → k < length d.transactions
    → get_elem? (run d calls).transactions k ≡ some u
    → is_running u.state ≡ true
    → (run d calls).catalog ≡ d.catalog
unfolding run
run-catalog d [] k u v named small old h runs = refl
run-catalog d (c ∷ calls) k u v named small old h runs =
    let later = le_trans old (call-grows d c) in
    let there = run-running (call d c).0 calls k u later h runs in
    run-catalog (call d c).0 calls k u (call-IsValid d v c named.0 (omega arith)) named.1
      (omega (arith, length-call d c)) later h runs
    ∙ call-catalog d c k u v (call-running d c k u old there runs) runs
