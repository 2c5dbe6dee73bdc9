-- ===== src/Database/Ends.antt =====
-- How `Commit` and `Abort` end, on every branch.
use babydb_private.Prelude.{
  ℕ, ◌+◌, ◌-◌, ◌^◌, ◌<◌, ◌≡◌, refl, true, false, ◌||◌, none, some, inl, inr, if◌then◌else◌, length,
  get_elem?, set, arith, Bool-cases, Key_nat,
}
use babydb_private.Assoc.{find, erase, find-erase}
use babydb_private.Outcome.{
  Error, commit_not_running, abort_not_running, abort_unimplemented, system_error,
}
use babydb_private.Transaction.{
  Transaction, commited, aborted, is_running, commit, abort, is_tainted,
}
use babydb_private.Database.{Database, commit_call, abort_call, call, restore, returned, failed}
use babydb_private.Database.Valid.{IsValid, set_self, get_elem?-set_self}
use babydb_private.Database.Run.{on_txn-some}

-- In a valid database with fewer than 2 ^ 62 transactions, `Commit` of a running transaction
-- returns true: it stamps it with the time after the last commit, which becomes the last one,
-- gives its lock back and takes it off the map. Of a transaction in any other state it throws and
-- changes nothing.
pub commit_lem :
    (d : Database) (k : ℕ) (t : Transaction)
    → IsValid d
    → length d.transactions < 2 ^ 62
    → get_elem? d.transactions k ≡ some t
    → let now = d.manager.last_commit_ts + 1 in
      call d (commit_call k) ≡ (
        if is_running t.state
        then (
          record d {
            manager = record (d.manager) {
              last_commit_ts = now;
              txn_map = erase t.txn_id d.manager.txn_map;
            };
            transactions =
                set d.transactions k
                  (record t { state = commited; commit_ts = now; owns_lock = false });
            readers = d.readers - 1;
          },
          returned true,
        )
        else (d, failed commit_not_running))
unfolding call restore commit
commit_lem d k t v small here =
    rw (on_txn-some d k commit t here)
      (ground (arith, v.bounded, (v.good k t here).owning, set_self d.transactions k t here))

-- `Abort` never returns: in a valid database every call of it on a transaction ends in an
-- exception. It leaves that transaction without the database's lock, not running, and off the
-- map.
pub abort_lem :
    (d : Database) (k : ℕ) (t : Transaction)
    → IsValid d
    → get_elem? d.transactions k ≡ some t
    → let (d', reply) = call d (abort_call k) in
      (e : Error) × (u : Transaction) × (reply ≡ failed e)
      × (get_elem? d'.transactions k ≡ some u)
      × (u.owns_lock ≡ false)
      × (is_running u.state ≡ false)
      × (find t.txn_id d'.manager.txn_map ≡ none)
unfolding call restore abort
abort_lem d k t v here =
    let g = v.good k t here in
    rw (on_txn-some d k abort t here)
      (elim (Bool-cases (is_running t.state || is_tainted t.state)) [
        | inr over ↦ (
          abort_not_running,
          t,
          ground arith,
          ground (arith, set_self d.transactions k t here),
          g.released over,
          ground arith,
          ground (arith, g),
        )
        | inl live ↦ elim (Bool-cases t.owns_lock) [
          | inl own ↦
              let u = record t { state = aborted; owns_lock = false } in
              (
                abort_unimplemented,
                u,
                ground arith,
                ground (arith, get_elem?-set_self d.transactions k u here),
                refl,
                refl,
                ground (arith, find-erase t.txn_id t.txn_id d.manager.txn_map),
              )
          | inr free ↦
              let u = record t { state = aborted } in
              (
                system_error,
                u,
                ground arith,
                ground (arith, get_elem?-set_self d.transactions k u here),
                free,
                refl,
                ground (arith, g),
              )
        ]
      ])
