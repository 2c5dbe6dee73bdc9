-- ===== src/Database.antt =====
-- src/babydb.cpp: the calls of the database's users, one at a time. A call that changes the catalog
-- takes `db_lock_` exclusively, so it waits while a transaction shares the lock.
pub mod Valid
pub mod Preserve
pub mod Run
pub mod Locks
pub mod Ends
pub mod Drops
use babydb_private.Prelude.{
  ℕ, zero, suc, ◌+◌, ◌-◌, String, Bool, true, false, Option, none, some, List, [], ◌∷◌, ◌++◌,
  nat_eq, if◌then◌else◌, length, get_elem?, set,
}
use babydb_private.Outcome.{Outcome, ok, throws, undefined, unfinished, Error, ◌>>=◌}
use babydb_private.Schema.{Schema}
use babydb_private.Table.{make_table}
use babydb_private.Index.{IndexType, make_index}
use babydb_private.Catalog.{
  Catalog, create_table, drop_table, create_index, drop_index, fetch_table, empty,
}
use babydb_private.Transaction.{
  Transaction, Manager, make_manager, create_txn, set_tainted, Scope, abort, commit,
}

-- `transactions` holds the transaction objects in the order of their creation; `readers` is the
-- number of shared owners of `db_lock_`.
pub record Database : Type 0 where
  pub catalog : Catalog
  pub manager : Manager
  pub transactions : List Transaction
  pub readers : ℕ

unfoldable pub make_database : Database
unfolding make_manager empty
make_database = record { catalog = empty; manager = make_manager; transactions = []; readers = 0 }

pub data Change : Type 0 where
  create_table_call : String → Schema → Change
  drop_table_call : String → Change
  create_index_call : String → String → String → IndexType → Change
  drop_index_call : String → Change

pub data Call : Type 0 where
  change : Change → Call
  create_txn_call : Call
  commit_call abort_call taint_call : ℕ → Call

pub data Reply : Type 0 where
  returned : Bool → Reply
  created : ℕ → Reply
  failed : Error → Reply
  crashed waits : Reply

unfoldable pub apply : Catalog → Change → Outcome Catalog
unfolding make_table create_table drop_table fetch_table make_index create_index drop_index
apply c (create_table_call name schema) = create_table c (make_table name schema)
apply c (drop_table_call name) = drop_table c name
apply c (create_index_call name table_name key_column kind) = do
  table ← fetch_table c table_name
  index ← make_index name table key_column kind
  create_index c index
apply c (drop_index_call name) = drop_index c name

pub after_change : Database → Outcome Catalog → Database × Reply
after_change d (ok c) = (record d { catalog = c }, returned true)
after_change d (throws e) = (d, failed e)
after_change d undefined = (d, crashed)
after_change d unfinished = (d, crashed)

unfoldable pub reply : Outcome Bool → Reply
reply (ok b) = returned b
reply (throws e) = failed e
reply undefined = crashed
reply unfinished = crashed

-- `object` after a call that worked on its scope.
unfoldable pub restore : Database → ℕ → Scope × Outcome Bool → Database × Reply
unfolding reply
restore d object (s, result) = (
  record d {
    manager = s.manager;
    transactions = set d.transactions object s.txn;
    readers = s.readers;
  },
  reply result,
)

-- A call on the transaction object of that number; there is no other way to name one.
unfoldable pub on_txn : Database → ℕ → (Scope → Scope × Outcome Bool) → Database × Reply
unfolding restore
on_txn d object method = elim (get_elem? d.transactions object) [
  | none ↦ (d, crashed)
  | some t ↦
      restore d object (method (record { manager = d.manager; readers = d.readers; txn = t }))
]

unfoldable pub taint : Scope → Scope × Outcome Bool
unfolding set_tainted
taint s = (record s { txn = set_tainted s.txn }, ok true)

unfoldable pub call : Database → Call → Database × Reply
unfolding apply after_change create_txn on_txn commit abort taint
call d (change c) = if nat_eq d.readers 0 then after_change d (apply d.catalog c) else (d, waits)
call d create_txn_call =
    let object = length d.transactions in
    let (m, t) = create_txn d.manager object in
    (
      record d { manager = m; transactions = d.transactions ++ t ∷ []; readers = d.readers + 1 },
      created object,
    )
call d (commit_call object) = on_txn d object commit
call d (abort_call object) = on_txn d object abort
call d (taint_call object) = on_txn d object taint

unfoldable pub run : Database → List Call → Database
unfolding call
run d [] = d
run d (c ∷ calls) = run (call d c).0 calls
