-- ===== src/Transaction.antt =====
-- src/include/concurrency/transaction.hpp, src/concurrency/transaction.cpp,
-- src/concurrency/transaction_manager.cpp: the life of one transaction.
use babydb_private.Prelude.{
  ℕ, ◌+◌, ◌-◌, ◌%◌, Bool, true, false, not, ◌||◌, List, [], ◌∷◌, ◌++◌, if◌then◌else◌, Key_nat,
}
use babydb_private.Assoc.{insert, erase}
use babydb_private.Outcome.{
  Outcome, ok, throws, commit_not_running, abort_not_running, abort_unimplemented, system_error,
  ◌>>=◌,
}
use babydb_private.Schema.{word_mod, invalid_id, txn_start_id}

pub data TransactionState : Type 0 where
  running tainted commited aborted : TransactionState

abbrev pub is_running : TransactionState → Bool
is_running running = true
is_running _ = false

abbrev pub is_tainted : TransactionState → Bool
is_tainted tainted = true
is_tainted _ = false

-- `owns_lock` says whether `db_lock_` holds the database's lock. The row pointers in the two
-- lists are numbers here; nothing in the repository adds one.
pub record Transaction : Type 0 where
  pub txn_id : ℕ
  pub read_ts : ℕ
  pub gc_ts : ℕ
  pub state : TransactionState
  pub owns_lock : Bool
  pub commit_ts : ℕ
  pub modified_rows : List ℕ
  pub read_rows : List ℕ

unfoldable pub set_tainted : Transaction → Transaction
set_tainted t = record t { state = tainted }

unfoldable pub add_modified_row : Transaction → ℕ → Transaction
add_modified_row t row_list = record t { modified_rows = t.modified_rows ++ row_list ∷ [] }

unfoldable pub add_read_row : Transaction → ℕ → Transaction
add_read_row t row_list = record t { read_rows = t.read_rows ++ row_list ∷ [] }

unfoldable pub read_only : Transaction → Bool
read_only t = elim t.modified_rows [ [] ↦ true | _ ∷ _ ↦ false ]

-- `txn_map_` takes an id to the transaction object, which is named by its number.
pub record Manager : Type 0 where
  pub next_txn_id : ℕ
  pub last_commit_ts : ℕ
  pub txn_map : List (ℕ × ℕ)

unfoldable pub make_manager : Manager
make_manager = record { next_txn_id = txn_start_id; last_commit_ts = 0; txn_map = [] }

-- The new object gets the number `object` and takes over a shared lock.
unfoldable pub create_txn : Manager → ℕ → Manager × Transaction
create_txn m object = (
  record m {
    next_txn_id = (m.next_txn_id + 1) % word_mod;
    txn_map = insert m.next_txn_id object m.txn_map;
  },
  record {
    txn_id = m.next_txn_id;
    read_ts = m.last_commit_ts;
    gc_ts = m.last_commit_ts;
    state = running;
    owns_lock = true;
    commit_ts = invalid_id;
    modified_rows = [];
    read_rows = [];
  },
)

-- What `Commit` and `Abort` work on: the manager, the number of holders of the database's shared
-- lock, and the transaction.
pub record Scope : Type 0 where
  pub manager : Manager
  pub readers : ℕ
  pub txn : Transaction

unfoldable pub verify_txn : Transaction → Bool
verify_txn t = true

-- `Transaction::Done`, then `last`: `unlock` throws if the lock is not owned.
unfoldable pub done_then : Scope → (Scope → Scope × Outcome Bool) → Scope × Outcome Bool
done_then s last =
    if s.txn.owns_lock
    then last (record s { readers = s.readers - 1; txn = record (s.txn) { owns_lock = false } })
    else (s, throws system_error)

abbrev forget : Scope → Scope
forget s = record s {
  manager = record (s.manager) { txn_map = erase s.txn.txn_id s.manager.txn_map };
}

unfoldable pub abort : Scope → Scope × Outcome Bool
unfolding done_then
abort s =
    if not (is_running s.txn.state || is_tainted s.txn.state)
    then (s, throws abort_not_running)
    else done_then (record s { txn = record (s.txn) { state = aborted } })
        (λ s'. (forget s', throws abort_unimplemented))

unfoldable pub commit : Scope → Scope × Outcome Bool
unfolding abort verify_txn done_then
commit s =
    if not (is_running s.txn.state)
    then (s, throws commit_not_running)
    else (if not (verify_txn s.txn)
        then (let (s', result) = abort s in (s', result >>= λ _. ok false))
        else (let ts = (s.manager.last_commit_ts + 1) % word_mod in
            done_then
              (record s {
                manager = record (s.manager) { last_commit_ts = ts };
                txn = record (s.txn) { commit_ts = ts; state = commited };
              })
              (λ s'. (forget s', ok true))))
