-- ===== src/Tests/Transactions.antt =====
-- The database and the version counters on concrete histories.
use babydb_private.Prelude.{
  ℕ, ◌≡◌, ◌≢◌, refl, String, true, false, none, some, List, [], ◌∷◌, arith, All, ap, get_elem?,
  Key_string, Key_nat, length, ◌<◌, ◌^◌,
}
use babydb_private.Assoc.{find, insert, assign, erase}
use babydb_private.Outcome.{Error}
use babydb_private.Table.{Table}
use babydb_private.Index.{Index, stlmap, stlmap_index}
use babydb_private.Catalog.{Catalog}
use babydb_private.Transaction.{is_running, running, Transaction}
use babydb_private.Database.{
  Database, Call, change, create_txn_call, commit_call, abort_call, create_table_call,
  create_index_call, drop_table_call, drop_index_call, crashed, run, call, make_database, returned,
  failed, waits, Reply,
}
use babydb_private.Database.Valid.{IsValid}
use babydb_private.Database.Run.{IsNamedCall, run-IsValid}
use babydb_private.Database.Locks.{run-catalog}
use babydb_private.Database.Drops.{WithoutTable, WithoutIndex, drop_table_lem, drop_index_lem}
use babydb_private.Database.Ends.{commit_lem, abort_lem}
use babydb_private.VersionLink.{
  Counters, outside, loaded, bump, move, Reach, initial, next, start, fetch_add, load_max, exchange,
  exchange_fails, max_nodes_peak,
}

abbrev history : List Call
history =
    change (create_table_call "t" ("id" ∷ "v" ∷ []))
    ∷ change (create_index_call "i" "t" "id" stlmap)
    ∷ create_txn_call
    ∷ create_txn_call
    ∷ commit_call 0
    ∷ []

index_named : ◌≢◌ {A = String} "i" ""
index_named e = cc

history_named : All IsNamedCall history
history_named = (tt, (index_named, (tt, (tt, (tt, tt)))))

run-IsValid_example : IsValid (run make_database history)
run-IsValid_example = run-IsValid history history_named (omega arith)

abbrev table : Table
table = record { name = "t"; schema = "id" ∷ "v" ∷ []; rows = []; index_name = "i" }

-- Two transactions were created and the first has committed.
abbrev database : Database
database = run make_database history

database-IsValid : IsValid database
database-IsValid = run-IsValid history history_named (omega arith)

second : Transaction
second = record {
  txn_id = 0x4000_0000_0000_0001;
  read_ts = 0;
  gc_ts = 0;
  state = running;
  owns_lock = true;
  commit_ts = 0xffff_ffff_ffff_ffff;
  modified_rows = [];
  read_rows = [];
}

second_there : get_elem? database.transactions 1 ≡ some second
unfolding run second make_database find insert assign erase
second_there = refl

-- A change of the catalog waits for the second transaction.
change_waits : (call database (change (drop_table_call "t"))).1 ≡ waits
unfolding run make_database find insert assign erase
change_waits = refl

small : length database.transactions < 2 ^ 62
unfolding run make_database find insert assign erase
small = omega arith

commit_lem_example : (call database (commit_call 1)).1 ≡ returned true
unfolding second
commit_lem_example =
    ap (λ (p : Database × Reply). p.1)
      (commit_lem database 1 second database-IsValid small second_there)

abort_lem_example :
    let (d', reply) = call database (abort_call 1) in
    (e : Error) × (u : Transaction) × (reply ≡ failed e)
    × (get_elem? d'.transactions 1 ≡ some u)
    × (u.owns_lock ≡ false)
    × (is_running u.state ≡ false)
    × (find second.txn_id d'.manager.txn_map ≡ none)
abort_lem_example = abort_lem database 1 second database-IsValid second_there

-- Calls after which the second transaction still runs.
abbrev later : List Call
later = change (drop_table_call "t") ∷ create_txn_call ∷ commit_call 2 ∷ []

run-catalog_example : (run database later).catalog ≡ database.catalog
unfolding run make_database find insert assign erase second
run-catalog_example =
    run-catalog database later 1 second database-IsValid (tt, (tt, (tt, tt))) (omega arith)
      (omega arith) refl refl

-- The transaction that had the lock has committed.
abbrev quiet_history : List Call
quiet_history =
    change (create_table_call "t" ("id" ∷ "v" ∷ []))
    ∷ change (create_index_call "i" "t" "id" stlmap)
    ∷ create_txn_call
    ∷ commit_call 0
    ∷ []

quiet_history_named : All IsNamedCall quiet_history
quiet_history_named = (tt, (index_named, (tt, (tt, tt))))

drop_table_lem_example :
    let d = run make_database quiet_history in
    (c' : Catalog) × (call d (change (drop_table_call "t"))
      ≡ (record d { catalog = c' }, returned true))
    × WithoutTable "t" table d.catalog c'
unfolding run make_database find insert assign erase
drop_table_lem_example =
    drop_table_lem quiet_history "t" table quiet_history_named (omega arith) refl refl

abbrev quiet_index : Index
quiet_index = record { name = "i"; table_name = "t"; key_name = "id"; contents = stlmap_index [] }

drop_index_lem_example :
    let d = run make_database quiet_history in
    (t : Table) × (c' : Catalog) × (find "t" d.catalog.tables ≡ some t)
    × (t.index_name ≡ "i")
    × (call d (change (drop_index_call "i")) ≡ (record d { catalog = c' }, returned true))
    × WithoutIndex "i" quiet_index t d.catalog c'
unfolding run make_database find insert assign erase
drop_index_lem_example =
    drop_index_lem quiet_history "i" quiet_index quiet_history_named (omega arith) refl refl

abbrev unnamed_history : List Call
unnamed_history =
    change (create_table_call "t" ("id" ∷ []))
    ∷ change (create_index_call "" "t" "id" stlmap)
    ∷ change (drop_table_call "t")
    ∷ []

-- An index with the empty name outlives its table, and then `DropIndex` follows no pointer.
unnamed_crashes :
    let (d, answer) = call (run make_database unnamed_history) (change (drop_index_call "")) in
    answer ≡ crashed
unfolding run make_database call find insert assign erase
unnamed_crashes = refl

-- One thread registers a node; its first exchange fails for no reason.
abbrev counted : Counters
counted = bump start 0

abbrev loading : Counters
loading = move counted 0 (loaded 1 0)

abbrev retried : Counters
retried = move loading 0 (loaded 1 0)

abbrev registered : Counters
registered = move (record retried { max_nodes = 1 }) 0 outside

registered-Reach : Reach registered 1
registered-Reach =
    next
      (next (next (next initial (fetch_add 0 refl)) (load_max 0 1 refl))
        (exchange_fails 0 1 0 refl (omega arith)))
      (exchange 0 1 0 refl (omega arith) refl)

registered_quiet : (i : ℕ) → registered.thread i ≡ outside
registered_quiet i = ground arith

max_nodes_peak_example : registered.max_nodes ≡ 1
max_nodes_peak_example = max_nodes_peak registered-Reach registered_quiet
