-- ===== src/Table/Guards.antt =====
-- src/include/storage/table.hpp, src/storage/table.cpp: the latch of a table and its guards.
use babydb_private.Prelude.{
  ℕ, zero, suc, ◌≡◌, Bool, true, false, Option, none, some, List, [], ◌∷◌, ◌++◌, if◌then◌else◌,
}
use babydb_private.Outcome.{Outcome, ok, undefined, ◌>>=◌}
use babydb_private.Table.{Row}

-- `std::shared_mutex`. `none` is a call that waits; an unlock of what is not locked is undefined.
pub record SharedMutex : Type 0 where
  pub shared : ℕ
  pub exclusive : Bool

unfoldable pub lock_shared : SharedMutex → Option SharedMutex
lock_shared m = if m.exclusive then none else some (record m { shared = suc m.shared })

unfoldable pub lock : SharedMutex → Option SharedMutex
lock m =
    if m.exclusive
    then none
    else (elim m.shared [ zero ↦ some (record m { exclusive = true }) | suc n ↦ none ])

unfoldable pub unlock_shared : SharedMutex → Outcome SharedMutex
unlock_shared m = elim m.shared [ zero ↦ undefined | suc n ↦ ok (record m { shared = n }) ]

unfoldable pub unlock : SharedMutex → Outcome SharedMutex
unlock m = if m.exclusive then ok (record m { exclusive = false }) else undefined

-- `rows_`: the rows of the table, or `nullptr`.
pub data RowsPointer : Type 0 where
  table_rows nullptr : RowsPointer

-- The fields of a guard of either class; the latch is a reference.
pub record Guard : Type 0 where
  pub rows : RowsPointer
  pub drop_tag : Bool

abbrev pub new_guard : Guard
new_guard = record { rows = table_rows; drop_tag = false }

-- The constructors, by way of `GetReadTableGuard` and `GetWriteTableGuard`.
unfoldable pub get_read_guard : SharedMutex → Option (Guard × SharedMutex)
unfolding lock_shared
get_read_guard m = elim (lock_shared m) [ none ↦ none | some m' ↦ some (new_guard, m') ]

unfoldable pub get_write_guard : SharedMutex → Option (Guard × SharedMutex)
unfolding lock
get_write_guard m = elim (lock m) [ none ↦ none | some m' ↦ some (new_guard, m') ]

-- `Drop`, for the `unlock` of the class.
unfoldable pub drop_with :
    (SharedMutex → Outcome SharedMutex) → Guard → SharedMutex → Outcome (Guard × SharedMutex)
drop_with release g m =
    if g.drop_tag
    then ok (g, m)
    else (release m >>= λ m'. ok (record { rows = nullptr; drop_tag = true }, m'))

unfoldable pub drop_read : Guard → SharedMutex → Outcome (Guard × SharedMutex)
unfolding drop_with unlock_shared
drop_read = drop_with unlock_shared

unfoldable pub drop_write : Guard → SharedMutex → Outcome (Guard × SharedMutex)
unfolding drop_with unlock
drop_write = drop_with unlock

-- `Rows()`: a null pointer is dereferenced.
unfoldable pub guarded_rows : Guard → List Row → Outcome (List Row)
guarded_rows g rows = elim g.rows [ table_rows ↦ ok rows | nullptr ↦ undefined ]

-- A table in use: its latch, its rows and the guards that there are, of any threads.
pub record Shared : Type 0 where
  pub latch : SharedMutex
  pub rows : List Row
  pub readers : List Guard
  pub writers : List Guard

abbrev pub unused : List Row → Shared
unused rows = record {
  latch = record { shared = 0; exclusive = false };
  rows = rows;
  readers = [];
  writers = [];
}

-- What a thread can do: get a guard, when the latch lets it; drop one; write through a write guard;
-- and leave the scope of one, whose destructor drops it.
pub data Step : Shared → Shared → Type 0 where
  gets_read :
      (s : Shared) (g : Guard) (m : SharedMutex)
      → get_read_guard s.latch ≡ some (g, m)
      → Step s (record s { latch = m; readers = g ∷ s.readers })
  gets_write :
      (s : Shared) (g : Guard) (m : SharedMutex)
      → get_write_guard s.latch ≡ some (g, m)
      → Step s (record s { latch = m; writers = g ∷ s.writers })
  drops_read :
      (s : Shared) (before after : List Guard) (g g' : Guard) (m : SharedMutex)
      → s.readers ≡ before ++ g ∷ after
      → drop_read g s.latch ≡ ok (g', m)
      → Step s (record s { latch = m; readers = before ++ g' ∷ after })
  drops_write :
      (s : Shared) (before after : List Guard) (g g' : Guard) (m : SharedMutex)
      → s.writers ≡ before ++ g ∷ after
      → drop_write g s.latch ≡ ok (g', m)
      → Step s (record s { latch = m; writers = before ++ g' ∷ after })
  leaves_read :
      (s : Shared) (before after : List Guard) (g g' : Guard) (m : SharedMutex)
      → s.readers ≡ before ++ g ∷ after
      → drop_read g s.latch ≡ ok (g', m)
      → Step s (record s { latch = m; readers = before ++ after })
  leaves_write :
      (s : Shared) (before after : List Guard) (g g' : Guard) (m : SharedMutex)
      → s.writers ≡ before ++ g ∷ after
      → drop_write g s.latch ≡ ok (g', m)
      → Step s (record s { latch = m; writers = before ++ after })
  writes :
      (s : Shared) (before after : List Guard) (g : Guard) (old rows : List Row)
      → s.writers ≡ before ++ g ∷ after
      → guarded_rows g s.rows ≡ ok old
      → Step s (record s { rows = rows })

pub data Steps : Shared → Shared → Type 0 where
  stays : (s : Shared) → Steps s s
  goes : {s t u : Shared} → Steps s t → Step t u → Steps s u
