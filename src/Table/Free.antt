-- ===== src/Table/Free.antt =====
-- src/include/storage/table.hpp, src/storage/table.cpp: dropping guards, and a latch that gets free.
use babydb_private.Prelude.{
  ◌-◌, ◌<◌, ◌≡◌, refl, ap, sym, ◌∙◌, subst, true, false, some, List, [], ◌∷◌, ◌++◌, arith,
  Bool-cases, inl, inr, All, append_assoc, append-nil,
}
use babydb_private.Outcome.{Outcome, ok}
use babydb_private.Table.{Row}
use babydb_private.Table.Guards.{
  SharedMutex, lock, unlock_shared, unlock, nullptr, Guard, new_guard, get_write_guard, drop_with,
  drop_read, drop_write, Shared, unused, drops_read, drops_write, Steps,
}
use babydb_private.Table.Exclusion.{
  holds, IsGuard, IsGuarded, holds-at, All-at, unused-IsGuarded, Step-IsGuarded, Steps-IsGuarded,
}

-- What a drop leaves: the guard has lost the rows, and another drop changes nothing.
abbrev pub DropsOnce :
    (Guard → SharedMutex → Outcome (Guard × SharedMutex)) → Guard → SharedMutex → Type 0
DropsOnce drop g m =
    (g' : Guard) × (m' : SharedMutex) × (drop g m ≡ ok (g', m'))
    × (g'.drop_tag ≡ true)
    × (g'.rows ≡ nullptr)
    × (drop g' m' ≡ ok (g', m'))

held_read-DropsOnce :
    (g : Guard) (m : SharedMutex)
    → IsGuard g
    → (g.drop_tag ≡ false → 0 < m.shared)
    → DropsOnce drop_read g m
unfolding drop_read drop_with unlock_shared
held_read-DropsOnce g m good counted = elim (Bool-cases g.drop_tag) [
  | inl e ↦ (g, m, rw e refl, e, ground (arith, good, e), rw e refl)
  | inr e ↦
      let one_held = counted e in
      (
        record { rows = nullptr; drop_tag = true },
        record m { shared = m.shared - 1 },
        ground (arith, e, one_held),
        refl,
        refl,
        refl,
      )
]

held_write-DropsOnce :
    (g : Guard) (m : SharedMutex)
    → IsGuard g
    → (g.drop_tag ≡ false → m.exclusive ≡ true)
    → DropsOnce drop_write g m
unfolding drop_write drop_with unlock
held_write-DropsOnce g m good taken = elim (Bool-cases g.drop_tag) [
  | inl e ↦ (g, m, rw e refl, e, ground (arith, good, e), rw e refl)
  | inr e ↦ (
    record { rows = nullptr; drop_tag = true },
    record m { exclusive = false },
    rw (e, taken e) refl,
    refl,
    refl,
    refl,
  )
]

reader-DropsOnce :
    {s : Shared} (before after : List Guard) (g : Guard)
    → IsGuarded s
    → s.readers ≡ before ++ g ∷ after
    → DropsOnce drop_read g s.latch
reader-DropsOnce {s} before after g v here =
    let (good, _) = All-at before after g (subst (All IsGuard) here v.readers_good) in
    let count = sym (holds-at before after g) ∙ (sym (ap holds here) ∙ v.shared_count) in
    held_read-DropsOnce g s.latch good (λ held. ground (arith, held, count))

writer-DropsOnce :
    {s : Shared} (before after : List Guard) (g : Guard)
    → IsGuarded s
    → s.writers ≡ before ++ g ∷ after
    → DropsOnce drop_write g s.latch
writer-DropsOnce {s} before after g v here =
    let (good, _) = All-at before after g (subst (All IsGuard) here v.writers_good) in
    let count = sym (holds-at before after g) ∙ (sym (ap holds here) ∙ v.exclusive_count) in
    held_write-DropsOnce g s.latch good (λ held. ground (arith, held, count))

-- Whatever the threads did with a table, a read guard that there is can be dropped: the latch is
-- never unlocked when it is not locked, the guard loses the rows, and called again `Drop` changes
-- nothing.
pub drop_read-DropsOnce :
    (rows : List Row) (s : Shared) (before after : List Guard) (g : Guard)
    → Steps (unused rows) s
    → s.readers ≡ before ++ g ∷ after
    → DropsOnce drop_read g s.latch
drop_read-DropsOnce rows s before after g run here =
    reader-DropsOnce before after g (Steps-IsGuarded (unused-IsGuarded rows) run) here

-- Whatever the threads did with a table, a write guard that there is can be dropped: the latch is
-- never unlocked when it is not locked, the guard loses the rows, and called again `Drop` changes
-- nothing.
pub drop_write-DropsOnce :
    (rows : List Row) (s : Shared) (before after : List Guard) (g : Guard)
    → Steps (unused rows) s
    → s.writers ≡ before ++ g ∷ after
    → DropsOnce drop_write g s.latch
drop_write-DropsOnce rows s before after g run here =
    writer-DropsOnce before after g (Steps-IsGuarded (unused-IsGuarded rows) run) here

-- Calls of `Drop` on guards that there are, one after another, and nothing else.
pub data Drops : Shared → Shared → Type 0 where
  rests : (s : Shared) → Drops s s
  reader_drops :
      (s : Shared) {t : Shared} (before after : List Guard) (g g' : Guard) (m : SharedMutex)
      → s.readers ≡ before ++ g ∷ after
      → drop_read g s.latch ≡ ok (g', m)
      → Drops (record s { latch = m; readers = before ++ g' ∷ after }) t
      → Drops s t
  writer_drops :
      (s : Shared) {t : Shared} (before after : List Guard) (g g' : Guard) (m : SharedMutex)
      → s.writers ≡ before ++ g ∷ after
      → drop_write g s.latch ≡ ok (g', m)
      → Drops (record s { latch = m; writers = before ++ g' ∷ after }) t
      → Drops s t

join : {s t u : Shared} → Drops s t → Drops t u → Drops s u
join (rests _) later = later
join (reader_drops s before after g g' m here run rest) later =
    reader_drops s before after g g' m here run (join rest later)
join (writer_drops s before after g g' m here run rest) later =
    writer_drops s before after g g' m here run (join rest later)

-- Whatever is dropped on the way, the rows stay, and the invariant too.
Drops-rows : {s t : Shared} → Drops s t → t.rows ≡ s.rows
Drops-rows (rests _) = refl
Drops-rows (reader_drops s before after g g' m here run rest) = Drops-rows rest
Drops-rows (writer_drops s before after g g' m here run rest) = Drops-rows rest

Drops-IsGuarded : {s t : Shared} → IsGuarded s → Drops s t → IsGuarded t
Drops-IsGuarded v (rests _) = v
Drops-IsGuarded v (reader_drops s before after g g' m here run rest) =
    Drops-IsGuarded (Step-IsGuarded v (drops_read s before after g g' m here run)) rest
Drops-IsGuarded v (writer_drops s before after g g' m here run rest) =
    Drops-IsGuarded (Step-IsGuarded v (drops_write s before after g g' m here run)) rest

-- Dropping the read guards one after another.
readers_dropped :
    (before after : List Guard) (s : Shared)
    → IsGuarded s
    → s.readers ≡ before ++ after
    → holds before ≡ 0
    → (t : Shared) × Drops s t × (t.writers ≡ s.writers) × (holds t.readers ≡ 0)
readers_dropped before [] s v here none_held =
    (s, rests s, refl, ap holds here ∙ ap holds (append-nil before) ∙ none_held)
readers_dropped before (g ∷ after) s v here none_held =
    let (g', m', run, gone, _, _) = reader-DropsOnce before after g v here in
    let next = drops_read s before after g g' m' here run in
    let moved = sym (append_assoc before (g' ∷ []) after) in
    let none_left : holds (before ++ g' ∷ []) ≡ 0 =
      ground (arith, holds-at before [] g', gone, ap holds (append-nil before), none_held) in
    let (t, steps, others, done) =
      readers_dropped (before ++ g' ∷ []) after
        (record s { latch = m'; readers = before ++ g' ∷ after }) (Step-IsGuarded v next) moved
        none_left in
    (t, reader_drops s before after g g' m' here run steps, others, done)

writers_dropped :
    (before after : List Guard) (s : Shared)
    → IsGuarded s
    → s.writers ≡ before ++ after
    → holds before ≡ 0
    → (t : Shared) × Drops s t × (t.readers ≡ s.readers) × (holds t.writers ≡ 0)
writers_dropped before [] s v here none_held =
    (s, rests s, refl, ap holds here ∙ ap holds (append-nil before) ∙ none_held)
writers_dropped before (g ∷ after) s v here none_held =
    let (g', m', run, gone, _, _) = writer-DropsOnce before after g v here in
    let next = drops_write s before after g g' m' here run in
    let moved = sym (append_assoc before (g' ∷ []) after) in
    let none_left : holds (before ++ g' ∷ []) ≡ 0 =
      ground (arith, holds-at before [] g', gone, ap holds (append-nil before), none_held) in
    let (t, steps, others, done) =
      writers_dropped (before ++ g' ∷ []) after
        (record s { latch = m'; writers = before ++ g' ∷ after }) (Step-IsGuarded v next) moved
        none_left in
    (t, writer_drops s before after g g' m' here run steps, others, done)

free_latch :
    (m : SharedMutex)
    → m.shared ≡ 0
    → m.exclusive ≡ false
    → (m' : SharedMutex) × (get_write_guard m ≡ some (new_guard, m'))
unfolding get_write_guard lock
free_latch m none_shared free = (record m { exclusive = true }, rw (free, none_shared) refl)

-- Whatever the threads did with a table, calls of `Drop` alone, one after another, lead to a state in
-- which every guard was dropped, the rows are as they were, and a write guard can be had at once.
pub write_guard_comes :
    (rows : List Row) (s : Shared)
    → Steps (unused rows) s
    → (t : Shared) × Drops s t
      × (t.rows ≡ s.rows)
      × (holds t.readers ≡ 0)
      × (holds t.writers ≡ 0)
      × ((m : SharedMutex) × (get_write_guard t.latch ≡ some (new_guard, m)))
write_guard_comes rows s run =
    let v = Steps-IsGuarded (unused-IsGuarded rows) run in
    let (t, first, _, no_reader) = readers_dropped [] s.readers s v refl refl in
    let w = Drops-IsGuarded v first in
    let (u, second, readers, no_writer) = writers_dropped [] t.writers t w refl refl in
    let x = Drops-IsGuarded w second in
    let free : u.latch.exclusive ≡ false = ground (arith, no_writer, x.exclusive_count) in
    let none_reads = ap holds readers ∙ no_reader in
    (
      u,
      join first second,
      Drops-rows second ∙ Drops-rows first,
      none_reads,
      no_writer,
      free_latch u.latch (sym x.shared_count ∙ none_reads) free,
    )
