-- ===== src/Table/Latch.antt =====
-- src/include/storage/table.hpp, src/storage/table.cpp: the guards of a table in use by any threads.
use babydb_private.Prelude.{
  ◌≡◌, refl, ap, sym, ◌∙◌, subst, true, false, List, [], ◌∷◌, ◌++◌, arith, All,
}
use babydb_private.Outcome.{ok}
use babydb_private.Table.{Row}
use babydb_private.Table.Guards.{
  table_rows, Guard, guarded_rows, Shared, unused, Step, gets_read, gets_write, drops_read,
  drops_write, leaves_read, leaves_write, writes, Steps,
}
use babydb_private.Table.Exclusion.{
  holds, IsGuard, holds-at, All-at, unused-IsGuarded, Steps-IsGuarded,
}

abbrev pub IsDropped : Guard → Type 0
IsDropped g = g.drop_tag ≡ true

All-IsDropped : (gs : List Guard) → holds gs ≡ 0 → All IsDropped gs
All-IsDropped [] h = tt
All-IsDropped (g ∷ gs) h = (ground (arith, h), All-IsDropped gs (omega (arith, h)))

-- Whatever the threads did with a table, a write guard that was not dropped is the only guard that
-- was not.
pub writer_alone :
    (rows : List Row) (s : Shared) (before after : List Guard) (g : Guard)
    → Steps (unused rows) s
    → s.writers ≡ before ++ g ∷ after
    → g.drop_tag ≡ false
    → All IsDropped (before ++ after) × All IsDropped s.readers
writer_alone rows s before after g run here held =
    let v = Steps-IsGuarded (unused-IsGuarded rows) run in
    let count = sym (holds-at before after g) ∙ (sym (ap holds here) ∙ v.exclusive_count) in
    let taken : s.latch.exclusive ≡ true = ground (arith, count, held) in
    (
      All-IsDropped (before ++ after) (ground (arith, count, held, taken)),
      All-IsDropped s.readers (v.shared_count ∙ v.apart taken),
    )

All-drop_tag :
    (before after : List Guard) (g : Guard)
    → All IsDropped (before ++ g ∷ after)
    → IsDropped g × All IsDropped (before ++ after)
All-drop_tag [] after g h = h
All-drop_tag (b ∷ before) after g h =
    let (mine, rest) = All-drop_tag before after g h.1 in (mine, (h.0, rest))

written : (g : Guard) (rows old : List Row) → guarded_rows g rows ≡ ok old → g.rows ≡ table_rows
unfolding guarded_rows
written g rows old h = ground (arith, h)

-- As long as a read guard is not dropped, no step changes the rows.
pub rows_stay :
    (rows : List Row) (s t : Shared) (before after : List Guard) (g : Guard)
    → Steps (unused rows) s
    → s.readers ≡ before ++ g ∷ after
    → g.drop_tag ≡ false
    → Step s t
    → t.rows ≡ s.rows
rows_stay rows s _ before after g run here held (gets_read _ h m e) = refl
rows_stay rows s _ before after g run here held (gets_write _ h m e) = refl
rows_stay rows s _ before after g run here held (drops_read _ b a h h' m e f) = refl
rows_stay rows s _ before after g run here held (drops_write _ b a h h' m e f) = refl
rows_stay rows s _ before after g run here held (leaves_read _ b a h h' m e f) = refl
rows_stay rows s _ before after g run here held (leaves_write _ b a h h' m e f) = refl
rows_stay rows s _ before after g run here held (writes _ b a h old new e f) =
    let v = Steps-IsGuarded (unused-IsGuarded rows) run in
    let (mine, _) = All-at b a h (subst (All IsGuard) e v.writers_good) in
    let taken : h.drop_tag ≡ false = ground (arith, mine, written h s.rows old f) in
    let (_, none_held) = writer_alone rows s b a h run e taken in
    let (gone, _) = All-drop_tag before after g (subst (All IsDropped) here none_held) in
    absurd (ground (arith, held, gone))
