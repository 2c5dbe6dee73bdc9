-- ===== src/Table/Exclusion.antt =====
-- src/include/storage/table.hpp, src/storage/table.cpp: what the guards of a table promise.
use babydb_private.Prelude.{
  ℕ, suc, ◌+◌, ◌≡◌, refl, ap, sym, ◌∙◌, subst, true, false, some, List, [], ◌∷◌, ◌++◌,
  if◌then◌else◌, arith, Bool-cases, ◌⊎◌, inl, inr, All,
}
use babydb_private.Outcome.{Outcome, ok, >>=-eq-ok}
use babydb_private.Table.{Row}
use babydb_private.Table.Guards.{
  SharedMutex, lock_shared, lock, unlock_shared, unlock, table_rows, nullptr, Guard, new_guard,
  get_read_guard, get_write_guard, drop_with, drop_read, drop_write, Shared, unused, Step,
  gets_read, gets_write, drops_read, drops_write, leaves_read, leaves_write, writes, Steps, stays,
  goes,
}

-- 1 for a guard that was not dropped.
abbrev pub hold : Guard → ℕ
hold g = if g.drop_tag then 0 else 1

abbrev pub holds : List Guard → ℕ
holds [] = 0
holds (g ∷ gs) = hold g + holds gs

-- A guard has the rows until it is dropped.
abbrev pub IsGuard : Guard → Type 0
IsGuard g = g.rows ≡ (if g.drop_tag then nullptr else table_rows)

-- The latch knows how many guards of each class are open, and those of one class shut out the other.
pub record IsGuarded (s : Shared) : Type 0 where
  pub shared_count : holds s.readers ≡ s.latch.shared
  pub exclusive_count : holds s.writers ≡ (if s.latch.exclusive then 1 else 0)
  pub apart : s.latch.exclusive ≡ true → s.latch.shared ≡ 0
  pub readers_good : All IsGuard s.readers
  pub writers_good : All IsGuard s.writers

pub holds-at :
    (before after : List Guard) (g : Guard)
    → holds (before ++ g ∷ after) ≡ hold g + holds (before ++ after)
holds-at [] after g = refl
holds-at (b ∷ before) after g = omega (arith, holds-at before after g)

pub All-at :
    (before after : List Guard) (g : Guard)
    → All IsGuard (before ++ g ∷ after)
    → IsGuard g × All IsGuard (before ++ after)
All-at [] after g h = h
All-at (b ∷ before) after g h = let (mine, rest) = All-at before after g h.1 in (mine, (h.0, rest))

All-put :
    (before after : List Guard) (g : Guard)
    → IsGuard g
    → All IsGuard (before ++ after)
    → All IsGuard (before ++ g ∷ after)
All-put [] after g h rest = (h, rest)
All-put (b ∷ before) after g h rest = (rest.0, All-put before after g h rest.1)

lock_shared_lem :
    (m m' : SharedMutex)
    → lock_shared m ≡ some m'
    → (m.exclusive ≡ false) × (m'.exclusive ≡ false) × (m'.shared ≡ suc m.shared)
unfolding lock_shared
lock_shared_lem m m' h = ground (arith, h)

lock_lem :
    (m m' : SharedMutex)
    → lock m ≡ some m'
    → (m.exclusive ≡ false) × (m.shared ≡ 0) × (m'.exclusive ≡ true) × (m'.shared ≡ 0)
unfolding lock
lock_lem m m' h = ground (arith, h)

unlock_shared_lem :
    (m m' : SharedMutex)
    → unlock_shared m ≡ ok m'
    → (m.shared ≡ suc m'.shared) × (m'.exclusive ≡ m.exclusive)
unfolding unlock_shared
unlock_shared_lem m m' h = ground (arith, h)

unlock_lem :
    (m m' : SharedMutex)
    → unlock m ≡ ok m'
    → (m.exclusive ≡ true) × (m'.exclusive ≡ false) × (m'.shared ≡ m.shared)
unfolding unlock
unlock_lem m m' h = ground (arith, h)

got_read :
    (m m' : SharedMutex) (g : Guard)
    → get_read_guard m ≡ some (g, m')
    → (g ≡ new_guard) × (lock_shared m ≡ some m')
unfolding get_read_guard
got_read m m' g h = ground (arith, h)

got_write :
    (m m' : SharedMutex) (g : Guard)
    → get_write_guard m ≡ some (g, m')
    → (g ≡ new_guard) × (lock m ≡ some m')
unfolding get_write_guard
got_write m m' g h = ground (arith, h)

-- A drop is the first one, which releases the latch, or does nothing.
dropped :
    (release : SharedMutex → Outcome SharedMutex) (g g' : Guard) (m m' : SharedMutex)
    → drop_with release g m ≡ ok (g', m')
    → ((g.drop_tag ≡ true) × (g' ≡ g) × (m' ≡ m))
      ⊎ ((g.drop_tag ≡ false) × (g'.drop_tag ≡ true) × (g'.rows ≡ nullptr) × (release m ≡ ok m'))
unfolding drop_with
dropped release g g' m m' h = elim (Bool-cases g.drop_tag) [
  | inl e ↦ inl (e, ground (arith, h, e), ground (arith, h, e))
  | inr e ↦
      let (m'', released, done) =
        >>=-eq-ok (release m) (λ m'. ok (record { rows = nullptr; drop_tag = true }, m'))
          (rw (e, drop_with) at h) in
      inr (e, ground (arith, done), ground (arith, done), released ∙ ground (arith, done))
]

read_dropped :
    (g g' : Guard) (m m' : SharedMutex)
    → drop_read g m ≡ ok (g', m')
    → IsGuard g
    → (g'.drop_tag ≡ true)
      × IsGuard g'
      × (hold g + m'.shared ≡ m.shared)
      × (m'.exclusive ≡ m.exclusive)
unfolding drop_read
read_dropped g g' m m' h good = elim (dropped unlock_shared g g' m m' h) [
  | inl (e, same, latch) ↦ (
    ground (arith, e, same),
    ground (arith, same, good),
    ground (arith, e, latch),
    ground (arith, latch),
  )
  | inr (e, tag, none_there, released) ↦
      let (a, b) = unlock_shared_lem m m' released in
      (tag, ground (arith, tag, none_there), ground (arith, e, a), b)
]

write_dropped :
    (g g' : Guard) (m m' : SharedMutex)
    → drop_write g m ≡ ok (g', m')
    → IsGuard g
    → (g'.drop_tag ≡ true)
      × IsGuard g'
      × (m'.shared ≡ m.shared)
      × (hold g + (if m'.exclusive then 1 else 0) ≡ (if m.exclusive then 1 else 0))
unfolding drop_write
write_dropped g g' m m' h good = elim (dropped unlock g g' m m' h) [
  | inl (e, same, latch) ↦ (
    ground (arith, e, same),
    ground (arith, same, good),
    ground (arith, latch),
    ground (arith, e, latch),
  )
  | inr (e, tag, none_there, released) ↦
      let (a, b, c) = unlock_lem m m' released in
      (tag, ground (arith, tag, none_there), c, ground (arith, e, a, b))
]

pub unused-IsGuarded : (rows : List Row) → IsGuarded (unused rows)
unused-IsGuarded rows = record {
  shared_count = refl;
  exclusive_count = refl;
  apart = λ e. refl;
  readers_good = tt;
  writers_good = tt;
}

pub Step-IsGuarded : {s t : Shared} → IsGuarded s → Step s t → IsGuarded t
Step-IsGuarded v (gets_read s g m e) =
    let (new, locked) = got_read s.latch m g e in
    let (was_free, is_free, one_more) = lock_shared_lem s.latch m locked in
    let good : IsGuard g = ground (arith, new) in
    record {
      shared_count = ground (arith, new, v.shared_count, one_more);
      exclusive_count = ground (arith, v.exclusive_count, was_free, is_free);
      apart = λ taken. absurd (ground (arith, taken, is_free));
      readers_good = (good, v.readers_good);
      writers_good = v.writers_good;
    }
Step-IsGuarded v (gets_write s g m e) =
    let (new, locked) = got_write s.latch m g e in
    let (was_free, none_shared, taken, still_none) = lock_lem s.latch m locked in
    let good : IsGuard g = ground (arith, new) in
    record {
      shared_count = ground (arith, v.shared_count, none_shared, still_none);
      exclusive_count = ground (arith, new, v.exclusive_count, was_free, taken);
      apart = λ e. still_none;
      readers_good = v.readers_good;
      writers_good = (good, v.writers_good);
    }
Step-IsGuarded v (drops_read s before after g g' m here run) =
    let (mine, others) = All-at before after g (subst (All IsGuard) here v.readers_good) in
    let (tag, good, counted, same) = read_dropped g g' s.latch m run mine in
    let count = sym (ap holds here) ∙ v.shared_count in
    record {
      shared_count =
          ground (arith, holds-at before after g, holds-at before after g', count, counted, tag);
      exclusive_count = ground (arith, v.exclusive_count, same);
      apart = λ e. ground (arith, v.apart (sym same ∙ e), counted);
      readers_good = All-put before after g' good others;
      writers_good = v.writers_good;
    }
Step-IsGuarded v (leaves_read s before after g g' m here run) =
    let (mine, others) = All-at before after g (subst (All IsGuard) here v.readers_good) in
    let (tag, good, counted, same) = read_dropped g g' s.latch m run mine in
    let count = sym (ap holds here) ∙ v.shared_count in
    record {
      shared_count = omega (arith, holds-at before after g, count, counted);
      exclusive_count = ground (arith, v.exclusive_count, same);
      apart = λ e. ground (arith, v.apart (sym same ∙ e), counted);
      readers_good = others;
      writers_good = v.writers_good;
    }
Step-IsGuarded v (drops_write s before after g g' m here run) =
    let (mine, others) = All-at before after g (subst (All IsGuard) here v.writers_good) in
    let (tag, good, same, counted) = write_dropped g g' s.latch m run mine in
    let count = sym (ap holds here) ∙ v.exclusive_count in
    record {
      shared_count = v.shared_count ∙ sym same;
      exclusive_count =
          ground (arith, holds-at before after g, holds-at before after g', count, counted, tag);
      apart = λ e. same ∙ v.apart (ground (arith, counted, e));
      readers_good = v.readers_good;
      writers_good = All-put before after g' good others;
    }
Step-IsGuarded v (leaves_write s before after g g' m here run) =
    let (mine, others) = All-at before after g (subst (All IsGuard) here v.writers_good) in
    let (tag, good, same, counted) = write_dropped g g' s.latch m run mine in
    let count = sym (ap holds here) ∙ v.exclusive_count in
    record {
      shared_count = v.shared_count ∙ sym same;
      exclusive_count = ground (arith, holds-at before after g, count, counted);
      apart = λ e. same ∙ v.apart (ground (arith, counted, e));
      readers_good = v.readers_good;
      writers_good = others;
    }
Step-IsGuarded v (writes s before after g old rows here run) = record {
  shared_count = v.shared_count;
  exclusive_count = v.exclusive_count;
  apart = v.apart;
  readers_good = v.readers_good;
  writers_good = v.writers_good;
}

pub Steps-IsGuarded : {s t : Shared} → IsGuarded s → Steps s t → IsGuarded t
Steps-IsGuarded v (stays s) = v
Steps-IsGuarded v (goes before last_step) = Step-IsGuarded (Steps-IsGuarded v before) last_step
