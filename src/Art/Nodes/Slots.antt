-- ===== src/Art/Nodes/Slots.antt =====
-- src/storage/art.cpp: the arrays of children of a `Node48` and a `Node256`.
use babydb_private.Prelude.{
  ℕ, zero, suc, ◌+◌, ◌<◌, ◌≡◌, refl, ap, sym, ◌∙◌, false, some, List, [], ◌∷◌, nat_eq,
  if◌then◌else◌, arith, Bool-cases, inl, inr, length, get_elem?,
}
use babydb_private.Outcome.{Outcome, ok, deref, ◌>>=◌}
use babydb_private.Art.{TreePointer, null, Children, no_child, child}
use babydb_private.Art.Arrays.{is_empty, child_at, set_child, free_from}
use babydb_private.Art.Search.{empty_marker}
use babydb_private.Art.Insert.{spread}
use babydb_private.Art.Nodes.{size}

pub child_at-set_child :
    (cs : Children) (i : ℕ) (c : TreePointer) (j : ℕ)
    → i < size cs
    → child_at (set_child cs i c) j ≡ (if nat_eq i j then ok c else child_at cs j)
unfolding child_at set_child
child_at-set_child no_child i c j lt = absurd (omega arith)
child_at-set_child (child c' cs) zero c zero lt = refl
child_at-set_child (child c' cs) zero c (suc j) lt = ground arith
child_at-set_child (child c' cs) (suc i) c zero lt = ground arith
child_at-set_child (child c' cs) (suc i) c (suc j) lt = ground (arith, child_at-set_child cs i c j)

pub size-set_child : (cs : Children) (i : ℕ) (c : TreePointer) → size (set_child cs i c) ≡ size cs
unfolding set_child
size-set_child no_child i c = refl
size-set_child (child c' cs) zero c = refl
size-set_child (child c' cs) (suc i) c = ap suc (size-set_child cs i c)

pub free_from_lem :
    (cs : Children) (n pos : ℕ) → child_at cs n ≡ ok null → free_from cs n pos ≡ ok (pos + n)
unfolding free_from child_at is_empty
free_from_lem no_child n pos h = absurd (ground (arith, h))
free_from_lem (child c cs) zero pos h = ground (arith, h)
free_from_lem (child c cs) (suc n) pos h = free_from_lem cs n (suc pos) h ∙ ap ok (omega arith)

-- The child that an index says.
unfoldable pub indexed : Children → ℕ → Outcome TreePointer
indexed cs i = if nat_eq i empty_marker then ok null else child_at cs i

first_indexed :
    (i : ℕ) (cs : Children)
    → (nat_eq i empty_marker ≡ false → (c : TreePointer) × (child_at cs i ≡ ok c))
    → (c : TreePointer) × (indexed cs i ≡ ok c)
unfolding indexed
first_indexed i cs there = elim (Bool-cases (nat_eq i empty_marker)) [
  | inl e ↦ (null, rw e refl)
  | inr e ↦ let (c, found) = there e in (c, rw e found)
]

child_at-child :
    (i : ℕ) (is : List ℕ) (cs wide : Children) (c : TreePointer)
    → indexed cs i ≡ ok c
    → ((b : ℕ) → b < length is → child_at wide b ≡ (deref (get_elem? is b) >>= indexed cs))
    → (b : ℕ) → b < length (i ∷ is)
    → child_at (child c wide) b ≡ (deref (get_elem? (i ∷ is) b) >>= indexed cs)
unfolding child_at
child_at-child i is cs wide c found each zero lt = sym found
child_at-child i is cs wide c found each (suc b) lt = each b (omega arith)

spread_step :
    (i : ℕ) (is : List ℕ) (cs wide : Children) (c : TreePointer)
    → indexed cs i ≡ ok c
    → spread is cs ≡ ok wide
    → spread (i ∷ is) cs ≡ ok (child c wide)
unfolding spread indexed
spread_step i is cs wide c found run = rw (found, run) refl

pub child_at-spread :
    (indexes : List ℕ) (cs : Children)
    → ((b i : ℕ)
        → get_elem? indexes b ≡ some i
        → nat_eq i empty_marker ≡ false
        → (c : TreePointer) × (child_at cs i ≡ ok c))
    → (wide : Children) × (spread indexes cs ≡ ok wide)
      × (size wide ≡ length indexes)
      × ((b : ℕ)
          → b < length indexes
          → child_at wide b ≡ (deref (get_elem? indexes b) >>= indexed cs))
unfolding spread
child_at-spread [] cs there = (no_child, refl, refl, λ b lt. absurd (omega (arith, lt)))
child_at-spread (i ∷ is) cs there =
    let (wide, run, sized, each) = child_at-spread is cs (λ b. there (suc b)) in
    let (c, found) = first_indexed i cs (there 0 i refl) in
    (
      child c wide,
      spread_step i is cs wide c found run,
      ap suc sized,
      child_at-child i is cs wide c found each,
    )
