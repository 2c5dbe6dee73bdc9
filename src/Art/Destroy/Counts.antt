-- ===== src/Art/Destroy/Counts.antt =====
-- src/storage/art.cpp: sums over a run of bytes, for what `destroy` meets at the children of a node.
use babydb_private.Prelude.{
  ℕ, zero, suc, ◌+◌, ◌≤◌, ◌<◌, ◌≡◌, refl, sym, false, nat_eq, nat_eq_iff, if◌then◌else◌, arith,
  Bool-cases, inl, inr,
}

-- The sum of `g` at `n` numbers from `s` on.
abbrev pub total : ℕ → ℕ → (ℕ → ℕ) → ℕ
total zero s g = 0
total (suc n) s g = g s + total n (suc s) g

total_eq :
    (n s : ℕ) (g h : ℕ → ℕ) → ((z : ℕ) → s ≤ z → z < s + n → g z ≡ h z) → total n s g ≡ total n s h
total_eq zero s g h same = refl
total_eq (suc n) s g h same = omega (
  arith,
  same s (omega arith) (omega arith),
  total_eq n (suc s) g h (λ z a b. same z (omega arith) (omega arith)),
)

pub total_zero : (n s : ℕ) (g : ℕ → ℕ) → ((z : ℕ) → s ≤ z → z < s + n → g z ≡ 0) → total n s g ≡ 0
total_zero zero s g none_there = refl
total_zero (suc n) s g none_there = omega (
  arith,
  none_there s (omega arith) (omega arith),
  total_zero n (suc s) g (λ z a b. none_there z (omega arith) (omega arith)),
)

-- One number whose value is raised from zero.
pub total_with :
    (n s x a : ℕ) (g h : ℕ → ℕ)
    → s ≤ a
    → a < s + n
    → h a ≡ 0
    → ((z : ℕ) → s ≤ z → z < s + n → g z ≡ (if nat_eq a z then x else h z))
    → total n s g ≡ x + total n s h
total_with zero s x a g h low high free each = absurd (omega arith)
total_with (suc n) s x a g h low high free each = elim (Bool-cases (nat_eq a s)) [
  | inl e ↦
      let here : a ≡ s = (nat_eq_iff a s).0 e in
      let rest = total_eq n (suc s) g h (λ z l u.
        let off : nat_eq a z ≡ false = ground (arith, here, l) in
        ground (arith, each z (omega arith) (omega arith), off)) in
      let first : g s ≡ x = ground (arith, each s (omega arith) (omega arith), e) in
      let gone : h s ≡ 0 = rw (sym here) free in omega (arith, rest, first, gone)
  | inr e ↦
      let first : g s ≡ h s = ground (arith, each s (omega arith) (omega arith), e) in
      let rest =
        total_with n (suc s) x a g h (ground (arith, e, low)) (omega arith) free
          (λ z l u. each z (omega arith) (omega arith)) in
      omega (arith, rest, first)
]
