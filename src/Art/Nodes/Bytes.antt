-- ===== src/Art/Nodes/Bytes.antt =====
-- src/storage/art.cpp: `flipSign` is its own inverse on bytes.
use babydb_private.Prelude.{
  ℕ, zero, suc, ◌<◌, ◌≡◌, refl, Bool, true, ◌&&◌, nat_eq, ltb, nat_eq_iff, arith, Bool-cases, inl,
  inr, ap, sym, ◌∙◌,
}
use babydb_private.Art.Key.{flip_sign}

all_below : ℕ → (ℕ → Bool) → Bool
all_below zero p = true
all_below (suc n) p = p n && all_below n p

all_below_lem : (n : ℕ) (p : ℕ → Bool) (x : ℕ) → all_below n p ≡ true → x < n → p x ≡ true
unfolding all_below
all_below_lem zero p x h lt = absurd (omega arith)
all_below_lem (suc n) p x h lt = ground (arith, all_below_lem n p x)

flip_table : all_below 256 (λ x. nat_eq (flip_sign (flip_sign x)) x && ltb (flip_sign x) 256) ≡ true
unfolding all_below flip_sign
flip_table = refl

pub flip_sign_twice : (x : ℕ) → x < 256 → flip_sign (flip_sign x) ≡ x
flip_sign_twice x h = ground (arith, all_below_lem 256 _ x flip_table h)

pub flip_sign-lt : (x : ℕ) → x < 256 → flip_sign x < 256
flip_sign-lt x h = ground (arith, all_below_lem 256 _ x flip_table h)

pub flip_sign_eq : (x y : ℕ) → x < 256 → y < 256 → nat_eq (flip_sign x) (flip_sign y) ≡ nat_eq x y
flip_sign_eq x y hx hy = elim (Bool-cases (nat_eq (flip_sign x) (flip_sign y))) [
  | inl e ↦
      let same : flip_sign x ≡ flip_sign y = (nat_eq_iff _ _).0 e in
      ground (arith, e, ap flip_sign same, flip_sign_twice x hx, flip_sign_twice y hy)
  | inr e ↦ elim (Bool-cases (nat_eq x y)) [
    | inr f ↦ e ∙ sym f
    | inl f ↦
        let same : flip_sign x ≡ flip_sign y = ap flip_sign ((nat_eq_iff x y).0 f) in
        ground (arith, e, same)
  ]
]
