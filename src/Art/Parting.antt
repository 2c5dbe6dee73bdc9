-- ===== src/Art/Parting.antt =====
-- src/storage/art.cpp: where the bytes of two keys part.
use babydb_private.Prelude.{
  true, ℕ, zero, suc, ◌<◌, ◌≤◌, ◌≡◌, refl, false, ◌&&◌, some, List, [], ◌∷◌, length, take, drop,
  get_elem?, nat_eq, arith, Bool-cases, inl, inr,
}
use babydb_private.Outcome.{ok}
use babydb_private.Art.Search.{agree}
use babydb_private.Art.Insert.{common_length}
use babydb_private.Art.Leaf.{equal_lists}

-- Where two different lists of one length part.
pub record Parting (xs ys : List ℕ) (n : ℕ) : Type 0 where
  pub first : ℕ
  pub second : ℕ
  pub run : common_length xs ys ≡ ok n
  pub at_first : get_elem? xs n ≡ some first
  pub at_second : get_elem? ys n ≡ some second
  pub differ : nat_eq first second ≡ false
  pub agreed : take n xs ≡ take n ys
  pub within : n < length xs

pub parting :
    (xs ys : List ℕ) → length xs ≡ length ys → equal_lists xs ys ≡ false → (n : ℕ) × Parting xs ys n
unfolding equal_lists common_length
parting [] [] l h = absurd (ground arith)
parting [] (y ∷ ys) l h = absurd (ground arith)
parting (x ∷ xs) [] l h = absurd (ground arith)
parting (x ∷ xs) (y ∷ ys) l h = elim (Bool-cases (nat_eq x y)) [
  | inl e ↦
      let (n, p) = parting xs ys (omega (arith, l)) (rw (e, equal_lists) at h) in
      (
        suc n,
        record {
          first = p.first;
          second = p.second;
          run = rw (e, p.run) refl;
          at_first = p.at_first;
          at_second = p.at_second;
          differ = p.differ;
          agreed = ground (arith, e, p.agreed);
          within = omega (arith, p.within);
        },
      )
  | inr e ↦ (
    0,
    record {
      first = x;
      second = y;
      run = rw (e, common_length) refl;
      at_first = refl;
      at_second = refl;
      differ = e;
      agreed = refl;
      within = omega arith;
    },
  )
]

-- Two lists are equal if they agree before a position, at it and behind it.
pub equal_lists-split :
    (n : ℕ) (xs zs : List ℕ) (x z : ℕ)
    → get_elem? xs n ≡ some x
    → get_elem? zs n ≡ some z
    → equal_lists xs zs ≡ (
        equal_lists (take n xs) (take n zs)
        && (nat_eq x z && equal_lists (drop (suc n) xs) (drop (suc n) zs)))
unfolding equal_lists
equal_lists-split n [] zs x z hx hz = absurd (ground arith)
equal_lists-split n (a ∷ xs) [] x z hx hz = absurd (ground arith)
equal_lists-split zero (a ∷ xs) (b ∷ zs) x z hx hz = ground arith
equal_lists-split (suc n) (a ∷ xs) (b ∷ zs) x z hx hz =
    ground (arith, equal_lists-split n xs zs x z hx hz)

pub agree-take :
    (n : ℕ) (zs ps : List ℕ)
    → length ps ≡ n
    → n ≤ length zs
    → agree n zs ps ≡ ok (equal_lists ps (take n zs))
unfolding agree equal_lists
agree-take zero zs [] l h = refl
agree-take zero zs (p ∷ ps) l h = absurd (omega (arith, l))
agree-take (suc n) [] ps l h = absurd (omega (arith, h))
agree-take (suc n) (z ∷ zs) [] l h = absurd (omega (arith, l))
agree-take (suc n) (z ∷ zs) (p ∷ ps) l h = ground (arith, agree-take n zs ps)

pub no_prefix :
    (n : ℕ) (zs ps : List ℕ) → nat_eq n 0 ≡ true → length ps ≡ n → equal_lists ps (take n zs) ≡ true
unfolding equal_lists
no_prefix zero zs [] e l = refl
no_prefix zero zs (p ∷ ps) e l = absurd (omega (arith, l))
no_prefix (suc n) zs ps e l = absurd (ground (arith, e))
