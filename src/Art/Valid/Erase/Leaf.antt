-- ===== src/Art/Valid/Erase/Leaf.antt =====
-- src/storage/art.cpp: `erase` at a leaf and at null.
use babydb_private.Prelude.{
  ℕ, zero, suc, ◌^◌, ◌≤◌, ◌<◌, ◌≡◌, refl, ap, sym, ◌∙◌, subst, true, false, List, length, take,
  take-take, nat_eq, nat_eq_iff, if_true, if_false, arith, Bool-cases, inl, inr,
}
use babydb_private.Outcome.{ok}
use babydb_private.Schema.{word_mod}
use babydb_private.Art.{TreePointer, null, leaf, node}
use babydb_private.Art.Key.{load_key}
use babydb_private.Art.Arrays.{is_empty}
use babydb_private.Art.Search.{lookup}
use babydb_private.Art.Erase.{erase, is_match}
use babydb_private.Art.Valid.{IsOn, IsTree}
use babydb_private.Art.Valid.Fork.{leaf_case, null_case}
use babydb_private.Art.Valid.Replace.{Changes}
use babydb_private.Art.Valid.Erase.Turn.{leaf_matches_from}
use babydb_private.Art.Valid.Erase.{is_own, Erased}

-- A tree without the key stays as it is.
pub absent-Changes :
    (n : ℕ) (path : List ℕ) (p : TreePointer) (k : ℕ)
    → ((fuel : ℕ) → n < fuel → lookup fuel false p (load_key k) (length path) ≡ ok null)
    → Changes null n path p k p
absent-Changes n path p k absent fuel j lt hj on = elim (Bool-cases (nat_eq k j)) [
  | inl e ↦
      let same : k ≡ j = (nat_eq_iff k j).0 e in
      subst (λ i. lookup fuel false p (load_key i) (length path) ≡ ok null) same (absent fuel lt)
      ∙ sym (if_true _ _ _ e)
  | inr e ↦ sym (if_false _ _ _ e)
]

pub nothing_found : (n fuel d : ℕ) (ks : List ℕ) → n < fuel → lookup fuel false null ks d ≡ ok null
nothing_found n zero d ks lt = absurd (omega arith)
nothing_found n (suc fuel) d ks lt = null_case fuel ks d

pub other_leaf :
    (n fuel v k : ℕ) (path : List ℕ)
    → n < fuel
    → v < word_mod
    → k < word_mod
    → IsOn path v
    → IsOn path k
    → nat_eq v k ≡ false
    → lookup fuel false (leaf v) (load_key k) (length path) ≡ ok null
other_leaf n zero v k path lt hv hk onv onk e = absurd (omega arith)
other_leaf n (suc fuel) v k path lt hv hk onv onk e =
    leaf_case fuel v k path hv hk onv onk ∙ if_false _ _ _ e

pub null-Changes : (n : ℕ) (path : List ℕ) (k : ℕ) → Changes null n path null k null
null-Changes n path k =
    absent-Changes n path null k (λ fuel lt. nothing_found n fuel (length path) (load_key k) lt)

leaf-Changes :
    (n : ℕ) (path : List ℕ) (k : ℕ)
    → k < word_mod
    → IsOn path k
    → Changes null n path (leaf k) k null
leaf-Changes n path k hk on fuel j lt hj onj =
    let gone = nothing_found n fuel (length path) (load_key j) lt in
    elim (Bool-cases (nat_eq k j)) [
      | inl e ↦ gone ∙ sym (if_true _ _ _ e)
      | inr e ↦ gone ∙ sym (if_false _ _ _ e ∙ other_leaf n fuel k j path lt hk hj on onj e)
    ]

own_leaf :
    (n v k : ℕ) (path : List ℕ)
    → k < word_mod
    → IsOn path k
    → nat_eq v k ≡ true
    → Changes null n path (leaf v) k null
own_leaf n v k path hk on e =
    let same : v ≡ k = (nat_eq_iff v k).0 e in
    subst (λ i. Changes null n path (leaf i) k null) (sym same) (leaf-Changes n path k hk on)

pub erase_leaf :
    (n f : ℕ) (path : List ℕ) (v k : ℕ)
    → v < 2 ^ 63
    → k < word_mod
    → IsOn path v
    → IsOn path k
    → Erased n path (leaf v) k (erase (suc f) (leaf v) (load_key k) (length path))
unfolding erase is_empty
erase_leaf n f path v k hv hk onv onk =
    let run = leaf_matches_from v k (length path) (omega (arith, hv)) hk (onv ∙ sym onk) in
    elim (Bool-cases (nat_eq v k)) [
      | inl e ↦ (
        null,
        rw (run, e) refl,
        (λ full other. absurd (ground (arith, e, other))),
        own_leaf n v k path hk onk e,
      )
      | inr e ↦ (
        leaf v,
        rw (run, e) refl,
        (λ full other. refl),
        absent-Changes n path (leaf v) k
            (λ fuel lt. other_leaf n fuel v k path lt (omega (arith, hv)) hk onv onk e),
      )
    ]

pub match_lem :
    (n d k : ℕ) (path : List ℕ) (c : TreePointer)
    → IsTree n path c
    → k < word_mod
    → IsOn path k
    → d ≤ length path
    → is_match c (load_key k) d ≡ ok (is_own c k)
unfolding is_match
match_lem n d k path null t hk on le = refl
match_lem n d k path (leaf v) t hk on le =
    let front : take d (load_key v) ≡ take d (load_key k) =
      sym (take-take d (length path) (load_key v) le)
      ∙ ap (take d) (t.1 ∙ sym on)
      ∙ take-take d (length path) (load_key k) le in
    leaf_matches_from v k d (omega (arith, t.0)) hk front
match_lem n d k path (node h b) t hk on le = refl

pub own_full : (c : TreePointer) (k : ℕ) → is_own c k ≡ true → is_empty c ≡ false
unfolding is_empty
own_full null k e = absurd (ground (arith, e))
own_full (leaf v) k e = refl
own_full (node h b) k e = refl

pub own-Changes :
    (n k : ℕ) (path : List ℕ) (c : TreePointer)
    → k < word_mod
    → IsOn path k
    → is_own c k ≡ true
    → Changes null n path c k null
own-Changes n k path null hk on e = absurd (ground (arith, e))
own-Changes n k path (leaf v) hk on e = own_leaf n v k path hk on e
own-Changes n k path (node h b) hk on e = absurd (ground (arith, e))
