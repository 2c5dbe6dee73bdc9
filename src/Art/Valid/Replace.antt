-- ===== src/Art/Valid/Replace.antt =====
-- src/storage/art.cpp: an insertion below a node whose prefix the key has.
use babydb_private.Prelude.{
  ℕ, zero, suc, ◌+◌, ◌^◌, ◌<◌, ◌≡◌, refl, ap, sym, ◌∙◌, subst, true, false, some, List, length,
  nat_eq, nat_eq_iff, if◌then◌else◌, if_true, if_false, arith, Bool-cases, ◌⊎◌, inl, inr, get_elem?,
}
use babydb_private.Outcome.{Outcome, ok}
use babydb_private.Schema.{word_mod}
use babydb_private.Art.{Header, TreePointer, null, leaf, node, Body}
use babydb_private.Art.Key.{load_key}
use babydb_private.Art.Arrays.{is_empty}
use babydb_private.Art.Search.{lookup, find_child}
use babydb_private.Art.Nodes.{IsBody}
use babydb_private.Art.Valid.{IsOn, extend, IsTree}
use babydb_private.Art.Valid.Keys.{byte_at}
use babydb_private.Art.Valid.Lookup.{continues, continues-IsOn, lookup_step}
use babydb_private.Art.Valid.Fork.{leaf_case, null_case}

-- For the key `k`, a lookup in `p'` ends at `now`; for the others, as in `p`.
abbrev pub Changes : TreePointer → ℕ → List ℕ → TreePointer → ℕ → TreePointer → Type 0
Changes now n path p k p' =
    (fuel j : ℕ)
    → n < fuel
    → j < word_mod
    → IsOn path j
    → lookup fuel false p' (load_key j) (length path)
      ≡ (if nat_eq k j then ok now else lookup fuel false p (load_key j) (length path))

-- `p'` has the key `k` and otherwise the keys of `p`, as lookups tell.
abbrev pub Gains : ℕ → List ℕ → TreePointer → ℕ → TreePointer → Type 0
Gains n path p k p' = Changes (leaf k) n path p k p'

-- What an insertion makes of a tree.
abbrev pub Inserted : ℕ → List ℕ → TreePointer → ℕ → Outcome TreePointer → Type 0
Inserted n path p k result =
    (p' : TreePointer) × (result ≡ ok p')
    × (is_empty p' ≡ false)
    × IsTree n path p'
    × Gains n path p k p'

pub null-Gains :
    (n : ℕ) (path : List ℕ) (k : ℕ) → k < 2 ^ 63 → IsOn path k → Gains n path null k (leaf k)
null-Gains n path k small on zero j lt hj onj = absurd (omega arith)
null-Gains n path k small on (suc fuel) j lt hj onj =
    leaf_case fuel k j path (omega (arith, small)) hj on onj
    ∙ ap (λ r. if nat_eq k j then ok (leaf k) else r)
        (sym (null_case fuel (load_key j) (length path)))

module _ (n : ℕ) (path : List ℕ) (h : Header) (b : Body) (t : IsTree (suc n) path (node h b))
    (z : ℕ) (c' : TreePointer) (tree : IsTree n (extend path h.prefix z) c') (b' : Body)
    (valid : IsBody b')
    (map' : (j : ℕ)
      → j < 256
      → find_child b' j ≡ (if nat_eq z j then ok c' else find_child b j)) where
  child-IsTree :
      (j : ℕ)
      → j < 256
      → (d : TreePointer) × (find_child b' j ≡ ok d) × IsTree n (extend path h.prefix j) d
  child-IsTree j hj = elim (Bool-cases (nat_eq z j)) [
    | inl e ↦ (
      c',
      map' j hj ∙ rw e refl,
      subst (λ i. IsTree n (extend path h.prefix i) c') ((nat_eq_iff z j).0 e) tree,
    )
    | inr e ↦ let (d, there, tree') = t.4 j hj in (d, map' j hj ∙ rw e there, tree')
  ]

  pub replaced-IsTree : IsTree (suc n) path (node h b')
  replaced-IsTree = (t.0, t.1, t.2, valid, child-IsTree)

module _ (now : TreePointer) (n : ℕ) (path : List ℕ) (h : Header) (b : Body) (k : ℕ)
    (t : IsTree (suc n) path (node h b)) (z : ℕ) (c c' : TreePointer)
    (found : find_child b z ≡ ok c) (k_continues : continues path h.prefix k ≡ true)
    (k_at : get_elem? (load_key k) (length path + length h.prefix) ≡ some z)
    (changes : Changes now n (extend path h.prefix z) c k c') (b' : Body)
    (map' : (j : ℕ)
      → j < 256
      → find_child b' j ≡ (if nat_eq z j then ok c' else find_child b j)) where
  child_after : (j : ℕ) → j < 256 → (d : TreePointer) × (find_child b' j ≡ ok d)
  child_after j hj = elim (Bool-cases (nat_eq z j)) [
    | inl e ↦ (c', map' j hj ∙ if_true _ _ _ e)
    | inr e ↦ let (d, there, _) = t.4 j hj in (d, map' j hj ∙ (if_false _ _ _ e ∙ there))
  ]

  k_leads :
      (j x : ℕ)
      → get_elem? (load_key j) (length path + length h.prefix) ≡ some x
      → nat_eq k j ≡ true
      → (continues path h.prefix j ≡ true) × (nat_eq z x ≡ true)
  k_leads j x at e =
      let same : k ≡ j = (nat_eq_iff k j).0 e in
      (
        subst (λ i. continues path h.prefix i ≡ true) same k_continues,
        ground (
          arith,
          sym k_at ∙ ap (λ i. get_elem? (load_key i) (length path + length h.prefix)) same ∙ at,
        ),
      )

  not_k :
      (j x : ℕ)
      → get_elem? (load_key j) (length path + length h.prefix) ≡ some x
      → (continues path h.prefix j ≡ false) ⊎ (nat_eq z x ≡ false)
      → nat_eq k j ≡ false
  not_k j x at why = elim (Bool-cases (nat_eq k j)) [
    | inr e ↦ e
    | inl e ↦
        let (leads, byte) = k_leads j x at e in
        absurd (elim why [ inl g ↦ ground (arith, leads, g) | inr g ↦ ground (arith, byte, g) ])
  ]

  pub replaced-Changes : Changes now (suc n) path (node h b) k (node h b')
  replaced-Changes zero j lt hj on = absurd (omega arith)
  replaced-Changes (suc fuel) j lt hj on =
      let (x, at, hx) = byte_at j (length path + length h.prefix) (omega (arith, t.1, t.0.0)) in
      elim (Bool-cases (continues path h.prefix j)) [
        | inr e ↦
            let (old, there, _) = t.4 x hx in
            let (new, there') = child_after x hx in
            let other = not_k j x at (inl e) in
            let before = lookup_step path h b j x old fuel t.0 t.1 at there ∙ if_false _ _ _ e in
            let after = lookup_step path h b' j x new fuel t.0 t.1 at there' ∙ if_false _ _ _ e in
            rw other (after ∙ sym before)
        | inl e ↦ elim (Bool-cases (nat_eq z x)) [
          | inl f ↦
              let here : z ≡ x = (nat_eq_iff z x).0 f in
              let at_z = at ∙ ap some (sym here) in
              let on_z = continues-IsOn path h.prefix j z on e at_z in
              let hz : z < 256 = omega (arith, hx, here) in
              let self : nat_eq z z ≡ true = ground arith in
              let before = lookup_step path h b j z c fuel t.0 t.1 at_z found ∙ if_true _ _ _ e in
              let new = map' z hz ∙ if_true _ _ _ self in
              let after = lookup_step path h b' j z c' fuel t.0 t.1 at_z new ∙ if_true _ _ _ e in
              after ∙ changes fuel j (omega (arith, lt)) hj on_z ∙ rw before refl
          | inr f ↦
              let (old, there, _) = t.4 x hx in
              let other = not_k j x at (inr f) in
              let before = lookup_step path h b j x old fuel t.0 t.1 at there in
              let new = map' x hx ∙ (if_false _ _ _ f ∙ there) in
              let after = lookup_step path h b' j x old fuel t.0 t.1 at new in
              rw other (after ∙ sym before)
        ]
      ]
