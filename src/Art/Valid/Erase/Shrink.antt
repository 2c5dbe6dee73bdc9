-- ===== src/Art/Valid/Erase/Shrink.antt =====
-- src/storage/art.cpp: `eraseNode4` where one child stays.
use babydb_private.Prelude.{
  ℕ, zero, suc, ◌+◌, ◌<◌, ◌≡◌, refl, ap, sym, ◌∙◌, subst, Bool, true, false, ◌&&◌, some, List,
  length, get_elem?, arith, Bool-cases, inl, inr, nat_eq, nat_eq_iff, if◌then◌else◌, if_true,
  if_false,
}
use babydb_private.Outcome.{ok}
use babydb_private.Schema.{word_mod}
use babydb_private.Art.{
  Header, TreePointer, null, leaf, node, Body, node4, Entries, no_entry, entry,
}
use babydb_private.Art.Key.{load_key}
use babydb_private.Art.Arrays.{is_empty}
use babydb_private.Art.Search.{lookup, find_child}
use babydb_private.Art.Erase.{erase_body, replace_only}
use babydb_private.Art.Nodes.Erase.{OneLeft}
use babydb_private.Art.Valid.{IsOn, extend, IsTree}
use babydb_private.Art.Valid.Keys.{byte_at, length-extend}
use babydb_private.Art.Valid.Lookup.{continues, continues-IsOn, lookup_step}
use babydb_private.Art.Valid.Replace.{Changes}
use babydb_private.Art.Valid.Erase.{is_own, Erased}
use babydb_private.Art.Valid.Erase.Leaf.{other_leaf, nothing_found}
use babydb_private.Art.Valid.Erase.Paths.{joined_header, join_prefix_lem}
use babydb_private.Art.Valid.Erase.Lift.{Lifts, leaf-Lifts, node-Lifts}

-- What `eraseNode4` writes in the place of a node with one child.
abbrev Lifted : ℕ → List ℕ → Header → ℕ → TreePointer → Type 0
Lifted n path h x d =
    (r : TreePointer) × (replace_only h (entry x d no_entry) ≡ ok r)
    × (is_empty r ≡ false)
    × Lifts n path h.prefix x d r

replace_only-Lifted :
    (n : ℕ) (path : List ℕ) (h : Header) (b : Body) (x : ℕ) (d : TreePointer)
    → IsTree (suc n) path (node h b)
    → x < 256
    → is_empty d ≡ false
    → IsTree n (extend path h.prefix x) d
    → Lifted n path h x d
unfolding replace_only is_empty
replace_only-Lifted n path h b x null t hx full below = absurd (ground (arith, full))
replace_only-Lifted n path h b x (leaf v) t hx full below =
    (leaf v, refl, refl, leaf-Lifts n path h.prefix x v below)
replace_only-Lifted zero path h b x (node g b') t hx full below = absurd below
replace_only-Lifted (suc n) path h b x (node g b') t hx full below =
    let room : h.prefix_length + g.prefix_length < 8 =
      omega (arith, below.1, length-extend path h.prefix x, t.0.0) in
    (
      node (joined_header h x g) b',
      ap (λ i. ok (node i b')) (join_prefix_lem h x g t.0 below.0 room),
      refl,
      node-Lifts n path h x g b' t.0 t.2 hx below,
    )

and_right : (a b : Bool) → b ≡ false → a && b ≡ false
and_right a b e = ground (arith, e)

and_left : (a b : Bool) → a ≡ false → a && b ≡ false
and_left a b e = ground (arith, e)

own_is : (c : TreePointer) (k : ℕ) → is_own c k ≡ true → c ≡ leaf k
own_is null k e = absurd (ground (arith, e))
own_is (leaf v) k e = ap leaf ((nat_eq_iff v k).0 e)
own_is (node h b) k e = absurd (ground (arith, e))

same_child : (a b : TreePointer) → ok a ≡ ok b → a ≡ b
same_child a b e = ground (arith, e)

module _ (n : ℕ) (path : List ℕ) (h : Header) (es : Entries) (k : ℕ)
    (t : IsTree (suc n) path (node h (node4 es))) (hk : k < word_mod) (on : IsOn path k) (z : ℕ)
    (hz : z < 256) (c : TreePointer) (found : find_child (node4 es) z ≡ ok c)
    (leads : continues path h.prefix k ≡ true)
    (at : get_elem? (load_key k) (length path + length h.prefix) ≡ some z) (own : is_own c k ≡ true)
    (only : OneLeft es z) where
  -- The child for each byte: the key's leaf, the child that is left, or null.
  child_for :
      (w : ℕ)
      → find_child (node4 es) w
        ≡ ok (if nat_eq z w then leaf k else if nat_eq only.byte w then only.below else null)
  unfolding find_child
  child_for w = elim (Bool-cases (nat_eq z w)) [
    | inl e ↦
        ap (find_child (node4 es)) (sym ((nat_eq_iff z w).0 e))
        ∙ found
        ∙ ap ok (own_is c k own ∙ sym (if_true _ _ _ e))
    | inr e ↦ ap ok (only.others w e ∙ sym (if_false _ _ _ e))
  ]

  not_for_key :
      (j w : ℕ)
      → get_elem? (load_key j) (length path + length h.prefix) ≡ some w
      → nat_eq k j ≡ true
      → nat_eq only.byte w ≡ false
  not_for_key j w at_w e =
      let same : k ≡ j = (nat_eq_iff k j).0 e in
      let byte =
        sym at ∙ ap (λ i. get_elem? (load_key i) (length path + length h.prefix)) same ∙ at_w in
      ground (arith, byte, only.differ)

  -- A lookup of another key in the old node leads to the child that is left, or nowhere.
  old_lookup :
      (fuel j w : ℕ)
      → n < fuel
      → j < word_mod
      → IsOn path j
      → get_elem? (load_key j) (length path + length h.prefix) ≡ some w
      → nat_eq k j ≡ false
      → lookup (suc fuel) false (node h (node4 es)) (load_key j) (length path) ≡ (
          if continues path h.prefix j && nat_eq only.byte w
          then lookup fuel false only.below (load_key j) (length (extend path h.prefix only.byte))
          else ok null)
  old_lookup fuel j w less hj onj at_w other =
      let ext = extend path h.prefix w in
      let step = λ (d : TreePointer) (there : find_child (node4 es) w ≡ ok d).
        lookup_step path h (node4 es) j w d fuel t.0 t.1 at_w there in
      elim (Bool-cases (continues path h.prefix j)) [
        | inr e ↦
            step _ (child_for w)
            ∙ if_false _ _ _ e
            ∙ sym (if_false _ _ _ (and_left _ (nat_eq only.byte w) e))
        | inl e ↦ elim (Bool-cases (nat_eq z w)) [
          | inl f ↦
              let on_k =
                continues-IsOn path h.prefix k w on leads (at ∙ ap some ((nat_eq_iff z w).0 f)) in
              let on_j = continues-IsOn path h.prefix j w onj e at_w in
              let off : nat_eq only.byte w ≡ false = ground (arith, f, only.differ) in
              step (leaf k) (child_for w ∙ ap ok (if_true _ _ _ f))
              ∙ if_true _ _ _ e
              ∙ other_leaf n fuel k j ext less hk hj on_k on_j other
              ∙ sym (if_false _ _ _ (and_right (continues path h.prefix j) _ off))
          | inr f ↦ elim (Bool-cases (nat_eq only.byte w)) [
            | inl g ↦
                let both : continues path h.prefix j && nat_eq only.byte w ≡ true =
                  ground (arith, e, g) in
                let depth : length ext ≡ length (extend path h.prefix only.byte) =
                  length-extend path h.prefix w ∙ sym (length-extend path h.prefix only.byte) in
                step only.below (child_for w ∙ ap ok (if_false _ _ _ f ∙ if_true _ _ _ g))
                ∙ if_true _ _ _ e
                ∙ ap (lookup fuel false only.below (load_key j)) depth
                ∙ sym (if_true _ _ _ both)
            | inr g ↦
                step null (child_for w ∙ ap ok (if_false _ _ _ f ∙ if_false _ _ _ g))
                ∙ if_true _ _ _ e
                ∙ nothing_found n fuel (length ext) (load_key j) less
                ∙ sym (if_false _ _ _ (and_right (continues path h.prefix j) _ g))
          ]
        ]
      ]

  lift-Changes :
      (r : TreePointer)
      → Lifts n path h.prefix only.byte only.below r
      → Changes null (suc n) path (node h (node4 es)) k r
  lift-Changes r lifts zero j lt hj onj = absurd (omega arith)
  lift-Changes r lifts (suc fuel) j lt hj onj =
      let (w, at_w, hw) = byte_at j (length path + length h.prefix) (omega (arith, t.1, t.0.0)) in
      let less : n < fuel = omega (arith, lt) in
      let after = lifts fuel j w less hj onj at_w in
      elim (Bool-cases (nat_eq k j)) [
        | inl e ↦
            let gone =
              and_right (continues path h.prefix j) (nat_eq only.byte w) (not_for_key j w at_w e) in
            after ∙ if_false _ _ _ gone ∙ sym (if_true _ _ _ e)
        | inr e ↦ after ∙ sym (if_false _ _ _ e ∙ old_lookup fuel j w less hj onj at_w e)
      ]

  pub shrink : Erased (suc n) path (node h (node4 es)) k (erase_body h (node4 es) z)
  unfolding erase_body is_empty
  shrink =
      let (d, there, tree) = t.4 only.byte only.byte_fits in
      let below : IsTree n (extend path h.prefix only.byte) only.below =
        let off : nat_eq z only.byte ≡ false = ground (arith, only.differ) in
        let self : nat_eq only.byte only.byte ≡ true = ground arith in
        let same : ok d ≡ ok only.below =
          sym there ∙ child_for only.byte ∙ ap ok (if_false _ _ _ off ∙ if_true _ _ _ self) in
        subst (IsTree n (extend path h.prefix only.byte)) (same_child d only.below same) tree in
      let (r, run, full, lifts) =
        replace_only-Lifted n path h (node4 es) only.byte only.below t only.byte_fits only.full
          below in
      (r, ap (replace_only h) only.left ∙ run, (λ a b. full), lift-Changes r lifts)
