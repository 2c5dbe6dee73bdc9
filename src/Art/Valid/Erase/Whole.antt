-- ===== src/Art/Valid/Erase/Whole.antt =====
-- src/storage/art.cpp: `erase` in a tree that insertion made.
use babydb_private.Prelude.{
  ℕ, zero, suc, ◌+◌, ◌<◌, ◌≡◌, refl, sym, ◌∙◌, subst, false, some, List, length, get_elem?, if_true,
  if_false, arith, Bool-cases, inl, inr,
}
use babydb_private.Outcome.{ok}
use babydb_private.Schema.{word_mod}
use babydb_private.Art.{Header, TreePointer, null, leaf, node, Body}
use babydb_private.Art.Key.{load_key}
use babydb_private.Art.Search.{lookup, find_child}
use babydb_private.Art.Erase.{erase}
use babydb_private.Art.Valid.{IsOn, extend, IsTree}
use babydb_private.Art.Valid.Keys.{byte_at, length-extend}
use babydb_private.Art.Valid.Lookup.{continues, continues-IsOn, lookup_step}
use babydb_private.Art.Valid.Erase.Turn.{erase_turn}
use babydb_private.Art.Valid.Erase.{Erased, IsSteady}
use babydb_private.Art.Valid.Erase.Leaf.{absent-Changes, null-Changes, erase_leaf}
use babydb_private.Art.Valid.Erase.Step.{step}

off_prefix :
    (n fuel : ℕ) (path : List ℕ) (h : Header) (b : Body) (k z : ℕ) (c : TreePointer)
    → IsTree (suc n) path (node h b)
    → get_elem? (load_key k) (length path + length h.prefix) ≡ some z
    → find_child b z ≡ ok c
    → continues path h.prefix k ≡ false
    → suc n < fuel
    → lookup fuel false (node h b) (load_key k) (length path) ≡ ok null
off_prefix n zero path h b k z c t at found e lt = absurd (omega arith)
off_prefix n (suc fuel) path h b k z c t at found e lt =
    lookup_step path h b k z c fuel t.0 t.1 at found ∙ if_false _ _ _ e

-- In a tree that insertion made, and with more fuel than the bound on the nodes that stand one below
-- the other, `erase` of a 64-bit key on the tree's path ends. It leaves null only if the tree was null
-- or the key's own leaf. With any fuel above the bound, a lookup of that key then gives null, and a
-- lookup of any other 64-bit key on the path gives what it gave before. The condition is that the
-- node that holds the key's leaf, if there is one, is a `Node4` or not at the size at which a removal
-- makes it a smaller node.
pub erase-Erased :
    (n fuel : ℕ) (path : List ℕ) (p : TreePointer) (k : ℕ)
    → IsTree n path p
    → k < word_mod
    → IsOn path k
    → IsSteady n path p k
    → n < fuel
    → Erased n path p k (erase fuel p (load_key k) (length path))
erase-Erased n zero path p k t hk on steady lt = absurd (omega arith)
erase-Erased n (suc fuel) path null k t hk on steady lt =
    (null, (unfold erase in refl), (λ full other. full), null-Changes n path k)
erase-Erased n (suc fuel) path (leaf v) k t hk on steady lt =
    erase_leaf n fuel path v k t.0 hk t.1 on
erase-Erased zero (suc fuel) path (node h b) k t hk on steady lt = absurd t
erase-Erased (suc n) (suc fuel) path (node h b) k t hk on steady lt =
    let d = length path + h.prefix_length in
    let (z, at, hz) = byte_at k (length path + length h.prefix) (omega (arith, t.1, t.0.0)) in
    let at' : get_elem? (load_key k) d ≡ some z = rw t.0.0 at at in
    let (c, found, tree) = t.4 z hz in
    let path' = extend path h.prefix z in
    let level : suc d ≡ length path' = omega (arith, length-extend path h.prefix z, t.0.0) in
    let turn = erase_turn fuel path h b k z t.0 t.1 at' in
    elim (Bool-cases (continues path h.prefix k)) [
      | inl e ↦
          let on' = continues-IsOn path h.prefix k z on e at in
          let (kept, steady') = steady z at c found in
          let shrunk = λ (c : TreePointer). erase fuel c (load_key k) (d + 1) in
          let next : length path' ≡ d + 1 = omega (arith, level) in
          let below =
            subst (λ m. Erased n path' c k (erase fuel c (load_key k) m)) next
              (erase-Erased n fuel path' c k tree hk on' steady' (omega (arith, lt))) in
          subst (Erased (suc n) path (node h b) k) (sym (turn ∙ if_true _ _ _ e))
            (step n path h b k t hk on z hz c found tree e at d level shrunk kept below)
      | inr e ↦ subst (Erased (suc n) path (node h b) k) (sym (turn ∙ if_false _ _ _ e)) (
        node h b,
        refl,
        (λ full other. full),
        absent-Changes (suc n) path (node h b) k
            (λ f more. off_prefix n f path h b k z c t at found e more),
      )
    ]
