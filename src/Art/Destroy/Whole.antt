-- ===== src/Art/Destroy/Whole.antt =====
-- src/storage/art.cpp: `destroy` on a tree that insertion made.
use babydb_private.Prelude.{
  ℕ, zero, suc, ◌+◌, ◌<◌, ◌≡◌, refl, ap, sym, ◌∙◌, subst, arith, List, get_elem?-lt,
}
use babydb_private.Outcome.{Outcome, ok, throws, undefined, unfinished}
use babydb_private.Art.{TreePointer, null, leaf, node, Body, node4, node16, node48, node256}
use babydb_private.Art.Key.{flip_sign}
use babydb_private.Art.Arrays.{child_at, entry_child}
use babydb_private.Art.Search.{find_child}
use babydb_private.Art.Nodes.{IsBody}
use babydb_private.Art.Nodes.Bytes.{flip_sign_twice, flip_sign-lt}
use babydb_private.Art.Valid.{IsTree, extend}
use babydb_private.Art.Destroy.{destroy, destroy_body}
use babydb_private.Art.Destroy.Counts.{total}
use babydb_private.Art.Destroy.Ordered.{destroy_entries_lem}
use babydb_private.Art.Destroy.Slots.{child_at-inside, destroy_children_lem, destroy_indexed_lem}

-- The count at what `findChild` gives.
abbrev at_child : (TreePointer → ℕ) → Outcome TreePointer → ℕ
at_child count (ok c) = count c
at_child count (throws e) = 0
at_child count undefined = 0
at_child count unfinished = 0

-- How many nodes `findChild` reaches from a tree, over every byte, on paths of at most `n` nodes.
abbrev pub nodes : ℕ → TreePointer → ℕ
nodes zero p = 0
nodes (suc n) null = 0
nodes (suc n) (leaf value) = 0
nodes (suc n) (node h b) = suc (total 256 0 (λ z. at_child (nodes n) (find_child b z)))

nodes-null : (n : ℕ) → nodes n null ≡ 0
nodes-null zero = refl
nodes-null (suc n) = refl

nodes-leaf : (n v : ℕ) → nodes n (leaf v) ≡ 0
nodes-leaf zero v = refl
nodes-leaf (suc n) v = refl

module _ (count : TreePointer → ℕ) (below : TreePointer → Outcome ℕ) (free : count null ≡ 0)
    (nothing : below null ≡ ok 0) where
  abbrev IsCounted : TreePointer → Type 0
  IsCounted c = below c ≡ ok (count c)

  abbrev Reaches : Body → Type 0
  Reaches b = (z : ℕ) → z < 256 → (c : TreePointer) × (find_child b z ≡ ok c) × IsCounted c

  from_child :
      (b : Body) (z : ℕ) (c : TreePointer)
      → z < 256
      → Reaches b
      → find_child b z ≡ ok c
      → IsCounted c
  from_child b z c lt each found =
      let (c', found', run) = each z lt in
      let same : ok c' ≡ ok c = sym found' ∙ found in
      let here : c' ≡ c = ground (arith, same) in subst IsCounted here run

  destroy_body_lem :
      (b : Body)
      → IsBody b
      → Reaches b
      → destroy_body below b ≡ ok (total 256 0 (λ z. at_child count (find_child b z)))
  unfolding destroy_body find_child
  destroy_body_lem (node4 es) v each =
      destroy_entries_lem (λ x. x) count below es v.0 (λ z lt. refl) (λ z lt. lt) free nothing
        (λ k lt. from_child (node4 es) k (entry_child es k) lt each refl)
  destroy_body_lem (node16 es) v each =
      destroy_entries_lem flip_sign count below es v.0 flip_sign_twice flip_sign-lt free nothing
        (λ k lt.
          from_child (node16 es) (flip_sign k) (entry_child es k) (flip_sign-lt k lt) each
            (ap (λ j. ok (entry_child es j)) (flip_sign_twice k lt)))
  destroy_body_lem (node48 n indexes cs) v each =
      let reached : ℕ → ℕ = λ z. at_child count (find_child (node48 n indexes cs) z) in
      let from_zero : (z : ℕ) → reached (0 + z) ≡ reached z = λ z. ap reached (omega arith) in
      destroy_indexed_lem count below reached indexes cs 0
        (λ z i at e. from_zero z ∙ rw (at, e) free)
        (λ z i at e.
          let (c, found, run) =
            each z (omega (arith, get_elem?-lt indexes z i at, v.bytes_covered)) in
          let there : child_at cs i ≡ ok c = sym (rw (at, e) refl) ∙ found in
          (c, there, run ∙ ap (λ x. ok (at_child count x)) (sym found) ∙ ap ok (sym (from_zero z))))
      ∙ ap (λ x. ok (total x 0 reached)) v.bytes_covered
  destroy_body_lem (node256 n cs) v each =
      let reached : ℕ → ℕ = λ z. at_child count (child_at cs z) in
      destroy_children_lem count below reached cs 0 free (λ i c at. (
        from_child (node256 n cs) i c (omega (arith, child_at-inside cs i c at, v)) each at,
        ap reached (omega arith) ∙ ap (at_child count) at,
      ))
      ∙ ap (λ x. ok (total x 0 reached)) v

-- In a tree that insertion made, `destroy` comes to an end within any fuel that exceeds the bound
-- on the nodes that stand one below the other, and deletes exactly as many nodes as `findChild` can
-- reach from the root.
pub destroy_lem :
    (n fuel : ℕ) (path : List ℕ) (p : TreePointer)
    → IsTree n path p
    → n < fuel
    → destroy fuel p ≡ ok (nodes n p)
unfolding destroy
destroy_lem n zero path p t lt = absurd (omega arith)
destroy_lem n (suc fuel) path null t lt = ap ok (sym (nodes-null n))
destroy_lem n (suc fuel) path (leaf v) t lt = ap ok (sym (nodes-leaf n v))
destroy_lem zero (suc fuel) path (node h b) t lt = absurd t
destroy_lem (suc n) (suc fuel) path (node h b) t lt =
    let counted =
      destroy_body_lem (nodes n) (destroy fuel) (nodes-null n)
        (destroy_lem n fuel path null tt (omega arith) ∙ ap ok (nodes-null n)) b t.3
        (λ z hz.
          let (c, found, tree) = t.4 z hz in
          (c, found, destroy_lem n fuel (extend path h.prefix z) c tree (omega arith))) in
    rw counted refl
