-- ===== src/Art/Destroy/Slots.antt =====
-- src/storage/art.cpp: what `destroy` sums up over the places of a wide node.
use babydb_private.Prelude.{
  ℕ, zero, suc, ◌+◌, ◌<◌, ◌≡◌, refl, ap, sym, ◌∙◌, nat_eq, if◌then◌else◌, arith, Bool-cases, inl,
  inr, true, false, List, [], ◌∷◌, length, get_elem?, some,
}
use babydb_private.Outcome.{Outcome, ok}
use babydb_private.Art.{TreePointer, null, leaf, node, Children, no_child, child}
use babydb_private.Art.Arrays.{child_at, is_empty}
use babydb_private.Art.Search.{empty_marker}
use babydb_private.Art.Nodes.{size}
use babydb_private.Art.Destroy.{destroy_indexed, destroy_children}
use babydb_private.Art.Destroy.Counts.{total}

pub child_at-inside : (cs : Children) (i : ℕ) (c : TreePointer) → child_at cs i ≡ ok c → i < size cs
unfolding child_at
child_at-inside no_child i c h = absurd (ground (arith, h))
child_at-inside (child c' cs) zero c h = omega arith
child_at-inside (child c' cs) (suc i) c h = omega (arith, child_at-inside cs i c h)

module _ (count : TreePointer → ℕ) (below : TreePointer → Outcome ℕ) (g : ℕ → ℕ) where
  -- A null child is left out, and there is nothing below it.
  place :
      (c : TreePointer)
      → count null ≡ 0
      → below c ≡ ok (count c)
      → (if is_empty c then ok 0 else below c) ≡ ok (count c)
  unfolding is_empty
  place null free run = ap ok (sym free)
  place (leaf v) free run = run
  place (node h b) free run = run

  pub destroy_children_lem :
      (cs : Children) (s : ℕ)
      → count null ≡ 0
      → ((i : ℕ) (c : TreePointer)
          → child_at cs i ≡ ok c
          → (below c ≡ ok (count c)) × (g (s + i) ≡ count c))
      → destroy_children below cs ≡ ok (total (size cs) s g)
  unfolding destroy_children child_at is_empty
  destroy_children_lem no_child s free each = refl
  destroy_children_lem (child c cs) s free each =
      let (first, here) = each 0 c refl in
      let rest =
        destroy_children_lem cs (suc s) free
          (λ i d at. let (b, e) = each (suc i) d at in (b, ap g (omega arith) ∙ e)) in
      let there : g s ≡ count c = ap g (omega arith) ∙ here in
      rw (place c free first, rest, there) refl

  pub destroy_indexed_lem :
      (is : List ℕ) (cs : Children) (s : ℕ)
      → ((b i : ℕ) → get_elem? is b ≡ some i → nat_eq i empty_marker ≡ true → g (s + b) ≡ 0)
      → ((b i : ℕ)
          → get_elem? is b ≡ some i
          → nat_eq i empty_marker ≡ false
          → (c : TreePointer) × (child_at cs i ≡ ok c) × (below c ≡ ok (g (s + b))))
      → destroy_indexed below is cs ≡ ok (total (length is) s g)
  unfolding destroy_indexed
  destroy_indexed_lem [] cs s free each = refl
  destroy_indexed_lem (i ∷ is) cs s free each =
      let along : (b : ℕ) → g (suc s + b) ≡ g (s + suc b) = λ b. ap g (omega arith) in
      let rest =
        destroy_indexed_lem is cs (suc s) (λ b j at e. along b ∙ free (suc b) j at e)
          (λ b j at e.
            let (c, there, run) = each (suc b) j at e in (c, there, run ∙ ap ok (sym (along b)))) in
      elim (Bool-cases (nat_eq i empty_marker)) [
        | inl e ↦
            let none_there : g s ≡ 0 = ap g (omega arith) ∙ free 0 i refl e in
            rw (e, rest, none_there) refl
        | inr e ↦
            let (c, there, run) = each 0 i refl e in
            let here : below c ≡ ok (g s) = run ∙ ap (λ x. ok (g x)) (omega arith) in
            rw (e, there, here, rest) refl
      ]
