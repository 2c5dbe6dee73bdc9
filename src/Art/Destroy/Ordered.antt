-- ===== src/Art/Destroy/Ordered.antt =====
-- src/storage/art.cpp: what `destroy` sums up over the entries of a node.
use babydb_private.Prelude.{
  ℕ, ◌<◌, ◌≡◌, refl, ap, sym, ◌∙◌, nat_eq, nat_eq_iff, if◌then◌else◌, arith, Bool-cases, inl, inr,
  Bool, true, false, subst,
}
use babydb_private.Outcome.{Outcome, ok}
use babydb_private.Art.{TreePointer, null, Entries, no_entry, entry}
use babydb_private.Art.Arrays.{entry_child}
use babydb_private.Art.Nodes.{IsOrdered}
use babydb_private.Art.Nodes.Ordered.{above_absent}
use babydb_private.Art.Destroy.{destroy_entries}
use babydb_private.Art.Destroy.Counts.{total, total_zero, total_with}

if_of :
    (t : Bool) (count : TreePointer → ℕ) (c d : TreePointer)
    → count (if t then c else d) ≡ (if t then count c else count d)
if_of true count c d = refl
if_of false count c d = refl

-- Of two bytes, one seen through `view` is the other when the other seen so is the one.
turned_eq :
    (view : ℕ → ℕ) (k z : ℕ)
    → view (view k) ≡ k
    → view (view z) ≡ z
    → nat_eq k (view z) ≡ nat_eq (view k) z
turned_eq view k z hk hz = elim (Bool-cases (nat_eq k (view z))) [
  | inl e ↦
      let there : view k ≡ view (view z) = ap view ((nat_eq_iff _ _).0 e) in
      ground (arith, e, there, hz)
  | inr e ↦ elim (Bool-cases (nat_eq (view k) z)) [
    | inr f ↦ e ∙ sym f
    | inl f ↦
        let there : view (view k) ≡ view z = ap view ((nat_eq_iff _ _).0 f) in
        ground (arith, e, there, hk)
  ]
]

-- `view` is its own inverse on bytes; `count` says how many nodes stand below a child.
module _ (view : ℕ → ℕ) (count : TreePointer → ℕ) (below : TreePointer → Outcome ℕ) where
  pub destroy_entries_lem :
      (es : Entries)
      → IsOrdered view es
      → ((z : ℕ) → z < 256 → view (view z) ≡ z)
      → ((z : ℕ) → z < 256 → view z < 256)
      → count null ≡ 0
      → below null ≡ ok 0
      → ((k : ℕ) → k < 256 → below (entry_child es k) ≡ ok (count (entry_child es k)))
      → destroy_entries below es ≡ ok (total 256 0 (λ z. count (entry_child es (view z))))
  unfolding destroy_entries entry_child
  destroy_entries_lem no_entry o twice byte free nothing each =
      ap ok (sym (total_zero 256 0 _ (λ z a b. free)))
  destroy_entries_lem (entry k c es) o twice byte free nothing each =
      let absent : entry_child es k ≡ null = above_absent view k es o.2 in
      let first : below c ≡ ok (count c) = ground (arith, each k o.0) in
      let later : (j : ℕ) → j < 256 → below (entry_child es j) ≡ ok (count (entry_child es j)) =
        λ j lt. elim (Bool-cases (nat_eq k j)) [
          | inl e ↦
              let gone : entry_child es j ≡ null =
                subst (λ x. entry_child es x ≡ null) ((nat_eq_iff k j).0 e) absent in
              rw (gone, free) nothing
          | inr e ↦ let at = each j lt in ground (arith, at, e)
        ] in
      let rest = destroy_entries_lem es o.3 twice byte free nothing later in
      let spot =
        total_with 256 0 (count c) (view k) (λ z. count (entry_child (entry k c es) (view z)))
          (λ z. count (entry_child es (view z))) (omega arith) (byte k o.0)
          (rw (twice k o.0, absent) free)
          (λ z a b.
            rw (turned_eq view k z (twice k o.0) (twice z b))
              (if_of (nat_eq (view k) z) count c (entry_child es (view z)))) in
      rw (first, rest) (ap ok (sym spot))
