-- ===== src/Art/Nodes/Ordered.antt =====
-- src/storage/art.cpp: the entries of a `Node4` or `Node16` as a map from bytes.
use babydb_private.Prelude.{
  ℕ, suc, ◌<◌, ◌≡◌, refl, false, nat_eq, ltb, if◌then◌else◌, arith, Bool-cases, inl, inr, ap, ◌∙◌,
  nat_eq_iff, subst,
}
use babydb_private.Art.{TreePointer, null, Entries, no_entry, entry}
use babydb_private.Art.Key.{flip_sign}
use babydb_private.Art.Arrays.{
  is_empty, count, entry_child, insert_at, set_entry, flip_keys, remove_entry,
}
use babydb_private.Art.Nodes.{IsAbove, IsOrdered}
use babydb_private.Art.Nodes.Bytes.{flip_sign_twice, flip_sign-lt, flip_sign_eq}

-- The new entry is met before an old one with its key.
pub entry_child-insert_at :
    (view : ℕ → ℕ) (es : Entries) (b stored : ℕ) (c : TreePointer) (j : ℕ)
    → view stored ≡ b
    → entry_child (insert_at view es b stored c) j
      ≡ (if nat_eq stored j then c else entry_child es j)
unfolding entry_child insert_at
entry_child-insert_at view no_entry b stored c j e = refl
entry_child-insert_at view (entry k c' es) b stored c j e = elim (Bool-cases (nat_eq k stored)) [
  | inl same ↦
      let at : view k ≡ b = ap view ((nat_eq_iff k stored).0 same) ∙ e in ground (arith, at)
  | inr other ↦ ground (arith, entry_child-insert_at view es b stored c j e)
]

pub count-insert_at :
    (view : ℕ → ℕ) (es : Entries) (b stored : ℕ) (c : TreePointer)
    → count (insert_at view es b stored c) ≡ suc (count es)
unfolding count insert_at
count-insert_at view no_entry b stored c = refl
count-insert_at view (entry k c' es) b stored c = ground (arith, count-insert_at view es b stored c)

IsAbove-trans :
    (view : ℕ → ℕ) (a b : ℕ) (es : Entries) → a < b → IsAbove view b es → IsAbove view a es
IsAbove-trans view a b no_entry lt h = tt
IsAbove-trans view a b (entry k c es) lt h = (omega arith, IsAbove-trans view a b es lt h.1)

insert_at-IsAbove :
    (view : ℕ → ℕ) (a : ℕ) (es : Entries) (b stored : ℕ) (c : TreePointer)
    → a < view stored
    → IsAbove view a es
    → IsAbove view a (insert_at view es b stored c)
unfolding insert_at
insert_at-IsAbove view a no_entry b stored c lt h = (lt, tt)
insert_at-IsAbove view a (entry k c' es) b stored c lt h =
    ground (arith, insert_at-IsAbove view a es b stored c lt h.1)

pub insert_at-IsOrdered :
    (view : ℕ → ℕ) (es : Entries) (b stored : ℕ) (c : TreePointer)
    → view stored ≡ b
    → stored < 256
    → is_empty c ≡ false
    → ((k : ℕ) → k < 256 → view k ≡ b → k ≡ stored)
    → entry_child es stored ≡ null
    → IsOrdered view es
    → IsOrdered view (insert_at view es b stored c)
unfolding insert_at entry_child is_empty
insert_at-IsOrdered view no_entry b stored c e lt full inj absent h = (lt, full, tt, tt)
insert_at-IsOrdered view (entry k c' es) b stored c e lt full inj absent h =
    let other : nat_eq k stored ≡ false = ground (arith, absent, h.1) in
    elim (Bool-cases (ltb (view k) b)) [
      | inl before ↦
          rw (before, insert_at)
            (
              h.0,
              h.1,
              insert_at-IsAbove view (view k) es b stored c (ground (arith, e, before)) h.2,
              insert_at-IsOrdered view es b stored c e lt full inj (ground (arith, other, absent))
                  h.3,
            )
      | inr behind ↦
          let strict : view stored < view k = ground (arith, e, behind, inj k h.0, other) in
          rw (behind, insert_at)
            (lt, full, (strict, IsAbove-trans view (view stored) (view k) es strict h.2), h)
    ]

-- The entries of a `Node4` as those of a `Node16`.
pub entry_child-flip_keys :
    (es : Entries) (j : ℕ)
    → j < 256
    → IsOrdered (λ k. k) es
    → entry_child (flip_keys es) (flip_sign j) ≡ entry_child es j
unfolding entry_child flip_keys
entry_child-flip_keys no_entry j hj h = refl
entry_child-flip_keys (entry k c es) j hj h =
    rw (flip_sign_eq k j h.0 hj, entry_child-flip_keys es j hj h.3) refl

flip_keys-IsAbove :
    (b : ℕ) (es : Entries)
    → IsOrdered (λ k. k) es
    → IsAbove (λ k. k) b es
    → IsAbove flip_sign b (flip_keys es)
unfolding flip_keys
flip_keys-IsAbove b no_entry h a = tt
flip_keys-IsAbove b (entry k c es) h a =
    (rw (flip_sign_twice k h.0) a.0, flip_keys-IsAbove b es h.3 a.1)

pub flip_keys-IsOrdered :
    (es : Entries) → IsOrdered (λ k. k) es → IsOrdered flip_sign (flip_keys es)
unfolding flip_keys
flip_keys-IsOrdered no_entry h = tt
flip_keys-IsOrdered (entry k c es) h = (
  flip_sign-lt k h.0,
  h.1,
  rw (flip_sign_twice k h.0) (flip_keys-IsAbove k es h.3 h.2),
  flip_keys-IsOrdered es h.3,
)

pub count-flip_keys : (es : Entries) → count (flip_keys es) ≡ count es
unfolding count flip_keys
count-flip_keys no_entry = refl
count-flip_keys (entry k c es) = ap suc (count-flip_keys es)

-- A write to the child of a key that is there.
pub entry_child-set_entry :
    (es : Entries) (k : ℕ) (c : TreePointer) (j : ℕ)
    → is_empty (entry_child es k) ≡ false
    → entry_child (set_entry es k c) j ≡ (if nat_eq k j then c else entry_child es j)
unfolding entry_child set_entry is_empty
entry_child-set_entry no_entry k c j there = absurd (ground (arith, there))
entry_child-set_entry (entry k' c' es) k c j there = ground (arith, entry_child-set_entry es k c j)

pub count-set_entry : (es : Entries) (k : ℕ) (c : TreePointer) → count (set_entry es k c) ≡ count es
unfolding count set_entry
count-set_entry no_entry k c = refl
count-set_entry (entry k' c' es) k c = ground (arith, count-set_entry es k c)

set_entry-IsAbove :
    (view : ℕ → ℕ) (a : ℕ) (es : Entries) (k : ℕ) (c : TreePointer)
    → IsAbove view a es
    → IsAbove view a (set_entry es k c)
unfolding set_entry
set_entry-IsAbove view a no_entry k c h = tt
set_entry-IsAbove view a (entry k' c' es) k c h =
    ground (arith, set_entry-IsAbove view a es k c h.1)

pub set_entry-IsOrdered :
    (view : ℕ → ℕ) (es : Entries) (k : ℕ) (c : TreePointer)
    → is_empty c ≡ false
    → IsOrdered view es
    → IsOrdered view (set_entry es k c)
unfolding set_entry
set_entry-IsOrdered view no_entry k c full h = tt
set_entry-IsOrdered view (entry k' c' es) k c full h = elim (Bool-cases (nat_eq k' k)) [
  | inl e ↦ rw (e, set_entry) (h.0, full, h.2, h.3)
  | inr e ↦
      rw (e, set_entry)
        (
          h.0,
          h.1,
          set_entry-IsAbove view (view k') es k c h.2,
          set_entry-IsOrdered view es k c full h.3,
        )
]

-- The bytes above a key's are not the key's.
pub above_absent :
    (view : ℕ → ℕ) (a : ℕ) (es : Entries) → IsAbove view (view a) es → entry_child es a ≡ null
unfolding entry_child
above_absent view a no_entry h = refl
above_absent view a (entry k c es) h = elim (Bool-cases (nat_eq k a)) [
  | inl e ↦
      let same : view k ≡ view a = ap view ((nat_eq_iff k a).0 e) in
      absurd (omega (arith, same, h.0))
  | inr e ↦ rw e (above_absent view a es h.1)
]

-- The entries without one of their keys.
pub entry_child-remove_entry :
    (view : ℕ → ℕ) (es : Entries) (k j : ℕ)
    → IsOrdered view es
    → entry_child (remove_entry es k) j ≡ (if nat_eq k j then null else entry_child es j)
unfolding entry_child remove_entry
entry_child-remove_entry view no_entry k j h = ground arith
entry_child-remove_entry view (entry k' c es) k j h = elim (Bool-cases (nat_eq k' k)) [
  | inl e ↦
      let here : k' ≡ k = (nat_eq_iff k' k).0 e in
      let absent : entry_child es k ≡ null =
        subst (λ x. entry_child es x ≡ null) here (above_absent view k' es h.2) in
      elim (Bool-cases (nat_eq k j)) [
        | inl f ↦
            let there : k ≡ j = (nat_eq_iff k j).0 f in
            rw (e, f) (subst (λ x. entry_child es x ≡ null) there absent)
        | inr f ↦ let off : nat_eq k' j ≡ false = ground (arith, here, f) in rw (e, f, off) refl
      ]
  | inr e ↦ ground (arith, e, entry_child-remove_entry view es k j h.3)
]

pub count-remove_entry :
    (es : Entries) (k : ℕ)
    → is_empty (entry_child es k) ≡ false
    → suc (count (remove_entry es k)) ≡ count es
unfolding entry_child remove_entry count is_empty
count-remove_entry no_entry k there = absurd (ground (arith, there))
count-remove_entry (entry k' c es) k there = ground (arith, count-remove_entry es k, there)
