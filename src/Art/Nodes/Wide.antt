-- ===== src/Art/Nodes/Wide.antt =====
-- src/storage/art.cpp: the arrays of a `Node48` and a `Node256` as maps from bytes.
use babydb_private.Prelude.{
  ℕ, suc, ◌<◌, ◌≡◌, refl, ap, sym, ◌∙◌, false, some, List, nat_eq, if◌then◌else◌, arith, Bool-cases,
  inl, inr, length, get_elem?, set, length-set, set-cases, get_elem?-set, drop-get_elem?,
  nat_eq_iff,
}
use babydb_private.Outcome.{ok}
use babydb_private.Art.{TreePointer, node48, Children}
use babydb_private.Art.Arrays.{is_empty, child_at, set_child, free_from}
use babydb_private.Art.Search.{empty_marker, find_child}
use babydb_private.Art.Nodes.{size, IsIndexed}
use babydb_private.Art.Nodes.Slots.{child_at-set_child, size-set_child, free_from_lem}

module _ {n : ℕ} {indexes : List ℕ} {cs : Children} (v : IsIndexed n indexes cs) where
  -- A new byte gets the first free place.
  pub insert-IsIndexed :
      (b : ℕ) (c : TreePointer)
      → b < 256
      → n < 48
      → is_empty c ≡ false
      → IsIndexed (suc n) (set indexes b n) (set_child cs n c)
  insert-IsIndexed b c hb hn full =
      let inside : b < length indexes = omega (arith, v.bytes_covered) in
      let room : n < size cs = omega (arith, v.places) in
      record {
        bytes_covered = length-set indexes b n ∙ v.bytes_covered;
        places = size-set_child cs n c ∙ v.places;
        n_fits = hn;
        index_below = λ b' i at used. elim (set-cases indexes b n b' i inside at) [
          | inl (_, new) ↦ omega (arith, new)
          | inr (_, old) ↦ omega (arith, v.index_below b' i old used)
        ];
        apart = λ a b' i ha hb' used. elim (set-cases indexes b n a i inside ha) [
          | inl (here, new) ↦ elim (set-cases indexes b n b' i inside hb') [
            | inl (here', _) ↦ sym here ∙ here'
            | inr (_, old) ↦ absurd (omega (arith, new, v.index_below b' i old used))
          ]
          | inr (_, old) ↦ elim (set-cases indexes b n b' i inside hb') [
            | inl (_, new) ↦ absurd (omega (arith, new, v.index_below a i old used))
            | inr (_, old') ↦ v.apart a b' i old old' used
          ]
        ];
        filled = λ i lt. elim (Bool-cases (nat_eq n i)) [
          | inl e ↦ (c, ground (arith, child_at-set_child cs n c i room, e), full)
          | inr e ↦
              let (c', found, full') = v.filled i (ground (arith, lt, e)) in
              (c', ground (arith, child_at-set_child cs n c i room, e, found), full')
        ];
        free = λ i le lt.
            let e : nat_eq n i ≡ false = ground (arith, le) in
            ground (arith, child_at-set_child cs n c i room, e, v.free i (omega (arith, le)) lt);
      }

  pub free_place : n < 48 → free_from cs n 0 ≡ ok n
  free_place hn = free_from_lem cs n 0 (v.free n (omega arith) hn) ∙ ap ok (omega arith)

  -- The children that the indexes name are there.
  pub index_filled :
      (b i : ℕ)
      → get_elem? indexes b ≡ some i
      → nat_eq i empty_marker ≡ false
      → (c : TreePointer) × (child_at cs i ≡ ok c)
  index_filled b i at used =
      let (c, found, _) = v.filled i (v.index_below b i at used) in (c, found)

  -- After a new byte, the map has the new child there and the old ones elsewhere.
  pub find_child-insert :
      (b : ℕ) (c : TreePointer) (j : ℕ)
      → b < 256
      → j < 256
      → n < 48
      → find_child (node48 (suc n) (set indexes b n) (set_child cs n c)) j
        ≡ (if nat_eq b j then ok c else find_child (node48 n indexes cs) j)
  unfolding find_child
  find_child-insert b c j hb hj hn =
      let inside : b < length indexes = omega (arith, v.bytes_covered) in
      let room : n < size cs = omega (arith, v.places) in
      let (i, at, _) = drop-get_elem? j indexes (omega (arith, v.bytes_covered)) in
      let here = get_elem?-set indexes b n j inside in
      let used : nat_eq n empty_marker ≡ false = ground (arith, hn) in
      elim (Bool-cases (nat_eq b j)) [
        | inl e ↦
            let new : get_elem? (set indexes b n) j ≡ some n = ground (arith, here, e) in
            rw (new, e, used) (ground (arith, child_at-set_child cs n c n room))
        | inr e ↦
            let old : get_elem? (set indexes b n) j ≡ some i = ground (arith, here, e, at) in
            elim (Bool-cases (nat_eq i empty_marker)) [
              | inl m ↦ rw (old, at, e, m) refl
              | inr m ↦
                  let apart : nat_eq n i ≡ false = ground (arith, v.index_below j i at m) in
                  rw (old, at, e, m) (ground (arith, child_at-set_child cs n c i room, apart))
            ]
      ]

  pub same_slot :
      (a b i k : ℕ)
      → get_elem? indexes a ≡ some i
      → get_elem? indexes b ≡ some k
      → nat_eq i empty_marker ≡ false
      → nat_eq i k ≡ nat_eq a b
  same_slot a b i k ha hb used = elim (Bool-cases (nat_eq a b)) [
    | inl e ↦
        let both = sym ha ∙ ap (get_elem? indexes) ((nat_eq_iff a b).0 e) ∙ hb in
        ground (arith, e, both)
    | inr e ↦ elim (Bool-cases (nat_eq i k)) [
      | inr f ↦ f ∙ sym e
      | inl f ↦
          let shared = hb ∙ ap some (sym ((nat_eq_iff i k).0 f)) in
          ground (arith, e, v.apart a b i ha shared used)
    ]
  ]

  -- A write to a child that is there.
  pub find_child-write :
      (b i : ℕ) (c : TreePointer) (j : ℕ)
      → b < 256
      → j < 256
      → get_elem? indexes b ≡ some i
      → nat_eq i empty_marker ≡ false
      → find_child (node48 n indexes (set_child cs i c)) j
        ≡ (if nat_eq b j then ok c else find_child (node48 n indexes cs) j)
  unfolding find_child
  find_child-write b i c j hb hj at used =
      let room : i < size cs = omega (arith, v.places, v.index_below b i at used, v.n_fits) in
      let (k, at', _) = drop-get_elem? j indexes (omega (arith, v.bytes_covered)) in
      let slot = same_slot b j i k at at' used in
      elim (Bool-cases (nat_eq k empty_marker)) [
        | inl m ↦
            let apart : nat_eq b j ≡ false = sym slot ∙ ground (arith, m, used) in
            rw (at', m, apart) refl
        | inr m ↦ rw (at', m, child_at-set_child cs i c k room, slot) refl
      ]

  pub write-IsIndexed :
      (b i : ℕ) (c : TreePointer)
      → get_elem? indexes b ≡ some i
      → nat_eq i empty_marker ≡ false
      → is_empty c ≡ false
      → IsIndexed n indexes (set_child cs i c)
  write-IsIndexed b i c at used full =
      let below : i < n = v.index_below b i at used in
      let room : i < size cs = omega (arith, v.places, below, v.n_fits) in
      record {
        bytes_covered = v.bytes_covered;
        places = size-set_child cs i c ∙ v.places;
        n_fits = v.n_fits;
        index_below = v.index_below;
        apart = v.apart;
        filled = λ k lt. elim (Bool-cases (nat_eq i k)) [
          | inl e ↦ (c, ground (arith, child_at-set_child cs i c k room, e), full)
          | inr e ↦
              let (c', found, full') = v.filled k lt in
              (c', ground (arith, child_at-set_child cs i c k room, e, found), full')
        ];
        free = λ k le lt.
            let e : nat_eq i k ≡ false = ground (arith, le, below) in
            ground (arith, child_at-set_child cs i c k room, e, v.free k le lt);
      }
