-- ===== src/Art/Nodes/Insert.antt =====
-- src/storage/art.cpp: the four functions that add a child to a node.
use Prim.Native.Nat.{min}
use babydb_private.Prelude.{
  ℕ, suc, ◌+◌, ◌%◌, ◌<◌, ◌≡◌, refl, ap, sym, ◌∙◌, false, List, nat_eq, ltb, if◌then◌else◌, arith,
  Bool-cases, inl, inr, length, set, take, take_all,
}
use babydb_private.Outcome.{Outcome, ok}
use babydb_private.Art.{
  Header, TreePointer, null, node, Body, node4, node16, node48, node256, Entries, Children,
}
use babydb_private.Art.Key.{flip_sign}
use babydb_private.Art.Arrays.{
  is_empty, count, child_at, set_child, entry_child, flip_keys, insert_at,
}
use babydb_private.Art.Search.{find_child}
use babydb_private.Art.Insert.{
  u16_mod, first_bytes, copy_prefix, insert_node4, insert_node16, insert_node48, insert_node256,
  insert_body,
}
use babydb_private.Art.Nodes.{size, IsIndexed, IsBody}
use babydb_private.Art.Nodes.Bytes.{flip_sign_twice, flip_sign-lt, flip_sign_eq}
use babydb_private.Art.Nodes.Ordered.{
  entry_child-insert_at, count-insert_at, insert_at-IsOrdered, entry_child-flip_keys,
  flip_keys-IsOrdered, count-flip_keys,
}
use babydb_private.Art.Nodes.Slots.{child_at-set_child, size-set_child, indexed, child_at-spread}
use babydb_private.Art.Nodes.Wide.{insert-IsIndexed, free_place, index_filled, find_child-insert}
use babydb_private.Art.Nodes.Growth.{
  grown_indexes, grown_children, grown-IsIndexed, find_child-grown,
}

-- The header of a node whose keys have eight bytes: the whole prefix is in the array.
abbrev pub IsShort : Header → Type 0
IsShort h = (length h.prefix ≡ h.prefix_length) × (h.prefix_length < 8)

copy_prefix_lem : (h : Header) → IsShort h → copy_prefix h ≡ h
unfolding copy_prefix first_bytes
copy_prefix_lem h short =
    let whole : min h.prefix_length 9 ≡ h.prefix_length = ground (arith, short.1) in
    let same : take (min h.prefix_length 9) h.prefix ≡ h.prefix =
      rw whole (take_all h.prefix_length h.prefix (omega (arith, short.0))) in
    ap (λ (bytes : List ℕ). record { prefix_length = h.prefix_length; prefix = bytes }) same

-- `result` is a node with the old header, and the old map but for the new child.
abbrev pub Adds :
    Header → (ℕ → Outcome TreePointer) → ℕ → TreePointer → Outcome TreePointer → Type 0
Adds h old k c result =
    (b : Body) × (result ≡ ok (node h b))
    × IsBody b
    × ((j : ℕ) → j < 256 → find_child b j ≡ (if nat_eq k j then ok c else old j))

module _ (h : Header) (short : IsShort h) (k : ℕ) (hk : k < 256) (c : TreePointer)
    (full : is_empty c ≡ false) where
  insert_node256-Adds :
      (n : ℕ) (cs : Children) → size cs ≡ 256 → Adds h (child_at cs) k c (insert_node256 h n cs k c)
  unfolding insert_node256 find_child
  insert_node256-Adds n cs l = (
    node256 ((n + 1) % u16_mod) (set_child cs k c),
    refl,
    size-set_child cs k c ∙ l,
    λ j hj. child_at-set_child cs k c j (omega (arith, l)),
  )

  insert_node48-Adds :
      (n : ℕ) (indexes : List ℕ) (cs : Children)
      → IsIndexed n indexes cs
      → Adds h (find_child (node48 n indexes cs)) k c (insert_node48 h n indexes cs k c)
  unfolding insert_node48 find_child indexed
  insert_node48-Adds n indexes cs v = elim (Bool-cases (ltb n 48)) [
    | inl room ↦
        let hn : n < 48 = ground (arith, room) in
        let counted : (n + 1) % u16_mod ≡ suc n = omega (arith, hn) in
        (
          node48 (suc n) (set indexes k n) (set_child cs n c),
          rw (room, free_place v hn, counted) refl,
          insert-IsIndexed v k c hk hn full,
          λ j hj. find_child-insert v k c j hk hj hn,
        )
    | inr none_left ↦
        let (wide, run, sized, each) = child_at-spread indexes cs (index_filled v) in
        let (b, done, valid, found) = insert_node256-Adds n wide (sized ∙ v.bytes_covered) in
        (
          b,
          rw (none_left, run, copy_prefix_lem h short) done,
          valid,
          λ j hj.
              found j hj
              ∙ ap (λ t. if nat_eq k j then ok c else t)
                  (each j (omega (arith, hj, v.bytes_covered))),
        )
  ]

  grown_call :
      (es : Entries)
      → ltb (count es) 16 ≡ false
      → insert_node16 h es k c
        ≡ insert_node48 (copy_prefix h) (count es) (grown_indexes es) (grown_children es) k c
  unfolding insert_node16
  grown_call es none_left = rw (none_left, insert_node16) refl

  flipped_call :
      (es : Entries)
      → ltb (count es) 4 ≡ false
      → insert_node4 h es k c ≡ insert_node16 (copy_prefix h) (flip_keys es) k c
  unfolding insert_node4
  flipped_call es none_left = rw (none_left, insert_node4) refl

  insert_node16-Adds :
      (es : Entries)
      → IsBody (node16 es)
      → entry_child es (flip_sign k) ≡ null
      → Adds h (find_child (node16 es)) k c (insert_node16 h es k c)
  unfolding insert_node16 find_child
  insert_node16-Adds es v absent = elim (Bool-cases (ltb (count es) 16)) [
    | inl room ↦ (
      node16 (insert_at flip_sign es k (flip_sign k) c),
      rw (room, insert_node16) refl,
      (
        insert_at-IsOrdered flip_sign es k (flip_sign k) c (flip_sign_twice k hk)
            (flip_sign-lt k hk) full (λ x hx e. sym (flip_sign_twice x hx) ∙ ap flip_sign e) absent
            v.0,
        ground (arith, room, count-insert_at flip_sign es k (flip_sign k) c),
      ),
      λ j hj.
          rw
            (
              entry_child-insert_at flip_sign es k (flip_sign k) c (flip_sign j)
                  (flip_sign_twice k hk),
              flip_sign_eq k j hk hj,
            )
            (ground arith),
    )
    | inr none_left ↦
        let (b, done, valid, found) =
          insert_node48-Adds (count es) (grown_indexes es) (grown_children es)
            (grown-IsIndexed es v.0 v.1) in
        (
          b,
          grown_call es none_left
              ∙ ap (λ g. insert_node48 g (count es) (grown_indexes es) (grown_children es) k c)
                  (copy_prefix_lem h short)
              ∙ done,
          valid,
          λ j hj.
              found j hj
              ∙ ap (λ t. if nat_eq k j then ok c else t) (find_child-grown es v.0 v.1 j hj),
        )
  ]

  insert_node4-Adds :
      (es : Entries)
      → IsBody (node4 es)
      → entry_child es k ≡ null
      → Adds h (find_child (node4 es)) k c (insert_node4 h es k c)
  unfolding insert_node4 find_child
  insert_node4-Adds es v absent = elim (Bool-cases (ltb (count es) 4)) [
    | inl room ↦ (
      node4 (insert_at (λ x. x) es k k c),
      rw (room, insert_node4) refl,
      (
        insert_at-IsOrdered (λ x. x) es k k c refl hk full (λ x hx e. e) absent v.0,
        ground (arith, room, count-insert_at (λ x. x) es k k c),
      ),
      λ j hj. rw (entry_child-insert_at (λ x. x) es k k c j refl) (ground arith),
    )
    | inr none_left ↦
        let (b, done, valid, found) =
          insert_node16-Adds (flip_keys es)
            (flip_keys-IsOrdered es v.0, omega (arith, count-flip_keys es, v.1))
            (entry_child-flip_keys es k hk v.0 ∙ absent) in
        (
          b,
          flipped_call es none_left
              ∙ ap (λ g. insert_node16 g (flip_keys es) k c) (copy_prefix_lem h short)
              ∙ done,
          valid,
          λ j hj.
              found j hj
              ∙ ap (λ t. if nat_eq k j then ok c else ok t) (entry_child-flip_keys es j hj v.0),
        )
  ]

  -- In a node that insertion made, with the whole prefix in its array, adding a child that is not
  -- null for a byte that has none keeps the header, and changes the map from bytes to children at
  -- that byte only, whatever the kind of node and whether or not it grows.
  pub insert_body-Adds :
      (b : Body)
      → IsBody b
      → find_child b k ≡ ok null
      → Adds h (find_child b) k c (insert_body h b k c)
  unfolding insert_body find_child
  insert_body-Adds (node4 es) v absent = insert_node4-Adds es v (ground (arith, absent))
  insert_body-Adds (node16 es) v absent = insert_node16-Adds es v (ground (arith, absent))
  insert_body-Adds (node48 n indexes cs) v absent = insert_node48-Adds n indexes cs v
  insert_body-Adds (node256 n cs) v absent = insert_node256-Adds n cs v
