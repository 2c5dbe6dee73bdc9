-- ===== src/Art/Nodes/Write.antt =====
-- src/storage/art.cpp: a write through the reference to a child that is there.
use babydb_private.Prelude.{
  ℕ, zero, suc, ◌<◌, ◌≡◌, refl, ◌∙◌, false, some, nat_eq, if◌then◌else◌, arith, Bool-cases, inl,
  inr, List, get_elem?, drop-get_elem?,
}
use babydb_private.Outcome.{Outcome, ok}
use babydb_private.Art.{
  TreePointer, null, Body, node4, node16, node48, node256, Children, no_child, child,
}
use babydb_private.Art.Key.{flip_sign}
use babydb_private.Art.Arrays.{is_empty, child_at, set_child, entry_child, set_entry}
use babydb_private.Art.Search.{empty_marker, find_child}
use babydb_private.Art.Insert.{write_child}
use babydb_private.Art.Nodes.{size, IsBody}
use babydb_private.Art.Nodes.Bytes.{flip_sign_eq}
use babydb_private.Art.Nodes.Ordered.{entry_child-set_entry, count-set_entry, set_entry-IsOrdered}
use babydb_private.Art.Nodes.Slots.{child_at-set_child, size-set_child}
use babydb_private.Art.Nodes.Wide.{index_filled, find_child-write, write-IsIndexed}

abbrev pub Writes : (ℕ → Outcome TreePointer) → ℕ → TreePointer → Outcome Body → Type 0
Writes old k c result =
    (b : Body) × (result ≡ ok b)
    × IsBody b
    × ((j : ℕ) → j < 256 → find_child b j ≡ (if nat_eq k j then ok c else old j))

pub used_index :
    (n : ℕ) (indexes : List ℕ) (cs : Children) (k i : ℕ) (old : TreePointer)
    → get_elem? indexes k ≡ some i
    → find_child (node48 n indexes cs) k ≡ ok old
    → is_empty old ≡ false
    → nat_eq i empty_marker ≡ false
unfolding find_child is_empty
used_index n indexes cs k i old at found there = ground (arith, at, found, there)

pub write_child-Writes :
    (b : Body) (k : ℕ) (c old : TreePointer)
    → IsBody b
    → k < 256
    → is_empty c ≡ false
    → find_child b k ≡ ok old
    → is_empty old ≡ false
    → Writes (find_child b) k c (write_child b k c)
unfolding write_child find_child
write_child-Writes (node4 es) k c old v hk full found there =
    let here : is_empty (entry_child es k) ≡ false = ground (arith, found, there) in
    (
      node4 (set_entry es k c),
      refl,
      (set_entry-IsOrdered (λ x. x) es k c full v.0, ground (arith, count-set_entry es k c, v.1)),
      λ j hj. rw (entry_child-set_entry es k c j here) (ground arith),
    )
write_child-Writes (node16 es) k c old v hk full found there =
    let here : is_empty (entry_child es (flip_sign k)) ≡ false = ground (arith, found, there) in
    (
      node16 (set_entry es (flip_sign k) c),
      refl,
      (
        set_entry-IsOrdered flip_sign es (flip_sign k) c full v.0,
        ground (arith, count-set_entry es (flip_sign k) c, v.1),
      ),
      λ j hj.
          rw (entry_child-set_entry es (flip_sign k) c (flip_sign j) here, flip_sign_eq k j hk hj)
            (ground arith),
    )
write_child-Writes (node48 n indexes cs) k c old v hk full found there =
    let (i, at, _) = drop-get_elem? k indexes (omega (arith, v.bytes_covered, hk)) in
    let used : nat_eq i empty_marker ≡ false = used_index n indexes cs k i old at found there in
    (
      node48 n indexes (set_child cs i c),
      rw at refl,
      write-IsIndexed v k i c at used full,
      λ j hj. find_child-write v k i c j hk hj at used,
    )
write_child-Writes (node256 n cs) k c old v hk full found there = (
  node256 n (set_child cs k c),
  refl,
  size-set_child cs k c ∙ v,
  λ j hj. child_at-set_child cs k c j (omega (arith, v, hk)),
)

child_there : (cs : Children) (i : ℕ) → i < size cs → (c : TreePointer) × (child_at cs i ≡ ok c)
unfolding child_at
child_there no_child i lt = absurd (omega arith)
child_there (child c cs) zero lt = (c, refl)
child_there (child c cs) (suc i) lt = child_there cs i (omega arith)

-- A search in a node ends with a child or null for every byte.
pub find_child_there :
    (b : Body) (j : ℕ) → IsBody b → j < 256 → (c : TreePointer) × (find_child b j ≡ ok c)
unfolding find_child
find_child_there (node4 es) j v hj = (entry_child es j, refl)
find_child_there (node16 es) j v hj = (entry_child es (flip_sign j), refl)
find_child_there (node48 n indexes cs) j v hj =
    let (i, at, _) = drop-get_elem? j indexes (omega (arith, v.bytes_covered, hj)) in
    elim (Bool-cases (nat_eq i empty_marker)) [
      | inl e ↦ (null, rw (at, e) refl)
      | inr e ↦ let (c, found) = index_filled v j i at e in (c, rw (at, e) found)
    ]
find_child_there (node256 n cs) j v hj = child_there cs j (omega (arith, v, hj))
