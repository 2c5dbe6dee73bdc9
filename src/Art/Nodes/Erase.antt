-- ===== src/Art/Nodes/Erase.antt =====
-- src/storage/art.cpp: a removal at one node that keeps its type.
use babydb_private.Prelude.{
  ℕ, ◌<◌, ◌≡◌, refl, false, some, List, nat_eq, if◌then◌else◌, sym, ap, ◌∙◌, if_false, if_true,
  true, arith, Bool-cases, inl, inr, length, get_elem?, set, get_elem?-set, drop-get_elem?,
}
use babydb_private.Outcome.{Outcome, ok}
use babydb_private.Art.{
  Header, TreePointer, null, leaf, node, Body, node4, node16, node48, node256, Entries, no_entry,
  entry, Children,
}
use babydb_private.Art.Key.{flip_sign}
use babydb_private.Art.Arrays.{is_empty, count, set_child, entry_child, remove_entry}
use babydb_private.Art.Search.{empty_marker, find_child}
use babydb_private.Art.Erase.{erase_body, replace_only, one_less}
use babydb_private.Art.Nodes.{IsAbove, IsOrdered, IsBody, IsIndexed, size}
use babydb_private.Art.Nodes.Bytes.{flip_sign_eq}
use babydb_private.Art.Nodes.Ordered.{entry_child-remove_entry, count-remove_entry}
use babydb_private.Art.Nodes.Slots.{child_at-set_child}
use babydb_private.Art.Nodes.Wide.{same_slot}
use babydb_private.Art.Nodes.Write.{used_index}

-- A node whose number of children is not the one at which a removal makes it a smaller one.
abbrev pub IsKept : Body → Type 0
IsKept (node4 es) = nat_eq (count es) 2 ≡ false
IsKept (node16 es) = nat_eq (count es) 4 ≡ false
IsKept (node48 n indexes cs) = nat_eq (one_less n) 12 ≡ false
IsKept (node256 n cs) = nat_eq (one_less n) 37 ≡ false

abbrev Removes : Header → Body → ℕ → Outcome TreePointer → Type 0
Removes h b k result =
    (b' : Body) × (result ≡ ok (node h b'))
    × ((j : ℕ) → j < 256 → find_child b' j ≡ (if nat_eq k j then ok null else find_child b j))

replace_none :
    (h : Header) (es : Entries)
    → nat_eq (count es) 1 ≡ false
    → replace_only h es ≡ ok (node h (node4 es))
unfolding replace_only count
replace_none h no_entry e = refl
replace_none h (entry k c no_entry) e = absurd (ground (arith, e))
replace_none h (entry k null (entry k' c' es)) e = refl
replace_none h (entry k (leaf v) (entry k' c' es)) e = refl
replace_none h (entry k (node g b) (entry k' c' es)) e = refl

-- The byte's index is the empty one, and its place is null.
find_child-erase :
    {n : ℕ} {indexes : List ℕ} {cs : Children} (v : IsIndexed n indexes cs) (m k i j : ℕ)
    → k < 256
    → j < 256
    → get_elem? indexes k ≡ some i
    → nat_eq i empty_marker ≡ false
    → find_child (node48 m (set indexes k empty_marker) (set_child cs i null)) j
      ≡ (if nat_eq k j then ok null else find_child (node48 n indexes cs) j)
unfolding find_child
find_child-erase {n} {indexes} {cs} v m k i j hk hj at used =
    let inside : k < length indexes = omega (arith, v.bytes_covered) in
    let room : i < size cs = omega (arith, v.places, v.index_below k i at used, v.n_fits) in
    let (i', at', _) = drop-get_elem? j indexes (omega (arith, v.bytes_covered)) in
    let new = get_elem?-set indexes k empty_marker j inside in
    let slot = same_slot v k j i i' at at' used in
    elim (Bool-cases (nat_eq k j)) [
      | inl e ↦ rw (new, e) refl
      | inr e ↦ rw (new, e, at', child_at-set_child cs i null i' room, slot, e) refl
    ]

-- A removal of a child that is there, at a node that stays as large, takes that child away and
-- leaves the others.
pub erase_body-Removes :
    (h : Header) (b : Body) (k : ℕ) (c : TreePointer)
    → IsBody b
    → IsKept b
    → k < 256
    → find_child b k ≡ ok c
    → is_empty c ≡ false
    → Removes h b k (erase_body h b k)
unfolding erase_body find_child
erase_body-Removes h (node4 es) k c v kept hk found full =
    let here : is_empty (entry_child es k) ≡ false = ground (arith, found, full) in
    let more : nat_eq (count (remove_entry es k)) 1 ≡ false =
      ground (arith, kept, count-remove_entry es k here) in
    (
      node4 (remove_entry es k),
      replace_none h (remove_entry es k) more,
      λ j hj. rw (entry_child-remove_entry (λ x. x) es k j v.0) (ground arith),
    )
erase_body-Removes h (node16 es) k c v kept hk found full =
    let here : is_empty (entry_child es (flip_sign k)) ≡ false = ground (arith, found, full) in
    let more : nat_eq (count (remove_entry es (flip_sign k))) 3 ≡ false =
      ground (arith, kept, count-remove_entry es (flip_sign k) here) in
    (
      node16 (remove_entry es (flip_sign k)),
      if_false _ _ _ more,
      λ j hj.
          rw
            (
              entry_child-remove_entry flip_sign es (flip_sign k) (flip_sign j) v.0,
              flip_sign_eq k j hk hj,
            )
            (ground arith),
    )
erase_body-Removes h (node48 n indexes cs) k c v kept hk found full =
    let (i, at, _) = drop-get_elem? k indexes (omega (arith, v.bytes_covered, hk)) in
    let used : nat_eq i empty_marker ≡ false = used_index n indexes cs k i c at found full in
    (
      node48 (one_less n) (set indexes k empty_marker) (set_child cs i null),
      rw (at, kept) refl,
      λ j hj. find_child-erase v (one_less n) k i j hk hj at used,
    )
erase_body-Removes h (node256 n cs) k c v kept hk found full = (
  node256 (one_less n) (set_child cs k null),
  if_false _ _ _ kept,
  λ j hj. child_at-set_child cs k null j (omega (arith, v, hk)),
)

remove_entry-IsAbove :
    (view : ℕ → ℕ) (a : ℕ) (es : Entries) (k : ℕ)
    → IsAbove view a es
    → IsAbove view a (remove_entry es k)
unfolding remove_entry
remove_entry-IsAbove view a no_entry k h = tt
remove_entry-IsAbove view a (entry k' c es) k h =
    ground (arith, h, remove_entry-IsAbove view a es k h.1)

remove_entry-IsOrdered :
    (view : ℕ → ℕ) (es : Entries) (k : ℕ) → IsOrdered view es → IsOrdered view (remove_entry es k)
unfolding remove_entry
remove_entry-IsOrdered view no_entry k h = tt
remove_entry-IsOrdered view (entry k' c es) k h = elim (Bool-cases (nat_eq k' k)) [
  | inl e ↦ rw e h.3
  | inr e ↦
      rw e (
        h.0,
        h.1,
        remove_entry-IsAbove view (view k') es k h.2,
        remove_entry-IsOrdered view es k h.3,
      )
]

only_entry :
    (view : ℕ → ℕ) (es : Entries)
    → IsOrdered view es
    → count es ≡ 1
    → (x : ℕ) × (d : TreePointer) × (es ≡ entry x d no_entry) × (x < 256) × (is_empty d ≡ false)
unfolding count
only_entry view no_entry h one = absurd (omega (arith, one))
only_entry view (entry x d no_entry) h one = (x, d, refl, h.0, h.1)
only_entry view (entry x d (entry k c es)) h one = absurd (omega (arith, one))

-- What is left of two entries.
pub record OneLeft (es : Entries) (z : ℕ) : Type 0 where
  pub byte : ℕ
  pub below : TreePointer
  pub left : remove_entry es z ≡ entry byte below no_entry
  pub byte_fits : byte < 256
  pub full : is_empty below ≡ false
  pub differ : nat_eq byte z ≡ false
  pub others :
      (w : ℕ) → nat_eq z w ≡ false → entry_child es w ≡ (if nat_eq byte w then below else null)

pub one_left :
    (es : Entries) (z : ℕ)
    → IsOrdered (λ x. x) es
    → nat_eq (count es) 2 ≡ true
    → is_empty (entry_child es z) ≡ false
    → OneLeft es z
unfolding entry_child is_empty
one_left es z ordered two there =
    let one : count (remove_entry es z) ≡ 1 = ground (arith, two, count-remove_entry es z there) in
    let (x, d, left, fits, full) =
      only_entry (λ x. x) (remove_entry es z) (remove_entry-IsOrdered (λ x. x) es z ordered) one in
    let child : (w : ℕ)
        → (if nat_eq x w then d else null) ≡ (if nat_eq z w then null else entry_child es w) =
      λ w.
        sym (ap (λ rest. entry_child rest w) left)
        ∙ entry_child-remove_entry (λ x. x) es z w ordered in
    record {
      byte = x;
      below = d;
      left = left;
      byte_fits = fits;
      full = full;
      differ = elim (Bool-cases (nat_eq x z)) [
        | inr e ↦ e
        | inl e ↦
            let self : nat_eq z z ≡ true = ground arith in
            let gone : d ≡ null = sym (if_true _ _ _ e) ∙ child z ∙ if_true _ _ _ self in
            absurd (ground (arith, sym (ap is_empty gone) ∙ full))
      ];
      others = λ w e. sym (child w ∙ if_false _ _ _ e);
    }
