-- ===== src/Art/Nodes/Growth.antt =====
-- src/storage/art.cpp: the growth of a `Node16` to a `Node48`.
use babydb_private.Prelude.{
  ℕ, zero, suc, ◌+◌, ◌≤◌, ◌<◌, ◌≡◌, refl, ap, subst, sym, ◌∙◌, false, Option, none, some, List,
  nat_eq, if◌then◌else◌, arith, Bool-cases, Option-cases, inl, inr, length, get_elem?, set,
  length-set, get_elem?-set, get_elem?-lt, nat_eq_iff,
}
use babydb_private.Outcome.{ok}
use babydb_private.Art.{TreePointer, null, node48, Entries, no_entry, entry, Children}
use babydb_private.Art.Key.{flip_sign}
use babydb_private.Art.Arrays.{
  is_empty, count, child_at, entry_child, nulls, empties, copy_children, index_entries,
}
use babydb_private.Art.Search.{empty_marker, find_child}
use babydb_private.Art.Nodes.{size, IsAbove, IsOrdered, IsIndexed}
use babydb_private.Art.Nodes.Bytes.{flip_sign_twice, flip_sign-lt, flip_sign_eq}

-- The place_of of the entry for a byte, counted from `i`.
place_of : Entries → ℕ → ℕ → Option ℕ
place_of no_entry b i = none
place_of (entry k c es) b i = if nat_eq (flip_sign k) b then some i else place_of es b (suc i)

place_of-none : (es : Entries) (b i : ℕ) → IsAbove flip_sign b es → place_of es b i ≡ none
unfolding place_of
place_of-none no_entry b i a = refl
place_of-none (entry k c es) b i a = ground (arith, a.0, place_of-none es b (suc i) a.1)

length-index_entries :
    (es : Entries) (i : ℕ) (indexes : List ℕ) → length (index_entries es i indexes) ≡ length indexes
unfolding index_entries
length-index_entries no_entry i indexes = refl
length-index_entries (entry k c es) i indexes =
    length-index_entries es (suc i) (set indexes (flip_sign k) i)
    ∙ length-set indexes (flip_sign k) i

or_old : Option ℕ → Option ℕ → Option ℕ
or_old (some p) old = some p
or_old none old = old

index_entries-place_of :
    (es : Entries) (i : ℕ) (indexes : List ℕ) (b : ℕ)
    → IsOrdered flip_sign es
    → length indexes ≡ 256
    → get_elem? (index_entries es i indexes) b ≡ or_old (place_of es b i) (get_elem? indexes b)
unfolding index_entries place_of or_old
index_entries-place_of no_entry i indexes b h l = refl
index_entries-place_of (entry k c es) i indexes b h l =
    let inside : flip_sign k < length indexes = omega (arith, l, flip_sign-lt k h.0) in
    let below =
      index_entries-place_of es (suc i) (set indexes (flip_sign k) i) b h.3
        (length-set indexes (flip_sign k) i ∙ l) in
    elim (Bool-cases (nat_eq (flip_sign k) b)) [
      | inl e ↦
          let above : IsAbove flip_sign b es =
            subst (λ x. IsAbove flip_sign x es) ((nat_eq_iff (flip_sign k) b).0 e) h.2 in
          let new : get_elem? (set indexes (flip_sign k) i) b ≡ some i =
            ground (arith, get_elem?-set indexes (flip_sign k) i b inside, e) in
          below ∙ rw (place_of-none es b (suc i) above, new, e) refl
      | inr e ↦ below ∙ rw (get_elem?-set indexes (flip_sign k) i b inside, e) refl
    ]

place_bounds : (es : Entries) (b i p : ℕ) → place_of es b i ≡ some p → (i ≤ p) × (p < i + count es)
unfolding place_of count
place_bounds no_entry b i p h = absurd (ground (arith, h))
place_bounds (entry k c es) b i p h = ground (arith, place_bounds es b (suc i) p)

place_apart :
    (es : Entries) (a b i p : ℕ) → place_of es a i ≡ some p → place_of es b i ≡ some p → a ≡ b
unfolding place_of
place_apart no_entry a b i p ha hb = absurd (ground (arith, ha))
place_apart (entry k c es) a b i p ha hb =
    ground (
      arith,
      place_apart es a b (suc i) p,
      place_bounds es a (suc i) p,
      place_bounds es b (suc i) p,
    )

flipped_eq : (k b : ℕ) → k < 256 → b < 256 → nat_eq (flip_sign k) b ≡ nat_eq k (flip_sign b)
flipped_eq k b hk hb =
    ap (nat_eq (flip_sign k)) (sym (flip_sign_twice b hb))
    ∙ flip_sign_eq k (flip_sign b) hk (flip_sign-lt b hb)

place_absent :
    (es : Entries) (b i : ℕ)
    → b < 256
    → IsOrdered flip_sign es
    → place_of es b i ≡ none
    → entry_child es (flip_sign b) ≡ null
unfolding place_of entry_child
place_absent no_entry b i hb h none_there = refl
place_absent (entry k c es) b i hb h none_there =
    ground (arith, flipped_eq k b h.0 hb, none_there, place_absent es b (suc i) hb h.3)

place_child :
    (es : Entries) (b i q room : ℕ)
    → b < 256
    → IsOrdered flip_sign es
    → count es ≤ room
    → place_of es b i ≡ some (i + q)
    → child_at (copy_children es room) q ≡ ok (entry_child es (flip_sign b))
unfolding place_of entry_child count copy_children child_at
place_child no_entry b i q room hb h le at = absurd (ground (arith, at))
place_child (entry k c es) b i q zero hb h le at = absurd (omega (arith, le))
place_child (entry k c es) b i zero (suc room) hb h le at =
    ground (arith, flipped_eq k b h.0 hb, at, place_bounds es b (suc i) (i + 0))
place_child (entry k c es) b i (suc q) (suc room) hb h le at =
    let shift : suc i + q ≡ i + suc q = omega arith in
    ground (arith, flipped_eq k b h.0 hb, at, shift, place_child es b (suc i) q room hb h.3)

size-nulls : (n : ℕ) → size (nulls n) ≡ n
unfolding nulls
size-nulls zero = refl
size-nulls (suc n) = ap suc (size-nulls n)

size-copy_children : (es : Entries) (room : ℕ) → size (copy_children es room) ≡ room
unfolding copy_children
size-copy_children no_entry room = size-nulls room
size-copy_children (entry k c es) zero = refl
size-copy_children (entry k c es) (suc room) = ap suc (size-copy_children es room)

child_at-nulls : (n i : ℕ) → i < n → child_at (nulls n) i ≡ ok null
unfolding nulls child_at
child_at-nulls zero i lt = absurd (omega arith)
child_at-nulls (suc n) zero lt = refl
child_at-nulls (suc n) (suc i) lt = child_at-nulls n i (omega arith)

copy_filled :
    (es : Entries) (room i : ℕ)
    → IsOrdered flip_sign es
    → count es ≤ room
    → i < count es
    → (c : TreePointer) × (child_at (copy_children es room) i ≡ ok c) × (is_empty c ≡ false)
unfolding copy_children count child_at
copy_filled no_entry room i h le lt = absurd (omega arith)
copy_filled (entry k c es) zero i h le lt = absurd (omega arith)
copy_filled (entry k c es) (suc room) zero h le lt = (c, refl, h.1)
copy_filled (entry k c es) (suc room) (suc i) h le lt =
    copy_filled es room i h.3 (omega arith) (omega arith)

copy_free :
    (es : Entries) (room i : ℕ)
    → count es ≤ i
    → i < room
    → child_at (copy_children es room) i ≡ ok null
unfolding copy_children count child_at
copy_free no_entry room i le lt = child_at-nulls room i lt
copy_free (entry k c es) zero i le lt = absurd (omega arith)
copy_free (entry k c es) (suc room) zero le lt = absurd (omega arith)
copy_free (entry k c es) (suc room) (suc i) le lt = copy_free es room i (omega arith) (omega arith)

get_elem?-empties : (n m b : ℕ) → b < n → get_elem? (empties n m) b ≡ some m
unfolding empties
get_elem?-empties zero m b lt = absurd (omega arith)
get_elem?-empties (suc n) m zero lt = refl
get_elem?-empties (suc n) m (suc b) lt = get_elem?-empties n m b (omega arith)

length-empties : (n m : ℕ) → length (empties n m) ≡ n
unfolding empties
length-empties zero m = refl
length-empties (suc n) m = ap suc (length-empties n m)

-- The arrays that a full `Node16` is copied to.
abbrev pub grown_indexes : Entries → List ℕ
grown_indexes es = index_entries es 0 (empties 256 empty_marker)

abbrev pub grown_children : Entries → Children
grown_children es = copy_children es 48

module _ (es : Entries) (h : IsOrdered flip_sign es) (le : count es ≤ 16) where
  grown_index :
      (b : ℕ)
      → b < 256
      → get_elem? (grown_indexes es) b ≡ or_old (place_of es b 0) (some empty_marker)
  grown_index b hb =
      index_entries-place_of es 0 (empties 256 empty_marker) b h (length-empties 256 empty_marker)
      ∙ ap (or_old (place_of es b 0)) (get_elem?-empties 256 empty_marker b hb)

  grown_length : length (grown_indexes es) ≡ 256
  grown_length =
      length-index_entries es 0 (empties 256 empty_marker) ∙ length-empties 256 empty_marker

  -- An index in use is the place_of of the byte.
  grown_place :
      (b i : ℕ)
      → get_elem? (grown_indexes es) b ≡ some i
      → nat_eq i empty_marker ≡ false
      → place_of es b 0 ≡ some i
  unfolding or_old
  grown_place b i at used =
      let hb : b < 256 = omega (arith, grown_length, get_elem?-lt (grown_indexes es) b i at) in
      ground (arith, grown_index b hb, at, used)

  pub grown-IsIndexed : IsIndexed (count es) (grown_indexes es) (grown_children es)
  grown-IsIndexed = record {
    bytes_covered = grown_length;
    places = size-copy_children es 48;
    n_fits = omega (arith, le);
    index_below = λ b i at used. omega (arith, place_bounds es b 0 i (grown_place b i at used));
    apart = λ a b i ha hb used.
        place_apart es a b 0 i (grown_place a i ha used) (grown_place b i hb used);
    filled = λ i lt. copy_filled es 48 i h (omega (arith, le)) lt;
    free = λ i low lt. copy_free es 48 i low lt;
  }

  pub find_child-grown :
      (b : ℕ)
      → b < 256
      → find_child (node48 (count es) (grown_indexes es) (grown_children es)) b
        ≡ ok (entry_child es (flip_sign b))
  unfolding find_child or_old
  find_child-grown b hb = elim (Option-cases (place_of es b 0)) [
    | inl e ↦ rw (grown_index b hb, e) (ap ok (sym (place_absent es b 0 hb h e)))
    | inr (i, e) ↦
        let used : nat_eq i empty_marker ≡ false = ground (arith, le, place_bounds es b 0 i e) in
        let from_zero : i ≡ 0 + i = omega arith in
        rw (grown_index b hb, e, used)
          (place_child es b 0 i 48 hb h (omega (arith, le)) (e ∙ ap some from_zero))
  ]
