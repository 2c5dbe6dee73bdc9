-- ===== src/Art/Search.antt =====
-- src/storage/art.cpp: descending the tree. `fuel` bounds the number of nodes on the way.
use babydb_private.Prelude.{
  ℕ, zero, suc, ◌+◌, ◌-◌, List, [], ◌∷◌, Bool, true, false, not, ◌&&◌, Option, none, some, ltb,
  nat_eq, if◌then◌else◌, get_elem?, drop,
}
use babydb_private.Outcome.{Outcome, ok, undefined, unfinished, deref, ◌>>=◌}
use babydb_private.Art.{
  Header, TreePointer, null, leaf, node, Body, node4, node16, node48, node256, Children, no_child,
  child,
}
use babydb_private.Art.Key.{load_key, flip_sign}
use babydb_private.Art.Arrays.{entry_child, first_child, last_child, child_at, is_empty}

abbrev pub max_prefix_length : ℕ
max_prefix_length = 9

abbrev pub empty_marker : ℕ
empty_marker = 48

abbrev pub art_key_length : ℕ
art_key_length = 8

-- The child for that byte, null if there is none.
unfoldable pub find_child : Body → ℕ → Outcome TreePointer
unfolding entry_child flip_sign child_at
find_child (node4 es) key_byte = ok (entry_child es key_byte)
find_child (node16 es) key_byte = ok (entry_child es (flip_sign key_byte))
find_child (node48 count indexes cs) key_byte = do
  i ← deref (get_elem? indexes key_byte)
  if nat_eq i empty_marker then ok null else child_at cs i
find_child (node256 count cs) key_byte = child_at cs key_byte

-- `while (n->childIndex[pos] == EMPTY_MARKER) pos++;` and the value there.
unfoldable pub first_index : List ℕ → Outcome ℕ
first_index [] = undefined
first_index (i ∷ is) = let rest = first_index is in if nat_eq i empty_marker then rest else ok i

unfoldable pub first_full : Children → Outcome TreePointer
unfolding is_empty
first_full no_child = undefined
first_full (child c cs) = let rest = first_full cs in if is_empty c then rest else ok c

-- The same loops from the other end.
unfoldable pub last_index : List ℕ → Option ℕ
last_index [] = none
last_index (i ∷ is) = elim (last_index is) [
  | some j ↦ some j
  | none ↦ if nat_eq i empty_marker then none else some i
]

unfoldable pub last_full : Children → Option TreePointer
unfolding is_empty
last_full no_child = none
last_full (child c cs) = elim (last_full cs) [
  | some d ↦ some d
  | none ↦ if is_empty c then none else some c
]

unfoldable pub lowest : Body → Outcome TreePointer
unfolding first_child first_index first_full child_at
lowest (node4 es) = first_child es
lowest (node16 es) = first_child es
lowest (node48 count indexes cs) = first_index indexes >>= child_at cs
lowest (node256 count cs) = first_full cs

unfoldable pub highest : Body → Outcome TreePointer
unfolding last_child last_index last_full child_at
highest (node4 es) = last_child es
highest (node16 es) = last_child es
highest (node48 count indexes cs) = deref (last_index indexes) >>= child_at cs
highest (node256 count cs) = deref (last_full cs)

unfoldable pub minimum : ℕ → TreePointer → Outcome TreePointer
unfolding lowest
minimum zero p = unfinished
minimum (suc fuel) null = ok null
minimum (suc fuel) (leaf value) = ok (leaf value)
minimum (suc fuel) (node h b) = lowest b >>= λ c. minimum fuel c

unfoldable pub maximum : ℕ → TreePointer → Outcome TreePointer
unfolding highest
maximum zero p = unfinished
maximum (suc fuel) null = ok null
maximum (suc fuel) (leaf value) = ok (leaf value)
maximum (suc fuel) (node h b) = highest b >>= λ c. maximum fuel c

-- `AsData` of a pointer: zero for null, and meaningless on a node.
unfoldable pub as_data : TreePointer → Outcome ℕ
as_data null = ok 0
as_data (leaf value) = ok value
as_data (node h b) = undefined

-- Whether two arrays agree at the `n` positions from `from` on.
unfoldable pub agree : ℕ → List ℕ → List ℕ → Outcome Bool
agree zero xs ys = ok true
agree (suc n) (x ∷ xs) (y ∷ ys) = let rest = agree n xs ys in if nat_eq x y then rest else ok false
agree (suc n) _ _ = undefined

unfoldable pub leaf_matches : ℕ → List ℕ → ℕ → Outcome Bool
unfolding agree load_key
leaf_matches value key depth =
    if nat_eq depth art_key_length
    then ok true
    else agree (art_key_length - depth) (drop depth (load_key value)) (drop depth key)

-- The first of `n` positions at which two arrays differ, or `n`.
unfoldable pub mismatch_within : ℕ → List ℕ → List ℕ → Outcome ℕ
mismatch_within zero xs ys = ok 0
mismatch_within (suc n) (x ∷ xs) (y ∷ ys) =
    let rest = mismatch_within n xs ys in
    if nat_eq x y then (rest >>= λ pos. ok (suc pos)) else ok 0
mismatch_within (suc n) _ _ = undefined

-- Of a prefix that is longer than the array, the rest is read off the least key below.
unfoldable pub prefix_mismatch : ℕ → Header → Body → List ℕ → ℕ → Outcome ℕ
unfolding mismatch_within minimum as_data load_key
prefix_mismatch fuel h b key depth =
    if ltb max_prefix_length h.prefix_length
    then (mismatch_within max_prefix_length (drop depth key) h.prefix >>= λ pos.
        if ltb pos max_prefix_length
        then ok pos
        else (minimum fuel (node h b) >>= λ least. as_data least >>= λ min_value.
            mismatch_within (h.prefix_length - max_prefix_length)
              (drop (depth + max_prefix_length) key)
              (drop (depth + max_prefix_length) (load_key min_value))
            >>= λ more. ok (max_prefix_length + more)))
    else mismatch_within h.prefix_length (drop depth key) h.prefix

-- What `lookup` returns at a leaf.
unfoldable pub leaf_found : Bool → ℕ → List ℕ → ℕ → Outcome TreePointer
unfolding agree load_key
leaf_found skipped_prefix value key depth =
    if not skipped_prefix && nat_eq depth art_key_length
    then ok (leaf value)
    else (let from : ℕ = if skipped_prefix then 0 else depth in
        agree (art_key_length - from) (drop from (load_key value)) (drop from key) >>= λ same.
        ok (if same then leaf value else null))

-- The loop of `lookup`.
unfoldable pub lookup : ℕ → Bool → TreePointer → List ℕ → ℕ → Outcome TreePointer
unfolding leaf_found mismatch_within find_child
lookup zero skipped p key depth = unfinished
lookup (suc fuel) skipped null key depth = ok null
lookup (suc fuel) skipped (leaf value) key depth = leaf_found skipped value key depth
lookup (suc fuel) skipped (node h b) key depth =
    let descend = λ (skips : Bool). deref (get_elem? key (depth + h.prefix_length)) >>= λ key_byte.
    find_child b key_byte >>= λ c. lookup fuel skips c key (suc (depth + h.prefix_length)) in
    if nat_eq h.prefix_length 0
    then descend skipped
    else (if ltb h.prefix_length max_prefix_length
        then (agree h.prefix_length (drop depth key) h.prefix >>= λ same.
            if same then descend skipped else ok null)
        else descend true)
