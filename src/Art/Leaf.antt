-- ===== src/Art/Leaf.antt =====
-- src/storage/art.cpp: the bytes of a key tell it apart, and what is found at a leaf.
use babydb_private.Prelude.{
  ℕ, zero, suc, ◌%◌, ◌^◌, ◌<◌, ◌≡◌, refl, Bool, true, false, List, [], ◌∷◌, length, nat_eq,
  if◌then◌else◌, arith, ap, sym, ◌∙◌, Bool-cases, inl, inr, ◌&&◌,
}
use babydb_private.Outcome.{ok, throws, duplicated_key}
use babydb_private.Art.Insert.{insert, of_data}
use babydb_private.Schema.{word_mod, invalid_id}
use babydb_private.Art.{TreePointer, null, leaf}
use babydb_private.Art.Key.{load_key, unload}
use babydb_private.Art.Search.{agree, leaf_matches, lookup, leaf_found}
use babydb_private.Art.Tree.{lookup_key, insert_entry}

unload-load_key : (w : ℕ) → w < word_mod → unload (load_key w) 0 ≡ w
unfolding load_key unload
unload-load_key w h = omega arith

unfoldable pub equal_lists : List ℕ → List ℕ → Bool
equal_lists [] [] = true
equal_lists (x ∷ xs) (y ∷ ys) = nat_eq x y && equal_lists xs ys
equal_lists _ _ = false

pub agree-equal_lists :
    (n : ℕ) (xs ys : List ℕ)
    → length xs ≡ n
    → length ys ≡ n
    → agree n xs ys ≡ ok (equal_lists xs ys)
unfolding agree equal_lists
agree-equal_lists zero [] [] hx hy = refl
agree-equal_lists zero [] (y ∷ ys) hx hy = absurd (omega (arith, hy))
agree-equal_lists zero (x ∷ xs) ys hx hy = absurd (omega (arith, hx))
agree-equal_lists (suc n) [] ys hx hy = absurd (omega (arith, hx))
agree-equal_lists (suc n) (x ∷ xs) [] hx hy = absurd (omega (arith, hy))
agree-equal_lists (suc n) (x ∷ xs) (y ∷ ys) hx hy = ground (arith, agree-equal_lists n xs ys)

pub equal_lists_refl : (xs : List ℕ) → equal_lists xs xs ≡ true
unfolding equal_lists
equal_lists_refl [] = refl
equal_lists_refl (x ∷ xs) = ground (arith, equal_lists_refl xs)

pub equal_lists_only : (xs ys : List ℕ) → equal_lists xs ys ≡ true → xs ≡ ys
unfolding equal_lists
equal_lists_only [] [] h = refl
equal_lists_only [] (y ∷ ys) h = ground arith
equal_lists_only (x ∷ xs) [] h = ground arith
equal_lists_only (x ∷ xs) (y ∷ ys) h = ground (arith, equal_lists_only xs ys)

pub equal_keys :
    (v w : ℕ) → v < word_mod → w < word_mod → equal_lists (load_key v) (load_key w) ≡ nat_eq v w
equal_keys v w hv hw = elim (Bool-cases (nat_eq v w)) [
  | inl e ↦ let same : v ≡ w = ground (arith, e) in rw (e, same) (equal_lists_refl (load_key w))
  | inr e ↦ elim (Bool-cases (equal_lists (load_key v) (load_key w))) [
    | inr f ↦ f ∙ sym e
    | inl f ↦
        let same = ap (λ bs. unload bs 0) (equal_lists_only (load_key v) (load_key w) f) in
        absurd (ground (arith, unload-load_key v hv, unload-load_key w hw, same, e))
  ]
]

-- From the root, `leafMatches` compares the whole keys.
leaf_matches_lem :
    (v w : ℕ) → v < word_mod → w < word_mod → leaf_matches v (load_key w) 0 ≡ ok (nat_eq v w)
unfolding leaf_matches load_key
leaf_matches_lem v w hv hw =
    agree-equal_lists 8 (load_key v) (load_key w) refl refl ∙ ap ok (equal_keys v w hv hw)

pub lookup_leaf :
    (v w : ℕ)
    → v < word_mod
    → w < word_mod
    → lookup_key (leaf v) w ≡ ok (if nat_eq v w then v else invalid_id)
unfolding lookup_key lookup leaf_found load_key
lookup_leaf v w hv hw =
    rw (agree-equal_lists 8 (load_key v) (load_key w) refl refl, equal_keys v w hv hw)
      (ground arith)

pub of_data_lem : (value : ℕ) → value < 2 ^ 63 → of_data value ≡ leaf value
unfolding of_data
of_data_lem value small = let fits : value % 2 ^ 63 ≡ value = omega arith in ap leaf fits

pub present_refused :
    (root : TreePointer) (key row_id : ℕ)
    → key < 2 ^ 63
    → lookup_key root key ≡ ok key
    → insert_entry root key row_id ≡ throws duplicated_key
unfolding insert_entry
present_refused root key row_id small found = rw found (ground arith)

-- In an empty index, a key below 2 ^ 63 can be inserted; after that a lookup of it gives the key
-- itself, whatever the row id was, a lookup of any other key of 64 bits finds nothing, and
-- inserting it again throws.
pub first_insert_lem :
    (key row_id : ℕ)
    → key < 2 ^ 63
    → (root : TreePointer) × (insert_entry null key row_id ≡ ok root)
      × ((j : ℕ) → j < word_mod → lookup_key root j ≡ ok (if nat_eq key j then key else invalid_id))
      × ((other_id : ℕ) → insert_entry root key other_id ≡ throws duplicated_key)
unfolding insert_entry lookup_key lookup insert
first_insert_lem key row_id small = (
  leaf key,
  ap ok (of_data_lem key small),
  λ j hj. lookup_leaf key j (omega arith) hj,
  λ other_id.
      present_refused (leaf key) key other_id small
        (lookup_leaf key key (omega arith) (omega arith) ∙ ground arith),
)
