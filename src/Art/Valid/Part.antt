-- ===== src/Art/Valid/Part.antt =====
-- src/storage/art.cpp: an insertion where the new key leaves a leaf's key or a node's prefix.
pub mod Leaf
pub mod Prefix
use Prim.Native.Nat.{min}
use babydb_private.Prelude.{
  ℕ, zero, suc, ◌+◌, ◌-◌, ◌≤◌, ◌<◌, ◌^◌, ◌≡◌, refl, ap, sym, ◌∙◌, subst, true, false, ◌&&◌, ltb,
  some, List, length, take, drop, get_elem?, nat_eq, nat_eq_iff, if◌then◌else◌, if_true, if_false,
  arith, Bool-cases, inl, inr, take_all, length-take, length-drop, get_elem?-drop, All-take,
  All-drop, All-get_elem?,
}
use babydb_private.Outcome.{Outcome, ok}
use babydb_private.Schema.{word_mod}
use babydb_private.Art.{Header, TreePointer, null, leaf, node, Body}
use babydb_private.Art.Key.{load_key}
use babydb_private.Art.Arrays.{is_empty}
use babydb_private.Art.Search.{max_prefix_length, lookup}
use babydb_private.Art.Insert.{insert_leaf, split_prefix, fork, first_bytes, of_data}
use babydb_private.Art.Leaf.{equal_lists, equal_lists_refl, of_data_lem}
use babydb_private.Art.Parting.{Parting, parting}
use babydb_private.Art.Valid.{IsOn, extend, IsTree}
use babydb_private.Art.Valid.Keys.{
  byte_at, byte-lt, length-load_key, load_key-All, equal_from, length-extend,
}
use babydb_private.Art.Valid.Lookup.{continues, continues-IsOn, IsTree-bound}
use babydb_private.Art.Valid.Fork.{Splits, forked, forked-IsTree, lookup-forked, leaf_case}
use babydb_private.Art.Valid.Replace.{Gains, Inserted}
use babydb_private.Art.Valid.Split.{above, cut, cut-IsTree, lookup-cut, length-above}
use babydb_private.Art.Valid.Mismatch.{Mismatch}

-- Lookups in the old tree, for the keys at its path, are lookups in what is kept of it.
abbrev pub Keeps : ℕ → List ℕ → TreePointer → List ℕ → ℕ → TreePointer → Type 0
Keeps n path p bytes x a =
    (fuel j z : ℕ)
    → n < suc fuel
    → j < word_mod
    → IsOn path j
    → get_elem? (load_key j) (length path + length bytes) ≡ some z
    → lookup (suc (suc fuel)) false p (load_key j) (length path) ≡ (
        if continues path bytes j && nat_eq x z
        then lookup (suc fuel) false a (load_key j) (length (extend path bytes x))
        else ok null)

forked-Gains :
    {n : ℕ} {path bytes : List ℕ} {x : ℕ} {a : TreePointer} {y k : ℕ} (p : TreePointer)
    → (v : Splits n path bytes x a y k) → Keeps n path p bytes x a
    → Gains (suc n) path p k (forked bytes x a y (leaf k))
forked-Gains p v keeps zero j lt hj on = absurd (omega arith)
forked-Gains p v keeps (suc zero) j lt hj on = absurd (omega arith)
forked-Gains {path} {bytes} {k} p v keeps (suc (suc fuel)) j lt hj on =
    let (z, at, hz) = byte_at j (length path + length bytes) v.room in
    lookup-forked v fuel j z hj on at
    ∙ ap (λ r. if nat_eq k j then ok (leaf k) else r)
        (sym (keeps fuel j z (omega (arith, lt)) hj on at))

pub forked-Inserted :
    {n : ℕ} {path bytes : List ℕ} {x : ℕ} {a : TreePointer} {y k : ℕ} (p : TreePointer)
    → (result : Outcome TreePointer) → Splits n path bytes x a y k
    → Keeps n path p bytes x a
    → result ≡ ok (forked bytes x a y (leaf k))
    → Inserted (suc n) path p k result
forked-Inserted {bytes} {x} {a} {y} {k} p result v keeps run = (
  forked bytes x a y (leaf k),
  run,
  (unfold is_empty in refl),
  forked-IsTree v,
  forked-Gains p v keeps,
)

-- What `fork` gives for a prefix that fits the array.
pub fork_lem :
    (n : ℕ) (bytes : List ℕ) (x : ℕ) (a : TreePointer) (y k : ℕ)
    → n < 9
    → n ≤ length bytes
    → k < 2 ^ 63
    → fork (record { prefix_length = n; prefix = first_bytes n bytes }) x a y (of_data k)
      ≡ ok (forked (take n bytes) x a y (leaf k))
unfolding fork first_bytes
fork_lem n bytes x a y k lt le small =
    let whole : min n 9 ≡ n = ground (arith, lt) in
    let len : length (take n bytes) ≡ n = length-take n bytes le in
    rw (whole, of_data_lem k small, len) refl
