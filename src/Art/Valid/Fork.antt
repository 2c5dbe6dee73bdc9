-- ===== src/Art/Valid/Fork.antt =====
-- src/storage/art.cpp: the new `Node4` of an insertion, above an old tree and the new leaf.
use babydb_private.Prelude.{
  ℕ, suc, ◌+◌, ◌^◌, ◌<◌, ◌≡◌, refl, ap, sym, ◌∙◌, subst, true, false, ◌&&◌, some, List, length,
  nat_eq, nat_eq_iff, if◌then◌else◌, arith, Bool-cases, ◌⊎◌, inl, inr, get_elem?, All,
}
use babydb_private.Outcome.{ok}
use babydb_private.Schema.{word_mod}
use babydb_private.Art.{TreePointer, null, leaf, node, node4, Entries, no_entry}
use babydb_private.Art.Key.{load_key}
use babydb_private.Art.Arrays.{is_empty, insert_at, entry_child, count}
use babydb_private.Art.Search.{lookup, find_child}
use babydb_private.Art.Fork.{fork-entry_child, parted}
use babydb_private.Art.Nodes.{IsOrdered}
use babydb_private.Art.Valid.{IsOn, extend, IsTree}
use babydb_private.Art.Valid.Keys.{length-extend}
use babydb_private.Art.Valid.Lookup.{continues, continues-IsOn, descent, leaf_found_lem}

abbrev pub two_entries : ℕ → TreePointer → ℕ → TreePointer → Entries
two_entries x a y b = insert_at (λ z. z) (insert_at (λ z. z) no_entry x x a) y y b

abbrev pub forked : List ℕ → ℕ → TreePointer → ℕ → TreePointer → TreePointer
forked bytes x a y b =
    node (record { prefix_length = length bytes; prefix = bytes }) (node4 (two_entries x a y b))

two_entries-IsOrdered :
    (x y : ℕ) (a b : TreePointer)
    → x < 256
    → y < 256
    → is_empty a ≡ false
    → is_empty b ≡ false
    → nat_eq x y ≡ false
    → IsOrdered (λ z. z) (two_entries x a y b)
unfolding insert_at
two_entries-IsOrdered x y a b hx hy fa fb differ = ground (arith, hx, hy, fa, fb, differ)

count-two_entries : (x y : ℕ) (a b : TreePointer) → count (two_entries x a y b) ≡ 2
unfolding insert_at count
count-two_entries x y a b = ground arith

node4_found :
    (es : Entries) (z : ℕ) (c : TreePointer) → find_child (node4 es) z ≡ ok c → c ≡ entry_child es z
unfolding find_child
node4_found es z c h = ground (arith, h)

pub leaf_case :
    (fuel v j : ℕ) (path : List ℕ)
    → v < word_mod
    → j < word_mod
    → IsOn path v
    → IsOn path j
    → lookup (suc fuel) false (leaf v) (load_key j) (length path)
      ≡ (if nat_eq v j then ok (leaf v) else ok null)
unfolding lookup
leaf_case fuel v j path hv hj onv onj = leaf_found_lem v j path hv hj onv onj ∙ ground arith

pub null_case : (fuel : ℕ) (ks : List ℕ) (d : ℕ) → lookup (suc fuel) false null ks d ≡ ok null
unfolding lookup
null_case fuel ks d = refl

-- The old tree `a` behind byte `x`, and a new key that has `bytes` and then the byte `y`.
pub record Splits (n : ℕ) (path bytes : List ℕ) (x : ℕ) (a : TreePointer) (y k : ℕ) : Type 0 where
  pub room : length path + length bytes < 8
  pub bytes_fit : All (λ z. z < 256) bytes
  pub x_fits : x < 256
  pub y_fits : y < 256
  pub differ : nat_eq x y ≡ false
  pub a_full : is_empty a ≡ false
  pub a_tree : IsTree n (extend path bytes x) a
  pub k_fits : k < 2 ^ 63
  pub k_on : IsOn path k
  pub k_continues : continues path bytes k ≡ true
  pub k_at : get_elem? (load_key k) (length path + length bytes) ≡ some y

module _ {n : ℕ} {path bytes : List ℕ} {x : ℕ} {a : TreePointer} {y k : ℕ}
    (v : Splits n path bytes x a y k) where
  child-IsTree :
      (z : ℕ)
      → IsTree n
          (extend path bytes z)
          (if nat_eq x z then a else if nat_eq y z then leaf k else null)
  child-IsTree z = elim (Bool-cases (nat_eq x z)) [
    | inl e ↦ rw e (subst (λ z. IsTree n (extend path bytes z) a) ((nat_eq_iff x z).0 e) v.a_tree)
    | inr e ↦ elim (Bool-cases (nat_eq y z)) [
      | inl f ↦
          let at = v.k_at ∙ ap some ((nat_eq_iff y z).0 f) in
          rw (e, f) (v.k_fits, continues-IsOn path bytes k z v.k_on v.k_continues at)
      | inr f ↦ rw (e, f) tt
    ]
  ]

  pub forked-IsTree : IsTree (suc n) path (forked bytes x a y (leaf k))
  unfolding find_child
  forked-IsTree = (
    (refl, omega (arith, v.room)),
    v.room,
    v.bytes_fit,
    (
      two_entries-IsOrdered x y a (leaf k) v.x_fits v.y_fits v.a_full (unfold is_empty in refl)
          v.differ,
      omega (arith, count-two_entries x y a (leaf k)),
    ),
    λ z hz. (
      if nat_eq x z then a else if nat_eq y z then leaf k else null,
      ap ok (fork-entry_child x y z a (leaf k) v.differ),
      child-IsTree z,
    ),
  )

  -- The new key has the byte `y`.
  same_key :
      (j z : ℕ)
      → get_elem? (load_key j) (length path + length bytes) ≡ some z
      → nat_eq k j ≡ true
      → (continues path bytes j ≡ true) × (nat_eq y z ≡ true)
  same_key j z at e =
      let same : k ≡ j = (nat_eq_iff k j).0 e in
      (
        subst (λ i. continues path bytes i ≡ true) same v.k_continues,
        ground (
          arith,
          sym v.k_at ∙ ap (λ i. get_elem? (load_key i) (length path + length bytes)) same ∙ at,
        ),
      )

  other_key :
      (j z : ℕ)
      → get_elem? (load_key j) (length path + length bytes) ≡ some z
      → (continues path bytes j ≡ false) ⊎ (nat_eq y z ≡ false)
      → nat_eq k j ≡ false
  other_key j z at why = elim (Bool-cases (nat_eq k j)) [
    | inr e ↦ e
    | inl e ↦
        let (c, b) = same_key j z at e in
        absurd (elim why [ inl h ↦ ground (arith, c, h) | inr h ↦ ground (arith, b, h) ])
  ]

  -- Lookups in the new node: the new key is there, and every other one is searched for in the old
  -- tree if it leads there.
  pub lookup-forked :
      (fuel j z : ℕ)
      → j < word_mod
      → IsOn path j
      → get_elem? (load_key j) (length path + length bytes) ≡ some z
      → lookup (suc (suc fuel)) false (forked bytes x a y (leaf k)) (load_key j) (length path) ≡ (
          if nat_eq k j
          then ok (leaf k)
          else if continues path bytes j && nat_eq x z
          then lookup (suc fuel) false a (load_key j) (length (extend path bytes x))
          else ok null)
  lookup-forked fuel j z hj on at =
      let s =
        descent n path (record { prefix_length = length bytes; prefix = bytes })
          (node4 (two_entries x a y (leaf k))) j forked-IsTree on in
      let byte : s.byte ≡ z = ground (arith, s.at, at) in
      let child : s.below ≡ (if nat_eq x z then a else if nat_eq y z then leaf k else null) =
        node4_found (two_entries x a y (leaf k)) s.byte s.below s.found
        ∙ ap (entry_child (two_entries x a y (leaf k))) byte
        ∙ fork-entry_child x y z a (leaf k) v.differ in
      let path' = extend path bytes s.byte in
      let level : length path' ≡ length (extend path bytes x) =
        length-extend path bytes s.byte ∙ sym (length-extend path bytes x) in
      elim (Bool-cases (continues path bytes j)) [
        | inr e ↦ let other = other_key j z at (inl e) in s.step (suc fuel) ∙ rw (e, other) refl
        | inl e ↦ elim (Bool-cases (nat_eq x z)) [
          | inl ex ↦
              let other = other_key j z at (inr (parted x y z v.differ ex)) in
              let old : s.below ≡ a = child ∙ rw ex refl in
              s.step (suc fuel) ∙ rw (e, ex, other, old, level) refl
          | inr ex ↦ elim (Bool-cases (nat_eq y z)) [
            | inl ey ↦
                let new : s.below ≡ leaf k = child ∙ rw (ex, ey) refl in
                let k_at = v.k_at ∙ ap some ((nat_eq_iff y z).0 ey ∙ sym byte) in
                let k_on = continues-IsOn path bytes k s.byte v.k_on v.k_continues k_at in
                let k_small : k < word_mod = omega (arith, v.k_fits) in
                s.step (suc fuel)
                ∙ rw (e, ex, new) (leaf_case fuel k j path' k_small hj k_on (s.on e))
            | inr ey ↦
                let other = other_key j z at (inr ey) in
                let none_there : s.below ≡ null = child ∙ rw (ex, ey) refl in
                s.step (suc fuel)
                ∙ rw (e, ex, other, none_there) (null_case fuel (load_key j) (length path'))
          ]
        ]
      ]
