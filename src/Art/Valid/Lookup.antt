-- ===== src/Art/Valid/Lookup.antt =====
-- src/storage/art.cpp: `lookup` in a tree that insertion made.
use babydb_private.Prelude.{
  ℕ, zero, suc, ◌+◌, ◌-◌, ◌≤◌, ◌<◌, ◌≡◌, refl, ap, sym, ◌∙◌, Bool, true, false, ltb, some, List,
  nat_eq, nat_eq_iff, if◌then◌else◌, arith, Bool-cases, inl, inr, length, take, drop, get_elem?,
  length-drop,
}
use babydb_private.Outcome.{ok}
use babydb_private.Schema.{word_mod}
use babydb_private.Art.{Header, TreePointer, null, leaf, node, Body}
use babydb_private.Art.Key.{load_key}
use babydb_private.Art.Search.{max_prefix_length, lookup, leaf_found, find_child}
use babydb_private.Art.Nodes.Insert.{IsShort}
use babydb_private.Art.Leaf.{equal_lists, equal_lists_only, agree-equal_lists}
use babydb_private.Art.Parting.{agree-take, no_prefix}
use babydb_private.Art.Valid.{IsOn, extend, IsTree}
use babydb_private.Art.Valid.Keys.{
  length-load_key, byte_at, length-extend, extend-IsOn, equal_from, whole_equal,
}

-- At a leaf on the path of a key, `lookup` compares the whole keys in effect.
pub leaf_found_lem :
    (v k : ℕ) (path : List ℕ)
    → v < word_mod
    → k < word_mod
    → IsOn path v
    → IsOn path k
    → leaf_found false v (load_key k) (length path) ≡ ok (if nat_eq v k then leaf v else null)
unfolding leaf_found
leaf_found_lem v k path hv hk onv onk =
    let d = length path in
    let run =
      agree-equal_lists (8 - d) (drop d (load_key v)) (drop d (load_key k))
        (length-drop d (load_key v) ∙ ap (λ n. n - d) (length-load_key v))
        (length-drop d (load_key k) ∙ ap (λ n. n - d) (length-load_key k)) in
    let rest = equal_from v k d hv hk (onv ∙ sym onk) in
    elim (Bool-cases (nat_eq d 8)) [
      | inl e ↦
          let same : nat_eq v k ≡ true =
            sym rest
            ∙ ap (λ n. equal_lists (drop n (load_key v)) (drop n (load_key k)))
                ((nat_eq_iff d 8).0 e)
            ∙ whole_equal v k in
          rw (e, same, leaf_found) refl
      | inr e ↦ rw (e, run, rest) refl
    ]

module _ (h : Header) (b : Body) (fuel d : ℕ) (ks : List ℕ) where
  -- One round of the loop at a node whose prefix is whole.
  pub lookup_node :
      (c : TreePointer) (z : ℕ)
      → IsShort h
      → d + h.prefix_length < 8
      → length ks ≡ 8
      → get_elem? ks (d + h.prefix_length) ≡ some z
      → find_child b z ≡ ok c
      → lookup (suc fuel) false (node h b) ks d ≡ (
          if equal_lists h.prefix (take h.prefix_length (drop d ks))
          then lookup fuel false c ks (suc (d + h.prefix_length))
          else ok null)
  unfolding lookup
  lookup_node c z short room l at found = elim (Bool-cases (nat_eq h.prefix_length 0)) [
    | inl e ↦ rw (e, at, found, no_prefix h.prefix_length (drop d ks) h.prefix e short.0) refl
    | inr e ↦
        let whole : ltb h.prefix_length max_prefix_length ≡ true = ground (arith, short.1) in
        let reach : h.prefix_length ≤ length (drop d ks) =
          omega (arith, length-drop d ks, l, room) in
        rw (e, whole, agree-take h.prefix_length (drop d ks) h.prefix short.0 reach, at, found) refl
  ]

-- Whether a key has the bytes of a prefix below a path.
abbrev pub continues : List ℕ → List ℕ → ℕ → Bool
continues path bytes j = equal_lists bytes (take (length bytes) (drop (length path) (load_key j)))

pub continues-IsOn :
    (path bytes : List ℕ) (j z : ℕ)
    → IsOn path j
    → continues path bytes j ≡ true
    → get_elem? (load_key j) (length path + length bytes) ≡ some z
    → IsOn (extend path bytes z) j
continues-IsOn path bytes j z on same at =
    extend-IsOn path bytes j z on (sym (equal_lists_only bytes _ same)) at

-- The step of a key's lookup at a node, for its byte there and the child for that byte.
pub lookup_step :
    (path : List ℕ) (h : Header) (b : Body) (j z : ℕ) (c : TreePointer) (fuel : ℕ)
    → IsShort h
    → length path + h.prefix_length < 8
    → get_elem? (load_key j) (length path + length h.prefix) ≡ some z
    → find_child b z ≡ ok c
    → lookup (suc fuel) false (node h b) (load_key j) (length path) ≡ (
        if continues path h.prefix j
        then lookup fuel false c (load_key j) (length (extend path h.prefix z))
        else ok null)
lookup_step path h b j z c fuel short room at found =
    let at' : get_elem? (load_key j) (length path + h.prefix_length) ≡ some z = rw short.0 at at in
    let reach : suc (length path + h.prefix_length) ≡ length (extend path h.prefix z) =
      omega (arith, length-extend path h.prefix z, short.0) in
    lookup_node h b fuel (length path) (load_key j) c z short room (length-load_key j) at' found
    ∙ rw (reach, short.0) refl

-- What a key meets at a node.
pub record Descent (n : ℕ) (path : List ℕ) (h : Header) (b : Body) (j : ℕ) : Type 0 where
  pub byte : ℕ
  pub byte_fits : byte < 256
  pub at : get_elem? (load_key j) (length path + length h.prefix) ≡ some byte
  pub below : TreePointer
  pub found : find_child b byte ≡ ok below
  pub below_tree : IsTree n (extend path h.prefix byte) below
  pub on : continues path h.prefix j ≡ true → IsOn (extend path h.prefix byte) j
  pub step :
      (fuel : ℕ)
      → lookup (suc fuel) false (node h b) (load_key j) (length path) ≡ (
          if continues path h.prefix j
          then lookup fuel false below (load_key j) (length (extend path h.prefix byte))
          else ok null)

pub descent :
    (n : ℕ) (path : List ℕ) (h : Header) (b : Body) (j : ℕ)
    → IsTree (suc n) path (node h b)
    → IsOn path j
    → Descent n path h b j
descent n path h b j t on =
    let room : length path + length h.prefix < 8 = omega (arith, t.1, t.0.0) in
    let (z, at, hz) = byte_at j (length path + length h.prefix) room in
    let (c, found, tree) = t.4 z hz in
    record {
      byte = z;
      byte_fits = hz;
      at = at;
      below = c;
      found = found;
      below_tree = tree;
      on = λ same. continues-IsOn path h.prefix j z on same at;
      step = λ fuel. lookup_step path h b j z c fuel t.0 t.1 at found;
    }

-- In a tree that insertion made, the lookup of a key on the tree's path gives the same with any two
-- amounts of fuel that exceed the bound on the nodes that stand one below the other.
pub lookup_fuel :
    (n f g : ℕ) (path : List ℕ) (p : TreePointer) (j : ℕ)
    → IsTree n path p
    → n < f
    → n < g
    → IsOn path j
    → lookup f false p (load_key j) (length path) ≡ lookup g false p (load_key j) (length path)
lookup_fuel n zero g path p j t lf lg on = absurd (omega arith)
lookup_fuel n (suc f) zero path p j t lf lg on = absurd (omega arith)
lookup_fuel n (suc f) (suc g) path null j t lf lg on = unfold lookup in refl
lookup_fuel n (suc f) (suc g) path (leaf v) j t lf lg on = unfold lookup in refl
lookup_fuel zero (suc f) (suc g) path (node h b) j t lf lg on = absurd t
lookup_fuel (suc n) (suc f) (suc g) path (node h b) j t lf lg on =
    let s = descent n path h b j t on in
    let below =
      lookup_fuel n f g (extend path h.prefix s.byte) s.below j s.below_tree (omega arith)
        (omega arith) in
    elim (Bool-cases (continues path h.prefix j)) [
      | inl e ↦ s.step f ∙ rw e (below (s.on e)) ∙ sym (rw e at s.step g)
      | inr e ↦ s.step f ∙ rw e refl ∙ sym (rw e at s.step g)
    ]

-- A tree is one for any larger bound, and for any smaller one that the keys' length allows.
pub IsTree-bound :
    (n m : ℕ) (path : List ℕ) (p : TreePointer)
    → 8 ≤ m + length path
    → IsTree n path p
    → IsTree m path p
IsTree-bound n m path null h t = tt
IsTree-bound n m path (leaf v) h t = t
IsTree-bound zero m path (node h b) l t = absurd t
IsTree-bound (suc n) zero path (node h b) l t = absurd (omega (arith, t.1, l))
IsTree-bound (suc n) (suc m) path (node h b) l t = (
  t.0,
  t.1,
  t.2,
  t.3,
  λ z hz.
      let (c, found, tree) = t.4 z hz in
      (
        c,
        found,
        IsTree-bound n m (extend path h.prefix z) c
            (omega (arith, l, length-extend path h.prefix z)) tree,
      ),
)
