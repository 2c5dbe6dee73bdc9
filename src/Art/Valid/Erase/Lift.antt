-- ===== src/Art/Valid/Erase/Lift.antt =====
-- src/storage/art.cpp: the only child that is left of a `Node4`, in the place of the node.
use babydb_private.Prelude.{
  ℕ, zero, suc, ◌+◌, ◌<◌, ◌≡◌, refl, ap, sym, ◌∙◌, subst, true, false, ◌&&◌, some, List, ◌∷◌,
  length, length-append, get_elem?, append_assoc, All-append, take-append, drop_behind,
  get_elem?-append, arith, All, Bool-cases, inl, inr, nat_eq, nat_eq_iff, if◌then◌else◌, if_true,
  if_false,
}
use babydb_private.Outcome.{ok}
use babydb_private.Schema.{word_mod}
use babydb_private.Art.{Header, TreePointer, null, leaf, node, Body}
use babydb_private.Art.Key.{load_key}
use babydb_private.Art.Search.{lookup}
use babydb_private.Art.Nodes.Insert.{IsShort}
use babydb_private.Art.Valid.{IsOn, extend, IsTree}
use babydb_private.Art.Valid.Keys.{byte_at, length-extend}
use babydb_private.Art.Valid.Lookup.{continues, continues-IsOn, lookup_step, lookup_fuel}
use babydb_private.Art.Valid.Fork.{leaf_case}
use babydb_private.Art.Valid.Split.{continues_split, test_parts}
use babydb_private.Art.Valid.Erase.Paths.{from_extend, joined_header}

-- At the path, a lookup in `r` is one in the tree `d` behind the bytes and the byte `x`, for the keys
-- that lead there.
abbrev pub Lifts : ℕ → List ℕ → List ℕ → ℕ → TreePointer → TreePointer → Type 0
Lifts n path bytes x d r =
    (fuel j z : ℕ)
    → n < fuel
    → j < word_mod
    → IsOn path j
    → get_elem? (load_key j) (length path + length bytes) ≡ some z
    → lookup (suc fuel) false r (load_key j) (length path) ≡ (
        if continues path bytes j && nat_eq x z
        then lookup fuel false d (load_key j) (length (extend path bytes x))
        else ok null)

some_leaf :
    (n fuel v j : ℕ) (path : List ℕ)
    → n < fuel
    → v < word_mod
    → j < word_mod
    → IsOn path v
    → IsOn path j
    → lookup fuel false (leaf v) (load_key j) (length path)
      ≡ (if nat_eq v j then ok (leaf v) else ok null)
some_leaf n zero v j path lt hv hj onv onj = absurd (omega arith)
some_leaf n (suc fuel) v j path lt hv hj onv onj = leaf_case fuel v j path hv hj onv onj

pub leaf-Lifts :
    (n : ℕ) (path bytes : List ℕ) (x v : ℕ)
    → IsTree n (extend path bytes x) (leaf v)
    → Lifts n path bytes x (leaf v) (leaf v)
leaf-Lifts n path bytes x v t fuel j z lt hj on at =
    let hv : v < word_mod = omega (arith, t.0) in
    let (onv, leads, at_v) = from_extend path bytes v x t.1 in
    let here = leaf_case fuel v j path hv hj onv on in
    elim (Bool-cases (continues path bytes j && nat_eq x z)) [
      | inl e ↦
          let byte : x ≡ z = ground (arith, e) in
          let cont : continues path bytes j ≡ true = ground (arith, e) in
          let onj = continues-IsOn path bytes j x on cont (at ∙ ap some (sym byte)) in
          here ∙ sym (if_true _ _ _ e ∙ some_leaf n fuel v j (extend path bytes x) lt hv hj t.1 onj)
      | inr e ↦
          let other : nat_eq v j ≡ false = elim (Bool-cases (nat_eq v j)) [
            | inr f ↦ f
            | inl f ↦
                let same : v ≡ j = (nat_eq_iff v j).0 f in
                let cont = subst (λ i. continues path bytes i ≡ true) same leads in
                let byte =
                  sym (
                    subst (λ i. get_elem? (load_key i) (length path + length bytes) ≡ some x) same
                      at_v)
                  ∙ at in
                absurd (ground (arith, cont, byte, e))
          ] in
          here ∙ if_false _ _ _ other ∙ sym (if_false _ _ _ e)
    ]

module _ (n : ℕ) (path : List ℕ) (h : Header) (x : ℕ) (g : Header) (b : Body) (short : IsShort h)
    (fits : All (λ z. z < 256) h.prefix) (hx : x < 256)
    (t : IsTree (suc n) (extend path h.prefix x) (node g b)) where
  abbrev whole : Header
  whole = joined_header h x g

  path_through : (z : ℕ) → extend (extend path h.prefix x) g.prefix z ≡ extend path whole.prefix z
  path_through z = simp append_assoc refl

  joined-IsTree : IsTree (suc n) path (node whole b)
  joined-IsTree =
      let level = length-extend path h.prefix x in
      let sized = length-append h.prefix (x ∷ g.prefix) in
      (
        (omega (arith, sized, short.0, t.0.0), omega (arith, level, short.0, t.1)),
        omega (arith, level, short.0, t.1),
        All-append _ h.prefix (x ∷ g.prefix) fits (hx, t.2),
        t.3,
        λ z hz.
            let (c, found, tree) = t.4 z hz in
            (c, found, subst (λ p. IsTree n p c) (path_through z) tree),
      )

  at_x : get_elem? whole.prefix (length h.prefix) ≡ some x
  at_x = get_elem?-append h.prefix x g.prefix

  continues_joined :
      (j z : ℕ)
      → get_elem? (load_key j) (length path + length h.prefix) ≡ some z
      → continues path whole.prefix j ≡ (
          continues path h.prefix j
          && (nat_eq x z && continues (extend path h.prefix x) g.prefix j))
  continues_joined j z at =
      continues_split n path whole b joined-IsTree (length h.prefix) x at_x j z at
      ∙ rw (take-append h.prefix (x ∷ g.prefix), drop_behind h.prefix x g.prefix) refl

  pub node-Lifts : Lifts (suc n) path h.prefix x (node g b) (node whole b)
  node-Lifts zero j z lt hj on at = absurd (omega arith)
  node-Lifts (suc fuel) j z lt hj on at =
      let ext = extend path h.prefix x in
      let tree = joined-IsTree in
      let (w, at_w, hw) =
        byte_at j (length path + length whole.prefix) (omega (arith, tree.1, tree.0.0)) in
      let (c, found, below) = tree.4 w hw in
      let above_it = lookup_step path whole b j w c (suc fuel) tree.0 tree.1 at_w found in
      let level : length ext + length g.prefix ≡ length path + length whole.prefix =
        omega (arith, length-extend path h.prefix x, length-append h.prefix (x ∷ g.prefix)) in
      let at_w' = ap (get_elem? (load_key j)) level ∙ at_w in
      let in_place = lookup_step ext g b j w c fuel t.0 t.1 at_w' found in
      test_parts (continues path h.prefix j) (nat_eq x z) (continues ext g.prefix j)
        (continues path whole.prefix j) _ _ _ _ (ok null) (continues_joined j z at) above_it
        in_place
        (λ all.
          let on_w = continues-IsOn path whole.prefix j w on all at_w in
          lookup_fuel n (suc fuel) fuel (extend path whole.prefix w) c j below (omega (arith, lt))
            (omega (arith, lt)) on_w
          ∙ ap (λ p. lookup fuel false c (load_key j) (length p)) (sym (path_through w)))
