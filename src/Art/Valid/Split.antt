-- ===== src/Art/Valid/Split.antt =====
-- src/storage/art.cpp: a node whose prefix is cut where a new key leaves it.
use babydb_private.Prelude.{
  ℕ, suc, ◌+◌, ◌-◌, ◌≤◌, ◌<◌, ◌≡◌, refl, ap, sym, ◌∙◌, subst, Bool, true, false, ◌&&◌, some, List,
  [], ◌∷◌, ◌++◌, length, nat_eq, if◌then◌else◌, if_true, if_false, arith, Bool-cases, inl, inr,
  get_elem?, take, drop, append_assoc, length-take, length-drop, take-take, drop-take, drop-drop,
  get_elem?-take, get_elem?-drop, get_elem?-lt, split_at, All-drop,
}
use babydb_private.Outcome.{ok}
use babydb_private.Schema.{word_mod}
use babydb_private.Art.{Header, null, node, Body}
use babydb_private.Art.Key.{load_key}
use babydb_private.Art.Search.{lookup}
use babydb_private.Art.Parting.{equal_lists-split}
use babydb_private.Art.Valid.{IsOn, extend, IsTree}
use babydb_private.Art.Valid.Keys.{byte_at, length-extend}
use babydb_private.Art.Valid.Lookup.{
  continues, continues-IsOn, lookup_step, lookup_fuel, IsTree-bound,
}

-- What stays above the cut, and the node with what stays below.
abbrev pub above : Header → ℕ → List ℕ
above h pos = take pos h.prefix

abbrev pub cut : Header → ℕ → Header
cut h pos = record {
  prefix_length = length (drop (suc pos) h.prefix);
  prefix = drop (suc pos) h.prefix;
}

and_all : (a b c : Bool) → a && b ≡ true → (a && (b && c)) ≡ c
and_all a b c h = ground (arith, h)

and_none : (a b c : Bool) → a && b ≡ false → (a && (b && c)) ≡ false
and_none a b c h = ground (arith, h)

-- One test of a whole prefix, in the place of a test of its front and byte and one of its back.
pub test_parts :
    {A : Type 0} (front byte back all : Bool) (whole part x y otherwise : A)
    → all ≡ (front && (byte && back))
    → whole ≡ (if all then x else otherwise)
    → part ≡ (if back then y else otherwise)
    → (all ≡ true → x ≡ y)
    → whole ≡ (if front && byte then part else otherwise)
test_parts front byte back all whole part x y otherwise split w p same =
    elim (Bool-cases (front && byte)) [
      | inl e ↦
          let rest : all ≡ back = split ∙ and_all front byte back e in
          elim (Bool-cases back) [
            | inl f ↦
                (w ∙ if_true _ _ _ (rest ∙ f))
                ∙ same (rest ∙ f)
                ∙ sym (if_true _ _ _ e ∙ (p ∙ if_true _ _ _ f))
            | inr f ↦
                (w ∙ if_false _ _ _ (rest ∙ f)) ∙ sym (if_true _ _ _ e ∙ (p ∙ if_false _ _ _ f))
          ]
      | inr e ↦ (w ∙ if_false _ _ _ (split ∙ and_none front byte back e)) ∙ sym (if_false _ _ _ e)
    ]

module _ (n : ℕ) (path : List ℕ) (h : Header) (b : Body) (t : IsTree (suc n) path (node h b))
    (pos x : ℕ) (at_x : get_elem? h.prefix pos ≡ some x) where
  within : pos < length h.prefix
  within = get_elem?-lt h.prefix pos x at_x

  pub length-above : length (above h pos) ≡ pos
  length-above = length-take pos h.prefix (omega (arith, within))

  length-cut : length (drop (suc pos) h.prefix) + suc pos ≡ length h.prefix
  length-cut = omega (arith, length-drop (suc pos) h.prefix, within)

  path_joined :
      (z : ℕ)
      → extend (extend path (above h pos) x) (drop (suc pos) h.prefix) z ≡ extend path h.prefix z
  path_joined z =
      let joined = sym (split_at pos h.prefix x at_x) in
      simp append_assoc (
        ap (λ q. path ++ q)
          (sym (append_assoc (above h pos) (x ∷ drop (suc pos) h.prefix) (z ∷ [])))
        ∙ ap (λ q. path ++ (q ++ z ∷ [])) joined)

  pub cut-IsTree : IsTree (suc n) (extend path (above h pos) x) (node (cut h pos) b)
  cut-IsTree =
      let level = length-extend path (above h pos) x in
      (
        (refl, omega (arith, length-cut, t.0)),
        omega (arith, length-cut, level, length-above, t.0.0, t.1),
        All-drop (λ z. z < 256) (suc pos) h.prefix t.2,
        t.3,
        λ z hz.
            let (c, found, tree) = t.4 z hz in
            (c, found, subst (λ p. IsTree n p c) (sym (path_joined z)) tree),
      )

  pub continues_split :
      (j z : ℕ)
      → get_elem? (load_key j) (length path + pos) ≡ some z
      → continues path h.prefix j ≡ (
          continues path (above h pos) j
          && (nat_eq x z && continues (extend path (above h pos) x) (drop (suc pos) h.prefix) j))
  continues_split j z at_z =
      let bytes = drop (length path) (load_key j) in
      let here : get_elem? (take (length h.prefix) bytes) pos ≡ some z =
        get_elem?-take (length h.prefix) bytes pos within
        ∙ get_elem?-drop (length path) pos (load_key j)
        ∙ at_z in
      let front : take pos (take (length h.prefix) bytes) ≡ take (length (above h pos)) bytes =
        take-take pos (length h.prefix) bytes (omega (arith, within))
        ∙ ap (λ m. take m bytes) (sym length-above) in
      let back : drop (suc pos) (take (length h.prefix) bytes)
          ≡ take (length (drop (suc pos) h.prefix))
              (drop (length (extend path (above h pos) x)) (load_key j)) =
        drop-take (suc pos) (length h.prefix) bytes
        ∙ ap (λ m. take m (drop (suc pos) bytes)) (omega (arith, length-cut))
        ∙ ap (take (length (drop (suc pos) h.prefix))) (
            drop-drop (length path) (suc pos) (load_key j)
            ∙ ap (λ m. drop m (load_key j))
                (omega (arith, length-extend path (above h pos) x, length-above))) in
      equal_lists-split pos h.prefix (take (length h.prefix) bytes) x z at_x here
      ∙ rw (front, back) refl

  -- A lookup in the old node is one in the cut node, for the keys that lead there.
  pub lookup-cut :
      (fuel j z : ℕ)
      → n < suc fuel
      → 8 ≤ n + suc (length path)
      → j < word_mod
      → IsOn path j
      → get_elem? (load_key j) (length path + pos) ≡ some z
      → lookup (suc (suc fuel)) false (node h b) (load_key j) (length path) ≡ (
          if continues path (above h pos) j && nat_eq x z
          then lookup
              (suc fuel)
              false
              (node (cut h pos) b)
              (load_key j)
              (length (extend path (above h pos) x))
          else ok null)
  lookup-cut fuel j z lt deep hj on at_z =
      let path' = extend path (above h pos) x in
      let (w, at_w, hw) = byte_at j (length path + length h.prefix) (omega (arith, t.1, t.0.0)) in
      let (c, found, tree) = t.4 w hw in
      let whole = lookup_step path h b j w c (suc fuel) t.0 t.1 at_w found in
      let valid = cut-IsTree in
      let level : length path' + length (drop (suc pos) h.prefix) ≡ length path + length h.prefix =
        omega (arith, length-extend path (above h pos) x, length-above, length-cut) in
      let at_w' = ap (get_elem? (load_key j)) level ∙ at_w in
      let part = lookup_step path' (cut h pos) b j w c fuel valid.0 valid.1 at_w' found in
      test_parts (continues path (above h pos) j) (nat_eq x z)
        (continues path' (drop (suc pos) h.prefix) j) (continues path h.prefix j) _ _ _ _ (ok null)
        (continues_split j z at_z) whole part
        (λ all.
          let short =
            IsTree-bound n (n - 1) (extend path h.prefix w) c
              (omega (arith, deep, length-extend path h.prefix w, within)) tree in
          let room : length path + length h.prefix < 8 = omega (arith, t.1, t.0.0) in
          let on_w = continues-IsOn path h.prefix j w on all at_w in
          lookup_fuel (n - 1) (suc fuel) fuel (extend path h.prefix w) c j short (omega (arith, lt))
            (omega (arith, lt, deep, room, within)) on_w
          ∙ ap (λ p. lookup fuel false c (load_key j) (length p)) (sym (path_joined w)))
