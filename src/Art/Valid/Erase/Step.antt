-- ===== src/Art/Valid/Erase/Step.antt =====
-- src/storage/art.cpp: `erase` at a node whose prefix the key has.
use babydb_private.Prelude.{
  ℕ, suc, ◌+◌, ◌<◌, ◌≡◌, refl, ap, sym, ◌∙◌, true, false, some, List, length, get_elem?, nat_eq,
  nat_eq_iff, if_true, if_false, if◌then◌else◌, arith, Bool-cases, inl, inr,
}
use babydb_private.Outcome.{Outcome, ok}
use babydb_private.Schema.{word_mod}
use babydb_private.Art.{Header, TreePointer, null, node, Body}
use babydb_private.Art.Key.{load_key}
use babydb_private.Art.Arrays.{is_empty}
use babydb_private.Art.Search.{find_child}
use babydb_private.Art.Erase.{erase_below, is_match}
use babydb_private.Art.Nodes.Write.{write_child-Writes}
use babydb_private.Art.Valid.{IsOn, extend, IsTree}
use babydb_private.Art.Valid.Lookup.{continues, continues-IsOn}
use babydb_private.Art.Valid.Insert.{empty_is_null}
use babydb_private.Art.Valid.Replace.{replaced-Changes}
use babydb_private.Art.Valid.Erase.{is_own, Erased, IsLarge}
use babydb_private.Art.Valid.Erase.Take.{taken-Erased}
use babydb_private.Art.Valid.Erase.Leaf.{null-Changes, match_lem}

unchanged :
    (b : Body) (z : ℕ) (c : TreePointer)
    → find_child b z ≡ ok c
    → (j : ℕ) → j < 256
    → find_child b j ≡ (if nat_eq z j then ok c else find_child b j)
unchanged b z c found j hj = elim (Bool-cases (nat_eq z j)) [
  | inl e ↦ ap (find_child b) (sym ((nat_eq_iff z j).0 e)) ∙ found ∙ sym (if_true _ _ _ e)
  | inr e ↦ sym (if_false _ _ _ e)
]

module _ (n : ℕ) (path : List ℕ) (h : Header) (b : Body) (k : ℕ)
    (t : IsTree (suc n) path (node h b)) (hk : k < word_mod) (on : IsOn path k) (z : ℕ)
    (hz : z < 256) (c : TreePointer) (found : find_child b z ≡ ok c)
    (tree : IsTree n (extend path h.prefix z) c) (leads : continues path h.prefix k ≡ true)
    (at : get_elem? (load_key k) (length path + length h.prefix) ≡ some z) (d : ℕ)
    (level : suc d ≡ length (extend path h.prefix z))
    (shrunk : TreePointer → Outcome TreePointer) where
  abbrev Result : Type 0
  Result = Erased (suc n) path (node h b) k (erase_below shrunk h b (load_key k) d z)

  matches : is_match c (load_key k) d ≡ ok (is_own c k)
  matches =
      match_lem n d k (extend path h.prefix z) c tree hk
        (continues-IsOn path h.prefix k z on leads at) (omega (arith, level))

  take_leaf : is_own c k ≡ true → IsLarge b → Result
  take_leaf own large =
      let (p', run, full, changes) =
        taken-Erased n path h k hk on z hz c own leads at b t large found in
      (p', (unfold erase_below in rw (found, matches, own) run), full, changes)

  stay : is_own c k ≡ false → is_empty c ≡ true → Result
  unfolding is_empty
  stay own gone =
      let none_there : c ≡ null = empty_is_null c gone in
      let found' = found ∙ ap ok none_there in
      (
        node h b,
        (unfold erase_below in rw (found, matches, own, gone) refl),
        (λ full other. refl),
        replaced-Changes null n path h b k t z null null found' leads at
            (null-Changes n (extend path h.prefix z) k) b (unchanged b z null found'),
      )

  erase_child :
      is_own c k ≡ false
      → is_empty c ≡ false
      → Erased n (extend path h.prefix z) c k (shrunk c)
      → Result
  unfolding is_empty
  erase_child own full below =
      let (c', made, full', changes) = below in
      let (b', run, _, map') = write_child-Writes b z c' c t.3 hz (full' full own) found full in
      (
        node h b',
        (unfold erase_below in rw (found, matches, own, full, made, run) refl),
        (λ full other. refl),
        replaced-Changes null n path h b k t z c c' found leads at changes b' map',
      )

  pub step :
      (is_own c k ≡ true → IsLarge b) → Erased n (extend path h.prefix z) c k (shrunk c) → Result
  step kept below = elim (Bool-cases (is_own c k)) [
    | inl own ↦ take_leaf own (kept own)
    | inr own ↦ elim (Bool-cases (is_empty c)) [
      | inl gone ↦ stay own gone
      | inr full ↦ erase_child own full below
    ]
  ]
