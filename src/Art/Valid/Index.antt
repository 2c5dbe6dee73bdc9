-- ===== src/Art/Valid/Index.antt =====
-- src/storage/art.cpp: `ArtIndex` under any sequence of insertions, against a set of keys.
use babydb_private.Prelude.{
  ℕ, zero, suc, subst, ◌<◌, ◌^◌, ◌≡◌, refl, ap, sym, ◌∙◌, Bool, true, false, ◌||◌, List, [], ◌∷◌,
  length, nat_eq, if◌then◌else◌, if_true, if_false, arith, Bool-cases, ◌⊎◌, inl, inr,
}
use babydb_private.Outcome.{Outcome, ok, throws, duplicated_key, ◌>>=◌}
use babydb_private.Schema.{word_mod, invalid_id}
use babydb_private.Art.{TreePointer, null, leaf, node}
use babydb_private.Art.Key.{load_key}
use babydb_private.Art.Search.{lookup}
use babydb_private.Art.Tree.{descent_fuel, found_id, lookup_key, insert_entry}
use babydb_private.Art.Leaf.{present_refused}
use babydb_private.Art.Valid.{IsOn, extend, IsTree}
use babydb_private.Art.Valid.Lookup.{continues, descent}
use babydb_private.Art.Valid.Fork.{leaf_case, null_case}
use babydb_private.Art.Valid.Insert.{insert-Inserted}

-- A lookup gives null or the key's own leaf.
abbrev pub Answers : Outcome TreePointer → ℕ → Type 0
Answers result j = (result ≡ ok null) ⊎ ((result ≡ ok (leaf j)) × (j < 2 ^ 63))

-- In a tree that insertion made, the lookup of a key of 64 bits on the tree's path ends, with
-- nothing or with the key's own leaf, when the fuel exceeds the bound on the nodes that stand one
-- below the other.
pub lookup-Answers :
    (n f : ℕ) (path : List ℕ) (p : TreePointer) (j : ℕ)
    → IsTree n path p
    → n < f
    → j < word_mod
    → IsOn path j
    → Answers (lookup f false p (load_key j) (length path)) j
lookup-Answers n zero path p j t lt hj on = absurd (omega arith)
lookup-Answers n (suc f) path null j t lt hj on = inl (null_case f (load_key j) (length path))
lookup-Answers n (suc f) path (leaf v) j t lt hj on =
    let run = leaf_case f v j path (omega (arith, t.0)) hj t.1 on in
    elim (Bool-cases (nat_eq v j)) [
      | inl e ↦
          let same : v ≡ j = ground (arith, e) in
          inr (run ∙ (if_true _ _ _ e ∙ ap (λ i. ok (leaf i)) same), omega (arith, t.0, same))
      | inr e ↦ inl (run ∙ if_false _ _ _ e)
    ]
lookup-Answers zero (suc f) path (node h b) j t lt hj on = absurd t
lookup-Answers (suc n) (suc f) path (node h b) j t lt hj on =
    let s = descent n path h b j t on in
    elim (Bool-cases (continues path h.prefix j)) [
      | inr e ↦ inl (s.step f ∙ if_false _ _ _ e)
      | inl e ↦
          let here = s.step f ∙ if_true _ _ _ e in
          elim (lookup-Answers n f (extend path h.prefix s.byte) s.below j s.below_tree
            (omega arith) hj (s.on e)) [
              | inl none_there ↦ inl (here ∙ none_there)
              | inr (found, small) ↦ inr (here ∙ found, small)
            ]
    ]

-- A root, with no more nodes one below the other than a key has bytes.
abbrev pub IsRoot : TreePointer → Type 0
IsRoot root = IsTree 8 [] root

unfoldable pub contains : List ℕ → ℕ → Bool
contains [] j = false
contains (k ∷ ks) j = nat_eq k j || contains ks j

-- The keys that a lookup finds are those of a list, and it gives each of them itself.
abbrev pub Holds : TreePointer → List ℕ → Type 0
Holds root keys =
    (j : ℕ) → j < word_mod → lookup_key root j ≡ ok (if contains keys j then j else invalid_id)

-- The roots that calls of `InsertEntry` lead to, from the empty index, with the keys they took.
-- A call that throws leaves the index as it is.
pub data Reached : List ℕ → TreePointer → Type 0 where
  created : Reached [] null
  accepted :
      {keys : List ℕ} {root root' : TreePointer} (key row_id : ℕ)
      → Reached keys root
      → key < 2 ^ 63
      → insert_entry root key row_id ≡ ok root'
      → Reached (key ∷ keys) root'

-- What a call of `InsertEntry` makes of an index that holds a set of keys.
abbrev pub Takes : List ℕ → TreePointer → ℕ → ℕ → Type 0
Takes keys root key row_id =
    ((contains keys key ≡ true) × (insert_entry root key row_id ≡ throws duplicated_key))
    ⊎ ((contains keys key ≡ false)
        × (root' : TreePointer) × (insert_entry root key row_id ≡ ok root')
        × IsRoot root'
        × Holds root' (key ∷ keys))

lookup_key_lem :
    (p : TreePointer) (j : ℕ)
    → lookup_key p j ≡ (lookup descent_fuel false p (load_key j) 0 >>= λ q. ok (found_id q))
unfolding lookup_key
lookup_key_lem p j = refl

key_found :
    (p : TreePointer) (keys : List ℕ) (key j : ℕ) (result : Outcome TreePointer)
    → result ≡ (if nat_eq key j then ok (leaf key) else lookup descent_fuel false p (load_key j) 0)
    → lookup_key p j ≡ ok (if contains keys j then j else invalid_id)
    → result >>= (λ q. ok (found_id q)) ≡ ok (if contains (key ∷ keys) j then j else invalid_id)
unfolding contains
key_found p keys key j result gains holds = elim (Bool-cases (nat_eq key j)) [
  | inl e ↦
      let same : key ≡ j = ground (arith, e) in
      ap (λ r. r >>= λ q. ok (found_id q)) (gains ∙ if_true _ _ _ e) ∙ rw e (ap ok same)
  | inr e ↦
      ap (λ r. r >>= λ q. ok (found_id q)) (gains ∙ if_false _ _ _ e)
      ∙ sym (lookup_key_lem p j)
      ∙ holds
      ∙ rw e refl
]

nothing_found :
    (root : TreePointer) (key : ℕ)
    → IsRoot root
    → key < 2 ^ 63
    → lookup_key root key ≡ ok invalid_id
    → lookup descent_fuel false root (load_key key) 0 ≡ ok null
nothing_found root key t small absent =
    elim (lookup-Answers 8 descent_fuel [] root key t (omega arith) (omega (arith, small)) refl) [
      | inl none_there ↦ none_there
      | inr (found, _) ↦
          let same : ok key ≡ ok invalid_id =
            sym (lookup_key_lem root key ∙ ap (λ r. r >>= λ q. ok (found_id q)) found) ∙ absent in
          absurd (ground (arith, same, small))
    ]

-- On an index that insertion made and that holds a set of keys, `InsertEntry` of a key below 2 ^ 63
-- throws if the key is in the set, and otherwise returns such an index that holds the set with the
-- key, whatever the row id is.
pub insert_entry-Takes :
    (keys : List ℕ) (root : TreePointer) (key row_id : ℕ)
    → IsRoot root
    → Holds root keys
    → key < 2 ^ 63
    → Takes keys root key row_id
insert_entry-Takes keys root key row_id t holds small = elim (Bool-cases (contains keys key)) [
  | inl e ↦
      let found = holds key (omega (arith, small)) ∙ ap ok (if_true _ _ _ e) in
      inl (e, present_refused root key row_id small found)
  | inr e ↦
      let absent = holds key (omega (arith, small)) ∙ ap ok (if_false _ _ _ e) in
      let (root', run, _, t', gains) =
        insert-Inserted 8 descent_fuel [] root key (omega arith) t small refl (omega arith)
          (nothing_found root key t small absent) in
      inr (
        e,
        root',
        (unfold insert_entry in rw absent run),
        t',
        λ j hj.
            unfold lookup_key in
            key_found root keys key j (lookup descent_fuel false root' (load_key j) 0)
              (gains descent_fuel j (omega arith) hj refl) (holds j hj),
      )
]

created-Holds : Holds null []
unfolding lookup_key contains
created-Holds j hj = ap (λ r. r >>= λ q. ok (found_id q)) (null_case 9 (load_key j) 0)

same_root : (a b : TreePointer) → ok a ≡ ok b → a ≡ b
same_root a b e = ground (arith, e)

-- Whatever calls of `InsertEntry` with keys below 2 ^ 63 made an index, its tree has at most eight
-- nodes one below the other, and a lookup of a key of 64 bits ends and gives the key itself if it
-- was taken, and the invalid id if it was not.
pub Reached-Holds :
    (keys : List ℕ) (root : TreePointer) → Reached keys root → IsRoot root × Holds root keys
Reached-Holds keys root created = (tt, created-Holds)
Reached-Holds (key ∷ keys) root' (accepted {root} _ row_id before small run) =
    let (t, holds) = Reached-Holds keys root before in
    elim (insert_entry-Takes keys root key row_id t holds small) [
      | inl (_, refused) ↦ absurd (ground (arith, sym run ∙ refused))
      | inr (_, root'', made, t', holds') ↦
          subst (λ r. IsRoot r × Holds r (key ∷ keys)) (same_root root'' root' (sym made ∙ run))
            (t', holds')
    ]
