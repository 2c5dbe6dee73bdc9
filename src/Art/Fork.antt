-- ===== src/Art/Fork.antt =====
-- src/storage/art.cpp: a leaf that an insertion splits, and lookups in the new node.
use Prim.Native.Nat.{min}
use babydb_private.Prelude.{
  ℕ, suc, ◌+◌, ◌-◌, ◌^◌, ◌<◌, ◌≡◌, refl, Bool, true, false, ◌&&◌, ltb, some, List, [], length, take,
  drop, length-drop, length-take, drop-length, drop-get_elem?, get_elem?, nat_eq, if◌then◌else◌,
  arith, ap, sym, ◌∙◌, Bool-cases, inl, inr,
}
use babydb_private.Outcome.{ok, ◌>>=◌}
use babydb_private.Schema.{word_mod, invalid_id}
use babydb_private.Art.{Header, TreePointer, null, leaf, node, node4, Entries, no_entry}
use babydb_private.Art.Key.{load_key}
use babydb_private.Art.Arrays.{insert_at, entry_child}
use babydb_private.Art.Search.{max_prefix_length, lookup, leaf_found, find_child}
use babydb_private.Art.Insert.{insert_leaf, insert, fork, first_bytes}
use babydb_private.Art.Tree.{insert_entry, lookup_key, found_id}
use babydb_private.Art.Leaf.{lookup_leaf, of_data_lem, equal_lists, agree-equal_lists, equal_keys}
use babydb_private.Art.Parting.{Parting, parting, no_prefix, equal_lists-split, agree-take}

leaf_rest :
    (v : ℕ) (zs : List ℕ) (n : ℕ)
    → n < 8
    → length zs ≡ 8
    → leaf_found false v zs (suc n)
      ≡ ok (if equal_lists (drop (suc n) (load_key v)) (drop (suc n) zs) then leaf v else null)
unfolding leaf_found load_key equal_lists
leaf_rest v zs n lt l = elim (Bool-cases (nat_eq (suc n) 8)) [
  | inl e ↦
      let seven : n ≡ 7 = ground (arith, e) in
      let no_byte : drop 8 zs ≡ [] = ap (λ m. drop m zs) (sym l) ∙ drop-length zs in
      rw (seven, no_byte) refl
  | inr e ↦
      rw
        (
          e,
          agree-equal_lists (8 - suc n) (drop (suc n) (load_key v)) (drop (suc n) zs)
              (length-drop (suc n) (load_key v)) (length-drop (suc n) zs ∙ ap (λ m. m - suc n) l),
        )
        (ground arith)
]

pub fork-entry_child :
    (x y z : ℕ) (a b : TreePointer)
    → nat_eq x y ≡ false
    → entry_child (insert_at (λ k. k) (insert_at (λ k. k) no_entry x x a) y y b) z
      ≡ (if nat_eq x z then a else if nat_eq y z then b else null)
unfolding entry_child insert_at
fork-entry_child x y z a b differ = ground arith

module _ (h : Header) (es : Entries) (n fuel : ℕ) (zs : List ℕ) where
  lookup_below :
      (c : TreePointer) (z : ℕ)
      → h.prefix_length ≡ n
      → n < 8
      → length zs ≡ 8
      → length h.prefix ≡ n
      → get_elem? zs n ≡ some z
      → entry_child es z ≡ c
      → lookup (suc fuel) false (node h (node4 es)) zs 0
        ≡ (if equal_lists h.prefix (take n zs) then lookup fuel false c zs (suc n) else ok null)
  unfolding lookup find_child
  lookup_below c z hn lt l lp at below =
      let here : 0 + h.prefix_length ≡ n = omega (arith, hn) in
      elim (Bool-cases (nat_eq n 0)) [
        | inl e ↦ rw (here, hn, at, e, below, no_prefix n zs h.prefix e lp) refl
        | inr e ↦
            let short : ltb n max_prefix_length ≡ true = ground (arith, lt) in
            rw (here, hn, at, e, short, agree-take n zs h.prefix lp (omega (arith, l, lt)), below)
              refl
      ]

pub parted : (a b z : ℕ) → nat_eq a b ≡ false → nat_eq a z ≡ true → nat_eq b z ≡ false
parted a b z differ same = ground arith

-- Whether two keys agree before byte `n`, and behind it.
meets : ℕ → ℕ → ℕ → Bool
meets k j n = equal_lists (take n (load_key k)) (take n (load_key j))

ends : ℕ → ℕ → ℕ → Bool
ends k j n = equal_lists (drop (suc n) (load_key k)) (drop (suc n) (load_key j))

child_found :
    (v k j n x y z : ℕ) (es : Entries)
    → n < 8
    → entry_child es z ≡ (if nat_eq x z then leaf v else if nat_eq y z then leaf k else null)
    → lookup 9 false (entry_child es z) (load_key j) (suc n) ≡ (
        if nat_eq x z
        then ok (if ends v j n then leaf v else null)
        else if nat_eq y z
        then ok (if ends k j n then leaf k else null)
        else ok null)
unfolding lookup ends
child_found v k j n x y z es lt child = elim (Bool-cases (nat_eq x z)) [
  | inl e1 ↦ rw (child, e1) (leaf_rest v (load_key j) n lt (unfold load_key in refl))
  | inr e1 ↦ elim (Bool-cases (nat_eq y z)) [
    | inl e2 ↦ rw (child, e1, e2) (leaf_rest k (load_key j) n lt (unfold load_key in refl))
    | inr e2 ↦ rw (child, e1, e2) refl
  ]
]

both :
    (meet first second end_first end_second : Bool) (v k : ℕ)
    → (first ≡ true → second ≡ false)
    → ((if meet
          then (if first
              then ok (if end_first then leaf v else null)
              else if second
              then ok (if end_second then leaf k else null)
              else ok null)
          else ok null)
        >>= λ p. ok (found_id p))
      ≡ ok (
          if meet && (first && end_first)
          then v
          else if meet && (second && end_second)
          then k
          else invalid_id)
both meet first second end_first end_second v k apart = ground (arith, apart)

-- What a lookup finds below a node for two keys that part at byte `n`.
fork_lookup :
    (v k j n : ℕ) (p : Parting (load_key v) (load_key k) n) (es : Entries)
    → v < word_mod
    → k < word_mod
    → j < word_mod
    → ((z : ℕ)
        → entry_child es z
          ≡ (if nat_eq p.first z then leaf v else if nat_eq p.second z then leaf k else null))
    → lookup_key (node (record { prefix_length = n; prefix = take n (load_key k) }) (node4 es)) j
      ≡ ok (if nat_eq v j then v else if nat_eq k j then k else invalid_id)
unfolding lookup_key
fork_lookup v k j n p es hv hk hj children =
    let lt : n < 8 = omega (arith, p.within) in
    let (z, at, _) = drop-get_elem? n (load_key j) lt in
    let look =
      lookup_below (record { prefix_length = n; prefix = take n (load_key k) }) es n 9 (load_key j)
        (entry_child es z) z refl lt refl (length-take n (load_key k) (omega (arith, lt))) at
        refl in
    let ev : nat_eq v j ≡ (meets k j n && (nat_eq p.first z && ends v j n)) =
      sym (equal_keys v j hv hj)
      ∙ equal_lists-split n (load_key v) (load_key j) p.first z p.at_first at
      ∙ (unfold meets ends in rw p.agreed refl) in
    let ek : nat_eq k j ≡ (meets k j n && (nat_eq p.second z && ends k j n)) =
      sym (equal_keys k j hk hj)
      ∙ equal_lists-split n (load_key k) (load_key j) p.second z p.at_second at
      ∙ (unfold meets ends in refl) in
    let found = child_found v k j n p.first p.second z es lt (children z) in
    (unfold meets ends in
      rw (look, found, ev, ek)
        (both (meets k j n) (nat_eq p.first z) (nat_eq p.second z) (ends v j n) (ends k j n) v k
          (parted p.first p.second z p.differ)))

abbrev forked : ℕ → ℕ → ℕ → ℕ → ℕ → TreePointer
forked v k n first second =
    node (record { prefix_length = n; prefix = take n (load_key k) })
      (node4 (
        insert_at (λ b. b) (insert_at (λ b. b) no_entry first first (leaf v)) second second
          (leaf k)))

insert_leaf_lem :
    (v k n : ℕ) (p : Parting (load_key v) (load_key k) n)
    → k < 2 ^ 63
    → insert_leaf v (load_key k) 0 k ≡ ok (forked v k n p.first p.second)
unfolding insert_leaf fork first_bytes
insert_leaf_lem v k n p small =
    let whole : min n 9 ≡ n = ground (arith, p.within) in
    let here : 0 + n ≡ n = omega arith in
    rw (p.run, here, p.at_first, p.at_second, whole, of_data_lem k small) refl

insert-insert_leaf :
    (v k row_id : ℕ)
    → lookup_key (leaf v) k ≡ ok invalid_id
    → insert_entry (leaf v) k row_id ≡ insert_leaf v (load_key k) 0 k
unfolding insert_entry insert
insert-insert_leaf v k row_id absent = rw absent refl

-- Into an index that holds one key below 2 ^ 63, another one can be inserted; after that, a lookup
-- of either gives the key itself, and a lookup of any third key of 64 bits finds nothing.
pub second_insert_lem :
    (v k row_id : ℕ)
    → v < 2 ^ 63
    → k < 2 ^ 63
    → nat_eq v k ≡ false
    → (root : TreePointer) × (insert_entry (leaf v) k row_id ≡ ok root)
      × ((j : ℕ)
          → j < word_mod
          → lookup_key root j ≡ ok (if nat_eq v j then v else if nat_eq k j then k else invalid_id))
second_insert_lem v k row_id hv hk differ =
    let wv : v < word_mod = omega (arith, hv) in
    let wk : k < word_mod = omega (arith, hk) in
    let (n, p) =
      parting (load_key v) (load_key k) (unfold load_key in refl) (equal_keys v k wv wk ∙ differ) in
    (
      forked v k n p.first p.second,
      insert-insert_leaf v k row_id (lookup_leaf v k wv wk ∙ rw differ refl)
          ∙ insert_leaf_lem v k n p hk,
      λ j hj.
          fork_lookup v k j n p _ wv wk hj
            (λ z. fork-entry_child p.first p.second z (leaf v) (leaf k) p.differ),
    )
