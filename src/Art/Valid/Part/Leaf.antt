-- ===== src/Art/Valid/Part/Leaf.antt =====
-- src/storage/art.cpp: an insertion where the new key leaves the key of a leaf.
use babydb_private.Prelude.{
  ℕ, zero, suc, ◌+◌, ◌≤◌, ◌<◌, ◌^◌, ◌≡◌, refl, ap, sym, ◌∙◌, subst, true, false, ◌&&◌, some, List,
  length, take, drop, get_elem?, nat_eq, nat_eq_iff, if_true, if_false, arith, Bool-cases, inl, inr,
  length-take, length-drop, get_elem?-drop, All-take, All-drop,
}
use babydb_private.Outcome.{ok}
use babydb_private.Schema.{word_mod}
use babydb_private.Art.{null, leaf}
use babydb_private.Art.Key.{load_key}
use babydb_private.Art.Arrays.{is_empty}
use babydb_private.Art.Search.{lookup}
use babydb_private.Art.Insert.{insert_leaf}
use babydb_private.Art.Leaf.{equal_lists, equal_lists_refl}
use babydb_private.Art.Parting.{Parting, parting}
use babydb_private.Art.Valid.{IsOn, extend, IsTree}
use babydb_private.Art.Valid.Keys.{byte-lt, length-load_key, load_key-All, equal_from}
use babydb_private.Art.Valid.Lookup.{continues, continues-IsOn}
use babydb_private.Art.Valid.Fork.{Splits, leaf_case}
use babydb_private.Art.Valid.Replace.{Inserted}
use babydb_private.Art.Valid.Part.{Keeps, forked-Inserted, fork_lem}

module _ (n : ℕ) (path : List ℕ) (v k m : ℕ) (t : IsTree n path (leaf v)) (small : k < 2 ^ 63)
    (on : IsOn path k)
    (p : Parting (drop (length path) (load_key v)) (drop (length path) (load_key k)) m) where
  abbrev shared_bytes : List ℕ
  shared_bytes = take m (drop (length path) (load_key k))

  common_room : length path + m < 8
  common_room = omega (arith, p.within, length-drop (length path) (load_key v), length-load_key v)

  length-shared_bytes : length shared_bytes ≡ m
  length-shared_bytes =
      length-take m (drop (length path) (load_key k))
        (omega (arith, common_room, length-drop (length path) (load_key k), length-load_key k))

  at_old : get_elem? (load_key v) (length path + length shared_bytes) ≡ some p.first
  at_old =
      ap (λ i. get_elem? (load_key v) (length path + i)) length-shared_bytes
      ∙ sym (get_elem?-drop (length path) m (load_key v))
      ∙ p.at_first

  at_new : get_elem? (load_key k) (length path + length shared_bytes) ≡ some p.second
  at_new =
      ap (λ i. get_elem? (load_key k) (length path + i)) length-shared_bytes
      ∙ sym (get_elem?-drop (length path) m (load_key k))
      ∙ p.at_second

  old_continues : continues path shared_bytes v ≡ true
  old_continues =
      ap (λ i. equal_lists shared_bytes (take i (drop (length path) (load_key v))))
        length-shared_bytes
      ∙ rw p.agreed (equal_lists_refl shared_bytes)

  new_continues : continues path shared_bytes k ≡ true
  new_continues =
      ap (λ i. equal_lists shared_bytes (take i (drop (length path) (load_key k))))
        length-shared_bytes
      ∙ equal_lists_refl shared_bytes

  old_child : IsTree n (extend path shared_bytes p.first) (leaf v)
  old_child = (t.0, continues-IsOn path shared_bytes v p.first t.1 old_continues at_old)

  leaf-Splits : Splits n path shared_bytes p.first (leaf v) p.second k
  leaf-Splits = record {
    room = omega (arith, common_room, length-shared_bytes);
    bytes_fit =
        All-take (λ z. z < 256) m (drop (length path) (load_key k))
          (All-drop (λ z. z < 256) (length path) (load_key k) (load_key-All k));
    x_fits = byte-lt v (length path + length shared_bytes) p.first at_old;
    y_fits = byte-lt k (length path + length shared_bytes) p.second at_new;
    differ = p.differ;
    a_full = (unfold is_empty in refl);
    a_tree = old_child;
    k_fits = small;
    k_on = on;
    k_continues = new_continues;
    k_at = at_new;
  }

  leaf_leads :
      (j z : ℕ)
      → get_elem? (load_key j) (length path + length shared_bytes) ≡ some z
      → nat_eq v j ≡ true
      → continues path shared_bytes j && nat_eq p.first z ≡ true
  leaf_leads j z at e =
      let same : v ≡ j = (nat_eq_iff v j).0 e in
      let leads = subst (λ i. continues path shared_bytes i ≡ true) same old_continues in
      let here =
        sym at_old
        ∙ ap (λ i. get_elem? (load_key i) (length path + length shared_bytes)) same
        ∙ at in
      ground (arith, leads, here)

  leaf-Keeps : Keeps n path (leaf v) shared_bytes p.first (leaf v)
  leaf-Keeps fuel j z lt hj onj at =
      let hv : v < word_mod = omega (arith, t.0) in
      let old = leaf_case (suc fuel) v j path hv hj t.1 onj in
      elim (Bool-cases (continues path shared_bytes j && nat_eq p.first z)) [
        | inl e ↦
            let leads : continues path shared_bytes j ≡ true = ground (arith, e) in
            let here : p.first ≡ z = ground (arith, e) in
            let on' =
              continues-IsOn path shared_bytes j p.first onj leads (at ∙ ap some (sym here)) in
            old
            ∙ sym (
                if_true _ _ _ e
                ∙ leaf_case fuel v j (extend path shared_bytes p.first) hv hj old_child.1 on')
        | inr e ↦
            let other : nat_eq v j ≡ false = elim (Bool-cases (nat_eq v j)) [
              | inr f ↦ f
              | inl f ↦ absurd (ground (arith, leaf_leads j z at f, e))
            ] in
            old ∙ if_false _ _ _ other ∙ sym (if_false _ _ _ e)
      ]

  insert_leaf-Inserted :
      Inserted (suc n) path (leaf v) k (insert_leaf v (load_key k) (length path) k)
  insert_leaf-Inserted =
      forked-Inserted (leaf v) (insert_leaf v (load_key k) (length path) k) leaf-Splits leaf-Keeps (
        unfold insert_leaf in
        let at_old' = get_elem?-drop (length path) m (load_key v) in
        let at_new' = get_elem?-drop (length path) m (load_key k) in
        rw (p.run, sym at_old', sym at_new', p.at_first, p.at_second)
          (fork_lem m (drop (length path) (load_key k)) p.first (leaf v) p.second k
            (omega (arith, common_room))
            (omega (arith, common_room, length-drop (length path) (load_key k), length-load_key k))
            small))

pub insert_leaf_lem :
    (n : ℕ) (path : List ℕ) (v k fuel : ℕ)
    → 8 ≤ n + length path
    → IsTree n path (leaf v)
    → k < 2 ^ 63
    → IsOn path k
    → lookup (suc fuel) false (leaf v) (load_key k) (length path) ≡ ok null
    → Inserted n path (leaf v) k (insert_leaf v (load_key k) (length path) k)
insert_leaf_lem n path v k fuel deep t small on absent =
    let hv : v < word_mod = omega (arith, t.0) in
    let hk : k < word_mod = omega (arith, small) in
    let other : nat_eq v k ≡ false = ground (arith, leaf_case fuel v k path hv hk t.1 on, absent) in
    let apart = equal_from v k (length path) hv hk (t.1 ∙ sym on) ∙ other in
    let (m, p) =
      parting (drop (length path) (load_key v)) (drop (length path) (load_key k))
        (omega (
          arith,
          length-drop (length path) (load_key v),
          length-drop (length path) (load_key k),
          length-load_key v,
          length-load_key k,
        ))
        apart in
    below n path v k m deep t small on p
  where
    below :
        (n : ℕ) (path : List ℕ) (v k m : ℕ)
        → 8 ≤ n + length path
        → IsTree n path (leaf v)
        → k < 2 ^ 63
        → IsOn path k
        → Parting (drop (length path) (load_key v)) (drop (length path) (load_key k)) m
        → Inserted n path (leaf v) k (insert_leaf v (load_key k) (length path) k)
    below zero path v k m deep t small on p =
        absurd
          (omega (arith, deep, p.within, length-drop (length path) (load_key v), length-load_key v))
    below (suc n) path v k m deep t small on p = insert_leaf-Inserted n path v k m t small on p
