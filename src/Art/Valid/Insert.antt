-- ===== src/Art/Valid/Insert.antt =====
-- src/storage/art.cpp: `insert` in a tree that insertion made.
use babydb_private.Prelude.{
  ℕ, zero, suc, ◌+◌, ◌≤◌, ◌<◌, ◌^◌, ◌≡◌, refl, ap, sym, ◌∙◌, true, false, some, List, length, take,
  drop, get_elem?, nat_eq, if_true, if_false, arith, Bool-cases, ◌⊎◌, inl, inr, length-drop,
}
use babydb_private.Outcome.{Outcome, ok, deref, ◌>>=◌}
use babydb_private.Art.{Header, TreePointer, null, leaf, node, Body}
use babydb_private.Art.Key.{load_key}
use babydb_private.Art.Arrays.{is_empty}
use babydb_private.Art.Search.{mismatch_within, prefix_mismatch, lookup, find_child}
use babydb_private.Art.Insert.{insert, insert_below, split_prefix}
use babydb_private.Art.Leaf.{equal_lists, equal_lists_refl, of_data_lem}
use babydb_private.Art.Parting.{no_prefix}
use babydb_private.Art.Nodes.Insert.{insert_body-Adds}
use babydb_private.Art.Nodes.Write.{write_child-Writes}
use babydb_private.Art.Valid.{IsOn, extend, IsTree}
use babydb_private.Art.Valid.Keys.{byte_at, length-load_key, length-extend}
use babydb_private.Art.Valid.Lookup.{continues, continues-IsOn, lookup_step}
use babydb_private.Art.Valid.Replace.{Inserted, null-Gains, replaced-IsTree, replaced-Changes}
use babydb_private.Art.Valid.Mismatch.{Mismatch, mismatch, prefix_mismatch-mismatch_within}
use babydb_private.Art.Valid.Part.Leaf.{insert_leaf_lem}
use babydb_private.Art.Valid.Part.Prefix.{split_prefix-Inserted}

pub empty_is_null : (c : TreePointer) → is_empty c ≡ true → c ≡ null
unfolding is_empty
empty_is_null null e = refl
empty_is_null (leaf v) e = absurd (ground (arith, e))
empty_is_null (node h b) e = absurd (ground (arith, e))

insert_null :
    (n f d k : ℕ) (path : List ℕ)
    → k < 2 ^ 63
    → IsOn path k
    → Inserted n path null k (insert (suc f) null (load_key k) d k)
unfolding insert
insert_null n f d k path small on = (
  leaf k,
  ap ok (of_data_lem k small),
  (unfold is_empty in refl),
  (small, on),
  null-Gains n path k small on,
)

module _ (n : ℕ) (path : List ℕ) (h : Header) (b : Body) (k : ℕ)
    (t : IsTree (suc n) path (node h b)) (small : k < 2 ^ 63) (on : IsOn path k) (z : ℕ)
    (hz : z < 256) (c : TreePointer) (found : find_child b z ≡ ok c)
    (k_continues : continues path h.prefix k ≡ true)
    (k_at : get_elem? (load_key k) (length path + length h.prefix) ≡ some z)
    (grown : TreePointer → Outcome TreePointer) where
  add_child : c ≡ null → Inserted (suc n) path (node h b) k (insert_below grown h b z k)
  add_child none_there =
      let on' = continues-IsOn path h.prefix k z on k_continues k_at in
      let gains = null-Gains n (extend path h.prefix z) k small on' in
      let found' = found ∙ ap ok none_there in
      let (b', run, valid, map') =
        insert_body-Adds h t.0 z hz (leaf k) (unfold is_empty in refl) b t.3 found' in
      (
        node h b',
        (unfold insert_below in rw (found', is_empty, of_data_lem k small) run),
        (unfold is_empty in refl),
        replaced-IsTree n path h b t z (leaf k) (small, on') b' valid map',
        replaced-Changes (leaf k) n path h b k t z null (leaf k) found' k_continues k_at gains b'
            map',
      )

  grow_child :
      is_empty c ≡ false
      → Inserted n (extend path h.prefix z) c k (grown c)
      → Inserted (suc n) path (node h b) k (insert_below grown h b z k)
  grow_child full below =
      let (c', made, full', tree, gains) = below in
      let (b', run, valid, map') = write_child-Writes b z c' c t.3 hz full' found full in
      (
        node h b',
        (unfold insert_below in rw (found, full, made, run) refl),
        (unfold is_empty in refl),
        replaced-IsTree n path h b t z c' tree b' valid map',
        replaced-Changes (leaf k) n path h b k t z c c' found k_continues k_at gains b' map',
      )

module _ (f : ℕ) (h : Header) (b : Body) (ks : List ℕ) (d k z next : ℕ)
    (at : get_elem? ks (d + h.prefix_length) ≡ some z)
    (level : d + h.prefix_length + 1 ≡ next) where
  below_is :
      deref (get_elem? ks (d + h.prefix_length)) >>= (λ key_byte.
        insert_below (λ c. insert f c ks (d + h.prefix_length + 1) k) h b key_byte k)
      ≡ insert_below (λ c. insert f c ks next k) h b z k
  below_is = rw (at, level) refl

  insert_no_prefix :
      nat_eq h.prefix_length 0 ≡ true
      → insert (suc f) (node h b) ks d k ≡ insert_below (λ c. insert f c ks next k) h b z k
  unfolding insert
  insert_no_prefix e = if_true _ _ _ e ∙ below_is

  insert_whole_prefix :
      nat_eq h.prefix_length 0 ≡ false
      → prefix_mismatch (suc f) h b ks d ≡ ok h.prefix_length
      → insert (suc f) (node h b) ks d k ≡ insert_below (λ c. insert f c ks next k) h b z k
  unfolding insert
  insert_whole_prefix e run =
      let self : nat_eq h.prefix_length h.prefix_length ≡ true = ground arith in
      if_false _ _ _ e ∙ rw run (if_true _ _ _ self ∙ below_is)

insert_apart :
    (f : ℕ) (h : Header) (b : Body) (ks : List ℕ) (d k pos : ℕ)
    → nat_eq h.prefix_length 0 ≡ false
    → prefix_mismatch (suc f) h b ks d ≡ ok pos
    → nat_eq pos h.prefix_length ≡ false
    → insert (suc f) (node h b) ks d k ≡ split_prefix (suc f) h b ks d k pos
unfolding insert
insert_apart f h b ks d k pos e run inside = if_false _ _ _ e ∙ rw run (if_false _ _ _ inside)

-- Either the key has the node's whole prefix, and `insert` goes on at a child, or it leaves it.
insert_turn :
    (n f : ℕ) (path : List ℕ) (h : Header) (b : Body) (k z : ℕ)
    → IsTree (suc n) path (node h b)
    → get_elem? (load_key k) (length path + length h.prefix) ≡ some z
    → ((continues path h.prefix k ≡ true)
        × (insert (suc f) (node h b) (load_key k) (length path) k
            ≡ insert_below
                (λ c. insert f c (load_key k) (length (extend path h.prefix z)) k)
                h
                b
                z
                k))
      ⊎ ((m : Mismatch
            (drop (length path) (load_key k))
            h.prefix
            (mismatch_within h.prefix_length (drop (length path) (load_key k)) h.prefix))
          × (insert (suc f) (node h b) (load_key k) (length path) k
              ≡ split_prefix (suc f) h b (load_key k) (length path) k m.pos))
insert_turn n f path h b k z t at =
    let key = drop (length path) (load_key k) in
    let ks = load_key k in
    let d = length path in
    let at' : get_elem? ks (d + h.prefix_length) ≡ some z = rw t.0.0 at at in
    let next : d + h.prefix_length + 1 ≡ length (extend path h.prefix z) =
      omega (arith, length-extend path h.prefix z, t.0.0) in
    let reach : h.prefix_length ≤ length key =
      omega (arith, length-drop d ks, length-load_key k, t.1) in
    let reduced = prefix_mismatch-mismatch_within (suc f) h b ks d t.0 in
    elim (Bool-cases (nat_eq h.prefix_length 0)) [
      | inl e ↦ inl (
        no_prefix (length h.prefix) key h.prefix (ground (arith, e, t.0.0)) refl,
        insert_no_prefix f h b ks d k z (length (extend path h.prefix z)) at' next e,
      )
      | inr e ↦ elim (mismatch h.prefix_length key h.prefix t.0.0 reach) [
        | inl (run, whole) ↦ inl (
          ap (equal_lists h.prefix) (ap (λ i. take i key) t.0.0 ∙ whole)
              ∙ equal_lists_refl h.prefix,
          insert_whole_prefix f h b ks d k z (length (extend path h.prefix z)) at' next e
              (reduced ∙ run),
        )
        | inr m ↦
            let inside : nat_eq m.pos h.prefix_length ≡ false = ground (arith, m.within, t.0.0) in
            inr (m, insert_apart f h b ks d k m.pos e (reduced ∙ m.run) inside)
      ]
    ]

-- A key that a lookup does not find is inserted: the tree stays one, gains the key and keeps the
-- others.
pub insert-Inserted :
    (n f : ℕ) (path : List ℕ) (p : TreePointer) (k : ℕ)
    → 8 ≤ n + length path
    → IsTree n path p
    → k < 2 ^ 63
    → IsOn path k
    → n < f
    → lookup f false p (load_key k) (length path) ≡ ok null
    → Inserted n path p k (insert f p (load_key k) (length path) k)
insert-Inserted n zero path p k deep t small on lt absent = absurd (omega arith)
insert-Inserted n (suc f) path null k deep t small on lt absent =
    insert_null n f (length path) k path small on
insert-Inserted n (suc f) path (leaf v) k deep t small on lt absent =
    unfold insert in insert_leaf_lem n path v k f deep t small on absent
insert-Inserted zero (suc f) path (node h b) k deep t small on lt absent = absurd t
insert-Inserted (suc n) (suc f) path (node h b) k deep t small on lt absent =
    let (z, at, hz) = byte_at k (length path + length h.prefix) (omega (arith, t.1, t.0.0)) in
    let (c, found, tree) = t.4 z hz in
    let path' = extend path h.prefix z in
    let grown = λ (c : TreePointer). insert f c (load_key k) (length path') k in
    elim (insert_turn n f path h b k z t at) [
      | inl (leads, run) ↦ rw run (elim (Bool-cases (is_empty c)) [
        | inl e ↦ add_child n path h b k t small on z hz c found leads at grown (empty_is_null c e)
        | inr e ↦
            let here =
              sym (lookup_step path h b k z c f t.0 t.1 at found ∙ if_true _ _ _ leads) ∙ absent in
            grow_child n path h b k t small on z hz c found leads at grown e (
              insert-Inserted n f path' c k (omega (arith, deep, length-extend path h.prefix z))
                tree small (continues-IsOn path h.prefix k z on leads at) (omega (arith, lt)) here)
      ])
      | inr (m, run) ↦
          rw run (split_prefix-Inserted n path h b k (omega (arith, deep)) t small on m (suc f))
    ]
