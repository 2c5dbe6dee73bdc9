-- ===== src/Art/Valid/Erase/Take.antt =====
-- src/storage/art.cpp: the key's own leaf is taken out of a node.
use babydb_private.Prelude.{
  ℕ, suc, ◌+◌, ◌<◌, ◌≡◌, refl, true, false, some, List, length, get_elem?, nat_eq, Bool-cases, inl,
  inr, arith,
}
use babydb_private.Outcome.{ok}
use babydb_private.Schema.{word_mod}
use babydb_private.Art.{Header, TreePointer, null, node, Body, node4, node16, node48, node256}
use babydb_private.Art.Key.{load_key}
use babydb_private.Art.Arrays.{is_empty, count, entry_child}
use babydb_private.Art.Search.{find_child}
use babydb_private.Art.Erase.{erase_body}
use babydb_private.Art.Nodes.Erase.{IsKept, erase_body-Removes, one_left}
use babydb_private.Art.Valid.{IsOn, extend, IsTree}
use babydb_private.Art.Valid.Lookup.{continues, continues-IsOn}
use babydb_private.Art.Valid.Replace.{replaced-Changes}
use babydb_private.Art.Valid.Erase.{is_own, Erased, IsLarge}
use babydb_private.Art.Valid.Erase.Leaf.{own_full, own-Changes}
use babydb_private.Art.Valid.Erase.Shrink.{shrink}

module _ (n : ℕ) (path : List ℕ) (h : Header) (k : ℕ) (hk : k < word_mod) (on : IsOn path k) (z : ℕ)
    (hz : z < 256) (c : TreePointer) (own : is_own c k ≡ true)
    (leads : continues path h.prefix k ≡ true)
    (at : get_elem? (load_key k) (length path + length h.prefix) ≡ some z) where
  kept-Erased :
      (b : Body)
      → IsTree (suc n) path (node h b)
      → IsKept b
      → find_child b z ≡ ok c
      → Erased (suc n) path (node h b) k (erase_body h b z)
  unfolding is_empty
  kept-Erased b t kept found =
      let on' = continues-IsOn path h.prefix k z on leads at in
      let (b', run, map') = erase_body-Removes h b z c t.3 kept hz found (own_full c k own) in
      (
        node h b',
        run,
        (λ full other. refl),
        replaced-Changes null n path h b k t z c null found leads at
            (own-Changes n k (extend path h.prefix z) c hk on' own) b' map',
      )

  pub taken-Erased :
      (b : Body)
      → IsTree (suc n) path (node h b)
      → IsLarge b
      → find_child b z ≡ ok c
      → Erased (suc n) path (node h b) k (erase_body h b z)
  unfolding find_child
  taken-Erased (node4 es) t large found = elim (Bool-cases (nat_eq (count es) 2)) [
    | inr e ↦ kept-Erased (node4 es) t e found
    | inl e ↦
        let same : entry_child es z ≡ c = ground (arith, found) in
        let there : is_empty (entry_child es z) ≡ false = rw same (own_full c k own) in
        shrink n path h es k t hk on z hz c found leads at own (one_left es z t.3.0 e there)
  ]
  taken-Erased (node16 es) t large found = kept-Erased (node16 es) t large found
  taken-Erased (node48 m indexes cs) t large found = kept-Erased (node48 m indexes cs) t large found
  taken-Erased (node256 m cs) t large found = kept-Erased (node256 m cs) t large found
