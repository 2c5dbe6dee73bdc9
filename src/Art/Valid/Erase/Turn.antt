-- ===== src/Art/Valid/Erase/Turn.antt =====
-- src/storage/art.cpp: where `erase` goes at a leaf and at a node.
use babydb_private.Prelude.{
  ℕ, zero, suc, ◌+◌, ◌-◌, ◌≤◌, ◌<◌, ◌≡◌, refl, ap, sym, ◌∙◌, true, false, some, List, [], ◌∷◌,
  length, take, drop, get_elem?, nat_eq, nat_eq_iff, if_true, if_false, if◌then◌else◌, arith,
  Bool-cases, inl, inr, length-drop,
}
use babydb_private.Outcome.{ok}
use babydb_private.Schema.{word_mod}
use babydb_private.Art.{Header, node, Body}
use babydb_private.Art.Key.{load_key}
use babydb_private.Art.Search.{mismatch_within, prefix_mismatch, leaf_matches}
use babydb_private.Art.Erase.{erase, erase_below}
use babydb_private.Art.Leaf.{equal_lists, equal_lists_refl, agree-equal_lists}
use babydb_private.Art.Nodes.Insert.{IsShort}
use babydb_private.Art.Valid.Keys.{length-load_key, equal_from, whole_equal}
use babydb_private.Art.Valid.Lookup.{continues}
use babydb_private.Art.Valid.Mismatch.{mismatch, prefix_mismatch-mismatch_within}

-- Where two keys agree up to a depth, comparing the rest tells whether they are the same.
pub leaf_matches_from :
    (v k d : ℕ)
    → v < word_mod
    → k < word_mod
    → take d (load_key v) ≡ take d (load_key k)
    → leaf_matches v (load_key k) d ≡ ok (nat_eq v k)
unfolding leaf_matches
leaf_matches_from v k d hv hk same =
    let run =
      agree-equal_lists (8 - d) (drop d (load_key v)) (drop d (load_key k))
        (length-drop d (load_key v) ∙ ap (λ n. n - d) (length-load_key v))
        (length-drop d (load_key k) ∙ ap (λ n. n - d) (length-load_key k)) in
    let rest = equal_from v k d hv hk same in
    elim (Bool-cases (nat_eq d 8)) [
      | inl e ↦
          let whole : nat_eq v k ≡ true =
            sym rest
            ∙ ap (λ n. equal_lists (drop n (load_key v)) (drop n (load_key k)))
                ((nat_eq_iff d 8).0 e)
            ∙ whole_equal v k in
          if_true _ _ _ e ∙ ap ok (sym whole)
      | inr e ↦ if_false _ _ _ e ∙ (run ∙ ap ok rest)
    ]

mismatch_within-equal_lists :
    (n : ℕ) (key prefix : List ℕ)
    → length prefix ≡ n
    → equal_lists prefix (take n key) ≡ true
    → mismatch_within n key prefix ≡ ok n
unfolding mismatch_within equal_lists
mismatch_within-equal_lists zero key [] l h = refl
mismatch_within-equal_lists zero key (p ∷ prefix) l h = absurd (omega (arith, l))
mismatch_within-equal_lists (suc n) key [] l h = absurd (omega (arith, l))
mismatch_within-equal_lists (suc n) [] (p ∷ prefix) l h = absurd (ground (arith, h))
mismatch_within-equal_lists (suc n) (k ∷ key) (p ∷ prefix) l h =
    ground (arith, h, l, mismatch_within-equal_lists n key prefix)

module _ (fuel : ℕ) (h : Header) (b : Body) (ks : List ℕ) (d z : ℕ)
    (at : get_elem? ks (d + h.prefix_length) ≡ some z) where
  goes_on :
      prefix_mismatch (suc fuel) h b ks d ≡ ok h.prefix_length
      → erase (suc fuel) (node h b) ks d
        ≡ erase_below
            (λ c. erase fuel c ks (d + h.prefix_length + 1))
            h
            b
            ks
            (d + h.prefix_length)
            z
  unfolding erase
  goes_on run =
      let self : nat_eq h.prefix_length h.prefix_length ≡ true = ground arith in
      elim (Bool-cases (nat_eq h.prefix_length 0)) [
        | inl e ↦ if_true _ _ _ e ∙ rw at refl
        | inr e ↦ if_false _ _ _ e ∙ rw run (if_true _ _ _ self ∙ rw at refl)
      ]

  turns_back :
      (pos : ℕ)
      → prefix_mismatch (suc fuel) h b ks d ≡ ok pos
      → pos < h.prefix_length
      → erase (suc fuel) (node h b) ks d ≡ ok (node h b)
  unfolding erase
  turns_back pos run inside =
      let some_prefix : nat_eq h.prefix_length 0 ≡ false = ground (arith, inside) in
      let part : nat_eq pos h.prefix_length ≡ false = ground (arith, inside) in
      if_false _ _ _ some_prefix ∙ rw run (if_false _ _ _ part)

-- At a node whose prefix is whole, `erase` goes on at the child for the key's byte if the key has
-- the prefix, and otherwise leaves the node as it is.
pub erase_turn :
    (fuel : ℕ) (path : List ℕ) (h : Header) (b : Body) (k z : ℕ)
    → IsShort h
    → length path + h.prefix_length < 8
    → get_elem? (load_key k) (length path + h.prefix_length) ≡ some z
    → erase (suc fuel) (node h b) (load_key k) (length path) ≡ (
        if continues path h.prefix k
        then erase_below
            (λ c. erase fuel c (load_key k) (length path + h.prefix_length + 1))
            h
            b
            (load_key k)
            (length path + h.prefix_length)
            z
        else ok (node h b))
erase_turn fuel path h b k z short room at =
    let key = drop (length path) (load_key k) in
    let reduced = prefix_mismatch-mismatch_within (suc fuel) h b (load_key k) (length path) short in
    let reach : h.prefix_length ≤ length key =
      omega (arith, length-drop (length path) (load_key k), length-load_key k, room) in
    elim (Bool-cases (continues path h.prefix k)) [
      | inl e ↦
          let leads : equal_lists h.prefix (take h.prefix_length key) ≡ true = rw (sym short.0) e in
          let run =
            reduced ∙ mismatch_within-equal_lists h.prefix_length key h.prefix short.0 leads in
          goes_on fuel h b (load_key k) (length path) z at run ∙ sym (if_true _ _ _ e)
      | inr e ↦ elim (mismatch h.prefix_length key h.prefix short.0 reach) [
        | inl (_, whole) ↦
            let leads : continues path h.prefix k ≡ true =
              ap (equal_lists h.prefix) (ap (λ i. take i key) short.0 ∙ whole)
              ∙ equal_lists_refl h.prefix in
            absurd (ground (arith, leads, e))
        | inr m ↦
            turns_back fuel h b (load_key k) (length path) z at m.pos (reduced ∙ m.run)
              (omega (arith, m.within, short.0))
            ∙ sym (if_false _ _ _ e)
      ]
    ]
