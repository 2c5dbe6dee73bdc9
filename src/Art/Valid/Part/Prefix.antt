-- ===== src/Art/Valid/Part/Prefix.antt =====
-- src/storage/art.cpp: an insertion where the new key leaves the prefix of a node.
use Prim.Native.Nat.{min}
use babydb_private.Prelude.{
  ℕ, suc, ◌+◌, ◌-◌, ◌≤◌, ◌<◌, ◌^◌, ◌≡◌, refl, ap, sym, ◌∙◌, true, ltb, some, List, length, take,
  drop, get_elem?, arith, take_all, length-drop, get_elem?-drop, All-take, All-get_elem?,
}
use babydb_private.Outcome.{Outcome}
use babydb_private.Art.{Header, node, Body}
use babydb_private.Art.Key.{load_key}
use babydb_private.Art.Arrays.{is_empty}
use babydb_private.Art.Search.{max_prefix_length}
use babydb_private.Art.Insert.{split_prefix, first_bytes}
use babydb_private.Art.Leaf.{equal_lists, equal_lists_refl}
use babydb_private.Art.Valid.{IsOn, extend, IsTree}
use babydb_private.Art.Valid.Keys.{byte-lt, length-extend}
use babydb_private.Art.Valid.Lookup.{continues, IsTree-bound}
use babydb_private.Art.Valid.Fork.{Splits}
use babydb_private.Art.Valid.Replace.{Inserted}
use babydb_private.Art.Valid.Split.{above, cut, cut-IsTree, lookup-cut, length-above}
use babydb_private.Art.Valid.Mismatch.{Mismatch}
use babydb_private.Art.Valid.Part.{Keeps, forked-Inserted, fork_lem}

module _ (n : ℕ) (path : List ℕ) (h : Header) (b : Body) (k : ℕ) {result : Outcome ℕ}
    (deep : 8 ≤ n + suc (length path)) (t : IsTree (suc n) path (node h b)) (small : k < 2 ^ 63)
    (on : IsOn path k) (m : Mismatch (drop (length path) (load_key k)) h.prefix result) where
  length-kept : length (above h m.pos) ≡ m.pos
  length-kept = length-above n path h b t m.pos m.old_byte m.at_old

  new_at : get_elem? (load_key k) (length path + m.pos) ≡ some m.new_byte
  new_at = sym (get_elem?-drop (length path) m.pos (load_key k)) ∙ m.at_new

  kept_continues : continues path (above h m.pos) k ≡ true
  kept_continues =
      ap (λ i. equal_lists (above h m.pos) (take i (drop (length path) (load_key k)))) length-kept
      ∙ rw m.agreed (equal_lists_refl (above h m.pos))

  split-Splits : Splits n path (above h m.pos) m.old_byte (node (cut h m.pos) b) m.new_byte k
  split-Splits = record {
    room = omega (arith, length-kept, m.within, t.0.0, t.1);
    bytes_fit = All-take (λ z. z < 256) m.pos h.prefix t.2;
    x_fits = All-get_elem? (λ z. z < 256) h.prefix m.pos m.old_byte t.2 m.at_old;
    y_fits = byte-lt k (length path + m.pos) m.new_byte new_at;
    differ = m.differ;
    a_full = (unfold is_empty in refl);
    a_tree =
        IsTree-bound (suc n) n (extend path (above h m.pos) m.old_byte) (node (cut h m.pos) b)
          (omega (arith, deep, length-extend path (above h m.pos) m.old_byte))
          (cut-IsTree n path h b t m.pos m.old_byte m.at_old);
    k_fits = small;
    k_on = on;
    k_continues = kept_continues;
    k_at = ap (λ i. get_elem? (load_key k) (length path + i)) length-kept ∙ new_at;
  }

  split-Keeps : Keeps n path (node h b) (above h m.pos) m.old_byte (node (cut h m.pos) b)
  split-Keeps fuel j z lt hj onj at =
      lookup-cut n path h b t m.pos m.old_byte m.at_old fuel j z lt deep hj onj
        (ap (λ i. get_elem? (load_key j) (length path + i)) (sym length-kept) ∙ at)

  cut_lem :
      (left : ℕ)
      → left ≡ h.prefix_length - (m.pos + 1)
      → record { prefix_length = left; prefix = first_bytes left (drop (m.pos + 1) h.prefix) }
        ≡ cut h m.pos
  unfolding first_bytes
  cut_lem left e =
      let next : m.pos + 1 ≡ suc m.pos = omega arith in
      let count : left ≡ length (drop (suc m.pos) h.prefix) =
        omega (arith, e, length-drop (suc m.pos) h.prefix, t.0.0) in
      let whole : min left 9 ≡ left = ground (arith, e, t.0.1) in
      let kept = take_all left (drop (suc m.pos) h.prefix) (omega (arith, count)) in
      rw (next, whole, kept, count) refl

  pub split_prefix-Inserted :
      (fuel : ℕ)
      → Inserted
          (suc n)
          path
          (node h b)
          k
          (split_prefix fuel h b (load_key k) (length path) k m.pos)
  split_prefix-Inserted fuel =
      forked-Inserted (node h b) (split_prefix fuel h b (load_key k) (length path) k m.pos)
        split-Splits split-Keeps
        (unfold split_prefix in
          let short : ltb h.prefix_length max_prefix_length ≡ true = ground (arith, t.0.1) in
          rw (new_at, short, m.at_old, cut_lem (h.prefix_length - (m.pos + 1)) refl)
            (fork_lem m.pos h.prefix m.old_byte (node (cut h m.pos) b) m.new_byte k
              (omega (arith, m.within, t.0.0, t.0.1)) (omega (arith, m.within)) small))
