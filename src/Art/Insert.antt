-- ===== src/Art/Insert.antt =====
-- src/storage/art.cpp: insertion. Each function returns what is written through `nodeRef`.
use Prim.Native.Nat.{min}
use babydb_private.Prelude.{
  ℕ, zero, suc, ◌+◌, ◌-◌, ◌%◌, ◌^◌, List, [], ◌∷◌, ltb, nat_eq, if◌then◌else◌, get_elem?, drop,
  take, set,
}
use babydb_private.Outcome.{Outcome, ok, undefined, unfinished, deref, ◌>>=◌}
use babydb_private.Art.{
  Header, TreePointer, null, leaf, node, Body, node4, node16, node48, node256, Entries, no_entry,
  Children, no_child, child,
}
use babydb_private.Art.Key.{load_key, flip_sign}
use babydb_private.Art.Arrays.{
  count, insert_at, flip_keys, copy_children, index_entries, empties, free_from, set_child,
  child_at, is_empty, set_entry,
}
use babydb_private.Art.Search.{
  max_prefix_length, empty_marker, find_child, prefix_mismatch, minimum, as_data,
}

-- `TreePointer(data)`: the shift drops the highest bit.
unfoldable pub of_data : ℕ → TreePointer
of_data value = leaf (value % 2 ^ 63)

-- The part of a prefix that fits the array.
unfoldable pub first_bytes : ℕ → List ℕ → List ℕ
first_bytes length from = take (min length max_prefix_length) from

unfoldable pub copy_prefix : Header → Header
unfolding first_bytes
copy_prefix h = record {
  prefix_length = h.prefix_length;
  prefix = first_bytes h.prefix_length h.prefix;
}

abbrev pub u16_mod : ℕ
u16_mod = 0x10000

unfoldable pub insert_node256 : Header → ℕ → Children → ℕ → TreePointer → Outcome TreePointer
unfolding set_child
insert_node256 h n cs key_byte c =
    ok (node h (node256 ((n + 1) % u16_mod) (set_child cs key_byte c)))

-- `newNode->child[i] = node->child[node->childIndex[i]]` for each byte in use.
unfoldable pub spread : List ℕ → Children → Outcome Children
unfolding child_at
spread [] cs = ok no_child
spread (i ∷ is) cs = (if nat_eq i empty_marker then ok null else child_at cs i) >>= λ c.
    spread is cs >>= λ rest. ok (child c rest)

unfoldable pub insert_node48 :
    Header → ℕ → List ℕ → Children → ℕ → TreePointer → Outcome TreePointer
unfolding free_from set_child spread copy_prefix insert_node256
insert_node48 h n indexes cs key_byte c =
    if ltb n 48
    then (free_from cs n 0 >>= λ pos.
        ok (node h (node48 ((n + 1) % u16_mod) (set indexes key_byte pos) (set_child cs pos c))))
    else (spread indexes cs >>= λ wide. insert_node256 (copy_prefix h) n wide key_byte c)

unfoldable pub insert_node16 : Header → Entries → ℕ → TreePointer → Outcome TreePointer
unfolding count insert_at flip_sign copy_prefix index_entries empties copy_children insert_node48
insert_node16 h es key_byte c =
    if ltb (count es) 16
    then ok (node h (node16 (insert_at flip_sign es key_byte (flip_sign key_byte) c)))
    else insert_node48 (copy_prefix h) (count es) (index_entries es 0 (empties 256 empty_marker))
        (copy_children es 48) key_byte c

unfoldable pub insert_node4 : Header → Entries → ℕ → TreePointer → Outcome TreePointer
unfolding count insert_at flip_keys copy_prefix insert_node16
insert_node4 h es key_byte c =
    if ltb (count es) 4
    then ok (node h (node4 (insert_at (λ k. k) es key_byte key_byte c)))
    else insert_node16 (copy_prefix h) (flip_keys es) key_byte c

unfoldable pub insert_body : Header → Body → ℕ → TreePointer → Outcome TreePointer
unfolding insert_node4 insert_node16 insert_node48 insert_node256
insert_body h (node4 es) key_byte c = insert_node4 h es key_byte c
insert_body h (node16 es) key_byte c = insert_node16 h es key_byte c
insert_body h (node48 n indexes cs) key_byte c = insert_node48 h n indexes cs key_byte c
insert_body h (node256 n cs) key_byte c = insert_node256 h n cs key_byte c

-- A write through the reference that `findChild` returned for a child that is there.
unfoldable pub write_child : Body → ℕ → TreePointer → Outcome Body
unfolding set_entry flip_sign set_child
write_child (node4 es) key_byte c = ok (node4 (set_entry es key_byte c))
write_child (node16 es) key_byte c = ok (node16 (set_entry es (flip_sign key_byte) c))
write_child (node48 n indexes cs) key_byte c = do
  i ← deref (get_elem? indexes key_byte)
  ok (node48 n indexes (set_child cs i c))
write_child (node256 n cs) key_byte c = ok (node256 n (set_child cs key_byte c))

-- `while (existingKey[depth + n] == key[depth + n]) n++;` on what stands from `depth` on. Equal
-- keys make it run off their end.
unfoldable pub common_length : List ℕ → List ℕ → Outcome ℕ
common_length (x ∷ xs) (y ∷ ys) =
    let rest = common_length xs ys in if nat_eq x y then (rest >>= λ n. ok (suc n)) else ok 0
common_length _ _ = undefined

-- A new `Node4` with the two children, in the order of the two calls of `insertNode4`.
unfoldable pub fork : Header → ℕ → TreePointer → ℕ → TreePointer → Outcome TreePointer
unfolding insert_at
fork h first_byte first second_byte second = ok (
    node h (
      node4 (
        insert_at (λ k. k) (insert_at (λ k. k) no_entry first_byte first_byte first) second_byte
          second_byte second)))

unfoldable pub insert_leaf : ℕ → List ℕ → ℕ → ℕ → Outcome TreePointer
unfolding load_key common_length first_bytes fork of_data
insert_leaf old key depth value =
    let existing = load_key old in
    common_length (drop depth existing) (drop depth key) >>= λ n.
    deref (get_elem? existing (depth + n)) >>= λ old_byte.
    deref (get_elem? key (depth + n)) >>= λ new_byte.
    fork (record { prefix_length = n; prefix = first_bytes n (drop depth key) }) old_byte (leaf old)
      new_byte (of_data value)

-- A key that leaves the node's prefix at `pos` splits the node.
unfoldable pub split_prefix : ℕ → Header → Body → List ℕ → ℕ → ℕ → ℕ → Outcome TreePointer
unfolding first_bytes fork of_data minimum as_data load_key
split_prefix fuel h b key depth value pos =
    let above : Header = record { prefix_length = pos; prefix = first_bytes pos h.prefix } in
    let left = h.prefix_length - (pos + 1) in
    deref (get_elem? key (depth + pos)) >>= λ new_byte.
    if ltb h.prefix_length max_prefix_length
    then (deref (get_elem? h.prefix pos) >>= λ old_byte.
        fork above old_byte
          (node
            (record { prefix_length = left; prefix = first_bytes left (drop (pos + 1) h.prefix) })
            b)
          new_byte (of_data value))
    else (minimum fuel (node h b) >>= λ least. as_data least >>= λ min_value.
        deref (get_elem? (load_key min_value) (depth + pos)) >>= λ old_byte.
        fork above old_byte
          (node
            (record {
              prefix_length = left;
              prefix = first_bytes left (drop (depth + pos + 1) (load_key min_value));
            })
            b)
          new_byte (of_data value))

-- The child is replaced by `grown` of it where there is one, and added where there is none.
unfoldable pub insert_below :
    (TreePointer → Outcome TreePointer) → Header → Body → ℕ → ℕ → Outcome TreePointer
unfolding find_child is_empty write_child insert_body of_data
insert_below grown h b key_byte value = find_child b key_byte >>= λ c.
    if is_empty c
    then insert_body h b key_byte (of_data value)
    else (grown c >>= λ c'. write_child b key_byte c' >>= λ b'. ok (node h b'))

unfoldable pub insert : ℕ → TreePointer → List ℕ → ℕ → ℕ → Outcome TreePointer
unfolding of_data insert_leaf prefix_mismatch split_prefix insert_below
insert zero p key depth value = unfinished
insert (suc fuel) null key depth value = ok (of_data value)
insert (suc fuel) (leaf old) key depth value = insert_leaf old key depth value
insert (suc fuel) (node h b) key depth value =
    let at = depth + h.prefix_length in
    let below = deref (get_elem? key at) >>= λ key_byte.
    insert_below (λ c. insert fuel c key (at + 1) value) h b key_byte value in
    if nat_eq h.prefix_length 0
    then below
    else (prefix_mismatch (suc fuel) h b key depth >>= λ pos.
        if nat_eq pos h.prefix_length
        then below
        else split_prefix (suc fuel) h b key depth value pos)
