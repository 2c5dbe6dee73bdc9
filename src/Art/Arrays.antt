-- ===== src/Art/Arrays.antt =====
-- src/storage/art.cpp: reads and writes of the arrays of a node.
use babydb_private.Prelude.{
  ℕ, zero, suc, List, [], ◌∷◌, Bool, true, false, ltb, nat_eq, if◌then◌else◌, set,
}
use babydb_private.Outcome.{Outcome, ok, undefined}
use babydb_private.Art.{
  TreePointer, null, leaf, node, Entries, no_entry, entry, Children, no_child, child,
}
use babydb_private.Art.Key.{flip_sign}

unfoldable pub is_empty : TreePointer → Bool
is_empty null = true
is_empty (leaf value) = false
is_empty (node h b) = false

-- `count`
unfoldable pub count : Entries → ℕ
count no_entry = 0
count (entry k c es) = suc (count es)

-- The child of the first entry with that key.
unfoldable pub entry_child : Entries → ℕ → TreePointer
entry_child no_entry key_byte = null
entry_child (entry k c es) key_byte = if nat_eq k key_byte then c else entry_child es key_byte

-- A write through the reference to that child.
unfoldable pub set_entry : Entries → ℕ → TreePointer → Entries
set_entry no_entry key_byte c = no_entry
set_entry (entry k c' es) key_byte c =
    if nat_eq k key_byte then entry k c es else entry k c' (set_entry es key_byte c)

-- The two moves and writes at the first key that is not below; `view` says how a stored key is
-- compared.
unfoldable pub insert_at : (ℕ → ℕ) → Entries → ℕ → ℕ → TreePointer → Entries
insert_at view no_entry key_byte stored c = entry stored c no_entry
insert_at view (entry k c' es) key_byte stored c =
    if ltb (view k) key_byte
    then entry k c' (insert_at view es key_byte stored c)
    else entry stored c (entry k c' es)

-- The two moves that close the gap at the first entry with that key.
unfoldable pub remove_entry : Entries → ℕ → Entries
remove_entry no_entry key_byte = no_entry
remove_entry (entry k c es) key_byte =
    if nat_eq k key_byte then es else entry k c (remove_entry es key_byte)

unfoldable pub flip_keys : Entries → Entries
unfolding flip_sign
flip_keys no_entry = no_entry
flip_keys (entry k c es) = entry (flip_sign k) c (flip_keys es)

unfoldable pub last_child : Entries → Outcome TreePointer
last_child no_entry = undefined
last_child (entry k c no_entry) = ok c
last_child (entry k c (entry k' c' es)) = last_child (entry k' c' es)

unfoldable pub first_child : Entries → Outcome TreePointer
first_child no_entry = undefined
first_child (entry k c es) = ok c

unfoldable pub child_at : Children → ℕ → Outcome TreePointer
child_at no_child i = undefined
child_at (child c cs) zero = ok c
child_at (child c cs) (suc i) = child_at cs i

unfoldable pub set_child : Children → ℕ → TreePointer → Children
set_child no_child i c = no_child
set_child (child c' cs) zero c = child c cs
set_child (child c' cs) (suc i) c = child c' (set_child cs i c)

unfoldable pub nulls : ℕ → Children
nulls zero = no_child
nulls (suc n) = child null (nulls n)

unfoldable pub empties : ℕ → ℕ → List ℕ
empties zero mark = []
empties (suc n) mark = mark ∷ empties n mark

-- `memcpy` of the entries' children to the front of an array of `size` null children.
unfoldable pub copy_children : Entries → ℕ → Children
unfolding nulls
copy_children no_entry size = nulls size
copy_children (entry k c es) zero = no_child
copy_children (entry k c es) (suc size) = child c (copy_children es size)

-- `childIndex[flipSign(key[i])] = i` for each entry in turn.
unfoldable pub index_entries : Entries → ℕ → List ℕ → List ℕ
unfolding flip_sign
index_entries no_entry i indexes = indexes
index_entries (entry k c es) i indexes = index_entries es (suc i) (set indexes (flip_sign k) i)

-- The first position from `pos` on that holds no child; past the array the read is undefined.
unfoldable pub free_from : Children → ℕ → ℕ → Outcome ℕ
unfolding is_empty
free_from no_child from pos = undefined
free_from (child c cs) (suc from) pos = free_from cs from (suc pos)
free_from (child c cs) zero pos =
    let rest = free_from cs zero (suc pos) in if is_empty c then ok pos else rest
