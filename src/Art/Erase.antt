-- ===== src/Art/Erase.antt =====
-- src/storage/art.cpp: removal. Each function returns what is written through `nodeRef`, or the node
-- as it then is where nothing is written.
use Prim.Native.Nat.{min}
use babydb_private.Prelude.{
  ℕ, zero, suc, ◌+◌, ◌-◌, ◌%◌, List, [], ◌∷◌, ◌++◌, Bool, false, ltb, nat_eq, if◌then◌else◌,
  get_elem?, set, take,
}
use babydb_private.Outcome.{Outcome, ok, undefined, unfinished, deref, ◌>>=◌}
use babydb_private.Art.{
  Header, TreePointer, null, leaf, node, Body, node4, node16, node48, node256, Entries, no_entry,
  entry, Children, no_child, child,
}
use babydb_private.Art.Key.{flip_sign}
use babydb_private.Art.Arrays.{count, remove_entry, flip_keys, child_at, set_child, is_empty, nulls}
use babydb_private.Art.Search.{
  max_prefix_length, empty_marker, find_child, prefix_mismatch, leaf_matches,
}
use babydb_private.Art.Insert.{first_bytes, write_child, u16_mod}

-- The header that the constructor of a node makes.
abbrev pub fresh_header : Header
fresh_header = record { prefix_length = 0; prefix = [] }

-- The only child takes over the node's prefix and its own byte.
unfoldable pub join_prefix : Header → ℕ → Header → Header
unfolding first_bytes
join_prefix h key_byte below =
    let l1 = h.prefix_length in
    record {
      prefix_length = below.prefix_length + (h.prefix_length + 1);
      prefix =
          if ltb l1 max_prefix_length
          then (let own = take l1 h.prefix ++ key_byte ∷ [] in
              if ltb (l1 + 1) max_prefix_length
              then own ++ take (min below.prefix_length (max_prefix_length - (l1 + 1))) below.prefix
              else own)
          else first_bytes l1 h.prefix;
    }

unfoldable pub replace_only : Header → Entries → Outcome TreePointer
unfolding join_prefix
replace_only h (entry key_byte (node below b) no_entry) = ok (node (join_prefix h key_byte below) b)
replace_only h (entry key_byte (leaf value) no_entry) = ok (leaf value)
replace_only h (entry key_byte null no_entry) = undefined
replace_only h es = ok (node h (node4 es))

unfoldable pub erase_node4 : Header → Entries → ℕ → Outcome TreePointer
unfolding remove_entry replace_only
erase_node4 h es key_byte = replace_only h (remove_entry es key_byte)

-- The new node keeps the bytes of the prefix, and not its length.
unfoldable pub erase_node16 : Header → Entries → ℕ → Outcome TreePointer
unfolding remove_entry count flip_keys first_bytes flip_sign
erase_node16 h es key_byte =
    let rest = remove_entry es (flip_sign key_byte) in
    if nat_eq (count rest) 3
    then ok (
        node (record { prefix_length = 0; prefix = first_bytes h.prefix_length h.prefix })
          (node4 (flip_keys rest)))
    else ok (node h (node16 rest))

-- The children in the order of their bytes, from byte `b` on.
unfoldable pub gather : List ℕ → ℕ → Children → Outcome Entries
unfolding child_at flip_sign
gather [] b cs = ok no_entry
gather (i ∷ is) b cs = do
  rest ← gather is (suc b) cs
  if nat_eq i empty_marker
      then ok rest
      else (child_at cs i >>= λ c. ok (entry (flip_sign b) c rest))

-- `count--`
unfoldable pub one_less : ℕ → ℕ
one_less n = (n + (u16_mod - 1)) % u16_mod

unfoldable pub erase_node48 : Header → ℕ → List ℕ → Children → ℕ → Outcome TreePointer
unfolding set_child gather one_less
erase_node48 h n indexes cs key_byte = do
  i ← deref (get_elem? indexes key_byte)
  let cs' = set_child cs i null
  let indexes' = set indexes key_byte empty_marker
  if nat_eq (one_less n) 12
      then (gather indexes' 0 cs' >>= λ es. ok (node fresh_header (node16 es)))
      else ok (node h (node48 (one_less n) indexes' cs'))

unfoldable pub compact_indexes : Children → ℕ → List ℕ
unfolding is_empty
compact_indexes no_child next = []
compact_indexes (child c cs) next =
    if is_empty c
    then empty_marker ∷ compact_indexes cs next
    else next ∷ compact_indexes cs (next + 1)

-- The children that are there, then nulls up to `size`.
unfoldable pub compact_children : Children → ℕ → Children
unfolding is_empty nulls
compact_children no_child size = nulls size
compact_children (child c cs) size =
    if is_empty c then compact_children cs size else child c (compact_children cs (size - 1))

unfoldable pub erase_node256 : Header → ℕ → Children → ℕ → Outcome TreePointer
unfolding set_child compact_indexes compact_children one_less
erase_node256 h n cs key_byte =
    let cs' = set_child cs key_byte null in
    if nat_eq (one_less n) 37
    then ok
        (node fresh_header (node48 (one_less n) (compact_indexes cs' 0) (compact_children cs' 48)))
    else ok (node h (node256 (one_less n) cs'))

unfoldable pub erase_body : Header → Body → ℕ → Outcome TreePointer
unfolding erase_node4 erase_node16 erase_node48 erase_node256
erase_body h (node4 es) key_byte = erase_node4 h es key_byte
erase_body h (node16 es) key_byte = erase_node16 h es key_byte
erase_body h (node48 n indexes cs) key_byte = erase_node48 h n indexes cs key_byte
erase_body h (node256 n cs) key_byte = erase_node256 h n cs key_byte

-- `child.IsLeaf() && leafMatches(...)`
unfoldable pub is_match : TreePointer → List ℕ → ℕ → Outcome Bool
unfolding leaf_matches
is_match null key depth = ok false
is_match (leaf value) key depth = leaf_matches value key depth
is_match (node h b) key depth = ok false

-- A null child is handed to `erase` too, which returns at once.
unfoldable pub erase_below :
    (TreePointer → Outcome TreePointer) → Header → Body → List ℕ → ℕ → ℕ → Outcome TreePointer
unfolding find_child is_match erase_body is_empty write_child
erase_below shrunk h b key depth key_byte = do
  c ← find_child b key_byte
  matches ← is_match c key depth
  if matches
      then erase_body h b key_byte
      else (if is_empty c
          then ok (node h b)
          else (shrunk c >>= λ c'. write_child b key_byte c' >>= λ b'. ok (node h b')))

unfoldable pub erase : ℕ → TreePointer → List ℕ → ℕ → Outcome TreePointer
unfolding leaf_matches prefix_mismatch erase_below
erase zero p key depth = unfinished
erase (suc fuel) null key depth = ok null
erase (suc fuel) (leaf value) key depth = do
  same ← leaf_matches value key depth
  ok (if same then null else leaf value)
erase (suc fuel) (node h b) key depth =
    let at = depth + h.prefix_length in
    let below = deref (get_elem? key at) >>= λ key_byte.
    erase_below (λ c. erase fuel c key (at + 1)) h b key at key_byte in
    if nat_eq h.prefix_length 0
    then below
    else (prefix_mismatch (suc fuel) h b key depth >>= λ pos.
        if nat_eq pos h.prefix_length then below else ok (node h b))
