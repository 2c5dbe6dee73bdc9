-- ===== src/Art/Destroy.antt =====
-- src/storage/art.cpp: `destroy`. What it returns here is the number of nodes that it deletes.
pub mod Counts
pub mod Ordered
pub mod Slots
pub mod Whole
use babydb_private.Prelude.{ℕ, zero, suc, ◌+◌, List, [], ◌∷◌, nat_eq, if◌then◌else◌}
use babydb_private.Outcome.{Outcome, ok, unfinished, ◌>>=◌}
use babydb_private.Art.{
  TreePointer, null, leaf, node, Body, node4, node16, node48, node256, Entries, no_entry, entry,
  Children, no_child, child,
}
use babydb_private.Art.Arrays.{child_at, is_empty}
use babydb_private.Art.Search.{empty_marker}

-- The loops over the children, with the recursive call.
module _ (below : TreePointer → Outcome ℕ) where
  unfoldable pub destroy_entries : Entries → Outcome ℕ
  destroy_entries no_entry = ok 0
  destroy_entries (entry key_byte c es) = do n ← below c; rest ← destroy_entries es; ok (n + rest)

  unfoldable pub destroy_indexed : List ℕ → Children → Outcome ℕ
  unfolding child_at
  destroy_indexed [] cs = ok 0
  destroy_indexed (i ∷ is) cs = do
    n ← if nat_eq i empty_marker then ok 0 else (child_at cs i >>= below)
    rest ← destroy_indexed is cs
    ok (n + rest)

  unfoldable pub destroy_children : Children → Outcome ℕ
  unfolding is_empty
  destroy_children no_child = ok 0
  destroy_children (child c cs) = do
    n ← if is_empty c then ok 0 else below c
    rest ← destroy_children cs
    ok (n + rest)

  unfoldable pub destroy_body : Body → Outcome ℕ
  unfolding destroy_entries destroy_indexed destroy_children
  destroy_body (node4 es) = destroy_entries es
  destroy_body (node16 es) = destroy_entries es
  destroy_body (node48 n indexes cs) = destroy_indexed indexes cs
  destroy_body (node256 n cs) = destroy_children cs

unfoldable pub destroy : ℕ → TreePointer → Outcome ℕ
unfolding destroy_body
destroy zero p = unfinished
destroy (suc fuel) null = ok 0
destroy (suc fuel) (leaf value) = ok 0
destroy (suc fuel) (node h b) = destroy_body (destroy fuel) b >>= λ n. ok (suc n)
