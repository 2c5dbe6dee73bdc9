-- ===== src/Art/Valid/Erase.antt =====
-- src/storage/art.cpp: what `erase` makes of a tree that insertion made.
pub mod Turn
pub mod Leaf
pub mod Paths
pub mod Lift
pub mod Shrink
pub mod Take
pub mod Step
pub mod Whole
use babydb_private.Prelude.{
  ℕ, zero, suc, ◌+◌, ◌^◌, ◌≤◌, ◌<◌, ◌≡◌, refl, ap, sym, ◌∙◌, subst, Bool, true, false, some, List,
  length, take, take-take, get_elem?, nat_eq, nat_eq_iff, if_true, if_false, if◌then◌else◌, arith,
  Bool-cases, ◌⊎◌, inl, inr,
}
use babydb_private.Outcome.{Outcome, ok, ◌>>=◌}
use babydb_private.Schema.{word_mod}
use babydb_private.Art.{Header, TreePointer, null, leaf, node, Body, node4, node16, node48, node256}
use babydb_private.Art.Key.{load_key}
use babydb_private.Art.Arrays.{is_empty}
use babydb_private.Art.Search.{lookup, find_child}
use babydb_private.Art.Erase.{erase, erase_below, erase_body, is_match}
use babydb_private.Art.Nodes.Erase.{IsKept, erase_body-Removes}
use babydb_private.Art.Nodes.Write.{write_child-Writes}
use babydb_private.Art.Valid.{IsOn, extend, IsTree}
use babydb_private.Art.Valid.Keys.{byte_at, length-extend}
use babydb_private.Art.Valid.Lookup.{continues, continues-IsOn, lookup_step}
use babydb_private.Art.Valid.Fork.{leaf_case, null_case}
use babydb_private.Art.Valid.Insert.{empty_is_null}
use babydb_private.Art.Valid.Replace.{Changes, replaced-Changes}
use babydb_private.Art.Valid.Erase.Turn.{leaf_matches_from, erase_turn}

abbrev pub is_own : TreePointer → ℕ → Bool
is_own null k = false
is_own (leaf v) k = nat_eq v k
is_own (node h b) k = false

-- What a removal makes of a tree: the key is gone and the others are there; only the key's own leaf
-- becomes null.
abbrev pub Erased : ℕ → List ℕ → TreePointer → ℕ → Outcome TreePointer → Type 0
Erased n path p k result =
    (p' : TreePointer) × (result ≡ ok p')
    × (is_empty p ≡ false → is_own p k ≡ false → is_empty p' ≡ false)
    × Changes null n path p k p'

-- A `Node4`, or a larger node that a removal leaves as large as it is.
abbrev pub IsLarge : Body → Type 0
IsLarge (node4 es) = Unit
IsLarge (node16 es) = IsKept (node16 es)
IsLarge (node48 n indexes cs) = IsKept (node48 n indexes cs)
IsLarge (node256 n cs) = IsKept (node256 n cs)

-- On the way to the key, the node that holds its leaf, if there is one, is such a node.
abbrev pub IsSteady : ℕ → List ℕ → TreePointer → ℕ → Type 0
IsSteady n path null k = Unit
IsSteady n path (leaf v) k = Unit
IsSteady zero path (node h b) k = Unit
IsSteady (suc n) path (node h b) k =
    (z : ℕ)
    → get_elem? (load_key k) (length path + length h.prefix) ≡ some z
    → (c : TreePointer) → find_child b z ≡ ok c
    → (is_own c k ≡ true → IsLarge b) × IsSteady n (extend path h.prefix z) c k
