-- ===== src/Art/Valid.antt =====
-- src/storage/art.cpp: the trees that insertion makes.
pub mod Keys
pub mod Lookup
pub mod Fork
pub mod Replace
pub mod Split
pub mod Mismatch
pub mod Part
pub mod Insert
pub mod Erase
pub mod Index
use babydb_private.Prelude.{
  ℕ, zero, suc, ◌+◌, ◌^◌, ◌<◌, ◌≡◌, List, [], ◌∷◌, ◌++◌, length, take, All,
}
use babydb_private.Outcome.{ok}
use babydb_private.Art.{Header, TreePointer, null, leaf, node}
use babydb_private.Art.Key.{load_key}
use babydb_private.Art.Search.{find_child}
use babydb_private.Art.Nodes.{IsBody}
use babydb_private.Art.Nodes.Insert.{IsShort}

-- A key whose first bytes are those of the path.
abbrev pub IsOn : List ℕ → ℕ → Type 0
IsOn path k = take (length path) (load_key k) ≡ path

-- The path to the child for byte `z` below a node with the prefix `bytes`.
abbrev pub extend : List ℕ → List ℕ → ℕ → List ℕ
extend path bytes z = path ++ (bytes ++ z ∷ [])

-- A tree at the end of a path, with at most `n` nodes one below the other: a leaf's key lies on the
-- path; a node has its whole prefix in its array, leaves a byte for its children, and every child
-- is such a tree, at the path with the prefix and the child's byte.
abbrev pub IsTree : ℕ → List ℕ → TreePointer → Type 0
IsTree n path null = Unit
IsTree n path (leaf v) = (v < 2 ^ 63) × IsOn path v
IsTree zero path (node h b) = ⊥
IsTree (suc n) path (node h b) =
    IsShort h
    × (length path + h.prefix_length < 8)
    × All (λ x. x < 256) h.prefix
    × IsBody b
    × ((z : ℕ)
        → z < 256
        → (c : TreePointer) × (find_child b z ≡ ok c) × IsTree n (extend path h.prefix z) c)
