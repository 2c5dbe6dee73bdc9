-- ===== src/Art/Nodes.antt =====
-- src/storage/art.cpp: what the code keeps true of the four kinds of nodes while keys are added.
pub mod Bytes
pub mod Ordered
pub mod Slots
pub mod Wide
pub mod Growth
pub mod Insert
pub mod Write
pub mod Erase
use babydb_private.Prelude.{
  ℕ, zero, suc, ◌≤◌, ◌<◌, ◌≡◌, Bool, false, List, some, length, get_elem?, nat_eq,
}
use babydb_private.Outcome.{ok}
use babydb_private.Art.{
  TreePointer, null, Body, node4, node16, node48, node256, Entries, no_entry, entry, Children,
  no_child, child,
}
use babydb_private.Art.Key.{flip_sign}
use babydb_private.Art.Arrays.{is_empty, count, child_at}
use babydb_private.Art.Search.{empty_marker}

-- `view` says which byte a stored key stands for. The entries are in the order of their bytes.
abbrev pub IsAbove : (ℕ → ℕ) → ℕ → Entries → Type 0
IsAbove view b no_entry = Unit
IsAbove view b (entry k c es) = (b < view k) × IsAbove view b es

abbrev pub IsOrdered : (ℕ → ℕ) → Entries → Type 0
IsOrdered view no_entry = Unit
IsOrdered view (entry k c es) =
    (k < 256) × (is_empty c ≡ false) × IsAbove view (view k) es × IsOrdered view es

abbrev pub size : Children → ℕ
size no_child = 0
size (child c cs) = suc (size cs)

-- The first `n` children are there and the others are null; an index in use is below `n`, and no
-- two bytes share it.
pub record IsIndexed (n : ℕ) (indexes : List ℕ) (cs : Children) : Type 0 where
  pub bytes_covered : length indexes ≡ 256
  pub places : size cs ≡ 48
  pub n_fits : n ≤ 48
  pub index_below : (b i : ℕ) → get_elem? indexes b ≡ some i → nat_eq i empty_marker ≡ false → i < n
  pub apart :
      (a b i : ℕ)
      → get_elem? indexes a ≡ some i
      → get_elem? indexes b ≡ some i
      → nat_eq i empty_marker ≡ false
      → a ≡ b
  pub filled : (i : ℕ) → i < n → (c : TreePointer) × (child_at cs i ≡ ok c) × (is_empty c ≡ false)
  pub free : (i : ℕ) → n ≤ i → i < 48 → child_at cs i ≡ ok null

abbrev pub IsBody : Body → Type 0
IsBody (node4 es) = IsOrdered (λ k. k) es × (count es ≤ 4)
IsBody (node16 es) = IsOrdered flip_sign es × (count es ≤ 16)
IsBody (node48 n indexes cs) = IsIndexed n indexes cs
IsBody (node256 n cs) = size cs ≡ 256
