-- ===== src/Art.antt =====
-- src/storage/art.cpp: the adaptive radix tree. The nodes and pointers.
pub mod Key
pub mod Arrays
pub mod Search
pub mod Insert
pub mod Erase
pub mod Destroy
pub mod Tree
pub mod Leaf
pub mod Parting
pub mod Nodes
pub mod Valid
pub mod Fork
use babydb_private.Prelude.{ℕ, List}

-- The common part of a node. `prefix` holds the bytes of the array that were written.
pub record Header : Type 0 where
  pub prefix_length : ℕ
  pub prefix : List ℕ

-- A pointer is null, tagged data, or the address of a node; every node has one pointer to it, so
-- the node stands in the pointer's place. The first `count` entries of the arrays of a `Node4` or
-- `Node16` are a list. A `Node48` has its count, its 256 indexes and its 48 children, a `Node256`
-- its count and its 256 children.
mutual
  pub data TreePointer : Type 0 where
    null : TreePointer
    leaf : ℕ → TreePointer
    node : Header → Body → TreePointer

  pub data Body : Type 0 where
    node4 node16 : Entries → Body
    node48 : ℕ → List ℕ → Children → Body
    node256 : ℕ → Children → Body

  pub data Entries : Type 0 where
    no_entry : Entries
    entry : ℕ → TreePointer → Entries → Entries

  pub data Children : Type 0 where
    no_child : Children
    child : TreePointer → Children → Children
