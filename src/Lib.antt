-- ===== src/Lib.antt =====
-- BabyDB, a small in-memory database: the storage layer, the transaction manager, the facade over
-- them, and the operators of query plans.
--
-- The parts, and where they stand (paths from the repository's root):
-- - Prelude, Outcome, Assoc: shared names and lemmas on lists; how a C++ call ends (value, exception,
--   undefined behaviour, fuel used up); the maps of the standard library as association lists.
-- - Schema: src/include/common/typedefs.hpp. Tuples, column names, their resolution to positions.
-- - Filter: src/include/execution/expression/filter.hpp.
-- - StlmapIndex: src/storage/stlmap_index.cpp. The index over std::map; its iterators are positions
--   in a sorted list, and moving one past the end is undefined.
-- - Art: src/storage/art.cpp. The nodes of the radix tree; Art.Key and Art.Arrays have the bytes of a
--   key and the arrays of a node, Art.Search findChild, minimum, maximum, prefixMismatch and lookup,
--   Art.Insert and Art.Erase the two families of updates, which return what the source writes through
--   nodeRef, Art.Destroy counts the nodes that destroy deletes, with its proofs below it, Art.Tree is the
--   class ArtIndex. Art.Leaf, Art.Parting and Art.Fork have the proofs on trees of one and two keys.
--   Art.Nodes takes one node as a map from bytes to children, through the growth of its arrays: Bytes,
--   Ordered, Slots and Wide for the arrays, Growth, Insert, Write and Erase for the updates.
--   Art.Valid says which trees insertion makes: each node has its prefix whole, and each leaf's key lies
--   on the path of bytes to it. Keys, Lookup, Mismatch, Fork, Split, Part and Replace have the cases,
--   Insert the induction, and Index any sequence of calls of InsertEntry against a set of keys. Erase
--   has removal: Turn at the prefix, Leaf and Take at the key's leaf, Paths, Lift and Shrink where the
--   only child that is left takes the place of a Node4, Step and Whole for the induction.
-- - Table, Index, Catalog: src/include/storage, src/storage/catalog.cpp. Objects by name.
-- - Table.Guards: src/storage/table.cpp. The latch of a table and its guards, which any threads get,
--   drop and leave in any order; Exclusion, Latch and Free have the proofs.
-- - Transaction: src/concurrency/transaction_manager.cpp and the transaction object.
-- - Database: src/babydb.cpp. The users' calls in sequence. A call that changes the catalog needs
--   db_lock_ exclusively, so it waits while a transaction shares it. The latches of the manager make
--   each of its methods one step. Run, Locks, Ends and Drops have the proofs.
-- - VersionLink: src/concurrency/version_link.cpp. Here threads interleave at each atomic operation.
-- - Exec: src/execution. Exec.Plan has trees of operators, Exec.SchemaCheck their CheckSchema, with
--   Schema.Order for the order of names; Exec.Operator has chunks and the loop that fills one,
--   Exec.Drain the calls of Next until an operator is exhausted, Exec.Once the operators that prepare on
--   the first call. Value, Filter, Projection, Aggregate, Join, Scan and Modify model the operators,
--   over a child that is any function Next. Drained, Sums and Groups have the proofs on aggregation,
--   BuildSide, ProbeSide, ProbeLoop and Joined those on the join, RangeScan, SeqScan, Stored and
--   Projected those on their operators, Pipeline puts a projection over a filter over given tuples, and
--   Widths follows the number of columns of the rows up to a join of a filter with a projection. InsertRow,
--   whose body is left to be written, is a parameter of Next of the insert and of the update operator.
-- - Tests: runs on concrete inputs, and instances of the theorems.
--
-- Numbers are natural numbers; where the source's 64-bit counters could wrap the model wraps, and
-- theorems bound the number of calls by 2 ^ 62.
--
-- A loop over the chunks of a child has as fuel the number of calls that it may make, and the theorems
-- ask for as many as the child has chunks. The descent in the radix tree has fuel 10: a key has eight
-- bytes, and every node on the way takes one. The order in which a hash table is iterated over is a
-- parameter of the operators that do so.
--
-- Not modelled: which memory is freed, how the virtual methods of
-- a tree of operators are bound (they are parameters of Init and Check), the build files, the tests, and
-- the vendored googletest. std::map, std::unordered_map, std::vector and the locks are modelled by what the
-- source uses of them.
pub mod Prelude
pub mod Outcome
pub mod Assoc
pub mod Schema
pub mod Filter
pub mod StlmapIndex
pub mod Art
pub mod Table
pub mod Index
pub mod Catalog
pub mod Transaction
pub mod Database
pub mod VersionLink
pub mod Exec
mod Tests
