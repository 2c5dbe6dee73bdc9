-- ===== src/Exec.antt =====
-- src/execution: the operators of a query plan, each of which hands out its rows in chunks.
pub mod Operator
pub mod SchemaCheck
pub mod Plan
pub mod Drain
pub mod Value
pub mod Filter
pub mod Projection
pub mod Aggregate
pub mod Join
pub mod Drained
pub mod Stored
pub mod Sums
pub mod Scan
pub mod Modify
pub mod BuildSide
pub mod ProbeSide
pub mod ProbeLoop
pub mod Joined
pub mod Once
pub mod Groups
pub mod RangeScan
pub mod SeqScan
pub mod Projected
pub mod Pipeline
pub mod Widths
