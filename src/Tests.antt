-- ===== src/Tests.antt =====
-- Runs of the modelled code on concrete inputs, and the theorems at inputs that meet their
-- hypotheses.
mod Storage
mod Transactions
mod Radix
mod Trees
mod Tables
mod Operators
mod Projections
mod Plans
mod Joins
mod Scans
mod Stores
