-- ===== src/Examples.antt =====
-- Concrete inputs: the theorems applied to them, and tests of the definitions.
mod Data
mod Scheduling
mod Locking
mod Forbidding
mod Graphs
mod Values
mod Deadlocks
mod Names
mod Merging
mod Expanding
mod Solving
mod Inferring
mod Preparing
mod Placed
mod Placing
mod Numbering
mod Looping
mod Compressing
