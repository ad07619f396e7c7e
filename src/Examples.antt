-- ===== src/Examples.antt =====
-- The theorems at concrete inputs.
mod Types
mod Windows
mod Graphs
mod Conditions
mod Checks
mod Contexts
