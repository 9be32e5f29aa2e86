-- ===== src/Examples.antt =====
-- The theorems at concrete inputs, where their hypotheses hold.
mod Numbers
mod Indices
mod Paths
mod Logs
mod Tables
mod Databases
mod SstFiles
mod Queries
