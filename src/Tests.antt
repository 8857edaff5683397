-- ===== src/Tests.antt =====
-- Runs of the definitions on concrete data, one file for each group of parts.
mod Semantic
mod Samples
mod Specs
mod Comparisons
mod Reconcile
mod Namespaces
mod Logs
mod Stores
mod Whole
mod Process
