-- ===== src/Tests.antt =====
-- Concrete programs for lib/, and the results that the theorems give on them.
mod Machines
mod Mba
mod Analyses
mod Merging
mod Stepping
mod Duplicating
mod Splitting
mod Instrumenting
mod Propagating
mod Inlining
mod Folding
mod Sccp
mod Vectorising
