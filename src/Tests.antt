-- ===== src/Tests.antt =====
-- Runs of the theorems at concrete inputs.
mod Covers
mod Numbers
mod Sonars
mod Sets
mod Mutations
mod Workers
mod Hubs
mod Verses
mod Hints
mod Triages
mod Processes
