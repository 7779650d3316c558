-- ===== src/Sonar.antt =====
-- Sonar: the comparisons that the instrumented program records, from go-fuzz-dep/sonar.go, and how
-- the fuzzer reads them back, from go-fuzz/sonar.go.
pub mod Region
pub mod Sample
pub mod Site
pub mod Hints
