-- ===== src/Worker.antt =====
-- go-fuzz/worker.go: what a worker does with the inputs that it finds.
pub mod Minimize
pub mod Suppression
pub mod Queues
pub mod Smash
pub mod Session
pub mod Triage
