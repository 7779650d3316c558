-- ===== src/Mutator.antt =====
-- go-fuzz/mutator.go: random mutations of inputs. A mutation is a computation on the random generator
-- that can panic, as a slice expression out of range does, or run out of the model's fuel, which bounds
-- the rejected draws of one random number and the attempts of `mutate`.
pub mod Draw
pub mod Slices
pub mod Cases
pub mod Text
pub mod Corpus
pub mod Run
pub mod Search
pub mod Safety
