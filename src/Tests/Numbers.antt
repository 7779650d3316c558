-- ===== src/Tests/Numbers.antt =====
-- The theorems on the random generator and on little-endian numbers.
use go_fuzz.Base.{◌<◌, ◌≡◌, Returns, arith}
use go_fuzz.Pcg.{Rand, uint32n, intn}
use go_fuzz.Pcg.Uniform.{threshold-eq}
use go_fuzz.Pcg.Draws.{first_accepted, uint32n-first_accepted, intn-Returns}

abbrev seed : Rand
seed = record { state = 42; inc = 1442695040888963407 }

uint32n-first_accepted_example : uint32n 4 10 seed ≡ first_accepted 5 10 seed
uint32n-first_accepted_example = uint32n-first_accepted 4 10 seed (omega arith) (omega arith)

-- A power of two accepts every draw.
intn-Returns_example : Returns (λ a. a.0 < 16) (intn 0 16 seed)
intn-Returns_example =
    intn-Returns 0 0 16 seed (omega arith) (omega arith) (omega arith)
      (rw (threshold-eq 16 (omega arith) (omega arith)) (omega arith))
