-- ===== src/Testee/Output.antt =====
-- The goroutine of go-fuzz/testee.go that collects the output of a process in a buffer of a fixed size.
pub mod Kept
use go_fuzz.Base.{ℕ, ◌+◌, ◌-◌, List, [], ◌∷◌, ◌++◌, length, take, drop, min, ltb, if◌then◌else◌}
use go_fuzz.Bytes.{Bytes}

abbrev pub testee_buffer_size : ℕ
testee_buffer_size = 1048576

-- `testeeBufferSize/4*3` and `testeeBufferSize/2`
abbrev pub three_quarters : ℕ
three_quarters = 786432

abbrev pub half : ℕ
half = 524288

-- The older half of the buffer is overwritten where it is more than three quarters full.
unfoldable pub drop_half : Bytes → Bytes
drop_half kept = if ltb three_quarters (length kept) then drop half kept else kept

-- The reads, of at most so many bytes each, with the filled part of the buffer and the output that is
-- not read yet.
unfoldable pub collect : List ℕ → Bytes → Bytes → Bytes × Bytes
unfolding drop_half
collect [] kept stream = (kept, stream)
collect (k ∷ turns) kept stream =
    let n = min k (testee_buffer_size - length kept) in
    collect turns (drop_half (kept ++ take n stream)) (drop n stream)
