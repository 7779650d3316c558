-- ===== src/Target.antt =====
-- go-fuzz-dep/main.go: the side of the program under test of the pipes to the worker. A call of the
-- operating system on a pipe is interrupted, moves some bytes, or fails; which of these is given by a
-- list of turns. A program that exits, or that crashes in a function under test, panics.
pub mod Pipes
pub mod Messages
pub mod Serves
use go_fuzz.Base.{
  ℕ, zero, suc, ◌+◌, ◌-◌, ◌*◌, Bool, Option, none, some, List, [], ◌∷◌, ◌++◌, length, take, drop,
  replicate, get_or, get_elem?, min, Outcome, done, panic, no_fuel, ◌>>=◌, ltb, ◌==◌, if◌then◌else◌,
  ◌%◌, ◌^◌,
}
use go_fuzz.Bytes.{Bytes, serialize64, deserialize64}
use go_fuzz.Cover.{Table}
use go_fuzz.Defs.{cover_size}
use go_fuzz.Mutator.Text.{ℤ, pos, negsuc}

-- `fd.read` and `fd.write`: EINTR, at most so many bytes, or another error.
pub data Turn : Type 0 where
  interrupted : Turn
  moves : ℕ → Turn
  fails : Turn

-- `read`, with the bytes of `buf` so far: those that it comes to, and what is left of the stream and of
-- the turns. Without a further turn the call blocks.
unfoldable pub read_loop : List Turn → ℕ → Bytes → Bytes → Outcome (Bytes × (Bytes × List Turn))
read_loop [] size buf stream = if length buf == size then done (buf, (stream, [])) else no_fuel
read_loop (t ∷ turns) size buf stream =
    if length buf == size then done (buf, (stream, t ∷ turns)) else elim t [
      | interrupted ↦ read_loop turns size buf stream
      | fails ↦ panic
      | moves k ↦
          let n = min k (min (size - length buf) (length stream)) in
          if n == 0 then panic else read_loop turns size (buf ++ take n stream) (drop n stream)
    ]

-- The number of the function, and the length of the input.
unfoldable pub read : List Turn → Bytes → Outcome ((ℕ × ℕ) × (Bytes × List Turn))
unfolding read_loop
read turns stream = do
  (buf, left) ← read_loop turns 9 [] stream
  n ← deserialize64 (drop 1 buf)
  done ((get_or buf 0 0, n), left)

-- The loop of `write` over what is left of `buf`: the bytes in the pipe, and the turns that are left.
unfoldable pub write_loop : List Turn → Bytes → Outcome (Bytes × List Turn)
write_loop [] [] = done ([], [])
write_loop [] (b ∷ buf) = no_fuel
write_loop (t ∷ turns) [] = done ([], t ∷ turns)
write_loop (interrupted ∷ turns) (b ∷ buf) = write_loop turns (b ∷ buf)
write_loop (fails ∷ turns) (b ∷ buf) = panic
write_loop (moves n ∷ turns) (b ∷ buf) = do
  (written, left) ← write_loop turns (drop n (b ∷ buf))
  done (take n (b ∷ buf) ++ written, left)

-- The values one after the other, in `buf`.
unfoldable pub serialize_all : List ℕ → Bytes → Outcome Bytes
serialize_all [] buf = done buf
serialize_all (v ∷ vals) buf = do
  (buf', n) ← serialize64 buf v
  rest ← serialize_all vals (drop 8 buf')
  done (take 8 buf' ++ rest)

unfoldable pub write : List Turn → List ℕ → Outcome (Bytes × List Turn)
unfolding write_loop serialize_all
write turns vals = serialize_all vals (replicate (length vals * 8) 0) >>= write_loop turns

-- `uint64(res)` of an `int`
unfoldable pub to_uint64 : ℤ → ℕ
to_uint64 (pos n) = n % 2 ^ 64
to_uint64 (negsuc n) = 2 ^ 64 - 1 - n % 2 ^ 64

-- What a function under test leaves behind if it returns: its result, the time that it took, the cover
-- table, the comparison region and the place up to which that is filled.
pub record Ran (S : Type 0) : Type 0 where
  pub res : ℤ
  pub ns : ℕ
  pub cover : Table
  pub sonar : Bytes
  pub sonar_pos : ℕ
  pub state : S

-- The shared mapping, and the state of the program. `CoverTab` and `sonarPos` are reset for each run.
pub record Program (S : Type 0) : Type 0 where
  pub input : Bytes
  pub cover : Table
  pub sonar : Bytes
  pub sonar_pos : ℕ
  pub state : S

-- A function under test, from the cleared table on; `none` where it crashes.
abbrev pub Fn : Type 0 → Type 0
Fn S = Bytes → Table → S → Option (Ran S)

module _ {S : Type 0} where
  abbrev pub after_run : Program S → Ran S → Program S
  after_run p r = record p {
    cover = r.cover;
    sonar = r.sonar;
    sonar_pos = r.sonar_pos;
    state = r.state;
  }

  unfoldable pub call_fn : List (Fn S) → ℕ → ℕ → Program S → Outcome (Ran S)
  call_fn fns fnidx n p = if ltb (length p.input) n then panic else elim (get_elem? fns fnidx) [
    | none ↦ panic
    | some f ↦ elim (f (take n p.input) (replicate cover_size 0) p.state) [
      | none ↦ panic
      | some r ↦ done r
    ]
  ]

  -- One round of `Main`: the program after it, the reply, and what is left of the stream.
  unfoldable pub serve :
      List (Fn S)
      → List Turn
      → List Turn
      → Bytes
      → Program S
      → Outcome (Program S × (Bytes × Bytes))
  unfolding read call_fn write
  serve fns reads writes stream p = do
    ((fnidx, n), (stream', reads')) ← read reads stream
    r ← call_fn fns fnidx n p
    (reply, writes') ← write writes (to_uint64 r.res ∷ r.ns ∷ r.sonar_pos ∷ [])
    done (after_run p r, (reply, stream'))
