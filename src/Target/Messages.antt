-- ===== src/Target/Messages.antt =====
-- The messages of go-fuzz-dep/main.go: the request that `read` comes to, and the reply of `write`.
use go_fuzz.Base.{
  ℕ, ◌*◌, ◌^◌, ◌<◌, ◌≡◌, refl, List, [], ◌∷◌, ◌++◌, length, drop, replicate, length-replicate,
  length-drop, done, Returns, Returns-bind, arith,
}
use go_fuzz.Bytes.{Bytes, deserialize64}
use go_fuzz.Bytes.Codec.{serialize64_lem, deserialize64-serialize64}
use go_fuzz.Bytes.Value.{le_bytes}
use go_fuzz.Target.{Turn, read_loop, read, serialize_all, write}
use go_fuzz.Target.Pipes.{Enough, read_loop-Returns, write_loop-Returns}

-- The words of a reply, one after the other.
abbrev pub words : List ℕ → Bytes
words [] = []
words (v ∷ vals) = le_bytes 8 v ++ words vals

pub length-words : (vals : List ℕ) → length (words vals) ≡ length vals * 8
length-words [] = refl
length-words (v ∷ vals) = omega (arith, length-words vals)

deserialize64-le_bytes : (v : ℕ) → v < 2 ^ 64 → deserialize64 (le_bytes 8 v) ≡ done v
deserialize64-le_bytes v h =
    rw (serialize64_lem (replicate 8 0) v (omega arith)) at
      (deserialize64-serialize64 (replicate 8 0) v (omega arith) h)

serialize_all_lem :
    (vals : List ℕ) (buf : Bytes)
    → length buf ≡ length vals * 8
    → serialize_all vals buf ≡ done (words vals)
unfolding serialize_all
serialize_all_lem [] [] e = refl
serialize_all_lem [] (b ∷ buf) e = absurd (omega (arith, e))
serialize_all_lem (v ∷ vals) buf e =
    rw
      (
        serialize64_lem buf v (omega (arith, e)),
        serialize_all_lem vals (drop 8 buf) (omega (arith, e, length-drop 8 buf)),
      )
      refl

-- However the system cuts up the request and whenever it interrupts the reads, the program under test
-- comes to the number of the function and the length of the input that the worker wrote, and leaves the
-- bytes behind the request in the pipe.
pub read-Returns :
    (turns : List Turn) (fnidx n : ℕ) (rest : Bytes)
    → n < 2 ^ 64
    → Enough 9 turns
    → Returns
        (λ r. (r.0 ≡ (fnidx, n)) × (r.1.0 ≡ rest))
        (read turns (fnidx ∷ (le_bytes 8 n ++ rest)))
unfolding read
read-Returns turns fnidx n rest h enough =
    Returns-bind (λ r. (r.0 ≡ fnidx ∷ le_bytes 8 n) × (r.1.0 ≡ rest)) _
      (read_loop turns 9 [] (fnidx ∷ (le_bytes 8 n ++ rest))) _
      (read_loop-Returns turns 9 9 [] (fnidx ∷ (le_bytes 8 n ++ rest)) refl (omega arith) enough)
      λ r k. rw (k.0, deserialize64-le_bytes n h) (refl, k.1)

pub write-Returns :
    (turns : List Turn) (vals : List ℕ)
    → Enough (length vals * 8) turns
    → Returns (λ r. r.0 ≡ words vals) (write turns vals)
unfolding write
write-Returns turns vals enough =
    rw
      (serialize_all_lem vals (replicate (length vals * 8) 0)
        (length-replicate (length vals * 8) 0))
      (write_loop-Returns turns (words vals) (rw (length-words vals) enough))
