-- ===== src/Bytes.antt =====
-- Byte strings of the program: the little-endian writers and reader of go-fuzz-dep/sonar.go, and
-- `reverse`, `increment` and `decrement` of go-fuzz/worker.go. A byte slice is a list of numbers.
pub mod Value
pub mod Codec
pub mod Carry
pub mod Reverse
use Prim.Native.Nat.{bit_or}
use go_fuzz.Base.{
  ℕ, zero, suc, ◌+◌, ◌-◌, ◌*◌, ◌/◌, ◌%◌, ◌^◌, ◌<◌, List, [], ◌∷◌, length, set, get_or, replicate,
  Outcome, done, panic, leb, ◌==◌, if◌then◌else◌, u8, ◌<<<◌, ◌>>>◌, All,
}

abbrev pub Bytes : Type 0
Bytes = List ℕ

abbrev pub IsBytes : Bytes → Type 0
IsBytes bs = All (λ b. b < 256) bs

-- The writers store into the front of `buf` and return it with the number of bytes written; the
-- `_ = buf[k]` at their head panics on a short buffer.
unfoldable pub serialize16 : Bytes → ℕ → Outcome (Bytes × ℕ)
serialize16 buf v =
    if leb (length buf) 1 then panic else done (set (set buf 0 (u8 v)) 1 (u8 (v >>> 8)), 2)

unfoldable pub serialize32 : Bytes → ℕ → Outcome (Bytes × ℕ)
serialize32 buf v =
    if leb (length buf) 3
    then panic
    else done
        (set (set (set (set buf 0 (u8 v)) 1 (u8 (v >>> 8))) 2 (u8 (v >>> 16))) 3 (u8 (v >>> 24)), 4)

unfoldable pub serialize64 : Bytes → ℕ → Outcome (Bytes × ℕ)
serialize64 buf v =
    if leb (length buf) 7
    then panic
    else let b =
        set (set (set (set buf 0 (u8 v)) 1 (u8 (v >>> 8))) 2 (u8 (v >>> 16))) 3 (u8 (v >>> 24)) in
      done (
        set (set (set (set b 4 (u8 (v >>> 32))) 5 (u8 (v >>> 40))) 6 (u8 (v >>> 48))) 7
            (u8 (v >>> 56)),
        8,
      )

-- The value of the first bytes of `buf`, joined by `|` as the source joins them.
unfoldable pub deserialize64 : Bytes → Outcome ℕ
deserialize64 buf =
    let at = λ (i : ℕ). get_or buf i 0 in
    if leb (length buf) 7
    then panic
    else done (
        bit_or
          (bit_or
            (bit_or
              (bit_or
                (bit_or (bit_or (bit_or (at 0 <<< 0) (at 1 <<< 8)) (at 2 <<< 16)) (at 3 <<< 24))
                (at 4 <<< 32))
              (at 5 <<< 40))
            (at 6 <<< 48))
          (at 7 <<< 56))

-- `tmp[len(data)-i-1] = v`, with `rest` the bytes still to be read.
reverse_loop : Bytes → Bytes → Bytes
reverse_loop [] tmp = tmp
reverse_loop (v ∷ rest) tmp = reverse_loop rest (set tmp (length rest) v)

unfoldable pub reverse : Bytes → Bytes
unfolding reverse_loop
reverse bs = reverse_loop bs (replicate (length bs) 0)

-- The carry goes on while the byte was 0xff.
unfoldable pub increment : Bytes → Bytes
increment [] = []
increment (v ∷ rest) = u8 (v + 1) ∷ (if v == 0xff then increment rest else rest)

-- The borrow goes on while the byte was 0.
unfoldable pub decrement : Bytes → Bytes
decrement [] = []
decrement (v ∷ rest) = u8 (v + 256 - 1) ∷ (if v == 0 then decrement rest else rest)
