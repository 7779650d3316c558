-- ===== src/Sonar/Region.antt =====
-- go-fuzz-dep/sonar.go: `Sonar` and `serialize`, which append a record of a comparison to the region
-- that is shared with the fuzzer. An operand is a value of one of Go's types; `int` and `uint` have
-- 64 bits here. Signed values are given by their bit patterns. The region's position is advanced by
-- a compare-and-swap, which a call of its own succeeds in at once.
pub mod Layout
pub mod Append
use Prim.Native.Nat.{bit_and, bit_or}
use go_fuzz.Base.{
  ℕ, suc, ◌+◌, ◌-◌, ◌*◌, ◌/◌, ◌%◌, ◌^◌, Bool, true, false, not, ◌&&◌, ◌||◌, Option, none, some,
  List, [], ◌∷◌, ◌++◌, length, take, drop, replicate, copy, Outcome, done, panic, ◌>>=◌, ltb, leb,
  ◌==◌, if◌then◌else◌, set, u8,
}
use go_fuzz.Bytes.{Bytes, serialize16, serialize32, serialize64}
use go_fuzz.Defs.{
  sonar_signed, sonar_string, sonar_const1, sonar_const2, sonar_hdr_len, sonar_max_len,
}

-- The dynamic type and value of an interface argument. `other` is any other type, with the text that its
-- value is when it is read as a string through an unsafe pointer: the value itself, for a user type whose
-- underlying type is string. An array of no bytes, or of more than 20, is compared with arrays alone.
pub data Operand : Type 0 where
  int8 uint8 int16 uint16 int32 uint32 int64 uint64 int uint : ℕ → Operand
  string : Bytes → Operand
  array : Bytes → Operand
  other : Bytes → Operand

unfoldable pub is_string : Operand → Bool
is_string (string s) = true
is_string _ = false

-- The front of the buffer becomes the text.
put_text : Bytes → Bytes → Bytes × ℕ
put_text buf text = (copy buf text, u8 (length text))

-- A failure is `none`; the flags come with the buffer and the number of bytes written.
abbrev pub Written : Type 0
Written = Option (Bytes × ℕ × ℕ)

with_flags : ℕ → Outcome (Bytes × ℕ) → Outcome Written
with_flags flags result = do (buf, n) ← result; done (some (buf, n, flags))

-- `buf[0] = byte(vv)`
serialize8 : Bytes → ℕ → Outcome (Bytes × ℕ)
serialize8 [] v = panic
serialize8 (b ∷ buf) v = done (u8 v ∷ buf, 1)

text_operand : Bytes → Bytes → Outcome Written
unfolding put_text
text_operand buf s = let (buf', n) = put_text buf s in done (some (buf', n, sonar_string))

-- Arrays of 1 to 20 bytes are written as text; a longer one, or an empty one, is not serialised.
unfoldable pub serialize : Operand → Operand → Bytes → Outcome Written
unfolding with_flags serialize8 text_operand is_string
serialize (int8 v) v2 buf = with_flags sonar_signed (serialize8 buf v)
serialize (uint8 v) v2 buf = with_flags 0 (serialize8 buf v)
serialize (int16 v) v2 buf = with_flags sonar_signed (serialize16 buf v)
serialize (uint16 v) v2 buf = with_flags 0 (serialize16 buf v)
serialize (int32 v) v2 buf = with_flags sonar_signed (serialize32 buf v)
serialize (uint32 v) v2 buf = with_flags 0 (serialize32 buf v)
serialize (int64 v) v2 buf = with_flags sonar_signed (serialize64 buf v)
serialize (uint64 v) v2 buf = with_flags 0 (serialize64 buf v)
serialize (int v) v2 buf = with_flags sonar_signed (serialize64 buf v)
serialize (uint v) v2 buf = with_flags 0 (serialize64 buf v)
serialize (string s) v2 buf = if ltb sonar_max_len (length s) then done none else text_operand buf s
serialize (array s) v2 buf =
    if leb 1 (length s) && leb (length s) sonar_max_len then text_operand buf s else done none
serialize (other s) v2 buf =
    if is_string v2 && leb (length s) sonar_max_len then text_operand buf s else done none

-- `f &^= SonarSigned` where the operand is constant.
unfoldable pub clear_signed : ℕ → ℕ → ℕ → ℕ
clear_signed id const flags =
    if bit_and id const == 0 then flags else if flags == sonar_signed then 0 else flags

-- The shared region and the position behind its last record.
pub record Region : Type 0 where
  pub bytes : Bytes
  pub pos : ℕ

-- `copy(sonarRegion[pos:pos+n], buf[:])`
unfoldable pub store_record : Region → Bytes → ℕ → Region
store_record region buf n = if ltb (length region.bytes) (region.pos + n) then region else record {
  bytes = take region.pos region.bytes ++ (take n buf ++ drop (region.pos + n) region.bytes);
  pos = region.pos + n;
}

-- The buffer of a record: the header, then both operands.
unfoldable pub build_record : Operand → Operand → ℕ → Outcome (Option (Bytes × ℕ))
unfolding serialize clear_signed
build_record v1 v2 id = do
  let buf = replicate (sonar_hdr_len + 2 * sonar_max_len) 0
  first ← serialize v1 v2 (drop sonar_hdr_len buf)
  elim first [
    | none ↦ done none
    | some (tail1, n1, f1) ↦ do
      second ← serialize v2 v1 (drop n1 tail1)
      elim second [
        | none ↦ done none
        | some (tail2, n2, f2) ↦ do
          let flags = bit_or (clear_signed id sonar_const1 f1) (clear_signed id sonar_const2 f2)
          (hdr, _) ← serialize32 (take sonar_hdr_len buf) (bit_or id flags)
          done (some (set (set hdr 4 n1) 5 n2 ++ (take n1 tail1 ++ tail2), sonar_hdr_len + n1 + n2))
      ]
  ]

-- `id` holds the flags of the comparison in its low 8 bits and the site in the others.
unfoldable pub sonar : Operand → Operand → ℕ → Region → Outcome Region
unfolding build_record store_record
sonar v1 v2 id region = do
  built ← build_record v1 v2 id
  elim built [ none ↦ done region | some (buf, n) ↦ done (store_record region buf n) ]
