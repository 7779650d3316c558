-- ===== src/Sonar/Region/Layout.antt =====
-- The bytes of a record: the id with the flags, both sizes and both operands.
use Prim.Native.Nat.{bit_or}
use mathlib.Core.List.{append_assoc}
use go_fuzz.Base.{
  ℕ, ◌+◌, ◌≤◌, ◌≡◌, refl, ap, ◌∙◌, ◌&&◌, Bool-cases, inl, inr, Option, none, some, [], ◌∷◌, ◌++◌,
  length, length-append, length-drop, drop, replicate, copy, take-length_append, drop-length_append,
  done, ltb, leb, if◌then◌else◌, arith, u8,
}
use go_fuzz.Bytes.{Bytes}
use go_fuzz.Bytes.Value.{le_bytes}
use go_fuzz.Bytes.Codec.{serialize16_lem, serialize32_lem, serialize64_lem}
use go_fuzz.Defs.{
  sonar_signed, sonar_string, sonar_const1, sonar_const2, sonar_hdr_len, sonar_max_len,
}
use go_fuzz.Sonar.Region.{
  Operand, int8, uint8, int16, uint16, int32, uint32, int64, uint64, int, uint, string, array,
  other, is_string, serialize, text_operand, clear_signed, build_record,
}

-- The bytes that stand for an operand, and its flags; `none` for what is not recorded.
abbrev pub payload : Operand → Operand → Option (Bytes × ℕ)
payload (int8 v) v2 = some (le_bytes 1 v, sonar_signed)
payload (uint8 v) v2 = some (le_bytes 1 v, 0)
payload (int16 v) v2 = some (le_bytes 2 v, sonar_signed)
payload (uint16 v) v2 = some (le_bytes 2 v, 0)
payload (int32 v) v2 = some (le_bytes 4 v, sonar_signed)
payload (uint32 v) v2 = some (le_bytes 4 v, 0)
payload (int64 v) v2 = some (le_bytes 8 v, sonar_signed)
payload (uint64 v) v2 = some (le_bytes 8 v, 0)
payload (int v) v2 = some (le_bytes 8 v, sonar_signed)
payload (uint v) v2 = some (le_bytes 8 v, 0)
payload (string s) v2 = if ltb sonar_max_len (length s) then none else some (s, sonar_string)
payload (array s) v2 =
    if leb 1 (length s) && leb (length s) sonar_max_len then some (s, sonar_string) else none
payload (other s) v2 =
    if is_string v2 && leb (length s) sonar_max_len then some (s, sonar_string) else none

abbrev written : Bytes → Option (Bytes × ℕ) → Option (Bytes × ℕ × ℕ)
written buf none = none
written buf (some (p, f)) = some (p ++ drop (length p) buf, length p, f)

copy_front : (buf s : Bytes) → length s ≤ length buf → copy buf s ≡ s ++ drop (length s) buf
copy_front [] [] h = refl
copy_front [] (x ∷ s) h = absurd (omega arith)
copy_front (b ∷ buf) [] h = refl
copy_front (b ∷ buf) (x ∷ s) h = ap (λ t. x ∷ t) (copy_front buf s (omega arith))

text_operand_lem :
    (buf s : Bytes)
    → length s ≤ sonar_max_len
    → sonar_max_len ≤ length buf
    → text_operand buf s ≡ done (written buf (some (s, sonar_string)))
unfolding text_operand
text_operand_lem buf s short room =
    let size : u8 (length s) ≡ length s = omega arith in
    rw (copy_front buf s (omega arith), size) refl

serialize_lem :
    (v v2 : Operand) (buf : Bytes)
    → sonar_max_len ≤ length buf
    → serialize v v2 buf ≡ done (written buf (payload v v2))
unfolding serialize
serialize_lem (int8 v) v2 [] h = absurd (omega arith)
serialize_lem (int8 v) v2 (b ∷ buf) h = refl
serialize_lem (uint8 v) v2 [] h = absurd (omega arith)
serialize_lem (uint8 v) v2 (b ∷ buf) h = refl
serialize_lem (int16 v) v2 buf h = rw (serialize16_lem buf v (omega arith)) refl
serialize_lem (uint16 v) v2 buf h = rw (serialize16_lem buf v (omega arith)) refl
serialize_lem (int32 v) v2 buf h = rw (serialize32_lem buf v (omega arith)) refl
serialize_lem (uint32 v) v2 buf h = rw (serialize32_lem buf v (omega arith)) refl
serialize_lem (int64 v) v2 buf h = rw (serialize64_lem buf v (omega arith)) refl
serialize_lem (uint64 v) v2 buf h = rw (serialize64_lem buf v (omega arith)) refl
serialize_lem (int v) v2 buf h = rw (serialize64_lem buf v (omega arith)) refl
serialize_lem (uint v) v2 buf h = rw (serialize64_lem buf v (omega arith)) refl
serialize_lem (string s) v2 buf h = elim (Bool-cases (ltb sonar_max_len (length s))) [
  | inl e ↦ rw e refl
  | inr e ↦ rw e (text_operand_lem buf s (ground arith) h)
]
serialize_lem (array s) v2 buf h =
    elim (Bool-cases (leb 1 (length s) && leb (length s) sonar_max_len)) [
      | inl e ↦ rw e (text_operand_lem buf s (ground arith) h)
      | inr e ↦ rw e refl
    ]
serialize_lem (other s) v2 buf h =
    elim (Bool-cases (is_string v2 && leb (length s) sonar_max_len)) [
      | inl e ↦ rw e (text_operand_lem buf s (ground arith) h)
      | inr e ↦ rw e refl
    ]

-- No operand takes more than the twenty bytes that the fuzzer allows for.
pub payload_le :
    (v v2 : Operand) (p : Bytes) (f : ℕ) → payload v v2 ≡ some (p, f) → length p ≤ sonar_max_len
payload_le (int8 v) v2 p f h = ground arith
payload_le (string s) v2 p f h = ground arith
payload_le (array s) v2 p f h = ground arith
payload_le (other s) v2 p f h = ground arith
payload_le _ v2 p f h = ground arith

-- The id of a record: the comparison's flags with those of its operands.
abbrev pub record_id : ℕ → ℕ → ℕ → ℕ
record_id id f1 f2 =
    bit_or id (bit_or (clear_signed id sonar_const1 f1) (clear_signed id sonar_const2 f2))

-- A record as it stands in the region.
abbrev pub encode : ℕ → Bytes → Bytes → Bytes
encode id p1 p2 = le_bytes 4 id ++ (length p1 ∷ length p2 ∷ (p1 ++ p2))

pub length-encode : (id : ℕ) (p1 p2 : Bytes) → length (encode id p1 p2) ≡ 6 + length p1 + length p2
length-encode id p1 p2 = omega (arith, length-append p1 p2)

module _ (v1 v2 : Operand) (id : ℕ) (p1 p2 : Bytes) (f1 f2 : ℕ)
    (first : payload v1 v2 ≡ some (p1, f1)) (second : payload v2 v1 ≡ some (p2, f2)) where
  abbrev pub zeros : Bytes
  zeros = replicate 40 0

  abbrev pub whole_buffer : Bytes
  whole_buffer = encode (record_id id f1 f2) p1 p2 ++ drop (length p2) (drop (length p1) zeros)

  room_left : sonar_max_len ≤ length (drop (length p1) zeros)
  room_left = omega (arith, length-drop (length p1) zeros, payload_le v1 v2 p1 f1 first)

  first_written : serialize v1 v2 zeros ≡ done (some (p1 ++ drop (length p1) zeros, length p1, f1))
  first_written = serialize_lem v1 v2 zeros (omega arith) ∙ ap (λ o. done (written zeros o)) first

  second_written :
      serialize v2 v1 (drop (length p1) (p1 ++ drop (length p1) zeros))
      ≡ done (some (p2 ++ drop (length p2) (drop (length p1) zeros), length p2, f2))
  second_written = rw (drop-length_append p1 (drop (length p1) zeros)) (
      serialize_lem v2 v1 (drop (length p1) zeros) room_left
      ∙ ap (λ o. done (written (drop (length p1) zeros) o)) second)

  pub build_record_lem :
      build_record v1 v2 id ≡ done (some (whole_buffer, sonar_hdr_len + length p1 + length p2))
  unfolding build_record
  build_record_lem =
      rw (first_written, second_written, take-length_append p1 (drop (length p1) zeros))
        (rw
          (
            serialize32_lem (replicate 6 0) (record_id id f1 f2) (omega arith),
            append_assoc p1 p2 (drop (length p2) (drop (length p1) zeros)),
          )
          refl)
