-- ===== src/Versifier/Runes.antt =====
-- `utf8.DecodeRune`: the first rune of a byte string and its width. An encoding that is not valid
-- gives the replacement character and the width 1, and an empty string the width 0.
use go_fuzz.Base.{
  ℕ, ◌+◌, ◌-◌, ◌*◌, ◌≤◌, ◌<◌, ◌≡◌, Bool, ◌&&◌, [], ◌∷◌, ltb, leb, if◌then◌else◌, get_or, arith,
}
use go_fuzz.Bytes.{Bytes}

abbrev pub rune_error : ℕ
rune_error = 0xfffd

abbrev within : ℕ → ℕ → ℕ → Bool
within lo hi b = leb lo b && leb b hi

-- The least and the largest second byte that may follow a first byte.
abbrev second_low : ℕ → ℕ
second_low b0 = if within 0xe0 0xe0 b0 then 0xa0 else if within 0xf0 0xf0 b0 then 0x90 else 0x80

abbrev second_high : ℕ → ℕ
second_high b0 = if within 0xed 0xed b0 then 0x9f else if within 0xf4 0xf4 b0 then 0x8f else 0xbf

-- Four bytes at most, where a missing byte is 0, which continues nothing.
decode : ℕ → ℕ → ℕ → ℕ → ℕ × ℕ
decode b0 b1 b2 b3 =
    let second = within (second_low b0) (second_high b0) b1 in
    let third = within 0x80 0xbf b2 in
    let fourth = within 0x80 0xbf b3 in
    if ltb b0 0x80
    then (b0, 1)
    else if within 0xc2 0xdf b0 && second
    then ((b0 - 0xc0) * 64 + (b1 - 0x80), 2)
    else if within 0xe0 0xef b0 && (second && third)
    then ((b0 - 0xe0) * 4096 + (b1 - 0x80) * 64 + (b2 - 0x80), 3)
    else if within 0xf0 0xf4 b0 && (second && (third && fourth))
    then ((b0 - 0xf0) * 262144 + (b1 - 0x80) * 4096 + (b2 - 0x80) * 64 + (b3 - 0x80), 4)
    else (rune_error, 1)

unfoldable pub decode_rune : Bytes → ℕ × ℕ
unfolding decode
decode_rune [] = (rune_error, 0)
decode_rune (b0 ∷ rest) = decode b0 (get_or rest 0 0) (get_or rest 1 0) (get_or rest 2 0)

pub decode_rune_ascii : (b : ℕ) (rest : Bytes) → b < 128 → decode_rune (b ∷ rest) ≡ (b, 1)
unfolding decode_rune
decode_rune_ascii b rest h = ground arith

-- A rune takes at least one byte.
pub decode_rune-width : (b : ℕ) (rest : Bytes) → 1 ≤ (decode_rune (b ∷ rest)).1
unfolding decode_rune
decode_rune-width b rest = ground arith
