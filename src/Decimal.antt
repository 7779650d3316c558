-- ===== src/Decimal.antt =====
-- Decimal and hexadecimal text as the program uses it: `strconv.FormatUint`, `strconv.ParseUint`
-- and `hex.EncodeToString` of Go's standard library, over byte strings.
use native.Mathlib.Nat.{pow-suc}
use go_fuzz.Base.{
  ℕ, zero, suc, ◌+◌, ◌-◌, ◌*◌, ◌/◌, ◌%◌, ◌^◌, ◌<◌, ◌≤◌, ◌≡◌, refl, Bool, true, ◌&&◌, ◌||◌, List, [],
  ◌∷◌, length, ltb, leb, if◌then◌else◌, All, arith, Bool-cases, inl, inr,
}

is_digit : ℕ → Bool
is_digit c = leb b'0' c && leb c b'9'

-- The digits of `n` in front of `acc`; twenty rounds are enough for 64 bits.
format_loop : ℕ → ℕ → List ℕ → List ℕ
format_loop zero n acc = acc
format_loop (suc fuel) n acc =
    let more = format_loop fuel (n / 10) ((b'0' + n % 10) ∷ acc) in
    if ltb n 10 then (b'0' + n) ∷ acc else more

unfoldable pub format_uint : ℕ → List ℕ
unfolding format_loop
format_uint n = format_loop 20 n []

parse_loop : ℕ → List ℕ → ℕ
unfolding is_digit
parse_loop n [] = n
parse_loop n (c ∷ text) =
    let m = n * 10 + (c - b'0') in
    let more = parse_loop m text in
    if is_digit c then if ltb (2 ^ 64 - 1) m then 2 ^ 64 - 1 else more else 0

-- The value that `ParseUint(text, 10, 64)` returns, beside an error or not: 0 on a syntax error and
-- the largest number on an overflow.
unfoldable pub parse_uint : List ℕ → ℕ
unfolding parse_loop
parse_uint text = parse_loop 0 text

parse_loop-format_loop :
    (fuel n : ℕ) (acc : List ℕ)
    → n < 10 ^ suc fuel
    → n < 2 ^ 64
    → parse_loop 0 (format_loop (suc fuel) n acc) ≡ parse_loop n acc
unfolding parse_loop format_loop
parse_loop-format_loop zero n acc h lt = ground arith
parse_loop-format_loop (suc fuel) n acc h lt = ground (
  arith,
  parse_loop-format_loop fuel (n / 10) ((b'0' + n % 10) ∷ acc) (quotient-lt fuel n h) (omega arith),
)
  where
    quotient-lt : (fuel n : ℕ) → n < 10 ^ suc (suc fuel) → n / 10 < 10 ^ suc fuel
    quotient-lt fuel n h = omega (arith, pow-suc 10 (suc fuel))

-- A 64-bit number that is printed in decimal is parsed as itself.
pub parse_uint-format_uint : (n : ℕ) → n < 2 ^ 64 → parse_uint (format_uint n) ≡ n
unfolding parse_uint format_uint
parse_uint-format_uint n h = parse_loop-format_loop 19 n [] (omega arith) h

hex_digit : ℕ → ℕ
hex_digit d = if ltb d 10 then b'0' + d else b'a' + (d - 10)

unfoldable pub hex_encode : List ℕ → List ℕ
unfolding hex_digit
hex_encode [] = []
hex_encode (b ∷ bs) = hex_digit (b / 16) ∷ hex_digit (b % 16) ∷ hex_encode bs

pub length-hex_encode : (bs : List ℕ) → length (hex_encode bs) ≡ 2 * length bs
unfolding hex_encode
length-hex_encode [] = refl
length-hex_encode (b ∷ bs) = omega (arith, length-hex_encode bs)

-- `isHexString` of go-fuzz/persistent.go.
unfoldable pub is_hex_string : List ℕ → Bool
is_hex_string [] = true
is_hex_string (v ∷ s) = (leb b'0' v && leb v b'9' || leb b'a' v && leb v b'f') && is_hex_string s

pub is_hex_string-hex_encode :
    (bs : List ℕ) → All (λ b. b < 256) bs → is_hex_string (hex_encode bs) ≡ true
unfolding is_hex_string hex_encode
is_hex_string-hex_encode [] h = refl
is_hex_string-hex_encode (b ∷ bs) h = ground (arith, is_hex_string-hex_encode bs h.1)

format_loop_cons :
    (fuel n c : ℕ) (acc : List ℕ)
    → (d : ℕ) × (rest : List ℕ) × (format_loop fuel n (c ∷ acc) ≡ d ∷ rest)
unfolding format_loop
format_loop_cons zero n c acc = (c, acc, refl)
format_loop_cons (suc fuel) n c acc =
    let (d, rest, e) = format_loop_cons fuel (n / 10) (b'0' + n % 10) (c ∷ acc) in
    elim (Bool-cases (ltb n 10)) [ inl t ↦ (b'0' + n, c ∷ acc, rw t) | inr f ↦ (d, rest, rw f e) ]

-- The decimal text of a number is not empty.
pub format_uint_cons : (n : ℕ) → (d : ℕ) × (rest : List ℕ) × (format_uint n ≡ d ∷ rest)
unfolding format_uint
format_uint_cons n =
    let (d, rest, e) = format_loop_cons 19 (n / 10) (b'0' + n % 10) [] in
    elim (Bool-cases (ltb n 10)) [ inl t ↦ (b'0' + n, [], rw t) | inr f ↦ (d, rest, rw f e) ]

length-format_loop :
    (fuel n : ℕ) (acc : List ℕ) → length (format_loop fuel n acc) ≤ fuel + length acc
unfolding format_loop
length-format_loop zero n acc = omega arith
length-format_loop (suc fuel) n acc =
    ground (arith, length-format_loop fuel (n / 10) ((b'0' + n % 10) ∷ acc))

pub length-format_uint : (n : ℕ) → length (format_uint n) ≤ 20
unfolding format_uint
length-format_uint n = length-format_loop 20 n []
