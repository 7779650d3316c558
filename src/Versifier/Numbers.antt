-- ===== src/Versifier/Numbers.antt =====
-- `extractNumbers`: hexadecimal terms, exponents, signs and decimal points become parts of number
-- nodes, in passes over the slice until a pass changes nothing.
pub mod Terms
pub mod Extracts
use go_fuzz.Base.{
  ℕ, zero, suc, ◌+◌, ◌-◌, ◌*◌, Bool, true, false, not, ◌&&◌, ◌||◌, Option, none, some, List, [],
  ◌∷◌, ◌++◌, length, take, drop, get_or, Outcome, done, no_fuel, ◌>>=◌, ltb, leb, ◌==◌,
  if◌then◌else◌,
}
use go_fuzz.Bytes.{Bytes}
use go_fuzz.Versifier.{Node, Dict, alpha_num, num, control, make_dict, single_term}
use go_fuzz.Versifier.Passes.{Round, unchanged, rewritten, skip_one, pass}

all_of : (ℕ → Bool) → Bytes → Bool
all_of p [] = true
all_of p (c ∷ s) = p c && all_of p s

is_empty : Bytes → Bool
is_empty [] = true
is_empty (c ∷ s) = false

unfoldable pub is_hex_num : Bytes → Bool
unfolding all_of is_empty
is_hex_num s =
    not (is_empty s)
    && all_of
        (λ c. leb b'0' c && leb c b'9' || leb b'a' c && leb c b'f' || leb b'A' c && leb c b'F') s

unfoldable pub is_dec_num : Bytes → Bool
unfolding all_of is_empty
is_dec_num s = not (is_empty s) && all_of (λ c. leb b'0' c && leb c b'9') s

-- `strings.IndexByte`
unfoldable pub index_byte : Bytes → ℕ → Option ℕ
index_byte [] c = none
index_byte (b ∷ s) c =
    if b == c then some 0 else elim (index_byte s c) [ none ↦ none | some i ↦ some (i + 1) ]

-- A term with an exponent, `1e5`, or one that ends in `e` before a number.
unfoldable pub exponent : List Node → Dict → Bytes → ℕ → List Node → Outcome Round
exponent before d v e (num d1 hex ∷ rest) =
    if is_dec_num (take e v) && is_dec_num (drop (e + 1) v)
    then done (rewritten (num d false ∷ before) (num d1 hex ∷ rest))
    else if e == length v - 1
    then (single_term d1 >>= λ s. done (rewritten (num (make_dict (v ++ s)) false ∷ before) rest))
    else done unchanged
exponent before d v e rest =
    if is_dec_num (take e v) && is_dec_num (drop (e + 1) v)
    then done (rewritten (num d false ∷ before) rest)
    else done unchanged

unfoldable pub number_term : List Node → Dict → List Node → Outcome Round
unfolding exponent
number_term before d rest = single_term d >>= λ v.
    if leb 3 (length v)
    then if get_or v 0 0 == b'0' && get_or v 1 0 == b'x' && is_hex_num (drop 2 v)
      then done (rewritten (num d true ∷ before) rest)
      else elim (index_byte v b'e') [ none ↦ done unchanged | some e ↦ exponent before d v e rest ]
    else done unchanged

-- A sign is taken unless a term stands before it that does not end in `e`.
unfoldable pub may_negate : List Node → Outcome Bool
may_negate (alpha_num d ∷ before) =
    single_term d >>= λ p. done (ltb 1 (length p) && get_or p (length p - 1) 0 == b'e')
may_negate before = done true

unfoldable pub minus_sign : List Node → List Node → Outcome Round
unfolding may_negate
minus_sign before (num d hex ∷ rest) = may_negate before >>= λ ok.
    if ok
    then (single_term d >>= λ s. done (rewritten (num (make_dict (b'-' ∷ s)) hex ∷ before) rest))
    else done unchanged
minus_sign before rest = done unchanged

unfoldable pub decimal_point : List Node → List Node → Outcome Round
decimal_point (num d1 hex1 ∷ before) (num d2 hex2 ∷ rest) = single_term d1 >>= λ s1.
    single_term d2 >>= λ s2. done (skip_one (num (make_dict (s1 ++ b'.' ∷ s2)) false ∷ before) rest)
decimal_point before rest = done unchanged

unfoldable pub number_round : List Node → Node → List Node → Outcome Round
unfolding number_term minus_sign decimal_point
number_round before (alpha_num d) rest = number_term before d rest
number_round before (control ch) rest =
    if ch == b'-'
    then minus_sign before rest
    else if ch == b'.'
    then decimal_point before rest
    else done unchanged
number_round before n rest = done unchanged

-- `for changed := true; changed;`
unfoldable pub extract_loop : ℕ → List Node → Outcome (List Node)
unfolding number_round
extract_loop zero nn = no_fuel
extract_loop (suc fuel) nn = pass number_round (length nn) [] nn false >>= λ r. elim r.1 [
  | true ↦ extract_loop fuel r.0
  | false ↦ done r.0
]

unfoldable pub extract_numbers : List Node → Outcome (List Node)
unfolding extract_loop
extract_numbers nn = extract_loop (2 * length nn + 1) nn
