-- ===== src/Versifier/Numbers/Extracts.antt =====
-- `extractNumbers` ends, does not panic, and keeps the text of the nodes.
use mathlib.Core.List.{append_assoc}
use go_fuzz.Base.{
  ℕ, zero, suc, ◌+◌, ◌*◌, ◌<◌, ◌≡◌, refl, Bool, true, false, List, [], ◌∷◌, ◌++◌, length, done,
  ◌>>=◌, Returns, Returns-bind, ◌==◌, Bool-cases, inl, inr, ==_iff, arith, All,
}
use native.Mathlib.Nat.{le_refl}
use go_fuzz.Bytes.{Bytes}
use go_fuzz.Versifier.{
  Node, Dict, alpha_num, num, control, make_dict, single_term, text, node_text, rejoin, term,
}
use go_fuzz.Versifier.Passes.{rewritten, skip_one, pass}
use go_fuzz.Versifier.Passes.Keeps.{Kept, Lighter, pass-After}
use go_fuzz.Versifier.Sound.{Sound, Holds, weight, weight-le, rewrite-Holds, All-rejoin_rest}
use go_fuzz.Versifier.Numbers.{
  may_negate, minus_sign, decimal_point, number_round, extract_loop, extract_numbers,
}
use go_fuzz.Versifier.Numbers.Terms.{
  Good, merge, single_term-term, num-HasTerm, alpha-HasTerm, number_term-Good,
}

minus_text :
    (ch : ℕ) (d : Dict) (hex : Bool)
    → ch ≡ b'-'
    → b'-' ∷ term d ≡ node_text (control ch) ++ node_text (num d hex)
unfolding node_text
minus_text ch d hex e = rw e refl

abbrev HeadSound : List Node → Type 0
HeadSound [] = Unit
HeadSound (n ∷ before) = Sound n

All-rejoin_head : (before rest : List Node) → All Sound (rejoin before rest) → HeadSound before
All-rejoin_head [] rest h = tt
All-rejoin_head (n ∷ before) rest h = (All-rejoin_rest before (n ∷ rest) h).0

unsigned : (before : List Node) → HeadSound before → Returns (λ b. Unit) (may_negate before)
unfolding may_negate
unsigned [] h = tt
unsigned (alpha_num d ∷ before) h = rw (single_term-term d (alpha-HasTerm d h)) tt
unsigned (n ∷ before) h = tt

module _ (t : Bytes) (before : List Node) where
  may_negate-Returns :
      (rest : List Node) → Holds t (rejoin before rest) → Returns (λ b. Unit) (may_negate before)
  may_negate-Returns rest h = unsigned before (All-rejoin_head before rest h.sound)

  minus_sign-Good :
      (ch : ℕ) (rest : List Node)
      → ch ≡ b'-'
      → Holds t (rejoin before (control ch ∷ rest))
      → Returns (Good t before (control ch) rest) (minus_sign before rest)
  unfolding minus_sign
  minus_sign-Good ch [] e h = tt
  minus_sign-Good ch (num d hex ∷ rest) e h =
      Returns-bind (λ b. Unit) (Good t before (control ch) (num d hex ∷ rest)) (may_negate before) _
        (may_negate-Returns (control ch ∷ num d hex ∷ rest) h)
        λ b u. elim (Bool-cases b) [ inl e' ↦ rw e' negated | inr e' ↦ rw e' tt ]
    where
      sounds : All Sound (control ch ∷ num d hex ∷ rest)
      sounds = All-rejoin_rest before (control ch ∷ num d hex ∷ rest) h.sound

      negated :
          Returns
            (Good t before (control ch) (num d hex ∷ rest))
            (single_term d >>= λ s. done (rewritten (num (make_dict (b'-' ∷ s)) hex ∷ before) rest))
      negated = rw (single_term-term d (num-HasTerm d hex sounds.1.0)) (
          merge t before (control ch) (num d hex) (b'-' ∷ term d) hex rest h
            (minus_text ch d hex e))
  minus_sign-Good ch (n ∷ rest) e h = tt

-- A number, a point and a number become one number.
point-Good :
    (t : Bytes) (before : List Node) (d1 : Dict) (hex1 : Bool) (ch : ℕ) (d2 : Dict) (hex2 : Bool)
    (rest : List Node)
    → ch ≡ b'.'
    → Holds t (rejoin before (num d1 hex1 ∷ control ch ∷ num d2 hex2 ∷ rest))
    → Good t
        (num d1 hex1 ∷ before)
        (control ch)
        (num d2 hex2 ∷ rest)
        (skip_one (num (make_dict (term d1 ++ b'.' ∷ term d2)) false ∷ before) rest)
unfolding skip_one make_dict text node_text Sound
point-Good t before d1 hex1 ch d2 hex2 rest e h = skipped rest joined
  where
    joined :
        Holds t (rejoin before (num ((term d1 ++ b'.' ∷ term d2) ∷ []) false ∷ rest))
        × (weight (rejoin before (num ((term d1 ++ b'.' ∷ term d2) ∷ []) false ∷ rest))
            < weight (rejoin before (num d1 hex1 ∷ control ch ∷ num d2 hex2 ∷ rest)))
    joined =
        rewrite-Holds t before (num d1 hex1 ∷ control ch ∷ num d2 hex2 ∷ rest)
          (num ((term d1 ++ b'.' ∷ term d2) ∷ []) false ∷ rest) h
          (rw e (append_assoc (term d1) (b'.' ∷ term d2) (text rest))) (λ k. (tt, k.1.1.1))
          (omega arith)

    skipped :
        (r : List Node)
        → Holds t (rejoin before (num ((term d1 ++ b'.' ∷ term d2) ∷ []) false ∷ r))
          × (weight (rejoin before (num ((term d1 ++ b'.' ∷ term d2) ∷ []) false ∷ r))
              < weight (rejoin before (num d1 hex1 ∷ control ch ∷ num d2 hex2 ∷ r)))
        → Good t
            (num d1 hex1 ∷ before)
            (control ch)
            (num d2 hex2 ∷ r)
            (skip_one (num ((term d1 ++ b'.' ∷ term d2) ∷ []) false ∷ before) r)
    skipped [] k = (omega arith, k.0, k.1)
    skipped (m ∷ r) k = (omega arith, k.0, k.1)

decimal_point-Good :
    (t : Bytes) (before : List Node) (ch : ℕ) (rest : List Node)
    → ch ≡ b'.'
    → Holds t (rejoin before (control ch ∷ rest))
    → Returns (Good t before (control ch) rest) (decimal_point before rest)
unfolding decimal_point
decimal_point-Good t [] ch rest e h = tt
decimal_point-Good t (num d1 hex1 ∷ before) ch [] e h = tt
decimal_point-Good t (num d1 hex1 ∷ before) ch (num d2 hex2 ∷ rest) e h =
    let sounds = All-rejoin_rest before (num d1 hex1 ∷ control ch ∷ num d2 hex2 ∷ rest) h.sound in
    rw
      (
        single_term-term d1 (num-HasTerm d1 hex1 sounds.0),
        single_term-term d2 (num-HasTerm d2 hex2 sounds.1.1.0),
      )
      (point-Good t before d1 hex1 ch d2 hex2 rest e h)
decimal_point-Good t (num d1 hex1 ∷ before) ch (n ∷ rest) e h = tt
decimal_point-Good t (n ∷ before) ch rest e h = tt

number_round-Good :
    (t : Bytes) (before : List Node) (n : Node) (rest : List Node)
    → Holds t (rejoin before (n ∷ rest))
    → Returns (Kept (Holds t) weight before n rest) (number_round before n rest)
unfolding number_round
number_round-Good t before (alpha_num d) rest h = number_term-Good t before d rest h
number_round-Good t before (control ch) rest h = elim (Bool-cases (ch == b'-')) [
  | inl m ↦ rw m (minus_sign-Good t before ch rest ((==_iff ch b'-').0 m) h)
  | inr m ↦ elim (Bool-cases (ch == b'.')) [
    | inl p ↦ rw (m, p) (decimal_point-Good t before ch rest ((==_iff ch b'.').0 p) h)
    | inr p ↦ rw (m, p) tt
  ]
]
number_round-Good t before n rest h = tt

extract_loop-Holds :
    (t : Bytes) (fuel : ℕ) (nn : List Node)
    → weight nn < fuel
    → Holds t nn
    → Returns (Holds t) (extract_loop fuel nn)
unfolding extract_loop
extract_loop-Holds t zero nn lt h = absurd (omega arith)
extract_loop-Holds t (suc fuel) nn lt h =
    Returns-bind _ (Holds t) (pass number_round (length nn) [] nn false) _
      (pass-After (Holds t) weight number_round (number_round-Good t) (length nn) [] nn false
        (weight nn) (le_refl _) h (le_refl _))
      λ (nn', changed) k.
        elim changed
            as (λ c.
              Lighter (weight nn) (weight nn') c
              → Returns (Holds t) (elim c [ true ↦ extract_loop fuel nn' | false ↦ done nn' ])) [
                | true ↦ λ w. extract_loop-Holds t fuel nn' (omega arith) k.0
                | false ↦ λ w. k.0
              ]
          k.1

-- The passes over well-formed nodes end without a panic, and the nodes write the same text.
pub extract_numbers-Holds :
    (t : Bytes) (nn : List Node) → Holds t nn → Returns (Holds t) (extract_numbers nn)
unfolding extract_numbers
extract_numbers-Holds t nn h =
    extract_loop-Holds t (2 * length nn + 1) nn (omega (arith, weight-le nn)) h
