-- ===== src/Versifier/Numbers/Terms.antt =====
-- `extractNumbers` on a term: hexadecimal numbers and exponents keep the text.
use mathlib.Core.List.{append_assoc}
use go_fuzz.Base.{
  ℕ, ◌+◌, ◌≤◌, ◌<◌, ◌≡◌, refl, Bool, true, false, Option, none, some, List, [], ◌∷◌, ◌++◌, length,
  take, drop, get_or, done, ◌>>=◌, Returns, leb, ◌==◌, ◌&&◌, ◌-◌, Bool-cases, inl, inr,
  if◌then◌else◌, arith, All,
}
use go_fuzz.Bytes.{Bytes}
use go_fuzz.Versifier.{
  Node, Dict, alpha_num, num, make_dict, single_term, text, node_text, rejoin, HasTerm, term,
}
use go_fuzz.Versifier.Passes.{Round, unchanged, rewritten}
use go_fuzz.Versifier.Passes.Keeps.{Kept}
use go_fuzz.Versifier.Sound.{Sound, Holds, weight, node_weight, rewrite-Holds, All-rejoin_rest}
use go_fuzz.Versifier.Numbers.{exponent, number_term, is_dec_num, is_hex_num, index_byte}

pub single_term-term : (d : Dict) → HasTerm d → single_term d ≡ done (term d)
unfolding single_term
single_term-term [] h = absurd h
single_term-term (s ∷ d) h = refl

node_weight-pos : (n : Node) → 1 ≤ node_weight n
node_weight-pos (alpha_num d) = omega arith
node_weight-pos n = omega arith

pub num-HasTerm : (d : Dict) (hex : Bool) → Sound (num d hex) → HasTerm d
unfolding Sound
num-HasTerm d hex h = h

pub alpha-HasTerm : (d : Dict) → Sound (alpha_num d) → HasTerm d
unfolding Sound
alpha-HasTerm d h = h

texts :
    (d d1 : Dict) (hex : Bool)
    → term d ++ term d1 ≡ node_text (alpha_num d) ++ node_text (num d1 hex)
unfolding node_text
texts d d1 hex = refl

module _ (t : Bytes) (before : List Node) where
  abbrev pub Good : Node → List Node → Round → Type 0
  Good n rest r = Kept (Holds t) weight before n rest r

  -- One node in place of another.
  relabel :
      (d : Dict) (hex : Bool) (rest : List Node)
      → Holds t (rejoin before (alpha_num d ∷ rest))
      → Good (alpha_num d) rest (rewritten (num d hex ∷ before) rest)
  unfolding text node_text Sound
  relabel d hex rest h =
      let (holds, w) =
        rewrite-Holds t before (alpha_num d ∷ rest) (num d hex ∷ rest) h refl (λ k. k)
          (omega arith) in
      (omega arith, holds, w)

  -- Two nodes become one number.
  pub merge :
      (n m : Node) (s : Bytes) (hex : Bool) (rest : List Node)
      → Holds t (rejoin before (n ∷ m ∷ rest))
      → s ≡ node_text n ++ node_text m
      → Good n (m ∷ rest) (rewritten (num (make_dict s) hex ∷ before) rest)
  unfolding make_dict text node_text Sound
  merge n m s hex rest h e =
      let (holds, w) =
        rewrite-Holds t before (n ∷ m ∷ rest) (num (s ∷ []) hex ∷ rest) h
          (rw e (append_assoc (node_text n) (node_text m) (text rest))) (λ k. (tt, k.1.1))
          (weight_pos n m rest) in
      (omega arith, holds, w)
    where
      weight_pos : (n m : Node) (rest : List Node) → 1 + weight rest < weight (n ∷ m ∷ rest)
      weight_pos n m rest = omega (arith, node_weight-pos n, node_weight-pos m)

  relabel_exponent :
      (d : Dict) (b : Bool) (rest : List Node)
      → Holds t (rejoin before (alpha_num d ∷ rest))
      → Returns
          (Good (alpha_num d) rest)
          (if b then done (rewritten (num d false ∷ before) rest) else done unchanged)
  relabel_exponent d b rest h = elim (Bool-cases b) [
    | inl e ↦ rw e (relabel d false rest h)
    | inr e ↦ rw e tt
  ]

  exponent-Good :
      (d : Dict) (e : ℕ) (rest : List Node)
      → Holds t (rejoin before (alpha_num d ∷ rest))
      → Returns (Good (alpha_num d) rest) (exponent before d (term d) e rest)
  unfolding exponent
  exponent-Good d e [] h = relabel_exponent d _ [] h
  exponent-Good d e (num d1 hex ∷ rest) h =
      elim (Bool-cases (is_dec_num (take e (term d)) && is_dec_num (drop (e + 1) (term d)))) [
        | inl b ↦ rw b (relabel d false (num d1 hex ∷ rest) h)
        | inr b ↦ elim (Bool-cases (e == length (term d) - 1)) [
          | inl b' ↦ rw (b, b') joined
          | inr b' ↦ rw (b, b') tt
        ]
      ]
    where
      sounds : All Sound (alpha_num d ∷ num d1 hex ∷ rest)
      sounds = All-rejoin_rest before (alpha_num d ∷ num d1 hex ∷ rest) h.sound

      joined : Returns (Good (alpha_num d) (num d1 hex ∷ rest)) (
          single_term d1 >>= λ s.
          done (rewritten (num (make_dict (term d ++ s)) false ∷ before) rest))
      joined =
          rw (single_term-term d1 (num-HasTerm d1 hex sounds.1.0))
            (merge (alpha_num d) (num d1 hex) (term d ++ term d1) false rest h (texts d d1 hex))
  exponent-Good d e (n ∷ rest) h = relabel_exponent d _ (n ∷ rest) h

  abbrev is_hex : Bytes → Bool
  is_hex v = get_or v 0 0 == b'0' && get_or v 1 0 == b'x' && is_hex_num (drop 2 v)

  pub number_term-Good :
      (d : Dict) (rest : List Node)
      → Holds t (rejoin before (alpha_num d ∷ rest))
      → Returns (Good (alpha_num d) rest) (number_term before d rest)
  unfolding number_term
  number_term-Good d rest h =
      let sounds = All-rejoin_rest before (alpha_num d ∷ rest) h.sound in
      rw (single_term-term d (alpha-HasTerm d sounds.0))
        (elim (Bool-cases (leb 3 (length (term d)))) [
          | inr b ↦ rw b tt
          | inl b ↦ elim (Bool-cases (is_hex (term d))) [
            | inl b' ↦ rw (b, b') (relabel d true rest h)
            | inr b' ↦ rw (b, b') (by_index (index_byte (term d) b'e'))
          ]
        ])
    where
      by_index :
          (o : Option ℕ)
          → Returns
              (Good (alpha_num d) rest)
              (elim o [ none ↦ done unchanged | some e ↦ exponent before d (term d) e rest ])
      by_index none = tt
      by_index (some e) = exponent-Good d e rest h
