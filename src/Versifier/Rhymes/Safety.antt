-- ===== src/Versifier/Rhymes/Safety.antt =====
-- Panics in `Generate` of the terms of go-fuzz/versifier/versifier.go.
use go_fuzz.Base.{
  ℕ, zero, suc, ◌+◌, ◌^◌, ◌<◌, Bool, true, false, not, List, [], ◌∷◌, length, All, no_fuel, ◌==◌,
  if◌then◌else◌, arith,
}
use go_fuzz.Mutator.Draw.{
  Draw, rand, IsSafe, pure-IsSafe, IsSafe-mono, lift-IsSafe, if-IsSafe, rand-IsSafe,
}
use go_fuzz.Mutator.Safety.{chain, nth-Safe}
use go_fuzz.Mutator.Text.{nth}
use go_fuzz.Versifier.{Dict}
use go_fuzz.Versifier.Rhymes.Leaves.{
  choose_from, rand_term, blanks, generate_ws, rand_len, draw_bytes, byte_of, word_byte,
  generate_alpha_num, hex_byte, digit_of, rand_num, generate_num, other_control, generate_control,
  is_alpha_num,
}

-- Whatever is drawn.
abbrev pub Any : {A : Type 0} → A → Type 0
Any a = Unit

-- A slice that an index can be drawn for.
abbrev pub IsChoice : ℕ → Type 0
IsChoice n = (0 < n) × (n < 2 ^ 32)

pub All-Any : {A : Type 0} (xs : List A) → All Any xs
All-Any [] = tt
All-Any (x ∷ xs) = (tt, All-Any xs)

module _ (fuel : ℕ) where
  pub below : (n : ℕ) → IsChoice n → IsSafe (λ k. k < n) (rand fuel n)
  below n h = rand-IsSafe fuel n h.1 h.0

  pub choose_from-IsSafe :
      {A : Type 0} (P : A → Type 0) (xs : List A)
      → All P xs
      → IsChoice (length xs)
      → IsSafe P (choose_from fuel xs)
  unfolding choose_from
  choose_from-IsSafe P xs all h =
      chain (below (length xs) h) λ k lt. lift-IsSafe P (nth xs k) (nth-Safe fuel P xs k all lt)

  rand_term-IsSafe : (d : Dict) → IsChoice (length d) → IsSafe Any (rand_term fuel d)
  unfolding rand_term
  rand_term-IsSafe d h = choose_from-IsSafe Any d (All-Any d) h

  blanks-IsSafe : (tries : ℕ) → IsSafe Any (blanks fuel tries)
  unfolding blanks
  blanks-IsSafe zero = lift-IsSafe _ no_fuel tt
  blanks-IsSafe (suc tries) = chain (below 3 (omega arith, omega arith)) λ k lt.
      if-IsSafe _ (k == 0) _ _ (λ e. pure-IsSafe _ _ tt)
        λ e. chain (blanks-IsSafe tries) λ rest u. pure-IsSafe _ _ tt

  pub generate_ws-IsSafe : (d : Dict) → IsChoice (length d) → IsSafe Any (generate_ws fuel d)
  unfolding generate_ws
  generate_ws-IsSafe d h =
      chain (below 5 (omega arith, omega arith))
        λ k lt. if-IsSafe _ (not (k == 0)) _ _ (λ e. rand_term-IsSafe d h) λ e. blanks-IsSafe fuel

  rand_len-IsSafe :
      (a b c : ℕ) → IsChoice a → IsChoice b → IsChoice c → IsSafe Any (rand_len fuel a b c)
  unfolding rand_len
  rand_len-IsSafe a b c p q r = chain (below 3 (omega arith, omega arith)) λ k lt.
      IsSafe-mono _ Any _ (λ n l. tt)
        (below (if k == 0 then a else if k == 1 then b else c) (one_of (k == 0) (k == 1)))
    where
      one_of : (x y : Bool) → IsChoice (if x then a else if y then b else c)
      one_of true y = p
      one_of false true = q
      one_of false false = r

  draw_bytes-IsSafe :
      (byte : Draw ℕ) (n : ℕ) → IsSafe Any byte → IsSafe Any (draw_bytes fuel byte n)
  unfolding draw_bytes
  draw_bytes-IsSafe byte zero h = pure-IsSafe _ _ tt
  draw_bytes-IsSafe byte (suc n) h =
      chain h λ b u. chain (draw_bytes-IsSafe byte n h) λ bs v. pure-IsSafe _ _ tt

  byte_of-IsSafe : (first n : ℕ) → IsChoice n → IsSafe Any (byte_of fuel first n)
  unfolding byte_of
  byte_of-IsSafe first n h = chain (below n h) λ k lt. pure-IsSafe _ _ tt

  word_byte-IsSafe : IsSafe Any (word_byte fuel)
  unfolding word_byte
  word_byte-IsSafe = chain (below 4 (omega arith, omega arith)) λ k lt.
      if-IsSafe _ (k == 0) _ _ (λ e. pure-IsSafe _ _ tt)
        λ e.
          if-IsSafe _ (k == 1) _ _ (λ e. byte_of-IsSafe b'0' 10 (omega arith, omega arith))
            λ e.
              if-IsSafe _ (k == 2) _ _ (λ e. byte_of-IsSafe b'a' 26 (omega arith, omega arith))
                λ e. byte_of-IsSafe b'A' 26 (omega arith, omega arith)

  pub generate_alpha_num-IsSafe :
      (d : Dict) → IsChoice (length d) → IsSafe Any (generate_alpha_num fuel d)
  unfolding generate_alpha_num
  generate_alpha_num-IsSafe d h = chain (below 5 (omega arith, omega arith)) λ k lt.
      if-IsSafe _ (not (k == 0)) _ _ (λ e. rand_term-IsSafe d h)
        λ e.
          chain
            (rand_len-IsSafe 4 20 100 (omega arith, omega arith) (omega arith, omega arith)
              (omega arith, omega arith))
            λ n u. draw_bytes-IsSafe (word_byte fuel) n word_byte-IsSafe

  hex_byte-IsSafe : IsSafe Any (hex_byte fuel)
  unfolding hex_byte
  hex_byte-IsSafe = chain (below 3 (omega arith, omega arith)) λ k lt.
      if-IsSafe _ (k == 0) _ _ (λ e. byte_of-IsSafe b'0' 10 (omega arith, omega arith))
        λ e.
          if-IsSafe _ (k == 1) _ _ (λ e. byte_of-IsSafe b'a' 6 (omega arith, omega arith))
            λ e. byte_of-IsSafe b'A' 6 (omega arith, omega arith)

  digit_of-IsSafe : (base : ℕ) → IsSafe Any (digit_of fuel base)
  unfolding digit_of
  digit_of-IsSafe base =
      if-IsSafe _ (base == 0) _ _ (λ e. byte_of-IsSafe b'0' 8 (omega arith, omega arith))
        λ e.
          if-IsSafe _ (base == 1) _ _ (λ e. byte_of-IsSafe b'0' 10 (omega arith, omega arith))
            λ e. hex_byte-IsSafe

  rand_num-IsSafe : IsSafe Any (rand_num fuel)
  unfolding rand_num
  rand_num-IsSafe = chain (below 3 (omega arith, omega arith)) λ base lt.
      chain
        (rand_len-IsSafe 4 16 40 (omega arith, omega arith) (omega arith, omega arith)
          (omega arith, omega arith))
        λ n u.
          chain (draw_bytes-IsSafe (digit_of fuel base) (n + 1) (digit_of-IsSafe base))
            λ digits v. chain (below 2 (omega arith, omega arith)) λ sign lt'. pure-IsSafe _ _ tt

  pub generate_num-IsSafe : (d : Dict) → IsChoice (length d) → IsSafe Any (generate_num fuel d)
  unfolding generate_num
  generate_num-IsSafe d h = chain (below 2 (omega arith, omega arith)) λ k lt.
      if-IsSafe _ (k == 0) _ _ (λ e. rand_term-IsSafe d h)
        λ e. chain (below 3 (omega arith, omega arith)) λ form lt'.
          if-IsSafe _ (form == 0) _ _ (λ e. rand_num-IsSafe)
            λ e. chain rand_num-IsSafe λ front u. chain rand_num-IsSafe λ back v. pure-IsSafe _ _ tt

  other_control-IsSafe : (tries : ℕ) → IsSafe Any (other_control fuel tries)
  unfolding other_control
  other_control-IsSafe zero = lift-IsSafe _ no_fuel tt
  other_control-IsSafe (suc tries) = chain (below 128 (omega arith, omega arith)) λ b lt.
      if-IsSafe _ (is_alpha_num b) _ _ (λ e. other_control-IsSafe tries) λ e. pure-IsSafe _ _ tt

  pub generate_control-IsSafe : (ch : ℕ) → IsSafe Any (generate_control fuel ch)
  unfolding generate_control
  generate_control-IsSafe ch = chain (below 10 (omega arith, omega arith)) λ k lt.
      if-IsSafe _ (not (k == 0)) _ _ (λ e. pure-IsSafe _ _ tt) λ e. other_control-IsSafe fuel
