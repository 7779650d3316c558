-- ===== src/Versifier/Rhymes/Leaves.antt =====
-- `randTerm`, and `Generate` of the nodes that are terms.
use go_fuzz.Base.{
  ℕ, zero, suc, ◌+◌, Bool, not, List, [], ◌∷◌, ◌++◌, length, no_fuel, leb, ◌&&◌, ◌||◌, ◌==◌,
  if◌then◌else◌, u8,
}
use go_fuzz.Bytes.{Bytes}
use go_fuzz.Mutator.Draw.{Draw, pure, lift, ◌>>=◌, rand}
use go_fuzz.Mutator.Text.{nth}
use go_fuzz.Versifier.{Dict}

unfoldable pub is_alpha_num : ℕ → Bool
is_alpha_num b =
    (leb b'0' b && leb b b'9') || (leb b'a' b && leb b b'z') || (leb b'A' b && leb b b'Z')

module _ (fuel : ℕ) where
  -- `xs[v.Rand(len(xs))]`
  unfoldable pub choose_from : {A : Type 0} → List A → Draw A
  unfolding rand
  choose_from xs = do k ← rand fuel (length xs); lift (nth xs k)

  unfoldable pub rand_term : Dict → Draw Bytes
  unfolding choose_from
  rand_term dict = choose_from dict

  -- Blanks and tabs, until the loop is left.
  unfoldable pub blanks : ℕ → Draw Bytes
  unfolding rand
  blanks zero = lift no_fuel
  blanks (suc tries) = do
    k ← rand fuel 3
    if k == 0
        then pure []
        else (blanks tries >>= λ rest. pure ((if k == 1 then b' ' else 9) ∷ rest))

  unfoldable pub generate_ws : Dict → Draw Bytes
  unfolding rand_term blanks
  generate_ws dict = do k ← rand fuel 5; if not (k == 0) then rand_term dict else blanks fuel

  -- A length below one of three bounds.
  unfoldable pub rand_len : ℕ → ℕ → ℕ → Draw ℕ
  unfolding rand
  rand_len a b c = do k ← rand fuel 3; rand fuel (if k == 0 then a else if k == 1 then b else c)

  unfoldable pub draw_bytes : Draw ℕ → ℕ → Draw Bytes
  draw_bytes byte zero = pure []
  draw_bytes byte (suc n) = do b ← byte; bs ← draw_bytes byte n; pure (b ∷ bs)

  -- A byte from `first` on, of so many.
  unfoldable pub byte_of : ℕ → ℕ → Draw ℕ
  unfolding rand
  byte_of first n = do k ← rand fuel n; pure (first + k)

  unfoldable pub word_byte : Draw ℕ
  unfolding byte_of
  word_byte = rand fuel 4 >>= λ k.
      if k == 0
      then pure b'_'
      else if k == 1
      then byte_of b'0' 10
      else if k == 2
      then byte_of b'a' 26
      else byte_of b'A' 26

  unfoldable pub generate_alpha_num : Dict → Draw Bytes
  unfolding rand_term rand_len draw_bytes word_byte
  generate_alpha_num dict = do
    k ← rand fuel 5
    if not (k == 0) then rand_term dict else (rand_len 4 20 100 >>= draw_bytes word_byte)

  unfoldable pub hex_byte : Draw ℕ
  unfolding byte_of
  hex_byte = do
    k ← rand fuel 3
    if k == 0 then byte_of b'0' 10 else if k == 1 then byte_of b'a' 6 else byte_of b'A' 6

  -- `base` is 0 for octal, 1 for decimal and 2 for hexadecimal numbers.
  unfoldable pub digit_of : ℕ → Draw ℕ
  unfolding byte_of hex_byte
  digit_of base =
      if base == 0 then byte_of b'0' 8 else if base == 1 then byte_of b'0' 10 else hex_byte

  abbrev pub base_prefix : ℕ → Bytes
  base_prefix base = if base == 0 then b'0' ∷ [] else if base == 1 then [] else b'0' ∷ b'x' ∷ []

  unfoldable pub rand_num : Draw Bytes
  unfolding rand_len draw_bytes digit_of
  rand_num = do
    base ← rand fuel 3
    n ← rand_len 4 16 40
    digits ← draw_bytes (digit_of base) (n + 1)
    sign ← rand fuel 2
    pure ((if sign == 0 then b'-' ∷ [] else []) ++ base_prefix base ++ digits)

  unfoldable pub generate_num : Dict → Draw Bytes
  unfolding rand_term rand_num
  generate_num dict = do
    k ← rand fuel 2
    if k == 0
        then rand_term dict
        else (rand fuel 3 >>= λ form.
            if form == 0
            then rand_num
            else (rand_num >>= λ front.
                rand_num >>= λ back. pure (front ++ (if form == 1 then b'.' else b'e') ∷ back)))

  -- A control character is written as its low byte, or replaced by one that is no letter or digit.
  unfoldable pub other_control : ℕ → Draw Bytes
  unfolding rand is_alpha_num
  other_control zero = lift no_fuel
  other_control (suc tries) = do
    b ← rand fuel 128
    if is_alpha_num b then other_control tries else pure (b ∷ [])

  unfoldable pub generate_control : ℕ → Draw Bytes
  unfolding other_control
  generate_control ch = do
    k ← rand fuel 10
    if not (k == 0) then pure (u8 ch ∷ []) else other_control fuel
