-- ===== src/Mutator/Safety/Texts.antt =====
-- Panics and lengths in the cases 14 and 15 of `mutate` of go-fuzz/mutator.go.
use go_fuzz.Base.{
  ℕ, zero, suc, ◌+◌, ◌-◌, ◌^◌, ◌<◌, ◌≤◌, Bool, true, false, Option, none, some, List, [], ◌∷◌, All,
  get_or, replicate, no_fuel, length, length-replicate, ltb, ◌==◌, ◌&&◌, ◌||◌, if◌then◌else◌, arith,
}
use go_fuzz.Bytes.{Bytes}
use go_fuzz.Decimal.{length-format_uint}
use go_fuzz.Mutator.Draw.{
  lift, IsSafe, pure-IsSafe, if-IsSafe, lift-IsSafe, IsSafe-mono, rand-IsSafe,
}
use go_fuzz.Mutator.Slices.{index, index_lem}
use go_fuzz.Mutator.Text.{
  is_digit, ℤ, pos, negsuc, neg, format_int, digits, Arange, numbers, replace_range, other_digit,
  replace_digit, number_of, replace_number,
}
use go_fuzz.Mutator.Safety.{
  AnswerWithin, HasLength, chain, slice-IsSafe, copy_to-IsSafe, index-IsSafe, store-IsSafe,
  randbig-IsSafe, pick-IsSafe,
}

length-digits : (i : ℕ) (res : Bytes) → length (digits i res) ≤ length res
unfolding digits
length-digits i [] = omega arith
length-digits i (v ∷ res) = ground (arith, length-digits (i + 1) res)

All-if :
    {A : Type 0} (P : A → Type 0) (b : Bool) (xs ys : List A)
    → All P xs
    → All P ys
    → All P (if b then xs else ys)
All-if P true xs ys h k = h
All-if P false xs ys h k = k

All-get_or : (P : ℕ → Type 0) (xs : List ℕ) (k d : ℕ) → All P xs → k < length xs → P (get_or xs k d)
All-get_or P [] k d all h = absurd (omega arith)
All-get_or P (x ∷ xs) zero d all h = all.0
All-get_or P (x ∷ xs) (suc k) d all h = All-get_or P xs k d all.1 (omega arith)

digits-Inside :
    (size i : ℕ) (res : Bytes) → i + length res ≤ size → All (λ p. p < size) (digits i res)
unfolding digits
digits-Inside size i [] h = tt
digits-Inside size i (v ∷ res) h =
    let rest = digits-Inside size (i + 1) res (omega arith) in
    All-if _ (is_digit v) (i ∷ digits (i + 1) res) (digits (i + 1) res) (omega arith, rest) rest

-- A range that is not empty and ends inside the input.
abbrev pub IsInside : ℕ → Arange → Type 0
IsInside size r = (r.start < r.end) × (r.end ≤ size)

-- A number that has begun has begun before the place `i`.
abbrev Began : ℕ → Option ℕ → Type 0
Began i none = Unit
Began i (some s) = s < i

numbers-IsInside :
    (size i : ℕ) (start : Option ℕ) (res : Bytes)
    → Began i start
    → i + length res ≤ size
    → All (IsInside size) (numbers size i start res)
unfolding numbers
numbers-IsInside size i none [] b h = tt
numbers-IsInside size i (some s) [] b h = tt
numbers-IsInside size i none (v ∷ res) b h =
    All-if _ (is_digit v || (v == b'-')) _ _
      (numbers-IsInside size (i + 1) (some i) res (omega arith) (omega arith))
      (numbers-IsInside size (i + 1) none res tt (omega arith))
numbers-IsInside size i (some s) (v ∷ res) b h =
    let inside = numbers-IsInside size (i + 1) (some s) res (omega arith) (omega arith) in
    let outside = numbers-IsInside size (i + 1) none res tt (omega arith) in
    All-if _ (is_digit v) _ _
      (All-if _ ((i == size - 1) && ltb 0 (i - s))
        (record { start = s; end = i + 1 } ∷ numbers size (i + 1) (some s) res) _
        ((omega arith, omega arith), inside) inside)
      (All-if _ (ltb 1 (i - s)) (record { start = s; end = i } ∷ numbers size (i + 1) none res) _
        ((b, omega arith), outside) inside)

length-if :
    {A : Type 0} (n : ℕ) (b : Bool) (xs ys : List A)
    → length xs ≤ n
    → length ys ≤ n
    → length (if b then xs else ys) ≤ n
length-if n true xs ys h k = h
length-if n false xs ys h k = k

length-numbers :
    (size i : ℕ) (start : Option ℕ) (res : Bytes) → length (numbers size i start res) ≤ length res
unfolding numbers
length-numbers size i none [] = omega arith
length-numbers size i (some s) [] = omega arith
length-numbers size i none (v ∷ res) =
    length-if _ (is_digit v || (v == b'-')) _ _
      (omega (arith, length-numbers size (i + 1) (some i) res))
      (omega (arith, length-numbers size (i + 1) none res))
length-numbers size i (some s) (v ∷ res) =
    let inside = length-numbers size (i + 1) (some s) res in
    let outside = length-numbers size (i + 1) none res in
    length-if _ (is_digit v) _ _
      (length-if _ ((i == size - 1) && ltb 0 (i - s))
        (record { start = s; end = i + 1 } ∷ numbers size (i + 1) (some s) res)
        (numbers size (i + 1) (some s) res) (omega arith) (omega arith))
      (length-if _ (ltb 1 (i - s)) (record { start = s; end = i } ∷ numbers size (i + 1) none res)
        (numbers size (i + 1) (some s) res) (omega arith) (omega arith))

length-format_int : (v : ℤ) → length (format_int v) ≤ 21
unfolding format_int
length-format_int (pos n) = omega (arith, length-format_uint n)
length-format_int (negsuc n) = omega (arith, length-format_uint (suc n))

-- The replacement of a range inside the input has the length that the code gives `tmp`.
replace_range-IsSafe :
    (res : Bytes) (r : Arange) (str : Bytes)
    → IsInside (length res) r
    → IsSafe (HasLength ((length res - (r.end - r.start)) + length str)) (replace_range res r str)
unfolding replace_range
replace_range-IsSafe res r str h =
    let size = (length res - (r.end - r.start)) + length str in
    let tmp = length-replicate {A = ℕ} size 0 in
    chain (slice-IsSafe res 0 r.start (omega arith) (omega arith)) λ front hf.
      chain (copy_to-IsSafe (replicate {A = ℕ} size 0) 0 size front (omega arith) (omega arith))
        λ one h1. chain (copy_to-IsSafe one r.start size str (omega arith) (omega arith)) λ two h2.
          chain (slice-IsSafe res r.end (length res) (omega arith) (omega arith)) λ back hb.
            IsSafe-mono _ _ _ (λ x e. omega arith)
              (copy_to-IsSafe two (r.start + length str) size back (omega arith) (omega arith))

module _ (fuel : ℕ) where
  other_digit-IsSafe : (tries was now : ℕ) → IsSafe (λ v. Unit) (other_digit fuel tries was now)
  unfolding other_digit
  other_digit-IsSafe zero was now =
      if-IsSafe _ (was == now) _ _ (λ e. lift-IsSafe _ no_fuel tt) (λ e. pure-IsSafe _ now tt)
  other_digit-IsSafe (suc tries) was now =
      if-IsSafe _ (was == now) _ _
        (λ e.
          chain (rand-IsSafe fuel 10 (omega arith) (omega arith))
            (λ k hk. other_digit-IsSafe tries was _))
        (λ e. pure-IsSafe _ now tt)

  number_of-IsSafe : (which : ℕ) → IsSafe (λ v. Unit) (number_of fuel which)
  unfolding number_of
  number_of-IsSafe which =
      if-IsSafe _ (which == 0) _ _
        (λ e. chain (rand-IsSafe fuel 1000 (omega arith) (omega arith)) λ v h. pure-IsSafe _ _ tt)
        λ e.
          if-IsSafe _ (which == 1) _ _ (λ e. chain randbig-IsSafe λ v h. pure-IsSafe _ _ tt)
            λ e.
              if-IsSafe _ (which == 2) _ _
                (λ e. chain randbig-IsSafe λ v h. chain randbig-IsSafe λ w k. pure-IsSafe _ _ tt)
                λ e. chain randbig-IsSafe λ v h. pure-IsSafe _ _ tt

  module _ (res : Bytes) (bound : ℕ) (fits : length res + 1 < 2 ^ 32)
      (room : length res + 21 ≤ bound) where
    pub replace_digit-Fine : IsSafe (AnswerWithin bound) (replace_digit fuel res)
    unfolding replace_digit
    replace_digit-Fine =
        if-IsSafe _ (length (digits 0 res) == 0) _ _ (λ e. pure-IsSafe _ none tt)
          λ e.
            let few = length-digits 0 res in
            chain (rand-IsSafe fuel (length (digits 0 res)) (omega arith) (ground arith)) λ k hk.
              chain (place-IsSafe k hk) λ p hp. chain (index-IsSafe res p hp) λ was t.
                chain (other_digit-IsSafe fuel was was) λ now t'.
                  chain (store-IsSafe res p now hp) λ r hr. pure-IsSafe _ (some r) (omega arith)
      where
        place-IsSafe :
            (k : ℕ)
            → k < length (digits 0 res)
            → IsSafe (λ p. p < length res) (lift (index (digits 0 res) k))
        place-IsSafe k hk = lift-IsSafe _ (index (digits 0 res) k) (
            rw (index_lem (digits 0 res) k hk) (
              All-get_or (λ p. p < length res) (digits 0 res) k 0
                (digits-Inside (length res) 0 res (omega arith)) hk))

    pub replace_number-Fine : IsSafe (AnswerWithin bound) (replace_number fuel res)
    unfolding replace_number
    replace_number-Fine =
        if-IsSafe _ (length (numbers (length res) 0 none res) == 0) _ _ (λ e. pure-IsSafe _ none tt)
          λ e.
            let few = length-numbers (length res) 0 none res in
            let inside = numbers-IsInside (length res) 0 none res tt (omega arith) in
            chain (rand-IsSafe fuel 4 (omega arith) (omega arith)) λ which hw.
              chain (number_of-IsSafe which) λ v t.
                chain
                  (pick-IsSafe fuel (IsInside (length res)) _ inside (ground arith) (omega arith))
                  λ r hr. chain (index-IsSafe res r.start (omega arith)) λ first t'.
                    chain
                      (replace_range-IsSafe res r (format_int (if first == b'-' then neg v else v))
                        hr)
                      λ x hx.
                        pure-IsSafe _ (some x)
                          (omega (arith, length-format_int (if first == b'-' then neg v else v)))
