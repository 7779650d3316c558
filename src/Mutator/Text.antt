-- ===== src/Mutator/Text.antt =====
-- The cases 14 and 15 of the `switch` in `mutate`, which change the decimal numbers of a text.
use go_fuzz.Base.{
  ℕ, zero, suc, ◌+◌, ◌-◌, ◌*◌, Bool, Option, none, some, List, [], ◌∷◌, length, replicate, Outcome,
  done, panic, no_fuel, ltb, leb, ◌==◌, if◌then◌else◌, ◌&&◌, ◌||◌, u8,
}
use go_fuzz.Bytes.{Bytes}
use go_fuzz.Decimal.{format_uint}
use go_fuzz.Mutator.Draw.{Draw, pure, lift, ◌>>=◌, rand, randbig}
use go_fuzz.Mutator.Slices.{index, store, slice, copy_to}

abbrev pub is_digit : ℕ → Bool
is_digit v = leb b'0' v && leb v b'9'

-- An int64 that no operation here overflows.
pub data ℤ : Type 0 where
  pos : ℕ → ℤ
  negsuc : ℕ → ℤ

abbrev pub neg : ℤ → ℤ
neg (pos zero) = pos zero
neg (pos (suc n)) = negsuc n
neg (negsuc n) = pos (suc n)

-- `strconv.FormatInt(v, 10)`
unfoldable pub format_int : ℤ → Bytes
format_int (pos n) = format_uint n
format_int (negsuc n) = b'-' ∷ format_uint (suc n)

-- The places of the digits; `i` is the place of the first byte.
unfoldable pub digits : ℕ → Bytes → List ℕ
digits i [] = []
digits i (v ∷ res) = let rest = digits (i + 1) res in if is_digit v then i ∷ rest else rest

-- `xs[k]`
unfoldable pub nth : {A : Type 0} → List A → ℕ → Outcome A
nth [] k = panic
nth (x ∷ xs) zero = done x
nth (x ∷ xs) (suc k) = nth xs k

-- A range of an input, with the end excluded.
pub record Arange : Type 0 where
  pub start : ℕ
  pub end : ℕ

-- The loop that finds the numbers, from place `i` on; `size` is `len(res)`, and `none` a `start` of -1.
unfoldable pub numbers : ℕ → ℕ → Option ℕ → Bytes → List Arange
numbers size i start [] = []
numbers size i none (v ∷ res) =
    let begun = numbers size (i + 1) (some i) res in
    let rest = numbers size (i + 1) none res in if is_digit v || (v == b'-') then begun else rest
numbers size i (some s) (v ∷ res) =
    let inside = numbers size (i + 1) (some s) res in
    let outside = numbers size (i + 1) none res in
    if is_digit v
    then (if (i == size - 1) && ltb 0 (i - s)
        then record { start = s; end = i + 1 } ∷ inside
        else inside)
    else if ltb 1 (i - s)
    then record { start = s; end = i } ∷ outside
    else inside

-- `tmp`, with the three copies into it.
unfoldable pub replace_range : Bytes → Arange → Bytes → Draw Bytes
unfolding slice copy_to
replace_range res r str = do
  let size = (length res - (r.end - r.start)) + length str
  let tmp = replicate {A = ℕ} size 0
  front ← lift (slice res 0 r.start)
  one ← lift (copy_to tmp 0 size front)
  two ← lift (copy_to one r.start size str)
  back ← lift (slice res r.end (length res))
  lift (copy_to two (r.start + length str) size back)

module _ (fuel : ℕ) where
  -- `for was == now { now = byte(m.rand(10)) + '0' }`, on fuel
  unfoldable pub other_digit : ℕ → ℕ → ℕ → Draw ℕ
  unfolding rand
  other_digit zero was now = if was == now then lift no_fuel else pure now
  other_digit (suc tries) was now =
      let again = (do k ← rand fuel 10; other_digit tries was (u8 (u8 k + b'0'))) in
      if was == now then again else pure now

  -- case 14
  unfoldable pub replace_digit : Bytes → Draw (Option Bytes)
  unfolding rand digits index store other_digit
  replace_digit res = if length (digits 0 res) == 0 then pure none else do
    k ← rand fuel (length (digits 0 res))
    place ← lift (index (digits 0 res) k)
    was ← lift (index res place)
    now ← other_digit fuel was was
    changed ← lift (store res place now)
    pure (some changed)

  -- `switch m.rand(4)`
  unfoldable pub number_of : ℕ → Draw ℤ
  unfolding rand
  number_of which =
      if which == 0
      then (do v ← rand fuel 1000; pure (pos v))
      else if which == 1
      then (do v ← randbig; pure (pos v))
      else if which == 2
      then (do v ← randbig; w ← randbig; pure (pos (v * w)))
      else (do v ← randbig; pure (neg (pos v)))

  -- `m.rand(len(xs))` and the element it names
  unfoldable pub pick : {A : Type 0} → List A → Draw A
  unfolding rand nth
  pick xs = do k ← rand fuel (length xs); lift (nth xs k)

  -- case 15
  unfoldable pub replace_number : Bytes → Draw (Option Bytes)
  unfolding rand numbers number_of pick index replace_range format_int
  replace_number res = if length (numbers (length res) 0 none res) == 0 then pure none else do
    which ← rand fuel 4
    v ← number_of which
    r ← pick (numbers (length res) 0 none res)
    first ← lift (index res r.start)
    replaced ← replace_range res r (format_int (if first == b'-' then neg v else v))
    pure (some replaced)
