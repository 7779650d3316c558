-- ===== src/Mutator/Corpus.antt =====
-- The cases 16 to 19 of the `switch` in `mutate`, which use other inputs of the corpus and the literals
-- of the program under test.
use go_fuzz.Base.{
  ℕ, ◌+◌, ◌-◌, Bool, false, Option, none, some, List, [], ◌∷◌, length, min, ltb, leb, ◌==◌,
  if◌then◌else◌, ◌&&◌, ◌||◌,
}
use go_fuzz.Bytes
use go_fuzz.Bytes.{Bytes}
use go_fuzz.Types.{Input}
use go_fuzz.Mutator.Draw.{Draw, pure, lift, ◌>>=◌, flip, rand, choose_len}
use go_fuzz.Mutator.Slices.{slice, copy_to, open_gap, write_piece}
use go_fuzz.Mutator.Text.{pick}

-- What the mutator reads of `ROData`.
pub record RoData : Type 0 where
  pub corpus : List Input
  pub str_lits : List Bytes
  pub int_lits : List Bytes

-- `idx0`, and `idx1` on the reversed inputs
unfoldable pub common_prefix : Bytes → Bytes → ℕ
common_prefix [] other = 0
common_prefix (x ∷ res) [] = 0
common_prefix (x ∷ res) (y ∷ other) = let n = common_prefix res other in if x == y then n + 1 else 0

unfoldable pub diff_len : Bytes → Bytes → ℕ
unfolding common_prefix
diff_len res other =
    let idx0 = common_prefix res other in
    let idx1 = common_prefix (Bytes.reverse res) (Bytes.reverse other) in
    min (length res - idx0 - idx1) (length other - idx0 - idx1)

-- `len(ro.strLits) != 0 && m.r.Bool()`
unfoldable pub use_string : RoData → Draw Bool
use_string ro = if length ro.str_lits == 0 then pure false else flip

module _ (fuel : ℕ) where
  -- case 16; `res` never shares its first byte with a corpus input, as `mutate` has copied it
  unfoldable pub splice : RoData → Bytes → Draw (Option Bytes)
  unfolding rand pick common_prefix diff_len slice copy_to
  splice ro res = if ltb (length res) 4 || ltb (length ro.corpus) 2 then pure none else do
    inp ← pick fuel ro.corpus
    let other = inp.content
    let idx0 = common_prefix res other
    let diff = diff_len res other
    if ltb (length other) 4 then pure none else if ltb diff 4 then pure none else do
      n ← rand fuel (diff - 2)
      from ← lift (slice other idx0 (length other))
      copied ← lift (copy_to res idx0 (idx0 + n + 1) from)
      pure (some copied)

  -- case 17
  unfoldable pub insert_part : RoData → Bytes → Draw (Option Bytes)
  unfolding rand pick choose_len slice open_gap write_piece
  insert_part ro res = if ltb (length res) 4 || ltb (length ro.corpus) 2 then pure none else do
    inp ← pick fuel ro.corpus
    let other = inp.content
    if ltb (length other) 4 then pure none else do
      pos0 ← rand fuel (length res + 1)
      pos1 ← rand fuel (length other - 2)
      k ← choose_len fuel (length other - pos1 - 2)
      gapped ← lift (open_gap res pos0 (k + 2))
      piece ← lift (slice other pos1 (pos1 + (k + 2)))
      written ← lift (write_piece gapped pos0 piece)
      pure (some written)

  -- `lit`, in the cases 18 and 19
  unfoldable pub literal : RoData → Draw Bytes
  unfolding use_string rand pick
  literal ro = do
    string ← use_string ro
    if string then pick fuel ro.str_lits else do
      lit ← pick fuel ro.int_lits
      k ← rand fuel 3
      pure (if k == 0 then Bytes.reverse lit else lit)

  -- case 18
  unfoldable pub insert_literal : RoData → Bytes → Draw (Option Bytes)
  unfolding rand open_gap copy_to
  insert_literal ro res =
      if (length ro.int_lits == 0) && (length ro.str_lits == 0) then pure none else do
        lit ← literal ro
        pos ← rand fuel (length res + 1)
        gapped ← lift (open_gap res pos (length lit))
        written ← lift (copy_to gapped pos (length gapped) lit)
        pure (some written)

  -- case 19
  unfoldable pub replace_with_literal : RoData → Bytes → Draw (Option Bytes)
  unfolding rand copy_to
  replace_with_literal ro res =
      if (length ro.int_lits == 0) && (length ro.str_lits == 0) then pure none else do
        lit ← literal ro
        if leb (length res) (length lit) then pure none else do
          pos ← rand fuel (length res - length lit)
          written ← lift (copy_to res pos (length res) lit)
          pure (some written)
