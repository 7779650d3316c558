-- ===== src/Mutator/Run.antt =====
-- `mutate` and `generate` of go-fuzz/mutator.go.
use go_fuzz.Base.{
  ℕ, zero, suc, ◌+◌, ◌-◌, ◌/◌, Bool, Option, none, some, List, [], ◌∷◌, length, take, map, no_fuel,
  ltb, if◌then◌else◌, get_or,
}
use go_fuzz.Defs.{max_input_size}
use go_fuzz.Bytes.{Bytes}
use go_fuzz.Types.{Input}
use go_fuzz.Mutator.Draw.{Draw, pure, lift, ◌>>=◌, rand, mutation_count}
use go_fuzz.Mutator.Cases.{
  interesting16, interesting32, remove_range, insert_random, duplicate_range, copy_range, bit_flip,
  set_byte, swap_bytes, add_to_byte, add_to_word, interesting_byte, interesting_word,
}
use go_fuzz.Mutator.Text.{replace_digit, replace_number, nth}
use go_fuzz.Mutator.Corpus.{RoData, splice, insert_part, insert_literal, replace_with_literal}

module _ (fuel : ℕ) (ro : RoData) where
  -- The cases of `switch m.rand(20)`, in their order.
  abbrev pub mutations : List (Bytes → Draw (Option Bytes))
  mutations =
      remove_range fuel
      ∷ insert_random fuel
      ∷ duplicate_range fuel
      ∷ copy_range fuel
      ∷ bit_flip fuel
      ∷ set_byte fuel
      ∷ swap_bytes fuel
      ∷ add_to_byte fuel
      ∷ add_to_word fuel 2
      ∷ add_to_word fuel 4
      ∷ add_to_word fuel 8
      ∷ interesting_byte fuel
      ∷ interesting_word fuel 2 interesting16
      ∷ interesting_word fuel 4 interesting32
      ∷ replace_digit fuel
      ∷ replace_number fuel
      ∷ splice fuel ro
      ∷ insert_part fuel ro
      ∷ insert_literal fuel ro
      ∷ replace_with_literal fuel ro
      ∷ []

  unfoldable pub mutate_step : Bytes → Draw (Option Bytes)
  unfolding rand
  mutate_step res = do k ← rand fuel 20; mutation ← lift (nth mutations k); mutation res

  abbrev pub next : Option Bytes → Draw Bytes → (Bytes → Draw Bytes) → Draw Bytes
  next none again more = again
  next (some res) again more = more res

  -- The loop, with `left` mutations to make in at most `tries` iterations; one that answers `none`
  -- is not counted.
  unfoldable pub mutate_loop : ℕ → ℕ → Bytes → Draw Bytes
  unfolding mutate_step
  mutate_loop tries zero res = pure res
  mutate_loop zero (suc left) res = lift no_fuel
  mutate_loop (suc tries) (suc left) res = do
    changed ← mutate_step res
    next changed (mutate_loop tries (suc left) res) (λ res'. mutate_loop tries left res')

  unfoldable pub mutate : Bytes → Draw Bytes
  unfolding mutation_count mutate_loop
  mutate input = do
    nm ← mutation_count
    res ← mutate_loop fuel nm input
    pure (if ltb max_input_size (length res) then take max_input_size res else res)

-- `sort.Search`: the binary search of Go's standard library for the least place in `[i, j)` where the
-- test holds, which halves the range in each round.
unfoldable pub search : ℕ → (ℕ → Bool) → ℕ → ℕ → ℕ
search zero test i j = i
search (suc rounds) test i j =
    let h = (i + j) / 2 in
    let above = search rounds test (h + 1) j in
    let below = search rounds test i h in if ltb i j then (if test h then below else above) else i

abbrev pub running_sums : List Input → List ℕ
running_sums = map (λ inp. inp.running_score_sum)

-- The place of the input that a weight selects.
unfoldable pub weighted_index : List ℕ → ℕ → ℕ
unfolding search
weighted_index sums weighted_idx =
    search (length sums) (λ i. ltb weighted_idx (get_or sums i 0)) 0 (length sums)

-- The mutated input and its depth.
unfoldable pub generate : ℕ → RoData → Draw (Bytes × ℕ)
unfolding rand weighted_index mutate
generate fuel ro = do
  last ← lift (nth (running_sums ro.corpus) (length ro.corpus - 1))
  weighted_idx ← rand fuel last
  input ← lift (nth ro.corpus (weighted_index (running_sums ro.corpus) weighted_idx))
  res ← mutate fuel ro input.content
  pure (res, input.depth + 1)
