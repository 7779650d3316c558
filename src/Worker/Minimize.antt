-- ===== src/Worker/Minimize.antt =====
-- `minimizeInput`. `S` is what the runs of the program under test and the predicate change, the clock
-- included: `accepts` runs a candidate and asks the predicate, and `late` says that the time is over.
-- The candidates that the source assembles in `tmp` are the concatenations that its copies make.
pub mod Loops
pub mod Laws
use go_fuzz.Base.{
  ℕ, zero, suc, ◌+◌, ◌-◌, ◌/◌, Bool, true, false, List, [], ◌∷◌, ◌++◌, length, take, drop, get_or,
  set, Outcome, done, panic, no_fuel, ◌>>=◌, ltb, leb, ◌==◌, if◌then◌else◌, not,
}
use go_fuzz.Bytes.{Bytes}

-- A part of the minimisation ends early, with the result of the whole, or goes on.
pub data Round (S : Type 0) : Type 0 where
  returned : Bytes → S → Round S
  going : Bytes → S → Round S

-- What is left of a tested candidate: the time was over, or the answer.
pub data Tried (S : Type 0) : Type 0 where
  too_late : Tried S
  accepted : S → Tried S
  rejected : S → Tried S

-- `1024; n != 0; n /= 2`
abbrev pub tail_sizes : List ℕ
tail_sizes = 1024 ∷ 512 ∷ 256 ∷ 128 ∷ 64 ∷ 32 ∷ 16 ∷ 8 ∷ 4 ∷ 2 ∷ 1 ∷ []

-- What the loop over `j` comes to.
pub data Cut (S : Type 0) : Type 0 where
  returned_cut : S → Cut S
  no_cut : S → Cut S
  cut_at : Bytes → S → Cut S

module _ {S : Type 0} where
  abbrev pub on_answer :
      Tried S
      → Outcome (Round S)
      → (S → Outcome (Round S))
      → (S → Outcome (Round S))
      → Outcome (Round S)
  on_answer too_late late on_yes on_no = late
  on_answer (accepted s) late on_yes on_no = on_yes s
  on_answer (rejected s) late on_yes on_no = on_no s

  abbrev pub on_cut :
      Cut S
      → (S → Outcome (Round S))
      → (S → Outcome (Round S))
      → (Bytes → S → Outcome (Round S))
      → Outcome (Round S)
  on_cut (returned_cut s) late on_no on_yes = late s
  on_cut (no_cut s) late on_no on_yes = on_no s
  on_cut (cut_at res s) late on_no on_yes = on_yes res s

  abbrev pub on_round : Round S → (Bytes → S → Outcome (Round S)) → Outcome (Round S)
  on_round (returned res s) f = done (returned res s)
  on_round (going res s) f = f res s

  abbrev pub then_run : Outcome (Round S) → (Bytes → S → Outcome (Round S)) → Outcome (Round S)
  then_run o f = o >>= λ r. on_round r f

module _ {S : Type 0} (late : S → Bool) (accepts : Bytes → S → Bool × S) where
  unfoldable pub test : Bytes → S → Tried S
  test candidate s =
      let (ok, s') = accepts candidate s in
      if late s then too_late else if ok then accepted s' else rejected s'

  -- `for len(res) > n`, in which each round that goes on shortens the result by `n`.
  unfoldable pub cut_tail : ℕ → ℕ → Bytes → S → Outcome (Round S)
  unfolding test
  cut_tail zero n res s = if ltb n (length res) then no_fuel else done (going res s)
  cut_tail (suc fuel) n res s =
      let candidate = take (length res - n) res in
      if ltb n (length res)
      then on_answer (test candidate s) (done (returned res s)) (λ s'. cut_tail fuel n candidate s')
          (λ s'. done (going res s'))
      else done (going res s)

  -- `for n := 1024; n != 0; n /= 2`
  unfoldable pub cut_tails : List ℕ → Bytes → S → Outcome (Round S)
  unfolding cut_tail
  cut_tails [] res s = done (going res s)
  cut_tails (n ∷ sizes) res s =
      then_run (cut_tail (length res) n res s) (λ res' s'. cut_tails sizes res' s')

  -- Each byte in turn; the length or the distance from the end falls in each round.
  unfoldable pub remove_bytes : ℕ → ℕ → Bytes → S → Outcome (Round S)
  unfolding test
  remove_bytes zero i res s = if ltb i (length res) then no_fuel else done (going res s)
  remove_bytes (suc fuel) i res s =
      let candidate = take i res ++ drop (i + 1) res in
      if ltb i (length res)
      then on_answer (test candidate s) (done (returned res s))
          (λ s'. remove_bytes fuel i candidate s') (λ s'. remove_bytes fuel (i + 1) res s')
      else done (going res s)

  -- The loop over `j`, down to the first range `[i, j)` whose removal is accepted.
  unfoldable pub find_cut : ℕ → ℕ → Bytes → S → Cut S
  unfolding test
  find_cut zero i res s = no_cut s
  find_cut (suc j) i res s =
      let candidate = take i res ++ drop (suc j) res in
      if ltb (i + 1) (suc j)
      then elim (test candidate s) [
        | too_late ↦ returned_cut s
        | accepted s' ↦ cut_at candidate s'
        | rejected s' ↦ find_cut j i res s'
      ]
      else no_cut s

  -- After a removal `j = len(res)`, which the loop's own `j--` lowers before the next candidate.
  unfoldable pub remove_ranges_at : ℕ → ℕ → ℕ → Bytes → S → Outcome (Round S)
  unfolding find_cut
  remove_ranges_at zero j i res s =
      on_cut (find_cut j i res s) (λ s'. done (returned res s')) (λ s'. done (going res s'))
        (λ res' s'. no_fuel)
  remove_ranges_at (suc fuel) j i res s =
      on_cut (find_cut j i res s) (λ s'. done (returned res s')) (λ s'. done (going res s'))
        (λ res' s'. remove_ranges_at fuel (length res' - 1) i res' s')

  -- `for i := 0; i < len(res)-1; i++`
  unfoldable pub remove_ranges : ℕ → ℕ → Bytes → S → Outcome (Round S)
  unfolding remove_ranges_at
  remove_ranges zero i res s = if ltb i (length res - 1) then no_fuel else done (going res s)
  remove_ranges (suc fuel) i res s =
      if ltb i (length res - 1)
      then then_run (remove_ranges_at (length res) (length res) i res s)
          (λ res' s'. remove_ranges fuel (i + 1) res' s')
      else done (going res s)

  -- Each byte is replaced by '0' where the predicate allows it.
  unfoldable pub canonicalize : ℕ → ℕ → Bytes → S → Outcome (Round S)
  unfolding test
  canonicalize zero i res s = if ltb i (length res) then no_fuel else done (going res s)
  canonicalize (suc fuel) i res s =
      let skipped = canonicalize fuel (i + 1) res s in
      let candidate = set res i b'0' in
      if ltb i (length res)
      then if get_or res i 0 == b'0'
        then skipped
        else on_answer (test candidate s) (done (returned res s))
            (λ s'. canonicalize fuel (i + 1) candidate s') (λ s'. canonicalize fuel (i + 1) res s')
      else done (going res s)

  unfoldable pub minimize_input : Bytes → Bool → S → Outcome (Round S)
  unfolding cut_tails remove_bytes remove_ranges canonicalize
  minimize_input content canonical s =
      then_run
        (then_run
          (then_run (cut_tails tail_sizes content s) (λ res. remove_bytes (length res) 0 res))
          (λ res. remove_ranges (length res) 0 res))
        (λ res s'. if canonical then canonicalize (length res) 0 res s' else done (going res s'))
