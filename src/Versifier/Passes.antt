-- ===== src/Versifier/Passes.antt =====
-- The loops `for i := 0; i < len(nn); i++` that rewrite the slice around the index. The nodes below
-- the index are given nearest first, so that `nn[i-1]` is their head and `nn[i+1]` that of the rest.
pub mod Keeps
use go_fuzz.Base.{ℕ, zero, suc, Bool, true, List, [], ◌∷◌, Outcome, done, no_fuel, ◌>>=◌}
use go_fuzz.Versifier.{Node, rejoin}

-- What a round makes of the slice: nothing, or the nodes below and from the next index on.
pub data Round : Type 0 where
  unchanged : Round
  rewritten : List Node → List Node → Round

-- After two nodes were taken away in front of the index, `i++` skips a node.
unfoldable pub skip_one : List Node → List Node → Round
skip_one before [] = rewritten before []
skip_one before (n ∷ rest) = rewritten (n ∷ before) rest

module _ (round : List Node → Node → List Node → Outcome Round) where
  -- The nodes after the pass, and whether a round changed them.
  unfoldable pub pass : ℕ → List Node → List Node → Bool → Outcome (List Node × Bool)
  pass zero before [] changed = done (rejoin before [], changed)
  pass (suc fuel) before [] changed = done (rejoin before [], changed)
  pass zero before (n ∷ rest) changed = no_fuel
  pass (suc fuel) before (n ∷ rest) changed = round before n rest >>= λ r. elim r [
    | unchanged ↦ pass fuel (n ∷ before) rest changed
    | rewritten before' rest' ↦ pass fuel before' rest' true
  ]
