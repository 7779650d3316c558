-- ===== src/Versifier/Passes/Keeps.antt =====
-- What every round of a pass keeps, the pass keeps; the fuel of a pass is the number of nodes.
use go_fuzz.Base.{
  ℕ, zero, suc, ◌≤◌, ◌<◌, Bool, true, false, List, [], ◌∷◌, length, Outcome, Returns, Returns-bind,
  arith,
}
use go_fuzz.Versifier.{Node, rejoin}
use go_fuzz.Versifier.Passes.{Round, unchanged, rewritten, pass}

-- A round keeps `P` of the whole slice and makes its weight smaller where it changes it.
abbrev pub Kept :
    (List Node → Type 0) → (List Node → ℕ) → List Node → Node → List Node → Round → Type 0
Kept P weight before n rest unchanged = Unit
Kept P weight before n rest (rewritten before' rest') =
    (length rest' ≤ length rest)
    × P (rejoin before' rest')
    × (weight (rejoin before' rest') < weight (rejoin before (n ∷ rest)))

-- The weight after a pass: smaller if a round changed something.
abbrev pub Lighter : ℕ → ℕ → Bool → Type 0
Lighter w w' true = w' < w
Lighter w w' false = w' ≤ w

Lighter-le : (w w' : ℕ) (b : Bool) → Lighter w w' b → w' ≤ w
Lighter-le w w' true h = omega arith
Lighter-le w w' false h = h

module _ (P : List Node → Type 0) (weight : List Node → ℕ)
    (round : List Node → Node → List Node → Outcome Round)
    (keeps : (before : List Node) (n : Node) (rest : List Node)
      → P (rejoin before (n ∷ rest))
      → Returns (Kept P weight before n rest) (round before n rest)) where
  abbrev pub After : ℕ → List Node × Bool → Type 0
  After w (nn, changed) = P nn × Lighter w (weight nn) changed

  pub pass-After :
      (fuel : ℕ) (before rest : List Node) (changed : Bool) (w : ℕ)
      → length rest ≤ fuel
      → P (rejoin before rest)
      → Lighter w (weight (rejoin before rest)) changed
      → Returns (After w) (pass round fuel before rest changed)
  unfolding pass
  pass-After zero before [] changed w le p h = (p, h)
  pass-After (suc fuel) before [] changed w le p h = (p, h)
  pass-After zero before (n ∷ rest) changed w le p h = absurd (omega arith)
  pass-After (suc fuel) before (n ∷ rest) changed w le p h =
      Returns-bind (Kept P weight before n rest) (After w) (round before n rest) _
        (keeps before n rest p)
        λ r.
          elim r
            as (λ r.
              Kept P weight before n rest r
              → Returns (After w) (elim r [
                | unchanged ↦ pass round fuel (n ∷ before) rest changed
                | rewritten before' rest' ↦ pass round fuel before' rest' true
              ])) [
                | unchanged ↦ λ k. pass-After fuel (n ∷ before) rest changed w (omega arith) p h
                | rewritten before' rest' ↦ λ k.
                    pass-After fuel before' rest' true w (omega arith) k.1
                      (omega (arith, Lighter-le w (weight (rejoin before (n ∷ rest))) changed h))
              ]
