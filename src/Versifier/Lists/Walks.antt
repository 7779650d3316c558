-- ===== src/Versifier/Lists/Walks.antt =====
-- The walks of `structureLists` over the nodes on a side: they only pass nodes, and they end.

use native.Mathlib.Nat.{le_refl}
use go_fuzz.Base.{
  ℕ, zero, suc, ◌+◌, ◌≤◌, ◌<◌, ◌≡◌, refl, Bool, true, false, not, ◌&&◌, ◌||◌, List, [], ◌∷◌, ◌++◌,
  length, Returns, Bool-cases, inl, inr, arith, ◌==◌, if◌then◌else◌,
}
use go_fuzz.Versifier.{Node, control}
use go_fuzz.Versifier.Lists.{
  Runes, Side, note_node, side_round, spread, same_runes, is_known, is_delim, pass_known,
  pass_element, finish_side,
}

-- Whatever a side's walk keeps when it passes a node, all of it keeps.
module _ (P : List Node → List Node → Type 0)
    (move : (passed : List Node) (n : Node) (ahead : List Node)
      → P passed (n ∷ ahead)
      → P (n ∷ passed) ahead) where
  note_node-keeps :
      (ch : ℕ) (ahead : List Node) (e : Side)
      → e.ahead ≡ ahead
      → P e.passed ahead
      → (let e' = note_node ch ahead e in P e'.passed e'.ahead)
  unfolding note_node
  note_node-keeps ch [] e q h = rw q h
  note_node-keeps ch (control c ∷ ahead) e q h = elim (Bool-cases (c == ch)) [
    | inl d ↦ rw (d, q) h
    | inr d ↦ rw d (move e.passed (control c) ahead h)
  ]
  note_node-keeps ch (n ∷ ahead) e q h = move e.passed n ahead h

  side_round-keeps :
      (ch : ℕ) (e : Side) → P e.passed e.ahead → (let e' = side_round ch e in P e'.passed e'.ahead)
  unfolding side_round
  side_round-keeps ch e h = picked e.is_done
    where
      picked :
          (b : Bool) → (let e' = if b then e else note_node ch e.ahead e in P e'.passed e'.ahead)
      picked true = h
      picked false = note_node-keeps ch e.ahead e refl h

  pass_known-keeps :
      (tok : Runes) (passed ahead : List Node)
      → P passed ahead
      → (let r = pass_known tok passed ahead in P r.0 r.1)
  unfolding pass_known
  pass_known-keeps tok passed [] h = h
  pass_known-keeps tok passed (n ∷ ahead) h = elim (Bool-cases (is_known tok n)) [
    | inl e ↦ rw e (pass_known-keeps tok (n ∷ passed) ahead (move passed n ahead h))
    | inr e ↦ rw e h
  ]

  pub pass_element-keeps :
      (ch : ℕ) (tok : Runes) (passed ahead : List Node)
      → P passed ahead
      → (let r = pass_element ch tok passed ahead in P r.0 r.1)
  unfolding pass_element
  pass_element-keeps ch tok passed [] h = h
  pass_element-keeps ch tok passed (n ∷ ahead) h =
      elim (Bool-cases (not (is_delim ch n) && is_known tok n)) [
        | inl e ↦ rw e (pass_element-keeps ch tok (n ∷ passed) ahead (move passed n ahead h))
        | inr e ↦ rw e h
      ]

  pub finish_side-keeps :
      (ch : ℕ) (tok : Runes) (e : Side)
      → P e.passed e.ahead
      → (let r = finish_side ch tok e in P r.0 r.1)
  unfolding finish_side
  finish_side-keeps ch tok e h =
      let known = pass_known-keeps tok e.passed e.ahead h in
      elim (Bool-cases e.is_done) [
        | inl d ↦ rw d known
        | inr d ↦ rw d (pass_element-keeps ch tok _ _ known)
      ]

-- A side that is not done has gone over a node.
abbrev Advanced : List Node → Side → Type 0
Advanced ahead e =
    (length e.ahead ≤ length ahead) × (e.is_done ≡ false → length e.ahead < length ahead)

note_node-Advanced :
    (ch : ℕ) (ahead : List Node) (e : Side)
    → e.ahead ≡ ahead
    → Advanced ahead (note_node ch ahead e)
unfolding note_node
note_node-Advanced ch [] e q = (rw q (le_refl _), λ d. absurd (cc))
note_node-Advanced ch (control c ∷ ahead) e q = elim (Bool-cases (c == ch)) [
  | inl d ↦ rw (d, q) (le_refl _, λ f. absurd (cc))
  | inr d ↦ rw d (omega arith, λ f. omega arith)
]
note_node-Advanced ch (n ∷ ahead) e q = (omega arith, λ d. omega arith)

side_round-Advanced : (ch : ℕ) (e : Side) → Advanced e.ahead (side_round ch e)
unfolding side_round
side_round-Advanced ch e = picked e.is_done refl
  where
    picked : (b : Bool) → e.is_done ≡ b → Advanced e.ahead (if b then e else note_node ch e.ahead e)
    picked true d = (le_refl _, λ f. absurd (cc))
    picked false d = note_node-Advanced ch e.ahead e refl

-- A round that does not end the loop has shortened what lies ahead.
more_spread :
    (a b u : Bool) {x x' y y' : ℕ}
    → (a && b || u) ≡ false
    → (x' ≤ x) × (a ≡ false → x' < x)
    → (y' ≤ y) × (b ≡ false → y' < y)
    → x' + y' < x + y
more_spread true true u e h k = absurd (cc)
more_spread true false u e h k = let lt = k.1 refl in omega arith
more_spread false b u e h k = let lt = h.1 refl in omega arith

module _ (P Q : List Node → List Node → Type 0)
    (move_left : (passed : List Node) (n : Node) (ahead : List Node)
      → P passed (n ∷ ahead)
      → P (n ∷ passed) ahead)
    (move_right : (passed : List Node) (n : Node) (ahead : List Node)
      → Q passed (n ∷ ahead)
      → Q (n ∷ passed) ahead) where
  pub spread-keeps :
      (fuel ch : ℕ) (l r : Side)
      → length l.ahead + length r.ahead < fuel
      → P l.passed l.ahead
      → Q r.passed r.ahead
      → Returns (λ s. P s.0.passed s.0.ahead × Q s.1.passed s.1.ahead) (spread fuel ch l r)
  unfolding spread
  spread-keeps zero ch l r lt p q = absurd (omega arith)
  spread-keeps (suc fuel) ch l r lt p q =
      let l' = side_round ch l in
      let r' = side_round ch r in
      let union = l'.tok ++ r'.tok in
      let p' = side_round-keeps P move_left ch l p in
      let q' = side_round-keeps Q move_right ch r q in
      elim (Bool-cases
        (l'.is_done && r'.is_done || (same_runes l'.tok union || same_runes r'.tok union))) [
          | inl e ↦ rw e (p', q')
          | inr e ↦ rw e (
              spread-keeps fuel ch l' r'
                (omega (
                  arith,
                  more_spread l'.is_done r'.is_done
                      (same_runes l'.tok union || same_runes r'.tok union) e
                      (side_round-Advanced ch l) (side_round-Advanced ch r),
                ))
                p' q')
        ]
