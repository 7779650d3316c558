-- ===== src/Versifier/Rhymes/Shuffles.antt =====
-- Panics where `Generate` of a block of go-fuzz/versifier/versifier.go removes, doubles and swaps nodes.
use go_fuzz.Base.{
  ℕ, zero, suc, ◌+◌, ◌-◌, ◌^◌, ◌<◌, not, List, ◌++◌, length, length-append, length-take,
  length-drop, length-set, take, drop, copy, set, All, All-append, All-take, All-drop, All-copy,
  All-set, no_fuel, ◌==◌, arith,
}
use go_fuzz.Mutator.Draw.{Draw, rand, IsSafe, pure-IsSafe, lift-IsSafe, if-IsSafe}
use go_fuzz.Mutator.Safety.{chain, nth-Safe}
use go_fuzz.Mutator.Text.{nth}
use go_fuzz.Versifier.{
  Node, Nodes, Blocks, nil, cons, no_blocks, add_block, ws, alpha_num, num, control, bracket,
  key_val, list, line, block, to_list,
}
use go_fuzz.Versifier.Rhymes.Blocks.{
  remove_at, double_at, swap_at, while_drawn, remove_one, double_one, swap_two, rarely, shuffle,
  block_list,
}
use go_fuzz.Versifier.Rhymes.Safety.{IsChoice, below}

module _ (fuel : ℕ) where
  -- A slice of nodes has room for the ones that are doubled.
  abbrev pub HasRoom : ℕ → Type 0
  HasRoom n = n + fuel < 2 ^ 32

  -- The sizes of all that an index is drawn for.
  unfoldable mutual
    pub Fits : Node → Type 0
    Fits (ws d) = IsChoice (length d)
    Fits (alpha_num d) = IsChoice (length d)
    Fits (num d hex) = IsChoice (length d)
    Fits (control ch) = Unit
    Fits (bracket o c b) = HasRoom (length (to_list b)) × FitsNodes b
    Fits (key_val delim key value) = IsChoice (length key) × IsChoice (length value)
    Fits (list delim bs) = IsChoice (length (block_list bs)) × FitsBlocks bs
    Fits (line r b) = HasRoom (length (to_list b)) × FitsNodes b
    Fits (block b) = HasRoom (length (to_list b)) × FitsNodes b

    pub FitsNodes : Nodes → Type 0
    FitsNodes nil = Unit
    FitsNodes (cons n ns) = Fits n × FitsNodes ns

    pub FitsBlocks : Blocks → Type 0
    FitsBlocks no_blocks = Unit
    FitsBlocks (add_block b bs) = (HasRoom (length (to_list b)) × FitsNodes b) × FitsBlocks bs

  pub to_list-Fits : (ns : Nodes) → FitsNodes ns → All Fits (to_list ns)
  unfolding Fits
  to_list-Fits nil h = tt
  to_list-Fits (cons n ns) h = (h.0, to_list-Fits ns h.1)

  -- Nodes of which an index can be drawn, with room for `k` more.
  abbrev pub Roomy : ℕ → List Node → Type 0
  Roomy k nodes = All Fits nodes × (length nodes + k < 2 ^ 32)

  module _ (R : ℕ → List Node → Type 0) (weaken : (t : ℕ) (ns : List Node) → R t ns → R 0 ns)
      (round : List Node → Draw (List Node))
      (step : (t : ℕ) (ns : List Node)
        → 0 < length ns
        → R (suc t) ns
        → IsSafe (R t) (round ns)) where
    while_drawn-IsSafe :
        (tries : ℕ) (nodes : List Node)
        → R tries nodes
        → IsSafe (R 0) (while_drawn fuel round tries nodes)
    unfolding while_drawn
    while_drawn-IsSafe zero nodes r = lift-IsSafe _ no_fuel tt
    while_drawn-IsSafe (suc tries) nodes r =
        if-IsSafe _ (length nodes == 0) _ _ (λ e. pure-IsSafe _ nodes (weaken (suc tries) nodes r))
          λ e. chain (below fuel 2 (omega arith, omega arith)) λ k lt.
            if-IsSafe _ (not (k == 0)) _ _ (λ e'. pure-IsSafe _ nodes (weaken (suc tries) nodes r))
              λ e'.
                chain (step tries nodes (ground (arith, e)) r)
                  λ ns r'. while_drawn-IsSafe tries ns r'

    rarely-IsSafe : (nodes : List Node) → R fuel nodes → IsSafe (R 0) (rarely fuel round nodes)
    unfolding rarely
    rarely-IsSafe nodes r = chain (below fuel 10 (omega arith, omega arith)) λ k lt.
        if-IsSafe _ (k == 0) _ _ (λ e. while_drawn-IsSafe fuel nodes r)
          λ e. pure-IsSafe _ nodes (weaken fuel nodes r)

  remove_at-Roomy : (k idx : ℕ) (nodes : List Node) → Roomy k nodes → Roomy k (remove_at idx nodes)
  unfolding remove_at
  remove_at-Roomy k idx nodes r =
      let moved = copy (take idx nodes) (drop (idx + 1) nodes) ++ drop idx nodes in
      (
        All-take Fits (length nodes - 1) moved (
            All-append Fits (copy (take idx nodes) (drop (idx + 1) nodes)) (drop idx nodes)
              (All-copy Fits (take idx nodes) (drop (idx + 1) nodes) (All-take Fits idx nodes r.0)
                (All-drop Fits (idx + 1) nodes r.0))
              (All-drop Fits idx nodes r.0)),
        omega (arith, length-take (length nodes - 1) moved, r.1),
      )

  double_at-Roomy :
      (k idx : ℕ) (nodes : List Node)
      → idx < length nodes
      → Roomy (suc k) nodes
      → Roomy k (double_at idx nodes)
  unfolding double_at
  double_at-Roomy k idx nodes lt r = (
    All-append Fits (take (idx + 1) nodes) (drop idx nodes) (All-take Fits (idx + 1) nodes r.0)
        (All-drop Fits idx nodes r.0),
    omega (
      arith,
      length-append (take (idx + 1) nodes) (drop idx nodes),
      length-take (idx + 1) nodes,
      length-drop idx nodes,
      r.1,
    ),
  )

  index_of :
      (k : ℕ) (nodes : List Node)
      → 0 < length nodes
      → Roomy k nodes
      → IsSafe (λ i. i < length nodes) (rand fuel (length nodes))
  index_of k nodes pos r = below fuel (length nodes) (pos, omega (arith, r.1))

  pub shuffle-IsSafe :
      (nodes : List Node) → Roomy fuel nodes → IsSafe (Roomy 0) (shuffle fuel nodes)
  unfolding shuffle remove_one double_one swap_two swap_at
  shuffle-IsSafe nodes r =
      chain
        (rarely-IsSafe (λ t. Roomy fuel) (λ t ns k. k) (remove_one fuel)
          (λ t ns pos k.
            chain (index_of fuel ns pos k)
              λ idx lt. pure-IsSafe _ _ (remove_at-Roomy fuel idx ns k))
          nodes r)
        λ fewer k.
          chain
            (rarely-IsSafe Roomy (λ t ns k. (k.0, omega (arith, k.1))) (double_one fuel)
              (λ t ns pos k.
                chain (index_of (suc t) ns pos k)
                  λ idx lt. pure-IsSafe _ _ (double_at-Roomy t idx ns lt k))
              fewer k)
            λ more k'. rarely-IsSafe (λ t. Roomy 0) (λ t ns k. k) (swap_two fuel) swapped more k'
    where
      swapped :
          (t : ℕ) (ns : List Node)
          → 0 < length ns
          → Roomy 0 ns
          → IsSafe (Roomy 0) (swap_two fuel ns)
      swapped t ns pos k = chain (index_of 0 ns pos k) λ i lt. chain (index_of 0 ns pos k) λ j lt'.
          chain (lift-IsSafe Fits (nth ns i) (nth-Safe fuel Fits ns i k.0 lt)) λ n1 f1.
            chain (lift-IsSafe Fits (nth ns j) (nth-Safe fuel Fits ns j k.0 lt')) λ n2 f2.
              pure-IsSafe _ _ (
                All-set Fits (set ns i n2) j n1 (All-set Fits ns i n2 k.0 f2) f1,
                omega (arith, length-set (set ns i n2) j n1, length-set ns i n2, k.1),
              )
