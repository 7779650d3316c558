-- ===== src/Versifier/Rhymes/Blocks.antt =====
-- `Generate` of the nodes that have blocks. `generate` is the call for the nodes below.
use go_fuzz.Base.{
  ℕ, zero, suc, ◌+◌, ◌-◌, Bool, true, false, not, none, some, List, [], ◌∷◌, ◌++◌, length, take,
  drop, copy, set, no_fuel, ◌==◌, if◌then◌else◌, u8,
}
use go_fuzz.Bytes.{Bytes}
use go_fuzz.Mutator.Draw.{Draw, pure, lift, ◌>>=◌, rand}
use go_fuzz.Versifier.{Node, Nodes, Blocks, no_blocks, add_block, block, to_list, Dict, alpha_num}
use go_fuzz.Mutator.Text.{nth}
use go_fuzz.Versifier.Structure.{closing}
use go_fuzz.Versifier.Rhymes.Leaves.{choose_from}

-- The copy goes over the front of the slice, and the last node is cut off.
unfoldable pub remove_at : ℕ → List Node → List Node
remove_at idx nodes =
    take (length nodes - 1) (copy (take idx nodes) (drop (idx + 1) nodes) ++ drop idx nodes)

-- The node at `idx` twice.
unfoldable pub double_at : ℕ → List Node → List Node
double_at idx nodes = take (idx + 1) nodes ++ drop idx nodes

unfoldable pub swap_at : ℕ → ℕ → Node → Node → List Node → List Node
swap_at idx1 idx2 n1 n2 nodes = set (set nodes idx1 n2) idx2 n1

abbrev pub bracket_runes : List ℕ
bracket_runes = b'<' ∷ b'[' ∷ b'(' ∷ b'{' ∷ 0x27 ∷ 0x22 ∷ 0x60 ∷ []

-- `byte(brackets[opener])`; a rune that is not in the map gives 0.
abbrev pub closing_byte : ℕ → ℕ
closing_byte opener = elim (closing opener) [ none ↦ 0 | some c ↦ u8 c ]

abbrev pub block_list : Blocks → List Nodes
block_list no_blocks = []
block_list (add_block b bs) = b ∷ block_list bs

module _ (fuel : ℕ) where
  -- `for len(nodes) > 0 && v.Rand(2) == 0`, with what a round makes of the nodes.
  unfoldable pub while_drawn : (List Node → Draw (List Node)) → ℕ → List Node → Draw (List Node)
  unfolding rand
  while_drawn round zero nodes = lift no_fuel
  while_drawn round (suc tries) nodes =
      if length nodes == 0
      then pure nodes
      else (rand fuel 2 >>= λ k.
          if not (k == 0) then pure nodes else (round nodes >>= while_drawn round tries))

  unfoldable pub remove_one : List Node → Draw (List Node)
  unfolding remove_at
  remove_one nodes = do idx ← rand fuel (length nodes); pure (remove_at idx nodes)

  unfoldable pub double_one : List Node → Draw (List Node)
  unfolding double_at
  double_one nodes = do idx ← rand fuel (length nodes); pure (double_at idx nodes)

  unfoldable pub swap_two : List Node → Draw (List Node)
  unfolding swap_at
  swap_two nodes = do
    idx1 ← rand fuel (length nodes)
    idx2 ← rand fuel (length nodes)
    n1 ← lift (nth nodes idx1)
    n2 ← lift (nth nodes idx2)
    pure (swap_at idx1 idx2 n1 n2 nodes)

  -- One time out of ten.
  unfoldable pub rarely : (List Node → Draw (List Node)) → List Node → Draw (List Node)
  unfolding while_drawn
  rarely round nodes =
      rand fuel 10 >>= λ k. if k == 0 then while_drawn round fuel nodes else pure nodes

  unfoldable pub shuffle : List Node → Draw (List Node)
  unfolding rarely remove_one double_one swap_two
  shuffle nodes = do
    fewer ← rarely remove_one nodes
    more ← rarely double_one fewer
    rarely swap_two more

  module _ (all_nodes : List Node) (generate : Node → Draw Bytes) where
    unfoldable pub write_nodes : List Node → Draw Bytes
    unfolding choose_from
    write_nodes [] = pure []
    write_nodes (n ∷ nodes) = rand fuel 20 >>= λ skip. if skip == 0 then write_nodes nodes else do
      other ← rand fuel 20
      n' ← (if other == 0 then choose_from fuel all_nodes else pure n)
      out ← generate n'
      rest ← write_nodes nodes
      pure (out ++ rest)

    unfoldable pub generate_block : Nodes → Draw Bytes
    unfolding shuffle write_nodes
    generate_block b = shuffle (to_list b) >>= write_nodes

    unfoldable pub generate_bracket : ℕ → ℕ → Nodes → Draw Bytes
    unfolding choose_from
    generate_bracket opener clos b = rand fuel 10 >>= λ k.
        if not (k == 0)
        then (generate (block b) >>= λ out. pure (u8 opener ∷ (out ++ u8 clos ∷ [])))
        else do
          opener' ← choose_from fuel bracket_runes
          other ← rand fuel 5
          from ← (if other == 0 then choose_from fuel bracket_runes else pure opener')
          out ← generate (block b)
          pure (opener' ∷ (out ++ closing_byte from ∷ []))

    unfoldable pub generate_key_val : Dict → Dict → Draw Bytes
    unfolding choose_from
    generate_key_val key value = do
      delim ← choose_from fuel (b'=' ∷ b':' ∷ [])
      front ← generate (alpha_num key)
      back ← generate (alpha_num value)
      pure (front ++ delim ∷ back)

    -- `for v.Rand(3) != 0`
    unfoldable pub choose_blocks : ℕ → List Nodes → Draw (List Nodes)
    unfolding choose_from
    choose_blocks zero blocks = lift no_fuel
    choose_blocks (suc tries) blocks = rand fuel 3 >>= λ k.
        if k == 0
        then pure []
        else do b ← choose_from fuel blocks; more ← choose_blocks tries blocks; pure (b ∷ more)

    -- The blocks with a delimiter before each but the first.
    unfoldable pub write_blocks : ℕ → Bool → List Nodes → Draw Bytes
    write_blocks delim first [] = pure []
    write_blocks delim first (b ∷ blocks) = do
      out ← generate (block b)
      rest ← write_blocks delim false blocks
      pure ((if first then [] else u8 delim ∷ []) ++ out ++ rest)

    unfoldable pub generate_list : ℕ → Blocks → Draw Bytes
    unfolding choose_blocks write_blocks
    generate_list delim bs = do
      k ← rand fuel 5
      blocks ← (if k == 0 then choose_blocks fuel (block_list bs) else pure (block_list bs))
      write_blocks delim true blocks

    unfoldable pub generate_line : Bool → Nodes → Draw Bytes
    generate_line r b = do
      out ← generate (block b)
      pure (out ++ (if r then 13 ∷ 10 ∷ [] else 10 ∷ []))
