-- ===== src/Versifier/Rhymes/Panics.antt =====
-- Panics in `Generate` of the nodes with blocks, and in `Rhyme`, of go-fuzz/versifier/versifier.go.
use go_fuzz.Base.{
  ℕ, zero, suc, Bool, true, false, not, List, [], ◌∷◌, length, All, no_fuel, ◌==◌, arith,
}
use go_fuzz.Bytes.{Bytes}
use go_fuzz.Mutator.Draw.{Draw, IsSafe, pure-IsSafe, lift-IsSafe, if-IsSafe}
use go_fuzz.Mutator.Safety.{chain}
use go_fuzz.Versifier.{
  Node, Nodes, Blocks, no_blocks, add_block, ws, alpha_num, num, control, bracket, key_val, list,
  line, block, to_list, Dict,
}
use go_fuzz.Versifier.Verse.{Verse}
use go_fuzz.Versifier.Rhymes.Leaves.{choose_from}
use go_fuzz.Versifier.Rhymes.Blocks.{
  bracket_runes, write_nodes, generate_block, generate_bracket, generate_key_val, block_list,
  choose_blocks, write_blocks, generate_list, generate_line,
}
use go_fuzz.Versifier.Rhymes.{generate_node, generate, rhyme}
use go_fuzz.Versifier.Rhymes.Safety.{
  Any, IsChoice, All-Any, below, choose_from-IsSafe, generate_ws-IsSafe, generate_alpha_num-IsSafe,
  generate_num-IsSafe, generate_control-IsSafe,
}
use go_fuzz.Versifier.Rhymes.Shuffles.{
  HasRoom, Fits, FitsNodes, FitsBlocks, to_list-Fits, shuffle-IsSafe,
}

module _ (fuel : ℕ) where
  abbrev pub FitsBlock : Nodes → Type 0
  FitsBlock b = HasRoom fuel (length (to_list b)) × FitsNodes fuel b

  block_list-Fits : (bs : Blocks) → FitsBlocks fuel bs → All FitsBlock (block_list bs)
  unfolding Fits
  block_list-Fits no_blocks h = tt
  block_list-Fits (add_block b bs) h = (h.0, block_list-Fits bs h.1)

  module _ (all_nodes : List Node) (all_fit : All (Fits fuel) all_nodes)
      (some : IsChoice (length all_nodes)) where
    module _ (gen : Node → Draw Bytes) (safe : (n : Node) → Fits fuel n → IsSafe Any (gen n)) where
      inner-IsSafe : (b : Nodes) → FitsBlock b → IsSafe Any (gen (block b))
      unfolding Fits
      inner-IsSafe b h = safe (block b) h

      write_nodes-IsSafe :
          (nodes : List Node)
          → All (Fits fuel) nodes
          → IsSafe Any (write_nodes fuel all_nodes gen nodes)
      unfolding write_nodes
      write_nodes-IsSafe [] h = pure-IsSafe _ _ tt
      write_nodes-IsSafe (n ∷ nodes) h = chain (below fuel 20 (omega arith, omega arith)) λ k lt.
          if-IsSafe _ (k == 0) _ _ (λ e. write_nodes-IsSafe nodes h.1)
            λ e. chain (below fuel 20 (omega arith, omega arith)) λ other lt'.
              chain
                (if-IsSafe (Fits fuel) (other == 0) _ _
                  (λ e. choose_from-IsSafe fuel (Fits fuel) all_nodes all_fit some)
                  (λ e. pure-IsSafe (Fits fuel) n h.0))
                λ n' f.
                  chain (safe n' f)
                    λ out u. chain (write_nodes-IsSafe nodes h.1) λ rest v. pure-IsSafe _ _ tt

      generate_block-IsSafe :
          (b : Nodes) → FitsBlock b → IsSafe Any (generate_block fuel all_nodes gen b)
      unfolding generate_block
      generate_block-IsSafe b h =
          chain (shuffle-IsSafe fuel (to_list b) (to_list-Fits fuel b h.1, h.0))
            λ nodes r. write_nodes-IsSafe nodes r.0

      bracket_rune-IsSafe : IsSafe Any (choose_from fuel bracket_runes)
      bracket_rune-IsSafe =
          choose_from-IsSafe fuel Any bracket_runes (All-Any bracket_runes)
            (omega arith, omega arith)

      generate_bracket-IsSafe :
          (o c : ℕ) (b : Nodes)
          → FitsBlock b
          → IsSafe Any (generate_bracket fuel all_nodes gen o c b)
      unfolding generate_bracket
      generate_bracket-IsSafe o c b h = chain (below fuel 10 (omega arith, omega arith)) λ k lt.
          if-IsSafe _ (not (k == 0)) _ _ (λ e. chain (inner-IsSafe b h) λ out u. pure-IsSafe _ _ tt)
            λ e. chain bracket_rune-IsSafe λ opener u.
              chain (below fuel 5 (omega arith, omega arith)) λ other lt'.
                chain
                  (if-IsSafe Any (other == 0) _ _ (λ e. bracket_rune-IsSafe)
                    (λ e. pure-IsSafe _ opener tt))
                  λ from v. chain (inner-IsSafe b h) λ out w. pure-IsSafe _ _ tt

      generate_key_val-IsSafe :
          (key value : Dict)
          → Fits fuel (alpha_num key)
          → Fits fuel (alpha_num value)
          → IsSafe Any (generate_key_val fuel all_nodes gen key value)
      unfolding generate_key_val
      generate_key_val-IsSafe key value h k =
          chain
            (choose_from-IsSafe fuel Any (b'=' ∷ b':' ∷ []) (tt, (tt, tt))
              (omega arith, omega arith))
            λ delim u.
              chain (safe (alpha_num key) h)
                λ front v. chain (safe (alpha_num value) k) λ back w. pure-IsSafe _ _ tt

      choose_blocks-IsSafe :
          (tries : ℕ) (blocks : List Nodes)
          → All FitsBlock blocks
          → IsChoice (length blocks)
          → IsSafe (All FitsBlock) (choose_blocks fuel all_nodes gen tries blocks)
      unfolding choose_blocks
      choose_blocks-IsSafe zero blocks h c = lift-IsSafe _ no_fuel tt
      choose_blocks-IsSafe (suc tries) blocks h c =
          chain (below fuel 3 (omega arith, omega arith)) λ k lt.
            if-IsSafe _ (k == 0) _ _ (λ e. pure-IsSafe _ [] tt)
              λ e. chain (choose_from-IsSafe fuel FitsBlock blocks h c) λ b f.
                chain (choose_blocks-IsSafe tries blocks h c)
                  λ more g. pure-IsSafe _ (b ∷ more) (f, g)

      write_blocks-IsSafe :
          (delim : ℕ) (first : Bool) (blocks : List Nodes)
          → All FitsBlock blocks
          → IsSafe Any (write_blocks fuel all_nodes gen delim first blocks)
      unfolding write_blocks
      write_blocks-IsSafe delim first [] h = pure-IsSafe _ _ tt
      write_blocks-IsSafe delim first (b ∷ blocks) h =
          chain (inner-IsSafe b h.0)
            λ out u. chain (write_blocks-IsSafe delim false blocks h.1) λ rest v. pure-IsSafe _ _ tt

      generate_list-IsSafe :
          (delim : ℕ) (bs : Blocks)
          → IsChoice (length (block_list bs))
          → FitsBlocks fuel bs
          → IsSafe Any (generate_list fuel all_nodes gen delim bs)
      unfolding generate_list
      generate_list-IsSafe delim bs c h = chain (below fuel 5 (omega arith, omega arith)) λ k lt.
          chain
            (if-IsSafe (All FitsBlock) (k == 0) _ _
              (λ e. choose_blocks-IsSafe fuel (block_list bs) (block_list-Fits bs h) c)
              (λ e. pure-IsSafe _ (block_list bs) (block_list-Fits bs h)))
            λ blocks f. write_blocks-IsSafe delim true blocks f

      generate_node-IsSafe :
          (n : Node) → Fits fuel n → IsSafe Any (generate_node fuel all_nodes gen n)
      unfolding generate_node Fits generate_line
      generate_node-IsSafe (ws d) h = generate_ws-IsSafe fuel d h
      generate_node-IsSafe (alpha_num d) h = generate_alpha_num-IsSafe fuel d h
      generate_node-IsSafe (num d hex) h = generate_num-IsSafe fuel d h
      generate_node-IsSafe (control ch) h = generate_control-IsSafe fuel ch
      generate_node-IsSafe (bracket o c b) h = generate_bracket-IsSafe o c b h
      generate_node-IsSafe (key_val delim key value) h = generate_key_val-IsSafe key value h.0 h.1
      generate_node-IsSafe (list delim bs) h = generate_list-IsSafe delim bs h.0 h.1
      generate_node-IsSafe (line r b) h = chain (inner-IsSafe b h) λ out u. pure-IsSafe _ _ tt
      generate_node-IsSafe (block b) h = generate_block-IsSafe b h

    generate-IsSafe :
        (depth : ℕ) (n : Node) → Fits fuel n → IsSafe Any (generate fuel all_nodes depth n)
    unfolding generate
    generate-IsSafe zero n h = lift-IsSafe _ no_fuel tt
    generate-IsSafe (suc depth) n h =
        generate_node-IsSafe (generate fuel all_nodes depth) (generate-IsSafe depth) n h

  -- A verse with at least one block and one node, whose dictionaries and lists are not empty and whose
  -- slices have fewer than 2 ^ 32 elements, those included that are doubled, is rhymed with no panic,
  -- whatever is drawn.
  pub rhyme-IsSafe :
      (depth : ℕ) (v : Verse)
      → IsChoice (length v.blocks)
      → All FitsBlock v.blocks
      → IsChoice (length v.all_nodes)
      → All (Fits fuel) v.all_nodes
      → IsSafe Any (rhyme fuel depth v)
  unfolding rhyme Fits
  rhyme-IsSafe depth v some blocks some' nodes =
      chain (choose_from-IsSafe fuel FitsBlock v.blocks blocks some)
        λ b f. generate-IsSafe v.all_nodes nodes some' depth (block b) f
