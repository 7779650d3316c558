-- ===== src/Versifier/Rhymes.antt =====
-- `Generate` of the nodes of go-fuzz/versifier/versifier.go, and `Rhyme`. What is written is returned. The
-- delimiter that a pair of key and value stores is drawn anew before each use, so that the store is not
-- modelled. A node can be any of the verse's, so that the depth of the calls has no bound in the source.
pub mod Leaves
pub mod Blocks
pub mod Safety
pub mod Shuffles
pub mod Panics
use go_fuzz.Base.{ℕ, zero, suc, List, no_fuel}
use go_fuzz.Bytes.{Bytes}
use go_fuzz.Mutator.Draw.{Draw, lift, ◌>>=◌}
use go_fuzz.Versifier.{Node, ws, alpha_num, num, control, bracket, key_val, list, line, block}
use go_fuzz.Versifier.Verse.{Verse}
use go_fuzz.Versifier.Rhymes.Leaves.{
  choose_from, generate_ws, generate_alpha_num, generate_num, generate_control,
}
use go_fuzz.Versifier.Rhymes.Blocks.{
  generate_block, generate_bracket, generate_key_val, generate_list, generate_line,
}

module _ (fuel : ℕ) (all_nodes : List Node) where
  -- `generate` is the call for the nodes below.
  unfoldable pub generate_node : (Node → Draw Bytes) → Node → Draw Bytes
  unfolding generate_ws generate_alpha_num generate_num generate_control generate_bracket
      generate_key_val generate_list generate_line generate_block
  generate_node generate (ws d) = generate_ws fuel d
  generate_node generate (alpha_num d) = generate_alpha_num fuel d
  generate_node generate (num d hex) = generate_num fuel d
  generate_node generate (control ch) = generate_control fuel ch
  generate_node generate (bracket opener clos b) =
      generate_bracket fuel all_nodes generate opener clos b
  generate_node generate (key_val delim key value) =
      generate_key_val fuel all_nodes generate key value
  generate_node generate (list delim bs) = generate_list fuel all_nodes generate delim bs
  generate_node generate (line r b) = generate_line fuel all_nodes generate r b
  generate_node generate (block b) = generate_block fuel all_nodes generate b

  -- `Generate`, with calls of at most so many levels.
  unfoldable pub generate : ℕ → Node → Draw Bytes
  unfolding generate_node
  generate zero n = lift no_fuel
  generate (suc depth) n = generate_node (generate depth) n

unfoldable pub rhyme : ℕ → ℕ → Verse → Draw Bytes
unfolding choose_from generate
rhyme fuel depth v = do b ← choose_from fuel v.blocks; generate fuel v.all_nodes depth (block b)
