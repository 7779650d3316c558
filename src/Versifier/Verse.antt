-- ===== src/Versifier/Verse.antt =====
-- `structure`, the visit of a tree, and `BuildVerse`. The generator that a new verse gets is an
-- argument.
pub mod Builds
use go_fuzz.Base.{
  ℕ, suc, ◌+◌, ◌*◌, ◌/◌, Bool, ◌&&◌, Option, none, some, List, [], ◌∷◌, ◌++◌, length, Outcome, done,
  ◌>>=◌, ltb, leb, if◌then◌else◌,
}
use go_fuzz.Bytes.{Bytes}
use go_fuzz.Pcg.{Rand}
use go_fuzz.Versifier.{
  Node, Nodes, Blocks, nil, cons, no_blocks, add_block, alpha_num, bracket, key_val, list, line,
  block, of_list,
}
use go_fuzz.Versifier.Tokens.{tokenize}
use go_fuzz.Versifier.Numbers.{extract_numbers}
use go_fuzz.Versifier.Structure.{structure_brackets, structure_key_value, structure_lines}
use go_fuzz.Versifier.Lists.{structure_lists}

unfoldable pub structure : List Node → Outcome (List Node)
structure nn = do
  numbers ← extract_numbers nn
  brackets ← structure_brackets numbers
  pairs ← structure_key_value brackets
  lists ← structure_lists pairs
  done (structure_lines lists)

-- The nodes that `Visit` hands to its argument, in order.
unfoldable mutual
  pub visit : Node → List Node
  visit (bracket o c b) = bracket o c b ∷ block b ∷ visit_nodes b
  visit (key_val delim key value) = key_val delim key value ∷ alpha_num key ∷ alpha_num value ∷ []
  visit (list delim bs) = list delim bs ∷ visit_blocks bs
  visit (line r b) = line r b ∷ block b ∷ visit_nodes b
  visit (block b) = block b ∷ visit_nodes b
  visit n = n ∷ []

  pub visit_nodes : Nodes → List Node
  visit_nodes nil = []
  visit_nodes (cons n ns) = visit n ++ visit_nodes ns

  pub visit_blocks : Blocks → List Node
  visit_blocks no_blocks = []
  visit_blocks (add_block b bs) = (block b ∷ visit_nodes b) ++ visit_blocks bs

pub record Verse : Type 0 where
  pub blocks : List Nodes
  pub all_nodes : List Node
  pub r : Rand

unfoldable pub count_printable : Bytes → ℕ
count_printable [] = 0
count_printable (b ∷ content) =
    let n = count_printable content in if leb 0x20 b && ltb b 0x7f then suc n else n

abbrev pub old_blocks : Option Verse → List Nodes
old_blocks none = []
old_blocks (some v) = v.blocks

abbrev pub old_nodes : Option Verse → List Node
old_nodes none = []
old_nodes (some v) = v.all_nodes

-- The old verse where the input is not texty.
unfoldable pub build_verse : Rand → Option Verse → Bytes → Outcome (Option Verse)
unfolding structure count_printable visit
build_verse r old content =
    if ltb (count_printable content) (length content * 9 / 10) then done old else do
      tokens ← tokenize content
      nn ← structure tokens
      done (
          some (record {
            blocks = old_blocks old ++ of_list nn ∷ [];
            all_nodes = old_nodes old ++ visit (block (of_list nn));
            r = r;
          }))
