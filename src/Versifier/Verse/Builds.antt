-- ===== src/Versifier/Verse/Builds.antt =====
-- `BuildVerse` returns for every input; the nodes of an ASCII input hold its text.

use go_fuzz.Base.{
  ◌*◌, ◌/◌, ◌≤◌, ◌<◌, ◌≡◌, refl, ◌∙◌, Option, none, some, List, [], ◌∷◌, ◌++◌, length, Outcome,
  done, panic, no_fuel, Returns, Returns-bind, Bool-cases, inl, inr, arith, All, All-append, ltb,
  length-append, le→ltb_false,
}
use go_fuzz.Bytes.{Bytes}
use go_fuzz.Pcg.{Rand}
use go_fuzz.Versifier.{
  Node, Nodes, Blocks, nil, cons, no_blocks, add_block, bracket, key_val, list, line, block, text,
  nodes_text, of_list, nodes_text-of_list,
}
use go_fuzz.Versifier.Tokens.{tokenize}
use go_fuzz.Versifier.Tokens.Ends.{tokenize-Sound}
use go_fuzz.Versifier.Tokens.Trims.{trim_blanks}
use go_fuzz.Versifier.Tokens.Kept.{tokenize-trim_blanks}
use go_fuzz.Versifier.Sound.{Sound, SoundNodes, SoundBlocks, Holds, of_list-Sound}
use go_fuzz.Versifier.Numbers.{extract_numbers}
use go_fuzz.Versifier.Numbers.Extracts.{extract_numbers-Holds}
use go_fuzz.Versifier.Structure.{structure_brackets, structure_key_value}
use go_fuzz.Versifier.Structure.Brackets.{structure_brackets-Holds}
use go_fuzz.Versifier.Structure.KeyValues.{structure_key_value-Holds}
use go_fuzz.Versifier.Structure.Lines.{structure_lines-Holds}
use go_fuzz.Versifier.Lists.{structure_lists}
use go_fuzz.Versifier.Lists.Joins.{structure_lists-Holds}
use go_fuzz.Versifier.Verse.{
  Verse, structure, visit, visit_nodes, visit_blocks, count_printable, old_blocks, old_nodes,
  build_verse,
}

-- The passes end, do not panic, keep every node well-formed and keep the text that the nodes write.
pub structure-Holds : (nn : List Node) → All Sound nn → Returns (Holds (text nn)) (structure nn)
unfolding structure
structure-Holds nn h =
    let H = Holds (text nn) in
    Returns-bind H H (extract_numbers nn) _
      (extract_numbers-Holds (text nn) nn (record { writes = refl; sound = h }))
      λ a ha.
        Returns-bind H H (structure_brackets a) _ (structure_brackets-Holds (text nn) a ha) λ b hb.
          Returns-bind H H (structure_key_value b) _ (structure_key_value-Holds (text nn) b hb)
            λ c hc.
              Returns-bind H H (structure_lists c) _ (structure_lists-Holds (text nn) c hc)
                λ d hd. structure_lines-Holds (text nn) d hd

mutual
  unfolding visit Sound

  visit-Sound : (n : Node) → Sound n → All Sound (visit n)
  visit-Sound (bracket o c b) h = (h, (h, visit_nodes-Sound b h))
  visit-Sound (key_val delim key value) h = (h, (h.0, (h.1, tt)))
  visit-Sound (list delim bs) h = (h, visit_blocks-Sound bs h.1)
  visit-Sound (line r b) h = (h, (h, visit_nodes-Sound b h))
  visit-Sound (block b) h = (h, visit_nodes-Sound b h)
  visit-Sound n h = (h, tt)

  visit_nodes-Sound : (ns : Nodes) → SoundNodes ns → All Sound (visit_nodes ns)
  visit_nodes-Sound nil h = tt
  visit_nodes-Sound (cons n ns) h =
      All-append Sound (visit n) (visit_nodes ns) (visit-Sound n h.0) (visit_nodes-Sound ns h.1)

  visit_blocks-Sound : (bs : Blocks) → SoundBlocks bs → All Sound (visit_blocks bs)
  visit_blocks-Sound no_blocks h = tt
  visit_blocks-Sound (add_block b bs) h =
      All-append Sound (block b ∷ visit_nodes b) (visit_blocks bs) (h.0, visit_nodes-Sound b h.0)
        (visit_blocks-Sound bs h.1)

-- A verse that `Generate` can use: it has a block, and its nodes are well-formed, as are all that
-- a random choice may put in their place.
pub record IsSound (v : Verse) : Type 0 where
  pub some_block : 0 < length v.blocks
  pub blocks : All SoundNodes v.blocks
  pub nodes : All Sound v.all_nodes

abbrev pub IsSoundVerse : Option Verse → Type 0
IsSoundVerse none = Unit
IsSoundVerse (some v) = IsSound v

-- The verse that a new block gives, beside the blocks and the nodes of an old one.
abbrev extended : Rand → Option Verse → List Node → Verse
extended r old nn = record {
  blocks = old_blocks old ++ of_list nn ∷ [];
  all_nodes = old_nodes old ++ visit (block (of_list nn));
  r = r;
}

extended-IsSound :
    (r : Rand) (old : Option Verse) (nn : List Node)
    → IsSoundVerse old
    → All Sound nn
    → IsSound (extended r old nn)
extended-IsSound r old nn h k = record {
  some_block = omega (arith, length-append (old_blocks old) (of_list nn ∷ []));
  blocks = All-append SoundNodes (old_blocks old) _ (olds old h) (of_list-Sound nn k, tt);
  nodes =
      All-append Sound (old_nodes old) _ (old_sound old h)
        (visit-Sound (block (of_list nn)) (unfold Sound in of_list-Sound nn k));
}
  where
    olds : (o : Option Verse) → IsSoundVerse o → All SoundNodes (old_blocks o)
    olds none h = tt
    olds (some v) h = h.blocks

    old_sound : (o : Option Verse) → IsSoundVerse o → All Sound (old_nodes o)
    old_sound none h = tt
    old_sound (some v) h = h.nodes

module _ (r : Rand) (old : Option Verse) (content : Bytes) where
  -- Every input gives a verse or keeps the old one, with no panic; the new verse is well-formed.
  pub build_verse-IsSound : IsSoundVerse old → Returns IsSoundVerse (build_verse r old content)
  unfolding build_verse
  build_verse-IsSound h =
      elim (Bool-cases (ltb (count_printable content) (length content * 9 / 10))) [
        | inl e ↦ rw e h
        | inr e ↦ rw e (
            Returns-bind (All Sound) IsSoundVerse (tokenize content) _ (tokenize-Sound content)
              λ tokens k.
                Returns-bind (Holds (text tokens)) IsSoundVerse (structure tokens) _
                  (structure-Holds tokens k) λ nn k'. extended-IsSound r old nn h k'.sound)
      ]

  -- The new verse has the old blocks and one more.
  abbrev pub Extends : Option Verse → Type 0
  Extends v =
      (nn : List Node) × (v ≡ some (extended r old nn))
      × (nodes_text (of_list nn) ≡ trim_blanks content)

  -- An ASCII input of which at least nine tenths are printable adds one block, which writes the input
  -- without the blanks at its end.
  pub build_verse-Extends :
      All (λ b. b < 128) content
      → length content * 9 / 10 ≤ count_printable content
      → Returns Extends (build_verse r old content)
  unfolding build_verse
  build_verse-Extends ascii texty = rw (le→ltb_false _ _ texty) (
      Returns-bind (λ tokens. (text tokens ≡ trim_blanks content) × All Sound tokens) Extends
        (tokenize content) _
        (both (tokenize content) (tokenize-trim_blanks content ascii) (tokenize-Sound content))
        λ tokens k.
          Returns-bind (Holds (text tokens)) Extends (structure tokens) _
            (structure-Holds tokens k.1)
            λ nn k'. (nn, refl, nodes_text-of_list nn ∙ k'.writes ∙ k.0))
    where
      both :
          (o : Outcome (List Node))
          → Returns (λ ns. text ns ≡ trim_blanks content) o
          → Returns (All Sound) o
          → Returns (λ ns. (text ns ≡ trim_blanks content) × All Sound ns) o
      both (done ns) p q = (p, q)
      both panic p q = p
      both no_fuel p q = p
