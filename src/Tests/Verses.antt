-- ===== src/Tests/Verses.antt =====
-- The theorems on the versifier.
use go_fuzz.Base.{◌≡◌, refl, ◌∷◌, [], List, none, false, Returns, done, arith}
use go_fuzz.Bytes.{Bytes}
use go_fuzz.Pcg.{Rand}
use go_fuzz.Versifier.{
  Node, ws, alpha_num, num, control, bracket, list, block, make_dict, single_term, text, nil, cons,
  no_blocks, add_block,
}
use go_fuzz.Versifier.Runes.{decode_rune, rune_error}
use go_fuzz.Versifier.Tokens.{tokenize, rune_kind}
use go_fuzz.Versifier.Tokens.Trims.{trim_blanks}
use go_fuzz.Versifier.Tokens.Kept.{tokenize-trim_blanks}
use go_fuzz.Versifier.Sound.{Sound, Holds}
use go_fuzz.Versifier.Numbers.{extract_numbers, index_byte, is_dec_num}
use go_fuzz.Versifier.Passes.{pass, skip_one}
use go_fuzz.Versifier.Structure.{
  structure_brackets, structure_key_value, key_value_nodes, key_value_pass, structure_lines,
  line_loop, line_nodes,
}
use go_fuzz.Versifier.Lists.{structure_lists, list_nodes, list_pass}
use go_fuzz.Versifier.Verse.{Verse, structure, build_verse, count_printable}
use go_fuzz.Mutator.Draw.{IsSafe}
use go_fuzz.Versifier.Rhymes.{rhyme}
use go_fuzz.Versifier.Rhymes.Blocks.{remove_at}
use go_fuzz.Versifier.Rhymes.Safety.{Any}
use go_fuzz.Versifier.Rhymes.Shuffles.{Fits, FitsNodes}
use go_fuzz.Versifier.Rhymes.Panics.{rhyme-IsSafe}
use go_fuzz.Versifier.Verse.Builds.{
  structure-Holds, IsSoundVerse, build_verse-IsSound, Extends, build_verse-Extends,
}

euro : decode_rune (0xe2 ∷ 0x82 ∷ 0xac ∷ b'x' ∷ []) ≡ (0x20ac, 3)
unfolding decode_rune
euro = refl

surrogate : decode_rune (0xed ∷ 0xa0 ∷ 0x80 ∷ []) ≡ (rune_error, 1)
unfolding decode_rune
surrogate = refl

-- `a1 = ` with a blank at its end
abbrev assignment : Bytes
assignment = b'a' ∷ b'1' ∷ b' ' ∷ b'=' ∷ b' ' ∷ []

assignment_tokens :
    tokenize assignment
    ≡ done (alpha_num ((b'a' ∷ b'1' ∷ []) ∷ []) ∷ ws ((b' ' ∷ []) ∷ []) ∷ control b'=' ∷ [])
unfolding tokenize make_dict rune_kind decode_rune
assignment_tokens = refl

tokenize-trim_blanks_example :
    Returns (λ ns. text ns ≡ trim_blanks assignment) (tokenize assignment)
tokenize-trim_blanks_example = tokenize-trim_blanks assignment (omega arith)

-- `-1.5e3`
negative : List Node
negative =
    control b'-'
    ∷ num ((b'1' ∷ []) ∷ []) false
    ∷ control b'.'
    ∷ alpha_num ((b'5' ∷ b'e' ∷ b'3' ∷ []) ∷ [])
    ∷ []

one_number :
    extract_numbers negative
    ≡ done (num ((b'-' ∷ b'1' ∷ b'.' ∷ b'5' ∷ b'e' ∷ b'3' ∷ []) ∷ []) false ∷ [])
unfolding negative extract_numbers make_dict pass single_term index_byte is_dec_num skip_one
one_number = refl

abbrev term_a : Node
term_a = alpha_num ((b'a' ∷ []) ∷ [])

-- `(a,a,a)`
abbrev triple : List Node
triple = control b'(' ∷ term_a ∷ control b',' ∷ term_a ∷ control b',' ∷ term_a ∷ control b')' ∷ []

triple_list :
    structure triple
    ≡ done (
        bracket b'(' b')' (
          cons
            (list b',' (
              add_block
                (cons term_a nil)
                (add_block (cons term_a nil) (add_block (cons term_a nil) no_blocks))))
            nil)
        ∷ [])
unfolding structure extract_numbers pass single_term structure_brackets structure_key_value
    key_value_nodes key_value_pass structure_lists list_nodes list_pass structure_lines line_loop
    line_nodes
triple_list = refl

structure-Holds_example : Returns (Holds (text triple)) (structure triple)
structure-Holds_example =
    structure-Holds triple (unfold Sound in (tt, (tt, (tt, (tt, (tt, (tt, (tt, tt))))))))

abbrev seed : Rand
seed = record { state = 1; inc = 3 }

build_verse-IsSound_example :
    Returns IsSoundVerse (build_verse seed none (0xff ∷ b'a' ∷ b'=' ∷ b'b' ∷ []))
build_verse-IsSound_example = build_verse-IsSound seed none (0xff ∷ b'a' ∷ b'=' ∷ b'b' ∷ []) tt

build_verse-Extends_example :
    Returns (Extends seed none assignment) (build_verse seed none assignment)
unfolding count_printable
build_verse-Extends_example = build_verse-Extends seed none assignment (omega arith) (omega arith)

abbrev small_verse : Verse
small_verse = record {
  blocks = cons term_a nil ∷ [];
  all_nodes = block (cons term_a nil) ∷ term_a ∷ [];
  r = seed;
}

-- The node in the middle stays, and the first is lost.
removed_front : remove_at 1 (control 1 ∷ control 2 ∷ control 3 ∷ []) ≡ control 3 ∷ control 2 ∷ []
unfolding remove_at
removed_front = refl

rhyme-IsSafe_example : IsSafe Any (rhyme 10 20 small_verse)
rhyme-IsSafe_example =
    rhyme-IsSafe 10 20 small_verse (omega arith, omega arith) ((omega arith, term_fits), tt)
      (omega arith, omega arith)
      (unfold Fits in (omega arith, term_fits), (unfold Fits in (omega arith, omega arith), tt))
  where
    term_fits : FitsNodes 10 (cons term_a nil)
    term_fits = unfold Fits in ((omega arith, omega arith), tt)
