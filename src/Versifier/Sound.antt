-- ===== src/Versifier/Sound.antt =====
-- Well-formed nodes: each dictionary has a term, and a list has a block. The predicate goes through
-- nested blocks. A slice `Holds` a text if it is well-formed and its nodes write that text.
use mathlib.Core.List.{append_assoc, append-nil}
use go_fuzz.Base.{
  ℕ, ◌+◌, ◌*◌, ◌≤◌, ◌<◌, ◌≡◌, refl, sym, ◌∙◌, List, [], ◌∷◌, ◌++◌, length, All, arith,
}
use go_fuzz.Bytes.{Bytes}
use go_fuzz.Versifier.{
  Node, Nodes, Blocks, nil, cons, no_blocks, add_block, ws, alpha_num, num, control, bracket,
  key_val, list, line, block, node_text, HasTerm, to_list, of_list, text, text-rejoin, rejoin,
}

abbrev pub HasBlock : Blocks → Type 0
HasBlock no_blocks = ⊥
HasBlock (add_block b bs) = Unit

unfoldable mutual
  pub Sound : Node → Type 0
  Sound (ws d) = HasTerm d
  Sound (alpha_num d) = HasTerm d
  Sound (num d hex) = HasTerm d
  Sound (control ch) = Unit
  Sound (bracket o c b) = SoundNodes b
  Sound (key_val delim key value) = HasTerm key × HasTerm value
  Sound (list delim bs) = HasBlock bs × SoundBlocks bs
  Sound (line r b) = SoundNodes b
  Sound (block b) = SoundNodes b

  pub SoundNodes : Nodes → Type 0
  SoundNodes nil = Unit
  SoundNodes (cons n ns) = Sound n × SoundNodes ns

  pub SoundBlocks : Blocks → Type 0
  SoundBlocks no_blocks = Unit
  SoundBlocks (add_block b bs) = SoundNodes b × SoundBlocks bs

pub of_list-Sound : (ns : List Node) → All Sound ns → SoundNodes (of_list ns)
unfolding Sound
of_list-Sound [] h = tt
of_list-Sound (n ∷ ns) h = (h.0, of_list-Sound ns h.1)

pub to_list-Sound : (ns : Nodes) → SoundNodes ns → All Sound (to_list ns)
unfolding Sound
to_list-Sound nil h = tt
to_list-Sound (cons n ns) h = (h.0, to_list-Sound ns h.1)

pub record Holds (t : Bytes) (ns : List Node) : Type 0 where
  pub writes : text ns ≡ t
  pub sound : All Sound ns

pub All-rejoin :
    (before xs ys : List Node)
    → (All Sound xs → All Sound ys)
    → All Sound (rejoin before xs)
    → All Sound (rejoin before ys)
All-rejoin [] xs ys f h = f h
All-rejoin (n ∷ before) xs ys f h = All-rejoin before (n ∷ xs) (n ∷ ys) (λ k. (k.0, f k.1)) h

pub All-rejoin_rest : (before xs : List Node) → All Sound (rejoin before xs) → All Sound xs
All-rejoin_rest [] xs h = h
All-rejoin_rest (n ∷ before) xs h = (All-rejoin_rest before (n ∷ xs) h).1

-- Letters may become a number, and two nodes one; either makes the weight smaller.
abbrev pub node_weight : Node → ℕ
node_weight (alpha_num d) = 2
node_weight n = 1

abbrev pub weight : List Node → ℕ
weight [] = 0
weight (n ∷ ns) = node_weight n + weight ns

pub weight-rejoin :
    (before xs ys : List Node)
    → weight xs < weight ys
    → weight (rejoin before xs) < weight (rejoin before ys)
weight-rejoin [] xs ys h = h
weight-rejoin (n ∷ before) xs ys h = weight-rejoin before (n ∷ xs) (n ∷ ys) (omega arith)

pub node_weight-le : (n : Node) → node_weight n ≤ 2
node_weight-le (alpha_num d) = omega arith
node_weight-le n = omega arith

pub weight-le : (ns : List Node) → weight ns ≤ 2 * length ns
weight-le [] = omega arith
weight-le (n ∷ ns) = omega (arith, weight-le ns, node_weight-le n)

module _ (t : Bytes) (before xs ys : List Node) where
  -- A rewriting of what stands from some node on.
  pub rewrite-Holds :
      Holds t (rejoin before xs)
      → text ys ≡ text xs
      → (All Sound xs → All Sound ys)
      → weight ys < weight xs
      → Holds t (rejoin before ys) × (weight (rejoin before ys) < weight (rejoin before xs))
  rewrite-Holds h e f w = (
    record {
      writes = text-rejoin before ys xs e ∙ h.writes;
      sound = All-rejoin before xs ys f h.sound;
    },
    weight-rejoin before ys xs w,
  )

-- What a reversed slice adds in front.
pub text-rejoin_split :
    (before rest : List Node) → text (rejoin before rest) ≡ text (rejoin before []) ++ text rest
unfolding text
text-rejoin_split [] rest = refl
text-rejoin_split (n ∷ before) rest =
    let far = text-rejoin_split before (n ∷ rest) in
    let near = text-rejoin_split before (n ∷ []) in
    far
    ∙ rw (near, append-nil (node_text n))
        (sym (append_assoc (text (rejoin before [])) (node_text n) (text rest)))

-- A rewriting with no claim on the weight.
pub Holds-rewrite :
    (t : Bytes) (before xs ys : List Node)
    → Holds t (rejoin before xs)
    → text ys ≡ text xs
    → (All Sound xs → All Sound ys)
    → Holds t (rejoin before ys)
Holds-rewrite t before xs ys h e f = record {
  writes = text-rejoin before ys xs e ∙ h.writes;
  sound = All-rejoin before xs ys f h.sound;
}
