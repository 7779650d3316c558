-- ===== src/Versifier.antt =====
-- go-fuzz/versifier/versifier.go: the structure that is recognised in texty inputs. The nodes of the
-- source are one data type; a rune is its code point. `text` writes a node with its own terms and
-- delimiters, which is what `Generate` writes where it draws no variation.
pub mod Runes
pub mod Tokens
pub mod Sound
pub mod Passes
pub mod Numbers
pub mod Structure
pub mod Lists
pub mod Verse
pub mod Rhymes
use go_fuzz.Base.{
  ℕ, ◌+◌, ◌≡◌, refl, ap, ap₂, ◌∙◌, Bool, true, false, List, [], ◌∷◌, ◌++◌, Outcome, done, panic,
  if◌then◌else◌, u8,
}
use mathlib.Core.List.{append_assoc}
use go_fuzz.Bytes.{Bytes}

-- `map[string]struct{}`
abbrev pub Dict : Type 0
Dict = List Bytes

unfoldable pub make_dict : Bytes → Dict
make_dict s = s ∷ []

-- Any key of the dictionary; those that the program makes have one.
unfoldable pub single_term : Dict → Outcome Bytes
single_term [] = panic
single_term (s ∷ dict) = done s

mutual
  pub data Node : Type 0 where
    ws : Dict → Node
    alpha_num : Dict → Node
    num : Dict → Bool → Node
    control : ℕ → Node
    bracket : ℕ → ℕ → Nodes → Node
    key_val : ℕ → Dict → Dict → Node
    list : ℕ → Blocks → Node
    line : Bool → Nodes → Node
    block : Nodes → Node

  -- The slice `nodes` of a `BlockNode`.
  pub data Nodes : Type 0 where
    nil : Nodes
    cons : Node → Nodes → Nodes

  pub data Blocks : Type 0 where
    no_blocks : Blocks
    add_block : Nodes → Blocks → Blocks

abbrev pub to_list : Nodes → List Node
to_list nil = []
to_list (cons n ns) = n ∷ to_list ns

abbrev pub of_list : List Node → Nodes
of_list [] = nil
of_list (n ∷ ns) = cons n (of_list ns)

pub to_list-of_list : (ns : List Node) → to_list (of_list ns) ≡ ns
to_list-of_list [] = refl
to_list-of_list (n ∷ ns) = ap (λ t. n ∷ t) (to_list-of_list ns)

abbrev pub term : Dict → Bytes
term [] = []
term (s ∷ dict) = s

abbrev pub HasTerm : Dict → Type 0
HasTerm [] = ⊥
HasTerm (s ∷ dict) = Unit

unfoldable mutual
  pub node_text : Node → Bytes
  node_text (ws d) = term d
  node_text (alpha_num d) = term d
  node_text (num d hex) = term d
  node_text (control ch) = u8 ch ∷ []
  node_text (bracket opened closed b) = (u8 opened ∷ nodes_text b) ++ u8 closed ∷ []
  node_text (key_val delim key value) = term key ++ u8 delim ∷ term value
  node_text (list delim bs) = blocks_text delim bs
  node_text (line r b) = nodes_text b ++ (if r then b'\r' ∷ b'\n' ∷ [] else b'\n' ∷ [])
  node_text (block b) = nodes_text b

  pub nodes_text : Nodes → Bytes
  nodes_text nil = []
  nodes_text (cons n ns) = node_text n ++ nodes_text ns

  -- The blocks of a list, joined by its delimiter.
  pub blocks_text : ℕ → Blocks → Bytes
  blocks_text delim no_blocks = []
  blocks_text delim (add_block b bs) = nodes_text b ++ rest_text delim bs

  pub rest_text : ℕ → Blocks → Bytes
  rest_text delim no_blocks = []
  rest_text delim (add_block b bs) = u8 delim ∷ nodes_text b ++ rest_text delim bs

unfoldable pub text : List Node → Bytes
text [] = []
text (n ∷ ns) = node_text n ++ text ns

pub text-cons : (n : Node) (ns : List Node) → text (n ∷ ns) ≡ node_text n ++ text ns
unfolding text
text-cons n ns = refl

pub nodes_text-of_list : (ns : List Node) → nodes_text (of_list ns) ≡ text ns
unfolding node_text text
nodes_text-of_list [] = refl
nodes_text-of_list (n ∷ ns) = ap (λ t. node_text n ++ t) (nodes_text-of_list ns)

pub text-to_list : (ns : Nodes) → text (to_list ns) ≡ nodes_text ns
unfolding node_text text
text-to_list nil = refl
text-to_list (cons n ns) = ap (λ t. node_text n ++ t) (text-to_list ns)

pub text-append : (xs ys : List Node) → text (xs ++ ys) ≡ text xs ++ text ys
unfolding text
text-append [] ys = refl
text-append (x ∷ xs) ys = simp (text-append xs ys, append_assoc)

-- A slice in the middle of a pass: the nodes below the index, the nearest first, and the others.
abbrev pub rejoin : List Node → List Node → List Node
rejoin [] rest = rest
rejoin (n ∷ before) rest = rejoin before (n ∷ rest)

pub text-rejoin :
    (before xs ys : List Node)
    → text xs ≡ text ys
    → text (rejoin before xs) ≡ text (rejoin before ys)
unfolding text
text-rejoin [] xs ys e = e
text-rejoin (n ∷ before) xs ys e =
    text-rejoin before (n ∷ xs) (n ∷ ys) (ap (λ t. node_text n ++ t) e)
