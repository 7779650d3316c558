-- ===== src/Versifier/Structure/KeyValues.antt =====
-- `structureKeyValue` ends and keeps the text of the nodes, nested blocks included.
use mathlib.Core.List.{append_assoc}
use native.Mathlib.Nat.{le_refl}
use go_fuzz.Base.{
  ℕ, ◌<◌, ◌≡◌, refl, ap₂, ◌∙◌, ◌||◌, ◌==◌, false, List, [], ◌∷◌, ◌++◌, length, Returns,
  Returns-bind, Bool-cases, inl, inr, arith, u8,
}
use go_fuzz.Bytes.{Bytes}
use go_fuzz.Versifier.{
  Node, Nodes, Dict, nil, cons, alpha_num, control, bracket, key_val, text, node_text, nodes_text,
  rejoin, term, of_list, nodes_text-of_list,
}
use go_fuzz.Versifier.Passes.{skip_one, pass}
use go_fuzz.Versifier.Passes.Keeps.{Kept, pass-After}
use go_fuzz.Versifier.Sound.{Sound, SoundNodes, Holds, weight, rewrite-Holds, of_list-Sound}
use go_fuzz.Versifier.Structure.{
  key_value_round, key_value_pass, key_value_node, key_value_nodes, structure_key_value,
}

module _ (t : Bytes) (before : List Node) where
  joined-Holds :
      (key : Dict) (ch : ℕ) (value : Dict) (rest : List Node)
      → Holds t (rejoin before (alpha_num key ∷ control ch ∷ alpha_num value ∷ rest))
      → Holds t (rejoin before (key_val ch key value ∷ rest))
        × (weight (rejoin before (key_val ch key value ∷ rest))
            < weight (rejoin before (alpha_num key ∷ control ch ∷ alpha_num value ∷ rest)))
  unfolding text node_text Sound
  joined-Holds key ch value rest h =
      rewrite-Holds t before (alpha_num key ∷ control ch ∷ alpha_num value ∷ rest)
        (key_val ch key value ∷ rest) h (append_assoc (term key) (u8 ch ∷ term value) (text rest))
        (λ k. ((k.0, k.1.1.0), k.1.1.1)) (omega arith)

  key_value-Kept :
      (key : Dict) (ch : ℕ) (value : Dict) (rest : List Node)
      → Holds t (rejoin before (alpha_num key ∷ control ch ∷ alpha_num value ∷ rest))
      → Kept
          (Holds t)
          weight
          (alpha_num key ∷ before)
          (control ch)
          (alpha_num value ∷ rest)
          (skip_one (key_val ch key value ∷ before) rest)
  unfolding skip_one
  key_value-Kept key ch value [] h =
      let (k, w) = joined-Holds key ch value [] h in (omega arith, k, w)
  key_value-Kept key ch value (n ∷ rest) h =
      let (k, w) = joined-Holds key ch value (n ∷ rest) h in (omega arith, k, w)

key_value_round-Kept :
    (t : Bytes) (before : List Node) (n : Node) (rest : List Node)
    → Holds t (rejoin before (n ∷ rest))
    → Returns (Kept (Holds t) weight before n rest) (key_value_round before n rest)
unfolding key_value_round
key_value_round-Kept t [] n rest h = tt
key_value_round-Kept t (alpha_num key ∷ before) (control ch) [] h = tt
key_value_round-Kept t (alpha_num key ∷ before) (control ch) (alpha_num value ∷ rest) h =
    elim (Bool-cases (ch == b'=' || ch == b':')) [
      | inl e ↦ rw e (key_value-Kept t before key ch value rest h)
      | inr e ↦ rw e tt
    ]
key_value_round-Kept t (alpha_num key ∷ before) (control ch) (m ∷ rest) h = tt
key_value_round-Kept t (alpha_num key ∷ before) n rest h = tt
key_value_round-Kept t (m ∷ before) n rest h = tt

key_value_pass-Holds :
    (t : Bytes) (nn : List Node) → Holds t nn → Returns (Holds t) (key_value_pass nn)
unfolding key_value_pass
key_value_pass-Holds t nn h =
    Returns-bind _ (Holds t) (pass key_value_round (length nn) [] nn false) _
      (pass-After (Holds t) weight key_value_round (key_value_round-Kept t) (length nn) [] nn false
        (weight nn) (le_refl _) h (le_refl _))
      λ r k. k.0

-- A node in place of another with the same text.
abbrev pub Like : Node → Node → Type 0
Like n n' = (node_text n' ≡ node_text n) × Sound n'

pub bracket-Like :
    (o c : ℕ) (b : Nodes) (nn : List Node)
    → Holds (nodes_text b) nn
    → Like (bracket o c b) (bracket o c (of_list nn))
unfolding node_text Sound
bracket-Like o c b nn h = (rw (nodes_text-of_list nn, h.writes) refl, of_list-Sound nn h.sound)

mutual
  unfolding key_value_node node_text text Sound

  key_value_node-Like : (n : Node) → Sound n → Returns (Like n) (key_value_node n)
  key_value_node-Like (bracket o c b) h =
      Returns-bind (Holds (nodes_text b)) (Like (bracket o c b)) (key_value_nodes b) _
        (key_value_nodes-Holds b h)
        λ inner k.
          Returns-bind (Holds (nodes_text b)) (Like (bracket o c b)) (key_value_pass inner) _
            (key_value_pass-Holds (nodes_text b) inner k) λ nn k'. bracket-Like o c b nn k'
  key_value_node-Like n h = (refl, h)

  key_value_nodes-Holds :
      (ns : Nodes) → SoundNodes ns → Returns (Holds (nodes_text ns)) (key_value_nodes ns)
  key_value_nodes-Holds nil h = record { writes = refl; sound = tt }
  key_value_nodes-Holds (cons n ns) h =
      Returns-bind (Like n) (Holds (nodes_text (cons n ns))) (key_value_node n) _
        (key_value_node-Like n h.0)
        λ n' k.
          Returns-bind (Holds (nodes_text ns)) (Holds (nodes_text (cons n ns))) (key_value_nodes ns)
            _ (key_value_nodes-Holds ns h.1)
            λ ns' k'. record { writes = ap₂ (λ x y. x ++ y) k.0 k'.writes; sound = (k.1, k'.sound) }

pub structure_key_value-Holds :
    (t : Bytes) (nn : List Node) → Holds t nn → Returns (Holds t) (structure_key_value nn)
unfolding structure_key_value
structure_key_value-Holds t nn h =
    let same : nodes_text (of_list nn) ≡ t = nodes_text-of_list nn ∙ h.writes in
    Returns-bind (Holds t) (Holds t) (key_value_nodes (of_list nn)) _
      (rw same at (key_value_nodes-Holds (of_list nn) (of_list-Sound nn h.sound)))
      (key_value_pass-Holds t)
