-- ===== src/Versifier/Structure/Lines.antt =====
-- `structureLines` keeps the text of the nodes, nested blocks included.
use mathlib.Core.List.{append_assoc}
use go_fuzz.Base.{
  ℕ, ◌≡◌, refl, sym, ap, ap₂, ◌∙◌, ◌==◌, true, false, List, [], ◌∷◌, ◌++◌, Bool-cases, inl, inr,
  All, All-append, All-append_left, All-append_right, ==_iff,
}
use go_fuzz.Bytes.{Bytes}
use go_fuzz.Versifier.{
  Node, Nodes, nil, cons, control, bracket, line, text, node_text, nodes_text, rejoin, of_list,
  nodes_text-of_list, text-append, text-cons,
}
use go_fuzz.Versifier.Sound.{
  Sound, SoundNodes, Holds, of_list-Sound, All-rejoin, All-rejoin_rest, text-rejoin_split,
}
use go_fuzz.Versifier.Structure.{
  is_newline, end_line, line_round, line_loop, line_node, line_nodes, structure_lines,
}
use go_fuzz.Versifier.Structure.KeyValues.{Like, bracket-Like}

plain_line :
    (before : List Node)
    → node_text (line false (of_list (rejoin before []))) ≡ text (rejoin before []) ++ b'\n' ∷ []
unfolding node_text
plain_line before = rw (nodes_text-of_list (rejoin before [])) refl

line_text :
    (before : List Node) → node_text (end_line before) ≡ text (rejoin before []) ++ b'\n' ∷ []
unfolding end_line
line_text [] = plain_line []
line_text (control ch ∷ before) = elim (Bool-cases (ch == b'\r')) [
  | inl e ↦ rw e (returned before ch ((==_iff ch b'\r').0 e))
  | inr e ↦ rw e (plain_line (control ch ∷ before))
]
  where
    returned :
        (before : List Node) (ch : ℕ)
        → ch ≡ b'\r'
        → node_text (line true (of_list (rejoin before [])))
          ≡ text (rejoin before (control ch ∷ [])) ++ b'\n' ∷ []
    returned before ch e =
        unfold text node_text in
        rw (e, nodes_text-of_list (rejoin before []), text-rejoin_split before (control b'\r' ∷ []))
          (sym (append_assoc (text (rejoin before [])) (b'\r' ∷ []) (b'\n' ∷ [])))
line_text (n ∷ before) = plain_line (n ∷ before)

end_line-Sound : (before : List Node) → All Sound (rejoin before []) → Sound (end_line before)
unfolding end_line Sound
end_line-Sound [] h = tt
end_line-Sound (control ch ∷ before) h = elim (Bool-cases (ch == b'\r')) [
  | inl e ↦ rw e (of_list-Sound _ (All-rejoin before (control ch ∷ []) [] (λ k. tt) h))
  | inr e ↦ rw e (of_list-Sound _ h)
]
end_line-Sound (n ∷ before) h = of_list-Sound _ h

is_newline-text : (n : Node) → is_newline n ≡ true → node_text n ≡ b'\n' ∷ []
unfolding is_newline node_text
is_newline-text (control ch) e = rw ((==_iff ch b'\n').0 e) refl
is_newline-text n e = absurd (cc)

module _ (t : Bytes) (res before : List Node) (n : Node) (rest : List Node) where
  ended-text :
      is_newline n ≡ true
      → node_text (end_line before) ++ text rest ≡ text (rejoin before (n ∷ rest))
  unfolding text
  ended-text e =
      rw (line_text before, text-rejoin_split before (n ∷ rest), is_newline-text n e)
        (append_assoc (text (rejoin before [])) (b'\n' ∷ []) (text rest))

  ended-Holds :
      Holds t (res ++ rejoin before (n ∷ rest))
      → is_newline n ≡ true
      → Holds t ((res ++ end_line before ∷ []) ++ rest)
  ended-Holds h e =
      let after = All-append_right Sound res (rejoin before (n ∷ rest)) h.sound in
      let whole_line = end_line-Sound before (All-rejoin before (n ∷ rest) [] (λ k. tt) after) in
      record {
        writes =
            ap text (append_assoc res (end_line before ∷ []) rest)
            ∙ text-append res (end_line before ∷ rest)
            ∙ ap (λ x. text res ++ x) (text-cons (end_line before) rest ∙ ended-text e)
            ∙ sym (text-append res (rejoin before (n ∷ rest)))
            ∙ h.writes;
        sound =
            All-append Sound (res ++ end_line before ∷ []) rest
              (All-append Sound res (end_line before ∷ [])
                (All-append_left Sound res (rejoin before (n ∷ rest)) h.sound) (whole_line, tt))
              (All-rejoin_rest before (n ∷ rest) after).1;
      }

line_loop-Holds :
    (t : Bytes) (rest res before : List Node)
    → Holds t (res ++ rejoin before rest)
    → Holds t (line_loop res before rest)
unfolding line_loop line_round
line_loop-Holds t [] res before h = h
line_loop-Holds t (n ∷ rest) res before h = elim (Bool-cases (is_newline n)) [
  | inl e ↦ rw e (
      line_loop-Holds t rest (res ++ end_line before ∷ []) [] (ended-Holds t res before n rest h e))
  | inr e ↦ rw e (line_loop-Holds t rest res (n ∷ before) h)
]

mutual
  unfolding line_node node_text text Sound

  line_node-Like : (n : Node) → Sound n → Like n (line_node n)
  line_node-Like (bracket o c b) h =
      bracket-Like o c b _
        (line_loop-Holds (nodes_text b) (line_nodes b) [] [] (line_nodes-Holds b h))
  line_node-Like n h = (refl, h)

  line_nodes-Holds : (ns : Nodes) → SoundNodes ns → Holds (nodes_text ns) (line_nodes ns)
  line_nodes-Holds nil h = record { writes = refl; sound = tt }
  line_nodes-Holds (cons n ns) h =
      let first = line_node-Like n h.0 in
      let others = line_nodes-Holds ns h.1 in
      record { writes = ap₂ (λ x y. x ++ y) first.0 others.writes; sound = (first.1, others.sound) }

pub structure_lines-Holds : (t : Bytes) (nn : List Node) → Holds t nn → Holds t (structure_lines nn)
unfolding structure_lines
structure_lines-Holds t nn h =
    let same : nodes_text (of_list nn) ≡ t = nodes_text-of_list nn ∙ h.writes in
    line_loop-Holds t (line_nodes (of_list nn)) [] []
      (rw same at (line_nodes-Holds (of_list nn) (of_list-Sound nn h.sound)))
