-- ===== src/Versifier/Lists/Joins.antt =====
-- `structureLists` ends and keeps the text of the nodes, nested blocks included.
use mathlib.Core.List.{append_assoc, append-nil}
use mathlib.Core.Path.{subst}
use native.Mathlib.Nat.{le_refl}
use go_fuzz.Base.{
  ℕ, zero, suc, ◌+◌, ◌≤◌, ◌≡◌, refl, sym, ap, ap₂, ◌∙◌, List, [], ◌∷◌, ◌++◌, length, Returns,
  Returns-bind, Bool-cases, inl, inr, arith, u8, All, All-append_left, All-append_right,
}
use go_fuzz.Bytes.{Bytes}
use go_fuzz.Versifier.{
  Node, Nodes, Blocks, nil, cons, no_blocks, add_block, control, bracket, list, text, node_text,
  nodes_text, rejoin, of_list, nodes_text-of_list, text-append,
}
use go_fuzz.Versifier.Sound.{
  Sound, SoundNodes, Holds, of_list-Sound, All-rejoin, All-rejoin_rest, text-rejoin_split,
  Holds-rewrite,
}
use go_fuzz.Versifier.Structure.KeyValues.{Like, bracket-Like}
use go_fuzz.Versifier.Lists.{
  new_side, spread, finish_side, more_elements, make_list, list_delim, list_round, list_loop,
  list_pass, list_node, list_nodes, structure_lists,
}
use go_fuzz.Versifier.Lists.Elements.{more_elements-Holds}
use go_fuzz.Versifier.Lists.Walks.{finish_side-keeps, spread-keeps}

-- The first two elements, on both sides of the delimiter.
abbrev two_elements : List Node → List Node → Blocks
two_elements l r = add_block (of_list l) (add_block (of_list (rejoin r [])) no_blocks)

two_elements-text :
    (ch : ℕ) (l r ahead : List Node)
    → text (list ch (two_elements l r) ∷ ahead) ≡ text (l ++ control ch ∷ rejoin r ahead)
unfolding text node_text
two_elements-text ch l r ahead =
    rw
      (
        nodes_text-of_list l,
        nodes_text-of_list (rejoin r []),
        text-append l (control ch ∷ rejoin r ahead),
        text-rejoin_split r ahead,
        append-nil (u8 ch ∷ text (rejoin r [])),
      )
      (append_assoc (text l) (u8 ch ∷ text (rejoin r [])) (text ahead))

two_elements-Sound :
    (ch : ℕ) (l r ahead : List Node)
    → All Sound (l ++ control ch ∷ rejoin r ahead)
    → All Sound (list ch (two_elements l r) ∷ ahead)
unfolding Sound
two_elements-Sound ch l r ahead h =
    let right = (All-append_right Sound l (control ch ∷ rejoin r ahead) h).1 in
    let left = All-append_left Sound l (control ch ∷ rejoin r ahead) h in
    (
      (tt, (of_list-Sound l left, (of_list-Sound _ (All-rejoin r ahead [] (λ k. tt) right), tt))),
      All-rejoin_rest r ahead right,
    )

module _ (before rest : List Node) where
  -- What a side has passed and what lies ahead are the nodes of that side.
  abbrev OnLeft : List Node → List Node → Type 0
  OnLeft passed ahead =
      ((xs : List Node) → rejoin ahead (passed ++ xs) ≡ rejoin before xs)
      × (length ahead ≤ length before)

  abbrev OnRight : List Node → List Node → Type 0
  OnRight passed ahead = rejoin passed ahead ≡ rest

  OnLeft-move :
      (passed : List Node) (n : Node) (ahead : List Node)
      → OnLeft passed (n ∷ ahead)
      → OnLeft (n ∷ passed) ahead
  OnLeft-move passed n ahead h = (h.0, omega (arith, h.1))

  OnRight-move :
      (passed : List Node) (n : Node) (ahead : List Node)
      → OnRight passed (n ∷ ahead)
      → OnRight (n ∷ passed) ahead
  OnRight-move passed n ahead h = h

  -- The nodes up to the list and those from it on; the list took the place of the index or of one below.
  abbrev Joined : Bytes → List Node × List Node → Type 0
  Joined t r = Holds t (rejoin r.0 r.1) × (length r.0 ≤ length before)

  make_list-Joined :
      (t : Bytes) (ch : ℕ)
      → Holds t (rejoin before (control ch ∷ rest))
      → Returns (Joined t) (make_list ch before rest)
  unfolding make_list
  make_list-Joined t ch h =
      Returns-bind (λ s. OnLeft s.0.passed s.0.ahead × OnRight s.1.passed s.1.ahead) (Joined t)
        (spread (length before + length rest + 1) ch (new_side before) (new_side rest)) _
        (spread-keeps OnLeft OnRight OnLeft-move OnRight-move (length before + length rest + 1) ch
          (new_side before) (new_side rest) (omega arith) (λ xs. refl, le_refl _) refl)
        λ s k.
          let tok = s.0.tok ++ s.1.tok in
          let l = finish_side ch tok s.0 in
          let r = finish_side ch tok s.1 in
          let on_left : OnLeft l.0 l.1 = finish_side-keeps OnLeft OnLeft-move ch tok s.0 k.0 in
          let on_right : OnRight r.0 r.1 = finish_side-keeps OnRight OnRight-move ch tok s.1 k.1 in
          let same : rejoin l.1 (l.0 ++ control ch ∷ rejoin r.0 r.1)
              ≡ rejoin before (control ch ∷ rest) =
            ap (λ xs. rejoin l.1 (l.0 ++ control ch ∷ xs)) on_right
            ∙ on_left.0 (control ch ∷ rest) in
          let two : Holds t (rejoin l.1 (list ch (two_elements l.0 r.0) ∷ r.1)) =
            Holds-rewrite t l.1 (l.0 ++ control ch ∷ rejoin r.0 r.1)
              (list ch (two_elements l.0 r.0) ∷ r.1) (subst (Holds t) (sym same) h)
              (two_elements-text ch l.0 r.0 r.1) (two_elements-Sound ch l.0 r.0 r.1) in
          Returns-bind (λ m. Holds t (rejoin m.1 (list ch m.0 ∷ r.1)) × (length m.1 ≤ length l.1))
            (Joined t) (more_elements (length l.1 + 1) ch tok (two_elements l.0 r.0) l.1) _
            (more_elements-Holds t (length l.1 + 1) ch tok (two_elements l.0 r.0) l.1 r.1
              (omega arith) tt two)
            λ m k'. (k'.0, omega (arith, k'.1, on_left.1))

  list_round-Joined :
      (t : Bytes) (n : Node)
      → Holds t (rejoin before (n ∷ rest))
      → Returns (Joined t) (list_round before n rest)
  unfolding list_round
  list_round-Joined t (control c) h = elim (Bool-cases (list_delim (control c))) [
    | inl e ↦ rw e (make_list-Joined t c h)
    | inr e ↦ rw e (h, le_refl _)
  ]
  list_round-Joined t n h = (h, le_refl _)

list_loop-Holds :
    (t : Bytes) (fuel : ℕ) (before rest : List Node)
    → length before ≤ fuel
    → Holds t (rejoin before rest)
    → Returns (Holds t) (list_loop fuel before rest)
unfolding list_loop
list_loop-Holds t zero [] rest le h = h
list_loop-Holds t (suc fuel) [] rest le h = h
list_loop-Holds t zero (n ∷ before) rest le h = absurd (omega arith)
list_loop-Holds t (suc fuel) (n ∷ before) rest le h =
    Returns-bind (Joined before rest t) (Holds t) (list_round before n rest) _
      (list_round-Joined before rest t n h)
      λ r k. list_loop-Holds t fuel r.0 r.1 (omega (arith, k.1)) k.0

rejoin-rejoin : (xs ys : List Node) → rejoin (rejoin xs ys) [] ≡ rejoin ys xs
rejoin-rejoin [] ys = refl
rejoin-rejoin (x ∷ xs) ys = rejoin-rejoin xs (x ∷ ys)

length-rejoin : (xs ys : List Node) → length (rejoin xs ys) ≡ length xs + length ys
length-rejoin [] ys = omega arith
length-rejoin (x ∷ xs) ys = omega (arith, length-rejoin xs (x ∷ ys))

list_pass-Holds : (t : Bytes) (nn : List Node) → Holds t nn → Returns (Holds t) (list_pass nn)
unfolding list_pass
list_pass-Holds t nn h =
    list_loop-Holds t (length nn) (rejoin nn []) [] (omega (arith, length-rejoin nn []))
      (subst (Holds t) (sym (rejoin-rejoin nn [])) h)

mutual
  unfolding list_node node_text text Sound

  list_node-Like : (n : Node) → Sound n → Returns (Like n) (list_node n)
  list_node-Like (bracket o c b) h =
      Returns-bind (Holds (nodes_text b)) (Like (bracket o c b)) (list_nodes b) _
        (list_nodes-Holds b h)
        λ inner k.
          Returns-bind (Holds (nodes_text b)) (Like (bracket o c b)) (list_pass inner) _
            (list_pass-Holds (nodes_text b) inner k) λ nn k'. bracket-Like o c b nn k'
  list_node-Like n h = (refl, h)

  list_nodes-Holds : (ns : Nodes) → SoundNodes ns → Returns (Holds (nodes_text ns)) (list_nodes ns)
  list_nodes-Holds nil h = record { writes = refl; sound = tt }
  list_nodes-Holds (cons n ns) h =
      Returns-bind (Like n) (Holds (nodes_text (cons n ns))) (list_node n) _ (list_node-Like n h.0)
        λ n' k.
          Returns-bind (Holds (nodes_text ns)) (Holds (nodes_text (cons n ns))) (list_nodes ns) _
            (list_nodes-Holds ns h.1)
            λ ns' k'. record { writes = ap₂ (λ x y. x ++ y) k.0 k'.writes; sound = (k.1, k'.sound) }

pub structure_lists-Holds :
    (t : Bytes) (nn : List Node) → Holds t nn → Returns (Holds t) (structure_lists nn)
unfolding structure_lists
structure_lists-Holds t nn h =
    let same : nodes_text (of_list nn) ≡ t = nodes_text-of_list nn ∙ h.writes in
    Returns-bind (Holds t) (Holds t) (list_nodes (of_list nn)) _
      (rw same at (list_nodes-Holds (of_list nn) (of_list-Sound nn h.sound))) (list_pass-Holds t)
