-- ===== src/Versifier/Lists/Elements.antt =====
-- The elements that `structureLists` finds to the left of a list.
use mathlib.Core.List.{append_assoc}
use native.Mathlib.Nat.{le_refl}
use go_fuzz.Base.{
  ℕ, zero, suc, ◌≤◌, ◌<◌, ◌≡◌, refl, true, List, [], ◌∷◌, ◌++◌, length, Returns, Returns-mono,
  Bool-cases, inl, inr, arith, u8, All, All-append_left, All-append_right, ==_iff,
}
use go_fuzz.Bytes.{Bytes}
use go_fuzz.Versifier.{
  Node, Blocks, no_blocks, add_block, control, list, text, node_text, blocks_text, rest_text,
  rejoin, of_list, nodes_text-of_list, text-append,
}
use go_fuzz.Versifier.Sound.{Sound, HasBlock, Holds, of_list-Sound, Holds-rewrite}
use go_fuzz.Versifier.Lists.{Runes, is_delim, pass_element, more_elements}
use go_fuzz.Versifier.Lists.Walks.{pass_element-keeps}

rest_text-blocks_text :
    (ch : ℕ) (bs : Blocks) → HasBlock bs → rest_text ch bs ≡ u8 ch ∷ blocks_text ch bs
unfolding node_text
rest_text-blocks_text ch no_blocks h = absurd h
rest_text-blocks_text ch (add_block b bs) h = refl

is_delim-text : (ch : ℕ) (n : Node) → is_delim ch n ≡ true → node_text n ≡ u8 ch ∷ []
unfolding is_delim node_text
is_delim-text ch (control c) e = rw ((==_iff c ch).0 e) refl
is_delim-text ch n e = absurd (cc)

-- An element and its delimiter go into the list.
element-text :
    (ch : ℕ) (passed : List Node) (n : Node) (bs : Blocks) (rest : List Node)
    → HasBlock bs
    → is_delim ch n ≡ true
    → text (list ch (add_block (of_list passed) bs) ∷ rest) ≡ text (passed ++ n ∷ list ch bs ∷ rest)
unfolding text node_text
element-text ch passed n bs rest h e =
    rw
      (
        nodes_text-of_list passed,
        rest_text-blocks_text ch bs h,
        text-append passed (n ∷ list ch bs ∷ rest),
        is_delim-text ch n e,
      )
      (append_assoc (text passed) (u8 ch ∷ blocks_text ch bs) (text rest))

element-Sound :
    (ch : ℕ) (passed : List Node) (n : Node) (bs : Blocks) (rest : List Node)
    → All Sound (passed ++ n ∷ list ch bs ∷ rest)
    → All Sound (list ch (add_block (of_list passed) bs) ∷ rest)
unfolding Sound
element-Sound ch passed n bs rest h =
    let after = All-append_right Sound passed (n ∷ list ch bs ∷ rest) h in
    let before = All-append_left Sound passed (n ∷ list ch bs ∷ rest) h in
    ((tt, (of_list-Sound passed before, after.1.0.1)), after.1.1)

-- The walk to the left over one element.
module _ (t : Bytes) (xs : List Node) (most : ℕ) where
  abbrev LeftOf : List Node → List Node → Type 0
  LeftOf passed ahead = Holds t (rejoin ahead (passed ++ xs)) × (length ahead ≤ most)

  left_move :
      (passed : List Node) (n : Node) (ahead : List Node)
      → LeftOf passed (n ∷ ahead)
      → LeftOf (n ∷ passed) ahead
  left_move passed n ahead h = (h.0, omega (arith, h.1))

pub more_elements-Holds :
    (t : Bytes) (fuel ch : ℕ) (tok : Runes) (bs : Blocks) (ahead rest : List Node)
    → length ahead < fuel
    → HasBlock bs
    → Holds t (rejoin ahead (list ch bs ∷ rest))
    → Returns
        (λ m. Holds t (rejoin m.1 (list ch m.0 ∷ rest)) × (length m.1 ≤ length ahead))
        (more_elements fuel ch tok bs ahead)
unfolding more_elements
more_elements-Holds t zero ch tok bs ahead rest lt b h = absurd (omega arith)
more_elements-Holds t (suc fuel) ch tok bs [] rest lt b h = (h, le_refl _)
more_elements-Holds t (suc fuel) ch tok bs (n ∷ ahead) rest lt b h =
    let xs = n ∷ list ch bs ∷ rest in
    let r = pass_element ch tok [] ahead in
    let walked : LeftOf t xs (length ahead) r.0 r.1 =
      pass_element-keeps (LeftOf t xs (length ahead)) (left_move t xs (length ahead)) ch tok []
        ahead (h, le_refl _) in
    elim (Bool-cases (is_delim ch n)) [
      | inr e ↦ rw e (h, le_refl _)
      | inl e ↦ rw e (
          Returns-mono _ _ (more_elements fuel ch tok (add_block (of_list r.0) bs) r.1)
            (λ m k. (k.0, omega (arith, k.1, walked.1)))
            (more_elements-Holds t fuel ch tok (add_block (of_list r.0) bs) r.1 rest
              (omega (arith, walked.1)) tt
              (Holds-rewrite t r.1 (r.0 ++ xs) (list ch (add_block (of_list r.0) bs) ∷ rest)
                walked.0 (element-text ch r.0 n bs rest b e) (element-Sound ch r.0 n bs rest))))
    ]
