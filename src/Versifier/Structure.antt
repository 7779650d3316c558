-- ===== src/Versifier/Structure.antt =====
-- `structureBrackets`, `structureKeyValue` and `structureLines`. A slice of nodes belongs to one block
-- only, so that a write into a nested block changes that block alone.
pub mod KeyValues
pub mod Brackets
pub mod Lines
use go_fuzz.Base.{
  ℕ, zero, suc, ◌+◌, Bool, true, false, ◌&&◌, ◌||◌, Option, none, some, List, [], ◌∷◌, ◌++◌, length,
  take, drop, Outcome, done, panic, ◌>>=◌, ltb, ◌==◌, if◌then◌else◌,
}
use go_fuzz.Versifier.{
  Node, Nodes, nil, cons, alpha_num, control, bracket, key_val, line, to_list, of_list, rejoin,
}
use go_fuzz.Versifier.Passes.{Round, unchanged, rewritten, skip_one, pass}

-- `brackets`
unfoldable pub closing : ℕ → Option ℕ
closing ch =
    if ch == b'<'
    then some b'>'
    else if ch == b'['
    then some b']'
    else if ch == b'('
    then some b')'
    else if ch == b'{'
    then some b'}'
    else if ch == 0x27 || ch == 0x22 || ch == 0x60
    then some ch
    else none

-- An opening bracket that waits for its end: `Brk`.
pub record Brk : Type 0 where
  pub opened : ℕ
  pub closed : ℕ
  pub pos : ℕ

-- The topmost entry that `ch` closes, and the stack below it.
unfoldable pub find_open : ℕ → List Brk → Option (Brk × List Brk)
find_open ch [] = none
find_open ch (k ∷ stk) = if ch == k.closed then some (k, stk) else find_open ch stk

unfoldable pub push_open : ℕ → ℕ → List Brk → List Brk
unfolding closing
push_open ch pos stk = elim (closing ch) [
  | none ↦ stk
  | some c ↦ record { opened = ch; closed = c; pos = pos } ∷ stk
]

-- `nn[:i]` and the stack after the round at `n`; a slice `nn[pos+1:i]` with `pos` beyond `i` panics.
unfoldable pub bracket_round : List Node → List Brk → Node → Outcome (List Node × List Brk)
unfolding find_open push_open
bracket_round front stk (control ch) = elim (find_open ch stk) [
  | none ↦ done (front ++ control ch ∷ [], push_open ch (length front) stk)
  | some (k, below) ↦
      if ltb k.pos (length front)
      then done (
        take k.pos front ++ bracket k.opened k.closed (of_list (drop (k.pos + 1) front)) ∷ [],
        below,
      )
      else panic
]
bracket_round front stk n = done (front ++ n ∷ [], stk)

unfoldable pub bracket_loop : List Node → List Brk → List Node → Outcome (List Node)
unfolding bracket_round
bracket_loop front stk [] = done front
bracket_loop front stk (n ∷ rest) = bracket_round front stk n >>= λ r. bracket_loop r.0 r.1 rest

unfoldable pub structure_brackets : List Node → Outcome (List Node)
unfolding bracket_loop
structure_brackets nn = bracket_loop [] [] nn

-- Two terms joined by `=` or `:`.
unfoldable pub key_value_round : List Node → Node → List Node → Outcome Round
key_value_round (alpha_num key ∷ before) (control ch) (alpha_num value ∷ rest) =
    if ch == b'=' || ch == b':'
    then done (skip_one (key_val ch key value ∷ before) rest)
    else done unchanged
key_value_round before n rest = done unchanged

unfoldable pub key_value_pass : List Node → Outcome (List Node)
unfolding key_value_round
key_value_pass nn = pass key_value_round (length nn) [] nn false >>= λ r. done r.0

-- The blocks of brackets come first.
unfoldable mutual
  pub key_value_node : Node → Outcome Node
  key_value_node (bracket o c b) =
      key_value_nodes b >>= λ inner. key_value_pass inner >>= λ nn. done (bracket o c (of_list nn))
  key_value_node n = done n

  pub key_value_nodes : Nodes → Outcome (List Node)
  key_value_nodes nil = done []
  key_value_nodes (cons n ns) =
      key_value_node n >>= λ n'. key_value_nodes ns >>= λ ns'. done (n' ∷ ns')

unfoldable pub structure_key_value : List Node → Outcome (List Node)
structure_key_value nn = key_value_nodes (of_list nn) >>= key_value_pass

-- The nodes before a line feed, without a carriage return in front of it.
unfoldable pub end_line : List Node → Node
end_line (control ch ∷ before) =
    if ch == b'\r'
    then line true (of_list (rejoin before []))
    else line false (of_list (rejoin (control ch ∷ before) []))
end_line before = line false (of_list (rejoin before []))

unfoldable pub is_newline : Node → Bool
is_newline (control ch) = ch == b'\n'
is_newline n = false

-- `res` and the nodes below the next index, the nearest first.
unfoldable pub line_round : List Node → List Node → Node → List Node × List Node
unfolding is_newline end_line
line_round res before n =
    if is_newline n then (res ++ end_line before ∷ [], []) else (res, n ∷ before)

unfoldable pub line_loop : List Node → List Node → List Node → List Node
unfolding line_round
line_loop res before [] = res ++ rejoin before []
line_loop res before (n ∷ rest) = let r = line_round res before n in line_loop r.0 r.1 rest

-- The block of a bracket is structured when the index reaches it.
unfoldable mutual
  unfolding line_loop

  pub line_node : Node → Node
  line_node (bracket o c b) = bracket o c (of_list (line_loop [] [] (line_nodes b)))
  line_node n = n

  pub line_nodes : Nodes → List Node
  line_nodes nil = []
  line_nodes (cons n ns) = line_node n ∷ line_nodes ns

unfoldable pub structure_lines : List Node → List Node
structure_lines nn = line_loop [] [] (line_nodes (of_list nn))
