-- ===== src/Versifier/Lists.antt =====
-- `structureLists`: blocks between equal delimiters become lists. The slice around the index `i` is
-- given as the nodes below and above it, the nearest first, so that `nn[e.pos]` is the first node that
-- lies ahead of a side, and out of range when there is none.
pub mod Walks
pub mod Elements
pub mod Joins
use go_fuzz.Base.{
  ℕ, zero, suc, ◌+◌, Bool, true, false, not, ◌&&◌, ◌||◌, List, [], ◌∷◌, ◌++◌, length, Outcome, done,
  no_fuel, ◌>>=◌, ◌==◌, if◌then◌else◌,
}
use go_fuzz.Versifier.{
  Node, Nodes, Blocks, nil, cons, no_blocks, add_block, control, bracket, list, of_list, rejoin,
}

-- `map[rune]bool`, of which only the keys matter.
abbrev pub Runes : Type 0
Runes = List ℕ

has_rune : Runes → ℕ → Bool
has_rune [] ch = false
has_rune (r ∷ rs) ch = r == ch || has_rune rs ch

all_in : Runes → Runes → Bool
unfolding has_rune
all_in [] rs = true
all_in (q ∷ qs) rs = has_rune rs q && all_in qs rs

-- `reflect.DeepEqual`
same_runes : Runes → Runes → Bool
unfolding all_in
same_runes qs rs = all_in qs rs && all_in rs qs

-- One `Elem`: the nodes that `pos` has gone over, the last first, and those from `pos` on.
pub record Side : Type 0 where
  pub tok : Runes
  pub is_done : Bool
  pub passed : List Node
  pub ahead : List Node

abbrev pub new_side : List Node → Side
new_side ahead = record { tok = []; is_done = false; passed = []; ahead = ahead }

abbrev pub go_over : Node → List Node → Side → Side
go_over n ahead e = record e { passed = n ∷ e.passed; ahead = ahead }

abbrev pub stop : Side → Side
stop e = record e { is_done = true }

-- The node at `pos` is noted and passed, or ends the side.
unfoldable pub note_node : ℕ → List Node → Side → Side
note_node ch [] e = stop e
note_node ch (control c ∷ ahead) e =
    if c == ch then stop e else go_over (control c) ahead (record e { tok = c ∷ e.tok })
note_node ch (bracket o c b ∷ ahead) e =
    go_over (bracket o c b) ahead (record e { tok = o ∷ c ∷ e.tok })
note_node ch (n ∷ ahead) e = go_over n ahead e

unfoldable pub side_round : ℕ → Side → Side
unfolding note_node
side_round ch e = if e.is_done then e else note_node ch e.ahead e

-- Both sides go on until both are done or one has seen every rune that the other has.
unfoldable pub spread : ℕ → ℕ → Side → Side → Outcome (Side × Side)
unfolding side_round same_runes
spread zero ch l r = no_fuel
spread (suc fuel) ch l r =
    let l' = side_round ch l in
    let r' = side_round ch r in
    let more = spread fuel ch l' r' in
    let union = l'.tok ++ r'.tok in
    if l'.is_done && r'.is_done || (same_runes l'.tok union || same_runes r'.tok union)
    then done (l', r')
    else more

-- A node that stands inside an element of the list: all its runes are known.
unfoldable pub is_known : Runes → Node → Bool
unfolding has_rune
is_known tok (control c) = has_rune tok c
is_known tok (bracket o c b) = has_rune tok o && has_rune tok c
is_known tok n = true

unfoldable pub is_delim : ℕ → Node → Bool
is_delim ch (control c) = c == ch
is_delim ch n = false

-- The nodes that are passed before one that is not known, and those from there on.
unfoldable pub pass_known : Runes → List Node → List Node → List Node × List Node
unfolding is_known
pass_known tok passed [] = (passed, [])
pass_known tok passed (n ∷ ahead) =
    let more = pass_known tok (n ∷ passed) ahead in
    if is_known tok n then more else (passed, n ∷ ahead)

-- As `pass_known`, up to a delimiter too.
unfoldable pub pass_element : ℕ → Runes → List Node → List Node → List Node × List Node
unfolding is_known is_delim
pass_element ch tok passed [] = (passed, [])
pass_element ch tok passed (n ∷ ahead) =
    let more = pass_element ch tok (n ∷ passed) ahead in
    if not (is_delim ch n) && is_known tok n then more else (passed, n ∷ ahead)

-- The two loops over a side after the runes were joined.
unfoldable pub finish_side : ℕ → Runes → Side → List Node × List Node
unfolding pass_known pass_element
finish_side ch tok e =
    let r = pass_known tok e.passed e.ahead in if e.is_done then r else pass_element ch tok r.0 r.1

-- Further elements on the left, each in front of a delimiter.
unfoldable pub more_elements : ℕ → ℕ → Runes → Blocks → List Node → Outcome (Blocks × List Node)
unfolding pass_element is_delim
more_elements zero ch tok elems ahead = no_fuel
more_elements (suc fuel) ch tok elems [] = done (elems, [])
more_elements (suc fuel) ch tok elems (n ∷ ahead) =
    let r = pass_element ch tok [] ahead in
    let more = more_elements fuel ch tok (add_block (of_list r.0) elems) r.1 in
    if is_delim ch n then more else done (elems, n ∷ ahead)

-- The list around a delimiter, between the nodes below and above it.
unfoldable pub make_list : ℕ → List Node → List Node → Outcome (List Node × List Node)
unfolding spread finish_side more_elements
make_list ch before rest =
    spread (length before + length rest + 1) ch (new_side before) (new_side rest) >>= λ s.
    let tok = s.0.tok ++ s.1.tok in
    let l = finish_side ch tok s.0 in
    let r = finish_side ch tok s.1 in
    let two = add_block (of_list l.0) (add_block (of_list (rejoin r.0 [])) no_blocks) in
    more_elements (length l.1 + 1) ch tok two l.1 >>= λ m. done (m.1, list ch m.0 ∷ r.1)

-- The delimiter that a node is.
unfoldable pub list_delim : Node → Bool
list_delim (control c) = c == b',' || c == b';'
list_delim n = false

unfoldable pub list_round : List Node → Node → List Node → Outcome (List Node × List Node)
unfolding list_delim make_list
list_round before (control c) rest =
    if list_delim (control c) then make_list c before rest else done (before, control c ∷ rest)
list_round before n rest = done (before, n ∷ rest)

-- The nodes up to the index, which comes first, and those above it. The index falls in each round.
unfoldable pub list_loop : ℕ → List Node → List Node → Outcome (List Node)
unfolding list_round
list_loop zero [] rest = done rest
list_loop (suc fuel) [] rest = done rest
list_loop zero (n ∷ before) rest = no_fuel
list_loop (suc fuel) (n ∷ before) rest = list_round before n rest >>= λ r. list_loop fuel r.0 r.1

unfoldable pub list_pass : List Node → Outcome (List Node)
unfolding list_loop
list_pass nn = list_loop (length nn) (rejoin nn []) []

-- The blocks of brackets come first.
unfoldable mutual
  pub list_node : Node → Outcome Node
  list_node (bracket o c b) =
      list_nodes b >>= λ inner. list_pass inner >>= λ nn. done (bracket o c (of_list nn))
  list_node n = done n

  pub list_nodes : Nodes → Outcome (List Node)
  list_nodes nil = done []
  list_nodes (cons n ns) = list_node n >>= λ n'. list_nodes ns >>= λ ns'. done (n' ∷ ns')

unfoldable pub structure_lists : List Node → Outcome (List Node)
structure_lists nn = list_nodes (of_list nn) >>= list_pass
