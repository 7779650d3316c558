-- ===== src/Versifier/Tokens.antt =====
-- `tokenize`: runs of blanks, of letters and digits, and of digits become terms, and every other rune
-- a control node.
pub mod Trims
pub mod Kept
pub mod Ends
use go_fuzz.Base.{
  ℕ, zero, suc, ◌+◌, Bool, true, false, ◌&&◌, ◌||◌, List, [], ◌∷◌, ◌++◌, length, take, drop,
  Outcome, done, no_fuel, ◌>>=◌, ltb, leb, ◌==◌, if◌then◌else◌,
}
use go_fuzz.Bytes.{Bytes}
use go_fuzz.Versifier.{Node, ws, alpha_num, num, control, make_dict}
use go_fuzz.Versifier.Runes.{decode_rune}

pub data TokenState : Type 0 where
  state_control state_ws state_alpha state_num : TokenState

-- The cases of the switch on the rune.
pub data RuneKind : Type 0 where
  letter digit blank other : RuneKind

unfoldable pub rune_kind : ℕ → RuneKind
rune_kind r =
    if leb b'a' r && leb r b'z' || leb b'A' r && leb r b'Z' || r == b'_'
    then letter
    else if leb b'0' r && leb r b'9'
    then digit
    else if r == b' ' || r == b'\t'
    then blank
    else other

pub record Token : Type 0 where
  pub nodes : List Node
  pub restarts : Bool
  pub state : TokenState

abbrev token : List Node → Bool → TokenState → Token
token nodes restarts state = record { nodes = nodes; restarts = restarts; state = state }

-- The node of the term `data[start:i]` that a rune of another kind ends.
unfoldable pub flush : TokenState → Bytes → List Node
flush state_control s = []
flush state_ws s = ws (make_dict s) ∷ []
flush state_alpha s = alpha_num (make_dict s) ∷ []
flush state_num s = num (make_dict s) false ∷ []

-- What a rune appends, whether a term starts at it, and the next state.
unfoldable pub token_step : RuneKind → TokenState → ℕ → Bytes → Token
unfolding flush
token_step letter state_control r s = token [] true state_alpha
token_step letter state_ws r s = token (flush state_ws s) true state_alpha
token_step letter state_alpha r s = token [] false state_alpha
token_step letter state_num r s = token [] false state_alpha
token_step digit state_control r s = token [] true state_num
token_step digit state_ws r s = token (flush state_ws s) true state_num
token_step digit state_alpha r s = token [] false state_alpha
token_step digit state_num r s = token [] false state_num
token_step blank state_control r s = token [] true state_ws
token_step blank state_ws r s = token [] false state_ws
token_step blank state_alpha r s = token (flush state_alpha s) true state_ws
token_step blank state_num r s = token (flush state_num s) true state_ws
token_step other state r s = token (flush state s ++ control r ∷ []) false state_control

-- A term of letters or digits at the end is kept, and blanks at the end are not.
unfoldable pub last_token : TokenState → Bytes → List Node
last_token state_alpha s = alpha_num (make_dict s) ∷ []
last_token state_num s = num (make_dict s) false ∷ []
last_token state_ws s = []
last_token state_control s = []

unfoldable pub tokenize_loop : ℕ → Bytes → ℕ → ℕ → TokenState → List Node → Outcome (List Node)
unfolding token_step last_token
tokenize_loop zero content i start state res =
    if ltb i (length content) then no_fuel else done (res ++ last_token state (drop start content))
tokenize_loop (suc fuel) content i start state res =
    let (r, s) = decode_rune (drop i content) in
    let t = token_step (rune_kind r) state r (drop start (take i content)) in
    let more =
      tokenize_loop fuel content (i + s) (if t.restarts then i else start) t.state
        (res ++ t.nodes) in
    if ltb i (length content) then more else done (res ++ last_token state (drop start content))

unfoldable pub tokenize : Bytes → Outcome (List Node)
unfolding tokenize_loop
tokenize content = tokenize_loop (length content) content 0 0 state_control []
