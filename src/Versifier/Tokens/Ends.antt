-- ===== src/Versifier/Tokens/Ends.antt =====
-- `tokenize` returns for every input, valid UTF-8 or not, with well-formed nodes.

use go_fuzz.Base.{
  ℕ, zero, suc, ◌+◌, ◌-◌, ◌≤◌, ◌<◌, List, [], ◌∷◌, length, take, drop, length-drop, Returns,
  Bool-cases, inl, inr, arith, All, All-append, ltb, ltb→lt, le→ltb_false,
}
use go_fuzz.Bytes.{Bytes}
use go_fuzz.Versifier.{Node, control, make_dict}
use go_fuzz.Versifier.Runes.{decode_rune, decode_rune-width}
use go_fuzz.Versifier.Tokens.{
  TokenState, RuneKind, letter, digit, blank, other, state_control, state_ws, state_alpha,
  state_num, rune_kind, token_step, flush, last_token, tokenize_loop, tokenize,
}
use go_fuzz.Versifier.Sound.{Sound}

flush-Sound : (state : TokenState) (s : Bytes) → All Sound (flush state s)
unfolding flush make_dict Sound
flush-Sound state_control s = tt
flush-Sound state_ws s = (tt, tt)
flush-Sound state_alpha s = (tt, tt)
flush-Sound state_num s = (tt, tt)

token_step-Sound :
    (k : RuneKind) (state : TokenState) (r : ℕ) (s : Bytes)
    → All Sound (token_step k state r s).nodes
unfolding token_step Sound
token_step-Sound letter state_control r s = tt
token_step-Sound letter state_ws r s = flush-Sound state_ws s
token_step-Sound letter state_alpha r s = tt
token_step-Sound letter state_num r s = tt
token_step-Sound digit state_control r s = tt
token_step-Sound digit state_ws r s = flush-Sound state_ws s
token_step-Sound digit state_alpha r s = tt
token_step-Sound digit state_num r s = tt
token_step-Sound blank state_control r s = tt
token_step-Sound blank state_ws r s = tt
token_step-Sound blank state_alpha r s = flush-Sound state_alpha s
token_step-Sound blank state_num r s = flush-Sound state_num s
token_step-Sound other state r s =
    All-append Sound (flush state s) (control r ∷ []) (flush-Sound state s) (tt, tt)

last_token-Sound : (state : TokenState) (s : Bytes) → All Sound (last_token state s)
unfolding last_token make_dict Sound
last_token-Sound state_control s = tt
last_token-Sound state_ws s = tt
last_token-Sound state_alpha s = (tt, tt)
last_token-Sound state_num s = (tt, tt)

decode_rune-advances : (bs : Bytes) → 0 < length bs → 1 ≤ (decode_rune bs).1
decode_rune-advances [] h = elim h [ ]
decode_rune-advances (b ∷ bs) h = decode_rune-width b bs

tokenize_loop-Sound :
    (fuel i start : ℕ) (content : Bytes) (state : TokenState) (res : List Node)
    → length content - i ≤ fuel
    → All Sound res
    → Returns (All Sound) (tokenize_loop fuel content i start state res)
unfolding tokenize_loop
tokenize_loop-Sound zero i start content state res le h =
    rw (le→ltb_false i (length content) (omega arith))
      (All-append Sound res _ h (last_token-Sound state (drop start content)))
tokenize_loop-Sound (suc fuel) i start content state res le h =
    elim (Bool-cases (ltb i (length content))) [
      | inr e ↦ rw e (All-append Sound res _ h (last_token-Sound state (drop start content)))
      | inl e ↦ rw e (
          let r = decode_rune (drop i content) in
          let s = drop start (take i content) in
          let left : 0 < length (drop i content) =
            omega (arith, length-drop i content, ltb→lt i (length content) e) in
          tokenize_loop-Sound fuel (i + r.1) _ content _ _
            (omega (arith, decode_rune-advances (drop i content) left))
            (All-append Sound res _ h (token_step-Sound (rune_kind r.0) state r.0 s)))
    ]

-- Whatever the bytes, the loop ends and each dictionary gets a term.
pub tokenize-Sound : (content : Bytes) → Returns (All Sound) (tokenize content)
unfolding tokenize
tokenize-Sound content =
    tokenize_loop-Sound (length content) 0 0 content state_control [] (omega arith) tt
