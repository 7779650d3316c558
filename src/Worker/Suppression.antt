-- ===== src/Worker/Suppression.antt =====
-- `extractSuppression`, which reduces the output of a crash to what identifies the crash. The lines of
-- the output are those of `bufio.Scanner`, of Go's standard library: `lines` is a parameter.
pub mod Phases
use go_fuzz.Base.{
  ℕ, zero, suc, ◌+◌, Bool, true, false, not, ◌&&◌, ◌||◌, Option, none, some, List, [], ◌∷◌, ◌++◌,
  length, take, ltb, leb, ◌==◌, if◌then◌else◌, bytes_eq,
}
use go_fuzz.Bytes.{Bytes}

-- "panic: ", "fatal error: ", "SIG", ": ", "SIGABRT: abort", "signal: killed" and "runtime stack:"
abbrev pub panic_text : Bytes
panic_text = b'p' ∷ b'a' ∷ b'n' ∷ b'i' ∷ b'c' ∷ b':' ∷ b' ' ∷ []

abbrev pub fatal_text : Bytes
fatal_text =
    b'f' ∷ b'a' ∷ b't' ∷ b'a' ∷ b'l' ∷ b' ' ∷ b'e' ∷ b'r' ∷ b'r' ∷ b'o' ∷ b'r' ∷ b':' ∷ b' ' ∷ []

abbrev pub sig_text : Bytes
sig_text = b'S' ∷ b'I' ∷ b'G' ∷ []

abbrev pub colon_text : Bytes
colon_text = b':' ∷ b' ' ∷ []

abbrev pub abort_text : Bytes
abort_text =
    sig_text ++ (b'A' ∷ b'B' ∷ b'R' ∷ b'T' ∷ colon_text ++ (b'a' ∷ b'b' ∷ b'o' ∷ b'r' ∷ b't' ∷ []))

abbrev pub killed_text : Bytes
killed_text =
    b's' ∷ b'i' ∷ b'g' ∷ b'n' ∷ b'a' ∷ b'l' ∷ colon_text
    ++ (b'k' ∷ b'i' ∷ b'l' ∷ b'l' ∷ b'e' ∷ b'd' ∷ [])

abbrev pub runtime_text : Bytes
runtime_text =
    b'r' ∷ b'u' ∷ b'n' ∷ b't' ∷ b'i' ∷ b'm' ∷ b'e' ∷ b' ' ∷ b's' ∷ b't' ∷ b'a' ∷ b'c' ∷ b'k' ∷ b':'
    ∷ []

-- `strings.HasPrefix(line, prefix)`
unfoldable pub has_prefix : Bytes → Bytes → Bool
has_prefix line [] = true
has_prefix [] (p ∷ prefix) = false
has_prefix (c ∷ line) (p ∷ prefix) = (c == p) && has_prefix line prefix

-- `strings.LastIndex(line, "(")`
unfoldable pub last_paren : Bytes → Option ℕ
last_paren [] = none
last_paren (c ∷ line) = elim (last_paren line) [
  | some i ↦ some (i + 1)
  | none ↦ if c == b'(' then some 0 else none
]

-- `strings.Index(line, ": ") != 0` holds where the line does not begin with the text, also where it does
-- not have it.
unfoldable pub starts_crash : Bytes → Bool
unfolding has_prefix
starts_crash line =
    has_prefix line panic_text
    || has_prefix line fatal_text
    || (has_prefix line sig_text && not (has_prefix line colon_text))

unfoldable pub starts_with_letter : Bytes → Bool
starts_with_letter [] = false
starts_with_letter (c ∷ line) = (leb b'a' c && leb c b'z') || (leb b'A' c && leb c b'Z')

-- The function's name in a line of a stack.
unfoldable pub function_name : Bytes → Bytes
unfolding last_paren starts_with_letter
function_name line =
    if starts_with_letter line
    then elim (last_paren line) [ none ↦ [] | some idx ↦ take idx line ++ b'\n' ∷ [] ]
    else []

-- The loop over the lines, with `supp`, `seenPanic` and `collect`.
unfoldable pub scan : List Bytes → Bytes → Bool → Bool → Bytes
unfolding starts_crash function_name bytes_eq
scan [] supp seen collect = supp
scan (line ∷ lines) supp seen collect =
    let starts = not seen && starts_crash line in
    let supp1 = if starts then supp ++ (line ++ b'\n' ∷ []) else supp in
    let seen1 = seen || starts in
    let collect1 = collect && not (bytes_eq line runtime_text) in
    let supp2 = if collect1 then supp1 ++ function_name line else supp1 in
    let blank = length line == 0 in
    let rest = scan lines supp2 seen1 (collect1 || (seen1 && blank)) in
    if starts && (bytes_eq line abort_text || bytes_eq line killed_text)
    then supp1
    else if collect1 && blank
    then supp2
    else rest

unfoldable pub extract_suppression : (Bytes → List Bytes) → Bytes → Bytes
unfolding scan
extract_suppression lines out =
    let supp = scan (lines out) [] false false in if length supp == 0 then out else supp
