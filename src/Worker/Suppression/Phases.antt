-- ===== src/Worker/Suppression/Phases.antt =====
-- The suppression of a crash as a report in parts: the line that starts the crash message, and the functions
-- of the first stack behind it that is not the runtime's.
use mathlib.Core.List.{append-nil, append_assoc}
use go_fuzz.Base.{
  ◌≡◌, refl, sym, true, false, Option, none, some, List, [], ◌∷◌, ◌++◌, length, ◌==◌, Bool-cases,
  inl, inr, ap, ◌∙◌, if◌then◌else◌, bytes_eq, bytes_eq→≡, arith,
}
use go_fuzz.Bytes.{Bytes}
use go_fuzz.Worker.Suppression.{
  starts_crash, abort_text, killed_text, runtime_text, function_name, scan, extract_suppression,
}

-- `stack` gives the functions of the stack that the lines begin with, up to a blank line, and `next_stack`
-- those of the stack behind the next blank line. The runtime's stack is passed over.
unfoldable mutual
  pub stack : List Bytes → Bytes
  stack [] = []
  stack (l ∷ ls) = elim (bytes_eq l runtime_text) [
    | true ↦ next_stack ls
    | false ↦ elim (length l == 0) [ true ↦ [] | false ↦ function_name l ++ stack ls ]
  ]

  pub next_stack : List Bytes → Bytes
  next_stack [] = []
  next_stack (l ∷ ls) = elim (length l == 0) [ true ↦ stack ls | false ↦ next_stack ls ]

-- The first line that starts a crash message, and the functions of its stack unless the line is the one of
-- an abort.
unfoldable pub crash_text : List Bytes → Option Bytes
crash_text [] = none
crash_text (l ∷ ls) = elim (starts_crash l) [
  | true ↦ some (l ++ b'\n' ∷ (elim (bytes_eq l abort_text) [ true ↦ [] | false ↦ next_stack ls ]))
  | false ↦ crash_text ls
]

abbrev pub or_else : Option Bytes → Bytes → Bytes
or_else none out = out
or_else (some text) out = text

function_name_blank : (l : Bytes) → length l ≡ 0 → function_name l ≡ []
unfolding function_name
function_name_blank [] h = refl
function_name_blank (c ∷ l) h = absurd (omega arith)

runtime_not_blank : (l : Bytes) → bytes_eq l runtime_text ≡ true → (length l == 0) ≡ false
runtime_not_blank l h = rw (bytes_eq→≡ l runtime_text h) refl

starts_crash-not_blank : (l : Bytes) → starts_crash l ≡ true → (length l == 0) ≡ false
unfolding starts_crash
starts_crash-not_blank [] h = cc
starts_crash-not_blank (c ∷ l) h = ground arith

-- No crash message starts with the text of a kill.
killed_starts_not : starts_crash killed_text ≡ false
unfolding starts_crash
killed_starts_not = refl

starts_crash-not_killed : (l : Bytes) → starts_crash l ≡ true → bytes_eq l killed_text ≡ false
starts_crash-not_killed l h = elim (Bool-cases (bytes_eq l killed_text)) [
  | inl t ↦
      let e : starts_crash l ≡ false =
        ap starts_crash (bytes_eq→≡ l killed_text t) ∙ killed_starts_not in
      cc
  | inr f ↦ f
]

mutual
  unfolding scan stack next_stack

  scan-stack : (ls : List Bytes) (supp : Bytes) → scan ls supp true true ≡ supp ++ stack ls
  scan-stack [] supp = sym (append-nil supp)
  scan-stack (l ∷ ls) supp = ground (
    arith,
    runtime_not_blank l,
    function_name_blank l,
    append-nil supp,
    append_assoc supp (function_name l) (stack ls),
    scan-next_stack ls supp,
    scan-stack ls (supp ++ function_name l),
  )

  scan-next_stack :
      (ls : List Bytes) (supp : Bytes) → scan ls supp true false ≡ supp ++ next_stack ls
  scan-next_stack [] supp = sym (append-nil supp)
  scan-next_stack (l ∷ ls) supp = ground (arith, scan-next_stack ls supp, scan-stack ls supp)

scan-crash_text : (ls : List Bytes) → scan ls [] false false ≡ or_else (crash_text ls) []
unfolding scan crash_text
scan-crash_text [] = refl
scan-crash_text (l ∷ ls) = elim (Bool-cases (starts_crash l)) [
  | inr quiet ↦ rw quiet (scan-crash_text ls)
  | inl starts ↦
      let killed = starts_crash-not_killed l starts in
      let blank = starts_crash-not_blank l starts in
      elim (Bool-cases (bytes_eq l abort_text)) [
        | inl aborted ↦ rw (starts, killed, blank, aborted) refl
        | inr other ↦
            rw
              (
                starts,
                killed,
                blank,
                other,
                scan-next_stack ls (l ++ b'\n' ∷ []),
                append_assoc l (b'\n' ∷ []) (next_stack ls),
              )
              refl
      ]
]

report_not_empty : (l t : Bytes) → (length (l ++ b'\n' ∷ t) == 0) ≡ false
report_not_empty [] t = ground arith
report_not_empty (c ∷ l) t = ground arith

-- The output is kept where there is no crash message.
empty_crash_text :
    (ls : List Bytes) (out : Bytes)
    → (if length (or_else (crash_text ls) []) == 0 then out else or_else (crash_text ls) [])
      ≡ or_else (crash_text ls) out
unfolding crash_text starts_crash
empty_crash_text [] out = refl
empty_crash_text (l ∷ ls) out = elim (Bool-cases (starts_crash l)) [
  | inr quiet ↦ rw quiet (empty_crash_text ls out)
  | inl starts ↦ rw (starts, report_not_empty l _) refl
]

-- The suppression of a crash is the first line of the output that starts a crash message, and behind it the
-- names of the functions in the first stack, which begins after the next blank line and ends at the one
-- after it, or is left at a line `runtime stack:` for the stack after the next blank line. Where the first
-- line is the one that an abort prints, nothing follows it. An output in which no line starts a crash
-- message is its own suppression. The text of a kill starts no crash message.
pub extract_suppression-crash_text :
    (lines : Bytes → List Bytes) (out : Bytes)
    → (extract_suppression lines out ≡ or_else (crash_text (lines out)) out)
      × (starts_crash killed_text ≡ false)
unfolding extract_suppression
extract_suppression-crash_text lines out =
    (rw (scan-crash_text (lines out)) (empty_crash_text (lines out) out), killed_starts_not)
