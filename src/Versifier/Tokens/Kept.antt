-- ===== src/Versifier/Tokens/Kept.antt =====
-- The loop of `tokenize` over indices against the recursion on the bytes that are left.
use mathlib.Core.List.{append_assoc, append-nil}
use go_fuzz.Base.{
  ℕ, zero, suc, ◌+◌, ◌≤◌, ◌<◌, ◌≡◌, refl, ap, ◌∙◌, Bool, true, false, List, [], ◌∷◌, ◌++◌, length,
  take, drop, length-append, take-length_append, drop-length_append, done, if◌then◌else◌, All,
  arith, lt→ltb, le→ltb_false, Returns, All-mono,
}
use native.Mathlib.Nat.{le_refl}
use go_fuzz.Bytes.{Bytes}
use go_fuzz.Versifier.{Node, text}
use go_fuzz.Versifier.Runes.{decode_rune_ascii}
use go_fuzz.Versifier.Tokens.{
  TokenState, RuneKind, letter, digit, blank, other, state_control, state_ws, state_alpha,
  state_num, rune_kind, token_step, flush, last_token, tokenize_loop, tokenize,
}
use go_fuzz.Versifier.Tokens.Trims.{trim_blanks, next_term, scan, text-scan}

-- The term that was begun starts at `start`; between terms `start` is stale.
abbrev Starts : TokenState → ℕ → Bytes → Bytes → Type 0
Starts state_control start front p = p ≡ []
Starts state_ws start front p = start ≡ length front
Starts state_alpha start front p = start ≡ length front
Starts state_num start front p = start ≡ length front

slice_term :
    (start i : ℕ) (front p rest : Bytes)
    → start ≡ length front
    → i ≡ length (front ++ p)
    → drop start (take i ((front ++ p) ++ rest)) ≡ p
slice_term start i front p rest e e' =
    rw (e, e', take-length_append (front ++ p) rest) (drop-length_append front p)

-- A step reads no more of the slice than the term that was begun.
token_step-slice :
    (k : RuneKind) (state : TokenState) (b start i : ℕ) (front p rest : Bytes)
    → Starts state start front p
    → i ≡ length (front ++ p)
    → token_step k state b (drop start (take i ((front ++ p) ++ rest))) ≡ token_step k state b p
unfolding token_step flush
token_step-slice letter state_control b start i front p rest h e = refl
token_step-slice digit state_control b start i front p rest h e = refl
token_step-slice blank state_control b start i front p rest h e = refl
token_step-slice other state_control b start i front p rest h e = refl
token_step-slice k state_ws b start i front p rest h e =
    rw (slice_term start i front p rest h e) refl
token_step-slice k state_alpha b start i front p rest h e =
    rw (slice_term start i front p rest h e) refl
token_step-slice k state_num b start i front p rest h e =
    rw (slice_term start i front p rest h e) refl

last_token-slice :
    (state : TokenState) (start : ℕ) (front p : Bytes)
    → Starts state start front p
    → last_token state (drop start (front ++ p)) ≡ last_token state p
unfolding last_token
last_token-slice state_control start front p h = refl
last_token-slice state_ws start front p h = refl
last_token-slice state_alpha start front p h = rw (h, drop-length_append front p) refl
last_token-slice state_num start front p h = rw (h, drop-length_append front p) refl

-- What stands before the next term.
next_front : Bool → TokenState → Bytes → Bytes → ℕ → Bytes
next_front true state front p b = front ++ p
next_front false state_control front p b = front ++ (p ++ b ∷ [])
next_front false state_ws front p b = front
next_front false state_alpha front p b = front
next_front false state_num front p b = front

next-append :
    (restarts : Bool) (state : TokenState) (front p : Bytes) (b : ℕ)
    → next_front restarts state front p b ++ next_term restarts state p b ≡ front ++ (p ++ b ∷ [])
unfolding next_front next_term
next-append true state front p b = append_assoc front p (b ∷ [])
next-append false state_control front p b = append-nil _
next-append false state_ws front p b = refl
next-append false state_alpha front p b = refl
next-append false state_num front p b = refl

next-Starts :
    (k : RuneKind) (state : TokenState) (b start : ℕ) (front p : Bytes)
    → Starts state start front p
    → (let t = token_step k state b p in
        Starts t.state
          (if t.restarts then length (front ++ p) else start)
          (next_front t.restarts t.state front p b)
          (next_term t.restarts t.state p b))
unfolding token_step next_front next_term
next-Starts letter state_control b start front p h = refl
next-Starts letter state_ws b start front p h = refl
next-Starts letter state_alpha b start front p h = h
next-Starts letter state_num b start front p h = h
next-Starts digit state_control b start front p h = refl
next-Starts digit state_ws b start front p h = refl
next-Starts digit state_alpha b start front p h = h
next-Starts digit state_num b start front p h = h
next-Starts blank state_control b start front p h = refl
next-Starts blank state_ws b start front p h = h
next-Starts blank state_alpha b start front p h = refl
next-Starts blank state_num b start front p h = refl
next-Starts other state b start front p h = refl

more_rest :
    (front p rest : Bytes) (b : ℕ) → (front ++ p) ++ b ∷ rest ≡ (front ++ (p ++ b ∷ [])) ++ rest
more_rest front p rest b = simp append_assoc refl

length-more : (front p : Bytes) (b : ℕ) → length (front ++ p) + 1 ≡ length (front ++ (p ++ b ∷ []))
length-more front p b =
    omega
      (arith, length-append front p, length-append front (p ++ b ∷ []), length-append p (b ∷ []))

module _ (front p rest : Bytes) (b start fuel : ℕ) (state : TokenState) (res : List Node) where
  -- One round of the loop at the byte `b`.
  tokenize_loop-step :
      b < 128
      → Starts state start front p
      → (let t = token_step (rune_kind b) state b p in
          let i = length (front ++ p) in
          tokenize_loop (suc fuel) ((front ++ p) ++ b ∷ rest) i start state res
          ≡ tokenize_loop fuel
              ((front ++ p) ++ b ∷ rest)
              (i + 1)
              (if t.restarts then i else start)
              t.state
              (res ++ t.nodes))
  unfolding tokenize_loop
  tokenize_loop-step ascii h =
      let inside : length (front ++ p) < length ((front ++ p) ++ b ∷ rest) =
        omega (arith, length-append (front ++ p) (b ∷ rest)) in
      rw
        (
          lt→ltb _ _ inside,
          drop-length_append (front ++ p) (b ∷ rest),
          decode_rune_ascii b rest ascii,
          token_step-slice (rune_kind b) state b start (length (front ++ p)) front p (b ∷ rest) h
              refl,
        )
        refl

tokenize_loop-end :
    (fuel start : ℕ) (front p : Bytes) (state : TokenState) (res : List Node)
    → Starts state start front p
    → tokenize_loop fuel (front ++ p) (length (front ++ p)) start state res
      ≡ done (res ++ last_token state p)
unfolding tokenize_loop
tokenize_loop-end zero start front p state res h =
    rw (le→ltb_false _ _ (le_refl _), last_token-slice state start front p h) refl
tokenize_loop-end (suc fuel) start front p state res h =
    rw (le→ltb_false _ _ (le_refl _), last_token-slice state start front p h) refl

tokenize_loop-scan :
    (rest : Bytes) (fuel start : ℕ) (front p : Bytes) (state : TokenState) (res : List Node)
    → length rest ≤ fuel
    → All (λ b. b < 128) rest
    → Starts state start front p
    → tokenize_loop fuel ((front ++ p) ++ rest) (length (front ++ p)) start state res
      ≡ done (res ++ scan state p rest)
unfolding scan
tokenize_loop-scan [] fuel start front p state res le h s =
    rw (append-nil (front ++ p)) (tokenize_loop-end fuel start front p state res s)
tokenize_loop-scan (b ∷ rest) zero start front p state res le h s = absurd (omega arith)
tokenize_loop-scan (b ∷ rest) (suc fuel) start front p state res le h s =
    let t = token_step (rune_kind b) state b p in
    let front' = next_front t.restarts t.state front p b in
    let p' = next_term t.restarts t.state p b in
    let start' = if t.restarts then length (front ++ p) else start in
    let joins = next-append t.restarts t.state front p b in
    let ih =
      tokenize_loop-scan rest fuel start' front' p' t.state (res ++ t.nodes) (omega arith) h.1
        (next-Starts (rune_kind b) state b start front p s) in
    let here : tokenize_loop fuel ((front ++ p) ++ b ∷ rest) (length (front ++ p) + 1) start'
          t.state (res ++ t.nodes)
        ≡ tokenize_loop fuel ((front' ++ p') ++ rest) (length (front' ++ p')) start' t.state
            (res ++ t.nodes) =
      rw (joins, more_rest front p rest b, length-more front p b) refl in
    tokenize_loop-step front p rest b start fuel state res h.0 s
    ∙ here
    ∙ ih
    ∙ ap (λ ns. done ns) (append_assoc res t.nodes (scan t.state p' rest))

-- The nodes of an ASCII input hold its text without the blanks at its end, which are dropped.
pub tokenize-trim_blanks :
    (content : Bytes)
    → All (λ b. b < 128) content
    → Returns (λ ns. text ns ≡ trim_blanks content) (tokenize content)
unfolding tokenize
tokenize-trim_blanks content h =
    rw (tokenize_loop-scan content (length content) 0 [] [] state_control [] (le_refl _) h refl)
      (text-scan state_control [] content (All-mono _ _ content (λ b lt. omega arith) h) refl)
