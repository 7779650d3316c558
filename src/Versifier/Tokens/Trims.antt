-- ===== src/Versifier/Tokens/Trims.antt =====
-- The nodes of `tokenize` hold the text of an ASCII input up to the blanks at its end: the loop over
-- indices against a recursion on the bytes that are left.
use mathlib.Core.List.{append_assoc, append-nil}
use go_fuzz.Base.{
  ℕ, ◌<◌, ◌≡◌, refl, sym, ap, ◌∙◌, Bool, true, false, List, [], ◌∷◌, ◌++◌, ◌||◌, ◌==◌,
  if◌then◌else◌, u8, All, arith,
}
use go_fuzz.Bytes.{Bytes}
use go_fuzz.Versifier.{Node, ws, alpha_num, num, control, make_dict, text, text-append, node_text}
use go_fuzz.Versifier.Tokens.{
  TokenState, RuneKind, letter, digit, blank, other, state_control, state_ws, state_alpha,
  state_num, rune_kind, token_step, flush, last_token,
}

abbrev pub is_blank : ℕ → Bool
is_blank b = b == b' ' || b == b'\t'

abbrev cons_trim : ℕ → Bytes → Bytes
cons_trim b [] = if is_blank b then [] else b ∷ []
cons_trim b (c ∷ bs) = b ∷ c ∷ bs

-- The text without the blanks at its end.
abbrev pub trim_blanks : Bytes → Bytes
trim_blanks [] = []
trim_blanks (b ∷ bs) = cons_trim b (trim_blanks bs)

cons_trim_solid : (b : ℕ) (bs : Bytes) → is_blank b ≡ false → cons_trim b bs ≡ b ∷ bs
cons_trim_solid b [] h = rw h refl
cons_trim_solid b (c ∷ bs) h = refl

cons_trim-append : (b c : ℕ) (p r : Bytes) → cons_trim b (p ++ c ∷ r) ≡ b ∷ (p ++ c ∷ r)
cons_trim-append b c [] r = refl
cons_trim-append b c (x ∷ p) r = refl

-- What stands before a byte that is no blank is kept.
trim_blanks-append :
    (p r : Bytes) (b : ℕ) → is_blank b ≡ false → trim_blanks (p ++ b ∷ r) ≡ p ++ b ∷ trim_blanks r
trim_blanks-append [] r b h = cons_trim_solid b (trim_blanks r) h
trim_blanks-append (x ∷ p) r b h =
    rw (trim_blanks-append p r b h) (cons_trim-append x b p (trim_blanks r))

cons_trim-eq-nil : (x : ℕ) (t : Bytes) → cons_trim x t ≡ [] → t ≡ []
cons_trim-eq-nil x [] e = refl
cons_trim-eq-nil x (c ∷ t) e = absurd (cc)

trim_blanks-append_blank :
    (p : Bytes) (b : ℕ) → is_blank b ≡ true → trim_blanks p ≡ [] → trim_blanks (p ++ b ∷ []) ≡ []
trim_blanks-append_blank [] b h e = rw h refl
trim_blanks-append_blank (x ∷ p) b h e =
    let none_left = cons_trim-eq-nil x (trim_blanks p) e in
    ap (λ t. cons_trim x t) (trim_blanks-append_blank p b h none_left ∙ sym none_left) ∙ e

-- A term that does not end in a blank.
abbrev pub IsSolid : Bytes → Type 0
IsSolid p = (r : Bytes) → trim_blanks (p ++ r) ≡ p ++ trim_blanks r

snoc-IsSolid : (p : Bytes) (b : ℕ) → is_blank b ≡ false → IsSolid (p ++ b ∷ [])
snoc-IsSolid p b h r =
    rw (append_assoc p (b ∷ []) r, append_assoc p (b ∷ []) (trim_blanks r))
      (trim_blanks-append p r b h)

-- What is known of the bytes of the term that a state is in.
abbrev pub Fits : TokenState → Bytes → Type 0
Fits state_control p = p ≡ []
Fits state_ws p = trim_blanks p ≡ []
Fits state_alpha p = IsSolid p
Fits state_num p = IsSolid p

-- The tokens of the bytes that are left, where `p` is the term that was begun.
unfoldable pub next_term : Bool → TokenState → Bytes → ℕ → Bytes
next_term true state p b = b ∷ []
next_term false state_control p b = []
next_term false state_ws p b = p ++ b ∷ []
next_term false state_alpha p b = p ++ b ∷ []
next_term false state_num p b = p ++ b ∷ []

unfoldable pub scan : TokenState → Bytes → Bytes → List Node
scan state p [] = last_token state p
scan state p (b ∷ rest) =
    let t = token_step (rune_kind b) state b p in
    t.nodes ++ scan t.state (next_term t.restarts t.state p b) rest

-- What the kind of a byte says of it.
abbrev OfKind : RuneKind → ℕ → Type 0
OfKind letter b = is_blank b ≡ false
OfKind digit b = is_blank b ≡ false
OfKind blank b = is_blank b ≡ true
OfKind other b = is_blank b ≡ false

if-OfKind :
    (l d k : Bool) (b : ℕ)
    → is_blank b ≡ k
    → (l ≡ true → k ≡ false)
    → (d ≡ true → k ≡ false)
    → OfKind (if l then letter else if d then digit else if k then blank else other) b
if-OfKind true d k b e h h' = e ∙ h refl
if-OfKind false true k b e h h' = e ∙ h' refl
if-OfKind false false true b e h h' = e
if-OfKind false false false b e h h' = e

rune_kind-OfKind : (b : ℕ) → OfKind (rune_kind b) b
unfolding rune_kind
rune_kind-OfKind b = if-OfKind _ _ (is_blank b) b refl (λ e. ground arith) (λ e. ground arith)

-- A term that ends at `b`.
ended :
    (n : Node) (p r : Bytes) (b : ℕ)
    → node_text n ≡ p
    → trim_blanks (p ++ b ∷ r) ≡ p ++ trim_blanks (b ∷ r)
    → text (n ∷ []) ++ trim_blanks (b ∷ r) ≡ trim_blanks (p ++ b ∷ r)
unfolding text
ended n p r b e h = rw (e, h) (append_assoc p [] (trim_blanks (b ∷ r)))

-- One byte moves what is trimmed from the rest into the nodes and the next term.
abbrev Moves : RuneKind → TokenState → ℕ → Bytes → Bytes → Type 0
Moves k state b p rest =
    let t = token_step k state b p in
    let p' = next_term t.restarts t.state p b in
    (text t.nodes ++ trim_blanks (p' ++ rest) ≡ trim_blanks (p ++ b ∷ rest)) × Fits t.state p'

module _ (b : ℕ) (p rest : Bytes) where
  solid_end : is_blank b ≡ false → trim_blanks (p ++ b ∷ rest) ≡ p ++ trim_blanks (b ∷ rest)
  solid_end h =
      trim_blanks-append p rest b h
      ∙ ap (λ t. p ++ t) (sym (cons_trim_solid b (trim_blanks rest) h))

  grows : trim_blanks ((p ++ b ∷ []) ++ rest) ≡ trim_blanks (p ++ b ∷ rest)
  grows = ap (λ t. trim_blanks t) (append_assoc p (b ∷ []) rest)

  starts : p ≡ [] → trim_blanks (b ∷ rest) ≡ trim_blanks (p ++ b ∷ rest)
  starts e = rw e refl

  -- A control node in place of the byte that it holds.
  controlled :
      (ns : List Node)
      → b < 256
      → is_blank b ≡ false
      → text ns ≡ p
      → text (ns ++ control b ∷ []) ++ trim_blanks rest ≡ trim_blanks (p ++ b ∷ rest)
  unfolding text node_text
  controlled ns byte h e =
      let low : u8 b ≡ b = omega arith in
      rw (text-append ns (control b ∷ []), e, low, trim_blanks-append p rest b h)
        (append_assoc p (b ∷ []) (trim_blanks rest))

token_step-Moves :
    (k : RuneKind) (state : TokenState) (b : ℕ) (p rest : Bytes)
    → b < 256
    → OfKind k b
    → Fits state p
    → Moves k state b p rest
unfolding token_step flush make_dict next_term text node_text
token_step-Moves letter state_control b p rest byte h e = (starts b p rest e, snoc-IsSolid [] b h)
token_step-Moves letter state_ws b p rest byte h e =
    (ended (ws (p ∷ [])) p rest b refl (solid_end b p rest h), snoc-IsSolid [] b h)
token_step-Moves letter state_alpha b p rest byte h e = (grows b p rest, snoc-IsSolid p b h)
token_step-Moves letter state_num b p rest byte h e = (grows b p rest, snoc-IsSolid p b h)
token_step-Moves digit state_control b p rest byte h e = (starts b p rest e, snoc-IsSolid [] b h)
token_step-Moves digit state_ws b p rest byte h e =
    (ended (ws (p ∷ [])) p rest b refl (solid_end b p rest h), snoc-IsSolid [] b h)
token_step-Moves digit state_alpha b p rest byte h e = (grows b p rest, snoc-IsSolid p b h)
token_step-Moves digit state_num b p rest byte h e = (grows b p rest, snoc-IsSolid p b h)
token_step-Moves blank state_control b p rest byte h e =
    (starts b p rest e, trim_blanks-append_blank [] b h refl)
token_step-Moves blank state_ws b p rest byte h e =
    (grows b p rest, trim_blanks-append_blank p b h e)
token_step-Moves blank state_alpha b p rest byte h e =
    (ended (alpha_num (p ∷ [])) p rest b refl (e (b ∷ rest)), trim_blanks-append_blank [] b h refl)
token_step-Moves blank state_num b p rest byte h e =
    (ended (num (p ∷ []) false) p rest b refl (e (b ∷ rest)), trim_blanks-append_blank [] b h refl)
token_step-Moves other state_control b p rest byte h e =
    (controlled b p rest [] byte h (sym e), refl)
token_step-Moves other state_ws b p rest byte h e =
    (controlled b p rest (ws (p ∷ []) ∷ []) byte h (append-nil p), refl)
token_step-Moves other state_alpha b p rest byte h e =
    (controlled b p rest (alpha_num (p ∷ []) ∷ []) byte h (append-nil p), refl)
token_step-Moves other state_num b p rest byte h e =
    (controlled b p rest (num (p ∷ []) false ∷ []) byte h (append-nil p), refl)

text-last_token :
    (state : TokenState) (p : Bytes)
    → Fits state p
    → text (last_token state p) ≡ trim_blanks (p ++ [])
unfolding last_token make_dict text node_text
text-last_token state_control p e = rw e refl
text-last_token state_ws p e = rw (append-nil p) (sym e)
text-last_token state_alpha p e = sym (e [])
text-last_token state_num p e = sym (e [])

pub text-scan :
    (state : TokenState) (p rest : Bytes)
    → All (λ b. b < 256) rest
    → Fits state p
    → text (scan state p rest) ≡ trim_blanks (p ++ rest)
unfolding scan
text-scan state p [] h e = text-last_token state p e
text-scan state p (b ∷ rest) h e =
    let t = token_step (rune_kind b) state b p in
    let p' = next_term t.restarts t.state p b in
    let (moves, fits) = token_step-Moves (rune_kind b) state b p rest h.0 (rune_kind-OfKind b) e in
    text-append t.nodes (scan t.state p' rest)
    ∙ ap (λ s. text t.nodes ++ s) (text-scan t.state p' rest h.1 fits)
    ∙ moves
