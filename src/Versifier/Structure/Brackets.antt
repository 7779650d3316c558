-- ===== src/Versifier/Structure/Brackets.antt =====
-- `structureBrackets` does not panic and keeps the text of the nodes: the stack knows for each open
-- bracket the place of its control node.
use mathlib.Core.List.{append_assoc, append-nil}
use mathlib.Core.Path.{subst}
use mathlib.Core.Option.{some-injective}
use go_fuzz.Base.{
  ℕ, suc, ◌+◌, ◌<◌, ◌≡◌, refl, sym, ap, ◌∙◌, ◌==◌, Option, none, some, List, [], ◌∷◌, ◌++◌, length,
  take, drop, length-append, take-length_append, done, panic, Returns, Returns-bind, Bool-cases,
  inl, inr, arith, u8, All-append, All-append_left, All-append_right, ==_iff, lt→ltb, ltb,
  if◌then◌else◌,
}
use go_fuzz.Bytes.{Bytes}
use go_fuzz.Versifier.{
  Node, control, bracket, text, node_text, of_list, nodes_text-of_list, text-append,
}
use go_fuzz.Versifier.Sound.{Sound, Holds, of_list-Sound}
use go_fuzz.Versifier.Structure.{
  Brk, find_open, push_open, closing, bracket_round, bracket_loop, structure_brackets,
}

-- The control node of an open bracket stands at its place, the open brackets below it before.
record OpenAt (k : Brk) (front earlier later : List Node) : Type 0 where
  splits : front ≡ earlier ++ control k.opened ∷ later
  at_pos : k.pos ≡ length earlier

abbrev Stacked : List Node → List Brk → Type 0
Stacked front [] = Unit
Stacked front (k ∷ stk) =
    (earlier : List Node) × (later : List Node) × OpenAt k front earlier later × Stacked earlier stk

OpenAt-append :
    (k : Brk) (front earlier later ns : List Node)
    → OpenAt k front earlier later
    → OpenAt k (front ++ ns) earlier (later ++ ns)
OpenAt-append k front earlier later ns at = record {
  splits = ap (λ xs. xs ++ ns) at.splits ∙ append_assoc earlier (control k.opened ∷ later) ns;
  at_pos = at.at_pos;
}

Stacked-append :
    (front : List Node) (stk : List Brk) (ns : List Node)
    → Stacked front stk
    → Stacked (front ++ ns) stk
Stacked-append front [] ns h = tt
Stacked-append front (k ∷ stk) ns (earlier, later, at, below) =
    (earlier, later ++ ns, OpenAt-append k front earlier later ns at, below)

-- The entry that a closing bracket finds.
abbrev Found : ℕ → List Node → Brk × List Brk → Type 0
Found ch front (k, below) =
    (earlier : List Node) × (later : List Node) × (k.closed ≡ ch)
    × OpenAt k front earlier later
    × Stacked earlier below

Found-append :
    (ch : ℕ) (front ns : List Node) (r : Brk × List Brk)
    → Found ch front r
    → Found ch (front ++ ns) r
Found-append ch front ns (k, below) (earlier, later, c, at, b) =
    (earlier, later ++ ns, c, OpenAt-append k front earlier later ns at, b)

find_open-Found :
    (ch : ℕ) (front : List Node) (stk : List Brk) (r : Brk × List Brk)
    → Stacked front stk
    → find_open ch stk ≡ some r
    → Found ch front r
unfolding find_open
find_open-Found ch front [] r h e = absurd (cc)
find_open-Found ch front (k ∷ stk) r (earlier, later, at, below) e =
    elim (Bool-cases (ch == k.closed)) [
      | inl t ↦
          subst (Found ch front) (some-injective _ _ (rw t at e))
            (earlier, later, sym ((==_iff ch k.closed).0 t), at, below)
      | inr t ↦
          subst (λ f. Found ch f r) (sym at.splits)
            (Found-append ch earlier (control k.opened ∷ later) r
              (find_open-Found ch earlier stk r below (rw t at e)))
    ]

abbrev After : Bytes → List Node → List Node × List Brk → Type 0
After t rest (front, stk) = Holds t (front ++ rest) × Stacked front stk

module _ (t : Bytes) (front : List Node) (stk : List Brk) (rest : List Node) where
  -- The index moves on over the node.
  moved : (n : Node) → Holds t (front ++ n ∷ rest) → Holds t ((front ++ n ∷ []) ++ rest)
  moved n h = rw (append_assoc front (n ∷ []) rest) h

  push_open-Stacked :
      (ch : ℕ)
      → Stacked front stk
      → Stacked (front ++ control ch ∷ []) (push_open ch (length front) stk)
  unfolding push_open
  push_open-Stacked ch h = pushed (closing ch)
    where
      pushed :
          (o : Option ℕ)
          → Stacked (front ++ control ch ∷ []) (elim o [
            | none ↦ stk
            | some c ↦ record { opened = ch; closed = c; pos = length front } ∷ stk
          ])
      pushed none = Stacked-append front stk (control ch ∷ []) h
      pushed (some c) = (front, [], record { splits = refl; at_pos = refl }, h)

module _ (t : Bytes) (k : Brk) (earlier later rest : List Node) where
  bracket-text :
      text (bracket k.opened k.closed (of_list later) ∷ rest)
      ≡ text (control k.opened ∷ (later ++ control k.closed ∷ rest))
  unfolding text node_text
  bracket-text =
      rw (nodes_text-of_list later, text-append later (control k.closed ∷ rest))
        (append_assoc (u8 k.opened ∷ text later) (u8 k.closed ∷ []) (text rest))

  closed-Holds :
      Holds t ((earlier ++ control k.opened ∷ later) ++ control k.closed ∷ rest)
      → Holds t ((earlier ++ bracket k.opened k.closed (of_list later) ∷ []) ++ rest)
  unfolding Sound
  closed-Holds h =
      let outer = All-append_left Sound (earlier ++ control k.opened ∷ later) _ h.sound in
      let after = All-append_right Sound (earlier ++ control k.opened ∷ later) _ h.sound in
      let inner = All-append_right Sound earlier (control k.opened ∷ later) outer in
      record {
        writes =
            ap text (append_assoc earlier (bracket k.opened k.closed (of_list later) ∷ []) rest)
            ∙ text-append earlier (bracket k.opened k.closed (of_list later) ∷ rest)
            ∙ ap (λ x. text earlier ++ x) bracket-text
            ∙ sym (text-append earlier (control k.opened ∷ (later ++ control k.closed ∷ rest)))
            ∙ ap text
                (sym (append_assoc earlier (control k.opened ∷ later) (control k.closed ∷ rest)))
            ∙ h.writes;
        sound =
            All-append Sound (earlier ++ bracket k.opened k.closed (of_list later) ∷ []) rest
              (All-append Sound earlier (bracket k.opened k.closed (of_list later) ∷ [])
                (All-append_left Sound earlier (control k.opened ∷ later) outer)
                (of_list-Sound later inner.1, tt))
              after.1;
      }

drop-past : (xs : List Node) (x : Node) (ys : List Node) → drop (length xs + 1) (xs ++ x ∷ ys) ≡ ys
drop-past xs x ys = let e : length xs + 1 ≡ suc (length xs) = omega arith in rw e (drop-suc xs)
  where
    drop-suc : (zs : List Node) → drop (suc (length zs)) (zs ++ x ∷ ys) ≡ ys
    drop-suc [] = refl
    drop-suc (z ∷ zs) = drop-suc zs

close-After :
    (t : Bytes) (front : List Node) (rest : List Node) (ch : ℕ) (k : Brk) (below : List Brk)
    → Holds t (front ++ control ch ∷ rest)
    → Found ch front (k, below)
    → Returns (After t rest) (
        if ltb k.pos (length front)
        then done (
          take k.pos front ++ bracket k.opened k.closed (of_list (drop (k.pos + 1) front)) ∷ [],
          below,
        )
        else panic)
close-After t front rest ch k below h (earlier, later, c, at, b) =
    let inside : k.pos < length front = omega (
      arith,
      at.at_pos,
      ap (λ xs. length xs) at.splits,
      length-append earlier (control k.opened ∷ later),
    ) in
    let whole : Holds t ((earlier ++ control k.opened ∷ later) ++ control k.closed ∷ rest) =
      rw (c, ← at.splits) h in
    rw
      (
        lt→ltb _ _ inside,
        at.at_pos,
        at.splits,
        take-length_append earlier (control k.opened ∷ later),
        drop-past earlier (control k.opened) later,
      )
      (closed-Holds t k earlier later rest whole, Stacked-append earlier below _ b)

bracket_round-After :
    (t : Bytes) (front : List Node) (stk : List Brk) (n : Node) (rest : List Node)
    → Holds t (front ++ n ∷ rest)
    → Stacked front stk
    → Returns (After t rest) (bracket_round front stk n)
unfolding bracket_round
bracket_round-After t front stk (control ch) rest h s = searched (find_open ch stk) refl
  where
    searched :
        (o : Option (Brk × List Brk))
        → find_open ch stk ≡ o
        → Returns (After t rest) (elim o [
          | none ↦ done (front ++ control ch ∷ [], push_open ch (length front) stk)
          | some (k, below) ↦
              if ltb k.pos (length front)
              then done (
                take k.pos front
                    ++ bracket k.opened k.closed (of_list (drop (k.pos + 1) front)) ∷ [],
                below,
              )
              else panic
        ])
    searched none e =
        (moved t front stk rest (control ch) h, push_open-Stacked t front stk rest ch s)
    searched (some (k, below)) e =
        close-After t front rest ch k below h (find_open-Found ch front stk (k, below) s e)
bracket_round-After t front stk n rest h s =
    (moved t front stk rest n h, Stacked-append front stk (n ∷ []) s)

bracket_loop-Holds :
    (t : Bytes) (front : List Node) (stk : List Brk) (rest : List Node)
    → Holds t (front ++ rest)
    → Stacked front stk
    → Returns (Holds t) (bracket_loop front stk rest)
unfolding bracket_loop
bracket_loop-Holds t front stk [] h s = rw (append-nil front) at h
bracket_loop-Holds t front stk (n ∷ rest) h s =
    Returns-bind (After t rest) (Holds t) (bracket_round front stk n) _
      (bracket_round-After t front stk n rest h s) λ r k. bracket_loop-Holds t r.0 r.1 rest k.0 k.1

pub structure_brackets-Holds :
    (t : Bytes) (nn : List Node) → Holds t nn → Returns (Holds t) (structure_brackets nn)
unfolding structure_brackets
structure_brackets-Holds t nn h = bracket_loop-Holds t [] [] nn h tt
