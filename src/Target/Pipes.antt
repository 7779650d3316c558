-- ===== src/Target/Pipes.antt =====
-- The loops `read` and `write` of go-fuzz-dep/main.go, however the operating system cuts up what they
-- transfer and whenever it interrupts them.
use mathlib.Core.List.{append_assoc}
use go_fuzz.Base.{
  ℕ, zero, suc, ◌+◌, ◌-◌, ◌≤◌, ◌<◌, ◌≡◌, refl, sym, ap, ◌∙◌, ◌⊎◌, inl, inr, false, List, [], ◌∷◌,
  ◌++◌, length, length-append, length-take, length-drop, take-append-drop, take, drop, min, Outcome,
  done, panic, no_fuel, Returns, Returns-mono, Returns-bind, ◌==◌, ==_iff, Bool-cases,
  if◌then◌else◌, arith,
}
use go_fuzz.Bytes.{Bytes}
use go_fuzz.Target.{Turn, interrupted, moves, fails, read_loop, write_loop}

-- The turns transfer so many bytes: interruptions aside, each call moves a byte until all are moved.
abbrev pub Enough : ℕ → List Turn → Type 0
Enough n [] = n ≡ 0
Enough n (interrupted ∷ turns) = Enough n turns
Enough n (moves k ∷ turns) = (n ≡ 0) ⊎ ((0 < k) × Enough (n - k) turns)
Enough n (fails ∷ turns) = n ≡ 0

append-nil : (xs : Bytes) → xs ++ [] ≡ xs
append-nil [] = refl
append-nil (x ∷ xs) = ap (λ t. x ∷ t) (append-nil xs)

take_in_parts : (n d m : ℕ) (xs : Bytes) → n + d ≡ m → take n xs ++ take d (drop n xs) ≡ take m xs
take_in_parts zero d m xs e = let e' : d ≡ m = omega (arith, e) in rw e' refl
take_in_parts (suc n) d zero xs e = absurd (omega (arith, e))
take_in_parts (suc n) zero (suc m) [] e = refl
take_in_parts (suc n) (suc d) (suc m) [] e = refl
take_in_parts (suc n) d (suc m) (x ∷ xs) e =
    ap (λ t. x ∷ t) (take_in_parts n d m xs (omega (arith, e)))

drop_in_parts : (n d m : ℕ) (xs : Bytes) → n + d ≡ m → drop d (drop n xs) ≡ drop m xs
drop_in_parts zero d m xs e = let e' : d ≡ m = omega (arith, e) in rw e' refl
drop_in_parts (suc n) d zero xs e = absurd (omega (arith, e))
drop_in_parts (suc n) zero (suc m) [] e = refl
drop_in_parts (suc n) (suc d) (suc m) [] e = refl
drop_in_parts (suc n) d (suc m) (x ∷ xs) e = drop_in_parts n d m xs (omega (arith, e))

all_read :
    (m : ℕ) (buf stream : Bytes) → m ≡ 0 → (buf ≡ buf ++ take m stream) × (stream ≡ drop m stream)
all_read m buf stream z = rw z (sym (append-nil buf), refl)

-- What the loop of `read` is to come to.
abbrev Reads : ℕ → Bytes → Bytes → Bytes × (Bytes × List Turn) → Type 0
Reads m buf stream r = (r.0 ≡ buf ++ take m stream) × (r.1.0 ≡ drop m stream)

unless_full :
    (turns : List Turn) (size m : ℕ) (buf stream : Bytes)
    (o : Outcome (Bytes × (Bytes × List Turn)))
    → length buf + m ≡ size
    → (0 < m → Returns (Reads m buf stream) o)
    → Returns (Reads m buf stream) (if length buf == size then done (buf, (stream, turns)) else o)
unless_full turns size m buf stream o e k = elim (Bool-cases (length buf == size)) [
  | inl y ↦
      let same = (==_iff (length buf) size).0 y in
      rw y (all_read m buf stream (omega (arith, e, same)))
  | inr n ↦ rw n (k (ground (arith, e, n)))
]

module _ (turns : List Turn) (size m k : ℕ) (buf stream : Bytes) where
  moved : ℕ
  moved = min k (min (size - length buf) (length stream))

  after_move :
      length buf + m ≡ size
      → m ≤ length stream
      → 0 < k
      → 0 < m
      → Returns
          (Reads (m - k) (buf ++ take moved stream) (drop moved stream))
          (read_loop turns size (buf ++ take moved stream) (drop moved stream))
      → Returns (Reads m buf stream) (
          if moved == 0
          then panic
          else read_loop turns size (buf ++ take moved stream) (drop moved stream))
  unfolding moved
  after_move e l p q h =
      let parts : moved + (m - k) ≡ m = omega (arith, e) in
      let some : (moved == 0) ≡ false = ground (arith, e) in
      rw some (
        Returns-mono (Reads (m - k) (buf ++ take moved stream) (drop moved stream))
          (Reads m buf stream) _
          (λ r r_reads. (
            r_reads.0
                ∙ append_assoc buf (take moved stream) (take (m - k) (drop moved stream))
                ∙ ap (λ t. buf ++ t) (take_in_parts moved (m - k) m stream parts),
            r_reads.1 ∙ drop_in_parts moved (m - k) m stream parts,
          ))
          h)

-- The loop of `read` comes to the next bytes of the stream, and leaves the others there.
pub read_loop-Returns :
    (turns : List Turn) (size m : ℕ) (buf stream : Bytes)
    → length buf + m ≡ size
    → m ≤ length stream
    → Enough m turns
    → Returns
        (λ r. (r.0 ≡ buf ++ take m stream) × (r.1.0 ≡ drop m stream))
        (read_loop turns size buf stream)
unfolding read_loop moved
read_loop-Returns [] size m buf stream e l h =
    unless_full [] size m buf stream no_fuel e (λ lt. absurd (omega (arith, lt, h)))
read_loop-Returns (interrupted ∷ turns) size m buf stream e l h =
    unless_full (interrupted ∷ turns) size m buf stream _ e
      (λ lt. read_loop-Returns turns size m buf stream e l h)
read_loop-Returns (fails ∷ turns) size m buf stream e l h =
    unless_full (fails ∷ turns) size m buf stream panic e (λ lt. absurd (omega (arith, lt, h)))
read_loop-Returns (moves k ∷ turns) size m buf stream e l h =
    unless_full (moves k ∷ turns) size m buf stream _ e λ lt. elim h [
      | inl z ↦ absurd (omega (arith, lt, z))
      | inr more ↦ after_move turns size m k buf stream e l more.0 lt (
          read_loop-Returns turns size (m - k)
            (buf ++ take (moved turns size m k buf stream) stream)
            (drop (moved turns size m k buf stream) stream)
            (omega (
              arith,
              e,
              length-append buf (take (moved turns size m k buf stream) stream),
              length-take (moved turns size m k buf stream) stream,
            ))
            (omega (arith, e, length-drop (moved turns size m k buf stream) stream)) more.1)
    ]

-- The loop of `write` puts the whole buffer into the pipe.
pub write_loop-Returns :
    (turns : List Turn) (buf : Bytes)
    → Enough (length buf) turns
    → Returns (λ r. r.0 ≡ buf) (write_loop turns buf)
unfolding write_loop
write_loop-Returns [] [] h = refl
write_loop-Returns [] (b ∷ buf) h = absurd (omega (arith, h))
write_loop-Returns (t ∷ turns) [] h = refl
write_loop-Returns (interrupted ∷ turns) (b ∷ buf) h = write_loop-Returns turns (b ∷ buf) h
write_loop-Returns (fails ∷ turns) (b ∷ buf) h = absurd (omega (arith, h))
write_loop-Returns (moves n ∷ turns) (b ∷ buf) h = elim h [
  | inl z ↦ absurd (omega (arith, z))
  | inr more ↦
      let shorter = length-drop n (b ∷ buf) in
      Returns-bind (λ r. r.0 ≡ drop n (b ∷ buf)) (λ r. r.0 ≡ b ∷ buf)
        (write_loop turns (drop n (b ∷ buf))) _
        (write_loop-Returns turns (drop n (b ∷ buf)) (rw shorter more.1))
        λ r e. ap (λ t. take n (b ∷ buf) ++ t) e ∙ take-append-drop n (b ∷ buf)
]
