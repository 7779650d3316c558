-- ===== src/Mutator/Safety.antt =====
-- Panics in the mutations of go-fuzz/mutator.go. This file has the rules for the operations that the
-- cases of `mutate` consist of.
pub mod Changes
pub mod Texts
pub mod Inputs
pub mod Literals
pub mod Loop
use go_fuzz.Base.{
  ℕ, zero, suc, ◌+◌, ◌-◌, ◌*◌, ◌^◌, ◌<◌, ◌≤◌, ◌≡◌, refl, sym, ap, ◌∙◌, Bool, true, false, Option,
  none, some, List, [], ◌∷◌, ◌++◌, All, length, length-append, length-take, length-drop,
  length-copy, length-set, length-replicate, take, drop, copy, set, Outcome, done, panic, no_fuel,
  Safe, Safe-mono, ltb, ◌==◌, if◌then◌else◌, Bool-cases, inl, inr, arith, tests,
}
use go_fuzz.Bytes.{Bytes}
use go_fuzz.Mutator.Draw.{
  Draw, pure, lift, ◌>>=◌, IsSafe, pure-IsSafe, IsSafe-mono, lift-IsSafe, bind-IsSafe, if-IsSafe,
  rand, rand-IsSafe, flip, rand_byte_order, ByteOrder, little, big, randbig,
}
use go_fuzz.Mutator.Slices.Gap.{open_gap_lem}
use go_fuzz.Mutator.Slices.{
  index, store, slice, copy_to, open_gap, write_piece, store_lem, slice_lem, copy_to_lem, index_lem,
}
use go_fuzz.Bytes.Value.{length-le_bytes, le_bytes}
use go_fuzz.Bytes.Reverse.{length-reverse}
use go_fuzz.Mutator.Cases.{other_than, fill_random, put_word, get_word, word_bytes, read_word}
use go_fuzz.Mutator.Text.{pick, nth}

-- An input of at most `n` bytes.
abbrev pub Within : ℕ → Bytes → Type 0
Within n res = length res ≤ n

-- What a case of `mutate` answers: that it draws again, or an input of at most `n` bytes.
abbrev pub AnswerWithin : ℕ → Option Bytes → Type 0
AnswerWithin n none = Unit
AnswerWithin n (some res) = length res ≤ n

abbrev pub HasLength : ℕ → Bytes → Type 0
HasLength n res = length res ≡ n

module _ {A B : Type 0} {P : A → Type 0} {Q : B → Type 0} {m : Draw A} {f : A → Draw B} where
  pub chain : IsSafe P m → ((a : A) → P a → IsSafe Q (f a)) → IsSafe Q (m >>= f)
  chain h k = bind-IsSafe P Q m f h k

pub slice-IsSafe :
    (res : Bytes) (i j : ℕ)
    → i ≤ j
    → j ≤ length res
    → IsSafe (HasLength (j - i)) (lift (slice res i j))
slice-IsSafe res i j h k =
    lift-IsSafe _ (slice res i j)
      (rw (slice_lem res i j h k) (omega (arith, length-drop i (take j res), length-take j res)))

pub copy_to-IsSafe :
    (res : Bytes) (i j : ℕ) (src : Bytes)
    → i ≤ j
    → j ≤ length res
    → IsSafe (HasLength (length res)) (lift (copy_to res i j src))
copy_to-IsSafe res i j src h k = lift-IsSafe _ (copy_to res i j src) (
    rw (copy_to_lem res i j src h k) (
      omega (
        arith,
        length-append (take i res) (copy (drop i (take j res)) src ++ drop j res),
        length-append (copy (drop i (take j res)) src) (drop j res),
        length-copy (drop i (take j res)) src,
        length-take i res,
        length-drop i (take j res),
        length-take j res,
        length-drop j res,
      )))

pub open_gap-IsSafe :
    (res : Bytes) (pos n : ℕ)
    → pos ≤ length res
    → IsSafe (HasLength (length res + n)) (lift (open_gap res pos n))
open_gap-IsSafe res pos n h =
    let (gap, size, opened) = open_gap_lem res pos n h in
    lift-IsSafe _ (open_gap res pos n) (
      rw opened (
        omega (
          arith,
          length-append (take pos res) (gap ++ drop pos res),
          length-append gap (drop pos res),
          length-take pos res,
          length-drop pos res,
        )))

pub index-IsSafe : (res : Bytes) (i : ℕ) → i < length res → IsSafe (λ v. Unit) (lift (index res i))
index-IsSafe res i h = lift-IsSafe _ (index res i) (rw (index_lem res i h) tt)

pub store-IsSafe :
    (res : Bytes) (i v : ℕ)
    → i < length res
    → IsSafe (HasLength (length res)) (lift (store res i v))
store-IsSafe res i v h =
    lift-IsSafe _ (store res i v) (rw (store_lem res i v h) (length-set res i v))

write_piece-Safe :
    (res : Bytes) (pos : ℕ) (piece : Bytes)
    → pos + length piece ≤ length res
    → Safe (HasLength (length res)) (write_piece res pos piece)
unfolding write_piece
write_piece-Safe res pos [] h = refl
write_piece-Safe res pos (b ∷ piece) h = rw (store_lem res pos b (omega arith)) (
    Safe-mono (HasLength (length (set res pos b))) (HasLength (length res)) _
      (λ r e. omega (arith, length-set res pos b))
      (write_piece-Safe (set res pos b) (pos + 1) piece (omega (arith, length-set res pos b))))

pub write_piece-IsSafe :
    (res : Bytes) (pos : ℕ) (piece : Bytes)
    → pos + length piece ≤ length res
    → IsSafe (HasLength (length res)) (lift (write_piece res pos piece))
write_piece-IsSafe res pos piece h =
    lift-IsSafe _ (write_piece res pos piece) (write_piece-Safe res pos piece h)

length-word_bytes : (order : ByteOrder) (size v : ℕ) → length (word_bytes order size v) ≡ size
length-word_bytes little size v = length-le_bytes size v
length-word_bytes big size v = length-reverse (le_bytes size v) ∙ length-le_bytes size v

module _ (order : ByteOrder) (size : ℕ) (res : Bytes) (pos : ℕ) (h : pos + size ≤ length res) where
  get_word_lem : get_word order size res pos ≡ done (read_word order size (drop pos res))
  unfolding get_word
  get_word_lem = ground arith

  pub get_word-IsSafe : IsSafe (λ v. Unit) (lift (get_word order size res pos))
  get_word-IsSafe = lift-IsSafe _ (get_word order size res pos) (rw get_word_lem tt)

  put_word_lem :
      (v : ℕ) → put_word order size res pos v ≡ write_piece res pos (word_bytes order size v)
  unfolding put_word
  put_word_lem v = ground arith

  pub put_word-IsSafe :
      (v : ℕ) → IsSafe (HasLength (length res)) (lift (put_word order size res pos v))
  put_word-IsSafe v = lift-IsSafe _ (put_word order size res pos v) (
      rw (put_word_lem v) (
        write_piece-Safe res pos (word_bytes order size v) (rw (length-word_bytes order size v) h)))

pub flip-IsSafe : IsSafe (λ b. Unit) flip
unfolding flip
flip-IsSafe = record { at = λ r. tt }

pub randbig-IsSafe : IsSafe (λ b. Unit) randbig
unfolding randbig
randbig-IsSafe = record { at = λ r. tt }

pub rand_byte_order-IsSafe : IsSafe (λ o. Unit) rand_byte_order
unfolding rand_byte_order flip
rand_byte_order-IsSafe = record { at = λ r. tt }

module _ (fuel : ℕ) where
  pub other_than-IsSafe :
      (tries n src dst : ℕ)
      → n < 2 ^ 32
      → dst < n
      → IsSafe (λ k. k < n) (other_than fuel tries n src dst)
  unfolding other_than
  other_than-IsSafe zero n src dst fits h =
      if-IsSafe _ (dst == src) _ _ (λ e. lift-IsSafe _ no_fuel tt) (λ e. pure-IsSafe _ dst h)
  other_than-IsSafe (suc tries) n src dst fits h =
      if-IsSafe _ (dst == src) _ _
        (λ e.
          chain (rand-IsSafe fuel n fits (omega arith))
            (λ k hk. other_than-IsSafe tries n src k fits hk))
        (λ e. pure-IsSafe _ dst h)

  pub fill_random-IsSafe :
      (n : ℕ) (res : Bytes) (pos : ℕ)
      → pos + n ≤ length res
      → IsSafe (HasLength (length res)) (fill_random fuel n res pos)
  unfolding fill_random
  fill_random-IsSafe zero res pos h = pure-IsSafe _ res refl
  fill_random-IsSafe (suc n) res pos h =
      chain (rand-IsSafe fuel 256 (omega arith) (omega arith)) λ b hb.
        chain (store-IsSafe res pos _ (omega arith)) λ res' e.
          IsSafe-mono _ _ _ (λ r er. omega arith)
            (fill_random-IsSafe n res' (pos + 1) (omega arith))

  pub nth-Safe :
      {A : Type 0} (P : A → Type 0) (xs : List A) (k : ℕ)
      → All P xs
      → k < length xs
      → Safe P (nth xs k)
  unfolding nth
  nth-Safe P [] k all h = absurd (omega arith)
  nth-Safe P (x ∷ xs) zero all h = all.0
  nth-Safe P (x ∷ xs) (suc k) all h = nth-Safe P xs k all.1 (omega arith)

  pub pick-IsSafe :
      {A : Type 0} (P : A → Type 0) (xs : List A)
      → All P xs
      → 0 < length xs
      → length xs < 2 ^ 32
      → IsSafe P (pick fuel xs)
  unfolding pick
  pick-IsSafe P xs all pos fits =
      chain (rand-IsSafe fuel (length xs) fits pos) λ k h. lift-IsSafe P _ (nth-Safe P xs k all h)
