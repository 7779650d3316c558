-- ===== src/Mutator/Slices/Gap.antt =====
-- Opening a gap in an input and filling it, as the cases of `mutate` do that insert.
use mathlib.Core.List.{append_assoc, append-nil}
use go_fuzz.Base.{
  ℕ, zero, suc, ◌+◌, ◌≤◌, ◌<◌, ◌≡◌, refl, sym, ap, ap₂, ◌∙◌, [], ◌∷◌, ◌++◌, length, length-append,
  length-take, length-drop, length-replicate, take, drop, copy, set, replicate, take-append-drop,
  take-length_append, drop-length_append, copy-eq, done, ◌>>=◌, arith,
}
use go_fuzz.Bytes.{Bytes}
use go_fuzz.Mutator.Slices.{
  open_gap, write_piece, slice_lem, copy_to_lem, store_lem, take_all, drop_all,
}

take-past : (k n : ℕ) (xs ys : Bytes) → k ≡ length xs + n → take k (xs ++ ys) ≡ xs ++ take n ys
take-past k n [] ys e = ap (λ t. take t ys) (omega arith)
take-past zero n (x ∷ xs) ys e = absurd (omega arith)
take-past (suc k) n (x ∷ xs) ys e = ap (λ t. x ∷ t) (take-past k n xs ys (omega arith))

drop-past : (k n : ℕ) (xs ys : Bytes) → k ≡ length xs + n → drop k (xs ++ ys) ≡ drop n ys
drop-past k n [] ys e = ap (λ t. drop t ys) (omega arith)
drop-past zero n (x ∷ xs) ys e = absurd (omega arith)
drop-past (suc k) n (x ∷ xs) ys e = drop-past k n xs ys (omega arith)

drop-too_many : (k : ℕ) (xs : Bytes) → length xs ≤ k → drop k xs ≡ []
drop-too_many zero [] h = refl
drop-too_many zero (x ∷ xs) h = absurd (omega arith)
drop-too_many (suc k) [] h = refl
drop-too_many (suc k) (x ∷ xs) h = drop-too_many k xs (omega arith)

module _ (front back : Bytes) (n : ℕ) where
  abbrev grown : Bytes
  grown = (front ++ back) ++ replicate n 0

  abbrev tail : Bytes
  tail = back ++ replicate n 0

  length-tail : length tail ≡ length back + n
  length-tail = omega (arith, length-append back (replicate n 0), length-replicate {A = ℕ} n 0)

  length-grown : length grown ≡ length front + length tail
  length-grown = omega (
    arith,
    length-append (front ++ back) (replicate n 0),
    length-append front back,
    length-append back (replicate n 0),
  )

  moved : copy (drop n tail) tail ≡ back
  moved =
      let size : length (drop n tail) ≡ length back =
        omega (arith, length-drop n tail, length-tail) in
      copy-eq (drop n tail) tail
      ∙ ap₂ (λ x y. x ++ y) (ap (λ k. take k tail) size ∙ take-length_append back (replicate n 0))
          (drop-too_many (length tail) (drop n tail) (omega (arith, size, length-tail)))
      ∙ append-nil back

  split_gap : open_gap (front ++ back) (length front) n ≡ done (front ++ (take n tail ++ back))
  unfolding open_gap
  split_gap =
      let size = length-grown in
      let room = length-tail in
      let whole : take (length grown) grown ≡ grown = take_all grown in
      let read : drop (length front) grown ≡ tail =
        ap (drop (length front)) (append_assoc front back (replicate n 0))
        ∙ drop-length_append front tail in
      let head : take (length front + n) grown ≡ front ++ take n tail =
        ap (take (length front + n)) (append_assoc front back (replicate n 0))
        ∙ take-past _ n front tail refl in
      let moved_to : drop (length front + n) grown ≡ drop n tail =
        ap (drop (length front + n)) (append_assoc front back (replicate n 0))
        ∙ drop-past _ n front tail refl in
      rw
        (
          slice_lem grown (length front) (length grown) (omega arith) (omega arith),
          copy_to_lem grown (length front + n) (length grown)
              (drop (length front) (take (length grown) grown)) (omega arith) (omega arith),
          whole,
          read,
          head,
          moved_to,
          moved,
          drop_all grown,
          append-nil,
          append_assoc,
        )
        refl

-- The gap: the input with `n` bytes between its parts, which are what they were.
pub open_gap_lem :
    (res : Bytes) (pos n : ℕ)
    → pos ≤ length res
    → (gap : Bytes) × (length gap ≡ n)
      × (open_gap res pos n ≡ done (take pos res ++ (gap ++ drop pos res)))
open_gap_lem res pos n h =
    let front : length (take pos res) ≡ pos = omega (arith, length-take pos res) in
    let split = split_gap (take pos res) (drop pos res) n in
    (
      take n (tail (take pos res) (drop pos res) n),
      omega (
        arith,
        length-take n (tail (take pos res) (drop pos res) n),
        length-tail (take pos res) (drop pos res) n,
      ),
      ap₂ (λ xs k. open_gap xs k n) (sym (take-append-drop pos res)) (sym front) ∙ split,
    )

set_at :
    (front : Bytes) (g : ℕ) (rest : Bytes) (v pos : ℕ)
    → length front ≡ pos
    → set (front ++ g ∷ rest) pos v ≡ front ++ v ∷ rest
set_at [] g rest v zero e = refl
set_at [] g rest v (suc pos) e = absurd (omega arith)
set_at (x ∷ front) g rest v zero e = absurd (omega arith)
set_at (x ∷ front) g rest v (suc pos) e = ap (λ t. x ∷ t) (set_at front g rest v pos (omega arith))

-- Writing a piece over as many bytes.
pub write_piece_lem :
    (front gap rest piece : Bytes) (pos : ℕ)
    → length front ≡ pos
    → length gap ≡ length piece
    → write_piece (front ++ (gap ++ rest)) pos piece ≡ done (front ++ (piece ++ rest))
unfolding write_piece
write_piece_lem front [] rest [] pos e f = refl
write_piece_lem front [] rest (p ∷ piece) pos e f = absurd (omega arith)
write_piece_lem front (g ∷ gap) rest [] pos e f = absurd (omega arith)
write_piece_lem front (g ∷ gap) rest (p ∷ piece) pos e f =
    let inside : pos < length (front ++ (g ∷ (gap ++ rest))) =
      omega (arith, length-append front (g ∷ (gap ++ rest))) in
    let next : length (front ++ p ∷ []) ≡ pos + 1 = omega (arith, length-append front (p ∷ [])) in
    rw
      (
        store_lem (front ++ (g ∷ (gap ++ rest))) pos p inside,
        set_at front g (gap ++ rest) p pos e,
        ← append_assoc front (p ∷ []) (gap ++ rest),
        write_piece_lem (front ++ p ∷ []) gap rest piece (pos + 1) next (omega arith),
        append_assoc front (p ∷ []) (piece ++ rest),
      )
      refl

-- Opening a gap in an input and writing a piece of its size into it inserts the piece: what stood before
-- the place and behind it is kept.
pub insert_lem :
    (res : Bytes) (pos : ℕ) (piece : Bytes)
    → pos ≤ length res
    → (open_gap res pos (length piece) >>= λ gapped. write_piece gapped pos piece)
      ≡ done (take pos res ++ (piece ++ drop pos res))
insert_lem res pos piece h =
    let (gap, size, opened) = open_gap_lem res pos (length piece) h in
    rw opened (
      write_piece_lem (take pos res) gap (drop pos res) piece pos
        (omega (arith, length-take pos res)) size)
