-- ===== src/Mutator/Slices.antt =====
-- Slice operations of Go with the panics that they make, and how the mutator uses them to open a gap
-- in an input and to fill it.
pub mod Gap
use mathlib.Core.List.{append_assoc, append-nil}
use go_fuzz.Base.{
  ℕ, zero, suc, ◌+◌, ◌≤◌, ◌<◌, ◌≡◌, refl, sym, ap, ap₂, ◌∙◌, [], ◌∷◌, ◌++◌, length, length-append,
  length-take, length-drop, length-copy, length-replicate, take, drop, copy, set, replicate,
  take-append-drop, take-length_append, drop-length_append, copy-eq, Outcome, done, panic, ◌>>=◌,
  ltb, if◌then◌else◌, get_or, arith,
}
use go_fuzz.Bytes.{Bytes}

-- `res[i]`
unfoldable pub index : Bytes → ℕ → Outcome ℕ
index res i = if ltb i (length res) then done (get_or res i 0) else panic

-- `res[i] = v`
unfoldable pub store : Bytes → ℕ → ℕ → Outcome Bytes
store res i v = if ltb i (length res) then done (set res i v) else panic

-- `res[i:j]`
unfoldable pub slice : Bytes → ℕ → ℕ → Outcome Bytes
slice res i j =
    if ltb j i then panic else if ltb (length res) j then panic else done (drop i (take j res))

-- `copy(res[i:j], src)`, with the copied bytes read before any is written.
unfoldable pub copy_to : Bytes → ℕ → ℕ → Bytes → Outcome Bytes
copy_to res i j src =
    if ltb j i
    then panic
    else if ltb (length res) j
    then panic
    else done (take i res ++ (copy (drop i (take j res)) src ++ drop j res))

-- Zeros are appended, and the tail from `pos` on is moved up over them.
unfoldable pub open_gap : Bytes → ℕ → ℕ → Outcome Bytes
unfolding slice copy_to
open_gap res pos n = do
  let grown = res ++ replicate n 0
  tail ← slice grown pos (length grown)
  copy_to grown (pos + n) (length grown) tail

-- `for i := 0; i < n; i++ { res[pos+i] = piece[i] }`
unfoldable pub write_piece : Bytes → ℕ → Bytes → Outcome Bytes
unfolding store
write_piece res pos [] = done res
write_piece res pos (b ∷ piece) = do res' ← store res pos b; write_piece res' (pos + 1) piece

pub index_lem : (res : Bytes) (i : ℕ) → i < length res → index res i ≡ done (get_or res i 0)
unfolding index
index_lem res i h = ground arith

pub store_lem : (res : Bytes) (i v : ℕ) → i < length res → store res i v ≡ done (set res i v)
unfolding store
store_lem res i v h = ground arith

pub slice_lem :
    (res : Bytes) (i j : ℕ) → i ≤ j → j ≤ length res → slice res i j ≡ done (drop i (take j res))
unfolding slice
slice_lem res i j h k = ground arith

pub copy_to_lem :
    (res : Bytes) (i j : ℕ) (src : Bytes)
    → i ≤ j
    → j ≤ length res
    → copy_to res i j src ≡ done (take i res ++ (copy (drop i (take j res)) src ++ drop j res))
unfolding copy_to
copy_to_lem res i j src h k = ground arith

pub take_all : (xs : Bytes) → take (length xs) xs ≡ xs
take_all [] = refl
take_all (x ∷ xs) = ap (λ t. x ∷ t) (take_all xs)

pub drop_all : (xs : Bytes) → drop (length xs) xs ≡ []
drop_all [] = refl
drop_all (x ∷ xs) = drop_all xs

length-copied :
    (res : Bytes) (i j : ℕ) (src : Bytes)
    → i ≤ j
    → j ≤ length res
    → length (take i res ++ (copy (drop i (take j res)) src ++ drop j res)) ≡ length res
length-copied res i j src h k = omega (
  arith,
  length-append (take i res) (copy (drop i (take j res)) src ++ drop j res),
  length-append (copy (drop i (take j res)) src) (drop j res),
  length-copy (drop i (take j res)) src,
  length-take i res,
  length-drop i (take j res),
  length-take j res,
  length-drop j res,
)
