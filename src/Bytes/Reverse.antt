-- ===== src/Bytes/Reverse.antt =====
-- `reverse` of go-fuzz/worker.go.
use mathlib.Core.List.{reverse-reverse, reverse-cons, append_assoc, append-nil}
use mathlib.Core.List
use go_fuzz.Base.{
  arith, length-append, ℕ, ◌≡◌, refl, sym, ap, ◌∙◌, [], ◌∷◌, ◌++◌, length, set, replicate,
}
use go_fuzz.Bytes.{Bytes, reverse, reverse_loop}

set_last :
    (k v : ℕ) (done : Bytes) → set (replicate k 0 ++ 0 ∷ done) k v ≡ replicate k 0 ++ v ∷ done
set_last ℕ.zero v done = refl
set_last (ℕ.suc k) v done = ap (λ t. 0 ∷ t) (set_last k v done)

replicate-append :
    (k : ℕ) (done : Bytes) → replicate (ℕ.suc k) 0 ++ done ≡ replicate k 0 ++ 0 ∷ done
replicate-append ℕ.zero done = refl
replicate-append (ℕ.suc k) done = ap (λ t. 0 ∷ t) (replicate-append k done)

reverse_loop-append :
    (bs done : Bytes) → reverse_loop bs (replicate (length bs) 0 ++ done) ≡ List.reverse bs ++ done
unfolding reverse_loop
reverse_loop-append [] done = refl
reverse_loop-append (b ∷ bs) done =
    rw (replicate-append (length bs) done, set_last (length bs) b done)
      (reverse_loop-append bs (b ∷ done)
        ∙ sym (
            ap (λ t. t ++ done) (reverse-cons b bs) ∙ append_assoc (List.reverse bs) (b ∷ []) done))

-- The loop of `reverse` builds the mirrored string.
pub reverse-eq : (bs : Bytes) → reverse bs ≡ List.reverse bs
unfolding reverse
reverse-eq bs =
    ap (λ t. reverse_loop bs t) (sym (append-nil _)) ∙ reverse_loop-append bs [] ∙ append-nil _

-- Mirroring twice gives the string back.
pub reverse-reverse_lem : (bs : Bytes) → reverse (reverse bs) ≡ bs
reverse-reverse_lem bs = ap reverse (reverse-eq bs) ∙ reverse-eq _ ∙ reverse-reverse bs

length-mirror : (bs : Bytes) → length (List.reverse bs) ≡ length bs
length-mirror [] = refl
length-mirror (b ∷ bs) =
    rw (reverse-cons b bs)
      (omega (arith, length-append (List.reverse bs) (b ∷ []), length-mirror bs))

pub length-reverse : (bs : Bytes) → length (reverse bs) ≡ length bs
length-reverse bs = rw (reverse-eq bs) (length-mirror bs)
