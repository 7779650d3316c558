-- ===== src/Mutator/Safety/Literals.antt =====
-- What the cases 18 and 19 of `mutate` do where the program under test has string literals and no
-- integer literals.
use go_fuzz.Base.{ℕ, suc, ◌≡◌, ap, arith, ◌∙◌, done, false, List, [], ◌∷◌, length, panic, ◌==◌}
use go_fuzz.Bytes.{Bytes}
use go_fuzz.Pcg
use go_fuzz.Pcg.{Rand}
use go_fuzz.Pcg.Draws.{uint32n-zero}
use go_fuzz.Types.{Input}
use go_fuzz.Mutator.Draw.{flip, rand, after_panic, after_done}
use go_fuzz.Mutator.Text.{pick, nth}
use go_fuzz.Mutator.Corpus.{RoData, use_string, literal, insert_literal, replace_with_literal}

abbrev pub ro_of : List Input → Bytes → List Bytes → RoData
ro_of corpus s strings = record { corpus = corpus; str_lits = s ∷ strings; int_lits = [] }

some_string : (strings : List Bytes) → (suc (length strings) == 0) ≡ false
some_string strings = ground arith

literal-panics :
    (fuel : ℕ) (corpus : List Input) (s : Bytes) (strings : List Bytes) (r : Rand)
    → (Pcg.bool r).0 ≡ false
    → literal fuel (ro_of corpus s strings) r ≡ panic
unfolding literal use_string flip pick rand nth Pcg.intn
literal-panics fuel corpus s strings r e =
    after_done (use_string (ro_of corpus s strings)) _ r (Pcg.bool r).1 false used
    ∙ after_panic (pick fuel (ro_of corpus s strings).int_lits) _ (Pcg.bool r).1 (
        after_done (rand fuel 0) _ (Pcg.bool r).1 (Pcg.step (Pcg.bool r).1) 0
          (uint32n-zero fuel (Pcg.bool r).1))
  where
    used : use_string (ro_of corpus s strings) r ≡ done (false, (Pcg.bool r).1)
    used = rw (some_string strings) (ap (λ b. done (b, (Pcg.bool r).1)) e)

-- Both cases panic where there are string literals, no integer literals, and the random bit says that an
-- integer literal is to be used: the random number below 0 is 0, which is no index of the empty slice.
pub insert_literal-panics :
    (fuel : ℕ) (corpus : List Input) (s : Bytes) (strings : List Bytes) (res : Bytes) (r : Rand)
    → (Pcg.bool r).0 ≡ false
    → let ro = ro_of corpus s strings in
      (insert_literal fuel ro res r ≡ panic) × (replace_with_literal fuel ro res r ≡ panic)
unfolding insert_literal replace_with_literal
insert_literal-panics fuel corpus s strings res r e = (
  rw (some_string strings) (
      after_panic (literal fuel (ro_of corpus s strings)) _ r
        (literal-panics fuel corpus s strings r e)),
  rw (some_string strings) (
      after_panic (literal fuel (ro_of corpus s strings)) _ r
        (literal-panics fuel corpus s strings r e)),
)
