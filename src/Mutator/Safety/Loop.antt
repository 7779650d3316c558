-- ===== src/Mutator/Safety/Loop.antt =====
-- The step and the loop of `mutate` of go-fuzz/mutator.go: panics, and the lengths of inputs.

use go_fuzz.Base.{
  ℕ, zero, suc, ◌+◌, ◌*◌, ◌^◌, ◌<◌, ◌≤◌, Option, none, some, All, length, no_fuel, arith,
}
use go_fuzz.Bytes.{Bytes}
use go_fuzz.Mutator.Draw.{Draw, IsSafe, pure-IsSafe, lift-IsSafe, rand-IsSafe}
use go_fuzz.Mutator.Cases.{interesting16, interesting32}
use go_fuzz.Mutator.Corpus.{RoData}
use go_fuzz.Mutator.Run.{mutations, mutate_step, mutate_loop, next}
use go_fuzz.Mutator.Safety.{AnswerWithin, Within, chain, nth-Safe}
use go_fuzz.Mutator.Safety.Changes.{
  remove_range-Fine, insert_random-Fine, duplicate_range-Fine, copy_range-Fine, bit_flip-Fine,
  set_byte-Fine, swap_bytes-Fine, add_to_byte-Fine, add_to_word-Fine, interesting_byte-Fine,
  interesting_word-Fine,
}
use go_fuzz.Mutator.Safety.Texts.{replace_digit-Fine, replace_number-Fine}
use go_fuzz.Mutator.Safety.Inputs.{
  Fits, splice-Fine, insert_part-Fine, insert_literal-Fine, replace_with_literal-Fine,
}

module _ (fuel : ℕ) (ro : RoData) (k : ℕ) (lits : Fits k ro) (small : k < 2 ^ 32) where
  -- One mutation of `mutate` does not panic, whatever the random numbers, where the corpus, the literals
  -- and the input with one more byte have lengths below 2 ^ 32, and there are integer literals if there
  -- are string literals. It at most
  -- doubles the input and adds `21 + k` bytes, where `k` bounds the literals and the other inputs.
  pub mutate_step-IsSafe :
      (res : Bytes)
      → length res + 1 < 2 ^ 32
      → IsSafe (AnswerWithin (2 * length res + (21 + k))) (mutate_step fuel ro res)
  unfolding mutate_step
  mutate_step-IsSafe res fits = chain (rand-IsSafe fuel 20 (omega arith) (omega arith)) λ n hn.
      chain (lift-IsSafe Fine _ (nth-Safe fuel Fine (mutations fuel ro) n all_fine hn))
        λ mutation fine. fine
    where
      bound : ℕ
      bound = 2 * length res + (21 + k)

      Fine : (Bytes → Draw (Option Bytes)) → Type 0
      Fine m = IsSafe (AnswerWithin (2 * length res + (21 + k))) (m res)

      all_fine : All Fine (mutations fuel ro)
      all_fine = (
        remove_range-Fine fuel res _ fits (omega arith),
        (
          insert_random-Fine fuel res _ fits (omega arith),
          (
            duplicate_range-Fine fuel res _ fits (omega arith),
            (
              copy_range-Fine fuel res _ fits (omega arith),
              (
                bit_flip-Fine fuel res _ fits (omega arith),
                (
                  set_byte-Fine fuel res _ fits (omega arith),
                  (
                    swap_bytes-Fine fuel res _ fits (omega arith),
                    (
                      add_to_byte-Fine fuel res _ fits (omega arith),
                      (
                        add_to_word-Fine fuel res _ fits (omega arith) 2 (omega arith),
                        (
                          add_to_word-Fine fuel res _ fits (omega arith) 4 (omega arith),
                          (
                            add_to_word-Fine fuel res _ fits (omega arith) 8 (omega arith),
                            (
                              interesting_byte-Fine fuel res _ fits (omega arith),
                              (
                                interesting_word-Fine fuel res _ fits (omega arith) 2 interesting16
                                    (omega arith) (omega arith) (omega arith),
                                (
                                  interesting_word-Fine fuel res _ fits (omega arith) 4
                                      interesting32 (omega arith) (omega arith) (omega arith),
                                  (
                                    replace_digit-Fine fuel res _ fits (omega arith),
                                    (
                                      replace_number-Fine fuel res _ fits (omega arith),
                                      (
                                        splice-Fine fuel ro k lits small res _ fits (omega arith),
                                        (
                                          insert_part-Fine fuel ro k lits small res _ fits
                                              (omega arith),
                                          (
                                            insert_literal-Fine fuel ro k lits small res _ fits
                                                (omega arith),
                                            (
                                              replace_with_literal-Fine fuel ro k lits small res _
                                                  fits (omega arith),
                                              tt,
                                            ),
                                          ),
                                        ),
                                      ),
                                    ),
                                  ),
                                ),
                              ),
                            ),
                          ),
                        ),
                      ),
                    ),
                  ),
                ),
              ),
            ),
          ),
        ),
      )

  -- What `left` mutations can make of an input of `n` bytes.
  abbrev pub grown : ℕ → ℕ → ℕ
  grown zero n = n
  grown (suc left) n = grown left (2 * n + (21 + k))

  grown-ge : (left n : ℕ) → n ≤ grown left n
  grown-ge zero n = omega arith
  grown-ge (suc left) n = omega (arith, grown-ge left (2 * n + (21 + k)))

  grown_mono : (left m n : ℕ) → m ≤ n → grown left m ≤ grown left n
  grown_mono zero m n h = h
  grown_mono (suc left) m n h = grown_mono left (2 * m + (21 + k)) (2 * n + (21 + k)) (omega arith)

  -- The loop of `mutate` with `left` mutations to make does not panic, on the same conditions and while
  -- what they can make of the input fits in 32 bits, which is also a bound of its result.
  pub mutate_loop-IsSafe :
      (tries left n : ℕ) (res : Bytes)
      → length res ≤ n
      → grown left n + 1 < 2 ^ 32
      → IsSafe (Within (grown left n)) (mutate_loop fuel ro tries left res)
  unfolding mutate_loop
  mutate_loop-IsSafe tries zero n res h fits = pure-IsSafe _ res h
  mutate_loop-IsSafe zero (suc left) n res h fits = lift-IsSafe _ no_fuel tt
  mutate_loop-IsSafe (suc tries) (suc left) n res h fits =
      chain (mutate_step-IsSafe res (omega (arith, grown-ge (suc left) n))) λ o ho.
        resumed o ho (mutate_loop-IsSafe tries (suc left) n res h fits)
          λ res' h'. mutate_loop-IsSafe tries left (2 * n + (21 + k)) res' (omega arith) fits
    where
      resumed :
          (o : Option Bytes)
          → AnswerWithin (2 * length res + (21 + k)) o
          → {again : Draw Bytes} {more : Bytes → Draw Bytes}
          → IsSafe (Within (grown (suc left) n)) again
          → ((r : Bytes)
              → length r ≤ 2 * length res + (21 + k)
              → IsSafe (Within (grown (suc left) n)) (more r))
          → IsSafe (Within (grown (suc left) n)) (next fuel ro o again more)
      resumed none ho h k = h
      resumed (some r) ho h k = k r ho
