-- ===== src/Tests/Mutations.antt =====
-- The theorems on the mutator.
use go_fuzz.Base.{◌+◌, ◌*◌, ◌≡◌, refl, inr, false, [], ◌∷◌, length, panic, arith}
use go_fuzz.Bytes.{Bytes}
use go_fuzz.Pcg
use go_fuzz.Pcg.{Rand}
use go_fuzz.Types.{Input, exec_corpus}
use go_fuzz.Mutator.Draw.{IsSafe}
use go_fuzz.Mutator.Corpus.{RoData, insert_literal, replace_with_literal}
use go_fuzz.Mutator.Run.{mutate_step, mutate_loop}
use go_fuzz.Mutator.Safety.{AnswerWithin, Within}
use go_fuzz.Mutator.Safety.Inputs.{Fits}
use go_fuzz.Mutator.Safety.Literals.{ro_of, insert_literal-panics}
use go_fuzz.Mutator.Safety.Loop.{mutate_step-IsSafe, grown, mutate_loop-IsSafe}

abbrev input : Bytes → Input
input content = record {
  mine = false;
  content = content;
  cover = [];
  cover_size = 1;
  res = 0;
  depth = 0;
  typ = exec_corpus;
  exec_time = 1;
  favored = false;
  score = 10;
  running_score_sum = 10;
}

abbrev ro : RoData
ro = record {
  corpus = input (b'a' ∷ b'b' ∷ b'c' ∷ b'd' ∷ []) ∷ input (b'1' ∷ b'2' ∷ []) ∷ [];
  str_lits = (b'x' ∷ []) ∷ [];
  int_lits = (1 ∷ 0 ∷ []) ∷ [];
}

ro-Fits : Fits 4 ro
ro-Fits = record {
  contents = (omega arith, (omega arith, tt));
  strings = (omega arith, tt);
  integers = (omega arith, tt);
  few = (omega arith, omega arith, omega arith);
  integer_or_none = inr (omega arith);
}

abbrev text : Bytes
text = b'a' ∷ b'4' ∷ b'2' ∷ []

mutate_step-IsSafe_example :
    IsSafe (AnswerWithin (2 * length text + (21 + 4))) (mutate_step 10 ro text)
mutate_step-IsSafe_example = mutate_step-IsSafe 10 ro 4 ro-Fits (omega arith) text (omega arith)

mutate_loop-IsSafe_example :
    IsSafe (Within (grown 10 ro 4 ro-Fits (omega arith) 3 3)) (mutate_loop 10 ro 20 3 text)
mutate_loop-IsSafe_example =
    mutate_loop-IsSafe 10 ro 4 ro-Fits (omega arith) 20 3 3 text (omega arith) (omega arith)

abbrev seed : Rand
seed = record { state = 65536 * 65536 * 12345 + 54321; inc = 1 }

seed_odd : (Pcg.bool seed).0 ≡ false
unfolding Pcg.bool Pcg.uint32 Pcg.output Pcg.step
seed_odd = refl

insert_literal-panics_example :
    let no_integers = ro_of [] (b'x' ∷ []) [] in
    (insert_literal 10 no_integers text seed ≡ panic)
    × (replace_with_literal 10 no_integers text seed ≡ panic)
insert_literal-panics_example = insert_literal-panics 10 [] (b'x' ∷ []) [] text seed seed_odd
