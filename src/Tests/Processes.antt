-- ===== src/Tests/Processes.antt =====
-- The theorems on the test binaries, with small programs under test.
use go_fuzz.Base.{
  ℕ, zero, suc, Bool, ◌+◌, ◌≤◌, ◌≡◌, refl, true, false, none, some, List, [], ◌∷◌, ◌++◌, length,
  replicate, length-replicate, Returns, inl, inr, arith,
}
use go_fuzz.Bytes.{Bytes}
use go_fuzz.Bytes.Value.{le_bytes}
use go_fuzz.Defs.{max_input_size}
use go_fuzz.Mutator.Text.{negsuc}
use go_fuzz.Target.{Turn, interrupted, moves, read, Fn, to_uint64}
use go_fuzz.Target.Messages.{read-Returns}
use go_fuzz.Target.Serves.{direct}
use go_fuzz.Testee.{System, Stats, Testee, test_once, test_binary}
use go_fuzz.Testee.Output.{collect, three_quarters}
use go_fuzz.Testee.Output.Kept.{KeepsEnough, collect-Keeps}
use go_fuzz.Testee.Restarts.{Tested, test_binary-Tested}
use go_fuzz.Testee.Wire.{Wire, wired, answer_of, IsAfter, test_once-direct}

minus_one : to_uint64 (negsuc 0) ≡ 0xffffffffffffffff
unfolding to_uint64
minus_one = refl

-- The first byte, and the rest after an interruption.
abbrev turns : List Turn
turns = moves 1 ∷ interrupted ∷ moves 30 ∷ []

read-Returns_example :
    Returns
      (λ r. (r.0 ≡ (2, 500)) × (r.1.0 ≡ b'x' ∷ []))
      (read turns (2 ∷ (le_bytes 8 500 ++ b'x' ∷ [])))
read-Returns_example =
    read-Returns turns 2 500 (b'x' ∷ []) (omega arith) (inr (omega arith, inr (omega arith, refl)))

-- A function under test that counts its runs, and rejects every input.
abbrev counting : Fn ℕ
counting content table runs =
    some (record {
      res = negsuc 0;
      ns = 3;
      cover = table;
      sonar = [];
      sonar_pos = 0;
      state = runs + 1;
    })

zeros : ℕ → Bytes
zeros n = replicate n 0

length-zeros : (n : ℕ) → length (zeros n) ≡ n
unfolding zeros
length-zeros n = length-replicate n 0

abbrev wire : Wire ℕ
wire = record {
  is_alive = true;
  program = record {
    input = zeros max_input_size;
    cover = [];
    sonar = [];
    sonar_pos = 0;
    state = 5;
  };
  pending = none;
}

abbrev testee : Testee
testee = record { down = false; execs = 7; fnidx = 0 }

test_once-direct_example :
    Returns
      (λ r.
        (r.0 ≡ answer_of (counting ∷ []) 0 turns turns (direct (counting ∷ []) 0 (b'a' ∷ []) 5))
        × IsAfter (counting ∷ []) 0 turns turns (direct (counting ∷ []) 0 (b'a' ∷ []) 5) r.1.1)
      (test_once (wired (counting ∷ []) 0 turns turns) (b'a' ∷ []) testee wire)
test_once-direct_example =
    test_once-direct (counting ∷ []) 0 turns turns (b'a' ∷ []) testee wire (omega arith)
      (length-zeros max_input_size) refl refl (omega arith)
      (inr (omega arith, inr (omega arith, refl))) (inr (omega arith, inr (omega arith, refl)))
      (omega arith, omega arith, omega arith, omega arith)

abbrev if_alive : ℕ → Bool × ℕ
if_alive zero = (false, zero)
if_alive (suc e) = (true, suc e)

-- A process that takes a request while it is alive, and dies of it.
abbrev dying : System ℕ
dying = record {
  start = λ e. suc zero;
  send = λ content request e. if_alive e;
  receive = λ e. (none, zero);
  is_hanged = λ e. false;
  cover = λ e. [];
  sonar = λ e. [];
  stop = λ e. (b'!' ∷ [], zero);
  hang_text = [];
}

abbrev send_away : Stats → ℕ → Stats × ℕ
send_away stats e = (record { execs = 0; restarts = 0 }, e)

-- The process has made all of its runs, and is replaced.
test_binary-Tested_example : Returns (Tested dying (λ e. tt)) (
    test_binary dying send_away
      (b'a' ∷ [])
      (record {
        testee = some (record { down = false; execs = 10000; fnidx = 0 });
        stats = record { execs = 1; restarts = 0 };
        fnidx = 0;
      })
      1)
test_binary-Tested_example =
    test_binary-Tested dying (λ e. tt) (λ content r e. refl) send_away (b'a' ∷ [])
      (record {
        testee = some (record { down = false; execs = 10000; fnidx = 0 });
        stats = record { execs = 1; restarts = 0 };
        fnidx = 0;
      })
      1 (omega arith) (refl, omega arith)

abbrev hello : Bytes
hello = b'h' ∷ b'i' ∷ []

collect-Keeps_example :
    (lost' : Bytes) × (lost'
        ++ (collect (1 ∷ 9 ∷ []) [] hello).0
        ++ (collect (1 ∷ 9 ∷ []) [] hello).1
      ≡ [] ++ [] ++ hello)
    × (length (collect (1 ∷ 9 ∷ []) [] hello).0 ≤ three_quarters)
    × KeepsEnough lost' (collect (1 ∷ 9 ∷ []) [] hello).0
collect-Keeps_example = collect-Keeps (1 ∷ 9 ∷ []) [] [] hello (omega arith) (inl refl)
