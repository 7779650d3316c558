-- ===== src/Testee/Wire.antt =====
-- Both sides of the pipes together: `Testee.test` of go-fuzz/testee.go with a process that runs `Main` of
-- go-fuzz-dep/main.go.
use go_fuzz.Base.{
  ℕ, ◌+◌, ◌-◌, ◌%◌, ◌^◌, ◌≤◌, ◌<◌, ◌≡◌, refl, ap, ◌∙◌, Bool, true, false, Option, none, some, List,
  [], ◌∷◌, length, take, drop, copy, Outcome, done, panic, no_fuel, Returns, Returns-bind, ltb,
  if◌then◌else◌, arith,
}
use go_fuzz.Bytes.{Bytes}
use go_fuzz.Bytes.Value.{le_value, le_bytes, le_value-le_bytes}
use go_fuzz.Defs.{max_input_size}
use go_fuzz.Mutator.Text.{ℤ, pos, negsuc}
use go_fuzz.Target.{Turn, Fn, Ran, Program, serve, to_uint64}
use go_fuzz.Target.Pipes.{Enough}
use go_fuzz.Target.Messages.{words}
use go_fuzz.Target.Serves.{direct, reply_words, Served, serve-Served}
use go_fuzz.Testee.{
  System, Testee, Answer, crash, reply, request, max_execs, to_int, read_reply, on_receive,
  test_once,
}

-- A process with the mapping that it shares, and a reply in its pipe.
pub record Wire (S : Type 0) : Type 0 where
  pub is_alive : Bool
  pub program : Program S
  pub pending : Option Bytes

module _ {S : Type 0} (fns : List (Fn S)) (boot : S) (reads writes : List Turn) where
  abbrev pub on_served : Program S → Outcome (Program S × (Bytes × Bytes)) → Wire S
  on_served p (done (p', (answer, rest))) = record {
    is_alive = true;
    program = p';
    pending = some answer;
  }
  on_served p panic = record { is_alive = false; program = p; pending = none }
  on_served p no_fuel = record { is_alive = false; program = p; pending = none }

  abbrev pub send_to : Bytes → Bytes → Wire S → Bool × Wire S
  send_to content req w =
      let p : Program S = record w.program { input = copy w.program.input content } in
      if w.is_alive then (true, on_served p (serve fns reads writes req p)) else (false, w)

  -- No run hangs.
  abbrev pub wired : System (Wire S)
  wired = record {
    start = λ w. record w {
      is_alive = true;
      program = record w.program { state = boot };
      pending = none;
    };
    send = send_to;
    receive = λ w. (w.pending, record w { pending = none });
    is_hanged = λ w. false;
    cover = λ w. w.program.cover;
    sonar = λ w. w.program.sonar;
    stop = λ w. ([], record w { is_alive = false });
    hang_text = [];
  }

  -- An `int` of 64 bits.
  abbrev pub IsInt64 : ℤ → Type 0
  IsInt64 (pos n) = n < 2 ^ 63
  IsInt64 (negsuc n) = n < 2 ^ 63

  -- A run whose numbers fit into words, and that filled at most its comparison region.
  abbrev pub FitsWords : Option (Ran S) → Type 0
  FitsWords none = Unit
  FitsWords (some r) =
      IsInt64 r.res × (r.ns < 2 ^ 64) × (r.sonar_pos < 2 ^ 64) × (r.sonar_pos ≤ length r.sonar)

  -- What the worker has of a direct call.
  abbrev pub answer_of : Option (Ran S) → Answer
  answer_of none = crash false
  answer_of (some r) = reply r.res r.ns r.cover (take r.sonar_pos r.sonar)

  -- The process after a direct call.
  abbrev pub IsAfter : Option (Ran S) → Wire S → Type 0
  IsAfter none w = w.is_alive ≡ false
  IsAfter (some r) w = (w.is_alive ≡ true) × (w.program.state ≡ r.state)

  to_int-to_uint64 : (n : ℤ) → IsInt64 n → to_int (to_uint64 n) ≡ n
  unfolding to_int to_uint64
  to_int-to_uint64 (pos n) h =
      let same : n % 2 ^ 64 ≡ n = omega arith in
      let low : ltb n (2 ^ 63) ≡ true = ground arith in rw (same, low) refl
  to_int-to_uint64 (negsuc n) h =
      let back : 2 ^ 64 - 1 - (2 ^ 64 - 1 - n % 2 ^ 64) ≡ n = omega arith in
      let high : ltb (2 ^ 64 - 1 - n % 2 ^ 64) (2 ^ 63) ≡ false = ground arith in
      rw (high, back) refl

  read_reply-fields :
      (resbuf : Bytes) (w : Wire S) (a b c : ℕ)
      → le_value (take 8 resbuf) ≡ a
      → le_value (take 8 (drop 8 resbuf)) ≡ b
      → le_value (take 8 (drop 16 resbuf)) ≡ c
      → c ≤ length w.program.sonar
      → read_reply wired resbuf w
        ≡ done (reply (to_int a) b w.program.cover (take c w.program.sonar))
  unfolding read_reply
  read_reply-fields resbuf w a b c e0 e1 e2 h =
      let inside : ltb (length w.program.sonar) c ≡ false = ground arith in
      rw (e0, e1, e2, inside) refl

  to_uint64-lt : (n : ℤ) → to_uint64 n < 2 ^ 64
  unfolding to_uint64
  to_uint64-lt (pos n) = omega arith
  to_uint64-lt (negsuc n) = omega arith

  read_reply-words :
      (r : Ran S) (w : Wire S)
      → FitsWords (some r)
      → w.program.sonar ≡ r.sonar
      → w.program.cover ≡ r.cover
      → read_reply wired (words (reply_words r)) w ≡ done (answer_of (some r))
  read_reply-words r w h e e' =
      read_reply-fields (words (reply_words r)) w (to_uint64 r.res) r.ns r.sonar_pos
        (le_value-le_bytes 8 (to_uint64 r.res) (to_uint64-lt r.res)) (le_value-le_bytes 8 r.ns h.1)
        (le_value-le_bytes 8 r.sonar_pos h.2) (rw e h.3)
      ∙ rw (to_int-to_uint64 r.res h.0, e, e') refl

  received :
      (content : Bytes) (p : Program S) (o : Option (Ran S))
      (out : Outcome (Program S × (Bytes × Bytes)))
      → Served p o out
      → FitsWords o
      → Returns
          (λ r. (r.0 ≡ answer_of o) × IsAfter o r.1)
          (on_receive wired
            ((on_served p out).pending, record (on_served p out) { pending = none }))
  received content p none out h f = rw h (refl, refl)
  received content p (some r) (done (p', (answer, rest))) h f =
      let e =
        read_reply-words r (record { is_alive = true; program = p'; pending = none }) f
          (ap (λ q. q.sonar) h.0) (ap (λ q. q.cover) h.0) in
      rw (h.1, e) (refl, (refl, ap (λ q. q.state) h.0))
  received content p (some r) panic h f = absurd h
  received content p (some r) no_fuel h f = absurd h

  -- The two sides of the pipes together are a direct call of the function under test, however the system
  -- cuts up what the process reads and writes: where a live process that is not over its number of runs
  -- is given an input that fits into the region, the worker's answer is the result, the time, the cover
  -- table and the filled part of the comparison region of the call, or a crash if the call crashes; and
  -- the process is in the state that the call leaves, or dead. The numbers of the call fit into words, and
  -- no run takes so long that it is killed for hanging.
  pub test_once-direct :
      (content : Bytes) (t : Testee) (w : Wire S)
      → length content ≤ max_input_size
      → length w.program.input ≡ max_input_size
      → w.is_alive ≡ true
      → t.down ≡ false
      → t.execs < max_execs
      → Enough 9 reads
      → Enough 24 writes
      → FitsWords (direct fns t.fnidx content w.program.state)
      → Returns
          (λ r.
            (r.0 ≡ answer_of (direct fns t.fnidx content w.program.state))
            × IsAfter (direct fns t.fnidx content w.program.state) r.1.1)
          (test_once wired content t w)
  unfolding test_once request
  test_once-direct content t w small size alive up few enough enough' f =
      let over : ltb max_execs (t.execs + 1) ≡ false = ground arith in
      let p : Program S = record w.program { input = copy w.program.input content } in
      rw (up, over, alive)
        (Returns-bind
          (λ r.
            (r.0 ≡ answer_of (direct fns t.fnidx content w.program.state))
            × IsAfter (direct fns t.fnidx content w.program.state) r.1)
          _ _ _
          (received content p (direct fns t.fnidx content w.program.state)
            (serve fns reads writes (t.fnidx ∷ le_bytes 8 (length content)) p)
            (serve-Served fns w.program t.fnidx content size small reads writes enough enough') f)
          λ r k. k)
