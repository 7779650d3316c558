-- ===== src/Testee.antt =====
-- go-fuzz/testee.go: the worker's side of a test binary: `Testee`, one process, and `TestBinary`, which
-- restarts it. The process, the pipes, the shared mapping and the watcher that stops a run that hangs
-- are an environment; a process that cannot be started is started again by the source until it can.
pub mod Output
pub mod Restarts
pub mod Wire
use go_fuzz.Base.{
  ℕ, zero, suc, ◌+◌, ◌-◌, ◌^◌, Bool, true, false, Option, none, some, List, [], ◌∷◌, ◌++◌, length,
  take, drop, Outcome, done, panic, no_fuel, ◌>>=◌, ltb, if◌then◌else◌,
}
use go_fuzz.Bytes.{Bytes}
use go_fuzz.Bytes.Value.{le_value, le_bytes}
use go_fuzz.Cover.{Table}
use go_fuzz.Defs.{max_input_size}
use go_fuzz.Mutator.Text.{ℤ, pos, negsuc}
use go_fuzz.Worker.Queues.{TestResult}

-- What the operating system does with a process of the test binary, in states `E`.
pub record System (E : Type 0) : Type 0 where
  pub start : E → E
  -- the input region is written, and then the pipe; whether that succeeds
  pub send : Bytes → Bytes → E → Bool × E
  -- `io.ReadFull` of the reply; `none` is an error
  pub receive : E → Option Bytes × E
  -- the hang watcher has set the start time to -1
  pub is_hanged : E → Bool
  pub cover : E → Table
  pub sonar : E → Bytes
  -- the process is killed and its output collected
  pub stop : E → Bytes × E
  -- the header of the output of a program that hanged
  pub hang_text : Bytes

pub record Stats : Type 0 where
  pub execs : ℕ
  pub restarts : ℕ

pub record Testee : Type 0 where
  pub down : Bool
  pub execs : ℕ
  pub fnidx : ℕ

pub record TestBinary : Type 0 where
  pub testee : Option Testee
  pub stats : Stats
  pub fnidx : ℕ

-- What `Testee.test` returns: a retry, a crash with whether it hanged, or the reply.
pub data Answer : Type 0 where
  retry : Answer
  crash : Bool → Answer
  reply : ℤ → ℕ → Table → Bytes → Answer

unfoldable pub to_int : ℕ → ℤ
to_int n = if ltb n (2 ^ 63) then pos n else negsuc (2 ^ 64 - 1 - n)

unfoldable pub request : ℕ → Bytes → Bytes
request fnidx content = fnidx ∷ le_bytes 8 (length content)

abbrev pub max_execs : ℕ
max_execs = 10000

module _ {E : Type 0} (sys : System E) where
  -- The fields of the reply; a slice beyond the region panics.
  unfoldable pub read_reply : Bytes → E → Outcome Answer
  unfolding to_int
  read_reply resbuf e =
      let filled = le_value (take 8 (drop 16 resbuf)) in
      if ltb (length (sys.sonar e)) filled
      then panic
      else done (
          reply (to_int (le_value (take 8 resbuf))) (le_value (take 8 (drop 8 resbuf)))
            (sys.cover e) (take filled (sys.sonar e)))

  abbrev pub on_receive : Option Bytes × E → Outcome (Answer × E)
  on_receive (none, e) = done (crash (sys.is_hanged e), e)
  on_receive (some resbuf, e) =
      if sys.is_hanged e then done (crash true, e) else read_reply resbuf e >>= λ a. done (a, e)

  -- `Testee.test`
  unfoldable pub test_once : Bytes → Testee → E → Outcome (Answer × (Testee × E))
  unfolding read_reply request
  test_once content t e =
      let t' : Testee = record t { execs = t.execs + 1 } in
      if t.down
      then panic
      else if ltb max_execs (t.execs + 1)
      then done (retry, (t', e))
      else let (sent, e') = sys.send content (request t.fnidx content) e in
        if sent
        then (on_receive (sys.receive e') >>= λ r. done (r.0, (t', r.1)))
        else done (retry, (t', e'))

  -- `Testee.shutdown`
  unfoldable pub shut_down : Testee → E → Outcome (Bytes × (Testee × E))
  shut_down t e =
      let (output, e') = sys.stop e in
      if t.down then panic else done (output, (record t { down = true }, e'))

  abbrev pub new_testee : ℕ → Testee
  new_testee fnidx = record { down = false; execs = 0; fnidx = fnidx }

  -- The process that there is, or a new one, which is counted.
  unfoldable pub live_testee : TestBinary → E → Testee × (Stats × E)
  live_testee bin e = elim bin.testee [
    | some t ↦ (t, (record bin.stats { execs = bin.stats.execs + 1 }, e))
    | none ↦ (
      new_testee bin.fnidx,
      (record { execs = bin.stats.execs + 1; restarts = bin.stats.restarts + 1 }, sys.start e),
    )
  ]

  abbrev pub crash_result : Bool → Bytes → TestResult
  crash_result hanged output = record {
    res = pos 0;
    ns = 0;
    cover = [];
    sonar = [];
    output = if hanged then sys.hang_text ++ output else output;
    crashed = true;
    hanged = hanged;
  }

  abbrev pub reply_result : ℤ → ℕ → Table → Bytes → TestResult
  reply_result res ns cover region = record {
    res = res;
    ns = ns;
    cover = cover;
    sonar = region;
    output = [];
    crashed = false;
    hanged = false;
  }

  -- What `TestBinary.test` does with the answer; `again` is the next round.
  abbrev pub finish_test :
      ℕ
      → Stats
      → (E → Outcome (TestResult × (TestBinary × E)))
      → Answer × (Testee × E)
      → Outcome (TestResult × (TestBinary × E))
  finish_test fnidx stats again (retry, (t, e)) = shut_down t e >>= λ r. again r.1.1
  finish_test fnidx stats again (crash hanged, (t, e)) = shut_down t e >>= λ r.
      done
        (crash_result hanged r.0, (record { testee = none; stats = stats; fnidx = fnidx }, r.1.1))
  finish_test fnidx stats again (reply res ns cover region, (t, e)) = done (
    reply_result res ns cover region,
    (record { testee = some t; stats = stats; fnidx = fnidx }, e),
  )

  -- The periodic checks may send the statistics away.
  module _ (check : Stats → E → Stats × E) where
    -- `TestBinary.test`, in at most so many rounds of its loop.
    unfoldable pub test_loop : ℕ → Bytes → TestBinary → E → Outcome (TestResult × (TestBinary × E))
    unfolding test_once shut_down live_testee
    test_loop zero content bin e = no_fuel
    test_loop (suc rounds) content bin e =
        let checked = check bin.stats e in
        let (t, (stats, e')) = live_testee (record bin { stats = checked.0 }) checked.1 in
        test_once content t e'
        >>= finish_test bin.fnidx stats
            (λ e''. test_loop rounds content (record bin { testee = none; stats = stats }) e'')

    -- Two rounds, after which a started process has been asked.
    unfoldable pub test_binary : Bytes → TestBinary → E → Outcome (TestResult × (TestBinary × E))
    unfolding test_loop
    test_binary content bin e =
        if ltb max_input_size (length content) then panic else test_loop 2 content bin e
