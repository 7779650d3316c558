-- ===== src/Testee/Restarts.antt =====
-- `TestBinary.test` of go-fuzz/testee.go: a run ends in an answer, with at most one restart.
use go_fuzz.Base.{
  ℕ, suc, ◌+◌, ◌≤◌, ◌≡◌, refl, Bool, true, false, Option, none, some, length, take, drop, Outcome,
  panic, Returns, Returns-bind, ltb, if◌then◌else◌, Bool-cases, inl, inr, arith,
}
use go_fuzz.Bytes.{Bytes}
use go_fuzz.Bytes.Value.{le_value}
use go_fuzz.Defs.{max_input_size}
use go_fuzz.Worker.Queues.{TestResult}
use go_fuzz.Testee.{
  System, Stats, Testee, TestBinary, Answer, retry, crash, reply, request, max_execs, read_reply,
  on_receive, test_once, shut_down, live_testee, new_testee, finish_test, test_loop, test_binary,
}

-- A process that is kept was not shut down, and made at most the number of runs after which it is
-- replaced.
abbrev pub IsLive : Option Testee → Type 0
IsLive none = Unit
IsLive (some t) = (t.down ≡ false) × (t.execs ≤ max_execs)

abbrev pub Ends : Bool → Answer → ℕ → Type 0
Ends fresh retry n = fresh ≡ false
Ends fresh (crash hanged) n = Unit
Ends fresh (reply res ns cover region) n = n ≤ max_execs

branches :
    {A : Type 0} (P : A → Type 0) (down over sent : Bool) (x y z : Outcome A)
    → down ≡ false
    → (over ≡ true → Returns P x)
    → (over ≡ false → sent ≡ true → Returns P y)
    → (over ≡ false → sent ≡ false → Returns P z)
    → Returns P (if down then panic else if over then x else if sent then y else z)
branches P true over sent x y z d hx hy hz = absurd (cc)
branches P false true sent x y z d hx hy hz = hx refl
branches P false false true x y z d hx hy hz = hy refl refl
branches P false false false x y z d hx hy hz = hz refl refl

module _ {E : Type 0} (sys : System E) where
  -- A reply that is read names no more of the comparison region than there is.
  abbrev pub FitsReply : Option Bytes × E → Type 0
  FitsReply (none, e) = Unit
  FitsReply (some resbuf, e) = le_value (take 8 (drop 16 resbuf)) ≤ length (sys.sonar e)

  module _ (fits : (e : E) → FitsReply (sys.receive e)) where
    on_receive-Ends :
        (fresh : Bool) (n : ℕ) (r : Option Bytes × E)
        → n ≤ max_execs
        → FitsReply r
        → Returns (λ a. Ends fresh a.0 n) (on_receive sys r)
    unfolding read_reply
    on_receive-Ends fresh n (none, e) h f = tt
    on_receive-Ends fresh n (some resbuf, e) h f = elim (Bool-cases (sys.is_hanged e)) [
      | inl y ↦ rw y tt
      | inr y ↦
          elim (Bool-cases (ltb (length (sys.sonar e)) (le_value (take 8 (drop 16 resbuf))))) [
            | inl z ↦ absurd (ground (arith, z, f))
            | inr z ↦ rw (y, z) h
          ]
    ]

    test_once-Ends :
        (fresh : Bool) (content : Bytes) (t : Testee) (e : E)
        → t.down ≡ false
        → (fresh ≡ true → ((r : Bytes) → (sys.send content r e).0 ≡ true) × (t.execs ≡ 0))
        → Returns
            (λ r. (r.1.0.down ≡ false) × Ends fresh r.0 r.1.0.execs)
            (test_once sys content t e)
    unfolding test_once
    test_once-Ends fresh content t e d new =
        let sent = sys.send content (request t.fnidx content) e in
        branches _ t.down (ltb max_execs (t.execs + 1)) sent.0 _ _ _ d
          (λ over. (d, not_fresh (λ f. absurd (ground (arith, over, (new f).1)))))
          (λ over y.
            Returns-bind (λ a. Ends fresh a.0 (t.execs + 1)) _ (on_receive sys (sys.receive sent.1))
              _
              (on_receive-Ends fresh (t.execs + 1) (sys.receive sent.1) (ground (arith, over))
                (fits sent.1))
              λ a k. (d, k))
          (λ over n. (d, not_fresh (λ f. absurd (true≢false ((new f).0 _) n))))
      where
        not_fresh : (fresh ≡ true → ⊥) → fresh ≡ false
        not_fresh k = elim (Bool-cases fresh) [ inl f ↦ absurd (k f) | inr f ↦ f ]

        true≢false : {b : Bool} → b ≡ true → b ≡ false → ⊥
        true≢false e f = cc

    -- A crash is the end of the process.
    abbrev pub Tested : TestResult × (TestBinary × E) → Type 0
    Tested r = IsLive r.1.0.testee × (r.0.crashed ≡ true → r.1.0.testee ≡ none)

    finish_test-Tested :
        (fresh : Bool) (fnidx : ℕ) (stats : Stats)
        (again : E → Outcome (TestResult × (TestBinary × E))) (r : Answer × (Testee × E))
        → r.1.0.down ≡ false
        → Ends fresh r.0 r.1.0.execs
        → (fresh ≡ false → (e : E) → Returns Tested (again e))
        → Returns Tested (finish_test sys fnidx stats again r)
    unfolding shut_down
    finish_test-Tested fresh fnidx stats again (retry, (t, e)) d h k = rw d (k h (sys.stop e).1)
    finish_test-Tested fresh fnidx stats again (crash hanged, (t, e)) d h k = rw d (tt, λ c. refl)
    finish_test-Tested fresh fnidx stats again (reply res ns cover region, (t, e)) d h k =
        ((d, h), λ c. absurd (cc))

    module _ (starts : (content r : Bytes) (e : E) → (sys.send content r (sys.start e)).0 ≡ true)
        (check : Stats → E → Stats × E) (content : Bytes) where
      first_round :
          (rounds fnidx : ℕ) (stats : Stats) (e : E)
          → Returns Tested (
              test_loop sys check
                (suc rounds)
                content
                (record { testee = none; stats = stats; fnidx = fnidx })
                e)
      unfolding test_loop live_testee
      first_round rounds fnidx stats e =
          let e' = sys.start (check stats e).1 in
          Returns-bind (λ r. (r.1.0.down ≡ false) × Ends true r.0 r.1.0.execs) Tested
            (test_once sys content (new_testee sys fnidx) e') _
            (test_once-Ends true content (new_testee sys fnidx) e' refl
              (λ f. ((λ r. starts content r (check stats e).1), refl)))
            λ r k. finish_test-Tested true fnidx _ _ r k.0 k.1 (λ f. absurd (cc))

      any_round :
          (rounds fnidx : ℕ) (stats : Stats) (o : Option Testee) (e : E)
          → IsLive o
          → Returns Tested (
              test_loop sys check
                (suc (suc rounds))
                content
                (record { testee = o; stats = stats; fnidx = fnidx })
                e)
      unfolding test_loop live_testee
      any_round rounds fnidx stats none e h = first_round (suc rounds) fnidx stats e
      any_round rounds fnidx stats (some t) e h =
          let e' = (check stats e).1 in
          Returns-bind (λ r. (r.1.0.down ≡ false) × Ends false r.0 r.1.0.execs) Tested
            (test_once sys content t e') _
            (test_once-Ends false content t e' h.0 (λ f. absurd (cc)))
            λ r k.
              finish_test-Tested false fnidx _ _ r k.0 k.1 (λ f e''. first_round rounds fnidx _ e'')

      -- A run of an input that fits into the region ends, with no panic and after one restart of the
      -- process at most, where a process that was just started takes the request and a reply names no more
      -- of the comparison region than there is. A process that is kept was not shut down and is not over
      -- its number of runs, and none is kept after a crash.
      pub test_binary-Tested :
          (bin : TestBinary) (e : E)
          → length content ≤ max_input_size
          → IsLive bin.testee
          → Returns Tested (test_binary sys check content bin e)
      unfolding test_binary
      test_binary-Tested bin e l h = elim (Bool-cases (ltb max_input_size (length content))) [
        | inl y ↦ absurd (ground (arith, y))
        | inr n ↦ rw n (any_round 0 bin.fnidx bin.stats bin.testee e h)
      ]
