-- ===== src/Target/Serves.antt =====
-- A round of `Main` of go-fuzz-dep/main.go against a direct call of the function under test.
use mathlib.Core.Path.{subst}
use go_fuzz.Base.{
  ℕ, ◌≤◌, ◌≡◌, refl, sym, ap, false, Option, none, some, List, [], ◌∷◌, length, length-copy, take,
  copy, replicate, get_elem?, Outcome, done, panic, ◌>>=◌, Returns, Returns-bind, Returns-done, ltb,
  arith,
}
use go_fuzz.Bytes.{Bytes}
use go_fuzz.Bytes.Value.{le_bytes}
use go_fuzz.Defs.{cover_size, max_input_size}
use go_fuzz.Target.{Turn, write, to_uint64, Ran, Program, Fn, after_run, call_fn, serve}
use go_fuzz.Target.Pipes.{Enough}
use go_fuzz.Target.Messages.{words, read-Returns, write-Returns}

take-copy : (dst src : Bytes) → length src ≤ length dst → take (length src) (copy dst src) ≡ src
take-copy dst [] h = refl
take-copy [] (x ∷ src) h = absurd (omega arith)
take-copy (d ∷ dst) (x ∷ src) h = ap (λ t. x ∷ t) (take-copy dst src (omega arith))

-- The function under test, called on the input and a cleared table.
abbrev pub direct : {S : Type 0} → List (Fn S) → ℕ → Bytes → S → Option (Ran S)
direct fns fnidx content s = elim (get_elem? fns fnidx) [
  | none ↦ none
  | some f ↦ f content (replicate cover_size 0) s
]

abbrev pub reply_words : {S : Type 0} → Ran S → List ℕ
reply_words r = to_uint64 r.res ∷ r.ns ∷ r.sonar_pos ∷ []

-- The program after a run and its reply, or its end.
abbrev pub Served :
    {S : Type 0} → Program S → Option (Ran S) → Outcome (Program S × (Bytes × Bytes)) → Type 0
Served p none out = out ≡ panic
Served p (some r) out = Returns (λ v. (v.0 ≡ after_run p r) × (v.1.0 ≡ words (reply_words r))) out

module _ {S : Type 0} (fns : List (Fn S)) (p : Program S) (fnidx : ℕ) (content : Bytes)
    (size : length p.input ≡ max_input_size) (fits : length content ≤ max_input_size) where
  -- What the call comes to.
  abbrev Called : Option (Ran S) → Outcome (Ran S) → Type 0
  Called none out = out ≡ panic
  Called (some r) out = out ≡ done r

  call_fn-direct :
      Called
        (direct fns fnidx content p.state)
        (call_fn fns fnidx (length content) (record p { input = copy p.input content }))
  unfolding call_fn
  call_fn-direct =
      let whole_taken : take (length content) (copy p.input content) ≡ content =
        take-copy p.input content (omega (arith, size)) in
      let inside : ltb (length (copy p.input content)) (length content) ≡ false =
        ground (arith, size, length-copy p.input content) in
      rw inside (
        by_fn (get_elem? fns fnidx) (replicate cover_size 0)
          (take (length content) (copy p.input content)) whole_taken)
    where
      by_run : (o : Option (Ran S)) → Called o (elim o [ none ↦ panic | some r ↦ done r ])
      by_run none = refl
      by_run (some r) = refl

      by_fn :
          (o : Option (Fn S)) (table : List ℕ) (taken : Bytes)
          → taken ≡ content
          → Called
              (elim o [ none ↦ none | some f ↦ f content table p.state ])
              (elim o [
                | none ↦ panic
                | some f ↦ elim (f taken table p.state) [ none ↦ panic | some r ↦ done r ]
              ])
      by_fn none table taken e = refl
      by_fn (some f) table taken e = rw e (by_run (f content table p.state))

  -- A round of `Main` is a direct call: it replies with the words of the result, and ends the program
  -- where the call crashes.
  pub serve-Served :
      (reads writes : List Turn)
      → Enough 9 reads
      → Enough 24 writes
      → Served
          (record p { input = copy p.input content })
          (direct fns fnidx content p.state)
          (serve fns reads writes
            (fnidx ∷ le_bytes 8 (length content))
            (record p { input = copy p.input content }))
  unfolding serve
  serve-Served reads writes enough enough' =
      let (request, e, k) =
        Returns-done (λ r. (r.0 ≡ (fnidx, length content)) × (r.1.0 ≡ [])) _
          (read-Returns reads fnidx (length content) [] (omega arith) enough) in
      rw e (
        subst
          (λ q.
            Served whole (direct fns fnidx content p.state)
              (call_fn fns q.0 q.1 whole >>= answered request.1.0))
          (sym k.0) (by_call (direct fns fnidx content p.state) _ request.1.0 call_fn-direct))
    where
      whole : Program S
      whole = record p { input = copy p.input content }

      answered : Bytes → Ran S → Outcome (Program S × (Bytes × Bytes))
      answered rest r = write writes (to_uint64 r.res ∷ r.ns ∷ r.sonar_pos ∷ []) >>= λ w.
          done (after_run whole r, (w.0, rest))

      by_call :
          (o : Option (Ran S)) (out : Outcome (Ran S)) (rest : Bytes)
          → Called o out
          → Served whole o (out >>= answered rest)
      by_call none out rest e = rw e refl
      by_call (some r) out rest e = rw e (
          Returns-bind (λ w. w.0 ≡ words (reply_words r)) _ (write writes (reply_words r)) _
            (write-Returns writes (reply_words r) enough') λ w k. (refl, k))
