-- ===== src/Worker/Minimize/Loops.antt =====
-- The loops of `minimizeInput` of go-fuzz/worker.go that test candidates.
use go_fuzz.Base.{
  ℕ, zero, suc, ◌+◌, ◌-◌, ◌≤◌, ◌<◌, ◌≡◌, refl, Bool, true, false, ◌++◌, length, length-append,
  length-take, length-drop, length-set, take, drop, get_or, set, Outcome, done, panic, no_fuel,
  Returns, ltb, ◌==◌, if◌then◌else◌, Bool-cases, inl, inr, arith,
}
use go_fuzz.Bytes.{Bytes}
use go_fuzz.Worker.Minimize.{
  Round, returned, going, Tried, too_late, accepted, rejected, Cut, returned_cut, cut_at, on_answer,
  on_cut, then_run, test, cut_tail, remove_bytes, find_cut, remove_ranges_at, canonicalize,
}

abbrev pub result : {S : Type 0} → Round S → Bytes
result (returned res s) = res
result (going res s) = res

abbrev pub state : {S : Type 0} → Round S → S
state (returned res s) = s
state (going res s) = s

-- `Good` holds of what is accepted, and `Inv` is an invariant of the state.
module _ {S : Type 0} (late : S → Bool) (accepts : Bytes → S → Bool × S) (Good : Bytes → Type 0)
    (Inv : S → Type 0) (sound : (c : Bytes) (s : S) → Inv s → (accepts c s).0 ≡ true → Good c)
    (keeps : (c : Bytes) (s : S) → Inv s → Inv (accepts c s).1) where
  -- A good result of at most `n` bytes.
  abbrev pub Fine : ℕ → Round S → Type 0
  Fine n r = Good (result r) × (length (result r) ≤ n) × Inv (state r)

  test_elim :
      (P : Tried S → Type 0) (c : Bytes) (s : S)
      → Inv s
      → P too_late
      → ((s' : S) → Good c → Inv s' → P (accepted s'))
      → ((s' : S) → Inv s' → P (rejected s'))
      → P (test late accepts c s)
  unfolding test
  test_elim P c s v a b d = elim (Bool-cases (late s)) [
    | inl e ↦ rw e a
    | inr e ↦ elim (Bool-cases (accepts c s).0) [
      | inl t ↦ rw (e, t) (b (accepts c s).1 (sound c s v t) (keeps c s v))
      | inr f ↦ rw (e, f) (d (accepts c s).1 (keeps c s v))
    ]
  ]

  answered :
      (n : ℕ) (c : Bytes) (s : S) (a : Outcome (Round S)) (on_yes on_no : S → Outcome (Round S))
      → Inv s
      → Returns (Fine n) a
      → (Good c → (s' : S) → Inv s' → Returns (Fine n) (on_yes s'))
      → ((s' : S) → Inv s' → Returns (Fine n) (on_no s'))
      → Returns (Fine n) (on_answer (test late accepts c s) a on_yes on_no)
  answered n c s a on_yes on_no v ha hy hn =
      test_elim (λ t. Returns (Fine n) (on_answer t a on_yes on_no)) c s v ha (λ s' g. hy g s') hn

  pub then_run-Returns :
      (m n : ℕ) (o : Outcome (Round S)) (f : Bytes → S → Outcome (Round S))
      → m ≤ n
      → Returns (Fine m) o
      → ((res : Bytes) (s : S) → Good res → length res ≤ m → Inv s → Returns (Fine n) (f res s))
      → Returns (Fine n) (then_run o f)
  then_run-Returns m n (done (returned res s)) f le h k = (h.0, omega (arith, h.1), h.2)
  then_run-Returns m n (done (going res s)) f le h k = k res s h.0 h.1 h.2
  then_run-Returns m n panic f le h k = h
  then_run-Returns m n no_fuel f le h k = h

  pub if-Returns :
      (n : ℕ) (b : Bool) (x y : Outcome (Round S))
      → (b ≡ true → Returns (Fine n) x)
      → (b ≡ false → Returns (Fine n) y)
      → Returns (Fine n) (if b then x else y)
  if-Returns n true x y h k = h refl
  if-Returns n false x y h k = k refl

  module _ (n : ℕ) where
    pub cut_tail-Returns :
        (fuel k : ℕ) (res : Bytes) (s : S)
        → 0 < k
        → length res ≤ fuel
        → Good res
        → length res ≤ n
        → Inv s
        → Returns (Fine n) (cut_tail late accepts fuel k res s)
    unfolding cut_tail
    cut_tail-Returns zero k res s p enough g l v =
        if-Returns n (ltb k (length res)) _ _ (λ e. absurd (ground (arith, e))) (λ e. (g, l, v))
    cut_tail-Returns (suc fuel) k res s p enough g l v =
        if-Returns n (ltb k (length res)) _ _
          (λ e.
            let shorter = length-take (length res - k) res in
            answered n (take (length res - k) res) s _ _ _ v (g, l, v)
              (λ g' s' v'.
                cut_tail-Returns fuel k (take (length res - k) res) s' p (ground arith) g'
                  (omega arith) v')
              (λ s' v'. (g, l, v')))
          (λ e. (g, l, v))

    pub remove_bytes-Returns :
        (fuel i : ℕ) (res : Bytes) (s : S)
        → length res - i ≤ fuel
        → Good res
        → length res ≤ n
        → Inv s
        → Returns (Fine n) (remove_bytes late accepts fuel i res s)
    unfolding remove_bytes
    remove_bytes-Returns zero i res s enough g l v =
        if-Returns n (ltb i (length res)) _ _ (λ e. absurd (ground (arith, e))) (λ e. (g, l, v))
    remove_bytes-Returns (suc fuel) i res s enough g l v =
        if-Returns n (ltb i (length res)) _ _
          (λ e.
            let inside : i < length res = ground arith in
            let size : length (take i res ++ drop (i + 1) res) ≡ length res - 1 = omega (
              arith,
              length-append (take i res) (drop (i + 1) res),
              length-take i res,
              length-drop (i + 1) res,
            ) in
            answered n (take i res ++ drop (i + 1) res) s _ _ _ v (g, l, v)
              (λ g' s' v'.
                remove_bytes-Returns fuel i (take i res ++ drop (i + 1) res) s' (omega arith) g'
                  (omega arith) v')
              (λ s' v'. remove_bytes-Returns fuel (i + 1) res s' (omega arith) g l v'))
          (λ e. (g, l, v))

    find_cut-Cut :
        (j i : ℕ) (res : Bytes) (s : S)
        → j ≤ length res
        → Good res
        → length res ≤ n
        → Inv s
        → (late_case on_none : S → Outcome (Round S)) (on_some : Bytes → S → Outcome (Round S))
        → ((s' : S) → Inv s' → Returns (Fine n) (late_case s'))
        → ((s' : S) → Inv s' → Returns (Fine n) (on_none s'))
        → ((c : Bytes) (s' : S)
            → Good c
            → length c < length res
            → Inv s'
            → Returns (Fine n) (on_some c s'))
        → Returns (Fine n) (on_cut (find_cut late accepts j i res s) late_case on_none on_some)
    unfolding find_cut
    find_cut-Cut zero i res s le g l v a b d ha hb hd = hb s v
    find_cut-Cut (suc j) i res s le g l v a b d ha hb hd = elim (Bool-cases (ltb (i + 1) (suc j))) [
      | inr e ↦ rw e (hb s v)
      | inl e ↦
          let below : i + 1 < suc j = ground arith in
          let size : length (take i res ++ drop (suc j) res) < length res = omega (
            arith,
            length-append (take i res) (drop (suc j) res),
            length-take i res,
            length-drop (suc j) res,
          ) in
          rw e (
            test_elim (λ t. Returns (Fine n) (on_cut (on_try t) a b d))
              (take i res ++ drop (suc j) res) s v (ha s v)
              (λ s' g' v'. hd (take i res ++ drop (suc j) res) s' g' size v')
              (λ s' v'. find_cut-Cut j i res s' (omega arith) g l v' a b d ha hb hd))
    ]
      where
        on_try : Tried S → Cut S
        on_try t = elim t [
          | too_late ↦ returned_cut s
          | accepted s' ↦ cut_at (take i res ++ drop (suc j) res) s'
          | rejected s' ↦ find_cut late accepts j i res s'
        ]

    pub remove_ranges_at-Returns :
        (fuel j i : ℕ) (res : Bytes) (s : S)
        → length res ≤ fuel
        → j ≤ length res
        → Good res
        → length res ≤ n
        → Inv s
        → Returns (Fine n) (remove_ranges_at late accepts fuel j i res s)
    unfolding remove_ranges_at
    remove_ranges_at-Returns zero j i res s enough le g l v =
        find_cut-Cut j i res s le g l v _ _ _ (λ s' v'. (g, l, v')) (λ s' v'. (g, l, v'))
          (λ c s' g' h v'. absurd (omega arith))
    remove_ranges_at-Returns (suc fuel) j i res s enough le g l v =
        find_cut-Cut j i res s le g l v _ _ _ (λ s' v'. (g, l, v')) (λ s' v'. (g, l, v'))
          (λ c s' g' h v'.
            remove_ranges_at-Returns fuel (length c - 1) i c s' (omega arith) (omega arith) g'
              (omega arith) v')

    pub canonicalize-Returns :
        (fuel i : ℕ) (res : Bytes) (s : S)
        → length res - i ≤ fuel
        → Good res
        → length res ≤ n
        → Inv s
        → Returns (Fine n) (canonicalize late accepts fuel i res s)
    unfolding canonicalize
    canonicalize-Returns zero i res s enough g l v =
        if-Returns n (ltb i (length res)) _ _ (λ e. absurd (ground (arith, e))) (λ e. (g, l, v))
    canonicalize-Returns (suc fuel) i res s enough g l v =
        if-Returns n (ltb i (length res)) _ _
          (λ e.
            let same = length-set res i b'0' in
            let further = λ (s' : S) (v' : Inv s').
              canonicalize-Returns fuel (i + 1) res s' (omega arith) g l v' in
            if-Returns n (get_or res i 0 == b'0') _ _ (λ e'. further s v)
              (λ e'.
                answered n (set res i b'0') s _ _ _ v (g, l, v)
                  (λ g' s' v'.
                    canonicalize-Returns fuel (i + 1) (set res i b'0') s' (omega arith) g'
                      (omega arith) v')
                  further))
          (λ e. (g, l, v))
