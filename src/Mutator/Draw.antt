-- ===== src/Mutator/Draw.antt =====
-- Computations on the random generator, `rand`, `randbig`, `randByteOrder` and `chooseLen`.
use go_fuzz.Base.{
  ℕ, ◌+◌, ◌^◌, ◌<◌, ◌≤◌, ◌≡◌, refl, ap, Bool, true, false, Outcome, done, panic, no_fuel, Safe,
  Safe-mono, ltb, min, max, if◌then◌else◌, ◌>>>◌, arith,
}
use go_fuzz.Pcg
use go_fuzz.Pcg.{Rand}
use go_fuzz.Pcg.Draws.{intn_lem}

abbrev pub Draw : Type 0 → Type 0
Draw A = Rand → Outcome (A × Rand)

abbrev pub pure : {A : Type 0} → A → Draw A
pure a r = done (a, r)

-- Code that draws nothing and may panic.
abbrev pub lift : {A : Type 0} → Outcome A → Draw A
lift (done a) r = done (a, r)
lift panic r = panic
lift no_fuel r = no_fuel

abbrev continue : {A B : Type 0} → Outcome (A × Rand) → (A → Draw B) → Outcome (B × Rand)
continue (done (a, r)) f = f a r
continue panic f = panic
continue no_fuel f = no_fuel

infixl 5 ◌>>=◌ ◌>>◌
abbrev pub ◌>>=◌ : {A B : Type 0} → Draw A → (A → Draw B) → Draw B
◌>>=◌ m f r = continue (m r) f

abbrev pub ◌>>◌ : {A B : Type 0} → Draw A → Draw B → Draw B
m >> k = m >>= λ _. k

-- Whatever the generator's state, the computation does not panic, and `P` holds of what it returns.
pub record IsSafe {A : Type 0} (P : A → Type 0) (m : Draw A) : Type 0 where
  pub at : (r : Rand) → Safe (λ ar. P ar.0) (m r)

module _ {A : Type 0} where
  pub pure-IsSafe : (P : A → Type 0) (a : A) → P a → IsSafe P (pure a)
  pure-IsSafe P a h = record { at = λ r. h }

  pub IsSafe-mono :
      (P Q : A → Type 0) (m : Draw A) → ((a : A) → P a → Q a) → IsSafe P m → IsSafe Q m
  IsSafe-mono P Q m f h = record {
    at = λ r. Safe-mono (λ ar. P ar.0) (λ ar. Q ar.0) (m r) (λ ar. f ar.0) (h.at r);
  }

  pub lift-IsSafe : (P : A → Type 0) (o : Outcome A) → Safe P o → IsSafe P (lift o)
  lift-IsSafe P (done a) h = record { at = λ r. h }
  lift-IsSafe P panic h = absurd h
  lift-IsSafe P no_fuel h = record { at = λ r. tt }

module _ {A B : Type 0} where
  continue-Safe :
      (P : A → Type 0) (Q : B → Type 0) (o : Outcome (A × Rand)) (f : A → Draw B)
      → Safe (λ ar. P ar.0) o
      → ((a : A) → P a → IsSafe Q (f a))
      → Safe (λ br. Q br.0) (continue o f)
  continue-Safe P Q (done (a, r)) f h k = (k a h).at r
  continue-Safe P Q panic f h k = h
  continue-Safe P Q no_fuel f h k = tt

  pub bind-IsSafe :
      (P : A → Type 0) (Q : B → Type 0) (m : Draw A) (f : A → Draw B)
      → IsSafe P m
      → ((a : A) → P a → IsSafe Q (f a))
      → IsSafe Q (m >>= f)
  bind-IsSafe P Q m f h k = record { at = λ r. continue-Safe P Q (m r) f (h.at r) k }

  -- What the code comes to after a computation that panics, or that returns.
  pub after_panic : (m : Draw A) (f : A → Draw B) (r : Rand) → m r ≡ panic → (m >>= f) r ≡ panic
  after_panic m f r e = ap (λ o. continue o f) e

  pub after_done :
      (m : Draw A) (f : A → Draw B) (r r' : Rand) (a : A)
      → m r ≡ done (a, r')
      → (m >>= f) r ≡ f a r'
  after_done m f r r' a e = ap (λ o. continue o f) e

module _ {A : Type 0} where
  pub if-IsSafe :
      (P : A → Type 0) (b : Bool) (m n : Draw A)
      → (b ≡ true → IsSafe P m)
      → (b ≡ false → IsSafe P n)
      → IsSafe P (if b then m else n)
  if-IsSafe P true m n h k = h refl
  if-IsSafe P false m n h k = k refl

pub data ByteOrder : Type 0 where
  little big : ByteOrder

unfoldable pub flip : Draw Bool
flip r = done (Pcg.bool r)

-- `1 + m.r.Exp2()`
unfoldable pub mutation_count : Draw ℕ
mutation_count r = let (k, r') = Pcg.exp2 r in done (1 + k, r')

unfoldable pub randbig : Draw ℕ
randbig r = let (v, r') = Pcg.uint32 r in done (v >>> 2, r')

unfoldable pub rand_byte_order : Draw ByteOrder
rand_byte_order = do b ← flip; pure (if b then little else big)

module _ (fuel : ℕ) where
  unfoldable pub rand : ℕ → Draw ℕ
  rand n = Pcg.intn fuel n

  -- Shorter lengths are preferred.
  unfoldable pub choose_len : ℕ → Draw ℕ
  unfolding rand
  choose_len n = do
    x ← rand 100
    k ← if ltb x 90 then rand (min 8 n) else if ltb x 99 then rand (min 32 n) else rand n
    pure (k + 1)

  -- A number drawn below a positive bound is below it.
  pub rand-IsSafe : (n : ℕ) → n < 2 ^ 32 → 0 < n → IsSafe (λ k. k < n) (rand n)
  unfolding rand
  rand-IsSafe n fits pos = record {
    at = λ r.
        Safe-mono (λ ar. ar.0 < max n 1) (λ ar. ar.0 < n) (Pcg.intn fuel n r) (λ ar h. omega arith)
          (intn_lem fuel n r fits);
  }

  -- A chosen length is at least 1 and at most `n`.
  pub choose_len-IsSafe :
      (n : ℕ) → n < 2 ^ 32 → 0 < n → IsSafe (λ k. (1 ≤ k) × (k ≤ n)) (choose_len n)
  unfolding choose_len
  choose_len-IsSafe n fits pos =
      bind-IsSafe (λ x. x < 100) _ (rand 100) _ (rand-IsSafe 100 (omega arith) (omega arith))
        λ x hx.
          bind-IsSafe (λ k. k < n) _ _ _ (chosen x) λ k hk. pure-IsSafe _ (k + 1) (omega arith)
    where
      weaker : (m : ℕ) → m ≤ n → 0 < m → IsSafe (λ k. k < n) (rand m)
      weaker m le p =
          IsSafe-mono (λ k. k < m) (λ k. k < n) (rand m) (λ k h. omega arith)
            (rand-IsSafe m (omega arith) p)

      chosen :
          (x : ℕ)
          → IsSafe
              (λ k. k < n)
              (if ltb x 90 then rand (min 8 n) else if ltb x 99 then rand (min 32 n) else rand n)
      chosen x =
          if-IsSafe _ (ltb x 90) _ _ (λ e. weaker (min 8 n) (omega arith) (omega arith))
            λ e.
              if-IsSafe _ (ltb x 99) _ _ (λ e. weaker (min 32 n) (omega arith) (omega arith))
                λ e. rand-IsSafe n fits pos
