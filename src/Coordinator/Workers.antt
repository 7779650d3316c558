-- ===== src/Coordinator/Workers.antt =====
-- The coordinator's map from worker ids to workers.
use go_fuzz.Base.{
  ℕ, ◌≡◌, ◌≢◌, refl, sym, ◌==◌, ==_iff, Bool-cases, inl, inr, Bool, false, Option, none, some, List,
  [], ◌∷◌, if◌then◌else◌, arith,
}
use mathlib.Core.Option
use mathlib.Core.Path.{subst}

module _ {ℓ} {W : Type ℓ} where
  unfoldable pub get : ℕ → List (ℕ × W) → Option W
  get k [] = none
  get k ((j, w) ∷ ws) = if j == k then some w else get k ws

  -- `m[k] = w`
  unfoldable pub put : ℕ → W → List (ℕ × W) → List (ℕ × W)
  put k w [] = (k, w) ∷ []
  put k w ((j, v) ∷ ws) = if j == k then (k, w) ∷ ws else (j, v) ∷ put k w ws

  -- The body of a `range` over the map, which may change each worker.
  unfoldable pub update_all : (W → W) → List (ℕ × W) → List (ℕ × W)
  update_all f [] = []
  update_all f ((j, w) ∷ ws) = (j, f w) ∷ update_all f ws

  -- `delete(m, k)` for every worker that is marked.
  unfoldable pub delete_where : (W → Bool) → List (ℕ × W) → List (ℕ × W)
  delete_where dead [] = []
  delete_where dead ((j, w) ∷ ws) =
      let rest = delete_where dead ws in if dead w then rest else (j, w) ∷ rest

  pub get-put :
      (k i : ℕ) (w : W) (ws : List (ℕ × W))
      → get i (put k w ws) ≡ (if k == i then some w else get i ws)
  unfolding get put
  get-put k i w [] = refl
  get-put k i w ((j, v) ∷ ws) = ground (arith, get-put k i w ws)

  pub get-update_all :
      (f : W → W) (i : ℕ) (ws : List (ℕ × W)) → get i (update_all f ws) ≡ Option.map f (get i ws)
  unfolding get update_all
  get-update_all f i [] = refl
  get-update_all f i ((j, w) ∷ ws) = ground (arith, get-update_all f i ws)

  -- No key stands twice.
  abbrev pub Fresh : ℕ → List (ℕ × W) → Type 0
  Fresh k [] = Unit
  Fresh k ((j, w) ∷ ws) = (j ≢ k) × Fresh k ws

  abbrev pub Distinct : List (ℕ × W) → Type 0
  Distinct [] = Unit
  Distinct ((j, w) ∷ ws) = Fresh j ws × Distinct ws

  pub get-Fresh : (k : ℕ) (ws : List (ℕ × W)) → Fresh k ws → get k ws ≡ none
  unfolding get
  get-Fresh k [] h = refl
  get-Fresh k ((j, w) ∷ ws) h = ground (arith, h.0, get-Fresh k ws h.1)

  pub Fresh-delete_where :
      (k : ℕ) (dead : W → Bool) (ws : List (ℕ × W)) → Fresh k ws → Fresh k (delete_where dead ws)
  unfolding delete_where
  Fresh-delete_where k dead [] h = tt
  Fresh-delete_where k dead ((j, w) ∷ ws) h = elim (Bool-cases (dead w)) [
    | inl e ↦ rw e (Fresh-delete_where k dead ws h.1)
    | inr e ↦ rw e (h.0, Fresh-delete_where k dead ws h.1)
  ]

  -- With distinct keys a lookup after the deletion finds exactly the workers that are not marked.
  pub get-delete_where :
      (dead : W → Bool) (i : ℕ) (w : W) (ws : List (ℕ × W))
      → Distinct ws
      → get i (delete_where dead ws) ≡ some w
      → (get i ws ≡ some w) × (dead w ≡ false)
  unfolding get delete_where
  get-delete_where dead i w [] d h = cc
  get-delete_where dead i w ((j, v) ∷ ws) d h = ground (
    arith,
    get-delete_where dead i w ws d.1,
    get-Fresh j (delete_where dead ws) (Fresh-delete_where j dead ws d.0),
    get-Fresh j ws d.0,
  )

  pub Distinct-delete_where :
      (dead : W → Bool) (ws : List (ℕ × W)) → Distinct ws → Distinct (delete_where dead ws)
  unfolding delete_where
  Distinct-delete_where dead [] h = tt
  Distinct-delete_where dead ((j, w) ∷ ws) h = elim (Bool-cases (dead w)) [
    | inl e ↦ rw e (Distinct-delete_where dead ws h.1)
    | inr e ↦ rw e (Fresh-delete_where j dead ws h.0, Distinct-delete_where dead ws h.1)
  ]

  pub Fresh-put : (i k : ℕ) (w : W) (ws : List (ℕ × W)) → i ≢ k → Fresh i ws → Fresh i (put k w ws)
  unfolding put
  Fresh-put i k w [] ne h = (λ e. ne (sym e), tt)
  Fresh-put i k w ((j, v) ∷ ws) ne h = elim (Bool-cases (j == k)) [
    | inl e ↦ rw e (λ e. ne (sym e), h.1)
    | inr e ↦ rw e (h.0, Fresh-put i k w ws ne h.1)
  ]

  pub Distinct-put : (k : ℕ) (w : W) (ws : List (ℕ × W)) → Distinct ws → Distinct (put k w ws)
  unfolding put
  Distinct-put k w [] h = (tt, tt)
  Distinct-put k w ((j, v) ∷ ws) h = elim (Bool-cases (j == k)) [
    | inl e ↦ rw e (subst (λ n. Fresh n ws) ((==_iff j k).0 e) h.0, h.1)
    | inr e ↦ rw e (Fresh-put j k w ws (λ q. cc ((==_iff j k).1 q)) h.0, Distinct-put k w ws h.1)
  ]

  pub Fresh-update_all :
      (f : W → W) (k : ℕ) (ws : List (ℕ × W)) → Fresh k ws → Fresh k (update_all f ws)
  unfolding update_all
  Fresh-update_all f k [] h = tt
  Fresh-update_all f k ((j, w) ∷ ws) h = (h.0, Fresh-update_all f k ws h.1)

  pub Distinct-update_all :
      (f : W → W) (ws : List (ℕ × W)) → Distinct ws → Distinct (update_all f ws)
  unfolding update_all
  Distinct-update_all f [] h = tt
  Distinct-update_all f ((j, w) ∷ ws) h =
      (Fresh-update_all f j ws h.0, Distinct-update_all f ws h.1)
