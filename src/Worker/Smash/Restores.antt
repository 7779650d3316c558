-- ===== src/Worker/Smash/Restores.antt =====
-- The passes of `smash` leave the input as it was, and test nothing that the region cannot hold.
use Prim.Native.Nat.{bit_xor}
use go_fuzz.Base.{
  ℕ, zero, suc, ◌+◌, ◌-◌, ◌*◌, ◌≤◌, ◌<◌, ◌≡◌, refl, sym, ap, ◌∙◌, List, [], ◌∷◌, length, arith, All,
  All-append, bit_xor_twice, bit_xor_right_comm,
}
use go_fuzz.Bytes.{Bytes, IsBytes}
use go_fuzz.Defs.{max_input_size}
use go_fuzz.Worker.Smash.{
  Pass, tested, silently, ◌then_pass◌, for_each, count_up, modify, toggles, bit_masks, byte_masks,
  walk, walking_bits, walking_bytes, plus, minus, increments, increment_bytes,
}

-- Two changes at one place or at two, in either order.
modify_comm :
    (f g : ℕ → ℕ)
    → ((b : ℕ) → f (g b) ≡ g (f b))
    → (i j : ℕ) (d : Bytes) → modify f i (modify g j d) ≡ modify g j (modify f i d)
unfolding modify
modify_comm f g h i j [] = refl
modify_comm f g h zero zero (b ∷ d) = ap (λ c. c ∷ d) (h b)
modify_comm f g h zero (suc j) (b ∷ d) = refl
modify_comm f g h (suc i) zero (b ∷ d) = refl
modify_comm f g h (suc i) (suc j) (b ∷ d) = ap (λ t. b ∷ t) (modify_comm f g h i j d)

modify_undo :
    (f g : ℕ → ℕ) (i : ℕ) (d : Bytes)
    → IsBytes d
    → ((b : ℕ) → b < 256 → g (f b) ≡ b)
    → modify g i (modify f i d) ≡ d
unfolding modify
modify_undo f g i [] h u = refl
modify_undo f g zero (b ∷ d) h u = ap (λ c. c ∷ d) (u b h.0)
modify_undo f g (suc i) (b ∷ d) h u = ap (λ t. b ∷ t) (modify_undo f g i d h.1 u)

length-modify : (f : ℕ → ℕ) (i : ℕ) (d : Bytes) → length (modify f i d) ≡ length d
unfolding modify
length-modify f i [] = refl
length-modify f zero (b ∷ d) = refl
length-modify f (suc i) (b ∷ d) = ap suc (length-modify f i d)

toggles-modify :
    (ts : List (ℕ × ℕ)) (i mask : ℕ) (d : Bytes)
    → toggles ts (modify (λ b. bit_xor b mask) i d) ≡ modify (λ b. bit_xor b mask) i (toggles ts d)
unfolding toggles
toggles-modify [] i mask d = refl
toggles-modify ((j, m) ∷ ts) i mask d =
    ap (toggles ts) (
      modify_comm (λ b. bit_xor b m) (λ b. bit_xor b mask) (λ b. bit_xor_right_comm b mask m) j i d)
    ∙ toggles-modify ts i mask (modify (λ b. bit_xor b m) j d)

modify_twice :
    (mask i : ℕ) (d : Bytes) → modify (λ b. bit_xor b mask) i (modify (λ b. bit_xor b mask) i d) ≡ d
unfolding modify
modify_twice mask i [] = refl
modify_twice mask zero (b ∷ d) = ap (λ c. c ∷ d) (bit_xor_twice b mask)
modify_twice mask (suc i) (b ∷ d) = ap (λ t. b ∷ t) (modify_twice mask i d)

toggles_twice : (ts : List (ℕ × ℕ)) (d : Bytes) → toggles ts (toggles ts d) ≡ d
unfolding toggles
toggles_twice [] d = refl
toggles_twice ((i, mask) ∷ ts) d =
    let f = λ (b : ℕ). bit_xor b mask in
    ap (toggles ts) (sym (toggles-modify ts i mask (modify f i d)))
    ∙ ap (λ t. toggles ts (toggles ts t)) (modify_twice mask i d)
    ∙ toggles_twice ts d

length-toggles : (ts : List (ℕ × ℕ)) (d : Bytes) → length (toggles ts d) ≡ length d
unfolding toggles
length-toggles [] d = refl
length-toggles ((i, mask) ∷ ts) d =
    length-toggles ts (modify (λ b. bit_xor b mask) i d) ∙ length-modify (λ b. bit_xor b mask) i d

-- The pass takes its changes back, and every input that it tests fits into the region.
abbrev pub Good : Bytes → Pass → Type 0
Good d p = ((p d).1 ≡ d) × All (λ c. length c ≤ max_input_size) (p d).0

pub then_pass-Good : (d : Bytes) (p q : Pass) → Good d p → Good d q → Good d (p then_pass q)
unfolding ◌then_pass◌
then_pass-Good d p q h k =
    rw h.0 (k.0, All-append (λ c. length c ≤ max_input_size) (p d).0 (q d).0 h.1 k.1)

pub for_each-Good :
    {A : Type 0} (d : Bytes) (items : List A) (p : A → Pass)
    → All (λ a. Good d (p a)) items
    → Good d (for_each items p)
unfolding for_each
for_each-Good d [] p h = (refl, tt)
for_each-Good d (a ∷ rest) p h =
    then_pass-Good d (p a) (for_each rest p) h.0 (for_each-Good d rest p h.1)

undone-Good :
    (d : Bytes) (f g : Bytes → Bytes)
    → g (f d) ≡ d
    → length (f d) ≤ max_input_size
    → Good d (tested f then_pass silently g)
unfolding ◌then_pass◌ tested silently
undone-Good d f g e l = (e, (l, tt))

All-everywhere : {A : Type 0} (P : A → Type 0) → ((a : A) → P a) → (xs : List A) → All P xs
All-everywhere P f [] = tt
All-everywhere P f (x ∷ xs) = (f x, All-everywhere P f xs)

-- `count_up k n` stays below its end.
pub All-count_up :
    (P : ℕ → Type 0) (k n m : ℕ) → k + n ≤ m → ((i : ℕ) → i < m → P i) → All P (count_up k n)
unfolding count_up
All-count_up P k zero m h f = tt
All-count_up P k (suc n) m h f = (f k (omega arith), All-count_up P (suc k) n m (omega arith) f)

module _ (d : Bytes) (byte : IsBytes d) (fits : length d ≤ max_input_size) where
  walk-Good : (masks : ℕ → List (ℕ × ℕ)) (n : ℕ) → Good d (walk masks n)
  unfolding walk
  walk-Good masks n = for_each-Good d (count_up 0 n) _ (
      All-everywhere _
        (λ i.
          undone-Good d (toggles (masks i)) (toggles (masks i)) (toggles_twice (masks i) d)
            (omega (arith, length-toggles (masks i) d)))
        (count_up 0 n))

  pub walking_bits-Good : (w : ℕ) → Good d (walking_bits w)
  unfolding walking_bits
  walking_bits-Good w = walk-Good (λ i. bit_masks i w) (length d * 8 - (w - 1))

  pub walking_bytes-Good : (w : ℕ) → Good d (walking_bytes w)
  unfolding walking_bytes
  walking_bytes-Good w = walk-Good (λ i. byte_masks i w) (length d - (w - 1))

  increments-Good : (i j : ℕ) → j ≤ 256 → Good d (increments i j)
  unfolding increments
  increments-Good i j h =
      then_pass-Good d _ _
        (undone-Good d (modify (plus j) i) (modify (minus j) i)
          (modify_undo (plus j) (minus j) i d byte (λ b lt. omega arith))
          (omega (arith, length-modify (plus j) i d)))
        (undone-Good d (modify (minus j) i) (modify (plus j) i)
          (modify_undo (minus j) (plus j) i d byte (λ b lt. omega arith))
          (omega (arith, length-modify (minus j) i d)))

  pub increment_bytes-Good : Good d increment_bytes
  unfolding increment_bytes
  increment_bytes-Good = for_each-Good d (count_up 0 (length d)) _ (
      All-everywhere _
        (λ i.
          for_each-Good d (count_up 1 4) (increments i)
            (All-count_up _ 1 4 256 (omega arith) (λ j lt. increments-Good i j (omega arith))))
        (count_up 0 (length d)))
