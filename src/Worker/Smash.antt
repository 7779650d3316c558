-- ===== src/Worker/Smash.antt =====
-- The deterministic inputs of `smash` in go-fuzz/worker.go. The passes change the input in place, test
-- it, and take the change back; a pass gives the inputs that it tests, in order, and the input as it
-- leaves it. Words are written through unsafe pointers on a little-endian machine.
pub mod Restores
pub mod Words
use Prim.Native.Nat.{bit_xor}
use go_fuzz.Base.{
  ℕ, zero, suc, ◌+◌, ◌-◌, ◌*◌, ◌/◌, ◌%◌, ◌^◌, Bool, not, ◌&&◌, List, [], ◌∷◌, ◌++◌, length, take,
  drop, map, min, ◌==◌, if◌then◌else◌, u8,
}
use go_fuzz.Bytes.{Bytes, reverse}
use go_fuzz.Bytes.Value.{le_bytes}
use go_fuzz.Defs.{max_input_size}
use go_fuzz.Mutator.Cases.{interesting8, interesting16, interesting32}

abbrev pub Pass : Type 0
Pass = Bytes → List Bytes × Bytes

-- A change, with or without a test after it.
unfoldable pub tested : (Bytes → Bytes) → Pass
tested change d = (change d ∷ [], change d)

unfoldable pub silently : (Bytes → Bytes) → Pass
silently change d = ([], change d)

infixl 5 ◌then_pass◌
unfoldable pub ◌then_pass◌ : Pass → Pass → Pass
◌then_pass◌ p q d = let (tests, d') = p d in let (more, d'') = q d' in (tests ++ more, d'')

unfoldable pub for_each : {A : Type 0} → List A → (A → Pass) → Pass
unfolding ◌then_pass◌
for_each [] p d = ([], d)
for_each (a ∷ rest) p d = (p a then_pass for_each rest p) d

-- The numbers from `k` on, `n` of them.
unfoldable pub count_up : ℕ → ℕ → List ℕ
count_up k zero = []
count_up k (suc n) = k ∷ count_up (suc k) n

-- `data[i] = f(data[i])`
unfoldable pub modify : (ℕ → ℕ) → ℕ → Bytes → Bytes
modify f i [] = []
modify f zero (b ∷ d) = f b ∷ d
modify f (suc i) (b ∷ d) = b ∷ modify f i d

-- `data[i] ^= mask` for each place and mask.
unfoldable pub toggles : List (ℕ × ℕ) → Bytes → Bytes
unfolding modify
toggles [] d = d
toggles ((i, mask) ∷ ts) d = toggles ts (modify (λ b. bit_xor b mask) i d)

-- The masks of `w` neighbouring bits, and of `w` neighbouring bytes.
unfoldable pub bit_masks : ℕ → ℕ → List (ℕ × ℕ)
bit_masks i zero = []
bit_masks i (suc w) = (i / 8, 2 ^ (i % 8)) ∷ bit_masks (suc i) w

unfoldable pub byte_masks : ℕ → ℕ → List (ℕ × ℕ)
byte_masks i zero = []
byte_masks i (suc w) = (i, 0xff) ∷ byte_masks (suc i) w

unfoldable pub walk : (ℕ → List (ℕ × ℕ)) → ℕ → Pass
unfolding for_each tested silently toggles
walk masks n =
    for_each (count_up 0 n) λ i. tested (toggles (masks i)) then_pass silently (toggles (masks i))

unfoldable pub walking_bits : ℕ → Pass
unfolding walk bit_masks
walking_bits w d = walk (λ i. bit_masks i w) (length d * 8 - (w - 1)) d

unfoldable pub walking_bytes : ℕ → Pass
unfolding walk byte_masks
walking_bytes w d = walk (λ i. byte_masks i w) (length d - (w - 1)) d

abbrev pub plus : ℕ → ℕ → ℕ
plus j b = u8 (b + j)

abbrev pub minus : ℕ → ℕ → ℕ
minus j b = u8 (b + 256 - j)

unfoldable pub increments : ℕ → ℕ → Pass
unfolding tested silently modify
increments i j =
    (tested (modify (plus j) i) then_pass silently (modify (minus j) i))
    then_pass (tested (modify (minus j) i) then_pass silently (modify (plus j) i))

unfoldable pub increment_bytes : Pass
unfolding for_each increments
increment_bytes d = for_each (count_up 0 (length d)) (λ i. for_each (count_up 1 4) (increments i)) d

-- The bytes from `i` on are overwritten.
unfoldable pub store_at : ℕ → Bytes → Bytes → Bytes
store_at i bs d = take i d ++ (bs ++ drop (i + length bs) d)

unfoldable pub interesting_at : ℕ → List Bytes → ℕ → Pass
unfolding for_each tested silently store_at
interesting_at size values i d =
    let v = take size (drop i d) in
    (for_each values (λ x. tested (store_at i x)) then_pass silently (store_at i v)) d

-- A value and, unless it is 0 or -1, the value with its bytes reversed.
unfoldable pub both_orders : ℕ → List ℕ → List Bytes
both_orders size [] = []
both_orders size (x ∷ xs) =
    let rest = both_orders size xs in
    if not (x == 0) && not (x == 256 ^ size - 1)
    then le_bytes size x ∷ reverse (le_bytes size x) ∷ rest
    else le_bytes size x ∷ rest

unfoldable pub interesting_words : ℕ → List Bytes → Pass
unfolding for_each interesting_at
interesting_words size values d =
    for_each (count_up 0 (length d - (size - 1))) (interesting_at size values) d

unfoldable pub trims : Pass
unfolding count_up
trims d = (map (λ i. take i d) (count_up 1 (length d - 1)), d)

-- `tmp`, which is cut at the size of the region, with a byte after the first `i`.
unfoldable pub insert_after : Bytes → ℕ → ℕ → Bytes
insert_after d c i = take max_input_size (take i d ++ c ∷ drop i d)

unfoldable pub insert_loop : Bytes → List ℕ → List Bytes
unfolding insert_after
insert_loop d [] = []
insert_loop d (i ∷ rest) = insert_after d 0 i ∷ insert_after d b'a' i ∷ insert_loop d rest

unfoldable pub inserts : Pass
unfolding insert_loop count_up
inserts d = (insert_loop d (count_up 0 (min (length d + 1) (max_input_size - 1))), d)

-- All of them, in the order of the source.
unfoldable pub smash_passes : Pass
smash_passes =
    walking_bits 1
    then_pass walking_bits 2
    then_pass walking_bits 4
    then_pass walking_bytes 1
    then_pass walking_bytes 2
    then_pass walking_bytes 4
    then_pass increment_bytes
    then_pass interesting_words 1 (map (λ x. x ∷ []) interesting8)
    then_pass interesting_words 2 (both_orders 2 interesting16)
    then_pass interesting_words 4 (both_orders 4 interesting32)
    then_pass trims
    then_pass inserts
