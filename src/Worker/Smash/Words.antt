-- ===== src/Worker/Smash/Words.antt =====
-- The passes of `smash` that write words, trim and insert; and all the passes together.
use mathlib.Core.List.{append_assoc}
use go_fuzz.Base.{
  ℕ, ◌+◌, ◌-◌, ◌^◌, ◌≤◌, ◌<◌, ◌≡◌, refl, sym, ap, ◌∙◌, not, ◌&&◌, List, [], ◌∷◌, ◌++◌, length, take,
  drop, length-append, length-take, length-drop, map, min, ◌==◌, arith, All, All-append,
  take-append-drop, take-length_append, drop-length_append, Bool-cases, inl, inr,
}
use go_fuzz.Bytes.{Bytes, IsBytes}
use go_fuzz.Bytes.Reverse as Reverse
use go_fuzz.Bytes.Value.{le_bytes, length-le_bytes}
use go_fuzz.Defs.{max_input_size}
use go_fuzz.Mutator.Cases.{interesting8, interesting16, interesting32}
use go_fuzz.Worker.Smash.{
  Pass, tested, silently, ◌then_pass◌, for_each, count_up, store_at, interesting_at, both_orders,
  interesting_words, trims, insert_after, insert_loop, inserts, smash_passes, walking_bits,
  walking_bytes, increment_bytes,
}
use go_fuzz.Worker.Smash.Restores.{
  Good, then_pass-Good, for_each-Good, All-count_up, walking_bits-Good, walking_bytes-Good,
  increment_bytes-Good,
}

-- A word in the middle is overwritten by one of its size.
store_at_middle :
    (a b c x : Bytes) → length x ≡ length b → store_at (length a) x (a ++ (b ++ c)) ≡ a ++ (x ++ c)
unfolding store_at
store_at_middle a b c x e =
    let past : drop (length a + length x) (a ++ (b ++ c)) ≡ c =
      rw (e, ← length-append a b, ← append_assoc a b c) (drop-length_append (a ++ b) c) in
    rw (past, take-length_append a (b ++ c)) refl

module _ (a c : Bytes) (size : ℕ) (fits : length a + (size + length c) ≤ max_input_size) where
  -- After each write the input has some word of that size in the middle.
  abbrev Written : List Bytes × Bytes → Type 0
  Written r =
      ((z : Bytes) × (length z ≡ size) × (r.1 ≡ a ++ (z ++ c)))
      × All (λ t. length t ≤ max_input_size) r.0

  writes-Written :
      (values : List Bytes) (y : Bytes)
      → length y ≡ size
      → All (λ x. length x ≡ size) values
      → Written (for_each values (λ x. tested (store_at (length a) x)) (a ++ (y ++ c)))
  unfolding for_each ◌then_pass◌ tested
  writes-Written [] y e h = ((y, e, refl), tt)
  writes-Written (x ∷ values) y e h =
      let written = store_at_middle a y c x (h.0 ∙ sym e) in
      let more = writes-Written values x h.0 h.1 in
      rw written (more.0, (omega (arith, length-append a (x ++ c), length-append x c, h.0), more.1))

  restored-Good :
      (values : List Bytes) (v : Bytes)
      → length v ≡ size
      → All (λ x. length x ≡ size) values
      → Good (a ++ (v ++ c)) (
          for_each values (λ x. tested (store_at (length a) x))
          then_pass silently (store_at (length a) v))
  unfolding ◌then_pass◌ silently
  restored-Good values v e h =
      let ((z, ez, final), tests) = writes-Written values v e h in
      (
        rw (final, store_at_middle a z c v (e ∙ sym ez)) refl,
        All-append (λ t. length t ≤ max_input_size) _ [] tests tt,
      )

interesting_at-Good :
    (d : Bytes) (size i : ℕ) (values : List Bytes)
    → length d ≤ max_input_size
    → i + size ≤ length d
    → All (λ x. length x ≡ size) values
    → Good d (interesting_at size values i)
unfolding interesting_at
interesting_at-Good d size i values fits h sizes =
    let a = take i d in
    let v = take size (drop i d) in
    let c = drop size (drop i d) in
    let whole : a ++ (v ++ c) ≡ d =
      ap (λ t. a ++ t) (take-append-drop size (drop i d)) ∙ take-append-drop i d in
    let at : length a ≡ i = omega (arith, length-take i d) in
    let word : length v ≡ size = omega (arith, length-take size (drop i d), length-drop i d) in
    let rest : length c ≡ length d - i - size =
      omega (arith, length-drop size (drop i d), length-drop i d) in
    rw (whole, at) at
      (restored-Good a c size (omega (arith, at, rest, h, fits)) values v word sizes)

interesting_words-Good :
    (d : Bytes) (size : ℕ) (values : List Bytes)
    → length d ≤ max_input_size
    → 0 < size
    → All (λ x. length x ≡ size) values
    → Good d (interesting_words size values)
unfolding interesting_words
interesting_words-Good d size values fits pos sizes =
    for_each-Good d (count_up 0 (length d - (size - 1))) (interesting_at size values) (
      All-count_up _ 0 (length d - (size - 1)) (length d - (size - 1)) (omega arith)
        (λ i lt. interesting_at-Good d size i values fits (omega arith) sizes))

length-both_orders : (size : ℕ) (xs : List ℕ) → All (λ x. length x ≡ size) (both_orders size xs)
unfolding both_orders
length-both_orders size [] = tt
length-both_orders size (x ∷ xs) = elim (Bool-cases (not (x == 0) && not (x == 256 ^ size - 1))) [
  | inl e ↦ rw e (
    length-le_bytes size x,
    (Reverse.length-reverse (le_bytes size x) ∙ length-le_bytes size x, length-both_orders size xs),
  )
  | inr e ↦ rw e (length-le_bytes size x, length-both_orders size xs)
]

length-singletons : (xs : List ℕ) → All (λ x. length x ≡ 1) (map (λ x. x ∷ []) xs)
length-singletons [] = tt
length-singletons (x ∷ xs) = (refl, length-singletons xs)

trims-Good : (d : Bytes) → length d ≤ max_input_size → Good d trims
unfolding trims
trims-Good d fits = (refl, shorter (count_up 1 (length d - 1)))
  where
    shorter : (is : List ℕ) → All (λ c. length c ≤ max_input_size) (map (λ i. take i d) is)
    shorter [] = tt
    shorter (i ∷ is) = (omega (arith, length-take i d), shorter is)

inserts-Good : (d : Bytes) → Good d inserts
unfolding inserts insert_loop insert_after
inserts-Good d = (refl, cut (count_up 0 (min (length d + 1) (max_input_size - 1))))
  where
    cut : (is : List ℕ) → All (λ c. length c ≤ max_input_size) (insert_loop d is)
    cut [] = tt
    cut (i ∷ is) = (
      omega (arith, length-take max_input_size (take i d ++ 0 ∷ drop i d)),
      (omega (arith, length-take max_input_size (take i d ++ b'a' ∷ drop i d)), cut is),
    )

-- The passes behind the first in the order of the source, a composition of passes, and the inputs that they start from.
abbrev pub later_passes : List Pass
later_passes =
    walking_bits 2
    ∷ walking_bits 4
    ∷ walking_bytes 1
    ∷ walking_bytes 2
    ∷ walking_bytes 4
    ∷ increment_bytes
    ∷ interesting_words 1 (map (λ x. x ∷ []) interesting8)
    ∷ interesting_words 2 (both_orders 2 interesting16)
    ∷ interesting_words 4 (both_orders 4 interesting32)
    ∷ trims
    ∷ inserts
    ∷ []

abbrev pub in_turn : Pass → List Pass → Pass
in_turn p [] = p
in_turn p (q ∷ ps) = in_turn (p then_pass q) ps

abbrev pub starts : List Pass → Bytes → List Bytes
starts [] d = []
starts (p ∷ ps) d = d ∷ starts ps (p d).1

passes-Good :
    (d : Bytes)
    → IsBytes d
    → length d ≤ max_input_size
    → All (Good d) (walking_bits 1 ∷ later_passes)
passes-Good d byte fits = (
  walking_bits-Good d byte fits 1,
  (
    walking_bits-Good d byte fits 2,
    (
      walking_bits-Good d byte fits 4,
      (
        walking_bytes-Good d byte fits 1,
        (
          walking_bytes-Good d byte fits 2,
          (
            walking_bytes-Good d byte fits 4,
            (
              increment_bytes-Good d byte fits,
              (
                interesting_words-Good d 1 _ fits (omega arith) (length-singletons interesting8),
                (
                  interesting_words-Good d 2 _ fits (omega arith)
                      (length-both_orders 2 interesting16),
                  (
                    interesting_words-Good d 4 _ fits (omega arith)
                        (length-both_orders 4 interesting32),
                    (trims-Good d fits, (inserts-Good d, tt)),
                  ),
                ),
              ),
            ),
          ),
        ),
      ),
    ),
  ),
)

in_turn-Good :
    (d : Bytes) (p : Pass) (ps : List Pass) → Good d p → All (Good d) ps → Good d (in_turn p ps)
in_turn-Good d p [] h hs = h
in_turn-Good d p (q ∷ ps) h hs =
    in_turn-Good d (p then_pass q) ps (then_pass-Good d p q h hs.0) hs.1

starts-Good : (d : Bytes) (ps : List Pass) → All (Good d) ps → All (λ s. s ≡ d) (starts ps d)
starts-Good d [] hs = tt
starts-Good d (p ∷ ps) hs = (refl, rw hs.0.0 (starts-Good d ps hs.1))

-- Smashing an input that fits into the region is its twelve passes in turn. Each pass starts from the input
-- itself, the input is byte for byte as it was after the last one, and every input that the passes test
-- fits into the region.
pub smash_passes-Good :
    (d : Bytes)
    → IsBytes d
    → length d ≤ max_input_size
    → (smash_passes ≡ in_turn (walking_bits 1) later_passes)
      × All (λ s. s ≡ d) (starts (walking_bits 1 ∷ later_passes) d)
      × Good d smash_passes
unfolding smash_passes
smash_passes-Good d byte fits =
    let good = passes-Good d byte fits in
    (
      refl,
      starts-Good d (walking_bits 1 ∷ later_passes) good,
      in_turn-Good d (walking_bits 1) later_passes good.0 good.1,
    )
