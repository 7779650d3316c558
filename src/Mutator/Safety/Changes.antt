-- ===== src/Mutator/Safety/Changes.antt =====
-- Panics and lengths in the cases 0 to 13 of `mutate` of go-fuzz/mutator.go.
use go_fuzz.Base.{
  ℕ, ◌+◌, ◌-◌, ◌*◌, ◌^◌, ◌<◌, ◌≤◌, Option, none, some, List, length, ltb, leb, ◌==◌, arith,
}
use go_fuzz.Bytes.{Bytes}
use go_fuzz.Mutator.Draw.{
  Draw, pure, IsSafe, pure-IsSafe, if-IsSafe, rand, rand-IsSafe, choose_len-IsSafe,
}
use go_fuzz.Mutator.Cases.{
  remove_range, insert_random, duplicate_range, copy_range, change_byte, bit_flip, set_byte,
  swap_bytes, add_to_byte, add_to_word, interesting8, interesting_byte, interesting_word,
}
use go_fuzz.Mutator.Safety.{
  AnswerWithin, chain, slice-IsSafe, copy_to-IsSafe, open_gap-IsSafe, index-IsSafe, store-IsSafe,
  write_piece-IsSafe, get_word-IsSafe, put_word-IsSafe, flip-IsSafe, rand_byte_order-IsSafe,
  other_than-IsSafe, fill_random-IsSafe,
}

module _ (fuel : ℕ) (res : Bytes) (bound : ℕ) (fits : length res + 1 < 2 ^ 32)
    (room : 2 * length res + 10 ≤ bound) where
  abbrev Fine : Draw (Option Bytes) → Type 0
  Fine m = IsSafe (AnswerWithin bound) m

  again : Fine (pure none)
  again = pure-IsSafe _ none tt

  answer : (r : Bytes) → length r ≤ bound → Fine (pure (some r))
  answer r h = pure-IsSafe _ (some r) h

  place : (n : ℕ) → n ≤ length res + 1 → 0 < n → IsSafe (λ k. k < n) (rand fuel n)
  place n h pos = rand-IsSafe fuel n (omega arith) pos

  pub remove_range-Fine : Fine (remove_range fuel res)
  unfolding remove_range
  remove_range-Fine =
      if-IsSafe _ (leb (length res) 1) _ _ (λ e. again)
        λ e. chain (place (length res) (omega arith) (ground arith)) λ pos hp.
          chain (choose_len-IsSafe fuel (length res - pos) (omega arith) (omega arith)) λ n hn.
            chain (slice-IsSafe res (pos + n) (length res) (omega arith) (omega arith)) λ tail ht.
              chain (copy_to-IsSafe res pos (length res) tail (omega arith) (omega arith))
                λ moved hm.
                  chain
                    (slice-IsSafe moved 0 (length res - (pos + n - pos)) (omega arith)
                      (omega arith))
                    λ r hr. answer r (omega arith)

  pub insert_random-Fine : Fine (insert_random fuel res)
  unfolding insert_random
  insert_random-Fine = chain (place (length res + 1) (omega arith) (omega arith)) λ pos hp.
      chain (choose_len-IsSafe fuel 10 (omega arith) (omega arith)) λ n hn.
        chain (open_gap-IsSafe res pos n (omega arith)) λ gapped hg.
          chain (fill_random-IsSafe fuel n gapped pos (omega arith)) λ r hr. answer r (omega arith)

  pub duplicate_range-Fine : Fine (duplicate_range fuel res)
  unfolding duplicate_range
  duplicate_range-Fine =
      if-IsSafe _ (leb (length res) 1) _ _ (λ e. again)
        λ e. chain (place (length res) (omega arith) (ground arith)) λ src hs.
          chain (place (length res) (omega arith) (ground arith)) λ dst0 hd0.
            chain (other_than-IsSafe fuel fuel (length res) src dst0 (omega arith) hd0) λ dst hd.
              chain (choose_len-IsSafe fuel (length res - src) (omega arith) (omega arith)) λ n hn.
                chain (slice-IsSafe res src (src + n) (omega arith) (omega arith)) λ piece hp.
                  chain (open_gap-IsSafe res dst n (omega arith)) λ gapped hg.
                    chain (write_piece-IsSafe gapped dst piece (omega arith))
                      λ r hr. answer r (omega arith)

  pub copy_range-Fine : Fine (copy_range fuel res)
  unfolding copy_range
  copy_range-Fine =
      if-IsSafe _ (leb (length res) 1) _ _ (λ e. again)
        λ e. chain (place (length res) (omega arith) (ground arith)) λ src hs.
          chain (place (length res) (omega arith) (ground arith)) λ dst0 hd0.
            chain (other_than-IsSafe fuel fuel (length res) src dst0 (omega arith) hd0) λ dst hd.
              chain (choose_len-IsSafe fuel (length res - src) (omega arith) (omega arith)) λ n hn.
                chain (slice-IsSafe res src (src + n) (omega arith) (omega arith)) λ piece hp.
                  chain (copy_to-IsSafe res dst (length res) piece (omega arith) (omega arith))
                    λ r hr. answer r (omega arith)

  change_byte-Fine :
      (change : Draw (ℕ → ℕ)) → IsSafe (λ f. Unit) change → Fine (change_byte fuel change res)
  unfolding change_byte
  change_byte-Fine change h =
      if-IsSafe _ (length res == 0) _ _ (λ e. again)
        λ e. chain (place (length res) (omega arith) (ground arith)) λ pos hp. chain h λ f t.
          chain (index-IsSafe res pos hp)
            λ old t'. chain (store-IsSafe res pos (f old) hp) λ r hr. answer r (omega arith)

  pub bit_flip-Fine : Fine (bit_flip fuel res)
  unfolding bit_flip
  bit_flip-Fine =
      change_byte-Fine _
        (chain (rand-IsSafe fuel 8 (omega arith) (omega arith)) λ k h. pure-IsSafe _ _ tt)

  pub set_byte-Fine : Fine (set_byte fuel res)
  unfolding set_byte
  set_byte-Fine =
      change_byte-Fine _
        (chain (rand-IsSafe fuel 255 (omega arith) (omega arith)) λ k h. pure-IsSafe _ _ tt)

  pub add_to_byte-Fine : Fine (add_to_byte fuel res)
  unfolding add_to_byte
  add_to_byte-Fine = change_byte-Fine _ (
      chain (rand-IsSafe fuel 35 (omega arith) (omega arith))
        λ k h. chain flip-IsSafe λ up t. pure-IsSafe _ _ tt)

  pub swap_bytes-Fine : Fine (swap_bytes fuel res)
  unfolding swap_bytes
  swap_bytes-Fine =
      if-IsSafe _ (leb (length res) 1) _ _ (λ e. again)
        λ e. chain (place (length res) (omega arith) (ground arith)) λ src hs.
          chain (place (length res) (omega arith) (ground arith)) λ dst0 hd0.
            chain (other_than-IsSafe fuel fuel (length res) src dst0 (omega arith) hd0) λ dst hd.
              chain (index-IsSafe res src hs) λ a t. chain (index-IsSafe res dst hd) λ b t'.
                chain (store-IsSafe res src b hs) λ one h1.
                  chain (store-IsSafe one dst a (omega arith)) λ r hr. answer r (omega arith)

  pub add_to_word-Fine : (size : ℕ) → 0 < size → Fine (add_to_word fuel size res)
  unfolding add_to_word
  add_to_word-Fine size some_size =
      if-IsSafe _ (ltb (length res) size) _ _ (λ e. again)
        λ e.
          let enough : size ≤ length res = ground arith in
          chain (place (length res - (size - 1)) (omega arith) (omega arith)) λ pos hp.
            chain (rand-IsSafe fuel 35 (omega arith) (omega arith)) λ k hk.
              chain flip-IsSafe λ down t. chain rand_byte_order-IsSafe λ order t'.
                chain (get_word-IsSafe order size res pos (omega arith)) λ old t''.
                  chain (put_word-IsSafe order size res pos (omega arith) _)
                    λ r hr. answer r (omega arith)

  pub interesting_byte-Fine : Fine (interesting_byte fuel res)
  unfolding interesting_byte
  interesting_byte-Fine =
      if-IsSafe _ (length res == 0) _ _ (λ e. again)
        λ e. chain (place (length res) (omega arith) (ground arith)) λ pos hp.
          chain (rand-IsSafe fuel (length interesting8) (omega arith) (omega arith)) λ k hk.
            chain (index-IsSafe interesting8 k hk)
              λ v t. chain (store-IsSafe res pos v hp) λ r hr. answer r (omega arith)

  pub interesting_word-Fine :
      (size : ℕ) (values : List ℕ)
      → 0 < size
      → 0 < length values
      → length values < 2 ^ 32
      → Fine (interesting_word fuel size values res)
  unfolding interesting_word
  interesting_word-Fine size values some_size some_value few =
      if-IsSafe _ (ltb (length res) size) _ _ (λ e. again)
        λ e.
          let enough : size ≤ length res = ground arith in
          chain (place (length res - (size - 1)) (omega arith) (omega arith)) λ pos hp.
            chain (rand-IsSafe fuel (length values) few some_value) λ k hk.
              chain (index-IsSafe values k hk) λ v t. chain rand_byte_order-IsSafe λ order t'.
                chain (put_word-IsSafe order size res pos (omega arith) v)
                  λ r hr. answer r (omega arith)
