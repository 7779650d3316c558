-- ===== src/Mutator/Safety/Inputs.antt =====
-- Panics and lengths in the cases 16 to 19 of `mutate` of go-fuzz/mutator.go.
use go_fuzz.Base.{
  ℕ, ◌+◌, ◌-◌, ◌^◌, ◌<◌, ◌≤◌, ◌≡◌, Bool, true, false, Option, none, some, [], ◌∷◌, All, length, ltb,
  leb, ◌==◌, ◌&&◌, ◌||◌, if◌then◌else◌, arith, ◌⊎◌,
}
use go_fuzz.Bytes
use go_fuzz.Bytes.{Bytes}
use go_fuzz.Bytes.Reverse.{length-reverse}
use go_fuzz.Mutator.Draw.{
  Draw, pure, IsSafe, pure-IsSafe, if-IsSafe, IsSafe-mono, rand-IsSafe, choose_len-IsSafe,
}
use go_fuzz.Mutator.Corpus.{
  RoData, common_prefix, diff_len, splice, insert_part, use_string, literal, insert_literal,
  replace_with_literal,
}
use go_fuzz.Mutator.Safety.{
  AnswerWithin, Within, chain, slice-IsSafe, copy_to-IsSafe, open_gap-IsSafe, write_piece-IsSafe,
  flip-IsSafe, pick-IsSafe,
}

-- The inputs and the literals have at most `k` bytes, their numbers fit in 32 bits, and there are integer
-- literals if there are string literals.
pub record Fits (k : ℕ) (ro : RoData) : Type 0 where
  pub contents : All (λ inp. length inp.content ≤ k) ro.corpus
  pub strings : All (Within k) ro.str_lits
  pub integers : All (Within k) ro.int_lits
  pub few :
      (length ro.corpus < 2 ^ 32) × (length ro.str_lits < 2 ^ 32) × (length ro.int_lits < 2 ^ 32)
  pub integer_or_none : (length ro.str_lits ≡ 0) ⊎ (0 < length ro.int_lits)

common_prefix-le : (res other : Bytes) → common_prefix res other ≤ length other
unfolding common_prefix
common_prefix-le [] other = omega arith
common_prefix-le (x ∷ res) [] = omega arith
common_prefix-le (x ∷ res) (y ∷ other) = ground (arith, common_prefix-le res other)

-- Where the parts that differ have at least 4 bytes, they begin that far before the ends.
diff_len_lem :
    (res other : Bytes)
    → (common_prefix res other + diff_len res other ≤ length res) ⊎ (diff_len res other ≡ 0)
unfolding diff_len
diff_len_lem res other = ground arith

module _ (fuel : ℕ) (ro : RoData) (k : ℕ) (lits : Fits k ro) (small : k < 2 ^ 32) where
  literal-IsSafe :
      ((length ro.int_lits == 0) && (length ro.str_lits == 0)) ≡ false
      → IsSafe (Within k) (literal fuel ro)
  unfolding literal use_string
  literal-IsSafe e =
      let use_string-IsSafe : IsSafe (λ b. b ≡ true → 0 < length ro.str_lits) (use_string ro) =
        if-IsSafe _ (length ro.str_lits == 0) _ _ (λ e. pure-IsSafe _ false (λ x. cc))
          (λ e. IsSafe-mono _ _ _ (λ b t x. ground arith) flip-IsSafe) in
      let some_integer : 0 < length ro.int_lits = ground (arith, lits.integer_or_none) in
      chain use_string-IsSafe λ string h.
        if-IsSafe _ string _ _
          (λ e. pick-IsSafe fuel (Within k) ro.str_lits lits.strings (h e) lits.few.1)
          (λ e.
            chain (pick-IsSafe fuel (Within k) ro.int_lits lits.integers some_integer lits.few.2)
              λ lit hl.
                chain (rand-IsSafe fuel 3 (omega arith) (omega arith))
                  λ z hz. pure-IsSafe _ _ (turned (z == 0) lit hl))
    where
      turned :
          (b : Bool) (lit : Bytes)
          → length lit ≤ k
          → length (if b then Bytes.reverse lit else lit) ≤ k
      turned true lit h = omega (arith, length-reverse lit)
      turned false lit h = h

  module _ (res : Bytes) (bound : ℕ) (fits : length res + 1 < 2 ^ 32)
      (room : length res + k ≤ bound) where
    abbrev Fine : Draw (Option Bytes) → Type 0
    Fine m = IsSafe (AnswerWithin bound) m

    again : Fine (pure none)
    again = pure-IsSafe _ none tt

    pub insert_literal-Fine : Fine (insert_literal fuel ro res)
    unfolding insert_literal
    insert_literal-Fine =
        if-IsSafe _ ((length ro.int_lits == 0) && (length ro.str_lits == 0)) _ _ (λ e. again)
          λ e. chain (literal-IsSafe e) λ lit hl.
            chain (rand-IsSafe fuel (length res + 1) fits (omega arith)) λ pos hp.
              chain (open_gap-IsSafe res pos (length lit) (omega arith)) λ gapped hg.
                chain (copy_to-IsSafe gapped pos (length gapped) lit (omega arith) (omega arith))
                  λ r hr. pure-IsSafe _ (some r) (omega arith)

    pub replace_with_literal-Fine : Fine (replace_with_literal fuel ro res)
    unfolding replace_with_literal
    replace_with_literal-Fine =
        if-IsSafe _ ((length ro.int_lits == 0) && (length ro.str_lits == 0)) _ _ (λ e. again)
          λ e. chain (literal-IsSafe e) λ lit hl.
            if-IsSafe _ (leb (length res) (length lit)) _ _ (λ e. again)
              λ e.
                let longer : length lit < length res = ground arith in
                chain (rand-IsSafe fuel (length res - length lit) (omega arith) (omega arith))
                  λ pos hp.
                    chain (copy_to-IsSafe res pos (length res) lit (omega arith) (omega arith))
                      λ r hr. pure-IsSafe _ (some r) (omega arith)

    pub splice-Fine : Fine (splice fuel ro res)
    unfolding splice
    splice-Fine =
        if-IsSafe _ (ltb (length res) 4 || ltb (length ro.corpus) 2) _ _ (λ e. again)
          λ e.
            let several : 2 ≤ length ro.corpus = ground arith in
            chain (pick-IsSafe fuel _ ro.corpus lits.contents (omega arith) lits.few.0) λ inp hi.
              if-IsSafe _ (ltb (length inp.content) 4) _ _ (λ e. again)
                λ e.
                  if-IsSafe _ (ltb (diff_len res inp.content) 4) _ _ (λ e. again)
                    λ e.
                      let apart : 4 ≤ diff_len res inp.content = ground arith in
                      let ends : common_prefix res inp.content + diff_len res inp.content
                          ≤ length res =
                        ground (arith, diff_len_lem res inp.content) in
                      chain
                        (rand-IsSafe fuel (diff_len res inp.content - 2) (omega arith)
                          (omega arith))
                        λ n hn.
                          chain
                            (slice-IsSafe inp.content (common_prefix res inp.content)
                              (length inp.content) (common_prefix-le res inp.content) (omega arith))
                            λ from hf.
                              chain
                                (copy_to-IsSafe res (common_prefix res inp.content)
                                  (common_prefix res inp.content + n + 1) from (omega arith)
                                  (omega arith))
                                λ r hr. pure-IsSafe _ (some r) (omega arith)

    pub insert_part-Fine : Fine (insert_part fuel ro res)
    unfolding insert_part
    insert_part-Fine =
        if-IsSafe _ (ltb (length res) 4 || ltb (length ro.corpus) 2) _ _ (λ e. again)
          λ e.
            let several : 2 ≤ length ro.corpus = ground arith in
            chain (pick-IsSafe fuel _ ro.corpus lits.contents (omega arith) lits.few.0) λ inp hi.
              if-IsSafe _ (ltb (length inp.content) 4) _ _ (λ e. again)
                λ e.
                  let enough : 4 ≤ length inp.content = ground arith in
                  chain (rand-IsSafe fuel (length res + 1) fits (omega arith)) λ pos0 h0.
                    chain (rand-IsSafe fuel (length inp.content - 2) (omega arith) (omega arith))
                      λ pos1 h1.
                        chain
                          (choose_len-IsSafe fuel (length inp.content - pos1 - 2) (omega arith)
                            (omega arith))
                          λ n hn.
                            chain (open_gap-IsSafe res pos0 (n + 2) (omega arith)) λ gapped hg.
                              chain
                                (slice-IsSafe inp.content pos1 (pos1 + (n + 2)) (omega arith)
                                  (omega arith))
                                λ piece hp.
                                  chain (write_piece-IsSafe gapped pos0 piece (omega arith))
                                    λ r hr. pure-IsSafe _ (some r) (omega arith)
