-- ===== src/Sonar/Hints/Aligned.antt =====
-- What `processSonarData` looks for, it looks for in texts of the length of the input.
use Prim.Native.Nat.{bit_and}
use go_fuzz.Base.{
  ℕ, ◌≡◌, refl, Bool, true, false, not, ◌&&◌, List, [], ◌∷◌, ◌++◌, length, All, All-append, ltb,
  ◌==◌, if◌then◌else◌, Bool-cases, inl, inr, arith, bytes_eq, get_or,
}
use go_fuzz.Bytes.{Bytes}
use go_fuzz.Defs.{sonar_string, sonar_const1, sonar_const2}
use go_fuzz.Sonar.Sample.{SonarSample}
use go_fuzz.Sonar.Hints.{
  Query, in_case, string_queries, letter_queries, endian_queries, encoded_queries, queries,
  sample_queries, is_lower, is_upper,
}
use go_fuzz.Sonar.Hints.Fits.{Aligned}

module _ (lower upper : Bytes → Bytes) (content : Bytes) where
  in_case-Aligned :
      (to_case : Bytes → Bytes) (applies : Bool) (v1 v2 : Bytes)
      → All (Aligned content) (in_case lower upper to_case applies content v1 v2)
  unfolding in_case
  in_case-Aligned to_case applies v1 v2 =
      elim (Bool-cases (applies && (length (to_case content) == length content))) [
        | inl e ↦ rw e (same applies (length (to_case content)) (length content) e, tt)
        | inr e ↦ rw e tt
      ]
    where
      same : (a : Bool) (m n : ℕ) → (a && (m == n)) ≡ true → m ≡ n
      same a m n e = ground arith

  All-if :
      (b : Bool) (xs : List Query)
      → All (Aligned content) xs
      → All (Aligned content) (if b then xs else [])
  All-if true xs h = h
  All-if false xs h = tt

  abbrev Both : List Query → List Query → Type 0
  Both xs ys =
      All (Aligned content) xs → All (Aligned content) ys → All (Aligned content) (xs ++ ys)

  cases :
      (a b : Bool) (v1 v2 : Bytes)
      → All
          (Aligned content)
          (in_case lower upper lower a content v1 v2 ++ in_case lower upper upper b content v1 v2)
  cases a b v1 v2 =
      All-append (Aligned content) (in_case lower upper lower a content v1 v2)
        (in_case lower upper upper b content v1 v2) (in_case-Aligned lower a v1 v2)
        (in_case-Aligned upper b v1 v2)

  strings : (v1 v2 : Bytes) → All (Aligned content) (string_queries lower upper content v1 v2)
  unfolding string_queries
  strings v1 v2 =
      cases (bytes_eq v1 (lower v1) && bytes_eq v2 (lower v2))
        (bytes_eq v1 (upper v1) && bytes_eq v2 (upper v2)) v1 v2

  letters : (v1 v2 : Bytes) → All (Aligned content) (letter_queries lower upper content v1 v2)
  unfolding letter_queries
  letters v1 v2 =
      let single = (length v1 == 1) && (length v2 == 1) in
      let b1 = get_or v1 0 0 in
      let b2 = get_or v2 0 0 in
      cases (single && (is_lower b1 && is_lower b2)) (single && (is_upper b1 && is_upper b2)) v1 v2

  endians : (v1 v2 : Bytes) → All (Aligned content) (endian_queries lower upper content v1 v2)
  unfolding endian_queries
  endians v1 v2 = All-if (ltb 1 (length v1)) _ (refl, (refl, (refl, (refl, (refl, tt)))))

  encodings : (v1 v2 : Bytes) → All (Aligned content) (encoded_queries lower upper content v1 v2)
  unfolding encoded_queries
  encodings v1 v2 =
      All-append (Aligned content) _ (_ ∷ []) (All-if _ (_ ∷ _ ∷ _ ∷ []) (refl, (refl, (refl, tt))))
        (refl, tt)

  by_kind :
      (b : Bool) (v1 v2 : Bytes) (xs ys : List Query)
      → All (Aligned content) xs
      → All (Aligned content) ys
      → All (Aligned content) (if b then xs else ys)
  by_kind true v1 v2 xs ys h k = h
  by_kind false v1 v2 xs ys h k = k

  queries-Aligned :
      (flags : ℕ) (v1 v2 : Bytes) → All (Aligned content) (queries lower upper flags content v1 v2)
  unfolding queries
  queries-Aligned flags v1 v2 =
      let numbers =
        All-append (Aligned content) (letter_queries lower upper content v1 v2) _ (letters v1 v2) (
          refl,
          (
            refl,
            All-append (Aligned content) (endian_queries lower upper content v1 v2)
                (encoded_queries lower upper content v1 v2) (endians v1 v2) (encodings v1 v2),
          ),
        ) in
      (
        refl,
        All-append (Aligned content) _ (_ ∷ [])
            (by_kind (not (bit_and flags sonar_string == 0)) v1 v2 _ _ (strings v1 v2) numbers)
            (refl, tt),
      )

  pub sample_queries-Aligned :
      (sam : SonarSample) → All (Aligned content) (sample_queries lower upper sam content)
  unfolding sample_queries
  sample_queries-Aligned sam =
      All-append (Aligned content)
        (if bit_and sam.flags sonar_const1 == 0
          then queries lower upper sam.flags content sam.val1 sam.val2
          else [])
        _
        (All-if (bit_and sam.flags sonar_const1 == 0)
          (queries lower upper sam.flags content sam.val1 sam.val2)
          (queries-Aligned sam.flags sam.val1 sam.val2))
        (All-if (bit_and sam.flags sonar_const2 == 0)
          (queries lower upper sam.flags content sam.val2 sam.val1)
          (queries-Aligned sam.flags sam.val2 sam.val1))
