-- ===== src/Sonar/Hints.antt =====
-- go-fuzz/sonar.go: the inputs that `processSonarData` makes from comparisons, by writing one operand
-- over the places where the other stands in the input. The case mappings of Unicode, which
-- `bytes.ToLower` and `bytes.ToUpper` apply, are arguments.
pub mod Places
pub mod Fits
pub mod Aligned
pub mod Process
use Prim.Native.Nat.{bit_and}
use go_fuzz.Base.{
  ℕ, zero, suc, ◌+◌, ◌-◌, ◌*◌, ◌/◌, ◌%◌, ◌^◌, Bool, true, false, not, ◌&&◌, ◌||◌, Option, none,
  some, List, [], ◌∷◌, ◌++◌, length, take, drop, get_or, set, Outcome, done, panic, no_fuel, ◌>>=◌,
  ltb, leb, ◌==◌, if◌then◌else◌, bytes_eq, u8, u64, get_elem?,
}
use go_fuzz.Bytes.{Bytes, reverse, increment, decrement}
use go_fuzz.Bytes.Value.{le_value}
use go_fuzz.Decimal.{format_uint, hex_encode}
use go_fuzz.Defs.{cover_size, sonar_string, sonar_const1, sonar_const2}
use go_fuzz.Sonar.Sample.{SonarSample, evaluate}
use go_fuzz.Sonar.Site.{SonarSite, update}

unfoldable pub has_prefix : Bytes → Bytes → Bool
has_prefix s [] = true
has_prefix [] (c ∷ prefix) = false
has_prefix (b ∷ s) (c ∷ prefix) = (b == c) && has_prefix s prefix

-- `bytes.Index`
unfoldable pub index : Bytes → Bytes → Option ℕ
unfolding has_prefix
index [] sep = if has_prefix [] sep then some 0 else none
index (b ∷ s) sep =
    let later = index s sep in
    if has_prefix (b ∷ s) sep then some 0 else elim later [ none ↦ none | some i ↦ some (i + 1) ]

-- `unicode.IsLower` and `unicode.IsUpper` of a rune below 256.
unfoldable pub is_lower : ℕ → Bool
is_lower c =
    (leb b'a' c && leb c b'z')
    || c == 0xb5
    || (leb 0xdf c && leb c 0xf6)
    || (leb 0xf8 c && leb c 0xff)

unfoldable pub is_upper : ℕ → Bool
is_upper c = (leb b'A' c && leb c b'Z') || (leb 0xc0 c && leb c 0xd6) || (leb 0xd8 c && leb c 0xde)

-- `binary.PutUvarint` into a buffer of ten bytes, which is enough for 64 bits.
unfoldable pub put_uvarint : ℕ → ℕ → Bytes
put_uvarint zero x = []
put_uvarint (suc k) x =
    let more = put_uvarint k (x / 128) in if ltb x 128 then x ∷ [] else (x % 128 + 128) ∷ more

unfoldable pub uvarint : ℕ → Bytes
unfolding put_uvarint
uvarint x = put_uvarint 10 x

-- The length field may stand in one of the five bytes in front of the operand.
unfoldable pub length_fields : ℕ → ℕ → ℕ → Bytes → List Bytes
length_fields zero idx diff tmp = []
length_fields (suc k) zero diff tmp = []
length_fields (suc k) (suc idx) diff tmp =
    set tmp idx (u8 (get_or tmp idx 0 + diff)) ∷ length_fields k idx diff tmp

-- `byte(len(v2) - len(v1))`
abbrev pub byte_diff : Bytes → Bytes → ℕ
byte_diff v1 v2 = u8 (length v2 + 256 * length v1 - length v1)

-- The inputs that one occurrence, at place `i`, gives.
unfoldable pub hints_at : ℕ → Bytes → Bytes → Bytes → ℕ → List Bytes
unfolding length_fields
hints_at flags content v1 v2 i =
    let whole = take i content ++ (v2 ++ drop (i + length v1) content) in
    let tmp = if ltb cover_size (length whole) then take cover_size whole else whole in
    if not (bit_and flags sonar_string == 0)
      && not (length v1 == length v2)
      && ltb (length tmp) cover_size
    then tmp ∷ length_fields 5 i (byte_diff v1 v2) tmp
    else tmp ∷ []

-- The loop over the occurrences in `indexdata` from `pos` on.
unfoldable pub occurrences : ℕ → ℕ → Bytes → Bytes → Bytes → Bytes → ℕ → Outcome (List Bytes)
unfolding index hints_at
occurrences zero flags content indexdata v1 v2 pos = no_fuel
occurrences (suc fuel) flags content indexdata v1 v2 pos = elim (index (drop pos indexdata) v1) [
  | none ↦ done []
  | some i ↦ occurrences fuel flags content indexdata v1 v2 (i + pos + 1) >>= λ more.
      done (hints_at flags content v1 v2 (i + pos) ++ more)
]

-- An operand to look for, what replaces it, and where to look.
pub record Query : Type 0 where
  pub indexdata : Bytes
  pub old : Bytes
  pub new : Bytes

abbrev query : Bytes → Bytes → Bytes → Query
query indexdata old new = record { indexdata = indexdata; old = old; new = new }

-- `string(v1) + "\t|\t" + string(v2)`
abbrev pub pair_key : Query → Bytes
pair_key q = q.old ++ (b'\t' ∷ b'|' ∷ b'\t' ∷ q.new)

unfoldable pub seen : Bytes → List Bytes → Bool
seen key [] = false
seen key (k ∷ checked) = bytes_eq k key || seen key checked

abbrev pub contains : Bytes → Bytes → Bool
contains s sep = elim (index s sep) [ none ↦ false | some i ↦ true ]

-- The tested inputs and the pairs that were checked.
unfoldable pub check : ℕ → Bytes → Query → List Bytes → Outcome (List Bytes × List Bytes)
unfolding index occurrences seen
check flags content q checked =
    if (length q.old == 0) || bytes_eq q.old q.new || not (contains q.indexdata q.old)
    then done ([], checked)
    else if not (length q.indexdata == length content)
    then panic
    else if seen (pair_key q) checked
    then done ([], checked)
    else occurrences (length q.indexdata + 2) flags content q.indexdata q.old q.new 0 >>= λ hints.
        done (hints, pair_key q ∷ checked)

unfoldable pub run_checks : ℕ → Bytes → List Query → List Bytes → Outcome (List Bytes × List Bytes)
unfolding check
run_checks flags content [] checked = done ([], checked)
run_checks flags content (q ∷ qs) checked = do
  (hints, checked') ← check flags content q checked
  (more, checked'') ← run_checks flags content qs checked'
  done (hints ++ more, checked'')

module _ (lower upper : Bytes → Bytes) where
  -- A search in the input in lower or upper case, if that has the same length.
  unfoldable pub in_case : (Bytes → Bytes) → Bool → Bytes → Bytes → Bytes → List Query
  in_case to_case applies content v1 v2 =
      if applies && (length (to_case content) == length content)
      then query (to_case content) v1 v2 ∷ []
      else []

  unfoldable pub string_queries : Bytes → Bytes → Bytes → List Query
  unfolding in_case
  string_queries content v1 v2 =
      in_case lower (bytes_eq v1 (lower v1) && bytes_eq v2 (lower v2)) content v1 v2
      ++ in_case upper (bytes_eq v1 (upper v1) && bytes_eq v2 (upper v2)) content v1 v2

  -- The case of single bytes.
  unfoldable pub letter_queries : Bytes → Bytes → Bytes → List Query
  unfolding in_case is_lower is_upper
  letter_queries content v1 v2 =
      let single = (length v1 == 1) && (length v2 == 1) in
      let b1 = get_or v1 0 0 in
      let b2 = get_or v2 0 0 in
      in_case lower (single && (is_lower b1 && is_lower b2)) content v1 v2
      ++ in_case upper (single && (is_upper b1 && is_upper b2)) content v1 v2

  unfoldable pub endian_queries : Bytes → Bytes → Bytes → List Query
  endian_queries content v1 v2 =
      if ltb 1 (length v1)
      then query content (reverse v1) (reverse v2)
        ∷ query content (reverse v1) (reverse (increment v2))
        ∷ query content (reverse v1) (reverse (decrement v2))
        ∷ query content v1 (reverse (increment (reverse v2)))
        ∷ query content v1 (reverse (decrement (reverse v2)))
        ∷ []
      else []

  -- Base-128 and decimal encodings of the values.
  unfoldable pub encoded_queries : Bytes → Bytes → Bytes → List Query
  unfolding uvarint
  encoded_queries content v1 v2 =
      let u1 = u64 (le_value v1) in
      let u2 = u64 (le_value v2) in
      (if ltb 127 u1 || ltb 127 u2
        then query content (uvarint u1) (uvarint u2)
          ∷ query content (uvarint (u64 (u1 + 1))) (uvarint (u64 (u2 + 1)))
          ∷ query content (uvarint (u64 (u1 + 2 ^ 64 - 1))) (uvarint (u64 (u2 + 2 ^ 64 - 1)))
          ∷ []
        else [])
      ++ query content (format_uint u1) (format_uint u2) ∷ []

  -- `check1`: what is looked for, in the order of the source.
  unfoldable pub queries : ℕ → Bytes → Bytes → Bytes → List Query
  unfolding string_queries letter_queries endian_queries encoded_queries
  queries flags content v1 v2 =
      query content v1 v2
        ∷ (if not (bit_and flags sonar_string == 0)
            then string_queries content v1 v2
            else letter_queries content v1 v2
              ++ (query content v1 (increment v2)
                  ∷ query content v1 (decrement v2)
                  ∷ (endian_queries content v1 v2 ++ encoded_queries content v1 v2)))
      ++ query content (hex_encode v1) (hex_encode v2) ∷ []

  -- A constant operand is not looked for.
  unfoldable pub sample_queries : SonarSample → Bytes → List Query
  unfolding queries
  sample_queries sam content =
      (if bit_and sam.flags sonar_const1 == 0
        then queries sam.flags content sam.val1 sam.val2
        else [])
      ++ (if bit_and sam.flags sonar_const2 == 0
          then queries sam.flags content sam.val2 sam.val1
          else [])

  -- What is left of a sample after the statistics of its site.
  unfoldable pub process_sample :
      Bool
      → Bytes
      → SonarSample
      → List SonarSite
      → List Bytes
      → Outcome (List Bytes × (List SonarSite × List Bytes))
  unfolding run_checks sample_queries
  process_sample smash content sam sites checked = evaluate sam >>= λ res.
      elim (get_elem? sites sam.site) [
        | none ↦ panic
        | some site ↦
            let u = update sam smash res site in
            let sites' = set sites sam.site u.site in
            if u.skip || (smash && bytes_eq sam.val1 sam.val2)
            then done ([], (sites', checked))
            else run_checks sam.flags content (sample_queries sam content) checked >>= λ r.
                done (r.0, (sites', r.1))
      ]

  -- The inputs that are tested for the samples of one run, in order, and the sites after them.
  unfoldable pub process_samples :
      Bool
      → Bytes
      → List SonarSample
      → List SonarSite
      → List Bytes
      → Outcome (List Bytes × List SonarSite)
  unfolding process_sample
  process_samples smash content [] sites checked = done ([], sites)
  process_samples smash content (sam ∷ samples) sites checked = do
    (hints, (sites', checked')) ← process_sample smash content sam sites checked
    (more, sites'') ← process_samples smash content samples sites' checked'
    done (hints ++ more, sites'')
