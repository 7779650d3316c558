-- ===== src/Tests/Hints.antt =====
-- The theorems on the inputs that comparisons hint at.
use go_fuzz.Base.{◌≡◌, refl, false, none, [], ◌∷◌, length, Returns, All, done, arith}
use go_fuzz.Bytes.{Bytes}
use go_fuzz.Sonar.Sample.{SonarSample}
use go_fuzz.Sonar.Site.{SonarSite}
use go_fuzz.Sonar.Hints.{occurrences, uvarint, put_uvarint, process_samples}
use go_fuzz.Sonar.Hints.Places.{places, all_hints, occurrences-places}
use go_fuzz.Sonar.Hints.Fits.{Small}
use go_fuzz.Sonar.Hints.Process.{process_samples-Small}

-- 300 is written as 0xac 0x02.
three_hundred : uvarint 300 ≡ 0xac ∷ 2 ∷ []
unfolding uvarint put_uvarint
three_hundred = refl

abbrev twice : Bytes
twice = b'a' ∷ b'b' ∷ b'a' ∷ b'b' ∷ []

abbrev word_ab : Bytes
word_ab = b'a' ∷ b'b' ∷ []

occurrences-places_example :
    occurrences 5 0 twice twice word_ab (b'c' ∷ []) 0
    ≡ done (all_hints 0 twice twice word_ab (b'c' ∷ []) (places word_ab 0 twice))
occurrences-places_example =
    occurrences-places 0 twice twice word_ab (b'c' ∷ []) 5 (omega arith) (omega arith)

abbrev site : SonarSite
site = record {
  dynamic = false;
  fuzz_false = 0;
  fuzz_true = 0;
  total_false = 0;
  total_true = 0;
  val1 = none;
  val2 = none;
}

-- `a == c` at the first site, both operands variable
abbrev compared : SonarSample
compared = record { site = 0; flags = 0; val1 = b'a' ∷ []; val2 = b'c' ∷ [] }

abbrev same : Bytes → Bytes
same d = d

process_samples-Small_example :
    Returns
      (λ r. All Small r.0 × (length r.1 ≡ length (site ∷ [])))
      (process_samples same same false twice (compared ∷ []) (site ∷ []) [])
process_samples-Small_example =
    process_samples-Small same same false twice (compared ∷ []) (site ∷ []) []
      ((omega arith, omega arith), tt)
