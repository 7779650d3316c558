-- ===== src/Hub/Newcomers.antt =====
-- The handler of new inputs in the loop of go-fuzz/hub.go.
use go_fuzz.Base.{
  ◌<◌, ◌≡◌, refl, ◌∙◌, Bool, true, false, Option, none, length, done, if◌then◌else◌, ◌>>=◌, Returns,
  Returns-bind, Returns-done, All, lookup, Bool-cases, Option-cases, inl, inr,
}
use go_fuzz.Bytes.{Bytes}
use go_fuzz.Defs.{cover_size}
use go_fuzz.Cover.{Table, compare_cover, make_copy}
use go_fuzz.Cover.Compare.{compare_cover_lem}
use go_fuzz.Cover.Update.{
  join, covered, length-join, update_max_cover_lem, compare_cover-update_max_cover,
}
use go_fuzz.Types.{Input}
use go_fuzz.Pcg.{Rand}
use go_fuzz.Versifier.Verse.{Verse, build_verse}
use go_fuzz.Versifier.Verse.Builds.{IsSoundVerse, build_verse-IsSound}
use go_fuzz.Hub.{Hub, next_verse, update_max_cover, take_input, new_input}
use go_fuzz.Hub.Scores.Sums.{Climbs, enter-Climbs}

pub record IsSound (hub : Hub) : Type 0 where
  pub climbs : Climbs 0 hub.corpus
  pub corpus_size : length hub.corpus_cover ≡ cover_size
  pub max_size : length hub.max_cover ≡ cover_size
  pub stored : hub.corpus_cover_size ≡ covered hub.corpus_cover
  pub verse : IsSoundVerse hub.verse

next_verse-IsSound :
    (r : Rand) (input : Input) (old : Option Verse)
    → IsSoundVerse old
    → Returns IsSoundVerse (next_verse r input old)
unfolding next_verse
next_verse-IsSound r input old h = either _
  where
    either :
        (b : Bool) → Returns IsSoundVerse (if b then build_verse r old input.content else done old)
    either true = build_verse-IsSound r old input.content h
    either false = h

pub update_max_cover_total :
    (counters : Bool) (table cover : Table)
    → length table ≡ cover_size
    → length cover ≡ cover_size
    → (t : Table) × (b : Bool) × (length t ≡ cover_size)
      × (update_max_cover counters table table cover ≡ done (t, b))
unfolding update_max_cover make_copy
update_max_cover_total counters table cover p q =
    let (b, e) = (compare_cover_lem table cover p q).0 in
    elim (Bool-cases b) [
      | inl t ↦ (
        join counters table cover,
        true,
        length-join counters table cover ∙ p,
        rw (e, t, update_max_cover_lem counters table cover p q) refl,
      )
      | inr t ↦ (table, false, p, rw (e, t) refl)
    ]

module _ (hash : Bytes → Bytes) (counters : Bool) where
  take_input-IsSound :
      (r : Rand) (input : Input) (hub : Hub)
      → length input.cover ≡ cover_size
      → IsSound hub
      → Returns (λ out. IsSound out.0) (take_input hash counters r input hub)
  unfolding take_input make_copy
  take_input-IsSound r input hub p h =
      let (t, b, size, e) =
        update_max_cover_total counters hub.max_cover input.cover h.max_size p in
      rw (e, update_max_cover_lem counters hub.corpus_cover input.cover h.corpus_size p)
        (Returns-bind IsSoundVerse _ (next_verse r input hub.verse) _
          (next_verse-IsSound r input hub.verse h.verse)
          λ v k. record {
            climbs = enter-Climbs input hub.corpus h.climbs;
            corpus_size = length-join counters hub.corpus_cover input.cover ∙ h.corpus_size;
            max_size = size;
            stored = refl;
            verse = k;
          })

  -- A new input whose table has the fixed size does not end the process, its verse included: the running
  -- sums still rise, the tables keep their size, the size that is sent to the coordinator is the number of
  -- covered blocks, and the verse is well-formed.
  pub new_input-IsSound :
      (r : Rand) (input : Input) (hub : Hub)
      → length input.cover ≡ cover_size
      → IsSound hub
      → Returns (λ out. IsSound out.0) (new_input hash counters r input hub)
  unfolding new_input
  new_input-IsSound r input hub p h =
      let (b, e) = (compare_cover_lem hub.corpus_cover input.cover h.corpus_size p).0 in
      elim (Bool-cases b) [
        | inr f ↦ rw (e, f) h
        | inl t ↦ elim (Option-cases (lookup (hash input.content) hub.corpus_sigs)) [
          | inl n ↦ rw (e, t, n) (take_input-IsSound r input hub p h)
          | inr s ↦ rw (e, t, s.1) h
        ]
      ]

  -- Once an input was handled the same input changes nothing and is not sent to the coordinator.
  pub new_input_twice :
      (r r' : Rand) (input : Input) (hub : Hub)
      → length input.cover ≡ cover_size
      → IsSound hub
      → All (λ c. c < 256) input.cover
      → (new_input hash counters r input hub >>= λ out. new_input hash counters r' input out.0)
        ≡ (new_input hash counters r input hub >>= λ out. done (out.0, none))
  unfolding new_input take_input make_copy
  new_input_twice r r' input hub p h bytes =
      let (b, e) = (compare_cover_lem hub.corpus_cover input.cover h.corpus_size p).0 in
      let (t, grew, size, e') =
        update_max_cover_total counters hub.max_cover input.cover h.max_size p in
      let taken = update_max_cover_lem counters hub.corpus_cover input.cover h.corpus_size p in
      let settled : compare_cover (join counters hub.corpus_cover input.cover) input.cover
          ≡ done false =
        rw taken at (
          compare_cover-update_max_cover counters hub.corpus_cover input.cover h.corpus_size p
            bytes) in
      let (v, ev, sound) =
        Returns-done IsSoundVerse (next_verse r input hub.verse)
          (next_verse-IsSound r input hub.verse h.verse) in
      elim (Bool-cases b) [
        | inr f ↦ rw (e, f) (rw (e, f) refl)
        | inl t ↦ elim (Option-cases (lookup (hash input.content) hub.corpus_sigs)) [
          | inl n ↦ rw (e, t, n, e', taken, ev, settled) refl
          | inr s ↦ rw (e, t, s.1) (rw (e, t, s.1) refl)
        ]
      ]
