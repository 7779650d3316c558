-- ===== src/Tests/Sets.antt =====
-- The theorems on persistent sets and on the coordinator, with a hash that counts bytes.
use mathlib.Core.Option.{none-ne-some}
use go_fuzz.Base.{ℕ, zero, suc, ◌%◌, ◌≡◌, refl, false, List, [], ◌∷◌, length, replicate, arith}
use go_fuzz.Bytes.{Bytes, IsBytes}
use go_fuzz.Types.{NewCrasherArgs}
use go_fuzz.Persistent.{Artifact, PersistentSet, add, add_description, read_in_dir, empty_set}
use go_fuzz.Persistent.Restart.{start, added, described, visits, IsHash, read_in_dir-Saved}
use go_fuzz.Coordinator.{Coordinator, new_crasher}
use go_fuzz.Coordinator.Workers.{get}
use go_fuzz.Coordinator.Trace.{
  Traced, Event, connecting, inputs, crashes, syncing, ticking, run, Delivers,
}
use go_fuzz.Coordinator.Delivery.{run-Delivers}
use go_fuzz.Coordinator.Crashers.{Recorded, new_crasher-Recorded}

-- Twenty bytes, of which the first tells the length of the content modulo 256.
abbrev size_hash : Bytes → Bytes
size_hash content = length content % 256 ∷ replicate 19 0

size_hash-IsHash : IsHash size_hash
size_hash-IsHash = record { size = λ content. refl; bytes = λ content. (omega arith, zeros 19) }
  where
    zeros : (n : ℕ) → IsBytes (replicate n 0)
    zeros zero = tt
    zeros (suc n) = (omega arith, zeros n)

abbrev artifact : Artifact
artifact = record { content = 1 ∷ 2 ∷ []; meta = 7; user = false }

abbrev other : Artifact
other = record { content = 3 ∷ 4 ∷ []; meta = 0; user = false }

abbrev saved : PersistentSet
saved =
    add_description size_hash (add size_hash empty_set artifact).0 (1 ∷ 2 ∷ []) (b'x' ∷ [])
      (b'o' ∷ b'u' ∷ b't' ∷ [])

read_in_dir-Saved_example : read_in_dir size_hash (visits saved.files) ≡ saved.m
read_in_dir-Saved_example = read_in_dir-Saved size_hash size_hash-IsHash (
    described (1 ∷ 2 ∷ []) (b'x' ∷ []) b'o' (b'u' ∷ b't' ∷ [])
      (added artifact refl (omega arith) start))

abbrev started : Coordinator
started = record {
  id_seq = 0;
  workers = [];
  corpus = empty_set;
  suppressions = empty_set;
  crashers = empty_set;
  last_input = 0;
  stat_execs = 0;
  stat_restarts = 0;
  cover_fullness = 0;
}

abbrev crash : NewCrasherArgs
crash = record { content = 1 ∷ []; error = b'e' ∷ []; suppression = b's' ∷ []; hanging = false }

abbrev as_is : Bytes → Bytes
as_is content = content

new_crasher-Recorded_example :
    Recorded size_hash crash started
      (new_crasher size_hash as_is (b'q' ∷ []) (b'o' ∷ []) false crash started).0
new_crasher-Recorded_example =
    new_crasher-Recorded size_hash as_is (b'q' ∷ []) (b'o' ∷ []) crash started

abbrev traced : Traced
traced = record { c = started; given = λ i. [] }

traced-Delivers : Delivers traced
unfolding get
traced-Delivers = record { distinct = tt; complete = λ i w h. absurd (none-ne-some w h) }

-- Two workers connect, one of them finds an input, and the other syncs.
abbrev session : List Event
session =
    connecting 0 4
    ∷ connecting 1 4
    ∷ inputs 2 (record { id = 1; content = 9 ∷ 9 ∷ []; prio = 1 })
    ∷ crashes crash
    ∷ syncing 3 (record { id = 2; execs = 10; restarts = 0; cover_fullness = 5 })
    ∷ ticking 4
    ∷ []

run-Delivers_example : Delivers (run size_hash as_is (b'q' ∷ []) (b'o' ∷ []) false traced session)
run-Delivers_example =
    run-Delivers size_hash as_is (b'q' ∷ []) (b'o' ∷ []) false traced session traced-Delivers
