-- ===== src/Coordinator/Crashers.antt =====
-- `NewCrasher` of go-fuzz/coordinator.go: crashers and suppressions.
use go_fuzz.Base.{
  ◌+◌, ◌≡◌, refl, Bool, true, false, not, ◌&&◌, ◌||◌, none, some, lookup, lookup-cons, bytes_eq,
  bytes_eq→≡, if◌then◌else◌, length, arith,
}
use go_fuzz.Bytes.{Bytes}
use go_fuzz.Persistent.{Artifact, PersistentSet, add, add_description}
use go_fuzz.Persistent.Laws.{add_refused}
use go_fuzz.Types.{NewCrasherArgs}
use go_fuzz.Coordinator.{Coordinator, new_crasher}

module _ (hash : Bytes → Bytes) where
  -- The set grows by one exactly when `add` accepts.
  length-add :
      (ps : PersistentSet) (a : Artifact)
      → length (add hash ps a).0.m ≡ length ps.m + (if (add hash ps a).1 then 1 else 0)
  unfolding add
  length-add ps a = ground arith

  -- Whether a set has an artifact of the content.
  unfoldable pub has : PersistentSet → Bytes → Bool
  has ps content = elim (lookup (hash content) ps.m) [ none ↦ false | some a ↦ true ]

  has-add :
      (ps : PersistentSet) (a : Artifact) (s : Bytes)
      → has (add hash ps a).0 s ≡ has ps s || bytes_eq (hash a.content) (hash s)
  unfolding has add
  has-add ps a s =
      ground
        (arith, lookup-cons (hash s) (hash a.content) a ps.m, bytes_eq→≡ (hash a.content) (hash s))

  add_accepts : (ps : PersistentSet) (a : Artifact) → (add hash ps a).1 ≡ not (has ps a.content)
  unfolding add has
  add_accepts ps a = ground arith

  has_described :
      (ps : PersistentSet) (content desc typ s : Bytes)
      → has (add_description hash ps content desc typ) s ≡ has ps s
  unfolding has add_description
  has_described ps content desc typ s = refl

  -- The sets after a report of the suppression and the input of `a`, from the sets before it.
  pub record Recorded (a : NewCrasherArgs) (c c' : Coordinator) : Type 0 where
    pub supps :
        (s : Bytes)
        → has c'.suppressions s ≡ has c.suppressions s || bytes_eq (hash a.suppression) (hash s)
    pub crashes :
        (s : Bytes)
        → has c'.crashers s
          ≡ has c.crashers s
            || (not (has c.suppressions a.suppression) && bytes_eq (hash a.content) (hash s))
    pub supps_count :
        length c'.suppressions.m
        ≡ length c.suppressions.m + (if has c.suppressions a.suppression then 0 else 1)
    pub crashes_count :
        length c'.crashers.m
        ≡ length c.crashers.m
          + (if has c.suppressions a.suppression || has c.crashers a.content then 0 else 1)

  m-add_description :
      (ps : PersistentSet) (content desc typ : Bytes)
      → (add_description hash ps content desc typ).m ≡ ps.m
  unfolding add_description
  m-add_description ps content desc typ = refl

  module _ (quote : Bytes → Bytes) (quoted output : Bytes) where
    -- Without -dup the set of suppressions has, after a report, what it had before and the suppression
    -- of the report, and no more. The set of crashers has what it had before and, exactly where the
    -- suppression was not known before, the reported input. A set grows by one where what is added was
    -- not in it, and otherwise keeps its size. Contents are told apart by their hashes.
    pub new_crasher-Recorded :
        (a : NewCrasherArgs) (c : Coordinator)
        → Recorded a c (new_crasher hash quote quoted output false a c).0
    unfolding new_crasher
    new_crasher-Recorded a c =
        let supp : Artifact = record { content = a.suppression; meta = 0; user = false } in
        let crash : Artifact = record { content = a.content; meta = 0; user = false } in
        let added = (add hash c.crashers crash).0 in
        let described = add_description hash added a.content (quote a.content) quoted in
        let new_supp = add_accepts c.suppressions supp in
        let new_crash = add_accepts c.crashers crash in
        record {
          supps = λ s. ground (
            arith,
            has-add c.suppressions supp s,
            new_supp,
            add_refused hash c.suppressions supp,
          );
          crashes = λ s. ground (
            arith,
            has-add c.crashers crash s,
            new_supp,
            new_crash,
            add_refused hash c.crashers crash,
            has_described added a.content (quote a.content) quoted s,
            has_described described a.content a.error output s,
          );
          supps_count = ground (arith, length-add c.suppressions supp, new_supp);
          crashes_count = ground (
            arith,
            length-add c.crashers crash,
            new_supp,
            new_crash,
            m-add_description added a.content (quote a.content) quoted,
            m-add_description described a.content a.error output,
          );
        }

    -- A report whose suppression is known changes nothing, unless -dup is set.
    pub new_crasher_known :
        (a : NewCrasherArgs) (c : Coordinator)
        → (add hash c.suppressions (record { content = a.suppression; meta = 0; user = false })).1
          ≡ false
        → (new_crasher hash quote quoted output false a c).0 ≡ c
    unfolding new_crasher
    new_crasher_known a c known = rw known refl
