-- ===== src/Persistent/Laws.antt =====
-- How `add` changes the set.
use go_fuzz.Base.{
  ◌≡◌, ◌↔◌, ◌&&◌, true, false, none, some, ◌∷◌, lookup, lookup-cons, bytes_eq, bytes_eq_refl,
  if◌then◌else◌, arith,
}
use go_fuzz.Bytes.{Bytes}
use go_fuzz.Persistent.{Artifact, PersistentSet, add}

-- The artifact is in the set afterwards, and nothing else is lost or replaced.
module _ (hash : Bytes → Bytes) where
  -- After an addition that is accepted the hash of the content leads to the artifact; every other key leads
  -- where it led before, as does every key where the addition is refused.
  pub lookup-add :
      (ps : PersistentSet) (a : Artifact) (k : Bytes)
      → lookup k (add hash ps a).0.m
        ≡ (if (add hash ps a).1 && bytes_eq (hash a.content) k then some a else lookup k ps.m)
  unfolding add
  lookup-add ps a k = ground (arith, lookup-cons k (hash a.content) a ps.m)

  pub add_accepts_iff :
      (ps : PersistentSet) (a : Artifact)
      → ((add hash ps a).1 ≡ true) ↔ (lookup (hash a.content) ps.m ≡ none)
  unfolding add
  add_accepts_iff ps a = ground arith

  -- Adding a second time changes nothing and answers false.
  pub add_twice :
      (ps : PersistentSet) (a b : Artifact)
      → hash b.content ≡ hash a.content
      → add hash (add hash ps a).0 b ≡ ((add hash ps a).0, false)
  unfolding add
  add_twice ps a b same =
      ground (
        arith,
        lookup-cons (hash a.content) (hash a.content) a ps.m,
        bytes_eq_refl (hash a.content),
      )

  pub m-add :
      (ps : PersistentSet) (a : Artifact)
      → (add hash ps a).1 ≡ true
      → (add hash ps a).0.m ≡ (hash a.content, a) ∷ ps.m
  unfolding add
  m-add ps a h = ground arith

  pub add_refused :
      (ps : PersistentSet) (a : Artifact) → (add hash ps a).1 ≡ false → (add hash ps a).0 ≡ ps
  unfolding add
  add_refused ps a h = ground arith
