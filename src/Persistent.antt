-- ===== src/Persistent.antt =====
-- go-fuzz/persistent.go: a set of blobs keyed by their hash, with a mirror in a directory. SHA-1 is
-- outside the repository: `hash` is a parameter. The directory is the list of the files that were
-- written, the newest first, each a name (without the directory's path) and its content; a write
-- that fails is only logged by the source, and is not modelled.
pub mod Laws
pub mod Restart
use go_fuzz.Base.{
  ℕ, ◌+◌, ◌*◌, Bool, true, false, not, ◌&&◌, ◌||◌, Option, none, some, List, [], ◌∷◌, ◌++◌, length,
  take, drop, get_or, ltb, ◌==◌, if◌then◌else◌, lookup,
}
use go_fuzz.Bytes.{Bytes}
use go_fuzz.Decimal.{format_uint, parse_uint, hex_encode, is_hex_string}

pub record Artifact : Type 0 where
  pub content : Bytes
  pub meta : ℕ
  pub user : Bool

pub record PersistentSet : Type 0 where
  pub m : List (Bytes × Artifact)
  pub files : List (Bytes × Bytes)

-- What `filepath.Walk` hands to its callback: an error, a directory, a file that cannot be read, or
-- a file with its name and content.
pub data Visit : Type 0 where
  failed folder unreadable : Visit
  file : Bytes → Bytes → Visit

-- `2 * sha1.Size`
abbrev pub hex_len : ℕ
hex_len = 40

-- The name of an artifact's file in the directory.
unfoldable pub persistent_filename : Artifact → Bytes → Bytes
persistent_filename a sig =
    hex_encode sig ++ (if a.meta == 0 then [] else b'-' ∷ format_uint a.meta)

is_long_hex : Bytes → ℕ → Bool
is_long_hex name sep =
    ltb (hex_len + 1) (length name)
    && is_hex_string (take hex_len name)
    && get_or name hex_len 0 == sep

-- The artifact of a file, unless its name is that of a description.
unfoldable pub read_artifact : Bytes → Bytes → Option Artifact
unfolding is_long_hex
read_artifact name content =
    if is_long_hex name b'.'
    then none
    else some (record {
      content = content;
      meta = if is_long_hex name b'-' then parse_uint (drop (hex_len + 1) name) else 0;
      user = ltb (length name) hex_len || not (is_hex_string (take hex_len name));
    })

module _ (hash : Bytes → Bytes) where
  -- The callback of `readInDir`.
  unfoldable pub visit : Visit → List (Bytes × Artifact) → List (Bytes × Artifact)
  visit failed m = m
  visit folder m = m
  visit unreadable m = m
  visit (file name content) m = elim (lookup (hash content) m) [
    | some _ ↦ m
    | none ↦ elim (read_artifact name content) [ none ↦ m | some a ↦ (hash content, a) ∷ m ]
  ]

  -- The walk over a directory, which visits the end of the list first.
  unfoldable pub read_in_dir : List Visit → List (Bytes × Artifact)
  unfolding visit
  read_in_dir [] = []
  read_in_dir (v ∷ vs) = visit v (read_in_dir vs)

  unfoldable pub add : PersistentSet → Artifact → PersistentSet × Bool
  add ps a =
      let sig = hash a.content in
      elim (lookup sig ps.m) [
        | some _ ↦ (ps, false)
        | none ↦ (
          record ps {
            m = (sig, a) ∷ ps.m;
            files = (persistent_filename a sig, a.content) ∷ ps.files;
          },
          true,
        )
      ]

  -- A file with a dot and the type behind the hash of the data.
  unfoldable pub add_description : PersistentSet → Bytes → Bytes → Bytes → PersistentSet
  add_description ps content desc typ = record ps {
    files = (hex_encode (hash content) ++ (b'.' ∷ typ), desc) ∷ ps.files;
  }

abbrev pub empty_set : PersistentSet
empty_set = record { m = []; files = [] }
