-- ===== src/Persistent/Restart.antt =====
-- `readInDir` of go-fuzz/persistent.go on the files that the set has written.
use mathlib.Core.List.{append-nil}
use go_fuzz.Base.{
  ℕ, suc, ◌+◌, ◌^◌, ◌<◌, ◌≡◌, refl, sym, ap, ◌∙◌, true, false, none, some, Bool-cases, inl, inr,
  List, [], ◌∷◌, ◌++◌, length, length-append, take, drop, get_or, take-length_append, ltb, ◌==◌,
  not, ◌||◌, arith,
}
use go_fuzz.Bytes.{Bytes, IsBytes}
use go_fuzz.Decimal.{
  hex_encode, length-hex_encode, is_hex_string, is_hex_string-hex_encode, parse_uint-format_uint,
  parse_uint, format_uint_cons,
}
use go_fuzz.Persistent.{
  Artifact, PersistentSet, Visit, file, hex_len, persistent_filename, is_long_hex, read_artifact,
  read_in_dir, add, add_description, empty_set,
}

get_or_head : (h : Bytes) (c : ℕ) (rest : Bytes) → get_or (h ++ c ∷ rest) (length h) 0 ≡ c
get_or_head [] c rest = refl
get_or_head (x ∷ h) c rest = get_or_head h c rest

get_or_end : (h : Bytes) → get_or h (length h) 0 ≡ 0
get_or_end [] = refl
get_or_end (x ∷ h) = get_or_end h

drop_past : (h : Bytes) (c : ℕ) (rest : Bytes) → drop (suc (length h)) (h ++ c ∷ rest) ≡ rest
drop_past [] c rest = refl
drop_past (x ∷ h) c rest = drop_past h c rest

-- Facts about a hash in hexadecimal, which are all that the names need.
module _ (h : Bytes) (sized : length h ≡ hex_len) (hex : is_hex_string h ≡ true) where
  is_long_hex-sep : (sep c d : ℕ) (rest : Bytes) → is_long_hex (h ++ c ∷ d ∷ rest) sep ≡ (c == sep)
  unfolding is_long_hex
  is_long_hex-sep sep c d rest =
      let head : get_or (h ++ c ∷ d ∷ rest) hex_len 0 ≡ c =
        ap (λ n. get_or (h ++ c ∷ d ∷ rest) n 0) (sym sized) ∙ get_or_head h c (d ∷ rest) in
      let front : take hex_len (h ++ c ∷ d ∷ rest) ≡ h =
        ap (λ n. take n (h ++ c ∷ d ∷ rest)) (sym sized) ∙ take-length_append h (c ∷ d ∷ rest) in
      ground (arith, head, ap is_hex_string front, hex, length-append h (c ∷ d ∷ rest), sized)

  is_long_hex-bare : (sep : ℕ) → is_long_hex h sep ≡ false
  unfolding is_long_hex
  is_long_hex-bare sep = ground (arith, sized)

  read_artifact-described :
      (d : ℕ) (typ content : Bytes) → read_artifact (h ++ b'.' ∷ d ∷ typ) content ≡ none
  unfolding read_artifact
  read_artifact-described d typ content = ground (arith, is_long_hex-sep b'.' b'.' d typ)

  read_artifact-bare :
      (content : Bytes)
      → read_artifact h content ≡ some (record { content = content; meta = 0; user = false })
  unfolding read_artifact
  read_artifact-bare content =
      let whole : take hex_len h ≡ h =
        ap (λ n. take n h) (sym sized)
        ∙ ap (λ t. take (length h) t) (sym (append-nil h))
        ∙ take-length_append h [] in
      ground
        (arith, is_long_hex-bare b'.', is_long_hex-bare b'-', sized, ap is_hex_string whole, hex)

  read_artifact-meta :
      (d : ℕ) (text content : Bytes)
      → read_artifact (h ++ b'-' ∷ d ∷ text) content
        ≡ some (record { content = content; meta = parse_uint (d ∷ text); user = false })
  unfolding read_artifact
  read_artifact-meta d text content =
      let front : take hex_len (h ++ b'-' ∷ d ∷ text) ≡ h =
        ap (λ n. take n (h ++ b'-' ∷ d ∷ text)) (sym sized) ∙ take-length_append h _ in
      let back : drop (hex_len + 1) (h ++ b'-' ∷ d ∷ text) ≡ d ∷ text =
        ap (λ n. drop (suc n) (h ++ b'-' ∷ d ∷ text)) (sym sized) ∙ drop_past h _ _ in
      let not_user : (ltb (length (h ++ b'-' ∷ d ∷ text)) hex_len
            || not (is_hex_string (take hex_len (h ++ b'-' ∷ d ∷ text))))
          ≡ false =
        ground (arith, length-append h (b'-' ∷ d ∷ text), sized, ap is_hex_string front, hex) in
      rw (is_long_hex-sep b'.' b'-' d text, is_long_hex-sep b'-' b'-' d text, back, not_user) refl

  read_artifact-persistent_filename :
      (a : Artifact) (sig : Bytes)
      → h ≡ hex_encode sig
      → a.user ≡ false
      → a.meta < 2 ^ 64
      → read_artifact (persistent_filename a sig) a.content ≡ some a
  unfolding persistent_filename
  read_artifact-persistent_filename a sig e u fits =
      let (d, text, shown) = format_uint_cons a.meta in
      let value : parse_uint (d ∷ text) ≡ a.meta =
        ap parse_uint (sym shown) ∙ parse_uint-format_uint a.meta fits in
      elim (Bool-cases (a.meta == 0)) [
        | inl z ↦ rw (z, ← e, append-nil) (read_artifact-bare a.content ∙ ground (arith, z, u))
        | inr p ↦
            rw (p, ← e, shown) (read_artifact-meta d text a.content ∙ ground (arith, value, u))
      ]

-- The sets that a run makes from an empty directory: the artifacts are the program's own, and a
-- description's type is not empty.
pub data Saved (hash : Bytes → Bytes) : PersistentSet → Type 0 where
  start : Saved hash empty_set
  added :
      {ps : PersistentSet} (a : Artifact)
      → a.user ≡ false
      → a.meta < 2 ^ 64
      → Saved hash ps
      → Saved hash (add hash ps a).0
  described :
      {ps : PersistentSet} (content desc : Bytes) (d : ℕ) (typ : Bytes)
      → Saved hash ps
      → Saved hash (add_description hash ps content desc (d ∷ typ))

-- What the walk sees of the files that were written.
abbrev pub visits : List (Bytes × Bytes) → List Visit
visits [] = []
visits ((name, content) ∷ files) = file name content ∷ visits files

-- A hash has the twenty bytes of SHA-1.
pub record IsHash (hash : Bytes → Bytes) : Type 0 where
  pub size : (content : Bytes) → length (hash content) ≡ 20
  pub bytes : (content : Bytes) → IsBytes (hash content)

module _ (hash : Bytes → Bytes) (sha : IsHash hash) where
  hash_name_sized : (content : Bytes) → length (hex_encode (hash content)) ≡ hex_len
  hash_name_sized content = omega (arith, length-hex_encode (hash content), sha.size content)

  hash_name_hex : (content : Bytes) → is_hex_string (hex_encode (hash content)) ≡ true
  hash_name_hex content = is_hex_string-hex_encode _ (sha.bytes content)

  -- Reading the directory of a set that a run has written, in the order of the writes, gives the
  -- set's map: every artifact with its content and its number, none from a description file.
  pub read_in_dir-Saved :
      {ps : PersistentSet} → Saved hash ps → read_in_dir hash (visits ps.files) ≡ ps.m
  unfolding read_in_dir add add_description
  read_in_dir-Saved start = refl
  read_in_dir-Saved (described {ps} content desc d typ s) = ground (
    arith,
    read_in_dir-Saved s,
    read_artifact-described (hex_encode (hash content)) (hash_name_sized content)
        (hash_name_hex content) d typ desc,
  )
  read_in_dir-Saved (added {ps} a u fits s) = ground (
    arith,
    read_in_dir-Saved s,
    read_artifact-persistent_filename (hex_encode (hash a.content)) (hash_name_sized a.content)
        (hash_name_hex a.content) a (hash a.content) refl u fits,
  )
