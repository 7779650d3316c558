-- ===== src/Sonar/Region/Append.antt =====
-- `Sonar` of go-fuzz-dep/sonar.go on the shared region.
use mathlib.Core.List.{append_assoc}
use go_fuzz.Base.{
  ℕ, ◌+◌, ◌≤◌, ◌<◌, ◌≡◌, refl, sym, ap, ◌∙◌, true, false, some, ◌++◌, length, length-append,
  length-take, length-drop, take, drop, take-length_append, done, ltb, arith,
}
use go_fuzz.Bytes.{Bytes}
use go_fuzz.Defs.{sonar_hdr_len}
use go_fuzz.Sonar.Region.{Operand, Region, store_record, sonar}
use go_fuzz.Sonar.Region.Layout.{payload, record_id, encode, length-encode, zeros, build_record_lem}

-- What the fuzzer is given of a region.
abbrev pub recorded : Region → Bytes
recorded region = take region.pos region.bytes

module _ (region : Region) (entry tail : Bytes)
    (room : region.pos + length entry ≤ length region.bytes) where
  abbrev stored : Region
  stored = record {
    bytes = recorded region ++ (entry ++ drop (region.pos + length entry) region.bytes);
    pos = region.pos + length entry;
  }

  store_record_lem : store_record region (entry ++ tail) (length entry) ≡ stored
  unfolding store_record
  store_record_lem =
      let fits : ltb (length region.bytes) (region.pos + length entry) ≡ false = ground arith in
      rw (fits, take-length_append entry tail) refl

  length-front : length (recorded region ++ entry) ≡ region.pos + length entry
  length-front =
      omega (arith, length-append (recorded region) entry, length-take region.pos region.bytes)

  recorded-stored : recorded stored ≡ recorded region ++ entry
  recorded-stored =
      ap (λ bs. take (region.pos + length entry) bs) (sym (append_assoc (recorded region) entry _))
      ∙ ap
          (λ n.
            take n ((recorded region ++ entry) ++ drop (region.pos + length entry) region.bytes))
          (sym length-front)
      ∙ take-length_append (recorded region ++ entry) _

  length-stored : length stored.bytes ≡ length region.bytes
  length-stored = omega (
    arith,
    length-append (recorded region) (entry ++ drop (region.pos + length entry) region.bytes),
    length-append entry (drop (region.pos + length entry) region.bytes),
    length-drop (region.pos + length entry) region.bytes,
    length-take region.pos region.bytes,
  )

module _ (v1 v2 : Operand) (id : ℕ) (p1 p2 : Bytes) (f1 f2 : ℕ)
    (first : payload v1 v2 ≡ some (p1, f1)) (second : payload v2 v1 ≡ some (p2, f2)) where
  -- Two operands that are recorded, and a region with room behind its last record: `Sonar` appends the
  -- record to what the region holds, and leaves the region's length as it was.
  pub sonar_appends :
      (region : Region)
      → region.pos + length (encode (record_id id f1 f2) p1 p2) ≤ length region.bytes
      → (r : Region) × (sonar v1 v2 id region ≡ done r)
        × (recorded r ≡ recorded region ++ encode (record_id id f1 f2) p1 p2)
        × (r.pos ≡ region.pos + length (encode (record_id id f1 f2) p1 p2))
        × (length r.bytes ≡ length region.bytes)
  unfolding sonar
  sonar_appends region room =
      let entry : Bytes = encode (record_id id f1 f2) p1 p2 in
      let tail : Bytes =
        drop (length p2) (drop (length p1) (zeros v1 v2 id p1 p2 f1 f2 first second)) in
      (
        stored region entry tail room,
        rw
            (
              build_record_lem v1 v2 id p1 p2 f1 f2 first second,
              ← length-encode (record_id id f1 f2) p1 p2,
              store_record_lem region entry tail room,
            )
            refl,
        recorded-stored region entry tail room,
        refl,
        length-stored region entry tail room,
      )

  -- Where the region has no room left the comparison is not recorded, and nothing changes.
  pub sonar_full :
      (region : Region)
      → length region.bytes < region.pos + length (encode (record_id id f1 f2) p1 p2)
      → sonar v1 v2 id region ≡ done region
  unfolding sonar
  sonar_full region full =
      let over : ltb (length region.bytes) (region.pos + (sonar_hdr_len + length p1 + length p2))
          ≡ true =
        ground (arith, length-encode (record_id id f1 f2) p1 p2) in
      rw (build_record_lem v1 v2 id p1 p2 f1 f2 first second, over) refl
