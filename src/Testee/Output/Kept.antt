-- ===== src/Testee/Output/Kept.antt =====
-- What is kept of the output of a process by go-fuzz/testee.go.
use mathlib.Core.List.{append_assoc}
use go_fuzz.Base.{
  ℕ, ◌-◌, ◌≤◌, ◌<◌, ◌≡◌, refl, sym, ap, ◌∙◌, ◌⊎◌, inl, inr, List, [], ◌∷◌, ◌++◌, length,
  length-append, length-take, length-drop, take, drop, take-append-drop, min, ltb, ltb→lt,
  ltb_false→le, Bool-cases, arith,
}
use go_fuzz.Bytes.{Bytes}
use go_fuzz.Testee.Output.{testee_buffer_size, three_quarters, half, drop_half, collect}

-- What was dropped so far: nothing, or a quarter of the buffer and more is kept.
abbrev pub KeepsEnough : Bytes → Bytes → Type 0
KeepsEnough lost kept = (lost ≡ []) ⊎ (262144 ≤ length kept)

abbrev pub Keeps : Bytes → Bytes → Bytes → Type 0
Keeps lost kept whole =
    (lost ++ kept ≡ whole) × (length kept ≤ three_quarters) × KeepsEnough lost kept

drop_half-Keeps :
    (lost kept : Bytes)
    → length kept ≤ testee_buffer_size
    → KeepsEnough lost kept
    → (lost' : Bytes) × Keeps lost' (drop_half kept) (lost ++ kept)
unfolding drop_half
drop_half-Keeps lost kept h k = elim (Bool-cases (ltb three_quarters (length kept))) [
  | inr e ↦ rw e (lost, (refl, ltb_false→le three_quarters (length kept) e, k))
  | inl e ↦
      let over : three_quarters < length kept = ltb→lt three_quarters (length kept) e in
      rw e (halved over)
]
  where
    halved :
        three_quarters < length kept → (lost' : Bytes) × Keeps lost' (drop half kept) (lost ++ kept)
    halved over = (
      lost ++ take half kept,
      (
        append_assoc lost (take half kept) (drop half kept)
            ∙ ap (λ (t : Bytes). lost ++ t) (take-append-drop half kept),
        omega (arith, length-drop half kept),
        inr (omega (arith, length-drop half kept)),
      ),
    )

more-KeepsEnough :
    (lost kept more : Bytes) → KeepsEnough lost kept → KeepsEnough lost (kept ++ more)
more-KeepsEnough lost kept more (inl e) = inl e
more-KeepsEnough lost kept more (inr e) = inr (omega (arith, length-append kept more))

rejoined :
    (lost kept stream : Bytes) (n : ℕ) (lost' kept' : Bytes)
    → lost' ++ kept' ≡ lost ++ (kept ++ take n stream)
    → lost' ++ kept' ++ drop n stream ≡ lost ++ kept ++ stream
rejoined lost kept stream n lost' kept' e =
    ap (λ (t : Bytes). t ++ drop n stream) e
    ∙ append_assoc lost (kept ++ take n stream) (drop n stream)
    ∙ ap (λ (t : Bytes). lost ++ t)
        (append_assoc kept (take n stream) (drop n stream)
          ∙ ap (λ (t : Bytes). kept ++ t) (take-append-drop n stream))
    ∙ sym (append_assoc lost kept stream)

-- Whatever the sizes of the reads, what is kept and what is not read yet are the end of the output; at
-- most three quarters of the buffer are filled, so that each read has room; and nothing was lost, or a
-- quarter of the buffer or more is kept.
pub collect-Keeps :
    (turns : List ℕ) (lost kept stream : Bytes)
    → length kept ≤ three_quarters
    → KeepsEnough lost kept
    → (lost' : Bytes) × (lost' ++ (collect turns kept stream).0 ++ (collect turns kept stream).1
        ≡ lost ++ kept ++ stream)
      × (length (collect turns kept stream).0 ≤ three_quarters)
      × KeepsEnough lost' (collect turns kept stream).0
unfolding collect
collect-Keeps [] lost kept stream h k = (lost, refl, h, k)
collect-Keeps (size ∷ turns) lost kept stream h k =
    let n = min size (testee_buffer_size - length kept) in
    let (lost', (e, l, k')) =
      drop_half-Keeps lost (kept ++ take n stream)
        (omega (arith, length-append kept (take n stream), length-take n stream))
        (more-KeepsEnough lost kept (take n stream) k) in
    let (lost'', e', l', k'') =
      collect-Keeps turns lost' (drop_half (kept ++ take n stream)) (drop n stream) l k' in
    (lost'', e' ∙ rejoined lost kept stream n lost' _ e, l', k'')
