-- ===== src/Pane/Emit.antt =====
-- `take_output_chunk` hands out the pending output in order and in bounded pieces.
use caterm.Prelude.{
  ℕ, ◌+◌, ◌≤◌, ◌<◌, ◌≡◌, refl, ◌≢◌, [], ◌∷◌, ◌++◌, append-nil, arith, ltb, ap, ◌∙◌, Bool-cases, inl,
  inr, ◌==◌, ◌⊎◌,
}
use caterm.Text.{Text, len_utf8, len}
use caterm.Text.Laws.{len_utf8_bounds, drain-append, slice_to-append}
use caterm.Outcome.{ok}
use caterm.Pane.{Pane, emit_len, take_len, dropped_notice, take_output_chunk, non_empty}

-- `emit_len` stops at the end of the last character that begins below the limit.
emit_len-split :
    (at : ℕ) (s : Text)
    → at < 4100
    → (taken rest : Text) × (s ≡ taken ++ rest)
      × (emit_len at at s ≡ at + len taken)
      × (at + len taken < 4100)
      × (rest ≢ [] → 4096 ≤ at + len taken)
unfolding emit_len len
emit_len-split at [] h = ([], [], refl, omega arith, omega arith, λ n. absurd (n refl))
emit_len-split at (c ∷ s) h = elim (Bool-cases (ltb at 4096)) [
  | inl below ↦
      let (taken, rest, e, l, b, m) =
        emit_len-split (at + len_utf8 c) s (ground (arith, len_utf8_bounds c)) in
      (
        c ∷ taken,
        rest,
        ap (λ t. c ∷ t) e,
        ground (arith, l),
        omega (arith, b),
        λ n. omega (arith, m n),
      )
  | inr above ↦ ([], c ∷ s, refl, ground arith, omega arith, λ n. ground arith)
]

take_len-eq : (s : Text) → take_len s ≡ emit_len 0 0 s
unfolding take_len emit_len len
take_len-eq [] = refl
take_len-eq (c ∷ s) = refl

abbrev pub emptied : Pane → Text → Pane
emptied pane rest = record pane { pending_output = rest; dropped_output_bytes = 0 }

-- With something to report, the call takes what `take_len` says.
take_from :
    (pane : Pane) (taken rest : Text)
    → pane.pending_output ≡ taken ++ rest
    → take_len pane.pending_output ≡ len taken
    → (rest ≢ [] → 4096 ≤ len taken)
    → take_output_chunk pane
      ≡ ok (non_empty (dropped_notice pane.dropped_output_bytes ++ taken), emptied pane rest)
unfolding take_output_chunk
take_from pane [] [] e l m = elim (Bool-cases (pane.dropped_output_bytes == 0)) [
  | inl none_dropped ↦ unfold dropped_notice len in ground (arith, e, l)
  | inr some_dropped ↦
      unfold len in ground (arith, e, l, append-nil (dropped_notice pane.dropped_output_bytes))
]
take_from pane [] (d ∷ r) e l m = absurd (unfold len in omega (arith, m (λ n. cc n)))
take_from pane (c ∷ t) rest e l m =
    let positive : 0 < len (c ∷ t) = unfold len in omega (arith, len_utf8_bounds c) in
    ground (arith, e, l, positive, slice_to-append (c ∷ t) rest, drain-append (c ∷ t) rest)

empty_or : (rest taken : Text) → (rest ≢ [] → 4096 ≤ len taken) → (rest ≡ []) ⊎ (4096 ≤ len taken)
empty_or [] taken h = inl refl
empty_or (c ∷ rest) taken h = inr (h (λ e. cc))

-- A call never fails. It emits a notice of the bytes that were dropped, if any were, and then the
-- longest prefix of the pending output whose last character begins within the first 4096 bytes;
-- the rest stays pending, the count of dropped bytes is 0, and nothing is emitted when there is
-- neither.
pub take_output_chunk_lem :
    (pane : Pane)
    → (taken rest : Text) × (pane.pending_output ≡ taken ++ rest)
      × (len taken < 4100)
      × ((rest ≡ []) ⊎ (4096 ≤ len taken))
      × (take_output_chunk pane
          ≡ ok (non_empty (dropped_notice pane.dropped_output_bytes ++ taken), emptied pane rest))
take_output_chunk_lem pane =
    let (taken, rest, e, l, b, m) = emit_len-split 0 pane.pending_output (omega arith) in
    let size : take_len pane.pending_output ≡ len taken =
      take_len-eq pane.pending_output ∙ l ∙ omega arith in
    (
      taken,
      rest,
      e,
      omega (arith, b),
      empty_or rest taken (λ n. omega (arith, m n)),
      take_from pane taken rest e size (λ n. omega (arith, m n)),
    )
