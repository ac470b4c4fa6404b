-- ===== src/Pane/Buffer.antt =====
-- The output buffers stay within their limits, and no byte is lost without being counted.
use caterm.Prelude.{
  All-append, ℕ, suc, ◌+◌, ◌-◌, ◌%◌, ◌^◌, ◌≤◌, ◌<◌, ◌≡◌, [], ◌∷◌, ◌++◌, arith, ltb, All, sym,
  Bool-cases, Option-cases, inl, inr,
}
use caterm.Text.{Text, len_utf8, len, drain}
use caterm.Text.Laws.{len-append, len-drain, drain_ascii, drain-split}
use caterm.Outcome.{ok, panic}
use caterm.Outcome.Laws.{Outcome-cases}
use mathlib.Core.Path.{subst}
use caterm.Pane.{
  Pane, trim, enqueue_output, max_output_history_bytes, max_pending_output_bytes, excess,
}

-- A trimmed buffer is the end of the old one, within the limit, and whole if it was within.
trim_lem :
    (limit : ℕ) (buffer kept : Text)
    → trim limit buffer ≡ ok kept
    → (cut : Text) × (buffer ≡ cut ++ kept) × (len cut ≡ len buffer - limit) × (len kept ≤ limit)
unfolding trim
trim_lem limit buffer kept h = elim (Option-cases (drain (len buffer - limit) buffer)) [
  | inl gone ↦ elim (Bool-cases (ltb limit (len buffer))) [
    | inl long ↦ absurd (ground arith)
    | inr short ↦ ([], ground arith, unfold len in ground arith, ground arith)
  ]
  | inr (rest, e) ↦ elim (Bool-cases (ltb limit (len buffer))) [
    | inl long ↦
        let (cut, whole, size) = drain-split (len buffer - limit) buffer rest e in
        (cut, ground arith, size, ground (arith, len-drain (len buffer - limit) buffer rest e))
    | inr short ↦ ([], ground arith, unfold len in ground arith, ground arith)
  ]
]

-- An ASCII buffer can be trimmed.
trim_ascii :
    (limit : ℕ) (buffer : Text)
    → All (λ c. c < 0x80) buffer
    → (kept : Text) × (trim limit buffer ≡ ok kept)
unfolding trim
trim_ascii limit buffer h = elim (Bool-cases (ltb limit (len buffer))) [
  | inl long ↦
      let (kept, e) = drain_ascii (len buffer - limit) buffer h (omega arith) in
      (kept, ground (arith, e))
  | inr short ↦ (buffer, rw short)
]

abbrev stored : Pane → Text → Text → Text → Pane
stored pane chunk history pending = record pane {
  output_history = history;
  pending_output = pending;
  dropped_output_bytes =
      (pane.dropped_output_bytes + excess max_pending_output_bytes (pane.pending_output ++ chunk))
      % 2 ^ 64;
}

-- What a successful call has done, in terms of the two trims.
enqueue_output-inv :
    (pane pane' : Pane) (chunk : Text)
    → enqueue_output pane chunk ≡ ok pane'
    → (history pending : Text) × (trim max_output_history_bytes (pane.output_history ++ chunk)
        ≡ ok history)
      × (trim max_pending_output_bytes (pane.pending_output ++ chunk) ≡ ok pending)
      × (pane' ≡ stored pane chunk history pending)
unfolding enqueue_output
enqueue_output-inv pane pane' chunk h =
    elim (Outcome-cases (trim max_output_history_bytes (pane.output_history ++ chunk))) [
      | inl (history, e) ↦
          elim (Outcome-cases (trim max_pending_output_bytes (pane.pending_output ++ chunk))) [
            | inl (pending, e') ↦ (history, pending, e, e', ground arith)
            | inr (inl (m, e')) ↦ absurd (ground arith)
            | inr (inr e') ↦ absurd (ground arith)
          ]
      | inr (inl (m, e)) ↦ absurd (ground arith)
      | inr (inr e) ↦ absurd (ground arith)
    ]

-- Where the bytes of the two buffers and of a chunk are after the call.
abbrev pub Accounts : Pane → Text → Pane → Type 0
Accounts pane chunk pane' =
    (forgotten : Text) × (lost : Text) × (pane.output_history ++ chunk
      ≡ forgotten ++ pane'.output_history)
    × (len forgotten ≡ len (pane.output_history ++ chunk) - 8192)
    × (len pane'.output_history ≤ 8192)
    × (pane.pending_output ++ chunk ≡ lost ++ pane'.pending_output)
    × (len lost ≡ len (pane.pending_output ++ chunk) - 32768)
    × (len pane'.pending_output ≤ 32768)
    × (pane'.dropped_output_bytes ≡ pane.dropped_output_bytes + len lost)

stored-Accounts :
    (pane : Pane) (chunk history pending : Text)
    → trim max_output_history_bytes (pane.output_history ++ chunk) ≡ ok history
    → trim max_pending_output_bytes (pane.pending_output ++ chunk) ≡ ok pending
    → pane.dropped_output_bytes + len pane.pending_output + len chunk < 2 ^ 64
    → Accounts pane chunk (stored pane chunk history pending)
stored-Accounts pane chunk history pending h p room =
    let (forgotten, f1, f2, f3) = trim_lem _ _ history h in
    let (lost, l1, l2, l3) = trim_lem _ _ pending p in
    (
      forgotten,
      lost,
      f1,
      f2,
      f3,
      l1,
      l2,
      l3,
      omega (arith, l2, len-append pane.pending_output chunk),
    )

-- After an `enqueue_output` that returns, with the dropped count, the pending bytes and those of the
-- chunk below 2^64 together, each buffer is the old one with the chunk behind it, less exactly the
-- bytes at its front by which it goes past its limit, 8192 for the history and 32768 for the pending
-- output, and those that fell out of the pending output have been added to the dropped count.
pub enqueue_output_lem :
    (pane pane' : Pane) (chunk : Text)
    → enqueue_output pane chunk ≡ ok pane'
    → pane.dropped_output_bytes + len pane.pending_output + len chunk < 2 ^ 64
    → Accounts pane chunk pane'
enqueue_output_lem pane pane' chunk h room =
    let (history, pending, eh, ep, e) = enqueue_output-inv pane pane' chunk h in
    subst (Accounts pane chunk) (sym e) (stored-Accounts pane chunk history pending eh ep room)

-- With ASCII in both buffers and in the chunk `enqueue_output` returns.
pub enqueue_output_ascii :
    (pane : Pane) (chunk : Text)
    → All (λ c. c < 0x80) pane.output_history
    → All (λ c. c < 0x80) pane.pending_output
    → All (λ c. c < 0x80) chunk
    → (pane' : Pane) × (enqueue_output pane chunk ≡ ok pane')
unfolding enqueue_output
enqueue_output_ascii pane chunk hh hp hc =
    let (history, eh) = trim_ascii max_output_history_bytes _ (All-append _ _ _ hh hc) in
    let (pending, ep) = trim_ascii max_pending_output_bytes _ (All-append _ _ _ hp hc) in
    (stored pane chunk history pending, rw eh (rw ep))

-- A cut inside the first character panics.
trim_splits :
    (limit c : ℕ) (s : Text) → 1 < len_utf8 c → len (c ∷ s) ≡ suc limit → trim limit (c ∷ s) ≡ panic
unfolding trim
trim_splits limit c s wide full =
    let one : len (c ∷ s) - limit ≡ 1 = omega arith in rw one (unfold drain in ground arith)

-- A full history whose oldest character is not ASCII makes the next ASCII character panic.
pub enqueue_output_panics :
    (pane : Pane) (c d : ℕ) (s : Text)
    → pane.output_history ≡ c ∷ s
    → len (c ∷ s) ≡ 8192
    → 0x80 ≤ c
    → d < 0x80
    → enqueue_output pane (d ∷ []) ≡ panic
unfolding enqueue_output len_utf8
enqueue_output_panics pane c d s e full wide narrow =
    let total : len (c ∷ (s ++ d ∷ [])) ≡ suc 8192 =
      unfold len in ground (arith, len-append (c ∷ s) (d ∷ []), full) in
    rw (e, trim_splits 8192 c (s ++ d ∷ []) (ground arith) total)
