-- ===== src/Examples/Parts.antt =====
-- Windows, panes and numbers on concrete inputs.
use caterm.Prelude.{
  ℕ, ◌+◌, ◌≡◌, ◌≤◌, ◌<◌, ◌^◌, refl, ◌⊎◌, zero, suc, true, some, [], ◌∷◌, ◌++◌, arith,
}
use caterm.Prelude.Int.{pos}
use caterm.Text.{Text, codes, len, len_utf8}
use caterm.Outcome.{ok, panic}
use caterm.BTree.{get, insert, values, Ascends}
use caterm.Pane.{Pane, enqueue_output, trim, take_output_chunk, non_empty, dropped_notice}
use caterm.Pane.Buffer.{Accounts, enqueue_output_lem, enqueue_output_ascii, enqueue_output_panics}
use caterm.Pane.Emit.{take_output_chunk_lem, emptied}
use caterm.Window.{
  Window, rebalance_pane_sizes, resize_pane, is_zero, position, pane_ids_in_index_order, ids_of,
  sort_by_index, index_and_id, insert_by_index, partner_index, clamp_delta, move_border, set_size,
}
use caterm.Window.Sizes.{total_size}
use caterm.Window.Rebalance.{rebalance_lem}
use caterm.Window.Resize.{Shifted, resize_pane_lem}
use caterm.Examples.Samples.{main_window, two_panes, left_pane, right_pane}

sorted : Ascends 0 two_panes
sorted = (omega arith, (omega arith, tt))

room : left_pane.dropped_output_bytes + len left_pane.pending_output + len (codes "ls") < 2 ^ 64
unfolding len len_utf8
room = omega arith

rebalance_lem_example :
    (window' : Window) × (rebalance_pane_sizes main_window ≡ ok window')
    × (total_size window'.panes ≡ 100)
    × ((i j : ℕ) (a b : Pane)
        → get i window'.panes ≡ some a
        → get j window'.panes ≡ some b
        → a.size ≤ b.size + 1)
rebalance_lem_example =
    rebalance_lem main_window (refl, (refl, tt)) sorted (omega arith) (omega arith)

abbrev resized : Window
resized = record main_window {
  panes = (1, record left_pane { size = 57 }) ∷ (2, record right_pane { size = 43 }) ∷ [];
}

resized-eq : resize_pane main_window 1 (pos 7) ≡ ok resized
unfolding resize_pane position pane_ids_in_index_order ids_of sort_by_index index_and_id values
    insert_by_index partner_index get clamp_delta move_border set_size insert
resized-eq = refl

resize_pane_lem_example :
    ((is_zero (pos 7) ≡ true) × (resized ≡ main_window)) ⊎ Shifted main_window.panes 1 resized.panes
resize_pane_lem_example =
    resize_pane_lem main_window 1 (pos 7) resized (refl, (refl, tt)) sorted (omega arith) resized-eq

abbrev told : Pane
told = record left_pane { output_history = codes "$ ls"; pending_output = codes "ls" }

told-eq : enqueue_output left_pane (codes "ls") ≡ ok told
unfolding enqueue_output trim len len_utf8
told-eq = refl

enqueue_output_lem_example : Accounts left_pane (codes "ls") told
enqueue_output_lem_example = enqueue_output_lem left_pane told (codes "ls") told-eq room

enqueue_output_ascii_example : (pane' : Pane) × (enqueue_output left_pane (codes "ls") ≡ ok pane')
enqueue_output_ascii_example =
    enqueue_output_ascii left_pane (codes "ls") (omega arith, (omega arith, tt)) tt
      (omega arith, (omega arith, tt))

take_output_chunk_lem_example :
    (taken rest : Text) × (told.pending_output ≡ taken ++ rest)
    × (len taken < 4100)
    × ((rest ≡ []) ⊎ (4096 ≤ len taken))
    × (take_output_chunk told
        ≡ ok (non_empty (dropped_notice told.dropped_output_bytes ++ taken), emptied told rest))
take_output_chunk_lem_example = take_output_chunk_lem told

-- A history of 8192 bytes that begins with a character of two bytes.
abbrev filler : ℕ → Text
filler zero = []
filler (suc n) = 120 ∷ filler n

len-filler : (n : ℕ) → len (filler n) ≡ n
unfolding len len_utf8
len-filler zero = refl
len-filler (suc n) = omega (arith, len-filler n)

abbrev full : Pane
full = record left_pane { output_history = 233 ∷ filler 8190 }

full-len : len (233 ∷ filler 8190) ≡ 8192
unfolding len len_utf8
full-len = omega (arith, len-filler 8190)

enqueue_output_panics_example : enqueue_output full (120 ∷ []) ≡ panic
enqueue_output_panics_example =
    enqueue_output_panics full 233 120 (filler 8190) refl full-len (omega arith) (omega arith)
