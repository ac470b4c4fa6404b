-- ===== src/ErrorCode/Messages.antt =====
-- The codes of the errors that the server's methods report.
use caterm.Prelude.{ap, ◌∙◌, All, [], ◌∷◌, arith, ◌||◌, Bool, ℕ, ◌++◌, ◌≡◌, refl, if◌then◌else◌}
use caterm.Text.{Text, codes, text_eq, starts_with, ends_with}
use caterm.Text.Decimal.RoundTrip.{IsDigit, digits-All}
use caterm.Text.Decimal.{digits, to_string}
use caterm.ErrorCode.{classify_error}
use caterm.Server.Create.{session_taken, window_taken, pane_taken}

-- Each failed lookup, each refusal to delete the last entry and each refusal to resize has its own
-- code, whatever the target and the ids are.
classify_error_lem :
    (id : ℕ) (target : Text)
    → (classify_error (codes "session not found: " ++ target) ≡ codes "session_not_found")
      × (classify_error
            (codes "window not found in session " ++ (to_string id ++ (codes ": " ++ target)))
          ≡ codes "window_not_found")
      × (classify_error
            (codes "pane not found in window " ++ (to_string id ++ (codes ": " ++ target)))
          ≡ codes "pane_not_found")
      × (classify_error (codes "cannot delete the last window in session " ++ to_string id)
          ≡ codes "last_window")
      × (classify_error (codes "cannot delete the last pane in window " ++ to_string id)
          ≡ codes "last_pane")
      × (classify_error (codes "cannot resize a window with fewer than 2 panes")
          ≡ codes "resize_single_pane")
      × (classify_error (codes "resize would exceed the minimum pane size of 10")
          ≡ codes "resize_limit")
unfolding classify_error starts_with
classify_error_lem id target = (refl, refl, refl, refl, refl, refl, refl)

-- The name is "not found", or ends in " not found".
abbrev pub reads_as_missing : Text → Bool
reads_as_missing name = text_eq (codes "not found") name || ends_with (codes " not found") name

-- What a client is told of a name that is taken: the first code for such names, the second for others.
abbrev pub code_of_taken : Text → Text → Text → Text
code_of_taken not_found duplicate name = if reads_as_missing name then not_found else duplicate

-- Digits are no part of the end that is looked for.
ends_with-digits :
    (s t : Text)
    → All IsDigit s
    → ends_with (codes " not found") (s ++ t) ≡ ends_with (codes " not found") t
unfolding ends_with text_eq
ends_with-digits [] t h = refl
ends_with-digits (c ∷ s) t h = ground (arith, ends_with-digits s t h.1)

-- Nor is the space before them.
ends_with-space :
    (s t : Text)
    → All IsDigit s
    → ends_with (codes " not found") (32 ∷ (s ++ 58 ∷ t))
      ≡ ends_with (codes " not found") (s ++ 58 ∷ t)
unfolding ends_with text_eq
ends_with-space [] t h = refl
ends_with-space (c ∷ s) t h = ground arith

ends_with-name :
    (name : Text) → ends_with (codes " not found") (codes ": " ++ name) ≡ reads_as_missing name
unfolding ends_with text_eq
ends_with-name name = ground arith

ends_with-number :
    (id : ℕ) (name : Text)
    → ends_with (codes " not found") (32 ∷ (to_string id ++ (codes ": " ++ name)))
      ≡ reads_as_missing name
unfolding to_string
ends_with-number id name =
    ends_with-space (digits 20 id) (32 ∷ name) (digits-All 20 id)
    ∙ ends_with-digits (digits 20 id) (codes ": " ++ name) (digits-All 20 id)
    ∙ ends_with-name name

ends_with-session_taken :
    (name : Text) → ends_with (codes " not found") (session_taken name) ≡ reads_as_missing name
unfolding ends_with text_eq
ends_with-session_taken name = ground arith

ends_with-window_taken :
    (id : ℕ) (name : Text)
    → ends_with (codes " not found") (window_taken id name) ≡ reads_as_missing name
unfolding ends_with text_eq
ends_with-window_taken id name = ends_with-number id name

ends_with-pane_taken :
    (id : ℕ) (name : Text)
    → ends_with (codes " not found") (pane_taken id name) ≡ reads_as_missing name
unfolding ends_with text_eq
ends_with-pane_taken id name = ends_with-number id name

-- The code depends on the end of the message.
classify_error-ends :
    (id : ℕ) (name : Text)
    → (classify_error (session_taken name) ≡ (
        if ends_with (codes " not found") (session_taken name)
        then codes "session_not_found"
        else codes "duplicate_session_name"))
      × (classify_error (window_taken id name) ≡ (
          if ends_with (codes " not found") (window_taken id name)
          then codes "window_not_found"
          else codes "duplicate_window_name"))
      × (classify_error (pane_taken id name) ≡ (
          if ends_with (codes " not found") (pane_taken id name)
          then codes "pane_not_found"
          else codes "duplicate_pane_name"))
unfolding classify_error starts_with
classify_error-ends id name = (refl, refl, refl)

-- The name of a session, a window or a pane that is refused because another one has it is reported as
-- a duplicate, except that the client is told that the session, the window or the pane was not found
-- when the name is "not found" or ends in " not found".
pub classify_error-taken :
    (id : ℕ) (name : Text)
    → (classify_error (session_taken name)
        ≡ code_of_taken (codes "session_not_found") (codes "duplicate_session_name") name)
      × (classify_error (window_taken id name)
          ≡ code_of_taken (codes "window_not_found") (codes "duplicate_window_name") name)
      × (classify_error (pane_taken id name)
          ≡ code_of_taken (codes "pane_not_found") (codes "duplicate_pane_name") name)
classify_error-taken id name =
    let (session, window, pane) = classify_error-ends id name in
    (
      session
          ∙ ap (λ b. if b then codes "session_not_found" else codes "duplicate_session_name")
              (ends_with-session_taken name),
      window
          ∙ ap (λ b. if b then codes "window_not_found" else codes "duplicate_window_name")
              (ends_with-window_taken id name),
      pane
          ∙ ap (λ b. if b then codes "pane_not_found" else codes "duplicate_pane_name")
              (ends_with-pane_taken id name),
    )
