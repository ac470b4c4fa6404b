-- ===== src/Cli/Calm.antt =====
-- Steps of the parser that end without a panic and leave no more arguments than they were given.
use caterm.Prelude.{
  ℕ, ◌≤◌, Bool, true, false, Option, none, some, length, arith, if◌then◌else◌, ◌≡◌, refl,
}
use caterm.Text.{Text}
use caterm.Outcome.{Outcome, ok, err, panic, Method, ok_or, guard, lift, modify, continue, ◌>>=◌}
use caterm.Cli.{Mode, Command}
use caterm.Cli.Parser.{Parser, Step, next, required, set_mode}
use caterm.Cli.Subcommand
use caterm.Cli.Parse

-- A step has ended without a panic, with at most `n` arguments left.
unfoldable pub Ends : {A : Type 0} → ℕ → Outcome A × Parser → Type 0
Ends n (ok a, p) = length p.iter ≤ n
Ends n (err message, p) = Unit
Ends n (panic, p) = ⊥

unfoldable pub Calm : {A : Type 0} → Method Parser A → Type 0
unfolding Ends
Calm m = (p : Parser) → Ends (length p.iter) (m p)

pub Ends-le : {A : Type 0} {m n : ℕ} (q : Outcome A × Parser) → m ≤ n → Ends m q → Ends n q
unfolding Ends
Ends-le (ok b, p) h e = omega arith
Ends-le (err message, p) h e = tt
Ends-le (panic, p) h e = e

module _ {A B : Type 0} where
  Ends-continue :
      (n : ℕ) (f : A → Method Parser B) (r : Outcome A × Parser)
      → Ends n r
      → ((a : A) → Calm (f a))
      → Ends n (continue r.0 f r.1)
  unfolding Calm Ends
  Ends-continue n f (ok a, p) h rest = Ends-le (f a p) h (rest a p)
  Ends-continue n f (err message, p) h rest = tt
  Ends-continue n f (panic, p) h rest = h

  Calm-bind :
      (m : Method Parser A) (f : A → Method Parser B)
      → Calm m
      → ((a : A) → Calm (f a))
      → Calm (m >>= f)
  unfolding ◌>>=◌
  Calm-bind m f calm rest = unfold Calm in λ p. Ends-continue (length p.iter) f (m p) (calm p) rest

Calm-next : Calm next
unfolding Calm next
Calm-next p = ground arith

Calm-modify : (f : Parser → Parser) → ((p : Parser) → (f p).iter ≡ p.iter) → Calm (modify f)
unfolding Calm modify
Calm-modify f same p = rw (same p) (omega arith)

Calm-set_mode : (mode : Mode) → Calm (set_mode mode)
unfolding set_mode
Calm-set_mode mode = Calm-modify _ (λ p. refl)

Calm-guard : (b : Bool) (message : Text) → Calm (lift (guard b message))
unfolding Calm lift
Calm-guard true message p = omega arith
Calm-guard false message p = tt

Calm-ok_or : {A : Type 0} (o : Option A) (message : Text) → Calm (lift (ok_or o message))
unfolding Calm lift
Calm-ok_or none message p = tt
Calm-ok_or (some a) message p = omega arith

Calm-required : (message : Text) → Calm (required message)
unfolding required
Calm-required message = Calm-bind next _ Calm-next (λ arg. Calm-ok_or arg message)

Calm-collect : Calm Subcommand.collect
unfolding Calm Subcommand.collect
Calm-collect p = omega arith

ruleset calm_rules =
    (Calm-bind, Calm-next, Calm-set_mode, Calm-guard, Calm-ok_or, Calm-required, Calm-collect)

-- The step of a subcommand is calm, where the argument is one.
CalmStep : Option Step → Type 0
CalmStep none = Unit
CalmStep (some step) = Calm step

Calm-attach : Calm Subcommand.parse_attach
unfolding Subcommand.parse_attach
Calm-attach = search calm_rules depth 9

Calm-new_session : Calm Subcommand.parse_new_session
unfolding Subcommand.parse_new_session
Calm-new_session = search calm_rules

Calm-new_window : Calm Subcommand.parse_new_window
unfolding Subcommand.parse_new_window
Calm-new_window = search calm_rules

Calm-new_pane : Calm Subcommand.parse_new_pane
unfolding Subcommand.parse_new_pane
Calm-new_pane = search calm_rules

Calm-split_horizontal : Calm Subcommand.parse_split_horizontal
unfolding Subcommand.parse_split_horizontal
Calm-split_horizontal = search calm_rules

Calm-split_vertical : Calm Subcommand.parse_split_vertical
unfolding Subcommand.parse_split_vertical
Calm-split_vertical = search calm_rules

Calm-select_window : Calm Subcommand.parse_select_window
unfolding Subcommand.parse_select_window
Calm-select_window = search calm_rules

Calm-select_pane : Calm Subcommand.parse_select_pane
unfolding Subcommand.parse_select_pane
Calm-select_pane = search calm_rules

Calm-rename_session : Calm Subcommand.parse_rename_session
unfolding Subcommand.parse_rename_session
Calm-rename_session = search calm_rules

Calm-rename_window : Calm Subcommand.parse_rename_window
unfolding Subcommand.parse_rename_window
Calm-rename_window = search calm_rules

Calm-rename_pane : Calm Subcommand.parse_rename_pane
unfolding Subcommand.parse_rename_pane
Calm-rename_pane = search calm_rules

Calm-resize_pane : Calm Subcommand.parse_resize_pane
unfolding Subcommand.parse_resize_pane
Calm-resize_pane = search calm_rules depth 9

Calm-kill_session : Calm Subcommand.parse_kill_session
unfolding Subcommand.parse_kill_session
Calm-kill_session = search calm_rules

Calm-kill_window : Calm Subcommand.parse_kill_window
unfolding Subcommand.parse_kill_window
Calm-kill_window = search calm_rules

Calm-kill_pane : Calm Subcommand.parse_kill_pane
unfolding Subcommand.parse_kill_pane
Calm-kill_pane = search calm_rules

Calm-send_input : Calm Subcommand.parse_send_input
unfolding Subcommand.parse_send_input
Calm-send_input = search calm_rules depth 9

CalmStep-if :
    (b : Bool) (step : Step) (o : Option Step)
    → Calm step
    → CalmStep o
    → CalmStep (if b then some step else o)
unfolding CalmStep
CalmStep-if true step o calm other = calm
CalmStep-if false step o calm other = other

CalmStep-none : CalmStep none
unfolding CalmStep
CalmStep-none = tt

CalmStep-subcommand : (arg : Text) → CalmStep (Parse.subcommand arg)
unfolding Parse.subcommand
CalmStep-subcommand arg =
    search
      (
        CalmStep-if, CalmStep-none, Calm-set_mode, Calm-attach, Calm-new_session, Calm-new_window,
        Calm-new_pane, Calm-split_horizontal, Calm-split_vertical, Calm-select_window,
        Calm-select_pane, Calm-rename_session, Calm-rename_window, Calm-rename_pane,
        Calm-resize_pane, Calm-kill_session, Calm-kill_window, Calm-kill_pane, Calm-send_input,
      )
      depth 30

Calm-set_command : (f : Command → Command) → Calm (Parse.set_command f)
Calm-set_command f = Calm-modify _ (λ p. refl)

Calm-socket : Calm Parse.parse_socket
unfolding Parse.parse_socket
Calm-socket = Calm-bind _ _ (Calm-required _) (λ value. Calm-set_command _)

Calm-run_subcommand :
    (o : Option Step) (arg : Text) → CalmStep o → Calm (Parse.run_subcommand o arg)
unfolding Calm CalmStep
Calm-run_subcommand none arg calm p = tt
Calm-run_subcommand (some step) arg calm p = refused p.mode_set
  where
    refused :
        (b : Bool)
        → Ends {A = Unit {0}}
            (length p.iter)
            (elim b [ true ↦ (err (Parse.unknown_argument arg), p) | false ↦ step p ])
    refused true = tt
    refused false = calm p

Calm-if : (b : Bool) (m n : Step) → Calm m → Calm n → Calm (if b then m else n)
Calm-if true m n calm other = calm
Calm-if false m n calm other = other

pub Calm-parse_arg : (arg : Text) → Calm (Parse.parse_arg arg)
unfolding Parse.parse_arg
Calm-parse_arg arg =
    search (Calm-if, Calm-set_command, Calm-socket, Calm-run_subcommand, CalmStep-subcommand) depth
      9
