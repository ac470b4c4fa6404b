-- ===== src/Cli/Parser.antt =====
-- What `Command::parse` (caterm/src/main.rs) works on: the iterator of the arguments, from which the
-- loop and the subcommands both take, and the numbers and joined texts in them.
use caterm.Prelude.{
  ℕ, zero, suc, Bool, true, false, ◌&&◌, ◌||◌, Option, none, some, List, [], ◌∷◌, ◌++◌, leb, length,
  is_empty, if◌then◌else◌, ◌==◌,
}
use caterm.Prelude
use caterm.Prelude.Int.{ℤ, pos, negsuc}
use caterm.Text.{Text, codes}
use caterm.Text.Decimal.{parse_digits}
use caterm.Outcome.{ok, Method, ok_or, lift, modify, ◌>>=◌}
use caterm.Cli.{Mode, Command}

-- What the loop works on: the arguments that the iterator still holds, and the two variables.
pub record Parser : Type 0 where
  pub iter : List Text
  pub mode_set : Bool
  pub command : Command

abbrev pub Step : Type 0
Step = Method Parser (Unit {0})

-- `iter.next()`
unfoldable pub next : Method Parser (Option Text)
next p = elim p.iter [ [] ↦ (ok none, p) | arg ∷ rest ↦ (ok (some arg), record p { iter = rest }) ]

-- `iter.next().context(message)?`
unfoldable pub required : Text → Method Parser Text
unfolding next
required message = do arg ← next; lift (ok_or arg message)

-- `command.mode = mode; mode_set = true`
unfoldable pub set_mode : Mode → Step
set_mode mode = modify λ p. record p { mode_set = true; command = record p.command { mode = mode } }

-- `str::parse::<i16>().ok()`, with the sign taken off first.
abbrev pub fit_i16 : Bool → ℕ → Option ℤ
fit_i16 false n = if leb n 32767 then some (pos n) else none
fit_i16 true zero = some (pos 0)
fit_i16 true (suc n) = if leb n 32767 then some (negsuc n) else none

abbrev pub parse_magnitude : Bool → Text → Option ℤ
parse_magnitude negative [] = none
parse_magnitude negative (c ∷ s) = Prelude.and_then (parse_digits 0 (c ∷ s)) (fit_i16 negative)

unfoldable pub parse_i16 : Text → Option ℤ
parse_i16 [] = none
parse_i16 (c ∷ s) =
    if c == b'-'
    then parse_magnitude true s
    else if c == b'+'
    then parse_magnitude false s
    else parse_magnitude false (c ∷ s)

-- `rest.join(" ")`
unfoldable pub join : List Text → Text
join [] = []
join (s ∷ []) = s
join (s ∷ t ∷ rest) = s ++ (codes " " ++ join (t ∷ rest))
