-- ===== src/Cli/Total.antt =====
-- The parser of the command line always comes to an end, by a command or a message.
use caterm.Prelude.{
  ℕ, zero, suc, ◌≤◌, ◌<◌, false, ◌&&◌, List, [], ◌∷◌, length, arith, ◌≡◌, refl, ◌⊎◌, inl, inr,
  Bool-cases,
}
use caterm.Text.{Text, codes}
use caterm.Outcome.{Outcome, ok, err, panic, continue, and_then, ◌>>=◌}
use caterm.Cli.{Command}
use caterm.Cli.Parser.{Parser, Step}
use caterm.Cli.Parse
use caterm.Cli.Calm.{Ends, Ends-le, Calm, Calm-parse_arg}

Ends-again :
    (n : ℕ) (again : Step) (r : Outcome (Unit {0}) × Parser)
    → Ends n r
    → ((p : Parser) → length p.iter ≤ n → Ends (length p.iter) (again p))
    → Ends n (continue r.0 (λ _. again) r.1)
unfolding Ends
Ends-again n again (ok u, p) e rest = Ends-le (again p) e (rest p e)
Ends-again n again (err message, p) e rest = tt
Ends-again n again (panic, p) e rest = e

Ends-turn :
    (again : Step) (args : List Text) (p : Parser)
    → ((q : Parser) → length q.iter < length args → Ends (length q.iter) (again q))
    → length args ≡ length p.iter
    → Ends (length args) (Parse.turn again args p)
unfolding ◌>>=◌
Ends-turn again [] p rest same = unfold Ends in omega arith
Ends-turn again (arg ∷ args) p rest same =
    let q : Parser = record p { iter = args } in
    Ends-le (Parse.turn again (arg ∷ args) p) (omega arith) (
      Ends-again (length args) again (Parse.parse_arg arg q) (unfold Calm in Calm-parse_arg arg q)
        (λ r fewer. rest r (omega arith)))

-- With more fuel than arguments the loop ends.
Ends-parse_loop :
    (fuel : ℕ) (p : Parser) → length p.iter < fuel → Ends (length p.iter) (Parse.parse_loop fuel p)
unfolding Parse.parse_loop
Ends-parse_loop zero p h = absurd (omega arith)
Ends-parse_loop (suc fuel) p h =
    Ends-turn (Parse.parse_loop fuel) p.iter p (λ q fewer. Ends-parse_loop fuel q (omega arith))
      refl

abbrev pub Accepted : Outcome Command → Type 0
Accepted r =
    (command : Command) × (r ≡ ok command) × ((command.foreground && command.daemonize) ≡ false)

abbrev pub Refused : Outcome Command → Type 0
Refused r = (message : Text) × (r ≡ err message)

check_flags_lem : (c : Command) → Accepted (Parse.check_flags c) ⊎ Refused (Parse.check_flags c)
check_flags_lem c = elim (Bool-cases (c.foreground && c.daemonize)) [
  | inl both ↦ inr (codes "--foreground and --daemonize cannot be used together", rw both refl)
  | inr fine ↦ inl (c, rw fine refl, fine)
]

ended :
    (n : ℕ) (r : Outcome (Unit {0}) × Parser)
    → Ends n r
    → let q = and_then r.0 (λ _. Parse.check_flags r.1.command) in Accepted q ⊎ Refused q
unfolding Ends
ended n (ok u, p) e = check_flags_lem p.command
ended n (err message, p) e = inr (message, refl)
ended n (panic, p) e = absurd e

-- The parser ends on every command line, by a command or a message and without a panic, and no
-- command asks for the foreground and for a daemon at once.
pub parse-Accepted : (args : List Text) → Accepted (Parse.parse args) ⊎ Refused (Parse.parse args)
unfolding Parse.parse
parse-Accepted args =
    let given = Parse.skip_one args in
    let p : Parser = record { iter = given; mode_set = false; command = Parse.defaults } in
    ended (length given) (Parse.parse_loop (suc (length given)) p)
      (Ends-parse_loop (suc (length given)) p (omega arith))
