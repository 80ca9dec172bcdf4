-- ===== src/Format/Print/Fits/Run.antt =====
-- `vprintfmt` on a format that fits its arguments.
use fos_v.Base.{ℕ, zero, suc, ◌≤◌, ◌≡◌, ◌≢◌, refl, true, List}
use fos_v.Format.Print.{
  Arg, Mode, plain, Round, finished, goes_on, calls, more_fuel, Printed, printed, no_fuel, round,
  print_loop, vprintfmt, behind, behind_call,
}
use fos_v.Format.Print.Ends.{enough}
use fos_v.Format.Print.Ends.Cases.{vprintfmt-ends}
use fos_v.Format.Print.Fits.{text, fits, position}
use fos_v.Format.Print.Fits.Cases.{Safe, round-Safe}

-- The loop is defined.
abbrev Defined : ℕ → Type 0
Defined fuel =
    (mode : Mode) (fmt : List ℕ) (args : List Arg)
    → fits (position mode) fmt args ≡ true
    → print_loop fuel mode fmt args ≢ Printed.undefined

behind-defined :
    (cs : List ℕ) (r : Printed) → r ≢ Printed.undefined → behind cs r ≢ Printed.undefined
behind-defined cs (printed ds args) h e = cc
behind-defined cs Printed.undefined h e = h refl
behind-defined cs no_fuel h e = cc

behind_call-defined :
    (q r : Printed)
    → q ≢ Printed.undefined
    → r ≢ Printed.undefined
    → behind_call q r ≢ Printed.undefined
behind_call-defined (printed cs args) r h k e = behind-defined cs r k e
behind_call-defined Printed.undefined r h k e = h refl
behind_call-defined no_fuel r h k e = cc

round-Defined :
    (n : ℕ) (mode : Mode) (fmt : List ℕ) (args : List Arg) (r : Round)
    → Defined n
    → round mode fmt args ≡ r
    → Safe r
    → print_loop (suc n) mode fmt args ≢ Printed.undefined
unfolding print_loop
round-Defined n mode fmt args finished rest e g = rw (print_loop, e) (λ same. cc)
round-Defined n mode fmt args (goes_on cs mode' fmt' args') rest e g =
    rw (print_loop, e) (behind-defined cs _ (rest mode' fmt' args' g))
round-Defined n mode fmt args (calls fmt' args' left args'') rest e g =
    rw (print_loop, e)
      (behind_call-defined _ _ (rest plain fmt' args' g.0) (rest plain left args'' g.1))
round-Defined n mode fmt args Round.undefined rest e g = absurd g
round-Defined n mode fmt args more_fuel rest e g = rw (print_loop, e) (λ same. cc)

loop-Defined : (fuel : ℕ) → Defined fuel
unfolding print_loop
loop-Defined zero mode fmt args h = λ same. cc
loop-Defined (suc n) mode fmt args h =
    round-Defined n mode fmt args (round mode fmt args) (loop-Defined n) refl
      (round-Safe mode fmt args h)

is_printed :
    (r : Printed)
    → r ≢ no_fuel
    → r ≢ Printed.undefined
    → (cs : List ℕ) × (rest : List Arg) × (r ≡ printed cs rest)
is_printed (printed cs rest) h k = (cs, rest, refl)
is_printed Printed.undefined h k = absurd (k refl)
is_printed no_fuel h k = absurd (h refl)

-- On a format that `fits` its arguments, so that it is complete, its widths are in range, and each of
-- its conversions has an argument of its type, `vprintfmt` returns, with the characters that it
-- printed and the arguments that are left, after at most as many rounds as `enough` computes from
-- the format.
pub vprintfmt-prints :
    (fuel : ℕ) (fmt : List ℕ) (args : List Arg)
    → enough fmt ≤ fuel
    → fits text fmt args ≡ true
    → (cs : List ℕ) × (rest : List Arg) × (vprintfmt fuel fmt args ≡ printed cs rest)
unfolding vprintfmt
vprintfmt-prints fuel fmt args more h =
    is_printed (vprintfmt fuel fmt args) (vprintfmt-ends fuel fmt args more)
      (loop-Defined fuel plain fmt args h)
