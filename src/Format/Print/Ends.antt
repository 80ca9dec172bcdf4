-- ===== src/Format/Print/Ends.antt =====
-- `vprintfmt` ends: the fuel that is enough for a format.
pub mod Cases
use mathlib.Core.Path.{subst}
use fos_v.Base.{
  ℕ, zero, suc, ◌+◌, ◌-◌, ◌*◌, ◌^◌, ◌≤◌, ◌<◌, ◌≡◌, ◌≢◌, refl, Bool, Bool-cases, true, false, inl,
  inr, Option, none, some, Option-cases, ◌-◌, ◌&&◌, ◌||◌, List, [], ◌∷◌, ◌++◌, arith, length,
  if◌then◌else◌, ◌==◌, leb, ltb,
}
use fos_v.Format.Number.{Prints, printnum-Prints}
use fos_v.Format.Errors.{error_string}
use fos_v.Format.Print.{
  Arg, Spec, Mode, plain, escape, digits, Round, finished, goes_on, calls, more_fuel, Printed,
  printed, no_fuel, error_format, string_format, put_error, case_c, case_e, case_s, case_p,
  case_star, number, put_signed, put_unsigned, conversion, switch, round, behind, behind_call,
  print_loop, vprintfmt, word, long_word, string, getint, getuint, plain_spec, or_zero,
}

-- For every byte of the format: an escape sequence may read all that is behind it twice, and an
-- unknown one goes on as text directly behind its `%`.
unfoldable pub enough : List ℕ → ℕ
enough [] = 20
enough (c ∷ cs) = enough cs + 2 * length cs + 4

abbrev pub ended : Printed → Bool
ended (printed cs args) = true
ended Printed.undefined = true
ended no_fuel = false

pub behind-ended : (cs : List ℕ) (r : Printed) → ended r ≡ true → ended (behind cs r) ≡ true
behind-ended cs (printed ds args) h = refl
behind-ended cs Printed.undefined h = refl
behind-ended cs no_fuel h = h

pub behind_call-ended :
    (q r : Printed) → ended q ≡ true → ended r ≡ true → ended (behind_call q r) ≡ true
behind_call-ended (printed cs args) r h k = behind-ended cs r k
behind_call-ended Printed.undefined r h k = refl
behind_call-ended no_fuel r h k = h

-- The fuel for the rest from a place in the code.
abbrev pub need : Mode → List ℕ → ℕ
need plain fmt = enough fmt
need (escape v start) fmt = enough start + 2 * length fmt + 2
need (digits v p start) fmt = enough start + 2 * length fmt + 3

-- An escape sequence has read a part of what stood behind its `%`.
abbrev pub Placed : Mode → List ℕ → Type 0
Placed plain fmt = Unit
Placed (escape v start) fmt = enough fmt ≤ enough start
Placed (digits v p start) fmt = enough fmt ≤ enough start

-- What a round leads to needs no more fuel than `n`.
abbrev pub Good : ℕ → Round → Type 0
Good n finished = Unit
Good n (goes_on cs mode fmt args) = (need mode fmt ≤ n) × Placed mode fmt
Good n (calls fmt args rest args') =
    ((fuel : ℕ) → 16 ≤ fuel → ended (print_loop fuel plain fmt args) ≡ true)
    × (enough rest ≤ n)
    × (20 ≤ n)
Good n Round.undefined = Unit
Good n more_fuel = ⊥

pub if-Good : (n : ℕ) (b : Bool) (x y : Round) → Good n x → Good n y → Good n (if b then x else y)
if-Good n true x y h k = h
if-Good n false x y h k = k

pub enough-low : (fmt : List ℕ) → 20 ≤ enough fmt
unfolding enough
enough-low [] = omega arith
enough-low (c ∷ fmt) = omega (arith, enough-low fmt)

-- With the fuel that it is given `printnum` ends.
pub number-goes_on :
    (cs : List ℕ) (num base : ℕ) (v : Spec) (fmt : List ℕ) (args : List Arg)
    → 2 ≤ base
    → base ≤ 16
    → (ds : List ℕ) × (number cs num base v fmt args ≡ goes_on (cs ++ ds) plain fmt args)
      × Prints num base (or_zero v.width) v.padc ds
unfolding number
number-goes_on cs num base v fmt args low high =
    let (ds, run, s) =
      printnum-Prints (num + 1) num base (or_zero v.width) v.padc low high (omega arith) in
    (ds, rw (number, run) refl, s)

pub number-Good :
    (n : ℕ) (cs : List ℕ) (num base : ℕ) (v : Spec) (fmt : List ℕ) (args : List Arg)
    → 2 ≤ base
    → base ≤ 16
    → enough fmt ≤ n
    → Good n (number cs num base v fmt args)
number-Good n cs num base v fmt args low high h =
    let (ds, run, s) = number-goes_on cs num base v fmt args low high in rw run (h, tt)

-- The nested call for an error without a text.
decimal :
    (e : ℕ) (start : List ℕ)
    → (cs : List ℕ) × (round (escape plain_spec start) (100 ∷ []) (word e ∷ [])
        ≡ goes_on cs plain [] [])
unfolding round switch conversion put_signed getint
decimal e start = elim (Bool-cases (ltb e (2 ^ 31))) [
  | inl small ↦
      let (ds, run, s) = number-goes_on [] e 10 plain_spec [] [] (omega arith) (omega arith) in
      (ds, rw (round, small) run)
  | inr large ↦
      let (ds, run, s) =
        number-goes_on (45 ∷ []) (2 ^ 32 - e) 10 plain_spec [] [] (omega arith) (omega arith) in
      (45 ∷ ds, rw (round, large) run)
]

char-ended :
    (fuel c : ℕ) (fmt : List ℕ) (args : List Arg)
    → (c == 37) ≡ false
    → ended (print_loop fuel plain fmt args) ≡ true
    → ended (print_loop (suc fuel) plain (c ∷ fmt) args) ≡ true
unfolding print_loop round
char-ended fuel c fmt args text h = rw (ended, print_loop, round, text) (behind-ended (c ∷ []) _ h)

percent-d :
    (fuel e : ℕ)
    → ended (print_loop (suc (suc (suc fuel))) plain (37 ∷ 100 ∷ []) (word e ∷ [])) ≡ true
unfolding print_loop round
percent-d fuel e = let (cs, run) = decimal e (100 ∷ []) in rw (print_loop, run) refl

pub error-ended :
    (fuel e : ℕ)
    → ended (
        print_loop
          (suc (suc (suc (suc (suc (suc (suc (suc (suc fuel)))))))))
          plain
          error_format
          (word e ∷ []))
      ≡ true
error-ended fuel e = char-ended _ 101 _ _ refl (
    char-ended _ 114 _ _ refl (
      char-ended _ 114 _ _ refl (
        char-ended _ 111 _ _ refl
          (char-ended _ 114 _ _ refl (char-ended _ 32 _ _ refl (percent-d fuel e))))))

pub string-ended :
    (s : Option (List ℕ)) (fuel : ℕ)
    → ended (print_loop (suc (suc (suc fuel))) plain string_format (string s ∷ [])) ≡ true
unfolding print_loop round switch conversion case_s
string-ended none fuel = refl
string-ended (some s) fuel = refl
