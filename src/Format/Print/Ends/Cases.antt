-- ===== src/Format/Print/Ends/Cases.antt =====
-- The cases of `vprintfmt`, and that it ends.
use mathlib.Core.Path.{subst}
use fos_v.Base.{
  ℕ, zero, suc, ◌+◌, ◌-◌, ◌*◌, ◌^◌, ◌≤◌, ◌<◌, ◌≡◌, ◌≢◌, refl, Bool, true, inl, inr, Option, none,
  some, Option-cases, ◌-◌, ◌&&◌, ◌||◌, List, [], ◌∷◌, arith, length, if◌then◌else◌, ◌==◌, leb, ltb,
}
use fos_v.Format.Print.Ends.{
  enough, ended, behind-ended, behind_call-ended, need, Placed, Good, if-Good, enough-low,
  number-Good, error-ended, string-ended,
}
use fos_v.Format.Errors.{error_string}
use fos_v.Format.Print.{
  Arg, Spec, Mode, plain, escape, digits, Round, finished, goes_on, calls, more_fuel, no_fuel,
  error_format, string_format, put_error, case_c, case_e, case_s, case_p, case_star, put_signed,
  put_unsigned, conversion, switch, round, print_loop, vprintfmt, word, long_word, string, getint,
  getuint,
}

-- Every case leads to no more than the rest needs.
put_error-Good :
    (n err : ℕ) (fmt : List ℕ) (args : List Arg) → enough fmt ≤ n → Good n (put_error err fmt args)
unfolding put_error
put_error-Good n err fmt args h =
    if-Good n (err == 2 ^ 31) _ _ tt (elim (Option-cases (error_string err)) [
      | inl no_text ↦ rw no_text (
        λ fuel k.
            subst (λ f. ended (print_loop f plain error_format (word err ∷ [])) ≡ true)
              (omega arith) (error-ended (fuel - 9) err),
        h,
        omega (arith, enough-low fmt),
      )
      | inr (p, text) ↦ rw text (
        λ fuel k.
            subst (λ f. ended (print_loop f plain string_format (string (some p) ∷ [])) ≡ true)
              (omega arith) (string-ended (some p) (fuel - 3)),
        h,
        omega (arith, enough-low fmt),
      )
    ])

module _ (n : ℕ) (v : Spec) (fmt : List ℕ) (h : enough fmt ≤ n) where
  case_e-Good : (args : List Arg) → Good n (case_e args fmt)
  unfolding case_e
  case_e-Good [] = tt
  case_e-Good (word w ∷ args) = put_error-Good n _ fmt args h
  case_e-Good (long_word w ∷ args) = tt
  case_e-Good (string s ∷ args) = tt

  case_c-Good : (args : List Arg) → Good n (case_c args fmt)
  unfolding case_c
  case_c-Good [] = tt
  case_c-Good (word w ∷ args) = (h, tt)
  case_c-Good (long_word w ∷ args) = tt
  case_c-Good (string s ∷ args) = tt

  case_s-Good : (args : List Arg) → Good n (case_s args v fmt)
  unfolding case_s
  case_s-Good [] = tt
  case_s-Good (word w ∷ args) = tt
  case_s-Good (long_word w ∷ args) = tt
  case_s-Good (string none ∷ args) = (h, tt)
  case_s-Good (string (some s) ∷ args) = (h, tt)

  case_p-Good : (args : List Arg) → Good n (case_p args v fmt)
  unfolding case_p
  case_p-Good [] = tt
  case_p-Good (word w ∷ args) =
      number-Good n (48 ∷ 120 ∷ []) w 16 v fmt args (omega arith) (omega arith) h
  case_p-Good (long_word w ∷ args) = tt
  case_p-Good (string s ∷ args) = tt

  put_signed-Good : (o : Option (Bool × ℕ × List Arg)) → Good n (put_signed o v fmt)
  unfolding put_signed
  put_signed-Good none = tt
  put_signed-Good (some (b, m, args)) =
      number-Good n (if b then 45 ∷ [] else []) m 10 v fmt args (omega arith) (omega arith) h

  put_unsigned-Good :
      (o : Option (ℕ × List Arg)) (base : ℕ)
      → 2 ≤ base
      → base ≤ 16
      → Good n (put_unsigned o base v fmt)
  unfolding put_unsigned
  put_unsigned-Good none base low high = tt
  put_unsigned-Good (some (m, args)) base low high = number-Good n [] m base v fmt args low high h

  conversion-Good :
      (ch : ℕ) (start : List ℕ) (args : List Arg)
      → enough start ≤ n
      → Good n (conversion ch v start fmt args)
  unfolding conversion
  conversion-Good ch start args k = if-Good n (ch == 99) _ _ (case_c-Good args) (
      if-Good n (ch == 101) _ _ (case_e-Good args) (
        if-Good n (ch == 115) _ _ (case_s-Good args) (
          if-Good n (ch == 100) _ _ (put_signed-Good (getint v.lflag args)) (
            if-Good n (ch == 117) _ _
              (put_unsigned-Good (getuint v.lflag args) 10 (omega arith) (omega arith))
              (if-Good n (ch == 111) _ _ (h, tt)
                (if-Good n (ch == 112) _ _ (case_p-Good args) (
                  if-Good n (ch == 120) _ _
                    (put_unsigned-Good (getuint v.lflag args) 16 (omega arith) (omega arith))
                    (if-Good n (ch == 37) _ _ (h, tt) (k, tt)))))))))

  case_star-Good :
      (args : List Arg) (start : List ℕ)
      → enough start + 2 * length fmt + 2 ≤ n
      → enough fmt ≤ enough start
      → Good n (case_star args v start fmt)
  unfolding case_star
  case_star-Good [] start k p = tt
  case_star-Good (word w ∷ args) start k p = (k, p)
  case_star-Good (long_word w ∷ args) start k p = tt
  case_star-Good (string s ∷ args) start k p = tt

  switch-Good :
      (ch : ℕ) (start : List ℕ) (args : List Arg)
      → enough start + 2 * length fmt + 3 ≤ n
      → enough fmt ≤ enough start
      → Good n (switch ch v start fmt args)
  unfolding switch
  switch-Good ch start args k p =
      let back : enough start + 2 * length fmt + 2 ≤ n = omega arith in
      if-Good n (ch == 45) _ _ (back, p)
        (if-Good n (ch == 48) _ _ (back, p)
          (if-Good n (leb 49 ch && leb ch 57) _ _ (k, p)
            (if-Good n (ch == 42) _ _ (case_star-Good args start back p) (
              if-Good n (ch == 46) _ _ (back, p)
                (if-Good n (ch == 35) _ _ (back, p)
                  (if-Good n (ch == 108) _ _ (back, p)
                    (conversion-Good ch start args (omega arith))))))))

round-Good :
    (mode : Mode) (fmt : List ℕ) (args : List Arg) (n : ℕ)
    → Placed mode fmt
    → need mode fmt ≤ suc n
    → Good n (round mode fmt args)
unfolding round enough
round-Good plain [] args n p h = tt
round-Good plain (ch ∷ fmt) args n p h =
    if-Good n (ch == 37) _ _ (omega arith, omega arith) (omega arith, tt)
round-Good (escape v start) [] args n p h = (omega arith, tt)
round-Good (escape v start) (ch ∷ fmt) args n p h =
    switch-Good n v fmt (omega arith) ch start args (omega arith) (omega arith)
round-Good (digits v q start) [] args n p h = (omega arith, p)
round-Good (digits v q start) (ch ∷ fmt) args n p h =
    if-Good n (ltb ch 48 || ltb 57 ch) _ _ (omega arith, p)
      (if-Good n (leb (2 ^ 31) (q * 10 + ch)) _ _ tt (omega arith, omega arith))

abbrev Ends : ℕ → Type 0
Ends fuel =
    (mode : Mode) (fmt : List ℕ) (args : List Arg)
    → Placed mode fmt
    → need mode fmt ≤ fuel
    → ended (print_loop fuel mode fmt args) ≡ true

round-ended :
    (n : ℕ) (mode : Mode) (fmt : List ℕ) (args : List Arg) (r : Round)
    → Ends n
    → round mode fmt args ≡ r
    → Good n r
    → ended (print_loop (suc n) mode fmt args) ≡ true
unfolding print_loop
round-ended n mode fmt args finished rest e g = rw (print_loop, e) refl
round-ended n mode fmt args (goes_on cs mode' fmt' args') rest e g =
    rw (print_loop, e) (behind-ended cs _ (rest mode' fmt' args' g.1 g.0))
round-ended n mode fmt args (calls fmt' args' left args'') rest e g =
    rw (print_loop, e)
      (behind_call-ended _ _ (g.0 n (omega (arith, g.2))) (rest plain left args'' tt g.1))
round-ended n mode fmt args Round.undefined rest e g = rw (print_loop, e) refl
round-ended n mode fmt args more_fuel rest e g = absurd g

need-positive : (mode : Mode) (fmt : List ℕ) → 0 < need mode fmt
need-positive plain fmt = omega (arith, enough-low fmt)
need-positive (escape v start) fmt = omega arith
need-positive (digits v p start) fmt = omega arith

loop-ended : (fuel : ℕ) → Ends fuel
loop-ended zero mode fmt args p h = absurd (omega (arith, need-positive mode fmt))
loop-ended (suc n) mode fmt args p h =
    round-ended n mode fmt args (round mode fmt args) (loop-ended n) refl
      (round-Good mode fmt args n p h)

-- The fuel that `enough` computes from the format is enough for `vprintfmt`, whatever the arguments.
pub vprintfmt-ends :
    (fuel : ℕ) (fmt : List ℕ) (args : List Arg)
    → enough fmt ≤ fuel
    → vprintfmt fuel fmt args ≢ no_fuel
unfolding vprintfmt
vprintfmt-ends fuel fmt args h stuck = let ends = loop-ended fuel plain fmt args tt h in cc
