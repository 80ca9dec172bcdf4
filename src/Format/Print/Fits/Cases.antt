-- ===== src/Format/Print/Fits/Cases.antt =====
-- A round of `vprintfmt` on a format that fits its arguments.
use fos_v.Base.{
  ℕ, ◌+◌, ◌-◌, ◌*◌, ◌^◌, ◌≤◌, ◌≡◌, refl, Bool, Bool-cases, true, false, not, inl, inr, Option, none,
  some, Option-cases, ==→eq, subst, ◌&&◌, ◌||◌, List, [], ◌∷◌, arith, if◌then◌else◌, ◌==◌, leb, ltb,
}
use fos_v.Format.Errors.{error_string}
use fos_v.Format.Print.{
  Arg, Spec, Mode, plain, escape, digits, Round, finished, goes_on, calls, more_fuel, put_error,
  case_c, case_e, case_s, case_p, case_star, number, put_signed, put_unsigned, conversion, switch,
  round, word, long_word, string, getint, getuint, process_precision,
}
use fos_v.Format.Print.Ends.{number-goes_on}
use fos_v.Format.Print.Fits.{
  text, sequence, width, takes_word, takes_string, takes_number, converts, accepts, fits, position,
}

-- What a round leads to is defined.
abbrev pub Safe : Round → Type 0
Safe finished = Unit
Safe (goes_on cs mode fmt args) = fits (position mode) fmt args ≡ true
Safe (calls fmt args rest args') = (fits text fmt args ≡ true) × (fits text rest args' ≡ true)
Safe Round.undefined = ⊥
Safe more_fuel = Unit

if-Safe :
    (b : Bool) (x y : Round)
    → (b ≡ true → Safe x)
    → (b ≡ false → Safe y)
    → Safe (if b then x else y)
if-Safe true x y h k = h refl
if-Safe false x y h k = k refl

process_precision-lflag : (p : Option ℕ) (v : Spec) → (process_precision p v).lflag ≡ v.lflag
process_precision-lflag p v = elim (Option-cases v.width) [
  | inl no_width ↦ rw no_width refl
  | inr (w, wide) ↦ rw wide refl
]

module _ (v : Spec) (fmt : List ℕ) where
  case_c-Safe :
      (args : List Arg)
      → takes_word (λ _. true) (fits text fmt) args ≡ true
      → Safe (case_c args fmt)
  unfolding takes_word case_c
  case_c-Safe [] h = cc
  case_c-Safe (word w ∷ args) h = h
  case_c-Safe (long_word w ∷ args) h = cc
  case_c-Safe (string s ∷ args) h = cc

  case_s-Safe :
      (args : List Arg) → takes_string (fits text fmt) args ≡ true → Safe (case_s args v fmt)
  unfolding takes_string case_s
  case_s-Safe [] h = cc
  case_s-Safe (word w ∷ args) h = cc
  case_s-Safe (long_word w ∷ args) h = cc
  case_s-Safe (string none ∷ args) h = h
  case_s-Safe (string (some s) ∷ args) h = h

  number-Safe :
      (cs : List ℕ) (num base : ℕ) (args : List Arg)
      → 2 ≤ base
      → base ≤ 16
      → fits text fmt args ≡ true
      → Safe (number cs num base v fmt args)
  number-Safe cs num base args low high h =
      let (ds, run, p) = number-goes_on cs num base v fmt args low high in rw run h

  case_p-Safe :
      (args : List Arg)
      → takes_word (λ _. true) (fits text fmt) args ≡ true
      → Safe (case_p args v fmt)
  unfolding takes_word case_p
  case_p-Safe [] h = cc
  case_p-Safe (word w ∷ args) h =
      number-Safe (48 ∷ 120 ∷ []) w 16 args (omega arith) (omega arith) h
  case_p-Safe (long_word w ∷ args) h = cc
  case_p-Safe (string s ∷ args) h = cc

  -- The nested formats fit their arguments.
  put_error-Safe :
      (err : ℕ) (args : List Arg)
      → (err == 2 ^ 31) ≡ false
      → fits text fmt args ≡ true
      → Safe (put_error err fmt args)
  unfolding put_error fits accepts converts takes_number takes_string
  put_error-Safe err args no_overflow h = elim (Option-cases (error_string err)) [
    | inl no_text ↦ rw (no_overflow, no_text) (refl, h)
    | inr (p, found) ↦ rw (no_overflow, found) (refl, h)
  ]

  case_e-Safe :
      (args : List Arg)
      → takes_word (λ w. not (w == 2 ^ 31)) (fits text fmt) args ≡ true
      → Safe (case_e args fmt)
  unfolding takes_word case_e
  case_e-Safe [] h = cc
  case_e-Safe (word w ∷ args) h =
      put_error-Safe (if ltb w (2 ^ 31) then w else 2 ^ 32 - w) args (ground arith) (ground arith)
  case_e-Safe (long_word w ∷ args) h = cc
  case_e-Safe (string s ∷ args) h = cc

  signed-Safe :
      (negative : Bool) (num : ℕ) (args : List Arg)
      → fits text fmt args ≡ true
      → Safe (put_signed (some (negative, num, args)) v fmt)
  unfolding put_signed
  signed-Safe negative num args h =
      number-Safe (if negative then 45 ∷ [] else []) num 10 args (omega arith) (omega arith) h

  case_d-Safe :
      (args : List Arg)
      → takes_number v.lflag (fits text fmt) args ≡ true
      → Safe (put_signed (getint v.lflag args) v fmt)
  unfolding takes_number getint
  case_d-Safe [] h = cc
  case_d-Safe (word w ∷ args) h =
      let short : leb 2 v.lflag ≡ false = ground arith in
      elim (Bool-cases (ltb w (2 ^ 31))) [
        | inl low ↦ rw (short, low) (signed-Safe false w args (ground arith))
        | inr high ↦ rw (short, high) (signed-Safe true (2 ^ 32 - w) args (ground arith))
      ]
  case_d-Safe (long_word w ∷ args) h =
      let long : leb 2 v.lflag ≡ true = ground arith in
      elim (Bool-cases (ltb w (2 ^ 63))) [
        | inl low ↦ rw (long, low) (signed-Safe false w args (ground arith))
        | inr high ↦ rw (long, high) (signed-Safe true (2 ^ 64 - w) args (ground arith))
      ]
  case_d-Safe (string s ∷ args) h = cc

  unsigned-Safe :
      (base : ℕ) (args : List Arg)
      → 2 ≤ base
      → base ≤ 16
      → takes_number v.lflag (fits text fmt) args ≡ true
      → Safe (put_unsigned (getuint v.lflag args) base v fmt)
  unfolding takes_number getuint put_unsigned
  unsigned-Safe base [] low high h = cc
  unsigned-Safe base (word w ∷ args) low high h =
      let short : leb 2 v.lflag ≡ false = ground arith in
      rw short (number-Safe [] w base args low high (ground arith))
  unsigned-Safe base (long_word w ∷ args) low high h =
      let long : leb 2 v.lflag ≡ true = ground arith in
      rw long (number-Safe [] w base args low high (ground arith))
  unsigned-Safe base (string s ∷ args) low high h = cc

  -- What `converts` asks for a character that is known
  asked :
      (ch k : ℕ) (args : List Arg)
      → (ch == k) ≡ true
      → converts ch v.lflag (fits text fmt) args ≡ true
      → converts k v.lflag (fits text fmt) args ≡ true
  asked ch k args same h =
      subst (λ c. converts c v.lflag (fits text fmt) args ≡ true) (==→eq ch k same) h

  conversion-Safe :
      (ch : ℕ) (start : List ℕ) (args : List Arg)
      → converts ch v.lflag (fits text fmt) args ≡ true
      → Safe (conversion ch v start fmt args)
  unfolding conversion converts
  conversion-Safe ch start args h =
      if-Safe (ch == 99) _ _ (λ c. case_c-Safe args (asked ch 99 args c h))
        λ n0.
          if-Safe (ch == 101) _ _ (λ c. case_e-Safe args (asked ch 101 args c h))
            λ n1.
              if-Safe (ch == 115) _ _ (λ c. case_s-Safe args (asked ch 115 args c h))
                λ n2.
                  if-Safe (ch == 100) _ _ (λ c. case_d-Safe args (asked ch 100 args c h))
                    λ n3.
                      if-Safe (ch == 117) _ _
                        (λ c.
                          unsigned-Safe 10 args (omega arith) (omega arith) (asked ch 117 args c h))
                        λ n4.
                          if-Safe (ch == 111) _ _ (λ c. asked ch 111 args c h)
                            λ n5.
                              if-Safe (ch == 112) _ _
                                (λ c. case_p-Safe args (asked ch 112 args c h))
                                λ n6.
                                  if-Safe (ch == 120) _ _
                                    (λ c.
                                      unsigned-Safe 16 args (omega arith) (omega arith)
                                        (asked ch 120 args c h))
                                    λ n7.
                                      if-Safe (ch == 37) _ _ (λ c. asked ch 37 args c h)
                                        λ n8.
                                          let none_left =
                                            rw (n0, n1, n2, n3, n4, n5, n6, n7, n8) at h in
                                          cc

  case_star-Safe :
      (args : List Arg) (start : List ℕ)
      → takes_word (λ _. true) (fits (sequence v.lflag) fmt) args ≡ true
      → Safe (case_star args v start fmt)
  unfolding takes_word case_star
  case_star-Safe [] start h = cc
  case_star-Safe (word w ∷ args) start h =
      let p = if ltb w (2 ^ 31) then some w else none in rw (process_precision-lflag p v) h
  case_star-Safe (long_word w ∷ args) start h = cc
  case_star-Safe (string s ∷ args) start h = cc

  -- What is asked behind a flag and in a width
  abbrev Accepted : ℕ → List Arg → Type 0
  Accepted ch args =
      accepts ch v.lflag (λ l. fits (sequence l) fmt) (λ p. fits (width v.lflag p) fmt)
        (fits text fmt) args
      ≡ true

  Accepted-at : (ch k : ℕ) (args : List Arg) → (ch == k) ≡ true → Accepted ch args → Accepted k args
  Accepted-at ch k args same h = subst (λ c. Accepted c args) (==→eq ch k same) h

  switch-Safe :
      (ch : ℕ) (start : List ℕ) (args : List Arg)
      → Accepted ch args
      → Safe (switch ch v start fmt args)
  unfolding switch accepts
  switch-Safe ch start args h =
      if-Safe (ch == 45) _ _ (λ c. Accepted-at ch 45 args c h)
        λ n0.
          if-Safe (ch == 48) _ _ (λ c. Accepted-at ch 48 args c h)
            λ n1.
              if-Safe (leb 49 ch && leb ch 57) _ _
                (λ c.
                  let no_l : (ch == 108) ≡ false = ground arith in
                  let no_star : (ch == 42) ≡ false = ground arith in rw (no_l, no_star, c) at h)
                λ n2.
                  if-Safe (ch == 42) _ _
                    (λ c. case_star-Safe args start (Accepted-at ch 42 args c h))
                    λ n3.
                      if-Safe (ch == 46) _ _ (λ c. Accepted-at ch 46 args c h)
                        λ n4.
                          if-Safe (ch == 35) _ _ (λ c. Accepted-at ch 35 args c h)
                            λ n5.
                              if-Safe (ch == 108) _ _ (λ c. Accepted-at ch 108 args c h)
                                λ n6.
                                  conversion-Safe ch start args
                                    (rw (n0, n1, n2, n3, n4, n5, n6) at h)

both : (b c : Bool) → (b && c) ≡ true → (b ≡ true) × (c ≡ true)
both true c h = (refl, h)
both false c h = cc

out_of_range : (n : ℕ) → ltb n (2 ^ 31) ≡ true → ¬ (leb (2 ^ 31) n ≡ true)
out_of_range n low high = ground arith

pub round-Safe :
    (mode : Mode) (fmt : List ℕ) (args : List Arg)
    → fits (position mode) fmt args ≡ true
    → Safe (round mode fmt args)
unfolding round fits
round-Safe plain [] args h = tt
round-Safe plain (ch ∷ fmt) args h = if-Safe (ch == 37) _ _ (λ c. rw c at h) (λ c. rw c at h)
round-Safe (escape v start) [] args h = cc
round-Safe (escape v start) (ch ∷ fmt) args h = switch-Safe v fmt ch start args h
round-Safe (digits v p start) [] args h = cc
round-Safe (digits v p start) (ch ∷ fmt) args h =
    if-Safe (ltb ch 48 || ltb 57 ch) _ _
      (λ ends.
        let no_digit : (leb 48 ch && leb ch 57) ≡ false = ground arith in
        rw (process_precision-lflag (some p) v) (rw no_digit at h))
      (λ digit.
        let is_digit : (leb 48 ch && leb ch 57) ≡ true = ground arith in
        let (in_range, more) = both (ltb (p * 10 + ch) (2 ^ 31)) _ (rw is_digit at h) in
        if-Safe (leb (2 ^ 31) (p * 10 + ch)) _ _
          (λ big. absurd (out_of_range (p * 10 + ch) in_range big)) (λ small. more))
