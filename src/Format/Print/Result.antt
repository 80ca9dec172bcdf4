-- ===== src/Format/Print/Result.antt =====
-- What `vprintfmt` prints for text, for numbers in a field, and for strings.
use Prim.Native.Nat.{max}
use fos_v.Base.{
  ℕ, zero, suc, ◌+◌, ◌-◌, ◌^◌, ◌≤◌, ◌≡◌, refl, sym, ◌∙◌, ap, Bool, Bool-cases, true, false, inl,
  inr, Option, none, some, List, [], ◌∷◌, ◌++◌, arith, length, length-append, if◌then◌else◌, ◌==◌,
  leb, ltb, not, ◌&&◌,
}
use fos_v.Format.{pad}
use fos_v.Format.Number.{Prints}
use fos_v.Format.Print.{
  Arg, Spec, Mode, plain, escape, goes_on, digits, Printed, printed, no_fuel, put_signed,
  put_unsigned, conversion, switch, round, behind, print_loop, vprintfmt, word, put_string,
  put_chars, getint, getuint, plain_spec, limited, or_zero,
}
use fos_v.Format.Print.Ends.{number-goes_on}

-- No `%` is among the characters.
is_text : List ℕ → Bool
is_text [] = true
is_text (c ∷ cs) = not (c == 37) && is_text cs

behind-behind :
    (c : ℕ) (cs : List ℕ) (r : Printed) → behind (c ∷ []) (behind cs r) ≡ behind (c ∷ cs) r
behind-behind c cs (printed ds args) = refl
behind-behind c cs Printed.undefined = refl
behind-behind c cs no_fuel = refl

behind-nil : (r : Printed) → behind [] r ≡ r
behind-nil (printed ds args) = refl
behind-nil Printed.undefined = refl
behind-nil no_fuel = refl

loop-goes_on :
    (n : ℕ) (mode mode' : Mode) (cs fmt fmt' : List ℕ) (args args' : List Arg)
    → round mode fmt args ≡ goes_on cs mode' fmt' args'
    → print_loop (suc n) mode fmt args ≡ behind cs (print_loop n mode' fmt' args')
unfolding print_loop
loop-goes_on n mode mode' cs fmt fmt' args args' e = rw (print_loop, e) refl

-- A round that prints nothing.
loop-silent :
    (n : ℕ) (mode mode' : Mode) (fmt fmt' : List ℕ) (args args' : List Arg) (r : Printed)
    → round mode fmt args ≡ goes_on [] mode' fmt' args'
    → print_loop n mode' fmt' args' ≡ r
    → print_loop (suc n) mode fmt args ≡ r
loop-silent n mode mode' fmt fmt' args args' r e rest =
    loop-goes_on n mode mode' [] fmt fmt' args args' e ∙ behind-nil _ ∙ rest

-- Text without a `%` is printed as it is, and then what the rest of the format prints.
vprintfmt-text :
    (cs fmt : List ℕ) (args : List Arg) (fuel : ℕ)
    → is_text cs ≡ true
    → vprintfmt (length cs + fuel) (cs ++ fmt) args ≡ behind cs (vprintfmt fuel fmt args)
unfolding vprintfmt print_loop round is_text
vprintfmt-text [] fmt args fuel h =
    ap (λ n. print_loop n plain fmt args) (omega arith) ∙ sym (behind-nil (vprintfmt fuel fmt args))
vprintfmt-text (c ∷ cs) fmt args fuel h =
    let text : (c == 37) ≡ false = ground arith in
    let more : suc (length cs) + fuel ≡ suc (length cs + fuel) = omega arith in
    ap (λ n. print_loop n plain (c ∷ (cs ++ fmt)) args) more
    ∙ loop-goes_on (length cs + fuel) plain plain (c ∷ []) (c ∷ (cs ++ fmt)) (cs ++ fmt) args args
        (rw (round, text) refl)
    ∙ ap (behind (c ∷ [])) (vprintfmt-text cs fmt args fuel (ground arith))
    ∙ behind-behind c cs (vprintfmt fuel fmt args)

digit_round :
    (d : ℕ) (v : Spec) (start fmt : List ℕ) (args : List Arg)
    → 49 ≤ d
    → d ≤ 57
    → round (escape v start) (d ∷ fmt) args ≡ goes_on [] (digits v (d - 48) start) fmt args
unfolding round switch
digit_round d v start fmt args low high = ground arith

-- "%0", a digit from 1 to 9 and "x" print the word that is the next argument in hexadecimal, with
-- zeros in front of it only as far as the width in the digit asks for them, and then what the rest
-- of the format prints.
pub vprintfmt-hex :
    (d w fuel : ℕ) (fmt : List ℕ) (args : List Arg)
    → 49 ≤ d
    → d ≤ 57
    → (cs : List ℕ) × (vprintfmt
          (suc (suc (suc (suc (suc fuel)))))
          (37 ∷ 48 ∷ d ∷ 120 ∷ fmt)
          (word w ∷ args)
        ≡ behind cs (vprintfmt fuel fmt args))
      × Prints w 16 (d - 48) 48 cs
unfolding vprintfmt round switch conversion put_unsigned getuint
vprintfmt-hex d w fuel fmt args low high =
    let start = 48 ∷ d ∷ 120 ∷ fmt in
    let zeros = record plain_spec { padc = 48 } in
    let wide = record zeros { width = some (d - 48) } in
    let (cs, run, s) = number-goes_on [] w 16 wide fmt args (omega arith) (omega arith) in
    let last =
      loop-goes_on fuel (escape wide start) plain cs (120 ∷ fmt) fmt (word w ∷ args) args run in
    let third =
      loop-silent (suc fuel) (digits zeros (d - 48) start) (escape wide start) (120 ∷ fmt)
        (120 ∷ fmt) (word w ∷ args) (word w ∷ args) _ refl last in
    let second =
      loop-silent (suc (suc fuel)) (escape zeros start) (digits zeros (d - 48) start)
        (d ∷ 120 ∷ fmt) (120 ∷ fmt) (word w ∷ args) (word w ∷ args) _
        (digit_round d zeros start (120 ∷ fmt) (word w ∷ args) low high) third in
    let first =
      loop-silent (suc (suc (suc fuel))) (escape plain_spec start) (escape zeros start) start
        (d ∷ 120 ∷ fmt) (word w ∷ args) (word w ∷ args) _ refl second in
    (
      cs,
      loop-silent (suc (suc (suc (suc fuel)))) plain (escape plain_spec start) (37 ∷ start) start
          (word w ∷ args) (word w ∷ args) _ refl first,
      s,
    )

-- A minus sign for the negative ones.
abbrev pub sign : Bool → List ℕ
sign b = if b then 45 ∷ [] else []

-- The magnitude of the `int` in a word.
abbrev pub magnitude : ℕ → ℕ
magnitude w = if ltb w (2 ^ 31) then w else 2 ^ 32 - w

signed_round :
    (w : ℕ) (start fmt : List ℕ) (args : List Arg)
    → (cs : List ℕ) × (round (escape plain_spec start) (100 ∷ fmt) (word w ∷ args)
        ≡ goes_on (sign (leb (2 ^ 31) w) ++ cs) plain fmt args)
      × Prints (magnitude w) 10 0 32 cs
unfolding round switch conversion put_signed getint
signed_round w start fmt args = elim (Bool-cases (ltb w (2 ^ 31))) [
  | inl small ↦
      let big : leb (2 ^ 31) w ≡ false = ground arith in
      let (cs, run, s) = number-goes_on [] w 10 plain_spec fmt args (omega arith) (omega arith) in
      (cs, rw (round, small, big) run, rw small s)
  | inr large ↦
      let big : leb (2 ^ 31) w ≡ true = ground arith in
      let (cs, run, s) =
        number-goes_on (45 ∷ []) (2 ^ 32 - w) 10 plain_spec fmt args (omega arith) (omega arith) in
      (cs, rw (round, large, big) run, rw large s)
]

-- "%d" prints the `int` that is the next argument in decimal, without a pad character or a
-- superfluous zero and behind a minus sign if it is negative, and then what the rest of the format
-- prints.
pub vprintfmt-decimal :
    (w fuel : ℕ) (fmt : List ℕ) (args : List Arg)
    → (cs : List ℕ) × (vprintfmt (suc (suc fuel)) (37 ∷ 100 ∷ fmt) (word w ∷ args)
        ≡ behind (sign (leb (2 ^ 31) w) ++ cs) (vprintfmt fuel fmt args))
      × Prints (magnitude w) 10 0 32 cs
unfolding vprintfmt round
vprintfmt-decimal w fuel fmt args =
    let (cs, run, s) = signed_round w (100 ∷ fmt) fmt args in
    let last =
      loop-goes_on fuel (escape plain_spec (100 ∷ fmt)) plain _ (100 ∷ fmt) fmt (word w ∷ args) args
        run in
    (
      cs,
      loop-silent (suc fuel) plain (escape plain_spec (100 ∷ fmt)) (37 ∷ 100 ∷ fmt) (100 ∷ fmt)
          (word w ∷ args) (word w ∷ args) _ refl last,
      s,
    )

length-pad : (n c : ℕ) → length (pad n c) ≡ n
unfolding pad
length-pad zero c = refl
length-pad (suc n) c = ap suc (length-pad n c)

length-put_chars :
    (alt : Bool) (p : Option ℕ) (w : ℕ) (s : List ℕ)
    → length (put_chars alt p w s) ≡ max w (limited p (length s))
unfolding put_chars
length-put_chars alt none w [] = omega (arith, length-pad w 32)
length-put_chars alt (some zero) w [] = omega (arith, length-pad w 32)
length-put_chars alt (some (suc p)) w [] = omega (arith, length-pad w 32)
length-put_chars alt none w (c ∷ s) = omega (arith, length-put_chars alt none (w - 1) s)
length-put_chars alt (some zero) w (c ∷ s) = omega (arith, length-pad w 32)
length-put_chars alt (some (suc p)) w (c ∷ s) =
    omega (arith, length-put_chars alt (some p) (w - 1) s)

-- A string takes as many characters as the width, or as its length within the precision where that
-- is more.
pub put_string-length :
    (v : Spec) (s : List ℕ)
    → length (put_string v s) ≡ max (or_zero v.width) (limited v.precision (length s))
unfolding put_string
put_string-length v s =
    let w = or_zero v.width in
    let n = limited v.precision (length s) in
    elim (Bool-cases (ltb 0 w && not (v.padc == 45))) [
      | inl left ↦ rw left (
          omega (
            arith,
            length-append (pad (w - n) v.padc) (put_chars v.altflag v.precision 0 s),
            length-pad (w - n) v.padc,
            length-put_chars v.altflag v.precision 0 s,
          ))
      | inr right ↦ rw right (length-put_chars v.altflag v.precision w s)
    ]
