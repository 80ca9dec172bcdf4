-- ===== src/String/Parse/Value.antt =====
-- `strtol` reads back what `printnum` printed.
use mathlib.Core.Path.{subst}
use native.Mathlib.Nat.{mod-eq_of_lt}
use fos_v.Base.{
  ℕ, zero, suc, ◌+◌, ◌*◌, ◌%◌, ◌^◌, ◌≤◌, ◌<◌, ◌≡◌, ◌≢◌, refl, sym, ◌∙◌, ap, ap₂, Bool, true, false,
  none, some, List, [], ◌∷◌, ◌++◌, arith, length, map, ◌==◌, ◌&&◌, ◌||◌,
}
use fos_v.String.{Bytes}
use fos_v.String.Cstr.{CStr}
use fos_v.String.Parse.{
  skip_blanks, skip_sign, skip_prefix, digit_of, next_digit, read_digits, signed_value, read_number,
  strtol,
}
use fos_v.Format.{digit_char, pad}
use fos_v.Format.Number.{Shows, value, below}

-- A digit is read back as itself.
is_read : ℕ → Bool
unfolding digit_of digit_char
is_read d = elim (digit_of (digit_char d)) [ none ↦ false | some e ↦ e == d ]

all_read : ℕ → Bool
unfolding is_read
all_read zero = true
all_read (suc n) = is_read n && all_read n

all_read-below : (n d : ℕ) → d < n → all_read n ≡ true → is_read d ≡ true
unfolding all_read
all_read-below zero d h all = absurd (omega arith)
all_read-below (suc n) d h all = ground (arith, all_read-below n d)

sixteen_read : all_read 16 ≡ true
unfolding all_read is_read digit_char digit_of
sixteen_read = refl

digit_of-digit_char : (d : ℕ) → d < 16 → digit_of (digit_char d) ≡ some d
unfolding is_read
digit_of-digit_char d h = ground (arith, all_read-below 16 d h sixteen_read)

next_digit-digit_char :
    (base d : ℕ) → d < base → base ≤ 16 → next_digit base (digit_char d) ≡ some d
unfolding next_digit
next_digit-digit_char base d h k = ground (arith, digit_of-digit_char d (omega arith))

-- `ds` stand as digits at `s`, and no digit behind them.
abbrev Digits : Bytes → ℕ → ℕ → List ℕ → Type 0
Digits m s base [] = next_digit base (m s) ≡ none
Digits m s base (d ∷ ds) = (m s ≡ digit_char d) × Digits m (s + 1) base ds

value-le : (base acc : ℕ) (ds : List ℕ) → 0 < base → acc ≤ value base acc ds
unfolding value
value-le base acc [] h = omega arith
value-le base acc (d ∷ ds) h = grind (arith, value-le base (acc * base + d) ds h)

read_digits-value :
    (fuel : ℕ) (m : Bytes) (s base acc : ℕ) (ds : List ℕ)
    → 0 < base
    → base ≤ 16
    → below base ds ≡ true
    → Digits m s base ds
    → length ds < fuel
    → value base acc ds < 2 ^ 32
    → read_digits fuel m s base acc ≡ some (value base acc ds, s + length ds)
unfolding read_digits value below
read_digits-value zero m s base acc ds p k small str enough fits = absurd (omega arith)
read_digits-value (suc fuel) m s base acc [] p k small str enough fits =
    rw (read_digits, str) (ap (λ a. some (acc, a)) (omega arith))
read_digits-value (suc fuel) m s base acc (d ∷ ds) p k small str enough fits =
    let now : d < base = ground arith in
    let digit : next_digit base (m s) ≡ some d =
      ap (next_digit base) str.0 ∙ next_digit-digit_char base d now k in
    let same : (acc * base + d) % 2 ^ 32 ≡ acc * base + d =
      mod-eq_of_lt (omega (arith, value-le base (acc * base + d) ds p)) in
    rw (read_digits, digit, same)
      (read_digits-value fuel m (s + 1) base (acc * base + d) ds p k (ground arith) str.1
          (omega arith) fits
        ∙ ap (λ a. some (value base (acc * base + d) ds, a)) (omega arith))

-- No digit is a blank, a sign or the `x` of a prefix.
digit_char-plain :
    (d : ℕ)
    → d < 16
    → (digit_char d ≢ 32)
      × (digit_char d ≢ 9)
      × (digit_char d ≢ 43)
      × (digit_char d ≢ 45)
      × (digit_char d ≢ 120)
      × (digit_char d ≢ 0)
unfolding digit_of
digit_char-plain d h =
    let read = digit_of-digit_char d h in
    (
      λ e. ground (arith, read),
      λ e. ground (arith, read),
      λ e. ground (arith, read),
      λ e. ground (arith, read),
      λ e. ground (arith, read),
      λ e. ground (arith, read),
    )

Digits-CStr :
    (m : Bytes) (s base : ℕ) (ds : List ℕ) → CStr m s (map digit_char ds) → Digits m s base ds
unfolding next_digit digit_of
Digits-CStr m s base [] str = rw str refl
Digits-CStr m s base (d ∷ ds) str = (str.0, Digits-CStr m (s + 1) base ds str.2)

-- What stands behind a digit is no `x`.
next-plain :
    (m : Bytes) (s base : ℕ) (ds : List ℕ)
    → base ≤ 16
    → below base ds ≡ true
    → CStr m s (map digit_char ds)
    → m s ≢ 120
unfolding below
next-plain m s base [] high digits str e = omega arith
next-plain m s base (d ∷ ds) high digits str e =
    let small : d < base = ground arith in (digit_char-plain d (omega arith)).4 (sym str.0 ∙ e)

strtol-digits :
    (fuel : ℕ) (m : Bytes) (s base d : ℕ) (ds : List ℕ)
    → 2 ≤ base
    → base ≤ 16
    → below base (d ∷ ds) ≡ true
    → value base 0 (d ∷ ds) < 2 ^ 32
    → CStr m s (map digit_char (d ∷ ds))
    → length (d ∷ ds) < suc fuel
    → strtol (suc fuel) m s base ≡ some (value base 0 (d ∷ ds), s + length (d ∷ ds))
unfolding strtol skip_blanks read_number skip_sign skip_prefix signed_value below
strtol-digits fuel m s base d ds low high digits fits str enough =
    let small : d < base = ground arith in
    let (blank, tab, plus, minus, x, null) = digit_char-plain d (omega arith) in
    let next = next-plain m (s + 1) base ds high (ground arith) str.2 in
    let read =
      read_digits-value (suc fuel) m s base 0 (d ∷ ds) (omega arith) high digits
        (Digits-CStr m s base (d ∷ ds) str) enough fits in
    let first = str.0 in
    let no_blank : (m s == 32 || (m s == 9)) ≡ false = ground arith in
    let sign : skip_sign m s ≡ (false, s) = ground arith in
    let prefix : skip_prefix m s base ≡ (s, base) = ground arith in
    rw (strtol, skip_blanks, no_blank, read_number, sign, prefix, read) refl

length-map : (f : ℕ → ℕ) (xs : List ℕ) → length (map f xs) ≡ length xs
length-map f [] = refl
length-map f (x ∷ xs) = ap suc (length-map f xs)

strtol-all :
    (fuel : ℕ) (m : Bytes) (s base : ℕ) (ds : List ℕ)
    → 2 ≤ base
    → base ≤ 16
    → below base ds ≡ true
    → value base 0 ds < 2 ^ 32
    → 0 < length ds
    → CStr m s (map digit_char ds)
    → length ds < fuel
    → strtol fuel m s base ≡ some (value base 0 ds, s + length ds)
strtol-all zero m s base ds low high digits fits some_digit str enough = absurd (omega arith)
strtol-all (suc fuel) m s base [] low high digits fits some_digit str enough = absurd (omega arith)
strtol-all (suc fuel) m s base (d ∷ ds) low high digits fits some_digit str enough =
    strtol-digits fuel m s base d ds low high digits fits str enough

-- In a base from 2 to 16, `strtol` reads a number below 2 ^ 32 whose digits, in lower case and with
-- no sign or blank in front, stand at `s`, if a null byte stands behind them and there is more fuel
-- than digits. It stores the address of the null byte.
pub strtol-Shows :
    (fuel : ℕ) (m : Bytes) (s base num : ℕ) (cs : List ℕ)
    → 2 ≤ base
    → base ≤ 16
    → num < 2 ^ 32
    → Shows num base 0 32 cs
    → CStr m s cs
    → length cs < fuel
    → strtol fuel m s base ≡ some (num, s + length cs)
unfolding pad
strtol-Shows fuel m s base num cs low high fits shown str enough =
    let no_pads : shown.pads ≡ 0 = omega (arith, shown.wide) in
    let text : cs ≡ map digit_char shown.ds =
      shown.text ∙ ap (λ n. pad n 32 ++ map digit_char shown.ds) no_pads in
    let same : length cs ≡ length shown.ds = ap length text ∙ length-map digit_char shown.ds in
    strtol-all fuel m s base shown.ds low high shown.digits (omega (arith, shown.is_number))
      shown.some_digit (subst (CStr m s) text str) (omega (arith, same))
    ∙ ap₂ (λ n l. some (n, s + l)) shown.is_number (sym same)
