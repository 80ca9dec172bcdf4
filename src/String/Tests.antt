-- ===== src/String/Tests.antt =====
-- The string routines on a memory that holds "ab" at the addresses 0 and 16.

use fos_v.Base.{
  ℕ, ◌≤◌, ◌<◌, ◌≡◌, ◌⊎◌, inr, refl, some, List, [], ◌∷◌, ◌||◌, ◌==◌, arith, length, true, ◌-◌,
  get_or, if◌then◌else◌,
}
use fos_v.String.{Bytes, memcpy, memmove}
use fos_v.String.Cstr.{CStr}
use fos_v.String.Parse.{strtol, strsplit, Arguments}
use fos_v.String.Parse.Split.{whole_word}
use fos_v.String.Parse.Split.Words.{strsplit-Cut}
use fos_v.String.Parse.Value.{strtol-Shows}
use fos_v.Format.{pad, digit_char}
use fos_v.Format.Number.{value, below, Shows}
use fos_v.String.Copy.{memcpy-copied, memmove-copied}

abbrev text : Bytes
text a = if a == 0 || a == 16 then 97 else if a == 1 || a == 17 then 98 else 0

abbrev ab : List ℕ
ab = 97 ∷ 98 ∷ []

ab-CStr : CStr text 0 ab
ab-CStr = (refl, omega arith, (refl, omega arith, refl))

ab2-CStr : CStr text 16 ab
ab2-CStr = (refl, omega arith, (refl, omega arith, refl))

memmove-copied_example : memmove 1 0 2 text 2 ≡ 98
memmove-copied_example = memmove-copied 1 0 2 text 2

memcpy-copied_example : memcpy 8 0 2 text 9 ≡ 98
memcpy-copied_example = memcpy-copied 8 0 2 text 9 (inr (omega arith))

-- "1a" at the address 4
abbrev hex_text : Bytes
hex_text a = get_or (49 ∷ 97 ∷ []) (a - 4) 0

shown : Shows 26 16 0 32 (49 ∷ 97 ∷ [])
unfolding pad digit_char value below
shown = record {
  pads = 0;
  ds = 1 ∷ 10 ∷ [];
  text = refl;
  is_number = refl;
  digits = refl;
  wide = refl;
  some_digit = omega arith;
}

strtol-Shows_example : strtol 3 hex_text 4 16 ≡ some (26, 6)
strtol-Shows_example =
    strtol-Shows 3 hex_text 4 16 26 (49 ∷ 97 ∷ []) (omega arith) (omega arith) (omega arith) shown
      (refl, omega arith, (refl, omega arith, refl)) (omega arith)

-- "a b" at the address 0, and the split character " " at 100
abbrev line : Bytes
line a = if a == 100 then 32 else get_or (97 ∷ 32 ∷ 98 ∷ []) a 0

strsplit-Cut_example :
    (ret : ℕ) × (a : Arguments) × (strsplit 9 0 100 (λ _. 7) line ≡ some (ret, a))
    × (a.argc ≤ 15)
    × ((i : ℕ)
        → i < a.argc
        → (w : List ℕ) × CStr a.memory (a.argv i) w
          × (whole_word (32 ∷ []) w ≡ true)
          × (0 < length w))
    × (((ret ≡ 1) × (a.argv a.argc ≡ 0)) ⊎ ((ret ≡ 0) × (a.argc ≡ 15)))
    × ((p : ℕ) → (p < 0) ⊎ (3 ≤ p) → a.memory p ≡ line p)
strsplit-Cut_example =
    strsplit-Cut 9 0 100 (λ _. 7) line (32 ∷ []) (97 ∷ 32 ∷ 98 ∷ []) (refl, omega arith, refl)
      (refl, omega arith, (refl, omega arith, (refl, omega arith, refl))) (inr (omega arith))
      (omega arith)
