-- ===== src/Format/Print/Fits.antt =====
-- When the arguments of a format are there, and of the right types.
pub mod Cases
pub mod Run
use fos_v.Base.{
  ℕ, ◌+◌, ◌-◌, ◌*◌, ◌^◌, Bool, true, false, not, ◌&&◌, ◌||◌, List, [], ◌∷◌, if◌then◌else◌, ◌==◌,
  leb, ltb,
}
use fos_v.Format.Print.{Arg, Mode, plain, escape, digits, word, long_word, string}

-- A position in a format: in text, in a sequence with the number of its flags "l", or in the digits of
-- a width, with the number that they are so far.
pub data Position : Type 0 where
  text : Position
  sequence : ℕ → Position
  width : ℕ → ℕ → Position

-- One argument of a type, and what is asked of those behind it
takes_word : (ℕ → Bool) → (List Arg → Bool) → List Arg → Bool
takes_word good rest (word w ∷ args) = good w && rest args
takes_word good rest args = false

takes_string : (List Arg → Bool) → List Arg → Bool
takes_string rest (string s ∷ args) = rest args
takes_string rest args = false

takes_number : ℕ → (List Arg → Bool) → List Arg → Bool
takes_number lflag rest (word w ∷ args) = not (leb 2 lflag) && rest args
takes_number lflag rest (long_word w ∷ args) = leb 2 lflag && rest args
takes_number lflag rest args = false

-- The argument of a conversion: "d", "u" and "x" want a number as long as the flags say, "c", "p" and
-- "e" a word, for "e" not the smallest `int`, and "s" a string; "o" and "%" want none.
converts : ℕ → ℕ → (List Arg → Bool) → List Arg → Bool
unfolding takes_word takes_string takes_number
converts ch lflag rest args =
    if ch == 100 || (ch == 117 || ch == 120)
    then takes_number lflag rest args
    else if ch == 99 || ch == 112
    then takes_word (λ _. true) rest args
    else if ch == 101
    then takes_word (λ w. not (w == 2 ^ 31)) rest args
    else if ch == 115
    then takes_string rest args
    else (ch == 111 || ch == 37) && rest args

-- The character `ch` of a sequence: a flag, "*", the first digit of a width, or the conversion.
-- `again`, `wide` and `rest` are what is asked behind it.
accepts :
    ℕ → ℕ → (ℕ → List Arg → Bool) → (ℕ → List Arg → Bool) → (List Arg → Bool) → List Arg → Bool
unfolding converts takes_word
accepts ch lflag again wide rest args =
    if ch == 108
    then again (lflag + 1) args
    else if ch == 42
    then takes_word (λ _. true) (again lflag) args
    else if leb 49 ch && leb ch 57
    then wide (ch - 48) args
    else if ch == 45 || (ch == 48 || (ch == 46 || ch == 35))
    then again lflag args
    else converts ch lflag rest args

-- The format is complete and its widths are below 2 ^ 31, and each of its conversions finds an
-- argument of its type.
unfoldable pub fits : Position → List ℕ → List Arg → Bool
unfolding accepts converts takes_word takes_string takes_number
fits text [] args = true
fits text (ch ∷ fmt) args = (if ch == 37 then fits (sequence 0) fmt else fits text fmt) args
fits (sequence lflag) [] args = false
fits (sequence lflag) (ch ∷ fmt) args =
    accepts ch lflag (λ l. fits (sequence l) fmt) (λ p. fits (width lflag p) fmt) (fits text fmt)
      args
fits (width lflag p) [] args = false
fits (width lflag p) (ch ∷ fmt) args =
    if leb 48 ch && leb ch 57
    then ltb (p * 10 + ch) (2 ^ 31) && fits (width lflag (p * 10 + ch - 48)) fmt args
    else accepts ch lflag (λ l. fits (sequence l) fmt) (λ q. fits (width lflag q) fmt)
        (fits text fmt) args

-- The position of the code
abbrev pub position : Mode → Position
position plain = text
position (escape v start) = sequence v.lflag
position (digits v p start) = width v.lflag p
