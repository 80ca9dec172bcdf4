-- ===== src/String/Parse.antt =====
-- `strtol` and `strsplit` of lib/string.c.
-- A `long` is the 32-bit word that holds it. A loop runs on fuel, and `none` means that the fuel ran
-- out. The array `argv` is apart from the string, and 0 stands for NULL in it.
pub mod Value
pub mod Split
use fos_v.Base.{
  ℕ, zero, suc, ◌+◌, ◌-◌, ◌*◌, ◌%◌, ◌^◌, Bool, true, false, not, ◌&&◌, ◌||◌, Option, none, some,
  if◌then◌else◌, ◌==◌, ltb, leb, update,
}
use fos_v.String.{Bytes, strchr}

-- The initial white space.
pub skip_blanks : ℕ → Bytes → ℕ → Option ℕ
skip_blanks zero m s = none
skip_blanks (suc fuel) m s = elim (m s == 32 || (m s == 9)) [
  | true ↦ skip_blanks fuel m (s + 1)
  | false ↦ some s
]

-- The sign: whether the number is negative, and where it begins.
pub skip_sign : Bytes → ℕ → Bool × ℕ
skip_sign m s =
    if m s == 43 then (false, s + 1) else if m s == 45 then (true, s + 1) else (false, s)

-- The prefix: the place and the base behind it.
pub skip_prefix : Bytes → ℕ → ℕ → ℕ × ℕ
skip_prefix m s base =
    if (base == 0 || (base == 16)) && (m s == 48) && (m (s + 1) == 120)
    then (s + 2, 16)
    else if (base == 0) && (m s == 48)
    then (s + 1, 8)
    else if base == 0
    then (s, 10)
    else (s, base)

-- `dig`, none for the characters that end the loop
pub digit_of : ℕ → Option ℕ
digit_of c =
    if leb 48 c && leb c 57
    then some (c - 48)
    else if leb 97 c && leb c 122
    then some (c - 97 + 10)
    else if leb 65 c && leb c 90
    then some (c - 65 + 10)
    else none

-- The digit at a place, none where the loop ends.
pub next_digit : ℕ → ℕ → Option ℕ
unfolding digit_of
next_digit base c = elim (digit_of c) [
  | none ↦ none
  | some dig ↦ if leb base dig then none else some dig
]

-- The loop over the digits: the value and the place behind them.
pub read_digits : ℕ → Bytes → ℕ → ℕ → ℕ → Option (ℕ × ℕ)
unfolding next_digit
read_digits zero m s base val = none
read_digits (suc fuel) m s base val = elim (next_digit base (m s)) [
  | none ↦ some (val, s)
  | some dig ↦ read_digits fuel m (s + 1) base ((val * base + dig) % 2 ^ 32)
]

-- `neg ? -val : val` behind the loop
pub signed_value : Bool → Option (ℕ × ℕ) → Option (ℕ × ℕ)
signed_value negative none = none
signed_value negative (some (val, s)) = some (if negative then (2 ^ 32 - val) % 2 ^ 32 else val, s)

-- What follows the white space.
pub read_number : ℕ → Bytes → ℕ → ℕ → Option (ℕ × ℕ)
unfolding skip_sign skip_prefix read_digits signed_value
read_number fuel m s base =
    let (negative, start) = skip_sign m s in
    let (first, base') = skip_prefix m start base in
    signed_value negative (read_digits fuel m first base' 0)

-- strtol: the value and what is stored in `*endptr`
pub strtol : ℕ → Bytes → ℕ → ℕ → Option (ℕ × ℕ)
unfolding skip_blanks read_number
strtol fuel m s base = elim (skip_blanks fuel m s) [
  | none ↦ none
  | some start ↦ read_number fuel m start base
]

-- `*string && strchr(SPLIT_CHARS, *string)`
pub is_split : ℕ → Bytes → ℕ → ℕ → Option Bool
is_split fuel m split_chars s = elim (m s == 0) [
  | true ↦ some false
  | false ↦ elim (strchr fuel m split_chars (m s)) [
    | none ↦ none
    | some none ↦ some false
    | some (some p) ↦ some true
  ]
]

-- The loop that puts null bytes over split characters.
pub trim : ℕ → Bytes → ℕ → ℕ → Option (Bytes × ℕ)
unfolding is_split
trim zero m split_chars s = none
trim (suc fuel) m split_chars s = elim (is_split fuel m split_chars s) [
  | none ↦ none
  | some true ↦ trim fuel (update m s 0) split_chars (s + 1)
  | some false ↦ some (m, s)
]

-- The loop that passes over an argument.
pub scan : ℕ → Bytes → ℕ → ℕ → Option ℕ
unfolding is_split
scan zero m split_chars s = none
scan (suc fuel) m split_chars s = elim (m s == 0) [
  | true ↦ some s
  | false ↦ elim (is_split fuel m split_chars s) [
    | none ↦ none
    | some true ↦ some s
    | some false ↦ scan fuel m split_chars (s + 1)
  ]
]

abbrev pub max_arguments : ℕ
max_arguments = 16

-- The arguments found, and the memory.
pub record Arguments : Type 0 where
  pub argv : ℕ → ℕ
  pub argc : ℕ
  pub memory : Bytes

-- The argument that begins at `s`.
pub add_argument : ℕ → Arguments → Arguments
add_argument s a = record a { argv = update a.argv a.argc s; argc = a.argc + 1 }

-- The loop of strsplit, and the returned value.
pub split_loop : ℕ → ℕ → ℕ → Arguments → Option (ℕ × Arguments)
unfolding trim scan add_argument
split_loop zero split_chars s a = none
split_loop (suc fuel) split_chars s a = elim (trim fuel a.memory split_chars s) [
  | none ↦ none
  | some (m, s') ↦
      let a' = record a { memory = m } in
      elim (m s' == 0) [
        | true ↦ some (1, record a' { argv = update a.argv a.argc 0 })
        | false ↦ elim (a.argc == max_arguments - 1) [
          | true ↦ some (0, a')
          | false ↦ elim (scan fuel m split_chars s') [
            | none ↦ none
            | some next ↦ split_loop fuel split_chars next (add_argument s' a')
          ]
        ]
      ]
]

-- strsplit
pub strsplit : ℕ → ℕ → ℕ → (ℕ → ℕ) → Bytes → Option (ℕ × Arguments)
unfolding split_loop
strsplit fuel string split_chars argv m =
    split_loop fuel split_chars string (record { argv = update argv 0 0; argc = 0; memory = m })
