-- ===== src/Console/Keymap.antt =====
-- The tables of the keyboard driver in kern/console.c, from scan codes to flags and characters.
use fos_v.Base.{
  Bool-cases, inl, inr, ℕ, zero, suc, ◌<◌, ◌≡◌, refl, arith, ltb, ◌&&◌, Bool, List, [], ◌∷◌,
  if◌then◌else◌, ◌==◌, get_or,
}

abbrev pub shift_flag : ℕ
shift_flag = 0x01

abbrev pub ctl : ℕ
ctl = 0x02

abbrev pub alt : ℕ
alt = 0x04

abbrev pub capslock : ℕ
capslock = 0x08

abbrev pub numlock : ℕ
numlock = 0x10

abbrev pub scrolllock : ℕ
scrolllock = 0x20

abbrev pub e0esc : ℕ
e0esc = 0x40

abbrev pub key_del : ℕ
key_del = 0xe9

-- The entries with a designator; `others` gives the remaining ones.
pub designated : List (ℕ × ℕ) → (ℕ → ℕ) → ℕ → ℕ
designated [] others code = others code
designated (e ∷ es) others code = if e.0 == code then e.1 else designated es others code

pub shiftcode : ℕ → ℕ
unfolding designated
shiftcode =
    designated
      ((0x1d, ctl)
        ∷ (0x2a, shift_flag)
        ∷ (0x36, shift_flag)
        ∷ (0x38, alt)
        ∷ (0x9d, ctl)
        ∷ (0xb8, alt)
        ∷ [])
      (λ _. 0)

pub togglecode : ℕ → ℕ
unfolding designated
togglecode = designated ((0x3a, capslock) ∷ (0x45, numlock) ∷ (0x46, scrolllock) ∷ []) (λ _. 0)

normalmap_row : List ℕ
normalmap_row =
    0x0 ∷ 0x1b ∷ 0x31 ∷ 0x32 ∷ 0x33 ∷ 0x34 ∷ 0x35 ∷ 0x36 ∷ 0x37 ∷ 0x38 ∷ 0x39 ∷ 0x30 ∷ 0x2d ∷ 0x3d
    ∷ 0x8 ∷ 0x9 ∷ 0x71 ∷ 0x77 ∷ 0x65 ∷ 0x72 ∷ 0x74 ∷ 0x79 ∷ 0x75 ∷ 0x69 ∷ 0x6f ∷ 0x70 ∷ 0x5b ∷ 0x5d
    ∷ 0xa ∷ 0x0 ∷ 0x61 ∷ 0x73 ∷ 0x64 ∷ 0x66 ∷ 0x67 ∷ 0x68 ∷ 0x6a ∷ 0x6b ∷ 0x6c ∷ 0x3b ∷ 0x27 ∷ 0x60
    ∷ 0x0 ∷ 0x5c ∷ 0x7a ∷ 0x78 ∷ 0x63 ∷ 0x76 ∷ 0x62 ∷ 0x6e ∷ 0x6d ∷ 0x2c ∷ 0x2e ∷ 0x2f ∷ 0x0 ∷ 0x2a
    ∷ 0x0 ∷ 0x20 ∷ 0x0 ∷ 0x0 ∷ 0x0 ∷ 0x0 ∷ 0x0 ∷ 0x0 ∷ 0x0 ∷ 0x0 ∷ 0x0 ∷ 0x0 ∷ 0x0 ∷ 0x0 ∷ 0x0
    ∷ 0x37 ∷ 0x38 ∷ 0x39 ∷ 0x2d ∷ 0x34 ∷ 0x35 ∷ 0x36 ∷ 0x2b ∷ 0x31 ∷ 0x32 ∷ 0x33 ∷ 0x30 ∷ 0x2e ∷ 0x0
    ∷ 0x0 ∷ 0x0 ∷ 0x0 ∷ []

normalmap_far : List (ℕ × ℕ)
normalmap_far =
    (0x97, 0xe0)
    ∷ (0x9c, 0xa)
    ∷ (0xb5, 0x2f)
    ∷ (0xc8, 0xe2)
    ∷ (0xc9, 0xe6)
    ∷ (0xcb, 0xe4)
    ∷ (0xcd, 0xe5)
    ∷ (0xcf, 0xe1)
    ∷ (0xd0, 0xe3)
    ∷ (0xd1, 0xe7)
    ∷ (0xd2, 0xe8)
    ∷ (0xd3, 0xe9)
    ∷ []

pub normalmap : ℕ → ℕ
unfolding normalmap_row normalmap_far designated
normalmap = designated normalmap_far (λ code. get_or normalmap_row code 0)

shiftmap_row : List ℕ
shiftmap_row =
    0x0 ∷ 0x1b ∷ 0x21 ∷ 0x40 ∷ 0x23 ∷ 0x24 ∷ 0x25 ∷ 0x5e ∷ 0x26 ∷ 0x2a ∷ 0x28 ∷ 0x29 ∷ 0x5f ∷ 0x2b
    ∷ 0x8 ∷ 0x9 ∷ 0x51 ∷ 0x57 ∷ 0x45 ∷ 0x52 ∷ 0x54 ∷ 0x59 ∷ 0x55 ∷ 0x49 ∷ 0x4f ∷ 0x50 ∷ 0x7b ∷ 0x7d
    ∷ 0xa ∷ 0x0 ∷ 0x41 ∷ 0x53 ∷ 0x44 ∷ 0x46 ∷ 0x47 ∷ 0x48 ∷ 0x4a ∷ 0x4b ∷ 0x4c ∷ 0x3a ∷ 0x22 ∷ 0x7e
    ∷ 0x0 ∷ 0x7c ∷ 0x5a ∷ 0x58 ∷ 0x43 ∷ 0x56 ∷ 0x42 ∷ 0x4e ∷ 0x4d ∷ 0x3c ∷ 0x3e ∷ 0x3f ∷ 0x0 ∷ 0x2a
    ∷ 0x0 ∷ 0x20 ∷ 0x0 ∷ 0x0 ∷ 0x0 ∷ 0x0 ∷ 0x0 ∷ 0x0 ∷ 0x0 ∷ 0x0 ∷ 0x0 ∷ 0x0 ∷ 0x0 ∷ 0x0 ∷ 0x0
    ∷ 0x37 ∷ 0x38 ∷ 0x39 ∷ 0x2d ∷ 0x34 ∷ 0x35 ∷ 0x36 ∷ 0x2b ∷ 0x31 ∷ 0x32 ∷ 0x33 ∷ 0x30 ∷ 0x2e ∷ 0x0
    ∷ 0x0 ∷ 0x0 ∷ 0x0 ∷ []

shiftmap_far : List (ℕ × ℕ)
shiftmap_far =
    (0x97, 0xe0)
    ∷ (0x9c, 0xa)
    ∷ (0xb5, 0x2f)
    ∷ (0xc8, 0xe2)
    ∷ (0xc9, 0xe6)
    ∷ (0xcb, 0xe4)
    ∷ (0xcd, 0xe5)
    ∷ (0xcf, 0xe1)
    ∷ (0xd0, 0xe3)
    ∷ (0xd1, 0xe7)
    ∷ (0xd2, 0xe8)
    ∷ (0xd3, 0xe9)
    ∷ []

pub shiftmap : ℕ → ℕ
unfolding shiftmap_row shiftmap_far designated
shiftmap = designated shiftmap_far (λ code. get_or shiftmap_row code 0)

ctlmap_row : List ℕ
ctlmap_row =
    0x0 ∷ 0x0 ∷ 0x0 ∷ 0x0 ∷ 0x0 ∷ 0x0 ∷ 0x0 ∷ 0x0 ∷ 0x0 ∷ 0x0 ∷ 0x0 ∷ 0x0 ∷ 0x0 ∷ 0x0 ∷ 0x0 ∷ 0x0
    ∷ 0x11 ∷ 0x17 ∷ 0x5 ∷ 0x12 ∷ 0x14 ∷ 0x19 ∷ 0x15 ∷ 0x9 ∷ 0xf ∷ 0x10 ∷ 0x0 ∷ 0x0 ∷ 0xd ∷ 0x0 ∷ 0x1
    ∷ 0x13 ∷ 0x4 ∷ 0x6 ∷ 0x7 ∷ 0x8 ∷ 0xa ∷ 0xb ∷ 0xc ∷ 0x0 ∷ 0x0 ∷ 0x0 ∷ 0x0 ∷ 0x1c ∷ 0x1a ∷ 0x18
    ∷ 0x3 ∷ 0x16 ∷ 0x2 ∷ 0xe ∷ 0xd ∷ 0x0 ∷ 0x0 ∷ 0xef ∷ 0x0 ∷ 0x0 ∷ []

ctlmap_far : List (ℕ × ℕ)
ctlmap_far =
    (0x97, 0xe0)
    ∷ (0xb5, 0xef)
    ∷ (0xc8, 0xe2)
    ∷ (0xc9, 0xe6)
    ∷ (0xcb, 0xe4)
    ∷ (0xcd, 0xe5)
    ∷ (0xcf, 0xe1)
    ∷ (0xd0, 0xe3)
    ∷ (0xd1, 0xe7)
    ∷ (0xd2, 0xe8)
    ∷ (0xd3, 0xe9)
    ∷ []

pub ctlmap : ℕ → ℕ
unfolding ctlmap_row ctlmap_far designated
ctlmap = designated ctlmap_far (λ code. get_or ctlmap_row code 0)

-- `charcode[i][code]`
pub charcode : ℕ → ℕ → ℕ
unfolding normalmap shiftmap ctlmap
charcode i code = if i == 0 then normalmap code else if i == 1 then shiftmap code else ctlmap code

-- Every entry of a list is a byte.
all_bytes : List ℕ → Bool
all_bytes [] = Bool.true
all_bytes (x ∷ xs) = ltb x 256 && all_bytes xs

all_far_bytes : List (ℕ × ℕ) → Bool
all_far_bytes [] = Bool.true
all_far_bytes (e ∷ es) = ltb e.1 256 && all_far_bytes es

get_or-lt : (xs : List ℕ) (i : ℕ) → all_bytes xs ≡ Bool.true → get_or xs i 0 < 256
unfolding all_bytes
get_or-lt [] i h = omega arith
get_or-lt (x ∷ xs) zero h = ground arith
get_or-lt (x ∷ xs) (suc i) h = ground (arith, get_or-lt xs i)

designated-lt :
    (es : List (ℕ × ℕ)) (others : ℕ → ℕ) (code : ℕ)
    → all_far_bytes es ≡ Bool.true
    → others code < 256
    → designated es others code < 256
unfolding all_far_bytes designated
designated-lt [] others code h o = o
designated-lt (e ∷ es) others code h o = ground (arith, designated-lt es others code)

table-lt :
    (row : List ℕ) (far : List (ℕ × ℕ)) (code : ℕ)
    → all_bytes row ≡ Bool.true
    → all_far_bytes far ≡ Bool.true
    → designated far (λ c. get_or row c 0) code < 256
table-lt row far code r f = designated-lt far (λ c. get_or row c 0) code f (get_or-lt row code r)

normalmap-lt : (code : ℕ) → normalmap code < 256
unfolding normalmap normalmap_row normalmap_far all_bytes all_far_bytes
normalmap-lt code = table-lt normalmap_row normalmap_far code refl refl

shiftmap-lt : (code : ℕ) → shiftmap code < 256
unfolding shiftmap shiftmap_row shiftmap_far all_bytes all_far_bytes
shiftmap-lt code = table-lt shiftmap_row shiftmap_far code refl refl

ctlmap-lt : (code : ℕ) → ctlmap code < 256
unfolding ctlmap ctlmap_row ctlmap_far all_bytes all_far_bytes
ctlmap-lt code = table-lt ctlmap_row ctlmap_far code refl refl

pub charcode-lt : (i code : ℕ) → charcode i code < 256
unfolding charcode
charcode-lt i code = elim (Bool-cases (i == 0)) [
  | inl first ↦ rw first (normalmap-lt code)
  | inr later ↦ elim (Bool-cases (i == 1)) [
    | inl second ↦ rw (later, second) (shiftmap-lt code)
    | inr others ↦ rw (later, others) (ctlmap-lt code)
  ]
]
