-- ===== src/Console/Screen.antt =====
-- The text screen: `cga_putc` and `cons_putc` of kern/console.c. A character is the 32-bit
-- word of an `int`, with its attribute in the higher bits. The printer gets every character in
-- `lpt_putc`, and the cursor registers of the display are what `outb` last stored there.
use fos_v.Base.{
  ℕ, ◌+◌, ◌-◌, ◌*◌, ◌/◌, ◌%◌, ◌^◌, ◌≤◌, ◌<◌, ◌≡◌, inl, inr, ◌∙◌, Bool-cases, arith, List, ◌∷◌,
  if◌then◌else◌, ◌==◌, leb, ltb, bit_and, bit_or, update,
}

abbrev pub crt_cols : ℕ
crt_cols = 80

abbrev pub crt_size : ℕ
crt_size = 25 * 80

pub record Screen : Type 0 where
  pub crt_buf : ℕ → ℕ
  pub crt_pos : ℕ
  -- the registers 14 and 15 of the display controller
  pub cursor_high : ℕ
  pub cursor_low : ℕ
  -- the bytes sent to the parallel port, the last one first
  pub printed : List ℕ

-- `memcpy` of all rows but the first, and blanks in the last one.
scrolled : (ℕ → ℕ) → ℕ → ℕ
scrolled buf i =
    if ltb i (crt_size - crt_cols)
    then buf (i + crt_cols)
    else if ltb i crt_size
    then bit_or 0x0700 32
    else buf i

-- The part of `cga_putc` behind the switch.
settle : Screen → Screen
unfolding scrolled
settle s =
    let over = leb crt_size s.crt_pos in
    let pos = if over then s.crt_pos - crt_cols else s.crt_pos in
    record s {
      crt_buf = if over then scrolled s.crt_buf else s.crt_buf;
      crt_pos = pos;
      cursor_high = pos / 2 ^ 8 % 2 ^ 8;
      cursor_low = pos % 2 ^ 8;
    }

-- `if (!(c & ~0xFF)) c |= 0x0700`
with_attribute : ℕ → ℕ
with_attribute c = if leb c 0xff then bit_or c 0x0700 else c

-- The switch for all characters but the tab; `crt_pos` is a `uint16`.
place : ℕ → Screen → Screen
place c s =
    let low = bit_and c 0xff in
    if low == 8
    then (if ltb 0 s.crt_pos
        then record s {
          crt_pos = s.crt_pos - 1;
          crt_buf =
              update s.crt_buf (s.crt_pos - 1) (bit_or (bit_and c (2 ^ 32 - 1 - 0xff)) 32 % 2 ^ 16);
        }
        else s)
    else if low == 10
    then (let pos = (s.crt_pos + crt_cols) % 2 ^ 16 in record s { crt_pos = pos - pos % crt_cols })
    else if low == 13
    then record s { crt_pos = s.crt_pos - s.crt_pos % crt_cols }
    else record s {
      crt_buf = update s.crt_buf s.crt_pos (c % 2 ^ 16);
      crt_pos = (s.crt_pos + 1) % 2 ^ 16;
    }

lpt_putc : ℕ → Screen → Screen
lpt_putc c s = record s { printed = (c % 2 ^ 8) ∷ s.printed }

-- `cons_putc(' ')`, which meets no tab
put_space : Screen → Screen
unfolding lpt_putc settle place with_attribute
put_space s = settle (place (with_attribute 32) (lpt_putc 32 s))

pub cga_putc : ℕ → Screen → Screen
unfolding put_space
cga_putc c s =
    let c' = with_attribute c in
    if bit_and c' 0xff == 9
    then settle (put_space (put_space (put_space (put_space (put_space s)))))
    else settle (place c' s)

pub cons_putc : ℕ → Screen → Screen
unfolding lpt_putc cga_putc
cons_putc c s = cga_putc c (lpt_putc c s)

-- The cursor is on the screen, so that the next character is written into the buffer.
abbrev pub OnScreen : Screen → Type 0
OnScreen s = s.crt_pos < 2000

-- The registers of the display controller show the position.
abbrev pub ShowsCursor : Screen → Type 0
ShowsCursor s = s.cursor_high * 256 + s.cursor_low ≡ s.crt_pos

-- Nothing behind the buffer is written.
abbrev Inside : Screen → Screen → Type 0
Inside s s' = (i : ℕ) → 2000 ≤ i → s'.crt_buf i ≡ s.crt_buf i

abbrev Kept : Screen → Screen → Type 0
Kept s s' = OnScreen s' × ShowsCursor s' × Inside s s'

settle-Kept : (s s' : Screen) → s'.crt_pos < 2080 → Inside s s' → Kept s (settle s')
unfolding settle scrolled
settle-Kept s s' h inside = (ground arith, ground arith, λ i out. ground (arith, inside i))

place-bound : (c : ℕ) (s : Screen) → OnScreen s → (place c s).crt_pos < 2080
unfolding place
place-bound c s h = ground arith

place-Inside : (c : ℕ) (s : Screen) → OnScreen s → Inside s (place c s)
unfolding place
place-Inside c s h i out = ground arith

placed : (c : ℕ) (s : Screen) → OnScreen s → Kept s (settle (place c s))
placed c s h = settle-Kept s (place c s) (place-bound c s h) (place-Inside c s h)

put_space-Kept : (s : Screen) → OnScreen s → Kept s (put_space s)
unfolding put_space lpt_putc
put_space-Kept s h = placed (with_attribute 32) (lpt_putc 32 s) h

put_space_again : (s s' : Screen) → Kept s s' → Kept s (put_space s')
put_space_again s s' k =
    let (on, shows, inside) = put_space-Kept s' k.0 in
    (on, shows, λ i out. inside i out ∙ k.2 i out)

tab-Kept :
    (s : Screen)
    → OnScreen s
    → Kept s (settle (put_space (put_space (put_space (put_space (put_space s))))))
tab-Kept s h =
    let four =
      put_space_again s _ (put_space_again s _ (put_space_again s _ (put_space-Kept s h))) in
    let five = put_space_again s _ four in settle-Kept s _ (omega (arith, five.0)) five.2

-- With the cursor on the screen, `cga_putc` of any character leaves it there, shows its position in
-- the registers of the display, and writes to no place behind the buffer.
pub cga_putc-Kept :
    (c : ℕ) (s : Screen)
    → s.crt_pos < 2000
    → ((cga_putc c s).crt_pos < 2000)
      × ((cga_putc c s).cursor_high * 256 + (cga_putc c s).cursor_low ≡ (cga_putc c s).crt_pos)
      × ((i : ℕ) → 2000 ≤ i → (cga_putc c s).crt_buf i ≡ s.crt_buf i)
unfolding cga_putc
cga_putc-Kept c s h = elim (Bool-cases (bit_and (with_attribute c) 0xff == 9)) [
  | inl tab ↦ rw tab (tab-Kept s h)
  | inr other ↦ rw other (placed (with_attribute c) s h)
]

pub cons_putc-Kept :
    (c : ℕ) (s : Screen)
    → s.crt_pos < 2000
    → ((cons_putc c s).crt_pos < 2000)
      × ((cons_putc c s).cursor_high * 256 + (cons_putc c s).cursor_low ≡ (cons_putc c s).crt_pos)
      × ((i : ℕ) → 2000 ≤ i → (cons_putc c s).crt_buf i ≡ s.crt_buf i)
unfolding cons_putc lpt_putc
cons_putc-Kept c s h = cga_putc-Kept c (lpt_putc c s) h

-- When the cursor leaves the last row the text moves up by one row, the last row is blank, and the
-- cursor is at its start.
pub cga_putc-scroll :
    (s : Screen)
    → 1920 ≤ s.crt_pos
    → s.crt_pos < 2000
    → let s' = cga_putc 10 s in
      (s'.crt_pos ≡ 1920)
      × ((i : ℕ) → i < 1920 → s'.crt_buf i ≡ s.crt_buf (i + 80))
      × ((i : ℕ) → 1920 ≤ i → i < 2000 → s'.crt_buf i ≡ 0x0720)
unfolding cga_putc settle place with_attribute scrolled
cga_putc-scroll s low high = (ground arith, λ i h. ground arith, λ i h k. ground arith)
