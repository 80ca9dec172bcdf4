-- ===== src/Console/Keyboard.antt =====
-- `kbd_proc_data` of kern/console.c. Reading and writing the ports is a parameter; the line that is
-- printed before a reboot is left out.
use fos_v.Base.{
  ℕ, ◌+◌, ◌-◌, ◌^◌, ◌<◌, ◌≡◌, inl, inr, refl, Bool-cases, not, ◌&&◌, arith, if◌then◌else◌, ◌==◌,
  leb, bit_and, bit_or, ==_ne, ◌≢◌,
}
use Prim.Native.Nat.{bit_xor}
use fos_v.Int.{ℤ, pos, negsuc}
use fos_v.Console.Keymap.{
  shift_flag, ctl, alt, capslock, e0esc, key_del, shiftcode, togglecode, charcode, charcode-lt,
}

-- Two's complement of a 32-bit word.
abbrev not32 : ℕ → ℕ
not32 a = 2 ^ 32 - 1 - a

-- Caps lock swaps the case of a letter.
swap_case : ℕ → ℕ
swap_case c = if leb 97 c && leb c 122 then c - 32 else if leb 65 c && leb c 90 then c + 32 else c

module _ {D : Type 0} (inb : ℕ → D → ℕ × D) (outb : ℕ → ℕ → D → D) where
  -- The devices, and the static `shift`.
  pub record Keyboard : Type 0 where
    pub ports : D
    pub shift : ℕ

  -- A key was pressed: the code is looked up under the flags that it changes first.
  press : ℕ → Keyboard → ℤ × Keyboard
  unfolding swap_case
  press code k =
      let shift = bit_xor (bit_or k.shift (shiftcode code)) (togglecode code) in
      let c = charcode (bit_and shift (bit_or ctl shift_flag)) code in
      let c' = if bit_and shift capslock == 0 then c else swap_case c in
      let reboot = bit_and (not32 shift) (bit_or ctl alt) == 0 && (c' == key_del) in
      (pos c', record { ports = if reboot then outb 0x92 0x3 k.ports else k.ports; shift = shift })

  -- The part behind the read of the data port.
  scan : ℕ → Keyboard → ℤ × Keyboard
  unfolding press
  scan code k =
      if code == 0xe0
      then (pos 0, record k { shift = bit_or k.shift e0esc })
      else if not (bit_and code 0x80 == 0)
      then (let code' = if bit_and k.shift e0esc == 0 then bit_and code 0x7f else code in
          (pos 0, record k { shift = bit_and k.shift (not32 (bit_or (shiftcode code') e0esc)) }))
      else if not (bit_and k.shift e0esc == 0)
      then press (bit_or code 0x80) (record k { shift = bit_and k.shift (not32 e0esc) })
      else press code k

  unfoldable pub kbd_proc_data : Keyboard → ℤ × Keyboard
  unfolding scan
  kbd_proc_data k =
      let (status, d) = inb 0x64 k.ports in
      if bit_and status 0x01 == 0
      then (negsuc 0, record k { ports = d })
      else let (code, d') = inb 0x60 d in scan code (record k { ports = d' })

  abbrev pub IsByte : ℤ → Type 0
  IsByte c = (n : ℕ) × (c ≡ pos n) × (n < 256)

  swap_case-lt : (c : ℕ) → c < 256 → swap_case c < 256
  unfolding swap_case
  swap_case-lt c h = ground arith

  press-IsByte : (code : ℕ) (k : Keyboard) → IsByte (press code k).0
  unfolding press
  press-IsByte code k =
      let shift = bit_xor (bit_or k.shift (shiftcode code)) (togglecode code) in
      let c = charcode (bit_and shift (bit_or ctl shift_flag)) code in
      let small = charcode-lt (bit_and shift (bit_or ctl shift_flag)) code in
      (
        (if bit_and shift capslock == 0 then c else swap_case c),
        refl,
        ground (arith, small, swap_case-lt c),
      )

  scan-IsByte : (code : ℕ) (k : Keyboard) → IsByte (scan code k).0
  unfolding scan
  scan-IsByte code k = elim (Bool-cases (code == 0xe0)) [
    | inl escape ↦ rw escape (0, refl, omega arith)
    | inr plain ↦ elim (Bool-cases (bit_and code 0x80 == 0)) [
      | inl down ↦ elim (Bool-cases (bit_and k.shift e0esc == 0)) [
        | inl near ↦ rw (plain, down, near) (press-IsByte code k)
        | inr far ↦
            rw (plain, down, far)
              (press-IsByte (bit_or code 0x80) (record k { shift = bit_and k.shift (not32 e0esc) }))
      ]
      | inr up ↦ rw (plain, up) (0, refl, omega arith)
    ]
  ]

  -- `kbd_proc_data` gives -1 exactly if the status port says that no data is there; otherwise what
  -- it gives is a byte, so `cons_intr` stores it unchanged.
  pub kbd_proc_data-IsByte :
      (k : Keyboard)
      → let status = (inb 0x64 k.ports).0 in
        (bit_and status 0x01 ≡ 0 → (kbd_proc_data k).0 ≡ negsuc 0)
        × (bit_and status 0x01 ≢ 0 → IsByte (kbd_proc_data k).0)
  unfolding kbd_proc_data
  kbd_proc_data-IsByte k =
      let (code, d') = inb 0x60 (inb 0x64 k.ports).1 in
      (
        λ none_there. rw none_there refl,
        λ there. rw (==_ne _ 0 there) (scan-IsByte code (record k { ports = d' })),
      )
