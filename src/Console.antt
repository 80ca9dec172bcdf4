-- ===== src/Console.antt =====
-- The console of kern/console.c: the input buffer between the devices and the readers, the keyboard
-- driver and the text screen.
pub mod Ring
pub mod Keymap
pub mod Keyboard
pub mod Input
pub mod Screen
pub mod Printf
mod Tests
use fos_v.Base.{
  ℕ, zero, suc, ◌+◌, ◌-◌, ◌%◌, ◌^◌, Bool, true, false, Option, none, some, if◌then◌else◌, ◌==◌,
  update,
}
use fos_v.Int.{ℤ, pos, negsuc, eq_int}

abbrev pub consbufsize : ℕ
consbufsize = 512

-- The static `cons`.
pub record Cons : Type 0 where
  pub buf : ℕ → ℕ
  pub rpos : ℕ
  pub wpos : ℕ

-- an `int` stored as `uint8`
abbrev pub low_byte : ℤ → ℕ
low_byte (pos n) = n % 2 ^ 8
low_byte (negsuc n) = 2 ^ 8 - 1 - n % 2 ^ 8

-- One round of the loop of `cons_intr`, for a character that is neither -1 nor 0.
pub store : ℤ → Cons → Cons
store c cons =
    let wpos = cons.wpos + 1 in
    record cons {
      buf = update cons.buf cons.wpos (low_byte c);
      wpos = if wpos == consbufsize then 0 else wpos;
    }

-- What `cons_getc` does behind its two calls.
pub fetch : Cons → ℤ × Cons
fetch cons =
    if cons.rpos == cons.wpos
    then (pos 0, cons)
    else let rpos = cons.rpos + 1 in
      (pos (cons.buf cons.rpos), record cons { rpos = if rpos == consbufsize then 0 else rpos })

-- A driver takes the state of the devices and gives the next character, 0 for nothing, or -1.
module _ {D : Type 0} where
  -- `none` means that the fuel ran out.
  pub cons_intr : (D → ℤ × D) → ℕ → D → Cons → Option (D × Cons)
  unfolding store
  cons_intr proc zero d cons = none
  cons_intr proc (suc fuel) d cons =
      let (c, d') = proc d in
      elim (eq_int c (negsuc 0)) [
        | true ↦ some (d', cons)
        | false ↦ cons_intr proc fuel d' (if eq_int c (pos 0) then cons else store c cons)
      ]
