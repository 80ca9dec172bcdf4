-- ===== src/Console/Input.antt =====
-- `serial_proc_data`, `serial_intr`, `kbd_intr`, `cons_getc` and `getchar` of kern/console.c, and
-- `sys_cgetc` of kern/syscall.c, which has the same loop. Reading and writing the ports is a
-- parameter.
use fos_v.Base.{
  ℕ, zero, suc, ◌+◌, ◌<◌, ◌≡◌, ap, Bool, true, false, Option, none, some, List, ◌++◌, length,
  if◌then◌else◌, ◌==◌, bit_and,
}
use fos_v.Int.{ℤ, pos, negsuc, eq_int}
use fos_v.Console.{Cons, fetch, cons_intr}
use fos_v.Console.Keyboard.{Keyboard, kbd_proc_data}
use fos_v.Console.Ring.{Holds, Gives, typed, first, rest, fetch-Holds, cons_intr-Holds}

module _ {A B : Type 0} where
  infixl 5 ◌>>=◌
  abbrev ◌>>=◌ : Option A → (A → Option B) → Option B
  none >>= k = none
  some a >>= k = k a

module _ {D : Type 0} (inb : ℕ → D → ℕ × D) (outb : ℕ → ℕ → D → D) where
  unfoldable pub serial_proc_data : Keyboard inb outb → ℤ × Keyboard inb outb
  serial_proc_data k =
      let (status, d) = inb 0x3fd k.ports in
      if bit_and status 0x01 == 0
      then (negsuc 0, record k { ports = d })
      else let (c, d') = inb 0x3f8 d in (pos c, record k { ports = d' })

  -- The boolean is the static `serial_exists`.
  pub serial_intr : Bool → ℕ → Keyboard inb outb → Cons → Option (Keyboard inb outb × Cons)
  unfolding serial_proc_data
  serial_intr true fuel k cons = cons_intr serial_proc_data fuel k cons
  serial_intr false fuel k cons = some (k, cons)

  pub kbd_intr : ℕ → Keyboard inb outb → Cons → Option (Keyboard inb outb × Cons)
  kbd_intr fuel k cons = cons_intr (kbd_proc_data inb outb) fuel k cons

  pub cons_getc : Bool → ℕ → Keyboard inb outb → Cons → Option (ℤ × Keyboard inb outb × Cons)
  unfolding serial_intr kbd_intr
  cons_getc serial_exists fuel k cons = do
    (k1, cons1) ← serial_intr serial_exists fuel k cons
    (k2, cons2) ← kbd_intr fuel k1 cons1
    let (c, cons3) = fetch cons2
    some (c, k2, cons3)

  -- `rounds` bounds the busy waiting.
  pub getchar : Bool → ℕ → ℕ → Keyboard inb outb → Cons → Option (ℤ × Keyboard inb outb × Cons)
  unfolding cons_getc
  getchar serial_exists zero fuel k cons = none
  getchar serial_exists (suc rounds) fuel k cons = do
    (c, k', cons') ← cons_getc serial_exists fuel k cons
    if eq_int c (pos 0) then getchar serial_exists rounds fuel k' cons' else some (c, k', cons')

  -- If the serial port and the keyboard have characters `serial` and `keys` waiting that fit into
  -- the buffer, `cons_getc` ends, gives the first character of all, 0 if there is none, and leaves
  -- the others in the buffer: first what was waiting, then the serial port's, then the keyboard's.
  pub cons_getc-Holds :
      (fuel : ℕ) (k k1 k2 : Keyboard inb outb) (cons : Cons) (xs : List ℕ) (serial keys : List ℤ)
      → Holds cons xs
      → Gives serial_proc_data k serial k1
      → Gives (kbd_proc_data inb outb) k1 keys k2
      → length serial < fuel
      → length keys < fuel
      → length xs + length (typed serial) < 512
      → length (xs ++ typed serial) + length (typed keys) < 512
      → let all = (xs ++ typed serial) ++ typed keys in
        (cons' : Cons) × (cons_getc true fuel k cons ≡ some (pos (first all), k2, cons'))
        × Holds cons' (rest all)
  unfolding cons_getc serial_intr kbd_intr
  cons_getc-Holds fuel k k1 k2 cons xs serial keys h g1 g2 f1 f2 r1 r2 =
      let all = (xs ++ typed serial) ++ typed keys in
      let (cons1, run1, h1) =
        cons_intr-Holds serial_proc_data fuel k k1 cons xs serial g1 h r1 f1 in
      let (cons2, run2, h2) =
        cons_intr-Holds (kbd_proc_data inb outb) fuel k1 k2 cons1 (xs ++ typed serial) keys g2 h1 r2
          f2 in
      let (c, h3) = fetch-Holds cons2 all h2 in
      ((fetch cons2).1, rw (run1, run2) (ap (λ c. some (c, k2, (fetch cons2).1)) c), h3)
