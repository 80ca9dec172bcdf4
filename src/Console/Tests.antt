-- ===== src/Console/Tests.antt =====
-- The console with devices that give a fixed list of port reads.
use fos_v.Base.{ℕ, ◌+◌, ◌*◌, ◌≤◌, ◌<◌, ◌≡◌, refl, true, some, List, [], ◌∷◌, arith}
use fos_v.Int.{ℤ, pos, negsuc}
use fos_v.Console.{Cons}
use fos_v.Console.Ring.{Holds, Gives, done, char, typed}
use fos_v.Console.Keyboard.{Keyboard, kbd_proc_data}
use fos_v.Console.Input.{serial_proc_data, cons_getc, cons_getc-Holds}
use fos_v.Console.Printf.{vcprintf, vcprintf-Kept}
use fos_v.Format.Print.{printed, vprintfmt}
use fos_v.Format.Snprint.{returned}
use fos_v.Console.Screen.{Screen}

-- One character waits in the last place of the array.
abbrev waiting : Cons
waiting = record { buf = λ _. 66; rpos = 511; wpos = 0 }

waiting-Holds : Holds waiting (66 ∷ [])
waiting-Holds = record {
  start = omega arith;
  stop = refl;
  fits = omega arith;
  waiting = λ i below. ground arith;
}

abbrev script : List ℤ → ℤ × List ℤ
script [] = (negsuc 0, [])
script (c ∷ cs) = (c, cs)

abbrev three : List ℤ
three = pos 67 ∷ pos 0 ∷ pos 68 ∷ []

three-Gives : Gives script three three []
three-Gives = char refl refl (char refl refl (char refl refl (done refl)))

-- Each read of a port gives the next number of the list.
abbrev inb : ℕ → List ℕ → ℕ × List ℕ
inb port [] = (0, [])
inb port (x ∷ xs) = (x, xs)

abbrev outb : ℕ → ℕ → List ℕ → List ℕ
outb port value xs = xs

-- The serial port has an A.
abbrev devices : List ℕ → Keyboard inb outb
devices reads = record { ports = reads; shift = 0 }

serial-Gives :
    Gives
      (serial_proc_data inb outb)
      (devices (1 ∷ 65 ∷ 0 ∷ 0 ∷ []))
      (pos 65 ∷ [])
      (devices (0 ∷ []))
unfolding serial_proc_data
serial-Gives = char refl refl (done refl)

kbd-Gives : Gives (kbd_proc_data inb outb) (devices (0 ∷ [])) [] (devices [])
unfolding kbd_proc_data
kbd-Gives = done refl

cons_getc-Holds_example :
    (cons : Cons) × (cons_getc inb outb true 3 (devices (1 ∷ 65 ∷ 0 ∷ 0 ∷ [])) waiting
      ≡ some (pos 66, devices [], cons))
    × Holds cons (65 ∷ [])
unfolding typed
cons_getc-Holds_example =
    cons_getc-Holds inb outb 3 (devices (1 ∷ 65 ∷ 0 ∷ 0 ∷ [])) (devices (0 ∷ [])) (devices [])
      waiting (66 ∷ []) (pos 65 ∷ []) [] waiting-Holds serial-Gives kbd-Gives (omega arith)
      (omega arith) (omega arith) (omega arith)

abbrev last_row : Screen
last_row = record {
  crt_buf = λ i. i;
  crt_pos = 1999;
  cursor_high = 7;
  cursor_low = 207;
  printed = [];
}

two_bytes : vprintfmt 30 (9 ∷ 10 ∷ []) [] ≡ printed (9 ∷ 10 ∷ []) []
unfolding vprintfmt
two_bytes = refl

vcprintf-Kept_example :
    (s' : Screen) × (vcprintf 30 (9 ∷ 10 ∷ []) [] last_row ≡ returned (pos 0) s')
    × (s'.crt_pos < 2000)
    × (s'.cursor_high * 256 + s'.cursor_low ≡ s'.crt_pos)
    × ((i : ℕ) → 2000 ≤ i → s'.crt_buf i ≡ i)
vcprintf-Kept_example =
    vcprintf-Kept 30 (9 ∷ 10 ∷ []) (9 ∷ 10 ∷ []) [] [] last_row (omega arith) (omega arith)
      two_bytes
