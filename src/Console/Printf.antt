-- ===== src/Console/Printf.antt =====
-- The kernel's `vcprintf` and `cprintf` of kern/printf.c, with `cputchar` of kern/console.c.
-- `putch` writes `*cnt++`, which moves its own copy of the pointer, so `cnt` stays 0.
use fos_v.Base.{ℕ, ◌+◌, ◌*◌, ◌≤◌, ◌<◌, ◌≡◌, refl, ap, ◌∙◌, List, [], ◌∷◌}
use fos_v.Int.{pos}
use fos_v.Console.Screen.{Screen, cons_putc, cons_putc-Kept}
use fos_v.Format.Print.{Arg, Printed, printed, vprintfmt}
use fos_v.Format.Snprint.{Formatted, returned}

pub cputchar : ℕ → Screen → Screen
cputchar c s = cons_putc c s

-- The local `cnt` of `vcprintf` and the screen.
putch : ℕ → ℕ × Screen → ℕ × Screen
unfolding cputchar
putch ch (cnt, s) = (cnt, cputchar ch s)

show_all : List ℕ → ℕ × Screen → ℕ × Screen
unfolding putch
show_all [] r = r
show_all (c ∷ cs) r = show_all cs (putch c r)

finish_count : Printed → Screen → Formatted Screen
unfolding show_all
finish_count (printed cs args) s = let (cnt, s') = show_all cs (0, s) in returned (pos cnt) s'
finish_count Printed.undefined s = Formatted.undefined
finish_count Printed.no_fuel s = Formatted.no_fuel

pub vcprintf : ℕ → List ℕ → List Arg → Screen → Formatted Screen
unfolding finish_count
vcprintf fuel fmt args s = finish_count (vprintfmt fuel fmt args) s

abbrev Kept : Screen → Screen → Type 0
Kept s s' =
    (s'.crt_pos < 2000)
    × (s'.cursor_high * 256 + s'.cursor_low ≡ s'.crt_pos)
    × ((i : ℕ) → 2000 ≤ i → s'.crt_buf i ≡ s.crt_buf i)

cputchar-Kept : (c : ℕ) (s s' : Screen) → Kept s s' → Kept s (cputchar c s')
unfolding cputchar
cputchar-Kept c s s' k =
    let (on, shows, inside) = cons_putc-Kept c s' k.0 in
    (on, shows, λ i out. inside i out ∙ k.2 i out)

show_all-Kept :
    (cs : List ℕ) (cnt : ℕ) (s s' : Screen)
    → Kept s s'
    → ((show_all cs (cnt, s')).0 ≡ cnt) × Kept s (show_all cs (cnt, s')).1
unfolding show_all putch
show_all-Kept [] cnt s s' k = (refl, k)
show_all-Kept (c ∷ cs) cnt s s' k = show_all-Kept cs cnt s (cputchar c s') (cputchar-Kept c s s' k)

-- Whatever characters `vprintfmt` gives to `putch`, the kernel's `vcprintf` returns 0 and not their
-- number. The cursor stays on the screen and in the registers of the display, and no place behind
-- the buffer is written.
pub vcprintf-Kept :
    (fuel : ℕ) (fmt cs : List ℕ) (args rest : List Arg) (s : Screen)
    → s.crt_pos < 2000
    → s.cursor_high * 256 + s.cursor_low ≡ s.crt_pos
    → vprintfmt fuel fmt args ≡ printed cs rest
    → (s' : Screen) × (vcprintf fuel fmt args s ≡ returned (pos 0) s')
      × (s'.crt_pos < 2000)
      × (s'.cursor_high * 256 + s'.cursor_low ≡ s'.crt_pos)
      × ((i : ℕ) → 2000 ≤ i → s'.crt_buf i ≡ s.crt_buf i)
unfolding vcprintf finish_count
vcprintf-Kept fuel fmt cs args rest s on shows run =
    let (none_counted, kept) = show_all-Kept cs 0 s s (on, shows, λ i out. refl) in
    (
      (show_all cs (0, s)).1,
      rw (vcprintf, run, finish_count)
          (ap (λ n. returned (pos n) (show_all cs (0, s)).1) none_counted),
      kept.0,
      kept.1,
      kept.2,
    )
