-- ===== src/Format/Snprint.antt =====
-- `vsnprintf` of lib/printfmt.c over the bytes of memory; an address of 0 is NULL. `cnt` does not
-- overflow, and neither does the buffer reach around the end of the address space.

use mathlib.Core.Path.{subst}
use fos_v.Base.{
  ℕ, zero, suc, ◌+◌, ◌-◌, ◌%◌, ◌^◌, ◌≤◌, ◌<◌, ◌≡◌, ◌≢◌, refl, ◌∙◌, ap, ◌⊎◌, List, [], ◌∷◌, arith,
  length, if◌then◌else◌, ◌==◌, ltb, ◌||◌, true, false, update,
}
use fos_v.Int.{ℤ, pos, negsuc, neg, e_inval}
use fos_v.String.{Bytes}
use fos_v.Format.Print.{Arg, Printed, printed, vprintfmt}

-- `struct sprintbuf`
pub record SprintBuf : Type 0 where
  pub buf : ℕ
  pub ebuf : ℕ
  pub cnt : ℕ

pub sprintputch : ℕ → SprintBuf → Bytes → SprintBuf × Bytes
sprintputch ch b m =
    let counted = record b { cnt = b.cnt + 1 } in
    if ltb b.buf b.ebuf
    then (record counted { buf = b.buf + 1 }, update m b.buf (ch % 2 ^ 8))
    else (counted, m)

-- What `vprintfmt` does to the buffer.
sprint_all : List ℕ → SprintBuf → Bytes → SprintBuf × Bytes
unfolding sprintputch
sprint_all [] b m = (b, m)
sprint_all (c ∷ cs) b m = let (b', m') = sprintputch c b m in sprint_all cs b' m'

-- The returned value and the state, or how `vprintfmt` ends else.
pub data Formatted (A : Type 0) : Type 0 where
  returned : ℤ → A → Formatted A
  undefined : Formatted A
  no_fuel : Formatted A

-- The text in the buffer and the null byte behind it.
finish_buffer : Printed → SprintBuf → Bytes → Formatted Bytes
unfolding sprint_all
finish_buffer (printed cs args) b m =
    let (b', m') = sprint_all cs b m in returned (pos b'.cnt) (update m' b'.buf 0)
finish_buffer Printed.undefined b m = undefined
finish_buffer Printed.no_fuel b m = no_fuel

-- E_INVAL is negative itself, so that the error is positive.
pub vsnprintf : ℕ → ℕ → ℤ → List ℕ → List Arg → Bytes → Formatted Bytes
unfolding finish_buffer
vsnprintf fuel buf (negsuc k) fmt args m = returned (neg e_inval) m
vsnprintf fuel buf (pos n) fmt args m =
    if (buf == 0) || ltb n 1
    then returned (neg e_inval) m
    else finish_buffer (vprintfmt fuel fmt args) (record { buf = buf; ebuf = buf + n - 1; cnt = 0 })
        m

-- The memory holds the bytes of the first characters, `room` at most, and a null byte.
pub Stored : Bytes → ℕ → ℕ → List ℕ → Type 0
Stored m p room [] = m p ≡ 0
Stored m p zero (c ∷ cs) = m p ≡ 0
Stored m p (suc room) (c ∷ cs) = (m p ≡ c % 2 ^ 8) × Stored m (p + 1) room cs

-- The rest of the memory is as it was.
abbrev pub Outside : Bytes → Bytes → ℕ → ℕ → Type 0
Outside m m' low high = (a : ℕ) → (a < low) ⊎ (high ≤ a) → m' a ≡ m a

-- `m'` and `b'` are what comes of the characters `cs`.
record Filled (room : ℕ) (cs : List ℕ) (b : SprintBuf) (m : Bytes) (r : SprintBuf × Bytes)
    : Type 0 where
  stored : Stored (update r.1 r.0.buf 0) b.buf room cs
  low : b.buf ≤ r.0.buf
  high : r.0.buf ≤ b.buf + room
  outside : Outside m r.1 b.buf (b.buf + room)
  counted : r.0.cnt ≡ b.cnt + length cs

Filled-more :
    (room c : ℕ) (cs : List ℕ) (b b' : SprintBuf) (m : Bytes) (r : SprintBuf × Bytes)
    → b'.buf ≡ b.buf + 1
    → b'.cnt ≡ b.cnt + 1
    → Filled room cs b' (update m b.buf (c % 2 ^ 8)) r
    → Filled (suc room) (c ∷ cs) b m r
unfolding Stored
Filled-more room c cs b b' m r next count f = record {
  stored = (
    ground (arith, f.outside b.buf, f.low),
    subst (λ p. Stored (update r.1 r.0.buf 0) p room cs) next f.stored,
  );
  low = omega (arith, f.low);
  high = omega (arith, f.high);
  outside = λ a out. ground (arith, f.outside a);
  counted = omega (arith, f.counted);
}

Stored-full : (m : Bytes) (p c : ℕ) (cs : List ℕ) → Stored m p 0 cs → Stored m p 0 (c ∷ cs)
unfolding Stored
Stored-full m p c [] s = s
Stored-full m p c (d ∷ cs) s = s

sprint_all-Filled :
    (room : ℕ) (cs : List ℕ) (b : SprintBuf) (m : Bytes)
    → b.buf + room ≡ b.ebuf
    → Filled room cs b m (sprint_all cs b m)
unfolding sprint_all sprintputch Stored
sprint_all-Filled room [] b m h = record {
  stored = ground arith;
  low = omega arith;
  high = omega arith;
  outside = λ a out. refl;
  counted = omega arith;
}
sprint_all-Filled zero (c ∷ cs) b m h =
    let full : ltb b.buf b.ebuf ≡ false = ground arith in
    let f = sprint_all-Filled zero cs (record b { cnt = b.cnt + 1 }) m h in
    rw (sprint_all, sprintputch, full)
      record {
        stored = Stored-full _ b.buf c cs f.stored;
        low = f.low;
        high = f.high;
        outside = f.outside;
        counted = omega (arith, f.counted);
      }
sprint_all-Filled (suc room) (c ∷ cs) b m h =
    let more : ltb b.buf b.ebuf ≡ true = ground arith in
    let b' = record b { cnt = b.cnt + 1; buf = b.buf + 1 } in
    let f = sprint_all-Filled room cs b' (update m b.buf (c % 2 ^ 8)) (omega arith) in
    rw (sprint_all, sprintputch, more) (Filled-more room c cs b b' m _ refl refl f)

-- When `vprintfmt` prints `cs`, `vsnprintf` returns their number. The buffer holds the first of
-- them, as many as leave room for the null byte behind them, and no byte outside of the buffer is
-- written.
pub vsnprintf-Stored :
    (fuel buf n : ℕ) (fmt cs : List ℕ) (args rest : List Arg) (m : Bytes)
    → buf ≢ 0
    → vprintfmt fuel fmt args ≡ printed cs rest
    → (m' : Bytes) × (vsnprintf fuel buf (pos (suc n)) fmt args m ≡ returned (pos (length cs)) m')
      × Stored m' buf n cs
      × Outside m m' buf (buf + suc n)
unfolding vsnprintf finish_buffer
vsnprintf-Stored fuel buf n fmt cs args rest m some_buf run =
    let b : SprintBuf = record { buf = buf; ebuf = buf + suc n - 1; cnt = 0 } in
    let f = sprint_all-Filled n cs b m (omega arith) in
    let r = sprint_all cs b m in
    let ok : ((buf == 0) || ltb (suc n) 1) ≡ false = ground arith in
    (
      update r.1 r.0.buf 0,
      rw (vsnprintf, ok, run, finish_buffer)
          (ap (λ c. returned (pos c) (update r.1 r.0.buf 0)) (f.counted ∙ omega arith)),
      f.stored,
      λ a out. ground (arith, f.outside a, f.low, f.high),
    )
