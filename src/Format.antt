-- ===== src/Format.antt =====
-- Formatted output: `printnum` of lib/printfmt.c, the buffer of lib/printf.c, and `readline` of
-- lib/readline.c.
pub mod Number
pub mod Buffer
pub mod Editing
pub mod Errors
pub mod Print
pub mod Snprint
mod Tests
use fos_v.Int.{ℤ, pos, negsuc}
use fos_v.Base.{
  ℕ, zero, suc, ◌+◌, ◌-◌, ◌/◌, ◌%◌, ◌^◌, Bool, true, false, ◌&&◌, ◌||◌, Option, none, some, List,
  [], ◌∷◌, ◌++◌, if◌then◌else◌, ◌==◌, leb, ltb, take, map, update, get_or,
}

-- `"0123456789abcdef"[d]`
unfoldable pub digit_char : ℕ → ℕ
digit_char d =
    get_or (48 ∷ 49 ∷ 50 ∷ 51 ∷ 52 ∷ 53 ∷ 54 ∷ 55 ∷ 56 ∷ 57 ∷ 97 ∷ 98 ∷ 99 ∷ 100 ∷ 101 ∷ 102 ∷ []) d
      0

-- The loop that prints the pad characters before the first digit.
unfoldable pub pad : ℕ → ℕ → List ℕ
pad zero padc = []
pad (suc n) padc = padc ∷ pad n padc

abbrev behind : Option (List ℕ) → ℕ → Option (List ℕ)
behind none c = none
behind (some cs) c = some (cs ++ (c ∷ []))

-- printnum: the characters given to `putch`, in order. A width of 0 stands for the negative ones
-- too, which print no pad character either; `none` means that the fuel ran out.
pub printnum : ℕ → ℕ → ℕ → ℕ → ℕ → Option (List ℕ)
unfolding pad digit_char
printnum zero num base width padc = none
printnum (suc fuel) num base width padc = elim (leb base num) [
  | true ↦ behind (printnum fuel (num / base) base (width - 1) padc) (digit_char (num % base))
  | false ↦ behind (some (pad (width - 1) padc)) (digit_char (num % base))
]

-- `struct printbuf`, with what `sys_cputs` was given so far.
pub record PrintBuf : Type 0 where
  pub idx : ℕ
  pub cnt : ℕ
  pub buf : ℕ → ℕ
  pub sent : List ℕ

-- The first `n` bytes of the buffer from `i` on.
pub bytes : (ℕ → ℕ) → ℕ → ℕ → List ℕ
bytes buf i zero = []
bytes buf i (suc n) = buf i ∷ bytes buf (i + 1) n

-- `sys_cputs(b->buf, b->idx)`
pub flush : PrintBuf → PrintBuf
unfolding bytes
flush b = record b { sent = b.sent ++ bytes b.buf 0 b.idx }

pub putch : ℕ → PrintBuf → PrintBuf
unfolding flush
putch ch b =
    let stored = record b { buf = update b.buf b.idx (ch % 2 ^ 8); idx = b.idx + 1 } in
    let sent = if stored.idx == 256 - 1 then record (flush stored) { idx = 0 } else stored in
    record sent { cnt = sent.cnt + 1 }

-- `vcprintf` for the characters that `vprintfmt` gives to `putch`.
put_all : List ℕ → PrintBuf → PrintBuf
unfolding putch
put_all [] b = b
put_all (c ∷ cs) b = put_all cs (putch c b)

pub vcprintf : List ℕ → (ℕ → ℕ) → ℕ × List ℕ
unfolding put_all flush
vcprintf cs garbage =
    let b = flush (put_all cs (record { idx = 0; cnt = 0; buf = garbage; sent = [] })) in
    (b.cnt, b.sent)

-- The state of `readline`: the line, its length and what was echoed, the last character first.
pub record Line : Type 0 where
  pub i : ℕ
  pub line : ℕ → ℕ
  pub echoed : List ℕ

-- One round of its loop for a character that is not negative; true at the end of the line.
pub read_char : ℕ → Line → Bool × Line
read_char c l =
    if leb 32 c && ltb l.i (1024 - 1)
    then (
      false,
      record l { echoed = c ∷ l.echoed; line = update l.line l.i (c % 2 ^ 8); i = l.i + 1 },
    )
    else if (c == 8) && ltb 0 l.i
    then (false, record l { echoed = c ∷ l.echoed; i = l.i - 1 })
    else if (c == 10) || (c == 13)
    then (true, record l { echoed = c ∷ l.echoed; line = update l.line l.i 0 })
    else (false, l)

-- `readline` on the characters that `getchar` gives, with those that are left; `none` means that they
-- end first. A negative one ends the line as it is.
pub readline : List ℤ → Line → Option (Line × List ℤ)
unfolding read_char
readline [] l = none
readline (negsuc n ∷ cs) l = some (l, cs)
readline (pos c ∷ cs) l =
    let (stop, l') = read_char c l in
    let more = readline cs l' in if stop then some (l', cs) else more
