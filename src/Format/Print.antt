-- ===== src/Format/Print.antt =====
-- `vprintfmt` and `printfmt` of lib/printfmt.c.
-- A format is the list of its bytes without the terminating null byte. A `va_list` is the list of
-- the arguments that are left, and a `%s` argument is none for NULL or the bytes of the string. A
-- negative width or precision is none, since the code asks only whether they are negative. The
-- characters given to `putch` are the 32-bit words of its `int`.
pub mod Ends
pub mod Result
pub mod Fits
use Prim.Native.Nat.{min}
use fos_v.Base.{
  ℕ, zero, suc, ◌+◌, ◌-◌, ◌*◌, ◌%◌, ◌^◌, Bool, true, false, not, ◌&&◌, ◌||◌, Option, none, some,
  List, [], ◌∷◌, ◌++◌, if◌then◌else◌, ◌==◌, leb, ltb, length,
}
use fos_v.Format.{printnum, pad}
use fos_v.Format.Errors.{error_string}

-- An argument: the 32-bit word of an `int`, an `unsigned` or a pointer, the 64-bit word of a
-- `long long`, or a string.
pub data Arg : Type 0 where
  word : ℕ → Arg
  long_word : ℕ → Arg
  string : Option (List ℕ) → Arg

-- The variables of an escape sequence.
pub record Spec : Type 0 where
  pub padc : ℕ
  pub width : Option ℕ
  pub precision : Option ℕ
  pub lflag : ℕ
  pub altflag : Bool

abbrev pub plain_spec : Spec
plain_spec = record { padc = 32; width = none; precision = none; lflag = 0; altflag = false }

-- Where the code is: in text, in the switch of an escape sequence, or in the loop over the digits
-- of a width. The last two keep the format as it was behind the `%`.
pub data Mode : Type 0 where
  plain : Mode
  escape : Spec → List ℕ → Mode
  digits : Spec → ℕ → List ℕ → Mode

-- What one round does: it ends at the null byte, it goes on behind some characters, or it calls
-- `printfmt` first. `undefined` is where C gives the code no meaning, so that nothing is said of what
-- it does from there on: a `va_arg` of an argument that is missing or of another type, and an
-- overflow of an `int`; `more_fuel` means that the fuel of `printnum` ran out.
pub data Round : Type 0 where
  finished : Round
  goes_on : List ℕ → Mode → List ℕ → List Arg → Round
  calls : List ℕ → List Arg → List ℕ → List Arg → Round
  undefined : Round
  more_fuel : Round

-- The characters, and the arguments that are left.
pub data Printed : Type 0 where
  printed : List ℕ → List Arg → Printed
  undefined : Printed
  no_fuel : Printed

-- "error %d", "%s" and "(null)"
abbrev error_format : List ℕ
error_format = 101 ∷ 114 ∷ 114 ∷ 111 ∷ 114 ∷ 32 ∷ 37 ∷ 100 ∷ []

abbrev string_format : List ℕ
string_format = 37 ∷ 115 ∷ []

abbrev null_string : List ℕ
null_string = 40 ∷ 110 ∷ 117 ∷ 108 ∷ 108 ∷ 41 ∷ []

-- getuint; `long` has 32 bits
pub getuint : ℕ → List Arg → Option (ℕ × List Arg)
getuint lflag [] = none
getuint lflag (string s ∷ args) = none
getuint lflag (word w ∷ args) = if leb 2 lflag then none else some (w, args)
getuint lflag (long_word w ∷ args) = if leb 2 lflag then some (w, args) else none

-- getint, as its sign and its magnitude in 64 bits
pub getint : ℕ → List Arg → Option (Bool × ℕ × List Arg)
getint lflag [] = none
getint lflag (string s ∷ args) = none
getint lflag (word w ∷ args) =
    if leb 2 lflag
    then none
    else some (if ltb w (2 ^ 31) then (false, w, args) else (true, 2 ^ 32 - w, args))
getint lflag (long_word w ∷ args) =
    if leb 2 lflag
    then some (if ltb w (2 ^ 63) then (false, w, args) else (true, 2 ^ 64 - w, args))
    else none

-- The label `process_precision`, with the value that was stored in `precision`.
abbrev process_precision : Option ℕ → Spec → Spec
process_precision p v = elim (v.width) [
  | none ↦ record v { width = p; precision = none }
  | some w ↦ record v { precision = p }
]

-- A width of 0 stands for the negative ones too.
abbrev pub or_zero : Option ℕ → ℕ
or_zero none = 0
or_zero (some w) = w

-- `strnlen(p, precision)`, where a negative precision is a size above every length
abbrev pub limited : Option ℕ → ℕ → ℕ
limited none n = n
limited (some p) n = min n p

-- A `char` is signed.
abbrev pub char_word : ℕ → ℕ
char_word c = if ltb c 128 then c else c + (2 ^ 32 - 2 ^ 8)

-- The loop over the characters of a string, and the padding behind it.
pub put_chars : Bool → Option ℕ → ℕ → List ℕ → List ℕ
unfolding pad
put_chars alt precision width [] = pad width 32
put_chars alt (some zero) width (c ∷ cs) = pad width 32
put_chars alt (some (suc p)) width (c ∷ cs) =
    (if alt && (ltb c 32 || ltb 126 c) then 63 else char_word c)
    ∷ put_chars alt (some p) (width - 1) cs
put_chars alt none width (c ∷ cs) =
    (if alt && (ltb c 32 || ltb 126 c) then 63 else char_word c) ∷ put_chars alt none (width - 1) cs

-- `case 's'`
pub put_string : Spec → List ℕ → List ℕ
unfolding put_chars pad
put_string v s =
    let w = or_zero v.width in
    if ltb 0 w && not (v.padc == 45)
    then pad (w - limited v.precision (length s)) v.padc ++ put_chars v.altflag v.precision 0 s
    else put_chars v.altflag v.precision w s

-- The label `number`, behind what was printed before it. The fuel is enough for every base from 2.
pub number : List ℕ → ℕ → ℕ → Spec → List ℕ → List Arg → Round
number cs num base v fmt args = elim (printnum (num + 1) num base (or_zero v.width) v.padc) [
  | none ↦ more_fuel
  | some ds ↦ goes_on (cs ++ ds) plain fmt args
]

-- `case 'd'`, `case 'u'` and `case 'x'`
put_signed : Option (Bool × ℕ × List Arg) → Spec → List ℕ → Round
unfolding number
put_signed none v fmt = undefined
put_signed (some (negative, num, args)) v fmt =
    number (if negative then 45 ∷ [] else []) num 10 v fmt args

put_unsigned : Option (ℕ × List Arg) → ℕ → Spec → List ℕ → Round
unfolding number
put_unsigned none base v fmt = undefined
put_unsigned (some (num, args)) base v fmt = number [] num base v fmt args

-- The cases that take one argument of a fixed type.
case_star : List Arg → Spec → List ℕ → List ℕ → Round
case_star (word w ∷ args) v start fmt =
    let p = if ltb w (2 ^ 31) then some w else none in
    goes_on [] (escape (process_precision p v) start) fmt args
case_star args v start fmt = undefined

case_c : List Arg → List ℕ → Round
case_c (word w ∷ args) fmt = goes_on (w ∷ []) plain fmt args
case_c args fmt = undefined

-- `-err` overflows for the smallest `int`, and then the index is outside the array.
put_error : ℕ → List ℕ → List Arg → Round
unfolding error_string
put_error err fmt args = if err == 2 ^ 31 then undefined else (elim (error_string err) [
  | none ↦ calls error_format (word err ∷ []) fmt args
  | some p ↦ calls string_format (string (some p) ∷ []) fmt args
])

case_e : List Arg → List ℕ → Round
unfolding put_error
case_e (word w ∷ args) fmt = put_error (if ltb w (2 ^ 31) then w else 2 ^ 32 - w) fmt args
case_e args fmt = undefined

case_s : List Arg → Spec → List ℕ → Round
unfolding put_string
case_s (string none ∷ args) v fmt = goes_on (put_string v null_string) plain fmt args
case_s (string (some s) ∷ args) v fmt = goes_on (put_string v s) plain fmt args
case_s args v fmt = undefined

case_p : List Arg → Spec → List ℕ → Round
unfolding number
case_p (word w ∷ args) v fmt = number (48 ∷ 120 ∷ []) w 16 v fmt args
case_p args v fmt = undefined

-- The cases behind which the sequence ends. `start` is where the text goes on behind the `%` of an
-- unknown one.
conversion : ℕ → Spec → List ℕ → List ℕ → List Arg → Round
unfolding case_c case_e case_s case_p put_signed put_unsigned getint getuint
conversion ch v start fmt args =
    if ch == 99
    then case_c args fmt
    else if ch == 101
    then case_e args fmt
    else if ch == 115
    then case_s args v fmt
    else if ch == 100
    then put_signed (getint v.lflag args) v fmt
    else if ch == 117
    then put_unsigned (getuint v.lflag args) 10 v fmt
    else if ch == 111
    then goes_on (88 ∷ 88 ∷ 88 ∷ []) plain fmt args
    else if ch == 112
    then case_p args v fmt
    else if ch == 120
    then put_unsigned (getuint v.lflag args) 16 v fmt
    else if ch == 37
    then goes_on (37 ∷ []) plain fmt args
    else goes_on (37 ∷ []) plain start args

-- The switch; the flags go back to it.
switch : ℕ → Spec → List ℕ → List ℕ → List Arg → Round
unfolding conversion case_star
switch ch v start fmt args =
    if ch == 45
    then goes_on [] (escape (record v { padc = 45 }) start) fmt args
    else if ch == 48
    then goes_on [] (escape (record v { padc = 48 }) start) fmt args
    else if leb 49 ch && leb ch 57
    then goes_on [] (digits v (ch - 48) start) fmt args
    else if ch == 42
    then case_star args v start fmt
    else if ch == 46
    then goes_on [] (escape (record v { width = some (or_zero v.width) }) start) fmt args
    else if ch == 35
    then goes_on [] (escape (record v { altflag = true }) start) fmt args
    else if ch == 108
    then goes_on [] (escape (record v { lflag = v.lflag + 1 }) start) fmt args
    else conversion ch v start fmt args

-- One round, with the format at `*fmt`.
pub round : Mode → List ℕ → List Arg → Round
unfolding switch
round plain [] args = finished
round plain (ch ∷ fmt) args =
    if ch == 37
    then goes_on [] (escape plain_spec fmt) fmt args
    else goes_on (ch ∷ []) plain fmt args
round (escape v start) [] args = goes_on (37 ∷ []) plain start args
round (escape v start) (ch ∷ fmt) args = switch ch v start fmt args
round (digits v p start) [] args = goes_on [] (escape (process_precision (some p) v) start) [] args
round (digits v p start) (ch ∷ fmt) args =
    if ltb ch 48 || ltb 57 ch
    then goes_on [] (escape (process_precision (some p) v) start) (ch ∷ fmt) args
    else if leb (2 ^ 31) (p * 10 + ch)
    then undefined
    else goes_on [] (digits v (p * 10 + ch - 48) start) fmt args

abbrev pub behind : List ℕ → Printed → Printed
behind cs (printed ds args) = printed (cs ++ ds) args
behind cs undefined = undefined
behind cs no_fuel = no_fuel

-- What follows a call of `printfmt`, whose arguments are its own.
abbrev pub behind_call : Printed → Printed → Printed
behind_call (printed cs args) rest = behind cs rest
behind_call undefined rest = undefined
behind_call no_fuel rest = no_fuel

pub print_loop : ℕ → Mode → List ℕ → List Arg → Printed
unfolding round
print_loop zero mode fmt args = no_fuel
print_loop (suc fuel) mode fmt args = elim (round mode fmt args) [
  | finished ↦ printed [] args
  | goes_on cs mode' fmt' args' ↦ behind cs (print_loop fuel mode' fmt' args')
  | calls fmt' args' rest args'' ↦
      behind_call (print_loop fuel plain fmt' args') (print_loop fuel plain rest args'')
  | undefined ↦ undefined
  | more_fuel ↦ no_fuel
]

-- Its state is the format pointer and the `va_list`.
unfoldable pub vprintfmt : ℕ → List ℕ → List Arg → Printed
unfolding print_loop
vprintfmt fuel fmt args = print_loop fuel plain fmt args
