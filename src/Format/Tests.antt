-- ===== src/Format/Tests.antt =====
-- Printing and reading of concrete texts.
use Prim.Native.Nat.{max}
use fos_v.Base.{ℕ, ◌-◌, ◌^◌, ◌≤◌, ◌<◌, ◌≡◌, refl, some, List, [], ◌∷◌, arith, length}
use fos_v.Int.{ℤ, pos}
use fos_v.Format.{Line, printnum, vcprintf, readline}
use fos_v.Format.Number.{Prints, printnum-Prints}
use fos_v.Format.Buffer.{vcprintf-sends}
use fos_v.Format.Editing.{readline-ends}
use fos_v.String.{Bytes}
use fos_v.Format.Print.{Arg, word, string, printed, behind, plain_spec, vprintfmt, put_string}
use fos_v.Format.Print.Ends.{enough}
use fos_v.Format.Print.Fits.{fits}
use fos_v.Format.Print.Fits.Run.{vprintfmt-prints}
use fos_v.Format.Print.Result.{vprintfmt-hex, vprintfmt-decimal, put_string-length}
use fos_v.Format.Snprint.{returned, vsnprintf, Stored, Outside, vsnprintf-Stored}

printnum-Prints_example :
    (cs : List ℕ) × (printnum 256 255 16 8 32 ≡ some cs) × Prints 255 16 8 32 cs
printnum-Prints_example = printnum-Prints 256 255 16 8 32 (omega arith) (omega arith) (omega arith)

vcprintf-sends_example : vcprintf (72 ∷ 105 ∷ 10 ∷ []) (λ _. 7) ≡ (3, 72 ∷ 105 ∷ 10 ∷ [])
vcprintf-sends_example = vcprintf-sends (72 ∷ 105 ∷ 10 ∷ []) (λ _. 7)

abbrev blank : Line
blank = record { i = 0; line = λ _. 7; echoed = [] }

readline-ends_example :
    (l : Line) × (rest : List ℤ) × (readline (pos 72 ∷ pos 8 ∷ pos 105 ∷ pos 10 ∷ []) blank
      ≡ some (l, rest))
    × (l.i < 1024)
    × (l.line l.i ≡ 0)
    × ((a : ℕ) → 1024 ≤ a → l.line a ≡ 7)
readline-ends_example = readline-ends (72 ∷ 8 ∷ 105 ∷ []) blank (omega arith)

-- "a=%d %s"
abbrev sample_format : List ℕ
sample_format = 97 ∷ 61 ∷ 37 ∷ 100 ∷ 32 ∷ 37 ∷ 115 ∷ []

abbrev sample_args : List Arg
sample_args = word (2 ^ 32 - 42) ∷ string (some (104 ∷ 105 ∷ [])) ∷ []

vprintfmt-prints_example :
    (cs : List ℕ) × (rest : List Arg) × (vprintfmt 100 sample_format sample_args ≡ printed cs rest)
unfolding enough fits
vprintfmt-prints_example = vprintfmt-prints 100 sample_format sample_args (omega arith) refl

vprintfmt-hex_example :
    (cs : List ℕ) × (vprintfmt 6 (37 ∷ 48 ∷ 56 ∷ 120 ∷ []) (word 255 ∷ [])
      ≡ behind cs (vprintfmt 1 [] []))
    × Prints 255 16 8 48 cs
vprintfmt-hex_example = vprintfmt-hex 56 255 1 [] [] (omega arith) (omega arith)

vprintfmt-decimal_example :
    (cs : List ℕ) × (vprintfmt 3 (37 ∷ 100 ∷ []) (word (2 ^ 32 - 42) ∷ [])
      ≡ behind (45 ∷ cs) (vprintfmt 1 [] []))
    × Prints 42 10 0 32 cs
vprintfmt-decimal_example = vprintfmt-decimal (2 ^ 32 - 42) 1 [] []

put_string-length_example :
    length (put_string (record plain_spec { width = some 5 }) (104 ∷ 105 ∷ [])) ≡ max 5 2
put_string-length_example =
    put_string-length (record plain_spec { width = some 5 }) (104 ∷ 105 ∷ [])

sample_run :
    vprintfmt 100 sample_format sample_args
    ≡ printed (97 ∷ 61 ∷ 45 ∷ 52 ∷ 50 ∷ 32 ∷ 104 ∷ 105 ∷ []) []
unfolding vprintfmt printnum
sample_run = refl

vsnprintf-Stored_example :
    (m' : Bytes) × (vsnprintf 100 1000 (pos 4) sample_format sample_args (λ _. 7)
      ≡ returned (pos 8) m')
    × Stored m' 1000 3 (97 ∷ 61 ∷ 45 ∷ 52 ∷ 50 ∷ 32 ∷ 104 ∷ 105 ∷ [])
    × Outside (λ _. 7) m' 1000 1004
vsnprintf-Stored_example =
    vsnprintf-Stored 100 1000 3 sample_format (97 ∷ 61 ∷ 45 ∷ 52 ∷ 50 ∷ 32 ∷ 104 ∷ 105 ∷ [])
      sample_args [] (λ _. 7) (ground arith) sample_run
