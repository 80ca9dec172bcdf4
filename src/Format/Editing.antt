-- ===== src/Format/Editing.antt =====
-- `readline` stays inside its buffer.
use fos_v.Base.{
  ℕ, ◌≤◌, ◌<◌, ◌≡◌, refl, ◌∙◌, Bool-cases, inl, inr, true, false, some, List, [], ◌∷◌, ◌++◌, map,
  arith, length, update, update_self, update_ne, ap, leb, lt→ltb, ◌^◌, ◌%◌, ◌+◌,
}
use fos_v.Int.{ℤ, pos}
use fos_v.String.Cstr.{CStr}
use fos_v.Format.{Line, read_char, readline}

-- From `l` to `l'` nothing at the index 1024 or above was written, and the length is below 1024.
record Fits (l l' : Line) : Type 0 where
  short : l'.i < 1024
  inside : (a : ℕ) → 1024 ≤ a → l'.line a ≡ l.line a

read_char-Fits :
    (c : ℕ) (l : Line)
    → l.i < 1024
    → Fits l (read_char c l).1
      × ((read_char c l).0 ≡ true → (read_char c l).1.line (read_char c l).1.i ≡ 0)
unfolding read_char
read_char-Fits c l h =
    (record { short = ground arith; inside = λ a out. ground arith }, λ stop. ground arith)

readline-stop :
    (c : ℕ) (cs : List ℤ) (l : Line)
    → (read_char c l).0 ≡ true
    → readline (pos c ∷ cs) l ≡ some ((read_char c l).1, cs)
unfolding readline
readline-stop c cs l stop = rw stop refl

readline-more :
    (c : ℕ) (cs : List ℤ) (l : Line)
    → (read_char c l).0 ≡ false
    → readline (pos c ∷ cs) l ≡ readline cs (read_char c l).1
unfolding readline
readline-more c cs l more = rw more refl

newline-stop : (l : Line) → (read_char 10 l).0 ≡ true
unfolding read_char
newline-stop l = ground arith

newline-kept :
    (l : Line)
    → ((read_char 10 l).1.line l.i ≡ 0) × ((a : ℕ) → a < l.i → (read_char 10 l).1.line a ≡ l.line a)
unfolding read_char
newline-kept l = (ground arith, λ a before. ground arith)

-- Whatever is typed, `readline` ends with the next newline. The line then has at most 1023
-- characters and a null byte behind them, and no byte behind the buffer of 1024 bytes is written.
pub readline-ends :
    (typed : List ℕ) (l : Line)
    → l.i < 1024
    → (l' : Line) × (rest : List ℤ) × (readline (map pos typed ++ (pos 10 ∷ [])) l
        ≡ some (l', rest))
      × (l'.i < 1024)
      × (l'.line l'.i ≡ 0)
      × ((a : ℕ) → 1024 ≤ a → l'.line a ≡ l.line a)
readline-ends [] l h =
    let (fits, null_byte) = read_char-Fits 10 l h in
    let stop = newline-stop l in
    ((read_char 10 l).1, [], readline-stop 10 [] l stop, fits.short, null_byte stop, fits.inside)
readline-ends (c ∷ cs) l h =
    let (fits, null_byte) = read_char-Fits c l h in
    elim (Bool-cases (read_char c l).0) [
      | inl stop ↦
          ((read_char c l).1, _, readline-stop c _ l stop, fits.short, null_byte stop, fits.inside)
      | inr more ↦
          let (l', rest, run, short, last, inside) =
            readline-ends cs (read_char c l).1 fits.short in
          (
            l',
            rest,
            readline-more c _ l more ∙ run,
            short,
            last,
            λ a out. inside a out ∙ fits.inside a out,
          )
    ]

-- Characters that `readline` stores
abbrev pub Printable : List ℕ → Type 0
Printable [] = Unit {0}
Printable (c ∷ cs) = (32 ≤ c) × (c < 256) × Printable cs

abbrev stored : ℕ → Line → Line
stored c l = record l { echoed = c ∷ l.echoed; line = update l.line l.i c; i = l.i + 1 }

read_char-stored :
    (c : ℕ) (l : Line) → 32 ≤ c → c < 256 → l.i < 1023 → read_char c l ≡ (false, stored c l)
unfolding read_char
read_char-stored c l low high fits =
    let byte : c % 2 ^ 8 ≡ c = omega arith in
    let visible : leb 32 c ≡ true = ground arith in
    rw (read_char, visible, lt→ltb l.i 1023 fits, byte) refl

-- A line of printable characters that fits is stored as it was typed, with a null byte behind it, and
-- what comes behind the newline is left.
pub readline-typed :
    (typed : List ℕ) (more : List ℤ) (l : Line)
    → Printable typed
    → l.i + length typed < 1024
    → (l' : Line) × (readline (map pos typed ++ (pos 10 ∷ more)) l ≡ some (l', more))
      × CStr l'.line l.i typed
      × ((a : ℕ) → a < l.i → l'.line a ≡ l.line a)
readline-typed [] more l printable fits =
    let stop = newline-stop l in
    let (null_byte, before) = newline-kept l in
    ((read_char 10 l).1, readline-stop 10 more l stop, null_byte, before)
readline-typed (c ∷ cs) more l (low, high, printable) fits =
    let same = read_char-stored c l low high (omega arith) in
    let (l', run, string, kept) = readline-typed cs more (stored c l) printable (omega arith) in
    (
      l',
      readline-more c _ l (ap (λ r. r.0) same)
          ∙ ap (λ r. readline (map pos cs ++ (pos 10 ∷ more)) r.1) same
          ∙ run,
      (kept l.i (omega arith) ∙ update_self l.line l.i c, omega arith, string),
      λ a before. kept a (omega arith) ∙ update_ne l.line l.i c a (omega arith),
    )
