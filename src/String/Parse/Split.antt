-- ===== src/String/Parse/Split.antt =====
-- `strsplit` cuts a string into its words.
pub mod Words
use fos_v.Base.{
  ℕ, zero, suc, ◌+◌, ◌-◌, ◌≤◌, ◌<◌, ◌≡◌, ◌≢◌, ◌⊎◌, refl, sym, ◌∙◌, ap, Bool, Bool-cases, true,
  false, inl, inr, not, ◌&&◌, Option, none, some, List, [], ◌∷◌, arith, length, has, ◌==◌, ==_ne,
  update,
}
use fos_v.String.{Bytes, strchr}
use fos_v.String.Cstr.{CStr, CStr-frame}
use fos_v.String.Find.{index_of, pointer, strchr-index_of}
use fos_v.String.Parse.{
  is_split, trim, scan, Arguments, add_argument, split_loop, strsplit, max_arguments,
}

-- A split character that does not end the string.
abbrev pub splits : List ℕ → ℕ → Bool
splits ws c = not (c == 0) && has c ws

index_of-has :
    (c : ℕ) (ws : List ℕ)
    → ((index_of c ws ≡ none) × (has c ws ≡ false))
      ⊎ ((i : ℕ) × (index_of c ws ≡ some i) × (has c ws ≡ true))
unfolding index_of
index_of-has c [] = inl (refl, refl)
index_of-has c (w ∷ ws) = elim (Bool-cases (w == c)) [
  | inl here ↦ inr (0, rw (index_of, here) refl, ground arith)
  | inr other ↦ elim (index_of-has c ws) [
    | inl (absent, out) ↦ inl (rw (index_of, other, absent) refl, ground arith)
    | inr (i, at, there) ↦ inr (suc i, rw (index_of, other, at) refl, ground arith)
  ]
]

pub is_split-splits :
    (fuel : ℕ) (m : Bytes) (white s : ℕ) (ws : List ℕ)
    → CStr m white ws
    → length ws < fuel
    → is_split fuel m white s ≡ some (splits ws (m s))
unfolding is_split
is_split-splits fuel m white s ws str enough =
    let found = strchr-index_of fuel m white (m s) ws str enough in
    elim (Bool-cases (m s == 0)) [
      | inl end ↦ rw (is_split, end) refl
      | inr char ↦ elim (index_of-has (m s) ws) [
        | inl (absent, out) ↦ rw (is_split, char, found, absent, out) refl
        | inr (i, at, there) ↦ rw (is_split, char, found, at, there) refl
      ]
    ]

-- The place behind the split characters in front, and what is left there.
abbrev pub dropped : List ℕ → ℕ → List ℕ → ℕ × List ℕ
dropped ws s [] = (s, [])
dropped ws s (x ∷ xs) = elim (has x ws) [ true ↦ dropped ws (s + 1) xs | false ↦ (s, x ∷ xs) ]

-- The place behind a word, and what is left there.
abbrev pub passed : List ℕ → ℕ → List ℕ → ℕ × List ℕ
passed ws s [] = (s, [])
passed ws s (x ∷ xs) = elim (has x ws) [ true ↦ (s, x ∷ xs) | false ↦ passed ws (s + 1) xs ]

-- The characters do not overlap the split characters.
abbrev pub Apart : ℕ → ℕ → ℕ → ℕ → Type 0
Apart s n white l = (white + l < s) ⊎ (s + n < white)

-- What `trim` leaves: the text behind the split characters, and null bytes over these.
pub record Trimmed (m m' : Bytes) (s s' : ℕ) (ws xs xs' : List ℕ) (white : ℕ) : Type 0 where
  pub rest : CStr m' s' xs'
  pub set : CStr m' white ws
  pub forward : s ≤ s'
  pub whole : s' + length xs' ≡ s + length xs
  pub same : (a : ℕ) → (a < s) ⊎ (s' ≤ a) → m' a ≡ m a
  pub nulls : (a : ℕ) → s ≤ a → a < s' → m' a ≡ 0

pub splits-has : (ws : List ℕ) (c x : ℕ) (b : Bool) → c ≡ x → x ≢ 0 → has x ws ≡ b → splits ws c ≡ b
splits-has ws c x b e char h = rw (e, ==_ne x 0 char) h

-- A split character more in front.
Trimmed-more :
    (m m' : Bytes) (s s' : ℕ) (ws xs xs' : List ℕ) (white x : ℕ)
    → Trimmed (update m s 0) m' (s + 1) s' ws xs xs' white
    → Trimmed m m' s s' ws (x ∷ xs) xs' white
Trimmed-more m m' s s' ws xs xs' white x t = record {
  rest = t.rest;
  set = t.set;
  forward = omega (arith, t.forward);
  whole = omega (arith, t.whole);
  same = λ a out. ground (arith, t.same a, t.forward);
  nulls = λ a low high. ground (arith, t.nulls a, t.same a);
}

pub trim-Trimmed :
    (fuel : ℕ) (m : Bytes) (white s : ℕ) (ws xs : List ℕ)
    → CStr m white ws
    → CStr m s xs
    → Apart s (length xs) white (length ws)
    → length xs + length ws + 1 < fuel
    → let (s', xs') = dropped ws s xs in
      (m' : Bytes) × (trim fuel m white s ≡ some (m', s')) × Trimmed m m' s s' ws xs xs' white
unfolding trim
trim-Trimmed zero m white s ws xs w str apart enough = absurd (omega arith)
trim-Trimmed (suc fuel) m white s ws [] w str apart enough =
    let test = is_split-splits fuel m white s ws w (omega arith) in
    let no : splits ws (m s) ≡ false = rw str refl in
    (
      m,
      rw (trim, test, no) refl,
      record {
        rest = str;
        set = w;
        forward = omega arith;
        whole = refl;
        same = λ a out. refl;
        nulls = λ a low high. absurd (omega arith);
      },
    )
trim-Trimmed (suc fuel) m white s ws (x ∷ xs) w str apart enough =
    let test = is_split-splits fuel m white s ws w (omega arith) in
    elim (Bool-cases (has x ws)) [
      | inl blank ↦
          let yes' = splits-has ws (m s) x true str.0 str.1 blank in
          let m1 = update m s 0 in
          let w1 = CStr-frame m m1 white ws w (λ a low high. ground arith) in
          let str1 = CStr-frame m m1 (s + 1) xs str.2 (λ a low high. ground arith) in
          let (m', run, t) =
            trim-Trimmed fuel m1 white (s + 1) ws xs w1 str1 (ground arith) (omega arith) in
          rw (dropped, blank)
            (m', rw (trim, test, yes') run, Trimmed-more m m' s _ ws xs _ white x t)
      | inr char ↦
          let no = splits-has ws (m s) x false str.0 str.1 char in
          rw (dropped, char)
            (
              m,
              rw (trim, test, no) refl,
              record {
                rest = str;
                set = w;
                forward = omega arith;
                whole = refl;
                same = λ a out. refl;
                nulls = λ a low high. absurd (omega arith);
              },
            )
    ]

-- The word in front.
pub word_of : List ℕ → List ℕ → List ℕ
word_of ws [] = []
word_of ws (x ∷ xs) = elim (has x ws) [ true ↦ [] | false ↦ x ∷ word_of ws xs ]

-- No split character is in a list.
abbrev pub whole_word : List ℕ → List ℕ → Bool
whole_word ws [] = true
whole_word ws (x ∷ xs) = not (has x ws) && whole_word ws xs

pub word_of-whole : (ws xs : List ℕ) → whole_word ws (word_of ws xs) ≡ true
unfolding word_of
word_of-whole ws [] = refl
word_of-whole ws (x ∷ xs) = ground (arith, word_of-whole ws xs)

-- The text begins with a split character, or is empty.
abbrev pub Ended : List ℕ → List ℕ → Type 0
Ended ws [] = Unit
Ended ws (x ∷ xs) = has x ws ≡ true

pub record Scanned (m : Bytes) (s s' : ℕ) (ws xs xs' : List ℕ) : Type 0 where
  pub rest : CStr m s' xs'
  pub forward : s ≤ s'
  pub whole : s' + length xs' ≡ s + length xs
  pub ended : Ended ws xs'
  -- where the memory keeps the word and has a null byte behind it
  pub word :
      (m' : Bytes) → ((a : ℕ) → s ≤ a → a < s' → m' a ≡ m a) → m' s' ≡ 0 → CStr m' s (word_of ws xs)

Scanned-more :
    (m : Bytes) (s s' : ℕ) (ws xs xs' : List ℕ) (x : ℕ)
    → m s ≡ x
    → x ≢ 0
    → has x ws ≡ false
    → Scanned m (s + 1) s' ws xs xs'
    → Scanned m s s' ws (x ∷ xs) xs'
unfolding word_of
Scanned-more m s s' ws xs xs' x at some_char char t = record {
  rest = t.rest;
  forward = omega (arith, t.forward);
  whole = omega (arith, t.whole);
  ended = t.ended;
  word = λ m' same null.
      rw (word_of, char)
        (
          same s (omega arith) (omega (arith, t.forward)) ∙ at,
          some_char,
          t.word m' (λ a low high. same a (omega arith) high) null,
        );
}

pub scan-Scanned :
    (fuel : ℕ) (m : Bytes) (white s : ℕ) (ws xs : List ℕ)
    → CStr m white ws
    → CStr m s xs
    → length xs + length ws + 1 < fuel
    → let (s', xs') = passed ws s xs in (scan fuel m white s ≡ some s') × Scanned m s s' ws xs xs'
unfolding scan word_of
scan-Scanned zero m white s ws xs w str enough = absurd (omega arith)
scan-Scanned (suc fuel) m white s ws [] w str enough = (
  rw (scan, str) refl,
  record {
    rest = str;
    forward = omega arith;
    whole = refl;
    ended = tt;
    word = λ m' same null. null;
  },
)
scan-Scanned (suc fuel) m white s ws (x ∷ xs) w str enough =
    let test = is_split-splits fuel m white s ws w (omega arith) in
    let some_char : (m s == 0) ≡ false = ==_ne (m s) 0 (λ e. str.1 (sym str.0 ∙ e)) in
    elim (Bool-cases (has x ws)) [
      | inl blank ↦
          let yes' = splits-has ws (m s) x true str.0 str.1 blank in
          rw (passed, blank)
            (
              rw (scan, some_char, test, yes') refl,
              record {
                rest = str;
                forward = omega arith;
                whole = refl;
                ended = blank;
                word = λ m' same null. rw (word_of, blank) null;
              },
            )
      | inr char ↦
          let no = splits-has ws (m s) x false str.0 str.1 char in
          let (run, t) = scan-Scanned fuel m white (s + 1) ws xs w str.2 (omega arith) in
          rw (passed, char)
            (rw (scan, some_char, test, no) run, Scanned-more m s _ ws xs _ x str.0 str.1 char t)
    ]
