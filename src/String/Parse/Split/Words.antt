-- ===== src/String/Parse/Split/Words.antt =====
-- The arguments that `strsplit` finds.
use fos_v.Base.{
  ℕ, zero, suc, ◌+◌, ◌≤◌, ◌<◌, ◌≡◌, ◌⊎◌, refl, sym, ◌∙◌, ap, Bool-cases, true, false, inl, inr,
  some, List, [], ◌∷◌, arith, length, has, ◌==◌, ==_ne, ==→eq, update,
}
use fos_v.String.{Bytes}
use fos_v.String.Cstr.{CStr}
use fos_v.String.Parse.{trim, Arguments, add_argument, split_loop, strsplit}
use fos_v.String.Parse.Split.{
  dropped, passed, Apart, Trimmed, trim-Trimmed, word_of, whole_word, word_of-whole, Ended, Scanned,
  scan-Scanned,
}

dropped-le : (ws : List ℕ) (s : ℕ) (xs : List ℕ) → s ≤ (dropped ws s xs).0
dropped-le ws s [] = omega arith
dropped-le ws s (x ∷ xs) = ground (arith, dropped-le ws (s + 1) xs)

passed-le : (ws : List ℕ) (s : ℕ) (xs : List ℕ) → s ≤ (passed ws s xs).0
passed-le ws s [] = omega arith
passed-le ws s (x ∷ xs) = ground (arith, passed-le ws (s + 1) xs)

-- A text is empty or begins with a character of a word.
abbrev Begun : List ℕ → List ℕ → Type 0
Begun ws [] = Unit
Begun ws (x ∷ xs) = has x ws ≡ false

dropped-Begun : (ws : List ℕ) (s : ℕ) (xs : List ℕ) → Begun ws (dropped ws s xs).1
dropped-Begun ws s [] = tt
dropped-Begun ws s (x ∷ xs) = elim (Bool-cases (has x ws)) [
  | inl blank ↦ rw (dropped, blank) (dropped-Begun ws (s + 1) xs)
  | inr char ↦ rw (dropped, char) char
]

-- A split character in front is passed over.
dropped-moves :
    (ws : List ℕ) (s : ℕ) (xs : List ℕ)
    → Ended ws xs
    → (s < (dropped ws s xs).0) ⊎ ((dropped ws s xs).1 ≡ [])
dropped-moves ws s [] e = inr refl
dropped-moves ws s (x ∷ xs) e = inl (rw (dropped, e) (omega (arith, dropped-le ws (s + 1) xs)))

-- What the loop of `strsplit` makes of the text `xs` at `s` behind the arguments `a`.
pub record Cut (ws : List ℕ) (a a' : Arguments) (s : ℕ) (xs : List ℕ) (ret : ℕ) : Type 0 where
  pub kept : (i : ℕ) → i < a.argc → a'.argv i ≡ a.argv i
  pub grows : a.argc ≤ a'.argc
  pub few : a'.argc ≤ 15
  pub words :
      (i : ℕ)
      → a.argc ≤ i
      → i < a'.argc
      → (w : List ℕ) × CStr a'.memory (a'.argv i) w × (whole_word ws w ≡ true) × (0 < length w)
  pub finished : ((ret ≡ 1) × (a'.argv a'.argc ≡ 0)) ⊎ ((ret ≡ 0) × (a'.argc ≡ 15))
  pub same : (p : ℕ) → (p < s) ⊎ (s + length xs ≤ p) → a'.memory p ≡ a.memory p
  pub null : Ended ws xs → a'.memory s ≡ 0

module _ (white : ℕ) (ws : List ℕ) where
  -- From the arguments `a` and the place `s` on.
  abbrev Cuts : ℕ → Arguments → ℕ → List ℕ → Type 0
  Cuts fuel a s xs =
      (ret : ℕ) × (a' : Arguments) × (split_loop fuel white s a ≡ some (ret, a'))
      × Cut ws a a' s xs ret

  cut-end :
      (fuel : ℕ) (a : Arguments) (s s' : ℕ) (xs : List ℕ) (m : Bytes)
      → a.argc ≤ 15
      → trim fuel a.memory white s ≡ some (m, s')
      → Trimmed a.memory m s s' ws xs [] white
      → Cuts (suc fuel) a s xs
  unfolding split_loop
  cut-end fuel a s s' xs m few run t = (
    1,
    record a { memory = m; argv = update a.argv a.argc 0 },
    rw (split_loop, run, t.rest) refl,
    record {
      kept = λ i h. ground arith;
      grows = omega arith;
      few = few;
      words = λ i low high. absurd (omega arith);
      finished = inl (refl, ground arith);
      same = λ p out. t.same p (ground (arith, t.whole));
      null = λ e. ground (arith, t.nulls s, t.rest, t.whole);
    },
  )

  cut-full :
      (fuel : ℕ) (a : Arguments) (s s' y : ℕ) (xs ys : List ℕ) (m : Bytes)
      → a.argc ≡ 15
      → trim fuel a.memory white s ≡ some (m, s')
      → Trimmed a.memory m s s' ws xs (y ∷ ys) white
      → (Ended ws xs → s < s')
      → Cuts (suc fuel) a s xs
  unfolding split_loop
  cut-full fuel a s s' y xs ys m full run t moves =
      let char = ==_ne (m s') 0 (λ e. t.rest.1 (sym t.rest.0 ∙ e)) in
      let room : (a.argc == 15) ≡ true = ground arith in
      (
        0,
        record a { memory = m },
        rw (split_loop, run, char, room) refl,
        record {
          kept = λ i h. refl;
          grows = omega arith;
          few = omega arith;
          words = λ i low high. absurd (omega arith);
          finished = inr (refl, full);
          same = λ p out. t.same p (ground (arith, t.whole));
          null = λ e. t.nulls s (omega arith) (moves e);
        },
      )

  -- A word at `s'`, and what the rest of the loop makes of the text behind it.
  Cut-word :
      (a a' : Arguments) (s s' next y ret : ℕ) (xs ys rest : List ℕ) (m : Bytes)
      → a.argc < 15
      → Trimmed a.memory m s s' ws xs (y ∷ ys) white
      → has y ws ≡ false
      → Scanned m s' next ws (y ∷ ys) rest
      → (Ended ws xs → s < s')
      → Cut ws (add_argument s' (record a { memory = m })) a' next rest ret
      → Cut ws a a' s xs ret
  unfolding add_argument word_of
  Cut-word a a' s s' next y ret xs ys rest m few t char sc moves c = record {
    kept = λ i h. c.kept i (omega arith) ∙ ground arith;
    grows = omega (arith, c.grows);
    few = c.few;
    words = λ i low high. elim (Bool-cases (i == a.argc)) [
      | inl last ↦
          let at : a'.argv i ≡ s' =
            ap a'.argv (==→eq i a.argc last) ∙ c.kept a.argc (omega arith) ∙ ground arith in
          (
            word_of ws (y ∷ ys),
            rw at (sc.word a'.memory (λ p l h. c.same p (inl h)) (c.null sc.ended)),
            word_of-whole ws (y ∷ ys),
            rw (word_of, char) (omega arith),
          )
      | inr earlier ↦ c.words i (ground arith) high
    ];
    finished = c.finished;
    same = λ p out.
        c.same p (ground (arith, t.whole, sc.whole, t.forward, sc.forward))
        ∙ t.same p (ground (arith, t.whole));
    null = λ e.
        c.same s (inl (omega (arith, moves e, sc.forward))) ∙ t.nulls s (omega arith) (moves e);
  }

  -- The texts that the loop cuts on `fuel`.
  abbrev Loop : ℕ → Type 0
  Loop fuel =
      (a : Arguments) (s : ℕ) (xs : List ℕ)
      → CStr a.memory white ws
      → CStr a.memory s xs
      → Apart s (length xs) white (length ws)
      → length xs + length ws + 2 < fuel
      → a.argc ≤ 15
      → Cuts fuel a s xs

  cut-word :
      (fuel : ℕ) (a : Arguments) (s s' y : ℕ) (xs ys : List ℕ) (m : Bytes)
      → Loop fuel
      → Apart s (length xs) white (length ws)
      → length xs + length ws + 2 < suc fuel
      → a.argc < 15
      → trim fuel a.memory white s ≡ some (m, s')
      → Trimmed a.memory m s s' ws xs (y ∷ ys) white
      → has y ws ≡ false
      → (Ended ws xs → s < s')
      → Cuts (suc fuel) a s xs
  unfolding split_loop add_argument
  cut-word fuel a s s' y xs ys m loop apart enough few run t char moves =
      let some_char = ==_ne (m s') 0 (λ e. t.rest.1 (sym t.rest.0 ∙ e)) in
      let room : (a.argc == 15) ≡ false = ground arith in
      let (scanned, sc) =
        scan-Scanned fuel m white s' ws (y ∷ ys) t.set t.rest (omega (arith, t.whole, t.forward)) in
      let forward : s' < (passed ws s' (y ∷ ys)).0 =
        rw (passed, char) (omega (arith, passed-le ws (s' + 1) ys)) in
      let (ret, a', more, c) =
        loop (add_argument s' (record a { memory = m })) (passed ws s' (y ∷ ys)).0
          (passed ws s' (y ∷ ys)).1 t.set sc.rest
          (ground (arith, t.whole, sc.whole, t.forward, sc.forward))
          (omega (arith, t.whole, sc.whole, t.forward)) (omega arith) in
      (
        ret,
        a',
        rw (split_loop, run, some_char, room, scanned) more,
        Cut-word a a' s s' _ y ret xs ys _ m few t char sc moves c,
      )

  -- The cases of the text behind the split characters.
  cut-behind :
      (fuel : ℕ) (a : Arguments) (s s' : ℕ) (xs xs' : List ℕ) (m : Bytes)
      → Loop fuel
      → Apart s (length xs) white (length ws)
      → length xs + length ws + 2 < suc fuel
      → a.argc ≤ 15
      → trim fuel a.memory white s ≡ some (m, s')
      → Trimmed a.memory m s s' ws xs xs' white
      → Begun ws xs'
      → (Ended ws xs → (s < s') ⊎ (xs' ≡ []))
      → Cuts (suc fuel) a s xs
  cut-behind fuel a s s' xs [] m loop apart enough few run t begun moves =
      cut-end fuel a s s' xs m few run t
  cut-behind fuel a s s' xs (y ∷ ys) m loop apart enough few run t begun moves =
      let moves' : Ended ws xs → s < s' =
        λ e. elim (moves e) [ inl over ↦ over | inr empty ↦ ground arith ] in
      elim (Bool-cases (a.argc == 15)) [
        | inl full ↦ cut-full fuel a s s' y xs ys m (==→eq a.argc 15 full) run t moves'
        | inr room ↦
            cut-word fuel a s s' y xs ys m loop apart enough (ground arith) run t begun moves'
      ]

  Loop-fuel : (fuel : ℕ) → Loop fuel
  Loop-fuel zero a s xs w str apart enough few = absurd (omega arith)
  Loop-fuel (suc fuel) a s xs w str apart enough few =
      let (m, run, t) = trim-Trimmed fuel a.memory white s ws xs w str apart (omega arith) in
      cut-behind fuel a s (dropped ws s xs).0 xs (dropped ws s xs).1 m (Loop-fuel fuel) apart enough
        few run t (dropped-Begun ws s xs) (dropped-moves ws s xs)

-- On a string apart from the split characters, `strsplit` ends. It finds at most 15 arguments, each
-- of them a string of at least one character and without split characters. It returns 1 with a null
-- pointer behind the last argument, or 0 with 15 arguments, and writes only into the string.
pub strsplit-Cut :
    (fuel string white : ℕ) (argv : ℕ → ℕ) (m : Bytes) (ws xs : List ℕ)
    → CStr m white ws
    → CStr m string xs
    → (white + length ws < string) ⊎ (string + length xs < white)
    → length xs + length ws + 2 < fuel
    → (ret : ℕ) × (a : Arguments) × (strsplit fuel string white argv m ≡ some (ret, a))
      × (a.argc ≤ 15)
      × ((i : ℕ)
          → i < a.argc
          → (w : List ℕ) × CStr a.memory (a.argv i) w × (whole_word ws w ≡ true) × (0 < length w))
      × (((ret ≡ 1) × (a.argv a.argc ≡ 0)) ⊎ ((ret ≡ 0) × (a.argc ≡ 15)))
      × ((p : ℕ) → (p < string) ⊎ (string + length xs ≤ p) → a.memory p ≡ m p)
unfolding strsplit
strsplit-Cut fuel string white argv m ws xs w str apart enough =
    let (ret, a, run, c) =
      Loop-fuel white ws fuel (record { argv = update argv 0 0; argc = 0; memory = m }) string xs w
        str apart enough (omega arith) in
    (ret, a, run, c.few, λ i h. c.words i (omega arith) h, c.finished, c.same)
