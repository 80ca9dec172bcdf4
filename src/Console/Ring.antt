-- ===== src/Console/Ring.antt =====
-- The input buffer is a queue of up to 511 characters.
use fos_v.Base.{
  Bool-cases, inl, inr, ℕ, zero, suc, ◌+◌, ◌%◌, ◌<◌, ◌≡◌, refl, ◌∙◌, ap, true, false, some, List,
  [], ◌∷◌, ◌++◌, arith, length, length-append, append_assoc, append-nil, if◌then◌else◌, ◌==◌,
  get_or,
}
use fos_v.Int.{ℤ, pos, negsuc, eq_int}
use fos_v.Console.{Cons, low_byte, store, fetch, cons_intr}

-- The index `n` places behind `r`, around the end of the array.
abbrev pub around : ℕ → ℕ → ℕ
around r n = (r + n) % 512

-- The buffer holds exactly the waiting characters `xs`, the first to be read first.
pub record Holds (cons : Cons) (xs : List ℕ) : Type 0 where
  pub start : cons.rpos < 512
  pub stop : cons.wpos ≡ around cons.rpos (length xs)
  pub fits : length xs < 512
  pub waiting : (i : ℕ) → i < length xs → cons.buf (around cons.rpos i) ≡ get_or xs i 0

get_or-snoc :
    (xs : List ℕ) (c i : ℕ)
    → get_or (xs ++ (c ∷ [])) i 0 ≡ (if i == length xs then c else get_or xs i 0)
get_or-snoc [] c zero = refl
get_or-snoc [] c (suc i) = ground arith
get_or-snoc (x ∷ xs) c zero = ground arith
get_or-snoc (x ∷ xs) c (suc i) = ground (arith, get_or-snoc xs c i)

-- Different places of a window of at most 512 are different indices.
around-ne : (r i n : ℕ) → i < n → n < 512 → (around r i == around r n) ≡ false
around-ne r i n h k = ground arith

store-Holds :
    (c : ℤ) (cons : Cons) (xs : List ℕ)
    → Holds cons xs
    → length xs < 511
    → Holds (store c cons) (xs ++ (low_byte c ∷ []))
unfolding store
store-Holds c cons xs h room =
    let n = length xs in
    let longer = length-append xs (low_byte c ∷ []) in
    record {
      start = h.start;
      stop = ground (arith, h.start, h.stop, longer);
      fits = ground (arith, longer);
      waiting = λ i below. ground (
        arith,
        h.stop,
        h.waiting i,
        get_or-snoc xs (low_byte c) i,
        longer,
        around-ne cons.rpos i (length xs),
      );
    }

-- What a reader gets and what it leaves: 0 stands for nothing.
abbrev pub first : List ℕ → ℕ
first [] = 0
first (x ∷ xs) = x

abbrev pub rest : List ℕ → List ℕ
rest [] = []
rest (x ∷ xs) = xs

-- `cons_getc` behind its two calls gives the first waiting character, 0 if there is none, and
-- leaves the others.
pub fetch-Holds :
    (cons : Cons) (xs : List ℕ)
    → Holds cons xs
    → ((fetch cons).0 ≡ pos (first xs)) × Holds (fetch cons).1 (rest xs)
unfolding fetch
fetch-Holds cons [] h =
    let empty : (cons.rpos == cons.wpos) ≡ true = ground (arith, h.start, h.stop) in
    rw empty (refl, h)
fetch-Holds cons (x ∷ xs) h =
    let more : (cons.rpos == cons.wpos) ≡ false = ground (arith, h.start, h.stop, h.fits) in
    rw more (
      ground (arith, h.start, h.waiting 0),
      record {
        start = ground (arith, h.start);
        stop = ground (arith, h.start, h.stop);
        fits = omega (arith, h.fits);
        waiting = λ i below. ground (arith, h.start, h.waiting (suc i));
      },
    )

-- The results of a driver: the characters it gives until its -1, and the devices after that.
pub data Gives {D : Type 0} (proc : D → ℤ × D) : D → List ℤ → D → Type 0 where
  done : {d d' : D} → proc d ≡ (negsuc 0, d') → Gives proc d [] d'
  char :
      {d d1 d' : D} {c : ℤ} {cs : List ℤ}
      → proc d ≡ (c, d1)
      → eq_int c (negsuc 0) ≡ false
      → Gives proc d1 cs d'
      → Gives proc d (c ∷ cs) d'

-- The bytes that `cons_intr` stores for these characters.
unfoldable pub typed : List ℤ → List ℕ
typed [] = []
typed (c ∷ cs) = if eq_int c (pos 0) then typed cs else low_byte c ∷ typed cs

module _ {D : Type 0} (proc : D → ℤ × D) where
  cons_intr-done :
      (fuel : ℕ) (d d' : D) (cons : Cons)
      → proc d ≡ (negsuc 0, d')
      → cons_intr proc (suc fuel) d cons ≡ some (d', cons)
  unfolding cons_intr
  cons_intr-done fuel d d' cons e =
      let e0 : (proc d).0 ≡ negsuc 0 = ap (λ r. r.0) e in
      let e1 : (proc d).1 ≡ d' = ap (λ r. r.1) e in rw (cons_intr, e0, e1) refl

  cons_intr-char :
      (fuel : ℕ) (d d' : D) (c : ℤ) (cons : Cons)
      → proc d ≡ (c, d')
      → eq_int c (negsuc 0) ≡ false
      → cons_intr proc (suc fuel) d cons
        ≡ cons_intr proc fuel d' (if eq_int c (pos 0) then cons else store c cons)
  unfolding cons_intr
  cons_intr-char fuel d d' c cons e more =
      let e0 : (proc d).0 ≡ c = ap (λ r. r.0) e in
      rw (cons_intr, e0, more)
        (ap (λ r. cons_intr proc fuel r.1 (if eq_int r.0 (pos 0) then cons else store r.0 cons)) e)

  -- If the driver gives -1 in the end and its characters fit behind the waiting ones, in the 511
  -- places of the buffer, then `cons_intr` ends, and the buffer holds the low bytes of all that are
  -- not 0 behind what was waiting, in their order.
  pub cons_intr-Holds :
      (fuel : ℕ) (d d' : D) (cons : Cons) (xs : List ℕ) (cs : List ℤ)
      → Gives proc d cs d'
      → Holds cons xs
      → length xs + length (typed cs) < 512
      → length cs < fuel
      → (cons' : Cons) × (cons_intr proc fuel d cons ≡ some (d', cons'))
        × Holds cons' (xs ++ typed cs)
  unfolding typed
  cons_intr-Holds zero d d' cons xs cs g h room enough = absurd (omega arith)
  cons_intr-Holds (suc fuel) d d' cons xs _ (done e) h room enough =
      (cons, cons_intr-done fuel d d' cons e, rw (append-nil xs) h)
  cons_intr-Holds (suc fuel) d d' cons xs (c ∷ cs) (char {d1} e more g) h room enough =
      elim (Bool-cases (eq_int c (pos 0))) [
        | inl skip ↦
            let (cons', run, held) =
              cons_intr-Holds fuel d1 d' cons xs cs g h (ground (arith, room, skip))
                (omega arith) in
            (cons', cons_intr-char fuel d d1 c cons e more ∙ rw skip run, rw skip held)
        | inr keep ↦
            let longer = length-append xs (low_byte c ∷ []) in
            let (cons', run, held) =
              cons_intr-Holds fuel d1 d' (store c cons) (xs ++ (low_byte c ∷ [])) cs g
                (store-Holds c cons xs h (ground (arith, room, keep)))
                (ground (arith, longer, room, keep)) (omega arith) in
            (
              cons',
              cons_intr-char fuel d d1 c cons e more ∙ rw keep run,
              rw (keep, ← append_assoc xs (low_byte c ∷ []) (typed cs)) held,
            )
      ]
