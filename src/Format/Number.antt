-- ===== src/Format/Number.antt =====
-- What `printnum` prints is the number.
use Prim.Native.Nat.{max}
use native.Mathlib.Nat.{div-add-mod', mod-lt, mod-eq_of_lt, div-lt_self, div-eq-sub-div}
use fos_v.Base.{
  ℕ, zero, suc, ◌+◌, ◌-◌, ◌*◌, ◌/◌, ◌%◌, ◌≤◌, ◌<◌, ◌≡◌, refl, sym, ◌∙◌, ap, Bool, Bool-cases, true,
  false, some, inl, inr, List, [], ◌∷◌, ◌++◌, arith, length, length-append, append_assoc, map, leb,
  ◌&&◌, ltb,
}
use fos_v.Format.{digit_char, pad, printnum}

-- The number that digits stand for, with `acc` before them.
unfoldable pub value : ℕ → ℕ → List ℕ → ℕ
value base acc [] = acc
value base acc (d ∷ ds) = value base (acc * base + d) ds

value-snoc :
    (base acc d : ℕ) (ds : List ℕ) → value base acc (ds ++ (d ∷ [])) ≡ value base acc ds * base + d
unfolding value
value-snoc base acc d [] = refl
value-snoc base acc d (e ∷ ds) = value-snoc base (acc * base + e) d ds

map-snoc : (f : ℕ → ℕ) (d : ℕ) (ds : List ℕ) → map f (ds ++ (d ∷ [])) ≡ map f ds ++ (f d ∷ [])
map-snoc f d [] = refl
map-snoc f d (e ∷ ds) = ap (λ xs. f e ∷ xs) (map-snoc f d ds)

-- All digits are below the base.
unfoldable pub below : ℕ → List ℕ → Bool
below base [] = true
below base (d ∷ ds) = ltb d base && below base ds

below-snoc :
    (base d : ℕ) (ds : List ℕ)
    → below base ds ≡ true
    → d < base
    → below base (ds ++ (d ∷ [])) ≡ true
unfolding below
below-snoc base d [] h k = ground arith
below-snoc base d (e ∷ ds) h k = ground (arith, below-snoc base d ds)

-- `cs` are pad characters and then the digits `ds` of the number, `width` characters or more.
pub record Shows (num base width padc : ℕ) (cs : List ℕ) : Type 0 where
  pub pads : ℕ
  pub ds : List ℕ
  pub text : cs ≡ pad pads padc ++ map digit_char ds
  pub is_number : value base 0 ds ≡ num
  pub digits : below base ds ≡ true
  pub wide : pads + length ds ≡ max width (length ds)
  pub some_digit : 0 < length ds

-- The digit in front
unfoldable pub leading : List ℕ → ℕ
leading [] = 0
leading (d ∷ ds) = d

-- `cs` shows the number with no digit 0 in front, but for the number 0 itself: of its digits the first
-- is a 0 only if it is alone.
pub record Prints (num base width padc : ℕ) (cs : List ℕ) : Type 0 where
  pub shows : Shows num base width padc cs
  pub shortest : leading shows.ds ≡ 0 → length shows.ds ≡ 1

leading-snoc : (d : ℕ) (ds : List ℕ) → 0 < length ds → leading (ds ++ (d ∷ [])) ≡ leading ds
unfolding leading
leading-snoc d [] some_digit = absurd (omega arith)
leading-snoc d (e ∷ ds) some_digit = refl

-- A single digit 0 is no number above 0.
value-zero : (base : ℕ) (ds : List ℕ) → leading ds ≡ 0 → length ds ≡ 1 → value base 0 ds ≡ 0
unfolding value leading
value-zero base [] front one = refl
value-zero base (d ∷ []) front one = omega arith
value-zero base (d ∷ (e ∷ ds)) front one = absurd (omega arith)

Prints-snoc :
    (num base width padc : ℕ) (cs : List ℕ)
    → 0 < base
    → 0 < num / base
    → Prints (num / base) base (width - 1) padc cs
    → Prints num base width padc (cs ++ (digit_char (num % base) ∷ []))
Prints-snoc num base width padc cs pos more p =
    let s = p.shows in
    let d = num % base in
    let longer = length-append s.ds (d ∷ []) in
    record {
      shows = record {
        pads = s.pads;
        ds = s.ds ++ (d ∷ []);
        text =
            ap (λ xs. xs ++ (digit_char d ∷ [])) s.text
            ∙ append_assoc (pad s.pads padc) (map digit_char s.ds) (digit_char d ∷ [])
            ∙ ap (λ xs. pad s.pads padc ++ xs) (sym (map-snoc digit_char d s.ds));
        is_number =
            value-snoc base 0 d s.ds ∙ ap (λ n. n * base + d) s.is_number ∙ div-add-mod' num base;
        digits = below-snoc base d s.ds s.digits (mod-lt num pos);
        wide = omega (arith, longer, s.wide, s.some_digit);
        some_digit = omega (arith, longer);
      };
      shortest = λ front.
          let front' = sym (leading-snoc d s.ds s.some_digit) ∙ front in
          absurd (omega (arith, s.is_number, value-zero base s.ds front' (p.shortest front')));
    }

mod_small : (num base : ℕ) → leb base num ≡ false → num % base ≡ num
mod_small num base last = mod-eq_of_lt (ground arith)

div-below :
    (num base fuel : ℕ) → 2 ≤ base → leb base num ≡ true → num < suc fuel → num / base < fuel
div-below num base fuel low more enough =
    let some_num : 0 < num = ground arith in omega (arith, div-lt_self some_num low)

div-positive : (num base : ℕ) → 2 ≤ base → leb base num ≡ true → 0 < num / base
div-positive num base low more =
    let some_base : 0 < base = omega arith in
    let enough : base ≤ num = ground arith in omega (arith, div-eq-sub-div some_base enough)

-- With a base from 2 to 16 and more fuel than the number, `printnum` ends, and prints the digits of
-- the number in that base, the highest first and without superfluous zeros, behind as many pad
-- characters as make it `width` characters wide.
pub printnum-Prints :
    (fuel num base width padc : ℕ)
    → 2 ≤ base
    → base ≤ 16
    → num < fuel
    → (cs : List ℕ) × (printnum fuel num base width padc ≡ some cs) × Prints num base width padc cs
unfolding printnum value below
printnum-Prints zero num base width padc low high enough = absurd (omega arith)
printnum-Prints (suc fuel) num base width padc low high enough = elim (Bool-cases (leb base num)) [
  | inl more ↦
      let (cs, run, s) =
        printnum-Prints fuel (num / base) base (width - 1) padc low high
          (div-below num base fuel low more enough) in
      (
        cs ++ (digit_char (num % base) ∷ []),
        rw (printnum, more, run) refl,
        Prints-snoc num base width padc cs (omega arith) (div-positive num base low more) s,
      )
  | inr last ↦ (
    pad (width - 1) padc ++ (digit_char (num % base) ∷ []),
    rw (printnum, last) refl,
    record {
      shows = record {
        pads = width - 1;
        ds = num % base ∷ [];
        text = refl;
        is_number = omega (arith, mod_small num base last);
        digits = ground (arith, mod_small num base last);
        wide = omega arith;
        some_digit = omega arith;
      };
      shortest = λ front. refl;
    },
  )
]
