-- ===== src/String/Compare.antt =====
-- `strcmp`, `strncmp` and `memcmp` compare byte by byte.
use fos_v.Base.{
  ℕ, zero, suc, ◌+◌, ◌<◌, ◌≡◌, ◌↔◌, refl, sym, ◌∙◌, ap, true, false, some, List, [], ◌∷◌, arith,
  length, ◌==◌,
}
use fos_v.String.{Bytes, Difference, same, difference, strcmp, memcmp}
use fos_v.String.Cstr.{CStr}

-- The order of strings: at the first place where they differ, with a null byte behind each.
pub lex : List ℕ → List ℕ → Difference
lex [] [] = same
lex [] (y ∷ ys) = difference 0 y
lex (x ∷ xs) [] = difference x 0
lex (x ∷ xs) (y ∷ ys) = elim (x == y) [ true ↦ lex xs ys | false ↦ difference x y ]

-- `strcmp` of two strings ends, after at most one round more than the first is long, and gives
-- their order.
pub strcmp-lex :
    (fuel : ℕ) (m : Bytes) (p q : ℕ) (xs ys : List ℕ)
    → CStr m p xs
    → CStr m q ys
    → length xs < fuel
    → strcmp fuel m p q ≡ some (lex xs ys)
unfolding strcmp lex difference
strcmp-lex zero m p q xs ys c d h = absurd (omega arith)
strcmp-lex (suc fuel) m p q [] [] c d h = ground arith
strcmp-lex (suc fuel) m p q [] (y ∷ ys) c d h = ground arith
strcmp-lex (suc fuel) m p q (x ∷ xs) [] c d h = ground arith
strcmp-lex (suc fuel) m p q (x ∷ xs) (y ∷ ys) c d h =
    ground (arith, strcmp-lex fuel m (p + 1) (q + 1) xs ys c.2 d.2)

lex_refl : (xs : List ℕ) → lex xs xs ≡ same
unfolding lex
lex_refl [] = refl
lex_refl (x ∷ xs) = ground (arith, lex_refl xs)

eq_of_lex :
    (m : Bytes) (p q : ℕ) (xs ys : List ℕ) → CStr m p xs → CStr m q ys → lex xs ys ≡ same → xs ≡ ys
unfolding lex difference
eq_of_lex m p q [] [] c d e = refl
eq_of_lex m p q [] (y ∷ ys) c d e = absurd (ground arith)
eq_of_lex m p q (x ∷ xs) [] c d e = absurd (ground arith)
eq_of_lex m p q (x ∷ xs) (y ∷ ys) c d e = ground (arith, eq_of_lex m (p + 1) (q + 1) xs ys c.2 d.2)

-- `strcmp` gives 0 exactly for equal strings.
pub strcmp-same_iff :
    (fuel : ℕ) (m : Bytes) (p q : ℕ) (xs ys : List ℕ)
    → CStr m p xs
    → CStr m q ys
    → length xs < fuel
    → (strcmp fuel m p q ≡ some same) ↔ (xs ≡ ys)
strcmp-same_iff fuel m p q xs ys c d h = (
  λ e. eq_of_lex m p q xs ys c d (ground (arith, strcmp-lex fuel m p q xs ys c d h)),
  λ e. strcmp-lex fuel m p q xs ys c d h ∙ ap some (ap (lex xs) (sym e) ∙ lex_refl xs),
)

memcmp-eq :
    (n : ℕ) (m : Bytes) (s1 s2 i : ℕ) → memcmp m s1 s2 n ≡ same → i < n → m (s1 + i) ≡ m (s2 + i)
unfolding memcmp difference
memcmp-eq zero m s1 s2 i e h = absurd (omega arith)
memcmp-eq (suc n) m s1 s2 zero e h = ground arith
memcmp-eq (suc n) m s1 s2 (suc i) e h = ground (arith, memcmp-eq n m (s1 + 1) (s2 + 1) i)

-- `memcmp` gives 0 exactly if the two ranges hold the same bytes.
pub memcmp-same_iff :
    (n : ℕ) (m : Bytes) (s1 s2 : ℕ)
    → (memcmp m s1 s2 n ≡ same) ↔ ((i : ℕ) → i < n → m (s1 + i) ≡ m (s2 + i))
unfolding memcmp difference
memcmp-same_iff zero m s1 s2 = (λ e i h. absurd (omega arith), λ e. refl)
memcmp-same_iff (suc n) m s1 s2 = (
  λ e i h. memcmp-eq (suc n) m s1 s2 i e h,
  λ f.
      ground
        (arith, f 0, (memcmp-same_iff n m (s1 + 1) (s2 + 1)).1 (λ i h. ground (arith, f (suc i)))),
)
