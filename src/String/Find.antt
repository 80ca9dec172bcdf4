-- ===== src/String/Find.antt =====
-- The searches `strchr`, `strfind` and `memfind`.
use fos_v.Base.{
  ℕ, zero, suc, ◌+◌, ◌-◌, ◌%◌, refl, ap, ◌∙◌, Bool-cases, inl, inr, ◌^◌, ◌≤◌, ◌<◌, ◌≡◌, ◌≢◌, true,
  false, Option, none, some, List, [], ◌∷◌, arith, length, ◌==◌,
}
use fos_v.String.{Bytes, strchr, strfind, memfind}
use fos_v.String.Cstr.{CStr}

-- The first index of `c` in a list.
unfoldable pub index_of : ℕ → List ℕ → Option ℕ
index_of c [] = none
index_of c (x ∷ xs) = elim (x == c) [
  | true ↦ some 0
  | false ↦ elim (index_of c xs) [ none ↦ none | some i ↦ some (suc i) ]
]

-- The address behind an index of the string at `s`, if there is one.
abbrev pub pointer : ℕ → Option ℕ → Option ℕ
pointer s none = none
pointer s (some i) = some (s + i)

-- The same, with the terminating null byte for an index that does not exist.
abbrev pub pointer_or : ℕ → ℕ → Option ℕ → ℕ
pointer_or s n none = s + n
pointer_or s n (some i) = s + i

-- `strchr` gives the address of the first occurrence of a byte, and a null pointer if there is
-- none, the null byte included.
pub strchr-index_of :
    (fuel : ℕ) (m : Bytes) (s c : ℕ) (xs : List ℕ)
    → CStr m s xs
    → length xs < fuel
    → strchr fuel m s c ≡ some (pointer s (index_of c xs))
unfolding strchr index_of
strchr-index_of zero m s c xs str h = absurd (omega arith)
strchr-index_of (suc fuel) m s c [] str h = ground arith
strchr-index_of (suc fuel) m s c (x ∷ xs) str h =
    ground (arith, strchr-index_of fuel m (s + 1) c xs str.2)

-- `strfind` gives the address of the first occurrence of a byte, and that of the terminating null
-- byte if there is none.
pub strfind-index_of :
    (fuel : ℕ) (m : Bytes) (s c : ℕ) (xs : List ℕ)
    → CStr m s xs
    → length xs < fuel
    → strfind fuel m s c ≡ some (pointer_or s (length xs) (index_of c xs))
unfolding strfind index_of
strfind-index_of zero m s c xs str h = absurd (omega arith)
strfind-index_of (suc fuel) m s c [] str h = ground arith
strfind-index_of (suc fuel) m s c (x ∷ xs) str h =
    ground (arith, strfind-index_of fuel m (s + 1) c xs str.2)

-- `memfind` stays in the range, stops before its end only at the low byte of `c`, and passes over
-- no such byte.
pub memfind-first :
    (m : Bytes) (s c n : ℕ)
    → let r = memfind m s c n in
      (s ≤ r)
      × (r ≤ s + n)
      × (r < s + n → m r ≡ c % 2 ^ 8)
      × ((a : ℕ) → s ≤ a → a < r → m a ≢ c % 2 ^ 8)
unfolding memfind
memfind-first m s c zero =
    (omega arith, omega arith, λ h. absurd (omega arith), λ a lo hi. absurd (omega arith))
memfind-first m s c (suc n) = (
  ground (arith, memfind-first m (s + 1) c n),
  ground (arith, memfind-first m (s + 1) c n),
  λ h. ground (arith, memfind-first m (s + 1) c n),
  λ a lo hi. ground (arith, (memfind-first m (s + 1) c n).3 a),
)

-- With a null byte in front of `e`, the search ends before `e`.
pub strfind-ends :
    (fuel : ℕ) (m : Bytes) (p c e : ℕ)
    → p < e
    → m (e - 1) ≡ 0
    → e ≤ p + fuel
    → (q : ℕ) × (strfind fuel m p c ≡ some q) × (p ≤ q) × (q < e)
unfolding strfind
strfind-ends zero m p c e inside last enough = absurd (omega arith)
strfind-ends (suc fuel) m p c e inside last enough = elim (Bool-cases (m p == 0)) [
  | inl stop ↦ (p, rw (strfind, stop) refl, omega arith, inside)
  | inr more ↦ elim (Bool-cases (m p == c)) [
    | inl stop ↦ (p, rw (strfind, more, stop) refl, omega arith, inside)
    | inr next ↦
        let null_byte = λ (h : p ≡ e - 1). ap m h ∙ last in
        let behind : p + 1 < e = ground (arith, null_byte) in
        let (q, run, low, high) = strfind-ends fuel m (p + 1) c e behind last (omega arith) in
        (q, rw (strfind, more, next) run, omega arith, high)
  ]
]
