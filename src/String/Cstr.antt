-- ===== src/String/Cstr.antt =====
-- Null-terminated strings in memory.
use fos_v.Base.{ℕ, ◌+◌, ◌≤◌, ◌≡◌, ◌≢◌, List, [], ◌∷◌, arith, length}
use fos_v.String.{Bytes}

-- At `s` the memory holds the bytes `xs`, none of them null, and a null byte behind them.
abbrev pub CStr : Bytes → ℕ → List ℕ → Type 0
CStr m s [] = m s ≡ 0
CStr m s (x ∷ xs) = (m s ≡ x) × (x ≢ 0) × CStr m (s + 1) xs

-- A string stays where no byte of it is written.
pub CStr-frame :
    (m m' : Bytes) (s : ℕ) (xs : List ℕ)
    → CStr m s xs
    → ((a : ℕ) → s ≤ a → a ≤ s + length xs → m' a ≡ m a)
    → CStr m' s xs
CStr-frame m m' s [] c same = ground (arith, same s)
CStr-frame m m' s (x ∷ xs) c same = (
  ground (arith, same s),
  c.1,
  CStr-frame m m' (s + 1) xs c.2 (λ a lo hi. same a (omega arith) (omega arith)),
)
