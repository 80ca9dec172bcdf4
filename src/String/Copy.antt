-- ===== src/String/Copy.antt =====
-- What the copying and filling routines leave in memory.
use fos_v.Base.{
  ℕ, zero, suc, ◌+◌, ◌-◌, ◌%◌, ◌^◌, ◌≤◌, ◌<◌, ◌≡◌, ◌⊎◌, inl, inr, ◌∙◌, ◌&&◌, some, List, [], ◌∷◌,
  arith, length, ltb, leb, if◌then◌else◌, update, Bool-cases, lt→ltb,
}
use fos_v.String.{Bytes, memset_loop, memset, memcpy, copy_down, memmove, strcpy_loop, strcpy}
use fos_v.String.Cstr.{CStr, CStr-frame}

-- The bytes of `m` from `src` on, seen at the `n` addresses from `dst` on.
abbrev pub copied : ℕ → ℕ → ℕ → Bytes → Bytes
copied dst src n m a = if leb dst a && ltb a (dst + n) then m (src + (a - dst)) else m a

-- The ascending copy is right where no byte is overwritten before it is read.
pub memcpy-copied :
    (dst src n : ℕ) (m : Bytes) (a : ℕ)
    → (dst ≤ src) ⊎ (src + n ≤ dst)
    → memcpy dst src n m a ≡ copied dst src n m a
unfolding memcpy
memcpy-copied dst src zero m a apart = ground arith
memcpy-copied dst src (suc n) m a apart =
    memcpy-copied (dst + 1) (src + 1) n (update m dst (m src)) a (omega arith) ∙ ground arith

copy_down-copied :
    (dst src n : ℕ) (m : Bytes) (a : ℕ)
    → src ≤ dst
    → copy_down (dst + n) (src + n) n m a ≡ copied dst src n m a
unfolding copy_down
copy_down-copied dst src zero m a below = ground arith
copy_down-copied dst src (suc n) m a below =
    let d : dst + suc n - 1 ≡ dst + n = omega arith in
    let e : src + suc n - 1 ≡ src + n = omega arith in
    rw (d, e) (copy_down-copied dst src n (update m (dst + n) (m (src + n))) a below ∙ ground arith)

-- `memmove` copies as if through a buffer, however the two ranges overlap.
pub memmove-copied :
    (dst src n : ℕ) (m : Bytes) (a : ℕ) → memmove dst src n m a ≡ copied dst src n m a
unfolding memmove
memmove-copied dst src n m a = elim (Bool-cases (ltb src dst && ltb dst (src + n))) [
  | inl over ↦ rw over (copy_down-copied dst src n m a (ground arith))
  | inr clear ↦ rw clear (memcpy-copied dst src n m a (ground arith))
]

memset_loop_lem :
    (n p c : ℕ) (m : Bytes) (a : ℕ)
    → memset_loop n p c m a ≡ (if leb p a && ltb a (p + n) then c % 2 ^ 8 else m a)
unfolding memset_loop
memset_loop_lem zero p c m a = ground arith
memset_loop_lem (suc n) p c m a =
    ground (arith, memset_loop_lem n (p + 1) c (update m p (c % 2 ^ 8)) a)

-- `memset` writes the low byte of `c` to the `n` addresses from `v` on and nowhere else, for a size
-- below 2 ^ 31.
pub memset_lem :
    (v c n : ℕ) (m : Bytes) (a : ℕ)
    → n < 2 ^ 31
    → memset v c n m a ≡ (if leb v a && ltb a (v + n) then c % 2 ^ 8 else m a)
unfolding memset
memset_lem v c n m a small = rw (lt→ltb n (2 ^ 31) small) (memset_loop_lem n v c m a)

strcpy_loop-CStr :
    (fuel dst src : ℕ) (m : Bytes) (xs : List ℕ)
    → CStr m src xs
    → length xs < fuel
    → (dst + length xs < src) ⊎ (src + length xs < dst)
    → (m' : Bytes) × (strcpy_loop fuel dst src m ≡ some m')
      × CStr m' dst xs
      × ((a : ℕ) → (a < dst) ⊎ (dst + length xs < a) → m' a ≡ m a)
unfolding strcpy_loop
strcpy_loop-CStr zero dst src m xs c h apart = absurd (omega arith)
strcpy_loop-CStr (suc fuel) dst src m [] c h apart =
    (update m dst (m src), ground arith, ground arith, λ a out. ground arith)
strcpy_loop-CStr (suc fuel) dst src m (x ∷ xs) c h apart =
    let c' = CStr-frame m (update m dst (m src)) (src + 1) xs c.2 (λ a lo hi. ground arith) in
    let (m', run, str, rest) =
      strcpy_loop-CStr fuel (dst + 1) (src + 1) (update m dst (m src)) xs c' (omega arith)
        (omega arith) in
    (m', ground (arith, run), (ground (arith, rest dst), c.1, str), λ a out. ground (arith, rest a))

-- `strcpy` ends, leaves a copy of the string at the destination, and writes nothing else, if the
-- string and the place of its copy do not overlap.
pub strcpy-CStr :
    (fuel dst src : ℕ) (m : Bytes) (xs : List ℕ)
    → CStr m src xs
    → length xs < fuel
    → (dst + length xs < src) ⊎ (src + length xs < dst)
    → (m' : Bytes) × (strcpy fuel dst src m ≡ some m')
      × CStr m' dst xs
      × ((a : ℕ) → (a < dst) ⊎ (dst + length xs < a) → m' a ≡ m a)
unfolding strcpy
strcpy-CStr = strcpy_loop-CStr
