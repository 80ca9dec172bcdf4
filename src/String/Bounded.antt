-- ===== src/String/Bounded.antt =====
-- `strlcpy` and `strncpy`, which write at most `size` bytes.
use Prim.Native.Nat.{min}
use fos_v.Base.{
  ℕ, zero, suc, ◌+◌, ◌-◌, ◌≤◌, ◌<◌, ◌≡◌, ◌≢◌, ◌⊎◌, refl, List, [], ◌∷◌, arith, length, take, update,
  false, ◌==◌,
}
use fos_v.String.{Bytes, strlcpy_loop, strlcpy}
use fos_v.String.Cstr.{CStr, CStr-frame}

-- What the loop has done when it stops: the final pointer, the copy once it is terminated, and what
-- is unchanged.
record Truncated (dst size : ℕ) (m : Bytes) (xs : List ℕ) (d : ℕ) (m' : Bytes) : Type 0 where
  stop : d ≡ dst + min size (length xs)
  copy : CStr (update m' d 0) dst (take size xs)
  rest : (a : ℕ) → (a < dst) ⊎ (d < a) → m' a ≡ m a

-- One round more.
Truncated-suc :
    (dst size : ℕ) (m : Bytes) (c x : ℕ) (xs : List ℕ) (d : ℕ) (m' : Bytes)
    → c ≡ x
    → x ≢ 0
    → Truncated (dst + 1) size (update m dst c) xs d m'
    → Truncated dst (suc size) m (x ∷ xs) d m'
Truncated-suc dst size m c x xs d m' e nonzero t = record {
  stop = ground (arith, t.stop);
  copy = (ground (arith, t.stop, t.rest dst), nonzero, t.copy);
  rest = λ a out. ground (arith, t.stop, t.rest a);
}

strlcpy_loop_lem :
    (size dst src : ℕ) (m : Bytes) (xs : List ℕ)
    → CStr m src xs
    → (dst + size < src) ⊎ (src + length xs < dst)
    → let r = strlcpy_loop size dst src m in Truncated dst size m xs r.0 r.1
unfolding strlcpy_loop
strlcpy_loop_lem zero dst src m xs c apart = record {
  stop = omega arith;
  copy = ground arith;
  rest = λ a o. refl;
}
strlcpy_loop_lem (suc size) dst src m [] c apart =
    rw (strlcpy_loop, c) record { stop = omega arith; copy = ground arith; rest = λ a o. refl }
strlcpy_loop_lem (suc size) dst src m (x ∷ xs) c apart =
    let c' = CStr-frame m (update m dst (m src)) (src + 1) xs c.2 (λ a lo hi. ground arith) in
    let ih = strlcpy_loop_lem size (dst + 1) (src + 1) (update m dst (m src)) xs c' (omega arith) in
    let nonzero : (m src == 0) ≡ false = ground (arith, c.0, c.1) in
    rw (strlcpy_loop, nonzero)
      (Truncated-suc dst size m (m src) x xs
        (strlcpy_loop size (dst + 1) (src + 1) (update m dst (m src))).0
        (strlcpy_loop size (dst + 1) (src + 1) (update m dst (m src))).1 c.0 c.1 ih)

strlcpy_lem :
    (dst size : ℕ) (m : Bytes) (xs : List ℕ) (d : ℕ) (m' : Bytes)
    → Truncated dst size m xs d m'
    → (d - dst ≡ min size (length xs))
      × CStr (update m' d 0) dst (take size xs)
      × ((a : ℕ) → (a < dst) ⊎ (dst + suc size ≤ a) → update m' d 0 a ≡ m a)
strlcpy_lem dst size m xs d m' t =
    (ground (arith, t.stop), t.copy, λ a out. ground (arith, t.stop, t.rest a))

-- `strlcpy` into a buffer of at least one byte returns the length of what it copied, leaves there as
-- much of the string as fits, always with a null byte behind it, and writes nothing outside the
-- buffer, if the buffer and the string do not overlap.
pub strlcpy-CStr :
    (dst src size : ℕ) (m : Bytes) (xs : List ℕ)
    → CStr m src xs
    → (dst + size < src) ⊎ (src + length xs < dst)
    → let r = strlcpy dst src (suc size) m in
      (r.0 ≡ min size (length xs))
      × CStr r.1 dst (take size xs)
      × ((a : ℕ) → (a < dst) ⊎ (dst + suc size ≤ a) → r.1 a ≡ m a)
unfolding strlcpy
strlcpy-CStr dst src size m xs c apart =
    strlcpy_lem dst size m xs (strlcpy_loop size dst src m).0 (strlcpy_loop size dst src m).1
      (strlcpy_loop_lem size dst src m xs c apart)
