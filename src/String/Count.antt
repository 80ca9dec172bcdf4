-- ===== src/String/Count.antt =====
-- `strlen` and `strnlen` count the bytes of a string.
use Prim.Native.Nat.{min}
use fos_v.Base.{ℕ, zero, suc, ◌+◌, ◌<◌, ◌≡◌, ◌∙◌, ap, some, List, [], ◌∷◌, arith, length}
use fos_v.String.{Bytes, strlen_loop, strlen, strnlen_loop, strnlen}
use fos_v.String.Cstr.{CStr}

strlen_loop-length :
    (fuel : ℕ) (m : Bytes) (s n : ℕ) (xs : List ℕ)
    → CStr m s xs
    → length xs < fuel
    → strlen_loop fuel m s n ≡ some (n + length xs)
unfolding strlen_loop
strlen_loop-length zero m s n xs c h = absurd (omega arith)
strlen_loop-length (suc fuel) m s n [] c h = ground arith
strlen_loop-length (suc fuel) m s n (x ∷ xs) c h =
    ground (arith, strlen_loop-length fuel m (s + 1) (n + 1) xs c.2)

-- `strlen` of a string is its length. The loop ends after one round for each byte and one more.
pub strlen-length :
    (fuel : ℕ) (m : Bytes) (s : ℕ) (xs : List ℕ)
    → CStr m s xs
    → length xs < fuel
    → strlen fuel m s ≡ some (length xs)
unfolding strlen
strlen-length fuel m s xs c h = strlen_loop-length fuel m s 0 xs c h ∙ ap some (omega arith)

strnlen_loop-min :
    (size : ℕ) (m : Bytes) (s n : ℕ) (xs : List ℕ)
    → CStr m s xs
    → strnlen_loop size m s n ≡ n + min size (length xs)
unfolding strnlen_loop
strnlen_loop-min zero m s n xs c = omega arith
strnlen_loop-min (suc size) m s n [] c = ground arith
strnlen_loop-min (suc size) m s n (x ∷ xs) c =
    ground (arith, strnlen_loop-min size m (s + 1) (n + 1) xs c.2)

-- `strnlen` of a string is its length, or `size` if that is less.
pub strnlen-min :
    (m : Bytes) (s size : ℕ) (xs : List ℕ) → CStr m s xs → strnlen m s size ≡ min size (length xs)
unfolding strnlen
strnlen-min m s size xs c = omega (arith, strnlen_loop-min size m s 0 xs c)
