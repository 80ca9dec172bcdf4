-- ===== src/String.antt =====
-- The routines of lib/string.c over a memory of bytes.
-- A pointer is an address, and a memory gives the byte at each address. The objects of a call do
-- not wrap around the end of the address space. A loop that stops at a byte runs on fuel, and
-- `none` means that the fuel ran out; a counted loop recurs on its counter.
pub mod Count
pub mod Copy
pub mod Bounded
pub mod Find
pub mod Compare
pub mod Cstr
pub mod Parse
mod Tests
use fos_v.Base.{
  ℕ, zero, suc, ◌+◌, ◌-◌, ◌%◌, ◌^◌, Bool, true, false, not, ◌&&◌, Option, none, some, if◌then◌else◌,
  ◌==◌, ltb, leb, update,
}

abbrev pub Bytes : Type 0
Bytes = ℕ → ℕ

-- strlen
strlen_loop : ℕ → Bytes → ℕ → ℕ → Option ℕ
strlen_loop zero m s n = none
strlen_loop (suc fuel) m s n = elim (m s == 0) [
  | true ↦ some n
  | false ↦ strlen_loop fuel m (s + 1) (n + 1)
]

pub strlen : ℕ → Bytes → ℕ → Option ℕ
unfolding strlen_loop
strlen fuel m s = strlen_loop fuel m s 0

-- strnlen, whose loop counts `size` down
strnlen_loop : ℕ → Bytes → ℕ → ℕ → ℕ
strnlen_loop zero m s n = n
strnlen_loop (suc size) m s n = elim (m s == 0) [
  | true ↦ n
  | false ↦ strnlen_loop size m (s + 1) (n + 1)
]

pub strnlen : Bytes → ℕ → ℕ → ℕ
unfolding strnlen_loop
strnlen m s size = strnlen_loop size m s 0

-- strcpy: the memory after it
strcpy_loop : ℕ → ℕ → ℕ → Bytes → Option Bytes
strcpy_loop zero dst src m = none
strcpy_loop (suc fuel) dst src m =
    let c = m src in
    let m' = update m dst c in
    elim (c == 0) [ true ↦ some m' | false ↦ strcpy_loop fuel (dst + 1) (src + 1) m' ]

pub strcpy : ℕ → ℕ → ℕ → Bytes → Option Bytes
unfolding strcpy_loop
strcpy fuel dst src m = strcpy_loop fuel dst src m

-- strncpy, with `size - i` rounds left; `src` is read after the write
pub strncpy : ℕ → ℕ → ℕ → Bytes → Bytes
strncpy dst src zero m = m
strncpy dst src (suc size) m =
    let m' = update m dst (m src) in
    strncpy (dst + 1) (if m' src == 0 then src else src + 1) size m'

-- the loop of strlcpy on the `size - 1` that are left, and the final pointer
strlcpy_loop : ℕ → ℕ → ℕ → Bytes → ℕ × Bytes
strlcpy_loop zero dst src m = (dst, m)
strlcpy_loop (suc size) dst src m = elim (m src == 0) [
  | true ↦ (dst, m)
  | false ↦ strlcpy_loop size (dst + 1) (src + 1) (update m dst (m src))
]

-- strlcpy: the returned length, and the memory after it
pub strlcpy : ℕ → ℕ → ℕ → Bytes → ℕ × Bytes
unfolding strlcpy_loop
strlcpy dst src zero m = (0, m)
strlcpy dst src (suc size) m =
    let (dst', m') = strlcpy_loop size dst src m in (dst' - dst, update m' dst' 0)

-- The sign and size of the difference of two bytes read as `unsigned char`.
pub data Difference : Type 0 where
  less : ℕ → Difference
  same : Difference
  greater : ℕ → Difference

pub difference : ℕ → ℕ → Difference
difference a b = if ltb a b then less (b - a) else if ltb b a then greater (a - b) else same

-- strcmp
pub strcmp : ℕ → Bytes → ℕ → ℕ → Option Difference
unfolding difference
strcmp zero m p q = none
strcmp (suc fuel) m p q = elim (not (m p == 0) && (m p == m q)) [
  | true ↦ strcmp fuel m (p + 1) (q + 1)
  | false ↦ some (difference (m p) (m q))
]

-- strncmp
pub strncmp : Bytes → ℕ → ℕ → ℕ → Difference
unfolding difference
strncmp m p q zero = same
strncmp m p q (suc n) = elim (not (m p == 0) && (m p == m q)) [
  | true ↦ strncmp m (p + 1) (q + 1) n
  | false ↦ difference (m p) (m q)
]

-- strchr: a null pointer is the inner `none`
pub strchr : ℕ → Bytes → ℕ → ℕ → Option (Option ℕ)
strchr zero m s c = none
strchr (suc fuel) m s c = elim (m s == 0) [
  | true ↦ some none
  | false ↦ elim (m s == c) [ true ↦ some (some s) | false ↦ strchr fuel m (s + 1) c ]
]

-- strfind
unfoldable pub strfind : ℕ → Bytes → ℕ → ℕ → Option ℕ
strfind zero m s c = none
strfind (suc fuel) m s c = elim (m s == 0) [
  | true ↦ some s
  | false ↦ elim (m s == c) [ true ↦ some s | false ↦ strfind fuel m (s + 1) c ]
]

memset_loop : ℕ → ℕ → ℕ → Bytes → Bytes
memset_loop zero p c m = m
memset_loop (suc left) p c m = memset_loop left (p + 1) c (update m p (c % 2 ^ 8))

-- memset: the counter is an `int`, which is negative for a size of 2 ^ 31 and more
pub memset : ℕ → ℕ → ℕ → Bytes → Bytes
unfolding memset_loop
memset v c n m = if ltb n (2 ^ 31) then memset_loop n v c m else m

-- memcpy, the ascending copy
pub memcpy : ℕ → ℕ → ℕ → Bytes → Bytes
memcpy dst src zero m = m
memcpy dst src (suc n) m = memcpy (dst + 1) (src + 1) n (update m dst (m src))

-- the descending copy of memmove, over pointers behind the bytes that are left
copy_down : ℕ → ℕ → ℕ → Bytes → Bytes
copy_down d s zero m = m
copy_down d s (suc n) m = copy_down (d - 1) (s - 1) n (update m (d - 1) (m (s - 1)))

-- memmove
pub memmove : ℕ → ℕ → ℕ → Bytes → Bytes
unfolding copy_down memcpy
memmove dst src n m =
    if ltb src dst && ltb dst (src + n)
    then copy_down (dst + n) (src + n) n m
    else memcpy dst src n m

-- memcmp
pub memcmp : Bytes → ℕ → ℕ → ℕ → Difference
unfolding difference
memcmp m s1 s2 zero = same
memcmp m s1 s2 (suc n) = elim (m s1 == m s2) [
  | true ↦ memcmp m (s1 + 1) (s2 + 1) n
  | false ↦ difference (m s1) (m s2)
]

-- memfind, with `ends - s` rounds left
pub memfind : Bytes → ℕ → ℕ → ℕ → ℕ
memfind m s c zero = s
memfind m s c (suc n) = elim (m s == c % 2 ^ 8) [ true ↦ s | false ↦ memfind m (s + 1) c n ]
