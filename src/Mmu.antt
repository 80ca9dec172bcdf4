-- ===== src/Mmu.antt =====
-- The address and entry macros of inc/mmu.h, the rounding macros of inc/types.h, and the constants
-- of inc/memlayout.h. Every value is a `uint32`, a number below 2 ^ 32.
pub mod Fields
use fos_v.Base.{ℕ, ◌+◌, ◌-◌, ◌*◌, ◌/◌, ◌%◌, ◌^◌, bit_and, bit_or}

abbrev pub u32_mod : ℕ
u32_mod = 2 ^ 32

abbrev pub page_size : ℕ
page_size = 4096

abbrev pub ptsize : ℕ
ptsize = page_size * 1024

abbrev pub perm_present : ℕ
perm_present = 0x001

abbrev pub perm_writeable : ℕ
perm_writeable = 0x002

abbrev pub perm_user : ℕ
perm_user = 0x004

abbrev pub perm_available : ℕ
perm_available = 0xe00

abbrev pub kernel_base : ℕ
kernel_base = 0xf0000000

abbrev pub phys_io_mem : ℕ
phys_io_mem = 0xA0000

abbrev pub phys_extended_mem : ℕ
phys_extended_mem = 0x100000

-- VPT, which is KERNEL_STACK_TOP
abbrev pub vpt : ℕ
vpt = kernel_base - ptsize

abbrev pub user_limit : ℕ
user_limit = vpt - ptsize

abbrev pub uvpt : ℕ
uvpt = user_limit - ptsize

-- USER_TOP, which is UENVS
abbrev pub user_top : ℕ
user_top = uvpt - ptsize - ptsize

abbrev pub ustacktop : ℕ
ustacktop = user_top - 2 * page_size

unfoldable pub ppn : ℕ → ℕ
ppn la = la / 2 ^ 12

unfoldable pub pdx : ℕ → ℕ
pdx la = bit_and (la / 2 ^ 22) 0x3ff

unfoldable pub ptx : ℕ → ℕ
ptx la = bit_and (la / 2 ^ 12) 0x3ff

unfoldable pub pgoff : ℕ → ℕ
pgoff la = bit_and la 0xfff

unfoldable pub pgaddr : ℕ → ℕ → ℕ → ℕ
pgaddr d t o = bit_or (bit_or (d * 2 ^ 22 % u32_mod) (t * 2 ^ 12 % u32_mod)) o

-- `entry & ~0xFFF`
unfoldable pub extract_address : ℕ → ℕ
extract_address entry = bit_and entry 0xfffff000

unfoldable pub construct_entry : ℕ → ℕ → ℕ
construct_entry phys_frame_address permissions = bit_or phys_frame_address permissions

unfoldable pub rounddown : ℕ → ℕ → ℕ
rounddown a n = a - a % n

-- The sum and the difference are `uint32`.
unfoldable pub roundup : ℕ → ℕ → ℕ
unfolding rounddown
roundup a n = rounddown ((a + n + u32_mod - 1) % u32_mod) n
