-- ===== src/Memory.antt =====
-- Physical memory as bytes, with the 64-bit little-endian loads and stores that the compiled kernel
-- makes, and whole ranges filled or copied. Page sizes and rounding are from kernel/riscv.h.
pub mod Laws
use xv6_part2_and_concurrenc.Base.{
  ℕ, zero, suc, ◌+◌, ◌-◌, ◌*◌, ◌/◌, ◌%◌, ◌&&◌, ltb, leb, if◌then◌else◌, update,
}

abbrev pub Mem : Type 0
Mem = ℕ → ℕ

abbrev pub pgsize : ℕ
pgsize = 4096

-- PGROUNDUP, on addresses below 2 ^ 64 - 4096
abbrev pub pgroundup : ℕ → ℕ
pgroundup sz = (sz + 4095) / 4096 * 4096

-- PGROUNDDOWN
abbrev pub pgrounddown : ℕ → ℕ
pgrounddown a = a / 4096 * 4096

-- The little-endian number in the `n` bytes from `a` on.
pub load_le : ℕ → Mem → ℕ → ℕ
load_le zero m a = 0
load_le (suc n) m a = m a + 256 * load_le n m (a + 1)

-- `v` written to the `n` bytes from `a` on, the lowest byte first.
pub store_le : ℕ → Mem → ℕ → ℕ → Mem
store_le zero m a v = m
store_le (suc n) m a v = store_le n (update m a (v % 256)) (a + 1) (v / 256)

unfoldable pub load64 : Mem → ℕ → ℕ
unfolding load_le
load64 m a = load_le 8 m a

unfoldable pub store64 : Mem → ℕ → ℕ → Mem
unfolding store_le
store64 m a v = store_le 8 m a v

-- memset(dst, c, n), as the change that it makes
unfoldable pub fill : Mem → ℕ → ℕ → ℕ → Mem
fill m dst c n x = if leb dst x && ltb x (dst + n) then c % 256 else m x

-- memmove(dst, src, n), as the change that it makes
unfoldable pub copy : Mem → ℕ → ℕ → ℕ → Mem
copy m dst src n x = if leb dst x && ltb x (dst + n) then m (src + (x - dst)) else m x
