-- ===== src/Pte.antt =====
-- Page-table entries and virtual addresses, from kernel/riscv.h. A flag is written as its value, a
-- power of two; `|=` of a flag and `&= ~` of a flag are written as arithmetic.
pub mod Laws
use Prim.Native.Nat.{bit_or}
use xv6_part2_and_concurrenc.Base.{ℕ, ◌+◌, ◌-◌, ◌*◌, ◌/◌, ◌%◌, ◌^◌, Bool, ◌==◌, if◌then◌else◌}

abbrev pub pte_v : ℕ
pte_v = 1

abbrev pub pte_r : ℕ
pte_r = 2

abbrev pub pte_w : ℕ
pte_w = 4

abbrev pub pte_x : ℕ
pte_x = 8

abbrev pub pte_u : ℕ
pte_u = 16

-- the copy-on-write flag, bit 8
abbrev pub pte_c : ℕ
pte_c = 256

-- pte & flag
unfoldable pub has : ℕ → ℕ → Bool
has flag pte = pte / flag % 2 == 1

-- pte |= flag
unfoldable pub set_flag : ℕ → ℕ → ℕ
unfolding has
set_flag flag pte = if has flag pte then pte else pte + flag

-- pte &= ~flag
unfoldable pub clear_flag : ℕ → ℕ → ℕ
unfolding has
clear_flag flag pte = if has flag pte then pte - flag else pte

unfoldable pub pa_to_pte : ℕ → ℕ
pa_to_pte pa = pa / 2 ^ 12 * 2 ^ 10

unfoldable pub pte_to_pa : ℕ → ℕ
pte_to_pa pte = pte / 2 ^ 10 * 2 ^ 12 % 2 ^ 64

unfoldable pub pte_flags : ℕ → ℕ
pte_flags pte = pte % 2 ^ 10

-- PA2PTE(pa) | perm | PTE_V
unfoldable pub make_pte : ℕ → ℕ → ℕ
unfolding set_flag pa_to_pte
make_pte pa perm = set_flag pte_v (bit_or (pa_to_pte pa) perm)

-- PX(level, va)
unfoldable pub px : ℕ → ℕ → ℕ
px level va = va / 2 ^ (12 + 9 * level) % 512

-- 1 << 38
abbrev pub maxva : ℕ
maxva = 0x4000000000

abbrev pub trampoline_va : ℕ
trampoline_va = maxva - 4096

abbrev pub trapframe_va : ℕ
trapframe_va = trampoline_va - 4096
