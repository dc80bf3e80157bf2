-- ===== src/Pte/Laws.antt =====
-- What the flags and the address of an entry are after each change of it.
use xv6_part2_and_concurrenc.Base.{
  ℕ, ◌+◌, ◌*◌, ◌/◌, ◌%◌, ◌^◌, ◌<◌, ◌≡◌, true, false, ◌||◌, arith, ◌==◌, if◌then◌else◌,
}
use xv6_part2_and_concurrenc.Base.Bits.{bit_or_flags}
use xv6_part2_and_concurrenc.Pte.{
  pte_v, pte_w, pte_u, pte_c, has, set_flag, clear_flag, pte_to_pa, pte_flags, make_pte, px,
}

pub px-lt : (level va : ℕ) → px level va < 512
unfolding px
px-lt level va = omega arith

pub pte_to_pa-aligned : (pte : ℕ) → pte_to_pa pte % 4096 ≡ 0
unfolding pte_to_pa
pte_to_pa-aligned pte = omega arith

pub make_pte-eq :
    (pa perm : ℕ) → perm < 1024 → make_pte pa perm ≡ set_flag pte_v (pa / 4096 * 1024 + perm)
unfolding make_pte
make_pte-eq pa perm small = rw (bit_or_flags (pa / 4096) perm small)

-- The entry made for a page address and flags gives both back.
pub make_pte_fields :
    (pa perm : ℕ)
    → pa % 4096 ≡ 0
    → pa < 2 ^ 56
    → perm < 1024
    → (make_pte pa perm < 2 ^ 54)
      × (pte_to_pa (make_pte pa perm) ≡ pa)
      × (pte_flags (make_pte pa perm) ≡ set_flag pte_v perm)
      × (has pte_v (make_pte pa perm) ≡ true)
unfolding pte_to_pa pte_flags set_flag
make_pte_fields pa perm al fits small =
    rw (make_pte-eq pa perm small) (ground arith, ground arith, ground arith, ground arith)

-- A flag other than PTE_V in the made entry is that of `perm`.
pub make_pte-has :
    (pa perm : ℕ)
    → pa % 4096 ≡ 0
    → perm < 1024
    → (has pte_w (make_pte pa perm) ≡ has pte_w perm)
      × (has pte_u (make_pte pa perm) ≡ has pte_u perm)
      × (has pte_c (make_pte pa perm) ≡ has pte_c perm)
unfolding set_flag
make_pte-has pa perm al small =
    rw (make_pte-eq pa perm small) (ground arith, ground arith, ground arith)

-- What `flags &= ~PTE_C; flags |= PTE_W` makes of an entry.
pub writable_flags :
    (pte : ℕ)
    → (has pte_w (set_flag pte_w (clear_flag pte_c pte)) ≡ true)
      × (has pte_c (set_flag pte_w (clear_flag pte_c pte)) ≡ false)
      × (has pte_u (set_flag pte_w (clear_flag pte_c pte)) ≡ has pte_u pte)
      × (has pte_v (set_flag pte_w (clear_flag pte_c pte)) ≡ has pte_v pte)
unfolding set_flag clear_flag
writable_flags pte = (ground arith, ground arith, ground arith, ground arith)

-- What `*pte |= PTE_C; *pte &= ~PTE_W` makes of an entry.
pub cow_flags :
    (pte : ℕ)
    → (has pte_w (clear_flag pte_w (set_flag pte_c pte)) ≡ false)
      × (has pte_c (clear_flag pte_w (set_flag pte_c pte)) ≡ true)
      × (has pte_u (clear_flag pte_w (set_flag pte_c pte)) ≡ has pte_u pte)
      × (has pte_v (clear_flag pte_w (set_flag pte_c pte)) ≡ has pte_v pte)
unfolding set_flag clear_flag
cow_flags pte = (ground arith, ground arith, ground arith, ground arith)

-- All the addresses of a page have the same indices.
pub px-pgrounddown :
    (va : ℕ)
    → (px 2 (va / 4096 * 4096) ≡ px 2 va)
      × (px 1 (va / 4096 * 4096) ≡ px 1 va)
      × (px 0 (va / 4096 * 4096) ≡ px 0 va)
unfolding px
px-pgrounddown va = (omega arith, omega arith, omega arith)

-- A user entry is more than a pointer to a table.
pub user-not_table : (pte : ℕ) → has pte_u pte ≡ true → (pte_flags pte == pte_v) ≡ false
unfolding pte_flags has
user-not_table pte h = ground arith

-- Setting and clearing a flag keeps an entry a word.
pub own_word :
    (pte : ℕ)
    → pte < 2 ^ 54
    → (set_flag pte_w pte < 2 ^ 64) × (clear_flag pte_c (set_flag pte_w pte) < 2 ^ 64)
unfolding set_flag clear_flag
own_word pte h = (ground arith, ground arith)

-- What `*pte |= PTE_W; *pte &= ~PTE_C` makes of an entry.
pub own_flags :
    (pte : ℕ)
    → (has pte_w (clear_flag pte_c (set_flag pte_w pte)) ≡ true)
      × (has pte_c (clear_flag pte_c (set_flag pte_w pte)) ≡ false)
      × (has pte_u (clear_flag pte_c (set_flag pte_w pte)) ≡ has pte_u pte)
      × (has pte_v (clear_flag pte_c (set_flag pte_w pte)) ≡ has pte_v pte)
      × (pte_to_pa (clear_flag pte_c (set_flag pte_w pte)) ≡ pte_to_pa pte)
unfolding set_flag clear_flag pte_to_pa
own_flags pte = (ground arith, ground arith, ground arith, ground arith, ground arith)

pub flags-lt : (pte : ℕ) → set_flag pte_w (clear_flag pte_c (pte_flags pte)) < 1024
unfolding set_flag clear_flag pte_flags has
flags-lt pte = ground arith

pub has-flags :
    (pte : ℕ)
    → (has pte_u (pte_flags pte) ≡ has pte_u pte) × (has pte_v (pte_flags pte) ≡ has pte_v pte)
unfolding has pte_flags
has-flags pte = (ground arith, ground arith)

-- The parent's entry after uvmcopy(): never writable, marked if it was writable, else unchanged.
pub protected_flags :
    (pte : ℕ)
    → let pte' = if has pte_w pte then clear_flag pte_w (set_flag pte_c pte) else pte in
      (has pte_w pte' ≡ false)
      × (has pte_c pte' ≡ (has pte_w pte || has pte_c pte))
      × (has pte_u pte' ≡ has pte_u pte)
      × (has pte_v pte' ≡ has pte_v pte)
      × (pte_to_pa pte' ≡ pte_to_pa pte)
unfolding set_flag clear_flag pte_to_pa
protected_flags pte = (ground arith, ground arith, ground arith, ground arith, ground arith)

pub protected_word :
    (pte : ℕ)
    → pte < 2 ^ 54
    → (if has pte_w pte then clear_flag pte_w (set_flag pte_c pte) else pte) < 2 ^ 64
unfolding set_flag clear_flag
protected_word pte h = ground arith

-- The low ten bits of an entry have its flags.
pub low_flags :
    (pte : ℕ)
    → (has pte_w (pte_flags pte) ≡ has pte_w pte)
      × (has pte_c (pte_flags pte) ≡ has pte_c pte)
      × (has pte_u (pte_flags pte) ≡ has pte_u pte)
      × (pte_flags pte < 1024)
unfolding has pte_flags
low_flags pte = (ground arith, ground arith, ground arith, ground arith)
