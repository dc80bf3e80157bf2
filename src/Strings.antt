-- ===== src/Strings.antt =====
-- initial-xv6/src/kernel/string.c: the loops of memset(), memmove() and safestrcpy() on bytes.
-- Addresses are natural numbers.
pub mod Copying
mod Tests
use xv6_part2_and_concurrenc.Base.{
  ℕ, zero, suc, ◌+◌, ◌-◌, ◌%◌, ◌&&◌, ltb, true, false, ◌==◌, if◌then◌else◌, update,
}
use xv6_part2_and_concurrenc.Memory.{Mem}

-- memset()
unfoldable pub set_bytes : Mem → ℕ → ℕ → ℕ → Mem
set_bytes m dst c zero = m
set_bytes m dst c (suc n) = update (set_bytes m dst c n) (dst + n) (c % 256)

-- while(n-- > 0) *--d = *--s, from the ends on.
unfoldable pub copy_down : Mem → ℕ → ℕ → ℕ → Mem
copy_down m dst src zero = m
copy_down m dst src (suc n) = copy_down (update m (dst + n) (m (src + n))) dst src n

-- while(n-- > 0) *d++ = *s++
unfoldable pub copy_up : Mem → ℕ → ℕ → ℕ → Mem
copy_up m d s zero = m
copy_up m d s (suc n) = copy_up (update m d (m s)) (d + 1) (s + 1) n

-- memmove()
unfoldable pub move_bytes : Mem → ℕ → ℕ → ℕ → Mem
move_bytes m dst src n =
    if n == 0
    then m
    else if ltb src dst && ltb dst (src + n)
    then copy_down m dst src n
    else copy_up m dst src n

-- The loop of safestrcpy() and the NUL behind it, with `left` rounds at most. At a NUL of `t` the
-- pointer has moved on already, so that the byte behind it is cleared too.
unfoldable pub safe_rounds : Mem → ℕ → ℕ → ℕ → Mem
safe_rounds m s t zero = update m s 0
safe_rounds m s t (suc left) = elim (m t == 0) [
  | true ↦ update (update m s (m t)) (s + 1) 0
  | false ↦ safe_rounds (update m s (m t)) (s + 1) (t + 1) left
]

unfoldable pub safestrcpy : Mem → ℕ → ℕ → ℕ → Mem
safestrcpy m s t zero = m
safestrcpy m s t (suc n) = safe_rounds m s t n
