-- ===== src/Kernel.antt =====
-- The state that the memory code of the kernel shares, and the way its functions run: from a state
-- to a result and a new state, or into panic(). The free list of kernel/kalloc.c is linked through
-- the first word of each free page (`struct run`); `ref` is `pageref.ref`, by page number, each
-- count an int held as its 32-bit pattern.
use xv6_part2_and_concurrenc.Base.{ℕ}
use xv6_part2_and_concurrenc.Memory.{Mem}

pub record Kernel : Type 0 where
  pub mem : Mem
  pub freelist : ℕ
  pub ref : ℕ → ℕ

pub data Run (A : Type 0) : Type 0 where
  ok : A → Kernel → Run A
  panic : Run A

abbrev pub M : Type 0 → Type 0
M A = Kernel → Run A

abbrev pub pure : {A : Type 0} → A → M A
pure a k = ok a k

-- What follows a run: nothing after a panic.
abbrev pub and_then : {A B : Type 0} → Run A → (A → M B) → Run B
and_then (ok a k) f = f a k
and_then panic f = panic

infixl 5 ◌>>=◌ ◌>>◌
abbrev pub ◌>>=◌ : {A B : Type 0} → M A → (A → M B) → M B
◌>>=◌ m f k = and_then (m k) f

abbrev pub ◌>>◌ : {B : Type 0} → M (Unit {0}) → M B → M B
m >> n = m >>= λ _. n

-- panic(s): the kernel stops.
abbrev pub halt : {A : Type 0} → M A
halt k = panic

abbrev pub get : M Kernel
get k = ok k k

abbrev pub put : Kernel → M (Unit {0})
put k' k = ok tt k'

-- The run does not panic, and `P` holds of its result and the state it ends in.
pub data Returns {A : Type 0} (P : A → Kernel → Type 0) : Run A → Type 0 where
  returns : {a : A} {k : Kernel} → P a k → Returns P (ok a k)

module _ {A : Type 0} {P : A → Kernel → Type 0} where
  -- What follows a run that returns returns, if it does so from each result.
  pub Returns-and_then :
      {B : Type 0} {Q : B → Kernel → Type 0} {r : Run A} {f : A → M B}
      → Returns P r
      → ((a : A) (k : Kernel) → P a k → Returns Q (f a k))
      → Returns Q (and_then r f)
  Returns-and_then (returns p) next = next _ _ p

  pub Returns-mono :
      {Q : A → Kernel → Type 0} {r : Run A}
      → Returns P r
      → ((a : A) (k : Kernel) → P a k → Q a k)
      → Returns Q r
  Returns-mono (returns p) weaken = returns (weaken _ _ p)

  pub Returns-ok : {a : A} {k : Kernel} → Returns P (ok a k) → P a k
  Returns-ok (returns p) = p
