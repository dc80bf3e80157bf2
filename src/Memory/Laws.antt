-- ===== src/Memory/Laws.antt =====
-- What a load reads after a store, a fill or a copy.
use native.Mathlib.Nat.{pow-suc}
use xv6_part2_and_concurrenc.Base.{
  ℕ, zero, suc, ◌+◌, ◌-◌, ◌/◌, ◌%◌, ◌^◌, ◌≤◌, ◌<◌, ◌≡◌, refl, ◌⊎◌, arith, update,
}
use xv6_part2_and_concurrenc.Memory.{Mem, load_le, store_le, load64, store64, fill, copy}

-- A store of `n` bytes leaves every byte outside them.
store_le-outside : (n : ℕ) (m : Mem) (a v x : ℕ) → (x < a) ⊎ (a + n ≤ x) → store_le n m a v x ≡ m x
unfolding store_le
store_le-outside zero m a v x h = refl
store_le-outside (suc n) m a v x h =
    ground (arith, store_le-outside n (update m a (v % 256)) (a + 1) (v / 256) x)

load_le-store_le : (n : ℕ) (m : Mem) (a v : ℕ) → v < 256 ^ n → load_le n (store_le n m a v) a ≡ v
unfolding load_le store_le
load_le-store_le zero m a v h = omega arith
load_le-store_le (suc n) m a v h = ground (
  arith,
  pow-suc 256 n,
  store_le-outside n (update m a (v % 256)) (a + 1) (v / 256) a,
  load_le-store_le n (update m a (v % 256)) (a + 1) (v / 256),
)

-- Two memories that agree on the bytes of a load give the same number.
load_le-congr :
    (n : ℕ) (m m' : Mem) (a : ℕ)
    → ((x : ℕ) → a ≤ x → x < a + n → m' x ≡ m x)
    → load_le n m' a ≡ load_le n m a
unfolding load_le
load_le-congr zero m m' a h = refl
load_le-congr (suc n) m m' a h = omega (
  arith,
  h a (omega arith) (omega arith),
  load_le-congr n m m' (a + 1) (λ x lo hi. h x (omega arith) (omega arith)),
)

pub load64-store64 : (m : Mem) (a v : ℕ) → v < 2 ^ 64 → load64 (store64 m a v) a ≡ v
unfolding load64 store64
load64-store64 m a v h = load_le-store_le 8 m a v h

-- A store elsewhere leaves the word.
pub load64-store64_ne :
    (m : Mem) (a b v : ℕ) → (a + 8 ≤ b) ⊎ (b + 8 ≤ a) → load64 (store64 m b v) a ≡ load64 m a
unfolding load64 store64
load64-store64_ne m a b v h =
    load_le-congr 8 m _ a λ x lo hi. store_le-outside 8 m b v x (omega arith)

pub load64-fill :
    (m : Mem) (a dst c n : ℕ)
    → (a + 8 ≤ dst) ⊎ (dst + n ≤ a)
    → load64 (fill m dst c n) a ≡ load64 m a
unfolding fill load64
load64-fill m a dst c n h = load_le-congr 8 m (fill m dst c n) a λ x lo hi. ground arith

pub load64-fill_zero :
    (m : Mem) (a dst n : ℕ) → dst ≤ a → a + 8 ≤ dst + n → load64 (fill m dst 0 n) a ≡ 0
unfolding fill load64
load64-fill_zero m a dst n lo hi =
    load_le-congr 8 (λ _. 0) (fill m dst 0 n) a λ x lo' hi'. ground arith

pub load64-copy :
    (m : Mem) (a dst src n : ℕ)
    → (a + 8 ≤ dst) ⊎ (dst + n ≤ a)
    → load64 (copy m dst src n) a ≡ load64 m a
unfolding copy load64
load64-copy m a dst src n h = load_le-congr 8 m (copy m dst src n) a λ x lo hi. ground arith

-- Bytes outside a store, a fill or a copy stay.
pub store64-outside : (m : Mem) (a v x : ℕ) → (x < a) ⊎ (a + 8 ≤ x) → store64 m a v x ≡ m x
unfolding store64
store64-outside m a v x h = store_le-outside 8 m a v x h

pub fill-outside : (m : Mem) (dst c n x : ℕ) → (x < dst) ⊎ (dst + n ≤ x) → fill m dst c n x ≡ m x
unfolding fill
fill-outside m dst c n x h = ground arith

pub copy-outside :
    (m : Mem) (dst src n x : ℕ) → (x < dst) ⊎ (dst + n ≤ x) → copy m dst src n x ≡ m x
unfolding copy
copy-outside m dst src n x h = ground arith

pub copy-inside :
    (m : Mem) (dst src n i : ℕ) → i < n → copy m dst src n (dst + i) ≡ m (src + (dst + i - dst))
unfolding copy
copy-inside m dst src n i h = ground arith

pub fill-inside : (m : Mem) (dst c n i : ℕ) → i < n → fill m dst c n (dst + i) ≡ c % 256
unfolding fill
fill-inside m dst c n i h = ground arith
