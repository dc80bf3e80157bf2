-- ===== src/Base/Update.antt =====
-- Functions on the numbers, changed at one point: arrays, memories, tables of threads.
use Prim.Native.Nat.{ℕ, zero, suc, ◌+◌, ◌≤◌, ◌<◌}
use mathlib.Core.Path.{◌≡◌, refl}
use mathlib.Core.Logic.{◌≢◌}
use native.Mathlib.Omega.{arith}
use native.Mathlib.Decide.{dec_lt}
use xv6_part2_and_concurrenc.Base.Tests.{◌==◌, if◌then◌else◌}

module _ {ℓ} {A : Type ℓ} where
  abbrev pub update : (ℕ → A) → ℕ → A → ℕ → A
  update f i a j = if j == i then a else f j

  pub update-eq : (f : ℕ → A) (i : ℕ) (e : A) (j : ℕ) → j ≡ i → update f i e j ≡ e
  update-eq f i e j h = ground arith

  pub update-ne : (f : ℕ → A) (i : ℕ) (e : A) (j : ℕ) → j ≢ i → update f i e j ≡ f j
  update-ne f i e j h = ground arith

  -- The number that `w` gives to each of the first `n` values, added up.
  pub total : (A → ℕ) → ℕ → (ℕ → A) → ℕ
  total w zero f = 0
  total w (suc n) f = total w n f + w (f n)

  total-update_of_le :
      (w : A → ℕ) (n : ℕ) (f : ℕ → A) (i : ℕ) (a : A)
      → n ≤ i
      → total w n (update f i a) ≡ total w n f
  unfolding total
  total-update_of_le w zero f i a h = refl
  total-update_of_le w (suc n) f i a h = ground (arith, total-update_of_le w n f i a)

  pub total-zero : (w : A → ℕ) (f : ℕ → A) → total w 0 f ≡ 0
  unfolding total
  total-zero w f = refl

  pub total-suc : (w : A → ℕ) (n : ℕ) (f : ℕ → A) → total w (suc n) f ≡ total w n f + w (f n)
  unfolding total
  total-suc w n f = refl

  pub total-four : (w : A → ℕ) (f : ℕ → A) → total w 4 f ≡ w (f 0) + w (f 1) + w (f 2) + w (f 3)
  unfolding total
  total-four w f = omega arith

  -- One value changed: the sum changes by the difference of its weights.
  pub total-update :
      (w : A → ℕ) (n : ℕ) (f : ℕ → A) (i : ℕ) (a : A)
      → i < n
      → total w n (update f i a) + w (f i) ≡ total w n f + w a
  unfolding total
  total-update w zero f i a h = absurd (omega arith)
  total-update w (suc n) f i a h = elim (dec_lt i n) [
    | yes below ↦ ground (arith, total-update w n f i a below)
    | no last ↦ ground (arith, total-update_of_le w n f i a)
  ]

  pub le-total : (w : A → ℕ) (n : ℕ) (f : ℕ → A) (i : ℕ) → i < n → w (f i) ≤ total w n f
  unfolding total
  le-total w zero f i h = absurd (omega arith)
  le-total w (suc n) f i h = elim (dec_lt i n) [
    | yes below ↦ omega (arith, le-total w n f i below)
    | no last ↦ ground arith
  ]

  pub total-eq-zero :
      (w : A → ℕ) (n : ℕ) (f : ℕ → A) → ((i : ℕ) → i < n → w (f i) ≡ 0) → total w n f ≡ 0
  unfolding total
  total-eq-zero w zero f h = refl
  total-eq-zero w (suc n) f h =
      omega (arith, total-eq-zero w n f (λ i lt. h i (omega arith)), h n (omega arith))

  -- Weights of at most 1.
  pub total-le : (w : A → ℕ) → ((a : A) → w a ≤ 1) → (n : ℕ) (f : ℕ → A) → total w n f ≤ n
  unfolding total
  total-le w small zero f = omega arith
  total-le w small (suc n) f = omega (arith, small (f n), total-le w small n f)

  pub total-lt :
      (w : A → ℕ)
      → ((a : A) → w a ≤ 1)
      → (n : ℕ) (f : ℕ → A) (i : ℕ) → i < n
      → w (f i) ≡ 0
      → total w n f + 1 ≤ n
  unfolding total
  total-lt w small zero f i h z = absurd (omega arith)
  total-lt w small (suc n) f i h z = elim (dec_lt i n) [
    | yes below ↦ omega (arith, small (f n), total-lt w small n f i below z)
    | no last ↦ ground (arith, total-le w small n f)
  ]

  pub total-lt_two :
      (w : A → ℕ)
      → ((a : A) → w a ≤ 1)
      → (n : ℕ) (f : ℕ → A) (i j : ℕ) → i < j
      → j < n
      → w (f i) ≡ 0
      → w (f j) ≡ 0
      → total w n f + 2 ≤ n
  unfolding total
  total-lt_two w small zero f i j h h' z z' = absurd (omega arith)
  total-lt_two w small (suc n) f i j h h' z z' = elim (dec_lt j n) [
    | yes below ↦ omega (arith, small (f n), total-lt_two w small n f i j h below z z')
    | no last ↦ ground (arith, total-lt w small n f i)
  ]

  pub total-add :
      (v w : A → ℕ) (n : ℕ) (f : ℕ → A) → total (λ a. v a + w a) n f ≡ total v n f + total w n f
  unfolding total
  total-add v w zero f = refl
  total-add v w (suc n) f = omega (arith, total-add v w n f)

-- Equal terms, of two functions.
pub total_congr {ℓ κ} :
    {A : Type ℓ} {B : Type κ} (v : A → ℕ) (w : B → ℕ) (n : ℕ) (f : ℕ → A) (g : ℕ → B)
    → ((i : ℕ) → i < n → v (f i) ≡ w (g i))
    → total v n f ≡ total w n g
unfolding total
total_congr v w zero f g h = refl
total_congr v w (suc n) f g h =
    omega (arith, h n (omega arith), total_congr v w n f g (λ i l. h i (omega arith)))

-- Sums of weights that depend on the index too.
module _ {ℓ} {A : Type ℓ} (v : ℕ → A → ℕ) where
  pub sum_by : ℕ → (ℕ → A) → ℕ
  sum_by zero f = 0
  sum_by (suc n) f = sum_by n f + v n (f n)

  sum_by-update_of_le :
      (n : ℕ) (f : ℕ → A) (i : ℕ) (a : A) → n ≤ i → sum_by n (update f i a) ≡ sum_by n f
  unfolding sum_by
  sum_by-update_of_le zero f i a h = refl
  sum_by-update_of_le (suc n) f i a h = ground (arith, sum_by-update_of_le n f i a)

  pub sum_by-update :
      (n : ℕ) (f : ℕ → A) (i : ℕ) (a : A)
      → i < n
      → sum_by n (update f i a) + v i (f i) ≡ sum_by n f + v i a
  unfolding sum_by
  sum_by-update zero f i a h = absurd (omega arith)
  sum_by-update (suc n) f i a h = elim (dec_lt i n) [
    | yes below ↦ ground (arith, sum_by-update n f i a below)
    | no last ↦ ground (arith, sum_by-update_of_le n f i a)
  ]

  pub le-sum_by : (n : ℕ) (f : ℕ → A) (i : ℕ) → i < n → v i (f i) ≤ sum_by n f
  unfolding sum_by
  le-sum_by zero f i h = absurd (omega arith)
  le-sum_by (suc n) f i h = elim (dec_lt i n) [
    | yes below ↦ omega (arith, le-sum_by n f i below)
    | no last ↦ ground arith
  ]

  pub le-sum_by_two :
      (n : ℕ) (f : ℕ → A) (i j : ℕ) → i < j → j < n → v i (f i) + v j (f j) ≤ sum_by n f
  unfolding sum_by
  le-sum_by_two zero f i j h h' = absurd (omega arith)
  le-sum_by_two (suc n) f i j h h' = elim (dec_lt j n) [
    | yes below ↦ omega (arith, le-sum_by_two n f i j h below)
    | no last ↦ ground (arith, le-sum_by n f i)
  ]

  pub sum_by-eq_zero : (n : ℕ) (f : ℕ → A) → ((i : ℕ) → v i (f i) ≡ 0) → sum_by n f ≡ 0
  unfolding sum_by
  sum_by-eq_zero zero f h = refl
  sum_by-eq_zero (suc n) f h = omega (arith, sum_by-eq_zero n f h, h n)
