-- ===== src/Base/Pigeonhole.antt =====
-- A function that sends the first `n` numbers to different ones of them meets each, and sums over them
-- can be taken in its order.
use Prim.Native.Nat.{ℕ, zero, suc, ◌≤◌, ◌<◌}
use mathlib.Core.Path.{◌≡◌, refl, sym, ap, ◌∙◌}
use mathlib.Core.Logic.{◌≢◌, inl, inr}
use mathlib.Core.Option.{Option, none, some, some-injective, none-ne-some}
use native.Mathlib.Omega.{arith}
use native.Mathlib.Decide.{ℕ_discrete}
use xv6_part2_and_concurrenc.Base.Tests.{Option-cases}
use xv6_part2_and_concurrenc.Base.Update.{
  update, update-eq, update-ne, total, total-update, total-lt, total-eq-zero, total-zero, total-suc,
  total_congr,
}

module _ (f : ℕ → ℕ) (n : ℕ) (within : (i : ℕ) → i < n → f i < n)
    (apart : (i j : ℕ) → i < j → j < n → f i ≢ f j) where
  -- What the first `k` numbers are sent to.
  slots : ℕ → ℕ → Option ℕ
  slots zero = λ p. none
  slots (suc k) = update (slots k) (f k) (some k)

  slots-some : (k p i : ℕ) → slots k p ≡ some i → (i < k) × (f i ≡ p)
  unfolding slots
  slots-some zero p i e = absurd (none-ne-some i e)
  slots-some (suc k) p i e = elim (ℕ_discrete p (f k)) [
    | yes here ↦
        let last = some-injective k i (sym (update-eq (slots k) (f k) (some k) p here) ∙ e) in
        (omega arith, ap f (sym last) ∙ sym here)
    | no away ↦
        let (lt, at) = slots-some k p i (sym (update-ne (slots k) (f k) (some k) p away) ∙ e) in
        (omega arith, at)
  ]

  slots-free : (k : ℕ) → k < n → slots k (f k) ≡ none
  slots-free k h = elim (Option-cases (slots k (f k))) [
    | inl free ↦ free
    | inr (i, taken) ↦ let (lt, at) = slots-some k (f k) i taken in absurd (apart i k lt h at)
  ]

  -- A weight for the numbers, 0 for an empty slot.
  module _ (v : ℕ → ℕ) where
    slot_weight : Option ℕ → ℕ
    slot_weight none = 0
    slot_weight (some i) = v i

    slots-total : (k : ℕ) → k ≤ n → total slot_weight n (slots k) ≡ total v k (λ i. i)
    unfolding slots slot_weight
    slots-total zero h =
        total-eq-zero slot_weight n (slots 0) (λ i l. refl) ∙ sym (total-zero v (λ i. i))
    slots-total (suc k) h = omega (
      arith,
      total-update slot_weight n (slots k) (f k) (some k) (within k (omega arith)),
      ap slot_weight (slots-free k (omega arith)),
      slots-total k (omega arith),
      total-suc v k (λ i. i),
    )

  one_each : (k : ℕ) → total (λ i. 1) k (λ i. i) ≡ k
  one_each zero = total-zero (λ i. 1) (λ i. i)
  one_each (suc k) = omega (arith, total-suc (λ i. 1) k (λ i. i), one_each k)

  small_weight : (o : Option ℕ) → slot_weight (λ i. 1) o ≤ 1
  unfolding slot_weight
  small_weight none = omega arith
  small_weight (some i) = omega arith

  empty_weight : (o : Option ℕ) → o ≡ none → slot_weight (λ i. 1) o ≡ 0
  unfolding slot_weight
  empty_weight o e = ap (slot_weight (λ i. 1)) e

  filled : (p : ℕ) → p < n → (i : ℕ) × (slots n p ≡ some i) × (i < n) × (f i ≡ p)
  filled p h = elim (Option-cases (slots n p)) [
    | inl free ↦ absurd (
        omega (
          arith,
          total-lt (slot_weight (λ i. 1)) small_weight n (slots n) p h
              (empty_weight (slots n p) free),
          slots-total (λ i. 1) n (omega arith),
          one_each n,
        ))
    | inr (i, taken) ↦ let (lt, at) = slots-some n p i taken in (i, taken, lt, at)
  ]

  pub reached : (p : ℕ) → p < n → (i : ℕ) × (i < n) × (f i ≡ p)
  reached p h = let (i, taken, lt, at) = filled p h in (i, lt, at)

  full_weight : (v : ℕ → ℕ) (p i : ℕ) → slots n p ≡ some i → slot_weight v (slots n p) ≡ v i
  unfolding slot_weight
  full_weight v p i e = ap (slot_weight v) e

  -- The sum of `w` over the values of `g` is that of `v`, when `v i` is the weight at `f i`.
  pub total-reached :
      {B : Type 0} (w : B → ℕ) (g : ℕ → B) (v : ℕ → ℕ)
      → ((i : ℕ) → i < n → w (g (f i)) ≡ v i)
      → total w n g ≡ total v n (λ i. i)
  total-reached w g v same =
      total_congr w (slot_weight v) n g (slots n) (λ p h.
        let (i, taken, lt, at) = filled p h in
        ap (λ x. w (g x)) (sym at) ∙ same i lt ∙ sym (full_weight v p i taken))
      ∙ slots-total v n (omega arith)
