-- ===== src/Sorting/Ranges.antt =====
-- Ranges of an array: the entries weighed and added up, and the ranges in order.
use xv6_part2_and_concurrenc.Base.{
  ℕ, zero, suc, ◌+◌, ◌-◌, ◌≤◌, ◌<◌, ◌≡◌, refl, List, arith, update, ◌⊎◌, dec_lt, sym, ◌∙◌, ◌-◌,
}
use xv6_part2_and_concurrenc.Sorting.{ℤ, FileEntry}
use xv6_part2_and_concurrenc.Sorting.Order.{Ordered}

assoc : (a b c : ℕ) → a + (b + c) ≡ a + b + c
assoc a b c = omega arith

suc_right : (a b : ℕ) → a + suc b ≡ suc (a + b)
suc_right a b = omega arith

pub add_zero : (a : ℕ) → a + 0 ≡ a
add_zero a = omega arith

pub add_suc : (a b : ℕ) → a + suc b ≡ suc a + b
add_suc a b = omega arith

module _ (w : FileEntry → ℕ) where
  pub weigh : (ℕ → FileEntry) → ℕ → ℕ → ℕ
  weigh files start zero = 0
  weigh files start (suc n) = weigh files start n + w (files (start + n))

  pub weigh-congr :
      (f g : ℕ → FileEntry) (start n : ℕ)
      → ((i : ℕ) → start ≤ i → i < start + n → f i ≡ g i)
      → weigh f start n ≡ weigh g start n
  unfolding weigh
  weigh-congr f g start zero h = refl
  weigh-congr f g start (suc n) h =
      rw (h (start + n) (omega arith) (omega arith))
        (rw (weigh-congr f g start n (λ i l u. h i l (omega arith))) refl)

  pub weigh-shift :
      (f g : ℕ → FileEntry) (s t n : ℕ)
      → ((i : ℕ) → i < n → f (s + i) ≡ g (t + i))
      → weigh f s n ≡ weigh g t n
  unfolding weigh
  weigh-shift f g s t zero h = refl
  weigh-shift f g s t (suc n) h =
      rw (h n (omega arith)) (rw (weigh-shift f g s t n (λ i l. h i (omega arith))) refl)

  pub weigh-suc :
      (f : ℕ → FileEntry) (start n : ℕ)
      → weigh f start (suc n) ≡ weigh f start n + w (f (start + n))
  unfolding weigh
  weigh-suc f start n = refl

  pub weigh-zero : (f : ℕ → FileEntry) (start : ℕ) → weigh f start 0 ≡ 0
  unfolding weigh
  weigh-zero f start = refl

  pub weigh-append :
      (f : ℕ → FileEntry) (start m n : ℕ)
      → weigh f start (m + n) ≡ weigh f start m + weigh f (start + m) n
  weigh-append f start m zero = rw (add_zero m) (omega (arith, weigh-zero f (start + m)))
  weigh-append f start m (suc n) = rw (suc_right m n) (
      rw (weigh-suc f start (m + n)) (
        rw (weigh-suc f (start + m) n)
          (rw (assoc start m n) (omega (arith, weigh-append f start m n)))))

  weigh-update_above :
      (f : ℕ → FileEntry) (start n i : ℕ) (e : FileEntry)
      → start + n ≤ i
      → weigh (update f i e) start n ≡ weigh f start n
  weigh-update_above f start n i e h = weigh-congr (update f i e) f start n (λ j l u. ground arith)

  -- One entry replaced.
  pub weigh-update :
      (f : ℕ → FileEntry) (start n i : ℕ) (e : FileEntry)
      → i < n
      → weigh (update f (start + i) e) start n + w (f (start + i)) ≡ weigh f start n + w e
  unfolding weigh
  weigh-update f start zero i e h = absurd (omega arith)
  weigh-update f start (suc n) i e h = elim (dec_lt i n) [
    | yes below ↦ ground (arith, weigh-update f start n i e below)
    | no last ↦ ground (arith, weigh-update_above f start n (start + i) e)
  ]

  -- The range without its first entry.
  pub weigh-head :
      (f : ℕ → FileEntry) (start n : ℕ)
      → weigh f start (suc n) ≡ w (f start) + weigh f (suc start) n
  unfolding weigh
  weigh-head f start zero = rw (add_zero start) (omega arith)
  weigh-head f start (suc n) = rw (add_suc start n) (omega (arith, weigh-head f start n))

module _ (strcmp : List ℕ → List ℕ → ℤ) (column_type : ℕ) where
  -- The `n` entries from `start` on are in order.
  unfoldable pub IsSorted : (ℕ → FileEntry) → ℕ → ℕ → Type 0
  IsSorted files start n =
      (i j : ℕ) → start ≤ i → i < j → j < start + n → Ordered strcmp column_type (files i) (files j)

  pub IsSorted-congr :
      (f g : ℕ → FileEntry) (start n : ℕ)
      → ((i : ℕ) → start ≤ i → i < start + n → f i ≡ g i)
      → IsSorted f start n
      → IsSorted g start n
  unfolding IsSorted
  IsSorted-congr f g start n h s i j l lt u =
      rw (sym (h i l (omega arith))) (rw (sym (h j (omega arith) u)) (s i j l lt u))

-- The entries of `after` from `start` on are those of `before`, `n` of them, in order: they have the
-- same total for every way to weigh an entry. Outside, nothing has changed.
pub record IsSortedCopy (strcmp : List ℕ → List ℕ → ℤ) (column_type : ℕ)
    (before after : ℕ → FileEntry) (start n : ℕ) : Type 0 where
  pub sorted : IsSorted strcmp column_type after start n
  pub same : (w : FileEntry → ℕ) → weigh w after start n ≡ weigh w before start n
  pub outside : (i : ℕ) → (i < start) ⊎ (start + n ≤ i) → after i ≡ before i

module _ (strcmp : List ℕ → List ℕ → ℤ) (column_type : ℕ) {before after : ℕ → FileEntry}
    (start n : ℕ) (c : IsSortedCopy strcmp column_type before after start n) where
  -- A larger range around the sorted one weighs as much as before.
  pub widen-same :
      (w : FileEntry → ℕ) (base pre post whole : ℕ)
      → start ≡ base + pre
      → whole ≡ pre + n + post
      → weigh w after base whole ≡ weigh w before base whole
  widen-same w base pre post whole e e' = rw e' (
      rw (weigh-append w after base (pre + n) post) (
        rw (weigh-append w before base (pre + n) post) (
          rw (weigh-append w after base pre n) (
            rw (weigh-append w before base pre n) (
              rw (← e) (
                rw (weigh-congr w after before base pre (λ i l u. c.outside i (omega arith))) (
                  rw
                    (weigh-congr w after before (base + (pre + n)) post
                      (λ i l u. c.outside i (omega arith)))
                    (rw (c.same w) refl))))))))

  -- A range sorted before it, clear of it, still is.
  pub outside-IsSorted :
      (base m : ℕ)
      → (base + m ≤ start) ⊎ (start + n ≤ base)
      → IsSorted strcmp column_type before base m
      → IsSorted strcmp column_type after base m
  outside-IsSorted base m clear s =
      IsSorted-congr strcmp column_type before after base m
        (λ i l u. sym (c.outside i (omega arith))) s

-- A range sorted, then a larger one from the same start on.
pub IsSortedCopy-larger :
    (strcmp : List ℕ → List ℕ → ℤ) (column_type : ℕ) {before middle after : ℕ → FileEntry}
    (start m n : ℕ)
    → m ≤ n
    → IsSortedCopy strcmp column_type before middle start m
    → IsSortedCopy strcmp column_type middle after start n
    → IsSortedCopy strcmp column_type before after start n
IsSortedCopy-larger strcmp column_type {before} {middle} {after} start m n le c d = record {
  sorted = d.sorted;
  same = λ w.
      d.same w
      ∙ widen-same strcmp column_type start m c w start 0 (n - m) n (omega arith) (omega arith);
  outside = λ i out. d.outside i out ∙ c.outside i (omega arith);
}
