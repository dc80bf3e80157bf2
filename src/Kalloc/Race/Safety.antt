-- ===== src/Kalloc/Race/Safety.antt =====
-- What the interleavings of Kalloc/Race keep, and the one that loses a page.
use mathlib.Core.Path.{subst}
use xv6_part2_and_concurrenc.Base.{
  ℕ, ◌+◌, ◌-◌, ◌/◌, ◌%◌, ◌^◌, ◌≤◌, ◌<◌, ◌≡◌, refl, sym, ◌⊎◌, inl, inr, false, List, ◌∷◌, arith,
  update, total, total-update, total-eq-zero, total-lt, total-lt_two, total-add, Bool-cases, ap,
  ◌∙◌, dec_lt,
}
use xv6_part2_and_concurrenc.Memory.{pgsize}
use xv6_part2_and_concurrenc.Kernel.{
  Kernel, Returns, returns, Returns-mono, Returns-ok, Returns-and_then,
}
use xv6_part2_and_concurrenc.Kalloc.{gt_one, release_page}
use xv6_part2_and_concurrenc.Kalloc.FreeList.{
  Fresh, IsPage, IsFree, get_refcnt-ok, release_page-IsFree,
}
use xv6_part2_and_concurrenc.Kalloc.Refcount.{refcnt_dec-ok}
use xv6_part2_and_concurrenc.Kalloc.Race.{
  Pc, start, counted, dropped, freed, hart_step, hart_step-start, hart_step-counted, System, Step,
  step, Reach, here, later,
}

abbrev is_dropped : Pc → ℕ
is_dropped dropped = 1
is_dropped _ = 0

abbrev is_freed : Pc → ℕ
is_freed freed = 1
is_freed _ = 0

-- A hart that is about to free the page, or has freed it.
abbrev IsLast : Pc → Type 0
IsLast (counted c) = gt_one c ≡ false
IsLast freed = Unit
IsLast _ = ⊥

module _ (e pa n : ℕ) (xs : List ℕ) where
  record Inv (s : System) : Type 0 where
    kept : s.kernel.ref (pa / pgsize) + total is_dropped n s.pc ≡ n
    last : (i : ℕ) → i < n → IsLast (s.pc i) → n ≤ total is_dropped n s.pc + 1
    none_freed : total is_freed n s.pc ≡ 0 → IsFree e s.kernel xs
    one_freed : total is_freed n s.pc ≡ 1 → IsFree e s.kernel (pa ∷ xs)
    few_freed : total is_freed n s.pc ≤ 1

  module _ (page : IsPage e pa) (fresh : Fresh pa xs) (small : n < 2 ^ 31) where
    -- While a hart is the last to hold the page, nobody has freed it.
    none_yet :
        (s : System) (i : ℕ)
        → Inv s
        → i < n
        → (is_dropped (s.pc i) ≡ 0) × (is_freed (s.pc i) ≡ 0)
        → n ≤ total is_dropped n s.pc + 1
        → total is_freed n s.pc ≡ 0
    none_yet s i inv lt w all = omega (
      arith,
      total-add is_dropped is_freed n s.pc,
      total-lt (λ p. is_dropped p + is_freed p) (λ p. ground arith) n s.pc i lt (omega arith),
    )

    module _ (s : System) (i : ℕ) (inv : Inv s) (lt : i < n) where
      open inv use {kept, last, none_freed, one_freed, few_freed}

      count-Inv :
          s.pc i ≡ start
          → Inv (record {
            kernel = s.kernel;
            pc = update s.pc i (counted (s.kernel.ref (pa / pgsize)));
          })
      count-Inv at = record {
        kept = ground (arith, total-update is_dropped n s.pc i c lt);
        last = λ j below is. ground (arith, total-update is_dropped n s.pc i c lt, last j below);
        none_freed = λ z. none_freed (ground (arith, total-update is_freed n s.pc i c lt));
        one_freed = λ z. one_freed (ground (arith, total-update is_freed n s.pc i c lt));
        few_freed = ground (arith, total-update is_freed n s.pc i c lt);
      }
        where
          c : Pc
          c = counted (s.kernel.ref (pa / pgsize))

      drop-Inv :
          (c : ℕ)
          → s.pc i ≡ counted c
          → Inv (record {
            kernel = record s.kernel {
              ref =
                  update s.kernel.ref
                    (pa / pgsize)
                    ((s.kernel.ref (pa / pgsize) + (2 ^ 32 - 1)) % 2 ^ 32);
            };
            pc = update s.pc i dropped;
          })
      drop-Inv c at = record {
        kept = omega (arith, room, kept, moved, same);
        last = λ j below is. ground (arith, moved, last j below);
        none_freed = λ z.
            let free = none_freed (ground (arith, still)) in
            record { chain = free.chain; pages = free.pages; distinct = free.distinct };
        one_freed = λ z.
            let free = one_freed (ground (arith, still)) in
            record { chain = free.chain; pages = free.pages; distinct = free.distinct };
        few_freed = ground (arith, still);
      }
        where
          moved : total is_dropped n (update s.pc i dropped) ≡ total is_dropped n s.pc + 1
          moved = ground (arith, total-update is_dropped n s.pc i dropped lt)

          still : total is_freed n (update s.pc i dropped) ≡ total is_freed n s.pc
          still = ground (arith, total-update is_freed n s.pc i dropped lt)

          room : total is_dropped n s.pc + 1 ≤ n
          room = total-lt is_dropped (λ p. ground arith) n s.pc i lt (ground arith)

          same :
              update s.kernel.ref
                (pa / pgsize)
                ((s.kernel.ref (pa / pgsize) + (2 ^ 32 - 1)) % 2 ^ 32)
                (pa / pgsize)
              ≡ (s.kernel.ref (pa / pgsize) + (2 ^ 32 - 1)) % 2 ^ 32
          same = ground arith

      free-Inv :
          (c : ℕ)
          → s.pc i ≡ counted c
          → gt_one c ≡ false
          → Returns
              (λ _ k. Inv (record { kernel = k; pc = update s.pc i freed }))
              (release_page e pa s.kernel)
      free-Inv c at one =
          Returns-mono (release_page-IsFree e s.kernel pa xs page fresh (none_freed none))
            λ _ k done. record {
              kept = ground (arith, still, done.1);
              last = λ j below is. ground (arith, still, last j below, all);
              none_freed = λ z. absurd (omega (arith, moved));
              one_freed = λ z. done.0;
              few_freed = omega (arith, moved, none);
            }
        where
          all : n ≤ total is_dropped n s.pc + 1
          all = last i lt (subst IsLast (sym at) one)

          none : total is_freed n s.pc ≡ 0
          none = none_yet s i inv lt (ground arith) all

          still : total is_dropped n (update s.pc i freed) ≡ total is_dropped n s.pc
          still = ground (arith, total-update is_dropped n s.pc i freed lt)

          moved : total is_freed n (update s.pc i freed) ≡ total is_freed n s.pc + 1
          moved = ground (arith, total-update is_freed n s.pc i freed lt)

      -- A hart that has left kfree() stays where it is.
      stay-Inv : (p : Pc) → s.pc i ≡ p → Inv (record { kernel = s.kernel; pc = update s.pc i p })
      stay-Inv p at = record {
        kept = ground (arith, total-update is_dropped n s.pc i p lt);
        last = λ j below is. ground (arith, total-update is_dropped n s.pc i p lt, last j below);
        none_freed = λ z. none_freed (ground (arith, total-update is_freed n s.pc i p lt));
        one_freed = λ z. one_freed (ground (arith, total-update is_freed n s.pc i p lt));
        few_freed = ground (arith, total-update is_freed n s.pc i p lt);
      }

      hart_step-Inv :
          (p : Pc)
          → s.pc i ≡ p
          → Returns
              (λ p' k. Inv (record { kernel = k; pc = update s.pc i p' }))
              (hart_step e pa p s.kernel)
      unfolding hart_step
      hart_step-Inv start at = rw (get_refcnt-ok e pa s.kernel page) (returns (count-Inv at))
      hart_step-Inv (counted c) at = elim (Bool-cases (gt_one c)) [
        | inl more ↦ rw more (rw (refcnt_dec-ok e pa s.kernel page) (returns (drop-Inv c at)))
        | inr one ↦ rw one (Returns-and_then (free-Inv c at one) (λ _ k inv'. returns inv'))
      ]
      hart_step-Inv dropped at = returns (stay-Inv dropped at)
      hart_step-Inv freed at = returns (stay-Inv freed at)

    Step-Inv : {s t : System} → Step e pa n s t → Inv s → Inv t
    Step-Inv (step {s} {k} {p} i lt h) inv =
        Returns-ok (subst (Returns _) h (hart_step-Inv s i inv lt (s.pc i) refl))

    Reach-Inv : {s t : System} → Reach e pa n s t → Inv s → Inv t
    Reach-Inv here inv = inv
    Reach-Inv (later r st) inv = Step-Inv st (Reach-Inv r inv)

-- All harts are about to call kfree() on a page that is in use as often as there are harts.
pub record IsShared (e pa n : ℕ) (xs : List ℕ) (s : System) : Type 0 where
  pub page : IsPage e pa
  pub fresh : Fresh pa xs
  pub free : IsFree e s.kernel xs
  pub count : s.kernel.ref (pa / pgsize) ≡ n
  pub small : n < 2 ^ 31
  pub at_start : (i : ℕ) → s.pc i ≡ start

module _ (e pa n : ℕ) (xs : List ℕ) where
  IsShared-Inv : {s : System} → IsShared e pa n xs s → Inv e pa n xs s
  IsShared-Inv {s} shared = record {
    kept = omega (arith, shared.count, none is_dropped refl);
    last = λ i lt is. absurd (subst IsLast (shared.at_start i) is);
    none_freed = λ z. shared.free;
    one_freed = λ z. absurd (omega (arith, none is_freed refl));
    few_freed = omega (arith, none is_freed refl);
  }
    where
      none : (w : Pc → ℕ) → w start ≡ 0 → total w n s.pc ≡ 0
      none w z = total-eq-zero w n s.pc λ i lt. ap w (shared.at_start i) ∙ z

  freed_unique :
      (t : System) (i j : ℕ) → Inv e pa n xs t → i < j → j < n → t.pc i ≡ freed → t.pc j ≡ freed → ⊥
  freed_unique t i j inv lt lt' at at' = omega (
    arith,
    inv.last i (omega arith) (subst IsLast (sym at) tt),
    total-lt_two is_dropped (λ p. ground arith) n t.pc i j lt lt' (ground arith) (ground arith),
  )

  -- Any number of harts below 2 ^ 31 call kfree() on a page that is in use as often and not on the
  -- free list, and their critical sections interleave in any way: no two of them put the page on
  -- the free list, that list is the old one or the old one with the page in front, and no hart's
  -- next section panics.
  pub kfree_interleaved :
      {s t : System}
      → IsShared e pa n xs s
      → Reach e pa n s t
      → ((i j : ℕ) → i < n → j < n → t.pc i ≡ freed → t.pc j ≡ freed → i ≡ j)
        × (IsFree e t.kernel xs ⊎ IsFree e t.kernel (pa ∷ xs))
        × ((i : ℕ) → i < n → Returns (λ _ _. Unit {0}) (hart_step e pa (t.pc i) t.kernel))
  kfree_interleaved {t} shared r = (
    λ i j lt lt' at at'. elim (dec_lt i j) [
      | yes below ↦ absurd (freed_unique t i j inv below lt' at at')
      | no above ↦ elim (dec_lt j i) [
        | yes below' ↦ absurd (freed_unique t j i inv below' lt at' at)
        | no above' ↦ omega arith
      ]
    ],
    elim (dec_lt (total is_freed n t.pc) 1) [
      | yes zero_freed ↦ inl (inv.none_freed (omega arith))
      | no some_freed ↦ inr (inv.one_freed (omega (arith, inv.few_freed)))
    ],
    λ i lt.
        Returns-mono
          (hart_step-Inv e pa n xs shared.page shared.fresh shared.small t i inv lt (t.pc i) refl)
          (λ _ _ _. tt),
  )
    where
      inv : Inv e pa n xs t
      inv = Reach-Inv e pa n xs shared.page shared.fresh shared.small r (IsShared-Inv shared)

-- Two harts that call kfree() on a page that is in use twice and not on the free list can both
-- return without putting it there: they reach a state in which both have only dropped the count,
-- the count is 0, and the free list is the old one.
pub kfree_leaks :
    (e pa : ℕ) (xs : List ℕ) (s : System)
    → IsShared e pa 2 xs s
    → (t : System) × Reach e pa 2 s t
      × (t.pc 0 ≡ dropped)
      × (t.pc 1 ≡ dropped)
      × (t.kernel.ref (pa / pgsize) ≡ 0)
      × IsFree e t.kernel xs
kfree_leaks e pa xs s shared =
    let k = s.kernel in
    let read = λ (p : Pc) (at : p ≡ start). hart_step-start e pa p k page at in
    let drop = λ (p : Pc) (k : Kernel) (at : p ≡ counted (s.kernel.ref (pa / pgsize))).
      hart_step-counted e pa p (s.kernel.ref (pa / pgsize)) k page at (ground arith) in
    (
      _,
      later
          (later
            (later (later here (step 0 (omega arith) (read _ (at_start 0))))
              (step 1 (omega arith) (read _ (at_start 1))))
            (step 0 (omega arith) (drop _ _ refl)))
          (step 1 (omega arith) (drop _ _ refl)),
      refl,
      refl,
      ground arith,
      record { chain = free.chain; pages = free.pages; distinct = free.distinct },
    )
  where
    open shared use {page, free, count, at_start}
