-- ===== src/Kalloc/Race.antt =====
-- kfree() on several harts at once. get_refcnt(), refcnt_dec() and the push on the free list each
-- hold a lock, but kfree() holds none from the test to what follows it, so the harts interleave
-- between these three critical sections.
pub mod Safety
use xv6_part2_and_concurrenc.Base.{
  ℕ, zero, suc, ◌+◌, ◌-◌, ◌/◌, ◌%◌, ◌^◌, ◌≤◌, ◌<◌, ◌≡◌, refl, ◌≢◌, false, true, List, ◌∷◌, arith,
  if◌then◌else◌, update, total, total-update, total-eq-zero, total-lt, total-lt_two, total-le,
  Bool-cases, inl, inr,
}
use xv6_part2_and_concurrenc.Memory.{pgsize}
use xv6_part2_and_concurrenc.Kernel.{Kernel, Run, ok, panic, and_then, M, pure, ◌>>=◌, ◌>>◌}
use xv6_part2_and_concurrenc.Kalloc.{gt_one, get_refcnt, refcnt_dec, release_page, kfree}
use xv6_part2_and_concurrenc.Kalloc.FreeList.{
  Fresh, IsPage, IsFree, IsPage-not_bad, get_refcnt-ok, release_page-IsFree,
}
use xv6_part2_and_concurrenc.Kalloc.Refcount.{refcnt_dec-ok}

-- Where a hart stands in kfree(pa).
pub data Pc : Type 0 where
  start : Pc
  counted : (count : ℕ) → Pc  -- get_refcnt(pa) has returned
  dropped : Pc  -- back from refcnt_dec(pa)
  freed : Pc  -- the page is on the list

module _ (e pa : ℕ) where
  -- The next critical section of a hart.
  pub hart_step : Pc → M Pc
  hart_step start = do count ← get_refcnt e pa; pure (counted count)
  hart_step (counted count) =
      if gt_one count
      then (do refcnt_dec e pa; pure dropped)
      else (do release_page e pa; pure freed)
  hart_step dropped = pure dropped
  hart_step freed = pure freed

  -- One hart alone runs kfree().
  pub hart_step-kfree :
      (k : Kernel) → IsPage e pa → (hart_step start >>= hart_step >>= λ _. pure tt) k ≡ kfree e pa k
  unfolding hart_step kfree release_page
  hart_step-kfree k page = rw (IsPage-not_bad e pa page) (
      rw (get_refcnt-ok e pa k page) (elim (Bool-cases (gt_one (k.ref (pa / pgsize)))) [
        | inl more ↦ rw more (rw (refcnt_dec-ok e pa k page))
        | inr last ↦ rw last
      ]))

  pub hart_step-start :
      (p : Pc) (k : Kernel)
      → IsPage e pa
      → p ≡ start
      → hart_step p k ≡ ok (counted (k.ref (pa / pgsize))) k
  unfolding hart_step
  hart_step-start p k page at = rw at (rw (get_refcnt-ok e pa k page))

  pub hart_step-counted :
      (p : Pc) (c : ℕ) (k : Kernel)
      → IsPage e pa
      → p ≡ counted c
      → gt_one c ≡ true
      → hart_step p k
        ≡ ok dropped (record k {
          ref = update k.ref (pa / pgsize) ((k.ref (pa / pgsize) + (2 ^ 32 - 1)) % 2 ^ 32);
        })
  unfolding hart_step
  hart_step-counted p c k page at more = rw at (rw more (rw (refcnt_dec-ok e pa k page)))

pub record System : Type 0 where
  pub kernel : Kernel
  pub pc : ℕ → Pc

-- Any of the `n` harts takes its next step.
pub data Step (e pa n : ℕ) : System → System → Type 0 where
  step :
      {s : System} {k : Kernel} {p : Pc} (i : ℕ)
      → i < n
      → hart_step e pa (s.pc i) s.kernel ≡ ok p k
      → Step e pa n s (record { kernel = k; pc = update s.pc i p })

pub data Reach (e pa n : ℕ) (s : System) : System → Type 0 where
  here : Reach e pa n s s
  later : {t u : System} → Reach e pa n s t → Step e pa n t u → Reach e pa n s u
