-- ===== src/Proc/Killing.antt =====
-- kill() on the ID 0, which is that of a free slot.
use xv6_part2_and_concurrenc.Base.{
  ◌%◌, ◌^◌, ℕ, zero, suc, ◌+◌, ◌≤◌, ◌<◌, ◌≡◌, ◌≢◌, refl, ap, ◌∙◌, true, false, some, arith, update,
  update-eq, update-ne, ℕ_discrete, ◌==◌,
}
use xv6_part2_and_concurrenc.Proc.{
  is_unused, Proc, Table, find_unused, allocproc, taken, set_up, set_proc, mark_killed, kill_from,
  kill,
}
use xv6_part2_and_concurrenc.Proc.Alloc.{find_here, find_on, alloc_works, finds_some}
use xv6_part2_and_concurrenc.Proc.Exit.{kill_from-hit, kill_from-miss}

-- The loop of kill() stops at the first process with the ID.
kill_from_first :
    (pid : ℕ) (t : Table) (k i left : ℕ)
    → i ≤ k
    → k < i + left
    → (t.proc k).pid ≡ pid
    → ((j : ℕ) → j < k → (t.proc j).pid ≢ pid)
    → kill_from pid t i left ≡ (set_proc t k (mark_killed (t.proc k)), true)
kill_from_first pid t k i zero lo hi e before = absurd (omega arith)
kill_from_first pid t k i (suc left) lo hi e before = elim (ℕ_discrete i k) [
  | yes at ↦ rw at (kill_from-hit pid t k left (ground arith))
  | no off ↦
      let other = before i (omega arith) in
      kill_from-miss pid t i left (ground arith)
      ∙ kill_from_first pid t k (i + 1) left (omega arith) (omega arith) e before
]

find_unused_first :
    (proc : ℕ → Proc) (k i left : ℕ)
    → i ≤ k
    → k < i + left
    → is_unused (proc k).state ≡ true
    → ((j : ℕ) → j < k → is_unused (proc j).state ≡ false)
    → find_unused proc i left ≡ some k
find_unused_first proc k i zero lo hi e before = absurd (omega arith)
find_unused_first proc k i (suc left) lo hi e before = elim (ℕ_discrete i k) [
  | yes at ↦ rw at (find_here proc k left e)
  | no off ↦
      find_on proc i left (before i (omega arith))
      ∙ find_unused_first proc k (i + 1) left (omega arith) (omega arith) e before
]

marked_free : (p : Proc) → is_unused p.state ≡ true → (mark_killed p).state ≡ p.state
unfolding mark_killed
marked_free p e = ground arith

-- What allocproc() leaves in the slot keeps the flag.
born_killed :
    (trapframe pagetable ticks pid : ℕ) (p : Proc)
    → (set_up trapframe pagetable ticks (taken pid (mark_killed p))).killed ≡ true
unfolding set_up taken mark_killed
born_killed trapframe pagetable ticks pid p = refl

module _ (trapframe pagetable k : ℕ) (t : Table) (l : k < 64)
    (free : is_unused (t.proc k).state ≡ true) (no_pid : (t.proc k).pid ≡ 0)
    (busy : (j : ℕ) → j < k → is_unused (t.proc j).state ≡ false)
    (pids : (j : ℕ) → j < k → (t.proc j).pid ≢ 0) (page : (trapframe == 0) ≡ false)
    (table : (pagetable == 0) ≡ false) where
  abbrev marked : Table
  marked = set_proc t k (mark_killed (t.proc k))

  kill_zero : kill 0 t ≡ (marked, true)
  unfolding kill
  kill_zero = kill_from_first 0 t k 0 64 (omega arith) (omega arith) no_pid pids

  marked_at : marked.proc k ≡ mark_killed (t.proc k)
  marked_at = update-eq t.proc k (mark_killed (t.proc k)) k refl

  found_again : find_unused marked.proc 0 64 ≡ some k
  found_again =
      find_unused_first marked.proc k 0 64 (omega arith) (omega arith)
        (ap (λ p. is_unused p.state) marked_at ∙ ap is_unused (marked_free (t.proc k) free) ∙ free)
        (λ j m.
          ap (λ p. is_unused p.state)
            (update-ne t.proc k (mark_killed (t.proc k)) j (λ e. absurd (omega arith)))
          ∙ busy j m)

  abbrev child : Proc
  child = set_up trapframe pagetable t.ticks (taken t.nextpid (marked.proc k))

  allocated : allocproc trapframe pagetable marked ≡ (
    some k,
    set_proc
        (record marked {
          nextpid = (t.nextpid + 1) % 2 ^ 32;
          proc = update marked.proc k (taken t.nextpid (marked.proc k));
        })
        k
        child,
  )
  allocated =
      finds_some trapframe pagetable marked k found_again
      ∙ alloc_works trapframe pagetable k marked page table

  child_killed : child.killed ≡ true
  child_killed =
      ap (λ p. (set_up trapframe pagetable t.ticks (taken t.nextpid p)).killed) marked_at
      ∙ born_killed trapframe pagetable t.ticks t.nextpid (t.proc k)

  -- kill(0), when the first free slot has the ID 0 and no process before it has: it reports
  -- success, and the next allocproc() that finds its pages takes that slot and leaves the new
  -- process killed.
  pub kill-allocproc :
      ((kill 0 t).1 ≡ true)
      × ((allocproc trapframe pagetable (kill 0 t).0).0 ≡ some k)
      × (((allocproc trapframe pagetable (kill 0 t).0).1.proc k).killed ≡ true)
  kill-allocproc =
      rw (kill_zero, allocated)
        (
          refl,
          refl,
          ap (λ p. p.killed)
                (update-eq (update marked.proc k (taken t.nextpid (marked.proc k))) k child k refl)
              ∙ child_killed,
        )
