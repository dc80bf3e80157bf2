-- ===== src/Proc/System/Safety.antt =====
-- The IDs and the times of the processes in initial-xv6/src/kernel/proc.c, as long as the counters do
-- not overflow.
use mathlib.Core.Path.{subst}
use xv6_part2_and_concurrenc.Base.{
  dec_lt, ◌-◌, ℕ, ◌+◌, ◌≤◌, ◌<◌, ◌≡◌, ◌^◌, refl, sym, ◌∙◌, arith, Bool, true, false, Option, some,
}
use xv6_part2_and_concurrenc.Proc.{is_zombie, address, Proc, Table}
use xv6_part2_and_concurrenc.Proc.Wait.{scan, Times, times_of, times_found, waitx}
use xv6_part2_and_concurrenc.Proc.Waiting.{IsZombieChild, Scanned, found, not_found, scan-Scanned}
use xv6_part2_and_concurrenc.Proc.System.{
  System, Step, act, schedule, ticks_on, updates, updated, idle, ids, ticked, wake, Reach, start,
  later,
}
use xv6_part2_and_concurrenc.Proc.System.Changes.{Act-Change}
use xv6_part2_and_concurrenc.Proc.System.Pids.{
  IsNumbered, Change-IsNumbered, run-IsNumbered, wake-IsNumbered, tick-IsNumbered,
  update-IsNumbered,
}
use xv6_part2_and_concurrenc.Proc.System.Timed.{
  IsTimed, AreTimed, Change-AreTimed, run-AreTimed, wake-AreTimed, tick-AreTimed, update-AreTimed,
  idle-AreTimed, counted, counted_near,
}
use xv6_part2_and_concurrenc.Proc.System.Sound.{
  IsSound, Reach-IsSound, boot-AreTimed, boot-IsNumbered, boot_rest,
}
use xv6_part2_and_concurrenc.Proc.System.Counters.{Step-counters, up_to}

Step-IsNumbered :
    {s s' : System}
    → Step s s'
    → IsSound s
    → s.table.nextpid + 1 < 2 ^ 32
    → IsNumbered s.table
    → IsNumbered s'.table
Step-IsNumbered (act {s} i l runs a) sound small h =
    Change-IsNumbered small runs (λ np e. sound.held.used_child i np l e)
      (Act-Change i s.table runs a) h
Step-IsNumbered (schedule {s} i l e) sound small h = run-IsNumbered i s.table e h
Step-IsNumbered (ticks_on {s} e) sound small h = tick-IsNumbered s.table h
Step-IsNumbered (updates {s} i l e) sound small h = update-IsNumbered i s.table h
Step-IsNumbered (updated {s} me a e) sound small h = wake-IsNumbered me (address a) s.table h
Step-IsNumbered (wake {s} me a) sound small h = wake-IsNumbered me (address a) s.table h

Step-AreTimed :
    {s s' : System}
    → Step s s'
    → IsSound s
    → s.table.ticks + 1 < 2 ^ 32
    → AreTimed (counted s.clock) s.table
    → AreTimed (counted s'.clock) s'.table
Step-AreTimed (act {s} i l runs a) sound small h =
    Change-AreTimed (counted s.clock) (counted_near s.clock) runs
      (λ np e. sound.held.used_child i np l e) (Act-Change i s.table runs a) h
Step-AreTimed (schedule {s} i l e) sound small h =
    run-AreTimed (counted s.clock) (counted_near s.clock) i s.table l e h
Step-AreTimed (ticks_on {s} e) sound small h = tick-AreTimed s.clock s.table small h
Step-AreTimed (updates {s} i l e) sound small h =
    update-AreTimed i s.table small (subst (λ c. AreTimed (counted c) s.table) e h)
Step-AreTimed (updated {s} me a e) sound small h =
    wake-AreTimed (counted idle) (counted_near idle) me (address a) s.table
      (idle-AreTimed s.table (subst (λ c. AreTimed (counted c) s.table) e h))
Step-AreTimed (wake {s} me a) sound small h =
    wake-AreTimed (counted s.clock) (counted_near s.clock) me (address a) s.table h

module _ (trapframe pagetable cwd : ℕ) where
  counters :
      {s : System} (r : Reach trapframe pagetable cwd s)
      → (s.table.nextpid ≤ ids trapframe pagetable cwd r + 1)
        × (s.table.ticks ≤ ticked trapframe pagetable cwd r)
  unfolding ids ticked
  counters start =
      let rest = boot_rest trapframe pagetable cwd in (omega (arith, rest.0), omega (arith, rest.1))
  counters (later {s} {s'} r step) =
      let (p, t) = counters r in
      let (p', t') = Step-counters step in
      (
        omega (
          arith,
          up_to s.table.nextpid s'.table.nextpid (ids trapframe pagetable cwd r + 1) p' p,
        ),
        up_to s.table.ticks s'.table.ticks (ticked trapframe pagetable cwd r) t' t,
      )

  counters_grow :
      {s s' : System} (r : Reach trapframe pagetable cwd s) (step : Step s s')
      → (ids trapframe pagetable cwd r ≤ ids trapframe pagetable cwd (later r step))
        × (ticked trapframe pagetable cwd r ≤ ticked trapframe pagetable cwd (later r step))
  unfolding ids ticked
  counters_grow r step = (omega arith, omega arith)

  numbered :
      {s : System} (r : Reach trapframe pagetable cwd s)
      → ids trapframe pagetable cwd r + 1 < 2 ^ 31
      → IsNumbered s.table
  numbered start l = boot-IsNumbered trapframe pagetable cwd
  numbered (later r step) l =
      let (more, later_ticks) = counters_grow r step in
      Step-IsNumbered step (Reach-IsSound trapframe pagetable cwd r) (omega (arith, (counters r).0))
        (numbered r (omega arith))

  -- In every state that the processes reach while fewer than 2 ^ 31 - 1 IDs were given out, the one
  -- of init included: the processes in use have different IDs, each above 0 and below the next one
  -- to be given out, which is below 2 ^ 31, so it is no negative int.
  pub Reach-IsNumbered :
      {s : System} (r : Reach trapframe pagetable cwd s)
      → ids trapframe pagetable cwd r + 1 < 2 ^ 31
      → IsNumbered s.table × (s.table.nextpid < 2 ^ 31)
  Reach-IsNumbered r l = (numbered r l, omega (arith, (counters r).0))

  timed :
      {s : System} (r : Reach trapframe pagetable cwd s)
      → ticked trapframe pagetable cwd r + 1 < 2 ^ 32
      → AreTimed (counted s.clock) s.table
  timed start l = boot-AreTimed trapframe pagetable cwd
  timed (later r step) l =
      let (more_ids, more) = counters_grow r step in
      Step-AreTimed step (Reach-IsSound trapframe pagetable cwd r) (omega (arith, (counters r).1))
        (timed r (omega arith))

-- What waitx() reports is about a zombie that it finds.
times_child :
    (me : ℕ) (proc : ℕ → Proc) {o : Option ℕ} {kids : Bool} (ts : Times)
    → Scanned me proc 0 64 false o kids
    → times_found proc o ≡ some ts
    → (k : ℕ) × (k < 64) × IsZombieChild me (proc k) × (times_of (proc k) ≡ ts)
unfolding times_found
times_child me proc ts (found {k} lo hi z) e = (k, omega arith, z, cc)
times_child me proc ts (not_found dead childless kids) e = cc

waitx-times :
    (me : ℕ) (copied : Bool) (t : Table)
    → (waitx me copied t).1 ≡ times_found t.proc (scan me t.proc 0 64 false).0
unfolding waitx
waitx-times me copied t = refl

zombie_times :
    (late ticks : ℕ) (p : Proc)
    → IsTimed late ticks p
    → is_zombie p.state ≡ true
    → (p.rtime + p.ctime ≤ p.etime + 1) × (p.etime ≤ ticks)
unfolding IsTimed
zombie_times late ticks p h z = h.1 z

-- The times of a process: exact, or one tick was counted too many and wtime is -1.
pub data Reported (p : Proc) (ts : Times) : Type 0 where
  exact : ts.rtime ≡ p.rtime → ts.wtime + ts.rtime + p.ctime ≡ p.etime → Reported p ts
  one_early :
      ts.rtime ≡ p.rtime → ts.rtime + p.ctime ≡ p.etime + 1 → ts.wtime ≡ 2 ^ 32 - 1 → Reported p ts

times_of-Reported :
    (p : Proc) → p.rtime + p.ctime ≤ p.etime + 1 → p.etime + 1 < 2 ^ 32 → Reported p (times_of p)
unfolding times_of
times_of-Reported p h l = elim (dec_lt p.etime (p.rtime + p.ctime)) [
  | yes early ↦ one_early refl (omega arith) (omega arith)
  | no fits ↦ exact refl (omega arith)
]

-- In every state that the processes reach by fewer than 2 ^ 32 - 1 ticks, clockintr() being
-- interleaved with them at each lock: if waitx() reports times, then they are of a zombie child,
-- rtime is the one kept for it, and either wtime, rtime and the tick of its creation add up to the
-- tick of its exit, or rtime and the tick of its creation make one more than the tick of its exit,
-- and wtime is 2 ^ 32 - 1.
pub waitx-Reported :
    {s : System} (trapframe pagetable cwd me : ℕ) (copied : Bool) (ts : Times)
    (r : Reach trapframe pagetable cwd s)
    → ticked trapframe pagetable cwd r + 1 < 2 ^ 32
    → (waitx me copied s.table).1 ≡ some ts
    → (k : ℕ) × (k < 64) × IsZombieChild me (s.table.proc k) × Reported (s.table.proc k) ts
waitx-Reported {s} trapframe pagetable cwd me copied ts r few e =
    let (k, l, z, same) =
      times_child me s.table.proc ts (scan-Scanned me s.table.proc 0 64 false)
        (sym (waitx-times me copied s.table) ∙ e) in
    let (le, le') =
      zombie_times (counted s.clock k) s.table.ticks (s.table.proc k)
        (timed trapframe pagetable cwd r few k l) z.1 in
    let bound = (counters trapframe pagetable cwd r).1 in
    (
      k,
      l,
      z,
      subst (Reported (s.table.proc k)) same (times_of-Reported (s.table.proc k) le (omega arith)),
    )
