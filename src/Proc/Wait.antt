-- ===== src/Proc/Wait.antt =====
-- wait() and waitx(), from the acquisition of wait_lock to sleep() or the return.
use xv6_part2_and_concurrenc.Base.{
  ℕ, zero, suc, ◌+◌, ◌-◌, ◌%◌, ◌^◌, Bool, true, false, not, ◌||◌, Option, none, some, if◌then◌else◌,
}
use xv6_part2_and_concurrenc.Proc.{Proc, Table, nproc, freeproc, sleep_on, proc_chan, is_zombie}
use xv6_part2_and_concurrenc.Proc.Life.{is_child}

-- The scan of the table, from `i` on with `left` to look at: the zombie child that it stops at, and
-- havekids.
unfoldable pub scan : ℕ → (ℕ → Proc) → ℕ → ℕ → Bool → Option ℕ × Bool
scan me proc i zero havekids = (none, havekids)
scan me proc i (suc left) havekids = elim (is_child me (proc i)) [
  | false ↦ scan me proc (i + 1) left havekids
  | true ↦ elim (is_zombie (proc i).state) [
    | true ↦ (some i, true)
    | false ↦ scan me proc (i + 1) left true
  ]
]

-- The call returns a pid, returns -1, or sleeps and scans again.
pub data WaitResult : Type 0 where
  reaped : ℕ → WaitResult
  failed : WaitResult
  asleep : WaitResult

-- `copied` tells whether the exit status could be copied out (it is true for addr == 0).
unfoldable pub reap : Bool → ℕ → Table → WaitResult × Table
reap copied i t = if copied then (reaped (t.proc i).pid, freeproc i t) else (failed, t)

unfoldable pub no_zombie : ℕ → Bool → Table → WaitResult × Table
no_zombie me havekids t =
    if not havekids || (t.proc me).killed
    then (failed, t)
    else (asleep, sleep_on me (proc_chan me) t)

-- From the end of the scan on.
unfoldable pub after_scan : ℕ → Bool → Table → Option ℕ → Bool → WaitResult × Table
after_scan me copied t none havekids = no_zombie me havekids t
after_scan me copied t (some i) havekids = reap copied i t

unfoldable pub wait : ℕ → Bool → Table → WaitResult × Table
wait me copied t =
    let (found, havekids) = scan me t.proc 0 nproc false in after_scan me copied t found havekids

-- waitx() gives the times too: wtime and rtime.
pub record Times : Type 0 where
  pub wtime : ℕ
  pub rtime : ℕ

-- etime - ctime - rtime on uint
unfoldable pub times_of : Proc → Times
times_of p = record {
  wtime = ((p.etime + 2 ^ 32 - p.ctime) % 2 ^ 32 + 2 ^ 32 - p.rtime) % 2 ^ 32;
  rtime = p.rtime;
}

-- What is written through the pointers wtime and rtime, if anything.
unfoldable pub times_found : (ℕ → Proc) → Option ℕ → Option Times
times_found proc none = none
times_found proc (some i) = some (times_of (proc i))

unfoldable pub waitx : ℕ → Bool → Table → WaitResult × Option Times × Table
waitx me copied t =
    let (found, havekids) = scan me t.proc 0 nproc false in
    let (result, t') = after_scan me copied t found havekids in
    (result, times_found t.proc found, t')
