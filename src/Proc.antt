-- ===== src/Proc.antt =====
-- initial-xv6/src/kernel/proc.c: the process table, and what its functions do to it with the locks
-- held. A process is its index in the table; a null pointer is none. Pages, page tables and copies of
-- user memory come from elsewhere: their addresses (0 for a failure) and outcomes are arguments.
pub mod Life
pub mod Effects
pub mod Reparent
pub mod Alloc
pub mod Fork
pub mod Waiting
pub mod Reaping
pub mod Exit
pub mod Killing
pub mod Dying
pub mod Wait
pub mod System
mod Tests
use xv6_part2_and_concurrenc.Base.{
  ℕ, zero, suc, ◌+◌, ◌-◌, ◌%◌, ◌^◌, Bool, true, false, ◌&&◌, ◌||◌, not, Option, none, some, List,
  [], ◌==◌, if◌then◌else◌, update,
}

pub data ProcState : Type 0 where
  unused used sleeping runnable running zombie : ProcState

abbrev pub is_unused : ProcState → Bool
is_unused unused = true
is_unused _ = false

abbrev pub is_sleeping : ProcState → Bool
is_sleeping sleeping = true
is_sleeping _ = false

abbrev pub is_running : ProcState → Bool
is_running running = true
is_running _ = false

abbrev pub is_zombie : ProcState → Bool
is_zombie zombie = true
is_zombie _ = false

-- What a process sleeps on: nothing, a process (in wait()), or some other address.
pub data Chan : Type 0 where
  no_chan : Chan
  proc_chan : ℕ → Chan
  address : ℕ → Chan

abbrev pub same_chan : Chan → Chan → Bool
same_chan no_chan no_chan = true
same_chan (proc_chan i) (proc_chan j) = i == j
same_chan (address a) (address b) = a == b
same_chan _ _ = false

-- `struct proc`, less the lock, the kernel stack and the saved registers.
pub record Proc : Type 0 where
  pub state : ProcState
  pub chan : Chan
  pub killed : Bool
  pub xstate : ℕ
  pub pid : ℕ
  pub parent : Option ℕ
  pub sz : ℕ
  pub pagetable : ℕ
  pub trapframe : ℕ
  pub ofile : ℕ → Option ℕ
  pub cwd : ℕ
  pub name : List ℕ
  pub rtime : ℕ
  pub ctime : ℕ
  pub etime : ℕ

-- The globals. `refs` has the reference count of each open file.
pub record Table : Type 0 where
  pub proc : ℕ → Proc
  pub nextpid : ℕ
  pub ticks : ℕ
  pub initproc : ℕ
  pub refs : ℕ → ℕ

abbrev pub nproc : ℕ
nproc = 64

abbrev pub nofile : ℕ
nofile = 16

-- One process changed.
abbrev pub set_proc : Table → ℕ → Proc → Table
set_proc t i p = record t { proc = update t.proc i p }

-- for (p = proc; p < &proc[NPROC]; p++), where each round changes its own process: `n` rounds.
unfoldable pub each_proc : (ℕ → Proc → Proc) → ℕ → (ℕ → Proc) → ℕ → Proc
each_proc f zero proc = proc
each_proc f (suc n) proc = let done = each_proc f n proc in update done n (f n (done n))

-- A round of wakeup(), called by the process `me` (none of the table in the scheduler).
unfoldable pub wake_one : ℕ → Chan → ℕ → Proc → Proc
wake_one me chan i p =
    if i == me
    then p
    else if is_sleeping p.state && same_chan p.chan chan
    then record p { state = runnable }
    else p

unfoldable pub wakeup : ℕ → Chan → Table → Table
wakeup me chan t = record t { proc = each_proc (wake_one me chan) nproc t.proc }

unfoldable pub update_one : ℕ → Proc → Proc
update_one i p = if is_running p.state then record p { rtime = (p.rtime + 1) % 2 ^ 32 } else p

-- A round of update_time().
unfoldable pub update_at : ℕ → Table → Table
update_at i t = set_proc t i (update_one i (t.proc i))

-- freeproc() on the process itself; its pages are given back.
unfoldable pub cleared : Proc → Proc
cleared p = record p {
  trapframe = 0;
  pagetable = 0;
  sz = 0;
  pid = 0;
  parent = none;
  name = [];
  chan = no_chan;
  killed = false;
  xstate = 0;
  state = unused;
}

unfoldable pub freeproc : ℕ → Table → Table
freeproc i t = set_proc t i (cleared (t.proc i))

-- The loop of allocproc(), from the process `i` on with `left` to look at.
unfoldable pub find_unused : (ℕ → Proc) → ℕ → ℕ → Option ℕ
find_unused proc i zero = none
find_unused proc i (suc left) = elim (is_unused (proc i).state) [
  | true ↦ some i
  | false ↦ find_unused proc (i + 1) left
]

-- The process after allocpid(), and when all is set up.
unfoldable pub taken : ℕ → Proc → Proc
taken pid p = record p { pid = pid; state = used }

unfoldable pub set_up : ℕ → ℕ → ℕ → Proc → Proc
set_up trapframe pagetable ticks p = record p {
  trapframe = trapframe;
  pagetable = pagetable;
  rtime = 0;
  etime = 0;
  ctime = ticks;
}

-- From `found:` on. kalloc() and proc_pagetable() give `trapframe` and `pagetable`.
unfoldable pub alloc_found : ℕ → ℕ → ℕ → Table → Option ℕ × Table
alloc_found trapframe pagetable i t =
    let p = taken t.nextpid (t.proc i) in
    let t' = record t { nextpid = (t.nextpid + 1) % 2 ^ 32; proc = update t.proc i p } in
    if trapframe == 0
    then (none, freeproc i t')
    else if pagetable == 0
    then (none, freeproc i t')
    else (some i, set_proc t' i (set_up trapframe pagetable t.ticks p))

unfoldable pub allocproc : ℕ → ℕ → Table → Option ℕ × Table
allocproc trapframe pagetable t = elim (find_unused t.proc 0 nproc) [
  | none ↦ (none, t)
  | some i ↦ alloc_found trapframe pagetable i t
]

-- kill(): the loop, with the result 0 as true.
unfoldable pub mark_killed : Proc → Proc
mark_killed p = record p {
  killed = true;
  state = if is_sleeping p.state then runnable else p.state;
}

unfoldable pub kill_from : ℕ → Table → ℕ → ℕ → Table × Bool
kill_from pid t i zero = (t, false)
kill_from pid t i (suc left) = elim ((t.proc i).pid == pid) [
  | true ↦ (set_proc t i (mark_killed (t.proc i)), true)
  | false ↦ kill_from pid t (i + 1) left
]

unfoldable pub kill : ℕ → Table → Table × Bool
kill pid t = kill_from pid t 0 nproc

unfoldable pub setkilled : ℕ → Table → Table
setkilled i t = set_proc t i (record (t.proc i) { killed = true })

-- scheduler(), yield() and sleep() at their change of state; a woken sleep() tidies up.
unfoldable pub run : ℕ → Table → Table
run i t = set_proc t i (record (t.proc i) { state = running })

unfoldable pub yield_cpu : ℕ → Table → Table
yield_cpu i t = set_proc t i (record (t.proc i) { state = runnable })

unfoldable pub sleep_on : ℕ → Chan → Table → Table
sleep_on i chan t = set_proc t i (record (t.proc i) { chan = chan; state = sleeping })

unfoldable pub awake : ℕ → Table → Table
awake i t = set_proc t i (record (t.proc i) { chan = no_chan })

-- ticks++ in clockintr() of trap.c.
unfoldable pub tick : Table → Table
tick t = record t { ticks = (t.ticks + 1) % 2 ^ 32 }
