-- ===== src/Proc/System.antt =====
-- The processes interleaved. A step is what a process does between two points where it holds no lock
-- of proc.c; what the scheduler does to a process is a step too. clockintr() is many: the increment of
-- the ticks, a round of update_time() for each process, and its wakeup(). wait() stands for waitx(),
-- which does the same to the table. Other code of the kernel sleeps on addresses and wakes sleepers
-- up, at any time.
pub mod Changes
pub mod Pids
pub mod Timed
pub mod Wakes
pub mod Listening
pub mod Woken
pub mod Children
pub mod Sound
pub mod Counters
pub mod Safety
use xv6_part2_and_concurrenc.Base.{
  ◌==◌, if◌then◌else◌, ℕ, ◌+◌, ◌<◌, ◌≡◌, ◌⊎◌, ◌^◌, Bool, true, false, Option, none, some, update,
  List, [], ◌∷◌,
}
use xv6_part2_and_concurrenc.Proc.{
  ProcState, unused, runnable, running, Chan, no_chan, address, Proc, Table, wakeup, kill,
  setkilled, run, yield_cpu, sleep_on, awake, tick, update_at,
}
use xv6_part2_and_concurrenc.Proc.Life.{fork_start, fork_link, fork_finish, exit_files, exit_last}
use xv6_part2_and_concurrenc.Proc.Wait.{WaitResult, asleep, reaped, failed, wait}

-- Where a process stands: outside these functions, within fork() with its child, within exit(), or
-- asleep in wait() or elsewhere.
pub data Pc : Type 0 where
  outside : Pc
  linking : ℕ → Pc
  finishing : ℕ → Pc
  exiting : Pc
  gone : Pc
  waiting : Pc
  scanning : Pc
  sleeps : Pc

-- Where clockintr() stands on the hart that runs it: outside, or in update_time() before a process.
pub data Clock : Type 0 where
  idle : Clock
  updating : ℕ → Clock

pub record System : Type 0 where
  pub table : Table
  pub pc : ℕ → Pc
  pub clock : Clock

abbrev pub pc_after_wait : WaitResult → Pc
pc_after_wait (reaped _) = outside
pc_after_wait failed = outside
pc_after_wait asleep = waiting

-- A new child starts outside, when it comes to run.
abbrev pub new_child : Pc → (ℕ → Pc) → ℕ → Pc
new_child (linking np) pcs = update pcs np outside
new_child _ pcs = pcs

-- What the process `i`, which is running, does.
pub data Act (i : ℕ) (t : Table) : Pc → Table → Pc → Type 0 where
  yields : {p : Pc} → Act i t p (yield_cpu i t) p
  forks :
      {np : ℕ} {t' : Table} (trapframe pagetable : ℕ)
      → fork_start i trapframe pagetable true t ≡ some (some np, t')
      → Act i t outside t' (linking np)
  fork_fails :
      {t' : Table} (trapframe pagetable : ℕ) (copied : Bool)
      → fork_start i trapframe pagetable copied t ≡ some (none, t')
      → Act i t outside t' outside
  links : (np : ℕ) → Act i t (linking np) (fork_link i np t) (finishing np)
  finishes : (np : ℕ) → Act i t (finishing np) (fork_finish np t) outside
  closes : {t' : Table} → exit_files i t ≡ some t' → Act i t outside t' exiting
  dies : (status : ℕ) → Act i t exiting (exit_last i status t) gone
  waits :
      {p : Pc} (copied : Bool)
      → (p ≡ outside) ⊎ (p ≡ scanning)
      → Act i t p (wait i copied t).1 (pc_after_wait (wait i copied t).0)
  -- kill() comes between the test of the flag and sleep().
  waits_killed :
      {p : Pc} (copied : Bool)
      → (p ≡ outside) ⊎ (p ≡ scanning)
      → (wait i copied t).0 ≡ asleep
      → Act i t p (setkilled i (wait i copied t).1) waiting
  woken_wait : Act i t waiting (awake i t) scanning
  naps : (a : ℕ) → Act i t outside (sleep_on i (address a) t) sleeps
  woken : Act i t sleeps (awake i t) outside
  kills : (pid : ℕ) → Act i t outside (kill pid t).0 outside
  marks : Act i t outside (setkilled i t) outside

pub data Step : System → System → Type 0 where
  act :
      {s : System} {t' : Table} {p' : Pc} (i : ℕ)
      → i < 64
      → (s.table.proc i).state ≡ running
      → Act i s.table (s.pc i) t' p'
      → Step s (record s { table = t'; pc = update (new_child p' s.pc) i p' })
  schedule :
      {s : System} (i : ℕ)
      → i < 64
      → (s.table.proc i).state ≡ runnable
      → Step s (record s { table = run i s.table })
  ticks_on :
      {s : System} → s.clock ≡ idle → Step s (record s { table = tick s.table; clock = updating 0 })
  updates :
      {s : System} (i : ℕ)
      → i < 64
      → s.clock ≡ updating i
      → Step s (record s { table = update_at i s.table; clock = updating (i + 1) })
  updated :
      {s : System} (me a : ℕ)
      → s.clock ≡ updating 64
      → Step s (record s { table = wakeup me (address a) s.table; clock = idle })
  wake : {s : System} (me a : ℕ) → Step s (record s { table = wakeup me (address a) s.table })

-- procinit(), and the first process as userinit() leaves it.
abbrev pub no_proc : Proc
no_proc = record {
  state = unused;
  chan = no_chan;
  killed = false;
  xstate = 0;
  pid = 0;
  parent = none;
  sz = 0;
  pagetable = 0;
  trapframe = 0;
  ofile = λ fd. none;
  cwd = 0;
  name = [];
  rtime = 0;
  ctime = 0;
  etime = 0;
}

module _ (trapframe pagetable cwd : ℕ) where
  unfoldable pub first_proc : Proc
  first_proc = record no_proc {
    state = runnable;
    pid = 1;
    sz = 4096;
    trapframe = trapframe;
    pagetable = pagetable;
    name = 105 ∷ 110 ∷ 105 ∷ 116 ∷ 99 ∷ 111 ∷ 100 ∷ 101 ∷ [];
    cwd = cwd;
  }

  unfoldable pub boot : System
  boot = record {
    table = record {
      proc = update (λ i. no_proc) 0 first_proc;
      nextpid = 2;
      ticks = 0;
      initproc = 0;
      refs = λ f. 0;
    };
    pc = λ i. outside;
    clock = idle;
  }

  pub data Reach : System → Type 0 where
    start : Reach boot
    later : {s s' : System} → Reach s → Step s s' → Reach s'

  -- The IDs that were given out on the way, userinit()'s included: the steps that changed nextpid.
  unfoldable pub ids : {s : System} → Reach s → ℕ
  ids start = 1
  ids (later {s} {s'} r step) = ids r + (if s'.table.nextpid == s.table.nextpid then 0 else 1)

  -- The ticks of the clock on the way: the steps that changed ticks.
  unfoldable pub ticked : {s : System} → Reach s → ℕ
  ticked start = 0
  ticked (later {s} {s'} r step) = ticked r + (if s'.table.ticks == s.table.ticks then 0 else 1)
