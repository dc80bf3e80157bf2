-- ===== src/Proc/Life.antt =====
-- fork() and exit(), cut where they release the last lock.
use xv6_part2_and_concurrenc.Base.{
  ℕ, zero, suc, ◌+◌, ◌-◌, Bool, true, false, Option, none, some, ◌==◌, if◌then◌else◌, update, ltb,
}
use xv6_part2_and_concurrenc.Proc.{
  Proc, Table, nproc, nofile, set_proc, allocproc, freeproc, wakeup, Chan, no_chan, proc_chan,
  runnable, zombie,
}

-- `n` rounds of the loop over the open files of `p`: those of the child, and the reference counts.
-- filedup() panics at a count below 1: none.
unfoldable pub dup_files :
    (ℕ → Option ℕ) → ℕ → (ℕ → Option ℕ) × (ℕ → ℕ) → Option ((ℕ → Option ℕ) × (ℕ → ℕ))
dup_files mine zero s = some s
dup_files mine (suc n) s = elim (dup_files mine n s) [
  | none ↦ none
  | some (theirs, refs) ↦ elim (mine n) [
    | none ↦ some (theirs, refs)
    | some f ↦ elim (ltb (refs f) 1) [
      | true ↦ none
      | false ↦ some (update theirs n (some f), update refs f (refs f + 1))
    ]
  ]
]

-- The child with what fork() copies from the process `p`.
unfoldable pub child_of : Proc → (ℕ → Option ℕ) → Proc → Proc
child_of p ofile child = record child { sz = p.sz; ofile = ofile; cwd = p.cwd; name = p.name }

-- fork() by the process `me` after allocproc(), when uvmcopy() has succeeded; none is a panic.
unfoldable pub copy_proc : ℕ → ℕ → Table → Option Table
copy_proc me np t = elim (dup_files (t.proc me).ofile nofile ((t.proc np).ofile, t.refs)) [
  | none ↦ none
  | some (ofile, refs) ↦
      some
        (record t { proc = update t.proc np (child_of (t.proc me) ofile (t.proc np)); refs = refs })
]

-- From the result of uvmcopy() on.
unfoldable pub fork_copied : ℕ → ℕ → Bool → Table → Option (Option ℕ × Table)
fork_copied me np copied t = elim copied [
  | false ↦ some (none, freeproc np t)
  | true ↦ elim (copy_proc me np t) [ none ↦ none | some t' ↦ some (some np, t') ]
]

-- The first part of fork(), up to release(&np->lock): the child, if there is one.
unfoldable pub fork_start : ℕ → ℕ → ℕ → Bool → Table → Option (Option ℕ × Table)
fork_start me trapframe pagetable copied t =
    let (found, t') = allocproc trapframe pagetable t in
    elim found [ none ↦ some (none, t') | some np ↦ fork_copied me np copied t' ]

unfoldable pub fork_link : ℕ → ℕ → Table → Table
fork_link me np t = set_proc t np (record (t.proc np) { parent = some me })

unfoldable pub fork_finish : ℕ → Table → Table
fork_finish np t = set_proc t np (record (t.proc np) { state = runnable })

abbrev pub points_to : ℕ → Option ℕ → Bool
points_to me none = false
points_to me (some i) = i == me

abbrev pub is_child : ℕ → Proc → Bool
is_child me p = points_to me p.parent

-- `n` rounds of reparent().
unfoldable pub reparent_rounds : ℕ → ℕ → Table → Table
reparent_rounds me zero t = t
reparent_rounds me (suc n) t =
    let done = reparent_rounds me n t in
    if is_child me (done.proc n)
    then wakeup me (proc_chan done.initproc)
        (set_proc done n (record (done.proc n) { parent = some done.initproc }))
    else done

unfoldable pub reparent : ℕ → Table → Table
reparent me t = reparent_rounds me nproc t

-- `n` rounds of the loop of exit() that closes the files. fileclose() panics at a count below 1, and
-- what it does to the file at the last reference is not in this state.
unfoldable pub close_files : ℕ → (ℕ → Option ℕ) × (ℕ → ℕ) → Option ((ℕ → Option ℕ) × (ℕ → ℕ))
close_files zero s = some s
close_files (suc n) s = elim (close_files n s) [
  | none ↦ none
  | some (ofile, refs) ↦ elim (ofile n) [
    | none ↦ some (ofile, refs)
    | some f ↦ elim (ltb (refs f) 1) [
      | true ↦ none
      | false ↦ some (update ofile n none, update refs f (refs f - 1))
    ]
  ]
]

-- exit() up to `p->cwd = 0`; none is a panic.
unfoldable pub exit_files : ℕ → Table → Option Table
exit_files me t = elim (me == t.initproc) [
  | true ↦ none
  | false ↦ elim (close_files nofile ((t.proc me).ofile, t.refs)) [
    | none ↦ none
    | some (ofile, refs) ↦ some (record t {
      proc = update t.proc me (record (t.proc me) { ofile = ofile; cwd = 0 });
      refs = refs;
    })
  ]
]

abbrev pub parent_chan : Option ℕ → Chan
parent_chan none = no_chan
parent_chan (some i) = proc_chan i

unfoldable pub dead : ℕ → ℕ → Proc → Proc
dead status ticks p = record p { xstate = status; state = zombie; etime = ticks }

-- The rest of exit(), with wait_lock held, up to sched().
unfoldable pub exit_last : ℕ → ℕ → Table → Table
exit_last me status t =
    let t' = reparent me t in
    let t'' = wakeup me (parent_chan (t'.proc me).parent) t' in
    set_proc t'' me (dead status t''.ticks (t''.proc me))
