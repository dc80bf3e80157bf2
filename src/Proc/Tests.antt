-- ===== src/Proc/Tests.antt =====
-- Processes that start, run, wait and die.
use xv6_part2_and_concurrenc.Base.{
  ℕ, zero, suc, ◌-◌, ◌<◌, ◌≡◌, ◌≢◌, ◌^◌, refl, true, false, none, some, arith, inl, update,
}
use xv6_part2_and_concurrenc.Proc.{
  sleeping, runnable, running, is_unused, Table, each_proc, wake_one, wakeup, update_one, update_at,
  cleared, freeproc, find_unused, taken, set_up, alloc_found, allocproc, run, sleep_on, awake, tick,
  kill, proc_chan,
}
use xv6_part2_and_concurrenc.Proc.Life.{
  dup_files, child_of, copy_proc, fork_copied, fork_start, fork_link, fork_finish, reparent_rounds,
  reparent, close_files, exit_files, dead, exit_last,
}
use xv6_part2_and_concurrenc.Proc.Wait.{
  asleep, scan, reap, no_zombie, after_scan, wait, times_of, times_found, waitx,
}
use xv6_part2_and_concurrenc.Proc.System.{
  outside, linking, finishing, exiting, gone, waiting, scanning, System, act, schedule, ticks_on,
  updates, updating, idle, ids, ticked, Reach, start, later, boot, first_proc, forks, links,
  finishes, closes, dies, waits, woken_wait,
}
use xv6_part2_and_concurrenc.Proc.Reparent.{Reparented, reparent_lem}
use xv6_part2_and_concurrenc.Proc.Alloc.{Allocated}
use xv6_part2_and_concurrenc.Proc.Fork.{fork_start-Allocated}
use xv6_part2_and_concurrenc.Proc.Waiting.{IsZombieChild, Waited}
use xv6_part2_and_concurrenc.Proc.Reaping.{wait_lem}
use xv6_part2_and_concurrenc.Proc.Dying.{Exited, exit_last-Exited}
use xv6_part2_and_concurrenc.Proc.Killing.{kill-allocproc}
use xv6_part2_and_concurrenc.Proc.System.Changes.{NoZombie}
use xv6_part2_and_concurrenc.Proc.System.Pids.{IsNumbered}
use xv6_part2_and_concurrenc.Proc.System.Safety.{Reach-IsNumbered, Reported, waitx-Reported}
use xv6_part2_and_concurrenc.Proc.System.Sound.{asleep_childless}

abbrev forked : Table → Table
forked t = elim (fork_start 0 4096 8192 true t) [ none ↦ t | some (child, t') ↦ t' ]

abbrev closed : Table → Table
closed t = elim (exit_files 1 t) [ none ↦ t | some t' ↦ t' ]

abbrev s0 : System
s0 = boot 12288 16384 1

-- `init` runs.
abbrev s1 : System
s1 = record s0 { table = run 0 s0.table }

-- The clock ticks, and update_time() gets as far as `init`.
abbrev ticked_on : System
ticked_on = record s1 { table = tick s1.table; clock = updating 0 }

abbrev counted_first : System
counted_first = record ticked_on { table = update_at 0 ticked_on.table; clock = updating 1 }

-- It makes a child.
abbrev s2 : System
s2 = record counted_first {
  table = forked counted_first.table;
  pc = update (update counted_first.pc 1 outside) 0 (linking 1);
}

abbrev s3 : System
s3 = record s2 { table = fork_link 0 1 s2.table; pc = update s2.pc 0 (finishing 1) }

abbrev s4 : System
s4 = record s3 { table = fork_finish 1 s3.table; pc = update s3.pc 0 outside }

-- It waits; the child runs and is counted in for the tick of its creation.
abbrev s5 : System
s5 = record s4 { table = (wait 0 true s4.table).1; pc = update s4.pc 0 waiting }

abbrev s7 : System
s7 = record s5 { table = run 1 s5.table }

abbrev s8 : System
s8 = record s7 { table = update_at 1 s7.table; clock = updating 2 }

-- The child exits, and `init` is back in wait().
abbrev s9 : System
s9 = record s8 { table = closed s8.table; pc = update s8.pc 1 exiting }

abbrev s10 : System
s10 = record s9 { table = exit_last 1 5 s9.table; pc = update s9.pc 1 gone }

abbrev s11 : System
s11 = record s10 { table = run 0 s10.table }

abbrev s12 : System
s12 = record s11 { table = awake 0 s11.table; pc = update s11.pc 0 scanning }

fork_runs : fork_start 0 4096 8192 true counted_first.table ≡ some (some 1, s2.table)
unfolding boot first_proc run fork_start allocproc find_unused alloc_found taken set_up fork_copied
    copy_proc dup_files child_of fork_link fork_finish wait scan after_scan no_zombie sleep_on tick
    update_at update_one wakeup wake_one each_proc exit_files close_files exit_last dead reparent
    reparent_rounds awake waitx times_found times_of reap freeproc cleared
fork_runs = refl

exit_runs : exit_files 1 s8.table ≡ some s9.table
unfolding boot first_proc run fork_start allocproc find_unused alloc_found taken set_up fork_copied
    copy_proc dup_files child_of fork_link fork_finish wait scan after_scan no_zombie sleep_on tick
    update_at update_one wakeup wake_one each_proc exit_files close_files exit_last dead reparent
    reparent_rounds awake waitx times_found times_of reap freeproc cleared
exit_runs = refl

waits_first : (wait 0 true s4.table).0 ≡ asleep
unfolding boot first_proc run fork_start allocproc find_unused alloc_found taken set_up fork_copied
    copy_proc dup_files child_of fork_link fork_finish wait scan after_scan no_zombie sleep_on tick
    update_at update_one wakeup wake_one each_proc exit_files close_files exit_last dead reparent
    reparent_rounds awake waitx times_found times_of reap freeproc cleared
waits_first = refl

runs_counted : (counted_first.table.proc 0).state ≡ running
unfolding boot first_proc run fork_start allocproc find_unused alloc_found taken set_up fork_copied
    copy_proc dup_files child_of fork_link fork_finish wait scan after_scan no_zombie sleep_on tick
    update_at update_one wakeup wake_one each_proc exit_files close_files exit_last dead reparent
    reparent_rounds awake waitx times_found times_of reap freeproc cleared
runs_counted = refl

runs2 : (s2.table.proc 0).state ≡ running
unfolding boot first_proc run fork_start allocproc find_unused alloc_found taken set_up fork_copied
    copy_proc dup_files child_of fork_link fork_finish wait scan after_scan no_zombie sleep_on tick
    update_at update_one wakeup wake_one each_proc exit_files close_files exit_last dead reparent
    reparent_rounds awake waitx times_found times_of reap freeproc cleared
runs2 = refl

runs3 : (s3.table.proc 0).state ≡ running
unfolding boot first_proc run fork_start allocproc find_unused alloc_found taken set_up fork_copied
    copy_proc dup_files child_of fork_link fork_finish wait scan after_scan no_zombie sleep_on tick
    update_at update_one wakeup wake_one each_proc exit_files close_files exit_last dead reparent
    reparent_rounds awake waitx times_found times_of reap freeproc cleared
runs3 = refl

runs4 : (s4.table.proc 0).state ≡ running
unfolding boot first_proc run fork_start allocproc find_unused alloc_found taken set_up fork_copied
    copy_proc dup_files child_of fork_link fork_finish wait scan after_scan no_zombie sleep_on tick
    update_at update_one wakeup wake_one each_proc exit_files close_files exit_last dead reparent
    reparent_rounds awake waitx times_found times_of reap freeproc cleared
runs4 = refl

ready5 : (s5.table.proc 1).state ≡ runnable
unfolding boot first_proc run fork_start allocproc find_unused alloc_found taken set_up fork_copied
    copy_proc dup_files child_of fork_link fork_finish wait scan after_scan no_zombie sleep_on tick
    update_at update_one wakeup wake_one each_proc exit_files close_files exit_last dead reparent
    reparent_rounds awake waitx times_found times_of reap freeproc cleared
ready5 = refl

runs8 : (s8.table.proc 1).state ≡ running
unfolding boot first_proc run fork_start allocproc find_unused alloc_found taken set_up fork_copied
    copy_proc dup_files child_of fork_link fork_finish wait scan after_scan no_zombie sleep_on tick
    update_at update_one wakeup wake_one each_proc exit_files close_files exit_last dead reparent
    reparent_rounds awake waitx times_found times_of reap freeproc cleared
runs8 = refl

runs9 : (s9.table.proc 1).state ≡ running
unfolding boot first_proc run fork_start allocproc find_unused alloc_found taken set_up fork_copied
    copy_proc dup_files child_of fork_link fork_finish wait scan after_scan no_zombie sleep_on tick
    update_at update_one wakeup wake_one each_proc exit_files close_files exit_last dead reparent
    reparent_rounds awake waitx times_found times_of reap freeproc cleared
runs9 = refl

ready10 : (s10.table.proc 0).state ≡ runnable
unfolding boot first_proc run fork_start allocproc find_unused alloc_found taken set_up fork_copied
    copy_proc dup_files child_of fork_link fork_finish wait scan after_scan no_zombie sleep_on tick
    update_at update_one wakeup wake_one each_proc exit_files close_files exit_last dead reparent
    reparent_rounds awake waitx times_found times_of reap freeproc cleared
ready10 = refl

runs11 : (s11.table.proc 0).state ≡ running
unfolding boot first_proc run fork_start allocproc find_unused alloc_found taken set_up fork_copied
    copy_proc dup_files child_of fork_link fork_finish wait scan after_scan no_zombie sleep_on tick
    update_at update_one wakeup wake_one each_proc exit_files close_files exit_last dead reparent
    reparent_rounds awake waitx times_found times_of reap freeproc cleared
runs11 = refl

abbrev Reached : System → Type 0
Reached s = Reach 12288 16384 1 s

clock1 : s1.clock ≡ idle
unfolding boot
clock1 = refl

reach1 : Reached s1
unfolding boot first_proc run fork_start allocproc find_unused alloc_found taken set_up fork_copied
    copy_proc dup_files child_of fork_link fork_finish wait scan after_scan no_zombie sleep_on tick
    update_at update_one wakeup wake_one each_proc exit_files close_files exit_last dead reparent
    reparent_rounds awake waitx times_found times_of reap freeproc cleared
reach1 = later start (schedule 0 (omega arith) refl)

reach_ticked : Reached ticked_on
reach_ticked = later reach1 (ticks_on {s = s1} clock1)

reach_counted : Reached counted_first
reach_counted = later reach_ticked (updates {s = ticked_on} 0 (omega arith) refl)

reach2 : Reached s2
unfolding boot
reach2 =
    later reach_counted
      (act {s = counted_first} 0 (omega arith) runs_counted (forks 4096 8192 fork_runs))

reach3 : Reached s3
unfolding boot
reach3 = later reach2 (act {s = s2} 0 (omega arith) runs2 (links 1))

reach4 : Reached s4
unfolding boot
reach4 = later reach3 (act {s = s3} 0 (omega arith) runs3 (finishes 1))

reach5 : Reached s5
unfolding boot first_proc run fork_start allocproc find_unused alloc_found taken set_up fork_copied
    copy_proc dup_files child_of fork_link fork_finish wait scan after_scan no_zombie sleep_on tick
    update_at update_one wakeup wake_one each_proc exit_files close_files exit_last dead reparent
    reparent_rounds awake waitx times_found times_of reap freeproc cleared
reach5 = later reach4 (act {s = s4} 0 (omega arith) runs4 (waits true (inl refl)))

reach7 : Reached s7
reach7 = later reach5 (schedule {s = s5} 1 (omega arith) ready5)

reach8 : Reached s8
reach8 = later reach7 (updates {s = s7} 1 (omega arith) refl)

reach9 : Reached s9
unfolding boot
reach9 = later reach8 (act {s = s8} 1 (omega arith) runs8 (closes {t' = s9.table} exit_runs))

reach10 : Reached s10
unfolding boot
reach10 = later reach9 (act {s = s9} 1 (omega arith) runs9 (dies 5))

reach11 : Reached s11
reach11 = later reach10 (schedule {s = s10} 0 (omega arith) ready10)

reach12 : Reached s12
unfolding boot
reach12 = later reach11 (act {s = s11} 0 (omega arith) runs11 woken_wait)

asleep5 : (s5.table.proc 0).state ≡ sleeping
unfolding boot first_proc run fork_start allocproc find_unused alloc_found taken set_up fork_copied
    copy_proc dup_files child_of fork_link fork_finish wait scan after_scan no_zombie sleep_on tick
    update_at update_one wakeup wake_one each_proc exit_files close_files exit_last dead reparent
    reparent_rounds awake waitx times_found times_of reap freeproc cleared
asleep5 = refl

pc5 : s5.pc 0 ≡ waiting
unfolding boot first_proc run fork_start allocproc find_unused alloc_found taken set_up fork_copied
    copy_proc dup_files child_of fork_link fork_finish wait scan after_scan no_zombie sleep_on tick
    update_at update_one wakeup wake_one each_proc exit_files close_files exit_last dead reparent
    reparent_rounds awake waitx times_found times_of reap freeproc cleared
pc5 = refl

reports : (waitx 0 true s12.table).1 ≡ some (record { wtime = 2 ^ 32 - 1; rtime = 1 })
unfolding boot first_proc run fork_start allocproc find_unused alloc_found taken set_up fork_copied
    copy_proc dup_files child_of fork_link fork_finish wait scan after_scan no_zombie sleep_on tick
    update_at update_one wakeup wake_one each_proc exit_files close_files exit_last dead reparent
    reparent_rounds awake waitx times_found times_of reap freeproc cleared
reports = refl

ids10 : ids 12288 16384 1 reach10 ≡ 2
unfolding boot first_proc run fork_start allocproc find_unused alloc_found taken set_up fork_copied
    copy_proc dup_files child_of fork_link fork_finish wait scan after_scan no_zombie sleep_on tick
    update_at update_one wakeup wake_one each_proc exit_files close_files exit_last dead reparent
    reparent_rounds awake waitx times_found times_of reap freeproc cleared ids ticked reach1
    reach_ticked reach_counted reach2 reach3 reach4 reach5 reach7 reach8 reach9 reach10 reach11
    reach12
ids10 = refl

ticked12 : ticked 12288 16384 1 reach12 ≡ 1
unfolding boot first_proc run fork_start allocproc find_unused alloc_found taken set_up fork_copied
    copy_proc dup_files child_of fork_link fork_finish wait scan after_scan no_zombie sleep_on tick
    update_at update_one wakeup wake_one each_proc exit_files close_files exit_last dead reparent
    reparent_rounds awake waitx times_found times_of reap freeproc cleared ids ticked reach1
    reach_ticked reach_counted reach2 reach3 reach4 reach5 reach7 reach8 reach9 reach10 reach11
    reach12
ticked12 = refl

fork_start-Allocated_example : Allocated counted_first.table (some 1) s2.table
fork_start-Allocated_example =
    fork_start-Allocated 0 4096 8192 true counted_first.table (some 1) s2.table fork_runs

reparent_lem_example : Reparented 0 64 s4.table (reparent 0 s4.table)
reparent_lem_example = reparent_lem 0 s4.table

exit_last-Exited_example : Exited 1 5 s9.table (exit_last 1 5 s9.table)
exit_last-Exited_example = exit_last-Exited 1 5 s9.table

wait_lem_example : Waited 0 true s12.table (wait 0 true s12.table).0 (wait 0 true s12.table).1
wait_lem_example = wait_lem 0 true s12.table

Reach-IsNumbered_example : IsNumbered s10.table × (s10.table.nextpid < 2 ^ 31)
Reach-IsNumbered_example = Reach-IsNumbered 12288 16384 1 reach10 (omega (arith, ids10))

asleep_childless_example : ((s5.table.proc 0).chan ≡ proc_chan 0) × NoZombie 0 s5.table
asleep_childless_example = asleep_childless 12288 16384 1 0 reach5 (omega arith) pc5 asleep5

waitx-Reported_example :
    (k : ℕ) × (k < 64)
    × IsZombieChild 0 (s12.table.proc k)
    × Reported (s12.table.proc k) (record { wtime = 2 ^ 32 - 1; rtime = 1 })
waitx-Reported_example =
    waitx-Reported 12288 16384 1 0 true (record { wtime = 2 ^ 32 - 1; rtime = 1 }) reach12
      (omega (arith, ticked12)) reports

s0_free : is_unused (s0.table.proc 1).state ≡ true
unfolding boot first_proc
s0_free = refl

s0_no_pid : (s0.table.proc 1).pid ≡ 0
unfolding boot first_proc
s0_no_pid = refl

s0_busy : (j : ℕ) → j < 1 → is_unused (s0.table.proc j).state ≡ false
unfolding boot first_proc
s0_busy zero l = refl
s0_busy (suc j) l = absurd (omega arith)

s0_pids : (j : ℕ) → j < 1 → (s0.table.proc j).pid ≢ 0
unfolding boot first_proc
s0_pids zero l = λ e. absurd (omega arith)
s0_pids (suc j) l = absurd (omega arith)

kill-allocproc_example :
    ((kill 0 s0.table).1 ≡ true)
    × ((allocproc 4096 8192 (kill 0 s0.table).0).0 ≡ some 1)
    × (((allocproc 4096 8192 (kill 0 s0.table).0).1.proc 1).killed ≡ true)
kill-allocproc_example =
    kill-allocproc 4096 8192 1 s0.table (omega arith) s0_free s0_no_pid s0_busy s0_pids refl refl
