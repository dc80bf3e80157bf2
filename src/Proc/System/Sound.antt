-- ===== src/Proc/System/Sound.antt =====
-- What holds at every step, however long the processes run; and the state at boot.
use xv6_part2_and_concurrenc.Base.{
  ℕ, ◌<◌, ◌≡◌, ◌≢◌, ◌⊎◌, inl, inr, refl, sym, ap, ◌∙◌, arith, true, false, none, some, update-eq,
  update-ne, ℕ_discrete,
}
use xv6_part2_and_concurrenc.Proc.{sleeping, runnable, is_unused, is_sleeping, proc_chan, address}
use xv6_part2_and_concurrenc.Proc.System.{
  outside, waiting, System, Step, act, schedule, ticks_on, updates, updated, idle, wake, Reach,
  start, later, boot, no_proc, first_proc,
}
use xv6_part2_and_concurrenc.Proc.System.Changes.{
  holds, is_waiting, is_exiting, NoZombie, Act-Change,
}
use xv6_part2_and_concurrenc.Proc.System.Pids.{IsNumbered}
use xv6_part2_and_concurrenc.Proc.System.Timed.{IsTimed, AreTimed, counted}
use xv6_part2_and_concurrenc.Proc.System.Children.{
  AreHeld, Change-AreHeld, run-AreHeld, wake-AreHeld, tick-AreHeld, update-AreHeld,
}
use xv6_part2_and_concurrenc.Proc.System.Wakes.{AreWoken}
use xv6_part2_and_concurrenc.Proc.System.Woken.{
  Change-AreWoken, run-AreWoken, wake-AreWoken, tick-AreWoken, update-AreWoken,
}

pub record IsSound (s : System) : Type 0 where
  pub held : AreHeld s.table s.pc
  pub woken : AreWoken s.table s.pc

pub Step-IsSound : {s s' : System} → Step s s' → IsSound s → IsSound s'
Step-IsSound (act {s} i l runs a) h =
    let c = Act-Change i s.table runs a in
    record {
      held = Change-AreHeld s.pc l runs c h.held;
      woken = Change-AreWoken s.pc l (λ np e. h.held.used_child i np l e) c h.woken;
    }
Step-IsSound (schedule {s} i l e) h = record {
  held = run-AreHeld i s.table s.pc e h.held;
  woken = run-AreWoken i s.table s.pc h.woken;
}
Step-IsSound (ticks_on {s} e) h = record {
  held = tick-AreHeld s.table s.pc h.held;
  woken = tick-AreWoken s.table s.pc h.woken;
}
Step-IsSound (updates {s} i l e) h = record {
  held = update-AreHeld i s.table s.pc h.held;
  woken = update-AreWoken i s.table s.pc h.woken;
}
Step-IsSound (updated {s} me a e) h = record {
  held = wake-AreHeld me (address a) s.table s.pc h.held;
  woken = wake-AreWoken me (address a) s.table s.pc h.woken;
}
Step-IsSound (wake {s} me a) h = record {
  held = wake-AreHeld me (address a) s.table s.pc h.held;
  woken = wake-AreWoken me (address a) s.table s.pc h.woken;
}

differs : true ≢ false
differs e = cc

no_child : {x : ℕ} → none ≢ some x
no_child e = cc

module _ (trapframe pagetable cwd : ℕ) where
  boot_at :
      (j : ℕ)
      → ((j ≡ 0)
          × ((boot trapframe pagetable cwd).table.proc j ≡ first_proc trapframe pagetable cwd))
        ⊎ ((boot trapframe pagetable cwd).table.proc j ≡ no_proc)
  unfolding boot
  boot_at j = elim (ℕ_discrete j 0) [
    | yes at ↦ inl (at, update-eq (λ i. no_proc) 0 (first_proc trapframe pagetable cwd) j at)
    | no off ↦ inr (update-ne (λ i. no_proc) 0 (first_proc trapframe pagetable cwd) j off)
  ]

  first_state :
      ((first_proc trapframe pagetable cwd).state ≡ runnable)
      × ((first_proc trapframe pagetable cwd).pid ≡ 1)
      × ((first_proc trapframe pagetable cwd).rtime ≡ 0)
      × ((first_proc trapframe pagetable cwd).ctime ≡ 0)
  unfolding first_proc
  first_state = (refl, refl, refl, refl)

  boot_busy :
      (j : ℕ)
      → is_unused ((boot trapframe pagetable cwd).table.proc j).state ≡ false
      → (j ≡ 0) × (((boot trapframe pagetable cwd).table.proc j).pid ≡ 1)
  boot_busy j u = elim (boot_at j) [
    | inl (at, e) ↦ (at, ap (λ p. p.pid) e ∙ first_state.1)
    | inr e ↦ absurd (differs (ap (λ p. is_unused p.state) (sym e) ∙ u))
  ]

  pub boot_rest :
      ((boot trapframe pagetable cwd).table.nextpid ≡ 2)
      × ((boot trapframe pagetable cwd).table.ticks ≡ 0)
      × ((boot trapframe pagetable cwd).table.initproc ≡ 0)
      × ((j : ℕ) → (boot trapframe pagetable cwd).pc j ≡ outside)
  unfolding boot
  boot_rest = (refl, refl, refl, λ j. refl)

  first-IsTimed : IsTimed 1 0 (first_proc trapframe pagetable cwd)
  unfolding IsTimed first_proc
  first-IsTimed = ground arith

  none-IsTimed : IsTimed 1 0 no_proc
  unfolding IsTimed
  none-IsTimed = ground arith

  boot_clock : (boot trapframe pagetable cwd).clock ≡ idle
  unfolding boot
  boot_clock = refl

  pub boot-AreTimed :
      AreTimed (counted (boot trapframe pagetable cwd).clock) (boot trapframe pagetable cwd).table
  unfolding counted
  boot-AreTimed j l =
      rw (boot_clock, boot_rest.1)
        (elim (boot_at j) [ inl (at, e) ↦ rw e first-IsTimed | inr e ↦ rw e none-IsTimed ])

  pub boot-IsNumbered : IsNumbered (boot trapframe pagetable cwd).table
  boot-IsNumbered = record {
    range =
        λ j l u. let (at, e) = boot_busy j u in let n = boot_rest.0 in (omega arith, omega arith);
    distinct = λ j k l m off u u'. absurd (off ((boot_busy j u).0 ∙ sym (boot_busy k u').0));
    next = omega (arith, boot_rest.0);
  }

  boot-AreHeld : AreHeld (boot trapframe pagetable cwd).table (boot trapframe pagetable cwd).pc
  boot-AreHeld = record {
    used_child = λ i np l e. absurd (no_child (ap holds (sym (boot_rest.3 i)) ∙ e));
    apart = λ i j np l m off e. absurd (no_child (ap holds (sym (boot_rest.3 i)) ∙ e));
  }

  boot-AreWoken : AreWoken (boot trapframe pagetable cwd).table (boot trapframe pagetable cwd).pc
  boot-AreWoken = record {
    init_below = omega (arith, boot_rest.2);
    init_stays = λ i l e. absurd (differs (sym e ∙ ap is_exiting (boot_rest.3 i)));
    listens = λ i l e. absurd (differs (sym e ∙ ap is_waiting (boot_rest.3 i)));
  }

  pub boot-IsSound : IsSound (boot trapframe pagetable cwd)
  boot-IsSound = record { held = boot-AreHeld; woken = boot-AreWoken }

  pub Reach-IsSound : {s : System} → Reach trapframe pagetable cwd s → IsSound s
  Reach-IsSound start = boot-IsSound
  Reach-IsSound (later r step) = Step-IsSound step (Reach-IsSound r)

  -- No lost wakeup: in every state that the processes reach, a process that is asleep in wait()
  -- sleeps on itself, and no child of it among the 64 processes is a zombie.
  pub asleep_childless :
      {s : System} (i : ℕ)
      → Reach trapframe pagetable cwd s
      → i < 64
      → s.pc i ≡ waiting
      → (s.table.proc i).state ≡ sleeping
      → ((s.table.proc i).chan ≡ proc_chan i) × NoZombie i s.table
  asleep_childless i r l e e' =
      (Reach-IsSound r).woken.listens i l (ap is_waiting e) (ap is_sleeping e')
