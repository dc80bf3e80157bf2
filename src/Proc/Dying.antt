-- ===== src/Proc/Dying.antt =====
-- The last part of exit().
use mathlib.Core.Path.{subst}
use xv6_part2_and_concurrenc.Base.{
  ℕ, ◌≤◌, ◌<◌, ◌≡◌, ◌≢◌, ◌⊎◌, inl, inr, refl, sym, ap, ◌∙◌, true, false, some, update-eq, update-ne,
  ℕ_discrete, Bool-cases,
}
use xv6_part2_and_concurrenc.Proc.{
  zombie, is_sleeping, proc_chan, same_chan, Table, set_proc, wakeup,
}
use xv6_part2_and_concurrenc.Proc.Life.{is_child, reparent, parent_chan, dead, exit_last}
use xv6_part2_and_concurrenc.Proc.Effects.{
  Untouched, Untouched-trans, wakeup-Untouched, Alike, Alike-trans, wakeup-at, wakeup-wakes,
  wakeup-rest,
}
use xv6_part2_and_concurrenc.Proc.Reparent.{reparent_lem, no_sleeper}

pub record Exited (me status : ℕ) (t r : Table) : Type 0 where
  pub others : (j : ℕ) → j ≢ me → Alike (t.proc j) (r.proc j)
  pub state : (r.proc me).state ≡ zombie
  pub xstate : (r.proc me).xstate ≡ status
  pub etime : (r.proc me).etime ≡ t.ticks
  pub pid : (r.proc me).pid ≡ (t.proc me).pid
  pub rtime : (r.proc me).rtime ≡ (t.proc me).rtime
  pub ctime : (r.proc me).ctime ≡ (t.proc me).ctime
  pub given : (j : ℕ) → j < 64 → is_child me (t.proc j) ≡ true → (r.proc j).parent ≡ some t.initproc
  pub kept :
      (j : ℕ) → (64 ≤ j) ⊎ (is_child me (t.proc j) ≡ false) → (r.proc j).parent ≡ (t.proc j).parent
  pub init_woken :
      (j : ℕ)
      → j < 64
      → is_child me (t.proc j) ≡ true
      → t.initproc < 64
      → t.initproc ≢ me
      → same_chan (t.proc t.initproc).chan (proc_chan t.initproc) ≡ true
      → is_sleeping (r.proc t.initproc).state ≡ false
  pub parent_woken :
      (i : ℕ)
      → i < 64
      → i ≢ me
      → (r.proc me).parent ≡ some i
      → same_chan (t.proc i).chan (proc_chan i) ≡ true
      → is_sleeping (r.proc i).state ≡ false
  pub nextpid : r.nextpid ≡ t.nextpid
  pub ticks : r.ticks ≡ t.ticks
  pub initproc : r.initproc ≡ t.initproc
  pub refs : r.refs ≡ t.refs
  pub rest : (j : ℕ) → j ≢ me → Untouched (t.proc j) (r.proc j)
  pub own : Untouched (record (t.proc me) { xstate = status }) (r.proc me)

module _ (me status : ℕ) (t : Table) where
  abbrev orphaned : Table
  orphaned = reparent me t

  abbrev told : Table
  told = wakeup me (parent_chan (orphaned.proc me).parent) orphaned

  abbrev last : Table
  last = set_proc told me (dead status told.ticks (told.proc me))

  last_other : (j : ℕ) → j ≢ me → last.proc j ≡ told.proc j
  last_other j off = update-ne told.proc me (dead status told.ticks (told.proc me)) j off

  last_me : last.proc me ≡ dead status told.ticks (told.proc me)
  last_me = update-eq told.proc me (dead status told.ticks (told.proc me)) me refl

  told-Alike : (j : ℕ) → Alike (t.proc j) (told.proc j)
  told-Alike j =
      Alike-trans ((reparent_lem me t).alike j)
        (wakeup-at me (parent_chan (orphaned.proc me).parent) orphaned j).0

  told-Untouched : (j : ℕ) → Untouched (t.proc j) (told.proc j)
  told-Untouched j =
      Untouched-trans ((reparent_lem me t).rest j)
        (wakeup-Untouched me (parent_chan (orphaned.proc me).parent) orphaned j)

  dead-Untouched :
      (ticks : ℕ)
      → Untouched (record (t.proc me) { xstate = status }) (dead status ticks (told.proc me))
  unfolding dead
  dead-Untouched ticks =
      let u = told-Untouched me in
      record {
        killed = u.killed;
        xstate = refl;
        sz = u.sz;
        pagetable = u.pagetable;
        trapframe = u.trapframe;
        ofile = u.ofile;
        cwd = u.cwd;
        name = u.name;
      }

  told_parent : (j : ℕ) → (told.proc j).parent ≡ (orphaned.proc j).parent
  told_parent j = (wakeup-at me (parent_chan (orphaned.proc me).parent) orphaned j).1

  last_parent : (j : ℕ) → (last.proc j).parent ≡ (orphaned.proc j).parent
  unfolding dead
  last_parent j = elim (ℕ_discrete j me) [
    | yes at ↦
        ap (λ i. (last.proc i).parent) at
        ∙ ap (λ p. p.parent) last_me
        ∙ told_parent me
        ∙ ap (λ i. (orphaned.proc i).parent) (sym at)
    | no off ↦ ap (λ p. p.parent) (last_other j off) ∙ told_parent j
  ]

  told_awake :
      (i : ℕ)
      → i < 64
      → i ≢ me
      → (orphaned.proc me).parent ≡ some i
      → same_chan (t.proc i).chan (proc_chan i) ≡ true
      → is_sleeping (told.proc i).state ≡ false
  told_awake i l off e c = elim (Bool-cases (is_sleeping (orphaned.proc i).state)) [
    | inl asleep ↦
        ap (λ p. is_sleeping p.state)
          (wakeup-wakes me (parent_chan (orphaned.proc me).parent) orphaned i l off asleep (
            ap (λ q. same_chan (orphaned.proc i).chan (parent_chan q)) e
            ∙ ap (λ x. same_chan x (proc_chan i)) ((reparent_lem me t).alike i).chan
            ∙ c))
    | inr awake ↦
        no_sleeper (wakeup-at me (parent_chan (orphaned.proc me).parent) orphaned i).0 awake
  ]

  told_ticks : told.ticks ≡ t.ticks
  told_ticks =
      (wakeup-rest me (parent_chan (orphaned.proc me).parent) orphaned).1
      ∙ (reparent_lem me t).ticks

  last-Exited : Exited me status t last
  unfolding dead
  last-Exited =
      let r = reparent_lem me t in
      let rest = wakeup-rest me (parent_chan (orphaned.proc me).parent) orphaned in
      record {
        others = λ j off. rw (last_other j off) (told-Alike j);
        state = ap (λ p. p.state) last_me;
        xstate = ap (λ p. p.xstate) last_me;
        etime = ap (λ p. p.etime) last_me ∙ told_ticks;
        pid = ap (λ p. p.pid) last_me ∙ (told-Alike me).pid;
        rtime = ap (λ p. p.rtime) last_me ∙ (told-Alike me).rtime;
        ctime = ap (λ p. p.ctime) last_me ∙ (told-Alike me).ctime;
        given = λ j l c. last_parent j ∙ r.given j l c;
        kept = λ j out. last_parent j ∙ r.kept j out;
        init_woken = λ j l c below off chan.
            ap (λ p. is_sleeping p.state) (last_other t.initproc off)
            ∙ no_sleeper
                (wakeup-at me (parent_chan (orphaned.proc me).parent) orphaned t.initproc).0
                (r.init_woken j l c below off chan);
        parent_woken = λ i l off e chan.
            ap (λ p. is_sleeping p.state) (last_other i off)
            ∙ told_awake i l off (sym (last_parent me) ∙ e) chan;
        nextpid = rest.0 ∙ r.nextpid;
        ticks = told_ticks;
        initproc = rest.2 ∙ r.initproc;
        refs = rest.3 ∙ r.refs;
        rest = λ j off. rw (last_other j off) (told-Untouched j);
        own =
            subst (Untouched (record (t.proc me) { xstate = status })) (sym last_me)
              (dead-Untouched told.ticks);
      }

-- The last part of exit(), of any process in any table: the process is a zombie with the status and
-- the current tick and keeps its ID and times; its children get init as parent, every other parent
-- pointer is kept; a parent that waits on itself is awake, and so is init if it was given a child;
-- of the process, its size, page table, trapframe, files, directory, name and killed flag are as
-- before; every other process is as before in all its fields but for its parent and for being
-- woken, and the counters and the counts of files are.
pub exit_last-Exited : (me status : ℕ) (t : Table) → Exited me status t (exit_last me status t)
unfolding exit_last
exit_last-Exited me status t = last-Exited me status t
