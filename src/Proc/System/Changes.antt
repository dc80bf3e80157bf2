-- ===== src/Proc/System/Changes.antt =====
-- The steps of a process, by what they change.
use xv6_part2_and_concurrenc.Base.{
  ℕ, ◌<◌, ◌≡◌, ◌≢◌, ◌⊎◌, inl, inr, refl, sym, ap, ◌∙◌, Bool, true, false, Option, none, some,
  update-eq, update-ne,
}
use xv6_part2_and_concurrenc.Proc.{
  running, is_unused, is_sleeping, is_zombie, Chan, proc_chan, address, Proc, Table, set_proc,
  freeproc, yield_cpu, sleep_on, awake, setkilled,
}
use xv6_part2_and_concurrenc.Proc.Life.{is_child, fork_link, fork_finish}
use xv6_part2_and_concurrenc.Proc.Wait.{WaitResult, asleep}
use xv6_part2_and_concurrenc.Proc.Effects.{Alike, Alike-same}
use xv6_part2_and_concurrenc.Proc.Alloc.{Allocated}
use xv6_part2_and_concurrenc.Proc.Fork.{fork_start-Allocated}
use xv6_part2_and_concurrenc.Proc.Waiting.{
  IsZombieChild, Waited, reaps, cannot_copy, gives_up, blocks,
}
use xv6_part2_and_concurrenc.Proc.Reaping.{wait_lem}
use xv6_part2_and_concurrenc.Proc.Exit.{
  kill-Killed, kill-Alike, Killed, nobody, hit, one-Alike, exit_files-Closed,
}
use xv6_part2_and_concurrenc.Proc.Dying.{Exited, exit_last-Exited}
use xv6_part2_and_concurrenc.Proc.System.{
  Pc, outside, linking, finishing, exiting, gone, waiting, pc_after_wait, Act, yields, forks,
  fork_fails, links, finishes, closes, dies, waits, waits_killed, woken_wait, naps, woken, kills,
  marks,
}

-- The child that a process in fork() holds.
abbrev pub holds : Pc → Option ℕ
holds (linking np) = some np
holds (finishing np) = some np
holds _ = none

abbrev pub is_waiting : Pc → Bool
is_waiting waiting = true
is_waiting _ = false

abbrev pub is_exiting : Pc → Bool
is_exiting exiting = true
is_exiting _ = false

pub record SameGlobals (t t' : Table) : Type 0 where
  pub nextpid : t'.nextpid ≡ t.nextpid
  pub ticks : t'.ticks ≡ t.ticks
  pub initproc : t'.initproc ≡ t.initproc

-- Only the process `i` has changed, which goes on.
pub record Own (i : ℕ) (t t' : Table) : Type 0 where
  pub others : (j : ℕ) → j ≢ i → t'.proc j ≡ t.proc j
  pub alive : is_unused (t'.proc i).state ≡ false
  pub no_zombie : is_zombie (t'.proc i).state ≡ false
  pub pid : (t'.proc i).pid ≡ (t.proc i).pid
  pub parent : (t'.proc i).parent ≡ (t.proc i).parent
  pub rtime : (t'.proc i).rtime ≡ (t.proc i).rtime
  pub ctime : (t'.proc i).ctime ≡ (t.proc i).ctime

abbrev pub NoZombie : ℕ → Table → Type 0
NoZombie i t = (j : ℕ) → j < 64 → is_child i (t.proc j) ≡ true → is_zombie (t.proc j).state ≡ false

-- If the process sleeps in wait(), it sleeps on itself and has no zombie to collect.
abbrev pub SleepsWell : ℕ → Table → Table → Pc → Type 0
SleepsWell i t t' p' =
    (is_waiting p' ≡ false)
    ⊎ (is_sleeping (t'.proc i).state ≡ false)
    ⊎ (((t'.proc i).chan ≡ proc_chan i) × NoZombie i t)

abbrev pub AllAlike : Table → Table → Type 0
AllAlike t t' = (j : ℕ) → Alike (t.proc j) (t'.proc j) × ((t'.proc j).parent ≡ (t.proc j).parent)

pub data Change (i : ℕ) (t : Table) (p : Pc) (t' : Table) (p' : Pc) : Type 0 where
  own :
      Own i t t'
      → SameGlobals t t'
      → holds p' ≡ holds p
      → is_exiting p' ≡ is_exiting p
      → SleepsWell i t t' p'
      → Change i t p t' p'
  alike :
      AllAlike t t'
      → SameGlobals t t'
      → holds p' ≡ none
      → (is_exiting p' ≡ false) ⊎ (i ≢ t.initproc)
      → is_waiting p' ≡ false
      → Change i t p t' p'
  starts :
      {o : Option ℕ}
      → Allocated t o t'
      → holds p' ≡ o
      → is_exiting p' ≡ false
      → is_waiting p' ≡ false
      → Change i t p t' p'
  given_parent :
      (np : ℕ) → p ≡ linking np → p' ≡ finishing np → t' ≡ fork_link i np t → Change i t p t' p'
  set_going :
      (np : ℕ) → p ≡ finishing np → p' ≡ outside → t' ≡ fork_finish np t → Change i t p t' p'
  ends : (status : ℕ) → p ≡ exiting → p' ≡ gone → Exited i status t t' → Change i t p t' p'
  collects :
      {k : ℕ}
      → k < 64
      → IsZombieChild i (t.proc k)
      → p' ≡ outside
      → t' ≡ freeproc k t
      → Change i t p t' p'

-- The process itself in another state.
set-Own :
    (i : ℕ) (t : Table) (q : Proc)
    → is_unused q.state ≡ false
    → is_zombie q.state ≡ false
    → q.pid ≡ (t.proc i).pid
    → q.parent ≡ (t.proc i).parent
    → q.rtime ≡ (t.proc i).rtime
    → q.ctime ≡ (t.proc i).ctime
    → Own i t (set_proc t i q)
set-Own i t q u z pid parent rtime ctime =
    let e = update-eq t.proc i q i refl in
    record {
      others = λ j off. update-ne t.proc i q j off;
      alive = ap (λ p. is_unused p.state) e ∙ u;
      no_zombie = ap (λ p. is_zombie p.state) e ∙ z;
      pid = ap (λ p. p.pid) e ∙ pid;
      parent = ap (λ p. p.parent) e ∙ parent;
      rtime = ap (λ p. p.rtime) e ∙ rtime;
      ctime = ap (λ p. p.ctime) e ∙ ctime;
    }

same : {t : Table} → SameGlobals t t
same = record { nextpid = refl; ticks = refl; initproc = refl }

same_of : (t : Table) (i : ℕ) (q : Proc) → SameGlobals t (set_proc t i q)
same_of t i q = record { nextpid = refl; ticks = refl; initproc = refl }

module _ (i : ℕ) (t : Table) (runs : (t.proc i).state ≡ running) where
  yields-Own : Own i t (yield_cpu i t)
  unfolding yield_cpu
  yields-Own = set-Own i t _ refl refl refl refl refl refl

  yields_awake : is_sleeping ((yield_cpu i t).proc i).state ≡ false
  unfolding yield_cpu
  yields_awake = ap (λ p. is_sleeping p.state) (update-eq t.proc i _ i refl)

  sleeps-Own : (c : Chan) → Own i t (sleep_on i c t)
  unfolding sleep_on
  sleeps-Own c = set-Own i t _ refl refl refl refl refl refl

  sleeps_chan : (c : Chan) → ((sleep_on i c t).proc i).chan ≡ c
  unfolding sleep_on
  sleeps_chan c = ap (λ p. p.chan) (update-eq t.proc i _ i refl)

  awake-Own : Own i t (awake i t)
  unfolding awake
  awake-Own = set-Own i t _ (ap is_unused runs) (ap is_zombie runs) refl refl refl refl

  same_globals :
      SameGlobals t (yield_cpu i t)
      × ((c : Chan) → SameGlobals t (sleep_on i c t))
      × SameGlobals t (awake i t)
      × SameGlobals t (setkilled i t)
  unfolding yield_cpu sleep_on awake setkilled
  same_globals = (same_of t i _, (λ c. same_of t i _), same_of t i _, same_of t i _)

  marks-alike : AllAlike t (setkilled i t)
  unfolding setkilled
  marks-alike =
      one-Alike t i _
        (record {
          state = inl refl;
          chan = refl;
          pid = refl;
          rtime = refl;
          ctime = refl;
          etime = refl;
        })
        refl

  Waited-Change :
      {copied : Bool} {r : WaitResult} {t' : Table} {p : Pc}
      → Waited i copied t r t'
      → holds p ≡ none
      → is_exiting p ≡ false
      → Change i t p t' (pc_after_wait r)
  Waited-Change (reaps l z good) h x = collects l z refl refl
  Waited-Change (cannot_copy l z bad) h x =
      alike (λ j. (Alike-same (t.proc j), refl)) same refl (inl refl) refl
  Waited-Change (gives_up dead why) h x =
      alike (λ j. (Alike-same (t.proc j), refl)) same refl (inl refl) refl
  Waited-Change (blocks dead l c alive) h x =
      own (sleeps-Own (proc_chan i)) (same_globals.1 (proc_chan i)) (sym h) (sym x)
        (inr (inr (sleeps_chan (proc_chan i), dead)))

setkilled-Own :
    (i : ℕ) (t : Table)
    → is_unused (t.proc i).state ≡ false
    → is_zombie (t.proc i).state ≡ false
    → Own i t (setkilled i t)
unfolding setkilled
setkilled-Own i t u z = set-Own i t _ u z refl refl refl refl

setkilled_chan : (i : ℕ) (t : Table) → ((setkilled i t).proc i).chan ≡ (t.proc i).chan
unfolding setkilled
setkilled_chan i t = ap (λ p. p.chan) (update-eq t.proc i _ i refl)

setkilled_globals : (i : ℕ) (t : Table) → SameGlobals t (setkilled i t)
unfolding setkilled
setkilled_globals i t = same_of t i _

Own-trans : {i : ℕ} {t t' t'' : Table} → Own i t t' → Own i t' t'' → Own i t t''
Own-trans a b = record {
  others = λ j off. b.others j off ∙ a.others j off;
  alive = b.alive;
  no_zombie = b.no_zombie;
  pid = b.pid ∙ a.pid;
  parent = b.parent ∙ a.parent;
  rtime = b.rtime ∙ a.rtime;
  ctime = b.ctime ∙ a.ctime;
}

SameGlobals-trans : {t t' t'' : Table} → SameGlobals t t' → SameGlobals t' t'' → SameGlobals t t''
SameGlobals-trans a b = record {
  nextpid = b.nextpid ∙ a.nextpid;
  ticks = b.ticks ∙ a.ticks;
  initproc = b.initproc ∙ a.initproc;
}

killed_asleep :
    (i : ℕ) (t : Table) {copied : Bool} {r : WaitResult} {t' : Table} {p : Pc}
    → (t.proc i).state ≡ running
    → Waited i copied t r t'
    → r ≡ asleep
    → holds p ≡ none
    → is_exiting p ≡ false
    → Change i t p (setkilled i t') waiting
killed_asleep i t runs (reaps l z good) e h x = cc
killed_asleep i t runs (cannot_copy l z bad) e h x = cc
killed_asleep i t runs (gives_up dead why) e h x = cc
killed_asleep i t runs (blocks dead l c alive) e h x =
    let o = sleeps-Own i t runs (proc_chan i) in
    let t' = sleep_on i (proc_chan i) t in
    own (Own-trans o (setkilled-Own i t' o.alive o.no_zombie))
      (SameGlobals-trans ((same_globals i t runs).1 (proc_chan i)) (setkilled_globals i t')) (sym h)
      (sym x) (inr (inr (setkilled_chan i t' ∙ sleeps_chan i t runs (proc_chan i), dead)))

kill-globals : {t t' : Table} {b : Bool} → Killed t t' b → SameGlobals t t'
kill-globals nobody = same
kill-globals {t} (hit {i} l) = same_of t i _

module _ (i : ℕ) (t : Table) (runs : (t.proc i).state ≡ running) where
  pub Act-Change : {p p' : Pc} {t' : Table} → Act i t p t' p' → Change i t p t' p'
  Act-Change yields =
      own (yields-Own i t runs) (same_globals i t runs).0 refl refl
        (inr (inl (yields_awake i t runs)))
  Act-Change (forks {np} {t'} trapframe pagetable e) =
      starts (fork_start-Allocated i trapframe pagetable true t (some np) t' e) refl refl refl
  Act-Change (fork_fails {t'} trapframe pagetable copied e) =
      starts (fork_start-Allocated i trapframe pagetable copied t none t' e) refl refl refl
  Act-Change (links np) = given_parent np refl refl refl
  Act-Change (finishes np) = set_going np refl refl refl
  Act-Change (closes {t'} e) =
      let c = exit_files-Closed i t t' e in
      alike c.alike (record { nextpid = c.nextpid; ticks = c.ticks; initproc = c.initproc }) refl
        (inr c.not_init) refl
  Act-Change (dies status) = ends status refl refl (exit_last-Exited i status t)
  Act-Change (waits copied (inl e)) =
      Waited-Change i t runs (wait_lem i copied t) (ap holds e) (ap is_exiting e)
  Act-Change (waits copied (inr e)) =
      Waited-Change i t runs (wait_lem i copied t) (ap holds e) (ap is_exiting e)
  Act-Change (waits_killed copied (inl e) e') =
      killed_asleep i t runs (wait_lem i copied t) e' (ap holds e) (ap is_exiting e)
  Act-Change (waits_killed copied (inr e) e') =
      killed_asleep i t runs (wait_lem i copied t) e' (ap holds e) (ap is_exiting e)
  Act-Change woken_wait = own (awake-Own i t runs) (same_globals i t runs).2 refl refl (inl refl)
  Act-Change (naps a) =
      own (sleeps-Own i t runs (address a)) ((same_globals i t runs).1 (address a)) refl refl
        (inl refl)
  Act-Change woken = own (awake-Own i t runs) (same_globals i t runs).2 refl refl (inl refl)
  Act-Change (kills pid) =
      alike (kill-Alike (kill-Killed pid t)) (kill-globals (kill-Killed pid t)) refl (inl refl) refl
  Act-Change marks = alike (marks-alike i t runs) (same_globals i t runs).3 refl (inl refl) refl
