-- ===== src/Proc/System/Woken.antt =====
-- The sleepers in wait() at the remaining steps: the deaths, the scheduler, the clock.
use mathlib.Core.Path.{subst}
use xv6_part2_and_concurrenc.Base.{
  ℕ, ◌<◌, ◌≡◌, ◌≢◌, inl, inr, refl, sym, ap, ◌∙◌, arith, true, false, Option, none, some, update-eq,
  update-ne, ℕ_discrete, Bool-cases,
}
use xv6_part2_and_concurrenc.Proc.{
  ProcState, used, runnable, running, is_running, is_zombie, is_sleeping, Chan, proc_chan,
  same_chan, Proc, Table, update_one, cleared, freeproc, run, tick, update_at, wakeup,
}
use xv6_part2_and_concurrenc.Proc.Life.{is_child, points_to, fork_link, fork_finish}
use xv6_part2_and_concurrenc.Proc.Effects.{wakeup-at, wakeup-rest}
use xv6_part2_and_concurrenc.Proc.Dying.{Exited}
use xv6_part2_and_concurrenc.Proc.System.{Pc, outside, finishing, gone}
use xv6_part2_and_concurrenc.Proc.System.Changes.{
  holds, is_waiting, is_exiting, NoZombie, Change, own, alike, starts, given_parent, set_going,
  ends, collects,
}
use xv6_part2_and_concurrenc.Proc.System.Children.{moved}
use xv6_part2_and_concurrenc.Proc.System.Wakes.{
  AreWoken, NotDying, NotSleepier, same-NotDying, same-NotSleepier, alive-NotDying,
  awake-NotSleepier, Alike-NotDying, Alike-NotSleepier, Alike-sleeping, kept-AreWoken, clash,
  Alike-zombie, now_at, was_at,
}
use xv6_part2_and_concurrenc.Proc.System.Listening.{
  Allocated-AreWoken, set-AreWoken, Own-AreWoken, alike-AreWoken, no_wait,
}

parent_of : (j : ℕ) (q : Option ℕ) → points_to j q ≡ true → q ≡ some j
parent_of j none e = cc
parent_of j (some k) e = ap some (ground arith)

own_chan : (j : ℕ) (c : Chan) → c ≡ proc_chan j → same_chan c (proc_chan j) ≡ true
own_chan j c e = ap (λ x. same_chan x (proc_chan j)) e ∙ ground arith

some_eq : {a b : ℕ} → some a ≡ some b → a ≡ b
some_eq e = cc

-- A process that dies wakes its parent, and `init` if it leaves children.
module _ {t t' : Table} (pc : ℕ → Pc) (i status : ℕ) (h : AreWoken t pc)
    (e : Exited i status t t') where
  orphans_heard :
      (j k : ℕ)
      → i < 64
      → j < 64
      → k < 64
      → is_exiting (pc i) ≡ true
      → is_child i (t.proc k) ≡ true
      → is_child j (t'.proc k) ≡ true
      → (t.proc j).chan ≡ proc_chan j
      → is_sleeping (t'.proc j).state ≡ false
  orphans_heard j k l m m' x child c chan =
      let at = some_eq (sym (parent_of j (t'.proc k).parent c) ∙ e.given k m' child) in
      ap (λ y. is_sleeping (t'.proc y).state) at
      ∙ e.init_woken k m' child h.init_below (λ at'. h.init_stays i l x (sym at'))
          (own_chan t.initproc (t.proc t.initproc).chan
            (ap (λ y. (t.proc y).chan) (sym at) ∙ chan ∙ ap proc_chan at))

  heard :
      (j k : ℕ)
      → i < 64
      → j < 64
      → k < 64
      → j ≢ i
      → is_exiting (pc i) ≡ true
      → (t.proc j).chan ≡ proc_chan j
      → NoZombie j t
      → is_child j (t'.proc k) ≡ true
      → is_zombie (t'.proc k).state ≡ true
      → is_sleeping (t'.proc j).state ≡ false
  heard j k l m m' off x chan dead c z = elim (ℕ_discrete k i) [
    | yes at ↦
        e.parent_woken j m off
          (ap (λ y. (t'.proc y).parent) (sym at) ∙ parent_of j (t'.proc k).parent c)
          (own_chan j (t.proc j).chan chan)
    | no other ↦ elim (Bool-cases (is_child i (t.proc k))) [
      | inl child ↦ orphans_heard j k l m m' x child c chan
      | inr mine ↦ absurd (
          clash (
            sym (Alike-zombie (e.others k other) z)
            ∙ dead k m' (ap (points_to j) (sym (e.kept k (inr mine))) ∙ c)))
    ]
  ]

  dead-AreWoken : i < 64 → is_exiting (pc i) ≡ true → AreWoken t' (moved pc i gone)
  dead-AreWoken l x = record {
    init_below = omega (arith, e.initproc, h.init_below);
    init_stays = λ j m y at. elim (ℕ_discrete j i) [
      | yes same ↦ clash (sym (now_at pc i gone is_exiting j same y))
      | no off ↦ h.init_stays j m (was_at pc i gone is_exiting refl j off y) (at ∙ e.initproc)
    ];
    listens = λ j m y asleep. elim (ℕ_discrete j i) [
      | yes same ↦ no_wait gone refl (now_at pc i gone is_waiting j same y)
      | no off ↦
          let (chan, dead) =
            h.listens j m (was_at pc i gone is_waiting refl j off y)
              (Alike-sleeping (e.others j off) asleep) in
          (
            (e.others j off).chan ∙ chan,
            λ k m' c. elim (Bool-cases (is_zombie (t'.proc k).state)) [
              | inr alive ↦ alive
              | inl z ↦ absurd (clash (sym asleep ∙ heard j k l m m' off x chan dead c z))
            ],
          )
    ];
  }

used_states : (s : ProcState) → s ≡ used → (is_zombie s ≡ false) × (is_sleeping s ≡ false)
used_states s e = (ap is_zombie e, ap is_sleeping e)

link-AreWoken :
    {t : Table} (pc : ℕ → Pc) (i np : ℕ)
    → AreWoken t pc
    → (t.proc np).state ≡ used
    → AreWoken (fork_link i np t) (moved pc i (finishing np))
unfolding fork_link
link-AreWoken {t} pc i np h u =
    let (z, s) = used_states (t.proc np).state u in
    set-AreWoken pc i (finishing np) h np (record (t.proc np) { parent = some i })
      (alive-NotDying (t.proc np) z) (awake-NotSleepier (t.proc np) s) refl refl

finish-AreWoken :
    {t : Table} (pc : ℕ → Pc) (i np : ℕ)
    → AreWoken t pc
    → AreWoken (fork_finish np t) (moved pc i outside)
unfolding fork_finish
finish-AreWoken {t} pc i np h =
    set-AreWoken pc i outside h np (record (t.proc np) { state = runnable })
      (alive-NotDying (t.proc np) refl) (awake-NotSleepier (t.proc np) refl) refl refl

free-AreWoken :
    {t : Table} (pc : ℕ → Pc) (i k : ℕ)
    → AreWoken t pc
    → AreWoken (freeproc k t) (moved pc i outside)
unfolding freeproc cleared
free-AreWoken {t} pc i k h =
    set-AreWoken pc i outside h k (cleared (t.proc k)) (alive-NotDying (t.proc k) refl)
      (awake-NotSleepier (t.proc k) refl) refl refl

at_pc :
    {t t' : Table} (pc : ℕ → Pc) (i : ℕ) {p p' : Pc}
    → t' ≡ t
    → p' ≡ p
    → AreWoken t (moved pc i p)
    → AreWoken t' (moved pc i p')
at_pc {t} {t'} pc i {p} {p'} e e' h =
    subst (λ y. AreWoken y (moved pc i p')) (sym e)
      (subst (λ y. AreWoken t (moved pc i y)) (sym e') h)

pub Change-AreWoken :
    {i : ℕ} {t t' : Table} {p' : Pc} (pc : ℕ → Pc)
    → i < 64
    → ((np : ℕ) → holds (pc i) ≡ some np → (np < 64) × ((t.proc np).state ≡ used))
    → Change i t (pc i) t' p'
    → AreWoken t pc
    → AreWoken t' (moved pc i p')
Change-AreWoken {i} {p'} pc l held (own o g e x w) h = Own-AreWoken pc i p' h l o g x w
Change-AreWoken {i} {p'} pc l held (alike a g e x w) h = alike-AreWoken pc i p' h a g x w
Change-AreWoken {i} {p'} pc l held (starts a e x w) h = Allocated-AreWoken pc i p' h a x w
Change-AreWoken {i} pc l held (given_parent np e e' same) h =
    at_pc pc i same e' (link-AreWoken pc i np h (held np (ap holds e)).1)
Change-AreWoken {i} pc l held (set_going np e e' same) h =
    at_pc pc i same e' (finish-AreWoken pc i np h)
Change-AreWoken {i} {t} {t'} pc l held (ends status e e' x) h =
    at_pc pc i refl e' (dead-AreWoken pc i status h x l (ap is_exiting e))
Change-AreWoken {i} pc l held (collects {k} m z e same) h =
    at_pc pc i same e (free-AreWoken pc i k h)

-- Steps that leave every process where it stands.
still-AreWoken :
    {t t' : Table} (pc : ℕ → Pc)
    → t'.initproc ≡ t.initproc
    → ((j : ℕ) → j < 64 → NotDying (t.proc j) (t'.proc j))
    → ((j : ℕ) → j < 64 → NotSleepier (t.proc j) (t'.proc j))
    → AreWoken t pc
    → AreWoken t' pc
still-AreWoken {t} {t'} pc e f s h =
    kept-AreWoken {t = t} {t' = t'} e f h.init_stays
      (λ j l y asleep.
        let (before, same) = (s j l).asleep asleep in
        let (chan, dead) = h.listens j l y before in (same ∙ chan, dead))
      h

pub run-AreWoken : (i : ℕ) (t : Table) (pc : ℕ → Pc) → AreWoken t pc → AreWoken (run i t) pc
unfolding run
run-AreWoken i t pc =
    still-AreWoken {t = t} pc refl
      (λ j l. elim (ℕ_discrete j i) [
        | yes at ↦ alive-NotDying (t.proc j) (
            ap (λ p. is_zombie p.state)
              (update-eq t.proc i (record (t.proc i) { state = running }) j at))
        | no off ↦ same-NotDying (update-ne t.proc i (record (t.proc i) { state = running }) j off)
      ])
      (λ j l. elim (ℕ_discrete j i) [
        | yes at ↦ awake-NotSleepier (t.proc j) (
            ap (λ p. is_sleeping p.state)
              (update-eq t.proc i (record (t.proc i) { state = running }) j at))
        | no off ↦
            same-NotSleepier (update-ne t.proc i (record (t.proc i) { state = running }) j off)
      ])

pub wake-AreWoken :
    (me : ℕ) (c : Chan) (t : Table) (pc : ℕ → Pc) → AreWoken t pc → AreWoken (wakeup me c t) pc
wake-AreWoken me c t pc =
    still-AreWoken {t = t} {t' = wakeup me c t} pc (wakeup-rest me c t).2
      (λ j l. Alike-NotDying (wakeup-at me c t j).0 (wakeup-at me c t j).1)
      (λ j l. Alike-NotSleepier (wakeup-at me c t j).0)

update_one-same :
    (i : ℕ) (p : Proc)
    → ((update_one i p).state ≡ p.state)
      × ((update_one i p).parent ≡ p.parent)
      × ((update_one i p).chan ≡ p.chan)
unfolding update_one
update_one-same i p = elim (Bool-cases (is_running p.state)) [
  | inl on ↦ rw on (refl, refl, refl)
  | inr off ↦ rw off (refl, refl, refl)
]

ticked : (i : ℕ) (p : Proc) → NotDying p (update_one i p) × NotSleepier p (update_one i p)
ticked i p =
    let (s, q, c) = update_one-same i p in
    (
      record { zombie = λ z. (ap is_zombie (sym s) ∙ z, q) },
      record { asleep = λ z. (ap is_sleeping (sym s) ∙ z, c) },
    )

pub tick-AreWoken : (t : Table) (pc : ℕ → Pc) → AreWoken t pc → AreWoken (tick t) pc
unfolding tick
tick-AreWoken t pc =
    still-AreWoken {t = t} {t' = tick t} pc refl (λ j l. same-NotDying refl)
      (λ j l. same-NotSleepier refl)

pub update-AreWoken :
    (i : ℕ) (t : Table) (pc : ℕ → Pc) → AreWoken t pc → AreWoken (update_at i t) pc
unfolding update_at
update-AreWoken i t pc =
    still-AreWoken {t = t} {t' = update_at i t} pc refl
      (λ j l. elim (ℕ_discrete j i) [
        | yes at ↦ rw at (
            subst (NotDying (t.proc i)) (sym (update-eq t.proc i (update_one i (t.proc i)) i refl))
              (ticked i (t.proc i)).0)
        | no off ↦ same-NotDying (update-ne t.proc i (update_one i (t.proc i)) j off)
      ])
      (λ j l. elim (ℕ_discrete j i) [
        | yes at ↦ rw at (
            subst (NotSleepier (t.proc i))
              (sym (update-eq t.proc i (update_one i (t.proc i)) i refl)) (ticked i (t.proc i)).1)
        | no off ↦ same-NotSleepier (update-ne t.proc i (update_one i (t.proc i)) j off)
      ])
