-- ===== src/Proc/System/Pids.antt =====
-- Process IDs in every reachable state.
use mathlib.Core.Path.{subst}
use xv6_part2_and_concurrenc.Base.{
  ℕ, ◌+◌, ◌≤◌, ◌<◌, ◌≡◌, ◌≢◌, ◌⊎◌, ◌^◌, inl, inr, refl, sym, ap, ◌∙◌, arith, true, false, Option,
  some, update-eq, update-ne, ℕ_discrete, Bool-cases,
}
use xv6_part2_and_concurrenc.Proc.{
  ProcState, used, runnable, running, is_unused, is_running, Chan, Proc, Table, set_proc,
  update_one, cleared, freeproc, run, tick, update_at, wakeup,
}
use xv6_part2_and_concurrenc.Proc.Life.{fork_link, fork_finish}
use xv6_part2_and_concurrenc.Proc.Effects.{Alike, Alike-same, wakeup-at, wakeup-rest}
use xv6_part2_and_concurrenc.Proc.Reparent.{adopted, adopted-Alike}
use xv6_part2_and_concurrenc.Proc.Alloc.{Started, Allocated, no_slot, given_back, taken_slot}
use xv6_part2_and_concurrenc.Proc.Dying.{Exited}
use xv6_part2_and_concurrenc.Proc.System.{Pc}
use xv6_part2_and_concurrenc.Proc.System.Changes.{
  holds, Own, Change, own, alike, starts, given_parent, set_going, ends, collects,
}

-- Processes in use have different IDs, which were given out already.
pub record IsNumbered (t : Table) : Type 0 where
  pub range :
      (j : ℕ)
      → j < 64
      → is_unused (t.proc j).state ≡ false
      → (0 < (t.proc j).pid) × ((t.proc j).pid < t.nextpid)
  pub distinct :
      (j k : ℕ)
      → j < 64
      → k < 64
      → j ≢ k
      → is_unused (t.proc j).state ≡ false
      → is_unused (t.proc k).state ≡ false
      → (t.proc j).pid ≢ (t.proc k).pid
  pub next : 0 < t.nextpid

-- A process that is free now, or was in use before with the same ID.
abbrev KeepsPid : Proc → Proc → Type 0
KeepsPid p p' = (is_unused p'.state ≡ true) ⊎ ((is_unused p.state ≡ false) × (p'.pid ≡ p.pid))

clash : true ≢ false
clash e = cc

was_busy : {p p' : Proc} → Alike p p' → is_unused p'.state ≡ false → is_unused p.state ≡ false
was_busy a h = ground arith

in_use :
    (p p' : Proc)
    → KeepsPid p p'
    → is_unused p'.state ≡ false
    → (is_unused p.state ≡ false) × (p'.pid ≡ p.pid)
in_use p p' (inl free) u = absurd (clash (sym free ∙ u))
in_use p p' (inr kept) u = kept

kept-IsNumbered :
    {t t' : Table}
    → ((j : ℕ) → j < 64 → KeepsPid (t.proc j) (t'.proc j))
    → t.nextpid ≤ t'.nextpid
    → IsNumbered t
    → IsNumbered t'
kept-IsNumbered {t} {t'} keeps le h = record {
  range = λ j l u.
      let (v, same) = in_use (t.proc j) (t'.proc j) (keeps j l) u in
      let (lo, hi) = h.range j l v in (omega arith, omega arith);
  distinct = λ j k l m off u u' e.
      let (v, same) = in_use (t.proc j) (t'.proc j) (keeps j l) u in
      let (v', same') = in_use (t.proc k) (t'.proc k) (keeps k m) u' in
      h.distinct j k l m off v v' (sym same ∙ e ∙ same');
  next = omega (arith, h.next);
}

Alike-KeepsPid : {p p' : Proc} → Alike p p' → KeepsPid p p'
Alike-KeepsPid {p} {p'} a = elim (Bool-cases (is_unused p'.state)) [
  | inl free ↦ inl free
  | inr busy ↦ inr (was_busy a busy, a.pid)
]

same-KeepsPid : {p p' : Proc} → p' ≡ p → KeepsPid p p'
same-KeepsPid {p} e = rw e (Alike-KeepsPid (Alike-same p))

older :
    {t t' : Table} {np : ℕ}
    → Started t t' np
    → IsNumbered t
    → (j : ℕ) → j < 64
    → j ≢ np
    → is_unused (t'.proc j).state ≡ false
    → (is_unused (t.proc j).state ≡ false)
      × ((t'.proc j).pid ≡ (t.proc j).pid)
      × ((t.proc j).pid < t.nextpid)
older s h j l off u =
    let v = subst (λ p. is_unused p.state ≡ false) (s.others j off) u in
    (v, ap (λ p. p.pid) (s.others j off), (h.range j l v).1)

-- A slot that is filled gets the next ID.
Started-IsNumbered :
    {t t' : Table} {np : ℕ}
    → t.nextpid + 1 < 2 ^ 32
    → Started t t' np
    → IsNumbered t
    → IsNumbered t'
Started-IsNumbered {t} {t'} {np} small s h = elim s.slot [
  | inl free ↦
      kept-IsNumbered
        (λ j l. elim (ℕ_discrete j np) [
          | yes at ↦ inl (ap (λ x. is_unused (t'.proc x).state) at ∙ ap is_unused free)
          | no off ↦ same-KeepsPid (s.others j off)
        ])
        (omega (arith, s.nextpid)) h
  | inr new ↦ record {
    range = λ j l u. elim (ℕ_discrete j np) [
      | yes at ↦
          rw at (omega (arith, new.pid, s.nextpid, h.next), omega (arith, new.pid, s.nextpid))
      | no off ↦
          let (lo, hi) = h.range j l (subst (λ p. is_unused p.state ≡ false) (s.others j off) u) in
          rw (s.others j off) (lo, omega (arith, s.nextpid))
    ];
    distinct = λ j k l m off u u' e. elim (ℕ_discrete j np) [
      | yes at ↦ elim (ℕ_discrete k np) [
        | yes at' ↦ off (at ∙ sym at')
        | no off' ↦ absurd (
            omega (
              arith,
              ap (λ x. (t'.proc x).pid) at,
              new.pid,
              (older s h k m off' u').1,
              (older s h k m off' u').2,
            ))
      ]
      | no away ↦ elim (ℕ_discrete k np) [
        | yes at' ↦ absurd (
            omega (
              arith,
              ap (λ x. (t'.proc x).pid) at',
              new.pid,
              (older s h j l away u).1,
              (older s h j l away u).2,
            ))
        | no off' ↦
            h.distinct j k l m off (older s h j l away u).0 (older s h k m off' u').0
              (sym (older s h j l away u).1 ∙ e ∙ (older s h k m off' u').1)
      ]
    ];
    next = omega (arith, s.nextpid);
  }
]

Allocated-IsNumbered :
    {t t' : Table} {o : Option ℕ}
    → t.nextpid + 1 < 2 ^ 32
    → Allocated t o t'
    → IsNumbered t
    → IsNumbered t'
Allocated-IsNumbered small no_slot h = h
Allocated-IsNumbered small (given_back s f) h = Started-IsNumbered small s h
Allocated-IsNumbered small (taken_slot s n) h = Started-IsNumbered small s h

set-KeepsPid :
    (t : Table) (i : ℕ) (q : Proc)
    → KeepsPid (t.proc i) q
    → (j : ℕ) → KeepsPid (t.proc j) ((set_proc t i q).proc j)
set-KeepsPid t i q h j = elim (ℕ_discrete j i) [
  | yes at ↦ rw at (rw (update-eq t.proc i q i refl) h)
  | no off ↦ rw (update-ne t.proc i q j off) (same-KeepsPid {p = t.proc j} refl)
]

Own-KeepsPid :
    {i : ℕ} {t t' : Table}
    → (t.proc i).state ≡ running
    → Own i t t'
    → (j : ℕ) → KeepsPid (t.proc j) (t'.proc j)
Own-KeepsPid {i} {t} {t'} runs o j = elim (ℕ_discrete j i) [
  | yes at ↦ rw at (inr (ap is_unused runs, o.pid))
  | no off ↦ same-KeepsPid (o.others j off)
]

dead-KeepsPid :
    {i status : ℕ} {t t' : Table}
    → (t.proc i).state ≡ running
    → Exited i status t t'
    → (j : ℕ) → KeepsPid (t.proc j) (t'.proc j)
dead-KeepsPid {i} {t} {t'} runs e j = elim (ℕ_discrete j i) [
  | yes at ↦ rw at (inr (ap is_unused runs, e.pid))
  | no off ↦ Alike-KeepsPid (e.others j off)
]

link-IsNumbered : (i np : ℕ) (t : Table) → IsNumbered t → IsNumbered (fork_link i np t)
unfolding fork_link
link-IsNumbered i np t =
    kept-IsNumbered {t = t} {t' = adopted t np (some i)}
      (λ j l. Alike-KeepsPid (adopted-Alike t np (some i) j)) (omega arith)

finish-IsNumbered :
    (np : ℕ) (t : Table) → (t.proc np).state ≡ used → IsNumbered t → IsNumbered (fork_finish np t)
unfolding fork_finish
finish-IsNumbered np t e =
    kept-IsNumbered
      (λ j l.
        set-KeepsPid t np (record (t.proc np) { state = runnable }) (inr (ap is_unused e, refl)) j)
      (omega arith)

free-IsNumbered : (k : ℕ) (t : Table) → IsNumbered t → IsNumbered (freeproc k t)
unfolding freeproc cleared
free-IsNumbered k t =
    kept-IsNumbered (λ j l. set-KeepsPid t k (cleared (t.proc k)) (inl refl) j) (omega arith)

pub Change-IsNumbered :
    {i : ℕ} {t t' : Table} {p p' : Pc}
    → t.nextpid + 1 < 2 ^ 32
    → (t.proc i).state ≡ running
    → ((np : ℕ) → holds p ≡ some np → (np < 64) × ((t.proc np).state ≡ used))
    → Change i t p t' p'
    → IsNumbered t
    → IsNumbered t'
Change-IsNumbered small runs held (own o g e x w) h =
    kept-IsNumbered (λ j l. Own-KeepsPid runs o j) (omega (arith, g.nextpid)) h
Change-IsNumbered small runs held (alike a g e x w) h =
    kept-IsNumbered (λ j l. Alike-KeepsPid (a j).0) (omega (arith, g.nextpid)) h
Change-IsNumbered small runs held (starts a e x w) h = Allocated-IsNumbered small a h
Change-IsNumbered {i} {t} small runs held (given_parent np e e' same) h =
    subst IsNumbered (sym same) (link-IsNumbered i np t h)
Change-IsNumbered {t} small runs held (set_going np e e' same) h =
    let (below, state) = held np (ap holds e) in
    subst IsNumbered (sym same) (finish-IsNumbered np t state h)
Change-IsNumbered small runs held (ends status e e' x) h =
    kept-IsNumbered (λ j l. dead-KeepsPid runs x j) (omega (arith, x.nextpid)) h
Change-IsNumbered {t} small runs held (collects {k} l z e same) h =
    subst IsNumbered (sym same) (free-IsNumbered k t h)

pub run-IsNumbered :
    (i : ℕ) (t : Table) → (t.proc i).state ≡ runnable → IsNumbered t → IsNumbered (run i t)
unfolding run
run-IsNumbered i t e =
    kept-IsNumbered
      (λ j l.
        set-KeepsPid t i (record (t.proc i) { state = running }) (inr (ap is_unused e, refl)) j)
      (omega arith)

pub wake-IsNumbered : (me : ℕ) (c : Chan) (t : Table) → IsNumbered t → IsNumbered (wakeup me c t)
wake-IsNumbered me c t =
    kept-IsNumbered (λ j l. Alike-KeepsPid (wakeup-at me c t j).0)
      (omega (arith, (wakeup-rest me c t).0))

not_free : (s : ProcState) → is_running s ≡ true → is_unused s ≡ false
not_free s h = ground arith

update_one-KeepsPid : (i : ℕ) (p : Proc) → KeepsPid p (update_one i p)
unfolding update_one
update_one-KeepsPid i p = elim (Bool-cases (is_running p.state)) [
  | inl on ↦ rw on (inr (not_free p.state on, refl))
  | inr off ↦ rw off (same-KeepsPid {p = p} refl)
]

pub tick-IsNumbered : (t : Table) → IsNumbered t → IsNumbered (tick t)
unfolding tick
tick-IsNumbered t = kept-IsNumbered (λ j l. same-KeepsPid {p = t.proc j} refl) (omega arith)

pub update-IsNumbered : (i : ℕ) (t : Table) → IsNumbered t → IsNumbered (update_at i t)
unfolding update_at
update-IsNumbered i t =
    kept-IsNumbered
      (λ j l. set-KeepsPid t i (update_one i (t.proc i)) (update_one-KeepsPid i (t.proc i)) j)
      (omega arith)
