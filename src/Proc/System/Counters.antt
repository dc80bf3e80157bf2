-- ===== src/Proc/System/Counters.antt =====
-- How the steps of the processes move nextpid and ticks on.
use xv6_part2_and_concurrenc.Base.{
  ◌==◌, if◌then◌else◌, ℕ, ◌+◌, ◌%◌, ◌≤◌, ◌≡◌, ◌⊎◌, ◌^◌, inl, inr, refl, ap, ◌∙◌, arith, Option,
}
use xv6_part2_and_concurrenc.Proc.{address, Table, freeproc, run, tick, update_at}
use xv6_part2_and_concurrenc.Proc.Life.{fork_link, fork_finish}
use xv6_part2_and_concurrenc.Proc.Effects.{wakeup-rest}
use xv6_part2_and_concurrenc.Proc.Alloc.{Allocated, no_slot, given_back, taken_slot}
use xv6_part2_and_concurrenc.Proc.System.{
  Pc, System, Step, act, schedule, ticks_on, updates, updated, wake,
}
use xv6_part2_and_concurrenc.Proc.System.Changes.{
  Change, own, alike, starts, given_parent, set_going, ends, collects, Act-Change,
}

-- A counter of 32 bits that may have moved on by one.
abbrev pub MayStep : ℕ → ℕ → Type 0
MayStep x y = (y ≡ x) ⊎ (y ≡ (x + 1) % 2 ^ 32)

Allocated-ticks : {t t' : Table} {o : Option ℕ} → Allocated t o t' → t'.ticks ≡ t.ticks
Allocated-ticks no_slot = refl
Allocated-ticks (given_back s f) = s.ticks
Allocated-ticks (taken_slot s n) = s.ticks

rest_ticks :
    (i np k : ℕ) (t : Table)
    → ((fork_link i np t).ticks ≡ t.ticks)
      × ((fork_finish np t).ticks ≡ t.ticks)
      × ((freeproc k t).ticks ≡ t.ticks)
      × ((run i t).ticks ≡ t.ticks)
unfolding fork_link fork_finish freeproc run
rest_ticks i np k t = (refl, refl, refl, refl)

Change-ticks : {i : ℕ} {t t' : Table} {p p' : Pc} → Change i t p t' p' → t'.ticks ≡ t.ticks
Change-ticks (own o g e x w) = g.ticks
Change-ticks (alike a g e x w) = g.ticks
Change-ticks (starts a e x w) = Allocated-ticks a
Change-ticks {i} {t} (given_parent np e e' same) = ap (λ y. y.ticks) same ∙ (rest_ticks i np 0 t).0
Change-ticks {i} {t} (set_going np e e' same) = ap (λ y. y.ticks) same ∙ (rest_ticks i np 0 t).1
Change-ticks (ends status e e' x) = x.ticks
Change-ticks {i} {t} (collects {k} m z e same) = ap (λ y. y.ticks) same ∙ (rest_ticks i 0 k t).2

Allocated-nextpid : {t t' : Table} {o : Option ℕ} → Allocated t o t' → MayStep t.nextpid t'.nextpid
Allocated-nextpid no_slot = inl refl
Allocated-nextpid (given_back s f) = inr s.nextpid
Allocated-nextpid (taken_slot s n) = inr s.nextpid

rest_nextpid :
    (i np k : ℕ) (t : Table)
    → ((fork_link i np t).nextpid ≡ t.nextpid)
      × ((fork_finish np t).nextpid ≡ t.nextpid)
      × ((freeproc k t).nextpid ≡ t.nextpid)
      × ((run i t).nextpid ≡ t.nextpid)
      × ((update_at i t).nextpid ≡ t.nextpid)
      × ((tick t).nextpid ≡ t.nextpid)
unfolding fork_link fork_finish freeproc run update_at tick
rest_nextpid i np k t = (refl, refl, refl, refl, refl, refl)

clock_ticks :
    (i : ℕ) (t : Table)
    → ((tick t).ticks ≡ (t.ticks + 1) % 2 ^ 32) × ((update_at i t).ticks ≡ t.ticks)
unfolding tick update_at
clock_ticks i t = (refl, refl)

Change-nextpid :
    {i : ℕ} {t t' : Table} {p p' : Pc} → Change i t p t' p' → MayStep t.nextpid t'.nextpid
Change-nextpid (own o g e x w) = inl g.nextpid
Change-nextpid (alike a g e x w) = inl g.nextpid
Change-nextpid (starts a e x w) = Allocated-nextpid a
Change-nextpid {i} {t} (given_parent np e e' same) =
    inl (ap (λ y. y.nextpid) same ∙ (rest_nextpid i np 0 t).0)
Change-nextpid {i} {t} (set_going np e e' same) =
    inl (ap (λ y. y.nextpid) same ∙ (rest_nextpid i np 0 t).1)
Change-nextpid (ends status e e' x) = inl x.nextpid
Change-nextpid {i} {t} (collects {k} m z e same) =
    inl (ap (λ y. y.nextpid) same ∙ (rest_nextpid i 0 k t).2)

pub Step-counters :
    {s s' : System}
    → Step s s'
    → MayStep s.table.nextpid s'.table.nextpid × MayStep s.table.ticks s'.table.ticks
Step-counters (act {s} i l runs a) =
    let c = Act-Change i s.table runs a in (Change-nextpid c, inl (Change-ticks c))
Step-counters (schedule {s} i l e) =
    (inl (rest_nextpid i 0 0 s.table).3, inl (rest_ticks i 0 0 s.table).3)
Step-counters (ticks_on {s} e) = (inl (rest_nextpid 0 0 0 s.table).5, inr (clock_ticks 0 s.table).0)
Step-counters (updates {s} i l e) =
    (inl (rest_nextpid i 0 0 s.table).4, inl (clock_ticks i s.table).1)
Step-counters (updated {s} me a e) =
    (inl (wakeup-rest me (address a) s.table).0, inl (wakeup-rest me (address a) s.table).1)
Step-counters (wake {s} me a) =
    (inl (wakeup-rest me (address a) s.table).0, inl (wakeup-rest me (address a) s.table).1)

pub up_to : (x y n : ℕ) → MayStep x y → x ≤ n → y ≤ n + (if y == x then 0 else 1)
up_to x y n h l = ground arith
