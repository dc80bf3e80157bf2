-- ===== src/Proc/System/Timed.antt =====
-- The times of a process in every reachable state.
use mathlib.Core.Path.{subst}
use xv6_part2_and_concurrenc.Base.{
  ◌≢◌, ltb, if◌then◌else◌, ◌%◌, ℕ, ◌+◌, ◌≤◌, ◌<◌, ◌≡◌, ◌^◌, refl, sym, ap, arith, true, false,
  Option, some, update-eq, update-ne, ℕ_discrete, inl, inr,
}
use xv6_part2_and_concurrenc.Proc.{
  unused, used, runnable, running, zombie, is_unused, is_zombie, Chan, Proc, Table, set_proc,
  update_one, cleared, freeproc, run, tick, update_at, wakeup,
}
use xv6_part2_and_concurrenc.Proc.Life.{fork_link, fork_finish}
use xv6_part2_and_concurrenc.Proc.Effects.{Alike, wakeup-at, wakeup-rest}
use xv6_part2_and_concurrenc.Proc.Reparent.{adopted-Alike}
use xv6_part2_and_concurrenc.Proc.Alloc.{IsNew, Started, Allocated, no_slot, given_back, taken_slot}
use xv6_part2_and_concurrenc.Proc.Dying.{Exited}
use xv6_part2_and_concurrenc.Proc.System.{Pc, Clock, idle, updating}
use xv6_part2_and_concurrenc.Proc.System.Changes.{
  holds, SameGlobals, Own, Change, own, alike, starts, given_parent, set_going, ends, collects,
}

-- The ticks since its creation bound the ticks that it ran for, but for one that update_time() may
-- have counted early (`late` is 1); a zombie's end is fixed.
unfoldable pub IsTimed : ℕ → ℕ → Proc → Type 0
IsTimed late ticks p =
    (is_unused p.state ≡ false → is_zombie p.state ≡ false → p.rtime + p.ctime ≤ ticks + late)
    × (is_zombie p.state ≡ true → (p.rtime + p.ctime ≤ p.etime + 1) × (p.etime ≤ ticks))

abbrev pub AreTimed : (ℕ → ℕ) → Table → Type 0
AreTimed late t = (j : ℕ) → j < 64 → IsTimed (late j) t.ticks (t.proc j)

Alike-IsTimed :
    (late ticks : ℕ) {p p' : Proc} → Alike p p' → IsTimed late ticks p → IsTimed late ticks p'
unfolding IsTimed
Alike-IsTimed late ticks a h = ground arith

-- A process that is neither unused nor a zombie goes on as such.
state-IsTimed :
    (late ticks : ℕ) (p p' : Proc)
    → is_unused p.state ≡ false
    → is_zombie p.state ≡ false
    → is_zombie p'.state ≡ false
    → p'.rtime ≡ p.rtime
    → p'.ctime ≡ p.ctime
    → IsTimed late ticks p
    → IsTimed late ticks p'
unfolding IsTimed
state-IsTimed late ticks p p' u z z' r c h = ground arith

unused-IsTimed : (late ticks : ℕ) (p : Proc) → p.state ≡ unused → IsTimed late ticks p
unfolding IsTimed
unused-IsTimed late ticks p e = ground arith

-- A new child: it has run for no tick yet.
new-IsTimed : (late : ℕ) {t : Table} {old p : Proc} → IsNew t old p → IsTimed late t.ticks p
unfolding IsTimed
new-IsTimed late n = ground arith

cleared-IsTimed : (late ticks : ℕ) (p : Proc) → IsTimed late ticks (cleared p)
unfolding IsTimed cleared
cleared-IsTimed late ticks p = ground arith

-- The table of a process that dies.
dead-IsTimed :
    (late ticks : ℕ) (p p' : Proc)
    → late ≤ 1
    → p.state ≡ running
    → p'.state ≡ zombie
    → p'.etime ≡ ticks
    → p'.rtime ≡ p.rtime
    → p'.ctime ≡ p.ctime
    → IsTimed late ticks p
    → IsTimed late ticks p'
unfolding IsTimed
dead-IsTimed late ticks p p' near r z e rt ct h = ground arith

module _ (late : ℕ → ℕ) (near : (j : ℕ) → late j ≤ 1) where
  Started-AreTimed : {t t' : Table} {np : ℕ} → Started t t' np → AreTimed late t → AreTimed late t'
  Started-AreTimed {t} {t'} {np} s h j l = rw s.ticks (elim (ℕ_discrete j np) [
    | yes at ↦ rw at (elim s.slot [
      | inl free ↦ unused-IsTimed (late np) t.ticks (t'.proc np) free
      | inr new ↦ new-IsTimed (late np) new
    ])
    | no off ↦ rw (s.others j off) (h j l)
  ])

  Allocated-AreTimed :
      {t t' : Table} {o : Option ℕ} → Allocated t o t' → AreTimed late t → AreTimed late t'
  Allocated-AreTimed no_slot h = h
  Allocated-AreTimed (given_back s f) h = Started-AreTimed s h
  Allocated-AreTimed (taken_slot s n) h = Started-AreTimed s h

  -- One process that is set to another state.
  set-AreTimed :
      (t : Table) (i : ℕ) (q : Proc)
      → IsTimed (late i) t.ticks q
      → AreTimed late t
      → AreTimed late (set_proc t i q)
  set-AreTimed t i q hq h j l = elim (ℕ_discrete j i) [
    | yes at ↦ rw at (rw (update-eq t.proc i q i refl) hq)
    | no off ↦ rw (update-ne t.proc i q j off) (h j l)
  ]

  free-AreTimed : (t : Table) (k : ℕ) → AreTimed late t → AreTimed late (freeproc k t)
  unfolding freeproc
  free-AreTimed t k h =
      set-AreTimed t k (cleared (t.proc k)) (cleared-IsTimed (late k) t.ticks (t.proc k)) h

  Exited-AreTimed :
      {i status : ℕ} {t t' : Table}
      → (t.proc i).state ≡ running
      → Exited i status t t'
      → AreTimed late t
      → AreTimed late t'
  Exited-AreTimed {i} {t} {t'} runs e h j l = rw e.ticks (elim (ℕ_discrete j i) [
    | yes at ↦ rw at (
        dead-IsTimed (late i) t.ticks (t.proc i) (t'.proc i) (near i) runs e.state e.etime e.rtime
          e.ctime (subst (λ x. IsTimed (late x) t.ticks (t.proc x)) at (h j l)))
    | no off ↦ Alike-IsTimed (late j) t.ticks (e.others j off) (h j l)
  ])

  Own-AreTimed :
      {i : ℕ} {t t' : Table}
      → (t.proc i).state ≡ running
      → Own i t t'
      → SameGlobals t t'
      → AreTimed late t
      → AreTimed late t'
  Own-AreTimed {i} {t} {t'} runs o g h j l = rw g.ticks (elim (ℕ_discrete j i) [
    | yes at ↦ rw at (
        state-IsTimed (late i) t.ticks (t.proc i) (t'.proc i) (ap is_unused runs)
          (ap is_zombie runs) o.no_zombie o.rtime o.ctime
          (subst (λ x. IsTimed (late x) t.ticks (t.proc x)) at (h j l)))
    | no off ↦ rw (o.others j off) (h j l)
  ])

  link-AreTimed : (i np : ℕ) (t : Table) → AreTimed late t → AreTimed late (fork_link i np t)
  unfolding fork_link
  link-AreTimed i np t h j l =
      Alike-IsTimed (late j) t.ticks (adopted-Alike t np (some i) j) (h j l)

  finish-AreTimed :
      (np : ℕ) (t : Table)
      → np < 64
      → (t.proc np).state ≡ used
      → AreTimed late t
      → AreTimed late (fork_finish np t)
  unfolding fork_finish
  finish-AreTimed np t below e h =
      set-AreTimed t np (record (t.proc np) { state = runnable })
        (state-IsTimed (late np) t.ticks (t.proc np) (record (t.proc np) { state = runnable })
          (ap is_unused e) (ap is_zombie e) refl refl refl (h np below))
        h

  pub Change-AreTimed :
      {i : ℕ} {t t' : Table} {p p' : Pc}
      → (t.proc i).state ≡ running
      → ((np : ℕ) → holds p ≡ some np → (np < 64) × ((t.proc np).state ≡ used))
      → Change i t p t' p'
      → AreTimed late t
      → AreTimed late t'
  Change-AreTimed runs held (own o g e x w) h = Own-AreTimed runs o g h
  Change-AreTimed {t} runs held (alike a g e x w) h =
      λ j l. rw g.ticks (Alike-IsTimed (late j) t.ticks (a j).0 (h j l))
  Change-AreTimed runs held (starts a e x w) h = Allocated-AreTimed a h
  Change-AreTimed {i} {t} runs held (given_parent np e e' same) h =
      subst (AreTimed late) (sym same) (link-AreTimed i np t h)
  Change-AreTimed {t} runs held (set_going np e e' same) h =
      let (below, state) = held np (ap holds e) in
      subst (AreTimed late) (sym same) (finish-AreTimed np t below state h)
  Change-AreTimed runs held (ends status e e' x) h = Exited-AreTimed runs x h
  Change-AreTimed {t} runs held (collects {k} l z e same) h =
      subst (AreTimed late) (sym same) (free-AreTimed t k h)

  pub run-AreTimed :
      (i : ℕ) (t : Table)
      → i < 64
      → (t.proc i).state ≡ runnable
      → AreTimed late t
      → AreTimed late (run i t)
  unfolding run
  run-AreTimed i t l e h =
      set-AreTimed t i (record (t.proc i) { state = running })
        (state-IsTimed (late i) t.ticks (t.proc i) (record (t.proc i) { state = running })
          (ap is_unused e) (ap is_zombie e) refl refl refl (h i l))
        h

  pub wake-AreTimed :
      (me : ℕ) (c : Chan) (t : Table) → AreTimed late t → AreTimed late (wakeup me c t)
  wake-AreTimed me c t h j l =
      rw (wakeup-rest me c t).1 (Alike-IsTimed (late j) t.ticks (wakeup-at me c t j).0 (h j l))

-- Which processes update_time() has counted since the last tick.
unfoldable pub counted : Clock → ℕ → ℕ
counted idle j = 1
counted (updating i) j = if ltb j i then 1 else 0

pub counted_near : (c : Clock) (j : ℕ) → counted c j ≤ 1
unfolding counted
counted_near idle j = omega arith
counted_near (updating i) j = ground arith

tick-IsTimed :
    (late ticks : ℕ) (p : Proc) → late ≤ 1 → IsTimed late ticks p → IsTimed 0 (ticks + 1) p
unfolding IsTimed
tick-IsTimed late ticks p near h = ground arith

no_wrap : (x : ℕ) → x < 2 ^ 32 → x % 2 ^ 32 ≡ x
no_wrap x h = omega arith

none_counted : (j : ℕ) → counted (updating 0) j ≡ 0
unfolding counted
none_counted j = ground arith

pub tick-AreTimed :
    (c : Clock) (t : Table)
    → t.ticks + 1 < 2 ^ 32
    → AreTimed (counted c) t
    → AreTimed (counted (updating 0)) (tick t)
unfolding tick
tick-AreTimed c t small h j l =
    rw (no_wrap (t.ticks + 1) small, none_counted j)
      (tick-IsTimed (counted c j) t.ticks (t.proc j) (counted_near c j) (h j l))

update_one-IsTimed :
    (ticks i : ℕ) (p : Proc)
    → ticks + 1 < 2 ^ 32
    → IsTimed 0 ticks p
    → IsTimed 1 ticks (update_one i p)
unfolding IsTimed update_one
update_one-IsTimed ticks i p h t = ground arith

counted_here : (i : ℕ) → (counted (updating i) i ≡ 0) × (counted (updating (i + 1)) i ≡ 1)
unfolding counted
counted_here i = (ground arith, ground arith)

counted_there : (i j : ℕ) → j ≢ i → counted (updating (i + 1)) j ≡ counted (updating i) j
unfolding counted
counted_there i j off = ground arith

pub update-AreTimed :
    (i : ℕ) (t : Table)
    → t.ticks + 1 < 2 ^ 32
    → AreTimed (counted (updating i)) t
    → AreTimed (counted (updating (i + 1))) (update_at i t)
unfolding update_at
update-AreTimed i t small h j l = elim (ℕ_discrete j i) [
  | yes at ↦
      let l' : i < 64 = omega arith in
      rw at (
        rw ((counted_here i).1, update-eq t.proc i (update_one i (t.proc i)) i refl)
          (update_one-IsTimed t.ticks i (t.proc i) small
            (subst (λ x. IsTimed x t.ticks (t.proc i)) (counted_here i).0 (h i l'))))
  | no off ↦ rw (counted_there i j off, update-ne t.proc i (update_one i (t.proc i)) j off) (h j l)
]

all_counted : (j : ℕ) → j < 64 → counted idle j ≡ counted (updating 64) j
unfolding counted
all_counted j l = ground arith

pub idle-AreTimed : (t : Table) → AreTimed (counted (updating 64)) t → AreTimed (counted idle) t
idle-AreTimed t h j l = subst (λ x. IsTimed x t.ticks (t.proc j)) (sym (all_counted j l)) (h j l)
