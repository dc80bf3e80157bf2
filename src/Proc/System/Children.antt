-- ===== src/Proc/System/Children.antt =====
-- The children that processes hold within fork().
use mathlib.Core.Path.{subst}
use xv6_part2_and_concurrenc.Base.{
  ℕ, ◌<◌, ◌≡◌, ◌≢◌, ◌⊎◌, inl, inr, refl, sym, ap, ◌∙◌, arith, true, Option, none, some, update,
  update-eq, update-ne, ℕ_discrete,
}
use xv6_part2_and_concurrenc.Proc.{
  ProcState, used, runnable, running, is_unused, is_zombie, Chan, Proc, Table, set_proc, update_one,
  cleared, freeproc, run, tick, update_at, wakeup,
}
use xv6_part2_and_concurrenc.Proc.Life.{fork_link, fork_finish}
use xv6_part2_and_concurrenc.Proc.Effects.{Alike, Alike-same, wakeup-at}
use xv6_part2_and_concurrenc.Proc.Reparent.{adopted-Alike}
use xv6_part2_and_concurrenc.Proc.Alloc.{IsNew, Started, Allocated, no_slot, given_back, taken_slot}
use xv6_part2_and_concurrenc.Proc.System.{
  Pc, outside, linking, finishing, exiting, gone, waiting, new_child,
}
use xv6_part2_and_concurrenc.Proc.System.Changes.{
  holds, Change, own, alike, starts, given_parent, set_going, ends, collects,
}

-- A process within fork() holds a process that is set up and that no other holds.
pub record AreHeld (t : Table) (pc : ℕ → Pc) : Type 0 where
  pub used_child :
      (i np : ℕ) → i < 64 → holds (pc i) ≡ some np → (np < 64) × ((t.proc np).state ≡ used)
  pub apart :
      (i j np : ℕ) → i < 64 → j < 64 → i ≢ j → holds (pc i) ≡ some np → holds (pc j) ≢ some np

-- Processes in the state USED stay in it, and the holders do not change.
kept-AreHeld :
    {t t' : Table} {pc pc' : ℕ → Pc}
    → ((j : ℕ) → j < 64 → (t.proc j).state ≡ used → (t'.proc j).state ≡ used)
    → ((i np : ℕ) → i < 64 → holds (pc' i) ≡ some np → holds (pc i) ≡ some np)
    → AreHeld t pc
    → AreHeld t' pc'
kept-AreHeld stays fewer h = record {
  used_child = λ i np l e.
      let (below, state) = h.used_child i np l (fewer i np l e) in (below, stays np below state);
  apart = λ i j np l m off e e'. h.apart i j np l m off (fewer i np l e) (fewer j np m e');
}

Alike-used : {p p' : Proc} → Alike p p' → p.state ≡ used → p'.state ≡ used
Alike-used a h = ground arith

used_not_running : (s : ProcState) → s ≡ running → s ≢ used
used_not_running s e e' = cc

runnable_not_used : (s : ProcState) → s ≡ runnable → s ≢ used
runnable_not_used s e e' = cc

used_not_zombie : (s : ProcState) → is_zombie s ≡ true → s ≢ used
used_not_zombie s e e' = cc

used_not_free : (s : ProcState) → is_unused s ≡ true → s ≢ used
used_not_free s e e' = cc

some_eq : {a b : ℕ} → some a ≡ some b → a ≡ b
some_eq e = cc

differs_none : {x : ℕ} → none ≢ some x
differs_none e = cc

new_child-holds :
    (p' : Pc) (pc : ℕ → Pc) (j x : ℕ) → holds (new_child p' pc j) ≡ some x → holds (pc j) ≡ some x
new_child-holds (linking np) pc j x e = elim (ℕ_discrete j np) [
  | yes at ↦ absurd (differs_none (sym (ap holds (update-eq pc np outside j at)) ∙ e))
  | no off ↦ ap holds (sym (update-ne pc np outside j off)) ∙ e
]
new_child-holds outside pc j x e = e
new_child-holds (finishing np) pc j x e = e
new_child-holds exiting pc j x e = e
new_child-holds gone pc j x e = e
new_child-holds waiting pc j x e = e
new_child-holds Pc.scanning pc j x e = e
new_child-holds Pc.sleeps pc j x e = e

module _ (pc : ℕ → Pc) (i : ℕ) (p' : Pc) where
  abbrev pub moved : ℕ → Pc
  moved = update (new_child p' pc) i p'

  pub moved_self : moved i ≡ p'
  moved_self = update-eq (new_child p' pc) i p' i refl

  pub moved_other : (j : ℕ) → j ≢ i → moved j ≡ new_child p' pc j
  moved_other j off = update-ne (new_child p' pc) i p' j off

  fewer_holders :
      (holds p' ≡ none) ⊎ (holds p' ≡ holds (pc i))
      → (j x : ℕ) → j < 64
      → holds (moved j) ≡ some x
      → holds (pc j) ≡ some x
  fewer_holders h j x l e = elim (ℕ_discrete j i) [
    | yes at ↦
        let e' = sym (ap holds (ap moved at ∙ moved_self)) ∙ e in
        elim h [
          | inl nobody ↦ absurd (differs_none (sym nobody ∙ e'))
          | inr same ↦ ap (λ y. holds (pc y)) at ∙ sym same ∙ e'
        ]
    | no off ↦ new_child-holds p' pc j x (ap holds (sym (moved_other j off)) ∙ e)
  ]

  was_held : (j x : ℕ) → j ≢ i → holds (moved j) ≡ some x → holds (pc j) ≡ some x
  was_held j x off e = new_child-holds p' pc j x (ap holds (sym (moved_other j off)) ∙ e)

  own_held : {np : ℕ} (j x : ℕ) → holds p' ≡ some np → j ≡ i → holds (moved j) ≡ some x → np ≡ x
  own_held j x e at e' = some_eq (sym e ∙ sym (ap holds (ap moved at ∙ moved_self)) ∙ e')

module _ {t t' : Table} (pc : ℕ → Pc) (i : ℕ) (p' : Pc) (h : AreHeld t pc) where
  kept_used :
      {np : ℕ} → Started t t' np → (x : ℕ) → (t.proc x).state ≡ used → (t'.proc x).state ≡ used
  kept_used {np} s x e = elim (ℕ_discrete x np) [
    | yes at ↦
        absurd (used_not_free (t.proc np).state s.free (ap (λ y. (t.proc y).state) (sym at) ∙ e))
    | no off ↦ ap (λ p. p.state) (s.others x off) ∙ e
  ]

  -- Nobody held the slot before.
  clash_new : {np : ℕ} → Started t t' np → (x k : ℕ) → k < 64 → np ≡ x → ¬ (holds (pc k) ≡ some x)
  clash_new {np} s x k m at e =
      used_not_free (t.proc np).state s.free
        (ap (λ y. (t.proc y).state) at ∙ (h.used_child k x m e).1)

  -- A new child, held by `i` alone.
  starts-AreHeld :
      {np : ℕ}
      → Started t t' np
      → IsNew t (t.proc np) (t'.proc np)
      → holds p' ≡ some np
      → AreHeld t' (moved pc i p')
  starts-AreHeld {np} s n e =
      let still_used = kept_used s in
      record {
        used_child = λ j x l e'. elim (ℕ_discrete j i) [
          | yes at ↦
              let same = own_held pc i p' j x e at e' in
              (omega (arith, s.below), ap (λ y. (t'.proc y).state) (sym same) ∙ n.state)
          | no off ↦
              let (below, state) = h.used_child j x l (was_held pc i p' j x off e') in
              (below, still_used x state)
        ];
        apart = λ j k x l m off e' e''. elim (ℕ_discrete j i) [
          | yes at ↦ elim (ℕ_discrete k i) [
            | yes at' ↦ off (at ∙ sym at')
            | no other ↦
                clash_new s x k m (own_held pc i p' j x e at e') (was_held pc i p' k x other e'')
          ]
          | no other ↦ elim (ℕ_discrete k i) [
            | yes at' ↦
                clash_new s x j l (own_held pc i p' k x e at' e'') (was_held pc i p' j x other e')
            | no other' ↦
                h.apart j k x l m off (was_held pc i p' j x other e')
                  (was_held pc i p' k x other' e'')
          ]
        ];
      }

module _ {t : Table} (pc : ℕ → Pc) (i : ℕ) (p' : Pc) (h : AreHeld t pc) where
  Allocated-AreHeld :
      {o : Option ℕ} {t' : Table} → Allocated t o t' → holds p' ≡ o → AreHeld t' (moved pc i p')
  Allocated-AreHeld no_slot e =
      kept-AreHeld {t = t} {t' = t} (λ j l u. u) (fewer_holders pc i p' (inl e)) h
  Allocated-AreHeld (given_back s f) e =
      kept-AreHeld (λ j l u. kept_used pc i p' h s j u) (fewer_holders pc i p' (inl e)) h
  Allocated-AreHeld (taken_slot s n) e = starts-AreHeld pc i p' h s n e

  -- The process `i` lets go of its child, which nobody else holds.
  released-AreHeld :
      {np : ℕ} (q : Proc)
      → i < 64
      → holds (pc i) ≡ some np
      → holds p' ≡ none
      → AreHeld (set_proc t np q) (moved pc i p')
  released-AreHeld {np} q l e lets_go =
      let fewer = fewer_holders pc i p' (inl lets_go) in
      record {
        used_child = λ j x m e'. elim (ℕ_discrete j i) [
          | yes at ↦ absurd (
              differs_none
                (sym (ap holds (ap (moved pc i p') at ∙ moved_self pc i p') ∙ lets_go) ∙ e'))
          | no off ↦
              let (below, state) = h.used_child j x m (fewer j x m e') in
              (
                below,
                ap (λ y. y.state)
                      (update-ne t.proc np q x
                        (λ at. h.apart j i x m l off (fewer j x m e') (e ∙ ap some (sym at))))
                    ∙ state,
              )
        ];
        apart = λ j k x m m' off e' e''. h.apart j k x m m' off (fewer j x m e') (fewer k x m' e'');
      }

own_used :
    (i : ℕ) (t t' : Table)
    → (t.proc i).state ≡ running
    → ((j : ℕ) → j ≢ i → Alike (t.proc j) (t'.proc j))
    → (j : ℕ) → (t.proc j).state ≡ used
    → (t'.proc j).state ≡ used
own_used i t t' runs others j u = elim (ℕ_discrete j i) [
  | yes at ↦ absurd (used_not_running (t.proc j).state (ap (λ x. (t.proc x).state) at ∙ runs) u)
  | no off ↦ Alike-used (others j off) u
]

same-Alike : {p p' : Proc} → p' ≡ p → Alike p p'
same-Alike {p} e = subst (Alike p) (sym e) (Alike-same p)

set_used :
    (t : Table) (k : ℕ) (q : Proc)
    → (t.proc k).state ≢ used
    → (j : ℕ) → (t.proc j).state ≡ used
    → ((set_proc t k q).proc j).state ≡ used
set_used t k q other j u = elim (ℕ_discrete j k) [
  | yes at ↦ absurd (other (ap (λ x. (t.proc x).state) (sym at) ∙ u))
  | no off ↦ ap (λ y. y.state) (update-ne t.proc k q j off) ∙ u
]

free_used :
    (t : Table) (k : ℕ)
    → is_zombie (t.proc k).state ≡ true
    → (j : ℕ) → (t.proc j).state ≡ used
    → ((freeproc k t).proc j).state ≡ used
unfolding freeproc
free_used t k z = set_used t k (cleared (t.proc k)) (used_not_zombie (t.proc k).state z)

link_used :
    (i np : ℕ) (t : Table) (j : ℕ)
    → (t.proc j).state ≡ used
    → ((fork_link i np t).proc j).state ≡ used
unfolding fork_link
link_used i np t j u = Alike-used (adopted-Alike t np (some i) j) u

finish-AreHeld :
    {t : Table} (pc : ℕ → Pc) (i np : ℕ)
    → AreHeld t pc
    → i < 64
    → holds (pc i) ≡ some np
    → AreHeld (fork_finish np t) (moved pc i outside)
unfolding fork_finish
finish-AreHeld pc i np h l e = released-AreHeld pc i outside h _ l e refl

pub Change-AreHeld :
    {i : ℕ} {t t' : Table} {p' : Pc} (pc : ℕ → Pc)
    → i < 64
    → (t.proc i).state ≡ running
    → Change i t (pc i) t' p'
    → AreHeld t pc
    → AreHeld t' (moved pc i p')
Change-AreHeld {i} {t} {t'} {p'} pc l runs (own o g e x w) h =
    kept-AreHeld {t = t} {t' = t'}
      (λ j m. own_used i t t' runs (λ k off. same-Alike (o.others k off)) j)
      (fewer_holders pc i p' (inr e)) h
Change-AreHeld {i} {t} {t'} {p'} pc l runs (alike a g e x w) h =
    kept-AreHeld {t = t} {t' = t'} (λ j m. Alike-used (a j).0) (fewer_holders pc i p' (inl e)) h
Change-AreHeld {i} {p'} pc l runs (starts a e x w) h = Allocated-AreHeld pc i p' h a e
Change-AreHeld {i} {t} {t'} {p'} pc l runs (given_parent np e e' same) h =
    kept-AreHeld {t = t} {t' = t'} (λ j m u. ap (λ y. (y.proc j).state) same ∙ link_used i np t j u)
      (fewer_holders pc i p' (inr (ap holds e' ∙ sym (ap holds e)))) h
Change-AreHeld {i} {t} {p'} pc l runs (set_going np e e' same) h =
    subst (λ y. AreHeld y (moved pc i p')) (sym same)
      (subst (λ y. AreHeld (fork_finish np t) (moved pc i y)) (sym e')
        (finish-AreHeld pc i np h l (ap holds e)))
Change-AreHeld {i} {t} {t'} {p'} pc l runs (ends status e e' x) h =
    kept-AreHeld {t = t} {t' = t'} (λ j m. own_used i t t' runs x.others j)
      (fewer_holders pc i p' (inl (ap holds e'))) h
Change-AreHeld {i} {t} {t'} {p'} pc l runs (collects {k} m z e same) h =
    kept-AreHeld {t = t} {t' = t'}
      (λ j m' u. ap (λ y. (y.proc j).state) same ∙ free_used t k z.1 j u)
      (fewer_holders pc i p' (inl (ap holds e))) h

pub run-AreHeld :
    (i : ℕ) (t : Table) (pc : ℕ → Pc)
    → (t.proc i).state ≡ runnable
    → AreHeld t pc
    → AreHeld (run i t) pc
unfolding run
run-AreHeld i t pc e =
    kept-AreHeld {t = t} {t' = set_proc t i (record (t.proc i) { state = running })}
      (λ j m.
        set_used t i (record (t.proc i) { state = running })
          (λ u. runnable_not_used (t.proc i).state e u) j)
      (λ j x m e'. e')

pub wake-AreHeld :
    (me : ℕ) (c : Chan) (t : Table) (pc : ℕ → Pc) → AreHeld t pc → AreHeld (wakeup me c t) pc
wake-AreHeld me c t pc =
    kept-AreHeld {t = t} {t' = wakeup me c t} (λ j m. Alike-used (wakeup-at me c t j).0)
      (λ j x m e. e)

ticked_used : (i : ℕ) (p : Proc) → p.state ≡ used → (update_one i p).state ≡ used
unfolding update_one
ticked_used i p u = ground arith

pub tick-AreHeld : (t : Table) (pc : ℕ → Pc) → AreHeld t pc → AreHeld (tick t) pc
unfolding tick
tick-AreHeld t pc = kept-AreHeld {t = t} {t' = tick t} (λ j m u. u) (λ j x m e. e)

pub update-AreHeld : (i : ℕ) (t : Table) (pc : ℕ → Pc) → AreHeld t pc → AreHeld (update_at i t) pc
unfolding update_at
update-AreHeld i t pc =
    kept-AreHeld {t = t} {t' = update_at i t}
      (λ j m u. elim (ℕ_discrete j i) [
        | yes at ↦
            ap (λ p. p.state) (update-eq t.proc i (update_one i (t.proc i)) j at)
            ∙ ticked_used i (t.proc i) (ap (λ k. (t.proc k).state) (sym at) ∙ u)
        | no off ↦ ap (λ p. p.state) (update-ne t.proc i (update_one i (t.proc i)) j off) ∙ u
      ])
      (λ j x m e. e)
