-- ===== src/Proc/System/Listening.antt =====
-- The sleepers in wait(), at each step.
use xv6_part2_and_concurrenc.Base.{
  ℕ, ◌<◌, ◌≡◌, ◌≢◌, ◌⊎◌, inl, inr, refl, sym, ap, ◌∙◌, true, false, Option, update-eq, update-ne,
  ℕ_discrete,
}
use xv6_part2_and_concurrenc.Proc.{is_zombie, is_sleeping, Proc, Table, set_proc, awake}
use xv6_part2_and_concurrenc.Proc.Alloc.{Started, Allocated, no_slot, given_back, taken_slot}
use xv6_part2_and_concurrenc.Proc.System.{Pc}
use xv6_part2_and_concurrenc.Proc.System.Changes.{
  is_waiting, is_exiting, SameGlobals, Own, SleepsWell, AllAlike,
}
use xv6_part2_and_concurrenc.Proc.System.Children.{moved}
use xv6_part2_and_concurrenc.Proc.System.Wakes.{
  AreWoken, NotDying, NotSleepier, same-NotDying, same-NotSleepier, alive-NotDying,
  awake-NotSleepier, Alike-NotDying, Alike-NotSleepier, step-AreWoken, clash,
}

pub no_wait : {A : Type 0} (p : Pc) → is_waiting p ≡ false → is_waiting p ≡ true → A
no_wait p e e' = absurd (clash (sym e' ∙ e))

started_alive :
    {t t' : Table} {np : ℕ}
    → Started t t' np
    → (is_zombie (t'.proc np).state ≡ false) × (is_sleeping (t'.proc np).state ≡ false)
started_alive s = elim s.slot [
  | inl free ↦ (ap is_zombie free, ap is_sleeping free)
  | inr new ↦ (ap is_zombie new.state, ap is_sleeping new.state)
]

Started-NotDying :
    {t t' : Table} {np : ℕ} → Started t t' np → (j : ℕ) → NotDying (t.proc j) (t'.proc j)
Started-NotDying {t} {t'} {np} s j = elim (ℕ_discrete j np) [
  | yes at ↦
      alive-NotDying (t.proc j) (ap (λ k. is_zombie (t'.proc k).state) at ∙ (started_alive s).0)
  | no off ↦ same-NotDying (s.others j off)
]

Started-NotSleepier :
    {t t' : Table} {np : ℕ} → Started t t' np → (j : ℕ) → NotSleepier (t.proc j) (t'.proc j)
Started-NotSleepier {t} {t'} {np} s j = elim (ℕ_discrete j np) [
  | yes at ↦
      awake-NotSleepier (t.proc j)
        (ap (λ k. is_sleeping (t'.proc k).state) at ∙ (started_alive s).1)
  | no off ↦ same-NotSleepier (s.others j off)
]

module _ {t : Table} (pc : ℕ → Pc) (i : ℕ) (p' : Pc) (h : AreWoken t pc) where
  started-AreWoken :
      {t' : Table} {np : ℕ}
      → Started t t' np
      → is_exiting p' ≡ false
      → is_waiting p' ≡ false
      → AreWoken t' (moved pc i p')
  started-AreWoken {t'} s x w =
      step-AreWoken pc i p' t t' s.initproc (λ j l. Started-NotDying s j)
        (λ j l off. Started-NotSleepier s j) (λ e. absurd (clash (sym e ∙ x))) (no_wait p' w) h

  pub Allocated-AreWoken :
      {o : Option ℕ} {t' : Table}
      → Allocated t o t'
      → is_exiting p' ≡ false
      → is_waiting p' ≡ false
      → AreWoken t' (moved pc i p')
  Allocated-AreWoken no_slot x w =
      step-AreWoken pc i p' t t refl (λ j l. same-NotDying refl) (λ j l off. same-NotSleepier refl)
        (λ e. absurd (clash (sym e ∙ x))) (no_wait p' w) h
  Allocated-AreWoken (given_back s f) x w = started-AreWoken s x w
  Allocated-AreWoken (taken_slot s n) x w = started-AreWoken s x w

  -- One process set to another state, while `i` is not in wait() or exit().
  pub set-AreWoken :
      (k : ℕ) (q : Proc)
      → NotDying (t.proc k) q
      → NotSleepier (t.proc k) q
      → is_exiting p' ≡ false
      → is_waiting p' ≡ false
      → AreWoken (set_proc t k q) (moved pc i p')
  set-AreWoken k q d s x w =
      step-AreWoken pc i p' t (set_proc t k q) refl
        (λ j l. elim (ℕ_discrete j k) [
          | yes at ↦ rw at (rw (update-eq t.proc k q k refl) d)
          | no off ↦ same-NotDying (update-ne t.proc k q j off)
        ])
        (λ j l off'. elim (ℕ_discrete j k) [
          | yes at ↦ rw at (rw (update-eq t.proc k q k refl) s)
          | no off ↦ same-NotSleepier (update-ne t.proc k q j off)
        ])
        (λ e. absurd (clash (sym e ∙ x))) (no_wait p' w) h

  pub Own-AreWoken :
      {t' : Table}
      → i < 64
      → Own i t t'
      → SameGlobals t t'
      → is_exiting p' ≡ is_exiting (pc i)
      → SleepsWell i t t' p'
      → AreWoken t' (moved pc i p')
  Own-AreWoken {t'} l o g x w =
      step-AreWoken pc i p' t t' g.initproc
        (λ j m. elim (ℕ_discrete j i) [
          | yes at ↦
              alive-NotDying (t.proc j) (ap (λ k. is_zombie (t'.proc k).state) at ∙ o.no_zombie)
          | no off ↦ same-NotDying (o.others j off)
        ])
        (λ j m off. same-NotSleepier (o.others j off)) (λ e. h.init_stays i l (sym x ∙ e))
        (λ e asleep. elim w [
          | inl elsewhere ↦ absurd (clash (sym e ∙ elsewhere))
          | inr (inl awake) ↦ absurd (clash (sym asleep ∙ awake))
          | inr (inr well) ↦ well
        ])
        h

  pub alike-AreWoken :
      {t' : Table}
      → AllAlike t t'
      → SameGlobals t t'
      → (is_exiting p' ≡ false) ⊎ (i ≢ t.initproc)
      → is_waiting p' ≡ false
      → AreWoken t' (moved pc i p')
  alike-AreWoken {t'} a g x w =
      step-AreWoken pc i p' t t' g.initproc (λ j m. Alike-NotDying (a j).0 (a j).1)
        (λ j m off. Alike-NotSleepier (a j).0)
        (λ e. elim x [ inl stays ↦ absurd (clash (sym e ∙ stays)) | inr other ↦ other ])
        (no_wait p' w) h
