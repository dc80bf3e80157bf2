-- ===== src/Proc/System/Wakes.antt =====
-- What a step does to the sleepers in wait().
use mathlib.Core.Path.{subst}
use xv6_part2_and_concurrenc.Base.{
  ℕ, ◌<◌, ◌≡◌, ◌≢◌, ◌⊎◌, inl, inr, refl, sym, ap, ◌∙◌, arith, Bool, true, false, update-eq,
  update-ne, ℕ_discrete, Bool-cases,
}
use xv6_part2_and_concurrenc.Proc.{is_zombie, is_sleeping, proc_chan, Proc, Table}
use xv6_part2_and_concurrenc.Proc.Life.{points_to}
use xv6_part2_and_concurrenc.Proc.Effects.{Alike}
use xv6_part2_and_concurrenc.Proc.System.{
  Pc, outside, linking, finishing, exiting, gone, waiting, new_child,
}
use xv6_part2_and_concurrenc.Proc.System.Changes.{is_waiting, is_exiting, NoZombie}
use xv6_part2_and_concurrenc.Proc.System.Children.{moved, moved_self, moved_other}

-- `init` stays, and a sleeper in wait() sleeps on itself and has no zombie child.
pub record AreWoken (t : Table) (pc : ℕ → Pc) : Type 0 where
  pub init_below : t.initproc < 64
  pub init_stays : (i : ℕ) → i < 64 → is_exiting (pc i) ≡ true → i ≢ t.initproc
  pub listens :
      (i : ℕ)
      → i < 64
      → is_waiting (pc i) ≡ true
      → is_sleeping (t.proc i).state ≡ true
      → ((t.proc i).chan ≡ proc_chan i) × NoZombie i t

-- No process becomes a zombie, or gets a zombie child.
pub record NotDying (p p' : Proc) : Type 0 where
  pub zombie : is_zombie p'.state ≡ true → (is_zombie p.state ≡ true) × (p'.parent ≡ p.parent)

-- Whoever sleeps did so before, on the same channel.
pub record NotSleepier (p p' : Proc) : Type 0 where
  pub asleep : is_sleeping p'.state ≡ true → (is_sleeping p.state ≡ true) × (p'.chan ≡ p.chan)

pub clash : true ≢ false
clash e = cc

NotDying-NoZombie :
    (t t' : Table) (i : ℕ)
    → ((j : ℕ) → j < 64 → NotDying (t.proc j) (t'.proc j))
    → NoZombie i t
    → NoZombie i t'
NotDying-NoZombie t t' i f h j l c = elim (Bool-cases (is_zombie (t'.proc j).state)) [
  | inr alive ↦ alive
  | inl dead ↦
      let (before, same) = (f j l).zombie dead in
      absurd (clash (sym before ∙ h j l (ap (points_to i) (sym same) ∙ c)))
]

pub kept-AreWoken :
    {t t' : Table} {pc pc' : ℕ → Pc}
    → t'.initproc ≡ t.initproc
    → ((j : ℕ) → j < 64 → NotDying (t.proc j) (t'.proc j))
    → ((j : ℕ) → j < 64 → is_exiting (pc' j) ≡ true → j ≢ t.initproc)
    → ((j : ℕ)
        → j < 64
        → is_waiting (pc' j) ≡ true
        → is_sleeping (t'.proc j).state ≡ true
        → ((t'.proc j).chan ≡ proc_chan j) × NoZombie j t)
    → AreWoken t pc
    → AreWoken t' pc'
kept-AreWoken {t} {t'} e f x w h = record {
  init_below = omega (arith, e, h.init_below);
  init_stays = λ i l s at. x i l s (at ∙ e);
  listens =
      λ i l s asleep. let (chan, dead) = w i l s asleep in (chan, NotDying-NoZombie t t' i f dead);
}

pub same-NotDying : {p p' : Proc} → p' ≡ p → NotDying p p'
same-NotDying e = record {
  zombie = λ z. (ap (λ p. is_zombie p.state) (sym e) ∙ z, ap (λ p. p.parent) e);
}

pub same-NotSleepier : {p p' : Proc} → p' ≡ p → NotSleepier p p'
same-NotSleepier e = record {
  asleep = λ z. (ap (λ p. is_sleeping p.state) (sym e) ∙ z, ap (λ p. p.chan) e);
}

pub alive-NotDying : (p : Proc) {p' : Proc} → is_zombie p'.state ≡ false → NotDying p p'
alive-NotDying p a = record { zombie = λ z. absurd (clash (sym z ∙ a)) }

pub awake-NotSleepier : (p : Proc) {p' : Proc} → is_sleeping p'.state ≡ false → NotSleepier p p'
awake-NotSleepier p a = record { asleep = λ z. absurd (clash (sym z ∙ a)) }

pub Alike-zombie : {p p' : Proc} → Alike p p' → is_zombie p'.state ≡ true → is_zombie p.state ≡ true
Alike-zombie a z = ground arith

pub Alike-sleeping :
    {p p' : Proc} → Alike p p' → is_sleeping p'.state ≡ true → is_sleeping p.state ≡ true
Alike-sleeping a z = ground arith

pub Alike-NotDying : {p p' : Proc} → Alike p p' → p'.parent ≡ p.parent → NotDying p p'
Alike-NotDying a e = record { zombie = λ z. (Alike-zombie a z, e) }

pub Alike-NotSleepier : {p p' : Proc} → Alike p p' → NotSleepier p p'
Alike-NotSleepier a = record { asleep = λ z. (Alike-sleeping a z, a.chan) }

new_child-cases :
    (p' : Pc) (pc : ℕ → Pc) (j : ℕ) → (new_child p' pc j ≡ pc j) ⊎ (new_child p' pc j ≡ outside)
new_child-cases (linking np) pc j = elim (ℕ_discrete j np) [
  | yes at ↦ inr (update-eq pc np outside j at)
  | no off ↦ inl (update-ne pc np outside j off)
]
new_child-cases outside pc j = inl refl
new_child-cases (finishing np) pc j = inl refl
new_child-cases exiting pc j = inl refl
new_child-cases gone pc j = inl refl
new_child-cases waiting pc j = inl refl
new_child-cases Pc.scanning pc j = inl refl
new_child-cases Pc.sleeps pc j = inl refl

module _ (pc : ℕ → Pc) (i : ℕ) (p' : Pc) where
  pub was_at :
      (f : Pc → Bool)
      → f outside ≡ false
      → (j : ℕ) → j ≢ i
      → f (moved pc i p' j) ≡ true
      → f (pc j) ≡ true
  was_at f out j off s = elim (new_child-cases p' pc j) [
    | inl same ↦ ap f (sym (moved_other pc i p' j off ∙ same)) ∙ s
    | inr reset ↦ absurd (clash (sym s ∙ ap f (moved_other pc i p' j off ∙ reset) ∙ out))
  ]

  pub now_at : (f : Pc → Bool) (j : ℕ) → j ≡ i → f (moved pc i p' j) ≡ true → f p' ≡ true
  now_at f j at s = ap f (sym (ap (moved pc i p') at ∙ moved_self pc i p')) ∙ s

  -- What a step of the process `i` has to show.
  pub step-AreWoken :
      (t t' : Table)
      → t'.initproc ≡ t.initproc
      → ((j : ℕ) → j < 64 → NotDying (t.proc j) (t'.proc j))
      → ((j : ℕ) → j < 64 → j ≢ i → NotSleepier (t.proc j) (t'.proc j))
      → (is_exiting p' ≡ true → i ≢ t.initproc)
      → (is_waiting p' ≡ true
          → is_sleeping (t'.proc i).state ≡ true
          → ((t'.proc i).chan ≡ proc_chan i) × NoZombie i t)
      → AreWoken t pc
      → AreWoken t' (moved pc i p')
  step-AreWoken t t' e f s x w h =
      kept-AreWoken {t = t} {t' = t'} e f
        (λ j l y. elim (ℕ_discrete j i) [
          | yes at ↦ λ e'. x (now_at is_exiting j at y) (sym at ∙ e')
          | no off ↦ h.init_stays j l (was_at is_exiting refl j off y)
        ])
        (λ j l y asleep. elim (ℕ_discrete j i) [
          | yes at ↦
              subst (λ k. ((t'.proc k).chan ≡ proc_chan k) × NoZombie k t) (sym at)
                (w (now_at is_waiting j at y)
                  (ap (λ k. is_sleeping (t'.proc k).state) (sym at) ∙ asleep))
          | no off ↦
              let (before, same) = (s j l off).asleep asleep in
              let (chan, dead) = h.listens j l (was_at is_waiting refl j off y) before in
              (same ∙ chan, dead)
        ])
        h
