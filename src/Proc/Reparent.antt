-- ===== src/Proc/Reparent.antt =====
-- reparent(): the parents of the children, and who is woken.
use xv6_part2_and_concurrenc.Base.{
  ℕ, zero, suc, ◌≤◌, ◌<◌, ◌≡◌, ◌≢◌, ◌⊎◌, inl, inr, refl, sym, ap, ◌∙◌, true, false, Option, some,
  arith, update-eq, update-ne, ℕ_discrete, Bool-cases,
}
use xv6_part2_and_concurrenc.Proc.{is_sleeping, proc_chan, same_chan, Proc, Table, set_proc, wakeup}
use xv6_part2_and_concurrenc.Proc.Life.{points_to, is_child, reparent_rounds, reparent}
use xv6_part2_and_concurrenc.Proc.Effects.{
  Untouched, Untouched-same, Untouched-trans, wakeup-Untouched, Alike, Alike-same, Alike-trans,
  wakeup-at, wakeup-wakes,
}

abbrev pub adopted : Table → ℕ → Option ℕ → Table
adopted t n q = set_proc t n (record (t.proc n) { parent = q })

parent-Untouched : (p : Proc) (q : Option ℕ) → Untouched p (record p { parent = q })
parent-Untouched p q = record {
  killed = refl;
  xstate = refl;
  sz = refl;
  pagetable = refl;
  trapframe = refl;
  ofile = refl;
  cwd = refl;
  name = refl;
}

module _ (t : Table) (n : ℕ) (q : Option ℕ) where
  adopted_self : (adopted t n q).proc n ≡ record (t.proc n) { parent = q }
  adopted_self = update-eq t.proc n (record (t.proc n) { parent = q }) n refl

  pub adopted-Alike : (j : ℕ) → Alike (t.proc j) ((adopted t n q).proc j)
  adopted-Alike j = elim (ℕ_discrete j n) [
    | yes at ↦ rw at (
        rw adopted_self (record {
          state = inl refl;
          chan = refl;
          pid = refl;
          rtime = refl;
          ctime = refl;
          etime = refl;
        }))
    | no off ↦
        rw (update-ne t.proc n (record (t.proc n) { parent = q }) j off) (Alike-same (t.proc j))
  ]

  adopted-Untouched : (j : ℕ) → Untouched (t.proc j) ((adopted t n q).proc j)
  adopted-Untouched j = elim (ℕ_discrete j n) [
    | yes at ↦ rw at (rw adopted_self (parent-Untouched (t.proc n) q))
    | no off ↦
        rw (update-ne t.proc n (record (t.proc n) { parent = q }) j off) (Untouched-same (t.proc j))
  ]

  adopted_other : (j : ℕ) → j ≢ n → ((adopted t n q).proc j).parent ≡ (t.proc j).parent
  adopted_other j off =
      ap (λ p. p.parent) (update-ne t.proc n (record (t.proc n) { parent = q }) j off)

  adopted_parent : ((adopted t n q).proc n).parent ≡ q
  adopted_parent = ap (λ p. p.parent) adopted_self

-- A process that sleeps afterwards did so before.
pub still_sleeping :
    {p p' : Proc} → Alike p p' → is_sleeping p'.state ≡ true → is_sleeping p.state ≡ true
still_sleeping a h = ground arith

-- The table `r` that `n` rounds for the process `me` make of `t`.
pub record Reparented (me n : ℕ) (t r : Table) : Type 0 where
  pub alike : (j : ℕ) → Alike (t.proc j) (r.proc j)
  pub given : (j : ℕ) → j < n → is_child me (t.proc j) ≡ true → (r.proc j).parent ≡ some t.initproc
  pub kept :
      (j : ℕ) → (n ≤ j) ⊎ (is_child me (t.proc j) ≡ false) → (r.proc j).parent ≡ (t.proc j).parent
  pub init_woken :
      (j : ℕ)
      → j < n
      → is_child me (t.proc j) ≡ true
      → t.initproc < 64
      → t.initproc ≢ me
      → same_chan (t.proc t.initproc).chan (proc_chan t.initproc) ≡ true
      → is_sleeping (r.proc t.initproc).state ≡ false
  pub nextpid : r.nextpid ≡ t.nextpid
  pub ticks : r.ticks ≡ t.ticks
  pub initproc : r.initproc ≡ t.initproc
  pub refs : r.refs ≡ t.refs
  pub rest : (j : ℕ) → Untouched (t.proc j) (r.proc j)

is_child_same : (me : ℕ) (p p' : Proc) → p'.parent ≡ p.parent → is_child me p' ≡ is_child me p
is_child_same me p p' e = ap (points_to me) e

differs : true ≢ false
differs e = cc

pub no_sleeper :
    {p p' : Proc} → Alike p p' → is_sleeping p.state ≡ false → is_sleeping p'.state ≡ false
no_sleeper a h = ground arith

round_skips :
    (me n : ℕ) (t : Table)
    → is_child me ((reparent_rounds me n t).proc n) ≡ false
    → reparent_rounds me (suc n) t ≡ reparent_rounds me n t
unfolding reparent_rounds
round_skips me n t h = rw h refl

round_adopts :
    (me n : ℕ) (t : Table)
    → is_child me ((reparent_rounds me n t).proc n) ≡ true
    → reparent_rounds me (suc n) t
      ≡ wakeup me
          (proc_chan (reparent_rounds me n t).initproc)
          (adopted (reparent_rounds me n t) n (some (reparent_rounds me n t).initproc))
unfolding reparent_rounds
round_adopts me n t h = rw h refl

module _ (me n : ℕ) (t : Table) (h : Reparented me n t (reparent_rounds me n t)) where
  abbrev done : Table
  done = reparent_rounds me n t

  -- Nothing to do for the process `n`.
  skip_round : is_child me (t.proc n) ≡ false → Reparented me (suc n) t done
  skip_round no_child = record {
    alike = h.alike;
    given = λ j l c. elim (ℕ_discrete j n) [
      | yes at ↦ absurd (differs (sym c ∙ ap (λ i. is_child me (t.proc i)) at ∙ no_child))
      | no off ↦ h.given j (omega arith) c
    ];
    kept = λ j out. elim (ℕ_discrete j n) [
      | yes at ↦ h.kept j (inl (omega arith))
      | no off ↦ h.kept j (elim out [ inl above ↦ inl (omega arith) | inr other ↦ inr other ])
    ];
    init_woken = λ j l c. elim (ℕ_discrete j n) [
      | yes at ↦ absurd (differs (sym c ∙ ap (λ i. is_child me (t.proc i)) at ∙ no_child))
      | no off ↦ h.init_woken j (omega arith) c
    ];
    nextpid = h.nextpid;
    ticks = h.ticks;
    initproc = h.initproc;
    refs = h.refs;
    rest = h.rest;
  }

  abbrev given_away : Table
  given_away = adopted done n (some done.initproc)

  abbrev after : Table
  after = wakeup me (proc_chan done.initproc) given_away

  after-Alike : (j : ℕ) → Alike (t.proc j) (after.proc j)
  after-Alike j = Alike-trans (h.alike j) (
      Alike-trans (adopted-Alike done n (some done.initproc) j)
        (wakeup-at me (proc_chan done.initproc) given_away j).0)

  after-parent : (j : ℕ) → (after.proc j).parent ≡ (given_away.proc j).parent
  after-parent j = (wakeup-at me (proc_chan done.initproc) given_away j).1

  init_awake :
      t.initproc < 64
      → t.initproc ≢ me
      → same_chan (t.proc t.initproc).chan (proc_chan t.initproc) ≡ true
      → is_sleeping (after.proc t.initproc).state ≡ false
  init_awake below other c =
      let i = t.initproc in
      let a = Alike-trans (h.alike i) (adopted-Alike done n (some done.initproc) i) in
      elim (Bool-cases (is_sleeping (given_away.proc i).state)) [
        | inl asleep ↦
            ap (λ p. is_sleeping p.state)
              (wakeup-wakes me (proc_chan done.initproc) given_away i below other asleep (
                ap (λ x. same_chan (given_away.proc i).chan (proc_chan x)) h.initproc
                ∙ ap (λ x. same_chan x (proc_chan i)) a.chan
                ∙ c))
        | inr awake ↦ no_sleeper (wakeup-at me (proc_chan done.initproc) given_away i).0 awake
      ]

  adopt_round : is_child me (t.proc n) ≡ true → Reparented me (suc n) t after
  unfolding wakeup
  adopt_round child = record {
    alike = after-Alike;
    given = λ j l c. elim (ℕ_discrete j n) [
      | yes at ↦
          ap (λ i. (after.proc i).parent) at
          ∙ after-parent n
          ∙ adopted_parent done n (some done.initproc)
          ∙ ap some h.initproc
      | no off ↦
          after-parent j
          ∙ adopted_other done n (some done.initproc) j off
          ∙ h.given j (omega arith) c
    ];
    kept = λ j out. elim (ℕ_discrete j n) [
      | yes at ↦ elim out [
        | inl above ↦ absurd (omega arith)
        | inr other ↦
            absurd (differs (sym child ∙ ap (λ i. is_child me (t.proc i)) (sym at) ∙ other))
      ]
      | no off ↦
          after-parent j
          ∙ adopted_other done n (some done.initproc) j off
          ∙ h.kept j (elim out [ inl above ↦ inl (omega arith) | inr other ↦ inr other ])
    ];
    init_woken = λ j l c. init_awake;
    nextpid = h.nextpid;
    ticks = h.ticks;
    initproc = h.initproc;
    refs = h.refs;
    rest = λ j. Untouched-trans (h.rest j) (
        Untouched-trans (adopted-Untouched done n (some done.initproc) j)
          (wakeup-Untouched me (proc_chan done.initproc) given_away j));
  }

reparent_start : (me : ℕ) (t : Table) → Reparented me 0 t (reparent_rounds me 0 t)
unfolding reparent_rounds
reparent_start me t = record {
  alike = λ j. Alike-same (t.proc j);
  given = λ j l. absurd (omega arith);
  kept = λ j out. refl;
  init_woken = λ j l. absurd (omega arith);
  nextpid = refl;
  ticks = refl;
  initproc = refl;
  refs = refl;
  rest = λ j. Untouched-same (t.proc j);
}

pub reparent_rounds_lem : (me n : ℕ) (t : Table) → Reparented me n t (reparent_rounds me n t)
reparent_rounds_lem me zero t = reparent_start me t
reparent_rounds_lem me (suc n) t =
    let h = reparent_rounds_lem me n t in
    let same =
      is_child_same me (t.proc n) ((reparent_rounds me n t).proc n)
        (h.kept n (inl (omega arith))) in
    elim (Bool-cases (is_child me (t.proc n))) [
      | inl child ↦ rw (round_adopts me n t (same ∙ child)) (adopt_round me n t h child)
      | inr other ↦ rw (round_skips me n t (same ∙ other)) (skip_round me n t h other)
    ]

-- reparent(), in any table: the children of the process among the 64 have init as parent
-- afterwards, the other parent pointers are kept, init is awake if it waited on itself and was
-- given a child, processes may be woken, and nothing else changes: every other field of every
-- process, the counters and the counts of files are as before.
pub reparent_lem : (me : ℕ) (t : Table) → Reparented me 64 t (reparent me t)
unfolding reparent
reparent_lem me t = reparent_rounds_lem me 64 t
