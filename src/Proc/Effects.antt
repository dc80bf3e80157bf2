-- ===== src/Proc/Effects.antt =====
-- What the loops over the process table do to each process.
use xv6_part2_and_concurrenc.Base.{
  ℕ, zero, suc, ◌≤◌, ◌<◌, ◌≡◌, ◌≢◌, ◌⊎◌, inl, inr, refl, ap, ◌∙◌, Bool, true, false, arith,
  update-eq, update-ne, ℕ_discrete, dec_lt, Bool-cases, ◌==◌, ◌&&◌,
}
use xv6_part2_and_concurrenc.Proc.{
  ProcState, sleeping, runnable, is_sleeping, Chan, same_chan, Proc, Table, each_proc, wake_one,
  wakeup,
}

module _ (f : ℕ → Proc → Proc) (proc : ℕ → Proc) where
  pub each_proc-above : (n j : ℕ) → n ≤ j → each_proc f n proc j ≡ proc j
  unfolding each_proc
  each_proc-above zero j h = refl
  each_proc-above (suc n) j h =
      update-ne (each_proc f n proc) n (f n (each_proc f n proc n)) j (λ e. absurd (omega arith))
      ∙ each_proc-above n j (omega arith)

  pub each_proc-below : (n j : ℕ) → j < n → each_proc f n proc j ≡ f j (proc j)
  unfolding each_proc
  each_proc-below zero j h = absurd (omega arith)
  each_proc-below (suc n) j h = elim (ℕ_discrete j n) [
    | yes last ↦ rw last (
        update-eq (each_proc f n proc) n (f n (each_proc f n proc n)) n refl
        ∙ ap (f n) (each_proc-above n n (omega arith)))
    | no before ↦
        update-ne (each_proc f n proc) n (f n (each_proc f n proc n)) j before
        ∙ each_proc-below n j (omega arith)
  ]

-- The same process, perhaps woken, perhaps with another parent.
pub record Alike (p p' : Proc) : Type 0 where
  pub state : (p'.state ≡ p.state) ⊎ ((p.state ≡ sleeping) × (p'.state ≡ runnable))
  pub chan : p'.chan ≡ p.chan
  pub pid : p'.pid ≡ p.pid
  pub rtime : p'.rtime ≡ p.rtime
  pub ctime : p'.ctime ≡ p.ctime
  pub etime : p'.etime ≡ p.etime

pub Alike-same : (p : Proc) → Alike p p
Alike-same p = record {
  state = inl refl;
  chan = refl;
  pid = refl;
  rtime = refl;
  ctime = refl;
  etime = refl;
}

pub Alike-trans : {p q r : Proc} → Alike p q → Alike q r → Alike p r
Alike-trans a b = ground arith

sleeping_state : (s : ProcState) → is_sleeping s ≡ true → s ≡ sleeping
sleeping_state s h = ground arith

both_true : (a b : Bool) → (a && b) ≡ true → (a ≡ true) × (b ≡ true)
both_true a b h = ground arith

-- A round of wakeup() that finds a sleeper, and one that does not.
wake_one-wakes :
    (me : ℕ) (c : Chan) (i : ℕ) (p : Proc)
    → (i == me) ≡ false
    → (is_sleeping p.state && same_chan p.chan c) ≡ true
    → wake_one me c i p ≡ record p { state = runnable }
unfolding wake_one
wake_one-wakes me c i p h h' = rw (h, h') refl

wake_one-skips :
    (me : ℕ) (c : Chan) (i : ℕ) (p : Proc)
    → ((i == me) ≡ true) ⊎ ((is_sleeping p.state && same_chan p.chan c) ≡ false)
    → wake_one me c i p ≡ p
unfolding wake_one
wake_one-skips me c i p (inl h) = rw h refl
wake_one-skips me c i p (inr h) = elim (Bool-cases (i == me)) [
  | inl self ↦ rw self refl
  | inr other ↦ rw (other, h) refl
]

abbrev Woken : Proc → Proc → Type 0
Woken p p' = Alike p p' × (p'.parent ≡ p.parent)

wake_one-Alike : (me : ℕ) (c : Chan) (i : ℕ) (p : Proc) → Woken p (wake_one me c i p)
wake_one-Alike me c i p = elim (Bool-cases (i == me)) [
  | inl self ↦ rw (wake_one-skips me c i p (inl self)) (Alike-same p, refl)
  | inr other ↦ elim (Bool-cases (is_sleeping p.state && same_chan p.chan c)) [
    | inl hit ↦ rw (wake_one-wakes me c i p other hit) (
      record {
        state = inr (sleeping_state p.state (both_true _ _ hit).0, refl);
        chan = refl;
        pid = refl;
        rtime = refl;
        ctime = refl;
        etime = refl;
      },
      refl,
    )
    | inr miss ↦ rw (wake_one-skips me c i p (inr miss)) (Alike-same p, refl)
  ]
]

-- What Alike leaves open, but for the parent: all of it is the same.
pub record Untouched (p p' : Proc) : Type 0 where
  pub killed : p'.killed ≡ p.killed
  pub xstate : p'.xstate ≡ p.xstate
  pub sz : p'.sz ≡ p.sz
  pub pagetable : p'.pagetable ≡ p.pagetable
  pub trapframe : p'.trapframe ≡ p.trapframe
  pub ofile : p'.ofile ≡ p.ofile
  pub cwd : p'.cwd ≡ p.cwd
  pub name : p'.name ≡ p.name

pub Untouched-same : (p : Proc) → Untouched p p
Untouched-same p = record {
  killed = refl;
  xstate = refl;
  sz = refl;
  pagetable = refl;
  trapframe = refl;
  ofile = refl;
  cwd = refl;
  name = refl;
}

pub Untouched-trans : {p q r : Proc} → Untouched p q → Untouched q r → Untouched p r
Untouched-trans a b = record {
  killed = b.killed ∙ a.killed;
  xstate = b.xstate ∙ a.xstate;
  sz = b.sz ∙ a.sz;
  pagetable = b.pagetable ∙ a.pagetable;
  trapframe = b.trapframe ∙ a.trapframe;
  ofile = b.ofile ∙ a.ofile;
  cwd = b.cwd ∙ a.cwd;
  name = b.name ∙ a.name;
}

runnable-Untouched : (p : Proc) → Untouched p (record p { state = runnable })
runnable-Untouched p = record {
  killed = refl;
  xstate = refl;
  sz = refl;
  pagetable = refl;
  trapframe = refl;
  ofile = refl;
  cwd = refl;
  name = refl;
}

wake_one-Untouched : (me : ℕ) (c : Chan) (i : ℕ) (p : Proc) → Untouched p (wake_one me c i p)
wake_one-Untouched me c i p = elim (Bool-cases (i == me)) [
  | inl self ↦ rw (wake_one-skips me c i p (inl self)) (Untouched-same p)
  | inr other ↦ elim (Bool-cases (is_sleeping p.state && same_chan p.chan c)) [
    | inl hit ↦ rw (wake_one-wakes me c i p other hit) (runnable-Untouched p)
    | inr miss ↦ rw (wake_one-skips me c i p (inr miss)) (Untouched-same p)
  ]
]

module _ (me : ℕ) (c : Chan) (t : Table) where
  pub wakeup-at :
      (j : ℕ)
      → Alike (t.proc j) ((wakeup me c t).proc j)
        × (((wakeup me c t).proc j).parent ≡ (t.proc j).parent)
  unfolding wakeup
  wakeup-at j = elim (dec_lt j 64) [
    | yes below ↦
        rw (each_proc-below (wake_one me c) t.proc 64 j below) (wake_one-Alike me c j (t.proc j))
    | no above ↦
        rw (each_proc-above (wake_one me c) t.proc 64 j (omega arith)) (Alike-same (t.proc j), refl)
  ]

  pub wakeup-Untouched : (j : ℕ) → Untouched (t.proc j) ((wakeup me c t).proc j)
  unfolding wakeup
  wakeup-Untouched j = elim (dec_lt j 64) [
    | yes below ↦
        rw (each_proc-below (wake_one me c) t.proc 64 j below)
          (wake_one-Untouched me c j (t.proc j))
    | no above ↦
        rw (each_proc-above (wake_one me c) t.proc 64 j (omega arith)) (Untouched-same (t.proc j))
  ]

  pub wakeup_self : ((wakeup me c t).proc me) ≡ t.proc me
  unfolding wakeup
  wakeup_self = elim (dec_lt me 64) [
    | yes below ↦
        each_proc-below (wake_one me c) t.proc 64 me below
        ∙ wake_one-skips me c me (t.proc me) (inl (ground arith))
    | no above ↦ each_proc-above (wake_one me c) t.proc 64 me (omega arith)
  ]

  -- Whoever sleeps on the channel is woken.
  pub wakeup-wakes :
      (j : ℕ)
      → j < 64
      → j ≢ me
      → is_sleeping (t.proc j).state ≡ true
      → same_chan (t.proc j).chan c ≡ true
      → (wakeup me c t).proc j ≡ record (t.proc j) { state = runnable }
  unfolding wakeup
  wakeup-wakes j l other s e =
      each_proc-below (wake_one me c) t.proc 64 j l
      ∙ wake_one-wakes me c j (t.proc j) (ground arith) (rw (s, e) refl)

  -- Nobody else is touched.
  pub wakeup-skips :
      (j : ℕ)
      → (is_sleeping (t.proc j).state && same_chan (t.proc j).chan c) ≡ false
      → (wakeup me c t).proc j ≡ t.proc j
  unfolding wakeup
  wakeup-skips j miss = elim (dec_lt j 64) [
    | yes below ↦
        each_proc-below (wake_one me c) t.proc 64 j below
        ∙ wake_one-skips me c j (t.proc j) (inr miss)
    | no above ↦ each_proc-above (wake_one me c) t.proc 64 j (omega arith)
  ]

  pub wakeup-rest :
      ((wakeup me c t).nextpid ≡ t.nextpid)
      × ((wakeup me c t).ticks ≡ t.ticks)
      × ((wakeup me c t).initproc ≡ t.initproc)
      × ((wakeup me c t).refs ≡ t.refs)
  unfolding wakeup
  wakeup-rest = (refl, refl, refl, refl)
