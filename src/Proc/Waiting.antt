-- ===== src/Proc/Waiting.antt =====
-- wait() and waitx(): which outcome, and when.
use xv6_part2_and_concurrenc.Base.{
  ℕ, zero, suc, ◌+◌, ◌≤◌, ◌<◌, ◌≡◌, ◌≢◌, ◌⊎◌, inl, inr, refl, sym, ap, ◌∙◌, Bool, true, false,
  Option, none, some, arith, ℕ_discrete, Bool-cases,
}
use xv6_part2_and_concurrenc.Proc.{Proc, Table, is_zombie, freeproc, sleep_on, proc_chan}
use xv6_part2_and_concurrenc.Proc.Life.{is_child}
use xv6_part2_and_concurrenc.Proc.Wait.{scan, WaitResult, reaped, failed, asleep}

abbrev pub IsZombieChild : ℕ → Proc → Type 0
IsZombieChild me p = (is_child me p ≡ true) × (is_zombie p.state ≡ true)

-- What a scan of the processes from `i` up to `i + left` finds.
pub data Scanned (me : ℕ) (proc : ℕ → Proc) (i left : ℕ) (havekids : Bool)
    : Option ℕ → Bool → Type 0 where
  found :
      {k : ℕ}
      → i ≤ k
      → k < i + left
      → IsZombieChild me (proc k)
      → Scanned me proc i left havekids (some k) true
  not_found :
      {kids : Bool}
      → ((j : ℕ)
          → i ≤ j
          → j < i + left
          → is_child me (proc j) ≡ true
          → is_zombie (proc j).state ≡ false)
      → (kids ≡ false
          → (havekids ≡ false) × ((j : ℕ) → i ≤ j → j < i + left → is_child me (proc j) ≡ false))
      → (kids ≡ true
          → (havekids ≡ true)
            ⊎ ((j : ℕ) × (i ≤ j) × (j < i + left) × (is_child me (proc j) ≡ true)))
      → Scanned me proc i left havekids none kids

clash : true ≢ false
clash e = cc

module _ (me : ℕ) (proc : ℕ → Proc) (i left : ℕ) (havekids : Bool) where
  scan_other :
      is_child me (proc i) ≡ false
      → scan me proc i (suc left) havekids ≡ scan me proc (i + 1) left havekids
  unfolding scan
  scan_other h = rw (scan, h) refl

  scan_zombie :
      is_child me (proc i) ≡ true
      → is_zombie (proc i).state ≡ true
      → scan me proc i (suc left) havekids ≡ (some i, true)
  unfolding scan
  scan_zombie h h' = rw (scan, h, h') refl

  scan_alive :
      is_child me (proc i) ≡ true
      → is_zombie (proc i).state ≡ false
      → scan me proc i (suc left) havekids ≡ scan me proc (i + 1) left true
  unfolding scan
  scan_alive h h' = rw (scan, h, h') refl

  past_other :
      {o : Option ℕ} {kids : Bool}
      → is_child me (proc i) ≡ false
      → Scanned me proc (i + 1) left havekids o kids
      → Scanned me proc i (suc left) havekids o kids
  past_other h (found lo hi z) = found (omega arith) (omega arith) z
  past_other h (not_found none_dead childless kids) =
      not_found
        (λ j lo hi c. elim (ℕ_discrete j i) [
          | yes at ↦ absurd (clash (sym c ∙ ap (λ x. is_child me (proc x)) at ∙ h))
          | no off ↦ none_dead j (omega arith) (omega arith) c
        ])
        (λ e. (
          (childless e).0,
          λ j lo hi. elim (ℕ_discrete j i) [
            | yes at ↦ ap (λ x. is_child me (proc x)) at ∙ h
            | no off ↦ (childless e).1 j (omega arith) (omega arith)
          ],
        ))
        (λ e. elim (kids e) [
          | inl before ↦ inl before
          | inr (j, lo, hi, c) ↦ inr (j, omega arith, omega arith, c)
        ])

  past_alive :
      {o : Option ℕ} {kids : Bool}
      → is_child me (proc i) ≡ true
      → is_zombie (proc i).state ≡ false
      → Scanned me proc (i + 1) left true o kids
      → Scanned me proc i (suc left) havekids o kids
  past_alive h h' (found lo hi z) = found (omega arith) (omega arith) z
  past_alive h h' (not_found none_dead childless kids) =
      not_found
        (λ j lo hi c. elim (ℕ_discrete j i) [
          | yes at ↦ ap (λ x. is_zombie (proc x).state) at ∙ h'
          | no off ↦ none_dead j (omega arith) (omega arith) c
        ])
        (λ e. absurd (clash (childless e).0)) (λ e. inr (i, omega arith, omega arith, h))

pub scan-Scanned :
    (me : ℕ) (proc : ℕ → Proc) (i left : ℕ) (havekids : Bool)
    → Scanned me proc i left havekids
        (scan me proc i left havekids).0
        (scan me proc i left havekids).1
unfolding scan
scan-Scanned me proc i zero havekids =
    not_found (λ j lo hi. absurd (omega arith)) (λ e. (e, λ j lo hi. absurd (omega arith)))
      (λ e. inl e)
scan-Scanned me proc i (suc left) havekids = elim (Bool-cases (is_child me (proc i))) [
  | inr other ↦
      rw (scan_other me proc i left havekids other)
        (past_other me proc i left havekids other (scan-Scanned me proc (i + 1) left havekids))
  | inl child ↦ elim (Bool-cases (is_zombie (proc i).state)) [
    | inl dead ↦
        rw (scan_zombie me proc i left havekids child dead)
          (found (omega arith) (omega arith) (child, dead))
    | inr alive ↦
        rw (scan_alive me proc i left havekids child alive)
          (past_alive me proc i left havekids child alive (scan-Scanned me proc (i + 1) left true))
  ]
]

-- Each outcome of wait() with its reason.
pub data Waited (me : ℕ) (copied : Bool) (t : Table) : WaitResult → Table → Type 0 where
  reaps :
      {k : ℕ}
      → k < 64
      → IsZombieChild me (t.proc k)
      → copied ≡ true
      → Waited me copied t (reaped (t.proc k).pid) (freeproc k t)
  cannot_copy :
      {k : ℕ} → k < 64 → IsZombieChild me (t.proc k) → copied ≡ false → Waited me copied t failed t
  gives_up :
      ((j : ℕ) → j < 64 → is_child me (t.proc j) ≡ true → is_zombie (t.proc j).state ≡ false)
      → ((t.proc me).killed ≡ true) ⊎ ((j : ℕ) → j < 64 → is_child me (t.proc j) ≡ false)
      → Waited me copied t failed t
  blocks :
      {k : ℕ}
      → ((j : ℕ) → j < 64 → is_child me (t.proc j) ≡ true → is_zombie (t.proc j).state ≡ false)
      → k < 64
      → is_child me (t.proc k) ≡ true
      → (t.proc me).killed ≡ false
      → Waited me copied t asleep (sleep_on me (proc_chan me) t)
