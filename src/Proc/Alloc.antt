-- ===== src/Proc/Alloc.antt =====
-- The outcomes of allocproc().
use xv6_part2_and_concurrenc.Base.{
  ◌%◌, ◌^◌, ℕ, zero, suc, ◌+◌, ◌≤◌, ◌<◌, ◌≡◌, ◌≢◌, ◌⊎◌, inl, inr, refl, sym, ap, ◌∙◌, true, false,
  Option, none, some, arith, update, update-eq, update-ne, Bool-cases, Option-cases, ◌==◌,
}
use mathlib.Core.Path.{subst}
use xv6_part2_and_concurrenc.Proc.{
  no_chan, unused, used, is_unused, Proc, Table, find_unused, alloc_found, allocproc, cleared,
  taken, set_up, freeproc, set_proc,
}

some_eq : {a b : ℕ} → some a ≡ some b → a ≡ b
some_eq e = cc

pub find_here :
    (proc : ℕ → Proc) (i left : ℕ)
    → is_unused (proc i).state ≡ true
    → find_unused proc i (suc left) ≡ some i
unfolding find_unused
find_here proc i left h = rw (find_unused, h) refl

pub find_on :
    (proc : ℕ → Proc) (i left : ℕ)
    → is_unused (proc i).state ≡ false
    → find_unused proc i (suc left) ≡ find_unused proc (i + 1) left
unfolding find_unused
find_on proc i left h = rw (find_unused, h) refl

pub find_unused-some :
    (proc : ℕ → Proc) (i left k : ℕ)
    → find_unused proc i left ≡ some k
    → (i ≤ k) × (k < i + left) × (is_unused (proc k).state ≡ true)
unfolding find_unused
find_unused-some proc i zero k e = cc
find_unused-some proc i (suc left) k e = elim (Bool-cases (is_unused (proc i).state)) [
  | inl free ↦
      let at = some_eq (sym (find_here proc i left free) ∙ e) in
      (omega arith, omega arith, ap (λ x. is_unused (proc x).state) (sym at) ∙ free)
  | inr busy ↦
      let (lo, hi, free) =
        find_unused-some proc (i + 1) left k (sym (find_on proc i left busy) ∙ e) in
      (omega arith, omega arith, free)
]

-- The slot `np` when it is filled: a child that is not yet linked to its parent.
pub record IsNew (t : Table) (old p : Proc) : Type 0 where
  pub state : p.state ≡ used
  pub pid : p.pid ≡ t.nextpid
  pub rtime : p.rtime ≡ 0
  pub ctime : p.ctime ≡ t.ticks
  pub parent : p.parent ≡ old.parent
  pub killed : p.killed ≡ old.killed

pub record Started (t t' : Table) (np : ℕ) : Type 0 where
  pub below : np < 64
  pub free : is_unused (t.proc np).state ≡ true
  pub others : (j : ℕ) → j ≢ np → t'.proc j ≡ t.proc j
  pub slot : ((t'.proc np).state ≡ unused) ⊎ IsNew t (t.proc np) (t'.proc np)
  pub nextpid : t'.nextpid ≡ (t.nextpid + 1) % 2 ^ 32
  pub ticks : t'.ticks ≡ t.ticks
  pub initproc : t'.initproc ≡ t.initproc

module _ (trapframe pagetable i : ℕ) (t : Table) where
  alloc_fails :
      ((trapframe == 0) ≡ true) ⊎ ((pagetable == 0) ≡ true)
      → alloc_found trapframe pagetable i t ≡ (
        none,
        freeproc i (record t {
          nextpid = (t.nextpid + 1) % 2 ^ 32;
          proc = update t.proc i (taken t.nextpid (t.proc i));
        }),
      )
  unfolding alloc_found
  alloc_fails (inl h) = rw h refl
  alloc_fails (inr h) = elim (Bool-cases (trapframe == 0)) [
    | inl none_left ↦ rw none_left refl
    | inr some_left ↦ rw (some_left, h) refl
  ]

  pub alloc_works :
      (trapframe == 0) ≡ false
      → (pagetable == 0) ≡ false
      → alloc_found trapframe pagetable i t ≡ (
        some i,
        set_proc
            (record t {
              nextpid = (t.nextpid + 1) % 2 ^ 32;
              proc = update t.proc i (taken t.nextpid (t.proc i));
            })
            i
            (set_up trapframe pagetable t.ticks (taken t.nextpid (t.proc i))),
      )
  unfolding alloc_found
  alloc_works h h' = rw (h, h') refl

-- A slot that freeproc() has cleared.
pub record IsFreed (p : Proc) : Type 0 where
  pub state : p.state ≡ unused
  pub pid : p.pid ≡ 0
  pub parent : p.parent ≡ none
  pub killed : p.killed ≡ false
  pub chan : p.chan ≡ no_chan
  pub pages : (p.trapframe ≡ 0) × (p.pagetable ≡ 0) × (p.sz ≡ 0)

pub free-IsFreed : (i : ℕ) (t : Table) → IsFreed ((freeproc i t).proc i)
unfolding freeproc cleared
free-IsFreed i t =
    let e = update-eq t.proc i (cleared (t.proc i)) i refl in
    record {
      state = ap (λ p. p.state) e;
      pid = ap (λ p. p.pid) e;
      parent = ap (λ p. p.parent) e;
      killed = ap (λ p. p.killed) e;
      chan = ap (λ p. p.chan) e;
      pages = (ap (λ p. p.trapframe) e, ap (λ p. p.pagetable) e, ap (λ p. p.sz) e);
    }

-- The outcomes of allocproc(), and of the first part of fork(): nothing, or a slot that was free.
pub data Allocated (t : Table) : Option ℕ → Table → Type 0 where
  no_slot : Allocated t none t
  given_back : {t' : Table} {np : ℕ} → Started t t' np → IsFreed (t'.proc np) → Allocated t none t'
  taken_slot :
      {t' : Table} {np : ℕ}
      → Started t t' np
      → IsNew t (t.proc np) (t'.proc np)
      → Allocated t (some np) t'

module _ (trapframe pagetable np : ℕ) (t : Table) (l : np < 64)
    (free : is_unused (t.proc np).state ≡ true) where
  abbrev half : Table
  half = record t {
    nextpid = (t.nextpid + 1) % 2 ^ 32;
    proc = update t.proc np (taken t.nextpid (t.proc np));
  }

  half_other : (j : ℕ) → j ≢ np → half.proc j ≡ t.proc j
  half_other j off = update-ne t.proc np (taken t.nextpid (t.proc np)) j off

  -- The slot in its last state, and all else as it was.
  started :
      (p : Proc) → (p.state ≡ unused) ⊎ IsNew t (t.proc np) p → Started t (set_proc half np p) np
  started p how = record {
    below = l;
    free = free;
    others = λ j off. update-ne half.proc np p j off ∙ half_other j off;
    slot =
        subst (λ q. (q.state ≡ unused) ⊎ IsNew t (t.proc np) q)
          (sym (update-eq half.proc np p np refl)) how;
    nextpid = refl;
    ticks = refl;
    initproc = refl;
  }

  freed : Started t (freeproc np half) np
  unfolding freeproc cleared
  freed = started (cleared (half.proc np)) (inl refl)

  set_up-IsNew :
      IsNew t (t.proc np) (set_up trapframe pagetable t.ticks (taken t.nextpid (t.proc np)))
  unfolding set_up taken
  set_up-IsNew = record {
    state = refl;
    pid = refl;
    rtime = refl;
    ctime = refl;
    parent = refl;
    killed = refl;
  }

  alloc_found-Allocated :
      Allocated t (alloc_found trapframe pagetable np t).0 (alloc_found trapframe pagetable np t).1
  alloc_found-Allocated = elim (Bool-cases (trapframe == 0)) [
    | inl none_left ↦
        rw (alloc_fails trapframe pagetable np t (inl none_left))
          (given_back freed (free-IsFreed np half))
    | inr some_left ↦ elim (Bool-cases (pagetable == 0)) [
      | inl no_table ↦
          rw (alloc_fails trapframe pagetable np t (inr no_table))
            (given_back freed (free-IsFreed np half))
      | inr a_table ↦ rw (alloc_works trapframe pagetable np t some_left a_table) (
          taken_slot
            (started (set_up trapframe pagetable t.ticks (taken t.nextpid (t.proc np)))
              (inr set_up-IsNew))
            (subst (IsNew t (t.proc np))
              (sym (
                update-eq half.proc np
                  (set_up trapframe pagetable t.ticks (taken t.nextpid (t.proc np))) np refl))
              set_up-IsNew))
    ]
  ]

module _ (trapframe pagetable : ℕ) (t : Table) where
  finds_none : find_unused t.proc 0 64 ≡ none → allocproc trapframe pagetable t ≡ (none, t)
  unfolding allocproc
  finds_none e = rw (allocproc, e) refl

  pub finds_some :
      (np : ℕ)
      → find_unused t.proc 0 64 ≡ some np
      → allocproc trapframe pagetable t ≡ alloc_found trapframe pagetable np t
  unfolding allocproc
  finds_some np e = rw (allocproc, e) refl

  pub allocproc-Allocated :
      Allocated t (allocproc trapframe pagetable t).0 (allocproc trapframe pagetable t).1
  allocproc-Allocated = elim (Option-cases (find_unused t.proc 0 64)) [
    | inl full ↦ rw (finds_none full) no_slot
    | inr (np, found) ↦
        let (lo, hi, free) = find_unused-some t.proc 0 64 np found in
        rw (finds_some np found) (alloc_found-Allocated trapframe pagetable np t (omega arith) free)
  ]
