-- ===== src/Proc/Fork.antt =====
-- The outcomes of the first part of fork().
use xv6_part2_and_concurrenc.Base.{
  ℕ, ◌≡◌, ◌≢◌, inl, inr, refl, sym, ap, ◌∙◌, Bool, true, false, Option, none, some, update,
  update-eq, update-ne, Bool-cases, Option-cases,
}
use mathlib.Core.Path.{subst}
use xv6_part2_and_concurrenc.Proc.{Proc, Table, cleared, freeproc}
use xv6_part2_and_concurrenc.Proc.Life.{dup_files, child_of, copy_proc, fork_copied, fork_start}
use xv6_part2_and_concurrenc.Proc.Alloc.{
  IsNew, Started, Allocated, no_slot, given_back, taken_slot, allocproc-Allocated, free-IsFreed,
}

-- The rest of the first part of fork(): the child gets its copies.
copies :
    (me np : ℕ) (t : Table) (files : (ℕ → Option ℕ) × (ℕ → ℕ))
    → dup_files (t.proc me).ofile 16 ((t.proc np).ofile, t.refs) ≡ some files
    → copy_proc me np t
      ≡ some (record t {
        proc = update t.proc np (child_of (t.proc me) files.0 (t.proc np));
        refs = files.1;
      })
unfolding copy_proc
copies me np t files e = rw (copy_proc, e) refl

copies_none :
    (me np : ℕ) (t : Table)
    → dup_files (t.proc me).ofile 16 ((t.proc np).ofile, t.refs) ≡ none
    → copy_proc me np t ≡ none
unfolding copy_proc
copies_none me np t e = rw (copy_proc, e) refl

module _ {t t' : Table} {np : ℕ} (s : Started t t' np) where
  freed_again : Started t (freeproc np t') np
  unfolding freeproc cleared
  freed_again = record {
    below = s.below;
    free = s.free;
    others = λ j off. update-ne t'.proc np (cleared (t'.proc np)) j off ∙ s.others j off;
    slot = inl (ap (λ p. p.state) (update-eq t'.proc np (cleared (t'.proc np)) np refl));
    nextpid = s.nextpid;
    ticks = s.ticks;
    initproc = s.initproc;
  }

  module _ (p : Proc) (ofile : ℕ → Option ℕ) (refs : ℕ → ℕ) where
    abbrev filled : Table
    filled = record t' { proc = update t'.proc np (child_of p ofile (t'.proc np)); refs = refs }

    filled-IsNew : IsNew t (t.proc np) (t'.proc np) → IsNew t (t.proc np) (filled.proc np)
    unfolding child_of
    filled-IsNew n = rw (update-eq t'.proc np (child_of p ofile (t'.proc np)) np refl) (record {
      state = n.state;
      pid = n.pid;
      rtime = n.rtime;
      ctime = n.ctime;
      parent = n.parent;
      killed = n.killed;
    })

    filled-Started : IsNew t (t.proc np) (t'.proc np) → Started t filled np
    filled-Started n = record {
      below = s.below;
      free = s.free;
      others = λ j off. update-ne t'.proc np (child_of p ofile (t'.proc np)) j off ∙ s.others j off;
      slot = inr (filled-IsNew n);
      nextpid = s.nextpid;
      ticks = s.ticks;
      initproc = s.initproc;
    }

abbrev Result : Type 0
Result = Option ℕ × Table

result_eq : {r r' : Result} → some r ≡ some r' → r ≡ r'
result_eq e = cc

no_result : {r : Result} → none ≢ some r
no_result e = cc

module _ (me np : ℕ) (t : Table) (copied : Bool) where
  copy_panics : copied ≡ true → copy_proc me np t ≡ none → fork_copied me np copied t ≡ none
  unfolding fork_copied
  copy_panics h e = rw (fork_copied, h, e) refl

  copy_goes :
      copied ≡ true
      → {t' : Table} → copy_proc me np t ≡ some t'
      → fork_copied me np copied t ≡ some (some np, t')
  unfolding fork_copied
  copy_goes h e = rw (fork_copied, h, e) refl

  copy_fails : copied ≡ false → fork_copied me np copied t ≡ some (none, freeproc np t)
  unfolding fork_copied
  copy_fails h = rw h refl

module _ (me : ℕ) (copied : Bool) (t : Table) where
  fork_copied-Allocated :
      {t' : Table} {np : ℕ} (r : Result)
      → Started t t' np
      → IsNew t (t.proc np) (t'.proc np)
      → fork_copied me np copied t' ≡ some r
      → Allocated t r.0 r.1
  unfolding fork_copied
  fork_copied-Allocated {t'} {np} r s n e = elim (Bool-cases copied) [
    | inl good ↦
        elim (Option-cases (dup_files (t'.proc me).ofile 16 ((t'.proc np).ofile, t'.refs))) [
          | inl bad ↦
              absurd
                (no_result (sym (copy_panics me np t' copied good (copies_none me np t' bad)) ∙ e))
          | inr (files, ran) ↦
              subst (λ (x : Result). Allocated t x.0 x.1)
                (result_eq (sym (copy_goes me np t' copied good (copies me np t' files ran)) ∙ e))
                (taken_slot (filled-Started s (t'.proc me) files.0 files.1 n)
                  (filled-IsNew s (t'.proc me) files.0 files.1 n))
        ]
    | inr bad ↦
        subst (λ (x : Result). Allocated t x.0 x.1)
          (result_eq (sym (copy_fails me np t' copied bad) ∙ e))
          (given_back (freed_again s) (free-IsFreed np t'))
  ]

  fork_goes :
      {o : Option ℕ} {t' : Table} (r : Result)
      → Allocated t o t'
      → (elim o [ none ↦ some (none, t') | some np ↦ fork_copied me np copied t' ]) ≡ some r
      → Allocated t r.0 r.1
  fork_goes r no_slot e = subst (λ (x : Result). Allocated t x.0 x.1) (result_eq e) no_slot
  fork_goes r (given_back s f) e =
      subst (λ (x : Result). Allocated t x.0 x.1) (result_eq e) (given_back s f)
  fork_goes r (taken_slot s n) e = fork_copied-Allocated r s n e

-- The first part of fork(), where it does not panic: it returns a child in a slot that was free,
-- with the next ID, no time run and the current tick, and changes no other process; or it fails and
-- leaves the table as it is; or it fails with the ID used up and a slot that was free freed again,
-- with its ID, parent, page table, trapframe, size, channel and killed flag cleared, and changes no
-- other process.
pub fork_start-Allocated :
    (me trapframe pagetable : ℕ) (copied : Bool) (t : Table) (np : Option ℕ) (t' : Table)
    → fork_start me trapframe pagetable copied t ≡ some (np, t')
    → Allocated t np t'
unfolding fork_start
fork_start-Allocated me trapframe pagetable copied t np t' e =
    fork_goes me copied t (np, t') (allocproc-Allocated trapframe pagetable t) e
