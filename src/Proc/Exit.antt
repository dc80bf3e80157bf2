-- ===== src/Proc/Exit.antt =====
-- exit() and kill(): what they do to each process.
use mathlib.Core.Path.{subst}
use xv6_part2_and_concurrenc.Base.{
  ℕ, zero, suc, ◌+◌, ◌≤◌, ◌<◌, ◌≡◌, ◌≢◌, inl, inr, refl, sym, ◌∙◌, Bool, true, false, Option, none,
  some, arith, update, update-eq, update-ne, ℕ_discrete, Bool-cases, Option-cases, ◌==◌,
}
use xv6_part2_and_concurrenc.Proc.{
  ProcState, sleeping, is_sleeping, Proc, Table, set_proc, mark_killed, kill_from, kill,
}
use xv6_part2_and_concurrenc.Proc.Life.{close_files, exit_files}
use xv6_part2_and_concurrenc.Proc.Effects.{Alike, Alike-same}

-- kill() changes one process at most, which stays what it is but for being woken.
pub data Killed (t : Table) : Table → Bool → Type 0 where
  nobody : Killed t t false
  hit : {i : ℕ} → i < 64 → Killed t (set_proc t i (mark_killed (t.proc i))) true

sleeper_state : (s : ProcState) → is_sleeping s ≡ true → s ≡ sleeping
sleeper_state s h = ground arith

pub mark_killed-Alike : (p : Proc) → Alike p (mark_killed p) × ((mark_killed p).parent ≡ p.parent)
unfolding mark_killed
mark_killed-Alike p = elim (Bool-cases (is_sleeping p.state)) [
  | inl asleep ↦ (
    record {
      state = inr (sleeper_state p.state asleep, rw asleep refl);
      chan = refl;
      pid = refl;
      rtime = refl;
      ctime = refl;
      etime = refl;
    },
    refl,
  )
  | inr awake ↦ (
    record {
      state = inl (rw awake refl);
      chan = refl;
      pid = refl;
      rtime = refl;
      ctime = refl;
      etime = refl;
    },
    refl,
  )
]

pub kill_from-hit :
    (pid : ℕ) (t : Table) (i left : ℕ)
    → ((t.proc i).pid == pid) ≡ true
    → kill_from pid t i (suc left) ≡ (set_proc t i (mark_killed (t.proc i)), true)
unfolding kill_from
kill_from-hit pid t i left h = rw (kill_from, h) refl

pub kill_from-miss :
    (pid : ℕ) (t : Table) (i left : ℕ)
    → ((t.proc i).pid == pid) ≡ false
    → kill_from pid t i (suc left) ≡ kill_from pid t (i + 1) left
unfolding kill_from
kill_from-miss pid t i left h = rw (kill_from, h) refl

kill_from-Killed :
    (pid : ℕ) (t : Table) (i left : ℕ)
    → i + left ≤ 64
    → Killed t (kill_from pid t i left).0 (kill_from pid t i left).1
unfolding kill_from
kill_from-Killed pid t i zero l = nobody
kill_from-Killed pid t i (suc left) l = elim (Bool-cases ((t.proc i).pid == pid)) [
  | inl same ↦ rw (kill_from-hit pid t i left same) (hit (omega arith))
  | inr other ↦
      rw (kill_from-miss pid t i left other) (kill_from-Killed pid t (i + 1) left (omega arith))
]

pub kill-Killed : (pid : ℕ) (t : Table) → Killed t (kill pid t).0 (kill pid t).1
unfolding kill
kill-Killed pid t = kill_from-Killed pid t 0 64 (omega arith)

-- One process replaced by one that is like it.
pub one-Alike :
    (t : Table) (i : ℕ) (p : Proc)
    → Alike (t.proc i) p
    → p.parent ≡ (t.proc i).parent
    → (j : ℕ)
    → Alike (t.proc j) ((set_proc t i p).proc j)
      × (((set_proc t i p).proc j).parent ≡ (t.proc j).parent)
one-Alike t i p a e j = elim (ℕ_discrete j i) [
  | yes at ↦ rw at (rw (update-eq t.proc i p i refl) (a, e))
  | no off ↦ rw (update-ne t.proc i p j off) (Alike-same (t.proc j), refl)
]

pub kill-Alike :
    {t t' : Table} {b : Bool}
    → Killed t t' b
    → (j : ℕ) → Alike (t.proc j) (t'.proc j) × ((t'.proc j).parent ≡ (t.proc j).parent)
kill-Alike {t} nobody j = (Alike-same (t.proc j), refl)
kill-Alike {t} (hit {i} l) j =
    let (a, e) = mark_killed-Alike (t.proc i) in one-Alike t i (mark_killed (t.proc i)) a e j

-- The first part of exit() changes only the files and the directory of the process.
pub record Closed (me : ℕ) (t t' : Table) : Type 0 where
  pub alike : (j : ℕ) → Alike (t.proc j) (t'.proc j) × ((t'.proc j).parent ≡ (t.proc j).parent)
  pub not_init : me ≢ t.initproc
  pub nextpid : t'.nextpid ≡ t.nextpid
  pub ticks : t'.ticks ≡ t.ticks
  pub initproc : t'.initproc ≡ t.initproc

no_table : {t : Table} → none ≢ some t
no_table e = cc

table_eq : {t t' : Table} → some t ≡ some t' → t ≡ t'
table_eq e = cc

module _ (me : ℕ) (t : Table) where
  exits_init : (me == t.initproc) ≡ true → exit_files me t ≡ none
  unfolding exit_files
  exits_init h = rw (exit_files, h) refl

  exits_bad :
      (me == t.initproc) ≡ false
      → close_files 16 ((t.proc me).ofile, t.refs) ≡ none
      → exit_files me t ≡ none
  unfolding exit_files
  exits_bad h e = rw (exit_files, h, e) refl

  abbrev shut : (ℕ → Option ℕ) × (ℕ → ℕ) → Table
  shut files = record t {
    proc = update t.proc me (record (t.proc me) { ofile = files.0; cwd = 0 });
    refs = files.1;
  }

  exits_well :
      (files : (ℕ → Option ℕ) × (ℕ → ℕ))
      → (me == t.initproc) ≡ false
      → close_files 16 ((t.proc me).ofile, t.refs) ≡ some files
      → exit_files me t ≡ some (shut files)
  unfolding exit_files
  exits_well files h e = rw (exit_files, h, e) refl

  shut-Closed :
      (files : (ℕ → Option ℕ) × (ℕ → ℕ)) → (me == t.initproc) ≡ false → Closed me t (shut files)
  shut-Closed files h = record {
    alike =
        one-Alike t me (record (t.proc me) { ofile = files.0; cwd = 0 })
          (record {
            state = inl refl;
            chan = refl;
            pid = refl;
            rtime = refl;
            ctime = refl;
            etime = refl;
          })
          refl;
    not_init = λ e. ground arith;
    nextpid = refl;
    ticks = refl;
    initproc = refl;
  }

  pub exit_files-Closed : (t' : Table) → exit_files me t ≡ some t' → Closed me t t'
  exit_files-Closed t' e = elim (Bool-cases (me == t.initproc)) [
    | inl init ↦ absurd (no_table (sym (exits_init init) ∙ e))
    | inr other ↦ elim (Option-cases (close_files 16 ((t.proc me).ofile, t.refs))) [
      | inl bad ↦ absurd (no_table (sym (exits_bad other bad) ∙ e))
      | inr (files, ran) ↦
          subst (Closed me t) (table_eq (sym (exits_well files other ran) ∙ e))
            (shut-Closed files other)
    ]
  ]
