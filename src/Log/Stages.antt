-- ===== src/Log/Stages.antt =====
-- The stages of a commit on the disk.
use mathlib.Core.Path.{subst}
use xv6_part2_and_concurrenc.Base.{ℕ, ◌+◌, ◌<◌, ◌≡◌, ◌≢◌, ◌⊎◌, inl, inr, sym, ap, ◌∙◌, arith}
use xv6_part2_and_concurrenc.Log.{Block, Store, Log, slot}
use xv6_part2_and_concurrenc.Log.Writes.{changed, changed_other, changed_self, changed_dead}
use xv6_part2_and_concurrenc.Log.Install.{IsApart}

abbrev pub Outside : Log → ℕ → Type 0
Outside log b = (b < log.start) ⊎ (log.start + log.n < b)

-- Nothing of the transaction is on the disk `d`, but perhaps in the log.
pub record Before (log : Log) (d0 : ℕ → Block) (d : ℕ → Block) : Type 0 where
  pub head : d log.start 0 ≡ 0
  pub home : (b : ℕ) → Outside log b → d b ≡ d0 b

-- All of the transaction is on the disk, at its place.
pub record After (log : Log) (w d0 : ℕ → Block) (d : ℕ → Block) : Type 0 where
  pub head : d log.start 0 ≡ 0
  pub home : (i : ℕ) → i < log.n → d (log.block i) ≡ w (log.block i)
  pub others : (b : ℕ) → Outside log b → ((i : ℕ) → i < log.n → b ≢ log.block i) → d b ≡ d0 b

-- All of it is in the log.
pub record Committed (log : Log) (w d0 : ℕ → Block) (d : ℕ → Block) : Type 0 where
  pub count : d log.start 0 ≡ log.n
  pub blocks : (i : ℕ) → i < log.n → d log.start (i + 1) ≡ log.block i
  pub slots : (i : ℕ) → i < log.n → d (slot log i) ≡ w (log.block i)
  pub others : (b : ℕ) → Outside log b → ((i : ℕ) → i < log.n → b ≢ log.block i) → d b ≡ d0 b

pub data Stage (log : Log) (w d0 : ℕ → Block) (d : ℕ → Block) : Type 0 where
  before : Before log d0 d → Stage log w d0 d
  committed : Committed log w d0 d → Stage log w d0 d
  after : After log w d0 d → Stage log w d0 d

module _ (log : Log) (w d0 : ℕ → Block) (apart : IsApart log) where
  -- Only the homes of the blocks have changed.
  pub still-Committed :
      {d d' : ℕ → Block}
      → ((b : ℕ) → ((i : ℕ) → i < log.n → b ≢ log.block i) → d' b ≡ d b)
      → Committed log w d0 d
      → Committed log w d0 d'
  still-Committed {d} {d'} kept c =
      let head : d' log.start ≡ d log.start =
        kept log.start
          (λ i l e. elim (apart i l) [ inl lo ↦ omega arith | inr hi ↦ omega arith ]) in
      record {
        count = ap (λ y. y 0) head ∙ c.count;
        blocks = λ i l. ap (λ y. y (i + 1)) head ∙ c.blocks i l;
        slots = λ i l.
            kept (slot log i)
              (λ j m e. elim (apart j m) [ inl lo ↦ omega arith | inr hi ↦ omega arith ])
            ∙ c.slots i l;
        others = λ b o off. kept b off ∙ c.others b o off;
      }

  pub start_out : (b : ℕ) → Outside log b → b ≢ log.start
  start_out b (inl lo) e = omega arith
  start_out b (inr hi) e = omega arith

  -- The header is cleared, if the power lasts.
  pub finish :
      (v : Block) (s : Store)
      → v 0 ≡ 0
      → Committed log w d0 s.disk
      → (s.left ≡ 0) ⊎ ((i : ℕ) → i < log.n → s.disk (log.block i) ≡ w (log.block i))
      → ((s.left ≡ 0) × Committed log w d0 (changed log.start v s).disk)
        ⊎ After log w d0 (changed log.start v s).disk
  finish v s clears c (inl dead) =
      inl (dead, subst (Committed log w d0) (sym (changed_dead log.start v s dead).0) c)
  finish v s clears c (inr done) = elim (changed_self log.start v s) [
    | inl (off, dead) ↦
        inl (dead, subst (Committed log w d0) (sym (changed_dead log.start v s dead).0) c)
    | inr written ↦ inr (record {
      head = ap (λ y. y 0) written ∙ clears;
      home = λ i l.
          changed_other log.start v s (log.block i) (start_out (log.block i) (apart i l))
          ∙ done i l;
      others = λ b o off. changed_other log.start v s b (start_out b o) ∙ c.others b o off;
    })
  ]

  -- A header that is zero stays so.
  idle_head :
      (v : Block) (s : Store)
      → v 0 ≡ 0
      → s.disk log.start 0 ≡ 0
      → (changed log.start v s).disk log.start 0 ≡ 0
  idle_head v s clears h = elim (changed_self log.start v s) [
    | inl (off, dead) ↦ ap (λ y. y log.start 0) (changed_dead log.start v s dead).0 ∙ h
    | inr written ↦ ap (λ y. y 0) written ∙ clears
  ]

  pub idle-Before :
      (v : Block) (s : Store)
      → v 0 ≡ 0
      → Before log d0 s.disk
      → Before log d0 (changed log.start v s).disk
  idle-Before v s clears h = record {
    head = idle_head v s clears h.head;
    home = λ b o. changed_other log.start v s b (start_out b o) ∙ h.home b o;
  }

  pub idle-After :
      (v : Block) (s : Store)
      → v 0 ≡ 0
      → After log w d0 s.disk
      → After log w d0 (changed log.start v s).disk
  idle-After v s clears h = record {
    head = idle_head v s clears h.head;
    home = λ i l.
        changed_other log.start v s (log.block i) (start_out (log.block i) (apart i l))
        ∙ h.home i l;
    others = λ b o off. changed_other log.start v s b (start_out b o) ∙ h.others b o off;
  }
