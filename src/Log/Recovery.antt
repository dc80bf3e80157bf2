-- ===== src/Log/Recovery.antt =====
-- Recovery after any number of crashes.
use mathlib.Core.Path.{subst}
use xv6_part2_and_concurrenc.Base.{
  ℕ, ◌+◌, ◌≤◌, ◌<◌, ◌≡◌, ◌≢◌, ◌⊎◌, inl, inr, refl, sym, ap, ◌∙◌, arith, List, [], ◌∷◌,
}
use xv6_part2_and_concurrenc.Log.{
  Block, Store, Log, slot, install_blocks, install_trans, read_head, recover_from_log, commit,
  initlog, reboot, recoveries,
}
use xv6_part2_and_concurrenc.Log.Writes.{changed, read_blocks-at}
use xv6_part2_and_concurrenc.Log.Install.{IsApart, Installed}
use xv6_part2_and_concurrenc.Log.Stages.{
  Before, After, Committed, Stage, before, committed, after, still-Committed, finish, idle-Before,
  idle-After,
}
use xv6_part2_and_concurrenc.Log.Commit.{
  head_words, head_words_zero, write_head_lem, install_trans-Installed, commit-Stage,
}

abbrev zeroed : ℕ → Log
zeroed start = record { start = start; n = 0; block = λ i. 0 }

module _ (log : Log) (w d0 : ℕ → Block) (apart : IsApart log) (s : Store)
    (fresh : s.mem ≡ s.disk) where
  abbrev found : Log
  found = read_head (zeroed log.start) s

  abbrev installed : Store
  installed = install_trans found s

  abbrev cleared : Log
  cleared = record found { n = 0 }

  recovers : initlog log.start s ≡ changed log.start (head_words cleared installed) installed
  unfolding initlog recover_from_log read_head
  recovers = write_head_lem cleared installed

  found_start : found.start ≡ log.start
  unfolding read_head
  found_start = refl

  found_n : found.n ≡ s.disk log.start 0
  unfolding read_head
  found_n = ap (λ m. m log.start 0) fresh

  found_block : (i : ℕ) → i < found.n → found.block i ≡ s.disk log.start (i + 1)
  unfolding read_head
  found_block i l =
      read_blocks-at (s.mem log.start) (s.mem log.start 0) (λ j. 0) i l
      ∙ ap (λ m. m log.start (i + 1)) fresh

  module _ (c : Committed log w d0 s.disk) where
    same_n : found.n ≡ log.n
    same_n = found_n ∙ c.count

    same_block : (i : ℕ) → i < log.n → found.block i ≡ log.block i
    same_block i l = found_block i (omega (arith, same_n)) ∙ c.blocks i l

    found-IsApart : IsApart found
    unfolding read_head
    found-IsApart i l =
        let m : i < log.n = omega (arith, same_n) in
        elim (apart i m) [
          | inl lo ↦ inl (omega (arith, same_block i m))
          | inr hi ↦ inr (omega (arith, same_block i m, same_n))
        ]

    found_slots : (i : ℕ) → i < found.n → s.mem (slot found i) ≡ w (found.block i)
    unfolding read_head
    found_slots i l =
        let m : i < log.n = omega (arith, same_n) in
        ap (λ y. y (slot log i)) fresh ∙ c.slots i m ∙ ap w (sym (same_block i m))

    all-Installed : Installed found w found.n s installed
    all-Installed = install_trans-Installed found w s found-IsApart found_slots

    kept_found : (b : ℕ) → ((i : ℕ) → i < log.n → b ≢ log.block i) → installed.disk b ≡ s.disk b
    kept_found b off =
        all-Installed.kept b
          (λ i l e. off i (omega (arith, same_n)) (e ∙ same_block i (omega (arith, same_n))))

    durable_found :
        (installed.left ≡ 0)
        ⊎ ((i : ℕ) → i < log.n → installed.disk (log.block i) ≡ w (log.block i))
    durable_found = elim all-Installed.durable [
      | inl dead ↦ inl dead
      | inr done ↦ inr (λ i l.
          ap installed.disk (sym (same_block i l))
          ∙ done i (omega (arith, same_n))
          ∙ ap w (same_block i l))
    ]

    -- Either the power has failed again, or all is at its place.
    redo :
        ((installed.left ≡ 0) × Committed log w d0 (initlog log.start s).disk)
        ⊎ After log w d0 (initlog log.start s).disk
    redo =
        subst
          (λ (y : Store).
            ((installed.left ≡ 0) × Committed log w d0 y.disk) ⊎ After log w d0 y.disk)
          (sym recovers)
          (finish log w d0 apart (head_words cleared installed) installed
            (head_words_zero cleared installed) (still-Committed log w d0 apart kept_found c)
            durable_found)

    enough : s.left ≤ installed.left + log.n
    enough = omega (arith, all-Installed.power, same_n)

  -- A header without blocks: nothing to install.
  idle : s.disk log.start 0 ≡ 0 → installed ≡ s
  unfolding install_trans install_blocks
  idle h = ap (λ n. install_blocks found n s) (found_n ∙ h)

  redo-Before : Before log d0 s.disk → Before log d0 (initlog log.start s).disk
  redo-Before h =
      subst (λ (y : Store). Before log d0 y.disk)
        (sym (recovers ∙ ap (λ y. changed log.start (head_words cleared y) y) (idle h.head)))
        (idle-Before log w d0 apart (head_words cleared s) s (head_words_zero cleared s) h)

  redo-After : After log w d0 s.disk → After log w d0 (initlog log.start s).disk
  redo-After h =
      subst (λ (y : Store). After log w d0 y.disk)
        (sym (recovers ∙ ap (λ y. changed log.start (head_words cleared y) y) (idle h.head)))
        (idle-After log w d0 apart (head_words cleared s) s (head_words_zero cleared s) h)

  redo-Stage : Stage log w d0 s.disk → Stage log w d0 (initlog log.start s).disk
  redo-Stage (before h) = before (redo-Before h)
  redo-Stage (after h) = after (redo-After h)
  redo-Stage (committed c) = elim (redo c) [ inl (dead, c') ↦ committed c' | inr a ↦ after a ]

  last_redo :
      log.n < s.left
      → Stage log w d0 s.disk
      → Before log d0 (initlog log.start s).disk ⊎ After log w d0 (initlog log.start s).disk
  last_redo l (before h) = inl (redo-Before h)
  last_redo l (after h) = inr (redo-After h)
  last_redo l (committed c) = elim (redo c) [
    | inl (dead, c') ↦ absurd (omega (arith, enough c))
    | inr a ↦ inr a
  ]

recoveries-Stage :
    (log : Log) (w d0 : ℕ → Block) (lefts : List ℕ) (s : Store)
    → IsApart log
    → Stage log w d0 s.disk
    → Stage log w d0 (recoveries log.start lefts s).disk
unfolding recoveries
recoveries-Stage log w d0 [] s apart h = h
recoveries-Stage log w d0 (left ∷ lefts) s apart h =
    recoveries-Stage log w d0 lefts (initlog log.start (reboot left s)) apart
      (redo-Stage log w d0 apart (reboot left s) refl h)

-- For any transaction whose blocks are not blocks of the log, on a disk with an empty log header:
-- if the power fails at any write of commit(), and then at any write of any number of recoveries,
-- then one more recovery with power for more writes than the transaction has blocks leaves the
-- header empty and either no block outside the header and the log blocks that the transaction uses
-- changed, or every block of the transaction has its new contents and no other such block changed.
pub crash_safe :
    (log : Log) (s : Store) (lefts : List ℕ) (last : ℕ)
    → IsApart log
    → s.disk log.start 0 ≡ 0
    → log.n < last
    → (Before log s.disk
        (initlog log.start (reboot last (recoveries log.start lefts (commit log s)))).disk)
      ⊎ (After log s.mem s.disk
          (initlog log.start (reboot last (recoveries log.start lefts (commit log s)))).disk)
crash_safe log s lefts last apart clean l =
    let end = recoveries log.start lefts (commit log s) in
    last_redo log s.mem s.disk apart (reboot last end) refl l (
      recoveries-Stage log s.mem s.disk lefts (commit log s) apart (commit-Stage log s apart clean))
