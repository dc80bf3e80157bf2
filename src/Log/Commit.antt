-- ===== src/Log/Commit.antt =====
-- Where the power can fail in commit(): before the transaction is in the log, or behind that.
use mathlib.Core.Path.{subst}
use xv6_part2_and_concurrenc.Base.{
  ℕ, ◌+◌, ◌<◌, ◌≡◌, inl, inr, refl, sym, ap, ◌∙◌, arith, update, update-eq, Bool-cases, true, false,
  ltb,
}
use xv6_part2_and_concurrenc.Log.{
  Block, Store, Log, slot, write_log, put_blocks, write_head, install_trans, commit,
}
use xv6_part2_and_concurrenc.Log.Writes.{
  changed, changed_left, changed_mem_other, changed_other, changed_self, changed_dead,
  put_blocks-zero, put_blocks-at,
}
use xv6_part2_and_concurrenc.Log.Install.{
  IsApart, Off, Logged, log_blocks-Logged, Installed, install_blocks-Installed,
}
use xv6_part2_and_concurrenc.Log.Stages.{
  Outside, Before, After, Committed, Stage, before, committed, after, still-Committed, finish,
  start_out,
}

abbrev pub head_words : Log → Store → Block
head_words log s = put_blocks log.block log.n (update (s.mem log.start) 0 log.n)

pub head_words_zero : (log : Log) (s : Store) → head_words log s 0 ≡ log.n
head_words_zero log s =
    put_blocks-zero log.block log.n (update (s.mem log.start) 0 log.n)
    ∙ update-eq (s.mem log.start) 0 log.n 0 refl

head_words_at : (log : Log) (s : Store) (i : ℕ) → i < log.n → head_words log s (i + 1) ≡ log.block i
head_words_at log s i l = put_blocks-at log.block log.n (update (s.mem log.start) 0 log.n) i l

pub write_head_lem :
    (log : Log) (s : Store) → write_head log s ≡ changed log.start (head_words log s) s
unfolding write_head
write_head_lem log s = refl

commits :
    (log : Log) (s : Store)
    → ltb 0 log.n ≡ true
    → commit log s
      ≡ write_head (record log { n = 0 }) (install_trans log (write_head log (write_log log s)))
unfolding commit
commits log s h = rw h refl

nothing : (log : Log) (s : Store) → ltb 0 log.n ≡ false → commit log s ≡ s
unfolding commit
nothing log s h = rw h refl

write_log-Logged : (log : Log) (s : Store) → IsApart log → Logged log log.n s (write_log log s)
unfolding write_log
write_log-Logged log s apart = log_blocks-Logged log s apart log.n (omega arith)

pub install_trans-Installed :
    (log : Log) (w : ℕ → Block) (s : Store)
    → IsApart log
    → ((i : ℕ) → i < log.n → s.mem (slot log i) ≡ w (log.block i))
    → Installed log w log.n s (install_trans log s)
unfolding install_trans
install_trans-Installed log w s apart slots =
    install_blocks-Installed log w s apart slots log.n (omega arith)

module _ (log : Log) (s0 : Store) (apart : IsApart log) (clean : s0.disk log.start 0 ≡ 0) where
  abbrev s1 : Store
  s1 = write_log log s0

  abbrev s2 : Store
  s2 = changed log.start (head_words log s1) s1

  abbrev s3 : Store
  s3 = install_trans log s2

  abbrev cleared : Log
  cleared = record log { n = 0 }

  abbrev s4 : Store
  s4 = changed log.start (head_words cleared s3) s3

  first : Logged log log.n s0 s1
  first = write_log-Logged log s0 apart

  Outside-Off : (b : ℕ) → Outside log b → Off log log.n b
  Outside-Off b (inl lo) = inl (omega arith)
  Outside-Off b (inr hi) = inr hi

  mem_slots : (i : ℕ) → i < log.n → s2.mem (slot log i) ≡ s0.mem (log.block i)
  mem_slots i l =
      changed_mem_other log.start (head_words log s1) s1 (slot log i) (λ e. omega arith)
      ∙ first.slots i l

  third : Installed log s0.mem log.n s2 s3
  third = install_trans-Installed log s0.mem s2 apart mem_slots

  -- The power fails before the header is written.
  too_early : s2.disk ≡ s1.disk → s2.left ≡ 0 → Before log s0.disk s4.disk
  too_early same dead =
      let (same', dead') = third.off dead in
      let all = (changed_dead log.start (head_words cleared s3) s3 dead').0 ∙ same' ∙ same in
      record {
        head =
            ap (λ y. y log.start 0) all
            ∙ ap (λ y. y 0) (first.kept log.start (inl (omega arith)))
            ∙ clean;
        home = λ b o. ap (λ y. y b) all ∙ first.kept b (Outside-Off b o);
      }

  in_log :
      ((i : ℕ) → i < log.n → s1.disk (slot log i) ≡ s0.mem (log.block i))
      → s2.disk log.start ≡ head_words log s1
      → Committed log s0.mem s0.disk s2.disk
  in_log slots written = record {
    count = ap (λ y. y 0) written ∙ head_words_zero log s1;
    blocks = λ i l. ap (λ y. y (i + 1)) written ∙ head_words_at log s1 i l;
    slots = λ i l.
        changed_other log.start (head_words log s1) s1 (slot log i) (λ e. omega arith) ∙ slots i l;
    others = λ b o off.
        changed_other log.start (head_words log s1) s1 b (start_out log s0.mem s0.disk apart b o)
        ∙ first.kept b (Outside-Off b o);
  }

  late : Committed log s0.mem s0.disk s2.disk → Stage log s0.mem s0.disk s4.disk
  late c =
      elim (finish log s0.mem s0.disk apart (head_words cleared s3) s3 (head_words_zero cleared s3)
        (still-Committed log s0.mem s0.disk apart third.kept c) third.durable) [
          | inl (dead, c') ↦ committed c'
          | inr a ↦ after a
        ]

  s4-Stage : Stage log s0.mem s0.disk s4.disk
  s4-Stage = elim first.durable [
    | inl dead ↦
        let (same, dead') = changed_dead log.start (head_words log s1) s1 dead in
        before (too_early same dead')
    | inr slots ↦ elim (changed_self log.start (head_words log s1) s1) [
      | inl (dead', dead) ↦
          before (too_early (changed_dead log.start (head_words log s1) s1 dead).0 dead')
      | inr written ↦ late (in_log slots written)
    ]
  ]

  commits_to : ltb 0 log.n ≡ true → commit log s0 ≡ s4
  commits_to h =
      commits log s0 h
      ∙ ap (λ y. write_head cleared (install_trans log y)) (write_head_lem log s1)
      ∙ write_head_lem cleared s3

  pub commit-Stage : Stage log s0.mem s0.disk (commit log s0).disk
  commit-Stage = elim (Bool-cases (ltb 0 log.n)) [
    | inl some_blocks ↦
        subst (λ (y : Store). Stage log s0.mem s0.disk y.disk) (sym (commits_to some_blocks))
          s4-Stage
    | inr empty ↦
        subst (λ (y : Store). Stage log s0.mem s0.disk y.disk) (sym (nothing log s0 empty))
          (before (record { head = clean; home = λ b o. refl }))
  ]

  powered : log.n + log.n + 1 < s0.left → After log s0.mem s0.disk s4.disk
  powered l =
      let step = changed_left log.start (head_words log s1) s1 in
      elim first.durable [
        | inl dead ↦ absurd (omega (arith, first.power))
        | inr slots ↦ elim (changed_self log.start (head_words log s1) s1) [
          | inl (dead', dead) ↦ absurd (omega (arith, first.power))
          | inr written ↦
              elim (finish log s0.mem s0.disk apart (head_words cleared s3) s3
                (head_words_zero cleared s3)
                (still-Committed log s0.mem s0.disk apart third.kept (in_log slots written))
                third.durable) [
                  | inl (dead, c') ↦ absurd (omega (arith, first.power, third.power, step))
                  | inr a ↦ a
                ]
        ]
      ]

  -- For any transaction of at least one block, none a block of the log, on a disk with an empty log
  -- header, and with power for more than twice its blocks and one write more: commit() ends with
  -- every block of the transaction at its place on the disk with its new contents, no other block
  -- outside the log changed, and the header empty.
  pub commit-After :
      0 < log.n → log.n + log.n + 1 < s0.left → After log s0.mem s0.disk (commit log s0).disk
  commit-After some_blocks l =
      subst (λ (y : Store). After log s0.mem s0.disk y.disk) (sym (commits_to (ground arith)))
        (powered l)
