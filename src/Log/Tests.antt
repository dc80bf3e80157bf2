-- ===== src/Log/Tests.antt =====
-- A transaction of two blocks.
use xv6_part2_and_concurrenc.Base.{
  ℕ, ◌+◌, ◌≡◌, ◌⊎◌, inr, refl, arith, List, [], ◌∷◌, ◌++◌, suc, none, update, false,
}
use xv6_part2_and_concurrenc.Log.{
  Store, Log, bwrite, write_log, log_blocks, put_blocks, write_head, install_blocks, install_trans,
  read_blocks, read_head, recover_from_log, commit, initlog, reboot, recoveries,
}
use xv6_part2_and_concurrenc.Log.Install.{IsApart}
use xv6_part2_and_concurrenc.Log.Stages.{Before, After}
use xv6_part2_and_concurrenc.Log.Commit.{commit-After}
use xv6_part2_and_concurrenc.Log.Recovery.{crash_safe}
use xv6_part2_and_concurrenc.Log.Space.{Ops, Work, log_write, Reach, start}
use xv6_part2_and_concurrenc.Log.Space.Overrun.{log_write_overruns}

abbrev two : Log
two = record { start = 2; n = 2; block = λ i. 50 + i }

two-IsApart : IsApart two
two-IsApart i l = inr (omega arith)

-- Buffers of sevens over a disk of zeros.
abbrev sevens : ℕ → Store
sevens left = record { mem = λ b w. 7; disk = λ b w. 0; left = left }

-- The power fails behind the header, and again in the first recovery.
torn : (commit two (sevens 3)).disk 50 0 ≡ 0
unfolding commit write_log log_blocks write_head put_blocks install_trans install_blocks bwrite
torn = refl

mended : (initlog 2 (reboot 40 (recoveries 2 (1 ∷ []) (commit two (sevens 3))))).disk 51 0 ≡ 7
unfolding commit write_log log_blocks write_head put_blocks install_trans install_blocks bwrite
    initlog recover_from_log read_head read_blocks recoveries
mended = refl

crash_safe_example :
    (Before two
      (sevens 3).disk
      (initlog 2 (reboot 40 (recoveries 2 (1 ∷ []) (commit two (sevens 3))))).disk)
    ⊎ (After two
        (sevens 3).mem
        (sevens 3).disk
        (initlog 2 (reboot 40 (recoveries 2 (1 ∷ []) (commit two (sevens 3))))).disk)
crash_safe_example = crash_safe two (sevens 3) (1 ∷ []) 40 two-IsApart refl (omega arith)

commit-After_example : After two (sevens 9).mem (sevens 9).disk (commit two (sevens 9)).disk
commit-After_example = commit-After two (sevens 9) two-IsApart refl (omega arith) (omega arith)

-- An operation begins and writes the block 50.
abbrev busy : Ops
busy = record { n = 1; block = update (λ i. 0) 0 50; outstanding = 1; committing = false }

log_write_overruns_example :
    (s : Work) × (earlier : List ℕ) × (k : ℕ) × (others : List ℕ) × Reach 30 s
    × (s.lefts ≡ earlier ++ suc k ∷ others)
    × (log_write 30 60 s.ops ≡ none)
log_write_overruns_example = log_write_overruns 30 60 (omega arith) (omega arith)
