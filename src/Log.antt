-- ===== src/Log.antt =====
-- initial-xv6/src/kernel/log.c: the commit of a transaction and the recovery after a crash, at the
-- writes to the disk. A block is its 32-bit words.
pub mod Writes
pub mod Install
pub mod Stages
pub mod Commit
pub mod Recovery
pub mod Space
mod Tests
use xv6_part2_and_concurrenc.Base.{
  ℕ, zero, suc, ◌+◌, ◌-◌, Bool, true, false, ◌||◌, Option, none, some, List, [], ◌∷◌, ◌==◌,
  if◌then◌else◌, update, ltb, leb,
}

abbrev pub Block : Type 0
Block = ℕ → ℕ

-- The buffers as bread() gives them (the cache keeps pinned blocks), the disk, and how many more
-- writes reach the disk before the power fails.
pub record Store : Type 0 where
  pub mem : ℕ → Block
  pub disk : ℕ → Block
  pub left : ℕ

-- `struct logheader`, with the start of the log on the disk.
pub record Log : Type 0 where
  pub start : ℕ
  pub n : ℕ
  pub block : ℕ → ℕ

abbrev pub set_data : ℕ → Block → Store → Store
set_data b v s = record s { mem = update s.mem b v }

abbrev pub write_to : ℕ → ℕ → Store → Store
write_to b zero s = s
write_to b (suc k) s = record s { disk = update s.disk b (s.mem b); left = k }

-- bwrite(), which does nothing to the disk once the power has failed.
unfoldable pub bwrite : ℕ → Store → Store
bwrite b s = write_to b s.left s

-- log.start+tail+1
abbrev pub slot : Log → ℕ → ℕ
slot log tail = log.start + tail + 1

-- A round of write_log(), and the rounds up to `n`.
abbrev pub log_block : Log → ℕ → Store → Store
log_block log tail s = bwrite (slot log tail) (set_data (slot log tail) (s.mem (log.block tail)) s)

unfoldable pub log_blocks : Log → ℕ → Store → Store
log_blocks log zero s = s
log_blocks log (suc n) s = log_block log n (log_blocks log n s)

unfoldable pub write_log : Log → Store → Store
write_log log s = log_blocks log log.n s

-- The words of the header: hb->n, and hb->block[i] for i below `n`.
unfoldable pub put_blocks : (ℕ → ℕ) → ℕ → Block → Block
put_blocks block zero words = words
put_blocks block (suc n) words = update (put_blocks block n words) (n + 1) (block n)

unfoldable pub write_head : Log → Store → Store
write_head log s =
    bwrite log.start
      (set_data log.start (put_blocks log.block log.n (update (s.mem log.start) 0 log.n)) s)

abbrev pub install_block : Log → ℕ → Store → Store
install_block log tail s =
    bwrite (log.block tail) (set_data (log.block tail) (s.mem (slot log tail)) s)

unfoldable pub install_blocks : Log → ℕ → Store → Store
install_blocks log zero s = s
install_blocks log (suc n) s = install_block log n (install_blocks log n s)

-- install_trans(), on the blocks.
unfoldable pub install_trans : Log → Store → Store
install_trans log s = install_blocks log log.n s

unfoldable pub read_blocks : Block → ℕ → (ℕ → ℕ) → ℕ → ℕ
read_blocks words zero block = block
read_blocks words (suc n) block = update (read_blocks words n block) n (words (n + 1))

unfoldable pub read_head : Log → Store → Log
read_head log s =
    let words = s.mem log.start in
    record log { n = words 0; block = read_blocks words (words 0) log.block }

unfoldable pub recover_from_log : Log → Store → Store
recover_from_log log s =
    let log' = read_head log s in write_head (record log' { n = 0 }) (install_trans log' s)

unfoldable pub commit : Log → Store → Store
commit log s =
    if ltb 0 log.n
    then write_head (record log { n = 0 }) (install_trans log (write_head log (write_log log s)))
    else s

-- initlog(), where the superblock has the start of the log; the global `log` is zero at boot.
unfoldable pub initlog : ℕ → Store → Store
initlog start s = recover_from_log (record { start = start; n = 0; block = λ i. 0 }) s

-- A crash: what was in memory is lost, and `left` writes reach the disk until the next one.
abbrev pub reboot : ℕ → Store → Store
reboot left s = record { mem = s.disk; disk = s.disk; left = left }

-- Recoveries, each cut off by the next crash.
unfoldable pub recoveries : ℕ → List ℕ → Store → Store
recoveries start [] s = s
recoveries start (left ∷ lefts) s = recoveries start lefts (initlog start (reboot left s))
