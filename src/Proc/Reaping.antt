-- ===== src/Proc/Reaping.antt =====
-- wait() and waitx() as a whole: every outcome, and the times.
use xv6_part2_and_concurrenc.Base.{
  ℕ, ◌+◌, ◌^◌, ◌≤◌, ◌<◌, ◌≡◌, inl, inr, refl, Bool, true, false, Option, arith, Bool-cases,
}
use xv6_part2_and_concurrenc.Proc.{Proc, Table, is_zombie, sleep_on, proc_chan}
use xv6_part2_and_concurrenc.Proc.Life.{is_child}
use xv6_part2_and_concurrenc.Proc.Wait.{
  scan, failed, asleep, reap, no_zombie, after_scan, wait, times_of, times_found, waitx,
}
use xv6_part2_and_concurrenc.Proc.Waiting.{
  IsZombieChild, Scanned, found, not_found, scan-Scanned, Waited, reaps, cannot_copy, gives_up,
  blocks,
}

module _ (me : ℕ) (t : Table) where
  reap-copied :
      (k : ℕ)
      → k < 64
      → IsZombieChild me (t.proc k)
      → (copied : Bool) → Waited me copied t (reap copied k t).0 (reap copied k t).1
  unfolding reap
  reap-copied k l z true = reaps l z refl
  reap-copied k l z false = cannot_copy l z refl

  abbrev NoZombie : Type 0
  NoZombie = (j : ℕ) → j < 64 → is_child me (t.proc j) ≡ true → is_zombie (t.proc j).state ≡ false

  stays : (t.proc me).killed ≡ false → no_zombie me true t ≡ (asleep, sleep_on me (proc_chan me) t)
  unfolding no_zombie
  stays e = rw (no_zombie, e) refl

  leaves_killed : (kids : Bool) → (t.proc me).killed ≡ true → no_zombie me kids t ≡ (failed, t)
  unfolding no_zombie
  leaves_killed true e = rw (no_zombie, e) refl
  leaves_killed false e = refl

  leaves_childless : no_zombie me false t ≡ (failed, t)
  unfolding no_zombie
  leaves_childless = refl

  no_zombie-Waited :
      (copied kids : Bool)
      → NoZombie
      → (kids ≡ false → (j : ℕ) → j < 64 → is_child me (t.proc j) ≡ false)
      → (kids ≡ true → (j : ℕ) × (j < 64) × (is_child me (t.proc j) ≡ true))
      → Waited me copied t (no_zombie me kids t).0 (no_zombie me kids t).1
  no_zombie-Waited copied false dead childless some_child =
      rw leaves_childless (gives_up dead (inr (childless refl)))
  no_zombie-Waited copied true dead childless some_child = elim (Bool-cases (t.proc me).killed) [
    | inl killed ↦ rw (leaves_killed true killed) (gives_up dead (inl killed))
    | inr alive ↦ let (k, l, c) = some_child refl in rw (stays alive) (blocks dead l c alive)
  ]

  after_scan-Waited :
      (copied : Bool) {o : Option ℕ} {kids : Bool}
      → Scanned me t.proc 0 64 false o kids
      → Waited me copied t (after_scan me copied t o kids).0 (after_scan me copied t o kids).1
  unfolding after_scan
  after_scan-Waited copied (found {k} lo hi z) = reap-copied k (omega arith) z copied
  after_scan-Waited copied (not_found {kids} dead childless some_child) =
      no_zombie-Waited copied kids (λ j l c. dead j (omega arith) (omega arith) c)
        (λ e j l. (childless e).1 j (omega arith) (omega arith))
        (λ e. elim (some_child e) [
          | inl impossible ↦ cc
          | inr (j, lo, hi, c) ↦ (j, omega arith, c)
        ])

-- One pass of wait(), in any table: it frees a zombie child and returns its ID, or returns -1 and
-- changes nothing, because copyout() failed on a zombie child or because no child is a zombie and
-- the process is killed or has no child; or it sleeps on itself, because it has a child, none is a
-- zombie, and it is not killed.
pub wait_lem :
    (me : ℕ) (copied : Bool) (t : Table)
    → Waited me copied t (wait me copied t).0 (wait me copied t).1
unfolding wait
wait_lem me copied t = after_scan-Waited me t copied (scan-Scanned me t.proc 0 64 false)

pub waitx-eq-wait :
    (me : ℕ) (copied : Bool) (t : Table)
    → ((waitx me copied t).0 ≡ (wait me copied t).0)
      × ((waitx me copied t).2 ≡ (wait me copied t).1)
      × ((waitx me copied t).1 ≡ times_found t.proc (scan me t.proc 0 64 false).0)
unfolding waitx wait
waitx-eq-wait me copied t = (refl, refl, refl)

-- The times come out exactly where the process has run and waited since it was created.
pub times_of_lem :
    (p : Proc)
    → p.rtime + p.ctime ≤ p.etime
    → p.etime < 2 ^ 32
    → ((times_of p).wtime + (times_of p).rtime + p.ctime ≡ p.etime) × ((times_of p).rtime ≡ p.rtime)
unfolding times_of
times_of_lem p h l = (omega arith, refl)
