-- ===== src/Lazy/Tests.antt =====
-- A run of handle_request(): request 0 wants to write the file 1, request 1 to delete the file 2.
use xv6_part2_and_concurrenc.Base.{ℕ, ◌+◌, ◌≡◌, refl, true, arith, ◌==◌, if◌then◌else◌}
use xv6_part2_and_concurrenc.Lazy.{
  reading, writing, deleting, Request, Config, can_process_request, take_up,
}
use xv6_part2_and_concurrenc.Lazy.Threads.{
  working, System, Reach, start, later, tick, move, send, pause, look, lock, initial, check_time,
  try_file,
}
use xv6_part2_and_concurrenc.Lazy.Threads.Safety.{
  IsCounted, WorksOn, Reach-IsCounted, writers_unique, deleted_idle,
}

abbrev cfg : Config
cfg = record { r = 2; w = 4; d = 6; c = 3; t = 5 }

abbrev requests : ℕ → Request
requests i = record {
  request_number = i;
  user_number = i + 1;
  file_number = i + 1;
  operation = if i == 0 then writing else deleting;
  request_time = 0;
}

-- Both threads have passed their section under the lock.
taken :
    (s : System) × Reach cfg requests 2 s
    × (s.pc 0 ≡ working 0 1)
    × ((s.file 2).deletion_status ≡ true)
unfolding initial check_time try_file can_process_request take_up
taken = (
  _,
  later
      (later
        (later
          (later
            (later
              (later
                (later
                  (later (later start (move 0 (omega arith) (send (omega arith))))
                    (move 1 (omega arith) (send (omega arith))))
                  (tick _))
                (move 0 (omega arith) (pause (omega arith))))
              (move 1 (omega arith) (pause (omega arith))))
            (move 0 (omega arith) look))
          (move 0 (omega arith) (lock {s = 0} {cur = 1})))
        (move 1 (omega arith) look))
      (move 1 (omega arith) (lock {s = 0} {cur = 1})),
  refl,
  refl,
)

writer : WorksOn cfg requests 2 taken.0 0 1 writing
writer = record {
  exists = omega arith;
  on = refl;
  does = refl;
  sent_at = 0;
  taken_at = 1;
  at_work = taken.2;
}

Reach-IsCounted_example : IsCounted cfg requests 2 taken.0 1
Reach-IsCounted_example = Reach-IsCounted cfg requests 2 taken.1 1

writers_unique_example : ◌≡◌ {A = ℕ} 0 0
writers_unique_example = writers_unique cfg requests 2 0 0 1 taken.1 writer writer

deleted_idle_example :
    (¬ WorksOn cfg requests 2 taken.0 0 2 reading) × (¬ WorksOn cfg requests 2 taken.0 0 2 writing)
deleted_idle_example = deleted_idle cfg requests 2 0 2 taken.1 taken.3
