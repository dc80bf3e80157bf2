-- ===== src/Lazy/Threads.antt =====
-- handle_request() on one thread per request, interleaved. A step is what a thread does between two
-- waits, or under the lock of its file. The clock `now` counts seconds from `start_time`; sleep()
-- returns when its time has passed, or later, and a timed wait on the condition variable may return
-- early for any reason, but with ETIMEDOUT only behind its deadline.
pub mod Safety
use xv6_part2_and_concurrenc.Base.{
  ℕ, ◌+◌, ◌≤◌, ◌<◌, ◌≡◌, Bool, true, false, leb, if◌then◌else◌, update,
}
use xv6_part2_and_concurrenc.Lazy.{
  Operation, FileNode, Request, Config, can_process_request, take_up, finish, sleep_time,
  fresh_file,
}

-- Where a thread stands, with its locals.
pub data Pc : Type 0 where
  asleep : Pc  -- sleep(req->request_time)
  sent : (send_time : ℕ) → Pc  -- the request is announced; sleep(1)
  looping : (send_time : ℕ) → Pc  -- head of the loop
  locking : (send_time current_time : ℕ) → Pc  -- behind the test of the deadline
  blocked : (send_time : ℕ) → Pc  -- pthread_cond_timedwait
  working : (send_time current_time : ℕ) → Pc  -- sleep(sleep_time)
  completed : (send_time current_time : ℕ) → Pc
  canceled : Pc
  declined : Pc

-- The test of the deadline at the head of the loop.
unfoldable pub check_time : Config → ℕ → ℕ → Pc
check_time cfg send_time current_time =
    if leb (send_time + cfg.t) current_time then canceled else locking send_time current_time

-- The section under the lock: the file afterwards, and where the thread goes.
unfoldable pub try_file : Config → Operation → ℕ → ℕ → FileNode → FileNode × Pc
try_file cfg op send_time current_time file =
    if file.deletion_status
    then (file, declined)
    else if can_process_request file op cfg.c
    then (take_up file op, working send_time current_time)
    else (file, blocked send_time)

pub record System : Type 0 where
  pub now : ℕ
  pub file : ℕ → FileNode
  pub pc : ℕ → Pc

-- One step of a thread with the request `req` at time `now`, on its file.
pub data Move (cfg : Config) (req : Request) (now : ℕ) (file : FileNode)
    : Pc → FileNode → Pc → Type 0 where
  send : req.request_time ≤ now → Move cfg req now file asleep file (sent now)
  pause : {s : ℕ} → s + 1 ≤ now → Move cfg req now file (sent s) file (looping s)
  look : {s : ℕ} → Move cfg req now file (looping s) file (check_time cfg s now)
  lock :
      {s cur : ℕ}
      → Move cfg req now file
          (locking s cur)
          (try_file cfg req.operation s cur file).0
          (try_file cfg req.operation s cur file).1
  wake : {s : ℕ} → Move cfg req now file (blocked s) file (looping s)
  time_out : {s : ℕ} → s + cfg.t ≤ now → Move cfg req now file (blocked s) file canceled
  complete :
      {s cur : ℕ}
      → cur + sleep_time cfg req.operation ≤ now
      → Move cfg req now file (working s cur) (finish file req.operation) (completed s cur)

-- The clock ticks, or one of the `n` threads moves.
pub data Step (cfg : Config) (requests : ℕ → Request) (n : ℕ) : System → System → Type 0 where
  tick : (s : System) → Step cfg requests n s (record s { now = s.now + 1 })
  move :
      {s : System} {p : Pc} {f : FileNode} (i : ℕ)
      → i < n
      → Move cfg (requests i) s.now (s.file (requests i).file_number) (s.pc i) f p
      → Step cfg requests n s
          (record s { file = update s.file (requests i).file_number f; pc = update s.pc i p })

-- main() after initialize_files() and the pthread_create() loop.
unfoldable pub initial : System
initial = record { now = 0; file = λ _. fresh_file; pc = λ _. asleep }

pub data Reach (cfg : Config) (requests : ℕ → Request) (n : ℕ) : System → Type 0 where
  start : Reach cfg requests n initial
  later : {s t : System} → Reach cfg requests n s → Step cfg requests n s t → Reach cfg requests n t
