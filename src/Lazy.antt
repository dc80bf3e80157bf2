-- ===== src/Lazy.antt =====
-- concurrency/Lazy-Read-Write/finaltry.c: the file table and what a request does to a file, under
-- the file's lock. A request names one of the three operations, which main() has checked.
pub mod Threads
mod Tests
use xv6_part2_and_concurrenc.Base.{ℕ, ◌+◌, ◌-◌, Bool, true, false, ◌&&◌, ltb, ◌==◌, if◌then◌else◌}

pub data Operation : Type 0 where
  reading : Operation
  writing : Operation
  deleting : Operation

-- `Filenode`, less its number, its lock and its condition variable
pub record FileNode : Type 0 where
  pub deletion_status : Bool
  pub number_of_readers : ℕ
  pub number_of_writers : ℕ
  pub total_occupants : ℕ

-- `Requestnode`, less `send_time`, which its thread keeps
pub record Request : Type 0 where
  pub request_number : ℕ
  pub user_number : ℕ
  pub file_number : ℕ
  pub operation : Operation
  pub request_time : ℕ

-- What initialize_files() makes of each file.
abbrev pub fresh_file : FileNode
fresh_file = record {
  deletion_status = false;
  number_of_readers = 0;
  number_of_writers = 0;
  total_occupants = 0;
}

pub can_process_request : FileNode → Operation → ℕ → Bool
can_process_request file op c = if file.deletion_status then false else elim op [
  | reading ↦ ltb file.total_occupants c
  | writing ↦ (file.number_of_writers == 0) && (file.total_occupants == 0)
  | deleting ↦ file.total_occupants == 0
]

-- The request is taken up.
pub take_up : FileNode → Operation → FileNode
take_up file reading = record file {
  number_of_readers = file.number_of_readers + 1;
  total_occupants = file.total_occupants + 1;
}
take_up file writing = record file {
  number_of_writers = file.number_of_writers + 1;
  total_occupants = file.total_occupants + 1;
}
take_up file deleting = record file { deletion_status = true }

-- The request is completed. The counts are at least 1 there, so `-` is the int subtraction.
pub finish : FileNode → Operation → FileNode
finish file reading = record file {
  number_of_readers = file.number_of_readers - 1;
  total_occupants = file.total_occupants - 1;
}
finish file writing = record file {
  number_of_writers = file.number_of_writers - 1;
  total_occupants = file.total_occupants - 1;
}
finish file deleting = file

-- `data`, which every thread is given: the times of the operations, the limit on the users of a
-- file, and the patience of a user.
pub record Config : Type 0 where
  pub r : ℕ
  pub w : ℕ
  pub d : ℕ
  pub c : ℕ
  pub t : ℕ

pub sleep_time : Config → Operation → ℕ
sleep_time cfg reading = cfg.r
sleep_time cfg writing = cfg.w
sleep_time cfg deleting = cfg.d
