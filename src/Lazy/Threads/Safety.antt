-- ===== src/Lazy/Threads/Safety.antt =====
-- What holds of the files and the threads in every reachable state.
use xv6_part2_and_concurrenc.Base.{
  ℕ, ◌+◌, ◌≤◌, ◌<◌, ◌≡◌, refl, ◌≢◌, ◌⊎◌, true, ◌==◌, if◌then◌else◌, arith, update, sum_by,
  sum_by-update, le-sum_by, le-sum_by_two, sum_by-eq_zero, dec_lt, ℕ_discrete,
}
use xv6_part2_and_concurrenc.Lazy.{
  Operation, reading, writing, deleting, FileNode, Request, Config, can_process_request, take_up,
  finish,
}
use xv6_part2_and_concurrenc.Lazy.Threads.{
  Pc, asleep, locking, working, completed, check_time, try_file, System, Move, send, pause, look,
  lock, wake, time_out, complete, Step, tick, move, initial, Reach, start, later,
}

-- 1 for a thread that is reading its file, and for one that is writing it.
abbrev pub reads : Pc → Operation → ℕ
reads (working _ _) reading = 1
reads _ _ = 0

abbrev pub writes : Pc → Operation → ℕ
writes (working _ _) writing = 1
writes _ _ = 0

-- A file with at most one writer, which found it empty, and no more users than the limit allows.
pub record IsSound (c : ℕ) (file : FileNode) : Type 0 where
  pub all : file.total_occupants ≡ file.number_of_readers + file.number_of_writers
  pub one_writer : file.number_of_writers ≤ 1
  pub few : (file.total_occupants ≤ c) ⊎ (file.total_occupants ≤ 1)
  pub gone : file.deletion_status ≡ true → file.total_occupants ≡ 0

record Moved (c : ℕ) (op : Operation) (file f : FileNode) (p p' : Pc) : Type 0 where
  sound : IsSound c f
  readers : f.number_of_readers + reads p op ≡ file.number_of_readers + reads p' op
  writers : f.number_of_writers + writes p op ≡ file.number_of_writers + writes p' op

module _ (cfg : Config) where
  try_file-Moved :
      (op : Operation) (s cur : ℕ) (file : FileNode)
      → IsSound cfg.c file
      → Moved cfg.c op file
          (try_file cfg op s cur file).0
          (locking s cur)
          (try_file cfg op s cur file).1
  unfolding try_file can_process_request take_up
  try_file-Moved reading s cur file ok = ground arith
  try_file-Moved writing s cur file ok = ground arith
  try_file-Moved deleting s cur file ok = ground arith

  finish-Moved :
      (op : Operation) (s cur : ℕ) (file : FileNode)
      → IsSound cfg.c file
      → reads (working s cur) op ≤ file.number_of_readers
      → writes (working s cur) op ≤ file.number_of_writers
      → Moved cfg.c op file (finish file op) (working s cur) (completed s cur)
  unfolding finish
  finish-Moved reading s cur file ok r w = ground arith
  finish-Moved writing s cur file ok r w = ground arith
  finish-Moved deleting s cur file ok r w = ground arith

  check_time-idle :
      (op : Operation) (s now : ℕ)
      → (reads (check_time cfg s now) op ≡ 0) × (writes (check_time cfg s now) op ≡ 0)
  unfolding check_time
  check_time-idle op s now = (ground arith, ground arith)

  Move-Moved :
      {req : Request} {now : ℕ} {file f : FileNode} {p p' : Pc}
      → Move cfg req now file p f p'
      → IsSound cfg.c file
      → reads p req.operation ≤ file.number_of_readers
      → writes p req.operation ≤ file.number_of_writers
      → Moved cfg.c req.operation file f p p'
  Move-Moved (send h) ok r w = record { sound = ok; readers = refl; writers = refl }
  Move-Moved (pause h) ok r w = record { sound = ok; readers = refl; writers = refl }
  Move-Moved {req} {now} (look {s}) ok r w = record {
    sound = ok;
    readers = omega (arith, (check_time-idle req.operation s now).0);
    writers = omega (arith, (check_time-idle req.operation s now).1);
  }
  Move-Moved {req} {file} (lock {s} {cur}) ok r w = try_file-Moved req.operation s cur file ok
  Move-Moved wake ok r w = record { sound = ok; readers = refl; writers = refl }
  Move-Moved (time_out h) ok r w = record { sound = ok; readers = refl; writers = refl }
  Move-Moved {req} {file} (complete {s} {cur} h) ok r w =
      finish-Moved req.operation s cur file ok r w

module _ (cfg : Config) (requests : ℕ → Request) (n : ℕ) where
  -- 1 for a thread that reads, or writes, the file `x`.
  abbrev pub reads_file : ℕ → ℕ → Pc → ℕ
  reads_file x i p = if (requests i).file_number == x then reads p (requests i).operation else 0

  abbrev pub writes_file : ℕ → ℕ → Pc → ℕ
  writes_file x i p = if (requests i).file_number == x then writes p (requests i).operation else 0

  -- Each file is sound, and its counts are those of the threads at work on it.
  pub record IsCounted (s : System) (x : ℕ) : Type 0 where
    pub sound : IsSound cfg.c (s.file x)
    pub readers : (s.file x).number_of_readers ≡ sum_by (reads_file x) n s.pc
    pub writers : (s.file x).number_of_writers ≡ sum_by (writes_file x) n s.pc

  module _ (s : System) (i : ℕ) (p : Pc) (f : FileNode) (lt : i < n)
      (mv : Move cfg (requests i) s.now (s.file (requests i).file_number) (s.pc i) f p)
      (all : (x : ℕ) → IsCounted s x) where
    abbrev after : System
    after = record s { file = update s.file (requests i).file_number f; pc = update s.pc i p }

    -- The file that the thread works on.
    mine : (x : ℕ) → x ≡ (requests i).file_number → IsCounted after x
    mine x e =
        let at = all (requests i).file_number in
        let r = le-sum_by (reads_file (requests i).file_number) n s.pc i lt in
        let w = le-sum_by (writes_file (requests i).file_number) n s.pc i lt in
        let moved =
          Move-Moved cfg mv at.sound (ground (arith, r, at.readers))
            (ground (arith, w, at.writers)) in
        record {
          sound = ground (arith, moved.sound);
          readers =
              ground (arith, at.readers, moved.readers, sum_by-update (reads_file x) n s.pc i p lt);
          writers =
              ground
                (arith, at.writers, moved.writers, sum_by-update (writes_file x) n s.pc i p lt);
        }

    others : (x : ℕ) → x ≢ (requests i).file_number → IsCounted after x
    others x ne =
        let at = all x in
        record {
          sound = ground (arith, at.sound);
          readers = ground (arith, at.readers, sum_by-update (reads_file x) n s.pc i p lt);
          writers = ground (arith, at.writers, sum_by-update (writes_file x) n s.pc i p lt);
        }

    move-IsCounted : (x : ℕ) → IsCounted after x
    move-IsCounted x = elim (ℕ_discrete x (requests i).file_number) [
      | yes same ↦ mine x same
      | no differ ↦ others x differ
    ]

  initial-IsCounted : (x : ℕ) → IsCounted initial x
  unfolding initial
  initial-IsCounted x = record {
    sound = record { all = refl; one_writer = omega arith; few = omega arith; gone = λ h. cc };
    readers = omega (arith, sum_by-eq_zero (reads_file x) n (λ _. asleep) (λ i. ground arith));
    writers = omega (arith, sum_by-eq_zero (writes_file x) n (λ _. asleep) (λ i. ground arith));
  }

  Step-IsCounted :
      {s t : System} → Step cfg requests n s t → ((x : ℕ) → IsCounted s x) → (x : ℕ) → IsCounted t x
  Step-IsCounted (tick s) all x = record {
    sound = (all x).sound;
    readers = (all x).readers;
    writers = (all x).writers;
  }
  Step-IsCounted (move {s} {p} {f} i lt mv) all x = move-IsCounted s i p f lt mv all x

  -- In every state that the threads reach, of every file: the readers and the writers counted are
  -- the threads at work reading and writing it, the occupants are their sum, there is at most one
  -- writer, the occupants are at most `c` or at most 1, and a deleted file has none.
  pub Reach-IsCounted : {s : System} → Reach cfg requests n s → (x : ℕ) → IsCounted s x
  Reach-IsCounted start x = initial-IsCounted x
  Reach-IsCounted (later r st) x = Step-IsCounted st (Reach-IsCounted r) x

  -- A thread at work with operation `op` on the file `x`.
  pub record WorksOn (s : System) (i x : ℕ) (op : Operation) : Type 0 where
    pub exists : i < n
    pub on : (requests i).file_number ≡ x
    pub does : (requests i).operation ≡ op
    pub sent_at : ℕ
    pub taken_at : ℕ
    pub at_work : s.pc i ≡ working sent_at taken_at

  writes-one : {s : System} (i x : ℕ) → WorksOn s i x writing → writes_file x i (s.pc i) ≡ 1
  writes-one i x h = ground (arith, h.on, h.does, h.at_work)

  two_writers :
      {s : System} (i j x : ℕ)
      → Reach cfg requests n s
      → WorksOn s i x writing
      → WorksOn s j x writing
      → i < j
      → ⊥
  two_writers {s} i j x r a b lt =
      let at = Reach-IsCounted r x in
      omega (
        arith,
        at.sound.one_writer,
        at.writers,
        writes-one i x a,
        writes-one j x b,
        le-sum_by_two (writes_file x) n s.pc i j lt b.exists,
      )

  -- In every state that the threads reach, two threads at work writing the same file are the same
  -- thread.
  pub writers_unique :
      {s : System} (i j x : ℕ)
      → Reach cfg requests n s
      → WorksOn s i x writing
      → WorksOn s j x writing
      → i ≡ j
  writers_unique i j x r a b = elim (dec_lt i j) [
    | yes lt ↦ absurd (two_writers i j x r a b lt)
    | no ge ↦ elim (dec_lt j i) [
      | yes gt ↦ absurd (two_writers j i x r b a gt)
      | no le ↦ omega arith
    ]
  ]

  -- In every state that the threads reach, no thread is at work reading or writing a file whose
  -- deletion has begun.
  pub deleted_idle :
      {s : System} (i x : ℕ)
      → Reach cfg requests n s
      → (s.file x).deletion_status ≡ true
      → (¬ WorksOn s i x reading) × (¬ WorksOn s i x writing)
  deleted_idle {s} i x r gone =
      let at = Reach-IsCounted r x in
      let none = at.sound.gone gone in
      (
        λ h. omega (
          arith,
          at.sound.all,
          at.readers,
          none,
          le-sum_by (reads_file x) n s.pc i h.exists,
          reads-one h,
        ),
        λ h. omega (
          arith,
          at.sound.all,
          at.writers,
          none,
          le-sum_by (writes_file x) n s.pc i h.exists,
          writes-one i x h,
        ),
      )
    where
      reads-one : WorksOn s i x reading → reads_file x i (s.pc i) ≡ 1
      reads-one h = ground (arith, h.on, h.does, h.at_work)
