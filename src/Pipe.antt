-- ===== src/Pipe.antt =====
-- initial-xv6/src/kernel/pipe.c: the ring buffer and the sections that piperead() and pipewrite() run
-- with the lock held, up to the next sleep() or the return. copyin() and copyout() of one byte are
-- parameters: the byte at an offset from `addr`, and whether the write succeeds.
pub mod Queue
pub mod Write
pub mod Read
mod Tests
use xv6_part2_and_concurrenc.Base.{
  ℕ, zero, suc, ◌+◌, ◌%◌, ◌^◌, Bool, true, false, ◌||◌, not, Option, none, some, List, [], ◌∷◌,
  ◌++◌, ◌==◌, if◌then◌else◌, update,
}

abbrev pub pipesize : ℕ
pipesize = 512

-- Less the lock. The counters are uints.
pub record Pipe : Type 0 where
  pub buffer : ℕ → ℕ  -- `data`
  pub nread : ℕ
  pub nwrite : ℕ
  pub readopen : Bool
  pub writeopen : Bool

-- What pipealloc() makes of a fresh page, whose bytes are `bytes`.
unfoldable pub new_pipe : (ℕ → ℕ) → Pipe
new_pipe bytes = record { buffer = bytes; nread = 0; nwrite = 0; readopen = true; writeopen = true }

-- pi->data[pi->nwrite++ % PIPESIZE] = ch
unfoldable pub put : Pipe → ℕ → Pipe
put pi ch = record pi {
  buffer = update pi.buffer (pi.nwrite % pipesize) ch;
  nwrite = (pi.nwrite + 1) % 2 ^ 32;
}

-- pi->nread++
unfoldable pub drop_first : Pipe → Pipe
drop_first pi = record pi { nread = (pi.nread + 1) % 2 ^ 32 }

unfoldable pub is_full : Pipe → Bool
is_full pi = pi.nwrite == (pi.nread + pipesize) % 2 ^ 32

-- The call returns, or sleeps with `i` bytes done.
pub data Outcome : Type 0 where
  returns : ℕ → Outcome
  fails : Outcome
  sleeps : ℕ → Outcome

-- The loop of pipewrite() at `i`, with `left` bytes to go.
unfoldable pub pipewrite : (ℕ → Option ℕ) → Bool → Pipe → ℕ → ℕ → Pipe × Outcome
pipewrite copyin killed pi i zero = (pi, returns i)
pipewrite copyin killed pi i (suc left) = elim (not pi.readopen || killed) [
  | true ↦ (pi, fails)
  | false ↦ elim (is_full pi) [
    | true ↦ (pi, sleeps i)
    | false ↦ elim (copyin i) [
      | none ↦ (pi, returns i)
      | some ch ↦ pipewrite copyin killed (put pi ch) (i + 1) left
    ]
  ]
]

-- The loop of piperead() that copies, at `i`; with the bytes that it passes to copyout().
unfoldable pub read_bytes : (ℕ → Bool) → Pipe → ℕ → ℕ → Pipe × ℕ × List ℕ
read_bytes copyout pi i zero = (pi, i, [])
read_bytes copyout pi i (suc left) = elim (pi.nread == pi.nwrite) [
  | true ↦ (pi, i, [])
  | false ↦ elim (copyout i) [
    | false ↦ (drop_first pi, i, [])
    | true ↦
        let (rest, count, bytes) = read_bytes copyout (drop_first pi) (i + 1) left in
        (rest, count, pi.buffer (pi.nread % pipesize) ∷ bytes)
  ]
]

-- piperead() from the test of its first loop on.
unfoldable pub piperead : (ℕ → Bool) → Bool → Pipe → ℕ → Pipe × Outcome × List ℕ
piperead copyout killed pi n =
    let (rest, count, bytes) = read_bytes copyout pi 0 n in
    if pi.nread == pi.nwrite
    then if pi.writeopen
      then if killed then (pi, fails, []) else (pi, sleeps 0, [])
      else (rest, returns count, bytes)
    else (rest, returns count, bytes)
