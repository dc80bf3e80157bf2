-- ===== src/Pipe/Write.antt =====
-- A section of pipewrite().
use xv6_part2_and_concurrenc.Base.{
  ℕ, zero, suc, ◌+◌, ◌≡◌, refl, sym, arith, Bool, true, Option, none, some, List, [], ◌∷◌, ◌++◌,
  length, inl, inr, Bool-cases, Option-cases, ◌||◌, not,
}
use mathlib.Core.Path.{subst}
use mathlib.Core.List.{append-nil, append_assoc}
use xv6_part2_and_concurrenc.Pipe.{Pipe, put, is_full, Outcome, returns, fails, sleeps, pipewrite}
use xv6_part2_and_concurrenc.Pipe.Queue.{Holds, is_full_lem, full_lem, put-Holds}

-- The bytes that copyin() gives from the offset `i` on.
pub data Copied (copyin : ℕ → Option ℕ) : ℕ → List ℕ → Type 0 where
  nothing : {i : ℕ} → Copied copyin i []
  next :
      {i ch : ℕ} {sent : List ℕ}
      → copyin i ≡ some ch
      → Copied copyin (i + 1) sent
      → Copied copyin i (ch ∷ sent)

-- Why the section ends at the offset `j`, with `left` bytes to go and `queue` in the pipe.
pub data Ends (copyin : ℕ → Option ℕ) (killed readopen : Bool) (j left : ℕ) (queue : List ℕ)
    : Outcome → Type 0 where
  complete : left ≡ 0 → Ends copyin killed readopen j left queue (returns j)
  faulted : copyin j ≡ none → Ends copyin killed readopen j left queue (returns j)
  stopped : (not readopen || killed) ≡ true → Ends copyin killed readopen j left queue fails
  full : length queue ≡ 512 → Ends copyin killed readopen j left queue (sleeps j)

pub record Writes (copyin : ℕ → Option ℕ) (killed : Bool) (pi : Pipe) (i left : ℕ) (queue : List ℕ)
    (result : Pipe × Outcome) : Type 0 where
  pub sent : List ℕ
  pub rest : ℕ
  pub count : length sent + rest ≡ left
  pub copied : Copied copyin i sent
  pub holds : Holds result.0 (queue ++ sent)
  pub ends : Ends copyin killed pi.readopen (i + length sent) rest (queue ++ sent) result.1

append-step :
    (queue : List ℕ) (ch : ℕ) (sent : List ℕ) → (queue ++ (ch ∷ [])) ++ sent ≡ queue ++ (ch ∷ sent)
append-step queue ch sent = append_assoc queue (ch ∷ []) sent

module _ (copyin : ℕ → Option ℕ) (killed : Bool) where
  nothing_sent :
      (pi : Pipe) (i left : ℕ) (queue : List ℕ) (o : Outcome)
      → Holds pi queue
      → Ends copyin killed pi.readopen i left queue o
      → Writes copyin killed pi i left queue (pi, o)
  nothing_sent pi i left queue o h e = record {
    sent = [];
    rest = left;
    count = omega arith;
    copied = nothing;
    holds = subst (Holds pi) (sym (append-nil queue)) h;
    ends =
        subst (λ q. Ends copyin killed pi.readopen (i + 0) left q o) (sym (append-nil queue))
          (subst (λ j. Ends copyin killed pi.readopen j left queue o) (omega arith) e);
  }

  one_sent :
      (pi : Pipe) (i left ch : ℕ) (queue : List ℕ) (result : Pipe × Outcome)
      → copyin i ≡ some ch
      → Writes copyin killed (put pi ch) (i + 1) left (queue ++ (ch ∷ [])) result
      → Writes copyin killed pi i (suc left) queue result
  unfolding put
  one_sent pi i left ch queue result e w = record {
    sent = ch ∷ w.sent;
    rest = w.rest;
    count = omega (arith, w.count);
    copied = next e w.copied;
    holds = subst (Holds result.0) (append-step queue ch w.sent) w.holds;
    ends =
        subst (λ q. Ends copyin killed pi.readopen (i + suc (length w.sent)) w.rest q result.1)
          (append-step queue ch w.sent)
          (subst
            (λ j. Ends copyin killed pi.readopen j w.rest ((queue ++ (ch ∷ [])) ++ w.sent) result.1)
            (omega arith) w.ends);
  }

  -- A section of pipewrite() on a pipe that holds a queue of at most 512 bytes, its 32-bit counters
  -- anywhere: afterwards the pipe holds the queue with the bytes that copyin() gave appended, and
  -- the section ends with -1 only if the pipe is closed for reading or the process killed, sleeps
  -- only on a full pipe, and else returns the number of bytes written, all of them or those before
  -- the one that copyin() refused.
  pub pipewrite_lem :
      (pi : Pipe) (i left : ℕ) (queue : List ℕ)
      → Holds pi queue
      → Writes copyin killed pi i left queue (pipewrite copyin killed pi i left)
  unfolding pipewrite
  pipewrite_lem pi i zero queue h = nothing_sent pi i 0 queue (returns i) h (complete refl)
  pipewrite_lem pi i (suc left) queue h = elim (Bool-cases (not pi.readopen || killed)) [
    | inl stop ↦ rw (pipewrite, stop) (nothing_sent pi i (suc left) queue fails h (stopped stop))
    | inr go ↦ elim (Bool-cases (is_full pi)) [
      | inl no_room ↦
          rw (pipewrite, go, no_room)
            (nothing_sent pi i (suc left) queue (sleeps i) h (full (full_lem pi queue h no_room)))
      | inr room ↦ elim (Option-cases (copyin i)) [
        | inl bad ↦
            rw (pipewrite, go, room, bad)
              (nothing_sent pi i (suc left) queue (returns i) h (faulted bad))
        | inr (ch, good) ↦
            rw (pipewrite, go, room, good)
              (one_sent pi i left ch queue (pipewrite copyin killed (put pi ch) (i + 1) left) good (
                pipewrite_lem (put pi ch) (i + 1) left (queue ++ (ch ∷ []))
                  (put-Holds pi queue ch h (is_full_lem pi queue h room))))
      ]
    ]
  ]
