-- ===== src/Pipe/Read.antt =====
-- piperead().
use xv6_part2_and_concurrenc.Base.{
  ℕ, zero, suc, ◌+◌, ◌≡◌, ◌≢◌, refl, ap, ◌∙◌, arith, Bool, true, false, List, [], ◌∷◌, ◌==◌, ◌⊎◌,
  inl, inr, length, take, drop,
}
use xv6_part2_and_concurrenc.Pipe.{Pipe, drop_first, Outcome, returns, read_bytes, piperead}
use xv6_part2_and_concurrenc.Pipe.Queue.{Holds, drop_first-Holds}

no_offset : (i : ℕ) → 0 + i ≡ i
no_offset i = omega arith

empty_lem : (pi : Pipe) → Holds pi [] → (pi.nread == pi.nwrite) ≡ true
empty_lem pi h = ground (arith, h.counted, h.small)

some_lem :
    (pi : Pipe) (ch : ℕ) (queue : List ℕ) → Holds pi (ch ∷ queue) → (pi.nread == pi.nwrite) ≡ false
some_lem pi ch queue h = ground (arith, h.counted, h.small, h.fits)

abbrev answer : Pipe → Outcome → List ℕ → Pipe × Outcome × List ℕ
answer pi o bytes = (pi, o, bytes)

-- What a run that copies up to `n` bytes leaves and gives.
pub record Reads (n i : ℕ) (queue : List ℕ) (result : Pipe × ℕ × List ℕ) : Type 0 where
  pub left_over : Holds result.0 (drop n queue)
  pub count : result.1 ≡ i + length (take n queue)
  pub bytes : result.2 ≡ take n queue

module _ (copyout : ℕ → Bool) (writable : (i : ℕ) → copyout i ≡ true) where
  read_bytes_lem :
      (pi : Pipe) (i left : ℕ) (queue : List ℕ)
      → Holds pi queue
      → Reads left i queue (read_bytes copyout pi i left)
  unfolding read_bytes
  read_bytes_lem pi i zero queue h = record { left_over = h; count = omega arith; bytes = refl }
  read_bytes_lem pi i (suc left) [] h =
      rw (read_bytes, empty_lem pi h) (record { left_over = h; count = omega arith; bytes = refl })
  read_bytes_lem pi i (suc left) (ch ∷ queue) h =
      let (first, after) = drop_first-Holds pi ch queue h in
      let rest = read_bytes_lem (drop_first pi) (i + 1) left queue after in
      rw (read_bytes, some_lem pi ch queue h, writable i)
        (record {
          left_over = rest.left_over;
          count = omega (arith, rest.count);
          bytes =
              ap (λ x. x ∷ (read_bytes copyout (drop_first pi) (i + 1) left).2) first
              ∙ ap (λ xs. ch ∷ xs) rest.bytes;
        })

  as_returned :
      (pi : Pipe) (n : ℕ) (queue : List ℕ)
      → Holds pi queue
      → answer
          (read_bytes copyout pi 0 n).0
          (returns (read_bytes copyout pi 0 n).1)
          (read_bytes copyout pi 0 n).2
        ≡ answer (read_bytes copyout pi 0 n).0 (returns (length (take n queue))) (take n queue)
  as_returned pi n queue h =
      let r = read_bytes_lem pi 0 n queue h in
      let rest = (read_bytes copyout pi 0 n).0 in
      ap (λ c. answer rest (returns c) (read_bytes copyout pi 0 n).2)
        (r.count ∙ no_offset (length (take n queue)))
      ∙ ap (λ b. answer rest (returns (length (take n queue))) b) r.bytes

  module _ (killed : Bool) (pi : Pipe) (n : ℕ) where
    runs_some :
        (pi.nread == pi.nwrite) ≡ false
        → piperead copyout killed pi n
          ≡ answer
              (read_bytes copyout pi 0 n).0
              (returns (read_bytes copyout pi 0 n).1)
              (read_bytes copyout pi 0 n).2
    unfolding piperead
    runs_some e = rw (piperead, e) refl

    runs_closed :
        (pi.nread == pi.nwrite) ≡ true
        → pi.writeopen ≡ false
        → piperead copyout killed pi n
          ≡ answer
              (read_bytes copyout pi 0 n).0
              (returns (read_bytes copyout pi 0 n).1)
              (read_bytes copyout pi 0 n).2
    unfolding piperead
    runs_closed e c = rw (piperead, e, c) refl

  -- piperead() of `n` bytes on a pipe that holds a queue and is not empty, or is closed for
  -- writing, when copyout() succeeds: it returns the first bytes of the queue, `n` or all, and
  -- their number, and the pipe holds the rest.
  pub piperead_lem :
      (killed : Bool) (pi : Pipe) (n : ℕ) (queue : List ℕ)
      → Holds pi queue
      → (queue ≢ []) ⊎ (pi.writeopen ≡ false)
      → (rest : Pipe) × (piperead copyout killed pi n
          ≡ (rest, returns (length (take n queue)), take n queue))
        × Holds rest (drop n queue)
  piperead_lem killed pi n [] h (inl more) = absurd (more refl)
  piperead_lem killed pi n [] h (inr closed) = (
    (read_bytes copyout pi 0 n).0,
    runs_closed killed pi n (empty_lem pi h) closed ∙ as_returned pi n [] h,
    (read_bytes_lem pi 0 n [] h).left_over,
  )
  piperead_lem killed pi n (ch ∷ queue) h some_or_closed = (
    (read_bytes copyout pi 0 n).0,
    runs_some killed pi n (some_lem pi ch queue h) ∙ as_returned pi n (ch ∷ queue) h,
    (read_bytes_lem pi 0 n (ch ∷ queue) h).left_over,
  )
