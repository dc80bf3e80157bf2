-- ===== src/Pipe/Queue.antt =====
-- The ring buffer is a queue of at most PIPESIZE bytes, also where its counters wrap around.
use xv6_part2_and_concurrenc.Base.{
  ℕ, zero, suc, ◌+◌, ◌%◌, ◌^◌, ◌≤◌, ◌<◌, ◌≡◌, ◌≢◌, refl, sym, ap, ◌∙◌, arith, true, false, List, [],
  ◌∷◌, ◌++◌, length, length-append, get_or, update-eq, update-ne, ℕ_discrete,
}
use xv6_part2_and_concurrenc.Pipe.{Pipe, new_pipe, put, drop_first, is_full}

-- The bytes in the pipe, in the order in which they were written.
pub record Holds (pi : Pipe) (queue : List ℕ) : Type 0 where
  pub fits : length queue ≤ 512
  pub counted : pi.nwrite ≡ (pi.nread + length queue) % 2 ^ 32
  pub small : pi.nread < 2 ^ 32
  pub stored :
      (i : ℕ) → i < length queue → pi.buffer ((pi.nread + i) % 2 ^ 32 % 512) ≡ get_or queue i 0

get_or-append :
    (xs : List ℕ) (x i : ℕ) → i < length xs → get_or (xs ++ (x ∷ [])) i 0 ≡ get_or xs i 0
get_or-append [] x i h = absurd (omega arith)
get_or-append (y ∷ xs) x zero h = refl
get_or-append (y ∷ xs) x (suc i) h = get_or-append xs x i (omega arith)

get_or-last : (xs : List ℕ) (x i : ℕ) → i ≡ length xs → get_or (xs ++ (x ∷ [])) i 0 ≡ x
get_or-last [] x zero h = refl
get_or-last [] x (suc i) h = absurd (omega arith)
get_or-last (y ∷ xs) x zero h = absurd (omega arith)
get_or-last (y ∷ xs) x (suc i) h = get_or-last xs x i (omega arith)

slots_apart : (r i l : ℕ) → i < l → l < 512 → (r + i) % 2 ^ 32 % 512 ≢ (r + l) % 2 ^ 32 % 512
slots_apart r i l h h' e = absurd (omega arith)

pub is_full_lem :
    (pi : Pipe) (queue : List ℕ) → Holds pi queue → is_full pi ≡ false → length queue < 512
unfolding is_full
is_full_lem pi queue h e = ground (arith, h.counted, h.fits)

pub full_lem :
    (pi : Pipe) (queue : List ℕ) → Holds pi queue → is_full pi ≡ true → length queue ≡ 512
unfolding is_full
full_lem pi queue h e = ground (arith, h.counted, h.fits)

pub put-Holds :
    (pi : Pipe) (queue : List ℕ) (ch : ℕ)
    → Holds pi queue
    → length queue < 512
    → Holds (put pi ch) (queue ++ (ch ∷ []))
unfolding put
put-Holds pi queue ch h room = record {
  fits = omega (arith, length-append queue (ch ∷ []));
  counted = omega (arith, h.counted, length-append queue (ch ∷ []));
  small = h.small;
  stored = λ i l. elim (ℕ_discrete i (length queue)) [
    | yes last ↦
        update-eq pi.buffer (pi.nwrite % 512) ch ((pi.nread + i) % 2 ^ 32 % 512)
          (omega (arith, h.counted))
        ∙ sym (get_or-last queue ch i last)
    | no before ↦
        update-ne pi.buffer (pi.nwrite % 512) ch ((pi.nread + i) % 2 ^ 32 % 512) (λ e.
          slots_apart pi.nread i (length queue) (omega (arith, length-append queue (ch ∷ []))) room
            (omega (arith, h.counted)))
        ∙ h.stored i (omega (arith, length-append queue (ch ∷ [])))
        ∙ sym (get_or-append queue ch i (omega (arith, length-append queue (ch ∷ []))))
  ];
}

pub drop_first-Holds :
    (pi : Pipe) (ch : ℕ) (queue : List ℕ)
    → Holds pi (ch ∷ queue)
    → (pi.buffer (pi.nread % 512) ≡ ch) × Holds (drop_first pi) queue
unfolding drop_first
drop_first-Holds pi ch queue h = (
  ap (λ x. pi.buffer x) (omega (arith, h.small)) ∙ h.stored 0 (omega arith),
  record {
    fits = omega (arith, h.fits);
    counted = omega (arith, h.counted);
    small = omega arith;
    stored = λ i l. ap (λ x. pi.buffer x) (omega arith) ∙ h.stored (suc i) (omega arith);
  },
)

new_pipe-Holds : (bytes : ℕ → ℕ) → Holds (new_pipe bytes) []
unfolding new_pipe
new_pipe-Holds bytes = record {
  fits = omega arith;
  counted = refl;
  small = omega arith;
  stored = λ i l. absurd (omega arith);
}
