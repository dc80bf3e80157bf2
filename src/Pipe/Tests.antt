-- ===== src/Pipe/Tests.antt =====
-- A pipe whose counters are about to wrap around.
use xv6_part2_and_concurrenc.Base.{
  ℕ, zero, suc, ◌<◌, ◌≡◌, refl, ap, arith, true, false, Option, none, some, List, [], ◌∷◌, length,
  get_or, inl, Bool,
}
use xv6_part2_and_concurrenc.Pipe.{Pipe, returns, pipewrite, piperead}
use xv6_part2_and_concurrenc.Pipe.Queue.{Holds}
use xv6_part2_and_concurrenc.Pipe.Write.{Writes, pipewrite_lem}
use xv6_part2_and_concurrenc.Pipe.Read.{piperead_lem}

-- Two bytes, the first at the last place before the wrap-around.
abbrev two_bytes : Pipe
two_bytes = record {
  buffer = λ i. 7;
  nread = 4294967295;
  nwrite = 1;
  readopen = true;
  writeopen = true;
}

abbrev sevens : List ℕ
sevens = 7 ∷ 7 ∷ []

seven_at : (i : ℕ) → i < 2 → 7 ≡ get_or sevens i 0
seven_at zero l = refl
seven_at (suc zero) l = refl
seven_at (suc (suc i)) l = absurd (omega arith)

two_bytes-Holds : Holds two_bytes sevens
two_bytes-Holds = record {
  fits = omega arith;
  counted = refl;
  small = omega arith;
  stored = λ i l. seven_at i l;
}

abbrev two_more : ℕ → Option ℕ
two_more zero = some 1
two_more (suc zero) = some 2
two_more (suc (suc i)) = none

pipewrite_lem_example :
    Writes two_more false two_bytes 0 5 sevens (pipewrite two_more false two_bytes 0 5)
pipewrite_lem_example = pipewrite_lem two_more false two_bytes 0 5 sevens two_bytes-Holds

abbrev always : ℕ → Bool
always i = true

piperead_lem_example :
    (rest : Pipe) × (piperead always false two_bytes 1 ≡ (rest, returns 1, 7 ∷ []))
    × Holds rest (7 ∷ [])
piperead_lem_example =
    piperead_lem always (λ i. refl) false two_bytes 1 sevens two_bytes-Holds
      (inl (λ e. absurd (omega (arith, ap (λ xs. length xs) e))))
