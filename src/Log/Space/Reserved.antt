-- ===== src/Log/Space/Reserved.antt =====
-- The writes that operations may make, against the space that begin_op() reserves.
use xv6_part2_and_concurrenc.Base.{ℕ, ◌+◌, ◌≤◌, ◌≡◌, arith, List, [], ◌∷◌, ◌++◌, length}
use xv6_part2_and_concurrenc.Log.Space.{Work}

abbrev pub sum : List ℕ → ℕ
sum [] = 0
sum (k ∷ ks) = k + sum ks

pub sum-append : (a b : List ℕ) → sum (a ++ b) ≡ sum a + sum b
sum-append [] b = omega arith
sum-append (k ∷ a) b = omega (arith, sum-append a b)

-- No operation may make more writes than it reserved.
data AreSmall : List ℕ → Type 0 where
  no_op : AreSmall []
  one_op : {k : ℕ} {ks : List ℕ} → k ≤ 10 → AreSmall ks → AreSmall (k ∷ ks)

record IsReserved (s : Work) : Type 0 where
  room : s.ops.n + sum s.lefts ≤ 30
  counted : s.ops.outstanding ≡ length s.lefts
  small : AreSmall s.lefts
