-- ===== src/Log/Space/Overrun.antt =====
-- The logs that are too small for the space that begin_op() reserves.
use mathlib.Core.Path.{subst}
use xv6_part2_and_concurrenc.Base.{
  ℕ, zero, suc, ◌+◌, ◌≤◌, ◌<◌, ◌≡◌, ◌≢◌, refl, sym, ap, ◌∙◌, arith, none, some, List, [], ◌∷◌, ◌++◌,
  update, update-eq, update-ne, ℕ_discrete, ◌-◌, ◌==◌, leb, ltb, true, false,
}
use xv6_part2_and_concurrenc.Log.Space.{
  Ops, begin_op, find_block, log_write, Work, begins, writes, boot, Reach, start, later,
}
use xv6_part2_and_concurrenc.Log.Space.Reserved.{sum, sum-append}

-- An operation that has a write left.
pick :
    (ks : List ℕ)
    → 0 < sum ks
    → (earlier : List ℕ) × (k : ℕ) × (others : List ℕ) × (ks ≡ earlier ++ suc k ∷ others)
pick [] l = absurd (omega arith)
pick (zero ∷ ks) l =
    let (earlier, k, others, e) = pick ks (omega arith) in
    (zero ∷ earlier, k, others, ap (λ y. zero ∷ y) e)
pick (suc k ∷ ks) l = ([], k, ks, refl)

find_new :
    (block : ℕ → ℕ) (b i left : ℕ)
    → ((j : ℕ) → j < i + left → block j ≢ b)
    → find_block block b i left ≡ i + left
unfolding find_block
find_new block b i zero h = omega arith
find_new block b i (suc left) h =
    let other = h i (omega arith) in
    let rest = find_new block b (i + 1) left (λ j l. h j (omega arith)) in ground arith

-- The block `b` is not in the log yet.
write_new :
    (size b : ℕ) (o : Ops)
    → o.n < 30
    → o.n + 1 < size
    → 0 < o.outstanding
    → ((j : ℕ) → j < o.n → o.block j ≢ b)
    → log_write size b o ≡ some (record o { block = update o.block o.n b; n = o.n + 1 })
unfolding log_write
write_new size b o l l' out h =
    let found : find_block o.block b 0 o.n ≡ o.n =
      find_new o.block b 0 o.n (λ j below. h j (omega arith)) ∙ omega arith in
    let small : leb 30 o.n ≡ false = ground arith in
    let fits : leb (size - 1) o.n ≡ false = ground arith in
    let some_out : ltb o.outstanding 1 ≡ false = ground arith in
    let same : (o.n == o.n) ≡ true = ground arith in rw (small, fits, some_out, found, same)

-- Three operations that have written the blocks below `m`.
record Filled (size m : ℕ) : Type 0 where
  state : Work
  reached : Reach size state
  many : state.ops.n ≡ m
  out : state.ops.outstanding ≡ 3
  more : m + sum state.lefts ≡ 30
  blocks : (j : ℕ) → j < m → state.ops.block j ≡ j

three : Ops
three = record boot.ops { outstanding = 3 }

begin_more :
    (k : ℕ)
    → k < 3
    → begin_op (record three { outstanding = k }) ≡ some (record three { outstanding = k + 1 })
unfolding begin_op three
begin_more k l = ground arith

three_begin : (size : ℕ) → Reach size (record { ops = three; lefts = 10 ∷ 10 ∷ 10 ∷ [] })
unfolding three
three_begin size =
    later
      (later (later start (begins (begin_more 0 (omega arith))))
        (begins (begin_more 1 (omega arith))))
      (begins (begin_more 2 (omega arith)))

filled :
    (m n : ℕ) (block : ℕ → ℕ)
    → n ≡ m
    → ((j : ℕ) → j < m → block j ≡ j)
    → (j : ℕ) → j < suc m
    → update block n m j ≡ j
filled m n block e h j l = elim (ℕ_discrete j n) [
  | yes same ↦ update-eq block n m j same ∙ sym e ∙ sym same
  | no other ↦ update-ne block n m j other ∙ h j (omega arith)
]

module _ (size : ℕ) where
  one_more : (m : ℕ) → suc m ≤ 29 → suc m < size → Filled size m → Filled size (suc m)
  one_more m l l' s =
      let o = s.state.ops in
      let (earlier, k, others, e) = pick s.state.lefts (omega (arith, s.more)) in
      let step =
        write_new size m o (omega (arith, s.many)) (omega (arith, s.many)) (omega (arith, s.out))
          (λ j below same. omega (arith, s.blocks j (omega (arith, s.many)))) in
      let from : Reach size (record { ops = o; lefts = earlier ++ suc k ∷ others }) =
        subst (λ y. Reach size (record { ops = o; lefts = y })) e s.reached in
      record {
        state = record {
          ops = record o { block = update o.block o.n m; n = o.n + 1 };
          lefts = earlier ++ k ∷ others;
        };
        reached = later from (writes earlier others k m step);
        many = omega (arith, s.many);
        out = s.out;
        more = omega (
          arith,
          s.more,
          s.many,
          ap sum e,
          sum-append earlier (suc k ∷ others),
          sum-append earlier (k ∷ others),
        );
        blocks = filled m o.n o.block s.many s.blocks;
      }

  fill : (m : ℕ) → m ≤ 29 → m < size → Filled size m
  unfolding three
  fill zero l l' = record {
    state = record { ops = three; lefts = 10 ∷ 10 ∷ 10 ∷ [] };
    reached = three_begin size;
    many = refl;
    out = refl;
    more = refl;
    blocks = λ j below. absurd (omega arith);
  }
  fill (suc m) l l' = one_more m l l' (fill m (omega arith) (omega arith))

no_space : (size b : ℕ) (o : Ops) → size ≤ o.n + 1 → log_write size b o ≡ none
unfolding log_write
no_space size b o l = ground arith

-- With a log of at most LOGSIZE = 30 blocks, the reservation of begin_op() is not enough:
-- operations that each make at most MAXOPBLOCKS writes reach a state in which one of them has a
-- write left and log_write() of it, of any block, panics.
pub log_write_overruns :
    (size b : ℕ)
    → 0 < size
    → size ≤ 30
    → (s : Work) × (earlier : List ℕ) × (k : ℕ) × (others : List ℕ) × Reach size s
      × (s.lefts ≡ earlier ++ suc k ∷ others)
      × (log_write size b s.ops ≡ none)
log_write_overruns size b l l' =
    let s = fill size (size - 1) (omega arith) (omega arith) in
    let (earlier, k, others, e) = pick s.state.lefts (omega (arith, s.more)) in
    (s.state, earlier, k, others, s.reached, e, no_space size b s.state.ops (omega (arith, s.many)))
