-- ===== src/Log/Space.antt =====
-- The reservation of space in initial-xv6/src/kernel/log.c: begin_op(), end_op() and log_write(), each
-- as one step, as log.lock makes them. begin_op() gives none where it sleeps and tests again; the
-- others give none at a panic. The number of outstanding operations is not below 0.
pub mod Reserved
pub mod Overrun
use xv6_part2_and_concurrenc.Base.{
  ℕ, zero, suc, ◌+◌, ◌-◌, ◌*◌, ◌≡◌, Bool, true, false, ◌||◌, Option, none, some, List, [], ◌∷◌,
  ◌++◌, ◌==◌, if◌then◌else◌, update, ltb, leb,
}

abbrev pub maxopblocks : ℕ
maxopblocks = 10

abbrev pub logsize : ℕ
logsize = 30

pub record Ops : Type 0 where
  pub n : ℕ
  pub block : ℕ → ℕ
  pub outstanding : ℕ
  pub committing : Bool

-- One pass of the loop of begin_op().
unfoldable pub begin_op : Ops → Option Ops
begin_op o =
    if o.committing
    then none
    else if ltb logsize (o.n + (o.outstanding + 1) * maxopblocks)
    then none
    else some (record o { outstanding = o.outstanding + 1 })

-- The first part of end_op(): whether to commit.
unfoldable pub end_op : Ops → Option (Bool × Ops)
end_op o =
    if ltb o.outstanding 1
    then none
    else if o.committing
    then none
    else if o.outstanding - 1 == 0
    then some (true, record o { outstanding = o.outstanding - 1; committing = true })
    else some (false, record o { outstanding = o.outstanding - 1 })

-- The rest of it, once commit() has emptied the log.
unfoldable pub end_commit : Ops → Ops
end_commit o = record o { n = 0; committing = false }

-- The loop of log_write(), from `i` on with `left` to look at.
unfoldable pub find_block : (ℕ → ℕ) → ℕ → ℕ → ℕ → ℕ
find_block block b i zero = i
find_block block b i (suc left) = if block i == b then i else find_block block b (i + 1) left

unfoldable pub log_write : ℕ → ℕ → Ops → Option Ops
log_write size b o =
    if leb logsize o.n || leb (size - 1) o.n
    then none
    else if ltb o.outstanding 1
    then none
    else (let i = find_block o.block b 0 o.n in
        some (record o { block = update o.block i b; n = if i == o.n then o.n + 1 else o.n }))

-- The operations under way, by the writes that each may still make.
pub record Work : Type 0 where
  pub ops : Ops
  pub lefts : List ℕ

pub data Step (size : ℕ) : Work → Work → Type 0 where
  begins :
      {o o' : Ops} {lefts : List ℕ}
      → begin_op o ≡ some o'
      → Step size
          (record { ops = o; lefts = lefts })
          (record { ops = o'; lefts = maxopblocks ∷ lefts })
  writes :
      {o o' : Ops} (earlier others : List ℕ) (k b : ℕ)
      → log_write size b o ≡ some o'
      → Step size
          (record { ops = o; lefts = earlier ++ suc k ∷ others })
          (record { ops = o'; lefts = earlier ++ k ∷ others })
  ends :
      {o o' : Ops} {last : Bool} (earlier others : List ℕ) (k : ℕ)
      → end_op o ≡ some (last, o')
      → Step size
          (record { ops = o; lefts = earlier ++ k ∷ others })
          (record { ops = o'; lefts = earlier ++ others })
  commits :
      {o : Ops} {lefts : List ℕ}
      → o.committing ≡ true
      → Step size (record { ops = o; lefts = lefts }) (record { ops = end_commit o; lefts = lefts })

-- The log is empty after the recovery.
abbrev pub boot : Work
boot = record {
  ops = record { n = 0; block = λ i. 0; outstanding = 0; committing = false };
  lefts = [];
}

pub data Reach (size : ℕ) : Work → Type 0 where
  start : Reach size boot
  later : {s s' : Work} → Reach size s → Step size s s' → Reach size s'
