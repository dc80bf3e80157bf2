-- ===== src/Log/Writes.antt =====
-- What the writes to the disk do, before and after the power fails.
use xv6_part2_and_concurrenc.Base.{
  ℕ, zero, suc, ◌+◌, ◌≤◌, ◌<◌, ◌≡◌, ◌≢◌, ◌⊎◌, inl, inr, refl, sym, ap, ◌∙◌, arith, update-eq,
  update-ne, ℕ_discrete,
}
use xv6_part2_and_concurrenc.Log.{Block, Store, set_data, write_to, bwrite, put_blocks, read_blocks}

write_to-mem : (b k : ℕ) (s : Store) → (write_to b k s).mem ≡ s.mem
write_to-mem b zero s = refl
write_to-mem b (suc k) s = refl

write_to-other : (b k c : ℕ) (s : Store) → c ≢ b → (write_to b k s).disk c ≡ s.disk c
write_to-other b zero c s h = refl
write_to-other b (suc k) c s h = update-ne s.disk b (s.mem b) c h

write_to_self :
    (b k : ℕ) (s : Store)
    → s.left ≡ k
    → (((write_to b k s).left ≡ 0) × (s.left ≡ 0)) ⊎ ((write_to b k s).disk b ≡ s.mem b)
write_to_self b zero s h = inl (h, h)
write_to_self b (suc k) s h = inr (update-eq s.disk b (s.mem b) b refl)

write_to-left : (b k : ℕ) (s : Store) → s.left ≡ k → k ≤ (write_to b k s).left + 1
write_to-left b zero s h = omega arith
write_to-left b (suc k) s h = omega arith

module _ (b : ℕ) (s : Store) where
  pub bwrite-mem : (bwrite b s).mem ≡ s.mem
  unfolding bwrite
  bwrite-mem = write_to-mem b s.left s

  pub bwrite-other : (c : ℕ) → c ≢ b → (bwrite b s).disk c ≡ s.disk c
  unfolding bwrite
  bwrite-other c h = write_to-other b s.left c s h

  -- Either the power has failed, or the block is on the disk.
  pub bwrite_self : (((bwrite b s).left ≡ 0) × (s.left ≡ 0)) ⊎ ((bwrite b s).disk b ≡ s.mem b)
  unfolding bwrite
  bwrite_self = write_to_self b s.left s refl

  pub bwrite_dead : s.left ≡ 0 → bwrite b s ≡ s
  unfolding bwrite
  bwrite_dead h = ap (λ k. write_to b k s) h

  pub bwrite-left : s.left ≤ (bwrite b s).left + 1
  unfolding bwrite
  bwrite-left = write_to-left b s.left s refl

-- A buffer changed and written: what `log_block`, `install_block` and write_head() do.
module _ (b : ℕ) (v : Block) (s : Store) where
  abbrev pub changed : Store
  changed = bwrite b (set_data b v s)

  pub changed_mem : (changed).mem b ≡ v
  changed_mem = ap (λ m. m b) (bwrite-mem b (set_data b v s)) ∙ update-eq s.mem b v b refl

  pub changed_mem_other : (c : ℕ) → c ≢ b → (changed).mem c ≡ s.mem c
  changed_mem_other c h = ap (λ m. m c) (bwrite-mem b (set_data b v s)) ∙ update-ne s.mem b v c h

  pub changed_other : (c : ℕ) → c ≢ b → (changed).disk c ≡ s.disk c
  changed_other c h = bwrite-other b (set_data b v s) c h

  pub changed_self : (((changed).left ≡ 0) × (s.left ≡ 0)) ⊎ ((changed).disk b ≡ v)
  changed_self = elim (bwrite_self b (set_data b v s)) [
    | inl off ↦ inl off
    | inr on ↦ inr (on ∙ update-eq s.mem b v b refl)
  ]

  pub changed_dead : s.left ≡ 0 → ((changed).disk ≡ s.disk) × ((changed).left ≡ 0)
  changed_dead h =
      let e = bwrite_dead b (set_data b v s) h in (ap (λ y. y.disk) e, ap (λ y. y.left) e ∙ h)

  pub changed_left : s.left ≤ (changed).left + 1
  changed_left = bwrite-left b (set_data b v s)

-- The words of a header.
pub put_blocks-zero : (block : ℕ → ℕ) (n : ℕ) (words : Block) → put_blocks block n words 0 ≡ words 0
unfolding put_blocks
put_blocks-zero block zero words = refl
put_blocks-zero block (suc n) words =
    update-ne (put_blocks block n words) (n + 1) (block n) 0 (λ e. absurd (omega arith))
    ∙ put_blocks-zero block n words

pub put_blocks-at :
    (block : ℕ → ℕ) (n : ℕ) (words : Block) (i : ℕ)
    → i < n
    → put_blocks block n words (i + 1) ≡ block i
unfolding put_blocks
put_blocks-at block zero words i l = absurd (omega arith)
put_blocks-at block (suc n) words i l = elim (ℕ_discrete i n) [
  | yes at ↦
      update-eq (put_blocks block n words) (n + 1) (block n) (i + 1) (omega arith)
      ∙ ap block (sym at)
  | no off ↦
      update-ne (put_blocks block n words) (n + 1) (block n) (i + 1) (λ e. off (omega arith))
      ∙ put_blocks-at block n words i (omega arith)
]

pub read_blocks-at :
    (words : Block) (n : ℕ) (block : ℕ → ℕ) (i : ℕ)
    → i < n
    → read_blocks words n block i ≡ words (i + 1)
unfolding read_blocks
read_blocks-at words zero block i l = absurd (omega arith)
read_blocks-at words (suc n) block i l = elim (ℕ_discrete i n) [
  | yes at ↦
      update-eq (read_blocks words n block) n (words (n + 1)) i at
      ∙ ap (λ y. words (y + 1)) (sym at)
  | no off ↦
      update-ne (read_blocks words n block) n (words (n + 1)) i off
      ∙ read_blocks-at words n block i (omega arith)
]
