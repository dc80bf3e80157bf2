-- ===== src/Log/Install.antt =====
-- The loops of write_log() and install_trans(), cut off by a power failure anywhere.
use xv6_part2_and_concurrenc.Base.{
  ℕ, zero, suc, ◌+◌, ◌≤◌, ◌<◌, ◌≡◌, ◌≢◌, ◌⊎◌, inl, inr, refl, sym, ap, ◌∙◌, arith, ℕ_discrete,
}
use xv6_part2_and_concurrenc.Log.{Block, Store, Log, slot, log_blocks, install_blocks}
use xv6_part2_and_concurrenc.Log.Writes.{
  changed, changed_mem, changed_mem_other, changed_other, changed_self, changed_dead, changed_left,
}

-- No block of the transaction is a block of the log.
abbrev pub IsApart : Log → Type 0
IsApart log = (i : ℕ) → i < log.n → (log.block i < log.start) ⊎ (log.start + log.n < log.block i)

abbrev pub Off : Log → ℕ → ℕ → Type 0
Off log r b = (b ≤ log.start) ⊎ (log.start + r < b)

-- After `r` rounds of write_log().
pub record Logged (log : Log) (r : ℕ) (s0 s : Store) : Type 0 where
  pub home : (b : ℕ) → Off log r b → s.mem b ≡ s0.mem b
  pub slots : (i : ℕ) → i < r → s.mem (slot log i) ≡ s0.mem (log.block i)
  pub kept : (b : ℕ) → Off log r b → s.disk b ≡ s0.disk b
  pub durable : (s.left ≡ 0) ⊎ ((i : ℕ) → i < r → s.disk (slot log i) ≡ s0.mem (log.block i))
  pub power : s0.left ≤ s.left + r

module _ (log : Log) (r : ℕ) (s0 s : Store) (h : Logged log r s0 s) (l : r < log.n)
    (apart : IsApart log) where
  abbrev value : Block
  value = s.mem (log.block r)

  abbrev next : Store
  next = changed (slot log r) value s

  value_home : value ≡ s0.mem (log.block r)
  value_home =
      h.home (log.block r)
        (elim (apart r l) [ inl lo ↦ inl (omega arith) | inr hi ↦ inr (omega arith) ])

  Off-before : (b : ℕ) → Off log (suc r) b → Off log r b
  Off-before b (inl lo) = inl lo
  Off-before b (inr hi) = inr (omega arith)

  Off-slot : (b : ℕ) → Off log (suc r) b → b ≢ slot log r
  Off-slot b (inl lo) e = omega arith
  Off-slot b (inr hi) e = omega arith

  next-Logged : Logged log (suc r) s0 next
  next-Logged = record {
    home =
        λ b o. changed_mem_other (slot log r) value s b (Off-slot b o) ∙ h.home b (Off-before b o);
    slots = λ i m. elim (ℕ_discrete i r) [
      | yes at ↦
          ap (λ y. next.mem (slot log y)) at
          ∙ changed_mem (slot log r) value s
          ∙ value_home
          ∙ ap (λ y. s0.mem (log.block y)) (sym at)
      | no off ↦
          changed_mem_other (slot log r) value s (slot log i) (λ e. off (omega arith))
          ∙ h.slots i (omega arith)
    ];
    kept = λ b o. changed_other (slot log r) value s b (Off-slot b o) ∙ h.kept b (Off-before b o);
    durable = elim (changed_self (slot log r) value s) [
      | inl (dead, before) ↦ inl dead
      | inr written ↦ elim h.durable [
        | inl dead ↦ inl (changed_dead (slot log r) value s dead).1
        | inr done ↦ inr (λ i m. elim (ℕ_discrete i r) [
          | yes at ↦
              ap (λ y. next.disk (slot log y)) at
              ∙ written
              ∙ value_home
              ∙ ap (λ y. s0.mem (log.block y)) (sym at)
          | no off ↦
              changed_other (slot log r) value s (slot log i) (λ e. off (omega arith))
              ∙ done i (omega arith)
        ])
      ]
    ];
    power = omega (arith, h.power, changed_left (slot log r) value s);
  }

pub log_blocks-Logged :
    (log : Log) (s : Store)
    → IsApart log
    → (r : ℕ) → r ≤ log.n
    → Logged log r s (log_blocks log r s)
unfolding log_blocks
log_blocks-Logged log s apart zero l = record {
  home = λ b o. refl;
  slots = λ i m. absurd (omega arith);
  kept = λ b o. refl;
  durable = inr (λ i m. absurd (omega arith));
  power = omega arith;
}
log_blocks-Logged log s apart (suc r) l =
    next-Logged log r s (log_blocks log r s) (log_blocks-Logged log s apart r (omega arith))
      (omega arith) apart

-- After `r` rounds of install_trans(), where `w` has the contents of the transaction's blocks.
pub record Installed (log : Log) (w : ℕ → Block) (r : ℕ) (s0 s : Store) : Type 0 where
  pub slots : (i : ℕ) → i < log.n → s.mem (slot log i) ≡ w (log.block i)
  pub kept : (b : ℕ) → ((i : ℕ) → i < r → b ≢ log.block i) → s.disk b ≡ s0.disk b
  pub durable : (s.left ≡ 0) ⊎ ((i : ℕ) → i < r → s.disk (log.block i) ≡ w (log.block i))
  pub power : s0.left ≤ s.left + r
  pub off : s0.left ≡ 0 → (s.disk ≡ s0.disk) × (s.left ≡ 0)

module _ (log : Log) (w : ℕ → Block) (r : ℕ) (s0 s : Store) (h : Installed log w r s0 s)
    (l : r < log.n) (apart : IsApart log) where
  abbrev home : ℕ
  home = log.block r

  abbrev logged : Block
  logged = s.mem (slot log r)

  abbrev after : Store
  after = changed home logged s

  slot_apart : (i : ℕ) → i < log.n → slot log i ≢ home
  slot_apart i m e = elim (apart r l) [ inl lo ↦ omega arith | inr hi ↦ omega arith ]

  installed_again :
      ((i : ℕ) → i < r → s.disk (log.block i) ≡ w (log.block i))
      → after.disk home ≡ logged
      → (i : ℕ) → i < suc r
      → after.disk (log.block i) ≡ w (log.block i)
  installed_again done written i m = elim (ℕ_discrete (log.block i) home) [
    | yes at ↦ ap after.disk at ∙ written ∙ h.slots r l ∙ ap w (sym at)
    | no other ↦
        changed_other home logged s (log.block i) other
        ∙ done i (elim (ℕ_discrete i r) [
          | yes same ↦ absurd (other (ap log.block same))
          | no off ↦ omega arith
        ])
  ]

  after-Installed : Installed log w (suc r) s0 after
  after-Installed = record {
    slots = λ i m. changed_mem_other home logged s (slot log i) (slot_apart i m) ∙ h.slots i m;
    kept = λ b o.
        changed_other home logged s b (o r (omega arith)) ∙ h.kept b (λ i m. o i (omega arith));
    durable = elim (changed_self home logged s) [
      | inl (dead, before) ↦ inl dead
      | inr written ↦ elim h.durable [
        | inl dead ↦ inl (changed_dead home logged s dead).1
        | inr done ↦ inr (installed_again done written)
      ]
    ];
    power = omega (arith, h.power, changed_left home logged s);
    off = λ e.
        let (same, dead) = h.off e in
        let (same', dead') = changed_dead home logged s dead in (same' ∙ same, dead');
  }

pub install_blocks-Installed :
    (log : Log) (w : ℕ → Block) (s : Store)
    → IsApart log
    → ((i : ℕ) → i < log.n → s.mem (slot log i) ≡ w (log.block i))
    → (r : ℕ) → r ≤ log.n
    → Installed log w r s (install_blocks log r s)
unfolding install_blocks
install_blocks-Installed log w s apart slots zero l = record {
  slots = slots;
  kept = λ b o. refl;
  durable = inr (λ i m. absurd (omega arith));
  power = omega arith;
  off = λ e. (refl, e);
}
install_blocks-Installed log w s apart slots (suc r) l =
    after-Installed log w r s (install_blocks log r s)
      (install_blocks-Installed log w s apart slots r (omega arith)) (omega arith) apart
