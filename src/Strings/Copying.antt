-- ===== src/Strings/Copying.antt =====
-- What the loops of initial-xv6/src/kernel/string.c do to memory.
use xv6_part2_and_concurrenc.Base.{
  ℕ, zero, suc, ◌+◌, ◌-◌, ◌≤◌, ◌<◌, ◌≡◌, ◌≢◌, ◌⊎◌, inl, inr, refl, sym, ap, ◌∙◌, arith, ltb, ◌==◌,
  ◌&&◌, true, false, Bool-cases, update, update-eq, update-ne, ℕ_discrete,
}
use xv6_part2_and_concurrenc.Memory.{Mem, fill, copy}
use xv6_part2_and_concurrenc.Strings.{
  set_bytes, copy_down, copy_up, move_bytes, safe_rounds, safestrcpy,
}

-- memset() fills.
pub set_bytes-fill : (m : Mem) (dst c n x : ℕ) → set_bytes m dst c n x ≡ fill m dst c n x
unfolding set_bytes fill
set_bytes-fill m dst c zero x = ground arith
set_bytes-fill m dst c (suc n) x = ground (arith, set_bytes-fill m dst c n x)

copy_down-copy :
    (m : Mem) (dst src n x : ℕ) → src < dst → copy_down m dst src n x ≡ copy m dst src n x
unfolding copy_down copy
copy_down-copy m dst src zero x h = ground arith
copy_down-copy m dst src (suc n) x h =
    ground (arith, copy_down-copy (update m (dst + n) (m (src + n))) dst src n x h)

copy_up-copy : (m : Mem) (d s n x : ℕ) → (d ≤ s) ⊎ (s + n ≤ d) → copy_up m d s n x ≡ copy m d s n x
unfolding copy_up copy
copy_up-copy m d s zero x h = ground arith
copy_up-copy m d s (suc n) x h =
    ground (arith, copy_up-copy (update m d (m s)) (d + 1) (s + 1) n x (omega arith))

not_zero : (n : ℕ) → (suc n == 0) ≡ false
not_zero n = ground arith

-- memmove(), on any memory, for ranges that overlap in any way: every byte of the destination gets
-- what the source had before, and no other byte changes.
pub move_bytes-copy : (m : Mem) (dst src n x : ℕ) → move_bytes m dst src n x ≡ copy m dst src n x
unfolding move_bytes copy
move_bytes-copy m dst src zero x = ground arith
move_bytes-copy m dst src (suc n) x = elim (Bool-cases (ltb src dst && ltb dst (src + suc n))) [
  | inl over ↦ rw (not_zero n, over) (copy_down-copy m dst src (suc n) x (ground arith))
  | inr apart ↦ rw (not_zero n, apart) (copy_up-copy m dst src (suc n) x (ground arith))
]

-- `k` bytes of the string at `t`, none a NUL, and a NUL; it ends there for want of room or because
-- the string does.
pub record SafeCopied (m : Mem) (s t n : ℕ) (m' : Mem) : Type 0 where
  pub k : ℕ
  pub fits : k < n
  pub same : (i : ℕ) → i < k → (m' (s + i) ≡ m (t + i)) × (m (t + i) ≢ 0)
  pub ends : m' (s + k) ≡ 0
  pub why : (k + 1 ≡ n) ⊎ (m (t + k) ≡ 0)
  pub outside : (x : ℕ) → (x < s) ⊎ (s + n ≤ x) → m' x ≡ m x

rounds_nul :
    (m : Mem) (s t left : ℕ)
    → (m t == 0) ≡ true
    → safe_rounds m s t (suc left) ≡ update (update m s (m t)) (s + 1) 0
unfolding safe_rounds
rounds_nul m s t left h = rw (safe_rounds, h) refl

rounds_on :
    (m : Mem) (s t left : ℕ)
    → (m t == 0) ≡ false
    → safe_rounds m s t (suc left) ≡ safe_rounds (update m s (m t)) (s + 1) (t + 1) left
unfolding safe_rounds
rounds_on m s t left h = rw (safe_rounds, h) refl

is_nul : (x : ℕ) → (x == 0) ≡ true → x ≡ 0
is_nul x h = ground arith

is_other : (x : ℕ) → (x == 0) ≡ false → x ≢ 0
is_other x h e = ground arith

nul-SafeCopied :
    (m : Mem) (s t left : ℕ)
    → (m t == 0) ≡ true
    → SafeCopied m s t (suc (suc left)) (update (update m s (m t)) (s + 1) 0)
nul-SafeCopied m s t left h = record {
  k = 0;
  fits = omega arith;
  same = λ i l. absurd (omega arith);
  ends =
      update-ne (update m s (m t)) (s + 1) 0 (s + 0) (λ e. absurd (omega arith))
      ∙ update-eq m s (m t) (s + 0) (omega arith)
      ∙ is_nul (m t) h;
  why = inr (ap m (omega arith) ∙ is_nul (m t) h);
  outside = λ x o.
      update-ne (update m s (m t)) (s + 1) 0 x (λ e. absurd (omega arith))
      ∙ update-ne m s (m t) x (λ e. absurd (omega arith));
}

on-SafeCopied :
    (m : Mem) (s t left : ℕ) (m' : Mem)
    → m t ≢ 0
    → (s + suc (suc left) ≤ t) ⊎ (t + suc (suc left) ≤ s)
    → SafeCopied (update m s (m t)) (s + 1) (t + 1) (suc left) m'
    → SafeCopied m s t (suc (suc left)) m'
on-SafeCopied m s t left m' h apart c =
    let still : (j : ℕ) → j < suc left → update m s (m t) (t + 1 + j) ≡ m (t + (j + 1)) =
      λ j l. update-ne m s (m t) (t + 1 + j) (λ e. absurd (omega arith)) ∙ ap m (omega arith) in
    record {
      k = c.k + 1;
      fits = omega (arith, c.fits);
      same = λ i l. elim (ℕ_discrete i 0) [
        | yes at ↦ (
          ap m' (omega arith)
              ∙ c.outside s (inl (omega arith))
              ∙ update-eq m s (m t) s refl
              ∙ ap m (omega arith),
          λ e. h (ap m (omega arith) ∙ e),
        )
        | no off ↦
            let (byte, no_nul) = c.same (i - 1) (omega arith) in
            let here = still (i - 1) (omega (arith, c.fits)) in
            (
              ap m' (omega arith) ∙ byte ∙ here ∙ ap m (omega arith),
              λ e. no_nul (here ∙ ap m (omega arith) ∙ e),
            )
      ];
      ends = ap m' (omega arith) ∙ c.ends;
      why = elim c.why [
        | inl full ↦ inl (omega arith)
        | inr nul ↦ inr (sym (still c.k c.fits) ∙ nul)
      ];
      outside = λ x o.
          c.outside x (elim o [ inl lo ↦ inl (omega arith) | inr hi ↦ inr (omega arith) ])
          ∙ update-ne m s (m t) x (λ e. elim o [ inl lo ↦ omega arith | inr hi ↦ omega arith ]);
    }

rounds-SafeCopied :
    (m : Mem) (s t left : ℕ)
    → (s + suc left ≤ t) ⊎ (t + suc left ≤ s)
    → SafeCopied m s t (suc left) (safe_rounds m s t left)
unfolding safe_rounds
rounds-SafeCopied m s t zero apart = record {
  k = 0;
  fits = omega arith;
  same = λ i l. absurd (omega arith);
  ends = update-eq m s 0 (s + 0) (omega arith);
  why = inl (omega arith);
  outside = λ x o.
      update-ne m s 0 x
        (λ e. elim o [ inl lo ↦ absurd (omega arith) | inr hi ↦ absurd (omega arith) ]);
}
rounds-SafeCopied m s t (suc left) apart = elim (Bool-cases (m t == 0)) [
  | inl nul ↦ rw (rounds_nul m s t left nul) (nul-SafeCopied m s t left nul)
  | inr more ↦ rw (rounds_on m s t left more) (
      on-SafeCopied m s t left (safe_rounds (update m s (m t)) (s + 1) (t + 1) left)
        (is_other (m t) more) apart
        (rounds-SafeCopied (update m s (m t)) (s + 1) (t + 1) left (omega arith)))
]

-- safestrcpy() with room for `n` bytes, `n` above 0, on ranges of `n` bytes that do not overlap:
-- the destination ends with a NUL within the `n` bytes, the bytes before it are those of the source
-- and none is a NUL, it ends there because the room or the source does, and no byte outside the `n`
-- bytes changes.
pub safestrcpy-SafeCopied :
    (m : Mem) (s t n : ℕ)
    → 0 < n
    → (s + n ≤ t) ⊎ (t + n ≤ s)
    → SafeCopied m s t n (safestrcpy m s t n)
unfolding safestrcpy
safestrcpy-SafeCopied m s t zero l apart = absurd (omega arith)
safestrcpy-SafeCopied m s t (suc n) l apart = rounds-SafeCopied m s t n apart
