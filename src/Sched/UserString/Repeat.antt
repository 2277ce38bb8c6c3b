-- ===== src/Sched/UserString/Repeat.antt =====
-- The repeated string instructions of memmove (sched/lib/string.c), in bytes and in words.
use sistemas_operativos_fiub.Common.{
  ℕ, zero, suc, ◌+◌, ◌-◌, ◌*◌, ◌^◌, ◌≤◌, ◌<◌, ◌≡◌, ◌⊎◌, refl, ap, ◌∙◌, true, false, ltb, ◌==◌,
  Bool-cases, if_split, inl, inr, arith,
}
use sistemas_operativos_fiub.Sched.Kernel.{add32, poner, sub32}
use sistemas_operativos_fiub.Sched.UserString.{Bytes, movsb, movsl, rep_down, rep_up}

-- A store elsewhere, and at the address itself.
stored_other : (mem : Bytes) (d x j : ℕ) → (d == j) ≡ false → poner mem d x j ≡ mem j
stored_other mem d x j h = rw h refl

stored_here : (mem : Bytes) (d x j : ℕ) → (d == j) ≡ true → poner mem d x j ≡ x
stored_here mem d x j h = rw h refl

-- The block at dst holds what the block at src held, and every other byte is as it was.
pub record Copied (before after : Bytes) (dst src n : ℕ) : Type 0 where
  pub inside : (i : ℕ) → i < n → after (dst + i) ≡ before (src + i)
  pub outside : (a : ℕ) → ((a < dst) ⊎ (dst + n ≤ a)) → after a ≡ before a

-- The bytes of that many steps.
unfoldable pub bytes_of : ℕ → ℕ → ℕ
bytes_of w zero = 0
bytes_of w (suc k) = bytes_of w k + w

pub bytes_of-words : (k : ℕ) → bytes_of 4 k ≡ k * 4
unfolding bytes_of
bytes_of-words zero = refl
bytes_of-words (suc k) = omega (arith, bytes_of-words k)

pub bytes_of-bytes : (k : ℕ) → bytes_of 1 k ≡ k
unfolding bytes_of
bytes_of-bytes zero = refl
bytes_of-bytes (suc k) = omega (arith, bytes_of-bytes k)

-- One step copies w bytes, as they were before it.
pub record IsStep (w : ℕ) (step : Bytes → ℕ → ℕ → Bytes) : Type 0 where
  pub narrow : w ≤ 4
  pub copies :
      (mem : Bytes) (d s : ℕ) → d + w < 2 ^ 32 → s + w < 2 ^ 32 → Copied mem (step mem d s) d s w

pub movsb-IsStep : IsStep 1 movsb
unfolding movsb
movsb-IsStep = record {
  narrow = omega arith;
  copies = λ mem d s hd hs. record {
    inside = λ i lt.
        let here : (d == d + i) ≡ true = ground arith in
        let from : s ≡ s + i = omega arith in stored_here mem d (mem s) (d + i) here ∙ ap mem from;
    outside = λ a out. stored_other mem d (mem s) a (ground arith);
  };
}

movsl_inside :
    (mem : Bytes) (d s i : ℕ)
    → d + 4 < 2 ^ 32
    → s + 4 < 2 ^ 32
    → i < 4
    → movsl mem d s (d + i) ≡ mem (s + i)
unfolding movsl
movsl_inside mem d s i hd hs lt =
    let d1 : add32 d 1 ≡ d + 1 = omega arith in
    let d2 : add32 d 2 ≡ d + 2 = omega arith in
    let d3 : add32 d 3 ≡ d + 3 = omega arith in
    let s1 : add32 s 1 ≡ s + 1 = omega arith in
    let s2 : add32 s 2 ≡ s + 2 = omega arith in
    let s3 : add32 s 3 ≡ s + 3 = omega arith in
    rw (d1, d2, d3, s1, s2, s3)
      (if_split (λ x. x ≡ mem (s + i)) (d + 3 == d + i) _ _ (λ e. ap mem (ground arith))
        (λ n3.
          if_split (λ x. x ≡ mem (s + i)) (d + 2 == d + i) _ _ (λ e. ap mem (ground arith))
            (λ n2.
              if_split (λ x. x ≡ mem (s + i)) (d + 1 == d + i) _ _ (λ e. ap mem (ground arith))
                (λ n1.
                  if_split (λ x. x ≡ mem (s + i)) (d == d + i) _ _ (λ e. ap mem (ground arith))
                    (λ n0. absurd (ground arith))))))

movsl_outside :
    (mem : Bytes) (d s a : ℕ) → d + 4 < 2 ^ 32 → ((a < d) ⊎ (d + 4 ≤ a)) → movsl mem d s a ≡ mem a
unfolding movsl
movsl_outside mem d s a hd out =
    let d1 : (add32 d 1 == a) ≡ false = ground arith in
    let d2 : (add32 d 2 == a) ≡ false = ground arith in
    let d3 : (add32 d 3 == a) ≡ false = ground arith in
    let d0 : (d == a) ≡ false = ground arith in rw (d3, d2, d1, d0) refl

pub movsl-IsStep : IsStep 4 movsl
movsl-IsStep = record {
  narrow = omega arith;
  copies = λ mem d s hd hs. record {
    inside = λ i lt. movsl_inside mem d s i hd hs lt;
    outside = λ a out. movsl_outside mem d s a hd out;
  };
}

module _ (w : ℕ) (step : Bytes → ℕ → ℕ → Bytes) (h : IsStep w step) where
  rep_up-outside :
      (k : ℕ) (mem : Bytes) (d s a : ℕ)
      → d + bytes_of w k < 2 ^ 32
      → s + bytes_of w k < 2 ^ 32
      → ((a < d) ⊎ (d + bytes_of w k ≤ a))
      → rep_up step w mem d s k a ≡ mem a
  unfolding rep_up bytes_of
  rep_up-outside zero mem d s a hd hs out = refl
  rep_up-outside (suc k) mem d s a hd hs out =
      let next_d : add32 d w ≡ d + w = omega arith in
      let next_s : add32 s w ≡ s + w = omega arith in
      rw (next_d, next_s)
        (rep_up-outside k (step mem d s) (d + w) (s + w) a (omega arith) (omega arith)
          (ground arith))
      ∙ (h.copies mem d s (omega arith) (omega arith)).outside a (ground arith)

  -- No byte is read after it was written.
  rep_up-inside :
      (k : ℕ) (mem : Bytes) (d s i : ℕ)
      → d + bytes_of w k < 2 ^ 32
      → s + bytes_of w k < 2 ^ 32
      → ((d ≤ s) ⊎ (s + bytes_of w k ≤ d))
      → i < bytes_of w k
      → rep_up step w mem d s k (d + i) ≡ mem (s + i)
  unfolding rep_up bytes_of
  rep_up-inside zero mem d s i hd hs apart lt = absurd (omega arith)
  rep_up-inside (suc k) mem d s i hd hs apart lt =
      let next_d : add32 d w ≡ d + w = omega arith in
      let next_s : add32 s w ≡ s + w = omega arith in
      let now = h.copies mem d s (omega arith) (omega arith) in
      rw (next_d, next_s)
        (elim (Bool-cases (ltb i w)) [
          | inl first ↦
              rep_up-outside k (step mem d s) (d + w) (s + w) (d + i) (omega arith) (omega arith)
                (inl (ground arith))
              ∙ now.inside i (ground arith)
          | inr later ↦
              let place : d + i ≡ d + w + (i - w) = ground arith in
              let from : s + w + (i - w) ≡ s + i = ground arith in
              ap (rep_up step w (step mem d s) (d + w) (s + w) k) place
              ∙ rep_up-inside k (step mem d s) (d + w) (s + w) (i - w) (omega arith) (omega arith)
                  (ground arith) (ground arith)
              ∙ ap (step mem d s) from
              ∙ now.outside (s + i) (ground arith)
        ])

  rep_down-outside :
      (k : ℕ) (mem : Bytes) (d s a : ℕ)
      → d + bytes_of w k + w < 2 ^ 32
      → s + bytes_of w k + w < 2 ^ 32
      → ((a < d) ⊎ (d + bytes_of w k + w ≤ a))
      → rep_down step w mem (d + bytes_of w k) (s + bytes_of w k) (suc k) a ≡ mem a
  unfolding rep_down bytes_of
  rep_down-outside zero mem d s a hd hs out =
      (h.copies mem (d + 0) (s + 0) (omega arith) (omega arith)).outside a (ground arith)
  rep_down-outside (suc k) mem d s a hd hs out =
      let small = h.narrow in
      let prev_d : sub32 (d + (bytes_of w k + w)) w ≡ d + bytes_of w k = omega arith in
      let prev_s : sub32 (s + (bytes_of w k + w)) w ≡ s + bytes_of w k = omega arith in
      rw (prev_d, prev_s)
        (rep_down-outside k (step mem (d + (bytes_of w k + w)) (s + (bytes_of w k + w))) d s a
          (omega arith) (omega arith) (ground arith))
      ∙ (h.copies mem (d + (bytes_of w k + w)) (s + (bytes_of w k + w)) (omega arith)
            (omega arith)).outside
          a (ground arith)

  rep_down-inside :
      (k : ℕ) (mem : Bytes) (d s i : ℕ)
      → d + bytes_of w k + w < 2 ^ 32
      → s + bytes_of w k + w < 2 ^ 32
      → s ≤ d
      → i < bytes_of w k + w
      → rep_down step w mem (d + bytes_of w k) (s + bytes_of w k) (suc k) (d + i) ≡ mem (s + i)
  unfolding rep_down bytes_of
  rep_down-inside zero mem d s i hd hs below lt =
      let at : d + 0 ≡ d = omega arith in
      let from : s + 0 ≡ s = omega arith in
      rw (at, from) ((h.copies mem d s (omega arith) (omega arith)).inside i (omega arith))
  rep_down-inside (suc k) mem d s i hd hs below lt =
      let small = h.narrow in
      let n : ℕ = bytes_of w k + w in
      let prev_d : sub32 (d + n) w ≡ d + bytes_of w k = omega arith in
      let prev_s : sub32 (s + n) w ≡ s + bytes_of w k = omega arith in
      let mem' : Bytes = step mem (d + n) (s + n) in
      let now = h.copies mem (d + n) (s + n) (omega arith) (omega arith) in
      rw (prev_d, prev_s)
        (elim (Bool-cases (ltb i n)) [
          | inl before ↦
              rep_down-inside k mem' d s i (omega arith) (omega arith) below (ground arith)
              ∙ now.outside (s + i) (inl (ground arith))
          | inr last ↦
              let place : d + i ≡ d + n + (i - n) = ground arith in
              let from : s + n + (i - n) ≡ s + i = ground arith in
              rep_down-outside k mem' d s (d + i) (omega arith) (omega arith) (inr (ground arith))
              ∙ ap mem' place
              ∙ now.inside (i - n) (ground arith)
              ∙ ap mem from
        ])

  pub rep_up-Copied :
      (k n : ℕ) (mem : Bytes) (d s : ℕ)
      → n ≡ bytes_of w k
      → d + n < 2 ^ 32
      → s + n < 2 ^ 32
      → ((d ≤ s) ⊎ (s + n ≤ d))
      → Copied mem (rep_up step w mem d s k) d s n
  rep_up-Copied k n mem d s e hd hs apart = record {
    inside =
        λ i lt. rep_up-inside k mem d s i (omega arith) (omega arith) (ground arith) (omega arith);
    outside = λ a out. rep_up-outside k mem d s a (omega arith) (omega arith) (ground arith);
  }

  pub rep_down-Copied :
      (k n : ℕ) (mem : Bytes) (d s : ℕ)
      → n ≡ bytes_of w k
      → d + n < 2 ^ 32
      → s + n < 2 ^ 32
      → s ≤ d
      → Copied mem (rep_down step w mem (sub32 (d + n) w) (sub32 (s + n) w) k) d s n
  unfolding rep_down bytes_of
  rep_down-Copied zero n mem d s e hd hs below = record {
    inside = λ i lt. absurd (omega arith);
    outside = λ a out. refl;
  }
  rep_down-Copied (suc k) n mem d s e hd hs below =
      let small = h.narrow in
      let end_d : sub32 (d + n) w ≡ d + bytes_of w k = omega arith in
      let end_s : sub32 (s + n) w ≡ s + bytes_of w k = omega arith in
      rw (end_d, end_s)
        (record {
          inside =
              λ i lt. rep_down-inside k mem d s i (omega arith) (omega arith) below (omega arith);
          outside =
              λ a out. rep_down-outside k mem d s a (omega arith) (omega arith) (ground arith);
        })
