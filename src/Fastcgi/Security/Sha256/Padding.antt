-- ===== src/Fastcgi/Security/Sha256/Padding.antt =====
-- src/sapi/fastcgi/security.c: `sha256_final` pads what stands in the buffer.
use multi_agent.Common.{
  ℕ, ◌+◌, ◌-◌, ◌*◌, ◌%◌, ◌^◌, ◌≤◌, ◌<◌, ◌≡◌, sym, ap, ap₂, ◌∙◌, [], ◌∷◌, ◌++◌, Bytes, length,
  length-append, append_assoc, arith, Bool-cases, ltb, inl, inr, ltb→lt, false,
}
use multi_agent.Fastcgi.Security.Sha256.{
  Context, transform, zeros, zeros_to, big_endian, digest, final,
}
use multi_agent.Fastcgi.Security.Sha256.Blocks.{
  absorb, absorb-block, absorb_last, padding, length-zeros, length-big_endian, zeros-append,
}

regroup : (a z b : Bytes) → a ++ (0x80 ∷ (z ++ b)) ≡ ((a ++ (0x80 ∷ [])) ++ z) ++ b
regroup a z b = simp (append_assoc)

not-lt : (a b : ℕ) → ltb a b ≡ false → b ≤ a
not-lt a b h = ground arith

module _ (c : Context) (n : ℕ) (size : length c.buffer ≡ n % 64) where
  bits : Bytes
  bits = big_endian 8 (n * 8 % 2 ^ 64)

  -- One block, where the buffer leaves room for the length.
  padding_short :
      length c.buffer < 56 → c.buffer ++ padding n ≡ zeros_to 56 (c.buffer ++ (0x80 ∷ [])) ++ bits
  unfolding padding bits
  padding_short h =
      let count : (119 - n % 64) % 64 ≡ 56 - length (c.buffer ++ (0x80 ∷ [])) =
        omega (arith, length-append c.buffer (0x80 ∷ [])) in
      ap (λ k. c.buffer ++ (0x80 ∷ (zeros k ++ bits))) count ∙ regroup c.buffer _ bits

  padding_long :
      56 ≤ length c.buffer
      → c.buffer ++ padding n ≡ zeros_to 64 (c.buffer ++ (0x80 ∷ [])) ++ (zeros 56 ++ bits)
  unfolding padding bits
  padding_long h =
      let count : (119 - n % 64) % 64 ≡ 64 - length (c.buffer ++ (0x80 ∷ [])) + 56 =
        omega (arith, length-append c.buffer (0x80 ∷ [])) in
      ap (λ k. c.buffer ++ (0x80 ∷ (zeros k ++ bits))) count
      ∙ ap (λ z. c.buffer ++ (0x80 ∷ (z ++ bits)))
          (zeros-append (64 - length (c.buffer ++ (0x80 ∷ []))) 56)
      ∙ ap (λ z. c.buffer ++ (0x80 ∷ z))
          (append_assoc (zeros (64 - length (c.buffer ++ (0x80 ∷ [])))) (zeros 56) bits)
      ∙ regroup c.buffer (zeros (64 - length (c.buffer ++ (0x80 ∷ [])))) (zeros 56 ++ bits)

  length-zeros_to : (k : ℕ) (bytes : Bytes) → length bytes ≤ k → length (zeros_to k bytes) ≡ k
  length-zeros_to k bytes h =
      omega (arith, length-append bytes (zeros (k - length bytes)), length-zeros (k - length bytes))

  length-bits : length bits ≡ 8
  unfolding bits
  length-bits = length-big_endian 8 (n * 8 % 2 ^ 64)

  marked : Bytes
  marked = c.buffer ++ (0x80 ∷ [])

  length-marked : length marked ≡ n % 64 + 1
  unfolding marked
  length-marked = omega (arith, size, length-append c.buffer (0x80 ∷ []))

  absorb-short :
      (blocks : ℕ)
      → length c.buffer < 56
      → blocks * 64 ≡ length (c.buffer ++ padding n)
      → absorb blocks c.state (c.buffer ++ padding n)
        ≡ transform c.state (zeros_to 56 marked ++ bits)
  unfolding marked
  absorb-short blocks h fill =
      let whole : length (zeros_to 56 marked ++ bits) ≡ 64 = omega (
        arith,
        length-append (zeros_to 56 marked) bits,
        length-bits,
        length-marked,
        length-zeros_to 56 marked (omega (arith, length-marked)),
      ) in
      let one : blocks ≡ 1 = omega (arith, ap length (padding_short h)) in
      ap₂ (λ k x. absorb k c.state x) one (padding_short h) ∙ absorb_last c.state _ whole

  absorb-long :
      (blocks : ℕ)
      → 56 ≤ length c.buffer
      → blocks * 64 ≡ length (c.buffer ++ padding n)
      → absorb blocks c.state (c.buffer ++ padding n)
        ≡ transform (transform c.state (zeros_to 64 marked)) (zeros 56 ++ bits)
  unfolding marked
  absorb-long blocks h fill =
      let first : length (zeros_to 64 marked) ≡ 64 =
        length-zeros_to 64 marked (omega (arith, length-marked)) in
      let second : length (zeros 56 ++ bits) ≡ 64 =
        omega (arith, length-append (zeros 56) bits, length-bits, length-zeros 56) in
      let two : blocks ≡ 2 = omega (
        arith,
        ap length (padding_long h),
        length-append (zeros_to 64 marked) (zeros 56 ++ bits),
      ) in
      ap₂ (λ k x. absorb k c.state x) two (padding_long h)
      ∙ absorb-block 1 c.state (zeros_to 64 marked) (zeros 56 ++ bits) first
      ∙ absorb_last (transform c.state (zeros_to 64 marked)) (zeros 56 ++ bits) second

  -- What `sha256_final` gives is the hash of the buffer with the padding of a message of n bytes.
  pub final_lem :
      (blocks : ℕ)
      → (c.bitlen + length c.buffer * 8) % 2 ^ 64 ≡ n * 8 % 2 ^ 64
      → blocks * 64 ≡ length (c.buffer ++ padding n)
      → final c ≡ digest (absorb blocks c.state (c.buffer ++ padding n))
  unfolding final bits marked
  final_lem blocks counted fill = elim (Bool-cases (ltb 56 (length (c.buffer ++ (0x80 ∷ []))))) [
    | inl more ↦
        rw (more, counted)
          (ap digest
            (sym (absorb-long blocks (omega (arith, length-marked, ltb→lt 56 _ more)) fill)))
    | inr fits ↦
        rw (fits, counted)
          (ap digest
            (sym (absorb-short blocks (omega (arith, length-marked, not-lt 56 _ fits)) fill)))
  ]
