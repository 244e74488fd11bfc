-- ===== src/Fastcgi/Security/Sha256/Streaming.antt =====
-- src/sapi/fastcgi/security.c: feeding a message byte by byte computes the hash of its padded blocks.
use multi_agent.Common.{
  ℕ, suc, ◌+◌, ◌-◌, ◌*◌, ◌/◌, ◌%◌, ◌^◌, ◌<◌, ◌≡◌, refl, sym, ap, ap₂, ◌∙◌, [], ◌∷◌, ◌++◌, Bytes,
  length, length-append, append_assoc, append-nil, arith, Bool-cases, inl, inr, ◌==◌, ==_iff,
}
use native.Mathlib.Decide.{dec_lt}
use multi_agent.Fastcgi.Security.Sha256.{
  Context, init, transform, feed, update, digest, final, sha256, block_size,
}
use multi_agent.Fastcgi.Security.Sha256.Standard.{standard, absorb-standard}
use multi_agent.Fastcgi.Security.Sha256.Blocks.{
  absorb, absorb-block, padding, padded, length-padded,
}
use multi_agent.Fastcgi.Security.Sha256.Padding.{final_lem}

-- A message may be fed in two parts.
pub update-append : (c : Context) (a b : Bytes) → update c (a ++ b) ≡ update (update c a) b
unfolding update
update-append c [] b = refl
update-append c (x ∷ a) b = update-append (feed c x) a b

-- A context that waits for m more of n bytes.
record Waits (c : Context) (m n : ℕ) : Type 0 where
  pub room : length c.buffer < 64
  pub place : (length c.buffer + m) % 64 ≡ n % 64
  pub counted : (c.bitlen + (length c.buffer + m) * 8) % 2 ^ 64 ≡ n * 8 % 2 ^ 64

-- The context behind a full block.
abbrev emptied : Context → ℕ → Context
emptied c x = record {
  state = transform c.state (c.buffer ++ (x ∷ []));
  bitlen = (c.bitlen + block_size * 8) % 2 ^ 64;
  buffer = [];
}

feed_full : (c : Context) (x : ℕ) → length c.buffer + 1 ≡ 64 → feed c x ≡ emptied c x
unfolding feed
feed_full c x e =
    let full : length (c.buffer ++ (x ∷ [])) ≡ 64 =
      omega (arith, length-append c.buffer (x ∷ [])) in
    rw ((==_iff (length (c.buffer ++ (x ∷ []))) 64).1 full) refl

feed_more :
    (c : Context) (x : ℕ)
    → length c.buffer + 1 < 64
    → feed c x ≡ record c { buffer = c.buffer ++ (x ∷ []) }
unfolding feed
feed_more c x lt = elim (Bool-cases (length (c.buffer ++ (x ∷ [])) == block_size)) [
  | inr e ↦ rw e refl
  | inl e ↦
      let full : length (c.buffer ++ (x ∷ [])) ≡ 64 =
        (==_iff (length (c.buffer ++ (x ∷ []))) 64).0 e in
      absurd (omega (arith, length-append c.buffer (x ∷ [])))
]

regroup : (a : Bytes) (x : ℕ) (m p : Bytes) → (a ++ (x ∷ m)) ++ p ≡ ((a ++ (x ∷ [])) ++ m) ++ p
regroup a x m p = simp (append_assoc)

block_first : (a : Bytes) (x : ℕ) (m p : Bytes) → (a ++ (x ∷ m)) ++ p ≡ (a ++ (x ∷ [])) ++ (m ++ p)
block_first a x m p = simp (append_assoc)

update-final :
    (c : Context) (m : Bytes) (n blocks : ℕ)
    → Waits c (length m) n
    → blocks * 64 ≡ length ((c.buffer ++ m) ++ padding n)
    → final (update c m) ≡ digest (absorb blocks c.state ((c.buffer ++ m) ++ padding n))
unfolding update
update-final c [] n blocks w fill =
    let room = w.room in
    let place = w.place in
    let counted = w.counted in
    final_lem c n (omega arith) blocks (omega arith)
      (fill ∙ ap (λ b. length (b ++ padding n)) (append-nil c.buffer))
    ∙ ap (λ b. digest (absorb blocks c.state (b ++ padding n))) (sym (append-nil c.buffer))
update-final c (x ∷ m) n blocks w fill = elim (dec_lt (length c.buffer + 1) 64) [
  | yes lt ↦
      let room = w.room in
      let place = w.place in
      let counted = w.counted in
      let longer = length-append c.buffer (x ∷ []) in
      let rest : Waits (record c { buffer = c.buffer ++ (x ∷ []) }) (length m) n = record {
        room = omega arith;
        place = omega arith;
        counted = omega arith;
      } in
      ap (λ k. final (update k m)) (feed_more c x lt)
      ∙ update-final (record c { buffer = c.buffer ++ (x ∷ []) }) m n blocks rest
          (fill ∙ ap length (regroup c.buffer x m (padding n)))
      ∙ ap (λ b. digest (absorb blocks c.state b)) (sym (regroup c.buffer x m (padding n)))
  | no ge ↦
      let room = w.room in
      let place = w.place in
      let counted = w.counted in
      let full : length c.buffer + 1 ≡ 64 = omega arith in
      let size : length (c.buffer ++ (x ∷ [])) ≡ 64 =
        omega (arith, length-append c.buffer (x ∷ [])) in
      let rest : Waits (emptied c x) (length m) n = record {
        room = omega arith;
        place = omega arith;
        counted = omega arith;
      } in
      let split = block_first c.buffer x m (padding n) in
      let left : (blocks - 1) * 64 ≡ length (m ++ padding n) =
        omega (arith, ap length split, length-append (c.buffer ++ (x ∷ [])) (m ++ padding n)) in
      let some_left : blocks ≡ suc (blocks - 1) =
        omega (arith, ap length split, length-append (c.buffer ++ (x ∷ [])) (m ++ padding n)) in
      ap (λ k. final (update k m)) (feed_full c x full)
      ∙ update-final (emptied c x) m n (blocks - 1) rest left
      ∙ ap digest (
          sym (
            ap₂ (λ k b. absorb k c.state b) some_left split
            ∙ absorb-block (blocks - 1) c.state (c.buffer ++ (x ∷ [])) (m ++ padding n) size))
]

-- for a message of any length, the bytes that sha256_init, sha256_update and sha256_final give are its hash by FIPS 180-4: the message with its padding goes block by block through the compression of the standard, whose constants are the first 32 bits of the fractions of the cube roots of the first 64 primes, and which starts from those of the square roots of the first eight.
pub sha256-standard : (m : Bytes) → sha256 m ≡ standard m
unfolding sha256 init padded
sha256-standard m =
    update-final init m (length m) (length (padded m) / 64)
      (record { room = omega arith; place = omega arith; counted = omega arith }) (length-padded m)
    ∙ absorb-standard m
