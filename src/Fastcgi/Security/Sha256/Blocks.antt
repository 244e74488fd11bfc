-- ===== src/Fastcgi/Security/Sha256/Blocks.antt =====
-- src/sapi/fastcgi/security.c: the padding of a message, as FIPS 180-4 defines it, and the compression
-- of its blocks by sha256_transform.
use multi_agent.Common.{
  ℕ, zero, suc, ◌+◌, ◌-◌, ◌*◌, ◌/◌, ◌%◌, ◌^◌, ◌≡◌, refl, sym, ap, ap₂, ◌∙◌, ◌∷◌, ◌++◌, Bytes,
  length, length-append, take, drop, take-append, take_all, drop-append, arith,
}
use multi_agent.Fastcgi.Security.Sha256.{Words, transform, zeros, big_endian}

-- The blocks of 64 bytes go through the state one after the other.
unfoldable pub absorb : ℕ → Words → Bytes → Words
absorb zero s bytes = s
absorb (suc n) s bytes = absorb n (transform s (take 64 bytes)) (drop 64 bytes)

-- What stands behind a message of n bytes: a one bit, zeros, and its length in bits.
unfoldable pub padding : ℕ → Bytes
padding n = 0x80 ∷ (zeros ((119 - n % 64) % 64) ++ big_endian 8 (n * 8 % 2 ^ 64))

unfoldable pub padded : Bytes → Bytes
padded m = m ++ padding (length m)

pub length-zeros : (n : ℕ) → length (zeros n) ≡ n
unfolding zeros
length-zeros zero = refl
length-zeros (suc n) = ap suc (length-zeros n)

pub length-big_endian : (n x : ℕ) → length (big_endian n x) ≡ n
unfolding big_endian
length-big_endian zero x = refl
length-big_endian (suc n) x = ap suc (length-big_endian n x)

pub zeros-append : (m n : ℕ) → zeros (m + n) ≡ zeros m ++ zeros n
unfolding zeros
zeros-append zero n = let e : 0 + n ≡ n = omega arith in ap zeros e
zeros-append (suc m) n =
    let e : suc m + n ≡ suc (m + n) = omega arith in ap zeros e ∙ ap (◌∷◌ 0) (zeros-append m n)

pub length-padding : (n : ℕ) → length (padding n) ≡ 9 + (119 - n % 64) % 64
unfolding padding
length-padding n = omega (
  arith,
  length-append (zeros ((119 - n % 64) % 64)) (big_endian 8 (n * 8 % 2 ^ 64)),
  length-zeros ((119 - n % 64) % 64),
  length-big_endian 8 (n * 8 % 2 ^ 64),
)

-- The padded message fills its blocks.
pub length-padded : (m : Bytes) → length (padded m) / 64 * 64 ≡ length (padded m)
unfolding padded
length-padded m = omega (arith, length-append m (padding (length m)), length-padding (length m))

pub absorb-block :
    (n : ℕ) (s : Words) (block rest : Bytes)
    → length block ≡ 64
    → absorb (suc n) s (block ++ rest) ≡ absorb n (transform s block) rest
unfolding absorb
absorb-block n s block rest size =
    ap₂ (λ x y. absorb n (transform s x) y)
      (ap (λ k. take k (block ++ rest)) (sym size) ∙ take-append block rest)
      (ap (λ k. drop k (block ++ rest)) (sym size) ∙ drop-append block rest)

pub absorb_last :
    (s : Words) (block : Bytes) → length block ≡ 64 → absorb 1 s block ≡ transform s block
unfolding absorb
absorb_last s block size = ap (transform s) (take_all 64 block (omega arith))
