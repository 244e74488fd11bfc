-- ===== src/Fastcgi/Security/Sha256/Standard.antt =====
-- src/sapi/fastcgi/security.c: the hash as FIPS 180-4 states it, without the code's constants, rounds
-- and compression, against sha256_transform.
use Prim.Native.Nat.{bit_and, bit_or, bit_xor}
use multi_agent.Common.{
  ℕ, zero, suc, ◌+◌, ◌-◌, ◌*◌, ◌/◌, ◌%◌, ◌^◌, Bool, List, [], ◌∷◌, ◌++◌, map, Bytes, length, take,
  drop, leb, if◌then◌else◌, ◌≡◌, refl, ap, ap₂, ◌∙◌, arith,
}
use multi_agent.Fastcgi.Security.Sha256.{
  Words, word_at, rotr32, words_of, next_word, extend, round, rounds, transform, k256, first_state,
  big_endian, digest,
}
use multi_agent.Fastcgi.Security.Sha256.Blocks.{absorb, padded}

-- The largest number of n bits above those of `high` that fits.
abbrev largest : (ℕ → Bool) → ℕ → ℕ → ℕ
largest fits zero high = high
largest fits (suc n) high =
    let next = high + 2 ^ n in largest fits n (if fits next then next else high)

-- The first 32 bits of the fraction of the cube root and of the square root of a number.
abbrev cube_root_bits : ℕ → ℕ
cube_root_bits p = largest (λ x. leb (x * x * x) (p * 2 ^ 96)) 35 0 % 2 ^ 32

abbrev square_root_bits : ℕ → ℕ
square_root_bits p = largest (λ x. leb (x * x) (p * 2 ^ 64)) 35 0 % 2 ^ 32

abbrev primes : List ℕ
primes =
    2 ∷ 3 ∷ 5 ∷ 7 ∷ 11 ∷ 13 ∷ 17 ∷ 19 ∷ 23 ∷ 29 ∷ 31 ∷ 37 ∷ 41 ∷ 43 ∷ 47 ∷ 53 ∷ 59 ∷ 61 ∷ 67 ∷ 71
    ∷ 73 ∷ 79 ∷ 83 ∷ 89 ∷ 97 ∷ 101 ∷ 103 ∷ 107 ∷ 109 ∷ 113 ∷ 127 ∷ 131 ∷ 137 ∷ 139 ∷ 149 ∷ 151 ∷ 157
    ∷ 163 ∷ 167 ∷ 173 ∷ 179 ∷ 181 ∷ 191 ∷ 193 ∷ 197 ∷ 199 ∷ 211 ∷ 223 ∷ 227 ∷ 229 ∷ 233 ∷ 239 ∷ 241
    ∷ 251 ∷ 257 ∷ 263 ∷ 269 ∷ 271 ∷ 277 ∷ 281 ∷ 283 ∷ 293 ∷ 307 ∷ 311 ∷ []

unfoldable constants : List ℕ
constants = map cube_root_bits primes

-- The hash value before the first block.
unfoldable initial : Words
initial = record {
  a = square_root_bits 2;
  b = square_root_bits 3;
  c = square_root_bits 5;
  d = square_root_bits 7;
  e = square_root_bits 11;
  f = square_root_bits 13;
  g = square_root_bits 17;
  h = square_root_bits 19;
}

-- The functions on words: a rotation and a shift to the right by n, and those of section 4.1.2.
abbrev rotr : ℕ → ℕ → ℕ
rotr n x = bit_or (x / 2 ^ n) (x * 2 ^ (32 - n) % 2 ^ 32)

abbrev shr : ℕ → ℕ → ℕ
shr n x = x / 2 ^ n

abbrev xor3 : ℕ → ℕ → ℕ → ℕ
xor3 x y z = bit_xor (bit_xor x y) z

abbrev choose : ℕ → ℕ → ℕ → ℕ
choose x y z = bit_xor (bit_and x y) (bit_and (2 ^ 32 - 1 - x) z)

abbrev majority : ℕ → ℕ → ℕ → ℕ
majority x y z = xor3 (bit_and x y) (bit_and x z) (bit_and y z)

abbrev big_sigma0 : ℕ → ℕ
big_sigma0 x = xor3 (rotr 2 x) (rotr 13 x) (rotr 22 x)

abbrev big_sigma1 : ℕ → ℕ
big_sigma1 x = xor3 (rotr 6 x) (rotr 11 x) (rotr 25 x)

abbrev sigma0 : ℕ → ℕ
sigma0 x = xor3 (rotr 7 x) (rotr 18 x) (shr 3 x)

abbrev sigma1 : ℕ → ℕ
sigma1 x = xor3 (rotr 17 x) (rotr 19 x) (shr 10 x)

-- The words of a block, four bytes each, the first byte highest.
unfoldable block_words : Bytes → List ℕ
block_words (p ∷ q ∷ r ∷ s ∷ rest) =
    bit_or (bit_or (bit_or (p * 2 ^ 24) (q * 2 ^ 16)) (r * 2 ^ 8)) s ∷ block_words rest
block_words _ = []

-- n more words of a schedule: word t is made of the words t - 16, t - 15, t - 7 and t - 2.
unfoldable schedule : ℕ → List ℕ → List ℕ
schedule zero w = w
schedule (suc n) w =
    let t = length w in
    schedule n (
      w
      ++ ((word_at w (t - 16)
              + sigma0 (word_at w (t - 15))
              + word_at w (t - 7)
              + sigma1 (word_at w (t - 2)))
            % 2 ^ 32
          ∷ []))

unfoldable step : Words → ℕ → ℕ → Words
step v k w =
    let t1 = (v.h + big_sigma1 v.e + choose v.e v.f v.g + k + w) % 2 ^ 32 in
    let t2 = (big_sigma0 v.a + majority v.a v.b v.c) % 2 ^ 32 in
    record {
      a = (t1 + t2) % 2 ^ 32;
      b = v.a;
      c = v.b;
      d = v.c;
      e = (v.d + t1) % 2 ^ 32;
      f = v.e;
      g = v.f;
      h = v.g;
    }

unfoldable steps : Words → List ℕ → List ℕ → Words
steps v (k ∷ ks) (w ∷ ws) = steps (step v k w) ks ws
steps v _ _ = v

-- The hash value behind a block.
unfoldable compress : Words → Bytes → Words
compress s block =
    let v = steps s constants (schedule 48 (block_words block)) in
    record {
      a = (s.a + v.a) % 2 ^ 32;
      b = (s.b + v.b) % 2 ^ 32;
      c = (s.c + v.c) % 2 ^ 32;
      d = (s.d + v.d) % 2 ^ 32;
      e = (s.e + v.e) % 2 ^ 32;
      f = (s.f + v.f) % 2 ^ 32;
      g = (s.g + v.g) % 2 ^ 32;
      h = (s.h + v.h) % 2 ^ 32;
    }

unfoldable compress_all : ℕ → Words → Bytes → Words
compress_all zero s bytes = s
compress_all (suc n) s bytes = compress_all n (compress s (take 64 bytes)) (drop 64 bytes)

abbrev word_bytes : ℕ → Bytes
word_bytes x = x / 2 ^ 24 % 256 ∷ x / 2 ^ 16 % 256 ∷ x / 2 ^ 8 % 256 ∷ x % 256 ∷ []

unfoldable output : Words → Bytes
output s =
    word_bytes s.a
    ++ word_bytes s.b
    ++ word_bytes s.c
    ++ word_bytes s.d
    ++ word_bytes s.e
    ++ word_bytes s.f
    ++ word_bytes s.g
    ++ word_bytes s.h

unfoldable pub standard : Bytes → Bytes
unfolding constants initial block_words schedule step steps compress compress_all output
standard m = output (compress_all (length (padded m) / 64) initial (padded m))

k256-constants : k256 ≡ constants
unfolding k256 constants
k256-constants = refl

first_state-initial : first_state ≡ initial
unfolding first_state initial
first_state-initial = refl

words_of-block_words : (block : Bytes) → words_of block ≡ block_words block
unfolding words_of block_words
words_of-block_words (p ∷ q ∷ r ∷ s ∷ rest) =
    ap (◌∷◌ (bit_or (bit_or (bit_or (p * 2 ^ 24) (q * 2 ^ 16)) (r * 2 ^ 8)) s))
      (words_of-block_words rest)
words_of-block_words [] = refl
words_of-block_words (p ∷ []) = refl
words_of-block_words (p ∷ q ∷ []) = refl
words_of-block_words (p ∷ q ∷ r ∷ []) = refl

extend-schedule : (n : ℕ) (w : List ℕ) → extend n w ≡ schedule n w
unfolding extend schedule next_word rotr32
extend-schedule zero w = refl
extend-schedule (suc n) w = extend-schedule n (w ++ (next_word w ∷ []))

round-step : (v : Words) (k w : ℕ) → round v k w ≡ step v k w
unfolding round step rotr32
round-step v k w = refl

rounds-steps : (v : Words) (ks ws : List ℕ) → rounds v ks ws ≡ steps v ks ws
unfolding rounds steps
rounds-steps v [] ws = refl
rounds-steps v (k ∷ ks) [] = refl
rounds-steps v (k ∷ ks) (w ∷ ws) =
    rounds-steps (round v k w) ks ws ∙ ap (λ x. steps x ks ws) (round-step v k w)

-- What is added to the hash value.
transform-compress : (s : Words) (block : Bytes) → transform s block ≡ compress s block
unfolding transform compress
transform-compress s block = ap added (
    rounds-steps s k256 (extend 48 (words_of block))
    ∙ ap₂ (steps s) k256-constants
        (extend-schedule 48 (words_of block) ∙ ap (schedule 48) (words_of-block_words block)))
  where
    added : Words → Words
    added v = record {
      a = (s.a + v.a) % 2 ^ 32;
      b = (s.b + v.b) % 2 ^ 32;
      c = (s.c + v.c) % 2 ^ 32;
      d = (s.d + v.d) % 2 ^ 32;
      e = (s.e + v.e) % 2 ^ 32;
      f = (s.f + v.f) % 2 ^ 32;
      g = (s.g + v.g) % 2 ^ 32;
      h = (s.h + v.h) % 2 ^ 32;
    }

absorb-compress_all :
    (n : ℕ) (s : Words) (bytes : Bytes) → absorb n s bytes ≡ compress_all n s bytes
unfolding absorb compress_all
absorb-compress_all zero s bytes = refl
absorb-compress_all (suc n) s bytes =
    absorb-compress_all n (transform s (take 64 bytes)) (drop 64 bytes)
    ∙ ap (λ x. compress_all n x (drop 64 bytes)) (transform-compress s (take 64 bytes))

big_endian-word_bytes : (x : ℕ) → big_endian 4 x ≡ word_bytes x
unfolding big_endian
big_endian-word_bytes x =
    ap (λ y. x / 2 ^ 24 % 256 ∷ x / 2 ^ 16 % 256 ∷ x / 2 ^ 8 % 256 ∷ y % 256 ∷ []) (omega arith)

digest-output : (s : Words) → digest s ≡ output s
unfolding digest output
digest-output s =
    ap
      (λ (bytes : ℕ → Bytes).
        bytes s.a
        ++ (bytes s.b
            ++ (bytes s.c
                ++ (bytes s.d ++ (bytes s.e ++ (bytes s.f ++ (bytes s.g ++ bytes s.h)))))))
      (λ i x. big_endian-word_bytes x i)

-- The hash by the code's compression is that by the compression of the standard.
pub absorb-standard :
    (m : Bytes) → digest (absorb (length (padded m) / 64) first_state (padded m)) ≡ standard m
unfolding standard
absorb-standard m =
    digest-output (absorb (length (padded m) / 64) first_state (padded m))
    ∙ ap output (
        absorb-compress_all (length (padded m) / 64) first_state (padded m)
        ∙ ap (λ s. compress_all (length (padded m) / 64) s (padded m)) first_state-initial)
