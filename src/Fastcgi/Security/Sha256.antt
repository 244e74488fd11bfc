-- ===== src/Fastcgi/Security/Sha256.antt =====
-- src/sapi/fastcgi/security.c: SHA-256, as the server feeds it byte by byte.
--
-- A uint32_t is a number below 2^32, and a byte one below 256. The buffer of a context is the list of
-- its first `datalen` bytes, since what stands behind them is overwritten before it is read.
pub mod Blocks
pub mod Padding
pub mod Standard
pub mod Streaming
use Prim.Native.Nat.{bit_and, bit_or, bit_xor}
use multi_agent.Common.{
  ℕ, zero, suc, ◌+◌, ◌-◌, ◌*◌, ◌/◌, ◌%◌, ◌^◌, List, [], ◌∷◌, ◌++◌, Bytes, length, get_elem?, Option,
  none, some, ltb, ◌==◌, if◌then◌else◌,
}

abbrev pub block_size : ℕ
block_size = 64

unfoldable pub k256 : List ℕ
k256 =
    0x428a2f98 ∷ 0x71374491 ∷ 0xb5c0fbcf ∷ 0xe9b5dba5 ∷ 0x3956c25b ∷ 0x59f111f1 ∷ 0x923f82a4
    ∷ 0xab1c5ed5 ∷ 0xd807aa98 ∷ 0x12835b01 ∷ 0x243185be ∷ 0x550c7dc3 ∷ 0x72be5d74 ∷ 0x80deb1fe
    ∷ 0x9bdc06a7 ∷ 0xc19bf174 ∷ 0xe49b69c1 ∷ 0xefbe4786 ∷ 0x0fc19dc6 ∷ 0x240ca1cc ∷ 0x2de92c6f
    ∷ 0x4a7484aa ∷ 0x5cb0a9dc ∷ 0x76f988da ∷ 0x983e5152 ∷ 0xa831c66d ∷ 0xb00327c8 ∷ 0xbf597fc7
    ∷ 0xc6e00bf3 ∷ 0xd5a79147 ∷ 0x06ca6351 ∷ 0x14292967 ∷ 0x27b70a85 ∷ 0x2e1b2138 ∷ 0x4d2c6dfc
    ∷ 0x53380d13 ∷ 0x650a7354 ∷ 0x766a0abb ∷ 0x81c2c92e ∷ 0x92722c85 ∷ 0xa2bfe8a1 ∷ 0xa81a664b
    ∷ 0xc24b8b70 ∷ 0xc76c51a3 ∷ 0xd192e819 ∷ 0xd6990624 ∷ 0xf40e3585 ∷ 0x106aa070 ∷ 0x19a4c116
    ∷ 0x1e376c08 ∷ 0x2748774c ∷ 0x34b0bcb5 ∷ 0x391c0cb3 ∷ 0x4ed8aa4a ∷ 0x5b9cca4f ∷ 0x682e6ff3
    ∷ 0x748f82ee ∷ 0x78a5636f ∷ 0x84c87814 ∷ 0x8cc70208 ∷ 0x90befffa ∷ 0xa4506ceb ∷ 0xbef9a3f7
    ∷ 0xc67178f2 ∷ []

-- The eight words of the state.
pub record Words : Type 0 where
  pub a : ℕ
  pub b : ℕ
  pub c : ℕ
  pub d : ℕ
  pub e : ℕ
  pub f : ℕ
  pub g : ℕ
  pub h : ℕ

abbrev pub add32 : ℕ → ℕ → ℕ
add32 x y = (x + y) % 2 ^ 32

unfoldable pub rotr32 : ℕ → ℕ → ℕ
rotr32 x n = bit_or (x / 2 ^ n) (x * 2 ^ (32 - n) % 2 ^ 32)

-- `~x`
abbrev pub not32 : ℕ → ℕ
not32 x = 2 ^ 32 - 1 - x

-- The words that four bytes each stand for, the first byte highest.
unfoldable pub words_of : Bytes → List ℕ
words_of (p ∷ q ∷ r ∷ s ∷ rest) =
    bit_or (bit_or (bit_or (p * 2 ^ 24) (q * 2 ^ 16)) (r * 2 ^ 8)) s ∷ words_of rest
words_of _ = []

-- `m[i]`, for an index in range.
abbrev pub word_at : List ℕ → ℕ → ℕ
word_at m i = elim (get_elem? m i) [ none ↦ 0 | some w ↦ w ]

-- The next word of the schedule, behind at least 16 words.
unfoldable pub next_word : List ℕ → ℕ
unfolding rotr32
next_word m =
    let i = length m in
    let x = word_at m (i - 15) in
    let y = word_at m (i - 2) in
    let s0 = bit_xor (bit_xor (rotr32 x 7) (rotr32 x 18)) (x / 2 ^ 3) in
    let s1 = bit_xor (bit_xor (rotr32 y 17) (rotr32 y 19)) (y / 2 ^ 10) in
    (word_at m (i - 16) + s0 + word_at m (i - 7) + s1) % 2 ^ 32

unfoldable pub extend : ℕ → List ℕ → List ℕ
unfolding next_word
extend zero m = m
extend (suc n) m = extend n (m ++ (next_word m ∷ []))

-- One of the 64 rounds, with its constant and its word.
unfoldable pub round : Words → ℕ → ℕ → Words
unfolding rotr32
round v k m =
    let s1 = bit_xor (bit_xor (rotr32 v.e 6) (rotr32 v.e 11)) (rotr32 v.e 25) in
    let ch = bit_xor (bit_and v.e v.f) (bit_and (not32 v.e) v.g) in
    let t1 = (v.h + s1 + ch + k + m) % 2 ^ 32 in
    let s0 = bit_xor (bit_xor (rotr32 v.a 2) (rotr32 v.a 13)) (rotr32 v.a 22) in
    let maj = bit_xor (bit_xor (bit_and v.a v.b) (bit_and v.a v.c)) (bit_and v.b v.c) in
    let t2 = add32 s0 maj in
    record {
      a = add32 t1 t2;
      b = v.a;
      c = v.b;
      d = v.c;
      e = add32 v.d t1;
      f = v.e;
      g = v.f;
      h = v.g;
    }

unfoldable pub rounds : Words → List ℕ → List ℕ → Words
unfolding round
rounds v (k ∷ ks) (m ∷ ms) = rounds (round v k m) ks ms
rounds v _ _ = v

unfoldable pub transform : Words → Bytes → Words
unfolding rounds words_of extend k256
transform s block =
    let v = rounds s k256 (extend 48 (words_of block)) in
    record {
      a = add32 s.a v.a;
      b = add32 s.b v.b;
      c = add32 s.c v.c;
      d = add32 s.d v.d;
      e = add32 s.e v.e;
      f = add32 s.f v.f;
      g = add32 s.g v.g;
      h = add32 s.h v.h;
    }

pub record Context : Type 0 where
  pub state : Words
  pub bitlen : ℕ
  pub buffer : Bytes

unfoldable pub first_state : Words
first_state = record {
  a = 0x6a09e667;
  b = 0xbb67ae85;
  c = 0x3c6ef372;
  d = 0xa54ff53a;
  e = 0x510e527f;
  f = 0x9b05688c;
  g = 0x1f83d9ab;
  h = 0x5be0cd19;
}

unfoldable pub init : Context
init = record { state = first_state; bitlen = 0; buffer = [] }

-- One byte.
unfoldable pub feed : Context → ℕ → Context
feed ctx x =
    let full = ctx.buffer ++ (x ∷ []) in
    if length full == block_size
    then record {
      state = transform ctx.state full;
      bitlen = (ctx.bitlen + block_size * 8) % 2 ^ 64;
      buffer = [];
    }
    else record ctx { buffer = full }

unfoldable pub update : Context → Bytes → Context
unfolding feed
update ctx [] = ctx
update ctx (x ∷ xs) = update (feed ctx x) xs

-- The bytes of x, n of them, the first one highest.
unfoldable pub big_endian : ℕ → ℕ → Bytes
big_endian zero x = []
big_endian (suc n) x = x / 2 ^ (n * 8) % 256 ∷ big_endian n x

unfoldable pub zeros : ℕ → Bytes
zeros zero = []
zeros (suc n) = 0 ∷ zeros n

-- Zeros up to n bytes.
abbrev pub zeros_to : ℕ → Bytes → Bytes
zeros_to n bytes = bytes ++ zeros (n - length bytes)

unfoldable pub digest : Words → Bytes
unfolding big_endian
digest s =
    big_endian 4 s.a
    ++ (big_endian 4 s.b
        ++ (big_endian 4 s.c
            ++ (big_endian 4 s.d
                ++ (big_endian 4 s.e
                    ++ (big_endian 4 s.f ++ (big_endian 4 s.g ++ big_endian 4 s.h))))))

unfoldable pub final : Context → Bytes
unfolding zeros
final ctx =
    let marked = ctx.buffer ++ (0x80 ∷ []) in
    let more = ltb 56 (length marked) in
    let state = if more then transform ctx.state (zeros_to 64 marked) else ctx.state in
    let rest = zeros_to 56 (if more then [] else marked) in
    let bits = (ctx.bitlen + length ctx.buffer * 8) % 2 ^ 64 in
    digest (transform state (rest ++ big_endian 8 bits))

-- The three calls, as they are made on one message.
unfoldable pub sha256 : Bytes → Bytes
sha256 message = final (update init message)
