-- ===== src/Fastcgi/Security/Hmac.antt =====
-- src/sapi/fastcgi/security.c: HMAC-SHA256, and PBKDF2 over it.
pub mod Output
use Prim.Native.Nat.{bit_xor}
use multi_agent.Common.{
  ℕ, zero, suc, ◌+◌, ◌-◌, ◌%◌, ◌^◌, ◌==◌, Bool, true, false, [], ◌∷◌, ◌++◌, Bytes, length, map,
  take, ltb, if◌then◌else◌, ◌≡◌, ap, ap₂, ◌∙◌, refl, sym,
}
use multi_agent.Fastcgi.Security.Sha256.{sha256, init, update, final, zeros, big_endian, block_size}
use multi_agent.Fastcgi.Security.Sha256.Standard.{standard}
use multi_agent.Fastcgi.Security.Sha256.Streaming.{sha256-standard, update-append}

abbrev pub digest_size : ℕ
digest_size = 32

-- `k0`, filled with zeros to a block.
unfoldable pub block_key : Bytes → Bytes
block_key key =
    let short = if ltb block_size (length key) then sha256 key else key in
    short ++ zeros (block_size - length short)

abbrev pub pad_with : ℕ → Bytes → Bytes
pad_with x = map (λ k. bit_xor k x % 256)

unfoldable pub hmac_sha256 : Bytes → Bytes → Bytes
hmac_sha256 key text =
    let inner = final (update (update init (pad_with 0x36 (block_key key))) text) in
    final (update (update init (pad_with 0x5c (block_key key))) inner)

-- `t[j] ^= u[j]`
unfoldable pub xor_bytes : Bytes → Bytes → Bytes
xor_bytes (x ∷ t) (y ∷ u) = bit_xor x y % 256 ∷ xor_bytes t u
xor_bytes t u = t

-- The rounds behind the first one.
unfoldable pub iterate : ℕ → Bytes → Bytes → Bytes → Bytes
iterate zero password u t = t
iterate (suc n) password u t =
    let next = hmac_sha256 password u in iterate n password next (xor_bytes t next)

-- The loop over the blocks of the output, with the bytes that are left; each round writes one.
unfoldable pub derive : ℕ → Bytes → Bytes → ℕ → ℕ → ℕ → Bytes
derive zero password salt iterations index left = []
derive (suc fuel) password salt iterations index left = elim (left == 0) [
  | true ↦ []
  | false ↦
      let u = hmac_sha256 password (salt ++ big_endian 4 index) in
      take left (iterate (iterations - 1) password u u)
      ++ derive fuel password salt iterations ((index + 1) % 2 ^ 32) (left - digest_size)
]

unfoldable pub pbkdf2_sha256 : Bytes → Bytes → ℕ → ℕ → Bytes
pbkdf2_sha256 password salt iterations out_len = derive out_len password salt iterations 1 out_len

-- The key of a block in RFC 2104.
abbrev pub standard_key : Bytes → Bytes
standard_key key =
    let short = if ltb block_size (length key) then standard key else key in
    short ++ zeros (block_size - length short)

block_key-standard : (key : Bytes) → block_key key ≡ standard_key key
unfolding block_key
block_key-standard key = rw (sha256-standard key) refl

-- A hash that is fed two texts.
sha256_two : (a b : Bytes) → final (update (update init a) b) ≡ standard (a ++ b)
unfolding sha256
sha256_two a b = ap final (sym (update-append init a b)) ∙ sha256-standard (a ++ b)

-- the code of a text under a key of any length is that of RFC 2104: the hash of the outer key and the hash of the inner key and the text.
pub hmac_sha256-standard :
    (key text : Bytes)
    → hmac_sha256 key text
      ≡ standard
          (pad_with 0x5c (standard_key key) ++ standard (pad_with 0x36 (standard_key key) ++ text))
unfolding hmac_sha256
hmac_sha256-standard key text =
    sha256_two (pad_with 0x5c (block_key key)) _
    ∙ ap₂ (λ x y. standard (pad_with 0x5c x ++ y)) (block_key-standard key)
        (sha256_two (pad_with 0x36 (block_key key)) text
          ∙ ap (λ x. standard (pad_with 0x36 x ++ text)) (block_key-standard key))
