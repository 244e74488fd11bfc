-- ===== src/Fastcgi/Security/Hmac/Output.antt =====
-- src/sapi/fastcgi/security.c: the sizes of hashes and of derived keys, and that they hold bytes.
use multi_agent.Common.{
  ℕ, zero, suc, ◌-◌, [], ◌∷◌, ◌++◌, Bytes, length, take, take_all, append-nil, ◌≡◌, ap, ◌∙◌, refl,
  sym, arith, subst,
}
use multi_agent.Util.Id.Injective.{AllBytes}
use multi_agent.Fastcgi.Security.Sha256.{Words, final, digest, big_endian}
use multi_agent.Fastcgi.Security.Hmac.{hmac_sha256, iterate, xor_bytes, derive, pbkdf2_sha256}

AllBytes-append : (a b : Bytes) → AllBytes a → AllBytes b → AllBytes (a ++ b)
AllBytes-append [] b h k = k
AllBytes-append (x ∷ a) b h k = (h.0, AllBytes-append a b h.1 k)

AllBytes-big_endian : (n x : ℕ) → AllBytes (big_endian n x)
unfolding big_endian
AllBytes-big_endian zero x = tt
AllBytes-big_endian (suc n) x = (omega arith, AllBytes-big_endian n x)

-- Bytes, of the length of a hash.
abbrev pub IsHash : Bytes → Type 0
IsHash bytes = AllBytes bytes × (length bytes ≡ 32)

IsHash-digest : (s : Words) → IsHash (digest s)
unfolding digest
IsHash-digest s = (omega arith, refl)

IsHash-hmac : (key text : Bytes) → IsHash (hmac_sha256 key text)
unfolding hmac_sha256 final
IsHash-hmac key text = IsHash-digest _

AllBytes-xor_bytes : (t u : Bytes) → AllBytes t → AllBytes (xor_bytes t u)
unfolding xor_bytes
AllBytes-xor_bytes [] u h = tt
AllBytes-xor_bytes (x ∷ t) [] h = h
AllBytes-xor_bytes (x ∷ t) (y ∷ u) h = (omega arith, AllBytes-xor_bytes t u h.1)

length-xor_bytes : (t u : Bytes) → length (xor_bytes t u) ≡ length t
unfolding xor_bytes
length-xor_bytes [] u = refl
length-xor_bytes (x ∷ t) [] = refl
length-xor_bytes (x ∷ t) (y ∷ u) = ap suc (length-xor_bytes t u)

IsHash-iterate : (n : ℕ) (password u t : Bytes) → IsHash t → IsHash (iterate n password u t)
unfolding iterate
IsHash-iterate zero password u t h = h
IsHash-iterate (suc n) password u t h =
    IsHash-iterate n password (hmac_sha256 password u) (xor_bytes t (hmac_sha256 password u)) (
      AllBytes-xor_bytes t (hmac_sha256 password u) h.0,
      length-xor_bytes t (hmac_sha256 password u) ∙ h.1,
    )

derive_done :
    (n index : ℕ) (password salt : Bytes) (iterations : ℕ)
    → derive n password salt iterations index 0 ≡ []
unfolding derive
derive_done zero index password salt iterations = refl
derive_done (suc n) index password salt iterations = refl

-- A key of 32 bytes is the one block of RFC 2898.
pub pbkdf2_sha256_block :
    (password salt : Bytes) (iterations : ℕ)
    → pbkdf2_sha256 password salt iterations 32 ≡ (
        let u = hmac_sha256 password (salt ++ big_endian 4 1) in
        iterate (iterations - 1) password u u)
unfolding pbkdf2_sha256 derive
pbkdf2_sha256_block password salt iterations =
    let u = hmac_sha256 password (salt ++ big_endian 4 1) in
    let whole =
      IsHash-iterate (iterations - 1) password u u
        (IsHash-hmac password (salt ++ big_endian 4 1)) in
    let out = iterate (iterations - 1) password u u in
    ap (λ r. take 32 out ++ r) (derive_done 31 2 password salt iterations)
    ∙ append-nil (take 32 out)
    ∙ take_all 32 out (omega (arith, whole.1))

pub IsHash-pbkdf2_sha256 :
    (password salt : Bytes) (iterations : ℕ) → IsHash (pbkdf2_sha256 password salt iterations 32)
IsHash-pbkdf2_sha256 password salt iterations =
    let u = hmac_sha256 password (salt ++ big_endian 4 1) in
    subst IsHash (sym (pbkdf2_sha256_block password salt iterations))
      (IsHash-iterate (iterations - 1) password u u (IsHash-hmac password (salt ++ big_endian 4 1)))
