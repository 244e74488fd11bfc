-- ===== src/Fastcgi/Security/Hex.antt =====
-- src/sapi/fastcgi/security.c: bytes in hexadecimal.
use Prim.Native.Nat.{bit_and, bit_or}
use multi_agent.Common.{
  ℕ, ◌+◌, ◌-◌, ◌*◌, ◌/◌, ◌%◌, ◌<◌, ◌&&◌, Option, none, some, [], ◌∷◌, Bytes, length, leb, ◌==◌,
  ==_iff, if◌then◌else◌, ◌≡◌, refl, ap, ◌∙◌, arith, bit_and-mask, bit_or_nibbles,
}
use native.Mathlib.Nat.{mod-eq_of_lt}
use multi_agent.Util.Id.{hex_digit}
use multi_agent.Util.Id.Injective.{AllBytes}

unfoldable pub hex_encode : Bytes → Bytes
hex_encode [] = []
hex_encode (x ∷ xs) = hex_digit (x / 16) ∷ hex_digit (bit_and x 0x0f) ∷ hex_encode xs

-- `none` for -1
unfoldable pub hex_value : ℕ → Option ℕ
hex_value c =
    if leb b'0' c && leb c b'9'
    then some (c - b'0')
    else if leb b'a' c && leb c b'f'
    then some (c - b'a' + 10)
    else if leb b'A' c && leb c b'F'
    then some (c - b'A' + 10)
    else none

-- The loop, for a text of an even length.
unfoldable pub hex_pairs : Bytes → Option Bytes
hex_pairs (p ∷ q ∷ rest) =
    let more = hex_pairs rest in
    elim (hex_value p) [
      | none ↦ none
      | some hi ↦ elim (hex_value q) [
        | none ↦ none
        | some lo ↦ elim more [ none ↦ none | some xs ↦ some (bit_or (hi * 16) lo % 256 ∷ xs) ]
      ]
    ]
hex_pairs _ = some []

-- `none` for -EINVAL
unfoldable pub hex_decode : Bytes → ℕ → Option Bytes
hex_decode hex out_len = if length hex == out_len * 2 then hex_pairs hex else none

hex_value-digit : (k : ℕ) → k < 16 → hex_value (hex_digit k) ≡ some k
unfolding hex_value hex_digit
hex_value-digit k h = ground arith

pub low_nibble : (x : ℕ) → bit_and x 0x0f ≡ x % 16
low_nibble x = bit_and-mask x 4

pub length-hex_encode : (xs : Bytes) → length (hex_encode xs) ≡ length xs * 2
unfolding hex_encode
length-hex_encode [] = refl
length-hex_encode (x ∷ xs) = omega (arith, length-hex_encode xs)

hex_encode-cons :
    (x : ℕ) (xs : Bytes)
    → hex_encode (x ∷ xs) ≡ hex_digit (x / 16) ∷ hex_digit (x % 16) ∷ hex_encode xs
unfolding hex_encode
hex_encode-cons x xs = ap (λ k. hex_digit (x / 16) ∷ hex_digit k ∷ hex_encode xs) (low_nibble x)

hex_pairs-cons :
    (p q hi lo : ℕ) (rest xs : Bytes)
    → hex_value p ≡ some hi
    → hex_value q ≡ some lo
    → hex_pairs rest ≡ some xs
    → hex_pairs (p ∷ q ∷ rest) ≡ some (bit_or (hi * 16) lo % 256 ∷ xs)
unfolding hex_pairs
hex_pairs-cons p q hi lo rest xs a b c = rw (hex_pairs, a, b, c) refl

pub hex_pairs-encode : (xs : Bytes) → AllBytes xs → hex_pairs (hex_encode xs) ≡ some xs
unfolding hex_pairs hex_encode
hex_pairs-encode [] h = refl
hex_pairs-encode (x ∷ xs) h =
    let byte : bit_or (x / 16 * 16) (x % 16) % 256 ≡ x =
      ap (λ y. y % 256) (bit_or_nibbles x h.0) ∙ mod-eq_of_lt h.0 in
    ap hex_pairs (hex_encode-cons x xs)
    ∙ hex_pairs-cons (hex_digit (x / 16)) (hex_digit (x % 16)) (x / 16) (x % 16) (hex_encode xs) xs
        (hex_value-digit (x / 16) (omega (arith, h.0))) (hex_value-digit (x % 16) (omega arith))
        (hex_pairs-encode xs h.1)
    ∙ ap (λ y. some (y ∷ xs)) byte

pub hex_decode-encode :
    (xs : Bytes) → AllBytes xs → hex_decode (hex_encode xs) (length xs) ≡ some xs
unfolding hex_decode
hex_decode-encode xs h =
    rw ((==_iff (length (hex_encode xs)) (length xs * 2)).1 (length-hex_encode xs))
      (hex_pairs-encode xs h)
