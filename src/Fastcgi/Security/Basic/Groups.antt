-- ===== src/Fastcgi/Security/Basic/Groups.antt =====
-- src/sapi/fastcgi/security.c: the groups of base64 that src/util/base64.c writes are read back.
use Prim.Native.Nat.{bit_and, bit_or}
use multi_agent.Common.{
  ℕ, ◌+◌, ◌-◌, ◌*◌, ◌/◌, ◌%◌, ◌≤◌, ◌<◌, true, some, [], ◌∷◌, Bytes, length, ◌==◌, ==_iff, ◌≡◌, refl,
  sym, ap, ap₂, ◌∙◌, arith, holds_below, holds_below_lem, le→ltb,
}
use multi_agent.Util.Errno.{ok}
use multi_agent.Util.Id.Injective.{AllBytes}
use multi_agent.Util.Base64.{letter, encode, pad}
use multi_agent.Util.Base64.RoundTrip.{length-encode}
use multi_agent.Fastcgi.Security.Basic.{digit, b64_value, group_bytes, b64_groups, b64_decode}

-- The three bytes of four values below 64, checked value by value.
first_table :
    holds_below 4096 (λ x. bit_or (x / 64 * 4) (x % 64 / 16) % 256 == x / 64 * 4 + x % 64 / 16)
    ≡ true
unfolding holds_below
first_table = refl

second_table :
    holds_below 4096
      (λ x. bit_or (bit_and (x / 64) 15 * 16) (x % 64 / 4) % 256 == x / 64 % 16 * 16 + x % 64 / 4)
    ≡ true
unfolding holds_below
second_table = refl

third_table :
    holds_below 4096
      (λ x. bit_or (bit_and (x / 64) 3 * 64) (x % 64) % 256 == x / 64 % 4 * 64 + x % 64)
    ≡ true
unfolding holds_below
third_table = refl

b64_value-letter : (k : ℕ) → k < 64 → b64_value (letter k) ≡ some (digit k)
unfolding b64_value letter
b64_value-letter k h = ground arith

first_byte : (a b : ℕ) → a < 64 → b < 64 → bit_or (a * 4) (b / 16) % 256 ≡ a * 4 + b / 16
first_byte a b ha hb =
    let high : (a * 64 + b) / 64 ≡ a = omega arith in
    let low : (a * 64 + b) % 64 ≡ b = omega arith in
    ap₂ (λ p q. bit_or (p * 4) (q / 16) % 256) (sym high) (sym low)
    ∙ (==_iff _ _).0 (holds_below_lem 4096 _ (a * 64 + b) first_table (omega arith))
    ∙ ap₂ (λ p q. p * 4 + q / 16) high low

second_byte :
    (a b : ℕ) → a < 64 → b < 64 → bit_or (bit_and a 15 * 16) (b / 4) % 256 ≡ a % 16 * 16 + b / 4
second_byte a b ha hb =
    let high : (a * 64 + b) / 64 ≡ a = omega arith in
    let low : (a * 64 + b) % 64 ≡ b = omega arith in
    ap₂ (λ p q. bit_or (bit_and p 15 * 16) (q / 4) % 256) (sym high) (sym low)
    ∙ (==_iff _ _).0 (holds_below_lem 4096 _ (a * 64 + b) second_table (omega arith))
    ∙ ap₂ (λ p q. p % 16 * 16 + q / 4) high low

third_byte : (a b : ℕ) → a < 64 → b < 64 → bit_or (bit_and a 3 * 64) b % 256 ≡ a % 4 * 64 + b
third_byte a b ha hb =
    let high : (a * 64 + b) / 64 ≡ a = omega arith in
    let low : (a * 64 + b) % 64 ≡ b = omega arith in
    ap₂ (λ p q. bit_or (bit_and p 3 * 64) q % 256) (sym high) (sym low)
    ∙ (==_iff _ _).0 (holds_below_lem 4096 _ (a * 64 + b) third_table (omega arith))
    ∙ ap₂ (λ p q. p % 4 * 64 + q) high low

-- A group of four letters, and the two that end in padding.
b64_groups-letters :
    (room a b c d : ℕ) (rest more : Bytes)
    → a < 64
    → b < 64
    → c < 64
    → d < 64
    → 3 ≤ room
    → b64_groups (room - 3) rest ≡ ok more
    → b64_groups room (letter a ∷ letter b ∷ letter c ∷ letter d ∷ rest)
      ≡ ok ((a * 4 + b / 16) ∷ (b % 16 * 16 + c / 4) ∷ (c % 4 * 64 + d) ∷ more)
unfolding b64_groups group_bytes
b64_groups-letters room a b c d rest more ha hb hc hd fits later =
    rw
      (
        b64_value-letter a ha,
        b64_groups,
        b64_value-letter b hb,
        b64_value-letter c hc,
        b64_value-letter d hd,
        le→ltb room 3 fits,
        later,
        first_byte a b ha hb,
        second_byte b c hb hc,
        third_byte c d hc hd,
      )
      refl

b64_groups-pad :
    (room a b c : ℕ)
    → a < 64
    → b < 64
    → c < 64
    → 1 ≤ room
    → (2 ≤ room
        → b64_groups room (letter a ∷ letter b ∷ letter c ∷ pad ∷ [])
          ≡ ok ((a * 4 + b / 16) ∷ (b % 16 * 16 + c / 4) ∷ []))
      × (b64_groups room (letter a ∷ letter b ∷ pad ∷ pad ∷ []) ≡ ok ((a * 4 + b / 16) ∷ []))
unfolding b64_groups group_bytes
b64_groups-pad room a b c ha hb hc fits = (
  λ more.
      rw
        (
          b64_value-letter a ha,
          b64_groups,
          b64_value-letter b hb,
          b64_value-letter c hc,
          le→ltb room 2 more,
          first_byte a b ha hb,
          second_byte b c hb hc,
        )
        refl,
  rw
      (
        b64_value-letter a ha,
        b64_groups,
        b64_value-letter b hb,
        le→ltb room 1 (omega arith),
        first_byte a b ha hb,
      )
      refl,
)

-- Three bytes from the four values of a group.
three_bytes :
    (a b c : ℕ) (more : Bytes)
    → a < 256
    → b < 256
    → c < 256
    → let v = a * 0x10000 + b * 0x100 + c in
      ◌≡◌ {A = Bytes}
        ((v / 0x40000 % 64 * 4 + v / 0x1000 % 64 / 16)
          ∷ (v / 0x1000 % 64 % 16 * 16 + v / 0x40 % 64 / 4)
          ∷ (v / 0x40 % 64 % 4 * 64 + v % 64)
          ∷ more)
        (a ∷ b ∷ c ∷ more)
three_bytes a b c more ha hb hc =
    ap₂ ◌∷◌ (omega arith) (ap₂ ◌∷◌ (omega arith) (ap (λ x. x ∷ more) (omega arith)))

pub b64_groups-encode :
    (room : ℕ) (bytes : Bytes)
    → AllBytes bytes
    → length bytes ≤ room
    → b64_groups room (encode bytes) ≡ ok bytes
unfolding encode b64_groups
b64_groups-encode room [] h fits = refl
b64_groups-encode room (a ∷ []) h fits =
    let v = a * 0x10000 in
    (b64_groups-pad room (v / 0x40000 % 64) (v / 0x1000 % 64) 0 (omega arith) (omega arith)
      (omega arith) fits).1
    ∙ ap (λ x. ok (x ∷ [])) (omega (arith, h.0))
b64_groups-encode room (a ∷ b ∷ []) h fits =
    let v = a * 0x10000 + b * 0x100 in
    (b64_groups-pad room (v / 0x40000 % 64) (v / 0x1000 % 64) (v / 0x40 % 64) (omega arith)
        (omega arith) (omega arith) (omega arith)).0
      fits
    ∙ ap₂ (λ x y. ok (x ∷ y ∷ [])) (omega (arith, h.0)) (omega (arith, h.0, h.1.0))
b64_groups-encode room (a ∷ b ∷ c ∷ rest) h fits =
    let v = a * 0x10000 + b * 0x100 + c in
    b64_groups-letters room (v / 0x40000 % 64) (v / 0x1000 % 64) (v / 0x40 % 64) (v % 64)
      (encode rest) rest (omega arith) (omega arith) (omega arith) (omega arith) (omega arith)
      (b64_groups-encode (room - 3) rest h.1.1.1 (omega arith))
    ∙ ap ok (three_bytes a b c rest h.0 h.1.0 h.1.1.0)

pub b64_decode-encode :
    (room : ℕ) (bytes : Bytes)
    → AllBytes bytes
    → length bytes ≤ room
    → b64_decode (encode bytes) room ≡ ok bytes
unfolding b64_decode
b64_decode-encode room bytes h fits =
    let whole : length (encode bytes) % 4 ≡ 0 = omega (arith, length-encode bytes) in
    rw ((==_iff (length (encode bytes) % 4) 0).1 whole) (b64_groups-encode room bytes h fits)
