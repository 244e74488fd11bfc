-- ===== src/Util/Base64/RoundTrip.antt =====
-- src/util/base64.c: what is encoded is decoded again.
use multi_agent.Common.{
  ℕ, suc, ◌+◌, ◌-◌, ◌*◌, ◌/◌, ◌%◌, ◌≤◌, ◌<◌, Bool, true, some, [], ◌∷◌, ◌++◌, append-nil, ◌≡◌, refl,
  ap, ap₂, ◌∙◌, ◌≢◌, arith, Bytes, length, take, ◌==◌, if◌then◌else◌, take_all,
}
use multi_agent.Util.Id.Injective.{AllBytes}
use multi_agent.Util.Base64.{
  value, letter, pad, encode, decode, decode_group, decode_groups, padding, from_end, group_bytes,
  is_nil, value_or_pad,
}

value-letter : (k : ℕ) → k < 64 → (value (letter k) ≡ some k) × (letter k ≢ pad)
unfolding value letter
value-letter k h = ground arith

value_or_pad-letter : (k : ℕ) → k < 64 → value_or_pad (letter k) ≡ some k
unfolding value_or_pad
value_or_pad-letter k h = ground (arith, value-letter k h)

value_or_pad-pad : value_or_pad pad ≡ some 0
unfolding value_or_pad
value_or_pad-pad = refl

decode_group-letters :
    (final : Bool) (a b c d : ℕ)
    → a < 64
    → b < 64
    → c < 64
    → d < 64
    → decode_group final (letter a) (letter b) (letter c) (letter d) ≡ some (group_bytes a b c d)
unfolding decode_group
decode_group-letters final a b c d ha hb hc hd = ground (
  arith,
  value-letter a ha,
  value-letter b hb,
  value-letter c hc,
  value-letter d hd,
  value_or_pad-letter c hc,
  value_or_pad-letter d hd,
)

-- One or two characters of padding, in the last group.
decode_group-pad :
    (a b c : ℕ)
    → a < 64
    → b < 64
    → c < 64
    → (decode_group true (letter a) (letter b) (letter c) pad ≡ some (group_bytes a b c 0))
      × (decode_group true (letter a) (letter b) pad pad ≡ some (group_bytes a b 0 0))
unfolding decode_group
decode_group-pad a b c ha hb hc = ground (
  arith,
  value-letter a ha,
  value-letter b hb,
  value-letter c hc,
  value_or_pad-letter c hc,
  value_or_pad-pad,
)

-- The four values of a group give its three bytes back.
group_bytes-split :
    (a b c : ℕ)
    → a < 256
    → b < 256
    → c < 256
    → let v = a * 0x10000 + b * 0x100 + c in
      group_bytes (v / 0x40000 % 64) (v / 0x1000 % 64) (v / 0x40 % 64) (v % 64) ≡ a ∷ b ∷ c ∷ []
unfolding group_bytes
group_bytes-split a b c ha hb hc =
    ap₂ ◌∷◌ (omega arith) (ap₂ ◌∷◌ (omega arith) (ap₂ ◌∷◌ (omega arith) refl))

decode_groups-cons :
    (left p q r s : ℕ) (rest : Bytes) {bytes more : Bytes}
    → decode_group (is_nil rest) p q r s ≡ some bytes
    → decode_groups (left - 3) rest ≡ some more
    → decode_groups left (p ∷ q ∷ r ∷ s ∷ rest) ≡ some (take left bytes ++ more)
unfolding decode_groups
decode_groups-cons left p q r s rest h k = ground arith

decode_groups-nil : (left : ℕ) → decode_groups left [] ≡ some []
unfolding decode_groups
decode_groups-nil left = refl

-- The bytes of a last group of one or two bytes, cut to what the text stands for.
group_bytes-one :
    (a c d : ℕ)
    → a < 256
    → take 1 (group_bytes (a * 0x10000 / 0x40000 % 64) (a * 0x10000 / 0x1000 % 64) c d) ≡ a ∷ []
unfolding group_bytes
group_bytes-one a c d h = ap₂ ◌∷◌ (omega arith) refl

group_bytes-two :
    (a b d : ℕ)
    → a < 256
    → b < 256
    → let v = a * 0x10000 + b * 0x100 in
      take 2 (group_bytes (v / 0x40000 % 64) (v / 0x1000 % 64) (v / 0x40 % 64) d) ≡ a ∷ b ∷ []
unfolding group_bytes
group_bytes-two a b d h k = ap₂ ◌∷◌ (omega arith) (ap₂ ◌∷◌ (omega arith) refl)

decode_groups-encode :
    (bytes : Bytes) → AllBytes bytes → decode_groups (length bytes) (encode bytes) ≡ some bytes
unfolding encode is_nil
decode_groups-encode [] h = decode_groups-nil 0
decode_groups-encode (a ∷ []) h =
    decode_groups-cons 1 _ _ _ _ []
      ((decode_group-pad (a * 0x10000 / 0x40000 % 64) (a * 0x10000 / 0x1000 % 64) 0 (omega arith)
        (omega arith) (omega arith)).1)
      (decode_groups-nil (1 - 3))
    ∙ ap some (rw (append-nil, group_bytes-one a 0 0 h.0))
decode_groups-encode (a ∷ b ∷ []) h =
    let v = a * 0x10000 + b * 0x100 in
    decode_groups-cons 2 _ _ _ _ []
      ((decode_group-pad (v / 0x40000 % 64) (v / 0x1000 % 64) (v / 0x40 % 64) (omega arith)
        (omega arith) (omega arith)).0)
      (decode_groups-nil (2 - 3))
    ∙ ap some (rw (append-nil, group_bytes-two a b 0 h.0 h.1.0))
decode_groups-encode (a ∷ b ∷ c ∷ rest) h =
    decode_groups-cons (length (a ∷ b ∷ c ∷ rest)) _ _ _ _ (encode rest) {more = rest}
      (decode_group-letters (is_nil (encode rest)) _ _ _ _ (omega arith) (omega arith) (omega arith)
          (omega arith)
        ∙ ap some (group_bytes-split a b c h.0 h.1.0 h.1.1.0))
      (rw three_less (decode_groups-encode rest h.1.1.1))
    ∙ ap (λ t. some (a ∷ b ∷ c ∷ (t ++ rest))) (take_all (length rest) [] (omega arith))
  where
    three_less : suc (suc (suc (length rest))) - 3 ≡ length rest
    three_less = omega arith

from_end_skip : (k c : ℕ) (cs : Bytes) → k ≤ length cs → from_end k (c ∷ cs) ≡ from_end k cs
unfolding from_end
from_end_skip k c cs h = ground arith

padding_skip :
    (p q r s : ℕ) (cs : Bytes) → 2 ≤ length cs → padding (p ∷ q ∷ r ∷ s ∷ cs) ≡ padding cs
unfolding padding
padding_skip p q r s cs h =
    ap₂ (λ x y. (if x == pad then 1 else 0) + (if y == pad then 1 else 0)) (skip 1 (omega arith))
      (skip 2 h)
  where
    skip : (k : ℕ) → k ≤ length cs → from_end k (p ∷ q ∷ r ∷ s ∷ cs) ≡ from_end k cs
    skip k h =
        from_end_skip k p (q ∷ r ∷ s ∷ cs) (omega arith)
        ∙ from_end_skip k q (r ∷ s ∷ cs) (omega arith)
        ∙ from_end_skip k r (s ∷ cs) (omega arith)
        ∙ from_end_skip k s cs h

padding-letters :
    (p q a b : ℕ)
    → a < 64
    → b < 64
    → (padding (p ∷ q ∷ letter a ∷ letter b ∷ []) ≡ 0)
      × (padding (p ∷ q ∷ letter a ∷ pad ∷ []) ≡ 1)
      × (padding (p ∷ q ∷ pad ∷ pad ∷ []) ≡ 2)
unfolding padding
padding-letters p q a b ha hb = ground (arith, value-letter a ha, value-letter b hb)

-- Four characters for each three bytes or part of them.
pub length-encode : (bytes : Bytes) → length (encode bytes) ≡ (length bytes + 2) / 3 * 4
unfolding encode
length-encode [] = refl
length-encode (a ∷ []) = refl
length-encode (a ∷ b ∷ []) = refl
length-encode (a ∷ b ∷ c ∷ rest) = omega (arith, length-encode rest)

padding-encode :
    (b : ℕ) (bs : Bytes)
    → padding (encode (b ∷ bs)) + length (b ∷ bs) ≡ (length (b ∷ bs) + 2) / 3 * 3
unfolding encode
padding-encode a [] = omega (
  arith,
  (padding-letters (letter (a * 0x10000 / 0x40000 % 64)) (letter (a * 0x10000 / 0x1000 % 64)) 0 0
      (omega arith) (omega arith)).2,
)
padding-encode a (b ∷ []) =
    let v = a * 0x10000 + b * 0x100 in
    omega (
      arith,
      (padding-letters (letter (v / 0x40000 % 64)) (letter (v / 0x1000 % 64)) (v / 0x40 % 64) 0
          (omega arith) (omega arith)).1,
    )
padding-encode a (b ∷ c ∷ []) =
    let v = a * 0x10000 + b * 0x100 + c in
    omega (
      arith,
      (padding-letters (letter (v / 0x40000 % 64)) (letter (v / 0x1000 % 64)) (v / 0x40 % 64)
          (v % 64) (omega arith) (omega arith)).0,
    )
padding-encode a (b ∷ c ∷ d ∷ rest) =
    let v = a * 0x10000 + b * 0x100 + c in
    omega (
      arith,
      padding_skip (letter (v / 0x40000 % 64)) (letter (v / 0x1000 % 64)) (letter (v / 0x40 % 64))
          (letter (v % 64)) (encode (d ∷ rest)) (omega (arith, length-encode (d ∷ rest))),
      padding-encode d rest,
    )

-- The decoder gives back every block of bytes that is not empty. (It refuses the empty text.)
pub decode-encode :
    (b : ℕ) (bs : Bytes) → AllBytes (b ∷ bs) → decode (encode (b ∷ bs)) ≡ some (b ∷ bs)
unfolding decode
decode-encode b bs h =
    let size : length (encode (b ∷ bs)) / 4 * 3 - padding (encode (b ∷ bs)) ≡ length (b ∷ bs) =
      omega (arith, length-encode (b ∷ bs), padding-encode b bs) in
    rw (size, decode_groups-encode (b ∷ bs) h) (ground (arith, length-encode (b ∷ bs)))
