-- ===== src/Util/Base64.antt =====
-- src/util/base64.c: base64 of a block of bytes.
--
-- A byte is below 256, and a group is put together of numbers that share no bits, so `|` is `+`.
-- Allocation succeeds; NULL is `none`.
pub mod RoundTrip
use multi_agent.Common.{
  ℕ, zero, suc, ◌+◌, ◌-◌, ◌*◌, ◌/◌, ◌%◌, Bool, true, false, not, ◌&&◌, ◌||◌, Option, none, some,
  List, [], ◌∷◌, ◌++◌, Bytes, length, leb, ltb, ◌==◌, if◌then◌else◌, take,
}

abbrev pub within : ℕ → ℕ → ℕ → Bool
within lo hi c = leb lo c && leb c hi

-- `base64_value`, `none` for -1
unfoldable pub value : ℕ → Option ℕ
value c =
    if within b'A' b'Z' c
    then some (c - b'A')
    else if within b'a' b'z' c
    then some (c - b'a' + 26)
    else if within b'0' b'9' c
    then some (c - b'0' + 52)
    else if c == b'+'
    then some 62
    else if c == b'/'
    then some 63
    else none

-- B64_ALPHABET[k]
unfoldable pub letter : ℕ → ℕ
letter k =
    if ltb k 26
    then b'A' + k
    else if ltb k 52
    then b'a' + (k - 26)
    else if ltb k 62
    then b'0' + (k - 52)
    else if k == 62
    then b'+'
    else b'/'

abbrev pub pad : ℕ
pad = b'='

unfoldable pub encode : Bytes → Bytes
encode [] = []
encode (a ∷ []) =
    let v = a * 0x10000 in letter (v / 0x40000 % 64) ∷ letter (v / 0x1000 % 64) ∷ pad ∷ pad ∷ []
encode (a ∷ b ∷ []) =
    let v = a * 0x10000 + b * 0x100 in
    letter (v / 0x40000 % 64) ∷ letter (v / 0x1000 % 64) ∷ letter (v / 0x40 % 64) ∷ pad ∷ []
encode (a ∷ b ∷ c ∷ rest) =
    let v = a * 0x10000 + b * 0x100 + c in
    letter (v / 0x40000 % 64)
    ∷ letter (v / 0x1000 % 64)
    ∷ letter (v / 0x40 % 64)
    ∷ letter (v % 64)
    ∷ encode rest

-- `text[len - k]`, for a text of at least k bytes.
unfoldable pub from_end : ℕ → Bytes → ℕ
from_end k [] = 0
from_end k (c ∷ cs) = if length (c ∷ cs) == k then c else from_end k cs

unfoldable pub padding : Bytes → ℕ
unfolding from_end
padding text = (if from_end 1 text == pad then 1 else 0) + (if from_end 2 text == pad then 1 else 0)

-- The value of a character that may be padding.
unfoldable pub value_or_pad : ℕ → Option ℕ
value_or_pad c = if c == pad then some 0 else value c

-- The bytes of one group of values, each converted to `unsigned char`.
unfoldable pub group_bytes : ℕ → ℕ → ℕ → ℕ → Bytes
group_bytes a b c d = (a * 4 + b / 16) % 256 ∷ (b * 16 + c / 4) % 256 ∷ (c * 64 + d) % 256 ∷ []

unfoldable pub is_nil : Bytes → Bool
is_nil [] = true
is_nil (c ∷ cs) = false

-- One group: its bytes, or `none` where the code returns NULL; `final` is set for the last group.
unfoldable pub decode_group : Bool → ℕ → ℕ → ℕ → ℕ → Option Bytes
decode_group final p q r s = elim (value p) [
  | none ↦ none
  | some a ↦ elim (value q) [
    | none ↦ none
    | some b ↦ elim (value_or_pad r) [
      | none ↦ none
      | some c ↦ elim (value_or_pad s) [
        | none ↦ none
        | some d ↦
            if (not final && (r == pad || s == pad)) || (r == pad && not (s == pad))
            then none
            else some (group_bytes a b c d)
      ]
    ]
  ]
]

-- The loop, with the bytes that `out` still has room for.
unfoldable pub decode_groups : ℕ → Bytes → Option Bytes
unfolding is_nil
decode_groups left (p ∷ q ∷ r ∷ s ∷ rest) =
    let later = decode_groups (left - 3) rest in
    elim (decode_group (is_nil rest) p q r s) [
      | none ↦ none
      | some bytes ↦ elim later [ none ↦ none | some more ↦ some (take left bytes ++ more) ]
    ]
decode_groups left _ = some []

-- `base64_decode`; `*out_len` is the length of the bytes.
unfoldable pub decode : Bytes → Option Bytes
decode text =
    if length text == 0 || not (length text % 4 == 0)
    then none
    else decode_groups (length text / 4 * 3 - padding text) text
