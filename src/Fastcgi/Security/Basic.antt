-- ===== src/Fastcgi/Security/Basic.antt =====
-- src/sapi/fastcgi/security.c: the user and the password in a header of Basic credentials.
--
-- The value -2 of the padding is shifted and masked as an int of two's complement; only the low byte
-- of what comes of it is kept. `none` stands for the result 0. The sizes of the two buffers, which the code
-- casts to int, are taken to be no larger than INT_MAX.
pub mod Groups
pub mod RoundTrip
use Prim.Native.Nat.{bit_and, bit_or}
use multi_agent.Common.{
  ℕ, zero, suc, ◌+◌, ◌-◌, ◌*◌, ◌/◌, ◌%◌, Bool, true, false, ◌&&◌, ◌||◌, not, Option, none, some, [],
  ◌∷◌, ◌++◌, Bytes, codes, length, drop, leb, ltb, ◌==◌, if◌then◌else◌,
}
use multi_agent.Util.Errno.{einval, enospc, Result, ok, err}

pub data Value : Type 0 where
  digit : ℕ → Value
  fill : Value

-- `none` for -1, and `fill` for -2
unfoldable pub b64_value : ℕ → Option Value
b64_value c =
    if leb b'A' c && leb c b'Z'
    then some (digit (c - b'A'))
    else if leb b'a' c && leb c b'z'
    then some (digit (c - b'a' + 26))
    else if leb b'0' c && leb c b'9'
    then some (digit (c - b'0' + 52))
    else if c == b'+'
    then some (digit 62)
    else if c == b'/'
    then some (digit 63)
    else if c == b'='
    then some fill
    else none

-- The low bytes of `v << 2`, `v >> 4`, `(v & 15) << 4` and `(v & 3) << 6`; -2 >> 4 is -1.
abbrev pub left_2 : Value → ℕ
left_2 (digit n) = n * 4
left_2 fill = 0xf8

abbrev pub right_4 : Value → ℕ
right_4 (digit n) = n / 16
right_4 fill = 0xff

abbrev pub low_4 : Value → ℕ
low_4 (digit n) = bit_and n 15 * 16
low_4 fill = 0xe0

abbrev pub low_2 : Value → ℕ
low_2 (digit n) = bit_and n 3 * 64
low_2 fill = 0x80

-- The second and the third byte, where they are written.
abbrev pub second : Value → Value → Bytes
second v (digit n) = bit_or (low_4 v) (n / 4) % 256 ∷ []
second v fill = []

abbrev pub third : Value → Value → Bytes
third v (digit n) = bit_or (low_2 v) n % 256 ∷ []
third v fill = []

unfoldable pub group_bytes : Value → Value → Value → Value → Bytes
group_bytes p q r s = bit_or (left_2 p) (right_4 q) % 256 ∷ (second q r ++ third r s)

-- The loop, with the bytes that there is room for.
unfoldable pub b64_groups : ℕ → Bytes → Result Bytes
unfolding b64_value group_bytes
b64_groups room (p ∷ q ∷ r ∷ s ∷ rest) = elim (b64_value p) [
  | none ↦ err einval
  | some v0 ↦ elim (b64_value q) [
    | none ↦ err einval
    | some v1 ↦ elim (b64_value r) [
      | none ↦ err einval
      | some v2 ↦ elim (b64_value s) [
        | none ↦ err einval
        | some v3 ↦
            let bytes = group_bytes v0 v1 v2 v3 in
            let later = b64_groups (room - length bytes) rest in
            if ltb room (length bytes)
            then err enospc
            else elim later [ err e ↦ err e | ok more ↦ ok (bytes ++ more) ]
      ]
    ]
  ]
]
b64_groups room _ = ok []

unfoldable pub b64_decode : Bytes → ℕ → Result Bytes
b64_decode text out_cap = if not (length text % 4 == 0) then err einval else b64_groups out_cap text

-- `strncmp(text, prefix, strlen(prefix)) == 0`
abbrev pub has_prefix : Bytes → Bytes → Bool
has_prefix [] text = true
has_prefix (c ∷ prefix) [] = false
has_prefix (c ∷ prefix) (d ∷ text) = c == d && has_prefix prefix text

-- `strchr(decoded, ':')`: what stands before the colon and behind it, in the text that NUL ends.
unfoldable pub at_colon : Bytes → Option (Bytes × Bytes)
at_colon [] = none
at_colon (c ∷ cs) =
    let later = at_colon cs in
    if c == 0
    then none
    else (if c == b':'
        then some ([], cs)
        else elim later [ none ↦ none | some (user, rest) ↦ some (c ∷ user, rest) ])

unfoldable pub up_to_nul : Bytes → Bytes
up_to_nul [] = []
up_to_nul (c ∷ cs) = if c == 0 then [] else c ∷ up_to_nul cs

abbrev pub is_nil : Bytes → Bool
is_nil [] = true
is_nil (c ∷ cs) = false

-- The two copies and the last test.
unfoldable pub copied : Bytes → Bytes → ℕ → ℕ → Option (Bytes × Bytes)
copied user pass user_size pass_size =
    if leb user_size (length user) || leb pass_size (length pass)
    then none
    else (if is_nil user || is_nil pass then none else some (user, pass))

unfoldable pub basic_decode : Option Bytes → ℕ → ℕ → Option (Bytes × Bytes)
unfolding b64_decode at_colon up_to_nul copied
basic_decode none user_size pass_size = none
basic_decode (some auth_hdr) user_size pass_size =
    if not (has_prefix (codes "Basic ") auth_hdr)
    then none
    else elim (b64_decode (drop 6 auth_hdr) 511) [
      | err e ↦ none
      | ok decoded ↦ elim (at_colon decoded) [
        | none ↦ none
        | some (user, rest) ↦ copied user (up_to_nul rest) user_size pass_size
      ]
    ]
