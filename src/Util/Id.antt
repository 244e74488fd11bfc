-- ===== src/Util/Id.antt =====
-- src/util/id.c: identifiers made of a prefix and random bytes in hexadecimal.
-- The bytes read from /dev/urandom are an argument; `none` stands for a failed read.

pub mod Injective
use multi_agent.Common.{
  ℕ, ◌+◌, ◌-◌, ◌*◌, ◌/◌, ◌%◌, Option, none, some, List, [], ◌∷◌, ◌++◌, ◌||◌, Bytes, length, ltb,
  leb, ◌==◌, if◌then◌else◌,
}
use multi_agent.Util.Errno.{Errno, einval, enospc, eio, Result, ok, err}

abbrev pub random_id_bytes_max : ℕ
random_id_bytes_max = 16

-- `h[k]` of the table "0123456789abcdef"
unfoldable pub hex_digit : ℕ → ℕ
hex_digit k = if ltb k 10 then b'0' + k else b'a' + (k - 10)

unfoldable pub hex_encode : Bytes → Bytes
unfolding hex_digit
hex_encode [] = []
hex_encode (b ∷ bs) = hex_digit (b / 16) ∷ hex_digit (b % 16) ∷ hex_encode bs

-- `snprintf` into `out_size` bytes: too long a text is an error.
finish : Bytes → ℕ → Result Bytes
finish id out_size = if leb out_size (length id) then err enospc else ok id

unfoldable pub random_id_nbytes : Bytes → ℕ → Option Bytes → ℕ → Result Bytes
unfolding finish hex_encode
random_id_nbytes prefix n none out_size =
    if n == 0 || ltb random_id_bytes_max n then err einval else err eio
random_id_nbytes prefix n (some raw) out_size =
    if n == 0 || ltb random_id_bytes_max n
    then err einval
    else finish (prefix ++ hex_encode raw) out_size

unfoldable pub random_id : Bytes → Option Bytes → ℕ → Result Bytes
unfolding random_id_nbytes
random_id prefix raw out_size = random_id_nbytes prefix random_id_bytes_max raw out_size
