-- ===== src/Fastcgi/Security/Password.antt =====
-- src/sapi/fastcgi/security.c: the text that is stored for a password, and the check against it.
--
-- A pointer that may be NULL is an option. The copy of a stored text that is cut at its marks is the
-- list of the bytes that are left; atoi gives the bits of an int, and for a number that is none the
-- low ones. The size of the output, which the code casts to int, is taken to be no larger than INT_MAX.
pub mod Verify
use Prim.Native.Nat.{bit_or, bit_xor}
use multi_agent.Common.{
  ℕ, zero, suc, ◌+◌, ◌-◌, ◌*◌, ◌%◌, ◌^◌, Bool, true, false, ◌&&◌, ◌||◌, not, Option, none, some, [],
  ◌∷◌, ◌++◌, Bytes, codes, str_eq, length, leb, ltb, ◌==◌, if◌then◌else◌,
}
use multi_agent.Util.Errno.{einval, enospc, eio, Result, ok, err}
use multi_agent.Fastcgi.Security.Hmac.{pbkdf2_sha256}
use multi_agent.Fastcgi.Security.Hex.{hex_encode, hex_decode}

abbrev pub salt_bytes : ℕ
salt_bytes = 16

abbrev pub hash_bytes : ℕ
hash_bytes = 32

abbrev pub pwd_iterations : ℕ
pwd_iterations = 120000

-- "pbkdf2-sha256$%d$%s$%s"
unfoldable pub stored : Bytes → Bytes → Bytes
stored salt hash =
    codes "pbkdf2-sha256$"
    ++ (codes "120000" ++ (b'$' ∷ (hex_encode salt ++ (b'$' ∷ hex_encode hash))))

unfoldable pub password_hash : Option Bytes → Option Bytes → ℕ → Result Bytes
unfolding stored
password_hash none salt out_size = err einval
password_hash (some []) salt out_size = err einval
password_hash (some (c ∷ cs)) none out_size = err eio
password_hash (some (c ∷ cs)) (some salt) out_size =
    let text = stored salt (pbkdf2_sha256 (c ∷ cs) salt pwd_iterations hash_bytes) in
    if leb out_size (length text) then err enospc else ok text

-- `strtok_r` with "$": the marks in front are skipped.
unfoldable pub skip_marks : Bytes → Bytes
skip_marks [] = []
skip_marks (c ∷ cs) = if c == b'$' then skip_marks cs else c ∷ cs

unfoldable pub token : Bytes → Bytes
token [] = []
token (c ∷ cs) = if c == b'$' then [] else c ∷ token cs

-- What is left behind the token and its mark.
unfoldable pub behind_token : Bytes → Bytes
behind_token [] = []
behind_token (c ∷ cs) = if c == b'$' then cs else behind_token cs

unfoldable pub strtok : Bytes → Option (Bytes × Bytes)
strtok text = elim (skip_marks text) [
  | [] ↦ none
  | c ∷ cs ↦ some (token (c ∷ cs), behind_token (c ∷ cs))
]

abbrev pub is_space : ℕ → Bool
is_space c = c == b' ' || (leb 9 c && leb c 13)

unfoldable pub skip_space : Bytes → Bytes
skip_space [] = []
skip_space (c ∷ cs) = if is_space c then skip_space cs else c ∷ cs

unfoldable pub digits_value : ℕ → Bytes → ℕ
digits_value n [] = n
digits_value n (c ∷ cs) =
    let more = digits_value (n * 10 + (c - b'0')) cs in if leb b'0' c && leb c b'9' then more else n

-- The bits of the int.
unfoldable pub atoi : Bytes → ℕ
unfolding digits_value skip_space
atoi text = elim (skip_space text) [
  | [] ↦ 0
  | c ∷ cs ↦
      if c == b'-'
      then (2 ^ 32 - digits_value 0 cs % 2 ^ 32) % 2 ^ 32
      else digits_value 0 (if c == b'+' then cs else c ∷ cs) % 2 ^ 32
]

-- `iterations < 10000`, on the bits of an int.
abbrev pub too_few : ℕ → Bool
too_few bits = leb (2 ^ 31) bits || ltb bits 10000

-- `diff`
unfoldable pub differences : ℕ → Bytes → Bytes → ℕ
differences diff (x ∷ a) (y ∷ b) = differences (bit_or diff (bit_xor x y)) a b
differences diff _ _ = diff

unfoldable pub ct_eq : Bytes → Bytes → Bool
unfolding differences
ct_eq a b = differences 0 a b == 0

-- The part behind the four tokens.
unfoldable pub check_tokens : Bytes → Bytes → Bytes → Bytes → Bytes → Bool
check_tokens password algo iter_s salt_s hash_s =
    if not (str_eq algo (codes "pbkdf2-sha256"))
    then false
    else (if too_few (atoi iter_s) then false else elim (hex_decode salt_s salt_bytes) [
      | none ↦ false
      | some salt ↦ elim (hex_decode hash_s hash_bytes) [
        | none ↦ false
        | some expected ↦ ct_eq (pbkdf2_sha256 password salt (atoi iter_s) hash_bytes) expected
      ]
    ])

unfoldable pub verify_text : Bytes → Bytes → Bool
unfolding strtok check_tokens
verify_text password encoded = elim (strtok encoded) [
  | none ↦ false
  | some (algo, rest) ↦ elim (strtok rest) [
    | none ↦ false
    | some (iter_s, rest) ↦ elim (strtok rest) [
      | none ↦ false
      | some (salt_s, rest) ↦ elim (strtok rest) [
        | none ↦ false
        | some (hash_s, rest) ↦ check_tokens password algo iter_s salt_s hash_s
      ]
    ]
  ]
]

unfoldable pub password_verify : Option Bytes → Option Bytes → Bool
password_verify none encoded = false
password_verify (some password) none = false
password_verify (some password) (some encoded) =
    if leb 256 (length encoded) then false else verify_text password encoded
