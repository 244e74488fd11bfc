-- ===== src/Fastcgi/Security/Password/Verify.antt =====
-- src/sapi/fastcgi/security.c: which passwords a stored text accepts.
use Prim.Native.Nat.{bit_or, bit_xor}
use multi_agent.Common.{
  ℕ, ◌/◌, ◌%◌, ◌<◌, true, false, some, [], ◌∷◌, ◌++◌, Bytes, codes, str_eq, length, length-append,
  ◌==◌, ==_iff, ◌≡◌, ◌↔◌, refl, sym, ap, ap₂, ◌∙◌, arith, bit_or_zero, bit_xor_zero, bit_xor_self,
  lt→leb,
}
use multi_agent.Util.Errno.{ok}
use multi_agent.Util.Id.{hex_digit}
use multi_agent.Util.Id.Injective.{AllBytes}
use multi_agent.Fastcgi.Security.Hmac.{pbkdf2_sha256}
use multi_agent.Fastcgi.Security.Hmac.Output.{IsHash, IsHash-pbkdf2_sha256}
use multi_agent.Fastcgi.Security.Hex.{
  hex_encode, hex_decode, hex_decode-encode, length-hex_encode, low_nibble,
}
use multi_agent.Fastcgi.Security.Password.{
  salt_bytes, hash_bytes, pwd_iterations, stored, password_hash, skip_marks, token, behind_token,
  strtok, differences, ct_eq, check_tokens, verify_text, password_verify, atoi,
}

abbrev NoMark : Bytes → Type 0
NoMark [] = Unit {0}
NoMark (c ∷ s) = ((c == b'$') ≡ false) × NoMark s

hex_digit-mark : (k : ℕ) → k < 16 → (hex_digit k == b'$') ≡ false
unfolding hex_digit
hex_digit-mark k h = ground arith

NoMark-hex_encode : (xs : Bytes) → AllBytes xs → NoMark (hex_encode xs)
unfolding hex_encode
NoMark-hex_encode [] h = tt
NoMark-hex_encode (x ∷ xs) h = (
  hex_digit-mark (x / 16) (omega (arith, h.0)),
  (rw (low_nibble x) (hex_digit-mark (x % 16) (omega arith)), NoMark-hex_encode xs h.1),
)

token-mark : (t rest : Bytes) → NoMark t → token (t ++ (b'$' ∷ rest)) ≡ t
unfolding token
token-mark [] rest n = refl
token-mark (c ∷ t) rest n = rw n.0 (ap (◌∷◌ c) (token-mark t rest n.1))

behind_token-mark : (t rest : Bytes) → NoMark t → behind_token (t ++ (b'$' ∷ rest)) ≡ rest
unfolding behind_token
behind_token-mark [] rest n = refl
behind_token-mark (c ∷ t) rest n = rw n.0 (behind_token-mark t rest n.1)

token_last : (t : Bytes) → NoMark t → (token t ≡ t) × (behind_token t ≡ [])
unfolding token behind_token
token_last [] n = (refl, refl)
token_last (c ∷ t) n = (rw n.0 (ap (◌∷◌ c) (token_last t n.1).0), rw n.0 (token_last t n.1).1)

skip_marks_none : (c : ℕ) (t : Bytes) → (c == b'$') ≡ false → skip_marks (c ∷ t) ≡ c ∷ t
unfolding skip_marks
skip_marks_none c t e = rw e refl

strtok-mark :
    (t rest : Bytes) → NoMark t → 0 < length t → strtok (t ++ (b'$' ∷ rest)) ≡ some (t, rest)
unfolding strtok
strtok-mark [] rest n h = absurd (omega arith)
strtok-mark (c ∷ t) rest n h =
    rw (strtok, skip_marks_none c (t ++ (b'$' ∷ rest)) n.0)
      (ap₂ (λ x y. some (x, y)) (token-mark (c ∷ t) rest n) (behind_token-mark (c ∷ t) rest n))

strtok_last : (t : Bytes) → NoMark t → 0 < length t → strtok t ≡ some (t, [])
unfolding strtok
strtok_last [] n h = absurd (omega arith)
strtok_last (c ∷ t) n h =
    rw (strtok, skip_marks_none c t n.0)
      (ap₂ (λ x y. some (x, y)) (token_last (c ∷ t) n).0 (token_last (c ∷ t) n).1)

differences_zero :
    (diff : ℕ) (a b : Bytes) → length a ≡ length b → differences diff a b ≡ 0 → (diff ≡ 0) × (a ≡ b)
unfolding differences
differences_zero diff [] [] l e = (e, refl)
differences_zero diff [] (y ∷ b) l e = absurd (omega arith)
differences_zero diff (x ∷ a) [] l e = absurd (omega arith)
differences_zero diff (x ∷ a) (y ∷ b) l e =
    let (here, rest) = differences_zero (bit_or diff (bit_xor x y)) a b (omega arith) e in
    let (none_yet, same) = bit_or_zero diff (bit_xor x y) here in
    (none_yet, ap₂ ◌∷◌ (bit_xor_zero x y same) rest)

differences_self : (a : Bytes) → differences 0 a a ≡ 0
unfolding differences
differences_self [] = refl
differences_self (x ∷ a) =
    ap (λ d. differences (bit_or 0 d) a a) (bit_xor_self x) ∙ differences_self a

ct_eq_iff : (a b : Bytes) → length a ≡ length b → (ct_eq a b ≡ true) ↔ (a ≡ b)
unfolding ct_eq
ct_eq_iff a b l = (
  λ h. (differences_zero 0 a b l ((==_iff (differences 0 a b) 0).0 h)).1,
  λ e. (==_iff (differences 0 a b) 0).1 (ap (differences 0 a) (sym e) ∙ differences_self a),
)

check_tokens_lem :
    (password salt hash : Bytes)
    → AllBytes salt
    → length salt ≡ salt_bytes
    → IsHash hash
    → check_tokens password
        (codes "pbkdf2-sha256")
        (codes "120000")
        (hex_encode salt)
        (hex_encode hash)
      ≡ ct_eq (pbkdf2_sha256 password salt pwd_iterations hash_bytes) hash
unfolding check_tokens atoi str_eq
check_tokens_lem password salt hash bytes size h =
    rw
      (
        check_tokens,
        ap (hex_decode (hex_encode salt)) (sym size) ∙ hex_decode-encode salt bytes,
        ap (hex_decode (hex_encode hash)) (sym h.1) ∙ hex_decode-encode hash h.0,
      )
      refl

algo_clean : NoMark (codes "pbkdf2-sha256")
algo_clean = ground arith

count_clean : NoMark (codes "120000")
count_clean = ground arith

verify_text-stored :
    (password salt hash : Bytes)
    → AllBytes salt
    → length salt ≡ salt_bytes
    → IsHash hash
    → verify_text password (stored salt hash)
      ≡ ct_eq (pbkdf2_sha256 password salt pwd_iterations hash_bytes) hash
unfolding verify_text stored
verify_text-stored password salt hash bytes size h =
    let hash_s = hex_encode hash in
    let salt_s = hex_encode salt in
    rw
      (
        strtok-mark (codes "pbkdf2-sha256") (codes "120000" ++ (b'$' ∷ (salt_s ++ (b'$' ∷ hash_s))))
            algo_clean (omega arith),
        verify_text,
        strtok-mark (codes "120000") (salt_s ++ (b'$' ∷ hash_s)) count_clean (omega arith),
        strtok-mark salt_s hash_s (NoMark-hex_encode salt bytes)
            (omega (arith, length-hex_encode salt)),
        strtok_last hash_s (NoMark-hex_encode hash h.0)
            (omega (arith, length-hex_encode hash, h.1)),
      )
      (check_tokens_lem password salt hash bytes size h)

length-stored :
    (salt hash : Bytes)
    → length salt ≡ salt_bytes
    → length hash ≡ hash_bytes
    → length (stored salt hash) ≡ 118
unfolding stored
length-stored salt hash size size' = omega (
  arith,
  length-append (hex_encode salt) (b'$' ∷ hex_encode hash),
  length-hex_encode salt,
  length-hex_encode hash,
)

-- for a password p that is not empty, 16 bytes of salt and room for 118 characters, fcgi_password_hash succeeds, and fcgi_password_verify accepts against its text the passwords that give the same derived key as p, and no others; p itself is one of them.
pub password_verify-hash :
    (c : ℕ) (cs salt : Bytes) (out_size : ℕ)
    → AllBytes salt
    → length salt ≡ salt_bytes
    → 118 < out_size
    → (text : Bytes) × (password_hash (some (c ∷ cs)) (some salt) out_size ≡ ok text)
      × (password_verify (some (c ∷ cs)) (some text) ≡ true)
      × ((q : Bytes)
          → (password_verify (some q) (some text) ≡ true) ↔ (
              pbkdf2_sha256 q salt pwd_iterations hash_bytes
              ≡ pbkdf2_sha256 (c ∷ cs) salt pwd_iterations hash_bytes))
unfolding password_hash password_verify
password_verify-hash c cs salt out_size bytes size room = (
  stored salt (key (c ∷ cs)),
  rw (lt→leb out_size (length (stored salt (key (c ∷ cs)))) (omega (arith, len))) refl,
  (accepts (c ∷ cs)).1 refl,
  accepts,
)
  where
    key : Bytes → Bytes
    key q = pbkdf2_sha256 q salt pwd_iterations hash_bytes

    hash : IsHash (key (c ∷ cs))
    hash = IsHash-pbkdf2_sha256 (c ∷ cs) salt pwd_iterations

    len : length (stored salt (key (c ∷ cs))) ≡ 118
    len = length-stored salt (key (c ∷ cs)) size hash.1

    checked :
        (q : Bytes)
        → password_verify (some q) (some (stored salt (key (c ∷ cs))))
          ≡ ct_eq (key q) (key (c ∷ cs))
    checked q =
        rw (lt→leb 256 (length (stored salt (key (c ∷ cs)))) (omega (arith, len)))
          (verify_text-stored q salt (key (c ∷ cs)) bytes size hash)

    accepts :
        (q : Bytes)
        → (password_verify (some q) (some (stored salt (key (c ∷ cs)))) ≡ true)
          ↔ (key q ≡ key (c ∷ cs))
    accepts q =
        let same =
          ct_eq_iff (key q) (key (c ∷ cs))
            ((IsHash-pbkdf2_sha256 q salt pwd_iterations).1 ∙ sym hash.1) in
        (λ e. same.0 (sym (checked q) ∙ e), λ e. checked q ∙ same.1 e)
