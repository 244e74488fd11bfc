-- ===== src/Tests/Security.antt =====
-- src/sapi/fastcgi/security.c and auth.c on concrete inputs.
use multi_agent.Common.{
  ◌≡◌, ◌↔◌, refl, codes, Bytes, [], ◌++◌, arith, none, some, true, false, ◌∷◌, pos, str_eq,
  if◌then◌else◌,
}
use multi_agent.Util.Errno.{ok}
use multi_agent.Util.Base64.{encode}
use multi_agent.Fastcgi.Security.Hex.{hex_encode}
use multi_agent.Fastcgi.Security.Sha256.{sha256}
use multi_agent.Fastcgi.Security.Sha256.Standard.{standard}
use multi_agent.Fastcgi.Security.Sha256.Streaming.{sha256-standard}
use multi_agent.Fastcgi.Security.Hmac.{
  hmac_sha256, hmac_sha256-standard, pad_with, standard_key, pbkdf2_sha256,
}
use multi_agent.Fastcgi.Security.Password.{
  password_hash, password_verify, pwd_iterations, hash_bytes,
}
use multi_agent.Fastcgi.Security.Password.Verify.{password_verify-hash}
use multi_agent.Fastcgi.Security.Basic.{basic_decode}
use multi_agent.Fastcgi.Security.Basic.RoundTrip.{basic_decode-encode}
use multi_agent.Fastcgi.Auth.{
  User, Cache, Store, Credentials, missing, no_tokens, token_cache_size, auth_check, cache_put,
  cache_del, cut_user, later_than, trusted,
}
use multi_agent.Fastcgi.Router.{Request, handled, get_canvas, router_dispatch}
use multi_agent.Fastcgi.Auth.Guarded.{services, router_dispatch-Accepted}
use multi_agent.Fastcgi.Auth.Cache.{IsCache, no_tokens-IsCache}
use multi_agent.Fastcgi.Auth.Check.{bearer, Accepted, auth_check-revoked}

-- The digest of "abc" in FIPS 180-4.
sha256_abc :
    hex_encode (sha256 (codes "abc"))
    ≡ codes "ba7816bf8f01cfea414140de5dae2223b00361a396177a9cb410ff61f20015ad"
unfolding sha256 multi_agent.Util.Id.hex_digit hex_encode multi_agent.Fastcgi.Security.Sha256.final
    multi_agent.Fastcgi.Security.Sha256.update multi_agent.Fastcgi.Security.Sha256.init
    multi_agent.Fastcgi.Security.Sha256.first_state multi_agent.Fastcgi.Security.Sha256.transform
    multi_agent.Fastcgi.Security.Sha256.digest
sha256_abc = refl

-- Test case 2 of RFC 4231.
hmac_jefe :
    hex_encode (hmac_sha256 (codes "Jefe") (codes "what do ya want for nothing?"))
    ≡ codes "5bdcc146bf60754e6a042426089575c75a003f089d2739839dec58b964ec3843"
unfolding hmac_sha256 multi_agent.Fastcgi.Security.Hmac.block_key hex_encode
    multi_agent.Util.Id.hex_digit multi_agent.Fastcgi.Security.Sha256.final
    multi_agent.Fastcgi.Security.Sha256.update multi_agent.Fastcgi.Security.Sha256.init
    multi_agent.Fastcgi.Security.Sha256.first_state multi_agent.Fastcgi.Security.Sha256.transform
    multi_agent.Fastcgi.Security.Sha256.digest
hmac_jefe = refl

-- PBKDF2-HMAC-SHA256 of "password" and "salt", two rounds.
pbkdf2_two :
    hex_encode (pbkdf2_sha256 (codes "password") (codes "salt") 2 32)
    ≡ codes "ae4d0c95af6b46d32d0adff928f06dd02a303f8ef3c251dfd6e2d85a95474c43"
unfolding pbkdf2_sha256 multi_agent.Fastcgi.Security.Hmac.derive
    multi_agent.Fastcgi.Security.Hmac.iterate multi_agent.Fastcgi.Security.Hmac.xor_bytes
    hmac_sha256 multi_agent.Fastcgi.Security.Hmac.block_key hex_encode multi_agent.Util.Id.hex_digit
    multi_agent.Fastcgi.Security.Sha256.final multi_agent.Fastcgi.Security.Sha256.update
    multi_agent.Fastcgi.Security.Sha256.init multi_agent.Fastcgi.Security.Sha256.first_state
    multi_agent.Fastcgi.Security.Sha256.transform multi_agent.Fastcgi.Security.Sha256.digest
pbkdf2_two = refl

sha256-standard_example : sha256 (codes "abc") ≡ standard (codes "abc")
sha256-standard_example = sha256-standard (codes "abc")

abbrev salt : Bytes
salt = codes "0123456789abcdef"

password_verify-hash_example :
    (text : Bytes) × (password_hash (some (codes "pw")) (some salt) 256 ≡ ok text)
    × (password_verify (some (codes "pw")) (some text) ≡ true)
    × ((q : Bytes)
        → (password_verify (some q) (some text) ≡ true) ↔ (
            pbkdf2_sha256 q salt pwd_iterations hash_bytes
            ≡ pbkdf2_sha256 (codes "pw") salt pwd_iterations hash_bytes))
password_verify-hash_example =
    password_verify-hash b'p' (codes "w") salt 256 (omega arith) refl (omega arith)

basic_decode-encode_example :
    basic_decode (some (codes "Basic " ++ encode (codes "u:p:1"))) 128 256
    ≡ some (codes "u", codes "p:1")
basic_decode-encode_example =
    basic_decode-encode (codes "u") (codes "p:1") 128 256 (omega arith) (ground arith)
      (ground arith) (ground arith) (omega arith) (omega arith) (omega arith) (omega arith)
      (omega arith)

abbrev ann : User
ann = record { user_id = codes "u1"; username = codes "ann"; role = codes "user" }

-- No user, no file.
abbrev empty_store : Store
empty_store = record {
  verify_user = λ name pass. none;
  login_token_verify = λ tok. none;
  token_file = λ tok. missing;
}

abbrev cache : Cache
cache = no_tokens token_cache_size

auth_check-revoked_example :
    (IsCache (cache_put cache (codes "sess_1") ann (pos 200))
      × IsCache (cache_del cache (codes "sess_1")))
    × (later_than (pos 200) (pos 100) ≡ true
        → auth_check [] empty_store
            (cache_put cache (codes "sess_1") ann (pos 200))
            (pos 100)
            (bearer (codes "sess_1") none)
          ≡ (some (cut_user ann), cache_put cache (codes "sess_1") ann (pos 200)))
    × (empty_store.login_token_verify (codes "sess_1") ≡ none
        → auth_check [] empty_store
            (cache_del cache (codes "sess_1"))
            (pos 100)
            (bearer (codes "sess_1") none)
          ≡ (none, cache_del cache (codes "sess_1")))
unfolding trusted
auth_check-revoked_example =
    auth_check-revoked [] empty_store cache (pos 100) (codes "sess_1") none ann (pos 200)
      no_tokens-IsCache (omega arith) refl

-- A store in which one token has a file.
abbrev token_store : Store
token_store = record empty_store {
  login_token_verify = λ tok. if str_eq tok (codes "sess_1") then some ann else none;
}

-- Its user is accepted.
token_accepted :
    (auth_check [] token_store cache (pos 100) (bearer (codes "sess_1") none)).0 ≡ some ann
unfolding auth_check basic_decode multi_agent.Fastcgi.Auth.cache_get no_tokens
    multi_agent.Common.str_eq multi_agent.Fastcgi.Auth.find_entry
    multi_agent.Fastcgi.Auth.chain_index
token_accepted = refl

-- A request for a canvas with the password of a user, who the store knows.
abbrev one_user : Store
one_user = record empty_store { verify_user = λ name password. some ann }

abbrev signed : Request → Credentials
signed r = record { trust_user = none; auth_hdr = some (codes "Basic YTpi") }

abbrev canvas : Request
canvas = record { method = some (codes "GET"); path = some (codes "/api/sessions/s1/canvas") }

canvas_served :
    router_dispatch (services [] one_user cache (pos 100) false signed) canvas
    ≡ some (handled get_canvas (record { key = codes "id"; value = codes "s1" } ∷ []))
unfolding router_dispatch multi_agent.Fastcgi.Router.first_route multi_agent.Fastcgi.Router.routes
    multi_agent.Common.str_eq multi_agent.Fastcgi.Router.match_pattern
    multi_agent.Fastcgi.Router.match_from multi_agent.Fastcgi.Router.enter auth_check basic_decode
    multi_agent.Fastcgi.Security.Basic.b64_groups
canvas_served = refl

router_dispatch-Accepted_example :
    (u : User) × Accepted [] one_user cache (pos 100) (signed canvas) u
router_dispatch-Accepted_example =
    router_dispatch-Accepted [] one_user cache (pos 100) false signed (codes "GET")
      (codes "/api/sessions/s1/canvas") get_canvas
      (record { key = codes "id"; value = codes "s1" } ∷ []) canvas_served refl
