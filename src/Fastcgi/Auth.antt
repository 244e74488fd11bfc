-- ===== src/Fastcgi/Auth.antt =====
-- src/sapi/fastcgi/auth.c: the check of credentials, and the cache of login tokens.
--
-- The cache is the list of its 256 chains. What the store of users and the file of a token answer comes
-- with `Store`; a time is an integer. The lock is held around each use of the cache, so that the uses
-- are one after the other. Allocation succeeds.
pub mod Cache
pub mod Check
pub mod Guarded
use multi_agent.Common.{
  ℕ, zero, suc, ◌+◌, ◌-◌, ◌*◌, ◌%◌, ◌^◌, Bool, true, false, ◌&&◌, ◌||◌, not, Option, none, some,
  List, [], ◌∷◌, ◌++◌, Bytes, codes, str_eq, length, take, drop, get_elem?, set, leb, ltb, ◌==◌,
  if◌then◌else◌, ℤ, pos, negsuc,
}
use multi_agent.Fastcgi.Security.Basic.{basic_decode, has_prefix}

-- The user that a request is from: `user_id`, `username` and `role`.
pub record User : Type 0 where
  pub user_id : Bytes
  pub username : Bytes
  pub role : Bytes

pub record Entry : Type 0 where
  pub token : Bytes
  pub user : User
  pub expires_at : ℤ

abbrev pub token_cache_size : ℕ
token_cache_size = 256

abbrev pub Cache : Type 0
Cache = List (List Entry)

unfoldable pub token_hash_from : ℕ → Bytes → ℕ
token_hash_from h [] = h
token_hash_from h (c ∷ cs) = token_hash_from ((h * 33 + c) % 2 ^ 32) cs

unfoldable pub chain_index : Bytes → ℕ
unfolding token_hash_from
chain_index token = token_hash_from 5381 token % token_cache_size

-- The chains before the first token.
unfoldable pub no_tokens : ℕ → Cache
no_tokens zero = []
no_tokens (suc n) = [] ∷ no_tokens n

-- `g_token_cache[idx]`
abbrev pub chain : Cache → ℕ → List Entry
chain cache i = elim (get_elem? cache i) [ none ↦ [] | some es ↦ es ]

unfoldable pub find_entry : Bytes → List Entry → Option Entry
find_entry tok [] = none
find_entry tok (e ∷ es) = if str_eq e.token tok then some e else find_entry tok es

unfoldable pub cache_get : Cache → Bytes → Option Entry
cache_get cache tok = find_entry tok (chain cache (chain_index tok))

-- `snprintf` into an array of n bytes.
abbrev pub cut : ℕ → Bytes → Bytes
cut n text = take (n - 1) text

abbrev pub cut_user : User → User
cut_user u = record {
  user_id = cut 64 u.user_id;
  username = cut 64 u.username;
  role = cut 24 u.role;
}

-- The first loop of `cache_put`: `none` if no entry has the token.
unfoldable pub update_entry : Bytes → User → ℤ → List Entry → Option (List Entry)
update_entry tok u expires_at [] = none
update_entry tok u expires_at (e ∷ es) =
    let later = update_entry tok u expires_at es in
    if str_eq e.token tok
    then some (record e { user = cut_user u; expires_at = expires_at } ∷ es)
    else elim later [ none ↦ none | some rest ↦ some (e ∷ rest) ]

unfoldable pub cache_put : Cache → Bytes → User → ℤ → Cache
cache_put cache tok u expires_at =
    let i = chain_index tok in
    let es = chain cache i in
    elim (update_entry tok u expires_at es) [
      | some updated ↦ set cache i updated
      | none ↦
          set cache i
            (record { token = cut 64 tok; user = cut_user u; expires_at = expires_at } ∷ es)
    ]

unfoldable pub delete_entry : Bytes → List Entry → List Entry
delete_entry tok [] = []
delete_entry tok (e ∷ es) = if str_eq e.token tok then es else e ∷ delete_entry tok es

unfoldable pub cache_del : Cache → Bytes → Cache
cache_del cache tok = let i = chain_index tok in set cache i (delete_entry tok (chain cache i))

-- What reading the file of a token gives: its path is too long for the buffer, it cannot be opened,
-- or it has these bytes, at most 1023 of them, up to a NUL.
pub data Reading : Type 0 where
  too_long missing : Reading
  contents : Bytes → Reading

-- `store_verify_user`, `login_token_verify`, and the file that the latter has read.
pub record Store : Type 0 where
  pub verify_user : Bytes → Bytes → Option User
  pub login_token_verify : Bytes → Option User
  pub token_file : Bytes → Reading

-- `strstr(buf, "\"expires_at\"")`: the text from there on.
unfoldable pub find_key : Bytes → Option Bytes
find_key [] = none
find_key (c ∷ cs) =
    let later = find_key cs in
    if has_prefix (b'"' ∷ (codes "expires_at" ++ (b'"' ∷ []))) (c ∷ cs)
    then some (c ∷ cs)
    else later

unfoldable pub behind_colon : Bytes → Option Bytes
behind_colon [] = none
behind_colon (c ∷ cs) = if c == b':' then some cs else behind_colon cs

abbrev is_space : ℕ → Bool
is_space c = c == b' ' || (leb 9 c && leb c 13)

unfoldable pub long_digits : ℕ → Bytes → ℕ
long_digits n [] = n
long_digits n (c ∷ cs) =
    let more = long_digits (n * 10 + (c - b'0')) cs in if leb b'0' c && leb c b'9' then more else n

abbrev at_most : ℕ → ℕ → ℕ
at_most limit n = if ltb limit n then limit else n

-- `strtoll(text, NULL, 10)`, which stops at the bounds of its type.
unfoldable pub strtoll : Bytes → ℤ
unfolding long_digits
strtoll [] = pos 0
strtoll (c ∷ cs) =
    let later = strtoll cs in
    if is_space c
    then later
    else if c == b'-'
    then (let n = at_most (2 ^ 63) (long_digits 0 cs) in if n == 0 then pos 0 else negsuc (n - 1))
    else pos (at_most (2 ^ 63 - 1) (long_digits 0 (if c == b'+' then cs else c ∷ cs)))

-- The scan of the file for the time of expiry, 0 where there is none.
unfoldable pub scan_expires : Bytes → ℤ
unfolding find_key behind_colon strtoll
scan_expires buf = elim (find_key buf) [
  | none ↦ pos 0
  | some p ↦ elim (behind_colon (drop 12 p)) [ none ↦ pos 0 | some q ↦ strtoll q ]
]

abbrev pub later_than : ℤ → ℤ → Bool
later_than (pos a) (pos b) = ltb b a
later_than (pos a) (negsuc b) = true
later_than (negsuc a) (pos b) = false
later_than (negsuc a) (negsuc b) = ltb a b

-- What the check reads of a request.
pub record Credentials : Type 0 where
  pub trust_user : Option Bytes
  pub auth_hdr : Option Bytes

abbrev pub nobody : User
nobody = record { user_id = []; username = []; role = [] }

-- What a check leaves: the user, if there is one, and the cache.
abbrev pub Checked : Type 0
Checked = Option User × Cache

unfoldable pub trusted : Bytes → Credentials → Option User
trusted trust_hdr r = elim trust_hdr [
  | [] ↦ none
  | c ∷ cs ↦ elim r.trust_user [
    | none ↦ none
    | some [] ↦ none
    | some (d ∷ ds) ↦
        some (cut_user (record { user_id = d ∷ ds; username = d ∷ ds; role = codes "user" }))
  ]
]

unfoldable pub basic_user : Store → Credentials → Option User
basic_user store r = elim (basic_decode r.auth_hdr 128 256) [
  | none ↦ none
  | some (username, password) ↦ elim (store.verify_user username password) [
    | none ↦ none
    | some u ↦ some (cut_user u)
  ]
]

-- A token that the cache does not hold, or holds no longer.
unfoldable pub check_file : Store → Cache → Bytes → Checked
unfolding scan_expires
check_file store cache tok = elim (store.login_token_verify tok) [
  | none ↦ (none, cache)
  | some u ↦ elim (store.token_file tok) [
    | too_long ↦ (some nobody, cache)
    | missing ↦ (some (cut_user u), cache_put cache tok u (pos 0))
    | contents buf ↦ (some (cut_user u), cache_put cache tok u (scan_expires buf))
  ]
]

unfoldable pub bearer_user : Store → Cache → ℤ → Credentials → Checked
unfolding check_file
bearer_user store cache now r = elim r.auth_hdr [
  | none ↦ (none, cache)
  | some hdr ↦
      if not (has_prefix (codes "Bearer ") hdr)
      then (none, cache)
      else elim (cache_get cache (drop 7 hdr)) [
        | none ↦ check_file store cache (drop 7 hdr)
        | some e ↦
            if later_than e.expires_at now
            then (some (cut_user e.user), cache)
            else check_file store cache (drop 7 hdr)
      ]
]

unfoldable pub auth_check : Bytes → Store → Cache → ℤ → Credentials → Checked
unfolding trusted basic_user bearer_user
auth_check trust_hdr store cache now r = elim (trusted trust_hdr r) [
  | some u ↦ (some u, cache)
  | none ↦ elim (basic_user store r) [
    | some u ↦ (some u, cache)
    | none ↦ bearer_user store cache now r
  ]
]

unfoldable pub auth_init : Option Bytes → Bytes
auth_init none = []
auth_init (some header) = cut 64 header
