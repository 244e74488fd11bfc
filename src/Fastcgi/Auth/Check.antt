-- ===== src/Fastcgi/Auth/Check.antt =====
-- src/sapi/fastcgi/auth.c: which requests `auth_check` accepts, with the router that calls it.
use multi_agent.Common.{
  ℕ, ◌-◌, ◌<◌, true, Option, none, some, ◌++◌, Bytes, codes, str_eq_refl, length, length-take, drop,
  take, take_all, ℤ, ◌≡◌, refl, sym, ap, ap₂, ◌∙◌, subst, ◌⊎◌, inl, inr, Bool-cases, Option-cases,
  arith,
}
use mathlib.Core.Bool.{true≢false}
use mathlib.Core.Option.{some-injective}
use multi_agent.Fastcgi.Security.Basic.{basic_decode, has_prefix}
use multi_agent.Fastcgi.Auth.{
  User, Entry, Cache, Store, Credentials, Reading, too_long, missing, contents, cut, cut_user,
  cache_get, cache_put, cache_del, later_than, nobody, trusted, basic_user, check_file, bearer_user,
  auth_check,
}
use multi_agent.Fastcgi.Auth.Cache.{IsCache, cache_get-put, cache_get-del}

-- The header with a login token.
abbrev pub bearer : Bytes → Option Bytes → Credentials
bearer tok trust_user = record { trust_user = trust_user; auth_hdr = some (codes "Bearer " ++ tok) }

cut_twice : (n : ℕ) (s : Bytes) → cut n (cut n s) ≡ cut n s
cut_twice n s = take_all (n - 1) (take (n - 1) s) (omega (arith, length-take (n - 1) s))

cut_user_twice : (u : User) → cut_user (cut_user u) ≡ cut_user u
cut_user_twice u =
    ap₂ (λ x y. record { user_id = x; username = y; role = cut 24 (cut 24 u.role) })
      (cut_twice 64 u.user_id) (cut_twice 64 u.username)
    ∙ ap (λ z. record { user_id = cut 64 u.user_id; username = cut 64 u.username; role = z })
        (cut_twice 24 u.role)

-- A token is looked up in the cache, unless a trusted proxy names the user.
auth_check-bearer :
    (trust_hdr : Bytes) (store : Store) (cache : Cache) (now : ℤ) (tok : Bytes) (t : Option Bytes)
    → trusted trust_hdr (bearer tok t) ≡ none
    → auth_check trust_hdr store cache now (bearer tok t)
      ≡ bearer_user store cache now (bearer tok t)
unfolding auth_check basic_user basic_decode
auth_check-bearer trust_hdr store cache now tok t h = rw (auth_check, h) refl

bearer_cached :
    (store : Store) (cache : Cache) (now : ℤ) (tok : Bytes) (t : Option Bytes) (e : Entry)
    → cache_get cache tok ≡ some e
    → later_than e.expires_at now ≡ true
    → bearer_user store cache now (bearer tok t) ≡ (some (cut_user e.user), cache)
unfolding bearer_user
bearer_cached store cache now tok t e h k = rw (bearer_user, h, k) refl

bearer_refused :
    (store : Store) (cache : Cache) (now : ℤ) (tok : Bytes) (t : Option Bytes)
    → cache_get cache tok ≡ none
    → store.login_token_verify tok ≡ none
    → bearer_user store cache now (bearer tok t) ≡ (none, cache)
unfolding bearer_user check_file
bearer_refused store cache now tok t h k = rw (bearer_user, h, check_file, k) refl

-- on a request for which no trusted proxy names a user, and with a cache in which each token stands once, in the chain of its hash: a token of fewer than 64 bytes that auth_token_created has put into the cache is accepted, for its user, until it expires, whatever the file of the token says; once auth_token_revoked has deleted it, it is refused where its file is refused too; these checks do not change the cache, and both functions keep the order of the cache.
pub auth_check-revoked :
    (trust_hdr : Bytes) (store : Store) (cache : Cache) (now : ℤ) (tok : Bytes) (t : Option Bytes)
    (u : User) (x : ℤ)
    → IsCache cache
    → length tok < 64
    → trusted trust_hdr (bearer tok t) ≡ none
    → (IsCache (cache_put cache tok u x) × IsCache (cache_del cache tok))
      × (later_than x now ≡ true
          → auth_check trust_hdr store (cache_put cache tok u x) now (bearer tok t)
            ≡ (some (cut_user u), cache_put cache tok u x))
      × (store.login_token_verify tok ≡ none
          → auth_check trust_hdr store (cache_del cache tok) now (bearer tok t)
            ≡ (none, cache_del cache tok))
auth_check-revoked trust_hdr store cache now tok t u x fine short untrusted = (
  ((cache_get-put cache tok u x fine short).0, (cache_get-del cache tok fine).0),
  λ later.
      auth_check-bearer trust_hdr store (cache_put cache tok u x) now tok t untrusted
      ∙ bearer_cached store (cache_put cache tok u x) now tok t
          (record { token = tok; user = cut_user u; expires_at = x })
          ((cache_get-put cache tok u x fine short).1 tok ∙ rw (str_eq_refl tok) refl) later
      ∙ ap (λ w. (some w, cache_put cache tok u x)) (cut_user_twice u),
  λ gone.
      auth_check-bearer trust_hdr store (cache_del cache tok) now tok t untrusted
      ∙ bearer_refused store (cache_del cache tok) now tok t
          ((cache_get-del cache tok fine).1 tok ∙ rw (str_eq_refl tok) refl) gone,
)

-- The users that a name and a password, or a token, are accepted for.
abbrev pub ByPassword : Store → Credentials → User → Type 0
ByPassword store r u =
    (name pass : Bytes) × (w : User) × (basic_decode r.auth_hdr 128 256 ≡ some (name, pass))
    × (store.verify_user name pass ≡ some w)
    × (u ≡ cut_user w)

abbrev pub ByCache : Cache → ℤ → Bytes → User → Type 0
ByCache cache now tok u =
    (e : Entry) × (cache_get cache tok ≡ some e)
    × (later_than e.expires_at now ≡ true)
    × (u ≡ cut_user e.user)

-- The path of the file is too long for a second reading only where the user is left empty.
abbrev pub ByFile : Store → Bytes → User → Type 0
ByFile store tok u =
    (w : User) × (store.login_token_verify tok ≡ some w)
    × ((u ≡ cut_user w) ⊎ ((store.token_file tok ≡ too_long) × (u ≡ nobody)))

abbrev pub ByToken : Store → Cache → ℤ → Credentials → User → Type 0
ByToken store cache now r u =
    (hdr : Bytes) × (r.auth_hdr ≡ some hdr)
    × (has_prefix (codes "Bearer ") hdr ≡ true)
    × (ByCache cache now (drop 7 hdr) u ⊎ ByFile store (drop 7 hdr) u)

-- What stands behind the acceptance of a user.
abbrev pub Accepted : Bytes → Store → Cache → ℤ → Credentials → User → Type 0
Accepted trust_hdr store cache now r u =
    (trusted trust_hdr r ≡ some u) ⊎ ByPassword store r u ⊎ ByToken store cache now r u

-- The user of an answer, if there is one, has a reason; and if there is none, there is no reason.
abbrev pub Decides : (User → Type 0) → Option User → Type 0
Decides Reason answer =
    ((u : User) → answer ≡ some u → Reason u) × (answer ≡ none → (u : User) → ¬ Reason u)

decided_some : (Reason : User → Type 0) (w : User) → Reason w → Decides Reason (some w)
decided_some Reason w why =
    (λ u z. subst Reason (some-injective _ _ z) why, λ z. absurd (ground (arith, z)))

decided_none : (Reason : User → Type 0) → ((u : User) → ¬ Reason u) → Decides Reason none
decided_none Reason never = (λ u z. absurd (ground (arith, z)), λ z. never)

not_both : {A : Type 0} (x : Option A) (a : A) → x ≡ none → x ≡ some a → ⊥
not_both x a gone there = ground (arith, sym gone ∙ there)

check_file-ByFile :
    (store : Store) (cache : Cache) (tok : Bytes)
    → Decides (ByFile store tok) (check_file store cache tok).0
unfolding check_file
check_file-ByFile store cache tok = elim (Option-cases (store.login_token_verify tok)) [
  | inl gone ↦
      let run : (check_file store cache tok).0 ≡ none = rw (check_file, gone) refl in
      subst (Decides (ByFile store tok)) (sym run) (
        decided_none (ByFile store tok)
          (λ u why. not_both (store.login_token_verify tok) why.0 gone why.1))
  | inr (w, found) ↦ by_reading w found (store.token_file tok) refl
]
  where
    by_reading :
        (w : User)
        → store.login_token_verify tok ≡ some w
        → (x : Reading) → store.token_file tok ≡ x
        → Decides (ByFile store tok) (check_file store cache tok).0
    by_reading w found too_long e =
        let run : (check_file store cache tok).0 ≡ some nobody = rw (check_file, found, e) refl in
        subst (Decides (ByFile store tok)) (sym run)
          (decided_some (ByFile store tok) nobody (w, found, inr (e, refl)))
    by_reading w found missing e =
        let run : (check_file store cache tok).0 ≡ some (cut_user w) =
          rw (check_file, found, e) refl in
        subst (Decides (ByFile store tok)) (sym run)
          (decided_some (ByFile store tok) (cut_user w) (w, found, inl refl))
    by_reading w found (contents buf) e =
        let run : (check_file store cache tok).0 ≡ some (cut_user w) =
          rw (check_file, found, e) refl in
        subst (Decides (ByFile store tok)) (sym run)
          (decided_some (ByFile store tok) (cut_user w) (w, found, inl refl))

-- The file of a token decides where the cache does not.
behind_cache :
    (store : Store) (cache : Cache) (now : ℤ) (r : Credentials) (hdr : Bytes)
    → r.auth_hdr ≡ some hdr
    → has_prefix (codes "Bearer ") hdr ≡ true
    → ((u : User) → ¬ ByCache cache now (drop 7 hdr) u)
    → Decides (ByToken store cache now r) (check_file store cache (drop 7 hdr)).0
behind_cache store cache now r hdr at_hdr prefixed uncached =
    let file = check_file-ByFile store cache (drop 7 hdr) in
    (
      λ u z. (hdr, at_hdr, prefixed, inr (file.0 u z)),
      λ z u why.
          let same : why.0 ≡ hdr = some-injective _ _ (sym why.1 ∙ at_hdr) in
          elim (subst (λ h. ByCache cache now (drop 7 h) u ⊎ ByFile store (drop 7 h) u) same
            why.3) [ inl cached ↦ uncached u cached | inr accepted ↦ file.1 z u accepted ],
    )

bearer_user-ByToken :
    (store : Store) (cache : Cache) (now : ℤ) (r : Credentials)
    → Decides (ByToken store cache now r) (bearer_user store cache now r).0
unfolding bearer_user
bearer_user-ByToken store cache now r = elim (Option-cases r.auth_hdr) [
  | inl missing_hdr ↦
      let run : (bearer_user store cache now r).0 ≡ none = rw (bearer_user, missing_hdr) refl in
      subst (Decides Reason) (sym run)
        (decided_none Reason (λ u why. not_both r.auth_hdr why.0 missing_hdr why.1))
  | inr (hdr, at_hdr) ↦ elim (Bool-cases (has_prefix (codes "Bearer ") hdr)) [
    | inr other ↦
        let run : (bearer_user store cache now r).0 ≡ none = rw (bearer_user, at_hdr, other) refl in
        subst (Decides Reason) (sym run) (
          decided_none Reason (λ u why.
            let same : why.0 ≡ hdr = some-injective _ _ (sym why.1 ∙ at_hdr) in
            true≢false (sym why.2 ∙ ap (has_prefix (codes "Bearer ")) same ∙ other)))
    | inl prefixed ↦ elim (Option-cases (cache_get cache (drop 7 hdr))) [
      | inl unknown ↦
          let run : bearer_user store cache now r ≡ check_file store cache (drop 7 hdr) =
            rw (bearer_user, at_hdr, prefixed, unknown) refl in
          subst (λ x. Decides Reason x.0) (sym run)
            (behind_cache store cache now r hdr at_hdr prefixed
              (λ u why. not_both (cache_get cache (drop 7 hdr)) why.0 unknown why.1))
      | inr (e, known) ↦ elim (Bool-cases (later_than e.expires_at now)) [
        | inr expired ↦
            let run : bearer_user store cache now r ≡ check_file store cache (drop 7 hdr) =
              rw (bearer_user, at_hdr, prefixed, known, expired) refl in
            subst (λ x. Decides Reason x.0) (sym run)
              (behind_cache store cache now r hdr at_hdr prefixed (λ u why.
                let same : why.0 ≡ e = some-injective _ _ (sym why.1 ∙ known) in
                true≢false (sym why.2 ∙ ap (λ y. later_than y.expires_at now) same ∙ expired)))
        | inl later ↦
            let run : (bearer_user store cache now r).0 ≡ some (cut_user e.user) =
              rw (bearer_user, at_hdr, prefixed, known, later) refl in
            subst (Decides Reason) (sym run) (
              decided_some Reason (cut_user e.user)
                (hdr, at_hdr, prefixed, inl (e, known, later, refl)))
      ]
    ]
  ]
]
  where
    Reason : User → Type 0
    Reason = ByToken store cache now r

basic_user-ByPassword :
    (store : Store) (r : Credentials) → Decides (ByPassword store r) (basic_user store r)
unfolding basic_user
basic_user-ByPassword store r = elim (Option-cases (basic_decode r.auth_hdr 128 256)) [
  | inl undecoded ↦
      let run : basic_user store r ≡ none = rw (basic_user, undecoded) refl in
      subst (Decides (ByPassword store r)) (sym run) (
        decided_none (ByPassword store r)
          (λ u why. not_both (basic_decode r.auth_hdr 128 256) (why.0, why.1) undecoded why.3))
  | inr ((name, pass), decoded) ↦ elim (Option-cases (store.verify_user name pass)) [
    | inl refused ↦
        let run : basic_user store r ≡ none = rw (basic_user, decoded, refused) refl in
        subst (Decides (ByPassword store r)) (sym run) (
          decided_none (ByPassword store r) (λ u why.
            let same : (why.0, why.1) ≡ (name, pass) = some-injective _ _ (sym why.3 ∙ decoded) in
            not_both (store.verify_user name pass) why.2 refused
              (ap (λ y. store.verify_user y.0 y.1) (sym same) ∙ why.4)))
    | inr (w, verified) ↦
        let run : basic_user store r ≡ some (cut_user w) =
          rw (basic_user, decoded, verified) refl in
        subst (Decides (ByPassword store r)) (sym run)
          (decided_some (ByPassword store r) (cut_user w) (name, pass, w, decoded, verified, refl))
  ]
]

pub auth_check-Accepted :
    (trust_hdr : Bytes) (store : Store) (cache : Cache) (now : ℤ) (r : Credentials)
    → ((u : User)
        → (auth_check trust_hdr store cache now r).0 ≡ some u
        → Accepted trust_hdr store cache now r u)
      × ((auth_check trust_hdr store cache now r).0 ≡ none
          → (u : User) → ¬ Accepted trust_hdr store cache now r u)
unfolding auth_check
auth_check-Accepted trust_hdr store cache now r = elim (Option-cases (trusted trust_hdr r)) [
  | inr (w, named) ↦
      let run : (auth_check trust_hdr store cache now r).0 ≡ some w = rw (auth_check, named) refl in
      subst (Decides Reason) (sym run) (decided_some Reason w (inl named))
  | inl unnamed ↦ elim (Option-cases (basic_user store r)) [
    | inr (w, basic) ↦
        let run : (auth_check trust_hdr store cache now r).0 ≡ some w =
          rw (auth_check, unnamed, basic) refl in
        subst (Decides Reason) (sym run)
          (decided_some Reason w (inr (inl ((basic_user-ByPassword store r).0 w basic))))
    | inl refused ↦
        let run : auth_check trust_hdr store cache now r ≡ bearer_user store cache now r =
          rw (auth_check, unnamed, refused) refl in
        let token = bearer_user-ByToken store cache now r in
        subst (λ x. Decides Reason x.0) (sym run)
          (
            λ u z. inr (inr (token.0 u z)),
            λ z u why. elim why [
              | inl named ↦ not_both (trusted trust_hdr r) u unnamed named
              | inr (inl password) ↦ (basic_user-ByPassword store r).1 refused u password
              | inr (inr by_token) ↦ token.1 z u by_token
            ],
          )
  ]
]
  where
    Reason : User → Type 0
    Reason = Accepted trust_hdr store cache now r
