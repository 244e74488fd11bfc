-- ===== src/Fastcgi/Auth/Guarded.antt =====
-- src/sapi/fastcgi/router.c, auth.c: the router with the check of credentials behind it.
use mathlib.Core.Option.{some-injective}
use multi_agent.Common.{
  Bool, true, false, ◌||◌, Option, none, some, List, Bytes, ℤ, ◌≡◌, refl, sym, ◌∙◌, subst, arith,
}
use multi_agent.Fastcgi.Router.{Services, Request, Handler, Param, handled, router_dispatch, routes}
use multi_agent.Fastcgi.Router.Access.{is_open, Permitted, router_dispatch-Permitted}
use multi_agent.Fastcgi.Auth.{User, Cache, Store, Credentials, auth_check}
use multi_agent.Fastcgi.Auth.Check.{Accepted, auth_check-Accepted}

abbrev pub has_user : Option User → Bool
has_user none = false
has_user (some u) = true

-- The services of the router, with the credentials that it reads of a request.
abbrev pub services : Bytes → Store → Cache → ℤ → Bool → (Request → Credentials) → Services
services trust_hdr store cache now setup credentials = record {
  setup_required = setup;
  auth_check = λ r. has_user (auth_check trust_hdr store cache now (credentials r)).0;
}

user_of : (x : Option User) → has_user x ≡ true → (u : User) × (x ≡ some u)
user_of none h = absurd (ground (arith, h))
user_of (some u) h = (u, refl)

closed : (free given : Bool) → free ≡ false → (free || given) ≡ true → given ≡ true
closed true given e h = absurd (ground (arith, e))
closed false given e h = h

-- a request with a method and a path that the router, with auth_check behind it, hands to a handler that is not one of the open ones (health, install, signup and login) is from a user: one that a trusted proxy names, whose name and password the store accepts, or whose token is in the cache and has not expired or has a file that is accepted.
pub router_dispatch-Accepted :
    (trust_hdr : Bytes) (store : Store) (cache : Cache) (now : ℤ) (setup : Bool)
    (credentials : Request → Credentials) (m path : Bytes) (h : Handler) (ps : List Param)
    → router_dispatch
        (services trust_hdr store cache now setup credentials)
        (record { method = some m; path = some path })
      ≡ some (handled h ps)
    → is_open h ≡ false
    → (u : User) × Accepted trust_hdr store cache now
        (credentials (record { method = some m; path = some path }))
        u
router_dispatch-Accepted trust_hdr store cache now setup credentials m path h ps run shut =
    let found = router_dispatch-Permitted sv m path in
    let permitted : Permitted sv r m path routes (handled h ps) =
      subst (Permitted sv r m path routes) (some-injective _ _ (sym found.1 ∙ run)) found.2 in
    let who =
      user_of (auth_check trust_hdr store cache now (credentials r)).0
        (closed (is_open h) (sv.auth_check r) shut permitted.1) in
    (who.0, (auth_check-Accepted trust_hdr store cache now (credentials r)).0 who.0 who.1)
  where
    r : Request
    r = record { method = some m; path = some path }

    sv : Services
    sv = services trust_hdr store cache now setup credentials
