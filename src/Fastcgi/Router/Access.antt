-- ===== src/Fastcgi/Router/Access.antt =====
-- src/sapi/fastcgi/router.c: which requests come to which handlers.
use multi_agent.Common.{
  ◌≡◌, refl, Bool, true, false, not, ◌&&◌, ◌||◌, some, List, [], ◌∷◌, Bytes, str_eq, arith, ◌⊎◌,
  inl, inr, Bool-cases, &&-true,
}
use multi_agent.Fastcgi.Router.{
  Param, Request, Services, Handler, health, install, signup, login, Route, routes, Match, matched,
  differs, endless, match_pattern, Outcome, reply_400, reply_401, reply_403, reply_404, handled,
  enter, first_route, router_dispatch,
}
use multi_agent.Fastcgi.Router.Segments.{IsDecided, match_pattern-IsDecided}

-- The handlers that need no user, and those that run before the server is set up.
abbrev pub is_open : Handler → Bool
is_open health = true
is_open install = true
is_open signup = true
is_open login = true
is_open _ = false

abbrev pub is_early : Handler → Bool
is_early health = true
is_early install = true
is_early _ = false

-- The flags of each route are those of its handler.
abbrev flags_ok : List Route → Bool
flags_ok [] = true
flags_ok (rt ∷ rts) =
    (rt.needs_auth || is_open rt.run)
    && ((not rt.allowed_during_setup || is_early rt.run) && flags_ok rts)

-- A route has the method and matches the path.
abbrev pub HasRoute : Bytes → Bytes → Handler → List Param → List Route → Type 0
HasRoute m u h ps [] = ⊥
HasRoute m u h ps (rt ∷ rts) =
    ((str_eq rt.on m ≡ true) × (match_pattern rt.pattern u ≡ matched ps) × (rt.run ≡ h))
    ⊎ HasRoute m u h ps rts

abbrev pub NoRoute : Bytes → Bytes → List Route → Type 0
NoRoute m u [] = Unit {0}
NoRoute m u (rt ∷ rts) =
    ((str_eq rt.on m ≡ false) ⊎ (match_pattern rt.pattern u ≡ differs)) × NoRoute m u rts

-- What each outcome of a request with this method and path tells.
abbrev pub Permitted : Services → Request → Bytes → Bytes → List Route → Outcome → Type 0
Permitted sv r m u rts reply_400 = ⊥
Permitted sv r m u rts reply_401 = sv.auth_check r ≡ false
Permitted sv r m u rts reply_403 = sv.setup_required ≡ true
Permitted sv r m u rts reply_404 = NoRoute m u rts
Permitted sv r m u rts (handled h ps) =
    HasRoute m u h ps rts
    × ((is_open h || sv.auth_check r) ≡ true)
    × ((is_early h || not sv.setup_required) ≡ true)

-- The outcomes of the later routes hold of all routes, where the first is not the request's.
Permitted-later :
    (sv : Services) (r : Request) (m u : Bytes) (rt : Route) (rts : List Route) (o : Outcome)
    → (str_eq rt.on m ≡ false) ⊎ (match_pattern rt.pattern u ≡ differs)
    → Permitted sv r m u rts o
    → Permitted sv r m u (rt ∷ rts) o
Permitted-later sv r m u rt rts reply_400 other p = p
Permitted-later sv r m u rt rts reply_401 other p = p
Permitted-later sv r m u rt rts reply_403 other p = p
Permitted-later sv r m u rt rts reply_404 other p = (other, p)
Permitted-later sv r m u rt rts (handled h ps) other (has, auth, setup) = (inr has, auth, setup)

guarded :
    (needed free given : Bool)
    → (needed || free) ≡ true
    → (needed && not given) ≡ false
    → (free || given) ≡ true
guarded true free true a b = ground arith
guarded true free false a b = absurd cc
guarded false true given a b = refl
guarded false false given a b = absurd cc

in_setup :
    (allowed early required : Bool)
    → (not allowed || early) ≡ true
    → (not allowed && required) ≡ false
    → (early || not required) ≡ true
in_setup true true required a b = refl
in_setup true false required a b = absurd cc
in_setup false early true a b = absurd cc
in_setup false early false a b = ground arith

blocked : (needed given : Bool) → (needed && given) ≡ true → given ≡ true
blocked needed given e = (&&-true needed given e).1

refused : (needed given : Bool) → (needed && not given) ≡ true → given ≡ false
refused needed true e = ground arith
refused needed false e = refl

enter-Permitted :
    (sv : Services) (r : Request) (m u : Bytes) (rt : Route) (rts : List Route) (ps : List Param)
    → str_eq rt.on m ≡ true
    → match_pattern rt.pattern u ≡ matched ps
    → (rt.needs_auth || is_open rt.run) ≡ true
    → (not rt.allowed_during_setup || is_early rt.run) ≡ true
    → Permitted sv r m u (rt ∷ rts) (enter sv r rt ps)
unfolding enter
enter-Permitted sv r m u rt rts ps on matches auth setup =
    elim (Bool-cases (not rt.allowed_during_setup && sv.setup_required)) [
      | inl no_setup ↦ rw no_setup (blocked _ _ no_setup)
      | inr no_block ↦ elim (Bool-cases (rt.needs_auth && not (sv.auth_check r))) [
        | inl no_user ↦ rw (no_block, no_user) (refused rt.needs_auth (sv.auth_check r) no_user)
        | inr user ↦
            rw (no_block, user)
              (
                inl (on, matches, refl),
                guarded rt.needs_auth (is_open rt.run) (sv.auth_check r) auth user,
                in_setup rt.allowed_during_setup (is_early rt.run) sv.setup_required setup no_block,
              )
      ]
    ]

first_route-Permitted :
    (sv : Services) (r : Request) (m u : Bytes) (rts : List Route)
    → flags_ok rts ≡ true
    → (o : Outcome) × (first_route sv r m u rts ≡ some o) × Permitted sv r m u rts o
unfolding first_route
first_route-Permitted sv r m u [] flags = (reply_404, refl, tt)
first_route-Permitted sv r m u (rt ∷ rts) flags =
    let (auth, more) = &&-true _ _ flags in
    let (setup, rest) = &&-true _ _ more in
    let (o, e, p) = first_route-Permitted sv r m u rts rest in
    elim (Bool-cases (str_eq rt.on m)) [
      | inr other ↦ (o, rw (first_route, other) e, Permitted-later sv r m u rt rts o (inl other) p)
      | inl on ↦
          by_match on auth setup o e p (match_pattern rt.pattern u) refl
            (match_pattern-IsDecided rt.pattern u)
    ]
  where
    by_match :
        str_eq rt.on m ≡ true
        → (rt.needs_auth || is_open rt.run) ≡ true
        → (not rt.allowed_during_setup || is_early rt.run) ≡ true
        → (o : Outcome) → first_route sv r m u rts ≡ some o
        → Permitted sv r m u rts o
        → (x : Match) → match_pattern rt.pattern u ≡ x
        → IsDecided x
        → (o : Outcome) × (first_route sv r m u (rt ∷ rts) ≡ some o)
          × Permitted sv r m u (rt ∷ rts) o
    by_match on auth setup o e p (matched ps) matches d = (
      enter sv r rt ps,
      rw (first_route, on, matches) refl,
      enter-Permitted sv r m u rt rts ps on matches auth setup,
    )
    by_match on auth setup o e p differs matches d =
        (o, rw (first_route, on, matches) e, Permitted-later sv r m u rt rts o (inr matches) p)
    by_match on auth setup o e p endless matches d = absurd d

routes-flags_ok : flags_ok routes ≡ true
unfolding routes
routes-flags_ok = refl

-- every request with a method and a path comes to an outcome: a handler runs only where a route of the table has the method and matches the path with the parameters given, where the check of credentials succeeds unless the handler is one of health, install, signup and login, and where the server is set up unless it is health or install; 401 means that the check failed, 403 that the server is to be set up, 404 that no route with the method matches the path, and 400 is not answered.
pub router_dispatch-Permitted :
    (sv : Services) (m u : Bytes)
    → let r : Request = record { method = some m; path = some u } in
      (o : Outcome) × (router_dispatch sv r ≡ some o) × Permitted sv r m u routes o
unfolding router_dispatch
router_dispatch-Permitted sv m u =
    first_route-Permitted sv (record { method = some m; path = some u }) m u routes routes-flags_ok
