-- ===== src/Fastcgi/Router.antt =====
-- src/sapi/fastcgi/router.c: the table of routes, the match of their patterns, and the dispatcher.
--
-- A request keeps what the router reads. The handlers are named, not modelled: a request ends in a
-- reply or in a call of one handler. What the store and the check of credentials answer comes with the
-- services. `endless` and `none` stand for a lack of fuel.
pub mod Segments
pub mod Access
pub mod Capture
use multi_agent.Common.{
  ℕ, zero, suc, ◌+◌, ◌-◌, Bool, true, false, not, ◌&&◌, ◌||◌, Option, none, some, List, [], ◌∷◌,
  ◌++◌, Bytes, codes, str_eq, length, leb, ◌==◌, if◌then◌else◌,
}

pub record Param : Type 0 where
  pub key : Bytes
  pub value : Bytes

pub record Request : Type 0 where
  pub method : Option Bytes
  pub path : Option Bytes

-- What the router asks the server: `store_setup_required` and `auth_check`.
pub record Services : Type 0 where
  pub setup_required : Bool
  pub auth_check : Request → Bool

pub data Handler : Type 0 where
  health install signup login logout me_quota create_session list_sessions get_session : Handler
  delete_session post_turn get_canvas add_canvas_node patch_canvas_node post_action sse : Handler
  list_artifacts artifact_meta get_artifact : Handler

pub record Route : Type 0 where
  pub on : Bytes
  pub pattern : Bytes
  pub run : Handler
  pub needs_auth : Bool
  pub allowed_during_setup : Bool

abbrev route : Bytes → Bytes → Handler → Bool → Bool → Route
route m p h auth setup = record {
  on = m;
  pattern = p;
  run = h;
  needs_auth = auth;
  allowed_during_setup = setup;
}

unfoldable pub routes : List Route
routes =
    route (codes "GET") (codes "/api/health") health false true
    ∷ route (codes "POST") (codes "/api/install") install false true
    ∷ route (codes "POST") (codes "/api/signup") signup false false
    ∷ route (codes "POST") (codes "/api/login") login false false
    ∷ route (codes "POST") (codes "/api/logout") logout true false
    ∷ route (codes "GET") (codes "/api/me/quota") me_quota true false
    ∷ route (codes "POST") (codes "/api/sessions") create_session true false
    ∷ route (codes "GET") (codes "/api/sessions") list_sessions true false
    ∷ route (codes "GET") (codes "/api/sessions/:id") get_session true false
    ∷ route (codes "DELETE") (codes "/api/sessions/:id") delete_session true false
    ∷ route (codes "POST") (codes "/api/sessions/:id/turns") post_turn true false
    ∷ route (codes "GET") (codes "/api/sessions/:id/canvas") get_canvas true false
    ∷ route (codes "POST") (codes "/api/sessions/:id/canvas/nodes") add_canvas_node true false
    ∷ route (codes "PATCH") (codes "/api/sessions/:id/canvas/nodes/:node") patch_canvas_node true
        false
    ∷ route (codes "POST") (codes "/api/sessions/:id/actions") post_action true false
    ∷ route (codes "GET") (codes "/api/sessions/:id/events") sse true false
    ∷ route (codes "GET") (codes "/api/sessions/:id/artifacts") list_artifacts true false
    ∷ route (codes "GET") (codes "/api/artifacts/:artifact/meta") artifact_meta true false
    ∷ route (codes "GET") (codes "/api/artifacts/:artifact") get_artifact true false
    ∷ []

-- The bytes up to the next slash, and those from it on.
abbrev pub segment : Bytes → Bytes
segment [] = []
segment (c ∷ s) = if c == b'/' then [] else c ∷ segment s

abbrev pub behind : Bytes → Bytes
behind [] = []
behind (c ∷ s) = if c == b'/' then c ∷ s else behind s

abbrev pub only_slashes : Bytes → Bool
only_slashes [] = true
only_slashes (c ∷ s) = c == b'/' && only_slashes s

pub data Match : Type 0 where
  matched : List Param → Match
  differs endless : Match

-- Whether a parameter can be kept, with the number that are.
abbrev pub fits : ℕ → Bytes → Bytes → Bool
fits n name value = not (leb 4 n) && not (leb 32 (length name)) && not (leb 128 (length value))

-- The loop of `match_pattern`, and the end of both texts.
unfoldable pub match_from : ℕ → Bytes → Bytes → List Param → Match
match_from zero p u ps = endless
match_from (suc fuel) [] u ps = if only_slashes u then matched ps else differs
match_from (suc fuel) (c ∷ p) [] ps = if only_slashes (c ∷ p) then matched ps else differs
match_from (suc fuel) (c ∷ p) (d ∷ u) ps = elim (c == b'/') [
  | true ↦ elim (d == b'/') [ true ↦ match_from fuel p u ps | false ↦ differs ]
  | false ↦ elim (c == b':') [
    | true ↦ elim (fits (length ps) (segment p) (segment (d ∷ u))) [
      | true ↦
          match_from fuel (behind p) (behind (d ∷ u))
            (ps ++ (record { key = segment p; value = segment (d ∷ u) } ∷ []))
      | false ↦ differs
    ]
    | false ↦ elim (str_eq (segment (c ∷ p)) (segment (d ∷ u))) [
      | true ↦ match_from fuel (behind (c ∷ p)) (behind (d ∷ u)) ps
      | false ↦ differs
    ]
  ]
]

unfoldable pub match_pattern : Bytes → Bytes → Match
match_pattern pattern path = match_from (length pattern + 1) pattern path []

-- What a request ends in: a reply by the router, or the call of a handler with the parameters.
pub data Outcome : Type 0 where
  reply_400 reply_401 reply_403 reply_404 : Outcome
  handled : Handler → List Param → Outcome

-- What is done at the route that a request has.
unfoldable pub enter : Services → Request → Route → List Param → Outcome
enter sv r rt ps =
    if not rt.allowed_during_setup && sv.setup_required
    then reply_403
    else (if rt.needs_auth && not (sv.auth_check r) then reply_401 else handled rt.run ps)

unfoldable pub first_route : Services → Request → Bytes → Bytes → List Route → Option Outcome
first_route sv r m u [] = some reply_404
first_route sv r m u (rt ∷ rts) = elim (str_eq rt.on m) [
  | false ↦ first_route sv r m u rts
  | true ↦ elim (match_pattern rt.pattern u) [
    | matched ps ↦ some (enter sv r rt ps)
    | differs ↦ first_route sv r m u rts
    | endless ↦ none
  ]
]

unfoldable pub router_dispatch : Services → Request → Option Outcome
router_dispatch sv r = elim r.method [
  | none ↦ some reply_400
  | some m ↦ elim r.path [ none ↦ some reply_400 | some u ↦ first_route sv r m u routes ]
]
