-- ===== src/Tests/Router.antt =====
-- src/sapi/fastcgi/router.c on concrete requests.
use multi_agent.Common.{
  ℕ, ◌≤◌, ◌≡◌, refl, Bool, true, false, Option, none, some, List, [], ◌∷◌, arith, Bytes, codes,
}
use multi_agent.Fastcgi.Router.{
  Services, Request, Outcome, handled, get_canvas, patch_canvas_node, reply_401, router_dispatch,
  routes, matched, match_pattern,
}
use multi_agent.Fastcgi.Router.Access.{Permitted, router_dispatch-Permitted}
use multi_agent.Fastcgi.Router.Capture.{
  Part, AreParts, fixed, placeholder, pattern_of, match_pattern-params_of,
}

abbrev signed_in : Services
signed_in = record { setup_required = false; auth_check = λ r. true }

abbrev canvas_path : Bytes
canvas_path = codes "/api/sessions/s1/canvas"

-- The canvas of a session, with and without a user.
canvas :
    router_dispatch signed_in (record { method = some (codes "GET"); path = some canvas_path })
    ≡ some (handled get_canvas (record { key = codes "id"; value = codes "s1" } ∷ []))
unfolding router_dispatch multi_agent.Fastcgi.Router.first_route multi_agent.Fastcgi.Router.enter
    multi_agent.Fastcgi.Router.match_from match_pattern routes multi_agent.Common.str_eq
canvas = refl

abbrev node_parts : List Part
node_parts =
    fixed (codes "api")
    ∷ fixed (codes "sessions")
    ∷ placeholder (codes "id") (codes "s1")
    ∷ fixed (codes "canvas")
    ∷ fixed (codes "nodes")
    ∷ placeholder (codes "node") (codes "n7")
    ∷ []

-- The parts stand for the pattern of the table.
node_pattern : pattern_of node_parts ≡ codes "/api/sessions/:id/canvas/nodes/:node"
node_pattern = refl

router_dispatch-Permitted_example :
    (o : Outcome) × (router_dispatch signed_in
        (record { method = some (codes "GET"); path = some canvas_path })
      ≡ some o)
    × Permitted signed_in
        (record { method = some (codes "GET"); path = some canvas_path })
        (codes "GET")
        canvas_path
        routes
        o
router_dispatch-Permitted_example = router_dispatch-Permitted signed_in (codes "GET") canvas_path

node_parts-AreParts : AreParts node_parts
node_parts-AreParts = ground arith

match_pattern-params_of_example :
    match_pattern
      (codes "/api/sessions/:id/canvas/nodes/:node")
      (codes "/api/sessions/s1/canvas/nodes/n7/")
    ≡ matched (
        record { key = codes "id"; value = codes "s1" }
        ∷ record { key = codes "node"; value = codes "n7" }
        ∷ [])
match_pattern-params_of_example =
    match_pattern-params_of node_parts (codes "/") node_parts-AreParts refl (omega arith)
