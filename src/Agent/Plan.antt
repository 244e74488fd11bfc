-- ===== src/Agent/Plan.antt =====
-- src/agent/plan.h and src/agent/plan.c: the registry of plans and the updates of their steps.
--
-- A plan's array of steps with `step_count` is a list of that length, and so are the plans of the
-- registry. A text field of n bytes holds the first n - 1 bytes of what `strncpy` is given.
-- `active_step` is `none` for -1. A pointer that the code tests against NULL is an option; the
-- registry itself is there. A negative step id names no step, as 0 does.
pub mod Invariant
pub mod Update
pub mod Takeover
pub mod Progress
pub mod Create
pub mod Lookup
pub mod Names
pub mod Report
use multi_agent.Common.{
  ℕ, zero, suc, ◌+◌, Bool, false, ◌||◌, Option, none, some, List, [], ◌∷◌, ◌++◌, Bytes, codes,
  str_eq, length, take, drop, leb, ◌==◌, if◌then◌else◌,
}
use multi_agent.Util.Errno.{einval, enoent, eexist, Result, ok, err}
use multi_agent.Util.Id.{random_id}

pub record Step : Type 0 where
  pub id : ℕ
  pub description : Bytes
  pub status : Bytes

pub record Plan : Type 0 where
  pub id : Bytes
  pub name : Bytes
  pub goal : Bytes
  pub steps : List Step
  pub active_step : Option ℕ

abbrev pub Registry : Type 0
Registry = List Plan

abbrev pub max_steps : ℕ
max_steps = 32

abbrev pub max_plans : ℕ
max_plans = 8

-- PLAN_ID_MAX, and the other sizes less their terminating NUL
abbrev pub id_max : ℕ
id_max = 40

abbrev pub name_len : ℕ
name_len = 63

abbrev pub goal_len : ℕ
goal_len = 511

abbrev pub description_len : ℕ
description_len = 255

abbrev pub status_len : ℕ
status_len = 15

abbrev pub pending : Bytes
pending = codes "pending"

abbrev pub in_progress : Bytes
in_progress = codes "in_progress"

abbrev pub completed : Bytes
completed = codes "completed"

abbrev pub failed : Bytes
failed = codes "failed"

abbrev pub skipped : Bytes
skipped = codes "skipped"

unfoldable pub registry_init : Registry
registry_init = []

unfoldable pub find_by_name : Registry → Bytes → Option Plan
find_by_name [] name = none
find_by_name (p ∷ ps) name = if str_eq p.name name then some p else find_by_name ps name

unfoldable pub find_by_id : Registry → Bytes → Option Plan
find_by_id [] id = none
find_by_id (p ∷ ps) id = if str_eq p.id id then some p else find_by_id ps id

-- The loop of `plan_generate_id`, with the tries left; `draws i` is what the i-th read of random
-- bytes gives.
generate_id_from : ℕ → ℕ → Registry → (ℕ → Option Bytes) → Result Bytes
generate_id_from zero i reg draws = err eexist
generate_id_from (suc tries) i reg draws = elim (random_id (codes "pln_") (draws i) id_max) [
  | err e ↦ err e
  | ok id ↦ elim (find_by_id reg id) [
    | none ↦ ok id
    | some p ↦ generate_id_from tries (i + 1) reg draws
  ]
]

unfoldable pub generate_id : Registry → (ℕ → Option Bytes) → Result Bytes
unfolding generate_id_from
generate_id reg draws = generate_id_from 16 0 reg draws

text_or_empty : ℕ → Option Bytes → Bytes
text_or_empty n none = []
text_or_empty n (some s) = take n s

-- The steps from index i on: the first of all is in progress.
pub create_steps : ℕ → List (Option Bytes) → List Step
create_steps i [] = []
create_steps i (d ∷ ds) =
    record {
      id = i + 1;
      description = text_or_empty description_len d;
      status = take status_len (if i == 0 then in_progress else pending);
    }
    ∷ create_steps (i + 1) ds

-- What `plan_create` writes into the entry behind the last plan.
unfoldable pub new_plan : Bytes → Bytes → Option Bytes → List (Option Bytes) → Plan
unfolding create_steps text_or_empty
new_plan id name goal descs = record {
  id = id;
  name = take name_len name;
  goal = text_or_empty goal_len goal;
  steps = create_steps 0 (take max_steps descs);
  active_step = some 0;
}

-- `plan_create`: the new plan, if there is one, and the registry. NULL or empty `step_descs` is [].
unfoldable pub create :
    Registry
    → Option Bytes
    → Option Bytes
    → List (Option Bytes)
    → (ℕ → Option Bytes)
    → Option Plan × Registry
unfolding new_plan
create reg none goal descs draws = (none, reg)
create reg (some name) goal [] draws = (none, reg)
create reg (some name) goal (d ∷ ds) draws =
    if leb max_plans (length reg) then (none, reg) else elim (generate_id reg draws) [
      | err e ↦ (none, reg)
      | ok id ↦ let p = new_plan id name goal (d ∷ ds) in (some p, reg ++ p ∷ [])
    ]

-- The index of the first step with this id, counted from i.
unfoldable pub find_step : ℕ → List Step → ℕ → Option ℕ
find_step i [] step_id = none
find_step i (s ∷ ss) step_id = if s.id == step_id then some i else find_step (i + 1) ss step_id

-- The index of the first pending step, counted from i.
unfoldable pub find_pending : ℕ → List Step → Option ℕ
find_pending i [] = none
find_pending i (s ∷ ss) = if str_eq s.status pending then some i else find_pending (i + 1) ss

-- `strncpy(p->steps[idx].status, status, ...)`
unfoldable pub set_status : List Step → ℕ → Bytes → List Step
set_status [] i status = []
set_status (s ∷ ss) zero status = record s { status = take status_len status } ∷ ss
set_status (s ∷ ss) (suc i) status = s ∷ set_status ss i status

unfoldable pub is_terminal : Bytes → Bool
is_terminal status = str_eq status completed || str_eq status failed || str_eq status skipped

abbrev pub is_active : Plan → ℕ → Bool
is_active p idx = elim p.active_step [ none ↦ false | some a ↦ a == idx ]

-- The active step has ended: the first pending step behind it becomes active.
unfoldable pub advance : Plan → ℕ → Plan
unfolding set_status find_pending
advance p idx = elim (find_pending (idx + 1) (drop (idx + 1) p.steps)) [
  | none ↦ record p { active_step = none }
  | some next ↦ record p { active_step = some next; steps = set_status p.steps next in_progress }
]

-- `plan_update_step_ptr` behind the search for the step
unfoldable pub update_at : Plan → ℕ → Bytes → Plan
unfolding set_status is_terminal advance
update_at p idx status =
    let q = record p { steps = set_status p.steps idx status } in
    if is_terminal status
    then (if is_active p idx then advance q idx else q)
    else if str_eq status in_progress
    then record q { active_step = some idx }
    else q

unfoldable pub update_step_ptr : Plan → ℕ → Bytes → Result Plan
unfolding update_at find_step
update_step_ptr p step_id status = elim (find_step 0 p.steps step_id) [
  | none ↦ err enoent
  | some idx ↦ ok (update_at p idx status)
]

-- Runs an update on the first plan that the test picks, and leaves the others alone.
unfoldable pub update_where : (Plan → Bool) → (Plan → Result Plan) → Registry → Result Registry
update_where test f [] = err enoent
update_where test f (p ∷ ps) =
    if test p
    then elim (f p) [ ok q ↦ ok (q ∷ ps) | err e ↦ err e ]
    else elim (update_where test f ps) [ ok qs ↦ ok (p ∷ qs) | err e ↦ err e ]

-- On an error the registry is as before.
unfoldable pub update_step : Registry → Option Bytes → ℕ → Option Bytes → Result Registry
unfolding update_where
update_step reg (some name) step_id (some status) =
    update_where (λ p. str_eq p.name name) (λ p. update_step_ptr p step_id status) reg
update_step reg _ step_id _ = err einval

unfoldable pub update_step_by_id : Registry → Option Bytes → ℕ → Option Bytes → Result Registry
unfolding update_where
update_step_by_id reg (some id) step_id (some status) =
    update_where (λ p. str_eq p.id id) (λ p. update_step_ptr p step_id status) reg
update_step_by_id reg _ step_id _ = err einval
