-- ===== src/Agent/Plan/Create.antt =====
-- src/agent/plan.c: what `plan_create` leaves in the registry.
use multi_agent.Common.{
  ℕ, suc, ◌+◌, ◌<◌, min, Option, none, some, List, [], ◌∷◌, ◌++◌, ◌≡◌, refl, ap, ◌∙◌, inl, inr,
  arith, Bytes, length, take, leb, ◌==◌, if◌then◌else◌, Bool-cases, length-take,
}
use native.Mathlib.Numerals.{add-one}
use multi_agent.Util.Errno.{ok, Result-cases}
use multi_agent.Agent.Plan.{
  Plan, Registry, max_steps, max_plans, pending, in_progress, status_len, generate_id, create_steps,
  new_plan, create,
}
use multi_agent.Agent.Plan.Invariant.{Numbered, PlanIsValid}
use multi_agent.Agent.Plan.Update.{statuses, SoleActive, create_steps-Sole}
use multi_agent.Agent.Plan.Progress.{report, report_all, AllTerminal, AllPending}

-- What is known of a plan that `create` has made.
pub record Created (reg : Registry) (name goal : Option Bytes) (descs : List (Option Bytes))
    (draws : ℕ → Option Bytes) (p : Plan) (reg' : Registry) : Type 0 where
  pub id : Bytes
  pub text : Bytes
  pub named : name ≡ some text
  pub drawn : generate_id reg draws ≡ ok id
  pub room : length reg < max_plans
  pub steps_ne_nil : 0 < length descs
  pub plan_is : p ≡ new_plan id text goal descs
  pub registry_is : reg' ≡ reg ++ (p ∷ [])

pub create_lem :
    (reg : Registry) (name goal : Option Bytes) (descs : List (Option Bytes))
    (draws : ℕ → Option Bytes) {p : Plan} {reg' : Registry}
    → create reg name goal descs draws ≡ (some p, reg')
    → Created reg name goal descs draws p reg'
unfolding create
create_lem reg none goal descs draws h = absurd (ground arith)
create_lem reg (some nm) goal [] draws h = absurd (ground arith)
create_lem reg (some nm) goal (d ∷ ds) draws {p} {reg'} h =
    elim (Bool-cases (leb max_plans (length reg))) [
      | inl e ↦ absurd (ground arith)
      | inr e ↦ elim (Result-cases (generate_id reg draws)) [
        | inr (er, g) ↦ absurd (ground arith)
        | inl (id, g) ↦ record {
          id = id;
          text = nm;
          named = refl;
          drawn = g;
          room = ground arith;
          steps_ne_nil = omega arith;
          plan_is = ground arith;
          registry_is = ground arith;
        }
      ]
    ]

-- The steps of a new plan, from index i on.
create_steps-Numbered : (i : ℕ) (ds : List (Option Bytes)) → Numbered i (create_steps i ds)
unfolding create_steps
create_steps-Numbered i [] = tt
create_steps-Numbered i (d ∷ ds) = (
  refl,
  omega (arith, length-take status_len (if i == 0 then in_progress else pending)),
  create_steps-Numbered (i + 1) ds,
)

length-create_steps : (i : ℕ) (ds : List (Option Bytes)) → length (create_steps i ds) ≡ length ds
unfolding create_steps
length-create_steps i [] = refl
length-create_steps i (d ∷ ds) = ap suc (length-create_steps (i + 1) ds)

create_steps-AllPending : (i : ℕ) (ds : List (Option Bytes)) → AllPending (create_steps (suc i) ds)
unfolding create_steps
create_steps-AllPending i [] = tt
create_steps-AllPending i (d ∷ ds) = (ground arith, rw add-one (create_steps-AllPending (suc i) ds))

pub length-new_plan :
    (id name : Bytes) (goal : Option Bytes) (descs : List (Option Bytes))
    → length (new_plan id name goal descs).steps ≡ min max_steps (length descs)
unfolding new_plan
length-new_plan id name goal descs =
    length-create_steps 0 (take max_steps descs) ∙ length-take max_steps descs

pub new_plan-IsValid :
    (id name : Bytes) (goal : Option Bytes) (descs : List (Option Bytes))
    → 0 < length descs
    → PlanIsValid (new_plan id name goal descs)
unfolding new_plan
new_plan-IsValid id name goal descs h = record {
  numbered = create_steps-Numbered 0 (take max_steps descs);
  ne_nil = omega (arith, length-new_plan id name goal descs);
  size = omega (arith, length-new_plan id name goal descs);
  active_in = omega (arith, length-new_plan id name goal descs);
}

pub new_plan-SoleActive :
    (id name : Bytes) (goal : Option Bytes) (descs : List (Option Bytes))
    → 0 < length descs
    → SoleActive (new_plan id name goal descs)
unfolding new_plan
new_plan-SoleActive id name goal [] h = absurd (omega arith)
new_plan-SoleActive id name goal (d ∷ ds) h = create_steps-Sole d (take 31 ds)

-- The plan alone, when an outcome has been reported for each of its steps.
pub create-report_steps :
    (reg : Registry) (name goal : Option Bytes) (descs : List (Option Bytes))
    (draws : ℕ → Option Bytes) (outcomes : List Bytes) {p : Plan} {reg' : Registry}
    → create reg name goal descs draws ≡ (some p, reg')
    → length outcomes ≡ min max_steps (length descs)
    → AllTerminal outcomes
    → (q : Plan) × (report p 1 outcomes ≡ ok q)
      × (statuses q.steps ≡ outcomes)
      × (q.active_step ≡ none)
unfolding new_plan create_steps
create-report_steps reg name goal [] draws outcomes h l t =
    absurd (omega (arith, (create_lem reg name goal [] draws h).steps_ne_nil))
create-report_steps reg name goal (d ∷ ds) draws outcomes h l t =
    let c = create_lem reg name goal (d ∷ ds) draws h in
    rw c.plan_is (
      report_all (new_plan c.id c.text goal (d ∷ ds)) _ _ outcomes
        (create_steps-Numbered 0 (take max_steps (d ∷ ds))) (create_steps-AllPending 0 (take 31 ds))
        (omega (arith, length-create_steps 1 (take 31 ds), length-take 31 ds)) t)
