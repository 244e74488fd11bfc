-- ===== src/Tests/Plan.antt =====
-- src/agent/plan.c on concrete inputs.
use multi_agent.Common.{
  ℕ, zero, suc, Option, none, some, List, [], ◌∷◌, ◌++◌, ◌≡◌, refl, inr, arith, Bytes, codes,
  str_eq, take,
}
use multi_agent.Util.Errno.{ok, err, enoent}
use multi_agent.Agent.Plan.{
  new_plan, Step, Plan, Registry, pending, in_progress, completed, failed, skipped, name_len,
  create, registry_init, find_by_id, find_by_name, update_step_ptr, update_step, update_step_by_id,
  update_at,
}
use multi_agent.Agent.Plan.Invariant.{Numbered}
use multi_agent.Agent.Plan.Update.{statuses, SoleActive}
use multi_agent.Agent.Plan.Takeover.{Ended, update_at-SoleActive}
use multi_agent.Agent.Plan.Report.{report_by_id, create-report}
use multi_agent.Agent.Plan.Create.{new_plan-SoleActive}
use multi_agent.Agent.Plan.Lookup.{RegistryIsValid, create-IsValid, update_step-IsValid}
use multi_agent.Agent.Plan.Names.{create_long_name}

abbrev raw : Bytes
raw = 0 ∷ 17 ∷ 34 ∷ 51 ∷ 68 ∷ 85 ∷ 102 ∷ 119 ∷ 136 ∷ 153 ∷ 170 ∷ 187 ∷ 204 ∷ 221 ∷ 238 ∷ 255 ∷ []

abbrev draws : ℕ → Option Bytes
draws i = some raw

abbrev raw_id : Bytes
raw_id = codes "pln_00112233445566778899aabbccddeeff"

abbrev tasks : List (Option Bytes)
tasks = some (codes "read") ∷ none ∷ some (codes "write") ∷ []

abbrev step_of : ℕ → Bytes → Bytes → Step
step_of id description status = record { id = id; description = description; status = status }

abbrev fresh : Plan
fresh = record {
  id = raw_id;
  name = codes "port";
  goal = [];
  steps =
      step_of 1 (codes "read") in_progress
      ∷ step_of 2 [] pending
      ∷ step_of 3 (codes "write") pending
      ∷ [];
  active_step = some 0;
}

-- The plan when its first step has ended.
abbrev moved : Plan
moved = record fresh {
  steps =
      step_of 1 (codes "read") completed
      ∷ step_of 2 [] in_progress
      ∷ step_of 3 (codes "write") pending
      ∷ [];
  active_step = some 1;
}

created : create [] (some (codes "port")) none tasks draws ≡ (some fresh, fresh ∷ [])
unfolding create multi_agent.Agent.Plan.generate_id multi_agent.Util.Id.random_id find_by_id
created = refl

updated : update_step_by_id (fresh ∷ []) (some raw_id) 1 (some completed) ≡ ok (moved ∷ [])
unfolding update_step_by_id str_eq update_step_ptr
updated = refl

-- An update of a step that ends leaves the pending step before it alone.
later_first :
    update_step_by_id (fresh ∷ []) (some raw_id) 3 (some failed)
    ≡ ok (
        record fresh {
          steps =
              step_of 1 (codes "read") in_progress
              ∷ step_of 2 [] pending
              ∷ step_of 3 (codes "write") failed
              ∷ [];
        }
        ∷ [])
unfolding update_step_by_id str_eq update_step_ptr
later_first = refl

registry_init-IsValid : RegistryIsValid []
registry_init-IsValid = record { plans = tt; room = omega arith }

create-report_example :
    (q : Plan) × (report_by_id (fresh ∷ []) raw_id 1 (completed ∷ failed ∷ skipped ∷ [])
      ≡ ok ([] ++ (q ∷ [])))
    × (statuses q.steps ≡ completed ∷ failed ∷ skipped ∷ [])
    × (q.active_step ≡ none)
unfolding multi_agent.Agent.Plan.is_terminal str_eq
create-report_example =
    create-report [] (some (codes "port")) none tasks draws (completed ∷ failed ∷ skipped ∷ [])
      {p = fresh} {reg' = fresh ∷ []} created refl (refl, (refl, (refl, tt)))

create-IsValid_example : RegistryIsValid (fresh ∷ [])
create-IsValid_example =
    create-IsValid [] (some (codes "port")) none tasks draws {p = fresh} {reg' = fresh ∷ []}
      registry_init-IsValid created

update_step-IsValid_example : RegistryIsValid (moved ∷ [])
update_step-IsValid_example =
    update_step-IsValid (fresh ∷ []) (some raw_id) (some completed) 1 {reg' = moved ∷ []}
      create-IsValid_example (inr updated)

-- A name of 64 bytes loses its last one.
abbrev long_name : Bytes
long_name = codes "a name that is by one byte longer than the field it is copied to"

abbrev long : Plan
long = record fresh { name = take name_len long_name }

long_created : create [] (some long_name) none tasks draws ≡ (some long, long ∷ [])
unfolding create multi_agent.Agent.Plan.generate_id multi_agent.Util.Id.random_id find_by_id
long_created = refl

create_long_name_example : update_step (long ∷ []) (some long_name) 1 (some completed) ≡ err enoent
create_long_name_example =
    create_long_name [] long_name none tasks draws 1 completed {p = long} {reg' = long ∷ []}
      registry_init-IsValid long_created (omega arith)

fresh-SoleActive : SoleActive fresh
unfolding new_plan
fresh-SoleActive = new_plan-SoleActive raw_id (codes "port") none tasks (omega arith)

update_at-SoleActive_example :
    SoleActive (update_at fresh 0 completed) × Ended fresh 0 completed (update_at fresh 0 completed)
unfolding multi_agent.Agent.Plan.is_terminal str_eq
update_at-SoleActive_example =
    update_at-SoleActive fresh 0 completed fresh-SoleActive (omega arith) refl

-- The plan in which every step has ended, before its second step is started again.
abbrev all_ended : Plan
all_ended = record fresh {
  steps =
      step_of 1 (codes "read") completed
      ∷ step_of 2 [] failed
      ∷ step_of 3 (codes "write") completed
      ∷ [];
  active_step = none;
}

all_ended-SoleActive : SoleActive all_ended
all_ended-SoleActive zero = ground arith
all_ended-SoleActive (suc zero) = ground arith
all_ended-SoleActive (suc (suc zero)) = ground arith
all_ended-SoleActive (suc (suc (suc j))) = ground arith

fresh-Numbered : Numbered 0 fresh.steps
fresh-Numbered = (refl, omega arith, (refl, omega arith, (refl, omega arith, tt)))
