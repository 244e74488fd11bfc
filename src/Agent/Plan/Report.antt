-- ===== src/Agent/Plan/Report.antt =====
-- src/agent/plan.c: a client that works through a plan of the registry.
use multi_agent.Common.{
  ℕ, ◌+◌, min, Option, none, some, List, [], ◌∷◌, ◌++◌, ◌≡◌, refl, sym, ap, ◌∙◌, subst, inl, inr,
  arith, Bytes, str_eq, str_eq_refl, length, Bool-cases,
}
use multi_agent.Util.Errno.{Result, ok, err, Result-cases, ok-injective}
use multi_agent.Agent.Plan.{
  Plan, Registry, max_steps, create, find_by_id, update_step_ptr, update_step_by_id, update_where,
}
use multi_agent.Agent.Plan.Update.{statuses}
use multi_agent.Agent.Plan.Progress.{report, AllTerminal}
use multi_agent.Agent.Plan.Create.{create_lem, create-report_steps}
use multi_agent.Agent.Plan.Lookup.{update_step_ptr-keeps, create-fresh}

-- A client reports an outcome for each step in turn, by the id of the plan and the ids of the steps
-- from step_id on.
pub report_by_id : Registry → Bytes → ℕ → List Bytes → Result Registry
report_by_id reg id step_id [] = ok reg
report_by_id reg id step_id (o ∷ os) = elim (update_step_by_id reg (some id) step_id (some o)) [
  | err e ↦ err e
  | ok next ↦ report_by_id next id (step_id + 1) os
]

-- An update goes by the plans that have another id.
update_where-append :
    (reg : Registry) (p q : Plan) (f : Plan → Result Plan)
    → find_by_id reg p.id ≡ none
    → f p ≡ ok q
    → update_where (λ r. str_eq r.id p.id) f (reg ++ (p ∷ [])) ≡ ok (reg ++ (q ∷ []))
unfolding update_where find_by_id
update_where-append [] p q f free changed = rw (update_where, str_eq_refl p.id, changed) refl
update_where-append (r ∷ reg) p q f free changed = elim (Bool-cases (str_eq r.id p.id)) [
  | inl same ↦ absurd (ground arith)
  | inr other ↦
      rw (update_where, other, update_where-append reg p q f (sym (rw other refl) ∙ free) changed)
        refl
]

report-first :
    (p q : Plan) (step_id : ℕ) (o : Bytes) (os : List Bytes)
    → report p step_id (o ∷ os) ≡ ok q
    → (next : Plan) × (update_step_ptr p step_id o ≡ ok next)
      × (report next (step_id + 1) os ≡ ok q)
unfolding report
report-first p q step_id o os h = elim (Result-cases (update_step_ptr p step_id o)) [
  | inr (e, refused) ↦ absurd (ground (arith, refused))
  | inl (next, changed) ↦ (next, changed, sym (rw (report, changed) refl) ∙ h)
]

report_by_id-report :
    (reg : Registry) (p q : Plan) (step_id : ℕ) (os : List Bytes)
    → find_by_id reg p.id ≡ none
    → report p step_id os ≡ ok q
    → report_by_id (reg ++ (p ∷ [])) p.id step_id os ≡ ok (reg ++ (q ∷ []))
unfolding report_by_id report update_step_by_id
report_by_id-report reg p q step_id [] free h = ap (λ r. ok (reg ++ (r ∷ []))) (ok-injective p q h)
report_by_id-report reg p q step_id (o ∷ os) free h =
    let first = report-first p q step_id o os h in
    let next = first.0 in
    let same = (update_step_ptr-keeps p step_id o first.1).0 in
    rw
      (report_by_id, update_where-append reg p next (λ r. update_step_ptr r step_id o) free first.1)
      (subst (λ id. report_by_id (reg ++ (next ∷ [])) id (step_id + 1) os ≡ ok (reg ++ (q ∷ [])))
        same
        (report_by_id-report reg next q (step_id + 1) os
          (subst (λ id. find_by_id reg id ≡ none) (sym same) free) first.2))

-- where plan_create has made a plan, a client that reports a terminal outcome for each of its steps through plan_update_step_by_id, by the id of the plan and the ids 1, 2, 3 and so on of the steps, is never refused; at the end the steps of the plan have just these outcomes, no step of it is active, and the plans that were in the registry before are as they were.
pub create-report :
    (reg : Registry) (name goal : Option Bytes) (descs : List (Option Bytes))
    (draws : ℕ → Option Bytes) (outcomes : List Bytes) {p : Plan} {reg' : Registry}
    → create reg name goal descs draws ≡ (some p, reg')
    → length outcomes ≡ min max_steps (length descs)
    → AllTerminal outcomes
    → (q : Plan) × (report_by_id reg' p.id 1 outcomes ≡ ok (reg ++ (q ∷ [])))
      × (statuses q.steps ≡ outcomes)
      × (q.active_step ≡ none)
create-report reg name goal descs draws outcomes {p} {reg'} h l t =
    let made = create_lem reg name goal descs draws h in
    let all = create-report_steps reg name goal descs draws outcomes h l t in
    (
      all.0,
      ap (λ r. report_by_id r p.id 1 outcomes) made.registry_is
          ∙ report_by_id-report reg p all.0 1 outcomes (create-fresh reg name goal descs draws h)
              all.1,
      all.2,
      all.3,
    )
