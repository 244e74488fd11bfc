-- ===== src/Agent/Plan/Names.antt =====
-- src/agent/plan.c: plans under their names.
use multi_agent.Common.{
  ℕ, ◌≤◌, ◌<◌, Option, none, some, List, [], ◌∷◌, ◌++◌, ◌≡◌, refl, sym, ap, ◌∙◌, inl, inr, arith,
  Bytes, str_eq, str_eq_iff, length, ltb, if◌then◌else◌, Bool-cases, take_all, ltb→lt,
}
use multi_agent.Util.Errno.{Result, err, enoent}
use multi_agent.Agent.Plan.{
  Plan, Registry, name_len, new_plan, create, find_by_name, update_step, update_where,
}
use multi_agent.Agent.Plan.Create.{create_lem}
use multi_agent.Agent.Plan.Lookup.{PlansAreValid, RegistryIsValid, create-IsValid}

-- A name that does not fit its field is cut off when the plan is made, so that no plan is found by it.
find_by_name_long :
    (reg : Registry) (name : Bytes)
    → PlansAreValid reg
    → name_len < length name
    → find_by_name reg name ≡ none
unfolding find_by_name
find_by_name_long [] name v h = refl
find_by_name_long (p ∷ ps) name v h = elim (Bool-cases (str_eq p.name name)) [
  | inl e ↦ absurd (omega (arith, v.1, ap length ((str_eq_iff p.name name).0 e)))
  | inr e ↦ rw e (find_by_name_long ps name v.3 h)
]

find_by_name-append :
    (ps qs : Registry) (name : Bytes)
    → find_by_name (ps ++ qs) name
      ≡ elim (find_by_name ps name) [ none ↦ find_by_name qs name | some p ↦ some p ]
unfolding find_by_name
find_by_name-append [] qs name = refl
find_by_name-append (p ∷ ps) qs name = ground (arith, find_by_name-append ps qs name)

find_by_name_single :
    (p : Plan) (name : Bytes) → p.name ≡ name → find_by_name (p ∷ []) name ≡ some p
unfolding find_by_name
find_by_name_single p name e = rw ((str_eq_iff p.name name).1 e)

kept :
    (reg : Registry) (name : Bytes) (goal : Option Bytes) (descs : List (Option Bytes))
    (draws : ℕ → Option Bytes) {p : Plan} {reg' : Registry}
    → create reg (some name) goal descs draws ≡ (some p, reg')
    → length name ≤ name_len
    → p.name ≡ name
unfolding new_plan
kept reg name goal descs draws h le =
    let c = create_lem reg (some name) goal descs draws h in
    let same : name ≡ c.text = ground (arith, c.named) in
    rw c.plan_is (take_all name_len c.text (omega (arith, ap length same)) ∙ sym same)

-- Behind a successful `create`, the name that was given finds the plan that it found before, and
-- otherwise the new one; but no plan at all if it is longer than its field.
pub create-find_by_name :
    (reg : Registry) (name : Bytes) (goal : Option Bytes) (descs : List (Option Bytes))
    (draws : ℕ → Option Bytes) {p : Plan} {reg' : Registry}
    → RegistryIsValid reg
    → create reg (some name) goal descs draws ≡ (some p, reg')
    → find_by_name reg' name ≡ (
        if ltb name_len (length name)
        then none
        else elim (find_by_name reg name) [ none ↦ some p | some q ↦ some q ])
unfolding new_plan
create-find_by_name reg name goal descs draws {p} {reg'} v h =
    let c = create_lem reg (some name) goal descs draws h in
    elim (Bool-cases (ltb name_len (length name))) [
      | inl e ↦ rw e (
          find_by_name_long reg' name (create-IsValid reg (some name) goal descs draws v h).plans
            (ltb→lt _ _ e))
      | inr e ↦ rw e (
          ground (
            arith,
            c.registry_is,
            find_by_name-append reg (p ∷ []) name,
            find_by_name_single p name (kept reg name goal descs draws h (ground arith)),
          ))
    ]

update_where-none :
    (reg : Registry) (name : Bytes) (f : Plan → Result Plan)
    → find_by_name reg name ≡ none
    → update_where (λ p. str_eq p.name name) f reg ≡ err enoent
unfolding update_where find_by_name
update_where-none [] name f h = refl
update_where-none (p ∷ ps) name f h = ground (arith, update_where-none ps name f)

-- A plan can be created under a name of more than 63 bytes, and no step of it can then be updated
-- under that name.
pub create_long_name :
    (reg : Registry) (name : Bytes) (goal : Option Bytes) (descs : List (Option Bytes))
    (draws : ℕ → Option Bytes) (step_id : ℕ) (status : Bytes) {p : Plan} {reg' : Registry}
    → RegistryIsValid reg
    → create reg (some name) goal descs draws ≡ (some p, reg')
    → name_len < length name
    → update_step reg' (some name) step_id (some status) ≡ err enoent
unfolding update_step
create_long_name reg name goal descs draws step_id status {reg'} v h lt =
    update_where-none reg' name _
      (find_by_name_long reg' name (create-IsValid reg (some name) goal descs draws v h).plans lt)
