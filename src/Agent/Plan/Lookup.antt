-- ===== src/Agent/Plan/Lookup.antt =====
-- src/agent/plan.c: finding plans, and updates through the registry.
use multi_agent.Common.{
  ℕ, zero, suc, ◌+◌, ◌≤◌, Bool, true, false, Option, none, some, List, [], ◌∷◌, ◌++◌, ◌≡◌, refl, ap,
  ◌∙◌, ◌⊎◌, inl, inr, arith, Bytes, str_eq, str_eq_iff, length, if◌then◌else◌, Bool-cases,
  length-take, length-append,
}
use multi_agent.Util.Errno.{Result, ok, Result-cases}
use multi_agent.Agent.Plan.{
  Plan, Registry, max_plans, name_len, generate_id, generate_id_from, new_plan, create, find_by_id,
  update_step_ptr, update_step, update_step_by_id, update_where, update_at, advance,
}
use multi_agent.Agent.Plan.Invariant.{PlanIsValid, update_step_ptr-IsValid}
use multi_agent.Agent.Plan.Create.{create_lem, new_plan-IsValid}

-- Every plan is valid, has a name that fits its field, and an id that no later plan has.
abbrev pub PlansAreValid : Registry → Type 0
PlansAreValid [] = Unit
PlansAreValid (p ∷ ps) =
    PlanIsValid p × (length p.name ≤ name_len) × (find_by_id ps p.id ≡ none) × PlansAreValid ps

pub record RegistryIsValid (reg : Registry) : Type 0 where
  pub plans : PlansAreValid reg
  pub room : length reg ≤ max_plans

-- An identifier that has been generated is not in use.
generate_id_from-fresh :
    (tries i : ℕ) (reg : Registry) (draws : ℕ → Option Bytes) {id : Bytes}
    → generate_id_from tries i reg draws ≡ ok id
    → find_by_id reg id ≡ none
unfolding generate_id_from
generate_id_from-fresh zero i reg draws h = absurd (ground arith)
generate_id_from-fresh (suc tries) i reg draws {id} h =
    ground (arith, generate_id_from-fresh tries (i + 1) reg draws {id = id})

-- Updates of a plan keep its id and its name.
pub update_step_ptr-keeps :
    (p : Plan) (step_id : ℕ) (status : Bytes) {q : Plan}
    → update_step_ptr p step_id status ≡ ok q
    → (q.id ≡ p.id) × (q.name ≡ p.name)
unfolding update_step_ptr update_at advance
update_step_ptr-keeps p step_id status h = ground arith

find_by_id-append :
    (ps qs : Registry) (id : Bytes)
    → find_by_id (ps ++ qs) id
      ≡ elim (find_by_id ps id) [ none ↦ find_by_id qs id | some p ↦ some p ]
unfolding find_by_id
find_by_id-append [] qs id = refl
find_by_id-append (p ∷ ps) qs id = ground (arith, find_by_id-append ps qs id)

PlansAreValid-append :
    (ps : Registry) (p : Plan)
    → PlansAreValid ps
    → PlanIsValid p
    → length p.name ≤ name_len
    → find_by_id ps p.id ≡ none
    → PlansAreValid (ps ++ (p ∷ []))
unfolding find_by_id
PlansAreValid-append [] p v pv n f = (pv, n, refl, tt)
PlansAreValid-append (r ∷ ps) p v pv n f = (
  v.0,
  v.1,
  ground (arith, find_by_id-append ps (p ∷ []) r.id, str_eq_iff r.id p.id, str_eq_iff p.id r.id),
  PlansAreValid-append ps p v.3 pv n (ground arith),
)

pub create-fresh :
    (reg : Registry) (name goal : Option Bytes) (descs : List (Option Bytes))
    (draws : ℕ → Option Bytes) {p : Plan} {reg' : Registry}
    → create reg name goal descs draws ≡ (some p, reg')
    → find_by_id reg p.id ≡ none
unfolding generate_id new_plan
create-fresh reg name goal descs draws h =
    let c = create_lem reg name goal descs draws h in
    rw c.plan_is (generate_id_from-fresh 16 0 reg draws c.drawn)

-- A plan that has been created is found by its id, and every other id finds what it found before.
pub create-find_by_id :
    (reg : Registry) (name goal : Option Bytes) (descs : List (Option Bytes))
    (draws : ℕ → Option Bytes) {p : Plan} {reg' : Registry}
    → create reg name goal descs draws ≡ (some p, reg')
    → (j : Bytes) → find_by_id reg' j ≡ (if str_eq p.id j then some p else find_by_id reg j)
unfolding find_by_id
create-find_by_id reg name goal descs draws {p} h j =
    let c = create_lem reg name goal descs draws h in
    rw c.registry_is (
      ground (
        arith,
        find_by_id-append reg (p ∷ []) j,
        create-fresh reg name goal descs draws h,
        str_eq_iff p.id j,
      ))

-- Creating a plan keeps the registry valid.
pub create-IsValid :
    (reg : Registry) (name goal : Option Bytes) (descs : List (Option Bytes))
    (draws : ℕ → Option Bytes) {p : Plan} {reg' : Registry}
    → RegistryIsValid reg
    → create reg name goal descs draws ≡ (some p, reg')
    → RegistryIsValid reg'
unfolding new_plan
create-IsValid reg name goal descs draws {p} v h =
    let c = create_lem reg name goal descs draws h in
    rw c.registry_is (record {
      plans =
          PlansAreValid-append reg p v.plans
            (rw c.plan_is (new_plan-IsValid c.id c.text goal descs c.steps_ne_nil))
            (rw c.plan_is (omega (arith, length-take name_len c.text)))
            (create-fresh reg name goal descs draws h);
      room = omega (arith, c.room, length-append reg (p ∷ []));
    })

-- Inversion of an update that has found its plan.
update_where-cons :
    (test : Plan → Bool) (f : Plan → Result Plan) (p : Plan) (ps : Registry) {reg' : Registry}
    → update_where test f (p ∷ ps) ≡ ok reg'
    → ((q : Plan) × (f p ≡ ok q) × (reg' ≡ q ∷ ps) × (test p ≡ true))
      ⊎ ((qs : Registry) × (update_where test f ps ≡ ok qs) × (reg' ≡ p ∷ qs) × (test p ≡ false))
unfolding update_where
update_where-cons test f p ps {reg'} h = elim (Bool-cases (test p)) [
  | inl t ↦ elim (Result-cases (f p)) [
    | inl (q, e) ↦ inl (q, e, ground arith, t)
    | inr (er, e) ↦ absurd (ground arith)
  ]
  | inr t ↦ elim (Result-cases (update_where test f ps)) [
    | inl (qs, e) ↦ inr (qs, e, ground arith, t)
    | inr (er, e) ↦ absurd (ground arith)
  ]
]

-- The update of the first plan that a test picks, by a function that keeps ids, names and validity.
module _ (test : Plan → Bool) (f : Plan → Result Plan)
    (keeps : (p q : Plan) → f p ≡ ok q → (q.id ≡ p.id) × (q.name ≡ p.name))
    (valid : (p q : Plan) → PlanIsValid p → f p ≡ ok q → PlanIsValid q) where
  update_where-find_none :
      (reg : Registry) {reg' : Registry} (j : Bytes)
      → update_where test f reg ≡ ok reg'
      → find_by_id reg j ≡ none
      → find_by_id reg' j ≡ none
  unfolding find_by_id
  update_where-find_none [] j h e = absurd (unfold update_where in ground arith)
  update_where-find_none (p ∷ ps) j h e = elim (update_where-cons test f p ps h) [
    | inl (q, fq, r, t) ↦ rw r (ground (arith, keeps p q fq))
    | inr (qs, u, r, t) ↦ rw r (ground (arith, update_where-find_none ps j u))
  ]

  update_where-IsValid :
      (reg : Registry) {reg' : Registry}
      → update_where test f reg ≡ ok reg'
      → PlansAreValid reg
      → PlansAreValid reg'
  update_where-IsValid [] h v = absurd (unfold update_where in ground arith)
  update_where-IsValid (p ∷ ps) h v = elim (update_where-cons test f p ps h) [
    | inl (q, fq, r, t) ↦
        rw r (valid p q v.0 fq, rw (keeps p q fq).1 v.1, rw (keeps p q fq).0 v.2, v.3)
    | inr (qs, u, r, t) ↦
        rw r (v.0, v.1, update_where-find_none ps p.id u v.2, update_where-IsValid ps u v.3)
  ]

length-update_where :
    (test : Plan → Bool) (f : Plan → Result Plan) (reg : Registry) {reg' : Registry}
    → update_where test f reg ≡ ok reg'
    → length reg' ≡ length reg
length-update_where test f [] h = absurd (unfold update_where in ground arith)
length-update_where test f (p ∷ ps) h = elim (update_where-cons test f p ps h) [
  | inl (q, fq, r, t) ↦ ap length r
  | inr (qs, u, r, t) ↦ ap length r ∙ ap suc (length-update_where test f ps u)
]

step_keeps :
    (step_id : ℕ) (status : Bytes) (p q : Plan)
    → update_step_ptr p step_id status ≡ ok q
    → (q.id ≡ p.id) × (q.name ≡ p.name)
step_keeps step_id status p q h = update_step_ptr-keeps p step_id status h

step_valid :
    (step_id : ℕ) (status : Bytes) (p q : Plan)
    → PlanIsValid p
    → update_step_ptr p step_id status ≡ ok q
    → PlanIsValid q
step_valid step_id status p q v h = update_step_ptr-IsValid p step_id status v h

-- An update of a step, of the plan with a name or an id, keeps the registry valid.
pub update_step-IsValid :
    (reg : Registry) (key status : Option Bytes) (step_id : ℕ) {reg' : Registry}
    → RegistryIsValid reg
    → (update_step reg key step_id status ≡ ok reg')
      ⊎ (update_step_by_id reg key step_id status ≡ ok reg')
    → RegistryIsValid reg'
unfolding update_step update_step_by_id
update_step-IsValid reg none status step_id v (inl h) = absurd (ground arith)
update_step-IsValid reg none status step_id v (inr h) = absurd (ground arith)
update_step-IsValid reg (some key) none step_id v (inl h) = absurd (ground arith)
update_step-IsValid reg (some key) none step_id v (inr h) = absurd (ground arith)
update_step-IsValid reg (some key) (some status) step_id v (inl h) = record {
  plans =
      update_where-IsValid _ _ (step_keeps step_id status) (step_valid step_id status) reg h
        v.plans;
  room = rw (length-update_where _ _ reg h) v.room;
}
update_step-IsValid reg (some key) (some status) step_id v (inr h) = record {
  plans =
      update_where-IsValid _ _ (step_keeps step_id status) (step_valid step_id status) reg h
        v.plans;
  room = rw (length-update_where _ _ reg h) v.room;
}

-- An update by id that succeeds has updated the plan that the id finds, and no other id finds
-- anything new.
pub find_by_id-update :
    (reg : Registry) (id status : Bytes) (step_id : ℕ) {reg' : Registry}
    → update_step_by_id reg (some id) step_id (some status) ≡ ok reg'
    → (p q : Plan) × (find_by_id reg id ≡ some p)
      × (update_step_ptr p step_id status ≡ ok q)
      × ((j : Bytes) → find_by_id reg' j ≡ (if str_eq id j then some q else find_by_id reg j))
unfolding update_step_by_id find_by_id
find_by_id-update [] id status step_id h = absurd (unfold update_where in ground arith)
find_by_id-update (p ∷ ps) id status step_id h =
    elim (update_where-cons (λ r. str_eq r.id id) (λ r. update_step_ptr r step_id status) p ps h) [
      | inl (q, fq, r, t) ↦ (
        p,
        q,
        rw t,
        fq,
        λ j. rw r (
            ground (
              arith,
              update_step_ptr-keeps p step_id status fq,
              str_eq_iff p.id id,
              str_eq_iff p.id j,
              str_eq_iff q.id j,
              str_eq_iff id j,
            )),
      )
      | inr (qs, u, r, t) ↦
          let (p', q', found, done, others) = find_by_id-update ps id status step_id u in
          (
            p',
            q',
            rw t found,
            done,
            λ j.
                rw r (
                  ground (arith, others j, str_eq_iff p.id id, str_eq_iff p.id j, str_eq_iff id j)),
          )
    ]
