-- ===== src/Agent/Plan/Invariant.antt =====
-- src/agent/plan.c: what holds of every plan between the operations.
use multi_agent.Common.{
  ℕ, zero, suc, ◌+◌, ◌-◌, ◌≤◌, ◌<◌, ◌&&◌, Option, none, some, List, [], ◌∷◌, ◌≡◌, refl, inl, inr,
  arith, Bytes, length, take, drop, leb, if◌then◌else◌, Option-cases, length-take,
}
use multi_agent.Util.Errno.{enoent, ok, err}
use multi_agent.Agent.Plan.{
  Step, Plan, max_steps, status_len, in_progress, find_step, find_pending, set_status, advance,
  update_at, update_step_ptr,
}

-- The step at index k has id k + 1, and each status fits its field; counted from i.
abbrev pub Numbered : ℕ → List Step → Type 0
Numbered i [] = Unit
Numbered i (s ∷ ss) = (s.id ≡ i + 1) × (length s.status ≤ status_len) × Numbered (i + 1) ss

abbrev pub ActiveIn : Option ℕ → ℕ → Type 0
ActiveIn none n = Unit
ActiveIn (some a) n = a < n

pub record PlanIsValid (p : Plan) : Type 0 where
  pub numbered : Numbered 0 p.steps
  pub ne_nil : 0 < length p.steps
  pub size : length p.steps ≤ max_steps
  pub active_in : ActiveIn p.active_step (length p.steps)

pub length-set_status :
    (ss : List Step) (i : ℕ) (status : Bytes) → length (set_status ss i status) ≡ length ss
unfolding set_status
length-set_status [] i status = refl
length-set_status (s ∷ ss) zero status = refl
length-set_status (s ∷ ss) (suc i) status = omega (arith, length-set_status ss i status)

length-take-le : (n : ℕ) (s : Bytes) → length (take n s) ≤ n
length-take-le n s = omega (arith, length-take n s)

pub set_status-Numbered :
    (i : ℕ) (ss : List Step) (k : ℕ) (status : Bytes)
    → Numbered i ss
    → Numbered i (set_status ss k status)
unfolding set_status
set_status-Numbered i [] k status n = n
set_status-Numbered i (s ∷ ss) zero status n = (n.0, length-take-le status_len status, n.2)
set_status-Numbered i (s ∷ ss) (suc k) status n =
    (n.0, n.1, set_status-Numbered (i + 1) ss k status n.2)

pub length-drop-le : (n : ℕ) (ss : List Step) → length (drop n ss) ≤ length ss - n
length-drop-le zero ss = omega arith
length-drop-le (suc n) [] = omega arith
length-drop-le (suc n) (s ∷ ss) = omega (arith, length-drop-le n ss)

pub find_pending_bounds :
    (i : ℕ) (ss : List Step) {k : ℕ} → find_pending i ss ≡ some k → (i ≤ k) × (k < i + length ss)
unfolding find_pending
find_pending_bounds i [] h = cc
find_pending_bounds i (s ∷ ss) {k} h = ground (arith, find_pending_bounds (i + 1) ss {k = k})

-- What `advance` does, by the result of the search.
pub advance-none :
    (p : Plan) (idx : ℕ)
    → find_pending (idx + 1) (drop (idx + 1) p.steps) ≡ none
    → advance p idx ≡ record p { active_step = none }
unfolding advance
advance-none p idx h = rw (h, advance)

pub advance-some :
    (p : Plan) (idx next : ℕ)
    → find_pending (idx + 1) (drop (idx + 1) p.steps) ≡ some next
    → advance p idx
      ≡ record p { active_step = some next; steps = set_status p.steps next in_progress }
unfolding advance
advance-some p idx next h = rw (h, advance)

-- The step that `advance` activates lies behind the one that ended, inside the array.
pub next_bounds :
    (ss : List Step) (idx : ℕ) {next : ℕ}
    → find_pending (idx + 1) (drop (idx + 1) ss) ≡ some next
    → (idx < next) × (next < length ss)
next_bounds ss idx {next} h =
    let b = find_pending_bounds (idx + 1) (drop (idx + 1) ss) {k = next} h in
    (omega (arith, b.0), omega (arith, b.1, length-drop-le (idx + 1) ss))

set_status-IsValid :
    (p : Plan) (k : ℕ) (status : Bytes) (a : Option ℕ)
    → PlanIsValid p
    → ActiveIn a (length p.steps)
    → PlanIsValid (record p { steps = set_status p.steps k status; active_step = a })
set_status-IsValid p k status a v h = record {
  numbered = set_status-Numbered 0 p.steps k status v.numbered;
  ne_nil = omega (arith, v.ne_nil, length-set_status p.steps k status);
  size = omega (arith, v.size, length-set_status p.steps k status);
  active_in = rw length-set_status h;
}

pub advance-IsValid : (p : Plan) (idx : ℕ) → PlanIsValid p → PlanIsValid (advance p idx)
advance-IsValid p idx v = elim (Option-cases (find_pending (idx + 1) (drop (idx + 1) p.steps))) [
  | inl h ↦
      rw (advance-none p idx h)
        (record { numbered = v.numbered; ne_nil = v.ne_nil; size = v.size; active_in = tt })
  | inr (next, h) ↦
      rw (advance-some p idx next h)
        (set_status-IsValid p next in_progress (some next) v (next_bounds p.steps idx h).1)
]

pub update_at-IsValid :
    (p : Plan) (idx : ℕ) (status : Bytes)
    → PlanIsValid p
    → idx < length p.steps
    → PlanIsValid (update_at p idx status)
unfolding update_at
update_at-IsValid p idx status v h = ground (
  arith,
  set_status-IsValid p idx status p.active_step v v.active_in,
  set_status-IsValid p idx status (some idx) v h,
  advance-IsValid (record p { steps = set_status p.steps idx status }) idx,
)

-- On a numbered array the search for an id is arithmetic.
pub find_step-Numbered :
    (i : ℕ) (ss : List Step) (step_id : ℕ)
    → Numbered i ss
    → find_step i ss step_id
      ≡ (if leb (i + 1) step_id && leb step_id (i + length ss) then some (step_id - 1) else none)
unfolding find_step
find_step-Numbered i [] step_id n = ground arith
find_step-Numbered i (s ∷ ss) step_id n = ground (arith, find_step-Numbered (i + 1) ss step_id n.2)

-- Step ids count from 1: an id within the array updates the step at the index below it, and any
-- other id is ENOENT.
pub update_step_ptr-Numbered :
    (p : Plan) (step_id : ℕ) (status : Bytes)
    → Numbered 0 p.steps
    → update_step_ptr p step_id status ≡ (
        if leb 1 step_id && leb step_id (length p.steps)
        then ok (update_at p (step_id - 1) status)
        else err enoent)
unfolding update_step_ptr
update_step_ptr-Numbered p step_id status n = ground (arith, find_step-Numbered 0 p.steps step_id n)

pub update_step_ptr-IsValid :
    (p : Plan) (step_id : ℕ) (status : Bytes) {q : Plan}
    → PlanIsValid p
    → update_step_ptr p step_id status ≡ ok q
    → PlanIsValid q
update_step_ptr-IsValid p step_id status v h = ground (
  arith,
  update_step_ptr-Numbered p step_id status v.numbered,
  update_at-IsValid p (step_id - 1) status v,
)
