-- ===== src/Agent/Plan/Update.antt =====
-- src/agent/plan.c: which step is in progress.
use multi_agent.Common.{
  ℕ, zero, suc, ◌+◌, ◌<◌, true, Option, none, some, List, [], ◌∷◌, map, ◌≡◌, refl, ap, subst, ◌≢◌,
  ◌↔◌, inl, inr, arith, Bytes, str_eq, str_eq_iff, length, get_elem?, set, take, drop,
  if◌then◌else◌, Bool-cases, Option-cases, get_elem?-set,
}
use native.Mathlib.Numerals.{add-one}
use multi_agent.Agent.Plan.{
  Step, Plan, pending, in_progress, completed, failed, skipped, status_len, find_pending,
  set_status, is_terminal, is_active, advance, update_at, create_steps,
}
use multi_agent.Agent.Plan.Invariant.{advance-none, advance-some, next_bounds}

abbrev pub statuses : List Step → List Bytes
statuses ss = map (λ s. s.status) ss

-- The active step is the one that is in progress, and there is no other.
abbrev pub SoleActive : Plan → Type 0
SoleActive p =
    (j : ℕ) → (get_elem? (statuses p.steps) j ≡ some in_progress) ↔ (p.active_step ≡ some j)

pub statuses-set_status :
    (ss : List Step) (i : ℕ) (status : Bytes)
    → statuses (set_status ss i status) ≡ set (statuses ss) i (take status_len status)
unfolding set_status
statuses-set_status [] i status = refl
statuses-set_status (s ∷ ss) zero status = refl
statuses-set_status (s ∷ ss) (suc i) status = ap (◌∷◌ s.status) (statuses-set_status ss i status)

pub length-statuses : (ss : List Step) → length (statuses ss) ≡ length ss
length-statuses [] = refl
length-statuses (s ∷ ss) = ap suc (length-statuses ss)

-- A terminal status fits its field, and is not "in_progress".
pub terminal_fits :
    (o : Bytes) → is_terminal o ≡ true → (take status_len o ≡ o) × (o ≢ in_progress) × (o ≢ pending)
unfolding is_terminal
terminal_fits o h =
    ground (arith, str_eq_iff o completed, str_eq_iff o failed, str_eq_iff o skipped)

-- `SoleActive`, of the statuses and the index alone.
abbrev Sole : List Bytes → Option ℕ → Type 0
Sole xs a = (j : ℕ) → (get_elem? xs j ≡ some in_progress) ↔ (a ≡ some j)

Sole-keep :
    (xs : List Bytes) (a : Option ℕ) (i : ℕ) (o : Bytes)
    → Sole xs a
    → a ≢ some i
    → o ≢ in_progress
    → Sole (set xs i o) a
Sole-keep xs a i o h ne on j = ground (arith, h j, get_elem?-set xs i j o)

Sole-clear :
    (xs : List Bytes) (i : ℕ) (o : Bytes)
    → Sole xs (some i)
    → i < length xs
    → o ≢ in_progress
    → Sole (set xs i o) none
Sole-clear xs i o h lt on j = ground (arith, h j, get_elem?-set xs i j o)

Sole-start :
    (xs : List Bytes) (k : ℕ) → Sole xs none → k < length xs → Sole (set xs k in_progress) (some k)
Sole-start xs k h lt j = ground (arith, h j, get_elem?-set xs k j in_progress)

-- A terminal status on the active step: the plan when the search behind it has been made.
pub update_at_terminal :
    (p : Plan) (idx : ℕ) (o : Bytes)
    → is_terminal o ≡ true
    → update_at p idx o ≡ (
        if is_active p idx
        then advance (record p { steps = set_status p.steps idx o }) idx
        else record p { steps = set_status p.steps idx o })
unfolding update_at
update_at_terminal p idx o h = rw h

advance-Sole : (p : Plan) (idx : ℕ) → Sole (statuses p.steps) none → SoleActive (advance p idx)
advance-Sole p idx h = elim (Option-cases (find_pending (idx + 1) (drop (idx + 1) p.steps))) [
  | inl e ↦ rw (advance-none p idx e) h
  | inr (next, e) ↦
      rw (advance-some p idx next e, statuses-set_status)
        (Sole-start (statuses p.steps) next h
          (omega (arith, next_bounds p.steps idx e, length-statuses p.steps)))
]

pub is_active_iff : (p : Plan) (idx : ℕ) → (is_active p idx ≡ true) ↔ (p.active_step ≡ some idx)
is_active_iff p idx = ground arith

pub update_at-Sole :
    (p : Plan) (idx : ℕ) (o : Bytes)
    → SoleActive p
    → idx < length p.steps
    → is_terminal o ≡ true
    → SoleActive (update_at p idx o)
update_at-Sole p idx o h lt t =
    rw (update_at_terminal p idx o t) (elim (Bool-cases (is_active p idx)) [
      | inl e ↦ rw e (
          advance-Sole (record p { steps = set_status p.steps idx o }) idx
            (rw (statuses-set_status, (terminal_fits o t).0)
              (Sole-clear (statuses p.steps) idx o
                (subst (Sole (statuses p.steps)) ((is_active_iff p idx).0 e) h)
                (omega (arith, length-statuses p.steps)) (terminal_fits o t).1)))
      | inr e ↦
          rw (e, statuses-set_status, (terminal_fits o t).0)
            (Sole-keep (statuses p.steps) p.active_step idx o h
              (λ a. ground (arith, is_active_iff p idx)) (terminal_fits o t).1)
    ])

-- Starting a step when no other one is active makes it the active one.
pub start-SoleActive :
    (p : Plan) (idx : ℕ)
    → SoleActive p
    → idx < length p.steps
    → p.active_step ≡ none
    → SoleActive (update_at p idx in_progress)
unfolding update_at is_terminal str_eq
start-SoleActive p idx h lt e = rw statuses-set_status (
    Sole-start (statuses p.steps) idx (subst (Sole (statuses p.steps)) e h)
      (omega (arith, length-statuses p.steps)))

-- The steps of a new plan: the first is in progress, and all others wait.
create_steps-pending :
    (i : ℕ) (ds : List (Option Bytes)) (j : ℕ)
    → get_elem? (statuses (create_steps (suc i) ds)) j ≢ some in_progress
unfolding create_steps
create_steps-pending i [] j = ground arith
create_steps-pending i (d ∷ ds) zero = ground arith
create_steps-pending i (d ∷ ds) (suc j) = rw add-one (create_steps-pending (suc i) ds j)

pub create_steps-Sole :
    (d : Option Bytes) (ds : List (Option Bytes))
    → Sole (statuses (create_steps 0 (d ∷ ds))) (some 0)
unfolding create_steps
create_steps-Sole d ds zero = ground arith
create_steps-Sole d ds (suc j) = ground (arith, create_steps-pending 0 ds j)
