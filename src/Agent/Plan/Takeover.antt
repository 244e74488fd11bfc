-- ===== src/Agent/Plan/Takeover.antt =====
-- src/agent/plan.c: which step follows the one that ends.
use multi_agent.Common.{
  ℕ, zero, suc, ◌+◌, ◌-◌, ◌<◌, true, false, Option, none, some, List, [], ◌∷◌, ◌≡◌, ◌≢◌, ◌⊎◌, refl,
  sym, ap, ◌∙◌, subst, inl, inr, arith, Bytes, str_eq, str_eq_iff, length, get_elem?, set, take,
  drop, Bool-cases, Option-cases, get_elem?-set_self, get_elem?-set_ne,
}
use mathlib.Core.Bool.{true≢false}
use native.Mathlib.Numerals.{add-one}
use multi_agent.Agent.Plan.{
  Step, Plan, pending, in_progress, status_len, find_pending, set_status, is_terminal, is_active,
  advance, update_at,
}
use multi_agent.Agent.Plan.Invariant.{advance-none, advance-some}
use multi_agent.Agent.Plan.Update.{
  statuses, SoleActive, statuses-set_status, length-statuses, terminal_fits, update_at_terminal,
  is_active_iff, update_at-Sole,
}

-- Step j is the first pending one behind step idx.
abbrev pub IsNext : List Bytes → ℕ → ℕ → Type 0
IsNext xs idx j =
    (idx < j)
    × (get_elem? xs j ≡ some pending)
    × ((k : ℕ) → idx < k → k < j → get_elem? xs k ≢ some pending)

-- No step behind step idx is pending.
abbrev pub NoneWaits : List Bytes → ℕ → Type 0
NoneWaits xs idx = (k : ℕ) → idx < k → get_elem? xs k ≢ some pending

-- The active step behind the end of step idx, which was the active one.
abbrev pub TakesOver : List Bytes → ℕ → Option ℕ → Type 0
TakesOver xs idx active =
    ((j : ℕ) × IsNext xs idx j × (active ≡ some j)) ⊎ (NoneWaits xs idx × (active ≡ none))

-- The first pending element of a list, or that there is none.
abbrev Search : List Bytes → ℕ → Option ℕ → Type 0
Search xs i result =
    ((m : ℕ) × (result ≡ some (i + m))
      × (get_elem? xs m ≡ some pending)
      × ((k : ℕ) → k < m → get_elem? xs k ≢ some pending))
    ⊎ ((result ≡ none) × ((k : ℕ) → get_elem? xs k ≢ some pending))

find_pending-Search : (i : ℕ) (ss : List Step) → Search (statuses ss) i (find_pending i ss)
unfolding find_pending
find_pending-Search i [] = inr (refl, λ k. ground arith)
find_pending-Search i (s ∷ ss) = elim (Bool-cases (str_eq s.status pending)) [
  | inl here ↦ inl (
    0,
    rw (find_pending, here) (ap some (omega arith)),
    ap some ((str_eq_iff s.status pending).0 here),
    λ k below. absurd (omega arith),
  )
  | inr other ↦ elim (find_pending-Search (i + 1) ss) [
    | inl (m, found, at, first) ↦ inl (
      suc m,
      rw (find_pending, other) (found ∙ ap some (omega arith)),
      at,
      λ k below. earlier m first k below other,
    )
    | inr (gone, never) ↦ inr (rw (find_pending, other) gone, λ k. later never k other)
  ]
]
  where
    here_not : str_eq s.status pending ≡ false → some s.status ≢ some pending
    here_not other = λ e. ground (arith, str_eq_iff s.status pending)

    later :
        ((k : ℕ) → get_elem? (statuses ss) k ≢ some pending)
        → (k : ℕ) → str_eq s.status pending ≡ false
        → get_elem? (statuses (s ∷ ss)) k ≢ some pending
    later never zero other = here_not other
    later never (suc k) other = never k

    earlier :
        (m : ℕ)
        → ((k : ℕ) → k < m → get_elem? (statuses ss) k ≢ some pending)
        → (k : ℕ) → k < suc m
        → str_eq s.status pending ≡ false
        → get_elem? (statuses (s ∷ ss)) k ≢ some pending
    earlier m first zero below other = here_not other
    earlier m first (suc k) below other = first k (omega arith)

get_elem?-drop :
    (ss : List Step) (n k : ℕ)
    → get_elem? (statuses (drop n ss)) k ≡ get_elem? (statuses ss) (n + k)
get_elem?-drop ss zero k = ap (get_elem? (statuses ss)) (omega arith)
get_elem?-drop [] (suc n) k = refl
get_elem?-drop (s ∷ ss) (suc n) k =
    get_elem?-drop ss n k ∙ sym (ap (get_elem? (statuses (s ∷ ss))) (shift n k))
  where
    shift : (n k : ℕ) → suc n + k ≡ suc (n + k)
    shift n k = omega arith

-- The search behind a step, in terms of the whole array.
behind_step :
    (ss : List Step) (idx : ℕ)
    → TakesOver (statuses ss) idx (find_pending (idx + 1) (drop (idx + 1) ss))
behind_step ss idx = elim (find_pending-Search (idx + 1) (drop (idx + 1) ss)) [
  | inl (m, found, at, first) ↦ inl (
    idx + 1 + m,
    (
      omega arith,
      sym (get_elem?-drop ss (idx + 1) m) ∙ at,
      λ k above below e. first (k - (idx + 1)) (omega arith) (shifted k above ∙ e),
    ),
    found,
  )
  | inr (gone, never) ↦ inr (λ k above e. never (k - (idx + 1)) (shifted k above ∙ e), gone)
]
  where
    shifted :
        (k : ℕ)
        → idx < k
        → get_elem? (statuses (drop (idx + 1) ss)) (k - (idx + 1)) ≡ get_elem? (statuses ss) k
    shifted k above =
        get_elem?-drop ss (idx + 1) (k - (idx + 1)) ∙ ap (get_elem? (statuses ss)) (omega arith)

drop-set_status :
    (ss : List Step) (idx : ℕ) (o : Bytes)
    → drop (suc idx) (set_status ss idx o) ≡ drop (suc idx) ss
unfolding set_status
drop-set_status [] idx o = refl
drop-set_status (s ∷ ss) zero o = refl
drop-set_status (s ∷ ss) (suc idx) o = drop-set_status ss idx o

-- The plan with the status of a step written, before the next step is looked for.
abbrev written : Plan → ℕ → Bytes → Plan
written p idx o = record p { steps = set_status p.steps idx o }

advance-active :
    (p : Plan) (idx : ℕ)
    → (advance p idx).active_step ≡ find_pending (idx + 1) (drop (idx + 1) p.steps)
advance-active p idx = elim (Option-cases (find_pending (idx + 1) (drop (idx + 1) p.steps))) [
  | inl gone ↦ ap (λ q. q.active_step) (advance-none p idx gone) ∙ sym gone
  | inr (next, found) ↦ ap (λ q. q.active_step) (advance-some p idx next found) ∙ sym found
]

advance-statuses :
    (p : Plan) (idx k : ℕ)
    → (advance p idx).active_step ≢ some k
    → get_elem? (statuses (advance p idx).steps) k ≡ get_elem? (statuses p.steps) k
advance-statuses p idx k other =
    elim (Option-cases (find_pending (idx + 1) (drop (idx + 1) p.steps))) [
      | inl gone ↦ ap (λ q. get_elem? (statuses q.steps) k) (advance-none p idx gone)
      | inr (next, found) ↦
          ap (λ q. get_elem? (statuses q.steps) k) (advance-some p idx next found)
          ∙ ap (λ xs. get_elem? xs k) (statuses-set_status p.steps next in_progress)
          ∙ get_elem?-set_ne (statuses p.steps) next k (take status_len in_progress)
              (λ same. other (advance-active p idx ∙ found ∙ ap some same))
    ]

-- The statuses behind the writing of a terminal one.
written-statuses :
    (p : Plan) (idx : ℕ) (o : Bytes)
    → is_terminal o ≡ true
    → statuses (written p idx o).steps ≡ set (statuses p.steps) idx o
written-statuses p idx o t =
    statuses-set_status p.steps idx o ∙ ap (set (statuses p.steps) idx) (terminal_fits o t).0

-- What an end of step idx leaves of a plan, but for the step in progress.
abbrev pub Ended : Plan → ℕ → Bytes → Plan → Type 0
Ended p idx o q =
    (p.active_step ≡ some idx → TakesOver (statuses p.steps) idx q.active_step)
    × (p.active_step ≢ some idx → q.active_step ≡ p.active_step)
    × (get_elem? (statuses q.steps) idx ≡ some o)
    × ((k : ℕ)
        → k ≢ idx
        → q.active_step ≢ some k
        → get_elem? (statuses q.steps) k ≡ get_elem? (statuses p.steps) k)

written-kept :
    (p : Plan) (idx : ℕ) (o : Bytes)
    → idx < length p.steps
    → is_terminal o ≡ true
    → (get_elem? (statuses (written p idx o).steps) idx ≡ some o)
      × ((k : ℕ)
          → k ≢ idx
          → get_elem? (statuses (written p idx o).steps) k ≡ get_elem? (statuses p.steps) k)
written-kept p idx o lt t = (
  ap (λ xs. get_elem? xs idx) (written-statuses p idx o t)
      ∙ get_elem?-set_self (statuses p.steps) idx o (omega (arith, length-statuses p.steps)),
  λ k apart.
      ap (λ xs. get_elem? xs k) (written-statuses p idx o t)
      ∙ get_elem?-set_ne (statuses p.steps) idx k o (λ same. apart (sym same)),
)

-- The search behind the step, before and after its status is written.
written-search :
    (p : Plan) (idx : ℕ) (o : Bytes)
    → find_pending (idx + 1) (drop (idx + 1) (written p idx o).steps)
      ≡ find_pending (idx + 1) (drop (idx + 1) p.steps)
written-search p idx o = ap (find_pending (idx + 1)) (rw add-one (drop-set_status p.steps idx o))

advanced-Ended :
    (p : Plan) (idx : ℕ) (o : Bytes)
    → idx < length p.steps
    → is_terminal o ≡ true
    → p.active_step ≡ some idx
    → Ended p idx o (advance (written p idx o) idx)
advanced-Ended p idx o lt t active =
    let found = advance-active (written p idx o) idx ∙ written-search p idx o in
    let kept = written-kept p idx o lt t in
    let next : TakesOver (statuses p.steps) idx (advance (written p idx o) idx).active_step =
      subst (TakesOver (statuses p.steps) idx) (sym found) (behind_step p.steps idx) in
    (
      λ here. next,
      λ other. absurd (other active),
      advance-statuses (written p idx o) idx idx (not_itself (statuses p.steps) idx _ next)
          ∙ kept.0,
      λ k apart idle. advance-statuses (written p idx o) idx k idle ∙ kept.1 k apart,
    )
  where
    not_itself : (xs : List Bytes) (i : ℕ) (a : Option ℕ) → TakesOver xs i a → a ≢ some i
    not_itself xs i a (inl (j, next, at)) e = ground (arith, next.0, at, e)
    not_itself xs i a (inr (never, at)) e = ground (arith, at, e)

-- in a plan whose active step is the only one in progress, a terminal status for any step of the array is written, and the active step is the only one in progress afterwards too; where the active step ends, the first pending step behind it takes over, and no step is active if there is none; where another step ends, the active step stays; and the statuses of all other steps but the one that takes over are as they were.
pub update_at-SoleActive :
    (p : Plan) (idx : ℕ) (o : Bytes)
    → SoleActive p
    → idx < length p.steps
    → is_terminal o ≡ true
    → SoleActive (update_at p idx o) × Ended p idx o (update_at p idx o)
update_at-SoleActive p idx o sole lt t = (
  update_at-Sole p idx o sole lt t,
  elim (Bool-cases (is_active p idx)) [
    | inl here ↦
        let run : update_at p idx o ≡ advance (written p idx o) idx =
          update_at_terminal p idx o t ∙ rw here refl in
        subst (Ended p idx o) (sym run) (advanced-Ended p idx o lt t ((is_active_iff p idx).0 here))
    | inr other ↦
        let run : update_at p idx o ≡ written p idx o =
          update_at_terminal p idx o t ∙ rw other refl in
        let kept = written-kept p idx o lt t in
        subst (Ended p idx o) (sym run) (
          λ active. absurd (true≢false (sym ((is_active_iff p idx).1 active) ∙ other)),
          λ apart. refl,
          kept.0,
          λ k apart idle. kept.1 k apart,
        )
  ],
)
