-- ===== src/Agent/Plan/Progress.antt =====
-- src/agent/plan.c: working through a plan from its first step to its last.
use multi_agent.Common.{
  ℕ, suc, ◌+◌, ◌<◌, true, none, some, List, [], ◌∷◌, ◌++◌, append_assoc, ◌≡◌, refl, ap, ◌∙◌, arith,
  Bytes, str_eq, length, take, drop, length-take, length-append,
}
use multi_agent.Util.Errno.{Result, ok, err}
use native.Mathlib.Numerals.{add-one}
use multi_agent.Agent.Plan.{
  Step, Plan, pending, in_progress, status_len, find_pending, set_status, is_terminal, advance,
  update_step_ptr,
}
use multi_agent.Agent.Plan.Invariant.{
  Numbered, update_step_ptr-Numbered, advance-none, advance-some,
}
use multi_agent.Agent.Plan.Update.{statuses, terminal_fits, update_at_terminal, is_active_iff}

-- A client reports an outcome for each step in turn, by the ids from step_id on.
unfoldable pub report : Plan → ℕ → List Bytes → Result Plan
report p step_id [] = ok p
report p step_id (o ∷ os) = elim (update_step_ptr p step_id o) [
  | err e ↦ err e
  | ok q ↦ report q (step_id + 1) os
]

abbrev pub AllTerminal : List Bytes → Type 0
AllTerminal [] = Unit
AllTerminal (o ∷ os) = (is_terminal o ≡ true) × AllTerminal os

abbrev pub AllPending : List Step → Type 0
AllPending [] = Unit
AllPending (s ∷ ss) = (s.status ≡ pending) × AllPending ss

set_status-append :
    (xs : List Step) (s : Step) (ys : List Step) (o : Bytes)
    → set_status (xs ++ (s ∷ ys)) (length xs) o
      ≡ xs ++ (record s { status = take status_len o } ∷ ys)
unfolding set_status
set_status-append [] s ys o = refl
set_status-append (x ∷ xs) s ys o = ap (◌∷◌ x) (set_status-append xs s ys o)

drop-append :
    (xs : List Step) (s : Step) (ys : List Step) → drop (suc (length xs)) (xs ++ (s ∷ ys)) ≡ ys
drop-append [] s ys = refl
drop-append (x ∷ xs) s ys = drop-append xs s ys

set_status-append_suc :
    (xs : List Step) (s t : Step) (ys : List Step) (o : Bytes)
    → set_status (xs ++ (s ∷ t ∷ ys)) (suc (length xs)) o
      ≡ xs ++ (s ∷ record t { status = take status_len o } ∷ ys)
unfolding set_status
set_status-append_suc [] s t ys o = refl
set_status-append_suc (x ∷ xs) s t ys o = ap (◌∷◌ x) (set_status-append_suc xs s t ys o)

-- The plan in which `cur` is at work, behind the steps `xs` that have ended.
abbrev working : Plan → List Step → Step → List Step → Plan
working p xs cur rest = record p { steps = xs ++ (cur ∷ rest); active_step = some (length xs) }

abbrev ended : Step → Bytes → Step
ended s o = record s { status = o }

-- A terminal status for the active step, at index k.
update_active :
    (p : Plan) (k : ℕ) (o : Bytes)
    → Numbered 0 p.steps
    → k < length p.steps
    → p.active_step ≡ some k
    → is_terminal o ≡ true
    → update_step_ptr p (k + 1) o ≡ ok (advance (record p { steps = set_status p.steps k o }) k)
update_active p k o n lt a t =
    ground
      (arith, update_step_ptr-Numbered p (k + 1) o n, update_at_terminal p k o t, is_active_iff p k)

update_working :
    (p : Plan) (xs : List Step) (cur : Step) (rest : List Step) (o : Bytes)
    → Numbered 0 (xs ++ (cur ∷ rest))
    → is_terminal o ≡ true
    → update_step_ptr (working p xs cur rest) (length xs + 1) o
      ≡ ok (advance (working p xs (ended cur o) rest) (length xs))
update_working p xs cur rest o n t =
    update_active (working p xs cur rest) (length xs) o n
      (omega (arith, length-append xs (cur ∷ rest))) refl t
    ∙ rw (set_status-append xs cur rest o, (terminal_fits o t).0)

advance-last :
    (p : Plan) (xs : List Step) (s : Step)
    → advance (working p xs s []) (length xs)
      ≡ record p { steps = xs ++ (s ∷ []); active_step = none }
advance-last p xs s =
    advance-none (working p xs s []) (length xs)
      (rw (add-one, drop-append xs s []) (unfold find_pending in refl))

advance-next :
    (p : Plan) (xs : List Step) (s t : Step) (ts : List Step)
    → t.status ≡ pending
    → advance (working p xs s (t ∷ ts)) (length xs)
      ≡ working p (xs ++ (s ∷ [])) (ended t in_progress) ts
unfolding str_eq
advance-next p xs s t ts e =
    advance-some (working p xs s (t ∷ ts)) (length xs) (suc (length xs))
      (rw (add-one, drop-append xs s (t ∷ ts)) (unfold find_pending in rw e))
    ∙ rw (set_status-append_suc xs s t ts in_progress, append_assoc, length-append, add-one)

-- Each step with its outcome.
abbrev pub ended_all : List Step → List Bytes → List Step
ended_all (s ∷ ss) (o ∷ os) = ended s o ∷ ended_all ss os
ended_all _ _ = []

Numbered-advance :
    (i : ℕ) (xs : List Step) (s t : Step) (ts : List Step) (o : Bytes)
    → is_terminal o ≡ true
    → Numbered i (xs ++ (s ∷ t ∷ ts))
    → Numbered i ((xs ++ (ended s o ∷ [])) ++ (ended t in_progress ∷ ts))
Numbered-advance i [] s t ts o h n = (
  n.0,
  omega (arith, ap length (terminal_fits o h).0, length-take status_len o),
  (n.2.0, omega arith, n.2.2),
)
Numbered-advance i (x ∷ xs) s t ts o h n = (n.0, n.1, Numbered-advance (i + 1) xs s t ts o h n.2)

report-cons :
    (p : Plan) (step_id : ℕ) (o : Bytes) (os : List Bytes) {q : Plan}
    → update_step_ptr p step_id o ≡ ok q
    → report p step_id (o ∷ os) ≡ report q (step_id + 1) os
unfolding report
report-cons p step_id o os h = rw (h, report)

report-working :
    (p : Plan) (xs : List Step) (cur : Step) (rest : List Step) (o : Bytes) (os : List Bytes)
    → Numbered 0 (xs ++ (cur ∷ rest))
    → AllPending rest
    → length os ≡ length rest
    → AllTerminal (o ∷ os)
    → report (working p xs cur rest) (length xs + 1) (o ∷ os)
      ≡ ok (record p { steps = xs ++ ended_all (cur ∷ rest) (o ∷ os); active_step = none })
report-working p xs cur [] o [] n w l t =
    report-cons _ _ o [] (update_working p xs cur [] o n t.0)
    ∙ unfold report in ap ok (advance-last p xs (ended cur o))
report-working p xs cur [] o (o' ∷ os) n w l t = absurd (omega arith)
report-working p xs cur (r ∷ rs) o [] n w l t = absurd (omega arith)
report-working p xs cur (r ∷ rs) o (o' ∷ os) n w l t =
    report-cons _ _ o (o' ∷ os) (update_working p xs cur (r ∷ rs) o n t.0)
    ∙ rw (advance-next p xs (ended cur o) r rs w.0, ← length-append xs (ended cur o ∷ []))
        (report-working p (xs ++ (ended cur o ∷ [])) (ended r in_progress) rs o' os
            (Numbered-advance 0 xs cur r rs o t.0 n) w.1 (omega arith) t.1
          ∙ rw append_assoc)

statuses-ended_all :
    (ss : List Step) (os : List Bytes) → length os ≡ length ss → statuses (ended_all ss os) ≡ os
statuses-ended_all [] [] h = refl
statuses-ended_all [] (o ∷ os) h = absurd (omega arith)
statuses-ended_all (s ∷ ss) [] h = absurd (omega arith)
statuses-ended_all (s ∷ ss) (o ∷ os) h = ap (◌∷◌ o) (statuses-ended_all ss os (omega arith))

-- The first step of the plan is at work, and all others wait.
pub report_all :
    (p : Plan) (cur : Step) (rest : List Step) (outcomes : List Bytes)
    → Numbered 0 (cur ∷ rest)
    → AllPending rest
    → length outcomes ≡ suc (length rest)
    → AllTerminal outcomes
    → (q : Plan) × (report (record p { steps = cur ∷ rest; active_step = some 0 }) 1 outcomes
        ≡ ok q)
      × (statuses q.steps ≡ outcomes)
      × (q.active_step ≡ none)
report_all p cur rest [] n w l t = absurd (omega arith)
report_all p cur rest (o ∷ os) n w l t = (
  record p { steps = ended_all (cur ∷ rest) (o ∷ os); active_step = none },
  report-working p [] cur rest o os n w (omega arith) t,
  statuses-ended_all (cur ∷ rest) (o ∷ os) l,
  refl,
)
