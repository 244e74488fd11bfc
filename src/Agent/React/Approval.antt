-- ===== src/Agent/React/Approval.antt =====
-- src/agent/react.c: which tools a person has to approve.
--
-- `Flags` stands for the registry of tools, tool_has_flag and tool_is_readonly of src/agent/tool.c.
use multi_agent.Common.{
  ℕ, ◌<◌, Bool, true, false, ◌&&◌, ◌||◌, List, [], ◌∷◌, ◌++◌, Bytes, str_eq, str_eq_refl,
  str_eq_iff, length, take, take_all, leb, if◌then◌else◌, ◌≡◌, ◌≢◌, refl, sym, ◌∙◌, subst, inl, inr,
  Bool-cases, arith,
}
use multi_agent.Agent.Guardrail.{cut, one_of}

pub record Flags : Type 0 where
  pub internal_approval : Bytes → Bool
  pub is_readonly : Bytes → Bool

pub record HitlConfig : Type 0 where
  pub enabled : Bool
  pub tools : List Bytes
  pub auto_approve_readonly : Bool
  pub auto_approved : List Bytes

abbrev pub auto_approved_max : ℕ
auto_approved_max = 32

abbrev is_nil : List Bytes → Bool
is_nil [] = true
is_nil (_ ∷ _) = false

unfoldable pub needs_approval : Flags → HitlConfig → Bytes → Bool
needs_approval flags h tool_name =
    if h.enabled
    then (if one_of tool_name h.auto_approved
        then false
        else if flags.internal_approval tool_name
        then false
        else if is_nil h.tools
        then (if h.auto_approve_readonly && flags.is_readonly tool_name then false else true)
        else one_of tool_name h.tools)
    else false

unfoldable pub add_auto_approved : HitlConfig → Bytes → HitlConfig
add_auto_approved h tool_name =
    if leb auto_approved_max (length h.auto_approved)
    then h
    else if one_of tool_name h.auto_approved
    then h
    else record h { auto_approved = h.auto_approved ++ (cut 64 tool_name ∷ []) }

one_of-append_one :
    (name x : Bytes) (xs : List Bytes)
    → one_of name (xs ++ (x ∷ [])) ≡ (if one_of name xs then true else str_eq name x)
unfolding one_of
one_of-append_one name x [] = last (str_eq name x)
  where
    last : (b : Bool) → (b || false) ≡ b
    last true = refl
    last false = refl
one_of-append_one name x (y ∷ ys) = elim (Bool-cases (str_eq name y)) [
  | inl here ↦ rw here refl
  | inr other ↦ rw other (one_of-append_one name x ys)
]

-- The configurations ask alike for a tool.
abbrev pub AskAlike : Flags → HitlConfig → HitlConfig → Bytes → Type 0
AskAlike flags a b tool_name = needs_approval flags a tool_name ≡ needs_approval flags b tool_name

needs_approval-approved :
    (flags : Flags) (h : HitlConfig) (tool_name : Bytes)
    → one_of tool_name h.auto_approved ≡ true
    → needs_approval flags h tool_name ≡ false
unfolding needs_approval
needs_approval-approved flags h tool_name listed = elim (Bool-cases h.enabled) [
  | inr off ↦ rw (needs_approval, off) refl
  | inl on ↦ rw (needs_approval, on, listed) refl
]

-- a tool with a name of fewer than 64 bytes, for which hitl_add_auto_approved finds room among the 32 names, needs no approval from then on, and for every other tool it is asked as before.
pub needs_approval-add_auto_approved :
    (flags : Flags) (h : HitlConfig) (tool_name : Bytes)
    → length tool_name < 64
    → length h.auto_approved < auto_approved_max
    → (needs_approval flags (add_auto_approved h tool_name) tool_name ≡ false)
      × ((other : Bytes)
          → other ≢ tool_name
          → AskAlike flags (add_auto_approved h tool_name) h other)
unfolding add_auto_approved needs_approval
needs_approval-add_auto_approved flags h tool_name short room =
    elim (Bool-cases (one_of tool_name h.auto_approved)) [
      | inl listed ↦
          let run : add_auto_approved h tool_name ≡ h = rw (add_auto_approved, fits, listed) refl in
          subst Approves (sym run)
            (needs_approval-approved flags h tool_name listed, λ other apart. refl)
      | inr fresh ↦
          let run : add_auto_approved h tool_name ≡ added =
            rw (add_auto_approved, fits, fresh) refl in
          subst Approves (sym run) (
            needs_approval-approved flags added tool_name (
                one_of-append_one tool_name (cut 64 tool_name) h.auto_approved
                ∙ rw (fresh, whole) (str_eq_refl tool_name)),
            λ other apart. alike other (
                one_of-append_one other (cut 64 tool_name) h.auto_approved
                ∙ (rw (whole, differs other apart) (kept (one_of other h.auto_approved)))),
          )
    ]
  where
    fits : leb auto_approved_max (length h.auto_approved) ≡ false
    fits = ground arith

    whole : take 63 tool_name ≡ tool_name
    whole = take_all 63 tool_name (omega arith)

    added : HitlConfig
    added = record h { auto_approved = h.auto_approved ++ (cut 64 tool_name ∷ []) }

    Approves : HitlConfig → Type 0
    Approves x =
        (needs_approval flags x tool_name ≡ false)
        × ((other : Bytes) → other ≢ tool_name → AskAlike flags x h other)

    kept : (b : Bool) → (if b then true else false) ≡ b
    kept true = refl
    kept false = refl

    differs : (other : Bytes) → other ≢ tool_name → str_eq other tool_name ≡ false
    differs other apart = elim (Bool-cases (str_eq other tool_name)) [
      | inr no_match ↦ no_match
      | inl same ↦ absurd (apart ((str_eq_iff other tool_name).0 same))
    ]

    alike :
        (other : Bytes)
        → one_of other added.auto_approved ≡ one_of other h.auto_approved
        → AskAlike flags added h other
    alike other same = rw (needs_approval, same) refl
