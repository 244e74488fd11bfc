-- ===== src/Agent/Guardrail/Rules/Registry.antt =====
-- src/agent/guardrail.c: the table of rules.
use mathlib.Core.Bool.{true≢false}
use multi_agent.Common.{
  ℕ, Option, suc, ◌≤◌, ◌<◌, true, false, none, some, List, [], ◌∷◌, ◌++◌, Bytes, str_eq, str_eq_iff,
  str_eq_refl, length, take, take_all, leb, if◌then◌else◌, ◌≡◌, ◌≢◌, refl, sym, ap, ◌∙◌, subst, inl,
  inr, Bool-cases, Option-cases, arith,
}
use multi_agent.Util.Errno.{ok, err, enospc, eexist}
use multi_agent.Agent.Guardrail.Rules.{
  rules_max, RuleType, rule_c, rule_llm, rule_ext, Rule, Config, Registration, find_rule,
  rule_lookup, new_rule, rule_register,
}

-- The names of the rules differ.
abbrev pub NoRepeat : List Rule → Type 0
NoRepeat [] = Unit {0}
NoRepeat (r ∷ rs) = (find_rule r.name rs ≡ none) × NoRepeat rs

abbrev pub IsValid : Config → Type 0
IsValid cfg = (length cfg.rules ≤ rules_max) × NoRepeat cfg.rules

find_rule-append :
    (name : Bytes) (rs : List Rule) (r : Rule)
    → find_rule name rs ≡ none
    → find_rule name (rs ++ (r ∷ [])) ≡ (if str_eq r.name name then some r else none)
unfolding find_rule
find_rule-append name [] r h = refl
find_rule-append name (q ∷ rs) r h = elim (Bool-cases (str_eq q.name name)) [
  | inl here ↦ absurd (ground (arith, here))
  | inr other ↦ rw other (find_rule-append name rs r (sym (rw other refl) ∙ h))
]

find_rule-kept :
    (name : Bytes) (rs : List Rule) (r s : Rule)
    → find_rule name rs ≡ some s
    → find_rule name (rs ++ (r ∷ [])) ≡ some s
unfolding find_rule
find_rule-kept name [] r s h = absurd (ground arith)
find_rule-kept name (q ∷ rs) r s h = elim (Bool-cases (str_eq q.name name)) [
  | inl here ↦ rw here (sym (rw here refl) ∙ h)
  | inr other ↦ rw other (find_rule-kept name rs r s (sym (rw other refl) ∙ h))
]

str_eq-swap : (a b : Bytes) → str_eq a b ≡ false → str_eq b a ≡ false
str_eq-swap a b h = elim (Bool-cases (str_eq b a)) [
  | inr other ↦ other
  | inl same ↦ absurd (true≢false (sym ((str_eq_iff a b).1 (sym ((str_eq_iff b a).0 same))) ∙ h))
]

str_eq-apart : (a b : Bytes) → a ≢ b → str_eq a b ≡ false
str_eq-apart a b apart = elim (Bool-cases (str_eq a b)) [
  | inr other ↦ other
  | inl same ↦ absurd (apart ((str_eq_iff a b).0 same))
]

NoRepeat-append :
    (rs : List Rule) (r : Rule)
    → find_rule r.name rs ≡ none
    → NoRepeat rs
    → NoRepeat (rs ++ (r ∷ []))
unfolding find_rule
NoRepeat-append [] r h fine = (refl, tt)
NoRepeat-append (q ∷ rs) r h (apart, fine) = elim (Bool-cases (str_eq q.name r.name)) [
  | inl here ↦ absurd (ground (arith, here))
  | inr other ↦ (
    find_rule-append q.name rs r apart ∙ rw (str_eq-swap q.name r.name other) refl,
    NoRepeat-append rs r (sym (rw other refl) ∙ h) fine,
  )
]

length-append_one : (rs : List Rule) (r : Rule) → length (rs ++ (r ∷ [])) ≡ suc (length rs)
length-append_one [] r = refl
length-append_one (q ∷ rs) r = ap suc (length-append_one rs r)

-- A text that a rule holds of the one given, if one is given.
abbrev pub Holds : ℕ → Option Bytes → Bytes → Type 0
Holds size given held =
    (given ≡ none → held ≡ []) × ((text : Bytes) → given ≡ some text → held ≡ take size text)

-- A rule that is on and is what a registration under a name asks for. Only a rule of the code has a
-- check, and only its own.
pub record AsAsked (name : Bytes) (g : Registration) (r : Rule) : Type 0 where
  pub name_is : r.name ≡ name
  pub is_on : r.enabled ≡ true
  pub hook_is : r.hook ≡ g.hook
  pub type_is : r.rule_type ≡ g.rule_type
  pub own_check : g.rule_type ≡ rule_c → r.check ≡ g.check
  pub no_check : g.rule_type ≢ rule_c → r.check ≡ none
  pub description_is : Holds 1023 g.description r.description
  pub entry_is : Holds 4095 g.ext_entry r.ext_entry
  pub action_is : Holds 511 g.action_text r.action_text

-- The configuration that a registration leaves.
abbrev pub Added : Config → Bytes → Registration → Config → Type 0
Added cfg name g next =
    IsValid next
    × (next.enabled ≡ cfg.enabled)
    × ((r : Rule) × (rule_lookup next (some name) ≡ some r) × AsAsked name g r)
    × ((other : Bytes)
        → other ≢ name
        → rule_lookup next (some other) ≡ rule_lookup cfg (some other))

own_check_lem :
    (name : Bytes) (g : Registration)
    → (g.rule_type ≡ rule_c → (new_rule name g).check ≡ g.check)
      × (g.rule_type ≢ rule_c → (new_rule name g).check ≡ none)
unfolding new_rule
own_check_lem name g = by_type g.rule_type
  where
    by_type :
        (t : RuleType)
        → (t ≡ rule_c → elim t [ rule_c ↦ g.check | rule_llm ↦ none | rule_ext ↦ none ] ≡ g.check)
          × (t ≢ rule_c → elim t [ rule_c ↦ g.check | rule_llm ↦ none | rule_ext ↦ none ] ≡ none)
    by_type rule_c = (λ same. refl, λ apart. absurd (apart refl))
    by_type rule_llm = (λ same. ground (arith, same), λ apart. refl)
    by_type rule_ext = (λ same. ground (arith, same), λ apart. refl)

cut-Holds :
    (n : ℕ) (given : Option Bytes)
    → Holds n given (elim given [ none ↦ [] | some text ↦ take n text ])
cut-Holds n none = (λ gone. refl, λ text given. ground (arith, given))
cut-Holds n (some text) = (λ gone. ground (arith, gone), λ t given. ap (take n) (some_same given))
  where
    some_same : {t : Bytes} → some text ≡ some t → text ≡ t
    some_same e = ground (arith, e)

new_rule-AsAsked :
    (name : Bytes) (g : Registration) → length name < 64 → AsAsked name g (new_rule name g)
unfolding new_rule
new_rule-AsAsked name g short = record {
  name_is = take_all 63 name (omega arith);
  is_on = refl;
  hook_is = refl;
  type_is = refl;
  own_check = (own_check_lem name g).0;
  no_check = (own_check_lem name g).1;
  description_is = cut-Holds 1023 g.description;
  entry_is = cut-Holds 4095 g.ext_entry;
  action_is = cut-Holds 511 g.action_text;
}

added :
    (cfg : Config) (name : Bytes) (g : Registration)
    → IsValid cfg
    → length name < 64
    → length cfg.rules < rules_max
    → find_rule name cfg.rules ≡ none
    → Added cfg name g (record cfg { rules = cfg.rules ++ (new_rule name g ∷ []) })
unfolding rule_lookup find_rule new_rule
added cfg name g (room, fine) short below free = (
  (
    subst (λ n. n ≤ rules_max) (sym (length-append_one cfg.rules (new_rule name g))) (omega arith),
    NoRepeat-append cfg.rules (new_rule name g)
        (subst (λ x. find_rule x cfg.rules ≡ none) (sym whole) free) fine,
  ),
  refl,
  (
    new_rule name g,
    find_rule-append name cfg.rules (new_rule name g) free ∙ rw (whole, str_eq_refl name) refl,
    new_rule-AsAsked name g short,
  ),
  λ other apart. elim (Option-cases (find_rule other cfg.rules)) [
    | inr (r, found) ↦ find_rule-kept other cfg.rules (new_rule name g) r found ∙ sym found
    | inl missing ↦
        find_rule-append other cfg.rules (new_rule name g) missing
        ∙ rw (whole, str_eq-apart name other (λ e. apart (sym e))) (sym missing)
  ],
)
  where
    whole : take 63 name ≡ name
    whole = take_all 63 name (omega arith)

-- in a valid table, of at most 16 rules whose names differ, guardrail_rule_register refuses a further rule, whose name has fewer than 64 bytes, with ENOSPC when 16 are there, and otherwise one whose name is taken with EEXIST; a rule with a free name it adds: the table is valid, guardrail_rule_lookup finds under the name a rule of that name that is on, with the hook, the type, and the description, the entry and the action that were given, cut to 1023, 4095 and 511 bytes, and with the check given if it is a rule of the code, and none otherwise; and under each other name it finds what it found before.
pub rule_register_lem :
    (cfg : Config) (name : Bytes) (g : Registration)
    → IsValid cfg
    → length name < 64
    → (rules_max ≤ length cfg.rules → rule_register cfg (some name) g ≡ err enospc)
      × ((r : Rule)
          → length cfg.rules < rules_max
          → rule_lookup cfg (some name) ≡ some r
          → rule_register cfg (some name) g ≡ err eexist)
      × (length cfg.rules < rules_max
          → rule_lookup cfg (some name) ≡ none
          → (next : Config) × (rule_register cfg (some name) g ≡ ok next) × Added cfg name g next)
unfolding rule_register rule_lookup
rule_register_lem cfg name g valid short = (
  λ full.
      let test : leb rules_max (length cfg.rules) ≡ true = ground arith in
      rw (rule_register, test) refl,
  λ r below taken.
      let test : leb rules_max (length cfg.rules) ≡ false = ground arith in
      rw (rule_register, test, taken) refl,
  λ below free.
      let test : leb rules_max (length cfg.rules) ≡ false = ground arith in
      (
        record cfg { rules = cfg.rules ++ (new_rule name g ∷ []) },
        rw (rule_register, test, free) refl,
        added cfg name g valid short below free,
      ),
)
