-- ===== src/Agent/Guardrail/Links/Scan.antt =====
-- src/agent/guardrail.c: what the scan of an answer finds.
use multi_agent.Common.{
  ℕ, zero, suc, ◌+◌, ◌≤◌, ◌<◌, false, none, some, [], ◌∷◌, ◌++◌, Bytes, length, drop, ◌==◌, ◌≡◌,
  refl, sym, ap, ◌∙◌, subst, inl, inr, Bool-cases, Option-cases, arith,
}
use mathlib.Core.Option.{some-injective}
use multi_agent.Agent.Guardrail.{Files}
use multi_agent.Agent.Guardrail.Links.{
  Matcher, link_pattern, is_blank, skip_blanks, trim_end, before_blank, link_target, at_close,
  judge, scan_links,
}

-- What stands behind a link is shorter than what it was found in.
at_close-shorter : (s : Bytes) (p : Bytes × Bytes) → at_close s ≡ some p → length p.1 < length s
unfolding at_close
at_close-shorter [] p h = absurd (ground arith)
at_close-shorter (c ∷ cs) p h = elim (Bool-cases (c == b')')) [
  | inl here ↦
      let run : at_close (c ∷ cs) ≡ some ([], cs) = rw (at_close, here) refl in
      subst (λ q. length q.1 < suc (length cs)) (some-injective _ _ (sym run ∙ h)) (omega arith)
  | inr other ↦ elim (Option-cases (at_close cs)) [
    | inl missing ↦
        let run : at_close (c ∷ cs) ≡ none = rw (at_close, other, missing) refl in
        absurd (ground (arith, sym run ∙ h))
    | inr ((url, rest), found) ↦
        let run : at_close (c ∷ cs) ≡ some (c ∷ url, rest) = rw (at_close, other, found) refl in
        subst (λ q. length q.1 < suc (length cs)) (some-injective _ _ (sym run ∙ h))
          (omega (arith, at_close-shorter cs (url, rest) found))
  ]
]

length-drop : (n : ℕ) (s : Bytes) → length (drop n s) ≤ length s
length-drop zero s = omega arith
length-drop (suc n) [] = omega arith
length-drop (suc n) (c ∷ cs) = omega (arith, length-drop n cs)

-- Enough fuel gives one result.
pub scan_links_fuel :
    (files : Files) (re_match : Matcher) (n m : ℕ) (s : Bytes)
    → length s < n
    → length s < m
    → scan_links files re_match n s ≡ scan_links files re_match m s
unfolding scan_links
scan_links_fuel files re_match zero m s h k = absurd (omega arith)
scan_links_fuel files re_match (suc n) zero s h k = absurd (omega arith)
scan_links_fuel files re_match (suc n) (suc m) [] h k = refl
scan_links_fuel files re_match (suc n) (suc m) (c ∷ cs) h k =
    elim (Option-cases (re_match link_pattern (c ∷ cs))) [
      | inl missing ↦ rw (scan_links, missing) refl
      | inr ((idx, match_len), at) ↦
          elim (Option-cases (at_close (drop (idx + match_len) (c ∷ cs)))) [
            | inl unclosed ↦ rw (scan_links, at, unclosed) refl
            | inr ((url, rest), closed) ↦
                let below : length rest < suc (length cs) = omega (
                  arith,
                  at_close-shorter (drop (idx + match_len) (c ∷ cs)) (url, rest) closed,
                  length-drop (idx + match_len) (c ∷ cs),
                ) in
                rw (scan_links, at, closed)
                  (ap (judge files (link_target url))
                    (scan_links_fuel files re_match n m rest (omega arith) (omega arith)))
          ]
    ]

-- Bytes without a mark.
abbrev pub Lacks : ℕ → Bytes → Type 0
Lacks mark [] = Unit {0}
Lacks mark (c ∷ cs) = ((c == mark) ≡ false) × Lacks mark cs

abbrev pub NoBlank : Bytes → Type 0
NoBlank [] = Unit {0}
NoBlank (c ∷ cs) = (is_blank c ≡ false) × NoBlank cs

pub at_close_lem :
    (url rest : Bytes) → Lacks b')' url → at_close (url ++ (b')' ∷ rest)) ≡ some (url, rest)
unfolding at_close
at_close_lem [] rest h = refl
at_close_lem (c ∷ cs) rest (other, h) = rw (at_close, other, at_close_lem cs rest h) refl

trim_end_plain : (s : Bytes) → NoBlank s → trim_end s ≡ s
unfolding trim_end
trim_end_plain [] h = refl
trim_end_plain (c ∷ []) (plain, h) = rw plain refl
trim_end_plain (c ∷ d ∷ ds) (plain, h) = rw (trim_end, trim_end_plain (d ∷ ds) h) refl

before_blank_plain : (s : Bytes) → NoBlank s → before_blank s ≡ s
unfolding before_blank
before_blank_plain [] h = refl
before_blank_plain (c ∷ cs) (plain, h) = rw (plain, before_blank_plain cs h) refl

pub link_target_lem :
    (c : ℕ) (cs : Bytes)
    → NoBlank (c ∷ cs)
    → (c == b'<') ≡ false
    → link_target (c ∷ cs) ≡ some (c ∷ cs)
unfolding link_target skip_blanks
link_target_lem c cs (plain, h) other =
    rw
      (
        plain,
        link_target,
        trim_end_plain (c ∷ cs) (plain, h),
        other,
        before_blank_plain (c ∷ cs) (plain, h),
      )
      refl
