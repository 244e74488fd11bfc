-- ===== src/Agent/Guardrail/Links/Missing.antt =====
-- src/agent/guardrail.c: the files that the links of an answer name.
use native.Mathlib.Numerals.{unary_clauses}
use mathlib.Core.Bool.{true≢false}
use mathlib.Core.Option.{some-injective}
use multi_agent.Common.{
  ℕ, zero, suc, ◌+◌, ◌<◌, true, false, none, some, List, [], ◌∷◌, ◌++◌, Bytes, codes, length,
  length-append, drop, ◌==◌, ◌≡◌, refl, sym, ap, ◌∙◌, ◌↔◌, inl, inr, Bool-cases, Option-cases,
  arith,
}
use multi_agent.Agent.Guardrail.{Verdict, pass, EvalCtx, Files, refuse}
use multi_agent.Agent.Guardrail.Links.{
  Matcher, link_pattern, url_is_local, local_path, link_target, at_close, judge, scan_links,
  final_local_file_missing,
}
use multi_agent.Agent.Guardrail.Links.Scan.{Lacks, NoBlank, at_close_lem, link_target_lem}

-- A link, with the text before it: its target has a first byte and further ones.
pub record Link : Type 0 where
  pub before : Bytes
  pub first : ℕ
  pub others : Bytes

abbrev pub target : Link → Bytes
target l = l.first ∷ l.others

-- Text without the byte ], and a target without blanks and brackets.
abbrev pub IsPlain : Link → Type 0
IsPlain l =
    Lacks b']' l.before × NoBlank (target l) × Lacks b')' (target l) × ((l.first == b'<') ≡ false)

abbrev pub AllPlain : List Link → Type 0
AllPlain [] = Unit {0}
AllPlain (l ∷ ls) = IsPlain l × AllPlain ls

-- The answer with the links, and the text behind them.
unfoldable pub print_links : List Link → Bytes → Bytes
print_links [] tail = tail
print_links (l ∷ ls) tail = l.before ++ (b']' ∷ b'(' ∷ (target l ++ (b')' ∷ print_links ls tail)))

-- What is relied on of re_match: it gives the first place of "](", and its length.
abbrev pub FindsLinks : Matcher → Type 0
FindsLinks re_match =
    ((before rest : Bytes)
      → Lacks b']' before
      → re_match link_pattern (before ++ (b']' ∷ b'(' ∷ rest)) ≡ some (length before, 2))
    × ((s : Bytes) → Lacks b']' s → re_match link_pattern s ≡ none)

-- If the target is local, its file exists.
abbrev pub IsPresent : Files → Bytes → Type 0
IsPresent files url =
    url_is_local url ≡ true
    → (path : Bytes) → local_path files url ≡ some path
    → files.file_exists path ≡ true

abbrev pub AllPresent : Files → List Link → Type 0
AllPresent files [] = Unit {0}
AllPresent files (l ∷ ls) = IsPresent files (target l) × AllPresent files ls

drop_two_more :
    (xs : Bytes) (y z : ℕ) (ys : Bytes) → drop (suc (suc (length xs))) (xs ++ (y ∷ z ∷ ys)) ≡ ys
drop_two_more [] y z ys = refl
drop_two_more (x ∷ xs) y z ys = drop_two_more xs y z ys

drop_behind : (xs : Bytes) (y z : ℕ) (ys : Bytes) → drop (length xs + 2) (xs ++ (y ∷ z ∷ ys)) ≡ ys
drop_behind xs y z ys = simp unary_clauses (drop_two_more xs y z ys)

scan_links_step :
    (files : Files) (re_match : Matcher) (n idx len : ℕ) (s url rest : Bytes)
    → re_match link_pattern s ≡ some (idx, len)
    → at_close (drop (idx + len) s) ≡ some (url, rest)
    → scan_links files re_match (suc n) s
      ≡ judge files (link_target url) (scan_links files re_match n rest)
unfolding scan_links at_close
scan_links_step files re_match n idx len [] url rest at closed = absurd (nothing (idx + len) closed)
  where
    nothing : (k : ℕ) → at_close (drop k []) ≡ some (url, rest) → ⊥
    nothing zero h = ground (arith, h)
    nothing (suc k) h = ground (arith, h)
scan_links_step files re_match n idx len (c ∷ cs) url rest at closed =
    rw (scan_links, at, closed) refl

scan_links-link :
    (files : Files) (re_match : Matcher) (n : ℕ) (l : Link) (rest : Bytes)
    → FindsLinks re_match
    → IsPlain l
    → scan_links files re_match (suc n) (l.before ++ (b']' ∷ b'(' ∷ (target l ++ (b')' ∷ rest))))
      ≡ judge files (some (target l)) (scan_links files re_match n rest)
scan_links-link files re_match n l rest finds (unmarked, solid, open_ended, bare) =
    scan_links_step files re_match n (length l.before) 2
      (l.before ++ (b']' ∷ b'(' ∷ (target l ++ (b')' ∷ rest)))) (target l) rest
      (finds.0 l.before (target l ++ (b')' ∷ rest)) unmarked)
      (ap at_close (drop_behind l.before b']' b'(' (target l ++ (b')' ∷ rest)))
        ∙ at_close_lem (target l) rest open_ended)
    ∙ ap (λ u. judge files u (scan_links files re_match n rest))
        (link_target_lem l.first l.others solid bare)

scan_links-tail :
    (files : Files) (re_match : Matcher) (n : ℕ) (s : Bytes)
    → FindsLinks re_match
    → Lacks b']' s
    → scan_links files re_match n s ≡ pass
unfolding scan_links
scan_links-tail files re_match zero s finds h = refl
scan_links-tail files re_match (suc n) [] finds h = refl
scan_links-tail files re_match (suc n) (c ∷ cs) finds h = rw (scan_links, finds.1 (c ∷ cs) h) refl

judge-pass :
    (files : Files) (url : Bytes) (rest : Verdict)
    → (judge files (some url) rest ≡ pass) ↔ (IsPresent files url × (rest ≡ pass))
judge-pass files url rest = elim (Bool-cases (url_is_local url)) [
  | inr remote ↦ (
    λ e. (λ near. absurd (true≢false (sym near ∙ remote)), sym (run_remote remote) ∙ e),
    λ e. run_remote remote ∙ e.1,
  )
  | inl near ↦ elim (Option-cases (local_path files url)) [
    | inl lost ↦
        let run : judge files (some url) rest ≡ rest = rw (judge, near, lost) refl in
        (λ e. (λ here path at. absurd (ground (arith, sym lost ∙ at)), sym run ∙ e), λ e. run ∙ e.1)
    | inr (path, at) ↦ elim (Bool-cases (files.file_exists path)) [
      | inl there ↦
          let run : judge files (some url) rest ≡ rest = rw (judge, near, at, there) refl in
          (
            λ e. (
              λ here other at_other.
                  ap files.file_exists (some-injective _ _ (sym at_other ∙ at)) ∙ there,
              sym run ∙ e,
            ),
            λ e. run ∙ e.1,
          )
      | inr gone ↦
          let run : judge files (some url) rest
              ≡ refuse (codes "Referenced local file does not exist: " ++ path) =
            rw (judge, near, at, gone) refl in
          (
            λ e. absurd (ground (arith, sym run ∙ e)),
            λ e. absurd (true≢false (sym (e.0 near path at) ∙ gone)),
          )
    ]
  ]
]
  where
    run_remote : url_is_local url ≡ false → judge files (some url) rest ≡ rest
    run_remote remote = rw (judge, remote) refl

scan_links-AllPresent :
    (files : Files) (re_match : Matcher) (n : ℕ) (ls : List Link) (tail : Bytes)
    → FindsLinks re_match
    → AllPlain ls
    → Lacks b']' tail
    → length (print_links ls tail) < n
    → (scan_links files re_match n (print_links ls tail) ≡ pass) ↔ AllPresent files ls
unfolding print_links
scan_links-AllPresent files re_match n [] tail finds plain end enough =
    (λ e. tt, λ e. scan_links-tail files re_match n tail finds end)
scan_links-AllPresent files re_match zero (l ∷ ls) tail finds plain end enough =
    absurd (omega arith)
scan_links-AllPresent files re_match (suc n) (l ∷ ls) tail finds (plain, plains) end enough =
    let rest = scan_links-AllPresent files re_match n ls tail finds plains end (
      omega (
        arith,
        length-append (target l) (b')' ∷ print_links ls tail),
        length-append l.before (b']' ∷ b'(' ∷ (target l ++ (b')' ∷ print_links ls tail))),
      )) in
    let run = scan_links-link files re_match n l (print_links ls tail) finds plain in
    let at = judge-pass files (target l) (scan_links files re_match n (print_links ls tail)) in
    (
      λ e. let both = at.0 (sym run ∙ e) in (both.0, rest.0 both.1),
      λ e. run ∙ at.1 (e.0, rest.1 e.1),
    )

-- for an answer that is text with plain links in it, the rule "final_local_file_missing" passes exactly when the file of each link that names a local one exists, if re_match finds the first place where a link has its brackets.
pub final_local_file_missing-AllPresent :
    (files : Files) (re_match : Matcher) (ctx : EvalCtx) (ls : List Link) (tail : Bytes)
    → FindsLinks re_match
    → AllPlain ls
    → Lacks b']' tail
    → ctx.proposed_answer ≡ some (print_links ls tail)
    → (final_local_file_missing files re_match ctx ≡ pass) ↔ AllPresent files ls
unfolding final_local_file_missing
final_local_file_missing-AllPresent files re_match ctx ls tail finds plain end answered =
    let run : final_local_file_missing files re_match ctx
        ≡ scan_links files re_match (length (print_links ls tail) + 1) (print_links ls tail) =
      rw (final_local_file_missing, answered) refl in
    let passes =
      scan_links-AllPresent files re_match (length (print_links ls tail) + 1) ls tail finds plain
        end (omega arith) in
    (λ e. passes.0 (sym run ∙ e), λ e. run ∙ passes.1 e)
