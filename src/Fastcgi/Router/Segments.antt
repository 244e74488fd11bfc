-- ===== src/Fastcgi/Router/Segments.antt =====
-- src/sapi/fastcgi/router.c: `match_pattern` ends, and takes apart the paths that a pattern describes.
use multi_agent.Common.{
  ℕ, zero, suc, ◌+◌, ◌≤◌, ◌<◌, ◌≡◌, false, List, [], ◌∷◌, Bytes, str_eq, length, ◌==◌, arith, inl,
  inr, Bool-cases,
}
use multi_agent.Fastcgi.Router.{
  Param, segment, behind, only_slashes, Match, endless, fits, match_from, match_pattern,
}

length-behind : (s : Bytes) → length (behind s) ≤ length s
length-behind [] = omega arith
length-behind (c ∷ s) = elim (Bool-cases (c == b'/')) [
  | inl e ↦ rw e (omega arith)
  | inr e ↦ rw e (omega (arith, length-behind s))
]

behind_shorter : (c : ℕ) (s : Bytes) → (c == b'/') ≡ false → length (behind (c ∷ s)) ≤ length s
behind_shorter c s e = rw e (length-behind s)

-- What the match of a pattern ends in.
abbrev pub IsDecided : Match → Type 0
IsDecided endless = ⊥
IsDecided _ = Unit

match_from-IsDecided :
    (fuel : ℕ) (p u : Bytes) (ps : List Param)
    → length p < fuel
    → IsDecided (match_from fuel p u ps)
unfolding match_from
match_from-IsDecided zero p u ps lt = absurd (omega arith)
match_from-IsDecided (suc fuel) [] u ps lt = elim (Bool-cases (only_slashes u)) [
  | inl e ↦ rw e tt
  | inr e ↦ rw e tt
]
match_from-IsDecided (suc fuel) (c ∷ p) [] ps lt = elim (Bool-cases (only_slashes (c ∷ p))) [
  | inl e ↦ rw e tt
  | inr e ↦ rw e tt
]
match_from-IsDecided (suc fuel) (c ∷ p) (d ∷ u) ps lt = elim (Bool-cases (c == b'/')) [
  | inl slash ↦ elim (Bool-cases (d == b'/')) [
    | inl e ↦ rw (match_from, slash, e) (match_from-IsDecided fuel p u ps (omega arith))
    | inr e ↦ rw (match_from, slash, e) tt
  ]
  | inr no_slash ↦ elim (Bool-cases (c == b':')) [
    | inl colon ↦ elim (Bool-cases (fits (length ps) (segment p) (segment (d ∷ u)))) [
      | inl e ↦
          rw (match_from, no_slash, colon, e)
            (match_from-IsDecided fuel (behind p) (behind (d ∷ u)) _
              (omega (arith, length-behind p)))
      | inr e ↦ rw (match_from, no_slash, colon, e) tt
    ]
    | inr literal ↦ elim (Bool-cases (str_eq (segment (c ∷ p)) (segment (d ∷ u)))) [
      | inl e ↦
          rw (match_from, no_slash, literal, e)
            (match_from-IsDecided fuel (behind (c ∷ p)) (behind (d ∷ u)) ps
              (omega (arith, behind_shorter c p no_slash)))
      | inr e ↦ rw (match_from, no_slash, literal, e) tt
    ]
  ]
]

pub match_pattern-IsDecided : (p u : Bytes) → IsDecided (match_pattern p u)
unfolding match_pattern
match_pattern-IsDecided p u = match_from-IsDecided (length p + 1) p u [] (omega arith)
