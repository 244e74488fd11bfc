-- ===== src/Fastcgi/Router/Capture.antt =====
-- src/sapi/fastcgi/router.c: the paths that a pattern describes, and the parameters that are captured.
use multi_agent.Common.{
  ℕ, zero, suc, ◌+◌, ◌≤◌, ◌<◌, ◌≡◌, refl, sym, ap, ap₂, ◌∙◌, true, false, List, [], ◌∷◌, ◌++◌,
  Bytes, append-nil, append_assoc, str_eq, str_eq_refl, length, length-append, lt→leb, ◌==◌, arith,
}
use multi_agent.Fastcgi.Router.{
  Param, segment, behind, only_slashes, matched, fits, match_from, match_pattern,
}

-- A part of a pattern, with the text of it in a path.
pub data Part : Type 0 where
  fixed : Bytes → Part
  placeholder : Bytes → Bytes → Part

abbrev pub pattern_of : List Part → Bytes
pattern_of [] = []
pattern_of (fixed s ∷ parts) = b'/' ∷ (s ++ pattern_of parts)
pattern_of (placeholder name value ∷ parts) = b'/' ∷ (b':' ∷ (name ++ pattern_of parts))

abbrev pub path_of : List Part → Bytes → Bytes
path_of [] tail = tail
path_of (fixed s ∷ parts) tail = b'/' ∷ (s ++ path_of parts tail)
path_of (placeholder name value ∷ parts) tail = b'/' ∷ (value ++ path_of parts tail)

abbrev pub params_of : List Part → List Param
params_of [] = []
params_of (fixed s ∷ parts) = params_of parts
params_of (placeholder name value ∷ parts) = record { key = name; value = value } ∷ params_of parts

abbrev pub NoSlash : Bytes → Type 0
NoSlash [] = Unit {0}
NoSlash (c ∷ s) = ((c == b'/') ≡ false) × NoSlash s

abbrev pub IsFixed : Bytes → Type 0
IsFixed [] = ⊥
IsFixed (c ∷ s) = ((c == b':') ≡ false) × NoSlash (c ∷ s)

-- The names and the values are in the bounds of their arrays.
abbrev pub AreParts : List Part → Type 0
AreParts [] = Unit {0}
AreParts (fixed s ∷ parts) = IsFixed s × AreParts parts
AreParts (placeholder name value ∷ parts) =
    NoSlash name
    × NoSlash value
    × (0 < length value)
    × (length name < 32)
    × (length value < 128)
    × AreParts parts

-- A text that is empty or begins with a slash.
abbrev AtSlash : Bytes → Type 0
AtSlash [] = Unit {0}
AtSlash (c ∷ s) = (c == b'/') ≡ true

segment-append : (t r : Bytes) → NoSlash t → AtSlash r → segment (t ++ r) ≡ t
segment-append [] [] n s = refl
segment-append [] (c ∷ r) n s = rw s refl
segment-append (c ∷ t) r (n, ns) s = rw n (ap (◌∷◌ c) (segment-append t r ns s))

behind-append : (t r : Bytes) → NoSlash t → AtSlash r → behind (t ++ r) ≡ r
behind-append [] [] n s = refl
behind-append [] (c ∷ r) n s = rw s refl
behind-append (c ∷ t) r (n, ns) s = rw n (behind-append t r ns s)

AtSlash-pattern_of : (parts : List Part) → AtSlash (pattern_of parts)
AtSlash-pattern_of [] = tt
AtSlash-pattern_of (fixed s ∷ parts) = refl
AtSlash-pattern_of (placeholder name value ∷ parts) = refl

AtSlash-only_slashes : (tail : Bytes) → only_slashes tail ≡ true → AtSlash tail
AtSlash-only_slashes [] e = tt
AtSlash-only_slashes (c ∷ s) e = ground arith

AtSlash-path_of :
    (parts : List Part) (tail : Bytes) → only_slashes tail ≡ true → AtSlash (path_of parts tail)
AtSlash-path_of [] tail e = AtSlash-only_slashes tail e
AtSlash-path_of (fixed s ∷ parts) tail e = refl
AtSlash-path_of (placeholder name value ∷ parts) tail e = refl

behind_other : (c : ℕ) (p : Bytes) → (c == b'/') ≡ false → behind (c ∷ p) ≡ behind p
behind_other c p e = rw e refl

-- One step over a segment that is the same in both, and one over a placeholder.
literal_step :
    (fuel c d : ℕ) (p u : Bytes) (ps : List Param)
    → (c == b'/') ≡ false
    → (c == b':') ≡ false
    → segment (c ∷ p) ≡ segment (d ∷ u)
    → match_from (suc fuel) (c ∷ p) (d ∷ u) ps
      ≡ match_from fuel (behind (c ∷ p)) (behind (d ∷ u)) ps
unfolding match_from
literal_step fuel c d p u ps no_slash no_colon same =
    let equal : str_eq (segment (c ∷ p)) (segment (d ∷ u)) ≡ true =
      ap (λ x. str_eq x (segment (d ∷ u))) same ∙ str_eq_refl (segment (d ∷ u)) in
    rw (match_from, no_slash, no_colon, equal)
      (ap (λ x. match_from fuel x (behind (d ∷ u)) ps) (behind_other c p no_slash))

capture_step :
    (fuel d : ℕ) (p u : Bytes) (ps : List Param)
    → fits (length ps) (segment p) (segment (d ∷ u)) ≡ true
    → match_from (suc fuel) (b':' ∷ p) (d ∷ u) ps
      ≡ match_from fuel
          (behind p)
          (behind (d ∷ u))
          (ps ++ (record { key = segment p; value = segment (d ∷ u) } ∷ []))
unfolding match_from
capture_step fuel d p u ps e = rw (match_from, e) refl

match_from-literal :
    (fuel c : ℕ) (s p u : Bytes) (ps : List Param)
    → (c == b':') ≡ false
    → NoSlash (c ∷ s)
    → AtSlash p
    → AtSlash u
    → match_from (suc fuel) (c ∷ (s ++ p)) (c ∷ (s ++ u)) ps ≡ match_from fuel p u ps
match_from-literal fuel c s p u ps no_colon clean at_p at_u =
    literal_step fuel c c (s ++ p) (s ++ u) ps clean.0 no_colon
      (segment-append (c ∷ s) p clean at_p ∙ sym (segment-append (c ∷ s) u clean at_u))
    ∙ ap₂ (λ x y. match_from fuel x y ps) (behind-append (c ∷ s) p clean at_p)
        (behind-append (c ∷ s) u clean at_u)

match_from-capture :
    (fuel d : ℕ) (name p v u : Bytes) (ps : List Param)
    → NoSlash name
    → NoSlash (d ∷ v)
    → AtSlash p
    → AtSlash u
    → fits (length ps) name (d ∷ v) ≡ true
    → match_from (suc fuel) (b':' ∷ (name ++ p)) (d ∷ (v ++ u)) ps
      ≡ match_from fuel p u (ps ++ (record { key = name; value = d ∷ v } ∷ []))
match_from-capture fuel d name p v u ps clean_name clean at_p at_u fit =
    capture_step fuel d (name ++ p) (v ++ u) ps (ap₂ (fits (length ps)) names values ∙ fit)
    ∙ ap₂
        (λ x y.
          match_from fuel x y
            (ps ++ (record { key = segment (name ++ p); value = segment (d ∷ (v ++ u)) } ∷ [])))
        (behind-append name p clean_name at_p) (behind-append (d ∷ v) u clean at_u)
    ∙ ap₂ (λ x y. match_from fuel p u (ps ++ (record { key = x; value = y } ∷ []))) names values
  where
    names : segment (name ++ p) ≡ name
    names = segment-append name p clean_name at_p

    values : segment (d ∷ (v ++ u)) ≡ d ∷ v
    values = segment-append (d ∷ v) u clean at_u

slash_step :
    (fuel : ℕ) (p u : Bytes) (ps : List Param)
    → match_from (suc fuel) (b'/' ∷ p) (b'/' ∷ u) ps ≡ match_from fuel p u ps
unfolding match_from
slash_step fuel p u ps = refl

fits_lem :
    (n : ℕ) (name value : Bytes)
    → n < 4
    → length name < 32
    → length value < 128
    → fits n name value ≡ true
fits_lem n name value a b c =
    rw (lt→leb 4 n a, lt→leb 32 (length name) b, lt→leb 128 (length value) c) refl

match_from-parts :
    (fuel : ℕ) (parts : List Part) (tail : Bytes) (ps : List Param)
    → AreParts parts
    → only_slashes tail ≡ true
    → length ps + length (params_of parts) ≤ 4
    → length (pattern_of parts) < fuel
    → match_from fuel (pattern_of parts) (path_of parts tail) ps ≡ matched (ps ++ params_of parts)
unfolding match_from
match_from-parts zero parts tail ps ok slashes few lt = absurd (omega arith)
match_from-parts (suc fuel) [] tail ps ok slashes few lt = rw (slashes, append-nil ps) refl
match_from-parts (suc zero) (fixed s ∷ parts) tail ps ok slashes few lt = absurd (omega arith)
match_from-parts (suc zero) (placeholder name value ∷ parts) tail ps ok slashes few lt =
    absurd (omega arith)
match_from-parts (suc (suc fuel)) (fixed [] ∷ parts) tail ps (bad, ok) slashes few lt = absurd bad
match_from-parts (suc (suc fuel)) (fixed (c ∷ s) ∷ parts) tail ps ((no_colon, clean), ok) slashes
      few lt =
    slash_step (suc fuel) (c ∷ (s ++ pattern_of parts)) (c ∷ (s ++ path_of parts tail)) ps
    ∙ match_from-literal fuel c s (pattern_of parts) (path_of parts tail) ps no_colon clean
        (AtSlash-pattern_of parts) (AtSlash-path_of parts tail slashes)
    ∙ match_from-parts fuel parts tail ps ok slashes few
        (omega (arith, length-append s (pattern_of parts)))
match_from-parts (suc (suc fuel)) (placeholder name [] ∷ parts) tail ps (a, b, empty, n, v, rest)
      slashes few lt =
    absurd (omega arith)
match_from-parts (suc (suc fuel)) (placeholder name (d ∷ v) ∷ parts) tail ps
      (clean_name, clean, some_value, short_name, short, ok) slashes few lt =
    slash_step (suc fuel) (b':' ∷ (name ++ pattern_of parts)) (d ∷ (v ++ path_of parts tail)) ps
    ∙ match_from-capture fuel d name (pattern_of parts) v (path_of parts tail) ps clean_name clean
        (AtSlash-pattern_of parts) (AtSlash-path_of parts tail slashes)
        (fits_lem (length ps) name (d ∷ v) (omega arith) short_name short)
    ∙ match_from-parts fuel parts tail (ps ++ (record { key = name; value = d ∷ v } ∷ [])) ok
        slashes (omega (arith, length-append ps (record { key = name; value = d ∷ v } ∷ [])))
        (omega (arith, length-append name (pattern_of parts)))
    ∙ ap matched (append_assoc ps (record { key = name; value = d ∷ v } ∷ []) (params_of parts))

-- for a pattern of fixed segments and at most four placeholders, each within its bound, the path that has for each placeholder a value of 1 to 127 bytes without a slash matches, also with slashes behind it, and the parameters are the names with these values, in the order of the pattern.
pub match_pattern-params_of :
    (parts : List Part) (tail : Bytes)
    → AreParts parts
    → only_slashes tail ≡ true
    → length (params_of parts) ≤ 4
    → match_pattern (pattern_of parts) (path_of parts tail) ≡ matched (params_of parts)
unfolding match_pattern
match_pattern-params_of parts tail good slashes few =
    match_from-parts (length (pattern_of parts) + 1) parts tail [] good slashes (omega arith)
      (omega arith)
