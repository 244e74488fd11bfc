-- ===== src/Agent/Patch/Seek/Modes.antt =====
-- src/agent/patch.c: the four ways of patch_lines_equal to compare lines.
use multi_agent.Common.{
  ℕ, zero, suc, ◌+◌, ◌-◌, ◌≤◌, ◌≡◌, refl, sym, ap, ◌∙◌, Bool, true, false, [], ◌∷◌, Bytes, arith,
  inl, inr, Bool-cases, str_eq, str_eq_iff, subst, le→ltb,
}
use Prim.Native.Nat.add
use multi_agent.Util.Utf8.{Utf8Library}
use multi_agent.Agent.Patch.{is_blank, trim_left, trim_right, trim_view, cons_unless}
use multi_agent.Agent.Patch.Seek.{
  is_space, line_trim, line_trim_end, line_trim_start, normalize_line, lines_equal,
}

is_space-is_blank : (c : ℕ) → is_blank c ≡ false → is_space c ≡ false
is_space-is_blank c h = ground arith

-- Trimming spaces and tabs first changes nothing for a trim of blanks.
trim_left-line_trim_start : (x : Bytes) → trim_left (line_trim_start x) ≡ trim_left x
unfolding trim_left line_trim_start
trim_left-line_trim_start [] = refl
trim_left-line_trim_start (c ∷ cs) = ground (arith, trim_left-line_trim_start cs)

trim_right-cons_unless :
    (c : ℕ) (rest : Bytes)
    → trim_right (cons_unless (is_space c) c rest) ≡ cons_unless (is_blank c) c (trim_right rest)
unfolding trim_right
trim_right-cons_unless c [] = ground arith
trim_right-cons_unless c (d ∷ ds) = refl

trim_right-line_trim_end : (x : Bytes) → trim_right (line_trim_end x) ≡ trim_right x
unfolding line_trim_end trim_right
trim_right-line_trim_end [] = refl
trim_right-line_trim_end (c ∷ cs) =
    trim_right-cons_unless c (line_trim_end cs)
    ∙ ap (cons_unless (is_blank c) c) (trim_right-line_trim_end cs)

-- A blank in front of a trimmed text goes.
trim_left-cons_unless :
    (b : Bool) (c : ℕ) (rest : Bytes)
    → is_blank c ≡ true
    → trim_left (cons_unless b c rest) ≡ trim_left rest
unfolding trim_left
trim_left-cons_unless true c [] h = refl
trim_left-cons_unless false c [] h = rw h
trim_left-cons_unless b c (d ∷ ds) h = rw h

cons_unless-false : (c : ℕ) (rest : Bytes) → cons_unless false c rest ≡ c ∷ rest
cons_unless-false c [] = refl
cons_unless-false c (d ∷ ds) = refl

trim_left_blank : (c : ℕ) (cs : Bytes) → is_blank c ≡ true → trim_left (c ∷ cs) ≡ trim_left cs
unfolding trim_left
trim_left_blank c cs h = rw h

trim_left_text : (c : ℕ) (cs : Bytes) → is_blank c ≡ false → trim_left (c ∷ cs) ≡ c ∷ cs
unfolding trim_left
trim_left_text c cs h = rw h

line_trim_end_text :
    (c : ℕ) (cs : Bytes) → is_blank c ≡ false → line_trim_end (c ∷ cs) ≡ c ∷ line_trim_end cs
unfolding line_trim_end
line_trim_end_text c cs h =
    ap (λ b. cons_unless b c (line_trim_end cs)) (is_space-is_blank c h)
    ∙ cons_unless-false c (line_trim_end cs)

trim_left-line_trim_end_blank :
    (c : ℕ) (cs : Bytes)
    → is_blank c ≡ true
    → trim_left (line_trim_end (c ∷ cs)) ≡ trim_left (line_trim_end cs)
unfolding line_trim_end
trim_left-line_trim_end_blank c cs h = trim_left-cons_unless (is_space c) c (line_trim_end cs) h

trim_view-line_trim_end : (x : Bytes) → trim_view (line_trim_end x) ≡ trim_view x
unfolding trim_view
trim_view-line_trim_end [] = unfold line_trim_end in refl
trim_view-line_trim_end (c ∷ cs) = elim (Bool-cases (is_blank c)) [
  | inl blank ↦
      ap trim_right (trim_left-line_trim_end_blank c cs blank)
      ∙ trim_view-line_trim_end cs
      ∙ ap trim_right (sym (trim_left_blank c cs blank))
  | inr text ↦
      ap (λ x. trim_right (trim_left x)) (line_trim_end_text c cs text)
      ∙ ap trim_right (trim_left_text c (line_trim_end cs) text)
      ∙ sym (ap trim_right (line_trim_end_text c cs text))
      ∙ trim_right-line_trim_end (c ∷ cs)
      ∙ sym (ap trim_right (trim_left_text c cs text))
]

trim_view-line_trim : (x : Bytes) → trim_view (line_trim true x) ≡ trim_view x
unfolding line_trim trim_view
trim_view-line_trim x =
    ap trim_right (trim_left-line_trim_start (line_trim_end x)) ∙ trim_view-line_trim_end x

-- How a line reads in a mode: two lines are equal in it if they read alike.
abbrev reading : Utf8Library → ℕ → Bytes → Bytes
reading u zero x = x
reading u (suc zero) x = line_trim false x
reading u (suc (suc zero)) x = line_trim true x
reading u _ x = normalize_line u (trim_view x)

lines_equal-reading :
    (u : Utf8Library) (mode : ℕ) (l r : Bytes)
    → lines_equal u mode l r ≡ str_eq (reading u mode l) (reading u mode r)
unfolding lines_equal
lines_equal-reading u zero l r = refl
lines_equal-reading u (suc zero) l r = refl
lines_equal-reading u (suc (suc zero)) l r = refl
lines_equal-reading u (suc (suc (suc m))) l r = rw (le→ltb (suc (suc (suc m))) 3 (omega arith)) refl

line_trim_leading :
    (l r : Bytes) → line_trim false l ≡ line_trim false r → line_trim true l ≡ line_trim true r
unfolding line_trim
line_trim_leading l r h = ap line_trim_start h

-- What reads alike in one mode does in the next.
reading-suc :
    (u : Utf8Library) (mode : ℕ) (l r : Bytes)
    → reading u mode l ≡ reading u mode r
    → reading u (suc mode) l ≡ reading u (suc mode) r
reading-suc u zero l r h = ap (line_trim false) h
reading-suc u (suc zero) l r h = line_trim_leading l r h
reading-suc u (suc (suc zero)) l r h =
    ap (normalize_line u) (sym (trim_view-line_trim l) ∙ ap trim_view h ∙ trim_view-line_trim r)
reading-suc u (suc (suc (suc m))) l r h = h

reading-add :
    (u : Utf8Library) (mode d : ℕ) (l r : Bytes)
    → reading u mode l ≡ reading u mode r
    → reading u (d + mode) l ≡ reading u (d + mode) r
reading-add u mode zero l r h = rw add.zero h
reading-add u mode (suc d) l r h =
    rw add.suc (reading-suc u (d + mode) l r (reading-add u mode d l r h))

-- the four ways to compare lines are each looser than the one before: lines that are equal in one
-- are equal in all later ones.
pub lines_equal_mono :
    (u : Utf8Library) (a b : ℕ) (l r : Bytes)
    → a ≤ b
    → lines_equal u a l r ≡ true
    → lines_equal u b l r ≡ true
lines_equal_mono u a b l r le h =
    let alike =
      (str_eq_iff (reading u a l) (reading u a r)).0 (sym (lines_equal-reading u a l r) ∙ h) in
    let same : b - a + a ≡ b = omega arith in
    let alike' =
      subst (λ m. reading u m l ≡ reading u m r) same (reading-add u a (b - a) l r alike) in
    lines_equal-reading u b l r ∙ (str_eq_iff (reading u b l) (reading u b r)).1 alike'
