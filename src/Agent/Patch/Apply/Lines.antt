-- ===== src/Agent/Patch/Apply/Lines.antt =====
-- src/agent/patch.c: the text of a file and its lines.
use multi_agent.Common.{
  ℕ, ◌≡◌, ◌≢◌, refl, ap, ap₂, ◌∙◌, Bool, true, false, List, [], ◌∷◌, ◌++◌, Bytes, if◌then◌else◌,
  ◌==◌, arith,
}
use multi_agent.Agent.Patch.Apply.{extend_first, content_lines, print_lines}

-- The text is empty, or ends with a newline.
abbrev pub EndsWithNewline : Bytes → Type 0
EndsWithNewline [] = Unit
EndsWithNewline (c ∷ []) = c ≡ b'\n'
EndsWithNewline (c ∷ d ∷ cs) = EndsWithNewline (d ∷ cs)

-- No line holds a newline.
abbrev pub NoNewline : Bytes → Type 0
NoNewline [] = Unit
NoNewline (c ∷ cs) = (c ≢ b'\n') × NoNewline cs

abbrev pub AreLines : List Bytes → Type 0
AreLines [] = Unit
AreLines (l ∷ ls) = NoNewline l × AreLines ls

extended :
    (c d : ℕ) (b : Bool) (behind rest : List Bytes)
    → print_lines (extend_first c (if b then [] ∷ behind else extend_first d rest))
      ≡ c ∷ print_lines (if b then [] ∷ behind else extend_first d rest)
unfolding print_lines
extended c d true behind rest = refl
extended c d false behind [] = refl
extended c d false behind (l ∷ ls) = refl

-- A text that is not empty has a first line.
print_lines-extend_first :
    (c d : ℕ) (cs : Bytes)
    → print_lines (extend_first c (content_lines (d ∷ cs)))
      ≡ c ∷ print_lines (content_lines (d ∷ cs))
unfolding content_lines
print_lines-extend_first c d cs = extended c d (d == b'\n') (content_lines cs) (content_lines cs)

-- One byte in front of a text that is not empty.
print_lines-cons :
    (c d : ℕ) (cs : Bytes)
    → print_lines (content_lines (d ∷ cs)) ≡ d ∷ cs
    → print_lines (content_lines (c ∷ d ∷ cs)) ≡ c ∷ d ∷ cs
print_lines-cons c d cs ih = go (c == b'\n') refl
  where
    split : content_lines (c ∷ d ∷ cs) ≡ (
        if c == b'\n' then [] ∷ content_lines (d ∷ cs) else extend_first c (content_lines (d ∷ cs)))
    split = unfold content_lines in refl

    newline :
        print_lines ([] ∷ content_lines (d ∷ cs)) ≡ b'\n' ∷ print_lines (content_lines (d ∷ cs))
    newline = unfold print_lines in refl

    go : (b : Bool) → c == b'\n' ≡ b → print_lines (content_lines (c ∷ d ∷ cs)) ≡ c ∷ d ∷ cs
    go true nl = let e : b'\n' ≡ c = ground arith in rw (split, nl) (newline ∙ ap₂ ◌∷◌ e ih)
    go false other = rw (split, other) (print_lines-extend_first c d cs ∙ ap (◌∷◌ c) ih)

-- a text that is empty or ends with a newline is written back as it was, line by line.
pub print_lines-content_lines :
    (text : Bytes) → EndsWithNewline text → print_lines (content_lines text) ≡ text
unfolding print_lines content_lines
print_lines-content_lines [] h = refl
print_lines-content_lines (c ∷ []) h = rw h
print_lines-content_lines (c ∷ d ∷ cs) h =
    print_lines-cons c d cs (print_lines-content_lines (d ∷ cs) h)

-- A line in front of a text is its first line.
content_lines-line :
    (l : Bytes) (rest : Bytes)
    → NoNewline l
    → content_lines (l ++ (b'\n' ∷ rest)) ≡ l ∷ content_lines rest
unfolding content_lines
content_lines-line [] rest h = refl
content_lines-line (c ∷ l) rest h = rw (content_lines-line l rest h.1) (ground arith)

-- lines without a newline that are written to a file are read back as they were.
pub content_lines-print_lines :
    (ls : List Bytes) → AreLines ls → content_lines (print_lines ls) ≡ ls
unfolding print_lines
content_lines-print_lines [] h = unfold content_lines in refl
content_lines-print_lines (l ∷ ls) h =
    content_lines-line l (print_lines ls) h.0 ∙ ap (◌∷◌ l) (content_lines-print_lines ls h.1)
