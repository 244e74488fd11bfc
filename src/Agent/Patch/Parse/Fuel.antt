-- ===== src/Agent/Patch/Parse/Fuel.antt =====
-- src/agent/patch.c: the loops of the parser end.
use multi_agent.Common.{
  ℕ, zero, suc, ◌≤◌, ◌<◌, ◌≡◌, refl, ap, ◌∙◌, Bool, true, false, ◌&&◌, ◌||◌, some, List, [], ◌∷◌,
  ◌++◌, Bytes, length, drop, if◌then◌else◌, arith, ◌==◌, Bool-cases, inl, inr, ◌⊎◌,
}
use multi_agent.Util.Errno.{einval, Result, ok, err}
use multi_agent.Agent.Patch.{Chunk, Hunk, header_kind, trim_view}
use multi_agent.Agent.Patch.Parse.{
  parse_change_line, chunk_lines, chunk_start, parse_chunk, parse_chunks, is_bare_chunk, no_chunk,
  is_context_chunk, ends_update, is_eof, skip_empty, is_nil,
}

-- A result has a property, or is the error of the parser for what it does not accept.
abbrev pub Yields : {A : Type 0} → (A → Type 0) → Result A → Type 0
Yields P (ok a) = P a
Yields P (err e) = e ≡ einval

pub Yields-if :
    {A : Type 0} (P : A → Type 0) (b : Bool) (x y : Result A)
    → (b ≡ true → Yields P x)
    → (b ≡ false → Yields P y)
    → Yields P (if b then x else y)
Yields-if P true x y p q = p refl
Yields-if P false x y p q = q refl

pub Yields-bind :
    {A B : Type 0} (P : A → Type 0) (Q : B → Type 0) (m : Result A) (f : A → Result B)
    → Yields P m
    → ((a : A) → P a → Yields Q (f a))
    → Yields Q (elim m [ err e ↦ err e | ok a ↦ f a ])
Yields-bind P Q (ok a) f p q = q a p
Yields-bind P Q (err e) f p q = p

pub Yields-map :
    {A : Type 0} (P Q : A → Type 0) (r : Result A) → ((a : A) → P a → Q a) → Yields P r → Yields Q r
Yields-map P Q (ok a) f p = f a p
Yields-map P Q (err e) f p = p

-- A hunk that a step leaves is of the same action, with the same chunks.
abbrev SameHunk : Hunk → Hunk → Type 0
SameHunk h h' = (h'.action ≡ h.action) × (h'.chunks ≡ h.chunks)

parse_change_line-Yields :
    (h : Hunk) (c : Chunk) (l : Bytes)
    → Yields {A = Hunk × Chunk} (λ r. SameHunk h r.0) (parse_change_line h c l)
unfolding parse_change_line
parse_change_line-Yields h c [] = (refl, refl)
parse_change_line-Yields h c (marker ∷ text) =
    Yields-if {A = Hunk × Chunk} (λ r. SameHunk h r.0) (marker == b' ') _ _ (λ e. (refl, refl))
      λ e.
        Yields-if {A = Hunk × Chunk} (λ r. SameHunk h r.0) (marker == b'+') _ _ (λ e. (refl, refl))
          λ e.
            Yields-if {A = Hunk × Chunk} (λ r. SameHunk h r.0) (marker == b'-') _ _
              (λ e. (refl, refl)) λ e. refl

length-skip_empty : (ls : List Bytes) → length (skip_empty ls) ≤ length ls
unfolding skip_empty
length-skip_empty [] = omega arith
length-skip_empty (l ∷ ls) = ground (arith, length-skip_empty ls)

-- The lines of a chunk: those left are fewer, or the chunk has gained none.
abbrev AfterChunk : Hunk → Chunk → ℕ → Hunk × Chunk × List Bytes → Type 0
AfterChunk h c n (h', c', rest) =
    SameHunk h h'
    × (length rest ≤ n)
    × ((length rest < n) ⊎ ((c'.old_lines ≡ c.old_lines) × (c'.new_lines ≡ c.new_lines)))

chunk_lines-Yields :
    (h : Hunk) (c : Chunk) (ls : List Bytes)
    → Yields (AfterChunk h c (length ls)) (chunk_lines h c ls)
unfolding chunk_lines
chunk_lines-Yields h c [] = ((refl, refl), omega arith, inr (refl, refl))
chunk_lines-Yields h c (l ∷ ls) =
    elim (Bool-cases (is_bare_chunk l || is_context_chunk l || ends_update l)) [
      | inl e ↦ rw e ((refl, refl), omega arith, inr (refl, refl))
      | inr e ↦ rw e (elim (Bool-cases (is_eof (header_kind l).0)) [
        | inl e' ↦ rw e' (
          (refl, refl),
          omega (arith, length-skip_empty ls),
          inl (omega (arith, length-skip_empty ls)),
        )
        | inr e' ↦ rw e' (
            Yields-bind {A = Hunk × Chunk} (λ r. SameHunk h r.0) (AfterChunk h c (length (l ∷ ls)))
              (parse_change_line h c l) (λ r. chunk_lines r.0 r.1 ls)
              (parse_change_line-Yields h c l)
              λ r p. later r.0 r.1 p (chunk_lines-Yields r.0 r.1 ls))
      ])
    ]
  where
    later :
        (h' : Hunk) (c' : Chunk)
        → SameHunk h h'
        → Yields (AfterChunk h' c' (length ls)) (chunk_lines h' c' ls)
        → Yields (AfterChunk h c (length (l ∷ ls))) (chunk_lines h' c' ls)
    later h' c' same y =
        Yields-map (AfterChunk h' c' (length ls)) (AfterChunk h c (length (l ∷ ls)))
          (chunk_lines h' c' ls)
          (λ r p. ((p.0.0 ∙ same.0, p.0.1 ∙ same.1), omega arith, inl (omega arith))) y

-- The chunks of a hunk all have a line to find or to leave.
abbrev pub HasLines : Chunk → Type 0
HasLines c = (0 < length c.old_lines) ⊎ (0 < length c.new_lines)

abbrev pub AllHaveLines : List Chunk → Type 0
AllHaveLines [] = Unit
AllHaveLines (c ∷ cs) = HasLines c × AllHaveLines cs

AllHaveLines-push :
    (cs : List Chunk) (c : Chunk) → AllHaveLines cs → HasLines c → AllHaveLines (cs ++ (c ∷ []))
AllHaveLines-push [] c all h = (h, tt)
AllHaveLines-push (d ∷ cs) c all h = (all.0, AllHaveLines-push cs c all.1 h)

is_nil-HasLines : (c : Chunk) → (is_nil c.old_lines && is_nil c.new_lines) ≡ false → HasLines c
is_nil-HasLines c h = go c.old_lines c.new_lines h
  where
    go : (o n : List Bytes) → (is_nil o && is_nil n) ≡ false → (0 < length o) ⊎ (0 < length n)
    go [] [] h = cc
    go [] (l ∷ n) h = inr (omega arith)
    go (l ∷ o) n h = inl (omega arith)

-- What a chunk makes of a hunk and of its lines.
abbrev pub AfterHunk : Hunk → ℕ → Hunk × List Bytes → Type 0
AfterHunk h n (h', rest) =
    (h'.action ≡ h.action) × (AllHaveLines h.chunks → AllHaveLines h'.chunks) × (length rest ≤ n)

abbrev Started : ℕ → Chunk × List Bytes → Type 0
Started n (c, body) = (length body ≤ suc n) × (c.old_lines ≡ []) × (c.new_lines ≡ [])

chunk_start-Yields :
    (h : Hunk) (l : Bytes) (ls : List Bytes) → Yields (Started (length ls)) (chunk_start h l ls)
unfolding chunk_start
chunk_start-Yields h l ls =
    Yields-if (Started (length ls)) (is_bare_chunk l) (ok (no_chunk, ls)) _
      (λ e. (omega arith, refl, refl))
      λ e.
        Yields-if (Started (length ls)) (is_context_chunk l)
          (ok (record no_chunk { context = some (drop 3 (trim_view l)) }, ls)) _
          (λ e. (omega arith, refl, refl))
          λ e.
            Yields-if (Started (length ls)) (is_nil h.chunks) (ok (no_chunk, l ∷ ls)) (err einval)
              (λ e. (omega arith, refl, refl)) λ e. refl

module _ (h : Hunk) (l : Bytes) (ls : List Bytes) where
  -- The check that a chunk is not empty.
  chunk_checked :
      (c : Chunk) (body : List Bytes)
      → Started (length ls) (c, body)
      → (r : Hunk × Chunk × List Bytes) → AfterChunk h c (length body) r
      → Yields (AfterHunk h (length ls)) (
          if is_nil r.1.old_lines && is_nil r.1.new_lines
          then err einval
          else ok (record r.0 { chunks = r.0.chunks ++ (r.1 ∷ []) }, r.2))
  chunk_checked c body start (h', c', rest) after =
      Yields-if (AfterHunk h (length ls)) (is_nil c'.old_lines && is_nil c'.new_lines) (err einval)
        (ok (record h' { chunks = h'.chunks ++ (c' ∷ []) }, rest)) (λ e. refl)
        λ e. (
          after.0.0,
          λ all. AllHaveLines-push h'.chunks c' (rw after.0.1 all) (is_nil-HasLines c' e),
          fewer (is_nil-HasLines c' e) after.2,
        )
    where
      fewer :
          HasLines c'
          → (length rest < length body)
            ⊎ ((c'.old_lines ≡ c.old_lines) × (c'.new_lines ≡ c.new_lines))
          → length rest ≤ length ls
      fewer has (inl lt) = let le : length body ≤ suc (length ls) = start.0 in omega arith
      fewer has (inr (o, n)) = absurd (none_left has)
        where
          none_left : HasLines c' → ⊥
          none_left (inl lt) = omega (arith, ap length (o ∙ start.1))
          none_left (inr lt) = omega (arith, ap length (n ∙ start.2))

  parse_chunk-Yields : Yields (AfterHunk h (length ls)) (parse_chunk h l ls)
  unfolding parse_chunk
  parse_chunk-Yields =
      Yields-bind (Started (length ls)) (AfterHunk h (length ls)) (chunk_start h l ls)
        (λ s. elim (chunk_lines h s.0 s.1) [
          | err e ↦ err e
          | ok r ↦
              if is_nil r.1.old_lines && is_nil r.1.new_lines
              then err einval
              else ok (record r.0 { chunks = r.0.chunks ++ (r.1 ∷ []) }, r.2)
        ])
        (chunk_start-Yields h l ls)
        λ s start.
          Yields-bind (AfterChunk h s.0 (length s.1)) (AfterHunk h (length ls))
            (chunk_lines h s.0 s.1)
            (λ r.
              if is_nil r.1.old_lines && is_nil r.1.new_lines
              then err einval
              else ok (record r.0 { chunks = r.0.chunks ++ (r.1 ∷ []) }, r.2))
            (chunk_lines-Yields h s.0 s.1) λ r after. chunk_checked s.0 s.1 start r after

-- One unit of fuel for each line, and one more, is enough.
pub parse_chunks-Yields :
    (fuel : ℕ) (h : Hunk) (ls : List Bytes)
    → length ls < fuel
    → Yields (AfterHunk h (length ls)) (parse_chunks fuel h ls)
unfolding parse_chunks
parse_chunks-Yields zero h ls lt = absurd (omega arith)
parse_chunks-Yields (suc fuel) h [] lt = (refl, λ all. all, omega arith)
parse_chunks-Yields (suc fuel) h (l ∷ ls) lt = elim (Bool-cases (ends_update l)) [
  | inl e ↦ rw e (refl, λ all. all, omega arith)
  | inr e ↦ rw e (
      Yields-bind (AfterHunk h (length ls)) (AfterHunk h (length (l ∷ ls))) (parse_chunk h l ls)
        (λ r. parse_chunks fuel r.0 r.1) (parse_chunk-Yields h l ls)
        λ r p.
          Yields-map (AfterHunk r.0 (length r.1)) (AfterHunk h (length (l ∷ ls)))
            (parse_chunks fuel r.0 r.1) (λ s q. (q.0 ∙ p.0, λ all. q.1 (p.1 all), omega arith))
            (parse_chunks-Yields fuel r.0 r.1 (omega arith)))
]
