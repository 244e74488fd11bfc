-- ===== src/Agent/Patch/Apply/Splice.antt =====
-- src/agent/patch.c: what an update makes of a file.
use multi_agent.Common.{
  ℕ, ◌+◌, ◌-◌, ◌≤◌, ◌<◌, ◌≡◌, refl, sym, ap, ◌∙◌, false, List, [], ◌∷◌, ◌++◌, Bytes, length, take,
  drop, arith, inl, inr, subst, ◌≡⟨◌⟩◌, ◌∎, drop-drop, take-append-drop,
}
use multi_agent.Util.Errno.{ok, Result-cases, ok-injective}
use multi_agent.Util.Utf8.{Utf8Library}
use multi_agent.Agent.Patch.{Chunk, Hunk}
use multi_agent.Agent.Patch.Apply.{
  Replacement, replace_chunk, compute_replacements, insert_replacement, sort_replacements,
  replacement_compare, splice, updated_lines, build_updated_content, content_lines, print_lines,
}
use multi_agent.Agent.Patch.Apply.Bounds.{Replaces, replace_chunk-TurnRight}

-- A chunk that has lines to look for, and does not ask for the end of the file.
abbrev pub IsChange : Chunk → Type 0
IsChange c = (0 < length c.old_lines) × (c.end_of_file ≡ false)

abbrev pub AllChanges : List Chunk → Type 0
AllChanges [] = Unit
AllChanges (c ∷ cs) = IsChange c × AllChanges cs

-- The chunks change one place of the lines each, in their order, and nothing else.
abbrev pub Patched : Utf8Library → List Chunk → List Bytes → List Bytes → Type 0
Patched u [] lines out = lines ≡ out
Patched u (c ∷ cs) lines out =
    (gap : List Bytes) × (old : List Bytes) × (new : List Bytes) × (lines_behind : List Bytes)
    × (out_behind : List Bytes) × (lines ≡ gap ++ (old ++ lines_behind))
    × (out ≡ gap ++ (new ++ out_behind))
    × Replaces u c old new
    × Patched u cs lines_behind out_behind

-- The replacements stand one behind the other.
abbrev Chain : Utf8Library → List Bytes → ℕ → ℕ → List Chunk → List Replacement → Type 0
Chain u source cursor order [] [] = Unit
Chain u source cursor order [] (r ∷ rs) = ⊥
Chain u source cursor order (c ∷ cs) [] = ⊥
Chain u source cursor order (c ∷ cs) (r ∷ rs) =
    (cursor ≤ r.start)
    × (r.order ≡ order)
    × (r.start + r.old_count ≤ length source)
    × Replaces u c (take r.old_count (drop r.start source)) (take r.new_count r.chunk.new_lines)
    × Chain u source (r.start + r.old_count) (order + 1) cs rs

compute_replacements-Chain :
    (u : Utf8Library) (source : List Bytes) (cursor order : ℕ) (cs : List Chunk)
    (rs : List Replacement)
    → cursor ≤ length source
    → AllChanges cs
    → compute_replacements u source cursor order cs ≡ ok rs
    → Chain u source cursor order cs rs
unfolding compute_replacements
compute_replacements-Chain u source cursor order [] rs le all h =
    subst (Chain u source cursor order []) (ok-injective [] rs h) tt
compute_replacements-Chain u source cursor order (c ∷ cs) rs le all h =
    elim (Result-cases (replace_chunk u source cursor order c)) [
      | inr (e, bad) ↦ cc (rw (bad, compute_replacements) at h)
      | inl ((r, next), good) ↦
          let turn = replace_chunk-TurnRight u source cursor order c (r, next) le good in
          let rest' = turn.5 all.0.0 in
          elim (Result-cases (compute_replacements u source next (order + 1) cs)) [
            | inr (e, bad) ↦ cc (rw (good, bad, compute_replacements) at h)
            | inl (rest, good') ↦
                subst (Chain u source cursor order (c ∷ cs))
                  (ok-injective (r ∷ rest) rs (rw (good, good', compute_replacements) at h))
                  (
                    rest'.1 all.0.1,
                    turn.1,
                    turn.2,
                    rw turn.0 rest'.2,
                    rw (← rest'.0) (
                        compute_replacements-Chain u source next (order + 1) cs rest turn.4 all.1
                          good'),
                  )
          ]
    ]

-- Replacements that stand one behind the other are sorted.
insert_replacement-Chain :
    (u : Utf8Library) (source : List Bytes) (cursor order : ℕ) (cs : List Chunk) (r : Replacement)
    (rs : List Replacement)
    → Chain u source cursor order cs (r ∷ rs)
    → insert_replacement r rs ≡ r ∷ rs
unfolding insert_replacement replacement_compare
insert_replacement-Chain u source cursor order [] r rs h = absurd h
insert_replacement-Chain u source cursor order (c ∷ cs) r [] h = refl
insert_replacement-Chain u source cursor order (c ∷ []) r (s ∷ ss) h = absurd h.4
insert_replacement-Chain u source cursor order (c ∷ d ∷ cs) r (s ∷ ss) h =
    let le : r.start + r.old_count ≤ s.start = h.4.0 in
    let o : s.order ≡ order + 1 = h.4.1 in let o' : r.order ≡ order = h.1 in ground arith

sort_replacements-Chain :
    (u : Utf8Library) (source : List Bytes) (cursor order : ℕ) (cs : List Chunk)
    (rs : List Replacement)
    → Chain u source cursor order cs rs
    → sort_replacements rs ≡ rs
unfolding sort_replacements
sort_replacements-Chain u source cursor order cs [] h = refl
sort_replacements-Chain u source cursor order [] (r ∷ rs) h = absurd h
sort_replacements-Chain u source cursor order (c ∷ cs) (r ∷ rs) h =
    rw (sort_replacements-Chain u source (r.start + r.old_count) (order + 1) cs rs h.4)
      (insert_replacement-Chain u source cursor order (c ∷ cs) r rs h)

-- From one index of the source to another.
segment :
    (xs : List Bytes) (i k n : ℕ)
    → i ≤ k
    → drop i xs ≡ take (k - i) (drop i xs) ++ (take n (drop k xs) ++ drop (k + n) xs)
segment xs i k n h =
    drop i xs
    ≡⟨ sym (take-append-drop (k - i) (drop i xs)) ⟩
      take (k - i) (drop i xs) ++ drop (k - i) (drop i xs)
    ≡⟨ ap (λ ys. take (k - i) (drop i xs) ++ ys) behind ⟩
      take (k - i) (drop i xs) ++ (take n (drop k xs) ++ drop (k + n) xs) ∎
  where
    behind : drop (k - i) (drop i xs) ≡ take n (drop k xs) ++ drop (k + n) xs
    behind =
        drop-drop (k - i) i xs
        ∙ ap (λ m. drop m xs) (omega arith)
        ∙ sym (take-append-drop n (drop k xs))
        ∙ ap (λ ys. take n (drop k xs) ++ ys) (drop-drop n k xs)

splice-Patched :
    (u : Utf8Library) (source : List Bytes) (cursor order : ℕ) (cs : List Chunk)
    (rs : List Replacement)
    → Chain u source cursor order cs rs
    → Patched u cs (drop cursor source) (splice source cursor rs)
unfolding splice
splice-Patched u source cursor order [] [] h = refl
splice-Patched u source cursor order [] (r ∷ rs) h = absurd h
splice-Patched u source cursor order (c ∷ cs) [] h = absurd h
splice-Patched u source cursor order (c ∷ cs) (r ∷ rs) h = (
  take (r.start - cursor) (drop cursor source),
  take r.old_count (drop r.start source),
  take r.new_count r.chunk.new_lines,
  drop (r.start + r.old_count) source,
  splice source (r.start + r.old_count) rs,
  segment source cursor r.start r.old_count h.0,
  refl,
  h.3,
  splice-Patched u source (r.start + r.old_count) (order + 1) cs rs h.4,
)

updated_lines-Patched :
    (u : Utf8Library) (source out : List Bytes) (cs : List Chunk)
    → AllChanges cs
    → updated_lines u source cs ≡ ok out
    → Patched u cs source out
unfolding updated_lines
updated_lines-Patched u source out cs all h =
    elim (Result-cases (compute_replacements u source 0 0 cs)) [
      | inr (e, bad) ↦ cc (rw (bad, updated_lines) at h)
      | inl (rs, good) ↦
          let chain = compute_replacements-Chain u source 0 0 cs rs (omega arith) all good in
          let same = sort_replacements-Chain u source 0 0 cs rs chain in
          subst (Patched u cs source)
            (ok-injective (splice source 0 rs) out (rw (← same) (rw (good, updated_lines) at h)))
            (splice-Patched u source 0 0 cs rs chain)
    ]

-- an update whose chunks all have lines to look for, and none of which is marked for the end of the
-- file, that succeeds has changed one place of the file for each chunk, in the order of the chunks
-- and without overlap: lines that stand for the chunk's old lines, or for these without an empty
-- last one, have become its new lines, or these without an empty last one, and all lines between
-- these places are as they were; each line is then written with a newline.
pub build_updated_content-Patched :
    (u : Utf8Library) (original updated : Bytes) (hunk : Hunk)
    → AllChanges hunk.chunks
    → build_updated_content u original hunk ≡ ok updated
    → (lines : List Bytes) × (updated ≡ print_lines lines)
      × Patched u hunk.chunks (content_lines original) lines
unfolding build_updated_content
build_updated_content-Patched u original updated hunk all h =
    elim (Result-cases (updated_lines u (content_lines original) hunk.chunks)) [
      | inr (e, bad) ↦ cc (rw (bad, build_updated_content) at h)
      | inl (out, good) ↦ (
        out,
        sym (ok-injective (print_lines out) updated (rw (good, build_updated_content) at h)),
        updated_lines-Patched u (content_lines original) out hunk.chunks all good,
      )
    ]
