-- ===== src/Agent/Patch/Apply.antt =====
-- src/agent/patch.c: the lines of a file behind the chunks of an update.
--
-- An array of lines is a list, and `source_lines[i]` is read for i below its length only. `qsort`
-- sorts by an order in which no two replacements are equal, so that any sort gives its result.
pub mod Bounds
pub mod Splice
pub mod Lines
pub mod AtEnd
use multi_agent.Common.{
  ℕ, zero, suc, ◌+◌, ◌-◌, Bool, true, false, not, ◌&&◌, Option, none, some, List, [], ◌∷◌, ◌++◌,
  Bytes, length, take, drop, ltb, ◌==◌, if◌then◌else◌, ℤ, pos, negsuc,
}
use multi_agent.Util.Errno.{einval, Result, ok, err}
use multi_agent.Util.Utf8.{Utf8Library}
use multi_agent.Agent.Patch.{Chunk, Hunk}
use multi_agent.Agent.Patch.Seek.{seek_sequence}

pub record Replacement : Type 0 where
  pub start : ℕ
  pub old_count : ℕ
  pub order : ℕ
  pub chunk : Chunk
  pub new_count : ℕ

abbrev pub extend_first : ℕ → List Bytes → List Bytes
extend_first c [] = (c ∷ []) ∷ []
extend_first c (l ∷ ls) = (c ∷ l) ∷ ls

-- The lines of a file; there is none behind a last newline.
unfoldable pub content_lines : Bytes → List Bytes
content_lines [] = []
content_lines (c ∷ cs) =
    if c == b'\n' then [] ∷ content_lines cs else extend_first c (content_lines cs)

abbrev pub is_empty : {A : Type 0} → List A → Bool
is_empty [] = true
is_empty (x ∷ xs) = false

-- There is a last line, and it is empty.
unfoldable pub ends_empty : List Bytes → Bool
ends_empty [] = false
ends_empty (l ∷ []) = is_empty l
ends_empty (l ∷ k ∷ ls) = ends_empty (k ∷ ls)

-- The cursor behind the line of the chunk's context, if that is found.
unfoldable pub seek_context : Utf8Library → List Bytes → Option Bytes → ℕ → ℕ
seek_context u source none cursor = cursor
seek_context u source (some c) cursor = elim (seek_sequence u source (c ∷ []) cursor false) [
  | none ↦ cursor
  | some found ↦ found + 1
]

-- The search behind the context, and the one from where the chunk began.
unfoldable pub seek_twice : Utf8Library → List Bytes → List Bytes → ℕ → ℕ → Bool → Option ℕ
seek_twice u source old cursor chunk_cursor eof = elim (seek_sequence u source old cursor eof) [
  | some found ↦ some found
  | none ↦ if cursor == chunk_cursor then none else seek_sequence u source old chunk_cursor eof
]

pub record Found : Type 0 where
  pub start : ℕ
  pub old_count : ℕ
  pub new_count : ℕ

abbrev pub found_at : ℕ → ℕ → ℕ → Found
found_at start old_count new_count = record {
  start = start;
  old_count = old_count;
  new_count = new_count;
}

-- The old lines are sought as they are, and then without an empty last one.
unfoldable pub seek_old : Utf8Library → List Bytes → Chunk → ℕ → ℕ → Option Found
seek_old u source c cursor chunk_cursor =
    let old = c.old_lines in
    let n = length old in
    let new_count = length c.new_lines in
    elim (seek_twice u source old cursor chunk_cursor c.end_of_file) [
      | some found ↦ some (found_at found n new_count)
      | none ↦
          if ends_empty old
          then elim (seek_twice u source (take (n - 1) old) cursor chunk_cursor c.end_of_file) [
            | some found ↦ some (
                found_at found (n - 1)
                  (if ends_empty c.new_lines then new_count - 1 else new_count))
            | none ↦ none
          ]
          else none
    ]

abbrev pub replacement_at : Found → ℕ → Chunk → Replacement
replacement_at f order c = record {
  start = f.start;
  old_count = f.old_count;
  order = order;
  chunk = c;
  new_count = f.new_count;
}

-- One turn of the loop over the chunks: the replacement, and the cursor behind it.
unfoldable pub replace_chunk : Utf8Library → List Bytes → ℕ → ℕ → Chunk → Result (Replacement × ℕ)
replace_chunk u source cursor order c =
    let behind = seek_context u source c.context cursor in
    if is_empty c.old_lines
    then ok (replacement_at (found_at (length source) 0 (length c.new_lines)) order c, behind)
    else elim (seek_old u source c behind cursor) [
      | none ↦ err einval
      | some f ↦ ok (replacement_at f order c, f.start + f.old_count)
    ]

unfoldable pub compute_replacements :
    Utf8Library → List Bytes → ℕ → ℕ → List Chunk → Result (List Replacement)
compute_replacements u source cursor order [] = ok []
compute_replacements u source cursor order (c ∷ cs) = elim (replace_chunk u source cursor order c) [
  | err e ↦ err e
  | ok (r, next) ↦ elim (compute_replacements u source next (order + 1) cs) [
    | err e ↦ err e
    | ok rs ↦ ok (r ∷ rs)
  ]
]

unfoldable pub replacement_compare : Replacement → Replacement → ℤ
replacement_compare a b =
    if ltb a.start b.start
    then negsuc 0
    else if ltb b.start a.start
    then pos 1
    else if ltb a.order b.order
    then negsuc 0
    else if ltb b.order a.order
    then pos 1
    else pos 0

abbrev pub is_positive : ℤ → Bool
is_positive (pos n) = ltb 0 n
is_positive (negsuc n) = false

unfoldable pub insert_replacement : Replacement → List Replacement → List Replacement
unfolding replacement_compare
insert_replacement r [] = r ∷ []
insert_replacement r (s ∷ ss) =
    if is_positive (replacement_compare r s) then s ∷ insert_replacement r ss else r ∷ s ∷ ss

unfoldable pub sort_replacements : List Replacement → List Replacement
unfolding insert_replacement
sort_replacements [] = []
sort_replacements (r ∷ rs) = insert_replacement r (sort_replacements rs)

-- The lines of the output from the source's line `source_index` on.
unfoldable pub splice : List Bytes → ℕ → List Replacement → List Bytes
splice source source_index [] = drop source_index source
splice source source_index (r ∷ rs) =
    take (r.start - source_index) (drop source_index source)
    ++ (take r.new_count r.chunk.new_lines ++ splice source (r.start + r.old_count) rs)

unfoldable pub print_lines : List Bytes → Bytes
print_lines [] = []
print_lines (l ∷ ls) = l ++ (b'\n' ∷ print_lines ls)

-- The lines of the updated file.
unfoldable pub updated_lines : Utf8Library → List Bytes → List Chunk → Result (List Bytes)
updated_lines u source chunks = elim (compute_replacements u source 0 0 chunks) [
  | err e ↦ err e
  | ok rs ↦ ok (splice source 0 (sort_replacements rs))
]

unfoldable pub build_updated_content : Utf8Library → Bytes → Hunk → Result Bytes
build_updated_content u original hunk =
    elim (updated_lines u (content_lines original) hunk.chunks) [
      | err e ↦ err e
      | ok lines ↦ ok (print_lines lines)
    ]
