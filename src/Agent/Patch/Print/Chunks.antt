-- ===== src/Agent/Patch/Print/Chunks.antt =====
-- src/agent/patch.c: the chunks of an update are read as they were written.
use multi_agent.Common.{
  ℕ, zero, suc, ◌+◌, ◌<◌, ◌≡◌, refl, sym, ap, ◌∙◌, Bool, true, false, ◌&&◌, ◌||◌, Option, none,
  some, List, [], ◌∷◌, ◌++◌, Bytes, codes, length, take, drop, map, arith, str_eq, append_assoc,
  append-nil, lt→ltb,
}
use multi_agent.Util.Errno.{ok}
use multi_agent.Agent.Patch.{
  trim_left, trim_right, find_marker, has_marker, one_space, is_file_header, is_move, header_none,
  Chunk, Hunk, header_kind, view_equal, trim_view,
}
use multi_agent.Agent.Patch.Headers.{
  IsText, IsValue, IsText-is_bare_chunk, IsText-is_context_chunk, IsText-ends_update, IsText-is_eof,
  IsText-cons, trim_view-value, header_kind-text,
}
use multi_agent.Agent.Patch.Parse.{
  parse_change_line, chunk_lines, chunk_start, parse_chunk, parse_chunks, is_bare_chunk,
  is_context_chunk, ends_update, is_end, is_eof, skip_empty, no_chunk, is_nil, push,
}
use multi_agent.Agent.Patch.Print.{
  Change, keep, insert, remove, Section, change_line, section_head, end_lines, section_lines,
  old_of, new_of, added_by, removed_by, chunk_of, with_sections, IsChange, AreChanges, IsOptional,
  IsSection, AreSections,
}

-- The line ends the lines of a chunk, and is not empty.
abbrev pub StopsChunk : List Bytes → Type 0
StopsChunk [] = Unit
StopsChunk (l ∷ ls) =
    (is_bare_chunk l || is_context_chunk l || ends_update l ≡ true) × (view_equal l [] ≡ false)

chunk_lines_stop :
    (h : Hunk) (c : Chunk) (rest : List Bytes)
    → StopsChunk rest
    → chunk_lines h c rest ≡ ok (h, c, rest)
unfolding chunk_lines
chunk_lines_stop h c [] s = refl
chunk_lines_stop h c (l ∷ ls) s = rw s.0

skip_empty_stop : (rest : List Bytes) → StopsChunk rest → skip_empty rest ≡ rest
unfolding skip_empty
skip_empty_stop [] s = refl
skip_empty_stop (l ∷ ls) s = rw s.1

chunk_lines_step :
    (h h' : Hunk) (c c' : Chunk) (l : Bytes) (ls : List Bytes)
    → IsText l
    → parse_change_line h c l ≡ ok (h', c')
    → chunk_lines h c (l ∷ ls) ≡ chunk_lines h' c' ls
unfolding chunk_lines
chunk_lines_step h h' c c' l ls t e = rw (
  IsText-is_bare_chunk l t,
  IsText-is_context_chunk l t,
  IsText-ends_update l t,
  IsText-is_eof l t,
  e,
)

change_line-IsText : (c : Change) → IsChange c → IsText (change_line c)
change_line-IsText (keep t) h = h
change_line-IsText (insert t) h = IsText-cons b'+' t refl refl refl
change_line-IsText (remove t) h = IsText-cons b'-' t refl refl refl

-- The counts and the lines with those of more changes.
abbrev with_changes : Hunk → List Change → Hunk
with_changes h cs = record h { added = h.added + added_by cs; removed = h.removed + removed_by cs }

abbrev with_lines : Chunk → List Change → Chunk
with_lines c cs = record c {
  old_lines = c.old_lines ++ old_of cs;
  new_lines = c.new_lines ++ new_of cs;
}

-- Counts and lines that are equal leave equal results.
chunk_lines_cong :
    (h : Hunk) (c : Chunk) (rest : List Bytes) {a a' r r' : ℕ} {o o' n n' : List Bytes}
    → a ≡ a'
    → r ≡ r'
    → o ≡ o'
    → n ≡ n'
    → chunk_lines
        (record h { added = a; removed = r })
        (record c { old_lines = o; new_lines = n })
        rest
      ≡ chunk_lines
          (record h { added = a'; removed = r' })
          (record c { old_lines = o'; new_lines = n' })
          rest
chunk_lines_cong h c rest p q e f = λ i.
    chunk_lines (record h { added = p i; removed = q i })
      (record c { old_lines = e i; new_lines = f i }) rest

push-append : (xs : List Bytes) (t : Bytes) (ys : List Bytes) → push xs t ++ ys ≡ xs ++ (t ∷ ys)
push-append xs t ys = append_assoc xs (t ∷ []) ys

chunk_lines-changes :
    (h : Hunk) (c : Chunk) (cs : List Change) (rest : List Bytes)
    → AreChanges cs
    → chunk_lines h c (map change_line cs ++ rest)
      ≡ chunk_lines (with_changes h cs) (with_lines c cs) rest
unfolding parse_change_line
chunk_lines-changes h c [] rest all =
    chunk_lines_cong h c rest (omega arith) (omega arith) (sym (append-nil c.old_lines))
      (sym (append-nil c.new_lines))
chunk_lines-changes h c (keep t ∷ cs) rest all =
    let c' : Chunk = record c { old_lines = push c.old_lines t; new_lines = push c.new_lines t } in
    chunk_lines_step h h c c' (b' ' ∷ t) (map change_line cs ++ rest) all.0 refl
    ∙ chunk_lines-changes h c' cs rest all.1
    ∙ chunk_lines_cong h c rest refl refl (push-append c.old_lines t (old_of cs))
        (push-append c.new_lines t (new_of cs))
chunk_lines-changes h c (insert t ∷ cs) rest all =
    let h' : Hunk = record h { added = h.added + 1 } in
    let c' : Chunk = record c { new_lines = push c.new_lines t } in
    chunk_lines_step h h' c c' (b'+' ∷ t) (map change_line cs ++ rest)
      (change_line-IsText (insert t) tt) refl
    ∙ chunk_lines-changes h' c' cs rest all.1
    ∙ chunk_lines_cong h c rest (omega arith) refl refl (push-append c.new_lines t (new_of cs))
chunk_lines-changes h c (remove t ∷ cs) rest all =
    let h' : Hunk = record h { removed = h.removed + 1 } in
    let c' : Chunk = record c { old_lines = push c.old_lines t } in
    chunk_lines_step h h' c c' (b'-' ∷ t) (map change_line cs ++ rest)
      (change_line-IsText (remove t) tt) refl
    ∙ chunk_lines-changes h' c' cs rest all.1
    ∙ chunk_lines_cong h c rest refl (omega arith) (push-append c.old_lines t (old_of cs)) refl

chunk_lines_end :
    (h : Hunk) (c : Chunk) (rest : List Bytes)
    → chunk_lines h c (codes "*** End of File" ∷ rest)
      ≡ ok (h, record c { end_of_file = true }, skip_empty rest)
unfolding chunk_lines is_bare_chunk is_context_chunk header_kind find_marker has_marker one_space
    trim_view trim_left trim_right is_eof is_file_header is_end str_eq is_move
chunk_lines_end h c rest = refl

-- The body of a section, and what ends it.
chunk_lines-section :
    (h : Hunk) (context : Option Bytes) (cs : List Change) (at_end : Bool) (rest : List Bytes)
    → AreChanges cs
    → StopsChunk rest
    → chunk_lines h
        (record no_chunk { context = context })
        (map change_line cs ++ end_lines at_end rest)
      ≡ ok (
        with_changes h cs,
        chunk_of (record { context = context; changes = cs; at_end = at_end }),
        rest,
      )
chunk_lines-section h context cs at_end rest all stop =
    chunk_lines-changes h (record no_chunk { context = context }) cs (end_lines at_end rest) all
    ∙ ended at_end
  where
    c : Chunk
    c = with_lines (record no_chunk { context = context }) cs

    ended :
        (b : Bool)
        → chunk_lines (with_changes h cs) c (end_lines b rest)
          ≡ ok (with_changes h cs, record c { end_of_file = b }, rest)
    ended false = chunk_lines_stop (with_changes h cs) c rest stop
    ended true =
        chunk_lines_end (with_changes h cs) c rest
        ∙ ap (λ ls. ok (with_changes h cs, record c { end_of_file = true }, ls))
            (skip_empty_stop rest stop)

-- The changes of a section find a line or leave one.
changes_nonempty :
    (cs : List Change) → 0 < length cs → (is_nil (old_of cs) && is_nil (new_of cs)) ≡ false
changes_nonempty [] h = absurd (omega arith)
changes_nonempty (keep t ∷ cs) h = refl
changes_nonempty (insert t ∷ cs) h = ground arith
changes_nonempty (remove t ∷ cs) h = refl

-- The head of a section.
head_view : (o : Option Bytes) → IsOptional o → trim_view (section_head o) ≡ section_head o
unfolding trim_view trim_left trim_right
head_view none h = refl
head_view (some v) h = trim_view-value b'@' (codes "@ ") v refl h

bare_head : is_bare_chunk (codes "@@") ≡ true
unfolding is_bare_chunk trim_view trim_left trim_right str_eq
bare_head = refl

-- A head with a context is not bare, and is one with a context.
context_head :
    (v : Bytes)
    → IsValue v
    → (is_bare_chunk (codes "@@ " ++ v) ≡ false) × (is_context_chunk (codes "@@ " ++ v) ≡ true)
unfolding is_bare_chunk is_context_chunk str_eq
context_head v val =
    let view : trim_view (codes "@@ " ++ v) ≡ codes "@@ " ++ v = head_view (some v) val in
    (rw view refl, rw view (rw (lt→ltb 3 (length (codes "@@ " ++ v)) (ground arith)) refl))

head-starts :
    (o : Option Bytes)
    → IsOptional o
    → (is_bare_chunk (section_head o) || is_context_chunk (section_head o)) ≡ true
head-starts none val = rw bare_head
head-starts (some v) val = rw ((context_head v val).0, (context_head v val).1)

chunk_start-head :
    (h : Hunk) (o : Option Bytes) (ls : List Bytes)
    → IsOptional o
    → chunk_start h (section_head o) ls ≡ ok (record no_chunk { context = o }, ls)
unfolding chunk_start
chunk_start-head h none ls val = rw bare_head
chunk_start-head h (some v) ls val =
    rw ((context_head v val).0, (context_head v val).1)
      (ap (λ (x : Bytes). ok (record no_chunk { context = some (drop 3 x) }, ls))
        (head_view (some v) val))

pub head-header_none :
    (o : Option Bytes) → IsOptional o → header_kind (section_head o) ≡ (header_none, [])
unfolding str_eq
head-header_none o val = header_kind-text (section_head o) (rw (head_view o val) (no_stars o))
  where
    no_stars : (o : Option Bytes) → str_eq (take 3 (section_head o)) (codes "***") ≡ false
    no_stars none = refl
    no_stars (some v) = refl

head-ends_update : (o : Option Bytes) → IsOptional o → ends_update (section_head o) ≡ false
unfolding is_file_header is_end
head-ends_update o val = rw (head-header_none o val)

head-view_equal : (o : Option Bytes) → IsOptional o → view_equal (section_head o) [] ≡ false
unfolding view_equal str_eq
head-view_equal none val = rw (head_view none val)
head-view_equal (some v) val = rw (head_view (some v) val)

-- A header of a file, or the end of the lines, ends an update.
abbrev pub EndsUpdate : List Bytes → Type 0
EndsUpdate [] = Unit
EndsUpdate (l ∷ ls) = (ends_update l ≡ true) × (view_equal l [] ≡ false)

EndsUpdate-StopsChunk : (rest : List Bytes) → EndsUpdate rest → StopsChunk rest
EndsUpdate-StopsChunk [] e = tt
EndsUpdate-StopsChunk (l ∷ ls) e = (ground arith, e.1)

section_lines-StopsChunk :
    (ss : List Section) (rest : List Bytes)
    → AreSections ss
    → EndsUpdate rest
    → StopsChunk (section_lines ss rest)
section_lines-StopsChunk [] rest all e = EndsUpdate-StopsChunk rest e
section_lines-StopsChunk (s ∷ ss) rest all e =
    let starts = head-starts s.context all.0.0 in (ground arith, head-view_equal s.context all.0.0)

parse_chunk-section :
    (h : Hunk) (s : Section) (rest : List Bytes)
    → IsSection s
    → StopsChunk rest
    → parse_chunk h (section_head s.context) (map change_line s.changes ++ end_lines s.at_end rest)
      ≡ ok (record (with_changes h s.changes) { chunks = h.chunks ++ (chunk_of s ∷ []) }, rest)
unfolding parse_chunk
parse_chunk-section h s rest val stop =
    rw
      (
        chunk_start-head h s.context (map change_line s.changes ++ end_lines s.at_end rest) val.0,
        parse_chunk,
      )
      (rw (chunk_lines-section h s.context s.changes s.at_end rest val.2 stop, parse_chunk)
        (rw (changes_nonempty s.changes val.1) refl))

-- The sections of an update are read as they were written, if there is fuel for each of them.
pub parse_chunks-sections :
    (fuel : ℕ) (h : Hunk) (ss : List Section) (rest : List Bytes)
    → AreSections ss
    → EndsUpdate rest
    → length ss < fuel
    → parse_chunks fuel h (section_lines ss rest) ≡ ok (with_sections h ss, rest)
unfolding parse_chunks
parse_chunks-sections zero h ss rest all e lt = absurd (omega arith)
parse_chunks-sections (suc fuel) h [] [] all e lt = refl
parse_chunks-sections (suc fuel) h [] (l ∷ ls) all e lt = rw e.0
parse_chunks-sections (suc fuel) h (s ∷ ss) rest all e lt =
    rw (head-ends_update s.context all.0.0) (
      rw
        (parse_chunk-section h s (section_lines ss rest) all.0
          (section_lines-StopsChunk ss rest all.1 e))
        (parse_chunks-sections fuel
          (record (with_changes h s.changes) { chunks = h.chunks ++ (chunk_of s ∷ []) }) ss rest
          all.1 e (omega arith)))
