-- ===== src/Agent/Patch/Parse.antt =====
-- src/agent/patch.c: the parser of a patch.
--
-- The index into the array of lines is the list of the lines from there to the end of the body. The
-- two loops that hand this list from hunk to hunk, or from chunk to chunk, take fuel, one unit for
-- each line and one more.
pub mod Fuel
pub mod Hunks
use multi_agent.Common.{
  ℕ, zero, suc, ◌+◌, Bool, true, false, not, ◌&&◌, ◌||◌, none, some, List, [], ◌∷◌, ◌++◌, Bytes,
  codes, str_eq, length, take, drop, leb, ltb, ◌==◌, if◌then◌else◌,
}
use multi_agent.Util.Errno.{einval, eio, Result, ok, err}
use multi_agent.Agent.Patch.{
  Action, add, update, delete, Chunk, Hunk, Header, header_none, header_add, header_update,
  header_delete, header_begin, header_end, header_eof, header_environment, trim_view, view_equal,
  is_file_header, is_move, header_kind,
}

abbrev pub cons_first : ℕ → List Bytes → List Bytes
cons_first c [] = []
cons_first c (l ∷ ls) = (c ∷ l) ∷ ls

-- Lines end with "\r\n", "\n" or the text.
unfoldable pub split_lines : Bytes → List Bytes
split_lines [] = [] ∷ []
split_lines (c ∷ []) = if c == b'\n' then [] ∷ [] ∷ [] else (c ∷ []) ∷ []
split_lines (c ∷ d ∷ cs) =
    let next = split_lines (d ∷ cs) in
    let behind = split_lines cs in
    if c == b'\r' && d == b'\n'
    then [] ∷ behind
    else if c == b'\n'
    then [] ∷ next
    else cons_first c next

abbrev pub no_chunk : Chunk
no_chunk = record { context = none; old_lines = []; new_lines = []; end_of_file = false }

abbrev pub new_hunk : Action → Bytes → Hunk
new_hunk action path = record {
  action = action;
  path = path;
  move_path = none;
  add_content = none;
  chunks = [];
  added = 0;
  removed = 0;
}

abbrev pub push : List Bytes → Bytes → List Bytes
push lines text = lines ++ (text ∷ [])

unfoldable pub parse_change_line : Hunk → Chunk → Bytes → Result (Hunk × Chunk)
parse_change_line hunk chunk [] = ok (
  hunk,
  record chunk { old_lines = push chunk.old_lines []; new_lines = push chunk.new_lines [] },
)
parse_change_line hunk chunk (marker ∷ text) =
    if marker == b' '
    then ok (
      hunk,
      record chunk { old_lines = push chunk.old_lines text; new_lines = push chunk.new_lines text },
    )
    else if marker == b'+'
    then ok (
      record hunk { added = hunk.added + 1 },
      record chunk { new_lines = push chunk.new_lines text },
    )
    else if marker == b'-'
    then ok (
      record hunk { removed = hunk.removed + 1 },
      record chunk { old_lines = push chunk.old_lines text },
    )
    else err einval

-- "@@", and "@@ " with a text behind it.
unfoldable pub is_bare_chunk : Bytes → Bool
is_bare_chunk line = str_eq (trim_view line) (codes "@@")

unfoldable pub is_context_chunk : Bytes → Bool
is_context_chunk line =
    ltb 3 (length (trim_view line)) && str_eq (take 3 (trim_view line)) (codes "@@ ")

unfoldable pub is_end : Header → Bool
is_end header_end = true
is_end _ = false

unfoldable pub is_eof : Header → Bool
is_eof header_eof = true
is_eof _ = false

-- A header that ends the chunks of an update.
abbrev pub ends_update : Bytes → Bool
ends_update line = is_file_header (header_kind line).0 || is_end (header_kind line).0

unfoldable pub skip_empty : List Bytes → List Bytes
skip_empty [] = []
skip_empty (l ∷ ls) = if view_equal l [] then skip_empty ls else l ∷ ls

-- The inner loop of `patch_parse_update`.
unfoldable pub chunk_lines : Hunk → Chunk → List Bytes → Result (Hunk × Chunk × List Bytes)
unfolding skip_empty
chunk_lines hunk chunk [] = ok (hunk, chunk, [])
chunk_lines hunk chunk (l ∷ ls) =
    let next = parse_change_line hunk chunk l in
    if is_bare_chunk l || is_context_chunk l || ends_update l
    then ok (hunk, chunk, l ∷ ls)
    else if is_eof (header_kind l).0
    then ok (hunk, record chunk { end_of_file = true }, skip_empty ls)
    else elim next [ err e ↦ err e | ok (h, c) ↦ chunk_lines h c ls ]

abbrev pub is_nil : {A : Type 0} → List A → Bool
is_nil [] = true
is_nil (x ∷ xs) = false

-- The start of a chunk: the chunk, and the lines of its body.
unfoldable pub chunk_start : Hunk → Bytes → List Bytes → Result (Chunk × List Bytes)
chunk_start hunk l ls =
    if is_bare_chunk l
    then ok (no_chunk, ls)
    else if is_context_chunk l
    then ok (record no_chunk { context = some (drop 3 (trim_view l)) }, ls)
    else if is_nil hunk.chunks
    then ok (no_chunk, l ∷ ls)
    else err einval

unfoldable pub parse_chunk : Hunk → Bytes → List Bytes → Result (Hunk × List Bytes)
parse_chunk hunk l ls = elim (chunk_start hunk l ls) [
  | err e ↦ err e
  | ok (chunk, body) ↦ elim (chunk_lines hunk chunk body) [
    | err e ↦ err e
    | ok (h, c, rest) ↦
        if is_nil c.old_lines && is_nil c.new_lines
        then err einval
        else ok (record h { chunks = h.chunks ++ (c ∷ []) }, rest)
  ]
]

unfoldable pub parse_chunks : ℕ → Hunk → List Bytes → Result (Hunk × List Bytes)
parse_chunks zero hunk lines = err eio
parse_chunks (suc fuel) hunk [] = ok (hunk, [])
parse_chunks (suc fuel) hunk (l ∷ ls) =
    let next = parse_chunk hunk l ls in
    if ends_update l
    then ok (hunk, l ∷ ls)
    else elim next [ err e ↦ err e | ok (h, rest) ↦ parse_chunks fuel h rest ]

unfoldable pub take_move : Hunk → List Bytes → Hunk × List Bytes
take_move hunk [] = (hunk, [])
take_move hunk (l ∷ ls) =
    if is_move (header_kind l).0
    then (record hunk { move_path = some (header_kind l).1 }, ls)
    else (hunk, l ∷ ls)

unfoldable pub parse_update : Hunk → List Bytes → Result (Hunk × List Bytes)
parse_update hunk lines =
    let (h, rest) = take_move hunk lines in
    elim (parse_chunks (length rest + 1) h rest) [
      | err e ↦ err e
      | ok (h', behind) ↦ if is_nil h'.chunks then err einval else ok (h', behind)
    ]

unfoldable pub is_header_none : Header → Bool
is_header_none header_none = true
is_header_none _ = false

unfoldable pub append_add_line : Bytes → Bytes → Result Bytes
append_add_line content [] = err einval
append_add_line content (c ∷ text) =
    if c == b'+' then ok (content ++ (text ++ (b'\n' ∷ []))) else err einval

-- The lines of a new file.
unfoldable pub add_lines : ℕ → Bytes → List Bytes → Result (ℕ × Bytes × List Bytes)
add_lines added content [] = ok (added, content, [])
add_lines added content (l ∷ ls) =
    if is_header_none (header_kind l).0
    then elim (append_add_line content l) [
      | err e ↦ err e
      | ok more ↦ add_lines (added + 1) more ls
    ]
    else ok (added, content, l ∷ ls)

unfoldable pub parse_add : Hunk → List Bytes → Result (Hunk × List Bytes)
parse_add hunk lines = elim (add_lines 0 [] lines) [
  | err e ↦ err e
  | ok (added, content, rest) ↦
      if added == 0
      then err einval
      else ok (record hunk { added = added; add_content = some content }, rest)
]

-- One turn of the loop of `patch_parse`, at a line with its header and value.
unfoldable pub parse_hunk : Header → Bytes → List Bytes → Result (Hunk × List Bytes)
parse_hunk header_add value rest = parse_add (new_hunk add value) rest
parse_hunk header_update value rest = parse_update (new_hunk update value) rest
parse_hunk header_delete value rest = ok (new_hunk delete value, rest)
parse_hunk _ value rest = err einval

unfoldable pub parse_hunks : ℕ → List Hunk → List Bytes → Result (List Hunk)
parse_hunks zero hunks lines = err eio
parse_hunks (suc fuel) hunks [] = if is_nil hunks then err einval else ok hunks
parse_hunks (suc fuel) hunks (l ∷ ls) = elim (parse_hunk (header_kind l).0 (header_kind l).1 ls) [
  | err e ↦ err e
  | ok (hunk, rest) ↦ parse_hunks fuel (hunks ++ (hunk ∷ [])) rest
]

-- The lines without the empty ones at the end.
unfoldable pub drop_empty_end : List Bytes → List Bytes
drop_empty_end [] = []
drop_empty_end (l ∷ ls) =
    let rest = drop_empty_end ls in if is_nil rest && view_equal l [] then [] else l ∷ rest

unfoldable pub but_last : List Bytes → List Bytes
but_last [] = []
but_last (l ∷ []) = []
but_last (l ∷ k ∷ ls) = l ∷ but_last (k ∷ ls)

unfoldable pub last_line : Bytes → List Bytes → Bytes
last_line l [] = l
last_line l (k ∷ ls) = last_line k ls

abbrev pub is_heredoc : Bytes → Bool
is_heredoc l =
    str_eq l (codes "<<EOF") || str_eq l (codes "<<'EOF'") || str_eq l (codes "<<\"EOF\"")

-- A patch in the form of a here-document loses its first and its last line.
unfoldable pub strip_heredoc : List Bytes → List Bytes
unfolding but_last last_line
strip_heredoc [] = []
strip_heredoc (l ∷ ls) =
    if leb 4 (length (l ∷ ls)) && is_heredoc l && str_eq (last_line l ls) (codes "EOF")
    then but_last ls
    else l ∷ ls

unfoldable pub is_begin : Header → Bool
is_begin header_begin = true
is_begin _ = false

unfoldable pub is_environment : Header → Bool
is_environment header_environment = true
is_environment _ = false

-- The lines between "*** Begin Patch" and "*** End Patch", behind an environment.
unfoldable pub patch_body : List Bytes → Result (List Bytes)
patch_body [] = err einval
patch_body (l ∷ ls) =
    if not (is_begin (header_kind l).0)
    then err einval
    else if not (is_end (header_kind (last_line l ls)).0)
    then err einval
    else elim (but_last ls) [
      | [] ↦ ok []
      | k ∷ ks ↦ if is_environment (header_kind k).0 then ok ks else ok (k ∷ ks)
    ]

unfoldable pub patch_parse : Bytes → Result (List Hunk)
patch_parse text =
    elim (patch_body (strip_heredoc (drop_empty_end (skip_empty (split_lines text))))) [
      | err e ↦ err e
      | ok body ↦ parse_hunks (length body + 1) [] body
    ]
