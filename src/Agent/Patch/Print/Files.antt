-- ===== src/Agent/Patch/Print/Files.antt =====
-- src/agent/patch.c: the hunks of a patch are read as they were written.
use multi_agent.Common.{
  ℕ, zero, suc, ◌+◌, ◌≤◌, ◌<◌, ◌≡◌, refl, sym, ap, ap₂, ◌∙◌, Bool, true, false, Option, none, some,
  List, [], ◌∷◌, ◌++◌, Bytes, codes, length, map, arith, ◌==◌, str_eq, append_assoc, append-nil,
  length-append, ◌⊎◌, inl, inr,
}
use Prim.Native.Nat.add
use multi_agent.Util.Errno.{ok}
use multi_agent.Agent.Patch.{
  add, update, Chunk, Hunk, header_kind, view_equal, Header, header_add, header_update,
  header_delete, is_file_header, is_move,
}
use multi_agent.Agent.Patch.Headers.{
  IsValue, header_kind-add, header_kind-update, header_kind-delete, header_kind-move, IsText-cons,
  header_kind-text, trim_view-value,
}
use multi_agent.Agent.Patch.Parse.{
  new_hunk, append_add_line, add_lines, parse_add, take_move, parse_update, parse_hunk, parse_hunks,
  is_header_none, is_nil,
}
use multi_agent.Agent.Patch.Print.{
  Section, chunk_of, added_by, removed_by, end_lines, change_line, FileChange, add_file,
  delete_file, update_file, section_lines, move_lines, file_head, file_body, files_lines,
  with_sections, hunk_of, IsOptional, AreSections, IsFileChange, AreFileChanges, section_head,
}
use multi_agent.Agent.Patch.Print.Chunks.{EndsUpdate, parse_chunks-sections, head-header_none}
use multi_agent.Agent.Patch.Apply.{print_lines}

abbrev pub path_of : FileChange → Bytes
path_of (add_file p ls) = p
path_of (delete_file p) = p
path_of (update_file p m ss) = p

abbrev pub header_of : FileChange → Header
header_of (add_file p ls) = header_add
header_of (delete_file p) = header_delete
header_of (update_file p m ss) = header_update

path-IsValue : (f : FileChange) → IsFileChange f → IsValue (path_of f)
path-IsValue (add_file p ls) h = h.0
path-IsValue (delete_file p) h = h
path-IsValue (update_file p m ss) h = h.0

pub header_kind-file :
    (f : FileChange) → IsFileChange f → header_kind (file_head f) ≡ (header_of f, path_of f)
header_kind-file (add_file p ls) h = header_kind-add p h.0
header_kind-file (delete_file p) h = header_kind-delete p h
header_kind-file (update_file p m ss) h = header_kind-update p h.0

view_equal-star : (m v : Bytes) → IsValue v → view_equal (b'*' ∷ (m ++ v)) [] ≡ false
unfolding view_equal str_eq
view_equal-star m v h = rw (trim_view-value b'*' m v refl h)

file_head-EndsUpdate :
    (f : FileChange) (ls : List Bytes) → IsFileChange f → EndsUpdate (file_head f ∷ ls)
unfolding is_file_header
file_head-EndsUpdate (add_file p ps) ls h =
    (rw (header_kind-add p h.0), view_equal-star (codes "** Add File: ") p h.0)
file_head-EndsUpdate (delete_file p) ls h =
    (rw (header_kind-delete p h), view_equal-star (codes "** Delete File: ") p h)
file_head-EndsUpdate (update_file p m ss) ls h =
    (rw (header_kind-update p h.0), view_equal-star (codes "** Update File: ") p h.0)

-- The lines of more files end an update, as the end of the lines does.
files_lines-EndsUpdate : (fs : List FileChange) → AreFileChanges fs → EndsUpdate (files_lines fs [])
files_lines-EndsUpdate [] all = tt
files_lines-EndsUpdate (f ∷ fs) all = file_head-EndsUpdate f [] all.0

-- A header is no line of a new file.
abbrev NoAddLine : List Bytes → Type 0
NoAddLine [] = Unit
NoAddLine (l ∷ ls) = is_header_none (header_kind l).0 ≡ false

files_lines-NoAddLine : (fs : List FileChange) → AreFileChanges fs → NoAddLine (files_lines fs [])
unfolding is_header_none
files_lines-NoAddLine [] all = tt
files_lines-NoAddLine (f ∷ fs) all =
    ap (λ (x : Header × Bytes). is_header_none x.0) (header_kind-file f all.0) ∙ no_none f
  where
    no_none : (f : FileChange) → is_header_none (header_of f) ≡ false
    no_none (add_file p ls) = refl
    no_none (delete_file p) = refl
    no_none (update_file p m ss) = refl

plus-header_none : (l : Bytes) → is_header_none (header_kind (b'+' ∷ l)).0 ≡ true
unfolding is_header_none
plus-header_none l = rw (header_kind-text (b'+' ∷ l) (IsText-cons b'+' l refl refl refl).0)

add_lines-lines :
    (added : ℕ) (content : Bytes) (ls rest : List Bytes)
    → NoAddLine rest
    → add_lines added content (map (λ l. b'+' ∷ l) ls ++ rest)
      ≡ ok (added + length ls, content ++ print_lines ls, rest)
unfolding add_lines append_add_line print_lines
add_lines-lines added content [] [] no' =
    ap₂ (λ (n : ℕ) (c : Bytes). ok (n, c, [])) (omega arith) (sym (append-nil content))
add_lines-lines added content [] (l ∷ rest) no' =
    rw no'
      (ap₂ (λ (n : ℕ) (c : Bytes). ok (n, c, l ∷ rest)) (omega arith) (sym (append-nil content)))
add_lines-lines added content (l ∷ ls) rest no' = rw (plus-header_none l) (
    add_lines-lines (added + 1) (content ++ (l ++ (b'\n' ∷ []))) ls rest no'
    ∙ ap₂ (λ (n : ℕ) (c : Bytes). ok (n, c, rest)) (omega arith)
        (append_assoc content (l ++ (b'\n' ∷ [])) (print_lines ls)
          ∙ ap (λ x. content ++ x) (append_assoc l (b'\n' ∷ []) (print_lines ls))))

-- A new file, and an update, in front of other files.
parse_add-lines :
    (h : Hunk) (ls rest : List Bytes)
    → 0 < length ls
    → NoAddLine rest
    → parse_add h (map (λ l. b'+' ∷ l) ls ++ rest)
      ≡ ok (record h { added = length ls; add_content = some (print_lines ls) }, rest)
unfolding parse_add
parse_add-lines h ls rest pos no' =
    rw (add_lines-lines 0 [] ls rest no', parse_add)
      (rw (add.zero (length ls)) (rw (nonempty) refl))
  where
    nonempty : length ls == 0 ≡ false
    nonempty = ground arith

take_move-none :
    (h : Hunk) (s : Section) (ss : List Section) (rest : List Bytes)
    → IsOptional s.context
    → take_move h (section_lines (s ∷ ss) rest) ≡ (h, section_lines (s ∷ ss) rest)
unfolding take_move is_move
take_move-none h s ss rest val = rw (head-header_none s.context val)

take_move-lines :
    (h : Hunk) (m : Option Bytes) (ss : List Section) (rest : List Bytes)
    → h.move_path ≡ none
    → IsOptional m
    → 0 < length ss
    → AreSections ss
    → take_move h (move_lines m (section_lines ss rest))
      ≡ (record h { move_path = m }, section_lines ss rest)
unfolding take_move is_move
take_move-lines h none [] rest e val pos all = absurd (omega arith)
take_move-lines h none (s ∷ ss) rest e val pos all =
    take_move-none h s ss rest all.0.0
    ∙ (λ i. (record h { move_path = e i }, section_lines (s ∷ ss) rest))
take_move-lines h (some m) ss rest e val pos all = rw (header_kind-move m val)

length-section_lines :
    (ss : List Section) (rest : List Bytes)
    → length ss + length rest ≤ length (section_lines ss rest)
length-section_lines [] rest = omega arith
length-section_lines (s ∷ ss) rest = omega (
  arith,
  length-section_lines ss rest,
  length-end_lines s.at_end (section_lines ss rest),
  length-append (map change_line s.changes) (end_lines s.at_end (section_lines ss rest)),
)
  where
    length-end_lines : (b : Bool) (ls : List Bytes) → length ls ≤ length (end_lines b ls)
    length-end_lines true ls = omega arith
    length-end_lines false ls = omega arith

length-file_body : (f : FileChange) (rest : List Bytes) → length rest ≤ length (file_body f rest)
length-file_body (add_file p ps) rest = omega (arith, length-append (map (λ l. b'+' ∷ l) ps) rest)
length-file_body (delete_file p) rest = omega arith
length-file_body (update_file p none ss) rest = omega (arith, length-section_lines ss rest)
length-file_body (update_file p (some m) ss) rest = omega (arith, length-section_lines ss rest)

is_nil-append : (cs : List Chunk) (c : Chunk) → is_nil (cs ++ (c ∷ [])) ≡ false
is_nil-append [] c = refl
is_nil-append (d ∷ cs) c = refl

with_sections-nonempty :
    (h : Hunk) (ss : List Section)
    → (is_nil h.chunks ≡ false) ⊎ (0 < length ss)
    → is_nil (with_sections h ss).chunks ≡ false
with_sections-nonempty h [] (inl e) = e
with_sections-nonempty h [] (inr lt) = absurd (omega arith)
with_sections-nonempty h (s ∷ ss) e =
    with_sections-nonempty
      (record h {
        chunks = h.chunks ++ (chunk_of s ∷ []);
        added = h.added + added_by s.changes;
        removed = h.removed + removed_by s.changes;
      })
      ss (inl (is_nil-append h.chunks (chunk_of s)))

parse_update-lines :
    (h : Hunk) (m : Option Bytes) (ss : List Section) (rest : List Bytes)
    → h.move_path ≡ none
    → IsOptional m
    → 0 < length ss
    → AreSections ss
    → EndsUpdate rest
    → parse_update h (move_lines m (section_lines ss rest))
      ≡ ok (with_sections (record h { move_path = m }) ss, rest)
unfolding parse_update
parse_update-lines h m ss rest e val pos all end' =
    rw (take_move-lines h m ss rest e val pos all, parse_update)
      (rw
        (
          parse_chunks-sections (length (section_lines ss rest) + 1) (record h { move_path = m }) ss
              rest all end' (omega (arith, length-section_lines ss rest)),
          parse_update,
        )
        (rw (with_sections-nonempty (record h { move_path = m }) ss (inr pos)) refl))

-- One file of a patch.
parse_hunk-file :
    (f : FileChange) (rest : List Bytes)
    → IsFileChange f
    → NoAddLine rest
    → EndsUpdate rest
    → parse_hunk (header_of f) (path_of f) (file_body f rest) ≡ ok (hunk_of f, rest)
unfolding parse_hunk
parse_hunk-file (add_file p ps) rest h no' end' = parse_add-lines (new_hunk add p) ps rest h.1 no'
parse_hunk-file (delete_file p) rest h no' end' = refl
parse_hunk-file (update_file p m ss) rest h no' end' =
    parse_update-lines (new_hunk update p) m ss rest refl h.1 h.2 h.3 end'

-- The files of a patch, behind the hunks that have been read.
pub parse_hunks-files :
    (fuel : ℕ) (hs : List Hunk) (fs : List FileChange)
    → AreFileChanges fs
    → length fs < fuel
    → is_nil (hs ++ map hunk_of fs) ≡ false
    → parse_hunks fuel hs (files_lines fs []) ≡ ok (hs ++ map hunk_of fs)
unfolding parse_hunks
parse_hunks-files zero hs fs all lt some' = absurd (omega arith)
parse_hunks-files (suc fuel) hs [] all lt some' =
    rw (append-nil hs) (rw (sym (ap is_nil (append-nil hs)) ∙ some') refl)
parse_hunks-files (suc fuel) hs (f ∷ fs) all lt some' =
    rw (header_kind-file f all.0, parse_hunks)
      (rw
        (
          parse_hunk-file f (files_lines fs []) all.0 (files_lines-NoAddLine fs all.1)
              (files_lines-EndsUpdate fs all.1),
          parse_hunks,
        )
        (parse_hunks-files fuel (hs ++ (hunk_of f ∷ [])) fs all.1 (omega arith)
            (ap is_nil again ∙ some')
          ∙ ap ok again))
  where
    again : (hs ++ (hunk_of f ∷ [])) ++ map hunk_of fs ≡ hs ++ (hunk_of f ∷ map hunk_of fs)
    again = append_assoc hs (hunk_of f ∷ []) (map hunk_of fs)

pub length-files_lines : (fs : List FileChange) → length fs ≤ length (files_lines fs [])
length-files_lines [] = omega arith
length-files_lines (f ∷ fs) =
    omega (arith, length-files_lines fs, length-file_body f (files_lines fs []))

-- What follows the lines of a part of a patch stands behind them.
section_lines-append :
    (ss : List Section) (rest : List Bytes) → section_lines ss rest ≡ section_lines ss [] ++ rest
section_lines-append [] rest = refl
section_lines-append (s ∷ ss) rest =
    ap (λ x. section_head s.context ∷ (map change_line s.changes ++ x))
      (ap (end_lines s.at_end) (section_lines-append ss rest) ∙ end_append s.at_end)
    ∙ ap (◌∷◌ (section_head s.context)) (
        sym (
          append_assoc (map change_line s.changes) (end_lines s.at_end (section_lines ss [])) rest))
  where
    end_append :
        (b : Bool)
        → end_lines b (section_lines ss [] ++ rest) ≡ end_lines b (section_lines ss []) ++ rest
    end_append true = refl
    end_append false = refl

sections :
    (ss : List Section) (ls rest : List Bytes)
    → section_lines ss (ls ++ rest) ≡ section_lines ss ls ++ rest
sections ss ls rest =
    section_lines-append ss (ls ++ rest)
    ∙ sym (append_assoc (section_lines ss []) ls rest)
    ∙ ap (λ x. x ++ rest) (sym (section_lines-append ss ls))

file_body-append :
    (f : FileChange) (ls rest : List Bytes) → file_body f (ls ++ rest) ≡ file_body f ls ++ rest
file_body-append (add_file p ps) ls rest = sym (append_assoc (map (λ l. b'+' ∷ l) ps) ls rest)
file_body-append (delete_file p) ls rest = refl
file_body-append (update_file p none ss) ls rest = sections ss ls rest
file_body-append (update_file p (some m) ss) ls rest =
    ap (◌∷◌ (codes "*** Move to: " ++ m)) (sections ss ls rest)

pub files_lines-append :
    (fs : List FileChange) (rest : List Bytes) → files_lines fs rest ≡ files_lines fs [] ++ rest
files_lines-append [] rest = refl
files_lines-append (f ∷ fs) rest =
    ap (λ x. file_head f ∷ file_body f x) (files_lines-append fs rest)
    ∙ ap (◌∷◌ (file_head f)) (file_body-append f (files_lines fs []) rest)
