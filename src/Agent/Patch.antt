-- ===== src/Agent/Patch.antt =====
-- src/agent/patch.c: patches of files, their lines and headers.
--
-- Errors are their codes: the texts that go with them are left out, and so are the line numbers in
-- these texts. Allocation succeeds.
pub mod Parse
pub mod Seek
pub mod Apply
pub mod Path
pub mod Headers
pub mod Print
use multi_agent.Common.{
  ℕ, zero, suc, ◌+◌, Bool, true, false, not, ◌&&◌, ◌||◌, Option, none, some, List, [], ◌∷◌, Bytes,
  codes, str_eq, length, take, drop, ltb, ◌==◌, if◌then◌else◌,
}

pub data Action : Type 0 where
  add update delete : Action

pub record Chunk : Type 0 where
  pub context : Option Bytes
  pub old_lines : List Bytes
  pub new_lines : List Bytes
  pub end_of_file : Bool

pub record Hunk : Type 0 where
  pub action : Action
  pub path : Bytes
  pub move_path : Option Bytes
  pub add_content : Option Bytes
  pub chunks : List Chunk
  pub added : ℕ
  pub removed : ℕ

pub data Header : Type 0 where
  header_none header_add header_update header_delete header_move : Header
  header_begin header_end header_eof header_environment : Header

abbrev pub is_blank : ℕ → Bool
is_blank c = c == b' ' || c == b'\t' || c == b'\r'

unfoldable pub trim_left : Bytes → Bytes
trim_left [] = []
trim_left (c ∷ cs) = if is_blank c then trim_left cs else c ∷ cs

abbrev pub cons_unless : Bool → ℕ → Bytes → Bytes
cons_unless b c [] = if b then [] else c ∷ []
cons_unless b c (d ∷ ds) = c ∷ d ∷ ds

unfoldable pub trim_right : Bytes → Bytes
trim_right [] = []
trim_right (c ∷ cs) = cons_unless (is_blank c) c (trim_right cs)

unfoldable pub trim_view : Bytes → Bytes
unfolding trim_left trim_right
trim_view text = trim_right (trim_left text)

unfoldable pub view_equal : Bytes → Bytes → Bool
view_equal line marker = str_eq (trim_view line) marker

-- One space, and nothing else to trim, stands in front of the line's text.
unfoldable pub one_space : Bytes → Bool
one_space [] = false
one_space (c ∷ []) = c == b' '
one_space (c ∷ d ∷ cs) = c == b' ' && not (is_blank d)

pub record Marker : Type 0 where
  pub marker : Bytes
  pub header : Header
  pub has_value : Bool

abbrev pub marker_of : Bytes → Header → Bool → Marker
marker_of marker header has_value = record {
  marker = marker;
  header = header;
  has_value = has_value;
}

abbrev pub markers : List Marker
markers =
    marker_of (codes "*** Add File: ") header_add true
    ∷ marker_of (codes "*** Update File: ") header_update true
    ∷ marker_of (codes "*** Delete File: ") header_delete true
    ∷ marker_of (codes "*** Move to: ") header_move true
    ∷ marker_of (codes "*** Environment ID: ") header_environment true
    ∷ marker_of (codes "*** Begin Patch") header_begin false
    ∷ marker_of (codes "*** End Patch") header_end false
    ∷ marker_of (codes "*** End of File") header_eof false
    ∷ []

unfoldable pub is_file_header : Header → Bool
is_file_header header_add = true
is_file_header header_update = true
is_file_header header_delete = true
is_file_header _ = false

unfoldable pub is_move : Header → Bool
is_move header_move = true
is_move _ = false

unfoldable pub has_marker : Marker → Bytes → Bool
has_marker m view =
    let n = length m.marker in
    (if m.has_value then ltb n (length view) else length view == n) && str_eq (take n view) m.marker

-- The loop over the table; a header without a match has no value.
unfoldable pub find_marker : List Marker → Bytes → Bytes → Header × Bytes
unfolding has_marker one_space is_file_header is_move
find_marker [] line view = (header_none, [])
find_marker (m ∷ ms) line view =
    let later = find_marker ms line view in
    if has_marker m view
    then (if one_space line && (is_file_header m.header || is_move m.header)
        then (header_none, [])
        else (m.header, drop (length m.marker) view))
    else later

unfoldable pub header_kind : Bytes → Header × Bytes
unfolding find_marker trim_view
header_kind line = find_marker markers line (trim_view line)
