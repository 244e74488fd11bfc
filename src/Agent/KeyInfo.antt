-- ===== src/Agent/KeyInfo.antt =====
-- src/agent/compress.c: the lines of the messages that a compression keeps hold of.
--
-- `struct key_info` is a linked list, newest entry first. Allocation succeeds.
use multi_agent.Common.{
  Bool, true, false, ◌&&◌, Option, none, some, List, [], ◌∷◌, ◌++◌, Bytes, codes, str_eq, ◌==◌,
  if◌then◌else◌,
}
use multi_agent.Agent.Context.{Message}

pub record KeyInfo : Type 0 where
  pub key : Bytes
  pub value : Bytes

abbrev pub key_patterns : List Bytes
key_patterns =
    codes "file_path"
    ∷ codes "output"
    ∷ codes "result"
    ∷ codes "path"
    ∷ codes "error"
    ∷ codes "generated"
    ∷ codes "downloaded"
    ∷ codes "saved"
    ∷ codes "created"
    ∷ codes "wrote"
    ∷ []

unfoldable pub starts_with : Bytes → Bytes → Bool
starts_with [] text = true
starts_with (k ∷ ks) [] = false
starts_with (k ∷ ks) (c ∷ cs) = k == c && starts_with ks cs

unfoldable pub to_line_end : Bytes → Bytes
to_line_end [] = []
to_line_end (c ∷ cs) = if c == b'\n' then [] else c ∷ to_line_end cs

-- The line in which the first match of the key begins (`strstr`, and the walks to both ends of
-- the line); `line` is what stands between the last newline and the text that is left.
unfoldable pub line_of_match : Bytes → Bytes → Bytes → Option Bytes
unfolding starts_with to_line_end
line_of_match key line [] = if starts_with key [] then some line else none
line_of_match key line (c ∷ cs) =
    let later = line_of_match key (if c == b'\n' then [] else line ++ (c ∷ [])) cs in
    if starts_with key (c ∷ cs) then some (line ++ to_line_end (c ∷ cs)) else later

unfoldable pub has_key : List KeyInfo → Bytes → Bool
has_key [] key = false
has_key (i ∷ is) key = if str_eq i.key key then true else has_key is key

-- `key_info_add`
unfoldable pub add : List KeyInfo → Bytes → Bytes → List KeyInfo
unfolding has_key line_of_match
add info key content = if has_key info key then info else elim (line_of_match key [] content) [
  | none ↦ info
  | some line ↦ record { key = key; value = line } ∷ info
]

add_all : List Bytes → List KeyInfo → Bytes → List KeyInfo
add_all [] info content = info
add_all (p ∷ ps) info content = add_all ps (add info p content) content

extract_from : List KeyInfo → List Message → List KeyInfo
extract_from info [] = info
extract_from info (m ∷ ms) = extract_from (add_all key_patterns info m.content) ms

-- `extract_key_info`
unfoldable pub extract : List Message → List KeyInfo
unfolding extract_from add_all add
extract ms = extract_from [] ms
