-- ===== src/Http/Sse.antt =====
-- src/http/sse.c: the parser of a stream of server-sent events.
--
-- Buffers are their bytes; appending to them succeeds. The callback may be NULL. What it returns may
-- depend on the event and on the events that it has been given before, which the state keeps.
pub mod Chunks
pub mod Events
use multi_agent.Common.{
  ℕ, zero, suc, ◌+◌, ◌-◌, ◌*◌, ◌/◌, ◌^◌, ℤ, pos, negsuc, Bool, true, false, not, ◌&&◌, ◌||◌, Option,
  none, some, List, [], ◌∷◌, ◌++◌, Bytes, codes, str_eq, leb, ltb, ◌==◌, if◌then◌else◌, length,
}

pub record Event : Type 0 where
  pub name : Bytes
  pub text : Bytes

pub record Parser : Type 0 where
  pub buf : Bytes
  pub payload : Bytes
  pub event : Bytes
  pub id : Bytes
  pub retry_ms : ℤ
  pub delivered : List Event

-- The return code of the callback, 0 for success.
abbrev pub Callback : Type 0
Callback = Option (List Event → Event → ℤ)

unfoldable pub init : Parser
init = record { buf = []; payload = []; event = []; id = []; retry_ms = negsuc 0; delivered = [] }

abbrev pub is_ok : ℤ → Bool
is_ok (pos n) = n == 0
is_ok (negsuc n) = false

-- The bytes in front of the first colon, and those behind it, less one space.
unfoldable pub field_name : Bytes → Bytes
field_name [] = []
field_name (c ∷ cs) = if c == b':' then [] else c ∷ field_name cs

drop_space : Bytes → Bytes
drop_space [] = []
drop_space (c ∷ cs) = if c == b' ' then cs else c ∷ cs

unfoldable pub field_value : Bytes → Bytes
unfolding drop_space
field_value [] = []
field_value (c ∷ cs) = if c == b':' then drop_space cs else field_value cs

abbrev pub long_max : ℕ
long_max = 2 ^ 63 - 1

-- The loop of `sse_parse_retry`; `none` leaves the field as it was.
unfoldable pub retry_digits : ℕ → Bytes → Option ℕ
retry_digits retry [] = some retry
retry_digits retry (c ∷ cs) =
    let digit = c - b'0' in
    let more = retry_digits (retry * 10 + digit) cs in
    if ltb c b'0' || ltb b'9' c
    then none
    else if ltb ((long_max - digit) / 10) retry
    then none
    else more

unfoldable pub parse_retry : Bytes → ℤ → ℤ
unfolding retry_digits
parse_retry [] old = old
parse_retry (c ∷ cs) old = elim (retry_digits 0 (c ∷ cs)) [ none ↦ old | some n ↦ pos n ]

-- The text that a C string ends with its first NUL.
unfoldable pub c_string : Bytes → Bytes
c_string [] = []
c_string (c ∷ cs) = if c == 0 then [] else c ∷ c_string cs

unfoldable pub has_nul : Bytes → Bool
has_nul [] = false
has_nul (c ∷ cs) = c == 0 || has_nul cs

-- A last newline goes.
unfoldable pub chop_newline : Bytes → Bytes
chop_newline [] = []
chop_newline (c ∷ []) = if c == b'\n' then [] else c ∷ []
chop_newline (c ∷ d ∷ cs) = c ∷ chop_newline (d ∷ cs)

abbrev pub reset_event : Parser → Parser
reset_event p = record p { payload = []; event = [] }

unfoldable pub call : Callback → Parser → Event → Parser × ℤ
call none p e = (p, pos 0)
call (some cb) p e = (record p { delivered = p.delivered ++ (e ∷ []) }, cb p.delivered e)

abbrev pub or_message : Bytes → Bytes
or_message [] = codes "message"
or_message (c ∷ cs) = c ∷ cs

unfoldable pub dispatch_data : Callback → Parser → Bytes → Parser × ℤ
unfolding chop_newline c_string call
dispatch_data cb p [] = (reset_event p, pos 0)
dispatch_data cb p (c ∷ cs) =
    let e : Event = record {
      name = c_string (or_message p.event);
      text = c_string (chop_newline (c ∷ cs));
    } in
    let (q, rc) = call cb p e in (reset_event q, rc)

unfoldable pub dispatch : Callback → Parser → Parser × ℤ
unfolding dispatch_data
dispatch cb p = dispatch_data cb p p.payload

unfoldable pub set_field : Parser → Bytes → Bytes → Parser
unfolding parse_retry has_nul
set_field p field value =
    if str_eq field (codes "data")
    then record p { payload = p.payload ++ (value ++ (b'\n' ∷ [])) }
    else if str_eq field (codes "event")
    then record p { event = value }
    else if str_eq field (codes "id")
    then (if has_nul value then p else record p { id = value })
    else if str_eq field (codes "retry")
    then record p { retry_ms = parse_retry value p.retry_ms }
    else p

-- A line of the stream, without its end.
unfoldable pub handle_line : Callback → Parser → Bytes → Parser × ℤ
unfolding dispatch set_field field_name field_value
handle_line cb p [] = dispatch cb p
handle_line cb p (c ∷ cs) =
    if c == b':'
    then (p, pos 0)
    else (set_field p (field_name (c ∷ cs)) (field_value (c ∷ cs)), pos 0)

-- The line without a last carriage return, and the same bytes with NULs as the code leaves them.
unfoldable pub strip_cr : Bytes → Bytes
strip_cr [] = []
strip_cr (c ∷ []) = if c == b'\r' then [] else c ∷ []
strip_cr (c ∷ d ∷ cs) = c ∷ strip_cr (d ∷ cs)

pub overwritten : Bytes → Bytes
overwritten [] = 0 ∷ []
overwritten (c ∷ []) = (if c == b'\r' then 0 else c) ∷ 0 ∷ []
overwritten (c ∷ d ∷ cs) = c ∷ overwritten (d ∷ cs)

-- `process_buffer`: `done` are the lines behind `start` as they are overwritten, `line` what stands
-- between `start` and the bytes that `memchr` has yet to look at. An error leaves the buffer whole.
unfoldable pub process : Callback → Parser → Bytes → Bytes → Bytes → Parser × ℤ
unfolding overwritten
process cb p done line [] = (record p { buf = line }, pos 0)
process cb p done line (c ∷ rest) =
    let (q, rc) = handle_line cb p (strip_cr line) in
    let next = process cb q (done ++ overwritten line) [] rest in
    let longer = process cb p done (line ++ (c ∷ [])) rest in
    if c == b'\n'
    then (if is_ok rc then next else (record q { buf = done ++ (overwritten line ++ rest) }, rc))
    else longer

unfoldable pub feed : Callback → Parser → Bytes → Parser × ℤ
feed cb p [] = (p, pos 0)
feed cb p (c ∷ cs) = process cb p [] [] (p.buf ++ (c ∷ cs))
