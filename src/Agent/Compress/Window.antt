-- ===== src/Agent/Compress/Window.antt =====
-- src/agent/compress.c: what the sliding window keeps.
use multi_agent.Common.{
  ℕ, zero, suc, ◌+◌, ◌-◌, ◌*◌, min, List, [], ◌∷◌, ◌≡◌, refl, ap, arith, length, if◌then◌else◌,
}
use multi_agent.Common.{pos}
use multi_agent.Util.Errno.{ok}
use multi_agent.Util.Utf8.{Utf8Library}
use multi_agent.Agent.Context.{Message, msg_list_count}
use multi_agent.Agent.Compress.{is_system_role, CompressResult, slide, sliding_window}

-- The system messages, in their order.
abbrev pub systems : List Message → List Message
systems [] = []
systems (m ∷ ms) = if is_system_role m then m ∷ systems ms else systems ms

abbrev pub others : List Message → ℕ
others [] = 0
others (m ∷ ms) = if is_system_role m then others ms else suc (others ms)

-- The list without its first n messages that are no system messages.
abbrev pub drop_others : ℕ → List Message → List Message
drop_others n [] = []
drop_others zero (m ∷ ms) = m ∷ ms
drop_others (suc n) (m ∷ ms) =
    if is_system_role m then m ∷ drop_others (suc n) ms else drop_others n ms

slide-drop_others :
    (n total keep removed : ℕ) (ms : List Message)
    → n ≡ total - removed - keep
    → slide total keep removed ms ≡ (drop_others n ms, removed + min n (others ms))
unfolding slide
slide-drop_others n total keep removed [] h = ground arith
slide-drop_others zero total keep removed (m ∷ ms) h = ground arith
slide-drop_others (suc n) total keep removed (m ∷ ms) h = ground (
  arith,
  slide-drop_others (suc n) total keep removed ms,
  slide-drop_others n total keep (removed + 1) ms,
)

systems-drop_others : (n : ℕ) (ms : List Message) → systems (drop_others n ms) ≡ systems ms
systems-drop_others n [] = refl
systems-drop_others zero (m ∷ ms) = refl
systems-drop_others (suc n) (m ∷ ms) =
    ground (arith, systems-drop_others (suc n) ms, systems-drop_others n ms)

length-drop_others :
    (n : ℕ) (ms : List Message) → length (drop_others n ms) + min n (others ms) ≡ length ms
length-drop_others n [] = omega arith
length-drop_others zero (m ∷ ms) = omega arith
length-drop_others (suc n) (m ∷ ms) =
    ground (arith, length-drop_others (suc n) ms, length-drop_others n ms)

length-msg_list_count : (ms : List Message) → msg_list_count ms ≡ length ms
length-msg_list_count [] = refl
length-msg_list_count (m ∷ ms) = ap suc (length-msg_list_count ms)

-- What the sliding window leaves of a list of messages, for k rounds to keep.
pub record Slid (k : ℕ) (ms kept : List Message) (removed : ℕ) : Type 0 where
  pub oldest_go : kept ≡ drop_others (length ms - k * 2) ms
  pub systems_stay : systems kept ≡ systems ms
  pub removed_is : removed ≡ min (length ms - k * 2) (others ms)
  pub accounted : length kept + removed ≡ length ms

slide-Slid :
    (k : ℕ) (ms : List Message)
    → Slid k ms
        (slide (msg_list_count ms) (k * 2) 0 ms).0
        (slide (msg_list_count ms) (k * 2) 0 ms).1
slide-Slid k ms =
    rw
      (
        length-msg_list_count,
        slide-drop_others (length ms - k * 2) (length ms) (k * 2) 0 ms (omega arith),
      )
      (record {
        oldest_go = refl;
        systems_stay = systems-drop_others (length ms - k * 2) ms;
        removed_is = omega arith;
        accounted = omega (arith, length-drop_others (length ms - k * 2) ms);
      })

-- The sliding window accepts every list that is not empty. It removes the oldest messages other than
-- system messages, as many as the list has over 2 k messages, or all of them if there are fewer;
-- the system messages stay, in their order; and the result says how many were removed.
pub sliding_window-Slid :
    (u : Utf8Library) (m : Message) (ms : List Message) (k : ℕ)
    → (kept : List Message) × (r : CompressResult) × (sliding_window u (m ∷ ms) (pos k)
        ≡ ok (kept, r))
      × Slid k (m ∷ ms) kept r.messages_removed
unfolding sliding_window
sliding_window-Slid u m ms k = (_, _, refl, slide-Slid k (m ∷ ms))
