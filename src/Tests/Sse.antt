-- ===== src/Tests/Sse.antt =====
-- src/http/sse.c on concrete inputs.
use multi_agent.Common.{
  ℕ, Bool, true, false, Option, none, some, List, [], ◌∷◌, ◌++◌, ◌≡◌, refl, Bytes, codes, ℤ, pos,
  negsuc, ◌==◌, length,
}
use multi_agent.Http.Sse.{Event, Parser, Callback, init, is_ok, feed, or_message}
use multi_agent.Http.Sse.Chunks.{Agree, feed-append}
use multi_agent.Http.Sse.Events.{event_text, join_lines, delivery, feed_event}

-- A callback that takes every event.
abbrev accept_all : Callback
accept_all = some (λ before e. pos 0)

abbrev received : Bytes → Bytes → Event
received name text = record { name = name; text = text }

delivered_two :
    (feed accept_all init
      (codes "data: a\r\ndata:b\nid: 7\nretry: 250\n\n: note\nevent: end\ndata: c\n\nda")).0
    ≡ record {
      buf = codes "da";
      payload = [];
      event = [];
      id = codes "7";
      retry_ms = pos 250;
      delivered =
          received (codes "message") (codes "a\nb") ∷ received (codes "end") (codes "c") ∷ [];
    }
unfolding feed multi_agent.Http.Sse.process init multi_agent.Http.Sse.handle_line
    multi_agent.Http.Sse.strip_cr multi_agent.Common.str_eq
delivered_two = refl

feed-append_example :
    (is_ok (feed accept_all init (codes "data: a\n")).1 ≡ true
      → Agree
          (feed accept_all init (codes "data: a\n" ++ codes "\n"))
          (feed accept_all (feed accept_all init (codes "data: a\n")).0 (codes "\n")))
    × (is_ok (feed accept_all init (codes "data: a\n")).1 ≡ false
        → Agree
            (feed accept_all init (codes "data: a\n" ++ codes "\n"))
            (feed accept_all init (codes "data: a\n")))
feed-append_example = feed-append accept_all init (codes "data: a\n") (codes "\n")

feed_event_example :
    Agree
      (feed accept_all init (event_text (codes "hi") (codes "a" ∷ codes "b" ∷ [])))
      (delivery accept_all init (or_message (codes "hi")) (join_lines (codes "a" ∷ codes "b" ∷ [])))
feed_event_example =
    feed_event accept_all init (codes "hi") (codes "a") (codes "b" ∷ []) init_buf init_payload
      (refl, refl, refl, (refl, refl, refl, tt))
      ((refl, refl, refl, tt), ((refl, refl, refl, tt), tt))
  where
    init_buf : init.buf ≡ []
    init_buf = unfold init in refl

    init_payload : init.payload ≡ []
    init_payload = unfold init in refl
