-- ===== src/Sse/Tests.antt =====
-- Streams that are cut in the middle of a line.
use shared_ts_libs.Base.{◌≡◌, ◌≢◌, refl, List, [], ◌∷◌, ◌++◌, Text, codes}
use shared_ts_libs.Sse.{SseEvent, parse_sse_stream}
use shared_ts_libs.Sse.Chunks.{joined, parse_sse_stream-joined}
use shared_ts_libs.Sse.Events.{
  crlf, parse_sse_stream-crlf, print_events, IsPrintable, parse_sse_stream-print_events,
}

sse : Unit {0}
unfolding parse_sse_stream
sse = tt

abbrev cut : List Text
cut =
    codes "data: a"
    ∷ (10 ∷ codes "data:b ")
    ∷ (10 ∷ 10 ∷ codes "event: x")
    ∷ (10 ∷ codes "data: c")
    ∷ (10 ∷ [])
    ∷ (10 ∷ [])
    ∷ []

abbrev events : List SseEvent
events =
    record { event = codes "message"; payload = codes "a" ++ 10 ∷ codes "b" }
    ∷ record { event = codes "x"; payload = codes "c" }
    ∷ []

cut_test : parse_sse_stream cut ≡ events
unfolding sse
cut_test = refl

parse_sse_stream-joined_example : parse_sse_stream cut ≡ parse_sse_stream (joined cut ∷ [])
parse_sse_stream-joined_example = parse_sse_stream-joined cut

parse_sse_stream-crlf_example : parse_sse_stream (crlf (codes "data" ∷ [] ∷ []) ∷ []) ≡ []
parse_sse_stream-crlf_example =
    parse_sse_stream-crlf (codes "data" ∷ [] ∷ []) ((refl, (refl, (refl, (refl, tt)))), (tt, tt))

abbrev update : SseEvent
update = record { event = codes "up"; payload = codes "17" }

not_empty : codes "17" ≢ []
not_empty e = cc

update-IsPrintable : IsPrintable update
unfolding sse
update-IsPrintable = record {
  event_line = (refl, (refl, tt));
  event_trimmed = refl;
  payload_line = (refl, (refl, tt));
  payload_trimmed = refl;
  payload_full = not_empty;
}

parse_sse_stream-print_events_example :
    parse_sse_stream (print_events (update ∷ update ∷ []) ∷ []) ≡ update ∷ update ∷ []
parse_sse_stream-print_events_example =
    parse_sse_stream-print_events (update ∷ update ∷ [])
      (update-IsPrintable, (update-IsPrintable, tt))
