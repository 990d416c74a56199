-- ===== src/Sse/Events.antt =====
-- Streams of printed events, and streams whose lines end in a carriage return and a newline.
use shared_ts_libs.Base.{
  false, ◌≡◌, ◌≢◌, refl, List, [], ◌∷◌, ◌++◌, Text, codes, append-nil, ap, ◌∙◌, ◌==◌, All, some,
  arith, none,
}
use shared_ts_libs.Sse.{
  SseEvent, SseParser, new_parser, split_lines, trim, process_line, process_lines, onto,
  parse_sse_stream,
}

-- A text within one line.
abbrev pub IsLine : Text → Type 0
IsLine s = All (λ c. (c == 10) ≡ false) s

split_lines-line :
    (l rest : Text)
    → IsLine l
    → split_lines (l ++ 10 ∷ rest) ≡ (l ∷ (split_lines rest).0, (split_lines rest).1)
unfolding split_lines
split_lines-line [] rest h = refl
split_lines-line (c ∷ l) rest h = rw h.0 (ap (onto c) (split_lines-line l rest h.1))

-- A stream whose lines end in a carriage return and a newline.
abbrev pub crlf : List Text → Text
crlf [] = []
crlf (l ∷ ls) = (l ++ 13 ∷ []) ++ 10 ∷ crlf ls

IsLine-return : (l : Text) → IsLine l → IsLine (l ++ 13 ∷ [])
IsLine-return [] h = (refl, tt)
IsLine-return (c ∷ l) h = (h.0, IsLine-return l h.1)

-- No line that ends in a carriage return is empty, so none closes an event.
process_line-return : (p : SseParser) (l : Text) → (process_line p (l ++ 13 ∷ [])).0 ≡ none
unfolding process_line
process_line-return p [] = ground arith
process_line-return p (c ∷ l) = ground arith

crlf-events :
    (p : SseParser) (ls : List Text)
    → All IsLine ls
    → (process_lines p (split_lines (crlf ls)).0).0 ≡ []
unfolding process_lines split_lines
crlf-events p [] h = refl
crlf-events p (l ∷ ls) h =
    rw (split_lines-line (l ++ 13 ∷ []) (crlf ls) (IsLine-return l h.0))
      (rw (process_line-return p l) (crlf-events (process_line p (l ++ 13 ∷ [])).1 ls h.1))

-- A stream whose lines all end in a carriage return and a newline yields no event, whatever its
-- lines are.
pub parse_sse_stream-crlf : (ls : List Text) → All IsLine ls → parse_sse_stream (crlf ls ∷ []) ≡ []
unfolding parse_sse_stream
parse_sse_stream-crlf ls h = append-nil _ ∙ crlf-events new_parser ls h

-- An event as a server writes it, with its name and its payload on a line each.
abbrev pub print_event : SseEvent → Text → Text
print_event e rest =
    (codes "event: " ++ e.event) ++ (10 ∷ ((codes "data: " ++ e.payload) ++ (10 ∷ (10 ∷ rest))))

abbrev pub print_events : List SseEvent → Text
print_events [] = []
print_events (e ∷ es) = print_event e (print_events es)

-- What one line can hold, without spaces at its ends; the payload is not empty.
pub record IsPrintable (e : SseEvent) : Type 0 where
  pub event_line : IsLine e.event
  pub event_trimmed : trim e.event ≡ e.event
  pub payload_line : IsLine e.payload
  pub payload_trimmed : trim e.payload ≡ e.payload
  pub payload_full : e.payload ≢ []

trim-space : (s : Text) → trim (32 ∷ s) ≡ trim s
unfolding trim
trim-space s = refl

event-line :
    (p : SseParser) (name : Text)
    → trim name ≡ name
    → process_line p (codes "event: " ++ name) ≡ (none, record p { current_event = name })
unfolding process_line
event-line p name h = ap (λ t. (none, record p { current_event = t })) (trim-space name ∙ h)

data-line :
    (name payload : Text)
    → trim payload ≡ payload
    → process_line (record { current_event = name; current_data = [] }) (codes "data: " ++ payload)
      ≡ (none, record { current_event = name; current_data = payload })
unfolding process_line
data-line name payload h =
    ap (λ t. (none, record { current_event = name; current_data = t })) (trim-space payload ∙ h)

blank-line :
    (name payload : Text)
    → payload ≢ []
    → process_line (record { current_event = name; current_data = payload }) []
      ≡ (some (record { event = name; payload = payload }), new_parser)
unfolding process_line
blank-line name [] h = absurd (h refl)
blank-line name (c ∷ payload) h = refl

split_lines-print_event :
    (e : SseEvent) (rest : Text)
    → IsPrintable e
    → (split_lines (print_event e rest)).0
      ≡ (codes "event: " ++ e.event) ∷ (codes "data: " ++ e.payload) ∷ [] ∷ (split_lines rest).0
unfolding split_lines
split_lines-print_event e rest h =
    let name = codes "event: " ++ e.event in
    let payload = codes "data: " ++ e.payload in
    let event_IsLine : IsLine name =
      (refl, (refl, (refl, (refl, (refl, (refl, (refl, h.event_line))))))) in
    let payload_IsLine : IsLine payload =
      (refl, (refl, (refl, (refl, (refl, (refl, h.payload_line)))))) in
    let name_line = split_lines-line name (payload ++ 10 ∷ 10 ∷ rest) event_IsLine in
    let payload_line_split = split_lines-line payload (10 ∷ rest) payload_IsLine in
    ap (λ r. r.0) name_line ∙ ap (λ r. name ∷ r.0) payload_line_split

print_events-parsed :
    (es : List SseEvent)
    → All IsPrintable es
    → (process_lines new_parser (split_lines (print_events es)).0).0 ≡ es
unfolding process_lines split_lines
print_events-parsed [] h = refl
print_events-parsed (e ∷ es) h = rw (split_lines-print_event e (print_events es) h.0) (
    rw (event-line new_parser e.event h.0.event_trimmed) (
      rw (data-line e.event e.payload h.0.payload_trimmed) (
        rw (blank-line e.event e.payload h.0.payload_full)
          (ap (λ rest. e ∷ rest) (print_events-parsed es h.1)))))

-- Events with a payload whose name and payload are single lines without spaces at their ends are
-- read back from the stream that prints them one after the other.
pub parse_sse_stream-print_events :
    (es : List SseEvent) → All IsPrintable es → parse_sse_stream (print_events es ∷ []) ≡ es
unfolding parse_sse_stream
parse_sse_stream-print_events es h = append-nil _ ∙ print_events-parsed es h
