-- ===== src/Sse.antt =====
-- packages/app/frontend-http-client/src/utils/sseUtils.ts: server-sent events out of a stream. The
-- reads are the decoded chunks up to the end of the stream or to an aborted signal, which the source
-- looks at between two reads only; the decoder of UTF-8 is the runtime's.

pub mod Chunks
pub mod Events
mod Tests
use shared_ts_libs.Base.{
  ℕ, Bool, true, false, ◌&&◌, ◌||◌, ◌==◌, leb, List, [], ◌∷◌, ◌++◌, Option, none, some, Text, codes,
  starts_with, drop, if◌then◌else◌,
}
use mathlib.Core.List.{reverse}

pub record SseEvent : Type 0 where
  pub event : Text
  pub payload : Text

-- The private fields of `SseParser`.
pub record SseParser : Type 0 where
  pub current_event : Text
  pub current_data : Text

abbrev pub new_parser : SseParser
new_parser = record { current_event = codes "message"; current_data = [] }

-- What `trim` removes.
abbrev pub is_space : ℕ → Bool
is_space c =
    (leb 9 c && leb c 13)
    || c == 32
    || c == 160
    || c == 5760
    || (leb 8192 c && leb c 8202)
    || c == 8232
    || c == 8233
    || c == 8239
    || c == 8287
    || c == 12288
    || c == 65279

trim_start : Text → Text
trim_start [] = []
trim_start (c ∷ s) = let rest = trim_start s in if is_space c then rest else c ∷ s

unfoldable pub trim : Text → Text
unfolding trim_start
trim s = reverse (trim_start (reverse (trim_start s)))

abbrev pub newline : Text
newline = 10 ∷ []

abbrev join_data : Text → Text → Text
join_data [] line = line
join_data (c ∷ s) line = (c ∷ s) ++ newline ++ line

-- An empty line closes the event, if it has data.
close : SseParser → Text → Text → Option SseEvent × SseParser
close p [] (c ∷ s) =
    (some (record { event = p.current_event; payload = p.current_data }), new_parser)
close p line held = (none, p)

unfoldable pub process_line : SseParser → Text → Option SseEvent × SseParser
unfolding close
process_line p line =
    if starts_with (codes "event:") line
    then (none, record p { current_event = trim (drop 6 line) })
    else if starts_with (codes "data:") line
    then (none, record p { current_data = join_data p.current_data (trim (drop 5 line)) })
    else close p line p.current_data

-- One more character in front of what was split.
abbrev pub onto : ℕ → List Text × Text → List Text × Text
onto c ([], rest) = ([], c ∷ rest)
onto c (l ∷ ls, rest) = ((c ∷ l) ∷ ls, rest)

abbrev pub close_line : List Text × Text → List Text × Text
close_line (ls, rest) = ([] ∷ ls, rest)

-- `buffer.split('\n')`, with its last element, which `pop` takes off, apart.
unfoldable pub split_lines : Text → List Text × Text
split_lines [] = ([], [])
split_lines (c ∷ s) = let rest = split_lines s in if c == 10 then close_line rest else onto c rest

abbrev pub emit : Option SseEvent → List SseEvent → List SseEvent
emit none es = es
emit (some e) es = e ∷ es

-- The loop over `lines`: the events, and the parser after it.
unfoldable pub process_lines : SseParser → List Text → List SseEvent × SseParser
process_lines p [] = ([], p)
process_lines p (line ∷ lines) =
    let (event, p') = process_line p line in
    let (events, p'') = process_lines p' lines in (emit event events, p'')

-- The events that the generator yields from a state of its parser and its buffer on.
unfoldable pub parse_from : SseParser → Text → List Text → List SseEvent
parse_from p buffer [] = []
parse_from p buffer (chunk ∷ chunks) =
    let (lines, rest) = split_lines (buffer ++ chunk) in
    let (events, p') = process_lines p lines in events ++ parse_from p' rest chunks

unfoldable pub parse_sse_stream : List Text → List SseEvent
unfolding parse_from process_lines split_lines process_line trim
parse_sse_stream chunks = parse_from new_parser [] chunks
