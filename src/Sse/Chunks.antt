-- ===== src/Sse/Chunks.antt =====
-- The events do not depend on how the stream is cut into chunks.
use shared_ts_libs.Base.{
  ℕ, false, ◌≡◌, refl, List, [], ◌∷◌, ◌++◌, Option, none, some, Text, append_assoc, append-nil, ap,
  sym, ◌∙◌, ◌==◌, Bool-cases, inl, inr,
}
use shared_ts_libs.Sse.{
  SseEvent, SseParser, new_parser, onto, close_line, split_lines, emit, process_line, process_lines,
  parse_from, parse_sse_stream,
}

-- The whole stream.
abbrev pub joined : List Text → Text
joined [] = []
joined (c ∷ chunks) = c ++ joined chunks

-- What is split in two steps: first `s`, then its last line with what follows.
abbrev then_split : List Text × Text → Text → List Text × Text
then_split (ls, rest) t = let (ls', rest') = split_lines (rest ++ t) in (ls ++ ls', rest')

onto-then_split :
    (c : ℕ) (r : List Text × Text) (t : Text)
    → (c == 10) ≡ false
    → onto c (then_split r t) ≡ then_split (onto c r) t
unfolding split_lines
onto-then_split c ([], rest) t h = rw h refl
onto-then_split c (l ∷ ls, rest) t h = refl

split_lines-append : (s t : Text) → split_lines (s ++ t) ≡ then_split (split_lines s) t
unfolding split_lines
split_lines-append [] t = refl
split_lines-append (c ∷ s) t = elim (Bool-cases (c == 10)) [
  | inl e ↦ rw e (ap close_line (split_lines-append s t))
  | inr e ↦ rw e (ap (onto c) (split_lines-append s t) ∙ onto-then_split c (split_lines s) t e)
]

-- What is left over holds no newline.
abbrev IsRest : Text → Type 0
IsRest s = split_lines s ≡ ([], s)

onto-IsRest : (c : ℕ) (r : List Text × Text) → (c == 10) ≡ false → IsRest r.1 → IsRest (onto c r).1
unfolding split_lines
onto-IsRest c ([], rest) h i = rw h (rw i refl)
onto-IsRest c (l ∷ ls, rest) h i = i

split_lines-IsRest : (s : Text) → IsRest (split_lines s).1
unfolding split_lines
split_lines-IsRest [] = refl
split_lines-IsRest (c ∷ s) = elim (Bool-cases (c == 10)) [
  | inl e ↦ rw e (split_lines-IsRest s)
  | inr e ↦ rw e (onto-IsRest c (split_lines s) e (split_lines-IsRest s))
]

emit-append : (o : Option SseEvent) (es fs : List SseEvent) → emit o es ++ fs ≡ emit o (es ++ fs)
emit-append none es fs = refl
emit-append (some e) es fs = refl

-- The events of some lines, and then those of more lines.
events_of : SseParser → List Text → List SseEvent
events_of p lines = (process_lines p lines).0

process_lines-append :
    (p : SseParser) (ls more : List Text)
    → events_of p (ls ++ more) ≡ events_of p ls ++ events_of (process_lines p ls).1 more
unfolding events_of process_lines
process_lines-append p [] more = refl
process_lines-append p (l ∷ ls) more =
    ap (emit (process_line p l).0) (process_lines-append (process_line p l).1 ls more)
    ∙ sym (
        emit-append (process_line p l).0 (events_of (process_line p l).1 ls)
          (events_of (process_lines (process_line p l).1 ls).1 more))

parse_from-joined :
    (p : SseParser) (buffer : Text) (chunks : List Text)
    → IsRest buffer
    → parse_from p buffer chunks ≡ events_of p (split_lines (buffer ++ joined chunks)).0
unfolding parse_from events_of process_lines
parse_from-joined p buffer [] h =
    sym (ap (λ t. events_of p (split_lines t).0) (append-nil buffer) ∙ ap (λ r. events_of p r.0) h)
parse_from-joined p buffer (c ∷ chunks) h =
    ap (λ es. events_of p (split_lines (buffer ++ c)).0 ++ es)
      (parse_from-joined (process_lines p (split_lines (buffer ++ c)).0).1
        (split_lines (buffer ++ c)).1 chunks (split_lines-IsRest (buffer ++ c)))
    ∙ sym (
        process_lines-append p (split_lines (buffer ++ c)).0
          (split_lines ((split_lines (buffer ++ c)).1 ++ joined chunks)).0)
    ∙ ap (λ r. events_of p r.0) (sym (split_lines-append (buffer ++ c) (joined chunks)))
    ∙ ap (λ t. events_of p (split_lines t).0) (append_assoc buffer c (joined chunks))

-- The events of a stream do not depend on how it is cut into chunks: they are those of the whole
-- stream read as a single chunk.
pub parse_sse_stream-joined :
    (chunks : List Text) → parse_sse_stream chunks ≡ parse_sse_stream (joined chunks ∷ [])
unfolding parse_sse_stream events_of
parse_sse_stream-joined chunks = parse_from-joined new_parser [] chunks refl ∙ sym (append-nil _)
