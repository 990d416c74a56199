-- ===== src/Send/Events.antt =====
-- `parseSseStream`: the events of a stream, each read by the schema of its name. The stream of the
-- parser of another package is the list of its events.
use shared_ts_libs.Base.{
  ℕ, ◌≡◌, List, [], ◌∷◌, Option, none, some, String, Dict, lookup, Option-cases, inl, inr, true,
  false, Bool-cases, codes, if◌then◌else◌,
}
use shared_ts_libs.Routing.Config.{is_inherited}
use shared_ts_libs.Send.Response.{Schemas}

pub record ServerEvent : Type 0 where
  pub type : String
  pub content : String
  pub last_event_id : String
  pub retry : Option ℕ

-- How a stream ends: with its last event, or with what is thrown at an event.
pub data StreamEnd : Type 0 where
  done : StreamEnd
  schema_not_found : String → StreamEnd
  not_a_schema : String → StreamEnd
  invalid_event : StreamEnd

module _ (lib : Schemas) (schemas : Dict lib.Schema) where
  open lib use {Json, Schema, parse_json, parse}

  pub record TypedEvent : Type 0 where
    pub type : String
    pub content : Json
    pub last_event_id : String
    pub retry : Option ℕ

  pub record EventStream : Type 0 where
    pub yielded : List TypedEvent
    pub ends : StreamEnd

  parsed_json : Schema → Option Json → Option Json
  parsed_json schema none = none
  parsed_json schema (some j) = parse schema j

  -- An event whose name has no schema. What every object inherits under a name is found, but parses nothing.
  unfoldable pub without_schema : ServerEvent → StreamEnd
  without_schema e =
      if is_inherited (codes e.type)
      then elim (parse_json e.content) [ none ↦ invalid_event | some j ↦ not_a_schema e.type ]
      else schema_not_found e.type

  unfoldable pub typed_event : ServerEvent → Json → TypedEvent
  typed_event e v = record {
    type = e.type;
    content = v;
    last_event_id = e.last_event_id;
    retry = e.retry;
  }

  -- The rest of the stream is read only if the event is yielded.
  unfoldable pub parse_sse_stream : List ServerEvent → EventStream
  unfolding parsed_json typed_event without_schema
  parse_sse_stream [] = record { yielded = []; ends = done }
  parse_sse_stream (e ∷ es) =
      let rest = parse_sse_stream es in
      elim (lookup e.type schemas) [
        | none ↦ record { yielded = []; ends = without_schema e }
        | some schema ↦ elim (parsed_json schema (parse_json e.content)) [
          | none ↦ record { yielded = []; ends = invalid_event }
          | some v ↦ record { yielded = typed_event e v ∷ rest.yielded; ends = rest.ends }
        ]
      ]

  -- The event is read by the schema of its name, and gives the value.
  pub data Reads (e : ServerEvent) : TypedEvent → Type 0 where
    read :
        {schema : Schema} {j v : Json}
        → lookup e.type schemas ≡ some schema
        → parse_json e.content ≡ some j
        → parse schema j ≡ some v
        → Reads e (typed_event e v)

  pub data Fails (e : ServerEvent) : StreamEnd → Type 0 where
    no_schema :
        lookup e.type schemas ≡ none
        → is_inherited (codes e.type) ≡ false
        → Fails e (schema_not_found e.type)
    inherited_name :
        {j : Json}
        → lookup e.type schemas ≡ none
        → is_inherited (codes e.type) ≡ true
        → parse_json e.content ≡ some j
        → Fails e (not_a_schema e.type)
    inherited_no_json :
        lookup e.type schemas ≡ none
        → is_inherited (codes e.type) ≡ true
        → parse_json e.content ≡ none
        → Fails e invalid_event
    no_json :
        {schema : Schema}
        → lookup e.type schemas ≡ some schema
        → parse_json e.content ≡ none
        → Fails e invalid_event
    no_fit :
        {schema : Schema} {j : Json}
        → lookup e.type schemas ≡ some schema
        → parse_json e.content ≡ some j
        → parse schema j ≡ none
        → Fails e invalid_event

  without_schema-Fails :
      (e : ServerEvent) → lookup e.type schemas ≡ none → Fails e (without_schema e)
  unfolding without_schema
  without_schema-Fails e missing = elim (Bool-cases (is_inherited (codes e.type))) [
    | inr own ↦ rw (own, without_schema) (no_schema missing own)
    | inl inherited ↦ elim (Option-cases (parse_json e.content)) [
      | inl wrong ↦
          rw (inherited, wrong, without_schema) (inherited_no_json missing inherited wrong)
      | inr (j, value) ↦
          rw (inherited, value, without_schema) (inherited_name missing inherited value)
    ]
  ]

  -- The run of a stream over its events.
  pub data StreamOf : List ServerEvent → List TypedEvent → StreamEnd → Type 0 where
    over : StreamOf [] [] done
    yields :
        {e : ServerEvent} {t : TypedEvent} {es : List ServerEvent} {ts : List TypedEvent}
        {end : StreamEnd}
        → Reads e t
        → StreamOf es ts end
        → StreamOf (e ∷ es) (t ∷ ts) end
    breaks :
        {e : ServerEvent} {es : List ServerEvent} {end : StreamEnd}
        → Fails e end
        → StreamOf (e ∷ es) [] end

  -- The events of a stream are yielded in turn, each read by the schema of its name, up to the first
  -- one that has no schema (a name that every object inherits has none either, and ends the stream in
  -- another way), is no JSON or is refused by its schema; this one breaks the stream, and
  -- nothing after it is yielded.
  pub parse_sse_stream-StreamOf :
      (es : List ServerEvent) → StreamOf es (parse_sse_stream es).yielded (parse_sse_stream es).ends
  unfolding parse_sse_stream
  parse_sse_stream-StreamOf [] = over
  parse_sse_stream-StreamOf (e ∷ es) = elim (Option-cases (lookup e.type schemas)) [
    | inl missing ↦ rw (missing, parse_sse_stream) (breaks (without_schema-Fails e missing))
    | inr (schema, found) ↦ elim (Option-cases (parse_json e.content)) [
      | inl wrong ↦ rw (found, wrong, parse_sse_stream) (breaks (no_json found wrong))
      | inr (j, value) ↦ elim (Option-cases (parse schema j)) [
        | inl refused ↦
            rw (found, value, refused, parse_sse_stream) (breaks (no_fit found value refused))
        | inr (v, fits) ↦
            rw (found, value, fits, parse_sse_stream)
              (yields (read found value fits) (parse_sse_stream-StreamOf es))
      ]
    ]
  ]
