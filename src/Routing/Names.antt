-- ===== src/Routing/Names.antt =====
-- utils.ts: `validateTopicsConfig`, `validateQueueConfig` and their patterns. What the runtime makes of the
-- project's name as a pattern is a parameter.
use shared_ts_libs.Base.{
  ℕ, Bool, not, ◌&&◌, ◌||◌, ◌==◌, leb, ltb, List, [], ◌∷◌, Option, none, some, Text, starts_with,
  length, if◌then◌else◌,
}
use shared_ts_libs.Routing.Regex.{Regex, empty, one, seq, alt, star, test}

pub record QueueConfig : Type 0 where
  pub queue_name : Text
  pub is_external : Bool

pub record TopicConfig : Type 0 where
  pub topic_name : Text
  pub is_external : Bool
  pub queues : List QueueConfig
  pub external_apps : Option (List Text)

pub data RoutingError : Type 0 where
  topic_too_long : Text → RoutingError
  topic_without_project : Text → RoutingError
  invalid_topic : Text → RoutingError
  queue_too_long : Text → RoutingError
  queue_without_project : Text → RoutingError
  invalid_queue : Text → RoutingError
  invalid_pattern : RoutingError
  duplicated_item : Text → RoutingError
  not_found : Text → RoutingError

-- [-_], [a-z] and _
abbrev pub is_separator : ℕ → Bool
is_separator c = c == 45 || c == 95

abbrev pub is_lower : ℕ → Bool
is_lower c = leb 97 c && leb c 122

abbrev pub char : ℕ → Regex
char c = one (λ d. d == c)

abbrev pub plus : Regex → Regex
plus r = seq r (star r)

abbrev pub optional : Regex → Regex
optional r = alt r empty

-- [a-z]+(_[a-z]+)*
abbrev pub words_regex : Regex
words_regex = seq (plus (one is_lower)) (star (seq (char 95) (plus (one is_lower))))

unfoldable pub topic_name_regex : Regex
topic_name_regex = seq (one is_separator) words_regex

unfoldable pub queue_name_regex : Regex
queue_name_regex = seq (one is_separator) (
    seq words_regex
      (optional (seq (char 45) (seq words_regex (optional (seq (char 45) words_regex))))))

abbrev pub max_queue_name_length : ℕ
max_queue_name_length = 64

abbrev pub max_topic_name_length : ℕ
max_topic_name_length = 246

-- `name.replace(new RegExp(`^${project}`), '')` of a project and a name. The runtime reads the project as a
-- pattern; `none` is the error of one that does not compile.
abbrev pub Removal : Type 0
Removal = Text → Text → Option Text

-- The first refusal ends a loop.
abbrev pub or_next : Option RoutingError → Option RoutingError → Option RoutingError
or_next (some e) next = some e
or_next none next = next

module _ (remove : Removal) where
  -- What an internal name is refused for.
  unfoldable pub check_name :
      Regex → (Text → RoutingError) → (Text → RoutingError) → Text → Text → Option RoutingError
  check_name pattern without invalid project name =
      if not (starts_with project name) then some (without name) else elim (remove project name) [
        | none ↦ some invalid_pattern
        | some suffix ↦ if not (test pattern suffix) then some (invalid name) else none
      ]

  unfoldable pub validate_queue : Text → QueueConfig → Option RoutingError
  unfolding check_name
  validate_queue project q =
      if ltb max_queue_name_length (length q.queue_name)
      then some (queue_too_long q.queue_name)
      else if q.is_external
      then none
      else check_name queue_name_regex queue_without_project invalid_queue project q.queue_name

  unfoldable pub validate_queue_config : Text → List QueueConfig → Option RoutingError
  unfolding validate_queue
  validate_queue_config project [] = none
  validate_queue_config project (q ∷ qs) =
      or_next (validate_queue project q) (validate_queue_config project qs)

  unfoldable pub validate_topic : Text → TopicConfig → Option RoutingError
  unfolding check_name validate_queue_config
  validate_topic project t =
      if ltb max_topic_name_length (length t.topic_name)
      then some (topic_too_long t.topic_name)
      else or_next
          (if t.is_external
            then none
            else check_name topic_name_regex topic_without_project invalid_topic project
                t.topic_name)
          (validate_queue_config project t.queues)

  unfoldable pub validate_topics_config : Text → List TopicConfig → Option RoutingError
  unfolding validate_topic
  validate_topics_config project [] = none
  validate_topics_config project (t ∷ ts) =
      or_next (validate_topic project t) (validate_topics_config project ts)
