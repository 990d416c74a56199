-- ===== src/Routing/Tests.antt =====
-- Routings with one project.
use shared_ts_libs.Base.{
  true, false, ◌≡◌, refl, List, [], ◌∷◌, none, some, Text, codes, All, if◌then◌else◌, starts_with,
  drop, length,
}
use shared_ts_libs.Routing.Regex.{test}
use shared_ts_libs.Routing.Names.{
  Removal, QueueConfig, TopicConfig, invalid_topic, invalid_queue, duplicated_item,
  topic_name_regex, queue_name_regex, check_name, validate_topics_config,
}
use shared_ts_libs.Routing.Config.{
  ok, throws, inherited, is_inherited, GroupedTopic, new_sns_resolver, get_topic_config,
}
use shared_ts_libs.Routing.Conventions.{
  IsTopic, IsPlain, RemovesPlain, starts_with-append, drop-append,
}
use shared_ts_libs.Routing.Found.{IsFound, FindsNoOther, new_sns_resolver-IsFound}

-- A runtime that reads each project as itself.
abbrev literal : Removal
literal project name =
    if starts_with project name then some (drop (length project) name) else some name

literal-RemovesPlain : RemovesPlain literal
literal-RemovesPlain project s plain = rw (starts_with-append project s, drop-append project s) refl

cats-IsPlain : IsPlain (codes "cats")
cats-IsPlain = (refl, (refl, (refl, (refl, tt))))

abbrev queue : Text → QueueConfig
queue name = record { queue_name = name; is_external = false }

abbrev topic : Text → List QueueConfig → TopicConfig
topic name queues = record {
  topic_name = name;
  is_external = false;
  queues = queues;
  external_apps = none;
}

abbrev topics : List TopicConfig
topics =
    topic (codes "cats-fed_daily") (queue (codes "cats-feeding-diary") ∷ [])
    ∷ topic (codes "cats_owner") []
    ∷ []

routing : Unit {0}
unfolding new_sns_resolver get_topic_config is_inherited validate_topics_config check_name
    topic_name_regex queue_name_regex test
routing = tt

naming_tests :
    (validate_topics_config literal (codes "cats") topics ≡ none)
    × (validate_topics_config literal (codes "cats") (topic (codes "cats-Fed") [] ∷ [])
        ≡ some (invalid_topic (codes "cats-Fed")))
    × (validate_topics_config literal
          (codes "cats")
          (topic (codes "cats-fed") (queue (codes "cats-a-b-c-d") ∷ []) ∷ [])
        ≡ some (invalid_queue (codes "cats-a-b-c-d")))
    × (new_sns_resolver literal false
          (codes "cats")
          (topic (codes "a") [] ∷ topic (codes "a") [] ∷ [])
        ≡ throws (duplicated_item (codes "a")))
    × (new_sns_resolver literal false (codes "cats") (topic (codes "constructor") [] ∷ [])
        ≡ throws (duplicated_item (codes "constructor")))
    × (get_topic_config (codes "toString") [] ≡ ok inherited)
unfolding routing
naming_tests = (refl, refl, refl, refl, refl, refl)

abbrev table : List (Text × GroupedTopic)
table =
    (
      codes "cats-fed_daily",
      record {
        topic = topic (codes "cats-fed_daily") (queue (codes "cats-feeding-diary") ∷ []);
        queues = (codes "cats-feeding-diary", queue (codes "cats-feeding-diary")) ∷ [];
      },
    )
    ∷ (codes "cats_owner", record { topic = topic (codes "cats_owner") []; queues = [] })
    ∷ []

table_made : new_sns_resolver literal true (codes "cats") topics ≡ ok table
unfolding routing
table_made = refl

new_sns_resolver-IsFound_example :
    All (IsFound table) topics
    × FindsNoOther topics table
    × (true ≡ true → All (IsTopic (codes "cats")) topics)
new_sns_resolver-IsFound_example =
    new_sns_resolver-IsFound literal true (codes "cats") topics literal-RemovesPlain cats-IsPlain
      table_made
