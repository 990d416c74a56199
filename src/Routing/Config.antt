-- ===== src/Routing/Config.antt =====
-- MessageQueueToolkitSnsOptionsResolver.ts: the resolver's table of topics, what it finds in it, and the
-- names of cloud resources; `groupByUnique` of universal-ts-utils.
use shared_ts_libs.Base.{
  Bool, true, false, List, [], ◌∷◌, ◌++◌, none, some, Text, text_eq, codes, if◌then◌else◌, some_of,
}
use shared_ts_libs.Routing.Names.{
  QueueConfig, TopicConfig, RoutingError, duplicated_item, not_found, validate_topics_config,
  Removal,
}

pub data Outcome (A : Type 0) : Type 0 where
  ok : A → Outcome A
  throws : RoutingError → Outcome A

-- What a plain object has under a name: a value of its own, or what every object inherits.
pub data Property (A : Type 0) : Type 0 where
  own : A → Property A
  inherited : Property A
  absent : Property A

inherited_names : List Text
inherited_names =
    codes "constructor"
    ∷ codes "hasOwnProperty"
    ∷ codes "isPrototypeOf"
    ∷ codes "propertyIsEnumerable"
    ∷ codes "toLocaleString"
    ∷ codes "toString"
    ∷ codes "valueOf"
    ∷ codes "__defineGetter__"
    ∷ codes "__defineSetter__"
    ∷ codes "__lookupGetter__"
    ∷ codes "__lookupSetter__"
    ∷ codes "__proto__"
    ∷ []

unfoldable pub is_inherited : Text → Bool
unfolding inherited_names
is_inherited name = some_of (λ k. text_eq k name) inherited_names

module _ {A : Type 0} where
  unfoldable pub property_of : Text → List (Text × A) → Property A
  property_of name [] = if is_inherited name then inherited else absent
  property_of name ((k, a) ∷ rest) = if text_eq k name then own a else property_of name rest

  -- acc[key] !== undefined
  unfoldable pub is_taken : Text → List (Text × A) → Bool
  unfolding property_of
  is_taken key acc = elim (property_of key acc) [ own a ↦ true | inherited ↦ true | absent ↦ false ]

  unfoldable pub group_from : (A → Text) → List (Text × A) → List A → Outcome (List (Text × A))
  unfolding is_taken
  group_from key acc [] = ok acc
  group_from key acc (a ∷ rest) =
      let grouped = group_from key (acc ++ (key a, a) ∷ []) rest in
      if is_taken (key a) acc then throws (duplicated_item (key a)) else grouped

  unfoldable pub group_by_unique : (A → Text) → List A → Outcome (List (Text × A))
  unfolding group_from
  group_by_unique key items = group_from key [] items

abbrev pub and_then : {A B : Type 0} → Outcome A → (A → Outcome B) → Outcome B
and_then (ok a) f = f a
and_then (throws e) f = throws e

-- `{ ...topic, queues }`
pub record GroupedTopic : Type 0 where
  pub topic : TopicConfig
  pub queues : List (Text × QueueConfig)

unfoldable pub group_queues : TopicConfig → Outcome GroupedTopic
unfolding group_by_unique
group_queues t =
    and_then (group_by_unique (λ (q : QueueConfig). q.queue_name) t.queues)
      (λ queues. ok (record { topic = t; queues = queues }))

unfoldable pub group_each : List TopicConfig → Outcome (List GroupedTopic)
unfolding group_queues
group_each [] = ok []
group_each (t ∷ ts) =
    let rest = group_each ts in and_then (group_queues t) (λ g. and_then rest (λ gs. ok (g ∷ gs)))

-- The table of topics by name.
unfoldable pub group_topics : List TopicConfig → Outcome (List (Text × GroupedTopic))
unfolding group_each group_by_unique
group_topics topics =
    and_then (group_each topics)
      (λ gs. group_by_unique (λ (g : GroupedTopic). g.topic.topic_name) gs)

-- The constructor. The routing is the list of its topics; `remove` is the runtime's removal of a project.
unfoldable pub new_sns_resolver :
    Removal → Bool → Text → List TopicConfig → Outcome (List (Text × GroupedTopic))
unfolding group_topics
new_sns_resolver remove false project topics = group_topics topics
new_sns_resolver remove true project topics = elim (validate_topics_config remove project topics) [
  | some e ↦ throws e
  | none ↦ group_topics topics
]

-- A name that every object inherits is found too, and is no topic.
unfoldable pub get_topic_config :
    Text → List (Text × GroupedTopic) → Outcome (Property GroupedTopic)
unfolding property_of
get_topic_config name routing = elim (property_of name routing) [
  | own t ↦ ok (own t)
  | inherited ↦ ok inherited
  | absent ↦ throws (not_found name)
]

unfoldable pub get_queue_config : Text → GroupedTopic → Outcome (Property QueueConfig)
unfolding property_of
get_queue_config name t = elim (property_of name t.queues) [
  | own q ↦ ok (own q)
  | inherited ↦ ok inherited
  | absent ↦ throws (not_found name)
]
