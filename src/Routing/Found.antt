-- ===== src/Routing/Found.antt =====
-- The resolver finds each topic and queue of the routing under its name.
use shared_ts_libs.Base.{
  Bool, true, false, ◌≡◌, refl, arith, List, [], ◌∷◌, ◌++◌, Text, text_eq, text_eq_refl, map, All,
  Bool-cases, Option-cases, inl, inr, ◌∙◌, sym, append_assoc, append-nil,
}
use mathlib.Core.Path.{subst}
use shared_ts_libs.Routing.Names.{
  QueueConfig, TopicConfig, not_found, validate_topics_config, Removal,
}
use shared_ts_libs.Routing.Conventions.{IsTopic, IsPlain, RemovesPlain, validate_topics_config_iff}
use shared_ts_libs.Routing.Config.{
  Outcome, ok, throws, own, absent, is_inherited, property_of, is_taken, group_from,
  group_by_unique, and_then, GroupedTopic, group_queues, group_each, group_topics, new_sns_resolver,
  get_topic_config, get_queue_config,
}

module _ {A : Type 0} (key : A → Text) where
  -- The items under their keys.
  abbrev pub by_key : List A → List (Text × A)
  by_key = map (λ a. (key a, a))

  abbrev pub FoundIn : List (Text × A) → A → Type 0
  FoundIn m a = property_of (key a) m ≡ own a

  property_of-append :
      (k : Text) (acc more : List (Text × A)) {a : A}
      → property_of k acc ≡ own a
      → property_of k (acc ++ more) ≡ own a
  unfolding property_of
  property_of-append k [] more h = absurd (ground arith)
  property_of-append k ((j, b) ∷ acc) more h = elim (Bool-cases (text_eq j k)) [
    | inl e ↦ rw (e, property_of) (rw (e, property_of) at h)
    | inr e ↦ rw (e, property_of) (property_of-append k acc more (rw (e, property_of) at h))
  ]

  property_of-new :
      (k : Text) (acc : List (Text × A)) (a : A)
      → is_taken k acc ≡ false
      → property_of k (acc ++ (k, a) ∷ []) ≡ own a
  unfolding property_of is_taken
  property_of-new k [] a h = rw (text_eq_refl k, property_of) refl
  property_of-new k ((j, b) ∷ acc) a h = elim (Bool-cases (text_eq j k)) [
    | inl e ↦ absurd (ground (arith, e, h))
    | inr e ↦ rw (e, property_of) (property_of-new k acc a (rw (e, is_taken) at h))
  ]

  group_from-found :
      (acc : List (Text × A)) (items : List A) {m : List (Text × A)}
      → group_from key acc items ≡ ok m
      → All (FoundIn m) items
        × ((k : Text) (a : A) → property_of k acc ≡ own a → property_of k m ≡ own a)
        × (m ≡ acc ++ by_key items)
  unfolding group_from
  group_from-found acc [] {m} h =
      let same : acc ≡ m = cc in
      (tt, λ k a f. subst (λ x. property_of k x ≡ own a) same f, sym same ∙ sym (append-nil acc))
  group_from-found acc (a ∷ items) {m} h = elim (Bool-cases (is_taken (key a) acc)) [
    | inl e ↦ absurd (ground (arith, e, h))
    | inr e ↦
        let (all_found, kept, whole) =
          group_from-found (acc ++ (key a, a) ∷ []) items (rw (e, group_from) at h) in
        (
          (kept (key a) a (property_of-new (key a) acc a e), all_found),
          λ k b f. kept k b (property_of-append k acc ((key a, a) ∷ []) f),
          whole ∙ append_assoc acc ((key a, a) ∷ []) (by_key items),
        )
  ]

  -- A table that is made has each item under its key, and nothing else.
  pub group_by_unique-found :
      (items : List A) {m : List (Text × A)}
      → group_by_unique key items ≡ ok m
      → All (FoundIn m) items × (m ≡ by_key items)
  unfolding group_by_unique
  group_by_unique-found items h =
      let (all_found, kept, whole) = group_from-found [] items h in (all_found, whole)

ok_inj : {A : Type 0} {a b : A} → ok a ≡ ok b → a ≡ b
ok_inj h = cc

and_then-ok :
    {A B : Type 0} (o : Outcome A) (f : A → Outcome B) {b : B}
    → and_then o f ≡ ok b
    → (a : A) × (o ≡ ok a) × (f a ≡ ok b)
and_then-ok (ok a) f h = (a, refl, h)
and_then-ok (throws e) f h = absurd (ground (arith, h))

-- The topic is found under its name, and each of its queues, and nothing else, under the queue's.
abbrev pub IsFound : List (Text × GroupedTopic) → TopicConfig → Type 0
IsFound routing t =
    (g : GroupedTopic) × (get_topic_config t.topic_name routing ≡ ok (own g))
    × (g.topic ≡ t)
    × All (λ (q : QueueConfig). get_queue_config q.queue_name g ≡ ok (own q)) t.queues
    × (g.queues ≡ by_key (λ (q : QueueConfig). q.queue_name) t.queues)

abbrev IsGroupOf : TopicConfig → GroupedTopic → Type 0
IsGroupOf t g =
    (g.topic ≡ t)
    × All (FoundIn (λ (q : QueueConfig). q.queue_name) g.queues) t.queues
    × (g.queues ≡ by_key (λ (q : QueueConfig). q.queue_name) t.queues)

-- The topics and their groups, in the same order.
data Groups : List TopicConfig → List GroupedTopic → Type 0 where
  none_grouped : Groups [] []
  grouped :
      {t : TopicConfig} {g : GroupedTopic} {ts : List TopicConfig} {gs : List GroupedTopic}
      → IsGroupOf t g
      → Groups ts gs
      → Groups (t ∷ ts) (g ∷ gs)

group_each-Groups :
    (ts : List TopicConfig) {gs : List GroupedTopic} → group_each ts ≡ ok gs → Groups ts gs
unfolding group_each group_queues
group_each-Groups [] h = subst (Groups []) (ok_inj h) none_grouped
group_each-Groups (t ∷ ts) h =
    let (g, made, rest) = and_then-ok (group_queues t) _ h in
    let (queues, of_queues, same) = and_then-ok (group_by_unique _ t.queues) _ made in
    let (gs, others, whole) = and_then-ok (group_each ts) _ rest in
    let (each, all_queues) =
      group_by_unique-found (λ (q : QueueConfig). q.queue_name) t.queues of_queues in
    subst (Groups (t ∷ ts)) (ok_inj whole) (
      grouped (subst (IsGroupOf t) (ok_inj same) (refl, each, all_queues))
        (group_each-Groups ts others))

found_queues :
    (g : GroupedTopic) (qs : List QueueConfig)
    → All (FoundIn (λ (q : QueueConfig). q.queue_name) g.queues) qs
    → All (λ (q : QueueConfig). get_queue_config q.queue_name g ≡ ok (own q)) qs
unfolding get_queue_config
found_queues g [] a = tt
found_queues g (q ∷ qs) a = (rw (a.0, get_queue_config) refl, found_queues g qs a.1)

Groups-IsFound :
    (routing : List (Text × GroupedTopic)) {ts : List TopicConfig} {gs : List GroupedTopic}
    → Groups ts gs
    → All (FoundIn (λ (g : GroupedTopic). g.topic.topic_name) routing) gs
    → All (IsFound routing) ts
unfolding get_topic_config
Groups-IsFound routing none_grouped a = tt
Groups-IsFound routing (grouped {t} {g} (same, each, all_queues) rest) a = (
  (
    g,
    rw (← same) (rw (a.0, get_topic_config) refl),
    same,
    found_queues g t.queues each,
    all_queues,
  ),
  Groups-IsFound routing rest a.1,
)

Groups-absent :
    (name : Text) {ts : List TopicConfig} {gs : List GroupedTopic}
    → is_inherited name ≡ false
    → Groups ts gs
    → All (λ (t : TopicConfig). text_eq t.topic_name name ≡ false) ts
    → property_of name (by_key (λ (g : GroupedTopic). g.topic.topic_name) gs) ≡ absent
unfolding property_of
Groups-absent name plain none_grouped a = rw (plain, property_of) refl
Groups-absent name plain (grouped {t} {g} (same, each, all_queues) rest) a =
    let other : text_eq g.topic.topic_name name ≡ false = rw same a.0 in
    rw (other, property_of) (Groups-absent name plain rest a.1)

-- Every name but the topics' own and those that objects inherit.
abbrev pub FindsNoOther : List TopicConfig → List (Text × GroupedTopic) → Type 0
FindsNoOther topics routing =
    (name : Text)
    → is_inherited name ≡ false
    → All (λ (t : TopicConfig). text_eq t.topic_name name ≡ false) topics
    → get_topic_config name routing ≡ throws (not_found name)

group_topics-IsFound :
    (topics : List TopicConfig) {routing : List (Text × GroupedTopic)}
    → group_topics topics ≡ ok routing
    → All (IsFound routing) topics × FindsNoOther topics routing
unfolding group_topics get_topic_config
group_topics-IsFound topics {routing} h =
    let (gs, each, made) = and_then-ok (group_each topics) _ h in
    let groups = group_each-Groups topics each in
    let (all_found, whole) =
      group_by_unique-found (λ (g : GroupedTopic). g.topic.topic_name) gs made in
    (
      Groups-IsFound routing groups all_found,
      λ name plain others.
          rw whole (rw (Groups-absent name plain groups others, get_topic_config) refl),
    )

-- For a project without syntax characters of patterns, a resolver that is made finds each topic of the routing under its name, with its queues under theirs
-- and no others; it finds no topic under another name, unless the name is one that every object
-- inherits. With name patterns validated, all topics are named by the convention.
pub new_sns_resolver-IsFound :
    (remove : Removal) (validates : Bool) (project : Text) (topics : List TopicConfig)
    {routing : List (Text × GroupedTopic)}
    → RemovesPlain remove
    → IsPlain project
    → new_sns_resolver remove validates project topics ≡ ok routing
    → All (IsFound routing) topics
      × FindsNoOther topics routing
      × (validates ≡ true → All (IsTopic project) topics)
unfolding new_sns_resolver
new_sns_resolver-IsFound remove false project topics lawful plain h =
    let (found, others) = group_topics-IsFound topics h in
    (found, others, λ v. absurd (ground arith))
new_sns_resolver-IsFound remove true project topics lawful plain h =
    elim (Option-cases (validate_topics_config remove project topics)) [
      | inl fine ↦
          let (found, others) = group_topics-IsFound topics (rw (fine, new_sns_resolver) at h) in
          (
            found,
            others,
            λ _. (validate_topics_config_iff remove lawful project plain topics).0 fine,
          )
      | inr (e, wrong) ↦ absurd (ground (arith, wrong, h))
    ]
