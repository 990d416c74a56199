-- ===== src/Routing/Made.antt =====
-- Which routings a resolver is made of.
use shared_ts_libs.Base.{false, ◌≡◌, List, [], ◌∷◌, Text, text_eq, All}
use shared_ts_libs.Routing.Names.{QueueConfig, TopicConfig}
use shared_ts_libs.Routing.Config.{is_inherited, is_taken, GroupedTopic}

module _ {A : Type 0} (key : A → Text) where
  -- No key occurs twice, and none is a name that every object inherits.
  abbrev pub AreUnique : List A → Type 0
  AreUnique [] = Unit
  AreUnique (a ∷ rest) =
      (is_inherited (key a) ≡ false)
      × All (λ b. text_eq (key a) (key b) ≡ false) rest
      × AreUnique rest

  abbrev AreFree : List (Text × A) → List A → Type 0
  AreFree acc = All (λ a. is_taken (key a) acc ≡ false)

abbrev pub queue_key : QueueConfig → Text
queue_key q = q.queue_name

abbrev pub topic_key : TopicConfig → Text
topic_key t = t.topic_name

abbrev group_key : GroupedTopic → Text
group_key g = g.topic.topic_name

-- The topics of a list and of their groups, in the same order.
abbrev SameTopics : List TopicConfig → List GroupedTopic → Type 0
SameTopics [] [] = Unit
SameTopics (t ∷ ts) (g ∷ gs) = (g.topic ≡ t) × SameTopics ts gs
SameTopics [] (g ∷ gs) = ⊥
SameTopics (t ∷ ts) [] = ⊥
