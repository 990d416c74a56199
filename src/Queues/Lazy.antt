-- ===== src/Queues/Lazy.antt =====
-- The queues that a start builds, and scheduling on several queues with lazy initialization.
use shared_ts_libs.Base.{true, ◌≡◌, refl, List, [], String, Bool-cases, inl, inr}
use shared_ts_libs.Queues.Registry.{
  QueueConfiguration, Backend, Enabled, Built, build_each, to_start, start_registry,
}
use shared_ts_libs.Queues.Manager.{Manager}

module _ {Input P Rest : Type 0} (backend : Backend P Rest)
    (configs : List (QueueConfiguration Input P Rest)) where
  abbrev pub nothing_built : List String → backend.State → Built backend configs
  nothing_built queues s = record { queues = queues; are_ready = true; built = []; state = s }

  pub start_registry-queues :
      (which : Enabled) (queues : List String) (s : backend.State)
      → (start_registry backend configs which queues s).1
        ≡ (build_each backend configs
            (to_start backend configs which)
            (nothing_built queues s)).queues
  unfolding start_registry
  start_registry-queues which queues s =
      let b =
        build_each backend configs (to_start backend configs which) (nothing_built queues s) in
      elim (Bool-cases b.are_ready) [
        | inl ready ↦ rw (ready, start_registry) refl
        | inr stuck ↦ rw (stuck, start_registry) refl
      ]
