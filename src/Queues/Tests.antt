-- ===== src/Queues/Tests.antt =====
-- A manager of two queues over a backend that writes down what it is told.
mod Trees
use shared_ts_libs.Base.{
  suc, ◌-◌, not, true, false, ◌≡◌, refl, arith, List, [], ◌∷◌, ◌++◌, Option, none, some, String,
  str_eq, take, drop, if◌then◌else◌,
}
use shared_ts_libs.JobSpy.{Job, empty_spy}
use shared_ts_libs.Queues.Options.{
  Outcome, ok, throws, invalid_payload, start_rejected, JobsOptions, missing, with_defaults,
  or_else, JobOptionsSource, no_options, object, is_blank, default_options, prepare_job_options,
  resolve_job_options,
}
use shared_ts_libs.Queues.Registry.{
  QueueConfiguration, Backend, only, get_queue_config, resolve_queue_id, start_registry, build_each,
  register_active_queue_ids, close_each,
}
use shared_ts_libs.Queues.Manager.{
  QueueManagerConfig, Manager, enabled, new_manager, start, dispose, start_if_not_started,
  get_queue, record_scheduled_job, add_to_queue, schedule,
}
use shared_ts_libs.Queues.Calls.{get_jobs_in_queue, schedule_bulk}
use shared_ts_libs.Queues.Starts.{start-dispose}
use shared_ts_libs.Queues.Spied.{IsSpied, schedule-IsSpied}
use shared_ts_libs.Queues.Pages.{get_jobs_in_queue-page}
use shared_ts_libs.Queues.Dedup.{IsResolved, resolve_job_options-IsResolved}

queues_run : Unit {0}
unfolding new_manager start dispose start_if_not_started get_queue add_to_queue schedule
    get_queue_config resolve_queue_id start_registry build_each register_active_queue_ids close_each
    prepare_job_options default_options resolve_job_options get_jobs_in_queue schedule_bulk is_blank
    record_scheduled_job with_defaults or_else
queues_run = tt

abbrev pub Options : Type 0
Options = JobsOptions String (Unit {0})

abbrev pub no_keys : Options
no_keys = record {
  job_id = missing;
  attempts = missing;
  backoff = missing;
  remove_on_complete = missing;
  remove_on_fail = missing;
  delay = none;
  deduplication = none;
  rest = tt;
}

abbrev pub merge : Options → Options → Options
merge a b = record a { delay = b.delay }

abbrev pub queued : List (Job String)
queued =
    record { id = some "1"; payload = "one" }
    ∷ record { id = some "2"; payload = "two" }
    ∷ record { id = some "3"; payload = "three" }
    ∷ []

abbrev pub logged : Backend String (Unit {0})
logged = record {
  State = List String;
  build_queue = λ s name. (not (str_eq name "svc.down"), s ++ name ∷ []);
  close = λ s id. s ++ "close" ∷ [];
  zadd = λ s member. (true, s ++ "zadd" ∷ []);
  add_job = λ s id payload o. (some (some "job-1"), s ++ payload ∷ []);
  add_bulk = λ s id jobs. (some [], s);
  get_jobs = λ s id states f l asc. some (take (suc (l - f)) (drop f queued));
}

abbrev pub parse : String → Option String
parse input = if str_eq input "" then none else some input

abbrev pub queue : String → QueueConfiguration String String (Unit {0})
queue id = record {
  queue_id = id;
  bull_dashboard_grouping = "svc" ∷ [];
  parse = parse;
  job_options = no_options;
}

abbrev pub configs : List (QueueConfiguration String String (Unit {0}))
configs = queue "email" ∷ queue "sms" ∷ queue "down" ∷ []

abbrev config : QueueManagerConfig
config = record { is_test = true; lazy_init_enabled = true }

abbrev pub fresh : Manager logged
fresh = record {
  queues = [];
  is_rejected = false;
  spies = ("email", empty_spy) ∷ ("sms", empty_spy) ∷ ("down", empty_spy) ∷ [];
  state = [];
}

new_test : new_manager logged config configs [] ≡ fresh
unfolding queues_run
new_test = refl

abbrev schedules : String → String → Manager logged → Outcome String × Manager logged
schedules id input m = schedule logged merge no_keys config configs "uuid" id input none m

schedule_test : (schedules "email" "hello" fresh).0 ≡ ok "job-1"
unfolding queues_run
schedule_test = refl

state_test : (schedules "email" "hello" fresh).1.state ≡ "svc.email" ∷ "zadd" ∷ "hello" ∷ []
unfolding queues_run
state_test = refl

invalid_test : schedules "email" "" fresh ≡ (throws invalid_payload, fresh)
unfolding queues_run
invalid_test = refl

abbrev down : Outcome (Unit {0}) × Manager logged
down = start logged config configs (enabled (only ("down" ∷ []))) fresh

start-dispose_example :
    start logged config configs
      (enabled (only ("email" ∷ [])))
      (dispose logged config configs down.1)
    ≡ (throws start_rejected, dispose logged config configs down.1)
unfolding queues_run
start-dispose_example =
    start-dispose logged merge no_keys config configs (only ("down" ∷ [])) (only ("email" ∷ []))
      fresh refl

schedule-IsSpied_example : IsSpied logged "email" "hello" (schedules "email" "hello" fresh)
unfolding queues_run
schedule-IsSpied_example =
    schedule-IsSpied logged merge no_keys config configs fresh "uuid" "email" "hello" none refl refl
      refl

abbrev up : Manager logged
up = (schedules "email" "hello" fresh).1

get_jobs_in_queue-page_example :
    get_jobs_in_queue logged config configs "email" ("waiting" ∷ []) 0 1 true up
    ≡ (ok (record { jobs = take 2 queued; has_more = true }), up)
unfolding queues_run
get_jobs_in_queue-page_example =
    get_jobs_in_queue-page logged merge no_keys config configs up "email" "waiting" [] 0 1 true
      queued (omega arith) refl refl (λ f l le. refl)

abbrev deduplicated : JobOptionsSource String (Unit {0})
deduplicated = object (record no_keys {
  deduplication = some (record { id = none; id_builder = some (λ payload. payload); ttl = none });
})

resolve_job_options-IsResolved_example :
    IsResolved merge no_keys true deduplicated "key" none "uuid"
      (resolve_job_options merge no_keys true "uuid" deduplicated "key" none)
resolve_job_options-IsResolved_example =
    resolve_job_options-IsResolved merge no_keys true deduplicated "key" none "uuid"
