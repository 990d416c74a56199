-- ===== src/Periodic/Config.antt =====
-- The options of a periodic job, its constructor and its registration.
use Prim.Native.String
use shared_ts_libs.Base.{
  ℕ, ◌*◌, Bool, true, false, not, ◌&&◌, ◌==◌, Option, none, some, String, if◌then◌else◌,
}

pub record SingleConsumerMode : Type 0 where
  pub enabled : Bool
  pub exclusive_lock_suffix : Option String
  pub lock_timeout : Option ℕ
  pub lock_timeout_after_success : Option ℕ

-- A cron expression is a text of another package.
pub record Schedule : Type 0 where
  pub interval_in_ms : Option ℕ
  pub cron : Option String

pub record BackgroundJobConfiguration : Type 0 where
  pub job_id : String
  pub schedule : Schedule
  pub single_consumer_mode : Option SingleConsumerMode
  pub should_log_execution : Option Bool
  pub run_immediately : Option Bool

-- `this.options`
pub record JobOptions : Type 0 where
  pub job_id : String
  pub schedule : Schedule
  pub enabled : Bool
  pub exclusive_lock_suffix : String
  pub lock_timeout : ℕ
  pub lock_timeout_after_success : Option ℕ
  pub should_log_execution : Bool
  pub run_immediately : Bool

pub data PeriodicError : Type 0 where
  missing_redis : PeriodicError
  invalid_config : PeriodicError

pub data Outcome (A : Type 0) : Type 0 where
  ok : A → Outcome A
  throws : PeriodicError → Outcome A

abbrev pub default_lock_timeout : ℕ
default_lock_timeout = 120000

abbrev pub or_default : {A : Type 0} → Option A → A → A
or_default none d = d
or_default (some a) d = a

-- `intervalInMs ? ... : ...` takes 0 for none.
abbrev pub interval_of : Schedule → Option ℕ
interval_of s = elim s.interval_in_ms [ none ↦ none | some ms ↦ if ms == 0 then none else some ms ]

default_timeout : Option ℕ → ℕ
default_timeout none = default_lock_timeout
default_timeout (some ms) = ms * 2

-- The defaults with the options of the configuration over them.
unfoldable pub with_defaults : BackgroundJobConfiguration → JobOptions
unfolding default_timeout
with_defaults c = elim c.single_consumer_mode [
  | none ↦ record {
    job_id = c.job_id;
    schedule = c.schedule;
    enabled = false;
    exclusive_lock_suffix = "EXCLUSIVE";
    lock_timeout = default_timeout (interval_of c.schedule);
    lock_timeout_after_success = none;
    should_log_execution = or_default c.should_log_execution false;
    run_immediately = or_default c.run_immediately true;
  }
  | some mode ↦ record {
    job_id = c.job_id;
    schedule = c.schedule;
    enabled = mode.enabled;
    exclusive_lock_suffix = or_default mode.exclusive_lock_suffix "EXCLUSIVE";
    lock_timeout = or_default mode.lock_timeout (default_timeout (interval_of c.schedule));
    lock_timeout_after_success = mode.lock_timeout_after_success;
    should_log_execution = or_default c.should_log_execution false;
    run_immediately = or_default c.run_immediately true;
  }
]

-- The constructor, with or without Redis.
unfoldable pub new_periodic_job : Bool → BackgroundJobConfiguration → Outcome JobOptions
unfolding with_defaults
new_periodic_job has_redis c =
    let options = with_defaults c in
    if not has_redis && options.enabled then throws missing_redis else ok options

-- What the scheduler is given; overruns are prevented.
pub data ScheduledJob : Type 0 where
  simple_interval : (id : String) → (milliseconds : ℕ) → (run_immediately : Bool) → ScheduledJob
  cron_job : (id : String) → (expression : String) → ScheduledJob

unfoldable pub register : JobOptions → Outcome ScheduledJob
register options = elim (interval_of options.schedule) [
  | some ms ↦ ok (simple_interval options.job_id ms options.run_immediately)
  | none ↦ elim options.schedule.cron [
    | some expression ↦ ok (cron_job options.job_id expression)
    | none ↦ throws invalid_config
  ]
]

-- `getJobLockName`
abbrev pub job_lock_name : JobOptions → String
job_lock_name options =
    String.◌++◌ options.job_id (String.◌++◌ ":locks:" options.exclusive_lock_suffix)
