-- ===== src/Sync/Coordinator/Tests.antt =====
-- The coordinator with two adapters and one slot: concrete runs of its events.
use agent_metrics.Prelude.{
  ◌+◌, ◌≡◌, refl, ◌≤◌, ◌↔◌, ◌||◌, String, true, false, none, some, List, [], ◌∷◌, ◌==◌,
  if◌then◌else◌, length,
}
use agent_metrics.Prelude.Texts.{add, contains, delete}
use agent_metrics.Sync.Types.{SyncAdapter, SyncRunStatus, SyncAdapterStatus, SyncTriggerDisposition}
use agent_metrics.Sync.Summary.{trim}
use agent_metrics.Sync.Utils.{
  whole, ok, fail, not_object, unknown, normalize_concurrency, normalize_duration, validate_adapter,
}
use agent_metrics.Sync.Coordinator.{Config, Coordinator, InternalRun, is_terminal, persist_run}
use agent_metrics.Sync.Coordinator.Runs.{start_run, start_shifted, drain_queue}
use agent_metrics.Sync.Coordinator.Completion.{resolved, rejected, time_out, settle, settle_run}
use agent_metrics.Sync.Coordinator.Creation.{Options, create, blank}
use agent_metrics.Sync.Coordinator.Registration.{register}
use agent_metrics.Sync.Coordinator.Methods.{trigger, accept}
use agent_metrics.Sync.Coordinator.Maintenance.{prune_runs, shutdown, has_active_work}
use agent_metrics.Sync.Coordinator.Invariant.{IsValid, syncing_at, queued_at}
use agent_metrics.Sync.Coordinator.Events.{Event, triggers, ticks, run, run-create-IsValid}
use agent_metrics.Sync.Coordinator.Guarantees.{
  one_run_per_adapter, slots_bounded, prune_runs_exact, IsKept, IsKeptAt, stored,
}
use agent_metrics.Sync.Coordinator.Draining.{IsDrained}
use agent_metrics.Sync.Coordinator.Settling.{settle-IsDrained}
use agent_metrics.Sync.Coordinator.Outcomes.{HasEnded, settle_ends_run}
use agent_metrics.Sync.Coordinator.Closed.{shutdown_quiet}
use agent_metrics.Sync.Coordinator.Timing.{timed_out_run_fails}
use agent_metrics.Sync.Coordinator.Answering.{HasOpen, accepted_run_open}

abbrev adapter : String → SyncAdapter
adapter id = record {
  adapter_instance_id = id;
  source_instance_id = "source";
  source_adapter = "transcript";
  source_vendor = "claude";
  enabled = true;
  sync_callable = true;
}

abbrev options : Options
options = record {
  adapters = adapter "a" ∷ adapter "b" ∷ [];
  max_concurrency = some (whole 1);
  freshness_ms = none;
  run_retention_ms = none;
  periodic_interval_ms = none;
  clock = λ n. n;
  run_id_factory = λ id at n. if n == 0 then "run-1" else "run-2";
  request_id_factory = λ n. "request";
  persistence = none;
}

abbrev default_config : Config
default_config = record {
  concurrency = 1;
  freshness_ms = 300000;
  run_retention_ms = 3600000;
  periodic_interval_ms = 60000;
  clock = options.clock;
  run_id_factory = options.run_id_factory;
  request_id_factory = options.request_id_factory;
}

abbrev registered : Coordinator
registered = (register (adapter "b") (register (adapter "a") blank).1).1

created : create options ≡ ok (default_config, registered)
unfolding create normalize_concurrency normalize_duration register validate_adapter trim
created = refl

abbrev events : List Event
events = triggers "a" ∷ triggers "b" ∷ []

-- The first run has the slot, the second one waits.
abbrev at_work : Coordinator
at_work = run default_config events registered

at_work-IsValid : IsValid default_config at_work
at_work-IsValid = run-create-IsValid options events created

abbrev first_run : InternalRun
first_run = record {
  run = record {
    run_id = "run-1";
    adapter_instance_id = "a";
    status = SyncRunStatus.syncing;
    accepted_at = 0;
    started_at = some 1;
    completed_at = none;
    discovered_records = 0;
    committed_unique_events = 0;
    projected_unique_events = 0;
    projection_watermark = none;
    error = none;
  };
  aborted = false;
  restore = record {
    status = SyncAdapterStatus.idle;
    active_run_id = none;
    pending_run_id = none;
    last_started_at = none;
    last_completed_at = none;
    last_successful_at = none;
    next_scheduled_at = none;
    last_error = none;
    consecutive_failures = 0;
  };
}

first_run-found : at_work.runs.get "run-1" ≡ some first_run
unfolding create normalize_concurrency normalize_duration register validate_adapter trim run trigger
    start_run persist_run add contains
first_run-found = refl

at_work-lists : (at_work.active_run_ids ≡ "run-1" ∷ []) × (at_work.queued_run_ids ≡ "run-2" ∷ [])
unfolding create normalize_concurrency normalize_duration register validate_adapter trim run trigger
    start_run persist_run add contains
at_work-lists = (refl, refl)

at_work-open : at_work.shutting_down ≡ false
unfolding create normalize_concurrency normalize_duration register validate_adapter trim run trigger
    start_run persist_run add contains
at_work-open = refl

-- When the first run fails the second one takes its slot.
next_run_starts :
    (settle default_config "run-1" (rejected unknown) at_work).active_run_ids ≡ "run-2" ∷ []
unfolding create normalize_concurrency normalize_duration register validate_adapter trim run trigger
    start_run persist_run add contains settle settle_run drain_queue delete start_shifted
next_run_starts = refl

slots_bounded_example :
    (length at_work.active_run_ids ≤ 2)
    × ((r : String) → contains at_work.active_run_ids r ≡ syncing_at (at_work.runs.get r))
slots_bounded_example = slots_bounded options events created

one_run_per_adapter_example : ◌≡◌ {A = String} "run-1" "run-1"
one_run_per_adapter_example =
    one_run_per_adapter options events "run-1" "run-1" first_run first_run created first_run-found
      first_run-found refl refl refl

run-create-IsValid_example : IsValid default_config at_work
run-create-IsValid_example = run-create-IsValid options events created

settle_ends_run_example :
    HasEnded default_config (settle default_config "run-1" (resolved not_object) at_work) "run-1"
settle_ends_run_example =
    settle_ends_run default_config "run-1" first_run (resolved not_object) at_work at_work-IsValid
      first_run-found refl

settle-IsDrained_example :
    IsDrained default_config (settle default_config "run-1" (rejected unknown) at_work)
settle-IsDrained_example =
    settle-IsDrained default_config "run-1" (rejected unknown) at_work at_work-open at_work-IsValid

-- The coordinator after it has shut down and was then asked to work on.
abbrev closed : Coordinator
closed = run default_config (triggers "a" ∷ ticks ∷ []) (shutdown default_config at_work)

shutdown_quiet_example :
    (has_active_work closed ≡ false)
    × ((r : String) → (queued_at (closed.runs.get r) || syncing_at (closed.runs.get r)) ≡ false)
    × ((id : String)
        → trigger default_config id closed ≡ (
          fail "SYNC_SHUTTING_DOWN" "Sync coordinator is shutting down",
          record closed { clock_reads = closed.clock_reads + 1 },
        ))
shutdown_quiet_example =
    shutdown_quiet default_config at_work (triggers "a" ∷ ticks ∷ []) at_work-IsValid

accepted_run_open_example : HasOpen (accept default_config "a" 5 at_work).1 "a" "run-1"
unfolding create normalize_concurrency normalize_duration register validate_adapter trim run trigger
    start_run persist_run add contains accept
accepted_run_open_example =
    accepted_run_open default_config "a" 5 at_work
      (record {
        adapter_instance_id = "a";
        run_id = "run-1";
        disposition = SyncTriggerDisposition.coalesced;
      })
      at_work-IsValid refl

prune_runs_exact_example :
    (((prune_runs default_config 9000000 at_work).runs.get "run-1" ≡ some first_run)
      ↔ ((at_work.runs.get "run-1" ≡ some first_run) × IsKept default_config 9000000 first_run.run))
    × (((prune_runs default_config 9000000 at_work).persisted_runs.get "run-1" ≡ some first_run.run)
        ↔ ((at_work.persisted_runs.get "run-1" ≡ some first_run.run)
            × IsKept default_config 9000000 first_run.run))
    × ((stored (prune_runs default_config 9000000 at_work) "run-1" ≡ some first_run.run) ↔ (
        (stored at_work "run-1" ≡ some first_run.run)
        × IsKeptAt default_config 9000000 at_work "run-1"))
    × ((at_work.runs.get "run-1" ≡ some first_run)
        → is_terminal first_run.run.status ≡ false
        → (prune_runs default_config 9000000 at_work).runs.get "run-1" ≡ some first_run)
prune_runs_exact_example =
    prune_runs_exact default_config 9000000 at_work "run-1" first_run first_run.run at_work-IsValid

-- The run that has timed out, once its promise has settled.
abbrev late_run : InternalRun
late_run = record first_run {
  aborted = true;
  run = record (first_run.run) {
    status = SyncRunStatus.failed;
    completed_at = some (options.clock at_work.clock_reads);
    error =
        some
          (record { code = "SYNC_TIMEOUT"; summary = "Sync exceeded 3 minutes and was aborted" });
  };
}

timed_out_run_fails_example :
    (syncing_at ((time_out "run-1" at_work).runs.get "run-1") ≡ true)
    × (contains (time_out "run-1" at_work).active_run_ids "run-1" ≡ true)
    × ((settle default_config "run-1" (resolved not_object) (time_out "run-1" at_work)).runs.get
          "run-1"
        ≡ some late_run)
    × (contains
          (settle default_config "run-1"
            (resolved not_object)
            (time_out "run-1" at_work)).active_run_ids
          "run-1"
        ≡ false)
timed_out_run_fails_example =
    timed_out_run_fails default_config "run-1" first_run (resolved not_object) at_work
      at_work-IsValid first_run-found refl
