-- ===== src/Sync/Coordinator/Events.antt =====
-- What can happen to a coordinator: a call of a public method, the settling of an adapter's promise,
-- the timeout of a run, a tick of the periodic timer. JavaScript runs each to its end.
use agent_metrics.Prelude.{
  ℕ, ◌≡◌, String, Bool, Option, none, some, List, [], ◌∷◌, refl, arith, inl, inr, subst,
}
use agent_metrics.Prelude.Maps.{JsMap}
use agent_metrics.Sync.Types.{SyncAdapter, SyncRun}
use agent_metrics.Sync.Utils.{ok, Outcome-cases, ok-injective}
use agent_metrics.Prelude.Texts.{contains}
use agent_metrics.Sync.Coordinator.{Config, Coordinator}
use agent_metrics.Sync.Coordinator.Completion.{Settlement, settle, time_out}
use agent_metrics.Sync.Coordinator.Registration.{register, set_enabled, mark_background_success}
use agent_metrics.Sync.Coordinator.Methods.{trigger, manual_sync, start_initial_sync}
use agent_metrics.Sync.Coordinator.Maintenance.{
  get_status, get_run, get_runs, start_periodic_sync, stop_periodic_sync, tick, shutdown,
}
use agent_metrics.Sync.Coordinator.Creation.{Options, configure, restored, register_all, create}
use agent_metrics.Sync.Coordinator.Invariant.{IsValid}
use agent_metrics.Sync.Coordinator.Settling.{settle-IsValid, time_out-IsValid}
use agent_metrics.Sync.Coordinator.Triggering.{
  trigger-IsValid, manual_sync-IsValid, start_initial_sync-IsValid,
}
use agent_metrics.Sync.Coordinator.Maintaining.{
  register-IsValid, set_enabled-IsValid, mark_background_success-IsValid, get_status-IsValid,
  get_run-IsValid, get_runs-IsValid, start_periodic_sync-IsValid, stop_periodic_sync-IsValid,
  tick-IsValid,
}
use agent_metrics.Sync.Coordinator.Closing.{shutdown-IsValid}

pub data Event : Type 0 where
  registers : SyncAdapter → Event
  enables : String → Bool → Event
  triggers : String → Event
  syncs : Option String → Event
  syncs_initially : Option (List String) → Event
  starts_timer : ℕ → Option (List String) → Event
  stops_timer ticks : Event
  reads_status reads_runs shuts_down : Event
  reads_run marks_success times_out : String → Event
  settles : String → Settlement → Event

module _ (c : Config) where
  unfoldable pub step : Event → Coordinator → Coordinator
  step (registers a) s = (register a s).1
  step (enables id on) s = (set_enabled c id on s).1
  step (triggers id) s = (trigger c id s).1
  step (syncs id) s = (manual_sync c id s).1
  step (syncs_initially ids) s = (start_initial_sync c ids s).1
  step (starts_timer interval targets) s = (start_periodic_sync c interval targets s).1
  step stops_timer s = stop_periodic_sync s
  step ticks s = tick c s
  step reads_status s = (get_status c s).1
  step reads_runs s = (get_runs c s).1
  step shuts_down s = shutdown c s
  step (reads_run id) s = (get_run c id s).1
  step (marks_success id) s = (mark_background_success c id s).1
  step (times_out id) s = time_out id s
  step (settles id outcome) s = settle c id outcome s

  unfoldable pub run : List Event → Coordinator → Coordinator
  unfolding step
  run [] s = s
  run (e ∷ es) s = run es (step e s)

  pub step-IsValid : (e : Event) (s : Coordinator) → IsValid c s → IsValid c (step e s)
  unfolding step
  step-IsValid (registers a) s v = register-IsValid c a s v
  step-IsValid (enables id on) s v = set_enabled-IsValid c id on s v
  step-IsValid (triggers id) s v = trigger-IsValid c id s v
  step-IsValid (syncs id) s v = manual_sync-IsValid c id s v
  step-IsValid (syncs_initially ids) s v = start_initial_sync-IsValid c ids s v
  step-IsValid (starts_timer interval targets) s v =
      start_periodic_sync-IsValid c interval targets s v
  step-IsValid stops_timer s v = stop_periodic_sync-IsValid c s v
  step-IsValid ticks s v = tick-IsValid c s v
  step-IsValid reads_status s v = get_status-IsValid c s v
  step-IsValid reads_runs s v = get_runs-IsValid c s v
  step-IsValid shuts_down s v = shutdown-IsValid c s v
  step-IsValid (reads_run id) s v = get_run-IsValid c id s v
  step-IsValid (marks_success id) s v = mark_background_success-IsValid c id s v
  step-IsValid (times_out id) s v = time_out-IsValid c id s v
  step-IsValid (settles id outcome) s v = settle-IsValid c id outcome s v

  pub run-IsValid : (es : List Event) (s : Coordinator) → IsValid c s → IsValid c (run es s)
  unfolding run
  run-IsValid [] s v = v
  run-IsValid (e ∷ es) s v = run-IsValid es (step e s) (step-IsValid e s v)

  restored-IsValid : (p : Option (JsMap SyncRun)) → IsValid c (restored c p)
  unfolding restored contains
  restored-IsValid none = record {
    linked = record {
      active = λ a r. refl;
      pending = λ a r. refl;
      exclusive = λ a. refl;
      dated = λ r. refl;
      idle = λ r. refl;
      paired = λ a. refl;
    };
    listed = record {
      bounded = omega arith;
      distinct = tt;
      queue = λ r. refl;
      slots = λ r. refl;
      closed = λ h r. refl;
    };
  }
  restored-IsValid (some table) = record {
    linked = record {
      active = λ a r. refl;
      pending = λ a r. refl;
      exclusive = λ a. refl;
      dated = λ r. refl;
      idle = λ r. refl;
      paired = λ a. refl;
    };
    listed = record {
      bounded = omega arith;
      distinct = tt;
      queue = λ r. refl;
      slots = λ r. refl;
      closed = λ h r. refl;
    };
  }

  register_all-IsValid :
      (adapters : List SyncAdapter) (s : Coordinator) {t : Coordinator}
      → IsValid c s
      → register_all adapters s ≡ ok t
      → IsValid c t
  unfolding register_all
  register_all-IsValid [] s v e = subst (IsValid c) (ok-injective e) v
  register_all-IsValid (a ∷ adapters) s v e = elim (Outcome-cases (register a s).0) [
    | inl (error, thrown) ↦ absurd (ground arith)
    | inr (state, done) ↦
        register_all-IsValid adapters (register a s).1 (register-IsValid c a s v) (ground arith)
  ]

-- A coordinator as its constructor makes it is valid.
pub create-IsValid :
    (o : Options) {c : Config} {s : Coordinator} → create o ≡ ok (c, s) → IsValid c s
unfolding create
create-IsValid o {c} {s} e = elim (Outcome-cases (configure o)) [
  | inl (error, thrown) ↦ absurd (ground arith)
  | inr (c', made) ↦ elim (Outcome-cases (register_all o.adapters (restored c' o.persistence))) [
    | inl (error, thrown) ↦ absurd (ground arith)
    | inr (s', all) ↦
        let same : ◌≡◌ {A = Config × Coordinator} (c', s') (c, s) = ground arith in
        subst (λ (p : Config × Coordinator). IsValid p.0 p.1) same
          (register_all-IsValid c' o.adapters (restored c' o.persistence)
            (restored-IsValid c' o.persistence) all)
  ]
]

-- A coordinator that its constructor has made is valid after any events: an adapter's state
-- names a run as active, or as pending, exactly where this is a run of the adapter that is
-- syncing, or queued, and never both; a run has an end exactly where its status is final; the
-- queue has each queued run once and no other; the slots have the runs that are syncing and are
-- no more than the concurrency; once it shuts down no run is queued or syncing; an abort
-- restores a state without a run; and every adapter has a state.
pub run-create-IsValid :
    (o : Options) (es : List Event) {c : Config} {s : Coordinator}
    → create o ≡ ok (c, s)
    → IsValid c (run c es s)
run-create-IsValid o es {c} {s} e = run-IsValid c es s (create-IsValid o e)
