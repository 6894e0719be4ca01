-- ===== src/Sync/Coordinator/Registration.antt =====
-- Registration and what sets the state of an adapter from outside: `register`, `setEnabled` and
-- `markBackgroundSuccess` of apps/core/src/sync-coordinator.ts. A method returns its outcome and the
-- state, which a throw leaves as it is by then.
use Prim.Native.String.{◌++◌ as ◌++s◌}
use agent_metrics.Prelude.{
  ℕ, ◌+◌, String, Bool, true, false, not, ◌&&◌, ◌||◌, Option, none, some, if◌then◌else◌, is_some,
}
use agent_metrics.Prelude.Maps.{has, put}
use agent_metrics.Sync.Types.{SyncAdapter, SyncAdapterState, SyncAdapterStatus}
use agent_metrics.Sync.Utils.{Outcome, ok, throws, fail, validate_adapter}
use agent_metrics.Sync.Coordinator.{Config, Coordinator, is_disabled, now, is_fresh}

abbrev pub Step : Type 0 → Type 0
Step A = Outcome A × Coordinator

abbrev initial_state : SyncAdapter → SyncAdapterState
initial_state a = record {
  adapter_instance_id = a.adapter_instance_id;
  source_instance_id = a.source_instance_id;
  source_adapter = a.source_adapter;
  source_vendor = a.source_vendor;
  status = if a.enabled then SyncAdapterStatus.idle else SyncAdapterStatus.disabled;
  active_run_id = none;
  pending_run_id = none;
  last_started_at = none;
  last_completed_at = none;
  last_successful_at = none;
  next_scheduled_at = none;
  last_error = none;
  consecutive_failures = 0;
}

unfoldable pub register : SyncAdapter → Coordinator → Step SyncAdapterState
register a s = elim (validate_adapter a) [
  | some e ↦ (throws e, s)
  | none ↦
      if has s.adapters a.adapter_instance_id
      then (
        fail "ADAPTER_ALREADY_REGISTERED"
            ("Adapter " ++s a.adapter_instance_id ++s " is already registered"),
        s,
      )
      else (
        ok (initial_state a),
        record s {
          adapters = put s.adapters a.adapter_instance_id a;
          states = put s.states a.adapter_instance_id (initial_state a);
        },
      )
]

abbrev pub not_found : {A : Type 0} → String → Outcome A
not_found id = fail "ADAPTER_NOT_FOUND" ("Adapter " ++s id ++s " was not registered")

abbrev pub shutting_down_error : {A : Type 0} → Outcome A
shutting_down_error = fail "SYNC_SHUTTING_DOWN" "Sync coordinator is shutting down"

-- A run of this adapter has been accepted and is not completed.
abbrev pub is_busy : SyncAdapterState → Bool
is_busy state = is_some state.active_run_id || is_some state.pending_run_id

abbrev is_syncing_state : SyncAdapterStatus → Bool
is_syncing_state SyncAdapterStatus.syncing = true
is_syncing_state _ = false

module _ (c : Config) where
  -- The status of an adapter that is switched on.
  abbrev status_at : ℕ → Option ℕ → SyncAdapterStatus
  status_at at none = SyncAdapterStatus.idle
  status_at at (some success) =
      if is_fresh c success at then SyncAdapterStatus.ready else SyncAdapterStatus.stale

  unfoldable pub set_enabled : String → Bool → Coordinator → Step SyncAdapterState
  set_enabled id enabled s = elim (s.adapters.get id) [
    | none ↦ (not_found id, s)
    | some adapter ↦ elim (s.states.get id) [
      | none ↦ (not_found id, s)
      | some state ↦
          if not enabled && is_busy state
          then (fail "ADAPTER_BUSY" ("Adapter " ++s id ++s " has an accepted run"), s)
          else let state' = record state {
            status =
                if enabled
                then status_at (now c s) state.last_successful_at
                else SyncAdapterStatus.disabled;
          } in
            (
              ok state',
              record s {
                adapters = put s.adapters id (record adapter { enabled = enabled });
                states = put s.states id state';
                clock_reads =
                    if enabled && is_some state.last_successful_at
                    then s.clock_reads + 1
                    else s.clock_reads;
              },
            )
    ]
  ]

  unfoldable pub mark_background_success :
      String → Coordinator → Option SyncAdapterState × Coordinator
  mark_background_success id s = elim (s.states.get id) [
    | none ↦ (none, s)
    | some state ↦
        if is_busy state || is_syncing_state state.status || is_disabled state.status
        then (some state, s)
        else let state' = record state {
          status = SyncAdapterStatus.ready;
          last_completed_at = some (now c s);
          last_successful_at = some (now c s);
          last_error = none;
          consecutive_failures = 0;
        } in
          (
            some state',
            record s { clock_reads = s.clock_reads + 1; states = put s.states id state' },
          )
  ]
