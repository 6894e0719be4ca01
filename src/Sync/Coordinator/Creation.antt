-- ===== src/Sync/Coordinator/Creation.antt =====
-- The constructor of `SyncCoordinator`. The module's own counters for ids (lines 53, 54 and 99 to
-- 107 of apps/core/src/sync-coordinator.ts) are among the factories that the model takes as given.
use agent_metrics.Prelude.{ℕ, String, false, Option, none, some, List, [], ◌∷◌}
use agent_metrics.Prelude.Maps.{JsMap, empty, put}
use agent_metrics.Sync.Types.{SyncAdapter, SyncRun}
use agent_metrics.Sync.Utils.{
  JsNumber, Outcome, ok, throws, normalize_concurrency, normalize_duration, default_freshness_ms,
  default_run_retention_ms, default_periodic_sync_ms,
}
use agent_metrics.Sync.Store.{load}
use agent_metrics.Sync.Coordinator.{Config, Coordinator}
use agent_metrics.Sync.Coordinator.Registration.{register}

-- `SyncCoordinatorOptions`
pub record Options : Type 0 where
  pub adapters : List SyncAdapter
  pub max_concurrency : Option JsNumber
  pub freshness_ms : Option JsNumber
  pub run_retention_ms : Option JsNumber
  pub periodic_interval_ms : Option JsNumber
  pub clock : ℕ → ℕ
  pub run_id_factory : String → ℕ → ℕ → String
  pub request_id_factory : ℕ → String
  pub persistence : Option (JsMap SyncRun)

infixl 5 ◌>>=◌
abbrev ◌>>=◌ : {A B : Type 0} → Outcome A → (A → Outcome B) → Outcome B
ok a >>= f = f a
throws e >>= f = throws e

unfoldable pub configure : Options → Outcome Config
configure o = do
  concurrency ← normalize_concurrency o.max_concurrency
  freshness ← normalize_duration o.freshness_ms default_freshness_ms
  retention ← normalize_duration o.run_retention_ms default_run_retention_ms
  interval ← normalize_duration o.periodic_interval_ms default_periodic_sync_ms
  ok (record {
    concurrency = concurrency;
    freshness_ms = freshness;
    run_retention_ms = retention;
    periodic_interval_ms = interval;
    clock = o.clock;
    run_id_factory = o.run_id_factory;
    request_id_factory = o.request_id_factory;
  })

abbrev pub blank : Coordinator
blank = record {
  adapters = empty;
  states = empty;
  runs = empty;
  queued_run_ids = [];
  active_run_ids = [];
  persistence = none;
  persisted_runs = empty;
  periodic_timer = none;
  shutting_down = false;
  clock_reads = 0;
  run_calls = 0;
  request_calls = 0;
}

abbrev remember : List SyncRun → JsMap SyncRun → JsMap SyncRun
remember [] m = m
remember (run ∷ runs) m = remember runs (put m run.run_id run)

-- The runs of earlier processes are read from the store before any adapter is registered.
unfoldable pub restored : Config → Option (JsMap SyncRun) → Coordinator
restored c none = blank
restored c (some table) =
    let (rows, table') = load (c.clock 0) c.run_retention_ms table in
    record blank {
      persistence = some table';
      persisted_runs = remember rows empty;
      clock_reads = 1;
    }

unfoldable pub register_all : List SyncAdapter → Coordinator → Outcome Coordinator
register_all [] s = ok s
register_all (a ∷ adapters) s =
    let (result, t) = register a s in
    elim result [ throws e ↦ throws e | ok state ↦ register_all adapters t ]

unfoldable pub create : Options → Outcome (Config × Coordinator)
unfolding configure restored register_all
create o = do c ← configure o; s ← register_all o.adapters (restored c o.persistence); ok (c, s)
