-- ===== src/Desktop/Supervisor/Launching.antt =====
-- The calls of `start`, `restart` and `stop` keep a supervisor sound, and so does any sequence of
-- turns.
use agent_metrics.Prelude.{
  ◌≡◌, refl, Bool, true, false, not, ◌&&◌, Option, none, some, List, [], ◌∷◌, arith, if_cases,
  is_some,
}
use agent_metrics.Desktop.Supervisor.State.{
  ChildName, watcher, parser, core, starting, managed, external, unowned, ManagedChild, Supervisor,
  refresh_runtime_state, set_tracker, is_external, is_stopped, is_ready, create_runtime_supervisor,
}
use agent_metrics.Desktop.Supervisor.Turns.{
  Spawn, spawned, spawn_failed, launch_child, with_failure, stop_child, reset_failure_state,
  is_live,
}
use agent_metrics.Desktop.Supervisor.Lifecycle.{
  Event, exits, restart_timer, stable_timer, becomes_ready, readiness_timeout, gives_up,
  stop_timeout, log_failure, finishes, stop_begin, stop_end, Launch, start_begin, start_launch,
  restart_begin, restart_remove, restart_launch, Turn, event, launching, handle, launch, run,
  start_begins, own_core, launch_or_fail, start_child, start_launches, restart_begins,
  restart_removes, restart_launches, stop_begins, stop_ends, map_child, is_settled, reset_all,
  is_core,
}
use agent_metrics.Desktop.Supervisor.Sound.{
  IsSound, is_waiting, refresh-IsSound, child-IsSound, timer-IsSound,
}
use agent_metrics.Desktop.Supervisor.Keeping.{
  same_tracker-IsSound, state-IsSound, launch_child-IsSound, exits-IsSound, fires-IsSound,
}
use agent_metrics.Desktop.Supervisor.Callbacks.{
  reset-IsSound, stable-IsSound, ready-IsSound, times_out-IsSound, give_up-IsSound,
  stop_times_out-IsSound, log_write-IsSound,
}

reset_all-IsSound : (s : Supervisor) → IsSound s → IsSound (reset_all s)
reset_all-IsSound s v = record {
  bounded = λ name. omega arith;
  quiet = v.quiet;
  latch = λ name. refl;
  settled = v.settled;
}

running-IsSound :
    (s : Supervisor) → IsSound s → IsSound (record s { stopping = false; state = starting })
running-IsSound s v = record {
  bounded = v.bounded;
  quiet = λ name. refl;
  latch = v.latch;
  settled = v.settled;
}

start_begins-IsSound : (s : Supervisor) → IsSound s → IsSound (start_begins s)
unfolding start_begins
start_begins-IsSound s v =
    if_cases IsSound
      (is_ready s.state
        && (is_settled (s.children watcher)
            && (is_settled (s.children parser) && is_settled (s.children core))))
      (λ _. refresh-IsSound s v)
      (λ _.
        running-IsSound _
          (if_cases IsSound (is_stopped s.state) (λ _. reset_all-IsSound s v) (λ _. v)))

own_core-IsSound : (healthy : Bool) (s : Supervisor) → IsSound s → IsSound (own_core healthy s)
own_core-IsSound healthy s v =
    if_cases IsSound (healthy && not (is_some (s.children core)))
      (λ _.
        same_tracker-IsSound s core
          (record (s.trackers core) { ownership = external; error_summary = none }) v refl refl)
      (λ _.
        if_cases IsSound (not healthy && is_external (s.trackers core).ownership)
          (λ _.
            same_tracker-IsSound s core (record (s.trackers core) { ownership = unowned }) v refl
              refl)
          (λ _. v))

launch_or_fail-IsSound :
    (name : ChildName) (spawn : Spawn) (s : Supervisor)
    → IsSound s
    → IsSound (launch_or_fail name spawn s)
launch_or_fail-IsSound name (spawned pid) s v = launch_child-IsSound name pid s v
launch_or_fail-IsSound name (spawn_failed message) s v =
    same_tracker-IsSound s name
      (record (with_failure (some message) (s.trackers name)) { ownership = managed }) v refl refl

start_child-IsSound :
    (name : ChildName) (spawn : Spawn) (s : Supervisor)
    → IsSound s
    → IsSound (start_child name spawn s)
unfolding start_child
start_child-IsSound name spawn s v =
    if_cases IsSound (is_live (s.children name)) (λ _. v)
      (λ _. launch_or_fail-IsSound name spawn s v)

start_launches-IsSound :
    (healthy : Bool) (spawn : ChildName → Spawn) (s : Supervisor)
    → IsSound s
    → IsSound (start_launches healthy spawn s)
unfolding start_launches
start_launches-IsSound healthy spawn s v =
    let first =
      start_child parser (spawn parser)
        (start_child watcher (spawn watcher) (own_core healthy s)) in
    let w : IsSound first =
      start_child-IsSound parser (spawn parser) _
        (start_child-IsSound watcher (spawn watcher) _ (own_core-IsSound healthy s v)) in
    if_cases IsSound (is_external (first.trackers core).ownership) (λ _. w)
      (λ _. start_child-IsSound core (spawn core) first w)

stop_child-settled :
    (o : Option ManagedChild) → is_waiting o ≡ false → is_waiting (map_child stop_child o) ≡ false
stop_child-settled none h = refl
stop_child-settled (some c) h = ground arith

restart_begins-IsSound :
    (name : ChildName) (s : Supervisor) → IsSound s → IsSound (restart_begins name s)
unfolding restart_begins
restart_begins-IsSound name s v =
    let t = record (set_tracker name (reset_failure_state true (s.trackers name)) s) {
      stopping = false;
    } in
    let w = reset-IsSound true s name (s.trackers name) v in
    let running : IsSound t = record {
      bounded = w.bounded;
      quiet = λ n. refl;
      latch = w.latch;
      settled = w.settled;
    } in
    child-IsSound _ name (map_child stop_child (s.children name))
      (timer-IsSound t name none running refl (ground arith))
      (stop_child-settled (s.children name) (v.settled name))

restart_removes-IsSound :
    (name : ChildName) (s : Supervisor) → IsSound s → IsSound (restart_removes name s)
unfolding restart_removes
restart_removes-IsSound name s v = child-IsSound s name none v refl

restart_launches-IsSound :
    (name : ChildName) (healthy : Bool) (spawn : Spawn) (s : Supervisor)
    → IsSound s
    → IsSound (restart_launches name healthy spawn s)
unfolding restart_launches
restart_launches-IsSound name healthy spawn s v =
    if_cases IsSound (is_core name && healthy)
      (λ _. refresh-IsSound _ (
        same_tracker-IsSound _ name (record (s.trackers name) { ownership = external }) v refl
          refl))
      (λ _. launched spawn (
        state-IsSound _ starting (
          same_tracker-IsSound _ name (record (s.trackers name) { ownership = managed }) v refl
            refl)))
  where
    launched :
        {owned : Supervisor} (spawn' : Spawn)
        → IsSound owned
        → IsSound (elim spawn' [
          | spawned pid ↦ launch_child name pid owned
          | spawn_failed message ↦
              refresh_runtime_state
                (set_tracker name (with_failure (some message) (owned.trackers name)) owned)
        ])
    launched {owned} (spawned pid) w = launch_child-IsSound name pid owned w
    launched {owned} (spawn_failed message) w = refresh-IsSound _ (
        same_tracker-IsSound owned name (with_failure (some message) (owned.trackers name)) w refl
          refl)

stop_begins-IsSound : (s : Supervisor) → IsSound s → IsSound (stop_begins s)
unfolding stop_begins
stop_begins-IsSound s v = record {
  bounded = v.bounded;
  quiet = λ name. refl;
  latch = λ name. ground arith;
  settled = λ name. stop_child-settled (s.children name) (v.settled name);
}

stop_ends-IsSound : (s : Supervisor) → IsSound s → IsSound (stop_ends s)
unfolding stop_ends
stop_ends-IsSound s v =
    refresh-IsSound _
      (record { bounded = v.bounded; quiet = v.quiet; latch = v.latch; settled = v.settled })

handle-IsSound : (e : Event) (s : Supervisor) → IsSound s → IsSound (handle e s)
unfolding handle
handle-IsSound (exits now name generation code signal error) s v =
    exits-IsSound now name generation code signal error s v
handle-IsSound (restart_timer now name spawn) s v = fires-IsSound now name spawn s v
handle-IsSound (stable_timer name) s v = stable-IsSound name s v
handle-IsSound (becomes_ready name generation) s v = ready-IsSound name generation s v
handle-IsSound (readiness_timeout name generation) s v = times_out-IsSound name generation s v
handle-IsSound (gives_up now name generation) s v = give_up-IsSound now name generation s v
handle-IsSound (stop_timeout name generation) s v = stop_times_out-IsSound name generation s v
handle-IsSound (log_failure name message) s v = log_write-IsSound name message s v
handle-IsSound finishes s v = refresh-IsSound s v
handle-IsSound stop_begin s v = stop_begins-IsSound s v
handle-IsSound stop_end s v = stop_ends-IsSound s v

launch-IsSound : (l : Launch) (s : Supervisor) → IsSound s → IsSound (launch l s)
unfolding launch
launch-IsSound start_begin s v = start_begins-IsSound s v
launch-IsSound (start_launch healthy spawn) s v = start_launches-IsSound healthy spawn s v
launch-IsSound (restart_begin name) s v = restart_begins-IsSound name s v
launch-IsSound (restart_remove name) s v = restart_removes-IsSound name s v
launch-IsSound (restart_launch name healthy spawn) s v =
    restart_launches-IsSound name healthy spawn s v

run_from-IsSound : (ts : List Turn) (s : Supervisor) → IsSound s → IsSound (run ts s)
unfolding run
run_from-IsSound [] s v = v
run_from-IsSound (event e ∷ ts) s v = run_from-IsSound ts (handle e s) (handle-IsSound e s v)
run_from-IsSound (launching l ∷ ts) s v = run_from-IsSound ts (launch l s) (launch-IsSound l s v)

-- After any sequence of turns from the creation on, in any order and at any times: of each child at
-- most five automatic launches are counted; a supervisor that stops has no restart timer; a child
-- that is latched has none either; and no child that has exited is taken for one that starts.
pub run-IsSound : (ts : List Turn) → IsSound (run ts create_runtime_supervisor)
run-IsSound ts = run_from-IsSound ts create_runtime_supervisor (record {
  bounded = λ name. omega arith;
  quiet = λ name. refl;
  latch = λ name. refl;
  settled = λ name. refl;
})
