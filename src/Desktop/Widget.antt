-- ===== src/Desktop/Widget.antt =====
-- apps/desktop/src/widget-state.ts: the state of the floating widget and its reducer.
use agent_metrics.Prelude.{Bool, true, false, not, ◌&&◌, ◌||◌}

pub data WidgetMode : Type 0 where
  collapsed expanded pinned : WidgetMode

pub data WidgetDataStatus : Type 0 where
  loading ready syncing stale offline error : WidgetDataStatus

pub record WidgetInteraction : Type 0 where
  pub dragging : Bool
  pub pointer_inside : Bool
  pub keyboard_focus_inside : Bool

pub record WidgetState : Type 0 where
  pub visible : Bool
  pub mode : WidgetMode
  pub data_status : WidgetDataStatus
  pub interaction : WidgetInteraction

-- What `open-main` may ask for.
pub data WidgetModeAfterOpenMain : Type 0 where
  collapsed expanded : WidgetModeAfterOpenMain

-- An event of any other type, which the reducer passes over, has no case.
pub data WidgetEvent : Type 0 where
  pointer_enter pointer_leave pointer_begin : WidgetEvent
  focus_within pointer_end : Bool → WidgetEvent
  pin unpin hide show : WidgetEvent
  set_data_status : WidgetDataStatus → WidgetEvent
  open_main : WidgetModeAfterOpenMain → WidgetEvent

abbrev pub idle_interaction : WidgetInteraction
idle_interaction = record {
  dragging = false;
  pointer_inside = false;
  keyboard_focus_inside = false;
}

unfoldable pub create_widget_state : WidgetMode → WidgetDataStatus → WidgetState
create_widget_state mode data_status = record {
  visible = true;
  mode = mode;
  data_status = data_status;
  interaction = idle_interaction;
}

abbrev mode_after : WidgetModeAfterOpenMain → WidgetMode
mode_after WidgetModeAfterOpenMain.collapsed = WidgetMode.collapsed
mode_after WidgetModeAfterOpenMain.expanded = WidgetMode.expanded

unfoldable pub reduce_widget_state : WidgetState → WidgetEvent → WidgetState
reduce_widget_state state pointer_enter = record state {
  interaction = record (state.interaction) { pointer_inside = true };
}
reduce_widget_state state pointer_leave = record state {
  interaction = record (state.interaction) { pointer_inside = false };
}
reduce_widget_state state (focus_within focused) = record state {
  interaction = record (state.interaction) { keyboard_focus_inside = focused };
}
reduce_widget_state state pointer_begin = record state {
  interaction = record (state.interaction) { dragging = true };
}
reduce_widget_state state (pointer_end activation_eligible) = record state {
  interaction = record (state.interaction) { dragging = false };
}
reduce_widget_state state pin = record state {
  mode = WidgetMode.pinned;
  visible = true;
  interaction = idle_interaction;
}
reduce_widget_state state unpin = record state { mode = WidgetMode.expanded }
reduce_widget_state state hide = record state { visible = false; interaction = idle_interaction }
reduce_widget_state state show = record state { visible = true }
reduce_widget_state state (set_data_status status) = record state { data_status = status }
reduce_widget_state state (open_main mode) = record state { mode = mode_after mode }

abbrev pub is_collapsed : WidgetMode → Bool
is_collapsed WidgetMode.collapsed = true
is_collapsed _ = false

abbrev pub is_expanded : WidgetMode → Bool
is_expanded WidgetMode.expanded = true
is_expanded _ = false

abbrev pub is_pinned : WidgetMode → Bool
is_pinned WidgetMode.pinned = true
is_pinned _ = false

unfoldable pub should_collapse : WidgetState → Bool
should_collapse state =
    is_expanded state.mode && not state.interaction.dragging && not state.interaction.pointer_inside

unfoldable pub should_open : WidgetState → Bool
should_open state =
    is_collapsed state.mode
    && state.visible
    && not state.interaction.dragging
    && (state.interaction.pointer_inside || state.interaction.keyboard_focus_inside)

pub data WidgetModeOnStartup : Type 0 where
  collapsed pinned : WidgetModeOnStartup

abbrev pub mode_on_startup : WidgetModeOnStartup → WidgetMode
mode_on_startup WidgetModeOnStartup.collapsed = WidgetMode.collapsed
mode_on_startup WidgetModeOnStartup.pinned = WidgetMode.pinned

pub data ReloadReason : Type 0 where
  reload crashed : ReloadReason

unfoldable pub recover_widget_state_after_reload :
    WidgetState → WidgetModeOnStartup → ReloadReason → WidgetState
recover_widget_state_after_reload previous persisted reload = record previous {
  interaction = idle_interaction;
}
recover_widget_state_after_reload previous persisted crashed = record {
  visible = previous.visible;
  mode = mode_on_startup persisted;
  data_status = previous.data_status;
  interaction = idle_interaction;
}
