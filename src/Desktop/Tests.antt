-- ===== src/Desktop/Tests.antt =====
-- The widget at concrete states.
use agent_metrics.Prelude.{◌≡◌, refl, true, false, List, [], ◌∷◌}
use agent_metrics.Desktop.Widget.{
  WidgetMode, WidgetDataStatus, WidgetState, WidgetEvent, pointer_enter, focus_within, hide, show,
  reduce_widget_state, create_widget_state, should_open, should_collapse, is_pinned, is_expanded,
  WidgetModeOnStartup, reload, crashed, recover_widget_state_after_reload,
}
use agent_metrics.Desktop.Steady.{
  reduce_all, starts_pinned, hidden_never_opens, pinned_is_steady, recovery_settles,
}

abbrev hidden : WidgetState
hidden = reduce_widget_state (create_widget_state WidgetMode.collapsed WidgetDataStatus.ready) hide

abbrev pinned_widget : WidgetState
pinned_widget = create_widget_state WidgetMode.pinned WidgetDataStatus.loading

abbrev touches : List WidgetEvent
touches = pointer_enter ∷ focus_within true ∷ []

-- The same events open a widget that is shown.
shown_opens : should_open (reduce_all hidden (show ∷ touches)) ≡ true
unfolding should_open reduce_all create_widget_state reduce_widget_state
shown_opens = refl

hidden_never_opens_example :
    ((reduce_all hidden touches).visible ≡ false)
    × (should_open (reduce_all hidden touches) ≡ false)
unfolding reduce_widget_state create_widget_state
hidden_never_opens_example = hidden_never_opens hidden touches refl refl

pinned_is_steady_example :
    (is_pinned (reduce_all pinned_widget touches).mode ≡ true)
    × (should_open (reduce_all pinned_widget touches) ≡ false)
    × (should_collapse (reduce_all pinned_widget touches) ≡ false)
unfolding create_widget_state
pinned_is_steady_example = pinned_is_steady pinned_widget touches refl refl

recovery_settles_example :
    ((recover_widget_state_after_reload hidden WidgetModeOnStartup.pinned crashed).visible
      ≡ hidden.visible)
    × ((recover_widget_state_after_reload hidden WidgetModeOnStartup.pinned crashed).data_status
        ≡ hidden.data_status)
    × (should_open (recover_widget_state_after_reload hidden WidgetModeOnStartup.pinned crashed)
        ≡ false)
    × ((recover_widget_state_after_reload hidden WidgetModeOnStartup.pinned reload).mode
        ≡ hidden.mode)
    × (should_collapse (recover_widget_state_after_reload hidden WidgetModeOnStartup.pinned reload)
        ≡ is_expanded hidden.mode)
    × (should_collapse (recover_widget_state_after_reload hidden WidgetModeOnStartup.pinned crashed)
        ≡ false)
    × (is_pinned (recover_widget_state_after_reload hidden WidgetModeOnStartup.pinned crashed).mode
        ≡ starts_pinned WidgetModeOnStartup.pinned)
recovery_settles_example = recovery_settles hidden WidgetModeOnStartup.pinned crashed
