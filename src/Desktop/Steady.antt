-- ===== src/Desktop/Steady.antt =====
-- The widget over sequences of events: what opens it, hides it and keeps it pinned.
use agent_metrics.Prelude.{◌≡◌, refl, Bool, true, false, ◌||◌, List, [], ◌∷◌, arith}
use agent_metrics.Desktop.Widget.{
  WidgetState, WidgetEvent, pointer_enter, pointer_leave, pointer_begin, focus_within, pointer_end,
  pin, unpin, hide, show, set_data_status, open_main, reduce_widget_state, should_collapse,
  should_open, is_pinned, is_expanded, WidgetModeOnStartup, ReloadReason, reload, crashed,
  recover_widget_state_after_reload,
}

abbrev pub starts_pinned : WidgetModeOnStartup → Bool
starts_pinned WidgetModeOnStartup.collapsed = false
starts_pinned WidgetModeOnStartup.pinned = true

-- The events in their order.
unfoldable pub reduce_all : WidgetState → List WidgetEvent → WidgetState
reduce_all state [] = state
reduce_all state (e ∷ es) = reduce_all (reduce_widget_state state e) es

abbrev reveals : WidgetEvent → Bool
reveals show = true
reveals pin = true
reveals _ = false

abbrev pub any_reveals : List WidgetEvent → Bool
any_reveals [] = false
any_reveals (e ∷ es) = reveals e || any_reveals es

hidden-step :
    (state : WidgetState) (e : WidgetEvent)
    → state.visible ≡ false
    → reveals e ≡ false
    → (reduce_widget_state state e).visible ≡ false
unfolding reduce_widget_state
hidden-step state pointer_enter h k = h
hidden-step state pointer_leave h k = h
hidden-step state pointer_begin h k = h
hidden-step state (focus_within f) h k = h
hidden-step state (pointer_end f) h k = h
hidden-step state pin h k = cc
hidden-step state unpin h k = h
hidden-step state hide h k = refl
hidden-step state show h k = cc
hidden-step state (set_data_status d) h k = h
hidden-step state (open_main m) h k = h

hidden-stays :
    (state : WidgetState) (es : List WidgetEvent)
    → state.visible ≡ false
    → any_reveals es ≡ false
    → (reduce_all state es).visible ≡ false
unfolding reduce_all
hidden-stays state [] h k = h
hidden-stays state (e ∷ es) h k =
    hidden-stays (reduce_widget_state state e) es (hidden-step state e h (ground arith))
      (ground arith)

-- A hidden widget stays hidden and does not ask to open, whatever the pointer, the keyboard and the
-- data do, until it is shown or pinned.
pub hidden_never_opens :
    (state : WidgetState) (es : List WidgetEvent)
    → state.visible ≡ false
    → any_reveals es ≡ false
    → ((reduce_all state es).visible ≡ false) × (should_open (reduce_all state es) ≡ false)
unfolding should_open
hidden_never_opens state es h k = let out = hidden-stays state es h k in (out, ground arith)

abbrev releases : WidgetEvent → Bool
releases unpin = true
releases (open_main m) = true
releases _ = false

abbrev pub any_releases : List WidgetEvent → Bool
any_releases [] = false
any_releases (e ∷ es) = releases e || any_releases es

pinned-step :
    (state : WidgetState) (e : WidgetEvent)
    → is_pinned state.mode ≡ true
    → releases e ≡ false
    → is_pinned (reduce_widget_state state e).mode ≡ true
unfolding reduce_widget_state
pinned-step state pointer_enter h k = h
pinned-step state pointer_leave h k = h
pinned-step state pointer_begin h k = h
pinned-step state (focus_within f) h k = h
pinned-step state (pointer_end f) h k = h
pinned-step state pin h k = refl
pinned-step state unpin h k = cc
pinned-step state hide h k = h
pinned-step state show h k = h
pinned-step state (set_data_status d) h k = h
pinned-step state (open_main m) h k = cc

pinned-stays :
    (state : WidgetState) (es : List WidgetEvent)
    → is_pinned state.mode ≡ true
    → any_releases es ≡ false
    → is_pinned (reduce_all state es).mode ≡ true
unfolding reduce_all
pinned-stays state [] h k = h
pinned-stays state (e ∷ es) h k =
    pinned-stays (reduce_widget_state state e) es (pinned-step state e h (ground arith))
      (ground arith)

pinned-still :
    (state : WidgetState)
    → is_pinned state.mode ≡ true
    → (should_open state ≡ false) × (should_collapse state ≡ false)
unfolding should_open should_collapse
pinned-still state h = (ground arith, ground arith)

-- A pinned widget stays pinned, and asks neither to open nor to collapse, until it is unpinned or
-- the main window is opened.
pub pinned_is_steady :
    (state : WidgetState) (es : List WidgetEvent)
    → is_pinned state.mode ≡ true
    → any_releases es ≡ false
    → (is_pinned (reduce_all state es).mode ≡ true)
      × (should_open (reduce_all state es) ≡ false)
      × (should_collapse (reduce_all state es) ≡ false)
pinned_is_steady state es h k =
    let out = pinned-stays state es h k in
    let (shut, still) = pinned-still (reduce_all state es) out in (out, shut, still)

-- A reload or a crash of the renderer leaves the widget as visible as it was, with its data, and it
-- does not ask to open. After a reload its mode is what it was, and it asks to collapse exactly
-- where it was expanded. After a crash the mode that it had is lost: it does not ask to collapse,
-- and it is pinned exactly where the settings say so.
pub recovery_settles :
    (previous : WidgetState) (persisted : WidgetModeOnStartup) (reason : ReloadReason)
    → ((recover_widget_state_after_reload previous persisted reason).visible ≡ previous.visible)
      × ((recover_widget_state_after_reload previous persisted reason).data_status
          ≡ previous.data_status)
      × (should_open (recover_widget_state_after_reload previous persisted reason) ≡ false)
      × ((recover_widget_state_after_reload previous persisted reload).mode ≡ previous.mode)
      × (should_collapse (recover_widget_state_after_reload previous persisted reload)
          ≡ is_expanded previous.mode)
      × (should_collapse (recover_widget_state_after_reload previous persisted crashed) ≡ false)
      × (is_pinned (recover_widget_state_after_reload previous persisted crashed).mode
          ≡ starts_pinned persisted)
unfolding should_open should_collapse recover_widget_state_after_reload
recovery_settles previous persisted reload =
    (refl, refl, ground arith, refl, ground arith, ground arith, ground arith)
recovery_settles previous persisted crashed =
    (refl, refl, ground arith, refl, ground arith, ground arith, ground arith)
