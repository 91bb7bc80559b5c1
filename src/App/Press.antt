-- ===== src/App/Press.antt =====
-- The mouse events of src/app/widgets/base/AppContainer.hpp: a press locks the widget under the cursor,
-- which then gets the moves and the release. `handles` says which events a widget's class handles, the
-- dynamic_cast of `_tryHandleEvent`; what the widget does with an event is left to the widget.
use understory.Base.{
  ℕ, ◌≡◌, refl, ◌∙◌, Bool, List, [], ◌∷◌, ◌++◌, append_assoc, Option, none, some, if◌then◌else◌,
}
use understory.App.Mouse.{
  MouseState, left_pressed, left_released, right_pressed, right_released, may_be_dragging,
}
use understory.App.Hover.{Widget, Hovering, check_if_mouse_over}

pub data MouseButton : Type 0 where
  left_button right_button other_button : MouseButton

pub data Kind : Type 0 where
  press move release : Kind

pub record AppContainer : Type 0 where
  pub hovering : Hovering
  pub mouse_state : MouseState
  pub deepest_hovered_shape : Option ℕ
  pub lock_context : Option ℕ
  -- The events that widgets have handled, oldest first.
  pub handled : List (ℕ × Kind)

unfoldable pub button_pressed : MouseButton → ℕ → MouseState → MouseState
button_pressed left_button now m = left_pressed now m
button_pressed right_button now m = right_pressed m
button_pressed other_button now m = m

unfoldable pub button_released : MouseButton → MouseState → MouseState
button_released left_button m = left_released m
button_released right_button m = right_released m
button_released other_button m = m

pub data Event : Type 0 where
  presses : MouseButton → ℕ → Event
  moves : (ℕ → Bool) → Event
  releases : MouseButton → Event

module _ (handles : ℕ → Kind → Bool) (window : Widget) where
  -- What `_tryHandleEvent` adds to the events handled.
  unfoldable pub try_handle_event : Option ℕ → Kind → List (ℕ × Kind)
  try_handle_event none kind = []
  try_handle_event (some w) kind = if handles w kind then (w, kind) ∷ [] else []

  unfoldable pub propagate_mouse_press_event : MouseButton → ℕ → AppContainer → AppContainer
  propagate_mouse_press_event button now c = record c {
    mouse_state = button_pressed button now c.mouse_state;
    lock_context = c.deepest_hovered_shape;
    handled = c.handled ++ try_handle_event c.deepest_hovered_shape press;
  }

  -- The argument says which geometries contain the cursor.
  unfoldable pub propagate_mouse_move_event : (ℕ → Bool) → AppContainer → AppContainer
  propagate_mouse_move_event inside c =
      let (deep_hovered, h) = check_if_mouse_over inside window c.hovering in
      record c {
        hovering = h;
        deepest_hovered_shape = deep_hovered;
        mouse_state = may_be_dragging c.mouse_state;
        handled = c.handled ++ try_handle_event c.lock_context move;
      }

  unfoldable pub propagate_mouse_release_event : MouseButton → AppContainer → AppContainer
  propagate_mouse_release_event button c = record c {
    handled = c.handled ++ try_handle_event c.lock_context release;
    mouse_state = button_released button c.mouse_state;
    lock_context = none;
  }

  unfoldable pub step : Event → AppContainer → AppContainer
  step (presses button now) c = propagate_mouse_press_event button now c
  step (moves inside) c = propagate_mouse_move_event inside c
  step (releases button) c = propagate_mouse_release_event button c

  unfoldable pub run : List Event → AppContainer → AppContainer
  unfolding step
  run [] c = c
  run (e ∷ es) c = run es (step e c)

  -- The moves of a drag, one for each place of the cursor, and its end.
  abbrev pub drag : List (ℕ → Bool) → MouseButton → List Event
  drag [] button = releases button ∷ []
  drag (inside ∷ places) button = moves inside ∷ drag places button

  -- What a locked widget handles of a drag.
  abbrev pub drag_handled : Option ℕ → List (ℕ → Bool) → List (ℕ × Kind)
  drag_handled w [] = try_handle_event w release
  drag_handled w (inside ∷ places) = try_handle_event w move ++ drag_handled w places

  locked :
      (places : List (ℕ → Bool)) (button : MouseButton) (c : AppContainer)
      → ((run (drag places button) c).handled ≡ c.handled ++ drag_handled c.lock_context places)
        × ((run (drag places button) c).lock_context ≡ none)
  unfolding run step propagate_mouse_move_event propagate_mouse_release_event
  locked [] button c = (refl, refl)
  locked (inside ∷ places) button c =
      let (h, l) = locked places button (propagate_mouse_move_event inside c) in
      (h ∙ append_assoc c.handled (try_handle_event c.lock_context move) _, l)

  -- The widget that the cursor is over when a button is pressed handles the press, every move and the
  -- release, as far as it handles such events at all, wherever the cursor goes; no other widget does,
  -- and nothing is locked afterwards.
  pub drag_stays_locked :
      (places : List (ℕ → Bool)) (button released : MouseButton) (now : ℕ) (c : AppContainer)
      → ((run (presses button now ∷ drag places released) c).handled
          ≡ c.handled
            ++ (try_handle_event c.deepest_hovered_shape press
                ++ drag_handled c.deepest_hovered_shape places))
        × ((run (presses button now ∷ drag places released) c).lock_context ≡ none)
  unfolding run step propagate_mouse_press_event
  drag_stays_locked places button released now c =
      let (h, l) = locked places released (propagate_mouse_press_event button now c) in
      (h ∙ append_assoc c.handled (try_handle_event c.deepest_hovered_shape press) _, l)
