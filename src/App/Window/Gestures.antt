-- ===== src/App/Window/Gestures.antt =====
-- What the gestures of the mouse over the background of src/app/USApplication.cpp come to.
use understory.Base.{◌≡◌, refl, ap, ◌∙◌, Bool, true, false, Bool-cases, inl, inr, List, [], ◌∷◌}
use understory.Base.Integers.{ℤ}
use understory.App.Magnum.{Float, Magnum}
use understory.App.Keyboard
use understory.App.Mouse.{MouseState, is_left_click_dragging, has_left_double_click}
use understory.App.Press.{MouseButton, left_button, right_button, other_button}
use understory.App.Selection.{
  init, update, update_from_point, update_shader_data, end, reset_selection,
}
use understory.App.Window.{
  UsApplication, AppKey, esc, zooms, moves, MouseAt, with_mouse_animation, handle_press_event,
  handle_scroll_event, handle_lock_release_event, handle_lock_move_event, key_press, key_release,
  viewport_event, escaped, zoomed_by_key, reset_world_matrix, moved,
}

module _ {W M P : Type 0} (f : Float W) (g : Magnum W M P) where
  -- An event, with the state of the mouse at the time.
  pub data Event : Type 0 where
    scrolls : W → W → MouseAt → Event
    presses : W → MouseButton → MouseAt → MouseState → Event
    releases : W → ℤ → MouseButton → MouseAt → MouseState → Event
    moves_mouse : ℤ → MouseAt → MouseState → Event
    presses_key : AppKey → Bool → Event
    releases_key : AppKey → Bool → Event
    resizes : Event

  unfoldable pub step : Event → UsApplication W M P → UsApplication W M P
  unfolding handle_scroll_event handle_press_event handle_lock_release_event handle_lock_move_event
      key_press key_release viewport_event
  step (scrolls now direction at) a = handle_scroll_event f g now direction at a
  step (presses now button at mouse) a = handle_press_event f g now button at mouse a
  step (releases now clock button at mouse) a =
      handle_lock_release_event f g now clock button at mouse a
  step (moves_mouse clock at mouse) a = handle_lock_move_event f g clock at mouse a
  step (presses_key key is_repeated) a = key_press f g key is_repeated a
  step (releases_key key is_repeated) a = key_release f g key is_repeated a
  step resizes a = viewport_event f g a

  unfoldable pub run : List Event → UsApplication W M P → UsApplication W M P
  unfolding step
  run [] a = a
  run (e ∷ es) a = run es (step e a)

  -- What an event means for the selection.
  abbrev pub selecting_after : Event → Bool → Bool
  selecting_after (presses now right_button at mouse) before = true
  selecting_after (releases now clock right_button at mouse) before = false
  selecting_after resizes before = false
  selecting_after _ before = before

  abbrev pub selecting_after_all : List Event → Bool → Bool
  selecting_after_all [] before = before
  selecting_after_all (e ∷ es) before = selecting_after_all es (selecting_after e before)

  abbrev is_selecting : UsApplication W M P → Bool
  is_selecting a = a.selection_rect.is_selecting

  pressed-selecting :
      (now : W) (button : MouseButton) (at : MouseAt) (mouse : MouseState) (a : UsApplication W M P)
      → is_selecting (handle_press_event f g now button at mouse a)
        ≡ selecting_after (presses now button at mouse) (is_selecting a)
  unfolding handle_press_event init with_mouse_animation
  pressed-selecting now left_button at mouse a = elim (Bool-cases (has_left_double_click mouse)) [
    | inl b ↦ rw b refl
    | inr b ↦ rw b refl
  ]
  pressed-selecting now right_button at mouse a = refl
  pressed-selecting now other_button at mouse a = refl

  released-selecting :
      (now : W) (clock : ℤ) (button : MouseButton) (at : MouseAt) (mouse : MouseState)
      (a : UsApplication W M P)
      → is_selecting (handle_lock_release_event f g now clock button at mouse a)
        ≡ selecting_after (releases now clock button at mouse) (is_selecting a)
  unfolding handle_lock_release_event end with_mouse_animation
  released-selecting now clock left_button at mouse a =
      elim (Bool-cases (is_left_click_dragging mouse)) [ inl b ↦ rw b refl | inr b ↦ rw b refl ]
  released-selecting now clock right_button at mouse a =
      elim (Bool-cases a.selection_rect.is_selecting) [ inl b ↦ rw b refl | inr b ↦ rw b refl ]
  released-selecting now clock other_button at mouse a = refl

  moved-selecting :
      (clock : ℤ) (at : MouseAt) (mouse : MouseState) (a : UsApplication W M P)
      → is_selecting (handle_lock_move_event f g clock at mouse a) ≡ is_selecting a
  unfolding handle_lock_move_event moved update update_from_point update_shader_data
  moved-selecting clock at mouse a = elim (Bool-cases (is_left_click_dragging mouse)) [
    | inl b ↦ rw b refl
    | inr b ↦ elim (Bool-cases a.selection_rect.is_selecting) [
      | inl c ↦ rw (b, c) refl
      | inr c ↦ rw (b, c) refl
    ]
  ]

  key-selecting :
      (key : AppKey) (is_repeated : Bool) (a : UsApplication W M P)
      → is_selecting (key_press f g key is_repeated a) ≡ is_selecting a
  unfolding key_press escaped zoomed_by_key reset_world_matrix
  key-selecting esc is_repeated a = refl
  key-selecting (zooms key) is_repeated a = refl
  key-selecting (moves key) is_repeated a = refl

  step-selecting :
      (e : Event) (a : UsApplication W M P)
      → is_selecting (step e a) ≡ selecting_after e (is_selecting a)
  unfolding step handle_scroll_event key_release viewport_event reset_selection
  step-selecting (scrolls now direction at) a = refl
  step-selecting (presses now button at mouse) a = pressed-selecting now button at mouse a
  step-selecting (releases now clock button at mouse) a =
      released-selecting now clock button at mouse a
  step-selecting (moves_mouse clock at mouse) a = moved-selecting clock at mouse a
  step-selecting (presses_key key is_repeated) a = key-selecting key is_repeated a
  step-selecting (releases_key key is_repeated) a = refl
  step-selecting resizes a = refl

  -- After any events that reach the window, a selection is under way exactly where the right button has
  -- been pressed, and since then neither released nor the window resized.
  pub selecting_iff_held :
      (es : List Event) (a : UsApplication W M P)
      → (run es a).selection_rect.is_selecting
        ≡ selecting_after_all es a.selection_rect.is_selecting
  unfolding run
  selecting_iff_held [] a = refl
  selecting_iff_held (e ∷ es) a =
      selecting_iff_held es (step e a) ∙ ap (selecting_after_all es) (step-selecting e a)

  unfoldable pub press_keys : List (Keyboard.Key × Bool) → UsApplication W M P → UsApplication W M P
  unfolding key_press
  press_keys [] a = a
  press_keys ((key, is_repeated) ∷ keys) a =
      press_keys keys (key_press f g (moves key) is_repeated a)

  -- Keys that move the map leave the mouse's animation under way, although the helpers exclude each
  -- other; a double click, which starts that animation, makes the keys' helper forget its keys.
  pub exclusion_is_one_sided :
      (keys : List (Keyboard.Key × Bool)) (now : W) (at : MouseAt) (mouse : MouseState)
      (a : UsApplication W M P)
      → has_left_double_click mouse ≡ true
      → ((press_keys keys a).mmh ≡ a.mmh)
        × ((handle_press_event f g now left_button at mouse a).kmh ≡ Keyboard.stop_anim)
  unfolding press_keys key_press escaped zoomed_by_key handle_press_event with_mouse_animation
  exclusion_is_one_sided [] now at mouse a d = (refl, rw d refl)
  exclusion_is_one_sided ((key, is_repeated) ∷ keys) now at mouse a d = (
    (exclusion_is_one_sided keys now at mouse (key_press f g (moves key) is_repeated a) d).0,
    rw d refl,
  )
