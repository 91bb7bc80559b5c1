-- ===== src/App/Tests.antt =====
-- The results of App at concrete arguments.
use understory.Base.{
  Bool, ℕ, refl, some, none, ◌==◌, ◌||◌, arith, ◌+◌, ◌≡◌, true, false, List, [], ◌∷◌, ◌++◌, ltb,
}
use understory.App.Hover.{Widget, Hovering, check_if_mouse_over, deepest, deepest_inner}
use understory.App.Hover.Deepest.{
  Distinct, DistinctInner, mem, mem_inner, two_shapes, checked, check_finds_deepest, hover_lingers,
}
use understory.App.Keyboard.{
  KeyEvent, left, right, up, down, held, Points, stop_anim, direction_follows_keys,
}
use understory.App.Keyboard
use understory.App.Press.{AppContainer, try_handle_event, drag_stays_locked}
use understory.App.Press
use understory.App.Mouse.{
  Event, presses_left, releases_left, presses_right, moves, LeavesLeft, has_move, last_press,
  new_mouse_state, is_left_click_dragging, has_left_double_click, double_click_delay_ms,
  press_and_drag,
}
use understory.App.Mouse

abbrev press : Keyboard.Key → KeyEvent
press k = record { key = k; is_press = true; is_repeated = false }

abbrev release : Keyboard.Key → KeyEvent
release k = record { key = k; is_press = false; is_repeated = false }

-- Left goes down, then right goes down and up again: the way is left.
abbrev back_to_left : List KeyEvent
back_to_left = press left ∷ press right ∷ release right ∷ []

direction_follows_keys_example :
    Points
      (held left back_to_left false)
      (held right back_to_left false)
      (Keyboard.run back_to_left stop_anim).x.current_direction
    × Points
        (held down back_to_left false)
        (held up back_to_left false)
        (Keyboard.run back_to_left stop_anim).y.current_direction
direction_follows_keys_example = direction_follows_keys back_to_left

abbrev earlier : List Event
earlier = presses_left 1000 ∷ releases_left ∷ []

abbrev drag : List Event
drag = presses_right ∷ moves ∷ []

press_and_drag_example :
    (is_left_click_dragging (Mouse.run (earlier ++ presses_left 1100 ∷ drag) new_mouse_state)
      ≡ has_move drag)
    × (has_left_double_click (Mouse.run (earlier ++ presses_left 1100 ∷ drag) new_mouse_state)
        ≡ ltb 1100 (last_press earlier 0 + double_click_delay_ms))
press_and_drag_example = press_and_drag earlier drag 1100 tt

abbrev window : Widget
window = two_shapes 1 2 3

abbrev hovers_nothing : Hovering
hovers_nothing = record { is_hovered = λ i. false; latest = λ i. none }

window-Distinct : Distinct window
unfolding Distinct DistinctInner mem mem_inner
window-Distinct = (refl, (tt, (λ j m. ground arith), (tt, (λ j m. refl), tt)))

abbrev over : ℕ → ℕ → Bool
over i j = (j == 1) || (j == i)

check_finds_deepest_example :
    ((check_if_mouse_over (over 3) window hovers_nothing).0 ≡ deepest (over 3) window)
    × ((check_if_mouse_over (over 3) window hovers_nothing).1.is_hovered 1 ≡ true)
check_finds_deepest_example = check_finds_deepest (over 3) window hovers_nothing window-Distinct

over_three : deepest (over 3) window ≡ some 3
unfolding deepest deepest_inner
over_three = refl

abbrev anywhere : ℕ → Bool
anywhere j = true

hover_lingers_example :
    (checked
        (over 2)
        window
        (checked anywhere window (checked (over 3) window hovers_nothing))).is_hovered
      3
    ≡ true
hover_lingers_example =
    hover_lingers 1 2 3 (over 3) anywhere (over 2) hovers_nothing refl refl refl refl refl refl refl
      refl refl refl refl refl refl

abbrev handles_all : ℕ → Press.Kind → Bool
handles_all w kind = true

abbrev over_three_now : AppContainer
over_three_now = record {
  hovering = hovers_nothing;
  mouse_state = new_mouse_state;
  deepest_hovered_shape = some 3;
  lock_context = none;
  handled = [];
}

abbrev places : List (ℕ → Bool)
places = over 2 ∷ anywhere ∷ []

drag_stays_locked_example :
    ((Press.run handles_all window
        (Press.presses Press.left_button 5 ∷ Press.drag handles_all window places Press.left_button)
        over_three_now).handled
      ≡ (3, Press.press) ∷ (3, Press.move) ∷ (3, Press.move) ∷ (3, Press.release) ∷ [])
    × ((Press.run handles_all window
          (Press.presses Press.left_button 5
            ∷ Press.drag handles_all window places Press.left_button)
          over_three_now).lock_context
        ≡ none)
unfolding try_handle_event
drag_stays_locked_example =
    drag_stays_locked handles_all window places Press.left_button Press.left_button 5 over_three_now
