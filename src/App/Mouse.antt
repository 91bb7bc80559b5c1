-- ===== src/App/Mouse.antt =====
-- src/app/widgets/navigation/MouseState.hpp. Times are in milliseconds.
use understory.Base.{
  ℕ, ◌+◌, ◌≡◌, refl, ap, ◌∙◌, Bool, true, false, not, ◌&&◌, ◌||◌, List, [], ◌∷◌, ◌++◌,
  if◌then◌else◌, ltb, arith,
}

abbrev pub double_click_delay_ms : ℕ
double_click_delay_ms = 200

pub record MouseState : Type 0 where
  pub r_pressed : Bool
  pub l_pressed : Bool
  pub l_moved : Bool
  pub l_dbl_click : Bool
  -- The time since the epoch.
  pub l_pressed_t : ℕ

unfoldable pub new_mouse_state : MouseState
new_mouse_state = record {
  r_pressed = false;
  l_pressed = false;
  l_moved = false;
  l_dbl_click = false;
  l_pressed_t = 0;
}

abbrev pub has_left_double_click : MouseState → Bool
has_left_double_click s = s.l_dbl_click

abbrev pub is_left_click_dragging : MouseState → Bool
is_left_click_dragging s = s.l_moved

unfoldable pub left_pressed : ℕ → MouseState → MouseState
left_pressed now s = record s {
  l_pressed = true;
  l_pressed_t = now;
  l_moved = false;
  l_dbl_click = ltb now (s.l_pressed_t + double_click_delay_ms);
}

unfoldable pub left_released : MouseState → MouseState
left_released s = record s { l_dbl_click = false; l_pressed = false; l_moved = false }

unfoldable pub right_pressed : MouseState → MouseState
right_pressed s = record s { r_pressed = true }

unfoldable pub right_released : MouseState → MouseState
right_released s = record s { r_pressed = false }

unfoldable pub may_be_dragging : MouseState → MouseState
may_be_dragging s = if s.l_pressed && not s.l_moved then record s { l_moved = true } else s

pub data Event : Type 0 where
  presses_left : ℕ → Event
  releases_left presses_right releases_right moves : Event

unfoldable pub step : Event → MouseState → MouseState
step (presses_left now) s = left_pressed now s
step releases_left s = left_released s
step presses_right s = right_pressed s
step releases_right s = right_released s
step moves s = may_be_dragging s

unfoldable pub run : List Event → MouseState → MouseState
unfolding step
run [] s = s
run (e ∷ es) s = run es (step e s)

-- The time of the last left press, from the one before.
unfoldable pub last_press : List Event → ℕ → ℕ
last_press [] t = t
last_press (presses_left now ∷ es) t = last_press es now
last_press (releases_left ∷ es) t = last_press es t
last_press (presses_right ∷ es) t = last_press es t
last_press (releases_right ∷ es) t = last_press es t
last_press (moves ∷ es) t = last_press es t

-- No event of the left button.
abbrev pub LeavesLeft : List Event → Type 0
LeavesLeft [] = Unit
LeavesLeft (presses_left now ∷ es) = ⊥
LeavesLeft (releases_left ∷ es) = ⊥
LeavesLeft (_ ∷ es) = LeavesLeft es

unfoldable pub has_move : List Event → Bool
has_move [] = false
has_move (moves ∷ es) = true
has_move (_ ∷ es) = has_move es

run-append : (es fs : List Event) (s : MouseState) → run (es ++ fs) s ≡ run fs (run es s)
unfolding run
run-append [] fs s = refl
run-append (e ∷ es) fs s = run-append es fs (step e s)

pressed_time :
    (es : List Event) (s : MouseState) → (run es s).l_pressed_t ≡ last_press es s.l_pressed_t
unfolding run step last_press left_pressed left_released right_pressed right_released
    may_be_dragging
pressed_time [] s = refl
pressed_time (presses_left now ∷ es) s = pressed_time es (left_pressed now s)
pressed_time (releases_left ∷ es) s = pressed_time es (left_released s)
pressed_time (presses_right ∷ es) s = pressed_time es (right_pressed s)
pressed_time (releases_right ∷ es) s = pressed_time es (right_released s)
pressed_time (moves ∷ es) s =
    pressed_time es (may_be_dragging s) ∙ ap (last_press es) (ground arith)

moved :
    (s : MouseState)
    → s.l_pressed ≡ true
    → ((may_be_dragging s).l_pressed ≡ true)
      × ((may_be_dragging s).l_moved ≡ true)
      × ((may_be_dragging s).l_dbl_click ≡ s.l_dbl_click)
unfolding may_be_dragging
moved s p = ground arith

while_pressed :
    (es : List Event) (s : MouseState)
    → LeavesLeft es
    → s.l_pressed ≡ true
    → (is_left_click_dragging (run es s) ≡ (s.l_moved || has_move es))
      × (has_left_double_click (run es s) ≡ s.l_dbl_click)
unfolding run step has_move left_pressed left_released right_pressed right_released
while_pressed [] s q p = (ground arith, refl)
while_pressed (presses_left now ∷ es) s q p = absurd q
while_pressed (releases_left ∷ es) s q p = absurd q
while_pressed (presses_right ∷ es) s q p = while_pressed es (right_pressed s) q p
while_pressed (releases_right ∷ es) s q p = while_pressed es (right_released s) q p
while_pressed (moves ∷ es) s q p =
    let (r, m, d) = moved s p in
    let (drag, click) = while_pressed es (may_be_dragging s) q r in
    ((drag ∙ ap (λ b. b || has_move es) m) ∙ ground arith, click ∙ d)

-- After a press of the left button and then no event of that button, a drag is under way exactly
-- where the mouse has moved since the press; and it is a double click exactly where the press came
-- less than 200 ms after the one before, or earlier than that by the clock.
pub press_and_drag :
    (before quiet : List Event) (now : ℕ)
    → LeavesLeft quiet
    → (is_left_click_dragging (run (before ++ presses_left now ∷ quiet) new_mouse_state)
        ≡ has_move quiet)
      × (has_left_double_click (run (before ++ presses_left now ∷ quiet) new_mouse_state)
          ≡ ltb now (last_press before 0 + double_click_delay_ms))
unfolding step left_pressed run new_mouse_state
press_and_drag before quiet now q =
    let s = run before new_mouse_state in
    let (drag, click) = while_pressed quiet (left_pressed now s) q refl in
    let whole = run-append before (presses_left now ∷ quiet) new_mouse_state in
    (
      ap is_left_click_dragging whole ∙ drag,
      ap has_left_double_click whole
          ∙ (click
              ∙ ap (λ t. ltb now (t + double_click_delay_ms))
                  (pressed_time before new_mouse_state)),
    )
