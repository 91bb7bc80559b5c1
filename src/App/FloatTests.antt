-- ===== src/App/FloatTests.antt =====
-- Runs of src/app on concrete input, with the numbers and matrices of App/Whole.
use understory.Base.{ℕ, ◌≡◌, refl, false, none, some, List, [], ◌∷◌, arith}
use understory.Base.Integers.{ℤ, pos, negsuc, ◌+ℤ◌, ◌-ℤ◌, ◌≤ℤ◌}
use understory.App.Magnum.{Vector2, Range2D, IsIrreflexive}
use understory.App.Whole.{whole, flat, at}
use understory.App.MouseMoves.{
  MouseMovements, new_mouse_movements, add_to_acceleration_buffer, update_acceleration_time,
  may_reduce_acceleration_buffer, reduce_loop,
}
use understory.App.MouseMoves.Window.{adds, time_sum, later_sum, buffer_is_recent}
use understory.App.MouseMoves.Window
use understory.App.Scroll.{Scrollable, left, height}
use understory.App.Scroll.Content.{
  Scissorable, by_offset, by_percent, scroll_all, scroll_all-InBounds, InBounds,
}
use understory.App.Selection.{
  SelectionRectState, Vector4, dragged, drag_back_alike, inner_rect-IsOrdered, IsOrdered,
}
use understory.App.Scale.{MapScaleHelper}
use understory.App.Scale.Range.{IsScaling, InRange, snapshots, target, target-InRange}
use understory.App.Scale.Range
use understory.App.Keyboard.{AxisMomentum}
use understory.App.Momentum.{x_axis, IsTimed, InLimit, consider_all, time_passed-InLimit}

whole-IsIrreflexive : IsIrreflexive whole
whole-IsIrreflexive x = ground arith

-- Three moves, 150 ms after each other: the second one is let go when 300 ms have passed.
abbrev two_moves : List (Window.Call ℤ)
two_moves = adds (pos 1000) (at (pos 1) (pos 0)) ∷ adds (pos 1150) (at (pos 2) (pos 0)) ∷ []

abbrev third_move : MouseMovements ℤ
third_move =
    add_to_acceleration_buffer whole flat (pos 1300) (at (pos 3) (pos 0))
      (Window.run whole flat two_moves (new_mouse_movements whole flat))

third_move_cumulates : third_move.accel_cumulator ≡ at (pos 3) (pos 0)
unfolding add_to_acceleration_buffer Window.run Window.step new_mouse_movements
    update_acceleration_time may_reduce_acceleration_buffer reduce_loop ◌+ℤ◌ ◌-ℤ◌
third_move_cumulates = refl

buffer_is_recent_example :
    (time_sum third_move.accel_buffer ≡ third_move.accel_ms)
    × (later_sum third_move.accel_buffer ≤ℤ pos 199)
unfolding add_to_acceleration_buffer Window.run Window.step new_mouse_movements
    update_acceleration_time may_reduce_acceleration_buffer reduce_loop ◌+ℤ◌ ◌-ℤ◌
buffer_is_recent_example =
    buffer_is_recent whole flat two_moves (pos 1300) (at (pos 3) (pos 0)) third_move refl refl

abbrev still : Scrollable ℤ (Vector2 ℤ) ℕ
still = record {
  parent_stickness = left;
  growable_axis = height;
  animator = record {
    anim_state = record { from = pos 0; to = pos 0; current = pos 0; previous = pos 0 };
    player = 0;
  };
  scrll_matrix = at (pos 0) (pos 0);
}

abbrev content : Scissorable ℤ (Vector2 ℤ) ℕ
content = record {
  scrollable = still;
  translation_factor = pos 0;
  canvas_size = pos 10;
  content_size = pos 75;
}

scroll_all-InBounds_example : InBounds whole flat (
    scroll_all whole flat
      (by_offset (pos 1) (pos 0) (at (pos 0) (negsuc 99)) ∷ by_percent (pos 0) (pos 1) ∷ [])
      content)
scroll_all-InBounds_example =
    scroll_all-InBounds whole flat (by_offset (pos 1) (pos 0) (at (pos 0) (negsuc 99)))
      (by_percent (pos 0) (pos 1) ∷ []) content whole-IsIrreflexive (unfold ◌-ℤ◌ in refl)

abbrev blank : SelectionRectState ℤ
blank = record {
  vertices = record {
    first = at (pos 0) (pos 0);
    second = at (pos 0) (pos 0);
    third = at (pos 0) (pos 0);
    fourth = at (pos 0) (pos 0);
  };
  p1_px = at (pos 0) (pos 0);
  p2_px = at (pos 0) (pos 0);
  is_selecting = false;
  buffer = record {
    first = at (pos 0) (pos 0);
    second = at (pos 0) (pos 0);
    third = at (pos 0) (pos 0);
    fourth = at (pos 0) (pos 0);
  };
  inner_rect = record { x = pos 0; y = pos 0; z = pos 0; w = pos 0 };
}

-- The inner rectangle of the drag from `a` to `b`, over these places.
abbrev inner : Vector2 ℤ → List (Vector2 ℤ) → Vector2 ℤ → Vector4 ℤ
inner a ps b = (dragged whole flat (at (pos 9) (pos 9)) a ps b blank).inner_rect

abbrev over : List (Vector2 ℤ)
over = at (pos 8) (pos 8) ∷ []

drag_back_alike_example :
    (inner (at (pos 1) (pos 7)) [] (at (pos 5) (pos 2))
      ≡ inner (at (pos 5) (pos 2)) over (at (pos 1) (pos 7)))
    × (inner (at (pos 1) (pos 7)) [] (at (pos 5) (pos 2))
        ≡ inner (at (pos 1) (pos 2)) over (at (pos 5) (pos 7)))
    × (inner (at (pos 1) (pos 7)) [] (at (pos 5) (pos 2))
        ≡ inner (at (pos 5) (pos 7)) over (at (pos 1) (pos 2)))
drag_back_alike_example =
    drag_back_alike whole flat (at (pos 9) (pos 9)) (at (pos 1) (pos 7)) (at (pos 5) (pos 2)) []
      over blank blank

inner_rect-IsOrdered_example :
    IsOrdered whole flat
      (dragged whole flat
        (at (pos 9) (pos 9))
        (at (pos 1) (pos 7))
        []
        (at (pos 1) (pos 7))
        blank).inner_rect
inner_rect-IsOrdered_example =
    inner_rect-IsOrdered whole flat (at (pos 9) (pos 9)) (at (pos 1) (pos 7)) (at (pos 1) (pos 7))
      [] blank whole-IsIrreflexive

abbrev helper : MapScaleHelper ℤ ℕ
helper = record {
  animator = record {
    anim_state = record {
      from = record { translation = at (pos 0) (pos 0); scaling = at (pos 0) (pos 0) };
      to = record { translation = at (pos 0) (pos 0); scaling = at (pos 0) (pos 0) };
      current = record { translation = at (pos 0) (pos 0); scaling = at (pos 0) (pos 0) };
      previous = record { translation = at (pos 0) (pos 0); scaling = at (pos 0) (pos 0) };
    };
    player = 0;
  };
  zoom_accuracy = pos 1;
}

abbrev zoom_rect : Range2D ℤ
zoom_rect = record { min = at (pos 0) (pos 0); max = at (pos 4) (pos 4) }

flat-IsScaling : IsScaling whole flat (λ m. Unit)
flat-IsScaling = record {
  irreflexive = whole-IsIrreflexive;
  scales = refl;
  mul = λ u v a b. rw (a, b) refl;
  div = λ u v a b. a;
  lerp = λ u v t a b. b;
  alike = λ m e. refl;
  scaled = λ v m a e. tt;
  moved = λ v m e. tt;
}

target-InRange_example : InRange whole flat (
    target whole flat (
      Range.run whole flat
        (snapshots (pos 0) zoom_rect ∷ Range.frame (pos 1) ∷ [])
        (helper, at (pos 0) (pos 0))))
target-InRange_example =
    target-InRange whole flat (λ m. Unit) (pos 0) zoom_rect (Range.frame (pos 1) ∷ []) helper
      (at (pos 0) (pos 0)) flat-IsScaling tt

whole-IsTimed : IsTimed whole flat
whole-IsTimed = record {
  irreflexive = whole-IsIrreflexive;
  limit = refl;
  add_nonneg = λ a d h k. (unfold ◌+ℤ◌ in ground arith);
  sub_below = λ m a d h k. (unfold ◌-ℤ◌ in ground arith);
}

abbrev going_left : AxisMomentum
going_left = record { current_direction = some false; momentum_direction = none }

abbrev letting_go : AxisMomentum
letting_go = record { current_direction = none; momentum_direction = some false }

time_passed-InLimit_example :
    InLimit whole flat
      (consider_all whole flat x_axis
        ((going_left, pos 7) ∷ (letting_go, pos 1) ∷ [])
        (record { speed = pos 0; time_passed = pos 0 })
        (at (pos 0) (pos 0))).0.time_passed
time_passed-InLimit_example =
    time_passed-InLimit whole flat x_axis ((going_left, pos 7) ∷ (letting_go, pos 1) ∷ [])
      (record { speed = pos 0; time_passed = pos 0 }) (at (pos 0) (pos 0)) whole-IsTimed
      (refl, (refl, tt)) (refl, refl)
