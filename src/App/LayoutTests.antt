-- ===== src/App/LayoutTests.antt =====
-- Layouts of the window of src/app and looks of its help text, with the numbers and matrices of App/Whole.
use understory.Base.{ℕ, refl, ◌≡◌, true, false, arith, List, [], ◌∷◌}
use understory.Base.Integers.{ℤ, pos, ◌-ℤ◌}
use understory.App.Magnum.{Vector2}
use understory.App.Whole.{whole, flat, at}
use understory.App.Shapes.{Constraints, set_constraints}
use understory.App.Shortcuts.{at_rest, new_text, target_of, on_viewport_change}
use understory.App.Shortcuts.Shown.{
  Event, viewport, mouse, frame, Shows, Follows, last_size, last_look, last_mouse, run,
  one_state_shown,
}
use understory.App.WidgetTests.{origin, square, widgets, window}
use understory.App.Window.{esc}
use understory.App.Window.Frames.{Moving, IsPlayer, press_key, advance_frames, escape_holds}
use understory.App.Window.Viewport.{Layout, but_scroller, viewport_event, last_size_counts}

abbrev small_size : Vector2 ℤ
small_size = at (pos 8) (pos 6)

abbrev large_size : Vector2 ℤ
large_size = at (pos 16) (pos 9)

abbrev small_window : Constraints ℤ (Vector2 ℤ)
small_window = set_constraints whole flat small_size

abbrev large_window : Constraints ℤ (Vector2 ℤ)
large_window = set_constraints whole flat large_size

-- The mouse comes over the text, the window grows, and a frame is drawn.
abbrev hover_and_grow : List (Event whole flat)
hover_and_grow = mouse (pos 1) true ∷ viewport large_window ∷ frame (pos 2) ∷ []

one_state_shown_example :
    Shows whole flat
      (last_size whole flat hover_and_grow small_window)
      square
      (last_look whole flat hover_and_grow
        (on_viewport_change whole flat small_window (new_text whole flat 0 square))
        (at_rest whole flat))
      (run whole flat hover_and_grow
        (on_viewport_change whole flat small_window (new_text whole flat 0 square)))
    × Follows whole flat (last_mouse whole flat hover_and_grow false) (
        run whole flat hover_and_grow
          (on_viewport_change whole flat small_window (new_text whole flat 0 square)))
one_state_shown_example = one_state_shown whole flat 0 square small_window hover_and_grow refl

-- The frame shows the large look.
large_shown :
    (run whole flat hover_and_grow
      (on_viewport_change whole flat small_window (new_text whole flat 0 square))).text_color.alpha
    ≡ (target_of whole flat true).text_opacity
unfolding run new_text
large_shown = refl

abbrev layout : Layout ℤ (Vector2 ℤ) ℕ
layout = record {
  constraints = small_window;
  resolution = small_size;
  projection_world = origin;
  transformation_projection_debug_text = origin;
  app = window;
  button = widgets.button;
  panel = widgets.panel;
  text = new_text whole flat 0 square;
}

last_size_counts_example :
    but_scroller whole flat widgets.panel.scroller
      (viewport_event whole flat large_size (viewport_event whole flat small_size layout))
    ≡ but_scroller whole flat widgets.panel.scroller (viewport_event whole flat large_size layout)
last_size_counts_example =
    last_size_counts whole flat small_size large_size widgets.panel.scroller layout

still_stays :
    (t : ℤ) (p : ℕ) → flat.is_playing p ≡ false → flat.is_playing (flat.advance t p) ≡ false
still_stays t p e = ground arith

flat-IsPlayer : IsPlayer whole flat
flat-IsPlayer = record { stopped = λ p. refl; stays = still_stays; zero = (unfold ◌-ℤ◌ in refl) }

-- The map has been moved, and both axes have speed.
abbrev moving : Moving ℤ (Vector2 ℤ) ℕ
moving = record {
  app = record window { transformation_world = at (pos 4) (pos 5) };
  x = record { speed = pos 1; time_passed = pos 1 };
  y = record { speed = pos 1; time_passed = pos 1 };
}

escape_holds_example :
    (advance_frames whole flat
      ((pos 1, pos 1) ∷ (pos 2, pos 1) ∷ [])
      (press_key whole flat esc false moving)).app.transformation_world
    ≡ flat.identity
escape_holds_example =
    escape_holds whole flat false ((pos 1, pos 1) ∷ (pos 2, pos 1) ∷ []) moving flat-IsPlayer
