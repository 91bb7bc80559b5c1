-- ===== src/App/WidgetTests.antt =====
-- Runs of the widgets and the window of src/app, with the numbers and matrices of App/Whole.
use understory.App.Hover.{Widgets, no_widget, first_widget, hoverable, container}
use understory.App.Bubble.{
  parents_of, propagate_event, propagate_scroll_event, NoneHandles, scroll_reaches,
}
use understory.Base.{ltb, ◌++◌, ◌≡◌, refl, ◌||◌, ℕ, true, false, none, some, List, [], ◌∷◌}
use understory.Base.Integers.{ℤ, pos, negsuc}
use understory.App.Magnum.{Vector2, Range2D}
use understory.App.Whole.{whole, flat, at}
use understory.App.Animation.{Animator, is_animation_playing}
use understory.App.Mouse.{new_mouse_state}
use understory.App.Press.{right_button}
use understory.App.Selection.{Corners}
use understory.App.Scale.{ScrollAnimStateComponent}
use understory.App.Buttons.{arrow, hand}
use understory.App.Scroll.{Scrollable, left, right, height}
use understory.App.Scroll.Grid.{AtomSelectorGrid}
use understory.App.Scroll.Panel.{ScrollablePanel, may_draw}
use understory.App.Scroll.Panel.Together
use understory.App.Scroll.Panel.Together.{
  IsTogether, wheel, drag, toggles, frame, content_and_handle_agree,
}
use understory.App.Window.{UsApplication, MouseAt, esc}
use understory.App.Window.Gestures
use understory.App.Window.Gestures.{selecting_iff_held, selecting_after_all}
use understory.App.Window.Widgets as Joined
use understory.App.Window.Widgets.{ButtonAndPanel, panel_follows_button}

abbrev pub origin : Vector2 ℤ
origin = at (pos 0) (pos 0)

abbrev pub square : Range2D ℤ
square = record { min = origin; max = at (pos 9) (pos 9) }

abbrev still : Scrollable ℤ (Vector2 ℤ) ℕ
still = record {
  parent_stickness = left;
  growable_axis = height;
  animator = record {
    anim_state = record { from = pos 0; to = pos 0; current = pos 0; previous = pos 0 };
    player = 0;
  };
  scrll_matrix = origin;
}

abbrev still_vector : Animator (Vector2 ℤ) ℕ
still_vector = record {
  anim_state = record { from = origin; to = origin; current = origin; previous = origin };
  player = 0;
}

abbrev grid : AtomSelectorGrid ℤ (Vector2 ℤ) ℕ
grid = record {
  scissorable = record {
    scrollable = still;
    translation_factor = pos 0;
    canvas_size = pos 10;
    content_size = pos 75;
  };
  shape = square;
  geometry = square;
  vertices = [];
  has_parent_matrix = false;
}

abbrev panel : ScrollablePanel ℤ (Vector2 ℤ) ℕ
panel = record {
  stickness = left;
  thickness = pos 6;
  is_toggled = false;
  animator = still_vector;
  matrix = origin;
  setup_done = false;
  shape = square;
  geometry = square;
  scroller = record {
    stickness = right;
    handle = record {
      scrollable = still;
      matrix = origin;
      has_parent_matrix = false;
      translation_gap = pos 4;
      shape = square;
      geometry = square;
      geom_scroller_px = square;
      vertices = [];
      is_hovered = false;
      pre_toggling = false;
      toggled = false;
      active_color = false;
    };
    content_big_enough = true;
    matrix = origin;
    shape = square;
    geometry = square;
    geom_ph_px = square;
    vertices_ph = [];
  };
  content = some grid;
}

abbrev scroll_and_drag : List (Together.Event whole flat)
scroll_and_drag =
    toggles (pos 1)
    ∷ frame (at (pos 1) (pos 1)) (pos 2)
    ∷ drag (at (pos 1) (pos 1)) (pos 3) (at (pos 0) (pos 2))
    ∷ []

content_and_handle_agree_example :
    (q : ScrollablePanel ℤ (Vector2 ℤ) ℕ) × (Together.run whole flat
        (wheel (pos 0) (at (pos 0) (negsuc 4)) ∷ scroll_and_drag)
        panel
      ≡ some q)
    × IsTogether whole flat q
content_and_handle_agree_example =
    content_and_handle_agree whole flat (pos 0) (at (pos 0) (negsuc 4)) scroll_and_drag grid panel
      refl

abbrev pub widgets : ButtonAndPanel ℤ (Vector2 ℤ) ℕ
widgets = record {
  button = record {
    button = record { is_toggled = false; is_pre_toggled = false; called = [] };
    is_hovered = true;
    white = true;
    animator = still_vector;
    responsive_matrix = origin;
    move_anim = origin;
    matrix = origin;
    shape = square;
    geometry = square;
    setup_done = true;
  };
  panel = panel;
  cursor = hand;
}

abbrev opening : List (Joined.Event whole flat)
opening =
    Joined.presses
    ∷ Joined.releases (pos 1)
    ∷ Joined.frame (at (pos 1) (pos 1)) (pos 2)
    ∷ Joined.wheel (pos 3) (at (pos 0) (negsuc 0))
    ∷ []

panel_follows_button_example :
    (v : ButtonAndPanel ℤ (Vector2 ℤ) ℕ) × (Joined.run whole flat opening widgets ≡ some v)
    × ((may_draw whole flat v.panel).panel
        ≡ (v.button.button.is_toggled || is_animation_playing flat v.panel.animator))
panel_follows_button_example =
    panel_follows_button whole flat opening widgets refl refl (grid, refl)

abbrev corners : Corners ℤ
corners = record { first = origin; second = origin; third = origin; fourth = origin }

abbrev still_scale : ScrollAnimStateComponent ℤ
still_scale = record { translation = origin; scaling = origin }

abbrev pub window : UsApplication ℤ (Vector2 ℤ) ℕ
window = record {
  transformation_world = origin;
  mmh = record {
    animator = still_vector;
    mm = record {
      accel_buffer = [];
      accel_latest_update = pos 0;
      accel_cumulator = origin;
      accel_ms = pos 0;
      accel_buffer_count = 0;
      accel_ms_passed_total = pos 0;
      accel_ms_passed_last = pos 0;
      time_credits = pos 0;
    };
  };
  msh = record {
    animator = record {
      anim_state = record {
        from = still_scale;
        to = still_scale;
        current = still_scale;
        previous = still_scale;
      };
      player = 0;
    };
    zoom_accuracy = pos 1;
  };
  kmh = record {
    km = record {
      moving_left = false;
      moving_right = false;
      moving_up = false;
      moving_down = false;
      latest_v = false;
      latest_h = false;
    };
    x = record { current_direction = none; momentum_direction = none };
    y = record { current_direction = none; momentum_direction = none };
  };
  selection_rect = record {
    vertices = corners;
    p1_px = origin;
    p2_px = origin;
    is_selecting = false;
    buffer = corners;
    inner_rect = record { x = pos 0; y = pos 0; z = pos 0; w = pos 0 };
  };
  cursor = arrow;
}

abbrev mouse_at : MouseAt
mouse_at = record {
  position = at (pos 3) (pos 2);
  relative_position = at (pos 1) (pos 0);
  framebuffer_size = at (pos 9) (pos 9);
}

abbrev right_drag : List (Gestures.Event whole flat)
right_drag =
    Gestures.presses (pos 0) right_button mouse_at new_mouse_state
    ∷ Gestures.moves_mouse (pos 5) mouse_at new_mouse_state
    ∷ Gestures.presses_key esc false
    ∷ []

selecting_iff_held_example :
    (Gestures.run whole flat right_drag window).selection_rect.is_selecting ≡ true
selecting_iff_held_example = selecting_iff_held whole flat right_drag window

-- The window, number 0, with the panel, 1, which has the scroller, 2, and its handle, 3.
abbrev scroller_shapes : Widgets
scroller_shapes = first_widget (hoverable 3) no_widget

abbrev panel_shapes : Widgets
panel_shapes = first_widget (container 2 scroller_shapes) no_widget

abbrev window_shapes : Widgets
window_shapes = first_widget (container 1 panel_shapes) no_widget

scroll_reaches_example :
    (v : ℕ) × (before : List ℕ) × (after : List ℕ) × (propagate_scroll_event
        (λ i. ltb i 2)
        (some 3)
        (container 0 window_shapes)
      ≡ some v)
    × (parents_of 3 (container 0 window_shapes) ≡ before ++ v ∷ after)
    × NoneHandles (λ i. ltb i 2) before
    × (ltb v 2 ≡ true)
scroll_reaches_example =
    scroll_reaches (λ i. ltb i 2) 3 0 window_shapes refl (unfold parents_of in refl)

-- The handle does not handle a scroll, nor does the scroller: the panel does.
panel_scrolls : propagate_scroll_event (λ i. ltb i 2) (some 3) (container 0 window_shapes) ≡ some 1
unfolding propagate_scroll_event parents_of propagate_event
panel_scrolls = refl
