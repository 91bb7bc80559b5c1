-- ===== src/App/Window.antt =====
-- The events of src/app/USApplication.cpp that reach the window itself, the background behind the
-- widgets, and its three helpers; and the two widgets that it joins, the button and the panel. The
-- numbers of a frame and of the clock are arguments.
pub mod Gestures
pub mod Widgets
pub mod Viewport
pub mod Frames
use understory.Base.{
  ℕ, ◌≡◌, refl, ap, ◌∙◌, Bool, true, false, not, ◌||◌, List, [], ◌∷◌, Option, none, some,
  if◌then◌else◌,
}
use understory.Base.Integers.{ℤ, negsuc}
use understory.App.Magnum.{Float, Magnum, Vector2, Range2D, literal}
use understory.App.Shapes.{uniform, to_float}
use understory.App.Animation
use understory.App.Animation.{Animator}
use understory.App.Keyboard
use understory.App.Keyboard.{Key, KeyEvent, KeyboardMoveHelper, key_event}
use understory.App.Mouse.{MouseState, has_left_double_click, is_left_click_dragging}
use understory.App.Press.{MouseButton, left_button, right_button, other_button}
use understory.App.MouseMoves.Helper
use understory.App.MouseMoves.Helper.{
  MouseMoveHelper, mouse_press_event, mouse_double_click_event, mouse_move_event,
  mouse_move_release_event,
}
use understory.App.Scale.{
  MapScaleHelper, ZoomKey, num_add, num_subtract, other, snapshot_zoom, mouse_scroll_event,
  key_press_event,
}
use understory.App.Selection.{SelectionRectState, init, update, end, as_rectangle, reset_selection}
use understory.App.Buttons.{Cursor, arrow, resize_all}

pub record UsApplication (W M P : Type 0) : Type 0 where
  pub transformation_world : M
  pub mmh : MouseMoveHelper W P
  pub msh : MapScaleHelper W P
  pub kmh : KeyboardMoveHelper
  pub selection_rect : SelectionRectState W
  pub cursor : Cursor

-- The keys that the program knows.
pub data AppKey : Type 0 where
  esc : AppKey
  zooms : ZoomKey → AppKey
  moves : Key → AppKey

-- A press or a move of the mouse.
pub record MouseAt : Type 0 where
  pub position : Vector2 ℤ
  pub relative_position : Vector2 ℤ
  pub framebuffer_size : Vector2 ℤ

unfoldable pub zoom_key : AppKey → ZoomKey
zoom_key esc = other
zoom_key (zooms key) = key
zoom_key (moves key) = other

unfoldable pub move_key : AppKey → Key
move_key esc = Keyboard.other
move_key (zooms key) = Keyboard.other
move_key (moves key) = key

module _ {W M P : Type 0} (f : Float W) (g : Magnum W M P) where
  -- `_mmh` excludes `_kmh` while it plays: its start stops the other.
  unfoldable pub with_mouse_animation :
      MouseMoveHelper W P → UsApplication W M P → UsApplication W M P
  unfolding Keyboard.stop_anim
  with_mouse_animation mmh a = record a { mmh = mmh; kmh = Keyboard.stop_anim }

  unfoldable pub handle_scroll_event : W → W → MouseAt → UsApplication W M P → UsApplication W M P
  unfolding mouse_scroll_event
  handle_scroll_event now direction at a = record a {
    msh =
        mouse_scroll_event f g now direction at.position at.framebuffer_size a.transformation_world
          a.msh;
  }

  unfoldable pub handle_press_event :
      W → MouseButton → MouseAt → MouseState → UsApplication W M P → UsApplication W M P
  unfolding mouse_press_event mouse_double_click_event with_mouse_animation init
  handle_press_event now left_button at mouse_state a =
      let stopped = record a { mmh = mouse_press_event f g a.mmh } in
      let centered =
        with_mouse_animation
          (mouse_double_click_event f g now at.position at.framebuffer_size a.transformation_world
            stopped.mmh)
          stopped in
      if has_left_double_click mouse_state then centered else stopped
  handle_press_event now right_button at mouse_state a = record a {
    selection_rect = init f g at.position at.framebuffer_size a.selection_rect;
  }
  handle_press_event now other_button at mouse_state a = a

  unfoldable pub handle_lock_release_event :
      W → ℤ → MouseButton → MouseAt → MouseState → UsApplication W M P → UsApplication W M P
  unfolding mouse_move_release_event with_mouse_animation end as_rectangle snapshot_zoom
  handle_lock_release_event now clock left_button at mouse_state a =
      let released =
        with_mouse_animation (mouse_move_release_event f g now clock a.transformation_world a.mmh)
          a in
      if is_left_click_dragging mouse_state then record released { cursor = arrow } else a
  handle_lock_release_event now clock right_button at mouse_state a =
      let selected = end f g at.position at.framebuffer_size a.selection_rect in
      let zoomed = record a {
        selection_rect = selected;
        msh = snapshot_zoom f g now (as_rectangle f g selected) a.transformation_world a.msh;
      } in
      if a.selection_rect.is_selecting then zoomed else a
  handle_lock_release_event now clock other_button at mouse_state a = a

  moved : MouseMoveHelper W P × M → UsApplication W M P → UsApplication W M P
  moved (mmh, world) a = record a { cursor = resize_all; mmh = mmh; transformation_world = world }

  unfoldable pub handle_lock_move_event :
      ℤ → MouseAt → MouseState → UsApplication W M P → UsApplication W M P
  unfolding moved mouse_move_event update
  handle_lock_move_event clock at mouse_state a =
      let dragged =
        moved
          (mouse_move_event f g clock at.relative_position at.framebuffer_size
            a.transformation_world a.mmh)
          a in
      let selecting = record a {
        selection_rect = update f g at.position at.framebuffer_size a.selection_rect;
      } in
      if is_left_click_dragging mouse_state
      then dragged
      else if a.selection_rect.is_selecting
      then selecting
      else a

  unfoldable pub reset_world_matrix : UsApplication W M P → UsApplication W M P
  unfolding Helper.stop_anim Animation.stop_anim Keyboard.stop_anim
  reset_world_matrix a = record a {
    mmh = Helper.stop_anim f g a.mmh;
    msh = record a.msh { animator = Animation.stop_anim g a.msh.animator };
    kmh = Keyboard.stop_anim;
    transformation_world = g.identity;
  }

  zoomed_by_key : MapScaleHelper W P × M → UsApplication W M P → UsApplication W M P
  zoomed_by_key (msh, world) a = record a { msh = msh; transformation_world = world }

  unfoldable pub escaped : AppKey → UsApplication W M P → UsApplication W M P
  unfolding reset_world_matrix
  escaped esc a = reset_world_matrix a
  escaped (zooms key) a = a
  escaped (moves key) a = a

  unfoldable pub key_press : AppKey → Bool → UsApplication W M P → UsApplication W M P
  unfolding key_event zoomed_by_key key_press_event escaped move_key zoom_key
  key_press key is_repeated a =
      let k = record a {
        kmh =
            key_event (record { key = move_key key; is_press = true; is_repeated = is_repeated })
              a.kmh;
      } in
      escaped key
        (zoomed_by_key (key_press_event f g (zoom_key key) k.transformation_world k.msh) k)

  unfoldable pub key_release : AppKey → Bool → UsApplication W M P → UsApplication W M P
  unfolding key_event move_key
  key_release key is_repeated a = record a {
    kmh =
        key_event (record { key = move_key key; is_press = false; is_repeated = is_repeated })
          a.kmh;
  }

  -- What `viewportEvent` does to the selection.
  unfoldable pub viewport_event : UsApplication W M P → UsApplication W M P
  unfolding reset_selection
  viewport_event a = record a { selection_rect = reset_selection f g a.selection_rect }

  -- The place of the cursor, from -1 to 1 on each axis.
  unfoldable pub cursor_position : Vector2 ℤ → Vector2 ℤ → Vector2 W
  cursor_position position framebuffer_size =
      let fs = to_float f g framebuffer_size in
      g.mul_v
        (g.div_v (g.sub_v (to_float f g position) (g.div_v fs (uniform f g (literal f 2)))) fs)
        (record { x = literal f 2; y = f.of_int (negsuc 1) })
