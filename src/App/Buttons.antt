-- ===== src/App/Buttons.antt =====
-- src/app/widgets/base/Toggleable.hpp, with AtomSelectorButton.hpp of src/app/widgets/atomSelector: the
-- button that opens the panel, without its drawing. The toggle callback of a button is a number of calls
-- here, each with its argument.
use understory.Base.{Bool, true, false, not, ◌||◌, List, [], ◌∷◌, ◌++◌, if◌then◌else◌}
use understory.Base.Integers.{negsuc}
use understory.App.Magnum.{Float, Magnum, Vector2, Range2D, literal}
use understory.App.Shapes.{transformed, uniform}
use understory.App.Animation.{
  Animator, update_animation_and_play, advance_player, default_animation_callback_v,
  is_animation_playing,
}

pub record Button : Type 0 where
  pub is_toggled : Bool
  pub is_pre_toggled : Bool
  -- The arguments of the toggle callback so far, oldest first.
  pub called : List Bool

unfoldable pub new_button : Button
new_button = record { is_toggled = false; is_pre_toggled = false; called = [] }

-- `Toggleable::toggle`, with `Button::_onToggled`.
unfoldable pub toggle : Button → Button
toggle b = record b { is_toggled = not b.is_toggled; called = b.called ++ not b.is_toggled ∷ [] }

unfoldable pub handle_press_event : Button → Button
handle_press_event b = record b { is_pre_toggled = true }

unfoldable pub handle_lock_release_event : Button → Button
unfolding toggle
handle_lock_release_event b = toggle (record b { is_pre_toggled = false })

pub data Cursor : Type 0 where
  arrow hand resize_all : Cursor

pub record AtomSelectorButton (W M P : Type 0) : Type 0 where
  pub button : Button
  pub is_hovered : Bool
  -- The white of a button that is hovered or toggled, not the black.
  pub white : Bool
  pub animator : Animator (Vector2 W) P
  pub responsive_matrix : M
  pub move_anim : M
  pub matrix : M
  pub shape : Range2D W
  pub geometry : Range2D W
  pub setup_done : Bool

module _ {W M P : Type 0} (f : Float W) (g : Magnum W M P) where
  unfoldable pub update_current_color : AtomSelectorButton W M P → AtomSelectorButton W M P
  update_current_color b = record b { white = b.is_hovered || b.button.is_toggled }

  -- One half.
  half : W
  half = f.div (literal f 1) (literal f 2)

  unfoldable pub half_button_size_height_axis : AtomSelectorButton W M P → Vector2 W
  unfolding half
  half_button_size_height_axis b = record { x = literal f 0; y = f.mul (g.size b.shape).y half }

  unfoldable pub target_of : AtomSelectorButton W M P → Vector2 W
  unfolding half_button_size_height_axis half
  target_of b =
      let axis = half_button_size_height_axis b in
      if b.button.is_toggled
      then g.mul_v axis (uniform f g (literal f 2))
      else if b.is_hovered
      then g.mul_v axis (uniform f g half)
      else uniform f g (literal f 0)

  unfoldable pub update_animation_y_target : W → AtomSelectorButton W M P → AtomSelectorButton W M P
  unfolding update_animation_and_play target_of
  update_animation_y_target now b = record b {
    animator =
        update_animation_and_play g (uniform f g (literal f 0)) now (g.translation_of b.move_anim)
          (target_of b) b.animator;
  }

  -- `_onHoverChanged`, with the flag that the hoverable has set before, and the window's cursor.
  unfoldable pub on_hover_changed :
      W → Bool → AtomSelectorButton W M P × Cursor → AtomSelectorButton W M P × Cursor
  unfolding update_current_color update_animation_y_target
  on_hover_changed now is_hovered (b, cursor) =
      let h = record b { is_hovered = is_hovered } in
      let changed = update_animation_y_target now (update_current_color h) in
      if b.button.is_pre_toggled then (h, cursor) else (changed, if is_hovered then hand else arrow)

  -- A release of the locked button: `toggle` with `AtomSelectorButton::_onToggled`.
  unfoldable pub released : W → AtomSelectorButton W M P → AtomSelectorButton W M P
  unfolding handle_lock_release_event update_current_color update_animation_y_target
  released now b =
      update_animation_y_target now
        (update_current_color (record b { button = handle_lock_release_event b.button }))

  unfoldable pub pressed : AtomSelectorButton W M P → AtomSelectorButton W M P
  unfolding handle_press_event
  pressed b = record b { button = handle_press_event b.button }

  unfoldable pub update_geometry : AtomSelectorButton W M P → AtomSelectorButton W M P
  unfolding transformed
  update_geometry b =
      let m = g.product b.responsive_matrix b.move_anim in
      record b { matrix = m; geometry = transformed g m b.shape }

  -- The square from (0, 0) to (0.1, 0.1).
  unfoldable pub available_space_changed : AtomSelectorButton W M P → AtomSelectorButton W M P
  unfolding update_geometry
  available_space_changed b =
      let shaped = record b {
        shape = record {
          min = uniform f g (literal f 0);
          max = uniform f g (f.div (literal f 1) (literal f 10));
        };
      } in
      if b.setup_done then b else record (update_geometry shaped) { setup_done = true }

  unfoldable pub on_viewport_change :
      Vector2 W → M → AtomSelectorButton W M P → AtomSelectorButton W M P
  unfolding available_space_changed half_button_size_height_axis update_geometry
  on_viewport_change pixel_size proj_matrix b =
      let c = available_space_changed b in
      let axis = half_button_size_height_axis c in
      let left_padding = f.mul (f.mul pixel_size.x (literal f 2)) (literal f 15) in
      let ducked = g.translation (record { x = f.neg axis.x; y = f.neg axis.y }) in
      update_geometry (record c {
        responsive_matrix =
            g.product
              (g.product
                (g.product
                  (g.translation (record { x = f.of_int (negsuc 0); y = f.of_int (negsuc 0) }))
                  (g.translation (record { x = left_padding; y = literal f 0 })))
                ducked)
              proj_matrix;
      })

  -- One frame: `_onAnimationProgress` moves the button.
  unfoldable pub advance_button : W → AtomSelectorButton W M P → AtomSelectorButton W M P
  unfolding advance_player default_animation_callback_v is_animation_playing update_geometry
  advance_button now b =
      let a = advance_player g (default_animation_callback_v g) now b.animator in
      let still = record b { animator = a } in
      let moved =
        update_geometry (record still { move_anim = g.translation a.anim_state.current }) in
      if is_animation_playing g a then moved else still
