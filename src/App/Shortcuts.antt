-- ===== src/App/Shortcuts.antt =====
-- src/app/widgets/text/ShortcutsText.hpp, without its drawing: the help text in the corner, which grows
-- while the mouse is over it. The pixels' shape of the text is the renderer's, an argument, and so are
-- the times.
pub mod Shown
use understory.Base.{ℕ, Bool, true, false, not, if◌then◌else◌}
use understory.App.Magnum.{Float, Magnum, Vector2, Range2D, literal}
use understory.App.Shapes.{Constraints, transformed, uniform}
use understory.App.Animation.{
  State, Animator, update_animation_and_play, advance_player, is_animation_playing,
}

pub record SthStateComponent (W : Type 0) : Type 0 where
  pub scaling : Vector2 W
  pub text_opacity : W
  pub hauler_opacity : W

pub record Color4 (W : Type 0) : Type 0 where
  pub red : W
  pub green : W
  pub blue : W
  pub alpha : W

pub record ShortcutsText (W M P : Type 0) : Type 0 where
  pub enlighter_color : Color4 W
  pub text_color : Color4 W
  pub matrix : M
  pub move_anim : M
  pub responsive_matrix : M
  pub animator : Animator (SthStateComponent W) P
  pub shape : Range2D W
  pub geometry : Range2D W
  pub is_hovered : Bool

module _ {W M P : Type 0} (f : Float W) (g : Magnum W M P) where
  -- Hundredths.
  hundredths : ℕ → W
  hundredths n = f.div (literal f n) (literal f 100)

  unfoldable pub at_rest : SthStateComponent W
  unfolding hundredths
  at_rest = record {
    scaling = uniform f g (literal f 1);
    text_opacity = hundredths 50;
    hauler_opacity = literal f 0;
  }

  unfoldable pub default_animation_callback :
      W → State (SthStateComponent W) → State (SthStateComponent W)
  default_animation_callback prc state =
      let t = g.cubic_out prc in
      record state {
        current = record {
          scaling = g.lerp_v state.from.scaling state.to.scaling t;
          hauler_opacity = g.lerp state.from.hauler_opacity state.to.hauler_opacity t;
          text_opacity = g.lerp state.from.text_opacity state.to.text_opacity t;
        };
      }

  -- A grey, `0x00000_rgbf` or `0xffffff_rgbf`.
  grey : W → W → Color4 W
  grey level alpha = record { red = level; green = level; blue = level; alpha = alpha }

  unfoldable pub update_colors : ShortcutsText W M P → ShortcutsText W M P
  unfolding grey
  update_colors t =
      let current = t.animator.anim_state.current in
      record t {
        enlighter_color = grey (literal f 0) current.hauler_opacity;
        text_color = grey (literal f 1) current.text_opacity;
      }

  unfoldable pub update_geometry : ShortcutsText W M P → ShortcutsText W M P
  unfolding transformed
  update_geometry t =
      let m = g.product t.responsive_matrix t.move_anim in
      record t { matrix = m; geometry = transformed g m t.shape }

  -- The constructor; a new player is an argument.
  unfoldable pub new_text : P → Range2D W → ShortcutsText W M P
  unfolding update_colors at_rest grey
  new_text player pixels_shape =
      let nothing = uniform f g (literal f 0) in
      let clear = grey (literal f 0) (literal f 1) in
      update_colors (record {
        enlighter_color = clear;
        text_color = clear;
        matrix = g.identity;
        move_anim = g.identity;
        responsive_matrix = g.identity;
        animator = record {
          anim_state = record {
            from = at_rest;
            to = at_rest;
            current = at_rest;
            previous = at_rest;
          };
          player = player;
        };
        shape = pixels_shape;
        geometry = record { min = nothing; max = nothing };
        is_hovered = false;
      })

  -- The top right corner of the window, five pixels off each side.
  unfoldable pub corner_of : Constraints W M → M
  corner_of c = g.product c.pixel_proj_matrix (
      g.translation (
        g.mul_v c.ws (
          g.sub_v (uniform f g (f.div (literal f 1) (literal f 2)))
            (g.mul_v c.pixel_size (uniform f g (literal f 5))))))

  unfoldable pub on_viewport_change : Constraints W M → ShortcutsText W M P → ShortcutsText W M P
  unfolding corner_of update_geometry
  on_viewport_change c t = update_geometry (record t { responsive_matrix = corner_of c })

  unfoldable pub target_of : Bool → SthStateComponent W
  unfolding at_rest hundredths
  target_of is_hovered =
      if is_hovered
      then record {
        scaling = uniform f g (literal f 2);
        hauler_opacity = hundredths 85;
        text_opacity = literal f 1;
      }
      else at_rest

  unfoldable pub on_hover_changed : W → Bool → ShortcutsText W M P → ShortcutsText W M P
  unfolding update_animation_and_play at_rest target_of
  on_hover_changed now is_hovered t = record t {
    animator =
        update_animation_and_play g at_rest now t.animator.anim_state.current (target_of is_hovered)
          t.animator;
  }

  is_changed : Bool → Bool → Bool
  is_changed true b = not b
  is_changed false b = b

  -- `Hoverable::_checkIfMouseOver`, told whether the geometry contains the cursor.
  unfoldable pub check_if_mouse_over_text : W → Bool → ShortcutsText W M P → ShortcutsText W M P
  unfolding on_hover_changed is_changed
  check_if_mouse_over_text now hovered t =
      let changed = on_hover_changed now hovered (record t { is_hovered = hovered }) in
      if is_changed t.is_hovered hovered then changed else t

  unfoldable pub on_animation_progress : ShortcutsText W M P → ShortcutsText W M P
  unfolding update_colors update_geometry
  on_animation_progress t =
      update_geometry
        (update_colors (record t { move_anim = g.scaling t.animator.anim_state.current.scaling }))

  -- One frame.
  unfoldable pub advance_text : W → ShortcutsText W M P → ShortcutsText W M P
  unfolding advance_player default_animation_callback is_animation_playing on_animation_progress
  advance_text now t =
      let still = record t {
        animator = advance_player g default_animation_callback now t.animator;
      } in
      let progressed = on_animation_progress still in
      if is_animation_playing g still.animator then progressed else still
