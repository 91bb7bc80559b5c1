-- ===== src/App/Scroll.antt =====
-- src/app/widgets/scroll, and the widgets' sides of src/app/widgets/base/Constraints.hpp:
-- Scrollable.hpp here; Scissorable.cpp, ScrollerHandle.cpp, Scroller.cpp and ScrollablePanel.cpp in the
-- modules below.
pub mod Content
pub mod Handle
pub mod Grid
pub mod Scroller
pub mod Panel
use understory.Base.{◌≡◌, Bool, true, false}
use understory.Base.Integers.{ℤ, pos}
use understory.App.Magnum.{Float, Magnum, Vector2, Range2D, literal}
use understory.App.Animation.{
  State, Animator, update_animation_and_play, set_animation_keyframe, default_animation_callback,
  advance, advance_player-to, default_animation_callback-to,
}

pub data StickTo : Type 0 where
  left top right bottom : StickTo

pub data GrowableAxis : Type 0 where
  width height : GrowableAxis

unfoldable pub get_growable_axis : StickTo → GrowableAxis
get_growable_axis left = height
get_growable_axis right = height
get_growable_axis top = width
get_growable_axis bottom = width

-- The two overloads of `_extractScrollableSize` for a vector, of floats or of ints.
unfoldable pub extract_scrollable_size : {A : Type 0} → GrowableAxis → Vector2 A → A
extract_scrollable_size width vect = vect.x
extract_scrollable_size height vect = vect.y

pub record Scrollable (W M P : Type 0) : Type 0 where
  pub parent_stickness : StickTo
  pub growable_axis : GrowableAxis
  pub animator : Animator W P
  pub scrll_matrix : M

module _ {W M P : Type 0} (f : Float W) (g : Magnum W M P) where
  -- `Magnum::Vector2::yAxis` or `xAxis`.
  unfoldable pub axis_function : StickTo → W → Vector2 W
  axis_function left val = record { x = literal f 0; y = val }
  axis_function right val = record { x = literal f 0; y = val }
  axis_function top val = record { x = val; y = literal f 0 }
  axis_function bottom val = record { x = val; y = literal f 0 }

  unfoldable pub scroll_translate : StickTo → W → M
  unfolding axis_function
  scroll_translate stickness val = g.translation (axis_function stickness val)

  unfoldable pub animate_scroll_by_tr : W → W → Scrollable W M P → Scrollable W M P
  unfolding update_animation_and_play
  animate_scroll_by_tr previous_frame_time tr s = record s {
    animator =
        update_animation_and_play g (literal f 0) previous_frame_time s.animator.anim_state.current
          tr s.animator;
  }

  -- `_onAnimationProgress`, which replaces the matrix.
  unfoldable pub on_scroll_progress : StickTo → State W → M → M
  unfolding scroll_translate
  on_scroll_progress stickness state matrix = scroll_translate stickness state.current

  -- The keyframe, seen at once.
  unfoldable pub inplace_scroll_to : W → Scrollable W M P → Scrollable W M P
  unfolding set_animation_keyframe on_scroll_progress
  inplace_scroll_to tr s =
      let a = set_animation_keyframe g tr s.animator in
      record s {
        animator = a;
        scrll_matrix = on_scroll_progress s.parent_stickness a.anim_state s.scrll_matrix;
      }

  unfoldable pub advance_scroll : W → Scrollable W M P → Scrollable W M P
  unfolding advance default_animation_callback on_scroll_progress
  advance_scroll previous_frame_time s =
      let (a, matrix) =
        advance g (default_animation_callback g) (on_scroll_progress s.parent_stickness)
          previous_frame_time s.animator s.scrll_matrix in
      record s { animator = a; scrll_matrix = matrix }

  pub advance_scroll-to :
      (now : W) (s : Scrollable W M P)
      → (advance_scroll now s).animator.anim_state.to ≡ s.animator.anim_state.to
  unfolding advance_scroll advance
  advance_scroll-to now s =
      advance_player-to g (default_animation_callback g) now s.animator
        (default_animation_callback-to g)
