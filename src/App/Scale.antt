-- ===== src/App/Scale.antt =====
-- src/app/widgets/navigation/MapScaleHelper.hpp. The world's matrix, which other helpers change too, is
-- an argument; so are the time of the frame and what an event says.
pub mod Range
use understory.Base.{
  ◌≡◌, refl, ap, ◌∙◌, Bool, true, false, not, Bool-cases, inl, inr, Option, none, some, List, [],
  ◌∷◌, if◌then◌else◌,
}
use understory.Base.Integers.{ℤ, pos, negsuc}
use understory.App.Magnum.{Float, Magnum, Vector2, Range2D, literal, IsIrreflexive}
use understory.App.Shapes.{uniform}
use understory.App.Animation.{
  State, Animator, stop_anim, start_anim, update_animation_and_play, advance, advance_player,
  advance_player-to,
}
use understory.App.MouseMoves.{translated_vector_abs}

pub record ScrollAnimStateComponent (W : Type 0) : Type 0 where
  pub translation : Vector2 W
  pub scaling : Vector2 W

pub record MapScaleHelper (W P : Type 0) : Type 0 where
  pub animator : Animator (ScrollAnimStateComponent W) P
  pub zoom_accuracy : W

pub data ZoomAccuracy : Type 0 where
  scroll snapshot : ZoomAccuracy

pub data ZoomKey : Type 0 where
  num_add num_subtract other : ZoomKey

module _ {W M P : Type 0} (f : Float W) (g : Magnum W M P) where
  -- MIN_SCALE is 0.03125, a thirty-second.
  abbrev pub max_scale : W
  max_scale = literal f 32

  abbrev pub min_scale : W
  min_scale = f.div (literal f 1) (literal f 32)

  origin : Vector2 W
  origin = uniform f g (literal f 0)

  unfoldable pub get_zoom_accuracy : ZoomAccuracy → W
  get_zoom_accuracy scroll = f.div (literal f 1) (literal f 2)
  get_zoom_accuracy snapshot = literal f 1

  unfoldable pub define_zoom_accuracy : ZoomAccuracy → MapScaleHelper W P → MapScaleHelper W P
  unfolding get_zoom_accuracy
  define_zoom_accuracy accuracy_type h = record h {
    zoom_accuracy = get_zoom_accuracy accuracy_type;
  }

  -- DELTA_BY_OFFLINE is 2.
  unfoldable pub get_scroll_delta_vector : W → Vector2 W
  get_scroll_delta_vector direction =
      if f.lt direction (literal f 0)
      then uniform f g (f.div (literal f 1) (literal f 2))
      else uniform f g (literal f 2)

  unfoldable pub threshold_scaling : Vector2 W → Vector2 W
  threshold_scaling target_scale =
      if f.lt target_scale.x min_scale
      then uniform f g min_scale
      else if f.lt max_scale target_scale.x
      then uniform f g max_scale
      else target_scale

  unfoldable pub scaling_vector_from_direction : W → Bool → M → Vector2 W
  unfolding get_scroll_delta_vector threshold_scaling
  scaling_vector_from_direction direction as_factor matrix =
      let from_scaling = g.scaling_of matrix in
      let target_scale =
        threshold_scaling (g.mul_v from_scaling (get_scroll_delta_vector direction)) in
      if as_factor then g.div_v target_scale from_scaling else target_scale

  played :
      W
      → ScrollAnimStateComponent W
      → ScrollAnimStateComponent W
      → MapScaleHelper W P
      → MapScaleHelper W P
  unfolding update_animation_and_play origin
  played now from to h = record h {
    animator =
        update_animation_and_play g (record { translation = origin; scaling = origin }) now from to
          h.animator;
  }

  unfoldable pub snapshot_zoom : W → Range2D W → M → MapScaleHelper W P → MapScaleHelper W P
  unfolding define_zoom_accuracy threshold_scaling played origin
  snapshot_zoom now zoom_rect matrix h =
      let scaling_factor = f.div (literal f 1) (f.abs (g.size zoom_rect).y) in
      let from = g.scaling_of matrix in
      played now (record { translation = origin; scaling = from })
        (record {
          translation = g.mul_v (g.center zoom_rect) (uniform f g (f.of_int (negsuc 0)));
          scaling = threshold_scaling (g.mul_v from (uniform f g scaling_factor));
        })
        (define_zoom_accuracy snapshot h)

  -- A scroll by `direction`, at a position of the mouse.
  unfoldable pub mouse_scroll_event :
      W → W → Vector2 ℤ → Vector2 ℤ → M → MapScaleHelper W P → MapScaleHelper W P
  unfolding scaling_vector_from_direction define_zoom_accuracy played origin translated_vector_abs
  mouse_scroll_event now direction position framebuffer_size matrix h =
      let from : ScrollAnimStateComponent W = record {
        translation = origin;
        scaling = g.scaling_of matrix;
      } in
      let scaling = scaling_vector_from_direction direction false matrix in
      let zoom_in =
        played now from
          (record {
            translation = translated_vector_abs f g position framebuffer_size;
            scaling = scaling;
          })
          (define_zoom_accuracy scroll h) in
      let zoom_out = played now from (record { translation = origin; scaling = scaling }) h in
      if f.eq direction (literal f 0)
      then h
      else if f.lt (literal f 0) direction
      then zoom_in
      else zoom_out

  unfoldable pub instant_zoom : ℤ → M → MapScaleHelper W P → MapScaleHelper W P × M
  unfolding stop_anim scaling_vector_from_direction
  instant_zoom direction matrix h = (
    record h { animator = stop_anim g h.animator },
    g.product (g.scaling (scaling_vector_from_direction (f.of_int direction) true matrix)) matrix,
  )

  unfoldable pub key_press_event : ZoomKey → M → MapScaleHelper W P → MapScaleHelper W P × M
  unfolding instant_zoom
  key_press_event num_add matrix h = instant_zoom (pos 1) matrix h
  key_press_event num_subtract matrix h = instant_zoom (negsuc 0) matrix h
  key_press_event other matrix h = (h, matrix)

  unfoldable pub default_animation_callback :
      W → State (ScrollAnimStateComponent W) → State (ScrollAnimStateComponent W)
  default_animation_callback prc state =
      let translated = record state {
        previous = record state.previous { translation = state.current.translation };
        current = record state.current {
          translation =
              g.lerp_v state.from.translation state.to.translation (g.exponential_out prc);
        };
      } in
      let s = if not (g.is_zero state.to.translation) then translated else state in
      record s {
        current = record s.current {
          scaling = g.lerp_v s.from.scaling s.to.scaling (g.cubic_out prc);
        };
      }

  unfoldable pub on_animation_progress : W → State (ScrollAnimStateComponent W) → M → M
  on_animation_progress zoom_accuracy state matrix =
      let current_sc = state.current.scaling in
      let scaled =
        if not (g.is_zero current_sc)
        then g.product (g.scaling (g.div_v current_sc (g.scaling_of matrix))) matrix
        else matrix in
      let step =
        g.div_v (g.sub_v state.current.translation state.previous.translation) state.from.scaling in
      if not (g.is_zero state.current.translation)
      then g.product (g.translation (g.mul_v (g.mul_v step current_sc) (uniform f g zoom_accuracy)))
          scaled
      else scaled

  unfoldable pub advance_scale : W → M → MapScaleHelper W P → MapScaleHelper W P × M
  unfolding advance default_animation_callback on_animation_progress
  advance_scale now matrix h =
      let (a, m) =
        advance g default_animation_callback (on_animation_progress h.zoom_accuracy) now h.animator
          matrix in
      (record h { animator = a }, m)
