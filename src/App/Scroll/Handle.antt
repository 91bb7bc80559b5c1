-- ===== src/App/Scroll/Handle.antt =====
-- src/app/widgets/scroll/ScrollerHandle.cpp, without its drawing. The handle is a button, Toggleable.hpp of
-- src/app/widgets/base.
use understory.Base.{
  ◌≡◌, refl, Bool-cases, inl, inr, Bool, true, false, not, Option, none, some, if◌then◌else◌, List,
  [], ◌∷◌,
}
use understory.Base.Integers.{ℤ, nonzero}
use understory.App.Magnum.{Float, Magnum, Vector2, Range2D, literal}
use understory.App.Shapes.{transformed, shape_into_pixel}
use understory.App.Scroll.{
  Scrollable, GrowableAxis, width, height, extract_scrollable_size, animate_scroll_by_tr,
  inplace_scroll_to, advance_scroll, advance_scroll-to,
}

pub record ScrollerHandle (W M P : Type 0) : Type 0 where
  pub scrollable : Scrollable W M P
  pub matrix : M
  -- `_parentMatrix` is not null: it points to the panel's matrix, an argument where it is read.
  pub has_parent_matrix : Bool
  pub translation_gap : W
  pub shape : Range2D W
  pub geometry : Range2D W
  pub geom_scroller_px : Range2D W
  -- Bottom left, bottom right, top right, top left.
  pub vertices : List (Vector2 W)
  pub is_hovered : Bool
  pub pre_toggling : Bool
  pub toggled : Bool
  -- SCRLL_COLOR_ACTIVE, not SCRLL_COLOR_IDLE.
  pub active_color : Bool

module _ {W M P : Type 0} (f : Float W) (g : Magnum W M P) where
  placed : Vector2 W → M → ScrollerHandle W M P → ScrollerHandle W M P
  unfolding transformed shape_into_pixel
  placed pixel_size matrix h =
      let geometry = transformed g matrix h.shape in
      record h {
        matrix = matrix;
        geometry = geometry;
        geom_scroller_px = shape_into_pixel f g pixel_size geometry;
      }

  -- The first arguments are the size of a pixel and the panel's matrix.
  unfoldable pub update_geometry : Vector2 W → M → ScrollerHandle W M P → ScrollerHandle W M P
  unfolding placed
  update_geometry pixel_size panel_matrix h =
      let matrix =
        if h.has_parent_matrix
        then g.product panel_matrix h.scrollable.scrll_matrix
        else h.matrix in
      placed pixel_size matrix h

  unfoldable pub animate_by_percentage : W → W → ScrollerHandle W M P → ScrollerHandle W M P
  unfolding animate_scroll_by_tr
  animate_by_percentage now percent_translate h = record h {
    scrollable =
        animate_scroll_by_tr f g now (f.mul (f.neg h.translation_gap) percent_translate)
          h.scrollable;
  }

  unfoldable pub inplace_by_percentage :
      Vector2 W → M → W → ScrollerHandle W M P → ScrollerHandle W M P
  unfolding inplace_scroll_to update_geometry
  inplace_by_percentage pixel_size panel_matrix percent_translate h =
      update_geometry pixel_size panel_matrix (record h {
        scrollable =
            inplace_scroll_to f g (f.mul (f.neg h.translation_gap) percent_translate) h.scrollable;
      })

  resized : GrowableAxis → W → Range2D W → Range2D W
  resized height handle_size shape = record shape {
    min = record shape.min { y = f.sub (g.top_left shape).y handle_size };
  }
  resized width handle_size shape = record shape {
    max = record shape.max { x = f.add (g.top_left shape).x handle_size };
  }

  unfoldable pub update_size : Vector2 W → M → W → W → ScrollerHandle W M P → ScrollerHandle W M P
  unfolding resized update_geometry
  update_size pixel_size panel_matrix handle_size tr_gap h =
      let shape = resized h.scrollable.growable_axis handle_size h.shape in
      update_geometry pixel_size panel_matrix (record h {
        translation_gap = tr_gap;
        shape = shape;
        vertices =
            g.bottom_left shape ∷ g.bottom_right shape ∷ g.top_right shape ∷ g.top_left shape ∷ [];
      })

  -- One frame, with the geometry after the scroll.
  unfoldable pub advance_handle : Vector2 W → M → W → ScrollerHandle W M P → ScrollerHandle W M P
  unfolding advance_scroll update_geometry
  advance_handle pixel_size panel_matrix now h =
      let s = record h { scrollable = advance_scroll f g now h.scrollable } in
      let progressed = update_geometry pixel_size panel_matrix s in
      if g.is_playing s.scrollable.animator.player then progressed else s

  unfoldable pub update_scroll_color : ScrollerHandle W M P → ScrollerHandle W M P
  update_scroll_color h = record h { active_color = if h.is_hovered then true else false }

  -- `_onHoverChanged`, with the flag that the hoverable has set before.
  unfoldable pub on_hover_changed : Bool → ScrollerHandle W M P → ScrollerHandle W M P
  unfolding update_scroll_color
  on_hover_changed is_hovered h =
      let hovering = record h { is_hovered = is_hovered } in
      let coloured = update_scroll_color hovering in if h.pre_toggling then hovering else coloured

  -- `_onToggled`; the handle has no toggle callback.
  unfoldable pub on_toggled : ScrollerHandle W M P → ScrollerHandle W M P
  unfolding update_scroll_color
  on_toggled h = update_scroll_color h

  -- A press of the handle, and its release, after which it has been toggled.
  unfoldable pub pressed : ScrollerHandle W M P → ScrollerHandle W M P
  pressed h = record h { pre_toggling = true }

  unfoldable pub released : ScrollerHandle W M P → ScrollerHandle W M P
  unfolding on_toggled
  released h = on_toggled (record h { pre_toggling = false; toggled = not h.toggled })

  -- The argument of `scrollFromHandle`, unless the mouse did not move along the axis.
  unfoldable pub handle_lock_move_event : Vector2 W → Vector2 ℤ → ScrollerHandle W M P → Option W
  unfolding extract_scrollable_size
  handle_lock_move_event pixel_size relative_position h =
      let pixel_size_move = extract_scrollable_size h.scrollable.growable_axis relative_position in
      let scroll_pixel_size = extract_scrollable_size h.scrollable.growable_axis pixel_size in
      let tick_size = f.mul (f.mul (f.of_int pixel_size_move) scroll_pixel_size) (literal f 2) in
      if nonzero pixel_size_move then some (f.div tick_size h.translation_gap) else none

  unfoldable pub available_space_changed : Range2D W → ScrollerHandle W M P → ScrollerHandle W M P
  available_space_changed available_space h = record h { shape = available_space }

  unfoldable pub matrix_update_requested :
      Vector2 W → M → ScrollerHandle W M P → ScrollerHandle W M P
  unfolding update_geometry
  matrix_update_requested pixel_size panel_matrix h =
      update_geometry pixel_size panel_matrix (record h { has_parent_matrix = true })

  -- What places a handle and draws it does not change how far it goes.
  pub update_geometry_keeps :
      (pixel_size : Vector2 W) (panel_matrix : M) (h : ScrollerHandle W M P)
      → ((update_geometry pixel_size panel_matrix h).scrollable ≡ h.scrollable)
        × ((update_geometry pixel_size panel_matrix h).translation_gap ≡ h.translation_gap)
  unfolding update_geometry placed
  update_geometry_keeps pixel_size panel_matrix h = (refl, refl)

  pub matrix_update_requested_keeps :
      (pixel_size : Vector2 W) (panel_matrix : M) (h : ScrollerHandle W M P)
      → ((matrix_update_requested pixel_size panel_matrix h).scrollable ≡ h.scrollable)
        × ((matrix_update_requested pixel_size panel_matrix h).translation_gap ≡ h.translation_gap)
  unfolding matrix_update_requested update_geometry placed
  matrix_update_requested_keeps pixel_size panel_matrix h = (refl, refl)

  pub advance_handle_keeps :
      (pixel_size : Vector2 W) (panel_matrix : M) (now : W) (h : ScrollerHandle W M P)
      → ((advance_handle pixel_size panel_matrix now h).scrollable.animator.anim_state.to
          ≡ h.scrollable.animator.anim_state.to)
        × ((advance_handle pixel_size panel_matrix now h).translation_gap ≡ h.translation_gap)
  unfolding advance_handle update_geometry placed
  advance_handle_keeps pixel_size panel_matrix now h =
      elim (Bool-cases (g.is_playing (advance_scroll f g now h.scrollable).animator.player)) [
        | inl b ↦ rw b (advance_scroll-to f g now h.scrollable, refl)
        | inr b ↦ rw b (advance_scroll-to f g now h.scrollable, refl)
      ]
