-- ===== src/App/Scroll/Panel.antt =====
-- src/app/widgets/scroll/ScrollablePanel.cpp, without its drawing. A panel owns its scroller; its
-- content, once bound, is the grid. The pixel's size and the frame's time are arguments.
pub mod Together
pub mod Drawing
pub mod Resizing
use understory.Base.{
  ◌≡◌, refl, Bool, true, false, not, ◌&&◌, ◌||◌, Option, none, some, List, [], ◌∷◌, if◌then◌else◌,
  arith,
}
use understory.Base.Integers.{ℤ}
use understory.App.Magnum.{Float, Magnum, Vector2, Range2D, literal}
use understory.App.Shapes.{transformed, uniform}
use understory.App.Animation.{
  State, Animator, is_animation_playing, update_animation_and_play, default_animation_callback_v,
  advance, advance_player,
}
use understory.App.Scroll.{StickTo, left, top, right, bottom}
use understory.App.Scroll.Content.{
  Scissorable, scroll_by_offset, scroll_by_percent_tick, scroll_tick,
}
use understory.App.Scroll.Handle
use understory.App.Scroll.Handle.{
  ScrollerHandle, animate_by_percentage, inplace_by_percentage, handle_lock_move_event,
}
use understory.App.Scroll.Grid
use understory.App.Scroll.Grid.{AtomSelectorGrid}
use understory.App.Scroll.Scroller
use understory.App.Scroll.Scroller.{Scroller, on_content_ratio_changed}

pub record ScrollablePanel (W M P : Type 0) : Type 0 where
  pub stickness : StickTo
  pub thickness : W
  pub is_toggled : Bool
  pub animator : Animator (Vector2 W) P
  pub matrix : M
  pub setup_done : Bool
  pub shape : Range2D W
  pub geometry : Range2D W
  pub scroller : Scroller W M P
  pub content : Option (AtomSelectorGrid W M P)

-- What `mayDraw` draws: the panel and its content, and the scroller.
pub record Drawn : Type 0 where
  pub panel : Bool
  pub scroller : Bool

module _ {W M P : Type 0} (f : Float W) (g : Magnum W M P) where
  -- `_content` is not read where nothing is drawn.
  unfoldable pub may_draw : ScrollablePanel W M P → Drawn
  unfolding is_animation_playing Scroller.may_draw
  may_draw p =
      if not p.is_toggled && not (is_animation_playing g p.animator)
      then record { panel = false; scroller = false }
      else record { panel = true; scroller = Scroller.may_draw p.scroller }

  -- `bindContent`: the content is hoverable, so nothing is thrown.
  unfoldable pub bind_content :
      AtomSelectorGrid W M P → ScrollablePanel W M P → ScrollablePanel W M P
  bind_content content p = record p { content = some content }

  with_scissorable : AtomSelectorGrid W M P → W × Scissorable W M P → W × AtomSelectorGrid W M P
  with_scissorable content (prc, s) = (prc, record content { scissorable = s })

  scrolled_by : W → ScrollablePanel W M P → W × AtomSelectorGrid W M P → ScrollablePanel W M P
  unfolding animate_by_percentage
  scrolled_by now p (prc, content) = record p {
    content = some content;
    scroller = record p.scroller { handle = animate_by_percentage f g now prc p.scroller.handle };
  }

  scrolled_content :
      W
      → Vector2 W
      → ScrollablePanel W M P
      → Option (AtomSelectorGrid W M P)
      → Option (ScrollablePanel W M P)
  unfolding scrolled_by with_scissorable scroll_by_offset scroll_tick
  scrolled_content now offset p none = none
  scrolled_content now offset p (some content) = some (
      scrolled_by now p (
        with_scissorable content
          (scroll_by_offset f g (scroll_tick f g) now offset content.scissorable)))

  -- `none` where there is no content, a null pointer.
  unfoldable pub handle_scroll_event :
      W → Vector2 W → ScrollablePanel W M P → Option (ScrollablePanel W M P)
  unfolding scrolled_content
  handle_scroll_event now offset p = scrolled_content now offset p p.content

  dragged_by :
      Vector2 W → ScrollablePanel W M P → W × AtomSelectorGrid W M P → ScrollablePanel W M P
  unfolding inplace_by_percentage
  dragged_by pixel_size p (prc, content) = record p {
    content = some content;
    scroller = record p.scroller {
      handle = inplace_by_percentage f g pixel_size p.matrix prc p.scroller.handle;
    };
  }

  dragged_content :
      Vector2 W
      → W
      → W
      → ScrollablePanel W M P
      → Option (AtomSelectorGrid W M P)
      → Option (ScrollablePanel W M P)
  unfolding dragged_by with_scissorable scroll_by_percent_tick
  dragged_content pixel_size now prc_handle_tick p none = none
  dragged_content pixel_size now prc_handle_tick p (some content) = some (
      dragged_by pixel_size p (
        with_scissorable content
          (scroll_by_percent_tick f g now prc_handle_tick content.scissorable)))

  unfoldable pub scroll_from_handle :
      Vector2 W → W → W → ScrollablePanel W M P → Option (ScrollablePanel W M P)
  unfolding dragged_content
  scroll_from_handle pixel_size now prc_handle_tick p =
      dragged_content pixel_size now prc_handle_tick p p.content

  ticked : Vector2 W → W → ScrollablePanel W M P → Option W → Option (ScrollablePanel W M P)
  unfolding scroll_from_handle
  ticked pixel_size now p none = some p
  ticked pixel_size now p (some tick) = scroll_from_handle pixel_size now tick p

  -- A move of the mouse while the handle is held.
  unfoldable pub drag_handle :
      Vector2 W → W → Vector2 ℤ → ScrollablePanel W M P → Option (ScrollablePanel W M P)
  unfolding handle_lock_move_event ticked
  drag_handle pixel_size now relative_position p =
      ticked pixel_size now p
        (handle_lock_move_event f g pixel_size relative_position p.scroller.handle)

  unfoldable pub collapsed_transform : ScrollablePanel W M P → Vector2 W
  collapsed_transform p = elim p.stickness [
    | left ↦ record { x = f.neg p.thickness; y = literal f 0 }
    | top ↦ record { x = literal f 0; y = p.thickness }
    | right ↦ record { x = p.thickness; y = literal f 0 }
    | bottom ↦ record { x = literal f 0; y = f.neg p.thickness }
  ]

  -- `toggle`, with `_onToggled`.
  unfoldable pub toggle : W → ScrollablePanel W M P → ScrollablePanel W M P
  unfolding update_animation_and_play collapsed_transform
  toggle now p =
      let origin = uniform f g (literal f 0) in
      let away = collapsed_transform p in
      record p {
        is_toggled = not p.is_toggled;
        animator =
            if not p.is_toggled
            then update_animation_and_play g origin now away origin p.animator
            else update_animation_and_play g origin now origin away p.animator;
      }

  unfoldable pub define_panel_position : Vector2 W → M → M
  define_panel_position pos matrix = g.translation pos

  unfoldable pub update_geometry : ScrollablePanel W M P → ScrollablePanel W M P
  unfolding transformed
  update_geometry p = record p { geometry = transformed g p.matrix p.shape }

  requested_content : M → Option (AtomSelectorGrid W M P) → Option (AtomSelectorGrid W M P)
  unfolding Grid.matrix_update_requested
  requested_content matrix none = none
  requested_content matrix (some content) = some (Grid.matrix_update_requested f g matrix content)

  -- `Container::_propagateMatrixChanges` of the panel's matrix: to the panel, the scroller, its handle
  -- and the content.
  unfoldable pub propagate_matrix_changes :
      Vector2 W → ScrollablePanel W M P → ScrollablePanel W M P
  unfolding update_geometry Scroller.matrix_update_requested Handle.matrix_update_requested
      requested_content
  propagate_matrix_changes pixel_size p =
      let q = update_geometry p in
      let s = Scroller.matrix_update_requested f g pixel_size q.matrix q.scroller in
      record q {
        scroller = record s {
          handle = Handle.matrix_update_requested f g pixel_size q.matrix s.handle;
        };
        content = requested_content q.matrix q.content;
      }

  -- One frame: `_onAnimationProgress` moves the panel and tells what it contains.
  unfoldable pub advance_panel : Vector2 W → W → ScrollablePanel W M P → ScrollablePanel W M P
  unfolding advance_player default_animation_callback_v is_animation_playing define_panel_position
      propagate_matrix_changes
  advance_panel pixel_size now p =
      let a = advance_player g (default_animation_callback_v g) now p.animator in
      let still = record p { animator = a } in
      let moved =
        propagate_matrix_changes pixel_size
          (record still { matrix = define_panel_position a.anim_state.current p.matrix }) in
      if is_animation_playing g a then moved else still

  panel_strip : StickTo → W → Range2D W → Range2D W
  panel_strip left thickness space = record space {
    max = record { x = f.add space.min.x thickness; y = space.max.y };
  }
  panel_strip top thickness space = record space {
    min = record { x = space.min.x; y = f.sub space.max.y thickness };
  }
  panel_strip right thickness space = record space {
    min = record { x = f.sub space.max.x thickness; y = space.min.y };
  }
  panel_strip bottom thickness space = record space {
    max = record { x = space.max.x; y = f.add space.min.y thickness };
  }

  unfoldable pub available_space_changed : Range2D W → ScrollablePanel W M P → ScrollablePanel W M P
  unfolding panel_strip
  available_space_changed available_space p = if p.setup_done then p else record p {
    shape = panel_strip p.stickness p.thickness available_space;
    setup_done = true;
  }

  content_changed :
      Vector2 W
      → Scroller W M P
      → ScrollablePanel W M P
      → W × Range2D W × AtomSelectorGrid W M P
      → ScrollablePanel W M P
  unfolding on_content_ratio_changed
  content_changed pixel_size s p (content_ratio, rest, content) = record p {
    scroller = on_content_ratio_changed f g pixel_size p.matrix content_ratio s;
    content = some content;
  }

  filled :
      Vector2 W
      → Range2D W × Scroller W M P
      → ScrollablePanel W M P
      → Option (AtomSelectorGrid W M P)
      → ScrollablePanel W M P
  unfolding Grid.available_space_changed content_changed
  filled pixel_size (rest, s) p none = record p { scroller = s }
  filled pixel_size (rest, s) p (some content) =
      content_changed pixel_size s p (Grid.available_space_changed f g p.matrix rest content)

  -- `onViewportChange`: the space of the panel goes to the scroller, and what that leaves to the
  -- content, which tells the scroller its ratio.
  unfoldable pub on_viewport_change :
      Vector2 W → Range2D W → ScrollablePanel W M P → ScrollablePanel W M P
  unfolding available_space_changed Scroller.on_viewport_change filled update_geometry
  on_viewport_change pixel_size allowed_space p =
      let q = available_space_changed allowed_space p in
      update_geometry (
        filled pixel_size (Scroller.on_viewport_change f g pixel_size q.shape q.scroller) q
          q.content)
