-- ===== src/App/Window/Viewport.antt =====
-- `USApplication::viewportEvent` of src/app/USApplication.cpp, and the `onViewportChange` of
-- src/app/widgets/base/Container.hpp that it calls on the window: what a new size does to the projections,
-- the selection, the button, the panel and the help text. The GL viewport and the debug overlay are left.
use understory.Base.{◌≡◌, refl, ap, Bool-cases, inl, inr}
use understory.Base.Integers.{ℤ, negsuc}
use understory.App.Magnum.{Float, Magnum, Vector2, Range2D, literal}
use understory.App.Shapes.{Constraints, set_constraints, aspect_ratio, uniform}
use understory.App.Selection.{reset_selection}
use understory.App.Buttons
use understory.App.Buttons.{AtomSelectorButton, update_geometry, available_space_changed}
use understory.App.Scroll.Panel
use understory.App.Scroll.Panel.{ScrollablePanel}
use understory.App.Scroll.Panel.Resizing.{with_scroller, panel_settles}
use understory.App.Scroll.Scroller.{Scroller}
use understory.App.Shortcuts
use understory.App.Shortcuts.{ShortcutsText}
use understory.App.Window
use understory.App.Window.{UsApplication}

-- The window with what it contains and what it computes of its size.
pub record Layout (W M P : Type 0) : Type 0 where
  pub constraints : Constraints W M
  -- The resolution of the shader for rounded corners.
  pub resolution : Vector2 W
  pub projection_world : M
  pub transformation_projection_debug_text : M
  pub app : UsApplication W M P
  pub button : AtomSelectorButton W M P
  pub panel : ScrollablePanel W M P
  pub text : ShortcutsText W M P

module _ {W M P : Type 0} (f : Float W) (g : Magnum W M P) where
  -- The shape that the constructor of AppContainer sets, from -1 to 1 on each axis.
  unfoldable pub bounds : Range2D W
  bounds = record { min = uniform f g (f.of_int (negsuc 0)); max = uniform f g (literal f 1) }

  -- `Vector2::xScale` of the aspect ratio, projected.
  unfoldable pub world_projection : Constraints W M → M
  world_projection c = g.projection (record { x = aspect_ratio f g c.ws; y = literal f 1 })

  -- The top left corner of the window, five pixels off each side.
  unfoldable pub debug_text_corner : Constraints W M → M
  debug_text_corner c =
      let half = f.div (literal f 1) (literal f 2) in
      g.product c.pixel_proj_matrix (
        g.translation (
          g.mul_v c.ws (
            g.sub_v (record { x = f.neg half; y = half })
              (g.mul_v (g.mul_v c.pixel_size (uniform f g (literal f 5)))
                (record { x = f.of_int (negsuc 0); y = literal f 1 })))))

  -- The window's `Container::onViewportChange`: what it contains, in that order.
  unfoldable pub on_viewport_change : Layout W M P → Layout W M P
  unfolding bounds Buttons.on_viewport_change Panel.on_viewport_change Shortcuts.on_viewport_change
  on_viewport_change w =
      let c = w.constraints in
      record w {
        button = Buttons.on_viewport_change f g c.pixel_size c.proj_matrix w.button;
        panel = Panel.on_viewport_change f g c.pixel_size bounds w.panel;
        text = Shortcuts.on_viewport_change f g c w.text;
      }

  unfoldable pub viewport_event : Vector2 ℤ → Layout W M P → Layout W M P
  unfolding set_constraints Window.viewport_event world_projection debug_text_corner
      on_viewport_change
  viewport_event window_size w =
      let c = set_constraints f g window_size in
      on_viewport_change (record w {
        constraints = c;
        resolution = c.ws;
        app = Window.viewport_event f g w.app;
        projection_world = world_projection c;
        transformation_projection_debug_text = debug_text_corner c;
      })

  button_settles :
      (p q : Vector2 W) (m n : M) (b : AtomSelectorButton W M P)
      → Buttons.on_viewport_change f g q n (Buttons.on_viewport_change f g p m b)
        ≡ Buttons.on_viewport_change f g q n b
  unfolding Buttons.on_viewport_change update_geometry available_space_changed
  button_settles p q m n b = elim (Bool-cases b.setup_done) [
    | inl e ↦ rw e refl
    | inr e ↦ rw e refl
  ]

  abbrev pub but_scroller : Scroller W M P → Layout W M P → Layout W M P
  but_scroller s w = record w { panel = with_scroller s w.panel }

  -- Of two sizes of the window, one after the other, only the last one counts, for all but the scroller
  -- of the panel (the scroller `s` stands in its place on both sides).
  pub last_size_counts :
      (a b : Vector2 ℤ) (s : Scroller W M P) (w : Layout W M P)
      → but_scroller s (viewport_event b (viewport_event a w)) ≡ but_scroller s (viewport_event b w)
  unfolding viewport_event on_viewport_change Shortcuts.on_viewport_change Shortcuts.update_geometry
      Window.viewport_event reset_selection
  last_size_counts a b s w =
      let c = set_constraints f g a in
      let d = set_constraints f g b in
      rw (button_settles c.pixel_size d.pixel_size c.proj_matrix d.proj_matrix w.button) (
        ap (λ panel. record (but_scroller s (viewport_event b w)) { panel = panel })
          (panel_settles f g c.pixel_size d.pixel_size bounds s w.panel))
