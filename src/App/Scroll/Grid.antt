-- ===== src/App/Scroll/Grid.antt =====
-- src/app/widgets/atomSelector/AtomSelectorGrid.hpp, the content of the panel, without its drawing.
use understory.Base.{Bool, true, List, [], ◌∷◌, if◌then◌else◌}
use understory.App.Magnum.{Float, Magnum, Vector2, Range2D, literal}
use understory.App.Shapes.{transformed, uniform}
use understory.App.Scroll.{GrowableAxis, width, height}
use understory.App.Scroll.Content.{Scissorable, scroll_canvas_changed, scroll_content_changed}

pub record AtomSelectorGrid (W M P : Type 0) : Type 0 where
  pub scissorable : Scissorable W M P
  pub shape : Range2D W
  pub geometry : Range2D W
  -- Bottom left, bottom right, top right, top left.
  pub vertices : List (Vector2 W)
  -- `_parentMatrix` is not null: it points to the panel's matrix, an argument where it is read.
  pub has_parent_matrix : Bool

module _ {W M P : Type 0} (f : Float W) (g : Magnum W M P) where
  unfoldable pub matrix_of : M → AtomSelectorGrid W M P → M
  matrix_of panel_matrix a =
      if a.has_parent_matrix
      then g.product panel_matrix a.scissorable.scrollable.scrll_matrix
      else g.identity

  unfoldable pub update_geometry : M → AtomSelectorGrid W M P → AtomSelectorGrid W M P
  unfolding matrix_of transformed
  update_geometry panel_matrix a = record a {
    geometry = transformed g (matrix_of panel_matrix a) a.shape;
  }

  unfoldable pub matrix_update_requested : M → AtomSelectorGrid W M P → AtomSelectorGrid W M P
  unfolding update_geometry
  matrix_update_requested panel_matrix a =
      update_geometry panel_matrix (record a { has_parent_matrix = true })

  -- 7.5, exactly.
  extension : W
  extension = f.div (literal f 15) (literal f 2)

  extended : GrowableAxis → Range2D W → Range2D W
  unfolding extension
  extended width space = record space { max = record space.max { x = f.mul space.max.x extension } }
  extended height space = record space {
    min = record space.min { y = f.mul space.min.y extension };
  }

  -- The ratio that the scroller is told, the space that is left, none, and the grid.
  unfoldable pub available_space_changed :
      M → Range2D W → AtomSelectorGrid W M P → W × Range2D W × AtomSelectorGrid W M P
  unfolding scroll_canvas_changed scroll_content_changed extended update_geometry
  available_space_changed panel_matrix available_space a =
      let sized = scroll_canvas_changed f g available_space a.scissorable in
      let space = extended a.scissorable.scrollable.growable_axis available_space in
      let placed = update_geometry panel_matrix (record a {
        scissorable = sized;
        shape = space;
        vertices =
            g.bottom_left space ∷ g.bottom_right space ∷ g.top_right space ∷ g.top_left space ∷ [];
      }) in
      let (content_ratio, s) = scroll_content_changed f g space placed.scissorable in
      (
        content_ratio,
        record { min = uniform f g (literal f 0); max = uniform f g (literal f 0) },
        record placed { scissorable = s },
      )
