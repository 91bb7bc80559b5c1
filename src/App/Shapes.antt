-- ===== src/App/Shapes.antt =====
-- src/app/widgets/base/Shape.hpp and Constraints.hpp, and `_updateGeometry` of Hoverable.hpp in the same
-- folder. The current constraints are one static object, so they, or those of their fields that are
-- read, are an argument where they are used.
use understory.Base.Integers.{ℤ, pos}
use understory.App.Magnum.{Float, Magnum, Vector2, Range2D, literal}

module _ {W M P : Type 0} (f : Float W) (g : Magnum W M P) where
  -- `Magnum::Vector2{s}`, both coordinates alike.
  abbrev pub uniform : W → Vector2 W
  uniform s = record { x = s; y = s }

  -- `Constraints::_pixelSize` of a window of this size.
  unfoldable pub pixel_size_of : Vector2 W → Vector2 W
  pixel_size_of window_size = g.div_v (uniform (literal f 1)) window_size

  unfoldable pub vector_into_pixel : Vector2 W → Vector2 W → Vector2 W
  vector_into_pixel pixel_size vector =
      g.div_v (g.div_v (g.add_v vector (uniform (literal f 1))) (uniform (literal f 2))) pixel_size

  unfoldable pub shape_into_pixel : Vector2 W → Range2D W → Range2D W
  unfolding vector_into_pixel
  shape_into_pixel pixel_size shape = record {
    min = vector_into_pixel pixel_size shape.min;
    max = vector_into_pixel pixel_size shape.max;
  }

module _ {W M P : Type 0} (f : Float W) (g : Magnum W M P) where
  -- `Magnum::Vector2{v}` of a vector of ints.
  abbrev pub to_float : Vector2 ℤ → Vector2 W
  to_float v = record { x = f.of_int v.x; y = f.of_int v.y }

  -- A position of the mouse from the centre of the framebuffer, in its heights: `_trVert` of
  -- SelectionRectState.hpp and `_translatedVectorAbs` of MouseMovements.hpp. The first argument is the
  -- direction of the two axes.
  unfoldable pub centered : Vector2 ℤ → Vector2 ℤ → Vector2 ℤ → Vector2 W
  centered axes move_coords framebuffer_size =
      let half = g.div_i framebuffer_size (record { x = pos 2; y = pos 2 }) in
      g.div_v (to_float (g.div_i (g.sub_i move_coords half) axes))
        (uniform f g (f.of_int framebuffer_size.y))

pub record Constraints (W M : Type 0) : Type 0 where
  pub ws : Vector2 W
  pub pixel_proj_matrix : M
  pub proj_matrix : M
  pub pixel_size : Vector2 W

module _ {W M P : Type 0} (f : Float W) (g : Magnum W M P) where
  -- `Vector2::aspectRatio`
  abbrev pub aspect_ratio : Vector2 W → W
  aspect_ratio v = f.div v.x v.y

  -- The constructor, and so `Shape::setConstraints`.
  unfoldable pub set_constraints : Vector2 ℤ → Constraints W M
  unfolding pixel_size_of
  set_constraints window_size =
      let ws = to_float f g window_size in
      record {
        ws = ws;
        pixel_proj_matrix = g.projection ws;
        proj_matrix =
            g.projection (
              g.mul_v (record { x = aspect_ratio ws; y = literal f 1 })
                (uniform f g (literal f 2)));
        pixel_size = pixel_size_of f g ws;
      }

module _ {W M P : Type 0} (g : Magnum W M P) where
  -- `Hoverable::_updateGeometry` of a matrix.
  unfoldable pub transformed : M → Range2D W → Range2D W
  transformed matrix shape = record {
    min = g.transform_point matrix shape.min;
    max = g.transform_point matrix shape.max;
  }
