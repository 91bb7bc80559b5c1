-- ===== src/App/Scroll/Scroller.antt =====
-- src/app/widgets/scroll/Scroller.cpp, without its drawing.
use understory.Base.{Bool, List, [], ◌∷◌, if◌then◌else◌, not}
use understory.App.Magnum.{Float, Magnum, Vector2, Range2D, literal}
use understory.App.Shapes.{transformed, shape_into_pixel}
use understory.App.Scroll.{StickTo, left, top, right, bottom}
use understory.App.Scroll.Handle
use understory.App.Scroll.Handle.{ScrollerHandle, update_size}

pub record Scroller (W M P : Type 0) : Type 0 where
  pub stickness : StickTo
  pub handle : ScrollerHandle W M P
  pub content_big_enough : Bool
  -- A copy of the panel's matrix.
  pub matrix : M
  pub shape : Range2D W
  pub geometry : Range2D W
  pub geom_ph_px : Range2D W
  -- Bottom left, top left, top right, bottom right.
  pub vertices_ph : List (Vector2 W)

-- The scroller's place within a panel.
unfoldable pub stickyness_from_panel : StickTo → StickTo
stickyness_from_panel left = right
stickyness_from_panel top = bottom
stickyness_from_panel right = right
stickyness_from_panel bottom = bottom

-- Whether anything is drawn, the placeholder and the handle.
unfoldable pub may_draw : {W M P : Type 0} → Scroller W M P → Bool
may_draw s = s.content_big_enough

module _ {W M P : Type 0} (f : Float W) (g : Magnum W M P) where
  ph_size : StickTo → Range2D W → W
  ph_size left shape = (g.size shape).y
  ph_size right shape = (g.size shape).y
  ph_size top shape = (g.size shape).x
  ph_size bottom shape = (g.size shape).x

  unfoldable pub on_content_ratio_changed : Vector2 W → M → W → Scroller W M P → Scroller W M P
  unfolding ph_size update_size
  on_content_ratio_changed pixel_size panel_matrix content_ratio s =
      let big = record s { content_big_enough = f.lt content_ratio (literal f 1) } in
      let size = ph_size s.stickness s.shape in
      let handle_size = f.mul size content_ratio in
      let told = record big {
        handle =
            update_size f g pixel_size panel_matrix handle_size (f.sub size handle_size) s.handle;
      } in
      if not big.content_big_enough then big else told

  unfoldable pub update_geometry : Vector2 W → Scroller W M P → Scroller W M P
  unfolding transformed shape_into_pixel
  update_geometry pixel_size s =
      let geometry = transformed g s.matrix s.shape in
      record s { geometry = geometry; geom_ph_px = shape_into_pixel f g pixel_size geometry }

  -- THICKNESS_PX, twice PADDING_PX, and their sum.
  abbrev padding_px : W
  padding_px = literal f 10

  total_size : W
  total_size = f.add (literal f 20) (f.mul padding_px (literal f 2))

  -- The placeholder, and the space that is left.
  unfoldable pub split_space : StickTo → Vector2 W → Range2D W → Range2D W × Range2D W
  unfolding total_size
  split_space left pixel_size space =
      let edge = f.add space.min.x (f.mul pixel_size.x total_size) in
      (
        record space { max = record space.max { x = edge } },
        record space { min = record space.min { x = edge } },
      )
  split_space top pixel_size space =
      let edge = f.sub space.max.y (f.mul pixel_size.y total_size) in
      (
        record space { min = record space.min { y = edge } },
        record space { max = record space.max { y = edge } },
      )
  split_space right pixel_size space =
      let edge = f.sub space.max.x (f.mul pixel_size.x total_size) in
      (
        record space { min = record space.min { x = edge } },
        record space { max = record space.max { x = edge } },
      )
  split_space bottom pixel_size space =
      let edge = f.add space.min.y (f.mul pixel_size.y total_size) in
      (
        record space { max = record space.max { y = edge } },
        record space { min = record space.min { y = edge } },
      )

  -- The space that is left, and the scroller.
  unfoldable pub available_space_changed :
      Vector2 W → Range2D W → Scroller W M P → Range2D W × Scroller W M P
  unfolding split_space update_geometry
  available_space_changed pixel_size available_space s =
      let (ph, rest) = split_space s.stickness pixel_size available_space in
      let shape = g.padded ph (record {
        x = f.neg (f.mul pixel_size.x padding_px);
        y = f.neg (f.mul pixel_size.y padding_px);
      }) in
      (
        rest,
        update_geometry pixel_size (record s {
          shape = shape;
          vertices_ph =
              g.bottom_left shape
              ∷ g.top_left shape
              ∷ g.top_right shape
              ∷ g.bottom_right shape
              ∷ [];
        }),
      )

  -- `Container::onViewportChange`: the scroller, and then its handle, which is given the scroller's
  -- shape.
  unfoldable pub on_viewport_change :
      Vector2 W → Range2D W → Scroller W M P → Range2D W × Scroller W M P
  unfolding available_space_changed Handle.available_space_changed
  on_viewport_change pixel_size available_space s =
      let (rest, t) = available_space_changed pixel_size available_space s in
      (rest, record t { handle = Handle.available_space_changed f g t.shape t.handle })

  unfoldable pub matrix_update_requested : Vector2 W → M → Scroller W M P → Scroller W M P
  unfolding update_geometry
  matrix_update_requested pixel_size panel_matrix s =
      update_geometry pixel_size (record s { matrix = panel_matrix })
