-- ===== src/App/Selection.antt =====
-- src/app/shaders/selectRect/SelectionRectState.hpp. The buffer and the shader that the state writes to
-- are fields of it. A position of the mouse and the size of the framebuffer are arguments.
use mathlib.Core.Path.{subst}
use understory.Base.{
  ◌≡◌, refl, ap, sym, ◌∙◌, Bool, true, false, Bool-cases, inl, inr, List, [], ◌∷◌, if◌then◌else◌,
  arith,
}
use understory.Base.Integers.{ℤ, pos, negsuc, ◌-ℤ◌, ltb_ℤ}
use understory.App.Magnum.{Float, Magnum, Vector2, Range2D, literal, IsIrreflexive}
use understory.App.Shapes.{uniform, centered}

pub record Vector4 (W : Type 0) : Type 0 where
  pub x : W
  pub y : W
  pub z : W
  pub w : W

-- `_vertices`.
pub record Corners (W : Type 0) : Type 0 where
  pub first : Vector2 W
  pub second : Vector2 W
  pub third : Vector2 W
  pub fourth : Vector2 W

pub record SelectionRectState (W : Type 0) : Type 0 where
  pub vertices : Corners W
  pub p1_px : Vector2 ℤ
  pub p2_px : Vector2 ℤ
  pub is_selecting : Bool
  -- What the buffer and the shader were given last.
  pub buffer : Corners W
  pub inner_rect : Vector4 W

unfoldable pub tr_frag : Vector2 ℤ → Vector2 ℤ → Vector2 ℤ
tr_frag move_coords framebuffer_size = record {
  x = move_coords.x;
  y = framebuffer_size.y -ℤ move_coords.y;
}

-- The two values of `distrib` in its order.
lower : ℤ → ℤ → ℤ
lower val1 val2 = if ltb_ℤ val1 val2 then val1 else val2

upper : ℤ → ℤ → ℤ
upper val1 val2 = if ltb_ℤ val1 val2 then val2 else val1

lower_comm : (a b : ℤ) → lower a b ≡ lower b a
unfolding lower
lower_comm a b = ground arith

upper_comm : (a b : ℤ) → upper a b ≡ upper b a
unfolding upper
upper_comm a b = ground arith

module _ {W M P : Type 0} (f : Float W) (g : Magnum W M P) where
  unfoldable pub tr_vert : Vector2 ℤ → Vector2 ℤ → Vector2 W
  unfolding centered
  tr_vert move_coords framebuffer_size =
      centered f g (record { x = pos 1; y = negsuc 0 }) move_coords framebuffer_size

  -- The top left and the bottom right corner, after one axis.
  unfoldable pub distrib : ℤ → ℤ → (W → Vector2 W) → Vector2 W × Vector2 W → Vector2 W × Vector2 W
  unfolding lower upper
  distrib val1 val2 func (top_left, bottom_right) = (
    g.add_v top_left (func (f.of_int (lower val1 val2))),
    g.add_v bottom_right (func (f.of_int (upper val1 val2))),
  )

  x_axis : W → Vector2 W
  x_axis v = record { x = v; y = literal f 0 }

  y_axis : W → Vector2 W
  y_axis v = record { x = literal f 0; y = v }

  rect_of : Vector2 W × Vector2 W → Range2D W
  rect_of (top_left, bottom_right) = record { min = top_left; max = bottom_right }

  unfoldable pub get_standardized_rect : Vector2 ℤ → Vector2 ℤ → Range2D W
  unfolding distrib rect_of x_axis y_axis
  get_standardized_rect p1 p2 =
      let zero = uniform f g (literal f 0) in
      rect_of (distrib p1.y p2.y y_axis (distrib p1.x p2.x x_axis (zero, zero)))

  -- The two ends on one axis.
  padded_axis : W → W × W → W × W
  padded_axis center (low, high) = if f.lt high low then (center, center) else (low, high)

  unfoldable pub padded : Range2D W → W → Vector4 W
  unfolding padded_axis
  padded rect padding =
      let (x, z) = padded_axis (g.center rect).x (g.padded_1d (rect.min.x, rect.max.x) padding) in
      let (y, w) = padded_axis (g.center rect).y (g.padded_1d (rect.min.y, rect.max.y) padding) in
      record { x = x; y = y; z = z; w = w }

  -- The inner rectangle for two corners, a border of one pixel off.
  unfoldable pub inner_rect_of : Vector2 ℤ → Vector2 ℤ → Vector4 W
  unfolding padded get_standardized_rect
  inner_rect_of p1 p2 = padded (get_standardized_rect p1 p2) (f.of_int (negsuc 0))

  unfoldable pub update_shader_data : SelectionRectState W → SelectionRectState W
  unfolding inner_rect_of
  update_shader_data s =
      let v = record s.vertices {
        second = record { x = s.vertices.third.x; y = s.vertices.first.y };
        fourth = record { x = s.vertices.first.x; y = s.vertices.third.y };
      } in
      record s { vertices = v; buffer = v; inner_rect = inner_rect_of s.p1_px s.p2_px }

  unfoldable pub init : Vector2 ℤ → Vector2 ℤ → SelectionRectState W → SelectionRectState W
  unfolding tr_vert tr_frag update_shader_data
  init position framebuffer_size s =
      let p = tr_vert position framebuffer_size in
      let px = tr_frag position framebuffer_size in
      let t = update_shader_data (record s {
        vertices = record s.vertices { first = p; third = p };
        p1_px = px;
        p2_px = px;
      }) in
      record t { is_selecting = true }

  unfoldable pub update_from_point :
      Vector2 ℤ → Vector2 ℤ → SelectionRectState W → SelectionRectState W
  unfolding tr_vert tr_frag update_shader_data
  update_from_point point framebuffer_size s = update_shader_data (record s {
    vertices = record s.vertices { third = tr_vert point framebuffer_size };
    p2_px = tr_frag point framebuffer_size;
  })

  unfoldable pub update : Vector2 ℤ → Vector2 ℤ → SelectionRectState W → SelectionRectState W
  unfolding update_from_point
  update position framebuffer_size s = update_from_point position framebuffer_size s

  unfoldable pub end : Vector2 ℤ → Vector2 ℤ → SelectionRectState W → SelectionRectState W
  unfolding update_from_point
  end position framebuffer_size s = record (update_from_point position framebuffer_size s) {
    is_selecting = false;
  }

  unfoldable pub reset_selection : SelectionRectState W → SelectionRectState W
  reset_selection s = record s { is_selecting = false }

  unfoldable pub as_rectangle : SelectionRectState W → Range2D W
  as_rectangle s = record { min = s.vertices.first; max = s.vertices.third }

  -- Whether the rectangle is drawn, `mayDraw` of src/app/widgets/helpers/SelectionRectangle.hpp.
  unfoldable pub may_draw : SelectionRectState W → Bool
  may_draw s = s.is_selecting

  distrib_swap :
      (a b : ℤ) (func : W → Vector2 W) (c : Vector2 W × Vector2 W)
      → distrib a b func c ≡ distrib b a func c
  unfolding distrib
  distrib_swap a b func c =
      ap (λ z. (g.add_v c.0 (func (f.of_int z)), g.add_v c.1 (func (f.of_int (upper a b)))))
        (lower_comm a b)
      ∙ ap (λ z. (g.add_v c.0 (func (f.of_int (lower b a))), g.add_v c.1 (func (f.of_int z))))
          (upper_comm a b)

  inner_rect_of-swap : (p q : Vector2 ℤ) → inner_rect_of p q ≡ inner_rect_of q p
  unfolding inner_rect_of get_standardized_rect
  inner_rect_of-swap p q =
      let zero = uniform f g (literal f 0) in
      ap (λ r. padded (rect_of (distrib p.y q.y y_axis r)) (f.of_int (negsuc 0)))
        (distrib_swap p.x q.x x_axis (zero, zero))
      ∙ ap (λ r. padded (rect_of r) (f.of_int (negsuc 0)))
          (distrib_swap p.y q.y y_axis (distrib q.x p.x x_axis (zero, zero)))

  -- The corner of the rectangle at the place of the first across and of the second in height.
  abbrev pub corner : Vector2 ℤ → Vector2 ℤ → Vector2 ℤ
  corner p q = record { x = p.x; y = q.y }

  inner_rect_of-corner :
      (p q : Vector2 ℤ) → inner_rect_of p q ≡ inner_rect_of (corner p q) (corner q p)
  unfolding inner_rect_of get_standardized_rect
  inner_rect_of-corner p q =
      let zero = uniform f g (literal f 0) in
      ap (λ r. padded (rect_of r) (f.of_int (negsuc 0)))
        (distrib_swap p.y q.y y_axis (distrib p.x q.x x_axis (zero, zero)))

  unfoldable pub update_all :
      Vector2 ℤ → List (Vector2 ℤ) → SelectionRectState W → SelectionRectState W
  unfolding update
  update_all framebuffer_size [] s = s
  update_all framebuffer_size (p ∷ ps) s =
      update_all framebuffer_size ps (update p framebuffer_size s)

  update_all-first :
      (size : Vector2 ℤ) (ps : List (Vector2 ℤ)) (s : SelectionRectState W)
      → ((update_all size ps s).p1_px ≡ s.p1_px)
        × ((update_all size ps s).vertices.first ≡ s.vertices.first)
        × ((update_all size ps s).is_selecting ≡ s.is_selecting)
  unfolding update_all update update_from_point update_shader_data
  update_all-first size [] s = (refl, refl, refl)
  update_all-first size (p ∷ ps) s = update_all-first size ps (update p size s)

  update-inner_rect :
      (size p : Vector2 ℤ) (s : SelectionRectState W)
      → (update p size s).inner_rect ≡ inner_rect_of s.p1_px (tr_frag p size)
  unfolding update update_from_point update_shader_data
  update-inner_rect size p s = refl

  -- The selection of a drag from `a` to `b`, whatever lies between.
  abbrev pub dragged :
      Vector2 ℤ
      → Vector2 ℤ
      → List (Vector2 ℤ)
      → Vector2 ℤ
      → SelectionRectState W
      → SelectionRectState W
  dragged size a ps b s = update b size (update_all size ps (init a size s))

  dragged-inner_rect :
      (size a b : Vector2 ℤ) (ps : List (Vector2 ℤ)) (s : SelectionRectState W)
      → (dragged size a ps b s).inner_rect ≡ inner_rect_of (tr_frag a size) (tr_frag b size)
  unfolding init update_shader_data
  dragged-inner_rect size a b ps s =
      update-inner_rect size b (update_all size ps (init a size s))
      ∙ ap (λ p. inner_rect_of p (tr_frag b size)) (update_all-first size ps (init a size s)).0

  dragged_alike :
      (size a b c d : Vector2 ℤ) (ps qs : List (Vector2 ℤ)) (s t : SelectionRectState W)
      → inner_rect_of (tr_frag a size) (tr_frag b size)
        ≡ inner_rect_of (tr_frag c size) (tr_frag d size)
      → (dragged size a ps b s).inner_rect ≡ (dragged size c qs d t).inner_rect
  dragged_alike size a b c d ps qs s t e =
      dragged-inner_rect size a b ps s ∙ e ∙ sym (dragged-inner_rect size c d qs t)

  -- The inner rectangle is the same whichever of its four corners a drag began at, if it ends at the
  -- opposite one, and wherever the two drags went in between.
  pub drag_back_alike :
      (size a b : Vector2 ℤ) (ps qs : List (Vector2 ℤ)) (s t : SelectionRectState W)
      → ((dragged size a ps b s).inner_rect ≡ (dragged size b qs a t).inner_rect)
        × ((dragged size a ps b s).inner_rect
            ≡ (dragged size (corner a b) qs (corner b a) t).inner_rect)
        × ((dragged size a ps b s).inner_rect
            ≡ (dragged size (corner b a) qs (corner a b) t).inner_rect)
  unfolding tr_frag
  drag_back_alike size a b ps qs s t =
      let p = tr_frag a size in
      let q = tr_frag b size in
      (
        dragged_alike size a b b a ps qs s t (inner_rect_of-swap p q),
        dragged_alike size a b (corner a b) (corner b a) ps qs s t (inner_rect_of-corner p q),
        dragged_alike size a b (corner b a) (corner a b) ps qs s t
            (inner_rect_of-corner p q ∙ inner_rect_of-swap (corner p q) (corner q p)),
      )

  abbrev pub IsOrdered : Vector4 W → Type 0
  IsOrdered r = (f.lt r.z r.x ≡ false) × (f.lt r.w r.y ≡ false)

  padded_axis-ordered :
      (center : W) (ends : W × W)
      → IsIrreflexive f
      → f.lt (padded_axis center ends).1 (padded_axis center ends).0 ≡ false
  unfolding padded_axis
  padded_axis-ordered center (low, high) i = elim (Bool-cases (f.lt high low)) [
    | inl b ↦ rw b (i center)
    | inr b ↦ rw b b
  ]

  -- Where no float is less than itself: however small the selection is, its inner rectangle is not
  -- inside out, each upper end not below the lower one.
  pub inner_rect-IsOrdered :
      (size a b : Vector2 ℤ) (ps : List (Vector2 ℤ)) (s : SelectionRectState W)
      → IsIrreflexive f
      → IsOrdered (dragged size a ps b s).inner_rect
  unfolding inner_rect_of padded
  inner_rect-IsOrdered size a b ps s i =
      subst IsOrdered (sym (dragged-inner_rect size a b ps s))
        (padded_axis-ordered _ _ i, padded_axis-ordered _ _ i)
