-- ===== src/App/Momentum.antt =====
-- The frames of src/app/widgets/navigation/KeyboardMoveHelper.hpp: how fast the keys of App/Keyboard move
-- the map. A direction along an axis is that module's, a vector here.
use understory.Base.{
  ◌≡◌, Bool, true, false, Bool-cases, inl, inr, Option, none, some, List, [], ◌∷◌, if◌then◌else◌,
}
use understory.Base.Integers.{negsuc}
use understory.App.Magnum.{Float, Magnum, Vector2, literal, IsIrreflexive}
use understory.App.Shapes.{uniform}
use understory.App.Keyboard.{AxisMomentum}

pub data Axis : Type 0 where
  x_axis y_axis : Axis

-- The floats of an `AxisMomentum`.
pub record Momentum (W : Type 0) : Type 0 where
  pub speed : W
  pub time_passed : W

module _ {W M P : Type 0} (f : Float W) (g : Magnum W M P) where
  -- MAX_SPEED_PER_SEC is 1.5, and MAX_SPEED_REACHED_IN_MS is 0.4.
  max_speed_per_sec : W
  max_speed_per_sec = f.div (literal f 3) (literal f 2)

  abbrev pub max_speed_reached_in_ms : W
  max_speed_reached_in_ms = f.div (literal f 2) (literal f 5)

  -- What `goBy` makes of its argument, and the zero vector.
  unfoldable pub direction_vector : Axis → Option Bool → Vector2 W
  direction_vector axis none = uniform f g (literal f 0)
  direction_vector x_axis (some indirection) = record {
    x = if indirection then f.of_int (negsuc 0) else literal f 1;
    y = literal f 0;
  }
  direction_vector y_axis (some indirection) = record {
    x = literal f 0;
    y = if indirection then f.of_int (negsuc 0) else literal f 1;
  }

  unfoldable pub update_speed : Bool → Momentum W → Momentum W
  unfolding max_speed_per_sec
  update_speed deceleration m =
      let progress = f.div m.time_passed max_speed_reached_in_ms in
      record m {
        speed =
            g.lerp (literal f 0) max_speed_per_sec
              (if deceleration then g.cubic_in progress else g.cubic_out progress);
      }

  unfoldable pub update_matrix : Axis → AxisMomentum → W → W → Bool → M → M
  unfolding direction_vector
  update_matrix axis a speed frame_duration deceleration matrix =
      let v =
        direction_vector axis
          (if deceleration then a.momentum_direction else a.current_direction) in
      g.product (g.translation (g.mul_v v (uniform f g (f.mul speed frame_duration)))) matrix

  accelerated : W → W → W
  accelerated fd time_passed =
      let more = f.add time_passed fd in
      if f.lt time_passed max_speed_reached_in_ms
      then (if f.lt max_speed_reached_in_ms more then max_speed_reached_in_ms else more)
      else time_passed

  decelerated : W → W → W
  decelerated fd time_passed =
      let less = f.sub time_passed fd in if f.lt less (literal f 0) then literal f 0 else less

  considered : Option Bool → Axis → AxisMomentum → W → Momentum W → M → Momentum W × M
  unfolding accelerated decelerated update_speed update_matrix
  considered (some direction) axis a fd m matrix =
      let n = update_speed false (record m { time_passed = accelerated fd m.time_passed }) in
      (n, update_matrix axis a n.speed fd false matrix)
  considered none axis a fd m matrix =
      let n = update_speed true (record m { time_passed = decelerated fd m.time_passed }) in
      if f.eq m.time_passed (literal f 0)
      then (m, matrix)
      else (n, update_matrix axis a n.speed fd true matrix)

  -- The direction of a key that is held is not the zero vector.
  unfoldable pub consider_axis : Axis → AxisMomentum → W → Momentum W → M → Momentum W × M
  unfolding considered
  consider_axis axis a fd m matrix = considered a.current_direction axis a fd m matrix

  -- What the code relies on of floats: none is less than itself, 0 is not above the limit; a sum with a
  -- duration is not negative; and a difference of a duration does not grow.
  pub record IsTimed : Type 0 where
    pub irreflexive : IsIrreflexive f
    pub limit : f.lt max_speed_reached_in_ms (literal f 0) ≡ false
    pub add_nonneg :
        (a d : W)
        → f.lt a (literal f 0) ≡ false
        → f.lt d (literal f 0) ≡ false
        → f.lt (f.add a d) (literal f 0) ≡ false
    pub sub_below :
        (m a d : W) → f.lt m a ≡ false → f.lt d (literal f 0) ≡ false → f.lt m (f.sub a d) ≡ false

  abbrev pub InLimit : W → Type 0
  InLimit t = (f.lt t (literal f 0) ≡ false) × (f.lt max_speed_reached_in_ms t ≡ false)

  accelerated-InLimit :
      (fd t : W) → IsTimed → f.lt fd (literal f 0) ≡ false → InLimit t → InLimit (accelerated fd t)
  unfolding accelerated
  accelerated-InLimit fd t i d (low, high) = elim (Bool-cases (f.lt t max_speed_reached_in_ms)) [
    | inl b ↦ elim (Bool-cases (f.lt max_speed_reached_in_ms (f.add t fd))) [
      | inl c ↦ rw (b, c) (i.limit, i.irreflexive max_speed_reached_in_ms)
      | inr c ↦ rw (b, c) (i.add_nonneg t fd low d, c)
    ]
    | inr b ↦ rw b (low, high)
  ]

  decelerated-InLimit :
      (fd t : W) → IsTimed → f.lt fd (literal f 0) ≡ false → InLimit t → InLimit (decelerated fd t)
  unfolding decelerated
  decelerated-InLimit fd t i d (low, high) = elim (Bool-cases (f.lt (f.sub t fd) (literal f 0))) [
    | inl b ↦ rw b (i.irreflexive (literal f 0), i.limit)
    | inr b ↦ rw b (b, i.sub_below max_speed_reached_in_ms t fd high d)
  ]

  considered-InLimit :
      (o : Option Bool) (axis : Axis) (a : AxisMomentum) (fd : W) (m : Momentum W) (matrix : M)
      → IsTimed
      → f.lt fd (literal f 0) ≡ false
      → InLimit m.time_passed
      → InLimit (considered o axis a fd m matrix).0.time_passed
  unfolding considered update_speed
  considered-InLimit (some direction) axis a fd m matrix i d l =
      accelerated-InLimit fd m.time_passed i d l
  considered-InLimit none axis a fd m matrix i d l =
      elim (Bool-cases (f.eq m.time_passed (literal f 0))) [
        | inl b ↦ rw b l
        | inr b ↦ rw b (decelerated-InLimit fd m.time_passed i d l)
      ]

  -- The frames with the directions that the keys gave the axis at the time.
  unfoldable pub consider_all : Axis → List (AxisMomentum × W) → Momentum W → M → Momentum W × M
  unfolding consider_axis
  consider_all axis [] m matrix = (m, matrix)
  consider_all axis ((a, fd) ∷ frames) m matrix =
      let (n, moved) = consider_axis axis a fd m matrix in consider_all axis frames n moved

  abbrev pub AllDurations : List (AxisMomentum × W) → Type 0
  AllDurations [] = Unit
  AllDurations ((a, fd) ∷ frames) = (f.lt fd (literal f 0) ≡ false) × AllDurations frames

  -- Where floats have the laws of `IsTimed`: whatever keys are held in the frames, none of a negative
  -- duration, the time for which an axis has gained speed stays neither negative nor above
  -- MAX_SPEED_REACHED_IN_MS, if it was so before.
  pub time_passed-InLimit :
      (axis : Axis) (frames : List (AxisMomentum × W)) (m : Momentum W) (matrix : M)
      → IsTimed
      → AllDurations frames
      → InLimit m.time_passed
      → InLimit (consider_all axis frames m matrix).0.time_passed
  unfolding consider_all consider_axis
  time_passed-InLimit axis [] m matrix i d l = l
  time_passed-InLimit axis ((a, fd) ∷ frames) m matrix i (d, ds) l =
      let (n, moved) = consider_axis axis a fd m matrix in
      time_passed-InLimit axis frames n moved i ds
        (considered-InLimit a.current_direction axis a fd m matrix i d l)
