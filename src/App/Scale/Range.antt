-- ===== src/App/Scale/Range.antt =====
-- The scale that src/app/widgets/navigation/MapScaleHelper.hpp zooms to stays in its range, on both axes.
use understory.Base.{◌≡◌, refl, false, Bool-cases, inl, inr, List, [], ◌∷◌}
use understory.Base.Integers.{ℤ, pos, negsuc}
use understory.App.Magnum.{Float, Magnum, Vector2, Range2D, literal, IsIrreflexive}
use understory.App.Animation.{
  State, stop_anim, start_anim, update_animation_and_play, advance, advance_player-keeps,
  advance-keeps,
}
use understory.App.Scale.{
  ScrollAnimStateComponent, MapScaleHelper, ZoomKey, num_add, num_subtract, other, max_scale,
  min_scale, threshold_scaling, snapshot_zoom, mouse_scroll_event, instant_zoom, key_press_event,
  default_animation_callback, on_animation_progress, advance_scale, scaling_vector_from_direction,
  get_scroll_delta_vector, played,
}

module _ {W M P : Type 0} (f : Float W) (g : Magnum W M P) where
  abbrev pub IsUniform : Vector2 W → Type 0
  IsUniform v = v.x ≡ v.y

  -- What the code relies on of floats and Magnum: the constants are in order, and no float is less than
  -- itself; the operators on vectors make uniform vectors of uniform ones; and matrices made of moves
  -- and uniform scalings, which `IsEven` stands for, scale both axes alike.
  pub record IsScaling (IsEven : M → Type 0) : Type 0 where
    pub irreflexive : IsIrreflexive f
    pub scales : f.lt (max_scale f g) (min_scale f g) ≡ false
    pub mul : (u v : Vector2 W) → IsUniform u → IsUniform v → IsUniform (g.mul_v u v)
    pub div : (u v : Vector2 W) → IsUniform u → IsUniform v → IsUniform (g.div_v u v)
    pub lerp : (u v : Vector2 W) (t : W) → IsUniform u → IsUniform v → IsUniform (g.lerp_v u v t)
    pub alike : (m : M) → IsEven m → IsUniform (g.scaling_of m)
    pub scaled :
        (v : Vector2 W) (m : M) → IsUniform v → IsEven m → IsEven (g.product (g.scaling v) m)
    pub moved : (v : Vector2 W) (m : M) → IsEven m → IsEven (g.product (g.translation v) m)

  abbrev pub InBounds : W → Type 0
  InBounds s = (f.lt s (min_scale f g) ≡ false) × (f.lt (max_scale f g) s ≡ false)

  -- Both coordinates are.
  abbrev pub InRange : Vector2 W → Type 0
  InRange v = InBounds v.x × InBounds v.y

  pub data Event : Type 0 where
    snapshots : W → Range2D W → Event
    scrolls : W → W → Vector2 ℤ → Vector2 ℤ → Event
    presses : ZoomKey → Event
    frame : W → Event

  unfoldable pub step : Event → MapScaleHelper W P × M → MapScaleHelper W P × M
  unfolding snapshot_zoom mouse_scroll_event key_press_event advance_scale
  step (snapshots now zoom_rect) (h, m) = (snapshot_zoom f g now zoom_rect m h, m)
  step (scrolls now direction position size) (h, m) =
      (mouse_scroll_event f g now direction position size m h, m)
  step (presses key) (h, m) = key_press_event f g key m h
  step (frame now) (h, m) = advance_scale f g now m h

  unfoldable pub run : List Event → MapScaleHelper W P × M → MapScaleHelper W P × M
  unfolding step
  run [] s = s
  run (e ∷ es) s = run es (step e s)

  abbrev pub target : MapScaleHelper W P × M → Vector2 W
  target (h, m) = h.animator.anim_state.to.scaling

  module _ (IsEven : M → Type 0) (i : IsScaling IsEven) where
    IsGood : Vector2 W → Type 0
    IsGood v = IsUniform v × InBounds v.x

    good-InRange : (v : Vector2 W) → IsGood v → InRange v
    unfolding IsGood
    good-InRange v (u, b) = (b, rw u at b)

    threshold_scaling-IsGood : (v : Vector2 W) → IsUniform v → IsGood (threshold_scaling f g v)
    unfolding IsGood threshold_scaling
    threshold_scaling-IsGood v u = elim (Bool-cases (f.lt v.x (min_scale f g))) [
      | inl b ↦ rw b (refl, (i.irreflexive (min_scale f g), i.scales))
      | inr b ↦ elim (Bool-cases (f.lt (max_scale f g) v.x)) [
        | inl c ↦ rw (b, c) (refl, (i.scales, i.irreflexive (max_scale f g)))
        | inr c ↦ rw (b, c) (u, (b, c))
      ]
    ]

    delta-IsUniform : (direction : W) → IsUniform (get_scroll_delta_vector f g direction)
    unfolding get_scroll_delta_vector
    delta-IsUniform direction = elim (Bool-cases (f.lt direction (literal f 0))) [
      | inl b ↦ rw b refl
      | inr b ↦ rw b refl
    ]

    scrolled_target :
        (direction : W) (m : M)
        → IsEven m
        → IsGood (scaling_vector_from_direction f g direction false m)
    unfolding scaling_vector_from_direction
    scrolled_target direction m e =
        threshold_scaling-IsGood _ (i.mul _ _ (i.alike m e) (delta-IsUniform direction))

    -- What holds of the animation's state: all its scales are uniform, and the target is in range.
    IsZooming : State (ScrollAnimStateComponent W) → Type 0
    IsZooming s = IsUniform s.from.scaling × IsGood s.to.scaling × IsUniform s.current.scaling

    IsSound : MapScaleHelper W P × M → Type 0
    IsSound (h, m) = IsEven m × IsZooming h.animator.anim_state

    callback-IsZooming :
        (prc : W) (s : State (ScrollAnimStateComponent W))
        → IsZooming s
        → IsZooming (default_animation_callback f g prc s)
    unfolding IsZooming IsGood default_animation_callback
    callback-IsZooming prc s (a, (b, r), c) = elim (Bool-cases (g.is_zero s.to.translation)) [
      | inl e ↦ rw e (a, (b, r), i.lerp _ _ _ a b)
      | inr e ↦ rw e (a, (b, r), i.lerp _ _ _ a b)
    ]

    progress-IsEven :
        (accuracy : W) (s : State (ScrollAnimStateComponent W)) (m : M)
        → IsZooming s
        → IsEven m
        → IsEven (on_animation_progress f g accuracy s m)
    unfolding IsZooming on_animation_progress
    progress-IsEven accuracy s m (a, b, c) e =
        let factor = i.div _ _ c (i.alike m e) in
        elim (Bool-cases (g.is_zero s.current.scaling)) [
          | inl z ↦ elim (Bool-cases (g.is_zero s.current.translation)) [
            | inl t ↦ rw (z, t) e
            | inr t ↦ rw (z, t) (i.moved _ _ e)
          ]
          | inr z ↦ elim (Bool-cases (g.is_zero s.current.translation)) [
            | inl t ↦ rw (z, t) (i.scaled _ _ factor e)
            | inr t ↦ rw (z, t) (i.moved _ _ (i.scaled _ _ factor e))
          ]
        ]

    snapshot-IsSound :
        (now : W) (zoom_rect : Range2D W) (h : MapScaleHelper W P) (m : M)
        → IsEven m
        → IsSound (snapshot_zoom f g now zoom_rect m h, m)
    unfolding IsSound IsZooming snapshot_zoom played update_animation_and_play start_anim
    snapshot-IsSound now zoom_rect h m e =
        let to = threshold_scaling-IsGood _ (i.mul _ _ (i.alike m e) refl) in
        (e, (i.alike m e, to, refl))

    scrolled-IsSound :
        (now direction : W) (position size : Vector2 ℤ) (h : MapScaleHelper W P) (m : M)
        → IsSound (h, m)
        → IsSound (mouse_scroll_event f g now direction position size m h, m)
    unfolding IsSound IsZooming mouse_scroll_event played update_animation_and_play start_anim
    scrolled-IsSound now direction position size h m (e, s) =
        let to = scrolled_target direction m e in
        elim (Bool-cases (f.eq direction (literal f 0))) [
          | inl b ↦ rw b (e, s)
          | inr b ↦ elim (Bool-cases (f.lt (literal f 0) direction)) [
            | inl c ↦ rw (b, c) (e, (i.alike m e, to, refl))
            | inr c ↦ rw (b, c) (e, (i.alike m e, to, refl))
          ]
        ]

    zoomed-IsSound :
        (direction : ℤ) (h : MapScaleHelper W P) (m : M)
        → IsSound (h, m)
        → IsSound (instant_zoom f g direction m h)
    unfolding IsSound IsGood instant_zoom scaling_vector_from_direction stop_anim
    zoomed-IsSound direction h m (e, s) =
        let (u, b) = scrolled_target (f.of_int direction) m e in
        (i.scaled _ m (i.div _ _ u (i.alike m e)) e, s)

    frame-IsSound :
        (now : W) (h : MapScaleHelper W P) (m : M)
        → IsSound (h, m)
        → IsSound (advance_scale f g now m h)
    unfolding IsSound advance_scale advance
    frame-IsSound now h m (e, s) =
        let callback = default_animation_callback f g in
        let t = advance_player-keeps g IsZooming callback now h.animator callback-IsZooming s in
        (
          advance-keeps g IsEven callback (on_animation_progress f g h.zoom_accuracy) now h.animator
              m e (progress-IsEven h.zoom_accuracy _ m t e),
          t,
        )

    step-IsSound : (e : Event) (s : MapScaleHelper W P × M) → IsSound s → IsSound (step e s)
    unfolding step key_press_event IsSound
    step-IsSound (snapshots now zoom_rect) (h, m) r = snapshot-IsSound now zoom_rect h m r.0
    step-IsSound (scrolls now direction position size) (h, m) r =
        scrolled-IsSound now direction position size h m r
    step-IsSound (presses num_add) (h, m) r = zoomed-IsSound (pos 1) h m r
    step-IsSound (presses num_subtract) (h, m) r = zoomed-IsSound (negsuc 0) h m r
    step-IsSound (presses other) (h, m) r = r
    step-IsSound (frame now) (h, m) r = frame-IsSound now h m r

    run-IsSound : (es : List Event) (s : MapScaleHelper W P × M) → IsSound s → IsSound (run es s)
    unfolding run
    run-IsSound [] s r = r
    run-IsSound (e ∷ es) s r = run-IsSound es (step e s) (step-IsSound e s r)

  -- Under the laws of `IsScaling`, and from a map that was made of moves and uniform scalings: after a
  -- zoom to a selection, of any size, and then any scrolls, keys, selections and frames, neither
  -- coordinate of the helper's target scale is below MIN_SCALE or above MAX_SCALE.
  pub target-InRange :
      (IsEven : M → Type 0) (now : W) (zoom_rect : Range2D W) (es : List Event)
      (h : MapScaleHelper W P) (m : M)
      → IsScaling IsEven
      → IsEven m
      → InRange (target (run (snapshots now zoom_rect ∷ es) (h, m)))
  unfolding run step IsSound IsZooming
  target-InRange IsEven now zoom_rect es h m i e =
      let first = snapshot-IsSound IsEven i now zoom_rect h m e in
      let (even, (from, to, current)) =
        run-IsSound IsEven i es (snapshot_zoom f g now zoom_rect m h, m) first in
      good-InRange IsEven i _ to
