-- ===== src/App/Animation.antt =====
-- src/app/widgets/animation: State.hpp, MatrixAnimator.cpp and PlayerMatrixAnimator.hpp. `V` is the type
-- of what is animated, `default` its value `V()`; the animated matrix may be shared, and is a state of
-- its own. What a class does in `_onAnimationProgress` is an argument.
use understory.Base.{
  ◌≡◌, refl, Bool, false, Bool-cases, Option, none, some, Option-cases, inl, inr, List, [], ◌∷◌,
  if◌then◌else◌,
}
use understory.App.Magnum.{Magnum, Vector2}

pub record State (V : Type 0) : Type 0 where
  pub from : V
  pub to : V
  pub current : V
  pub previous : V

-- PlayerMatrixAnimator, without the matrix.
pub record Animator (V P : Type 0) : Type 0 where
  pub anim_state : State V
  pub player : P

module _ {W M P : Type 0} (g : Magnum W M P) where
  unfoldable pub is_animation_playing : {V : Type 0} → Animator V P → Bool
  is_animation_playing a = g.is_playing a.player

  unfoldable pub stop_anim : {V : Type 0} → Animator V P → Animator V P
  stop_anim a = record a { player = g.stop a.player }

  -- `MatrixAnimator::_startAnim` stops the excluded animators, for which see App/Window.
  unfoldable pub start_anim : {V : Type 0} → W → Animator V P → Animator V P
  start_anim previous_frame_time a = record a { player = g.play previous_frame_time a.player }

  unfoldable pub update_animation_and_play :
      {V : Type 0} → V → W → V → V → Animator V P → Animator V P
  unfolding start_anim
  update_animation_and_play default previous_frame_time from to a =
      start_anim previous_frame_time
        (record a { anim_state = record a.anim_state { from = from; to = to; current = default } })

  unfoldable pub set_animation_keyframe : {V : Type 0} → V → Animator V P → Animator V P
  unfolding stop_anim
  set_animation_keyframe to a =
      let s = stop_anim a in
      record s { anim_state = record s.anim_state { from = to; to = to; current = to } }

  -- The callbacks of an animated number and of an animated vector.
  unfoldable pub default_animation_callback : W → State W → State W
  default_animation_callback prc state = record state {
    current = g.lerp state.from state.to (g.cubic_out prc);
  }

  unfoldable pub default_animation_callback_v : W → State (Vector2 W) → State (Vector2 W)
  default_animation_callback_v prc state = record state {
    current = g.lerp_v state.from state.to (g.cubic_out prc);
  }

  called_back : {V : Type 0} → (W → State V → State V) → Option W → State V → State V
  called_back callback none s = s
  called_back callback (some prc) s = callback prc s

  -- What `_player.advance` does to the animator.
  unfoldable pub advance_player :
      {V : Type 0} → (W → State V → State V) → W → Animator V P → Animator V P
  unfolding called_back
  advance_player callback previous_frame_time a = record {
    anim_state = called_back callback (g.progress previous_frame_time a.player) a.anim_state;
    player = g.advance previous_frame_time a.player;
  }

  unfoldable pub advance :
      {V M' : Type 0}
      → (W → State V → State V)
      → (State V → M' → M')
      → W
      → Animator V P
      → M'
      → Animator V P × M'
  unfolding advance_player is_animation_playing
  advance callback on_animation_progress previous_frame_time a matrix =
      let b = advance_player callback previous_frame_time a in
      let progressed = on_animation_progress b.anim_state matrix in
      (b, if is_animation_playing b then progressed else matrix)

  unfoldable pub advance_all :
      {V M' : Type 0}
      → (W → State V → State V)
      → (State V → M' → M')
      → List W
      → Animator V P
      → M'
      → Animator V P × M'
  unfolding advance
  advance_all callback on_animation_progress [] a matrix = (a, matrix)
  advance_all callback on_animation_progress (t ∷ ts) a matrix =
      let (b, m) = advance callback on_animation_progress t a matrix in
      advance_all callback on_animation_progress ts b m

  -- The frame in which a player ends its animation leaves the animated matrix as the frame before left
  -- it, although the state has got its last value by then.
  pub last_frame_unseen :
      {V M' : Type 0} (callback : W → State V → State V) (on_animation_progress : State V → M' → M')
      (t prc : W) (a : Animator V P) (matrix : M')
      → g.progress t a.player ≡ some prc
      → g.is_playing (g.advance t a.player) ≡ false
      → ((advance callback on_animation_progress t a matrix).1 ≡ matrix)
        × ((advance callback on_animation_progress t a matrix).0.anim_state
            ≡ callback prc a.anim_state)
  unfolding advance advance_player is_animation_playing called_back
  last_frame_unseen callback on_animation_progress t prc a matrix p e = (rw e refl, rw p refl)

  -- What a callback keeps of the state, a frame keeps.
  pub advance_player-keeps :
      {V : Type 0} (Q : State V → Type 0) (callback : W → State V → State V) (t : W)
      (a : Animator V P)
      → ((prc : W) (s : State V) → Q s → Q (callback prc s))
      → Q a.anim_state
      → Q (advance_player callback t a).anim_state
  unfolding advance_player called_back
  advance_player-keeps Q callback t a k q = elim (Option-cases (g.progress t a.player)) [
    | inl n ↦ rw n q
    | inr (prc, e) ↦ rw e (k prc a.anim_state q)
  ]

  -- And what holds of the matrix before and after the progress, holds after a frame.
  pub advance-keeps :
      {V M' : Type 0} (R : M' → Type 0) (callback : W → State V → State V)
      (on_animation_progress : State V → M' → M') (t : W) (a : Animator V P) (matrix : M')
      → R matrix
      → R (on_animation_progress (advance_player callback t a).anim_state matrix)
      → R (advance callback on_animation_progress t a matrix).1
  unfolding advance
  advance-keeps R callback on_animation_progress t a matrix r q =
      elim (Bool-cases (is_animation_playing (advance_player callback t a))) [
        | inl e ↦ rw e q
        | inr e ↦ rw e r
      ]

  -- A callback that leaves the target leaves it in every frame.
  pub advance_player-to :
      {V : Type 0} (callback : W → State V → State V) (t : W) (a : Animator V P)
      → ((prc : W) (s : State V) → (callback prc s).to ≡ s.to)
      → (advance_player callback t a).anim_state.to ≡ a.anim_state.to
  unfolding advance_player called_back
  advance_player-to callback t a k = elim (Option-cases (g.progress t a.player)) [
    | inl n ↦ rw n refl
    | inr (prc, e) ↦ rw e (k prc a.anim_state)
  ]

  pub default_animation_callback-to :
      (prc : W) (s : State W) → (default_animation_callback prc s).to ≡ s.to
  unfolding default_animation_callback
  default_animation_callback-to prc s = refl
