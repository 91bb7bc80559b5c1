-- ===== src/App/MouseMoves/Helper.antt =====
-- src/app/widgets/navigation/MouseMoveHelper.hpp. The world's matrix, which other helpers change too, is
-- an argument.
use understory.Base.{◌≡◌, refl, Bool-cases, inl, inr, if◌then◌else◌}
use understory.Base.Integers.{ℤ}
use understory.App.Magnum.{Float, Magnum, Vector2}
use understory.App.Animation.{
  State, Animator, update_animation_and_play, advance, default_animation_callback_v,
}
use understory.App.Animation
use understory.App.MouseMoves.{
  MouseMovements, zero_vector, add_to_acceleration_buffer, is_computing, reset_acceleration_buffer,
  compute_acceleration_buffer, translated_vector, translated_vector_abs,
}

pub record MouseMoveHelper (W P : Type 0) : Type 0 where
  pub animator : Animator (Vector2 W) P
  pub mm : MouseMovements W

module _ {W M P : Type 0} (f : Float W) (g : Magnum W M P) where
  unfoldable pub stop_anim : MouseMoveHelper W P → MouseMoveHelper W P
  unfolding Animation.stop_anim is_computing reset_acceleration_buffer
  stop_anim h =
      let s = record h { animator = Animation.stop_anim g h.animator } in
      if is_computing f g h.mm then record s { mm = reset_acceleration_buffer f g h.mm } else s

  pub stop_anim-player :
      (h : MouseMoveHelper W P) → (stop_anim h).animator.player ≡ g.stop h.animator.player
  unfolding stop_anim Animation.stop_anim
  stop_anim-player h = elim (Bool-cases (is_computing f g h.mm)) [
    | inl e ↦ rw e refl
    | inr e ↦ rw e refl
  ]

  unfoldable pub mouse_press_event : MouseMoveHelper W P → MouseMoveHelper W P
  unfolding stop_anim
  mouse_press_event h = stop_anim h

  unfoldable pub translate_to_abs : Vector2 W → M → M
  translate_to_abs translation_vector matrix = g.product (g.translation translation_vector) matrix

  unfoldable pub translate_to : Vector2 W → M → M
  translate_to translation_vector matrix =
      g.product (g.translation (g.sub_v translation_vector (g.translation_of matrix))) matrix

  -- A move at the clock's time `now`.
  unfoldable pub mouse_move_event :
      ℤ → Vector2 ℤ → Vector2 ℤ → M → MouseMoveHelper W P → MouseMoveHelper W P × M
  unfolding translated_vector add_to_acceleration_buffer translate_to_abs
  mouse_move_event now relative_position framebuffer_size matrix h =
      let move_tr = translated_vector f g relative_position framebuffer_size in
      (
        record h { mm = add_to_acceleration_buffer f g now move_tr h.mm },
        translate_to_abs move_tr matrix,
      )

  -- At the time of the frame.
  unfoldable pub update_animation_from_move_vector_and_play :
      W → Vector2 W → M → MouseMoveHelper W P → MouseMoveHelper W P
  unfolding update_animation_and_play
  update_animation_from_move_vector_and_play frame_time move_tr matrix h =
      let from = g.translation_of matrix in
      record h {
        animator =
            update_animation_and_play g (zero_vector f g) frame_time from (g.add_v from move_tr)
              h.animator;
      }

  unfoldable pub mouse_double_click_event :
      W → Vector2 ℤ → Vector2 ℤ → M → MouseMoveHelper W P → MouseMoveHelper W P
  unfolding update_animation_from_move_vector_and_play translated_vector_abs
  mouse_double_click_event frame_time position framebuffer_size matrix h =
      update_animation_from_move_vector_and_play frame_time
        (translated_vector_abs f g position framebuffer_size) matrix h

  unfoldable pub mouse_move_release_event : W → ℤ → M → MouseMoveHelper W P → MouseMoveHelper W P
  unfolding update_animation_from_move_vector_and_play compute_acceleration_buffer
  mouse_move_release_event frame_time now matrix h =
      let (move_tr, mm) = compute_acceleration_buffer f g now h.mm in
      update_animation_from_move_vector_and_play frame_time move_tr matrix (record h { mm = mm })

  unfoldable pub on_animation_progress : State (Vector2 W) → M → M
  unfolding translate_to
  on_animation_progress state matrix = translate_to state.current matrix

  unfoldable pub advance_moves : W → M → MouseMoveHelper W P → MouseMoveHelper W P × M
  unfolding advance default_animation_callback_v on_animation_progress
  advance_moves frame_time matrix h =
      let (a, m) =
        advance g (default_animation_callback_v g) on_animation_progress frame_time h.animator
          matrix in
      (record h { animator = a }, m)
