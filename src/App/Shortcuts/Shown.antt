-- ===== src/App/Shortcuts/Shown.antt =====
-- What src/app/widgets/text/ShortcutsText.hpp shows after any events of the window.
use understory.Base.{
  ◌≡◌, refl, ap, sym, ◌∙◌, Bool, true, false, not, Bool-cases, inl, inr, List, [], ◌∷◌,
  if◌then◌else◌,
}
use understory.App.Magnum.{Float, Magnum, Range2D, literal}
use understory.App.Shapes.{Constraints, transformed, uniform}
use understory.App.Animation.{
  is_animation_playing, advance_player, advance_player-to, update_animation_and_play, start_anim,
}
use understory.App.Shortcuts.{
  SthStateComponent, ShortcutsText, at_rest, default_animation_callback, update_colors,
  update_geometry, new_text, corner_of, on_viewport_change, target_of, on_hover_changed,
  check_if_mouse_over_text, on_animation_progress, advance_text, grey, is_changed,
}

module _ {W M P : Type 0} (f : Float W) (g : Magnum W M P) where
  pub data Event : Type 0 where
    -- The window has got another size.
    viewport : Constraints W M → Event
    -- The mouse moves, over the text or not.
    mouse : W → Bool → Event
    frame : W → Event

  unfoldable pub step : Event → ShortcutsText W M P → ShortcutsText W M P
  unfolding on_viewport_change check_if_mouse_over_text advance_text
  step (viewport c) t = on_viewport_change f g c t
  step (mouse now hovered) t = check_if_mouse_over_text f g now hovered t
  step (frame now) t = advance_text f g now t

  unfoldable pub run : List Event → ShortcutsText W M P → ShortcutsText W M P
  unfolding step
  run [] t = t
  run (e ∷ es) t = run es (step e t)

  after_size : Event → Constraints W M → Constraints W M
  after_size (viewport c) d = c
  after_size (mouse now hovered) d = d
  after_size (frame now) d = d

  -- The last size of the window.
  unfoldable pub last_size : List Event → Constraints W M → Constraints W M
  unfolding after_size
  last_size [] c = c
  last_size (e ∷ es) c = last_size es (after_size e c)

  after_mouse : Event → Bool → Bool
  after_mouse (viewport c) b = b
  after_mouse (mouse now hovered) b = hovered
  after_mouse (frame now) b = b

  -- Whether the mouse was over the text at its last move.
  unfoldable pub last_mouse : List Event → Bool → Bool
  unfolding after_mouse
  last_mouse [] b = b
  last_mouse (e ∷ es) b = last_mouse es (after_mouse e b)

  -- The matrix of a text at this size of the window and in this state of its animation.
  unfoldable pub placed : Constraints W M → SthStateComponent W → M
  unfolding corner_of
  placed c s = g.product (corner_of f g c) (g.scaling s.scaling)

  -- Size, colours and the area that feels the mouse are those of the state `s`.
  abbrev pub Shows :
      Constraints W M → Range2D W → SthStateComponent W → ShortcutsText W M P → Type 0
  Shows c pixels_shape s t =
      (t.matrix ≡ placed c s)
      × (t.geometry ≡ transformed g (placed c s) pixels_shape)
      × (t.enlighter_color.alpha ≡ s.hauler_opacity)
      × (t.text_color.alpha ≡ s.text_opacity)

  -- The animation goes to the look that the mouse asks for.
  abbrev pub Follows : Bool → ShortcutsText W M P → Type 0
  Follows hovered t = (t.is_hovered ≡ hovered) × (t.animator.anim_state.to ≡ target_of f g hovered)

  after_look : Event → ShortcutsText W M P → SthStateComponent W → SthStateComponent W
  unfolding advance_player default_animation_callback is_animation_playing
  after_look (viewport c) t s = s
  after_look (mouse now hovered) t s = s
  after_look (frame now) t s =
      let a = advance_player g (default_animation_callback f g) now t.animator in
      if is_animation_playing g a then a.anim_state.current else s

  -- The state that the animation had in the last frame that left it playing, `s` before there is one.
  unfoldable pub last_look :
      List Event → ShortcutsText W M P → SthStateComponent W → SthStateComponent W
  unfolding after_look step
  last_look [] t s = s
  last_look (e ∷ es) t s = last_look es (step e t) (after_look e t s)

  IsLaidOut : Constraints W M → Range2D W → SthStateComponent W → ShortcutsText W M P → Type 0
  IsLaidOut c pixels_shape s t =
      (t.responsive_matrix ≡ corner_of f g c)
      × (t.shape ≡ pixels_shape)
      × (t.move_anim ≡ g.scaling s.scaling)
      × Shows c pixels_shape s t

  size-IsLaidOut :
      (c d : Constraints W M) (r : Range2D W) (s : SthStateComponent W) (t : ShortcutsText W M P)
      → IsLaidOut c r s t
      → IsLaidOut d r s (on_viewport_change f g d t)
  unfolding IsLaidOut placed on_viewport_change update_geometry
  size-IsLaidOut c d r s t (p, q, m, (x, y, a, b)) = (refl, q, m, (rw m refl, rw (m, q) refl, a, b))

  frame-IsLaidOut :
      (c : Constraints W M) (now : W) (r : Range2D W) (s : SthStateComponent W)
      (t : ShortcutsText W M P)
      → IsLaidOut c r s t
      → IsLaidOut c r (after_look (frame now) t s) (advance_text f g now t)
  unfolding IsLaidOut placed after_look advance_text on_animation_progress update_colors
      update_geometry grey
  frame-IsLaidOut c now r s t (p, q, m, h) =
      let a = advance_player g (default_animation_callback f g) now t.animator in
      elim (Bool-cases (is_animation_playing g a)) [
        | inl e ↦ rw e (p, q, refl, (rw p refl, rw (p, q) refl, refl, refl))
        | inr e ↦ rw e (p, q, m, h)
      ]

  mouse-IsLaidOut :
      (c : Constraints W M) (now : W) (hovered : Bool) (r : Range2D W) (s : SthStateComponent W)
      (t : ShortcutsText W M P)
      → IsLaidOut c r s t
      → IsLaidOut c r s (check_if_mouse_over_text f g now hovered t)
  unfolding IsLaidOut placed check_if_mouse_over_text on_hover_changed
  mouse-IsLaidOut c now hovered r s t h = elim (Bool-cases (is_changed f g t.is_hovered hovered)) [
    | inl e ↦ rw e h
    | inr e ↦ rw e h
  ]

  step-IsLaidOut :
      (e : Event) (c : Constraints W M) (r : Range2D W) (s : SthStateComponent W)
      (t : ShortcutsText W M P)
      → IsLaidOut c r s t
      → IsLaidOut (after_size e c) r (after_look e t s) (step e t)
  unfolding after_size after_look step
  step-IsLaidOut (viewport d) c r s t h = size-IsLaidOut c d r s t h
  step-IsLaidOut (mouse now hovered) c r s t h = mouse-IsLaidOut c now hovered r s t h
  step-IsLaidOut (frame now) c r s t h = frame-IsLaidOut c now r s t h

  run-IsLaidOut :
      (es : List Event) (c : Constraints W M) (r : Range2D W) (s : SthStateComponent W)
      (t : ShortcutsText W M P)
      → IsLaidOut c r s t
      → IsLaidOut (last_size es c) r (last_look es t s) (run es t)
  unfolding last_size last_look run
  run-IsLaidOut [] c r s t h = h
  run-IsLaidOut (e ∷ es) c r s t h =
      run-IsLaidOut es (after_size e c) r (after_look e t s) (step e t) (step-IsLaidOut e c r s t h)

  is_changed-false : (a b : Bool) → is_changed f g a b ≡ false → a ≡ b
  unfolding is_changed
  is_changed-false true true e = refl
  is_changed-false true false e = e
  is_changed-false false true e = sym e
  is_changed-false false false e = refl

  mouse-Follows :
      (now : W) (hovered b : Bool) (t : ShortcutsText W M P)
      → Follows b t
      → Follows hovered (check_if_mouse_over_text f g now hovered t)
  unfolding check_if_mouse_over_text on_hover_changed update_animation_and_play start_anim
  mouse-Follows now hovered b t (p, q) = elim (Bool-cases (is_changed f g t.is_hovered hovered)) [
    | inl e ↦ rw e (refl, refl)
    | inr e ↦
        let same = is_changed-false t.is_hovered hovered e in
        rw e (same, q ∙ ap (target_of f g) (sym p ∙ same))
  ]

  frame-Follows :
      (now : W) (b : Bool) (t : ShortcutsText W M P)
      → Follows b t
      → Follows b (advance_text f g now t)
  unfolding advance_text on_animation_progress update_colors update_geometry
      default_animation_callback
  frame-Follows now b t (p, q) =
      let callback = default_animation_callback f g in
      let a = advance_player g callback now t.animator in
      let to = advance_player-to g callback now t.animator (λ prc s. refl) ∙ q in
      elim (Bool-cases (is_animation_playing g a)) [ inl e ↦ rw e (p, to) | inr e ↦ rw e (p, to) ]

  step-Follows :
      (e : Event) (b : Bool) (t : ShortcutsText W M P)
      → Follows b t
      → Follows (after_mouse e b) (step e t)
  unfolding after_mouse step on_viewport_change update_geometry
  step-Follows (viewport d) b t h = h
  step-Follows (mouse now hovered) b t h = mouse-Follows now hovered b t h
  step-Follows (frame now) b t h = frame-Follows now b t h

  run-Follows :
      (es : List Event) (b : Bool) (t : ShortcutsText W M P)
      → Follows b t
      → Follows (last_mouse es b) (run es t)
  unfolding last_mouse run
  run-Follows [] b t h = h
  run-Follows (e ∷ es) b t h = run-Follows es (after_mouse e b) (step e t) (step-Follows e b t h)

  opened-IsLaidOut :
      (player : P) (r : Range2D W) (c : Constraints W M)
      → g.scaling (uniform f g (literal f 1)) ≡ g.identity
      → IsLaidOut c r (at_rest f g) (on_viewport_change f g c (new_text f g player r))
  unfolding IsLaidOut placed on_viewport_change update_geometry new_text update_colors at_rest grey
  opened-IsLaidOut player r c one =
      (refl, refl, sym one, (rw (placed, one) refl, rw (placed, one) refl, refl, refl))

  opened-Follows :
      (player : P) (r : Range2D W) (c : Constraints W M)
      → Follows false (on_viewport_change f g c (new_text f g player r))
  unfolding on_viewport_change update_geometry new_text update_colors target_of
  opened-Follows player r c = (refl, refl)

  -- If scaling by 1 is the identity: after the first size of the window and whatever sizes, moves of
  -- the mouse and frames then come, the size of the text, its place in the window as it is now, its two
  -- opacities and the area that feels the mouse are those of the state that the animation had in the
  -- last frame that left it playing, or of the look at rest before there is one; and the animation goes
  -- to the large look exactly where the last move was over the text.
  pub one_state_shown :
      (player : P) (r : Range2D W) (c : Constraints W M) (es : List Event)
      → g.scaling (uniform f g (literal f 1)) ≡ g.identity
      → Shows
          (last_size es c)
          r
          (last_look es (on_viewport_change f g c (new_text f g player r)) (at_rest f g))
          (run es (on_viewport_change f g c (new_text f g player r)))
        × Follows (last_mouse es false) (run es (on_viewport_change f g c (new_text f g player r)))
  unfolding IsLaidOut
  one_state_shown player r c es one =
      let t = on_viewport_change f g c (new_text f g player r) in
      let (p, q, m, h) = run-IsLaidOut es c r (at_rest f g) t (opened-IsLaidOut player r c one) in
      (h, run-Follows es false t (opened-Follows player r c))

  -- Two changes of the hover between two frames: the second animation starts from the look at rest,
  -- whatever is shown.
  pub second_hover_jumps :
      (now u : W) (b : Bool) (t : ShortcutsText W M P)
      → (on_hover_changed f g u (not b) (on_hover_changed f g now b t)).animator.anim_state.from
        ≡ at_rest f g
  unfolding on_hover_changed update_animation_and_play start_anim
  second_hover_jumps now u b t = refl
