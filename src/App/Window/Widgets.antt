-- ===== src/App/Window/Widgets.antt =====
-- The button and the panel as the constructor of src/app/USApplication.cpp joins them: the button's
-- toggle callback toggles the panel.
use understory.Base.{
  ◌≡◌, refl, ap, sym, ◌∙◌, Bool, false, not, ◌||◌, Option, none, some, Bool-cases, inl, inr, List,
  [], ◌∷◌,
}
use understory.App.Magnum.{Float, Magnum, Vector2}
use understory.App.Animation.{is_animation_playing, advance_player, default_animation_callback_v}
use understory.App.Buttons.{
  Button, AtomSelectorButton, Cursor, pressed, released, on_hover_changed, advance_button,
  handle_press_event, handle_lock_release_event, update_current_color, update_animation_y_target,
  update_geometry,
}
use understory.App.Buttons
use understory.App.Scroll.Panel
use understory.App.Scroll.Panel.{ScrollablePanel, handle_scroll_event, may_draw}
use understory.App.Scroll.Panel.Together.{advance_frame}
use understory.App.Scroll.Panel.Drawing.{
  may_draw-panel, HasContent, scroll_goes, toggle-is_toggled, toggle-HasContent, frame-is_toggled,
  frame-HasContent,
}

pub record ButtonAndPanel (W M P : Type 0) : Type 0 where
  pub button : AtomSelectorButton W M P
  pub panel : ScrollablePanel W M P
  pub cursor : Cursor

module _ {W M P : Type 0} (f : Float W) (g : Magnum W M P) where
  -- A release of the locked button, with the callback.
  unfoldable pub release_button : W → ButtonAndPanel W M P → ButtonAndPanel W M P
  unfolding released Panel.toggle
  release_button now w = record w {
    panel = Panel.toggle f g now w.panel;
    button = released f g now w.button;
  }

  hovering : AtomSelectorButton W M P × Cursor → ButtonAndPanel W M P → ButtonAndPanel W M P
  hovering (button, cursor) w = record w { button = button; cursor = cursor }

  scrolled : Option (ScrollablePanel W M P) → ButtonAndPanel W M P → Option (ButtonAndPanel W M P)
  scrolled none w = none
  scrolled (some panel) w = some (record w { panel = panel })

  pub data Event : Type 0 where
    presses : Event
    releases : W → Event
    hovers : W → Bool → Event
    wheel : W → Vector2 W → Event
    frame : Vector2 W → W → Event

  unfoldable pub step : Event → ButtonAndPanel W M P → Option (ButtonAndPanel W M P)
  unfolding pressed release_button hovering on_hover_changed scrolled handle_scroll_event
      advance_button advance_frame
  step presses w = some (record w { button = pressed f g w.button })
  step (releases now) w = some (release_button now w)
  step (hovers now is_hovered) w =
      some (hovering (on_hover_changed f g now is_hovered (w.button, w.cursor)) w)
  step (wheel now offset) w = scrolled (handle_scroll_event f g now offset w.panel) w
  step (frame pixel_size now) w = some (record w {
    button = advance_button f g now w.button;
    panel = advance_frame f g pixel_size now w.panel;
  })

  unfoldable pub run : List Event → ButtonAndPanel W M P → Option (ButtonAndPanel W M P)
  unfolding step
  run [] w = some w
  run (e ∷ es) w = elim (step e w) [ none ↦ none | some v ↦ run es v ]

  abbrev pub AreJoined : ButtonAndPanel W M P → Type 0
  AreJoined w = w.panel.is_toggled ≡ w.button.button.is_toggled

  -- The panel is as open as the button is toggled, and has its content.
  abbrev IsReady : ButtonAndPanel W M P → Type 0
  IsReady w = AreJoined w × HasContent f g w.panel

  Goes : Event → ButtonAndPanel W M P → Type 0
  Goes e w = (v : ButtonAndPanel W M P) × (step e w ≡ some v) × IsReady v

  released-AreJoined :
      (now : W) (w : ButtonAndPanel W M P) → AreJoined w → AreJoined (release_button now w)
  unfolding release_button released handle_lock_release_event Buttons.toggle update_current_color
      update_animation_y_target
  released-AreJoined now w j = toggle-is_toggled f g now w.panel ∙ ap not j

  hovered-AreJoined :
      (now : W) (is_hovered : Bool) (w : ButtonAndPanel W M P)
      → AreJoined w
      → AreJoined (hovering (on_hover_changed f g now is_hovered (w.button, w.cursor)) w)
  unfolding hovering on_hover_changed update_current_color update_animation_y_target
  hovered-AreJoined now is_hovered w j = elim (Bool-cases w.button.button.is_pre_toggled) [
    | inl b ↦ rw b j
    | inr b ↦ rw b j
  ]

  advanced-button :
      (now : W) (b : AtomSelectorButton W M P) → (advance_button f g now b).button ≡ b.button
  unfolding advance_button update_geometry
  advanced-button now b =
      elim (Bool-cases (
        is_animation_playing g
          (advance_player g (default_animation_callback_v g) now b.animator))) [
            | inl p ↦ rw p refl
            | inr p ↦ rw p refl
          ]

  wheel-Goes :
      (now : W) (offset : Vector2 W) (w : ButtonAndPanel W M P)
      → IsReady w
      → Goes (wheel now offset) w
  unfolding Goes step scrolled
  wheel-Goes now offset w (j, h) =
      let (q, s, k, t) = scroll_goes f g now offset w.panel h in
      (record w { panel = q }, ap (λ o. scrolled o w) s, (t ∙ j, k))

  step-Goes : (e : Event) (w : ButtonAndPanel W M P) → IsReady w → Goes e w
  unfolding Goes step pressed handle_press_event hovering release_button
  step-Goes presses w r = (_, refl, r)
  step-Goes (releases now) w (j, h) = (
    release_button now w,
    refl,
    (released-AreJoined now w j, toggle-HasContent f g now w.panel h),
  )
  step-Goes (hovers now is_hovered) w (j, h) = (
    hovering (on_hover_changed f g now is_hovered (w.button, w.cursor)) w,
    refl,
    (hovered-AreJoined now is_hovered w j, h),
  )
  step-Goes (wheel now offset) w r = wheel-Goes now offset w r
  step-Goes (frame pixel_size now) w (j, h) = (
    _,
    refl,
    (
      frame-is_toggled f g pixel_size now w.panel
          ∙ j
          ∙ ap (λ b. b.is_toggled) (sym (advanced-button now w.button)),
      frame-HasContent f g pixel_size now w.panel h,
    ),
  )

  run_goes :
      (es : List Event) (w : ButtonAndPanel W M P)
      → IsReady w
      → (v : ButtonAndPanel W M P) × (run es w ≡ some v) × IsReady v
  unfolding run Goes
  run_goes [] w r = (w, refl, r)
  run_goes (e ∷ es) w r =
      let (u, s, t) = step-Goes e w r in let (v, k, z) = run_goes es u t in (v, rw (run, s) k, z)

  -- From a button that is not toggled and a closed panel with its content, whatever presses, releases,
  -- hovers, turns of the wheel and frames come: none of them fails, and the panel is drawn exactly where
  -- the button is toggled or the panel is still moving.
  pub panel_follows_button :
      (es : List Event) (w : ButtonAndPanel W M P)
      → w.button.button.is_toggled ≡ false
      → w.panel.is_toggled ≡ false
      → HasContent f g w.panel
      → (v : ButtonAndPanel W M P) × (run es w ≡ some v)
        × ((may_draw f g v.panel).panel
            ≡ (v.button.button.is_toggled || is_animation_playing g v.panel.animator))
  panel_follows_button es w b p h =
      let (v, k, (j, c)) = run_goes es w (p ∙ sym b, h) in
      (v, k, may_draw-panel f g v.panel ∙ ap (λ x. x || is_animation_playing g v.panel.animator) j)

  -- Once the mouse has pressed a button that it hovers and leaves it, a release leaves the cursor the hand
  -- that the button made it, with the mouse no longer over the button.
  pub hand_stays :
      (t u : W) (w : ButtonAndPanel W M P)
      → w.cursor ≡ Buttons.hand
      → (v : ButtonAndPanel W M P) × (run (presses ∷ hovers t false ∷ releases u ∷ []) w ≡ some v)
        × (v.cursor ≡ Buttons.hand)
        × (v.button.is_hovered ≡ false)
  unfolding run step pressed handle_press_event hovering on_hover_changed release_button released
      handle_lock_release_event update_current_color update_animation_y_target
  hand_stays t u w c = (_, refl, c, refl)
