-- ===== src/App/Scroll/Panel/Drawing.antt =====
-- When src/app/widgets/scroll/ScrollablePanel.cpp draws the panel, and what opens and closes it.
use understory.Base.{◌≡◌, refl, ap, not, ◌||◌, Bool-cases, inl, inr, some, arith}
use understory.App.Magnum.{Float, Magnum, Vector2}
use understory.App.Animation.{is_animation_playing, advance_player, default_animation_callback_v}
use understory.App.Scroll.Content.{scroll_by_offset, scroll_tick}
use understory.App.Scroll.Grid
use understory.App.Scroll.Grid.{AtomSelectorGrid}
use understory.App.Scroll.Panel.{
  ScrollablePanel, define_panel_position, requested_content, may_draw, handle_scroll_event,
  scrolled_content, scrolled_by, with_scissorable, toggle, advance_panel, propagate_matrix_changes,
}
use understory.App.Scroll.Panel.Together.{advance_frame, advance_frame-content}

module _ {W M P : Type 0} (f : Float W) (g : Magnum W M P) where
  pub may_draw-panel :
      (p : ScrollablePanel W M P)
      → (may_draw f g p).panel ≡ (p.is_toggled || is_animation_playing g p.animator)
  unfolding may_draw
  may_draw-panel p = ground arith

  abbrev pub HasContent : ScrollablePanel W M P → Type 0
  HasContent p = (c : AtomSelectorGrid W M P) × (p.content ≡ some c)

  -- A panel with content scrolls, keeps some content and stays as open as it was.
  pub scroll_goes :
      (now : W) (offset : Vector2 W) (p : ScrollablePanel W M P)
      → HasContent p
      → (q : ScrollablePanel W M P) × (handle_scroll_event f g now offset p ≡ some q)
        × HasContent q
        × (q.is_toggled ≡ p.is_toggled)
  unfolding handle_scroll_event scrolled_content scrolled_by
  scroll_goes now offset p (c, e) = (
    scrolled_by f g now p
        (with_scissorable f g c (scroll_by_offset f g (scroll_tick f g) now offset c.scissorable)),
    ap (scrolled_content f g now offset p) e,
    (_, refl),
    refl,
  )

  pub toggle-HasContent :
      (now : W) (p : ScrollablePanel W M P) → HasContent p → HasContent (toggle f g now p)
  unfolding toggle
  toggle-HasContent now p h = h

  panel_frame-HasContent :
      (pixel_size : Vector2 W) (now : W) (p : ScrollablePanel W M P)
      → HasContent p
      → HasContent (advance_panel f g pixel_size now p)
  unfolding advance_panel propagate_matrix_changes requested_content
  panel_frame-HasContent pixel_size now p (c, e) =
      let a = advance_player g (default_animation_callback_v g) now p.animator in
      let m = define_panel_position f g a.anim_state.current p.matrix in
      elim (Bool-cases (is_animation_playing g a)) [
        | inl b ↦ rw b (Grid.matrix_update_requested f g m c, ap (requested_content f g m) e)
        | inr b ↦ rw b (c, e)
      ]

  pub frame-HasContent :
      (pixel_size : Vector2 W) (now : W) (p : ScrollablePanel W M P)
      → HasContent p
      → HasContent (advance_frame f g pixel_size now p)
  frame-HasContent pixel_size now p h =
      let (c, e) = panel_frame-HasContent pixel_size now p h in
      advance_frame-content f g pixel_size now p c e

  pub toggle-is_toggled :
      (now : W) (p : ScrollablePanel W M P) → (toggle f g now p).is_toggled ≡ not p.is_toggled
  unfolding toggle
  toggle-is_toggled now p = refl

  pub frame-is_toggled :
      (pixel_size : Vector2 W) (now : W) (p : ScrollablePanel W M P)
      → (advance_frame f g pixel_size now p).is_toggled ≡ p.is_toggled
  unfolding advance_frame advance_panel propagate_matrix_changes
  frame-is_toggled pixel_size now p =
      elim (Bool-cases (
        is_animation_playing g
          (advance_player g (default_animation_callback_v g) now p.animator))) [
            | inl b ↦ rw b refl
            | inr b ↦ rw b refl
          ]
