-- ===== src/App/Scroll/Panel/Resizing.antt =====
-- What two sizes of the window, one after the other, leave of a panel of
-- src/app/widgets/scroll/ScrollablePanel.cpp.
use understory.Base.{
  ◌≡◌, refl, ap, sym, ◌∙◌, Bool-cases, inl, inr, Bool, true, false, Option, none, some,
}
use understory.App.Magnum.{Float, Magnum, Vector2, Range2D, literal}
use understory.App.Scroll.Grid
use understory.App.Scroll.Grid.{AtomSelectorGrid}
use understory.App.Scroll.Content.{scroll_canvas_changed, scroll_content_changed}
use understory.App.Scroll.Scroller
use understory.App.Scroll.Scroller.{Scroller, on_content_ratio_changed}
use understory.App.Scroll.Panel.{
  ScrollablePanel, on_viewport_change, available_space_changed, update_geometry, filled,
  content_changed, panel_strip,
}

-- A panel with another scroller.
abbrev pub with_scroller :
    {W M P : Type 0} → Scroller W M P → ScrollablePanel W M P → ScrollablePanel W M P
with_scroller s p = record p { scroller = s }

module _ {W M P : Type 0} (f : Float W) (g : Magnum W M P) where
  ratio_keeps_stickness :
      (a : Vector2 W) (m : M) (ratio : W) (s : Scroller W M P)
      → (on_content_ratio_changed f g a m ratio s).stickness ≡ s.stickness
  unfolding on_content_ratio_changed
  ratio_keeps_stickness a m ratio s = elim (Bool-cases (f.lt ratio (literal f 1))) [
    | inl e ↦ rw e refl
    | inr e ↦ rw e refl
  ]

  size_keeps_stickness :
      (a : Vector2 W) (r : Range2D W) (p : ScrollablePanel W M P)
      (content : Option (AtomSelectorGrid W M P))
      → (on_viewport_change f g a r
          (record p { setup_done = true; content = content })).scroller.stickness
        ≡ p.scroller.stickness
  unfolding on_viewport_change available_space_changed update_geometry Scroller.on_viewport_change
      Scroller.available_space_changed Scroller.update_geometry filled content_changed
  size_keeps_stickness a r p none = refl
  size_keeps_stickness a r p (some content) =
      ratio_keeps_stickness a p.matrix _ (Scroller.on_viewport_change f g a p.shape p.scroller).1

  -- All that a scroller gives the content is the side where it is.
  stickness_decides :
      (b : Vector2 W) (r : Range2D W) (s u v : Scroller W M P) (p : ScrollablePanel W M P)
      (content : Option (AtomSelectorGrid W M P))
      → u.stickness ≡ v.stickness
      → with_scroller s (
          on_viewport_change f g b r
            (record p { setup_done = true; content = content; scroller = u }))
        ≡ with_scroller s (
            on_viewport_change f g b r
              (record p { setup_done = true; content = content; scroller = v }))
  unfolding on_viewport_change available_space_changed update_geometry Scroller.on_viewport_change
      Scroller.available_space_changed filled content_changed
  stickness_decides b r s u v p none e = refl
  stickness_decides b r s u v p (some content) e = rw e refl

  later_settles :
      (a b : Vector2 W) (r : Range2D W) (s : Scroller W M P) (p : ScrollablePanel W M P)
      (content : Option (AtomSelectorGrid W M P))
      → with_scroller s (
          on_viewport_change f g b r
            (on_viewport_change f g a r (record p { setup_done = true; content = content })))
        ≡ with_scroller s
            (on_viewport_change f g b r (record p { setup_done = true; content = content }))
  unfolding on_viewport_change available_space_changed update_geometry Scroller.on_viewport_change
      Scroller.available_space_changed filled content_changed Grid.available_space_changed
      Grid.update_geometry scroll_canvas_changed scroll_content_changed
  later_settles a b r s p none = refl
  later_settles a b r s p (some content) =
      let q = on_viewport_change f g a r (record p { setup_done = true; content = some content }) in
      stickness_decides b r s q.scroller p.scroller q q.content
        (size_keeps_stickness a r p (some content))

  -- The first size only sets the shape, the same for every size.
  first_size :
      (a : Vector2 W) (r : Range2D W) (p : ScrollablePanel W M P)
      → on_viewport_change f g a r (record p { setup_done = false })
        ≡ on_viewport_change f g a r
            (record p { setup_done = true; shape = panel_strip f g p.stickness p.thickness r })
  unfolding on_viewport_change available_space_changed
  first_size a r p = refl

  settles :
      (a b : Vector2 W) (r : Range2D W) (s : Scroller W M P) (p : ScrollablePanel W M P) (d : Bool)
      → with_scroller s
          (on_viewport_change f g b r (on_viewport_change f g a r (record p { setup_done = d })))
        ≡ with_scroller s (on_viewport_change f g b r (record p { setup_done = d }))
  settles a b r s p true = later_settles a b r s p p.content
  settles a b r s p false =
      let q = record p { shape = panel_strip f g p.stickness p.thickness r } in
      ap (λ o. with_scroller s (on_viewport_change f g b r o)) (first_size a r p)
      ∙ later_settles a b r s q p.content
      ∙ sym (ap (with_scroller s) (first_size b r p))

  -- Only the last one counts, but for the scroller.
  pub panel_settles :
      (a b : Vector2 W) (r : Range2D W) (s : Scroller W M P) (p : ScrollablePanel W M P)
      → with_scroller s (on_viewport_change f g b r (on_viewport_change f g a r p))
        ≡ with_scroller s (on_viewport_change f g b r p)
  panel_settles a b r s p = settles a b r s p p.setup_done
