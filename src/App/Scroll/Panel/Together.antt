-- ===== src/App/Scroll/Panel/Together.antt =====
-- The content and the handle of a panel (src/app/widgets/scroll/ScrollablePanel.cpp) go to places that
-- fit together.
use understory.Base.{
  ◌≡◌, refl, ap, sym, ◌∙◌, Bool-cases, inl, inr, Option, none, some, List, [], ◌∷◌,
}
use understory.Base.Integers.{ℤ}
use understory.App.Magnum.{Float, Magnum, Vector2}
use understory.App.Animation.{
  update_animation_and_play, start_anim, set_animation_keyframe, stop_anim, advance_player,
  default_animation_callback_v, is_animation_playing,
}
use understory.App.Scroll.{
  animate_scroll_by_tr, inplace_scroll_to, advance_scroll, advance_scroll-to,
}
use understory.App.Scroll.Content.{
  max_translate, scroll_by_content_size, scroll_by_offset, scroll_by_percent_tick, scroll_tick,
}
use understory.App.Scroll.Handle
use understory.App.Scroll.Handle.{
  ScrollerHandle, advance_handle, handle_lock_move_event, animate_by_percentage,
  inplace_by_percentage, update_geometry_keeps, advance_handle_keeps, matrix_update_requested_keeps,
}
use understory.App.Scroll.Grid
use understory.App.Scroll.Grid.{AtomSelectorGrid}
use understory.App.Scroll.Panel.{
  ScrollablePanel, handle_scroll_event, drag_handle, scroll_from_handle, toggle, advance_panel,
  scrolled_by, scrolled_content, dragged_by, dragged_content, ticked, with_scissorable,
  define_panel_position, requested_content, propagate_matrix_changes,
}

module _ {W M P : Type 0} (f : Float W) (g : Magnum W M P) where
  -- Where the content goes, and where the handle goes: back by the same share of its way.
  pub record GoTogether (c : AtomSelectorGrid W M P) (h : ScrollerHandle W M P) : Type 0 where
    pub content : c.scissorable.scrollable.animator.anim_state.to ≡ c.scissorable.translation_factor
    pub handle :
        h.scrollable.animator.anim_state.to
        ≡ f.mul
            (f.neg h.translation_gap)
            (f.div c.scissorable.translation_factor (max_translate f g c.scissorable))

  abbrev pub IsTogether : ScrollablePanel W M P → Type 0
  IsTogether p =
      (c : AtomSelectorGrid W M P) × (p.content ≡ some c) × GoTogether c p.scroller.handle

  pub data Event : Type 0 where
    -- A turn of the wheel, and a move of the mouse while the handle is held.
    wheel : W → Vector2 W → Event
    drag : Vector2 W → W → Vector2 ℤ → Event
    toggles : W → Event
    -- `TimelineBound::advance`: a frame of the panel, the content and the handle.
    frame : Vector2 W → W → Event

  advanced_content : W → Option (AtomSelectorGrid W M P) → Option (AtomSelectorGrid W M P)
  advanced_content now none = none
  advanced_content now (some c) = some (record c {
    scissorable = record c.scissorable {
      scrollable = advance_scroll f g now c.scissorable.scrollable;
    };
  })

  unfoldable pub advance_frame : Vector2 W → W → ScrollablePanel W M P → ScrollablePanel W M P
  unfolding advanced_content
  advance_frame pixel_size now p =
      let q = advance_panel f g pixel_size now p in
      record q {
        scroller = record q.scroller {
          handle = advance_handle f g pixel_size q.matrix now q.scroller.handle;
        };
        content = advanced_content now q.content;
      }

  pub advance_frame-content :
      (pixel_size : Vector2 W) (now : W) (p : ScrollablePanel W M P) (c : AtomSelectorGrid W M P)
      → (advance_panel f g pixel_size now p).content ≡ some c
      → (d : AtomSelectorGrid W M P) × ((advance_frame pixel_size now p).content ≡ some d)
  unfolding advance_frame advanced_content
  advance_frame-content pixel_size now p c e = (_, ap (advanced_content now) e)

  unfoldable pub step : Event → ScrollablePanel W M P → Option (ScrollablePanel W M P)
  unfolding advance_frame
  step (wheel now offset) p = handle_scroll_event f g now offset p
  step (drag pixel_size now relative_position) p =
      drag_handle f g pixel_size now relative_position p
  step (toggles now) p = some (toggle f g now p)
  step (frame pixel_size now) p = some (advance_frame pixel_size now p)

  unfoldable pub run : List Event → ScrollablePanel W M P → Option (ScrollablePanel W M P)
  unfolding step
  run [] p = some p
  run (e ∷ es) p = elim (step e p) [ none ↦ none | some q ↦ run es q ]

  abbrev Goes : Event → ScrollablePanel W M P → Type 0
  Goes e p = (q : ScrollablePanel W M P) × (step e p ≡ some q) × IsTogether q

  wheel-Goes :
      (now : W) (offset : Vector2 W) (c : AtomSelectorGrid W M P) (p : ScrollablePanel W M P)
      → p.content ≡ some c
      → Goes (wheel now offset) p
  unfolding step handle_scroll_event scrolled_content scrolled_by with_scissorable scroll_by_offset
      scroll_by_content_size animate_by_percentage animate_scroll_by_tr update_animation_and_play
      start_anim
  wheel-Goes now offset c p e = (
    scrolled_by f g now p
        (with_scissorable f g c (scroll_by_offset f g (scroll_tick f g) now offset c.scissorable)),
    ap (scrolled_content f g now offset p) e,
    (_, refl, record { content = refl; handle = refl }),
  )

  dragged-IsTogether :
      (pixel_size : Vector2 W) (now tick : W) (c : AtomSelectorGrid W M P)
      (p : ScrollablePanel W M P)
      → IsTogether (
          dragged_by f g pixel_size p
            (with_scissorable f g c (scroll_by_percent_tick f g now tick c.scissorable)))
  unfolding dragged_by with_scissorable scroll_by_percent_tick scroll_by_content_size
      inplace_by_percentage inplace_scroll_to set_animation_keyframe stop_anim
  dragged-IsTogether pixel_size now tick c p = (_, refl, record { content = refl; handle = refl })

  ticked-Goes :
      (pixel_size : Vector2 W) (now : W) (p : ScrollablePanel W M P) (tick : Option W)
      → IsTogether p
      → (q : ScrollablePanel W M P) × (ticked f g pixel_size now p tick ≡ some q) × IsTogether q
  unfolding ticked scroll_from_handle dragged_content
  ticked-Goes pixel_size now p none t = (p, refl, t)
  ticked-Goes pixel_size now p (some tick) (c, e, t) = (
    dragged_by f g pixel_size p
        (with_scissorable f g c (scroll_by_percent_tick f g now tick c.scissorable)),
    ap (dragged_content f g pixel_size now tick p) e,
    dragged-IsTogether pixel_size now tick c p,
  )

  toggle-IsTogether :
      (now : W) (p : ScrollablePanel W M P) → IsTogether p → IsTogether (toggle f g now p)
  unfolding toggle
  toggle-IsTogether now p t = t

  propagate-IsTogether :
      (pixel_size : Vector2 W) (p : ScrollablePanel W M P)
      → IsTogether p
      → IsTogether (propagate_matrix_changes f g pixel_size p)
  unfolding propagate_matrix_changes requested_content Grid.matrix_update_requested
      Grid.update_geometry Handle.matrix_update_requested Handle.update_geometry
  propagate-IsTogether pixel_size p (c, e, t) = (
    Grid.matrix_update_requested f g p.matrix c,
    ap (requested_content f g p.matrix) e,
    record { content = t.content; handle = t.handle },
  )

  panel_frame-IsTogether :
      (pixel_size : Vector2 W) (now : W) (p : ScrollablePanel W M P)
      → IsTogether p
      → IsTogether (advance_panel f g pixel_size now p)
  unfolding advance_panel
  panel_frame-IsTogether pixel_size now p (c, e, t) =
      let a = advance_player g (default_animation_callback_v g) now p.animator in
      let placed = record p {
        animator = a;
        matrix = define_panel_position f g a.anim_state.current p.matrix;
      } in
      elim (Bool-cases (is_animation_playing g a)) [
        | inl b ↦ rw b (propagate-IsTogether pixel_size placed (c, e, t))
        | inr b ↦ rw b (c, e, t)
      ]

  frame-IsTogether :
      (pixel_size : Vector2 W) (now : W) (p : ScrollablePanel W M P)
      → IsTogether p
      → IsTogether (advance_frame pixel_size now p)
  unfolding advance_frame advanced_content
  frame-IsTogether pixel_size now p t0 =
      let (c, e, t) = panel_frame-IsTogether pixel_size now p t0 in
      let q = advance_panel f g pixel_size now p in
      let (to, gap) = advance_handle_keeps f g pixel_size q.matrix now q.scroller.handle in
      (
        _,
        ap (advanced_content now) e,
        record {
          content = advance_scroll-to f g now c.scissorable.scrollable ∙ t.content;
          handle =
              to
              ∙ t.handle
              ∙ ap
                  (λ x.
                    f.mul (f.neg x)
                      (f.div c.scissorable.translation_factor (max_translate f g c.scissorable)))
                  (sym gap);
        },
      )

  step-Goes : (e : Event) (p : ScrollablePanel W M P) → IsTogether p → Goes e p
  unfolding step drag_handle
  step-Goes (wheel now offset) p (c, e, t) = wheel-Goes now offset c p e
  step-Goes (drag pixel_size now relative_position) p t =
      ticked-Goes pixel_size now p
        (handle_lock_move_event f g pixel_size relative_position p.scroller.handle) t
  step-Goes (toggles now) p t = (toggle f g now p, refl, toggle-IsTogether now p t)
  step-Goes (frame pixel_size now) p t =
      (advance_frame pixel_size now p, refl, frame-IsTogether pixel_size now p t)

  run-IsTogether :
      (es : List Event) (p : ScrollablePanel W M P)
      → IsTogether p
      → (q : ScrollablePanel W M P) × (run es p ≡ some q) × IsTogether q
  unfolding run
  run-IsTogether [] p t = (p, refl, t)
  run-IsTogether (e ∷ es) p t =
      let (q, s, u) = step-Goes e p t in
      let (r, k, v) = run-IsTogether es q u in (r, rw (run, s) k, v)

  -- Whatever the sizes and the places before: after a turn of the wheel over a panel with its content,
  -- and then any turns, drags of the handle, toggles and frames, the content is on its way to where the
  -- scroll has got, and the handle to the same share of its own way.
  pub content_and_handle_agree :
      (now : W) (offset : Vector2 W) (es : List Event) (c : AtomSelectorGrid W M P)
      (p : ScrollablePanel W M P)
      → p.content ≡ some c
      → (q : ScrollablePanel W M P) × (run (wheel now offset ∷ es) p ≡ some q) × IsTogether q
  unfolding run
  content_and_handle_agree now offset es c p e =
      let (q, s, t) = wheel-Goes now offset c p e in
      let (r, k, v) = run-IsTogether es q t in (r, rw (run, s) k, v)
