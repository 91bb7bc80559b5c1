-- ===== src/App/Scroll/Content.antt =====
-- src/app/widgets/scroll/Scissorable.cpp: how far the content of a panel is scrolled. The scissor
-- itself is drawing.
use understory.Base.{
  ◌≡◌, refl, ap, ◌∙◌, Bool, true, false, List, [], ◌∷◌, if◌then◌else◌, Bool-cases, inl, inr,
}
use understory.App.Magnum.{Float, Magnum, Vector2, Range2D, literal, IsIrreflexive}
use understory.App.Scroll.{
  Scrollable, extract_scrollable_size, animate_scroll_by_tr, inplace_scroll_to,
}

pub record Scissorable (W M P : Type 0) : Type 0 where
  pub scrollable : Scrollable W M P
  pub translation_factor : W
  pub canvas_size : W
  pub content_size : W

module _ {W M P : Type 0} (f : Float W) (g : Magnum W M P) where
  unfoldable pub scroll_canvas_changed : Range2D W → Scissorable W M P → Scissorable W M P
  unfolding extract_scrollable_size
  scroll_canvas_changed canvas s = record s {
    canvas_size = extract_scrollable_size s.scrollable.growable_axis (g.size canvas);
  }

  -- The ratio that the scroller is told, and the content's state.
  unfoldable pub scroll_content_changed : Range2D W → Scissorable W M P → W × Scissorable W M P
  unfolding extract_scrollable_size
  scroll_content_changed content s =
      let t = record s {
        content_size = extract_scrollable_size s.scrollable.growable_axis (g.size content);
      } in
      (f.div t.canvas_size t.content_size, t)

  unfoldable pub scroll_tick : W
  scroll_tick = literal f 1

  -- "stop at min/max"
  unfoldable pub stop_at : W → W → W
  stop_at max_translate factor =
      if f.lt factor (literal f 0)
      then literal f 0
      else if f.lt max_translate factor
      then max_translate
      else factor

  -- The progression, and the content's state.
  unfoldable pub scroll_by_content_size : W → W → Bool → Scissorable W M P → W × Scissorable W M P
  unfolding stop_at animate_scroll_by_tr inplace_scroll_to
  scroll_by_content_size now content_size_tick animate s =
      let max_translate = f.sub s.content_size s.canvas_size in
      let factor = stop_at max_translate (f.add s.translation_factor content_size_tick) in
      (
        f.div factor max_translate,
        record s {
          translation_factor = factor;
          scrollable =
              if animate
              then animate_scroll_by_tr f g now factor s.scrollable
              else inplace_scroll_to f g factor s.scrollable;
        },
      )

  -- The first argument is `_scrollTick()`, which is virtual.
  unfoldable pub scroll_by_offset : W → W → Vector2 W → Scissorable W M P → W × Scissorable W M P
  unfolding scroll_by_content_size
  scroll_by_offset tick now scroll_offset s =
      scroll_by_content_size now (f.neg (f.mul scroll_offset.y tick)) true s

  unfoldable pub scroll_by_percent_tick : W → W → Scissorable W M P → W × Scissorable W M P
  unfolding scroll_by_content_size
  scroll_by_percent_tick now prc s =
      scroll_by_content_size now (f.mul (f.sub s.content_size s.canvas_size) prc) false s

  abbrev pub max_translate : Scissorable W M P → W
  max_translate s = f.sub s.content_size s.canvas_size

  -- Neither before the start nor behind the end.
  abbrev pub InBounds : Scissorable W M P → Type 0
  InBounds s =
      (f.lt s.translation_factor (literal f 0) ≡ false)
      × (f.lt (max_translate s) s.translation_factor ≡ false)

  -- A scroll by the wheel, at a tick and a time, or by the handle.
  pub data Scroll : Type 0 where
    by_offset : W → W → Vector2 W → Scroll
    by_percent : W → W → Scroll

  unfoldable pub scroll : Scroll → Scissorable W M P → Scissorable W M P
  unfolding scroll_by_offset scroll_by_percent_tick
  scroll (by_offset tick now offset) s = (scroll_by_offset tick now offset s).1
  scroll (by_percent now prc) s = (scroll_by_percent_tick now prc s).1

  unfoldable pub scroll_all : List Scroll → Scissorable W M P → Scissorable W M P
  unfolding scroll
  scroll_all [] s = s
  scroll_all (e ∷ es) s = scroll_all es (scroll e s)

  stop_at-between :
      (m x : W)
      → IsIrreflexive f
      → f.lt m (literal f 0) ≡ false
      → (f.lt (stop_at m x) (literal f 0) ≡ false) × (f.lt m (stop_at m x) ≡ false)
  unfolding stop_at
  stop_at-between m x i h = elim (Bool-cases (f.lt x (literal f 0))) [
    | inl b ↦ rw b (i (literal f 0), h)
    | inr b ↦ elim (Bool-cases (f.lt m x)) [ inl c ↦ rw (b, c) (h, i m) | inr c ↦ rw (b, c) (b, c) ]
  ]

  scroll-InBounds :
      (e : Scroll) (s : Scissorable W M P)
      → IsIrreflexive f
      → f.lt (max_translate s) (literal f 0) ≡ false
      → InBounds (scroll e s) × (max_translate (scroll e s) ≡ max_translate s)
  unfolding scroll scroll_by_offset scroll_by_percent_tick scroll_by_content_size
  scroll-InBounds (by_offset tick now offset) s i h =
      (stop_at-between (max_translate s) _ i h, refl)
  scroll-InBounds (by_percent now prc) s i h = (stop_at-between (max_translate s) _ i h, refl)

  -- Where no float is less than itself and the most that the sizes allow is not below 0: after some
  -- scrolls, at least one, the translation is neither below 0 nor above that most, wherever it was
  -- before.
  pub scroll_all-InBounds :
      (e : Scroll) (es : List Scroll) (s : Scissorable W M P)
      → IsIrreflexive f
      → f.lt (max_translate s) (literal f 0) ≡ false
      → InBounds (scroll_all (e ∷ es) s)
  unfolding scroll_all
  scroll_all-InBounds e [] s i h = (scroll-InBounds e s i h).0
  scroll_all-InBounds e (d ∷ es) s i h =
      scroll_all-InBounds d es (scroll e s) i
        (ap (λ m. f.lt m (literal f 0)) (scroll-InBounds e s i h).1 ∙ h)
