-- ===== src/App/Bubble.antt =====
-- The scroll events of src/app/widgets/base/AppContainer.hpp, which go from the deepest hovered widget up
-- its parents until a widget handles them. `handles` says which classes handle scroll events, the
-- dynamic_cast of `_tryHandleEvent`.
use understory.Base.{
  ℕ, ◌≡◌, refl, ap, sym, ◌∙◌, Bool, true, false, ◌==◌, inl, inr, List, [], ◌∷◌, ◌++◌, Option, none,
  some, is_empty, if◌then◌else◌, Bool-cases, none-ne-some, eq_of_some, ◌≢◌,
}
use understory.App.Hover.{Widget, hoverable, container, Widgets, no_widget, first_widget}

unfoldable mutual
  -- A widget and its parents up to the root of the tree, empty where the tree does not have it: what
  -- `parent()` leads through.
  pub parents_of : ℕ → Widget → List ℕ
  parents_of i (hoverable j) = if i == j then j ∷ [] else []
  parents_of i (container j ws) =
      let inner = parents_among i ws in
      let above = if is_empty inner then [] else inner ++ j ∷ [] in if i == j then j ∷ [] else above

  pub parents_among : ℕ → Widgets → List ℕ
  parents_among i no_widget = []
  parents_among i (first_widget w ws) =
      let here = parents_of i w in
      let later = parents_among i ws in if is_empty here then later else here

true-ne-false : true ≢ false
true-ne-false e = cc

-- The way up ends at the root.
parents-last :
    (i j : ℕ) (ws : Widgets)
    → is_empty (parents_of i (container j ws)) ≡ false
    → (front : List ℕ) × (parents_of i (container j ws) ≡ front ++ j ∷ [])
unfolding parents_of
parents-last i j ws h = elim (Bool-cases (i == j)) [
  | inl b ↦ ([], rw b refl)
  | inr b ↦ elim (Bool-cases (is_empty (parents_among i ws))) [
    | inl c ↦ absurd (true-ne-false (rw (b, c) at h))
    | inr c ↦ (parents_among i ws, rw (b, c) refl)
  ]
]

module _ (handles : ℕ → Bool) where
  -- `_propagateEvent`: the widget that handles the event, of a target and its parents.
  unfoldable pub propagate_event : List ℕ → Option ℕ
  propagate_event [] = none
  propagate_event (target ∷ parents) =
      let above = propagate_event parents in if handles target then some target else above

  unfoldable pub propagate_scroll_event : Option ℕ → Widget → Option ℕ
  unfolding propagate_event parents_of
  propagate_scroll_event none window = none
  propagate_scroll_event (some deepest) window = propagate_event (parents_of deepest window)

  -- No widget of the list handles the event.
  abbrev pub NoneHandles : List ℕ → Type 0
  NoneHandles [] = Unit
  NoneHandles (w ∷ ws) = (handles w ≡ false) × NoneHandles ws

  -- The widget that handles the event is the nearest one that can.
  pub propagate_event_nearest :
      (ws : List ℕ) (w : ℕ)
      → propagate_event ws ≡ some w
      → (before : List ℕ) × (after : List ℕ) × (ws ≡ before ++ w ∷ after)
        × NoneHandles before
        × (handles w ≡ true)
  unfolding propagate_event
  propagate_event_nearest [] w h = absurd (none-ne-some h)
  propagate_event_nearest (v ∷ ws) w h = elim (Bool-cases (handles v)) [
    | inl b ↦
        let e = eq_of_some (rw b at h) in ([], ws, ap (λ x. x ∷ ws) e, tt, ap handles (sym e) ∙ b)
    | inr b ↦
        let (before, after, e, n, k) = propagate_event_nearest ws w (rw b at h) in
        (v ∷ before, after, ap (λ x. v ∷ x) e, (b, n), k)
  ]

  propagate_event_last :
      (ws : List ℕ) (w : ℕ) → handles w ≡ true → (v : ℕ) × (propagate_event (ws ++ w ∷ []) ≡ some v)
  unfolding propagate_event
  propagate_event_last [] w h = (w, rw h refl)
  propagate_event_last (u ∷ ws) w h = elim (Bool-cases (handles u)) [
    | inl b ↦ (u, rw b refl)
    | inr b ↦ let (v, e) = propagate_event_last ws w h in (v, rw b e)
  ]

  -- Where the window handles scroll events, one over any of its shapes is handled, by the nearest shape
  -- that can on the way up from it.
  pub scroll_reaches :
      (deepest window_number : ℕ) (ws : Widgets)
      → handles window_number ≡ true
      → is_empty (parents_of deepest (container window_number ws)) ≡ false
      → (v : ℕ) × (before : List ℕ) × (after : List ℕ) × (propagate_scroll_event
            (some deepest)
            (container window_number ws)
          ≡ some v)
        × (parents_of deepest (container window_number ws) ≡ before ++ v ∷ after)
        × NoneHandles before
        × (handles v ≡ true)
  unfolding propagate_scroll_event
  scroll_reaches deepest window_number ws h e =
      let (front, k) = parents-last deepest window_number ws e in
      let (v, p) = propagate_event_last front window_number h in
      let q = ap propagate_event k ∙ p in
      let (before, after, s, n, t) = propagate_event_nearest _ v q in (v, before, after, q, s, n, t)
