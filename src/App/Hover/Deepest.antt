-- ===== src/App/Hover/Deepest.antt =====
-- The widget that the check finds (src/app/widgets/base/Container.hpp), against the geometry alone.
use mathlib.Core.Path.{subst}
use understory.Base.{
  ℕ, ◌≡◌, refl, sym, ap, ◌∙◌, inl, inr, Bool, true, false, ◌||◌, Option, none, some, ◌==◌, ==_iff,
  Bool-cases, arith,
}
use understory.App.Hover.{
  Widget, Widgets, hoverable, container, no_widget, first_widget, number, Hovering, is, check_self,
  update_latest_hovered_shape, check_if_mouse_over, check_latest, check_inner, deepest,
  deepest_inner,
}

unfoldable mutual
  pub mem : ℕ → Widget → Bool
  mem j (hoverable i) = j == i
  mem j (container i ws) = (j == i) || mem_inner j ws

  pub mem_inner : ℕ → Widgets → Bool
  mem_inner j no_widget = false
  mem_inner j (first_widget w ws) = mem j w || mem_inner j ws

-- Nothing changes of the widget of that number.
abbrev Same : ℕ → Hovering → Hovering → Type 0
Same j s t = (t.is_hovered j ≡ s.is_hovered j) × (t.latest j ≡ s.latest j)

module _ (inside : ℕ → Bool) where
  mutual
    unfolding check_if_mouse_over check_latest check_inner check_self update_latest_hovered_shape
        mem mem_inner

    check-Same :
        (w : Widget) (s : Hovering) (j : ℕ)
        → mem j w ≡ false
        → Same j s (check_if_mouse_over inside w s).1
    check-Same (hoverable i) s j h = ground arith
    check-Same (container i ws) s j h =
        let c = check_latest inside ws (s.latest i) s in
        let a = latest-Same ws (s.latest i) s j in
        let b = inner-Same i ws none (check_self inside i s) j in
        let b' = inner-Same i ws c.0 (check_self inside i c.1) j in ground arith

    latest-Same :
        (ws : Widgets) (l : Option ℕ) (s : Hovering) (j : ℕ)
        → mem_inner j ws ≡ false
        → Same j s (check_latest inside ws l s).1
    latest-Same no_widget l s j h = (refl, refl)
    latest-Same (first_widget w ws) l s j h =
        let a = check-Same w s j in let b = latest-Same ws l s j in ground arith

    inner-Same :
        (i : ℕ) (ws : Widgets) (d : Option ℕ) (s : Hovering) (j : ℕ)
        → mem_inner j ws ≡ false
        → ((check_inner inside i ws d s).1.is_hovered j ≡ s.is_hovered j)
          × (j == i ≡ false → (check_inner inside i ws d s).1.latest j ≡ s.latest j)
    inner-Same i no_widget d s j h = (refl, λ n. ground arith)
    inner-Same i (first_widget w ws) d s j h =
        let r = check_if_mouse_over inside w s in
        let a = check-Same w s j in let b = inner-Same i ws d r.1 j in ground arith

-- Every number stands once in the tree.
unfoldable mutual
  pub Distinct : Widget → Type 0
  Distinct (hoverable i) = Unit
  Distinct (container i ws) = (mem_inner i ws ≡ false) × DistinctInner ws

  pub DistinctInner : Widgets → Type 0
  DistinctInner no_widget = Unit
  DistinctInner (first_widget w ws) =
      Distinct w × ((j : ℕ) → mem j w ≡ true → mem_inner j ws ≡ false) × DistinctInner ws

mem-number : (w : Widget) → mem (number w) w ≡ true
unfolding mem
mem-number (hoverable i) = ground arith
mem-number (container i ws) = ground arith

module _ (inside : ℕ → Bool) where
  -- The inner shape that was hovered last has been checked, with the given result.
  abbrev Ready : Widgets → Option ℕ → Hovering → Option ℕ → Type 0
  Ready no_widget l s d = Unit
  Ready (first_widget w ws) l s d =
      (is (number w) l ≡ true
        → (s.is_hovered (number w) ≡ inside (number w)) × (d ≡ deepest inside w))
      × Ready ws l s d

  Ready-ap :
      (ws : Widgets) (l : Option ℕ) (s t : Hovering) (d : Option ℕ)
      → ((j : ℕ) → mem_inner j ws ≡ true → t.is_hovered j ≡ s.is_hovered j)
      → Ready ws l s d
      → Ready ws l t d
  unfolding mem_inner
  Ready-ap no_widget l s t d k r = tt
  Ready-ap (first_widget w ws) l s t d k (r, rs) = (
    (λ e. (k (number w) (let m = mem-number w in ground arith) ∙ (r e).0, (r e).1)),
    Ready-ap ws l s t d (λ j m. k j (ground arith)) rs,
  )

  -- Where the last one is none of these.
  Ready-other :
      (ws : Widgets) (l : Option ℕ) (s : Hovering) (d : Option ℕ)
      → ((j : ℕ) → mem_inner j ws ≡ true → is j l ≡ false)
      → Ready ws l s d
  unfolding mem_inner
  Ready-other no_widget l s d k = tt
  Ready-other (first_widget w ws) l s d k = (
    (λ e. absurd (let n = k (number w) (let m = mem-number w in ground arith) in cc)),
    Ready-other ws l s d (λ j m. k j (ground arith)),
  )

  is-some : (i j : ℕ) (l : Option ℕ) → is i l ≡ true → (j == i) ≡ false → is j l ≡ false
  is-some i j none e n = refl
  is-some i j (some k) e n = ground arith

  not_mem :
      (ws : Widgets) (i j : ℕ) → mem_inner i ws ≡ false → mem_inner j ws ≡ true → (j == i) ≡ false
  not_mem ws i j n m = elim (Bool-cases (j == i)) [
    | inl e ↦ absurd (let f = ap (λ x. mem_inner x ws) ((==_iff j i).0 e) in cc)
    | inr e ↦ e
  ]

  apart :
      (w : Widget) (ws : Widgets) (j : ℕ)
      → ((k : ℕ) → mem k w ≡ true → mem_inner k ws ≡ false)
      → mem_inner j ws ≡ true
      → mem j w ≡ false
  apart w ws j k m = elim (Bool-cases (mem j w)) [
    | inl e ↦ absurd (let f = k j e in cc)
    | inr e ↦ e
  ]

  mutual
    unfolding check_if_mouse_over check_latest check_inner check_self update_latest_hovered_shape
        deepest deepest_inner mem mem_inner Distinct DistinctInner

    check_sound :
        (w : Widget) (s : Hovering)
        → Distinct w
        → ((check_if_mouse_over inside w s).0 ≡ deepest inside w)
          × ((check_if_mouse_over inside w s).1.is_hovered (number w) ≡ inside (number w))
    check_sound (hoverable i) s d = ground arith
    check_sound (container i ws) s (n, ds) = elim (Bool-cases (is i (s.latest i))) [
      | inl e ↦
          let t = check_self inside i s in
          let a = inner_sound i ws none t ds n (
            Ready-other ws (t.latest i) t none
              (λ j m. is-some i j (s.latest i) e (not_mem ws i j n m))) in
          let b = inner-Same inside i ws none t i n in ground arith
      | inr e ↦
          let c = check_latest inside ws (s.latest i) s in
          let t = check_self inside i c.1 in
          let same = latest-Same inside ws (s.latest i) s i n in
          let a = inner_sound i ws c.0 t ds n (
            subst (λ l. Ready ws l t c.0) (sym same.1)
              (Ready-ap ws (s.latest i) c.1 t c.0
                (λ j m. let o = not_mem ws i j n m in ground arith)
                (latest-Ready ws (s.latest i) s ds))) in
          let b = inner-Same inside i ws c.0 t i n in ground arith
    ]

    latest-Ready :
        (ws : Widgets) (l : Option ℕ) (s : Hovering)
        → DistinctInner ws
        → Ready ws l (check_latest inside ws l s).1 (check_latest inside ws l s).0
    latest-Ready no_widget l s ds = tt
    latest-Ready (first_widget w ws) l s (dw, k, ds) = elim (Bool-cases (is (number w) l)) [
      | inl e ↦
          let here = check_sound w s dw in
          rw e (
            (λ x. (here.1, here.0)),
            Ready-other ws l (check_if_mouse_over inside w s).1 (check_if_mouse_over inside w s).0
                (λ j m.
                  is-some (number w) j l e
                    (not_mem ws (number w) j (k (number w) (mem-number w)) m)),
          )
      | inr e ↦ rw e ((λ x. absurd cc), latest-Ready ws l s ds)
    ]

    inner_sound :
        (i : ℕ) (ws : Widgets) (d : Option ℕ) (s : Hovering)
        → DistinctInner ws
        → mem_inner i ws ≡ false
        → Ready ws (s.latest i) s d
        → (check_inner inside i ws d s).0 ≡ deepest_inner inside i ws
    inner_sound i no_widget d s ds n r = refl
    inner_sound i (first_widget w ws) d s (dw, k, ds) n (r, rs) =
        let t = (check_if_mouse_over inside w s).1 in
        let here = check_sound w s dw in
        let same = check-Same inside w s i (ground arith) in
        let later = inner_sound i ws d t ds (ground arith) (
          subst (λ l. Ready ws l t d) (sym same.1)
            (Ready-ap ws (s.latest i) s t d (λ j m. (check-Same inside w s j (apart w ws j k m)).0)
              rs)) in
        elim (Bool-cases (is (number w) (s.latest i))) [
          | inl e ↦ let ready = r e in ground arith
          | inr e ↦ ground arith
        ]

-- Whatever hovered before: the check of a tree in which every number stands once finds the deepest
-- shape under the cursor, the first inner shape before the others, from the geometry alone, and the
-- tree's own shape is hovered exactly where the cursor is inside it.
pub check_finds_deepest :
    (inside : ℕ → Bool) (w : Widget) (s : Hovering)
    → Distinct w
    → ((check_if_mouse_over inside w s).0 ≡ deepest inside w)
      × ((check_if_mouse_over inside w s).1.is_hovered (number w) ≡ inside (number w))
check_finds_deepest inside w s d = check_sound inside w s d

-- Two inner shapes of which the first one overlaps the second.
abbrev pub two_shapes : ℕ → ℕ → ℕ → Widget
two_shapes i a b = container i (first_widget (hoverable a) (first_widget (hoverable b) no_widget))

abbrev pub checked : (ℕ → Bool) → Widget → Hovering → Hovering
checked inside w s = (check_if_mouse_over inside w s).1

-- Once the second shape was hovered, a cursor that moves into both shapes and then out of the second
-- one, but not out of the first one, leaves the second one marked as hovered, with the cursor outside.
pub hover_lingers :
    (i a b : ℕ) (only_b both only_a : ℕ → Bool) (s : Hovering)
    → (a == i) ≡ false
    → (b == i) ≡ false
    → (a == b) ≡ false
    → s.latest i ≡ none
    → only_b i ≡ true
    → only_b a ≡ false
    → only_b b ≡ true
    → both i ≡ true
    → both a ≡ true
    → both b ≡ true
    → only_a i ≡ true
    → only_a a ≡ true
    → only_a b ≡ false
    → let w = two_shapes i a b in
      (checked only_a w (checked both w (checked only_b w s))).is_hovered b ≡ true
unfolding check_if_mouse_over check_latest check_inner check_self update_latest_hovered_shape
hover_lingers i a b only_b both only_a s ai bi ab l b1 b2 b3 c1 c2 c3 d1 d2 d3 = ground arith
