-- ===== src/App/Hover.antt =====
-- src/app/widgets/base/Hoverable.hpp and Container.hpp: which widget the cursor is over. A widget is
-- known by its number, and what it keeps is in a store under that number. `inside` says of each
-- widget whether its geometry contains the cursor, a test of Magnum on floats.
pub mod Deepest
use understory.Base.{ℕ, ◌≡◌, Bool, true, false, not, ◌&&◌, Option, none, some, if◌then◌else◌, ◌==◌}

mutual
  pub data Widget : Type 0 where
    hoverable : ℕ → Widget
    container : ℕ → Widgets → Widget

  -- `_innerShapes`
  pub data Widgets : Type 0 where
    no_widget : Widgets
    first_widget : Widget → Widgets → Widgets

abbrev pub number : Widget → ℕ
number (hoverable i) = i
number (container i ws) = i

-- `_isHovered` of each widget, and `_latestHoveredShape` of each container: itself, an inner shape,
-- or `none` for the null pointer.
pub record Hovering : Type 0 where
  pub is_hovered : ℕ → Bool
  pub latest : ℕ → Option ℕ

abbrev pub is : ℕ → Option ℕ → Bool
is i none = false
is i (some j) = i == j

unfoldable pub update_latest_hovered_shape : ℕ → Option ℕ → Hovering → Hovering
update_latest_hovered_shape i shape s = record s {
  latest = λ j. if j == i then shape else s.latest j;
}

module _ (inside : ℕ → Bool) where
  -- `Hoverable::_checkIfMouseOver`, without the call back.
  unfoldable pub check_self : ℕ → Hovering → Hovering
  check_self i s = record s { is_hovered = λ j. if j == i then inside i else s.is_hovered j }

  unfoldable mutual
    -- `_checkIfMouseOver`: the deepest shape that is hovered.
    pub check_if_mouse_over : Widget → Hovering → Option ℕ × Hovering
    check_if_mouse_over (hoverable i) s = ((if inside i then some i else none), check_self i s)
    check_if_mouse_over (container i ws) s =
        let checked = check_latest ws (s.latest i) s in
        let first = if is i (s.latest i) then (none, s) else checked in
        let t = check_self i first.1 in
        let rest = check_inner i ws first.0 t in
        if t.is_hovered i then rest else (none, update_latest_hovered_shape i none t)

    -- The inner shape that was hovered last, if it is one, is checked first.
    pub check_latest : Widgets → Option ℕ → Hovering → Option ℕ × Hovering
    check_latest no_widget latest s = (none, s)
    check_latest (first_widget w ws) latest s =
        let here = check_if_mouse_over w s in
        let later = check_latest ws latest s in if is (number w) latest then here else later

    -- The loop over the inner shapes.
    pub check_inner : ℕ → Widgets → Option ℕ → Hovering → Option ℕ × Hovering
    check_inner i no_widget deepest_latest s = (some i, update_latest_hovered_shape i (some i) s)
    check_inner i (first_widget w ws) deepest_latest s =
        let here = check_if_mouse_over w s in
        let later = check_inner i ws deepest_latest here.1 in
        if is (number w) (s.latest i) && s.is_hovered (number w)
        then (deepest_latest, s)
        else (if here.1.is_hovered (number w)
            then (here.0, update_latest_hovered_shape i (some (number w)) here.1)
            else later)

  -- The deepest shape under the cursor, the first inner shape before the others.
  unfoldable mutual
    pub deepest : Widget → Option ℕ
    deepest (hoverable i) = if inside i then some i else none
    deepest (container i ws) = let inner = deepest_inner i ws in if inside i then inner else none

    pub deepest_inner : ℕ → Widgets → Option ℕ
    deepest_inner i no_widget = some i
    deepest_inner i (first_widget w ws) =
        let here = deepest w in
        let later = deepest_inner i ws in if inside (number w) then here else later
