-- ===== src/App/Keyboard.antt =====
-- src/app/widgets/navigation/KeyboardMovements.hpp, and the events of KeyboardMoveHelper.hpp. A
-- direction along an axis is `none` for the zero vector, or the `indirection` that `goBy` is given.
-- Speeds and times are floats, and left out.
use mathlib.Core.Path.{subst}
use understory.Base.{
  ◌≡◌, ◌≢◌, refl, ◌∙◌, Bool, true, false, not, ◌||◌, List, [], ◌∷◌, Option, none, some,
  if◌then◌else◌, arith,
}

pub data Key : Type 0 where
  left right up down other : Key

pub record AxisMomentum : Type 0 where
  pub current_direction : Option Bool
  pub momentum_direction : Option Bool

unfoldable pub go_by : Bool → AxisMomentum → AxisMomentum
go_by indirection axis = record axis { current_direction = some indirection }

unfoldable pub define_momentum : AxisMomentum → AxisMomentum
define_momentum axis = record axis {
  momentum_direction = axis.current_direction;
  current_direction = none;
}

pub record KeyboardMovements : Type 0 where
  pub moving_left : Bool
  pub moving_right : Bool
  pub moving_up : Bool
  pub moving_down : Bool
  pub latest_v : Bool
  pub latest_h : Bool

unfoldable pub vertical_pressed : KeyboardMovements → Bool
vertical_pressed k = k.moving_up || k.moving_down

unfoldable pub horizontal_pressed : KeyboardMovements → Bool
horizontal_pressed k = k.moving_left || k.moving_right

-- `updateState`: the value that the latest direction gets.
unfoldable pub update_state : Bool → Bool → Bool
update_state is_press indirection_val = if is_press then indirection_val else not indirection_val

-- Whether the key stands for a movement, and the state after it.
unfoldable pub ack_movement : Key → Bool → KeyboardMovements → Bool × KeyboardMovements
unfolding update_state
ack_movement left is_press k =
    (true, record k { moving_left = is_press; latest_h = update_state is_press false })
ack_movement right is_press k =
    (true, record k { moving_right = is_press; latest_h = update_state is_press true })
ack_movement up is_press k =
    (true, record k { moving_up = is_press; latest_v = update_state is_press true })
ack_movement down is_press k =
    (true, record k { moving_down = is_press; latest_v = update_state is_press false })
ack_movement other is_press k = (false, k)

pub record KeyboardMoveHelper : Type 0 where
  pub km : KeyboardMovements
  pub x : AxisMomentum
  pub y : AxisMomentum

-- `stopAnim`, and the state of a new helper.
unfoldable pub stop_anim : KeyboardMoveHelper
stop_anim = record {
  km = record {
    moving_left = false;
    moving_right = false;
    moving_up = false;
    moving_down = false;
    latest_v = false;
    latest_h = false;
  };
  x = record { current_direction = none; momentum_direction = none };
  y = record { current_direction = none; momentum_direction = none };
}

update_axis : Bool → Bool → AxisMomentum → AxisMomentum
unfolding go_by define_momentum
update_axis pressed latest axis = if pressed then go_by latest axis else define_momentum axis

unfoldable pub update_momentum : Key → KeyboardMoveHelper → KeyboardMoveHelper
unfolding update_axis horizontal_pressed vertical_pressed
update_momentum left h = record h { x = update_axis (horizontal_pressed h.km) h.km.latest_h h.x }
update_momentum right h = record h { x = update_axis (horizontal_pressed h.km) h.km.latest_h h.x }
update_momentum up h = record h { y = update_axis (vertical_pressed h.km) h.km.latest_v h.y }
update_momentum down h = record h { y = update_axis (vertical_pressed h.km) h.km.latest_v h.y }
update_momentum other h = h

pub record KeyEvent : Type 0 where
  pub key : Key
  pub is_press : Bool
  pub is_repeated : Bool

unfoldable pub key_event : KeyEvent → KeyboardMoveHelper → KeyboardMoveHelper
unfolding ack_movement update_momentum
key_event e h =
    let (is_movement, km) = ack_movement e.key e.is_press h.km in
    let acked = record h { km = km } in
    let moved = update_momentum e.key acked in
    if e.is_repeated then h else (if is_movement then moved else acked)

unfoldable pub run : List KeyEvent → KeyboardMoveHelper → KeyboardMoveHelper
unfolding key_event
run [] h = h
run (e ∷ es) h = run es (key_event e h)

abbrev pub is_key : Key → Key → Bool
is_key left left = true
is_key right right = true
is_key up up = true
is_key down down = true
is_key other other = true
is_key _ _ = false

-- Whether a key is down after some events, from whether it was before.
unfoldable pub held : Key → List KeyEvent → Bool → Bool
held k [] before = before
held k (e ∷ es) before =
    let unchanged = held k es before in
    let changed = held k es e.is_press in
    if e.is_repeated then unchanged else (if is_key k e.key then changed else unchanged)

-- The direction for two opposite keys: none, the one that is held, or one of the two.
abbrev pub Points : Bool → Bool → Option Bool → Type 0
Points false false d = d ≡ none
Points true false d = d ≡ some false
Points false true d = d ≡ some true
Points true true d = d ≢ none

-- The latest direction is a held key's, where just one is held.
abbrev Latest : Bool → Bool → Bool → Type 0
Latest true false latest = latest ≡ false
Latest false true latest = latest ≡ true
Latest _ _ latest = Unit

record IsCoherent (h : KeyboardMoveHelper) : Type 0 where
  latest_x : Latest h.km.moving_left h.km.moving_right h.km.latest_h
  latest_y : Latest h.km.moving_down h.km.moving_up h.km.latest_v
  points_x : Points h.km.moving_left h.km.moving_right h.x.current_direction
  points_y : Points h.km.moving_down h.km.moving_up h.y.current_direction

key_event-IsCoherent :
    (k : Key) (is_press is_repeated : Bool) (h : KeyboardMoveHelper)
    → IsCoherent h
    → IsCoherent (key_event (record { key = k; is_press = is_press; is_repeated = is_repeated }) h)
unfolding key_event ack_movement update_state update_momentum update_axis go_by define_momentum
    horizontal_pressed vertical_pressed
key_event-IsCoherent left is_press is_repeated h c = ground arith
key_event-IsCoherent right is_press is_repeated h c = ground arith
key_event-IsCoherent up is_press is_repeated h c = ground arith
key_event-IsCoherent down is_press is_repeated h c = ground arith
key_event-IsCoherent other is_press is_repeated h c = ground arith

abbrev flag_of : Key → KeyboardMoveHelper → Bool
flag_of left h = h.km.moving_left
flag_of right h = h.km.moving_right
flag_of up h = h.km.moving_up
flag_of down h = h.km.moving_down
flag_of other h = false

flag :
    (k key : Key) (p r : Bool) (es : List KeyEvent) (h : KeyboardMoveHelper)
    → k ≢ other
    → held k es (flag_of k (key_event (record { key = key; is_press = p; is_repeated = r }) h))
      ≡ held k (record { key = key; is_press = p; is_repeated = r } ∷ es) (flag_of k h)
unfolding held key_event ack_movement update_momentum
flag k key p true es h n = refl
flag left key p false es h n = ground arith
flag right key p false es h n = ground arith
flag up key p false es h n = ground arith
flag down key p false es h n = ground arith
flag other left p false es h n = refl
flag other right p false es h n = refl
flag other up p false es h n = refl
flag other down p false es h n = refl
flag other other p false es h n = absurd (n refl)

run-held :
    (es : List KeyEvent) (h : KeyboardMoveHelper)
    → IsCoherent h
    → IsCoherent (run es h)
      × ((run es h).km.moving_left ≡ held left es h.km.moving_left)
      × ((run es h).km.moving_right ≡ held right es h.km.moving_right)
      × ((run es h).km.moving_up ≡ held up es h.km.moving_up)
      × ((run es h).km.moving_down ≡ held down es h.km.moving_down)
unfolding run held
run-held [] h c = (c, refl, refl, refl, refl)
run-held (e ∷ es) h c =
    let (c', l, r, u, d) =
      run-held es (key_event e h) (key_event-IsCoherent e.key e.is_press e.is_repeated h c) in
    (
      c',
      l ∙ flag left e.key e.is_press e.is_repeated es h (λ n. cc),
      r ∙ flag right e.key e.is_press e.is_repeated es h (λ n. cc),
      u ∙ flag up e.key e.is_press e.is_repeated es h (λ n. cc),
      d ∙ flag down e.key e.is_press e.is_repeated es h (λ n. cc),
    )

Points-along :
    (a a' b b' : Bool) (d : Option Bool) → a ≡ a' → b ≡ b' → Points a b d → Points a' b' d
Points-along a a' b b' d e f p = subst (λ x. Points x b' d) e (subst (λ x. Points a x d) f p)

-- After any key events since the last stop, each axis goes the way of the key that is held, nowhere
-- where neither of its keys is held, and one of the two ways where both are.
pub direction_follows_keys :
    (es : List KeyEvent)
    → Points (held left es false) (held right es false) (run es stop_anim).x.current_direction
      × Points (held down es false) (held up es false) (run es stop_anim).y.current_direction
unfolding stop_anim
direction_follows_keys es =
    let (c, l, r, u, d) =
      run-held es stop_anim
        (record { latest_x = tt; latest_y = tt; points_x = refl; points_y = refl }) in
    (
      Points-along _ _ _ _ (run es stop_anim).x.current_direction l r c.points_x,
      Points-along _ _ _ _ (run es stop_anim).y.current_direction d u c.points_y,
    )
