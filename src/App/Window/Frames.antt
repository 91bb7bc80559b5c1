-- ===== src/App/Window/Frames.antt =====
-- `TimelineBound::advance` of src/app/widgets/animation/TimelineBound.cpp for the three helpers that move the
-- map, which src/app/USApplication.h declares in this order, and the keys of USApplication.cpp with the speeds
-- of the keyboard's helper.
use mathlib.Core.Path.{subst}
use understory.Base.{◌≡◌, refl, sym, ap, ◌∙◌, Bool, true, false, none, List, [], ◌∷◌}
use understory.App.Magnum.{Float, Magnum, literal}
use understory.App.Animation
use understory.App.Animation.{advance_player, default_animation_callback_v}
use understory.App.Keyboard
use understory.App.Keyboard.{AxisMomentum, key_event}
use understory.App.Momentum.{Momentum, x_axis, y_axis, consider_axis}
use understory.App.MouseMoves.Helper
use understory.App.MouseMoves.Helper.{MouseMoveHelper, advance_moves}
use understory.App.Scale
use understory.App.Scale.{MapScaleHelper, advance_scale, key_press_event}
use understory.App.Window.{
  UsApplication, AppKey, esc, zooms, moves, reset_world_matrix, key_press, escaped,
}

-- The window with the floats of the two axes of the keyboard's helper.
pub record Moving (W M P : Type 0) : Type 0 where
  pub app : UsApplication W M P
  pub x : Momentum W
  pub y : Momentum W

module _ {W M P : Type 0} (f : Float W) (g : Magnum W M P) where
  -- The floats of a new AxisMomentum.
  unfoldable pub no_momentum : Momentum W
  no_momentum = record { speed = literal f 0; time_passed = literal f 0 }

  -- `KeyboardMoveHelper::advance`.
  unfoldable pub advance_keys : W → Moving W M P → Moving W M P
  unfolding consider_axis
  advance_keys frame_duration m =
      let (x, in_x) =
        consider_axis f g x_axis m.app.kmh.x frame_duration m.x m.app.transformation_world in
      let (y, in_y) = consider_axis f g y_axis m.app.kmh.y frame_duration m.y in_x in
      record { app = record m.app { transformation_world = in_y }; x = x; y = y }

  moved_by_mouse : MouseMoveHelper W P × M → Moving W M P → Moving W M P
  moved_by_mouse (mmh, world) m = record m {
    app = record m.app { mmh = mmh; transformation_world = world };
  }

  scaled_by : MapScaleHelper W P × M → Moving W M P → Moving W M P
  scaled_by (msh, world) m = record m {
    app = record m.app { msh = msh; transformation_world = world };
  }

  -- One frame, with the time and the duration of the frame before.
  unfoldable pub advance_world : W → W → Moving W M P → Moving W M P
  unfolding moved_by_mouse advance_moves scaled_by advance_scale advance_keys
  advance_world frame_time frame_duration m =
      let by_mouse =
        moved_by_mouse (advance_moves f g frame_time m.app.transformation_world m.app.mmh) m in
      let by_scale =
        scaled_by (advance_scale f g frame_time by_mouse.app.transformation_world by_mouse.app.msh)
          by_mouse in
      advance_keys frame_duration by_scale

  stopped_by : AppKey → Moving W M P → Moving W M P
  unfolding no_momentum
  stopped_by esc m = record m { x = no_momentum; y = no_momentum }
  stopped_by (zooms key) m = m
  stopped_by (moves key) m = m

  -- A key, with the floats that Escape sets back.
  unfoldable pub press_key : AppKey → Bool → Moving W M P → Moving W M P
  unfolding key_press stopped_by
  press_key key is_repeated m =
      stopped_by key (record m { app = key_press f g key is_repeated m.app })

  unfoldable pub advance_frames : List (W × W) → Moving W M P → Moving W M P
  unfolding advance_world
  advance_frames [] m = m
  advance_frames ((frame_time, frame_duration) ∷ ts) m =
      advance_frames ts (advance_world frame_time frame_duration m)

  -- What the code relies on of Magnum's player: a stopped one does not play, and time does not start one;
  -- and of floats, that 0 is 0.
  pub record IsPlayer : Type 0 where
    pub stopped : (p : P) → g.is_playing (g.stop p) ≡ false
    pub stays : (t : W) (p : P) → g.is_playing p ≡ false → g.is_playing (g.advance t p) ≡ false
    pub zero : f.eq (literal f 0) (literal f 0) ≡ true

  -- The map is as it was at first, and nothing moves it.
  pub record Rests (m : Moving W M P) : Type 0 where
    pub world : m.app.transformation_world ≡ g.identity
    pub mouse : g.is_playing m.app.mmh.animator.player ≡ false
    pub scale : g.is_playing m.app.msh.animator.player ≡ false
    pub no_x : m.app.kmh.x.current_direction ≡ none
    pub no_y : m.app.kmh.y.current_direction ≡ none
    pub still_x : f.eq m.x.time_passed (literal f 0) ≡ true
    pub still_y : f.eq m.y.time_passed (literal f 0) ≡ true

  -- What a frame does to a map at rest: it advances the players.
  players_advanced : W → Moving W M P → Moving W M P
  unfolding advance_player
  players_advanced t m = record m {
    app = record m.app {
      mmh = record m.app.mmh {
        animator = advance_player g (default_animation_callback_v g) t m.app.mmh.animator;
      };
      msh = record m.app.msh {
        animator = advance_player g (Scale.default_animation_callback f g) t m.app.msh.animator;
      };
    };
  }

  frame_at_rest :
      (t d : W) (m : Moving W M P) → IsPlayer → Rests m → advance_world t d m ≡ players_advanced t m
  unfolding advance_world moved_by_mouse advance_moves scaled_by advance_scale advance_keys
      consider_axis players_advanced
  frame_at_rest t d m p r =
      rw
        (
          p.stays t m.app.mmh.animator.player r.mouse,
          p.stays t m.app.msh.animator.player r.scale,
          r.no_x,
          r.still_x,
          r.no_y,
          r.still_y,
        )
        refl

  advanced-Rests : (t : W) (m : Moving W M P) → IsPlayer → Rests m → Rests (players_advanced t m)
  unfolding players_advanced advance_player
  advanced-Rests t m p r = record {
    world = r.world;
    mouse = p.stays t m.app.mmh.animator.player r.mouse;
    scale = p.stays t m.app.msh.animator.player r.scale;
    no_x = r.no_x;
    no_y = r.no_y;
    still_x = r.still_x;
    still_y = r.still_y;
  }

  frames-Rests :
      (ts : List (W × W)) (m : Moving W M P) → IsPlayer → Rests m → Rests (advance_frames ts m)
  unfolding advance_frames
  frames-Rests [] m p r = r
  frames-Rests ((t, d) ∷ ts) m p r =
      frames-Rests ts (advance_world t d m) p
        (subst Rests (sym (frame_at_rest t d m p r)) (advanced-Rests t m p r))

  escaped-Rests :
      (is_repeated : Bool) (m : Moving W M P) → IsPlayer → Rests (press_key esc is_repeated m)
  unfolding press_key stopped_by no_momentum key_press escaped reset_world_matrix
      Animation.stop_anim Keyboard.stop_anim
  escaped-Rests is_repeated m p = record {
    world = refl;
    mouse =
        ap g.is_playing (Helper.stop_anim-player f g m.app.mmh)
        ∙ p.stopped m.app.mmh.animator.player;
    scale = p.stopped _;
    no_x = refl;
    no_y = refl;
    still_x = p.zero;
    still_y = p.zero;
  }

  -- If a stopped player does not play and time does not start one, and 0 is 0: after the Escape key, from
  -- whatever animations, speeds and keys, the map is back in its first place, and no frames move it.
  pub escape_holds :
      (is_repeated : Bool) (ts : List (W × W)) (m : Moving W M P)
      → IsPlayer
      → (advance_frames ts (press_key esc is_repeated m)).app.transformation_world ≡ g.identity
  escape_holds is_repeated ts m p =
      (frames-Rests ts (press_key esc is_repeated m) p (escaped-Rests is_repeated m p)).world
