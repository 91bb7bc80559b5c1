-- ===== src/App/Magnum.antt =====
-- What the widgets of src/app use of Magnum and of `float`, as parameters. A vector is its two
-- coordinates and a range its two corners; what Magnum computes of them is an operation below.
use understory.Base.{ℕ, ◌≡◌, Bool, false, Option}
use understory.Base.Integers.{ℤ, pos}

-- `float`: conversion from int, arithmetic and the comparisons `<` and `==`.
pub record Float (W : Type 0) : Type 0 where
  pub of_int : ℤ → W
  pub add : W → W → W
  pub sub : W → W → W
  pub mul : W → W → W
  pub div : W → W → W
  pub neg : W → W
  pub sqrt : W → W
  pub abs : W → W
  pub lt : W → W → Bool
  pub eq : W → W → Bool

-- A float literal that is a whole number.
abbrev pub literal : {W : Type 0} → Float W → ℕ → W
literal f n = f.of_int (pos n)

-- No float is less than itself, NaN included.
abbrev pub IsIrreflexive : {W : Type 0} → Float W → Type 0
IsIrreflexive {W} f = (x : W) → f.lt x x ≡ false

pub record Vector2 (W : Type 0) : Type 0 where
  pub x : W
  pub y : W

pub record Range2D (W : Type 0) : Type 0 where
  pub min : Vector2 W
  pub max : Vector2 W

-- `W` is float, `M` Matrix3 and `P` Animation::Player.
pub record Magnum (W M P : Type 0) : Type 0 where
  -- The operators on vectors, each coordinate by itself.
  pub add_v : Vector2 W → Vector2 W → Vector2 W
  pub sub_v : Vector2 W → Vector2 W → Vector2 W
  pub mul_v : Vector2 W → Vector2 W → Vector2 W
  pub div_v : Vector2 W → Vector2 W → Vector2 W
  pub is_zero : Vector2 W → Bool
  -- The operators on vectors of ints.
  pub sub_i : Vector2 ℤ → Vector2 ℤ → Vector2 ℤ
  pub div_i : Vector2 ℤ → Vector2 ℤ → Vector2 ℤ
  pub center : Range2D W → Vector2 W
  pub size : Range2D W → Vector2 W
  pub padded : Range2D W → Vector2 W → Range2D W
  -- `Range1D::padded`, of its two ends.
  pub padded_1d : W × W → W → W × W
  pub bottom_left : Range2D W → Vector2 W
  pub bottom_right : Range2D W → Vector2 W
  pub top_left : Range2D W → Vector2 W
  pub top_right : Range2D W → Vector2 W
  pub projection : Vector2 W → M
  pub translation : Vector2 W → M
  pub scaling : Vector2 W → M
  pub identity : M
  pub product : M → M → M
  pub transform_point : M → Vector2 W → Vector2 W
  pub translation_of : M → Vector2 W
  pub scaling_of : M → Vector2 W
  pub lerp : W → W → W → W
  pub lerp_v : Vector2 W → Vector2 W → W → Vector2 W
  pub cubic_out : W → W
  pub cubic_in : W → W
  pub exponential_out : W → W
  -- Of std::chrono: the milliseconds of a difference of two times of the clock, `duration_cast`.
  pub duration_ms : ℤ → ℤ
  -- `play` and `advance` take the time; `advance` gives the progress that the track's callback is
  -- called with, if it is called.
  pub play : W → P → P
  pub stop : P → P
  pub advance : W → P → P
  pub progress : W → P → Option W
  pub is_playing : P → Bool
