-- ===== src/App/Whole.antt =====
-- A small stand-in for floats and Magnum: whole numbers, translations for matrices, and a player that
-- plays for two frames.
use understory.Base.{ℕ, ◌+◌, ◌-◌, ◌*◌, ◌==◌, not, ◌||◌, none, some, if◌then◌else◌}
use understory.Base.Integers.{ℤ, pos, ◌+ℤ◌, ◌-ℤ◌, ltb_ℤ, pos_part, neg_part, sub_ℕ, nonzero}
use understory.App.Magnum.{Float, Magnum, Vector2}

unfoldable pub times : ℤ → ℤ → ℤ
times a b =
    sub_ℕ (pos_part a * pos_part b + neg_part a * neg_part b)
      (pos_part a * neg_part b + neg_part a * pos_part b)

abbrev pub whole : Float ℤ
whole = record {
  of_int = λ a. a;
  add = λ a b. a +ℤ b;
  sub = λ a b. a -ℤ b;
  mul = times;
  div = λ a b. a;
  neg = λ a. pos 0 -ℤ a;
  sqrt = λ a. a;
  abs = λ a. if ltb_ℤ a (pos 0) then pos 0 -ℤ a else a;
  lt = ltb_ℤ;
  eq = λ a b. not (nonzero (a -ℤ b));
}

abbrev pub at : ℤ → ℤ → Vector2 ℤ
at x y = record { x = x; y = y }

abbrev pub both : (ℤ → ℤ → ℤ) → Vector2 ℤ → Vector2 ℤ → Vector2 ℤ
both op u v = at (op u.x v.x) (op u.y v.y)

abbrev pub flat : Magnum ℤ (Vector2 ℤ) ℕ
flat = record {
  add_v = both (λ a b. a +ℤ b);
  sub_v = both (λ a b. a -ℤ b);
  mul_v = both times;
  div_v = λ u v. u;
  is_zero = λ u. not (nonzero u.x || nonzero u.y);
  sub_i = both (λ a b. a -ℤ b);
  div_i = λ u v. u;
  center = λ r. r.min;
  size = λ r. both (λ a b. a -ℤ b) r.max r.min;
  padded = λ r v. r;
  padded_1d = λ ends p. (ends.0 -ℤ p, ends.1 +ℤ p);
  bottom_left = λ r. r.min;
  bottom_right = λ r. at r.max.x r.min.y;
  top_left = λ r. at r.min.x r.max.y;
  top_right = λ r. r.max;
  projection = λ v. v;
  translation = λ v. v;
  scaling = λ v. at (pos 0) (pos 0);
  identity = at (pos 0) (pos 0);
  product = both (λ a b. a +ℤ b);
  transform_point = both (λ a b. a +ℤ b);
  translation_of = λ m. m;
  scaling_of = λ m. at (pos 1) (pos 1);
  lerp = λ a b t. b;
  lerp_v = λ a b t. b;
  cubic_out = λ t. t;
  cubic_in = λ t. t;
  exponential_out = λ t. t;
  duration_ms = λ t. t;
  play = λ t p. 2;
  stop = λ p. 0;
  advance = λ t p. p - 1;
  progress = λ t p. if p == 0 then none else some (pos 1);
  is_playing = λ p. not (p == 0);
}
