-- ===== src/Number/Small.antt =====
-- A small runtime to evaluate examples on: natural numbers, an infinity that powers above 1000 come
-- to, and NaN.
use shared_ts_libs.Base.{
  ℕ, suc, ◌+◌, ◌-◌, ◌*◌, ◌^◌, Bool, true, false, ◌≡◌, arith, ltb, if◌then◌else◌,
}
use shared_ts_libs.Number.{Numbers, OrderLaws}

pub data Small : Type 0 where
  nan infinity : Small
  finite : ℕ → Small

abbrev add_small : Small → Small → Small
add_small (finite a) (finite b) = finite (a + b)
add_small nan b = nan
add_small a nan = nan
add_small a b = infinity

abbrev sub_small : Small → Small → Small
sub_small (finite a) (finite b) = finite (a - b)
sub_small infinity (finite b) = infinity
sub_small a b = nan

abbrev mul_small : Small → Small → Small
mul_small (finite a) (finite b) = finite (a * b)
mul_small (finite (suc a)) infinity = infinity
mul_small infinity (finite (suc b)) = infinity
mul_small infinity infinity = infinity
mul_small a b = nan

abbrev pow_small : Small → Small → Small
pow_small (finite a) (finite b) = if ltb 1000 (a ^ b) then infinity else finite (a ^ b)
pow_small a b = nan

abbrev lt_small : Small → Small → Bool
lt_small (finite a) (finite b) = ltb a b
lt_small (finite a) infinity = true
lt_small a b = false

abbrev is_nan_small : Small → Bool
is_nan_small nan = true
is_nan_small a = false

abbrev is_finite_small : Small → Bool
is_finite_small (finite a) = true
is_finite_small a = false

abbrev pub small : Numbers
small = record {
  Num = Small;
  of_nat = finite;
  add = add_small;
  sub = sub_small;
  mul = mul_small;
  pow = pow_small;
  round = λ a. a;
  half = finite 0;
  fifth = finite 0;
  lt = lt_small;
  is_nan = is_nan_small;
  is_finite = is_finite_small;
  is_integer = is_finite_small;
}

lt_small_irrefl : (a : Small) → lt_small a a ≡ false
lt_small_irrefl a = ground arith

lt_small-nan : (a b : Small) → is_nan_small b ≡ true → lt_small a b ≡ false
lt_small-nan a b h = ground arith

nan-lt_small : (a b : Small) → is_nan_small a ≡ true → lt_small a b ≡ false
nan-lt_small a b h = ground arith

lt_small-asymm : (a b : Small) → lt_small a b ≡ true → lt_small b a ≡ false
lt_small-asymm a b h = ground arith

pub small-OrderLaws : OrderLaws small
small-OrderLaws = record {
  lt_irrefl = lt_small_irrefl;
  lt_nan = lt_small-nan;
  nan_lt = nan-lt_small;
  lt_asymm = lt_small-asymm;
}
