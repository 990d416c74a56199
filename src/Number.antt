-- ===== src/Number.antt =====
-- JavaScript's numbers, where the sources compute with fractions: an abstract type with the
-- runtime's operations, and the laws of its order that the properties rest on.
pub mod Small
use shared_ts_libs.Base.{
  ℕ, Bool, true, false, not, ◌||◌, ◌≡◌, refl, arith, if◌then◌else◌, Bool-cases, inl, inr,
}

pub record Numbers : Type 1 where
  pub Num : Type 0
  pub of_nat : ℕ → Num
  pub add : Num → Num → Num
  pub sub : Num → Num → Num
  pub mul : Num → Num → Num
  pub pow : Num → Num → Num
  pub round : Num → Num
  -- one half, and one fifth
  pub half : Num
  pub fifth : Num
  -- a < b
  pub lt : Num → Num → Bool
  pub is_nan : Num → Bool
  pub is_finite : Num → Bool
  pub is_integer : Num → Bool

-- `<` never holds of a number and itself, nor both ways, nor of NaN.
pub record OrderLaws (n : Numbers) : Type 0 where
  pub lt_irrefl : (a : n.Num) → n.lt a a ≡ false
  pub lt_nan : (a b : n.Num) → n.is_nan b ≡ true → n.lt a b ≡ false
  pub nan_lt : (a b : n.Num) → n.is_nan a ≡ true → n.lt a b ≡ false
  pub lt_asymm : (a b : n.Num) → n.lt a b ≡ true → n.lt b a ≡ false

module _ (n : Numbers) where
  open n use {Num, of_nat, lt, is_nan}

  -- Math.min and Math.max of two numbers: NaN if one of them is.
  unfoldable pub min_of : Num → Num → Num
  min_of a b = if is_nan a then a else if is_nan b then b else if lt b a then b else a

  unfoldable pub max_of : Num → Num → Num
  max_of a b = if is_nan a then a else if is_nan b then b else if lt a b then b else a

  -- a > b
  abbrev pub gt : Num → Num → Bool
  gt a b = lt b a

  abbrev pub zero_num : Num
  zero_num = of_nat 0

  module _ (laws : OrderLaws n) where
    -- What is above something is no NaN.
    pub lt-not_nan : (a b : Num) → lt a b ≡ true → is_nan b ≡ false
    lt-not_nan a b h = ground (arith, laws.lt_nan a b)

    -- The smaller of two numbers does not exceed the second one, if it exceeds anything.
    pub min_of-le : (a b c : Num) → lt c (min_of a b) ≡ true → lt b (min_of a b) ≡ false
    unfolding min_of
    min_of-le a b c h =
        ground (arith, laws.lt_irrefl b, laws.lt_nan c a, laws.lt_nan c b, laws.lt_asymm a b)
