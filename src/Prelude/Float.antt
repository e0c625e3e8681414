-- ===== src/Prelude/Float.antt =====
-- Go's float64 as a parameter: the type, the operations that the program uses, and what IEEE 754
-- says of comparisons. No law of the arithmetic is assumed, since rounding breaks them all.
pub mod Fixed
use hybridgrid.Prelude.{
  ℕ, ◌-◌, ◌*◌, ◌/◌, ◌≡◌, refl, Bool, true, false, not, ◌⊎◌, arith, leb, ltb, inl, inr, Bool-cases,
}
use hybridgrid.Prelude.Int.{ℤ, pos, ◌+ℤ◌, ◌-ℤ◌, ◌*ℤ◌, quot_ℤ, ltb_ℤ, leb_ℤ, pos_part}

pub record Float : Type 1 where
  pub Carrier : Type 0
  -- The literal `n / d`, and the conversion of an integer.
  pub lit : ℤ → ℕ → Carrier
  pub of_int : ℤ → Carrier
  pub add : Carrier → Carrier → Carrier
  pub sub : Carrier → Carrier → Carrier
  pub mul : Carrier → Carrier → Carrier
  pub div : Carrier → Carrier → Carrier
  pub neg : Carrier → Carrier
  pub sqrt : Carrier → Carrier
  pub neg_inf : Carrier
  -- `a < b` and `a <= b`.
  pub lt : Carrier → Carrier → Bool
  pub le : Carrier → Carrier → Bool
  pub is_nan : Carrier → Bool
  pub is_inf : Carrier → Bool
  -- A comparison of two values that are not NaN is decided one way or the other, and is transitive.
  pub not_lt :
      (a b : Carrier) → is_nan a ≡ false → is_nan b ≡ false → lt a b ≡ false → le b a ≡ true
  pub not_le :
      (a b : Carrier) → is_nan a ≡ false → is_nan b ≡ false → le a b ≡ false → le b a ≡ true
  pub lt-le : (a b : Carrier) → lt a b ≡ true → le a b ≡ true
  pub lt_irrefl : (a : Carrier) → lt a a ≡ false
  pub lt_trans : (a b c : Carrier) → lt a b ≡ true → lt b c ≡ true → lt a c ≡ true
  pub le_refl : (a : Carrier) → is_nan a ≡ false → le a a ≡ true
  pub le_trans : (a b c : Carrier) → le a b ≡ true → le b c ≡ true → le a c ≡ true
  -- Every value but NaN and the infinities is above negative infinity.
  pub above_neg_inf : (a : Carrier) → is_nan a ≡ false → is_inf a ≡ false → lt neg_inf a ≡ true
