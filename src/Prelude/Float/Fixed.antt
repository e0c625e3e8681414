-- ===== src/Prelude/Float/Fixed.antt =====
-- A number type that meets `Float`: integers that count hundredths, for the tests and witnesses.
use hybridgrid.Prelude.{◌≡◌, true, false, arith}
use hybridgrid.Prelude.Int.{ℤ, pos, negsuc, ◌+ℤ◌, ◌-ℤ◌, ◌*ℤ◌, quot_ℤ, ltb_ℤ, leb_ℤ, pos_part}
use hybridgrid.Prelude.Float.{Float}

abbrev pub lowest : ℤ
lowest = negsuc 1000000000000

pub fixed-not_lt : (a b : ℤ) → ltb_ℤ a b ≡ false → leb_ℤ b a ≡ true
fixed-not_lt a b h = ground arith

pub fixed-not_le : (a b : ℤ) → leb_ℤ a b ≡ false → leb_ℤ b a ≡ true
fixed-not_le a b h = ground arith

pub fixed-lt-le : (a b : ℤ) → ltb_ℤ a b ≡ true → leb_ℤ a b ≡ true
fixed-lt-le a b h = ground arith

pub fixed-le_refl : (a : ℤ) → leb_ℤ a a ≡ true
fixed-le_refl a = ground arith

pub fixed-lt_irrefl : (a : ℤ) → ltb_ℤ a a ≡ false
fixed-lt_irrefl a = ground arith

pub fixed-lt_trans : (a b c : ℤ) → ltb_ℤ a b ≡ true → ltb_ℤ b c ≡ true → ltb_ℤ a c ≡ true
fixed-lt_trans a b c h k = ground arith

pub fixed-le_trans : (a b c : ℤ) → leb_ℤ a b ≡ true → leb_ℤ b c ≡ true → leb_ℤ a c ≡ true
fixed-le_trans a b c h k = ground arith

pub fixed-above : (a : ℤ) → leb_ℤ a lowest ≡ false → ltb_ℤ lowest a ≡ true
fixed-above a h = ground arith

unfoldable pub fixed : Float
unfolding ◌+ℤ◌ ◌-ℤ◌ ◌*ℤ◌ quot_ℤ
fixed = record {
  Carrier = ℤ;
  lit = λ n d. quot_ℤ (n *ℤ pos 100) d;
  of_int = λ n. n *ℤ pos 100;
  add = λ a b. a +ℤ b;
  sub = λ a b. a -ℤ b;
  mul = λ a b. quot_ℤ (a *ℤ b) 100;
  div = λ a b. quot_ℤ (a *ℤ pos 100) (pos_part b);
  neg = λ a. pos 0 -ℤ a;
  sqrt = λ a. a;
  neg_inf = lowest;
  lt = ltb_ℤ;
  le = leb_ℤ;
  is_nan = λ a. false;
  is_inf = λ a. leb_ℤ a lowest;
  not_lt = λ a b _ _. fixed-not_lt a b;
  not_le = λ a b _ _. fixed-not_le a b;
  lt-le = fixed-lt-le;
  lt_irrefl = fixed-lt_irrefl;
  lt_trans = fixed-lt_trans;
  le_refl = λ a _. fixed-le_refl a;
  le_trans = fixed-le_trans;
  above_neg_inf = λ a _. fixed-above a;
}
