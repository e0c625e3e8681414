-- ===== src/Prelude/Int.antt =====
-- Signed machine integers: integers over the native numbers, and the wrap-around of Go's int32 and
-- int64. `negsuc n` is -(n + 1).
use Prim.Native.Nat.{ℕ, suc, ◌+◌, ◌-◌, ◌*◌, ◌/◌, ◌%◌, ◌≤◌, ◌<◌}
use mathlib.Core.Path.{◌≡◌}
use mathlib.Core.Bool.{Bool, ◌&&◌}
use native.Mathlib.Omega.{arith}
use native.Mathlib.Nat.{mod-eq_of_lt, mod-add-mod, add-mod_right}
use hybridgrid.Prelude.Tests.{ltb, leb, if◌then◌else◌}

pub data ℤ : Type 0 where
  pos : ℕ → ℤ
  negsuc : ℕ → ℤ

abbrev pub pos_part : ℤ → ℕ
pos_part (pos n) = n
pos_part (negsuc n) = 0

abbrev pub neg_part : ℤ → ℕ
neg_part (pos n) = 0
neg_part (negsuc n) = suc n

-- a - b, as an integer.
abbrev pub sub_ℕ : ℕ → ℕ → ℤ
sub_ℕ a b = if leb b a then pos (a - b) else negsuc (b - a - 1)

infixl 65 ◌+ℤ◌ ◌-ℤ◌
infixl 70 ◌*ℤ◌
infix 50 ◌≤ℤ◌ ◌<ℤ◌
unfoldable pub ◌+ℤ◌ : ℤ → ℤ → ℤ
a +ℤ b = sub_ℕ (pos_part a + pos_part b) (neg_part a + neg_part b)

unfoldable pub ◌-ℤ◌ : ℤ → ℤ → ℤ
a -ℤ b = sub_ℕ (pos_part a + neg_part b) (neg_part a + pos_part b)

unfoldable pub ◌*ℤ◌ : ℤ → ℤ → ℤ
a *ℤ b =
    sub_ℕ (pos_part a * pos_part b + neg_part a * neg_part b)
      (pos_part a * neg_part b + neg_part a * pos_part b)

abbrev pub ◌≤ℤ◌ : ℤ → ℤ → Type 0
a ≤ℤ b = pos_part a + neg_part b ≤ pos_part b + neg_part a

abbrev pub ◌<ℤ◌ : ℤ → ℤ → Type 0
a <ℤ b = pos_part a + neg_part b < pos_part b + neg_part a

abbrev pub ltb_ℤ : ℤ → ℤ → Bool
ltb_ℤ a b = ltb (pos_part a + neg_part b) (pos_part b + neg_part a)

abbrev pub leb_ℤ : ℤ → ℤ → Bool
leb_ℤ a b = leb (pos_part a + neg_part b) (pos_part b + neg_part a)

abbrev pub is_zero : ℤ → Bool
is_zero a = leb_ℤ a (pos 0) && leb_ℤ (pos 0) a

-- Go's integer division, which truncates towards zero (the divisor is a positive number here).
unfoldable pub quot_ℤ : ℤ → ℕ → ℤ
quot_ℤ (pos n) d = pos (n / d)
quot_ℤ (negsuc n) d = sub_ℕ 0 (suc n / d)

-- The signed value of the low bits: arithmetic modulo `2 * half`, as Go's int32 and int64 wrap.
abbrev pub signed : ℕ → ℕ → ℤ
signed half m = if ltb m half then pos m else negsuc (2 * half - 1 - m)

unfoldable pub wrap : ℕ → ℤ → ℤ
wrap half (pos n) = signed half (n % (2 * half))
wrap half (negsuc n) = signed half (2 * half - 1 - n % (2 * half))

abbrev pub half32 : ℕ
half32 = 2147483648

abbrev pub half64 : ℕ
half64 = 9223372036854775808

unfoldable pub wrap32 : ℤ → ℤ
wrap32 = wrap half32

unfoldable pub wrap64 : ℤ → ℤ
wrap64 = wrap half64

abbrev pub InRange : ℕ → ℤ → Type 0
InRange half a = (pos_part a < half) × (neg_part a ≤ half)

-- A value of the type is not changed.
pub wrap-InRange : (half : ℕ) (a : ℤ) → InRange half a → wrap half a ≡ a
unfolding wrap
wrap-InRange half (pos n) h = ground (arith, mod-eq_of_lt {n = n} {m = 2 * half} (omega arith))
wrap-InRange half (negsuc n) h = ground (arith, mod-eq_of_lt {n = n} {m = 2 * half} (omega arith))

pub +ℤ_parts :
    (a b : ℤ)
    → pos_part (a +ℤ b) + neg_part a + neg_part b ≡ neg_part (a +ℤ b) + pos_part a + pos_part b
unfolding ◌+ℤ◌
+ℤ_parts a b = ground arith

-- A counter that is not negative, stepped inside its range.
pub wrap-suc :
    (half : ℕ) (a : ℤ)
    → neg_part a ≡ 0
    → pos_part a + 1 < half
    → wrap half (a +ℤ pos 1) ≡ pos (pos_part a + 1)
unfolding wrap ◌+ℤ◌
wrap-suc half (pos n) h k = ground (arith, mod-eq_of_lt {n = n + 1} {m = 2 * half} (omega arith))
wrap-suc half (negsuc n) h k = absurd (omega arith)

pub wrap-pred :
    (half : ℕ) (a : ℤ)
    → 0 < pos_part a
    → pos_part a < half
    → wrap half (a -ℤ pos 1) ≡ pos (pos_part a - 1)
unfolding wrap ◌-ℤ◌
wrap-pred half (pos n) h k = ground (arith, mod-eq_of_lt {n = n - 1} {m = 2 * half} (omega arith))
wrap-pred half (negsuc n) h k = absurd (omega arith)

abbrev pub word : ℕ
word = 2 * half64

-- A counter modulo `word` that stands for a number follows it when `n` is taken off and added.
pub debit : (t b n : ℕ) → n ≤ word → t ≡ (b + n) % word → (t + (word - n)) % word ≡ b % word
debit t b n h e =
    let same : b + n + (word - n) ≡ b + word = omega arith in
    rw (e, mod-add-mod (b + n) word (word - n), same) (add-mod_right b word)

pub credit : (t b n : ℕ) → t ≡ b % word → (t + n) % word ≡ (b + n) % word
credit t b n e = rw (e) (mod-add-mod b word n)
