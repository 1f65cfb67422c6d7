-- ===== src/Numbers/Rational.antt =====
-- Fractions as a value of the number interface: exact arithmetic at which the concrete instances
-- of the theorems are evaluated. A divisor that is negative does not occur there.
pub mod Signs
use yandex_tank.Prelude.{
  ℕ, ◌+◌, ◌*◌, ◌/◌, ◌%◌, zero, suc, Bool, true, Option, none, some, [], ◌∷◌, leb, ltb, ◌==◌,
  if◌then◌else◌,
}
use yandex_tank.Prelude.Int.{ℤ, pos, pos_part, neg_part, ◌+ℤ◌, ◌-ℤ◌, ◌*ℤ◌}
use mathlib.Core.Bool.{◌&&◌}
use mathlib.Core.List.{reverse}
use yandex_tank.Prelude.Text.{Text, is_digit, digits_value}
use yandex_tank.Numbers.{Numbers}

pub record Fraction : Type 0 where
  pub num : ℤ
  pub den : ℕ

abbrev pub whole : ℕ → Fraction
whole k = record { num = pos k; den = 1 }

abbrev scale : Fraction → ℕ → ℤ
scale x k = x.num *ℤ pos k

abbrev lt_fraction : Fraction → Fraction → Bool
lt_fraction x y = let d = scale y x.den -ℤ scale x y.den in ltb 0 (pos_part d)

abbrev le_fraction : Fraction → Fraction → Bool
le_fraction x y = let d = scale y x.den -ℤ scale x y.den in neg_part d == 0

abbrev eq_fraction : Fraction → Fraction → Bool
eq_fraction x y = let d = scale y x.den -ℤ scale x y.den in pos_part d == 0 && neg_part d == 0

-- the digits of a number, least first
digits_rev : ℕ → ℕ → Text
digits_rev zero k = []
digits_rev (suc f) k =
    let rest = digits_rev f (k / 10) in if ltb k 10 then (48 + k) ∷ [] else (48 + k % 10) ∷ rest

all_digits : Text → Bool
unfolding is_digit
all_digits [] = true
all_digits (c ∷ s) = is_digit c && all_digits s

unfoldable parse_whole : Text → Option Fraction
unfolding all_digits digits_value
parse_whole [] = none
parse_whole (c ∷ s) = if all_digits (c ∷ s) then some (whole (digits_value 0 (c ∷ s))) else none

unfoldable print_whole : ℕ → Text
unfolding digits_rev
print_whole k = reverse (digits_rev 20 k)

-- `sqrt` is used only by the trend criterion; the integer root of the truncated value will do.
root : ℕ → ℕ → ℕ
root zero k = 0
root (suc f) k = let below = root f k in if leb (suc f * suc f) k then suc f else below

unfoldable sqrt_fraction : Fraction → Fraction
unfolding root
sqrt_fraction x = let k = pos_part x.num / x.den in whole (root k k)

instance unfoldable pub fractions : Numbers Fraction
unfolding ◌+ℤ◌ ◌-ℤ◌ ◌*ℤ◌ parse_whole print_whole sqrt_fraction
fractions = record {
  of_ℕ = whole;
  thousandth = record { num = pos 1; den = 1000 };
  add = λ x y. record { num = scale x y.den +ℤ scale y x.den; den = x.den * y.den };
  sub = λ x y. record { num = scale x y.den -ℤ scale y x.den; den = x.den * y.den };
  mul = λ x y. record { num = x.num *ℤ y.num; den = x.den * y.den };
  quot = λ x y. record { num = x.num *ℤ pos y.den; den = x.den * pos_part y.num };
  numpy_quot = λ x y. record { num = x.num *ℤ pos y.den; den = x.den * pos_part y.num };
  sqrt = sqrt_fraction;
  floor_div = λ x y. (pos_part x.num * y.den) / (x.den * pos_part y.num);
  lt = lt_fraction;
  le = le_fraction;
  eq = eq_fraction;
  trunc = λ x. pos_part x.num / x.den;
  float_of = parse_whole;
  int_of = parse_whole;
  str = λ x. print_whole (pos_part x.num / x.den);
  str_ℕ = print_whole;
  str2 = λ x. print_whole (pos_part x.num / x.den);
}
