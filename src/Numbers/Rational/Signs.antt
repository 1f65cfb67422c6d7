-- ===== src/Numbers/Rational/Signs.antt =====
-- Which fractions are below 0.
use yandex_tank.Prelude.{ℕ, false, ◌≡◌, refl, arith}
use yandex_tank.Prelude.Int.{ℤ, pos, negsuc, neg_part, ◌+ℤ◌, ◌-ℤ◌, ◌*ℤ◌}
use yandex_tank.Numbers.Rational.{whole, lt_fraction}

pub below_zero :
    (a : ℤ) (d : ℕ) → neg_part a ≡ 0 → lt_fraction (record { num = a; den = d }) (whole 0) ≡ false
unfolding ◌-ℤ◌ ◌*ℤ◌
below_zero (pos k) d h = ground arith
below_zero (negsuc k) d h = ground (arith, h)

pub not_below :
    (a : ℤ) (d : ℕ) → lt_fraction (record { num = a; den = d }) (whole 0) ≡ false → neg_part a ≡ 0
unfolding ◌-ℤ◌ ◌*ℤ◌
not_below (pos k) d h = refl
not_below (negsuc k) d h = ground (arith, h)

pub square_positive : (a : ℤ) → neg_part (a *ℤ a) ≡ 0
unfolding ◌*ℤ◌
square_positive (pos k) = ground arith
square_positive (negsuc k) = ground arith

pub times_positive : (a : ℤ) (k : ℕ) → neg_part a ≡ 0 → neg_part (a *ℤ pos k) ≡ 0
unfolding ◌*ℤ◌
times_positive (pos j) k h = ground arith
times_positive (negsuc j) k h = ground (arith, h)

pub sum_positive : (a b : ℤ) → neg_part a ≡ 0 → neg_part b ≡ 0 → neg_part (a +ℤ b) ≡ 0
unfolding ◌+ℤ◌
sum_positive a b p q = ground (arith, p, q)
