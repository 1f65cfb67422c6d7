-- ===== src/Autostop/Samples.antt =====
-- Seconds and criteria at which the theorems are applied, with fractions for the floats.
use yandex_tank.Prelude.{false, ℕ, Option, none, List, [], ◌∷◌}
use yandex_tank.Prelude.Int.{pos}
use yandex_tank.Prelude.Text.{Text, codes}
use yandex_tank.Numbers.Rational.{Fraction, whole, fractions}
use yandex_tank.Autostop.Sample.{Interval, Section, Second}
use yandex_tank.Autostop.Streak.{no_streak}
use yandex_tank.Autostop.WindowCounter.{new_counter}
use yandex_tank.Autostop.Criterion.{Criterion, avg_time}
use yandex_tank.Autostop.FracTime.{FracTime}

abbrev pub interval : (len total : ℕ) → Interval Fraction
interval len total = record {
  len = len;
  total = total;
  q = [];
  value = [];
  hist_data = 4 ∷ 5 ∷ 1 ∷ [];
  hist_bins = 1000 ∷ 2000 ∷ 3000 ∷ [];
}

abbrev pub section : (len total failed : ℕ) → Section Fraction
section len total failed = record {
  interval_real = interval len total;
  proto_code = (codes "200", 10) ∷ (codes "500", failed) ∷ [];
  net_code = (codes "0", 10) ∷ [];
}

-- a second with ten responses
abbrev pub second : (ts total failed : ℕ) → Second Fraction
second ts total failed = (
  record { ts = ts; overall = section 10 total failed; tagged = [] },
  record { instances = 3; reqps = 7 },
)

-- 10 ms and 1 ms on average, with three and no errors
abbrev pub slow_second : Second Fraction
slow_second = second 100 100000 3

abbrev pub fast_second : Second Fraction
fast_second = second 101 10000 0

abbrev pub time_criterion : Criterion Fraction
time_criterion =
    avg_time (record { streak = no_streak; rt_limit = 5; seconds_limit = 2; tag = none })

abbrev pub three_seconds : List (Second Fraction)
three_seconds = slow_second ∷ fast_second ∷ slow_second ∷ []

abbrev pub frac_time : Option Text → List (Second Fraction) → FracTime Fraction
frac_time tag seconds = record {
  cause_second = none;
  rt_limit = 1500;
  fail_ratio_limit = record { num = pos 1; den = 2 };
  window_size = 1;
  fail_counter = new_counter 1;
  total_counter = new_counter 1;
  is_numpy = false;
  total_fail_ratio = whole 0;
  seconds = seconds;
  tag = tag;
}
