-- ===== src/Autostop/Tests.antt =====
-- The criteria at concrete seconds.
use yandex_tank.Prelude.{
  ℕ, suc, ◌+◌, ◌*◌, ◌≡◌, refl, ap, Bool, true, false, none, some, List, [], ◌∷◌, arith,
}
use yandex_tank.Prelude.Int.{pos, ◌*ℤ◌, ◌+ℤ◌, ◌-ℤ◌}
use yandex_tank.Prelude.Result.{Result, ok, err, index_error, map_ok}
use yandex_tank.Prelude.Text.{Text, codes, text_eq}
use yandex_tank.Numbers.{Numbers}
use yandex_tank.Numbers.Rational.Signs.{
  below_zero, not_below, square_positive, times_positive, sum_positive,
}
use yandex_tank.Numbers.Rational.{Fraction, whole, fractions}
use yandex_tank.Autostop.Sample.{Level}
use yandex_tank.Autostop.Streak.{Notified, quiet}
use yandex_tank.Autostop.Streak.Laws.{feed}
use yandex_tank.Autostop.AvgTime
use yandex_tank.Autostop.WindowCounter.{new_counter}
use yandex_tank.Autostop.WindowCounter.Laws.{ExactCounts, push_all, push_all-sum}
use yandex_tank.Autostop.Criterion.{total_http}
use yandex_tank.Autostop.Window.{Window}
use yandex_tank.Autostop.Window.Laws.{IsCounting}
use yandex_tank.Autostop.FracTime
use yandex_tank.Autostop.FracTime.{FracTime, parse_data}
use yandex_tank.Autostop.FracTime.Laws.{notify-slides, notify-blames}
use yandex_tank.Autostop.Criterion.Windows.{SlidesWindow, measure, notify-SlidesWindow}
use yandex_tank.Autostop.TotalHttp
use yandex_tank.Autostop.HttpTrend
use yandex_tank.Autostop.HttpTrend.{HttpTrend}
use yandex_tank.Autostop.HttpTrend.Laws.{IsAligned, KeepsSigns, notify-total, notify-index_error}
use yandex_tank.Autostop.Criterion.Streaks.{EndsInRun, exceeds, notify-EndsInRun}
use yandex_tank.Autostop.Samples.{
  slow_second, fast_second, time_criterion, three_seconds, frac_time,
}

time_verdicts :
    map_ok (exceeds time_criterion) (slow_second ∷ fast_second ∷ slow_second ∷ slow_second ∷ [])
    ≡ ok (true ∷ false ∷ true ∷ true ∷ [])
unfolding exceeds fractions AvgTime.exceeds
time_verdicts = refl

notify-EndsInRun_example :
    EndsInRun
      (whole 0)
      time_criterion
      (slow_second ∷ fast_second ∷ slow_second ∷ slow_second ∷ [])
      (true ∷ false ∷ true ∷ true ∷ [])
notify-EndsInRun_example =
    notify-EndsInRun (whole 0) time_criterion
      (slow_second ∷ fast_second ∷ slow_second ∷ slow_second ∷ []) (true ∷ false ∷ true ∷ true ∷ [])
      refl time_verdicts

sums : (a b : ℕ) → pos a *ℤ pos 1 +ℤ pos b *ℤ pos 1 ≡ pos (a + b)
unfolding ◌*ℤ◌ ◌+ℤ◌
sums a b = ground arith

differences : (a b : ℕ) → pos (a + b) *ℤ pos 1 -ℤ pos a *ℤ pos 1 ≡ pos b
unfolding ◌*ℤ◌ ◌-ℤ◌
differences a b = ground arith

exact_fractions : ExactCounts Fraction
unfolding fractions
exact_fractions = record {
  add-of_ℕ = λ a b h. ap (λ k. record { num = k; den = 1 }) (sums a b);
  sub-of_ℕ = λ a b h. ap (λ k. record { num = k; den = 1 }) (differences a b);
}

push_all-sum_example :
    let w = push_all {F = Fraction} (5 ∷ 0 ∷ 7 ∷ []) (new_counter 2) in
    (w.q ≡ 0 ∷ 7 ∷ []) × (w.value ≡ whole 7)
unfolding fractions
push_all-sum_example = push_all-sum exact_fractions 2 (5 ∷ 0 ∷ 7 ∷ []) (omega arith)

positive_fractions : IsCounting Fraction
unfolding fractions ◌*ℤ◌ ◌-ℤ◌
positive_fractions k = ground arith

signs_of_fractions : KeepsSigns Fraction
unfolding fractions
signs_of_fractions = record {
  zero_sign = below_zero (pos 0) 1 refl;
  square_sign = λ x. below_zero (x.num *ℤ x.num) (x.den * x.den) (square_positive x.num);
  add_sign = λ x y p q. below_zero (x.num *ℤ pos y.den +ℤ y.num *ℤ pos x.den) (x.den * y.den) (
      sum_positive (x.num *ℤ pos y.den) (y.num *ℤ pos x.den)
        (times_positive x.num y.den (not_below x.num x.den p))
        (times_positive y.num x.den (not_below y.num y.den q)));
  quot_sign = λ x k p.
      below_zero (x.num *ℤ pos 1) (x.den * suc k)
        (times_positive x.num 1 (not_below x.num x.den p));
}

abbrev half : Level Fraction
half = record { level = whole 15; is_relative = true }

abbrev any_5xx : Text → Bool
any_5xx code = text_eq code (codes "500")

abbrev window : Window Fraction
window = record {
  cause_second = none;
  codes_mask = codes "5xx";
  codes_regex = any_5xx;
  measured = [];
  second_window = [];
  level = half;
  seconds_limit = 2;
  tag = none;
}

abbrev measured : List Fraction
measured =
    record { num = pos 300; den = 10 }
    ∷ record { num = pos 0; den = 10 }
    ∷ record { num = pos 300; den = 10 }
    ∷ []

all_measured : map_ok (measure (total_http window)) three_seconds ≡ ok measured
unfolding measure fractions TotalHttp.measure
all_measured = refl

notify-SlidesWindow_example :
    SlidesWindow (whole 0) (total_http window) window three_seconds measured
notify-SlidesWindow_example =
    notify-SlidesWindow positive_fractions (whole 0) (total_http window) window three_seconds
      measured refl refl refl (omega arith) all_measured

abbrev mask_trend : (seconds_limit : ℕ) → (last : Fraction) → HttpTrend Fraction
mask_trend seconds_limit last = record {
  cause_second = none;
  codes_mask = codes "5xx";
  codes_regex = any_5xx;
  tangents = whole 0 ∷ [];
  second_window = [];
  total_tan = whole 0;
  last = last;
  seconds_limit = seconds_limit;
  measurement_error = whole 0;
  tag = none;
}

notify-total_example :
    (c' : HttpTrend Fraction) × (r' : Notified) × (feed HttpTrend.notify
        (mask_trend 2 (whole 0))
        quiet
        three_seconds
      ≡ ok (c', r'))
    × IsAligned c'
notify-total_example =
    notify-total positive_fractions signs_of_fractions (mask_trend 2 (whole 0)) quiet three_seconds
      refl (omega arith)

falls :
    (let change =
        Numbers.sub fractions
          (Numbers.of_ℕ fractions (HttpTrend.parse_data (mask_trend 1 (whole 5)) fast_second.0))
          (whole 5) in
      Numbers.lt fractions
        (Numbers.add fractions
          (Numbers.quot fractions (Numbers.add fractions (whole 0) change) (whole 1))
          (whole 0))
        (whole 0)
      ≡ true)
unfolding fractions HttpTrend.parse_data
falls = refl

one_second_limit : HttpTrend.notify (mask_trend 1 (whole 5)) fast_second ≡ err index_error
unfolding fractions
one_second_limit =
    notify-index_error positive_fractions (mask_trend 1 (whole 5)) fast_second (whole 0) refl refl
      refl falls

-- the criterion after a second, if `notify` returns
abbrev state_of : FracTime Fraction → Result (FracTime Fraction × Notified) → FracTime Fraction
state_of c (ok (c', r)) = c'
state_of c (err e) = c

-- one of the three failed: the ratio stays below one half
abbrev calm : FracTime Fraction
calm = frac_time none (fast_second ∷ [])

abbrev no_stop : Notified
no_stop = record { triggered = false; counting = false }

calm_answer :
    FracTime.notify calm slow_second
    ≡ ok (state_of calm (FracTime.notify calm slow_second), no_stop)
unfolding FracTime.notify fractions new_counter
calm_answer = refl

notify-slides_example :
    (state_of calm (FracTime.notify calm slow_second)).seconds ≡ slow_second ∷ []
notify-slides_example =
    notify-slides calm (fast_second ∷ []) slow_second
      (state_of calm (FracTime.notify calm slow_second)) no_stop refl calm_answer refl

-- a limit of 0: every second stops the test
abbrev strict : FracTime Fraction
strict = record calm { fail_ratio_limit = whole 0 }

abbrev stop_now : Notified
stop_now = record { triggered = true; counting = false }

strict_answer :
    FracTime.notify strict slow_second
    ≡ ok (state_of strict (FracTime.notify strict slow_second), stop_now)
unfolding FracTime.notify fractions new_counter
strict_answer = refl

notify-blames_example :
    (state_of strict (FracTime.notify strict slow_second)).cause_second ≡ some fast_second
notify-blames_example =
    notify-blames strict (fast_second ∷ []) slow_second
      (state_of strict (FracTime.notify strict slow_second)) stop_now refl strict_answer refl
