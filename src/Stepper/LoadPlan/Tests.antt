-- ===== src/Stepper/LoadPlan/Tests.antt =====
-- Plans of a few requests, and a composite of two.
use yandex_tank.Prelude.{◌≡◌, refl, [], ◌∷◌, arith}
use yandex_tank.Prelude.Result.{ok, err, value_error, attribute_error, not_implemented_error}
use yandex_tank.Numbers.Rational.{Fraction, whole, fractions}
use yandex_tank.Stepper.LoadPlan.{
  Plan, composite, composite_times, const_times, line_rps_list, line_rps_at, proper_round, runs,
  const_plan, stairway_plan, last_step,
}
use yandex_tank.Prelude.Text.{codes, split, strip}
use yandex_tank.Stepper.LoadPlan.Parsing.{
  parse_duration, duration_parts, parse_token, produce, created, const_step, search_arguments,
}
use yandex_tank.Stepper.LoadPlan.Times.{InStep, composite-InStep}

-- 1000 ms
abbrev second : Fraction
second = fractions.quot (whole 1000) (whole 1000)

abbrev two_requests : Plan Fraction
two_requests = record {
  times = ok (0 ∷ 500 ∷ []);
  duration = 1000;
  count = 2;
  rps_list = (2, second) ∷ [];
}

composite_of_two : composite (two_requests ∷ two_requests ∷ []) ≡ record {
  times = ok (0 ∷ 500 ∷ 1000 ∷ 1500 ∷ []);
  duration = 2000;
  count = 4;
  rps_list = (2, second) ∷ (2, second) ∷ [];
}
unfolding composite composite_times
composite_of_two = refl

-- const(2, 1s)
const_of_two : const_plan (whole 2) 1000 ≡ two_requests
unfolding const_plan const_times fractions
const_of_two = refl

-- step(1, 2, 1, 1s)
stairway_of_two :
    stairway_plan (whole 1) (whole 2) (whole 1) 1000
    ≡ ok (record {
      times = ok (0 ∷ 1000 ∷ 1500 ∷ []);
      duration = 2000;
      count = 3;
      rps_list = (1, second) ∷ (2, second) ∷ [];
    })
unfolding stairway_plan last_step const_plan const_times composite composite_times fractions
stairway_of_two = refl

-- line(1, 4, 3s)
line_rates :
    line_rps_list (whole 1) (whole 4) (whole 3)
    ≡ (1, whole 1) ∷ (2, whole 1) ∷ (3, whole 1) ∷ (4, whole 1) ∷ []
unfolding line_rps_list line_rps_at proper_round runs fractions
line_rates = refl

two_requests-InStep : InStep two_requests
two_requests-InStep = (0 ∷ 500 ∷ [], refl, (omega arith, (omega arith, omega arith)))

composite-InStep_example : InStep (composite (two_requests ∷ two_requests ∷ []))
composite-InStep_example =
    composite-InStep (two_requests ∷ two_requests ∷ [])
      (two_requests-InStep, (two_requests-InStep, tt))

-- the doctest
hours : parse_duration Fraction (codes "3h2m3s") ≡ ok 10923000
unfolding parse_duration duration_parts parse_token fractions
hours = refl

two_dots : parse_duration Fraction (codes "1.2.3") ≡ err value_error
unfolding parse_duration duration_parts parse_token fractions
two_dots = refl

one_schedule :
    created (codes "const(2, 1s)" ∷ codes " const (2,1)" ∷ [])
    ≡ ok (composite (two_requests ∷ two_requests ∷ []))
unfolding created produce split strip const_step search_arguments duration_parts parse_duration
    parse_token const_plan const_times fractions
one_schedule = refl

-- the hours stand after the minutes
minutes_first : produce {F = Fraction} (codes "const(2, 1m1h)") ≡ err attribute_error
unfolding produce split strip const_step search_arguments
minutes_first = refl

no_such_plan : produce {F = Fraction} (codes "sine(2, 1m)") ≡ err not_implemented_error
unfolding produce split strip
no_such_plan = refl
