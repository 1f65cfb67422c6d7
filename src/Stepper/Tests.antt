-- ===== src/Stepper/Tests.antt =====
-- The schedules of the doctests.
use yandex_tank.Prelude.{◌≡◌, refl, List, [], ◌∷◌, arith}
use yandex_tank.Prelude.Result.{Result, ok, err}
use yandex_tank.Numbers.Rational.{Fraction, fractions}
use yandex_tank.Stepper.InstancePlan
use yandex_tank.Stepper.InstancePlan.{
  start, line, ramp, interval_of, step_count, last_stair, Builder, new_builder, Step, const_step,
  line_step, stairs_step, create, add_step, add_all_steps,
}
use yandex_tank.Stepper.InstancePlan.Laws.{Counted, add_all_steps-Counted, add_step-target}
use yandex_tank.Stepper.InstancePlan.Success.{add_step-succeeds}

-- `['const(3, 5s)', 'line(7, 11, 2s)']`
abbrev schedule : List Step
schedule = const_step 3 5000 ∷ line_step 7 11 2000 ∷ []

abbrev built : Result Builder → Builder
built (ok b) = b
built (err e) = new_builder

all_added :
    add_all_steps Fraction schedule new_builder
    ≡ ok (built (add_all_steps Fraction schedule new_builder))
unfolding add_all_steps fractions start line ramp interval_of
all_added = refl

eleven : (built (add_all_steps Fraction schedule new_builder)).instances ≡ 11
unfolding add_all_steps fractions start line ramp interval_of
eleven = refl

add_all_steps-Counted_example :
    Counted (built (add_all_steps Fraction schedule new_builder))
    × (create (built (add_all_steps Fraction schedule new_builder)) 11 ≡ 0)
add_all_steps-Counted_example =
    add_all_steps-Counted Fraction schedule (built (add_all_steps Fraction schedule new_builder)) 11
      all_added (omega (arith, eleven))

-- `step(2, 10, 3, 3s)`: the last stair is lower
abbrev stairs : Step
stairs = stairs_step 2 10 3 3000

stairs_added :
    add_step Fraction stairs new_builder ≡ ok (built (add_step Fraction stairs new_builder))
unfolding add_step fractions step_count start InstancePlan.stairs last_stair
stairs_added = refl

add_step-target_example : (built (add_step Fraction stairs new_builder)).instances ≡ 10
add_step-target_example =
    add_step-target Fraction stairs new_builder (built (add_step Fraction stairs new_builder)) 10
      stairs_added refl

add_step-succeeds_example : (b : Builder) × (add_step Fraction stairs new_builder ≡ ok b)
add_step-succeeds_example =
    add_step-succeeds Fraction stairs new_builder (omega arith, omega arith, omega arith)
