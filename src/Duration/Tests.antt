-- ===== src/Duration/Tests.antt =====
-- Time strings that users write.
use yandex_tank.Prelude.{List, [], ◌∷◌, ◌≡◌, refl}
use yandex_tank.Prelude.Result.{ok, err, value_error, ◌>>=◌}
use yandex_tank.Prelude.Text.{codes, is_digit, is_letter, is_upper}
use yandex_tank.Numbers.{Numbers}
use yandex_tank.Numbers.Rational.{Fraction, whole, fractions}
use yandex_tank.Duration.{Part, expand_time, expand_to_milliseconds}
use yandex_tank.Duration.Laws.{print, IsWritten, sum_worth, expand_time-print}

in_milliseconds : expand_to_milliseconds Fraction (codes "1m30S5") ≡ ok 90005
unfolding expand_to_milliseconds fractions
in_milliseconds = refl

-- the pattern knows no fractions: this is 1 ms and 5 s
no_fractions : expand_to_milliseconds Fraction (codes "1.5s") ≡ ok 5001
unfolding expand_to_milliseconds fractions
no_fractions = refl

abbrev written : List Part
written =
    record { digits = codes "1"; letters = codes "h" }
    ∷ record { digits = codes "30"; letters = codes "M" }
    ∷ record { digits = codes "5"; letters = [] }
    ∷ []

written-IsWritten : IsWritten written
unfolding is_digit is_letter is_upper
written-IsWritten = (
  (cc, (refl, tt), (refl, tt)),
  cc,
  ((cc, (refl, (refl, tt)), (refl, tt)), cc, (cc, (refl, tt), tt)),
)

expand_time-print_example : expand_time Fraction (print written) (codes "s") 1 ≡ (
    sum_worth (codes "s") (whole 0) written >>= λ x.
    ok (Numbers.trunc fractions (Numbers.mul fractions x (whole 1))))
unfolding fractions
expand_time-print_example = expand_time-print Fraction written (codes "s") 1 written-IsWritten

as_written : expand_time Fraction (codes "1h30M5") (codes "s") 1 ≡ ok 5405
unfolding expand_time fractions
as_written = refl

no_such_unit : expand_time Fraction (codes "1m30x") (codes "s") 1 ≡ err value_error
unfolding expand_time fractions
no_such_unit = refl
