-- ===== src/Autostop/PluginTests.antt =====
-- The autostop plugin at concrete seconds.
use yandex_tank.Prelude.{false, ◌≡◌, refl, Option, none, some, List, [], ◌∷◌}
use yandex_tank.Prelude.Int.{pos}
use yandex_tank.Prelude.Result.{Result, ok, err, zero_division_error, value_error, map_ok}
use yandex_tank.Prelude.Text.{codes, text_eq, strip, lower}
use yandex_tank.Numbers.Rational.{Fraction, whole, fractions}
use yandex_tank.Autostop.Sample.{Second}
use yandex_tank.Autostop.Streak.{no_streak}
use yandex_tank.Autostop.AvgTime
use yandex_tank.Autostop.Criterion
use yandex_tank.Autostop.Plugin.{Plugin, Event, new_plugin, on_aggregated_data, is_test_finished}
use yandex_tank.Autostop.Plugin.Laws.{
  Told, tell, kept, counting_of, last_triggered, reports, triggered_texts, tell_seconds,
  on_aggregated_data-tells, on_aggregated_data-latches, on_aggregated_data-raises,
}
use yandex_tank.Autostop.Criterion.{
  Criterion, Class, World, avg_time, avg_time_class, construct, create_criterion, class_of,
  get_type_string,
}
use yandex_tank.Autostop.Criterion.Creation.{create_criterion-class_of}
use yandex_tank.Autostop.Samples.{slow_second, time_criterion, section}

abbrev eager : Criterion Fraction
eager = avg_time (record { streak = no_streak; rt_limit = 5; seconds_limit = 1; tag = none })

abbrev plugin : Plugin Fraction
plugin = record new_plugin {
  criterions = (codes "time(5,2)", time_criterion) ∷ (codes "time(5,1)", eager) ∷ [];
}

abbrev told_of : Result (List (Told Fraction)) → List (Told Fraction)
told_of (ok ts) = ts
told_of (err e) = []

all_told :
    map_ok (tell (whole 0) slow_second) plugin.criterions
    ≡ ok (told_of (map_ok (tell (whole 0) slow_second) plugin.criterions))
unfolding Criterion.notify fractions AvgTime.notify
all_told = refl

on_aggregated_data-tells_example :
    let ts = told_of (map_ok (tell (whole 0) slow_second) plugin.criterions) in
    (p' : Plugin Fraction) × (es : List Event) × (on_aggregated_data (whole 0) slow_second plugin
      ≡ ok (p', es))
    × (p'.criterions ≡ kept ts)
    × (p'.counting ≡ counting_of ts)
    × (p'.cause_criterion ≡ last_triggered none ts)
    × (reports es ≡ triggered_texts ts)
on_aggregated_data-tells_example =
    on_aggregated_data-tells (whole 0) slow_second plugin
      (told_of (map_ok (tell (whole 0) slow_second) plugin.criterions)) refl all_told

-- a second without responses divides by zero
abbrev empty_second : Second Fraction
empty_second =
    (record { ts = 102; overall = section 0 0 0; tagged = [] }, record { instances = 0; reqps = 0 })

abbrev last_of_told : Option (Criterion Fraction) → Criterion Fraction
last_of_told none = eager
last_of_told (some c) = c

-- the second that follows would raise, if a criterion were notified of it
abbrev triggered_eager : Criterion Fraction
triggered_eager =
    last_of_told
      (last_triggered none (told_of (map_ok (tell (whole 0) slow_second) plugin.criterions)))

on_aggregated_data-latches_example :
    let ts = told_of (map_ok (tell (whole 0) slow_second) plugin.criterions) in
    (p' : Plugin Fraction) × (es : List Event) × (tell_seconds plugin
        ((whole 0, slow_second) ∷ (whole 1, empty_second) ∷ [])
      ≡ ok (p', es))
    × (p'.criterions ≡ kept ts)
    × (reports es ≡ triggered_texts ts)
    × (is_test_finished p' ≡ pos 21)
unfolding Criterion.notify fractions AvgTime.notify is_test_finished
on_aggregated_data-latches_example =
    on_aggregated_data-latches (whole 0) slow_second plugin
      (told_of (map_ok (tell (whole 0) slow_second) plugin.criterions)) triggered_eager
      ((whole 1, empty_second) ∷ []) refl all_told refl

divides : map_ok (tell (whole 0) empty_second) plugin.criterions ≡ err zero_division_error
unfolding Criterion.notify fractions AvgTime.notify
divides = refl

on_aggregated_data-raises_example :
    on_aggregated_data (whole 0) empty_second plugin ≡ err zero_division_error
on_aggregated_data-raises_example =
    on_aggregated_data-raises (whole 0) empty_second plugin zero_division_error refl divides

abbrev nowhere : World Fraction
nowhere = record {
  now = whole 0;
  later = whole 0;
  compile = λ mask. none;
  guns = record {
    phantom_enabled = false;
    phantom_instances = none;
    pandora_enabled = false;
    pandora_pools = [];
  };
}

abbrev one_second : Criterion Fraction
one_second =
    avg_time (record { streak = no_streak; rt_limit = 1000; seconds_limit = 2; tag = none })

made_from : create_criterion nowhere (codes "Time (1s, 2)") ≡ ok one_second
unfolding create_criterion AvgTime.init fractions
made_from = refl

create_criterion-class_of_example :
    let made = create_criterion nowhere (codes "Time (1s, 2)") in
    ((k : Class)
      → lower (strip (codes "Time ")) ≡ get_type_string k
      → (made ≡ construct nowhere k (strip (codes "1s, 2")))
        × ((c : Criterion Fraction) → made ≡ ok c → class_of c ≡ k))
    × (((k : Class) → text_eq (get_type_string k) (lower (strip (codes "Time "))) ≡ false)
        → made ≡ err value_error)
create_criterion-class_of_example =
    create_criterion-class_of nowhere (codes "Time ") (codes "1s, 2")
      (refl, (refl, (refl, (refl, (refl, tt))))) (refl, (refl, (refl, (refl, (refl, tt)))))
      (refl, (refl, (refl, (refl, (refl, tt)))))

time_type : lower (strip (codes "Time ")) ≡ get_type_string avg_time_class
unfolding lower strip get_type_string
time_type = refl
