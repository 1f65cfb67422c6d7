-- ===== src/Stepper/WritingTests.antt =====
-- A configuration, markers, and a small file that is written.
use yandex_tank.Prelude.{
  ℕ, suc, List, ◌≡◌, refl, true, false, none, some, [], ◌∷◌, ◌++◌, map, filterb, length, arith,
}
use yandex_tank.Prelude.Int.{pos, ◌*ℤ◌, ◌-ℤ◌}
use yandex_tank.Prelude.Result.{
  Result, ok, err, type_error, configuration_error, not_implemented_error,
}
use yandex_tank.Prelude.Text.{Text, codes, is_space, is_digit, split}
use yandex_tank.Prelude.Bytes.{Bytes, is_str_space, int_of, int_digits, show}
use yandex_tank.Numbers.{Numbers, is_zero}
use yandex_tank.Numbers.Rational.{Fraction, whole, fractions}
use yandex_tank.Stepper.Status.{Status, new_status, publish}
use yandex_tank.Stepper.Stpd.{stpd_file, read_stpd, finished}
use yandex_tank.Stepper.Stpd.RoundTrip.{loaded}
use yandex_tank.Stepper.Mark.{
  in_bytes, uniq, limited, Marking, is_text, get_marker, kind_of, apply_marker, mark, uri_marker,
  uri_parts, first_parts, join, numbered,
}
use yandex_tank.Stepper.Missile.{Missile, loops_done}
use yandex_tank.Stepper.Missile.Uris.{uri_style_generator}
use yandex_tank.Stepper.Writing.{make_ammo, Writer, Coming, goes_on, write}
use yandex_tank.Stepper.Writing.Factory.{shots_at, chosen_in, read_stpd-make_ammo, make_ammo-uniq}
use yandex_tank.Stepper.Writing.AmmoLimit.{texts_of, write-ammo_limit}
use yandex_tank.Stepper.Writing.Limit.{in_first_loop, write_first_loop}
use yandex_tank.Stepper.Config.{
  Config, set_limits, loops_of, get_load_plan, get_ammo_generator, check_source,
}
use yandex_tank.Stepper.Config.Limits.{uri_style_generator-set_limits}

abbrev request : Bytes
request = codes "POST /example/search/hello/help/us?param1=50 HTTP/1.1"

abbrev uuid : Bytes → Text
uuid missile = codes "0f"

-- the doctests of `get_marker`
three_parts :
    apply_marker uuid (record { kind = limited (pos 3); number = some 0 }) request
    ≡ ok (
      in_bytes (codes "_example_search_hello#0"),
      record { kind = limited (pos 3); number = some 1 },
    )
unfolding apply_marker mark uri_marker uri_parts first_parts join numbered show split
three_parts = refl

no_such_marker : get_marker (is_text (codes "non-existent")) false ≡ err not_implemented_error
unfolding get_marker kind_of int_of int_digits is_digit
no_such_marker = refl

number_in_text :
    get_marker (is_text (codes "3")) true ≡ ok (record { kind = limited (pos 3); number = some 0 })
unfolding get_marker kind_of int_of int_digits is_digit
number_in_text = refl

abbrev plain : Marking
plain = record { kind = uniq; number = none }

abbrev good : Missile
good = record { missile = codes "GET /"; marker = some (codes "good") }

abbrev bad : Missile
bad = record { missile = codes "GET /bad"; marker = some (codes "bad") }

read_stpd-make_ammo_example :
    let (shots, failure) =
      make_ammo uuid (codes "good" ∷ []) (0 ∷ 10 ∷ 20 ∷ []) (good ∷ bad ∷ good ∷ []) plain in
    (read_stpd (stpd_file shots) ≡ (
      map loaded (
          shots_at
            (0 ∷ 10 ∷ 20 ∷ [])
            (filterb (chosen_in (codes "good" ∷ [])) (good ∷ bad ∷ good ∷ []))),
      finished,
    ))
    × (failure ≡ none)
read_stpd-make_ammo_example =
    read_stpd-make_ammo uuid (codes "good" ∷ []) plain (0 ∷ 10 ∷ 20 ∷ []) (good ∷ bad ∷ good ∷ []) (
      unfold is_str_space is_space in
      (
        ((b'g', codes "ood", refl), ground arith),
        (((b'b', codes "ad", refl), ground arith), (((b'g', codes "ood", refl), ground arith), tt)),
      ))

abbrev bare : Missile
bare = record { missile = codes "GET /"; marker = none }

make_ammo-uniq_example :
    make_ammo uuid [] (0 ∷ 10 ∷ []) (bare ∷ good ∷ []) plain ≡ ([], some type_error)
make_ammo-uniq_example = make_ammo-uniq uuid plain 0 (10 ∷ []) bare (good ∷ []) refl refl (λ e. cc)

abbrev clock : Status Fraction → Fraction
clock s = whole 1

abbrev twice : Writer Fraction
twice = record {
  file = [];
  first_loop_done = false;
  status = record (new_status (whole 0)) { loop_limit = some 2 };
}

-- two missiles in a loop, and a limit of six for two loops
write_first_loop_example :
    (write clock
      (λ file. 1000)
      (in_first_loop (codes "a" ∷ codes "b" ∷ []) ++ (1, codes "a") ∷ [])
      twice).0.status.ammo_limit
    ≡ some 6
write_first_loop_example =
    write_first_loop clock (λ file. 1000) 2 (codes "a" ∷ codes "b" ∷ []) (codes "a") twice refl refl
      refl refl refl

positive : (m : ℕ) → is_zero (Numbers.of_ℕ fractions (suc m)) ≡ false
unfolding fractions ◌*ℤ◌ ◌-ℤ◌
positive m = ground arith

abbrev limited_to_two : Writer Fraction
limited_to_two = record {
  file = codes "-";
  first_loop_done = true;
  status = record (new_status (whole 0)) { ammo_limit = some 2; loop_limit = some 9 };
}

abbrev two_missiles : List Coming
two_missiles = (1, codes "a") ∷ (1, codes "b") ∷ []

-- with a limit of two, a third missile is written and a fourth is not
write-ammo_limit_example :
    let (w, verdict) =
      write clock
        (λ file. 0)
        (two_missiles ++ ((2, codes "c") ∷ ((2, codes "d") ∷ [])))
        limited_to_two in
    (w.file ≡ codes "-" ++ (texts_of two_missiles ++ codes "c")) × (verdict ≡ goes_on)
write-ammo_limit_example =
    write-ammo_limit clock (λ file. 0) 1 two_missiles (2, codes "c") ((2, codes "d") ∷ [])
      limited_to_two positive refl refl (λ e. cc) refl

abbrev config : Config
config = record {
  rps_schedule = [];
  instances_schedule = codes "ramp(5, 0)" ∷ [];
  ammo_file = [];
  instances = 1000;
  loop_limit = some 3;
  ammo_limit = none;
  uris = codes "/" ∷ codes "/list" ∷ [];
  ammo_type = codes "phantom";
}

abbrev returned : Result (Status Fraction) → Status Fraction
returned (ok s) = s
returned (err e) = new_status (whole 0)

abbrev start : Status Fraction
start = new_status (whole 0)

uri_style_generator-set_limits_example :
    let r =
      uri_style_generator
        (λ m s. s)
        4
        (codes "/" ∷ codes "/list" ∷ [])
        []
        (codes "1.1")
        (returned (set_limits config start)) in
    ((returned (set_limits config start)).ammo_limit ≡ some (length r.missiles))
    × (r.end ≡ loops_done)
uri_style_generator-set_limits_example =
    uri_style_generator-set_limits (λ m s. s) config start (returned (set_limits config start)) 2 4
      [] (codes "1.1") (λ m s. (refl, refl)) refl (unfold loops_of in refl) refl (omega arith)
      (unfold set_limits publish in refl)

both_schedules :
    get_load_plan (record config { rps_schedule = codes "const(1, 1s)" ∷ [] }) start
    ≡ err configuration_error
unfolding get_load_plan
both_schedules = refl

both_sources :
    get_ammo_generator (record config { ammo_file = codes "ammo" }) none ≡ err configuration_error
unfolding get_ammo_generator check_source
both_sources = refl
