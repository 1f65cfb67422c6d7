-- ===== src/Autostop/TimeLimit.antt =====
-- `TimeLimitCriterion` of plugins/Autostop/criterions.py. `time.time()` is the argument `now`.
use yandex_tank.Prelude.{ℕ, false, ◌++◌}
use yandex_tank.Prelude.Result.{Result, ok, ◌>>=◌}
use yandex_tank.Prelude.Text.{Text, codes}
use yandex_tank.Numbers.{Numbers, divide}
use yandex_tank.Duration.{expand_to_seconds}
use yandex_tank.Autostop.Streak.{Notified}

pub record TimeLimit (F : Type 0) : Type 0 where
  pub start_time : F
  pub end_time : F
  pub time_limit : ℕ

abbrev pub type_string : Text
type_string = codes "limit"

abbrev pub rc : ℕ
rc = 21

module _ {F : Type 0} ⦃n : Numbers F⦄ where
  -- the two calls of `time.time()` in the constructor
  unfoldable pub init : (now later : F) → Text → Result (TimeLimit F)
  unfolding expand_to_seconds
  init now later param_str = expand_to_seconds F param_str >>= λ limit.
      ok (record { start_time = now; end_time = later; time_limit = limit })

  unfoldable pub notify : (now : F) → TimeLimit F → TimeLimit F × Notified
  notify now c = (
    record c { end_time = now },
    record { triggered = n.lt (n.of_ℕ c.time_limit) (n.sub now c.start_time); counting = false },
  )

  unfoldable pub explain : TimeLimit F → Text
  explain c = codes "Test time elapsed. Limit: " ++ (n.str_ℕ c.time_limit ++ codes "s")

  unfoldable pub widget_explain : TimeLimit F → Result (Text × F)
  widget_explain c =
      let actual = n.sub c.end_time c.start_time in
      divide actual (n.of_ℕ c.time_limit) >>= λ share. ok (
        codes "Time limit: "
            ++ (n.str_ℕ c.time_limit ++ (codes "s, actual time: " ++ (n.str actual ++ codes "s"))),
        share,
      )
