-- ===== src/Autostop/AvgTime.antt =====
-- `AvgTimeCriterion` of plugins/Autostop/criterions.py.
use yandex_tank.Prelude.{ℕ, Bool, Option, ◌++◌}
use yandex_tank.Prelude.Result.{Result, ok, ◌>>=◌}
use yandex_tank.Prelude.Text.{Text, codes, split}
use yandex_tank.Numbers.{Numbers, divide}
use yandex_tank.Duration.{expand_to_milliseconds, expand_to_seconds}
use yandex_tank.Autostop.Sample.{Data, Second, view, View, param, tag_param, tag_suffix}
use yandex_tank.Autostop.Streak.{Streak, no_streak, Notified, streak_step}

pub record AvgTime (F : Type 0) : Type 0 where
  pub streak : Streak F
  pub rt_limit : ℕ
  pub seconds_limit : ℕ
  pub tag : Option Text

abbrev pub type_string : Text
type_string = codes "time"

abbrev pub rc : ℕ
rc = 21

module _ {F : Type 0} ⦃n : Numbers F⦄ where
  unfoldable pub init : Text → Result (AvgTime F)
  unfolding split expand_to_milliseconds expand_to_seconds tag_param
  init param_str = do
    let params = split b',' param_str
    rt_limit ← expand_to_milliseconds F (← param params 0)
    seconds_limit ← expand_to_seconds F (← param params 1)
    ok (record {
      streak = no_streak;
      rt_limit = rt_limit;
      seconds_limit = seconds_limit;
      tag = tag_param params 2;
    })

  -- the time of the requests in microseconds, and their number
  unfoldable pub parse_data : AvgTime F → Data F → ℕ × ℕ
  unfolding view
  parse_data c d = elim (view c.tag d) [
    | View.overall ↦ (d.overall.interval_real.total, d.overall.interval_real.len)
    | View.tagged s ↦ (s.interval_real.total, s.interval_real.len)
    | View.absent ↦ (0, d.overall.interval_real.len)
  ]

  -- the test of `notify`
  unfoldable pub exceeds : AvgTime F → Second F → Result Bool
  unfolding parse_data
  exceeds c s =
      let (rt_total, requests_number) = parse_data c s.0 in
      divide (n.quot (n.of_ℕ rt_total) (n.of_ℕ 1000)) (n.of_ℕ requests_number) >>= λ rt_actual.
      ok (n.lt (n.of_ℕ c.rt_limit) rt_actual)

  unfoldable pub notify : AvgTime F → Second F → Result (AvgTime F × Notified)
  unfolding exceeds streak_step
  notify c s = exceeds c s >>= λ exceeded.
      let (k, r) = streak_step exceeded c.seconds_limit s c.streak in
      ok (record c { streak = k }, r)

  unfoldable pub explain : AvgTime F → Text
  explain c =
      codes "Average response time higher than "
      ++ (n.str_ℕ c.rt_limit
          ++ (codes "ms for "
              ++ (n.str_ℕ c.streak.seconds_count ++ (codes "s" ++ tag_suffix c.tag))))

  unfoldable pub widget_explain : AvgTime F → Result (Text × F)
  widget_explain c = divide (n.of_ℕ c.streak.seconds_count) (n.of_ℕ c.seconds_limit) >>= λ share.
      ok (
        codes "Avg Time >"
            ++ (n.str_ℕ c.rt_limit
                ++ (codes "ms for "
                    ++ (n.str_ℕ c.streak.seconds_count
                        ++ (codes "/" ++ (n.str_ℕ c.seconds_limit ++ codes "s"))))),
        share,
      )
