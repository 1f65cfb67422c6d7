-- ===== src/Autostop/Quantile.antt =====
-- `QuantileCriterion` of plugins/Autostop/criterions.py.
use yandex_tank.Prelude.{ℕ, Bool, false, Option, none, some, List, [], ◌∷◌, ◌++◌, if◌then◌else◌}
use yandex_tank.Prelude.Result.{Result, ok, value_error, require, ◌>>=◌}
use yandex_tank.Prelude.Text.{Text, codes, split}
use yandex_tank.Numbers.{Numbers, divide}
use yandex_tank.Duration.{expand_to_milliseconds, expand_to_seconds}
use yandex_tank.Autostop.Sample.{Data, Second, view, View, param, tag_param, tag_suffix}
use yandex_tank.Autostop.Streak.{Streak, no_streak, Notified, streak_step}

pub record Quantile (F : Type 0) : Type 0 where
  pub streak : Streak F
  pub quantile : F
  pub rt_limit : ℕ
  pub seconds_limit : ℕ
  pub tag : Option Text

abbrev pub type_string : Text
type_string = codes "quantile"

abbrev pub rc : ℕ
rc = 21

module _ {F : Type 0} ⦃n : Numbers F⦄ where
  unfoldable pub init : Text → Result (Quantile F)
  unfolding split expand_to_milliseconds expand_to_seconds tag_param
  init param_str = do
    let params = split b',' param_str
    quantile ← require value_error (n.float_of (← param params 0))
    rt_limit ← expand_to_milliseconds F (← param params 1)
    seconds_limit ← expand_to_seconds F (← param params 2)
    ok (record {
      streak = no_streak;
      quantile = quantile;
      rt_limit = rt_limit;
      seconds_limit = seconds_limit;
      tag = tag_param params 3;
    })

  -- `d[k] = v`, and a look-up, in a dictionary keyed by numbers
  put : F → F → List (F × F) → List (F × F)
  put k v [] = (k, v) ∷ []
  put k v ((j, w) ∷ d) = if n.eq j k then (j, v) ∷ d else (j, w) ∷ put k v d

  get : F → List (F × F) → Option F
  get k [] = none
  get k ((j, w) ∷ d) = if n.eq j k then some w else get k d

  -- `dict(zip(keys, values))`, put on top of `d`
  unfoldable dict_zip : List F → List F → List (F × F) → List (F × F)
  unfolding put
  dict_zip [] vs d = d
  dict_zip (k ∷ ks) [] d = d
  dict_zip (k ∷ ks) (v ∷ vs) d = dict_zip ks vs (put k v d)

  unfoldable pub parse_data : Quantile F → Data F → List (F × F)
  unfolding view dict_zip
  parse_data c d =
      let quantile_values : List F = elim (view c.tag d) [
        | View.overall ↦ d.overall.interval_real.value
        | View.tagged s ↦ s.interval_real.value
        | View.absent ↦ []
      ] in
      dict_zip d.overall.interval_real.q quantile_values []

  -- the test of `notify`
  unfoldable pub exceeds : Quantile F → Second F → Result Bool
  unfolding parse_data get
  exceeds c s = elim (get c.quantile (parse_data c s.0)) [
    | none ↦ ok false
    | some x ↦ ok (n.lt (n.of_ℕ c.rt_limit) (n.quot x (n.of_ℕ 1000)))
  ]

  unfoldable pub notify : Quantile F → Second F → Result (Quantile F × Notified)
  unfolding exceeds streak_step
  notify c s = exceeds c s >>= λ exceeded.
      let (k, r) = streak_step exceeded c.seconds_limit s c.streak in
      ok (record c { streak = k }, r)

  unfoldable pub explain : Quantile F → Text
  explain c =
      codes "Percentile "
      ++ (n.str c.quantile
          ++ (codes " higher than "
              ++ (n.str_ℕ c.rt_limit
                  ++ (codes "ms for "
                      ++ (n.str_ℕ c.streak.seconds_count ++ (codes "s" ++ tag_suffix c.tag))))))

  unfoldable pub widget_explain : Quantile F → Result (Text × F)
  widget_explain c = divide (n.of_ℕ c.streak.seconds_count) (n.of_ℕ c.seconds_limit) >>= λ share.
      ok (
        n.str c.quantile
            ++ (codes "% >"
                ++ (n.str_ℕ c.rt_limit
                    ++ (codes "ms for "
                        ++ (n.str_ℕ c.streak.seconds_count
                            ++ (codes "/" ++ (n.str_ℕ c.seconds_limit ++ codes "s")))))),
        share,
      )
