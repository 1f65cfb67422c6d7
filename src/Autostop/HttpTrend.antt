-- ===== src/Autostop/HttpTrend.antt =====
-- `TotalHTTPTrendCriterion` of plugins/Autostop/cumulative_criterions.py.
pub mod Laws
use yandex_tank.Prelude.{
  ℕ, ◌-◌, true, false, Option, none, some, List, [], ◌∷◌, ◌++◌, ltb, if◌then◌else◌, length, head?,
  tail,
}
use yandex_tank.Prelude.Result.{Result, ok, value_error, index_error, require, ◌>>=◌}
use yandex_tank.Prelude.Text.{Text, codes, split, lower, replace}
use yandex_tank.Numbers.{Numbers, divide, square_root, sum_of}
use yandex_tank.Duration.{expand_to_seconds}
use yandex_tank.Autostop.Sample.{
  Data, Second, view, View, Regex, Compiler, count_matched_codes, param, tag_param,
}
use yandex_tank.Autostop.Streak.{Notified, quiet}

pub record HttpTrend (F : Type 0) : Type 0 where
  pub cause_second : Option (Second F)
  pub codes_mask : Text
  pub codes_regex : Regex
  pub tangents : List F
  pub second_window : List (Second F)
  pub total_tan : F
  pub last : F
  pub seconds_limit : ℕ
  pub measurement_error : F
  pub tag : Option Text

abbrev pub type_string : Text
type_string = codes "http_trend"

abbrev pub rc : ℕ
rc = 30

module _ {F : Type 0} ⦃n : Numbers F⦄ where
  unfoldable pub init : Compiler → Text → Result (HttpTrend F)
  unfolding split lower replace expand_to_seconds tag_param
  init compile param_str = do
    let params = split b',' param_str
    mask ← param params 0
    regex ← require value_error (compile (replace b'x' b'.' (lower mask)))
    seconds_limit ← expand_to_seconds F (← param params 1)
    ok (record {
      cause_second = none;
      codes_mask = lower mask;
      codes_regex = regex;
      tangents = n.of_ℕ 0 ∷ [];
      second_window = [];
      total_tan = n.of_ℕ 0;
      last = n.of_ℕ 0;
      seconds_limit = seconds_limit;
      measurement_error = n.of_ℕ 0;
      tag = tag_param params 2;
    })

  unfoldable pub parse_data : HttpTrend F → Data F → ℕ
  unfolding view count_matched_codes
  parse_data c d = elim (view c.tag d) [
    | View.overall ↦ count_matched_codes c.codes_regex d.overall.proto_code
    | View.tagged s ↦ count_matched_codes c.codes_regex s.proto_code
    | View.absent ↦ 0
  ]

  -- the loop of `calc_measurement_error`
  unfoldable pub squares_from : F → F → List F → F
  squares_from avg acc [] = acc
  squares_from avg acc (x ∷ xs) =
      squares_from avg (n.add acc (n.mul (n.sub x avg) (n.sub x avg))) xs

  unfoldable pub calc_measurement_error : List F → Result F
  unfolding squares_from
  calc_measurement_error tangents =
      if ltb (length tangents) 2
      then ok (n.of_ℕ 0)
      else divide (sum_of tangents) (n.of_ℕ (length tangents)) >>= λ avg.
          divide (squares_from avg (n.of_ℕ 0) tangents) (n.of_ℕ (length tangents)) >>= λ x.
          divide x (n.of_ℕ (length tangents - 1)) >>= λ y. square_root y

  -- `notify` up to the window: the new tangent and second, and `last`
  unfoldable pub slide : F → Second F → HttpTrend F → HttpTrend F
  slide x s c =
      let grown = record c {
        tangents = c.tangents ++ n.sub x c.last ∷ [];
        second_window = c.second_window ++ s ∷ [];
        last = x;
      } in
      if ltb c.seconds_limit (length grown.tangents)
      then record grown { tangents = tail grown.tangents; second_window = tail grown.second_window }
      else grown

  -- the trend over the window, and the test
  unfoldable pub decide : HttpTrend F → Result (HttpTrend F × Notified)
  decide c = do
    error ← calc_measurement_error c.tangents
    tan ← divide (sum_of c.tangents) (n.of_ℕ (length c.tangents))
    let c' = record c { measurement_error = error; total_tan = tan }
    if n.lt (n.add tan error) (n.of_ℕ 0)
        then require index_error (head? c'.second_window) >>= (λ cause.
          ok (
            record c' { cause_second = some cause },
            record { triggered = true; counting = false },
          ))
        else ok (c', quiet)

  unfoldable pub notify : HttpTrend F → Second F → Result (HttpTrend F × Notified)
  unfolding parse_data slide calc_measurement_error decide
  notify c s = decide (slide (n.of_ℕ (parse_data c s.0)) s c)

  unfoldable pub explain : HttpTrend F → Text
  explain c =
      codes "Last trend for "
      ++ (c.codes_mask
          ++ (codes " http codes is "
              ++ (n.str2 c.total_tan
                  ++ (codes " +/- "
                      ++ (n.str2 c.measurement_error
                          ++ (codes " for " ++ (n.str_ℕ c.seconds_limit ++ codes "s")))))))

  unfoldable pub widget_explain : HttpTrend F → Text × F
  widget_explain c = (
    codes "HTTP("
        ++ (c.codes_mask
            ++ (codes ") trend is "
                ++ (n.str2 c.total_tan
                    ++ (codes " +/- "
                        ++ (n.str2 c.measurement_error
                            ++ (codes " < 0 for " ++ (n.str_ℕ c.seconds_limit ++ codes "s"))))))),
    n.of_ℕ 1,
  )
