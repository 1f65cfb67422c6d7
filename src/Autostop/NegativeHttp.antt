-- ===== src/Autostop/NegativeHttp.antt =====
-- `TotalNegativeHTTPCodesCriterion` of plugins/Autostop/cumulative_criterions.py.
use yandex_tank.Prelude.{ℕ, ◌==◌, if◌then◌else◌}
use yandex_tank.Prelude.Result.{Result, ok, ◌>>=◌}
use yandex_tank.Prelude.Text.{Text, codes}
use yandex_tank.Numbers.{Numbers, divide}
use yandex_tank.Autostop.Sample.{Data, Second, view, View, Compiler, count_matched_codes}
use yandex_tank.Autostop.Streak.{Notified}
use yandex_tank.Autostop.Window
use yandex_tank.Autostop.Window.{Window, window_step, explain_with, widget_with}

abbrev pub type_string : Text
type_string = codes "negative_http"

abbrev pub rc : ℕ
rc = 28

module _ {F : Type 0} ⦃n : Numbers F⦄ where
  unfoldable pub init : Compiler → Text → Result (Window F)
  unfolding Window.init
  init = Window.init

  -- the number of responses with a matching code, and of all
  unfoldable pub parse_data : Window F → Data F → ℕ × ℕ
  unfolding view count_matched_codes
  parse_data c d = elim (view c.tag d) [
    | View.overall ↦
        (count_matched_codes c.codes_regex d.overall.proto_code, d.overall.interval_real.len)
    | View.tagged s ↦ (count_matched_codes c.codes_regex s.proto_code, s.interval_real.len)
    | View.absent ↦ (0, d.overall.interval_real.len)
  ]

  -- what `notify` appends to `data`
  unfoldable pub measure : Window F → Data F → Result F
  unfolding parse_data
  measure c d =
      let (matched, total) = parse_data c d in
      let percent : Result F =
        if total == 0
        then ok (n.of_ℕ 1)
        else divide (n.of_ℕ matched) (n.of_ℕ total) >>= λ x.
            ok (n.sub (n.of_ℕ 100) (n.mul x (n.of_ℕ 100))) in
      if c.level.is_relative then percent else ok (n.sub (n.of_ℕ total) (n.of_ℕ matched))

  unfoldable pub notify : Window F → Second F → Result (Window F × Notified)
  unfolding measure window_step
  notify c s = measure c s.0 >>= λ x. window_step x s c

  unfoldable pub explain : Window F → Text
  unfolding explain_with
  explain = explain_with (codes "Not ") (codes " codes count higher than ")

  unfoldable pub widget_explain : Window F → Text × F
  unfolding widget_with
  widget_explain = widget_with (codes "HTTP not ")
