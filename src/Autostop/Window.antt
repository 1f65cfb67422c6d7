-- ===== src/Autostop/Window.antt =====
-- The sliding window that the four cumulative code criteria of cumulative_criterions.py share:
-- their fields, and the part of `notify` behind the measurement.
pub mod Laws
use yandex_tank.Prelude.{
  ℕ, true, false, ◌&&◌, Option, none, some, List, [], ◌∷◌, ◌++◌, ltb, leb, if◌then◌else◌, length,
  head?, tail,
}
use yandex_tank.Prelude.Result.{Result, ok, value_error, index_error, require, ◌>>=◌}
use yandex_tank.Prelude.Text.{Text, codes, split, lower, replace}
use yandex_tank.Numbers.{Numbers, divide, sum_of}
use yandex_tank.Duration.{expand_to_seconds}
use yandex_tank.Autostop.Sample.{
  Second, Regex, Compiler, param, tag_param, tag_suffix, Level, parse_percent, percent_str,
}
use yandex_tank.Autostop.Streak.{Notified, quiet}

-- `measured` is the field `data`, `second_window` the seconds that it was measured in.
pub record Window (F : Type 0) : Type 0 where
  pub cause_second : Option (Second F)
  pub codes_mask : Text
  pub codes_regex : Regex
  pub measured : List F
  pub second_window : List (Second F)
  pub level : Level F
  pub seconds_limit : ℕ
  pub tag : Option Text

module _ {F : Type 0} ⦃n : Numbers F⦄ where
  unfoldable pub init : Compiler → Text → Result (Window F)
  unfolding split lower replace parse_percent expand_to_seconds tag_param
  init compile param_str = do
    let params = split b',' param_str
    mask ← param params 0
    regex ← require value_error (compile (replace b'x' b'.' (lower mask)))
    level ← parse_percent (← param params 1)
    seconds_limit ← expand_to_seconds F (← param params 2)
    ok (record {
      cause_second = none;
      codes_mask = lower mask;
      codes_regex = regex;
      measured = [];
      second_window = [];
      level = level;
      seconds_limit = seconds_limit;
      tag = tag_param params 3;
    })

  -- Both queues take the new entry, and drop their first once they are longer than the limit.
  unfoldable pub slide : F → Second F → Window F → Window F
  slide x s c =
      let grown = record c {
        measured = c.measured ++ x ∷ [];
        second_window = c.second_window ++ s ∷ [];
      } in
      if ltb c.seconds_limit (length grown.measured)
      then record grown { measured = tail grown.measured; second_window = tail grown.second_window }
      else grown

  -- `sum(self.data) / queue_len`
  unfoldable pub average : Window F → Result F
  average c =
      if c.level.is_relative
      then divide (sum_of c.measured) (n.of_ℕ (length c.measured))
      else divide (sum_of c.measured) (n.of_ℕ 1)

  unfoldable pub decide : Window F → Result (Window F × Notified)
  decide c = average c >>= λ x.
      if n.le c.level.level x && leb c.seconds_limit (length c.measured)
      then require index_error (head? c.second_window) >>= (λ cause.
        ok (record c { cause_second = some cause }, record { triggered = true; counting = false }))
      else ok (c, quiet)

  unfoldable pub window_step : F → Second F → Window F → Result (Window F × Notified)
  unfolding slide average decide
  window_step x s c = decide (slide x s c)

  unfoldable pub explain_with : (before after : Text) → Window F → Text
  explain_with before after c =
      before
      ++ (c.codes_mask
          ++ (after
              ++ (percent_str c.level
                  ++ (codes " for "
                      ++ (n.str_ℕ c.seconds_limit ++ (codes "s" ++ tag_suffix c.tag))))))

  unfoldable pub widget_with : (before : Text) → Window F → Text × F
  widget_with before c = (
    before
        ++ (c.codes_mask
            ++ (codes ">"
                ++ (percent_str c.level
                    ++ (codes " for " ++ (n.str_ℕ c.seconds_limit ++ codes "s"))))),
    if c.level.is_relative then sum_of c.measured else n.of_ℕ 1,
  )
