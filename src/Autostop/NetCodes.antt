-- ===== src/Autostop/NetCodes.antt =====
-- `NetCodesCriterion` of plugins/Autostop/criterions.py.
use yandex_tank.Prelude.{ℕ, Bool, Option, ◌++◌, ◌==◌, if◌then◌else◌}
use yandex_tank.Prelude.Result.{Result, ok, value_error, require, ◌>>=◌}
use yandex_tank.Prelude.Text.{Text, codes, split, lower, replace, erase}
use yandex_tank.Numbers.{Numbers, divide}
use yandex_tank.Duration.{expand_to_seconds}
use yandex_tank.Autostop.Sample.{
  Data, Second, view, View, Regex, Compiler, count_matched_codes, param, tag_param, tag_suffix,
  Level, parse_share, share_str,
}
use yandex_tank.Autostop.Streak.{Streak, no_streak, Notified, streak_step}

pub record NetCodes (F : Type 0) : Type 0 where
  pub streak : Streak F
  pub codes_mask : Text
  pub codes_regex : Regex
  pub level : Level F
  pub seconds_limit : ℕ
  pub tag : Option Text

abbrev pub type_string : Text
type_string = codes "net"

abbrev pub rc : ℕ
rc = 23

module _ {F : Type 0} ⦃n : Numbers F⦄ where
  unfoldable pub init : Compiler → Text → Result (NetCodes F)
  unfolding split lower replace parse_share expand_to_seconds tag_param
  init compile param_str = do
    let params = split b',' param_str
    mask ← param params 0
    regex ← require value_error (compile (replace b'x' b'.' (lower mask)))
    level ← parse_share (← param params 1)
    seconds_limit ← expand_to_seconds F (← param params 2)
    ok (record {
      streak = no_streak;
      codes_mask = lower mask;
      codes_regex = regex;
      level = level;
      seconds_limit = seconds_limit;
      tag = tag_param params 3;
    })

  -- the number of responses with a matching code other than `0`, and of all
  unfoldable pub parse_data : NetCodes F → Data F → ℕ × ℕ
  unfolding view count_matched_codes
  parse_data c d = elim (view c.tag d) [
    | View.overall ↦ (
      count_matched_codes c.codes_regex (erase (codes "0") d.overall.net_code),
      d.overall.interval_real.len,
    )
    | View.tagged s ↦
        (count_matched_codes c.codes_regex (erase (codes "0") s.net_code), s.interval_real.len)
    | View.absent ↦ (0, d.overall.interval_real.len)
  ]

  -- the test of `notify`
  unfoldable pub exceeds : NetCodes F → Second F → Result Bool
  unfolding parse_data
  exceeds c s =
      let (matched, total) = parse_data c s.0 in
      let share : Result F =
        if total == 0 then ok (n.of_ℕ 0) else divide (n.of_ℕ matched) (n.of_ℕ total) in
      let measured : Result F = if c.level.is_relative then share else ok (n.of_ℕ matched) in
      measured >>= λ x. ok (n.le c.level.level x)

  unfoldable pub notify : NetCodes F → Second F → Result (NetCodes F × Notified)
  unfolding exceeds streak_step
  notify c s = exceeds c s >>= λ exceeded.
      let (k, r) = streak_step exceeded c.seconds_limit s c.streak in
      ok (record c { streak = k }, r)

  unfoldable pub explain : NetCodes F → Text
  explain c =
      c.codes_mask
      ++ (codes " net codes count higher than "
          ++ (share_str c.level
              ++ (codes " for "
                  ++ (n.str_ℕ c.streak.seconds_count ++ (codes "s" ++ tag_suffix c.tag)))))

  unfoldable pub widget_explain : NetCodes F → Result (Text × F)
  widget_explain c = divide (n.of_ℕ c.streak.seconds_count) (n.of_ℕ c.seconds_limit) >>= λ share.
      ok (
        codes "Net "
            ++ (c.codes_mask
                ++ (codes ">"
                    ++ (share_str c.level
                        ++ (codes " for "
                            ++ (n.str_ℕ c.streak.seconds_count
                                ++ (codes "/" ++ (n.str_ℕ c.seconds_limit ++ codes "s"))))))),
        share,
      )
