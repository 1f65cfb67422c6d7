-- ===== src/Autostop/UsedInstances.antt =====
-- `UsedInstancesCriterion` of plugins/Autostop/criterions.py. What the constructor reads of the core
-- and of the two gun plugins is the record `Guns`.
use yandex_tank.Prelude.{ℕ, ◌+◌, Bool, Option, none, some, List, [], ◌∷◌, ◌++◌, ◌==◌, if◌then◌else◌}
use yandex_tank.Prelude.Result.{Result, ok, err, value_error, ◌>>=◌}
use yandex_tank.Prelude.Text.{Text, codes, split, text_eq}
use yandex_tank.Numbers.{Numbers, divide}
use yandex_tank.Duration.{expand_to_seconds}
use yandex_tank.Autostop.Sample.{Second, param, Level, parse_share, share_str}
use yandex_tank.Autostop.Streak.{Streak, no_streak, Notified, streak_step}

pub record UsedInstances (F : Type 0) : Type 0 where
  pub streak : Streak F
  pub threads_limit : ℕ
  pub level : Level F
  pub seconds_limit : ℕ

abbrev pub type_string : Text
type_string = codes "instances"

abbrev pub rc : ℕ
rc = 24

-- A pool of pandora's configuration: `startup.type` and `startup.times`.
pub record Pool : Type 0 where
  pub startup_type : Text
  pub times : ℕ

-- `phantom_instances` is `phantom.get_info().instances`, none where there is no info.
pub record Guns : Type 0 where
  pub phantom_enabled : Bool
  pub phantom_instances : Option ℕ
  pub pandora_enabled : Bool
  pub pandora_pools : List Pool

unfoldable pub sum_pools : ℕ → List Pool → Result ℕ
sum_pools acc [] = ok acc
sum_pools acc (p ∷ ps) =
    let rest = sum_pools (acc + p.times) ps in
    if text_eq p.startup_type (codes "once") then rest else err value_error

-- the branches of the constructor that set `threads_limit`
unfoldable pub find_threads_limit : Guns → Result ℕ
unfolding sum_pools
find_threads_limit g =
    if g.phantom_enabled
    then elim g.phantom_instances [
      | none ↦ err value_error
      | some k ↦ if k == 0 then err value_error else ok k
    ]
    else if g.pandora_enabled
    then sum_pools 0 g.pandora_pools
    else err value_error

module _ {F : Type 0} ⦃n : Numbers F⦄ where
  unfoldable pub init : Guns → Text → Result (UsedInstances F)
  unfolding split parse_share expand_to_seconds find_threads_limit
  init guns param_str = do
    let params = split b',' param_str
    level ← parse_share (← param params 0)
    seconds_limit ← expand_to_seconds F (← param params 1)
    threads_limit ← find_threads_limit guns
    ok (record {
      streak = no_streak;
      threads_limit = threads_limit;
      level = level;
      seconds_limit = seconds_limit;
    })

  -- the test of `notify`
  unfoldable pub exceeds : UsedInstances F → Second F → Result Bool
  exceeds c s =
      let threads = n.of_ℕ s.1.instances in
      let measured : Result F =
        if c.level.is_relative then divide threads (n.of_ℕ c.threads_limit) else ok threads in
      measured >>= λ x. ok (n.lt c.level.level x)

  unfoldable pub notify : UsedInstances F → Second F → Result (UsedInstances F × Notified)
  unfolding exceeds streak_step
  notify c s = exceeds c s >>= λ exceeded.
      let (k, r) = streak_step exceeded c.seconds_limit s c.streak in
      ok (record c { streak = k }, r)

  unfoldable pub explain : UsedInstances F → Text
  explain c =
      codes "Testing threads (instances) utilization higher than "
      ++ (share_str c.level ++ (codes " for " ++ (n.str_ℕ c.streak.seconds_count ++ codes "s")))

  unfoldable pub widget_explain : UsedInstances F → Result (Text × F)
  widget_explain c = divide (n.of_ℕ c.streak.seconds_count) (n.of_ℕ c.seconds_limit) >>= λ share.
      ok (
        codes "Instances >"
            ++ (share_str c.level
                ++ (codes " for "
                    ++ (n.str_ℕ c.streak.seconds_count
                        ++ (codes "/" ++ (n.str_ℕ c.seconds_limit ++ codes "s"))))),
        share,
      )
