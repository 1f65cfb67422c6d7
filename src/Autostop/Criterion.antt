-- ===== src/Autostop/Criterion.antt =====
-- The criterion classes as one type: `AbstractCriterion` of common/interfaces.py, its subclasses
-- as constructors, and its methods by dispatch on the class. Also `__create_criterion` of
-- plugins/Autostop/plugin.py.
mod Feed
pub mod Creation
pub mod Streaks
pub mod Windows
use yandex_tank.Prelude.{ℕ, Option, none, some, List, [], ◌∷◌, if◌then◌else◌}
use yandex_tank.Prelude.Result.{Result, ok, err, value_error, not_implemented_error, require, ◌>>=◌}
use yandex_tank.Prelude.Text.{Text, codes, text_eq, split, strip, lower}
use yandex_tank.Numbers.{Numbers}
use yandex_tank.Autostop.Sample.{Second, Compiler, param}
use yandex_tank.Autostop.Streak.{Notified}
use yandex_tank.Autostop.AvgTime
use yandex_tank.Autostop.HttpCodes
use yandex_tank.Autostop.NetCodes
use yandex_tank.Autostop.Quantile
use yandex_tank.Autostop.TimeLimit
use yandex_tank.Autostop.UsedInstances
use yandex_tank.Autostop.FracTime
use yandex_tank.Autostop.Window
use yandex_tank.Autostop.TotalHttp
use yandex_tank.Autostop.TotalNet
use yandex_tank.Autostop.NegativeHttp
use yandex_tank.Autostop.NegativeNet
use yandex_tank.Autostop.HttpTrend

pub data Criterion (F : Type 0) : Type 0 where
  avg_time : AvgTime.AvgTime F → Criterion F
  http : HttpCodes.HttpCodes F → Criterion F
  net : NetCodes.NetCodes F → Criterion F
  quantile : Quantile.Quantile F → Criterion F
  limit : TimeLimit.TimeLimit F → Criterion F
  instances : UsedInstances.UsedInstances F → Criterion F
  total_time : FracTime.FracTime F → Criterion F
  total_http : Window.Window F → Criterion F
  total_net : Window.Window F → Criterion F
  negative_http : Window.Window F → Criterion F
  negative_net : Window.Window F → Criterion F
  http_trend : HttpTrend.HttpTrend F → Criterion F

-- The classes that `configure` registers, in its order.
pub data Class : Type 0 where
  avg_time_class net_class http_class quantile_class steady_class limit_class : Class
  instances_class total_time_class total_http_class total_net_class : Class
  negative_http_class negative_net_class http_trend_class : Class

unfoldable pub registered : List Class
registered =
    avg_time_class ∷ net_class ∷ http_class ∷ quantile_class ∷ steady_class ∷ limit_class
    ∷ instances_class ∷ total_time_class ∷ total_http_class ∷ total_net_class ∷ negative_http_class
    ∷ negative_net_class ∷ http_trend_class ∷ []

unfoldable pub get_type_string : Class → Text
get_type_string avg_time_class = AvgTime.type_string
get_type_string net_class = NetCodes.type_string
get_type_string http_class = HttpCodes.type_string
get_type_string quantile_class = Quantile.type_string
get_type_string steady_class = codes "steady_cumulative"
get_type_string limit_class = TimeLimit.type_string
get_type_string instances_class = UsedInstances.type_string
get_type_string total_time_class = FracTime.type_string
get_type_string total_http_class = TotalHttp.type_string
get_type_string total_net_class = TotalNet.type_string
get_type_string negative_http_class = NegativeHttp.type_string
get_type_string negative_net_class = NegativeNet.type_string
get_type_string http_trend_class = HttpTrend.type_string

module _ {F : Type 0} where
  -- `type(criterion)`
  unfoldable pub class_of : Criterion F → Class
  class_of (avg_time c) = avg_time_class
  class_of (http c) = http_class
  class_of (net c) = net_class
  class_of (quantile c) = quantile_class
  class_of (limit c) = limit_class
  class_of (instances c) = instances_class
  class_of (total_time c) = total_time_class
  class_of (total_http c) = total_http_class
  class_of (total_net c) = total_net_class
  class_of (negative_http c) = negative_http_class
  class_of (negative_net c) = negative_net_class
  class_of (http_trend c) = http_trend_class

  unfoldable pub get_rc : Criterion F → ℕ
  get_rc (avg_time c) = AvgTime.rc
  get_rc (http c) = HttpCodes.rc
  get_rc (net c) = NetCodes.rc
  get_rc (quantile c) = Quantile.rc
  get_rc (limit c) = TimeLimit.rc
  get_rc (instances c) = UsedInstances.rc
  get_rc (total_time c) = FracTime.rc
  get_rc (total_http c) = TotalHttp.rc
  get_rc (total_net c) = TotalNet.rc
  get_rc (negative_http c) = NegativeHttp.rc
  get_rc (negative_net c) = NegativeNet.rc
  get_rc (http_trend c) = HttpTrend.rc

  -- `criterion.cause_second`; the time limit never sets it.
  unfoldable pub cause_second : Criterion F → Option (Second F)
  cause_second (avg_time c) = c.streak.cause_second
  cause_second (http c) = c.streak.cause_second
  cause_second (net c) = c.streak.cause_second
  cause_second (quantile c) = c.streak.cause_second
  cause_second (limit c) = none
  cause_second (instances c) = c.streak.cause_second
  cause_second (total_time c) = c.cause_second
  cause_second (total_http c) = c.cause_second
  cause_second (total_net c) = c.cause_second
  cause_second (negative_http c) = c.cause_second
  cause_second (negative_net c) = c.cause_second
  cause_second (http_trend c) = c.cause_second

-- A method on the object inside, put back under its constructor.
abbrev pub under : {A B : Type 0} → (A → B) → Result (A × Notified) → Result (B × Notified)
under f r = r >>= λ (a, x). ok (f a, x)

-- What the constructors take from outside: the clock's two readings, the regex compiler, the guns.
pub record World (F : Type 0) : Type 0 where
  pub now : F
  pub later : F
  pub compile : Compiler
  pub guns : UsedInstances.Guns

module _ {F : Type 0} ⦃n : Numbers F⦄ where
  unfoldable pub notify : (now : F) → Criterion F → Second F → Result (Criterion F × Notified)
  notify now (avg_time c) s = under avg_time (AvgTime.notify c s)
  notify now (http c) s = under http (HttpCodes.notify c s)
  notify now (net c) s = under net (NetCodes.notify c s)
  notify now (quantile c) s = under quantile (Quantile.notify c s)
  notify now (limit c) s = under limit (ok (TimeLimit.notify now c))
  notify now (instances c) s = under instances (UsedInstances.notify c s)
  notify now (total_time c) s = under total_time (FracTime.notify c s)
  notify now (total_http c) s = under total_http (TotalHttp.notify c s)
  notify now (total_net c) s = under total_net (TotalNet.notify c s)
  notify now (negative_http c) s = under negative_http (NegativeHttp.notify c s)
  notify now (negative_net c) s = under negative_net (NegativeNet.notify c s)
  notify now (http_trend c) s = under http_trend (HttpTrend.notify c s)

  unfoldable pub explain : Criterion F → Text
  explain (avg_time c) = AvgTime.explain c
  explain (http c) = HttpCodes.explain c
  explain (net c) = NetCodes.explain c
  explain (quantile c) = Quantile.explain c
  explain (limit c) = TimeLimit.explain c
  explain (instances c) = UsedInstances.explain c
  explain (total_time c) = FracTime.explain c
  explain (total_http c) = TotalHttp.explain c
  explain (total_net c) = TotalNet.explain c
  explain (negative_http c) = NegativeHttp.explain c
  explain (negative_net c) = NegativeNet.explain c
  explain (http_trend c) = HttpTrend.explain c

  unfoldable pub widget_explain : Criterion F → Result (Text × F)
  widget_explain (avg_time c) = AvgTime.widget_explain c
  widget_explain (http c) = HttpCodes.widget_explain c
  widget_explain (net c) = NetCodes.widget_explain c
  widget_explain (quantile c) = Quantile.widget_explain c
  widget_explain (limit c) = TimeLimit.widget_explain c
  widget_explain (instances c) = UsedInstances.widget_explain c
  widget_explain (total_time c) = ok (FracTime.widget_explain c)
  widget_explain (total_http c) = ok (TotalHttp.widget_explain c)
  widget_explain (total_net c) = ok (TotalNet.widget_explain c)
  widget_explain (negative_http c) = ok (NegativeHttp.widget_explain c)
  widget_explain (negative_net c) = ok (NegativeNet.widget_explain c)
  widget_explain (http_trend c) = ok (HttpTrend.widget_explain c)

  -- `criterion_class(self, param_str)`. The constructor of the steady criterion only raises.
  unfoldable pub construct : World F → Class → Text → Result (Criterion F)
  unfolding AvgTime.init HttpCodes.init NetCodes.init Quantile.init TimeLimit.init
      UsedInstances.init FracTime.init TotalHttp.init TotalNet.init NegativeHttp.init
      NegativeNet.init HttpTrend.init
  construct w avg_time_class p = AvgTime.init p >>= λ c. ok (avg_time c)
  construct w net_class p = NetCodes.init w.compile p >>= λ c. ok (net c)
  construct w http_class p = HttpCodes.init w.compile p >>= λ c. ok (http c)
  construct w quantile_class p = Quantile.init p >>= λ c. ok (quantile c)
  construct w steady_class p = err not_implemented_error
  construct w limit_class p = TimeLimit.init w.now w.later p >>= λ c. ok (limit c)
  construct w instances_class p = UsedInstances.init w.guns p >>= λ c. ok (instances c)
  construct w total_time_class p = FracTime.init p >>= λ c. ok (total_time c)
  construct w total_http_class p = TotalHttp.init w.compile p >>= λ c. ok (total_http c)
  construct w total_net_class p = TotalNet.init w.compile p >>= λ c. ok (total_net c)
  construct w negative_http_class p = NegativeHttp.init w.compile p >>= λ c. ok (negative_http c)
  construct w negative_net_class p = NegativeNet.init w.compile p >>= λ c. ok (negative_net c)
  construct w http_trend_class p = HttpTrend.init w.compile p >>= λ c. ok (http_trend c)

-- the loop over `custom_criterions`
unfoldable pub find_class : Text → List Class → Option Class
unfolding get_type_string
find_class type_str [] = none
find_class type_str (k ∷ ks) =
    if text_eq (get_type_string k) type_str then some k else find_class type_str ks

-- The type and the parameters in a criterion string, `time(1s, 10s)`.
unfoldable pub parse_call : Text → Result (Text × Text)
unfolding split strip lower
parse_call criterion_str = do
  let parsed = split b'(' criterion_str
  type_part ← param parsed 0
  rest ← param parsed 1
  params ← param (split b')' rest) 0
  ok (lower (strip type_part), strip params)

unfoldable pub create_criterion :
    {F : Type 0} ⦃n : Numbers F⦄ → World F → Text → Result (Criterion F)
unfolding parse_call find_class registered construct
create_criterion w criterion_str = parse_call criterion_str >>= λ (type_str, params).
    require value_error (find_class type_str registered) >>= λ k. construct w k params
