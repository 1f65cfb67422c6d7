-- ===== src/Autostop/FracTime.antt =====
-- `TotalFracTimeCriterion` of plugins/Autostop/cumulative_criterions.py.
pub mod Laws
use yandex_tank.Prelude.{
  ℕ, ◌+◌, ◌-◌, ◌*◌, Bool, not, true, false, ◌&&◌, ◌||◌, Option, none, some, List, [], ◌∷◌, ◌++◌,
  ◌==◌, ltb, leb, if◌then◌else◌, length, get_elem?, head?, last?, tail,
}
use yandex_tank.Prelude.Result.{Result, ok, value_error, index_error, require, ◌>>=◌}
use yandex_tank.Prelude.Text.{Text, codes, split}
use yandex_tank.Numbers.{Numbers, divide}
use yandex_tank.Duration.{expand_to_milliseconds, expand_to_seconds}
use yandex_tank.Autostop.Sample.{Data, Second, view, View, param, tag_param, tag_suffix, drop_last}
use yandex_tank.Autostop.Streak.{Notified, quiet}
use yandex_tank.Autostop.WindowCounter
use yandex_tank.Autostop.WindowCounter.{WindowCounter}

-- `rt_limit` is in microseconds. `is_numpy` tells whether the value of `fail_counter` has become a
-- number of numpy, as it does with the first count that was read from the sums of the histogram.
pub record FracTime (F : Type 0) : Type 0 where
  pub cause_second : Option (Second F)
  pub rt_limit : ℕ
  pub fail_ratio_limit : F
  pub window_size : ℕ
  pub fail_counter : WindowCounter F
  pub total_counter : WindowCounter F
  pub is_numpy : Bool
  pub total_fail_ratio : F
  pub seconds : List (Second F)
  pub tag : Option Text

abbrev pub type_string : Text
type_string = codes "total_time"

abbrev pub rc : ℕ
rc = 25

-- `np.cumsum`
unfoldable pub cumsum : ℕ → List ℕ → List ℕ
cumsum acc [] = []
cumsum acc (x ∷ xs) = (acc + x) ∷ cumsum (acc + x) xs

-- `np.searchsorted` in an ascending list: how many entries are below `v`
unfoldable pub searchsorted : List ℕ → ℕ → ℕ
searchsorted [] v = 0
searchsorted (b ∷ bs) v = let rest = searchsorted bs v + 1 in if ltb b v then rest else 0

-- the last three branches of `__fail_count`
unfoldable pub count_from : List ℕ → ℕ → Result ℕ
count_from ecdf idx =
    if idx == 0
    then require index_error (last? ecdf)
    else if idx == length ecdf
    then ok 0
    else require index_error (last? ecdf) >>= λ all.
        require index_error (get_elem? ecdf idx) >>= λ fast. ok (all - fast)

abbrev from_sums : (idx size : ℕ) → Bool
from_sums idx size = idx == 0 || not (idx == size)

module _ {F : Type 0} ⦃n : Numbers F⦄ where
  unfoldable pub init : Text → Result (FracTime F)
  unfolding split expand_to_milliseconds expand_to_seconds tag_param WindowCounter.new_counter
  init param_str = do
    let params = split b',' param_str
    rt_limit ← expand_to_milliseconds F (← param params 0)
    percent ← require value_error (n.float_of (drop_last (← param params 1)))
    fail_ratio_limit ← divide percent (n.of_ℕ 100)
    window_size ← expand_to_seconds F (← param params 2)
    ok (record {
      cause_second = none;
      rt_limit = rt_limit * 1000;
      fail_ratio_limit = fail_ratio_limit;
      window_size = window_size;
      fail_counter = WindowCounter.new_counter window_size;
      total_counter = WindowCounter.new_counter window_size;
      is_numpy = false;
      total_fail_ratio = n.of_ℕ 0;
      seconds = [];
      tag = tag_param params 3;
    })

  -- The branches of `__fail_count` on the tag.
  unfoldable pub count_view : ℕ → Data F → View F → Result ℕ
  count_view rt_limit d View.overall =
      count_from (cumsum 0 d.overall.interval_real.hist_data)
        (searchsorted d.overall.interval_real.hist_bins rt_limit)
  count_view rt_limit d (View.tagged s) =
      count_from (cumsum 0 s.interval_real.hist_data)
        (searchsorted s.interval_real.hist_bins rt_limit)
  count_view rt_limit d View.absent = count_from (cumsum 0 d.overall.interval_real.hist_data) 0

  -- How many responses were slower than the limit, by the histogram.
  unfoldable pub fail_count : FracTime F → Data F → Result ℕ
  fail_count c d = count_view c.rt_limit d (view c.tag d)

  -- Whether the count is an entry of the sums, a number of numpy, and not the literal 0.
  unfoldable pub is_numpy_count : ℕ → Data F → View F → Bool
  is_numpy_count rt_limit d View.overall =
      from_sums (searchsorted d.overall.interval_real.hist_bins rt_limit)
        (length d.overall.interval_real.hist_data)
  is_numpy_count rt_limit d (View.tagged s) =
      from_sums (searchsorted s.interval_real.hist_bins rt_limit) (length s.interval_real.hist_data)
  is_numpy_count rt_limit d View.absent = true

  -- `self.fail_counter.value / self.total_counter.value`
  unfoldable pub ratio_of : (is_numpy : Bool) → F → F → Result F
  ratio_of true fails all = ok (n.numpy_quot fails all)
  ratio_of false fails all = divide fails all

  unfoldable pub parse_data : FracTime F → Data F → ℕ
  parse_data c d = elim (view c.tag d) [
    | View.overall ↦ d.overall.interval_real.len
    | View.tagged s ↦ s.interval_real.len
    | View.absent ↦ d.overall.interval_real.len
  ]

  -- `notify` up to the test: the second is stored and both counters are moved on.
  unfoldable pub record_second : FracTime F → Second F → Result (FracTime F)
  record_second c s = do
    fails ← fail_count c s.0
    let fail_counter = WindowCounter.push fails c.fail_counter
    let total_counter = WindowCounter.push (parse_data c s.0) c.total_counter
    let is_numpy = c.is_numpy || is_numpy_count c.rt_limit s.0 (view c.tag s.0)
    ratio ← ratio_of is_numpy fail_counter.value total_counter.value
    ok (record c {
      seconds = c.seconds ++ s ∷ [];
      fail_counter = fail_counter;
      total_counter = total_counter;
      is_numpy = is_numpy;
      total_fail_ratio = ratio;
    })

  -- the test of `notify`, and what follows it
  unfoldable pub decide : FracTime F → Result (FracTime F × Notified)
  decide c =
      if n.le c.fail_ratio_limit c.total_fail_ratio && leb c.window_size (length c.fail_counter.q)
      then require index_error (head? c.seconds) >>= (λ cause.
        ok (record c { cause_second = some cause }, record { triggered = true; counting = false }))
      else if ltb c.window_size (length c.seconds)
      then ok (record c { seconds = tail c.seconds }, quiet)
      else ok (c, quiet)

  unfoldable pub notify : FracTime F → Second F → Result (FracTime F × Notified)
  unfolding view cumsum searchsorted count_from count_view fail_count is_numpy_count ratio_of
      parse_data WindowCounter.push record_second decide
  notify c s = record_second c s >>= decide

  unfoldable pub explain : FracTime F → Text
  explain c =
      n.str2 (n.mul c.total_fail_ratio (n.of_ℕ 100))
      ++ (codes "% responses times higher than "
          ++ (n.str (n.quot (n.of_ℕ c.rt_limit) (n.of_ℕ 1000))
              ++ (codes "ms for " ++ (n.str_ℕ c.window_size ++ (codes "s " ++ tag_suffix c.tag)))))

  unfoldable pub widget_explain : FracTime F → Text × F
  widget_explain c = (
    n.str2 (n.mul c.total_fail_ratio (n.of_ℕ 100))
        ++ (codes "% times >"
            ++ (n.str (n.quot (n.of_ℕ c.rt_limit) (n.of_ℕ 1000))
                ++ (codes "ms for " ++ (n.str_ℕ c.window_size ++ codes "s")))),
    c.total_fail_ratio,
  )
