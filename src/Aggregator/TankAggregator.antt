-- ===== src/Aggregator/TankAggregator.antt =====
-- `TankAggregator` of aggregator/tank_aggregator.py: it joins the seconds of the results with those
-- of the statistics and tells its listeners. The two queues are the lists that
-- `get_nowait_from_queue` returns. An item is its key "ts" with the rest of it.
pub mod Laws
pub mod Ending
use yandex_tank.Prelude.{ℕ, Bool, none, some, List, [], ◌∷◌, ◌++◌, map, leb, if◌then◌else◌}
use yandex_tank.Prelude.Dict.{lookup, insert, remove}
use yandex_tank.Autostop.Sample.{Stat}

pub record TankAggregator (D : Type 0) : Type 0 where
  pub data_cache : List (ℕ × D)
  pub stat_cache : List (ℕ × Stat)

-- The calls of `on_aggregated_data` on each listener, in order.
abbrev pub Notices : Type 0 → Type 0
Notices D = List (ℕ × (D × Stat))

unfoldable pub stats_item : (instances rps : ℕ) → Stat
stats_item instances rps = record { instances = instances; reqps = rps }

module _ {D : Type 0} where
  abbrev pub new_aggregator : TankAggregator D
  new_aggregator = record { data_cache = []; stat_cache = [] }

  -- the body of the loop over the results
  unfoldable pub take_data : ℕ × D → TankAggregator D → TankAggregator D × Notices D
  take_data (ts, d) a = elim (lookup ts a.stat_cache) [
    | some s ↦ (record a { stat_cache = remove ts a.stat_cache }, (ts, (d, s)) ∷ [])
    | none ↦ (record a { data_cache = insert ts d a.data_cache }, [])
  ]

  -- the body of the loop over the statistics
  unfoldable pub take_stat : ℕ × Stat → TankAggregator D → TankAggregator D × Notices D
  take_stat (ts, s) a = elim (lookup ts a.data_cache) [
    | some d ↦ (record a { data_cache = remove ts a.data_cache }, (ts, (d, s)) ∷ [])
    | none ↦ (record a { stat_cache = insert ts s a.stat_cache }, [])
  ]

  abbrev pub each :
      {A : Type 0}
      → (A → TankAggregator D → TankAggregator D × Notices D)
      → List A
      → TankAggregator D
      → TankAggregator D × Notices D
  each take [] a = (a, [])
  each take (x ∷ xs) a =
      let (a₁, sent₁) = take x a in let (a₂, sent₂) = each take xs a₁ in (a₂, sent₁ ++ sent₂)

  unfoldable pub put_sorted : ℕ × D → List (ℕ × D) → List (ℕ × D)
  put_sorted x [] = x ∷ []
  put_sorted x (y ∷ ys) = if leb x.0 y.0 then x ∷ y ∷ ys else y ∷ put_sorted x ys

  -- `sorted(items, key=lambda i: i[0])`
  unfoldable pub sorted : List (ℕ × D) → List (ℕ × D)
  unfolding put_sorted
  sorted [] = []
  sorted (x ∷ xs) = put_sorted x (sorted xs)

  -- at the end, the seconds without statistics; the cache keeps them
  unfoldable pub flush : TankAggregator D → Notices D
  unfolding stats_item
  flush a = map (λ (ts, d). (ts, (d, stats_item 0 0))) (sorted a.data_cache)

  unfoldable pub collect_data :
      (end : Bool)
      → List (ℕ × D)
      → List (ℕ × Stat)
      → TankAggregator D
      → TankAggregator D × Notices D
  collect_data end results stats a =
      let (a₁, sent₁) = each take_data results a in
      let (a₂, sent₂) = each take_stat stats a₁ in
      (a₂, sent₁ ++ sent₂ ++ (if end then flush a₂ else []))
