-- ===== src/Aggregator/Tests.antt =====
-- A few seconds on their way to the listeners.
use yandex_tank.Prelude.{ℕ, ◌≡◌, refl, true, false, Option, none, some, List, [], ◌∷◌, ◌++◌, arith}
use yandex_tank.Prelude.Dict.{lookup}
use yandex_tank.Prelude.Text.{Text, codes}
use yandex_tank.Autostop.Sample.{Stat}
use yandex_tank.Aggregator.TankAggregator.{new_aggregator, collect_data}
use yandex_tank.Aggregator.TankAggregator.Laws.{Once, Joined, collect_data-Joined}
use yandex_tank.Aggregator.TankAggregator.Ending.{told, collect_data_complete}
use yandex_tank.Aggregator.Poller.{data_poller}
use yandex_tank.Aggregator.Poller.Laws.{silence, data_poller-closes}

abbrev stat : ℕ → Stat
stat k = record { instances = k; reqps = 10 }

abbrev results : List (ℕ × Text)
results = (100, codes "first") ∷ (101, codes "second") ∷ []

abbrev stats : List (ℕ × Stat)
stats = (101, stat 2) ∷ (102, stat 3) ∷ []

nothing_yet : Joined {D = Text} [] [] new_aggregator []
nothing_yet = (λ t. (refl, refl, refl), tt)

collect_data-Joined_example :
    let (a, out) = collect_data false results stats new_aggregator in Joined results stats a out
collect_data-Joined_example =
    collect_data-Joined results [] stats [] new_aggregator [] (refl, (refl, tt)) (refl, (refl, tt))
      nothing_yet

collect_data_complete_example :
    let out = (collect_data true results stats new_aggregator).1 in
    ((t : ℕ) → lookup t out ≡ told (lookup t results) (lookup t stats)) × Once out
collect_data_complete_example =
    collect_data_complete results [] stats [] new_aggregator [] (refl, (refl, tt))
      (refl, (refl, tt)) tt nothing_yet

abbrev source : List (Option ℕ)
source = some 1 ∷ none ∷ some 2 ∷ []

data_poller-closes_example :
    (data_poller 1 0 source ≡ 1 ∷ 2 ∷ [])
    × (data_poller 1 0 (source ++ some 3 ∷ (silence 2 ++ some 4 ∷ [])) ≡ 1 ∷ 2 ∷ 3 ∷ [])
data_poller-closes_example =
    data_poller-closes 1 2 source (some 4 ∷ []) 3 (omega arith, omega arith) (omega arith)
