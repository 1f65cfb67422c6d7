-- ===== src/Aggregator/Poller.antt =====
-- `_data_poller` of aggregator/aggregator.py, which closes a source that has been silent too long.
pub mod Laws
use yandex_tank.Prelude.{ℕ, ◌+◌, List, [], ◌∷◌, Option, none, some, ltb, ◌==◌, if◌then◌else◌}
use yandex_tank.Numbers.{Numbers}

-- `max_wait // poll_period or 1`
unfoldable pub wait_max : {F : Type 0} ⦃n : Numbers F⦄ → (max_wait poll_period : F) → ℕ
wait_max ⦃n⦄ max_wait poll_period =
    let rounds = n.floor_div max_wait poll_period in if rounds == 0 then 1 else rounds

-- The chunks that the generator yields from those of its source, where `none` is no data. `counter`
-- is `wait_counter`; the sleep after each round is left out.
unfoldable pub data_poller {ℓ} :
    {A : Type ℓ} → (wait_cntr_max counter : ℕ) → List (Option A) → List A
data_poller most counter [] = []
data_poller most counter (some chunk ∷ source) = chunk ∷ data_poller most 0 source
data_poller most counter (none ∷ source) =
    let rest = data_poller most (counter + 1) source in if ltb counter most then rest else []
