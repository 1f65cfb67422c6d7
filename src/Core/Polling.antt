-- ===== src/Core/Polling.antt =====
-- `TankCore.wait_for_finish` of core/tankcore.py. A plugin is code of its own: it stands here by what
-- its `is_test_finished` returns or raises in each round of the loop.
pub mod Laws
use yandex_tank.Prelude.{
  ℕ, zero, suc, Bool, ◌&&◌, List, [], ◌∷◌, Option, none, some, ltb, if◌then◌else◌,
}
use yandex_tank.Prelude.Int.{ℤ, pos, negsuc}
use yandex_tank.Prelude.Result.{Result, ok, err, ◌>>=◌, runtime_error}
use yandex_tank.Prelude.Text.{Text}

pub record Watched : Type 0 where
  pub name : Text
  pub is_generator : Bool
  pub answer : ℕ → Result ℤ

-- `plugin.is_test_finished = lambda: RetCode.CONTINUE`
unfoldable pub disable : Watched → Watched
disable p = record p { answer = λ _. ok (negsuc 0) }

-- What is left of the plugins, the generator's return code if it is to be reported, and the return
-- code of the test if one of the plugins ends it.
pub record Polled : Type 0 where
  pub plugins : List Watched
  pub errors : List (Text × ℕ)
  pub retcode : Option ℤ

abbrev pub before : Watched → Polled → Polled
before p rest = record rest { plugins = p ∷ rest.plugins }

unfoldable pub poll_plugins : ℕ → List Watched → Polled
poll_plugins round [] = record { plugins = []; errors = []; retcode = none }
poll_plugins round (p ∷ ps) =
    let rest = poll_plugins round ps in
    elim (p.answer round) [
      | ok (pos c) ↦ record {
        plugins = p ∷ ps;
        errors = if ltb 0 c && p.is_generator then (p.name, c) ∷ [] else [];
        retcode = some (pos c);
      }
      | ok (negsuc _) ↦ before p rest
      | err e ↦
          if p.is_generator
          then record { plugins = p ∷ ps; errors = []; retcode = some (pos 1) }
          else before (disable p) rest
    ]

-- The loop, if the test is interrupted after `rounds` rounds. It starts with round `round`.
unfoldable pub wait_rounds :
    (aggregator : ℕ → Result ℤ) (rounds round : ℕ) → List Watched → Result (List (Text × ℕ) × ℤ)
wait_rounds aggregator zero round ps = ok ([], pos 1)
wait_rounds aggregator (suc k) round ps = aggregator round >>= λ code. elim code [
  | pos c ↦ ok ([], pos c)
  | negsuc _ ↦
      let polled = poll_plugins round ps in
      elim polled.retcode [
        | some c ↦ ok (polled.errors, c)
        | none ↦ wait_rounds aggregator k (suc round) polled.plugins
      ]
]

unfoldable pub wait_for_finish :
    (aggregator : ℕ → Result ℤ) (rounds : ℕ) → List Watched → Result (List (Text × ℕ) × ℤ)
wait_for_finish aggregator zero ps = ok ([], pos 1)
wait_for_finish aggregator (suc k) [] = err runtime_error
wait_for_finish aggregator (suc k) (p ∷ ps) = wait_rounds aggregator (suc k) 0 (p ∷ ps)
