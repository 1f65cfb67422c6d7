-- ===== src/Core/Finishing.antt =====
-- `TankCore.plugins_end_test` and `plugins_post_process` of core/tankcore.py, `Finish` and `Cleanup`
-- of common/util.py: what is done when a test has ended or failed. A plugin is code of its own: it
-- stands here by what its methods return or raise for a return code.
pub mod Laws
use mathlib.Core.List.{reverse}
use yandex_tank.Prelude.{
  Bool, false, List, [], ◌∷◌, ◌++◌, map, Option, none, some, ◌==◌, if◌then◌else◌, is_some,
}
use yandex_tank.Prelude.Int.{ℤ, pos, negsuc}
use yandex_tank.Prelude.Result.{Result, Error, ok, err, ◌>>=◌, is_err}
use yandex_tank.Prelude.Text.{Text}

-- A method that returns None instead of a code is left out. For the monitoring plugins, where
-- `None or retcode` is `retcode`, returning 0 has the same effect.
-- The plugins but the generator and the monitoring. `errors` is the list of the plugin's errors as
-- it is once `post_process` has returned.
pub record Ended : Type 0 where
  pub name : Text
  pub end_test : ℤ → Result ℤ
  pub post_process : ℤ → Result ℤ
  pub errors : List Text

abbrev pub is_zero_code : ℤ → Bool
is_zero_code (pos c) = c == 0
is_zero_code (negsuc _) = false

-- `if not retcode: retcode = RetCode.ERROR`
abbrev pub failed_code : ℤ → ℤ
failed_code rc = if is_zero_code rc then pos 1 else rc

-- The return code after a method was called within `try`.
abbrev pub caught : ℤ → Result ℤ → ℤ
caught rc (ok rc') = rc'
caught rc (err e) = failed_code rc

unfoldable pub end_others : List Ended → ℤ → ℤ
end_others [] rc = rc
end_others (p ∷ ps) rc = end_others ps (caught rc (p.end_test rc))

-- `retcode = plugin.end_test(retcode) or retcode`, which nothing catches
unfoldable pub end_monitoring : List (ℤ → Result ℤ) → ℤ → Result ℤ
end_monitoring [] rc = ok rc
end_monitoring (m ∷ ms) rc =
    m rc >>= λ rc'. end_monitoring ms (if is_zero_code rc' then rc else rc')

unfoldable pub plugins_end_test :
    (aggregator : ℤ → Result ℤ) (monitoring : List (ℤ → Result ℤ)) (others : List Ended)
    → ℤ
    → Result ℤ
plugins_end_test aggregator monitoring others rc =
    aggregator rc >>= λ rc₁. end_monitoring monitoring rc₁ >>= λ rc₂. ok (end_others others rc₂)

-- The return code, and the errors reported with the plugin's name.
unfoldable pub plugins_post_process : List Ended → ℤ → ℤ × List (Text × Text)
plugins_post_process [] rc = (rc, [])
plugins_post_process (p ∷ ps) rc =
    let (rc', later) = plugins_post_process ps (caught rc (p.post_process rc)) in
    (rc', (if is_err (p.post_process rc) then [] else map (λ e. (p.name, e)) p.errors) ++ later)

pub data Status : Type 0 where
  test_finishing test_finished : Status

-- A message: of the exception that ended the test, of a cleanup action that failed, or one that an
-- action adds itself (`propagate_core_errors` adds the errors of the core).
pub data Message : Type 0 where
  interrupted occurred : Error → Message
  in_action propagated : Text → Message

-- What `Cleanup` does to the outside, in order.
pub data Effect : Type 0 where
  ran : Text → Effect
  saved_finish_status : (retcode : ℤ) (messages : List Message) → Effect
  collected_artifacts closed_core : Effect

pub record Worker : Type 0 where
  pub retcode : ℤ
  pub messages : List Message
  pub status : Status
  pub effects : List Effect

-- `Finish.__exit__`, with the exception that ended its block if there is one; it swallows that one.
unfoldable pub finish :
    (end_test : ℤ → Result ℤ) (raised : Option Error) → Worker → Worker × Result (Unit {0})
finish end_test raised w =
    let entered = record w {
      status = test_finishing;
      messages = elim raised [ none ↦ w.messages | some e ↦ w.messages ++ interrupted e ∷ [] ];
    } in
    let retcode = if is_some raised then pos 1 else w.retcode in
    elim (end_test retcode) [
      | ok rc ↦ (record entered { retcode = rc }, ok tt)
      | err e ↦ (entered, err e)
    ]

-- A cleanup action: the messages that it adds to the worker, and what becomes of it.
pub record Action : Type 0 where
  pub name : Text
  pub adds : List Message
  pub outcome : Result (Unit {0})

-- What becomes of `save_finish_status`, `_collect_artifacts` and `core.close`.
pub record Closing : Type 0 where
  pub save : Result (Unit {0})
  pub collect : Result (Unit {0})
  pub close : Result (Unit {0})

-- the loop of `Cleanup.__exit__`: what is run, the messages added meanwhile, and `msgs`
unfoldable pub run_actions : List Action → List Effect × List Message × List Message
run_actions [] = ([], [], [])
run_actions (a ∷ rest) =
    let (effects, added, failures) = run_actions rest in
    (
      ran a.name ∷ effects,
      a.adds ++ added,
      if is_err a.outcome then in_action a.name ∷ failures else failures,
    )

-- What follows the loop; an exception skips the rest and leaves `__exit__`.
unfoldable pub close_down : Closing → Worker → Worker × Result (Unit {0})
close_down closing w = elim closing.save [
  | err e ↦ (w, err e)
  | ok u ↦
      let saved = w.effects ++ saved_finish_status w.retcode w.messages ∷ [] in
      elim closing.collect [
        | err e ↦ (record w { effects = saved }, err e)
        | ok u ↦
            let done = record w {
              effects = saved ++ collected_artifacts ∷ [];
              status = test_finished;
            } in
            elim closing.close [
              | err e ↦ (done, err e)
              | ok u ↦ (record done { effects = done.effects ++ closed_core ∷ [] }, ok tt)
            ]
      ]
]

-- `Cleanup.__exit__`; when it returns, the exception goes on.
unfoldable pub cleanup :
    (actions : List Action) (closing : Closing) (raised : Option Error)
    → Worker
    → Worker × Result (Unit {0})
unfolding run_actions close_down
cleanup actions closing raised w =
    let (effects, added, failures) = run_actions (reverse actions) in
    let occurred_first : List Message = elim raised [ none ↦ [] | some e ↦ occurred e ∷ [] ] in
    close_down closing (record w {
      retcode = if is_some raised then pos 1 else w.retcode;
      messages = (w.messages ++ added) ++ (occurred_first ++ failures);
      effects = w.effects ++ effects;
    })
