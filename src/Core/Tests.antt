-- ===== src/Core/Tests.antt =====
-- Concrete plugins at the end of a test.
use yandex_tank.Prelude.{ℕ, suc, zero, ◌≡◌, refl, true, false, List, [], ◌∷◌, none, some, All}
use yandex_tank.Prelude.Int.{ℤ, pos, negsuc}
use yandex_tank.Prelude.Result.{Result, ok, err, key_error, value_error, runtime_error}
use yandex_tank.Prelude.Text.{codes}
use yandex_tank.Core.Polling.{Watched, disable, wait_for_finish}
use yandex_tank.Core.Polling.Laws.{wait_for_finish-outcome}
use yandex_tank.Core.Finishing.{
  Ended, ran, Action, Closing, propagated, run_actions, close_down, saved_finish_status,
  collected_artifacts, closed_core, occurred, in_action, Worker, test_finishing, test_finished,
  end_monitoring, end_others, plugins_end_test, plugins_post_process, cleanup,
}
use yandex_tank.Core.Finishing.Laws.{
  KeepsFailure, plugins_end_test-clean, plugins_post_process-clean, cleanup_complete,
}

abbrev never : ℕ → Result ℤ
never _ = ok (negsuc 0)

-- a plugin that fails in every round, and a generator that ends in round 1 with code 3
abbrev broken : Watched
broken = record { name = codes "telegraf"; is_generator = false; answer = λ _. err key_error }

abbrev third_code : ℕ → Result ℤ
third_code zero = ok (negsuc 0)
third_code (suc _) = ok (pos 3)

abbrev gun : Watched
gun = record { name = codes "phantom"; is_generator = true; answer = third_code }

wait_for_finish-outcome_example :
    wait_for_finish never 5 (broken ∷ gun ∷ []) ≡ ok ((codes "phantom", 3) ∷ [], pos 3)
unfolding disable
wait_for_finish-outcome_example = wait_for_finish-outcome never 5 broken (gun ∷ [])

-- a method that returns the code it is given
abbrev same_code : ℤ → Result ℤ
same_code rc = ok rc

same_code-KeepsFailure : KeepsFailure same_code
same_code-KeepsFailure rc h = cc

abbrev uploader : Ended
uploader = record {
  name = codes "uploader";
  end_test = same_code;
  post_process = same_code;
  errors = codes "no link" ∷ [];
}

plugins_end_test-clean_example :
    (pos 0 ≡ pos 0)
    × (same_code (pos 0) ≡ ok (pos 0))
    × All (λ m. m (pos 0) ≡ ok (pos 0)) (same_code ∷ [])
    × All (λ p. Ended.end_test p (pos 0) ≡ ok (pos 0)) (uploader ∷ [])
unfolding plugins_end_test end_monitoring end_others
plugins_end_test-clean_example =
    plugins_end_test-clean same_code (same_code ∷ []) (uploader ∷ []) (pos 0) same_code-KeepsFailure
      (same_code-KeepsFailure, tt) refl

plugins_post_process-clean_example :
    (pos 0 ≡ pos 0)
    × All (λ p. Ended.post_process p (pos 0) ≡ ok (pos 0)) (uploader ∷ [])
    × ((plugins_post_process (uploader ∷ []) (pos 0)).1 ≡ (codes "uploader", codes "no link") ∷ [])
unfolding plugins_post_process
plugins_post_process-clean_example =
    plugins_post_process-clean (uploader ∷ []) (pos 0) (same_code-KeepsFailure, tt) refl

abbrev worker : Worker
worker = record { retcode = pos 0; messages = []; status = test_finishing; effects = [] }

abbrev actions : List Action
actions =
    record {
      name = codes "propagate";
      adds = propagated (codes "gun failed") ∷ [];
      outcome = ok tt;
    }
    ∷ record { name = codes "stop gun"; adds = []; outcome = err value_error }
    ∷ []

-- the status cannot be saved
abbrev no_space : Closing
no_space = record { save = err runtime_error; collect = ok tt; close = ok tt }

abbrev all_done : Closing
all_done = record { save = ok tt; collect = ok tt; close = ok tt }

skipped : cleanup actions no_space none worker ≡ (
  record worker {
    messages = propagated (codes "gun failed") ∷ in_action (codes "stop gun") ∷ [];
    effects = ran (codes "stop gun") ∷ ran (codes "propagate") ∷ [];
  },
  err runtime_error,
)
unfolding cleanup run_actions close_down
skipped = refl

cleanup_complete_example :
    let said =
      propagated (codes "gun failed") ∷ occurred key_error ∷ in_action (codes "stop gun") ∷ [] in
    let (after, left) = cleanup actions all_done (some key_error) worker in
    (after.effects
      ≡ ran (codes "stop gun")
        ∷ ran (codes "propagate")
        ∷ saved_finish_status (pos 1) said
        ∷ collected_artifacts
        ∷ closed_core
        ∷ [])
    × (after.messages ≡ said)
    × (after.retcode ≡ pos 1)
    × (after.status ≡ test_finished)
    × (left ≡ ok tt)
cleanup_complete_example = cleanup_complete actions all_done (some key_error) worker
