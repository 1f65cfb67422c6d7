-- ===== src/Core/Finishing/Laws.antt =====
-- Return codes and cleanup at the end of a test.
use mathlib.Core.List.{reverse, append-nil, append_assoc}
use yandex_tank.Prelude.{
  zero, suc, Bool, true, false, List, [], ◌∷◌, ◌++◌, map, none, some, Option, not, ◌&&◌, inl, inr,
  Bool-cases, if◌then◌else◌, All, ◌≡◌, ◌≢◌, refl, sym, ap, ◌∙◌, arith,
}
use yandex_tank.Prelude.Int.{ℤ, pos, negsuc}
use yandex_tank.Prelude.Result.{Result, Error, ok, err, ◌>>=◌, >>=-eq-ok, is_err}
use yandex_tank.Prelude.Text.{Text}
use yandex_tank.Core.Finishing.{
  Ended, is_zero_code, failed_code, caught, end_others, end_monitoring, plugins_end_test,
  plugins_post_process, ran, Action, Closing, Message, Effect, run_actions, close_down,
  saved_finish_status, collected_artifacts, closed_core, occurred, in_action, Worker, test_finished,
  cleanup,
}

-- A method that does not turn a return code other than 0 into 0.
abbrev pub KeepsFailure : (ℤ → Result ℤ) → Type 0
KeepsFailure method = (rc : ℤ) → method rc ≡ ok (pos 0) → rc ≡ pos 0

zero_code : (rc : ℤ) → is_zero_code rc ≡ true → rc ≡ pos 0
zero_code (pos zero) h = refl
zero_code (pos (suc c)) h = ground (arith, h)
zero_code (negsuc c) h = cc

failed_nonzero : (rc : ℤ) → failed_code rc ≢ pos 0
failed_nonzero (pos zero) h = cc
failed_nonzero (pos (suc c)) h = ground (arith, h)
failed_nonzero (negsuc c) h = cc

caught_zero : (m : Result ℤ) (rc : ℤ) → caught rc m ≡ pos 0 → m ≡ ok (pos 0)
caught_zero (ok rc') rc h = ap ok h
caught_zero (err e) rc h = elim (failed_nonzero rc h) [ ]

end_others-clean :
    (ps : List Ended) (rc : ℤ)
    → All (λ p. KeepsFailure (Ended.end_test p)) ps
    → end_others ps rc ≡ pos 0
    → (rc ≡ pos 0) × All (λ p. Ended.end_test p (pos 0) ≡ ok (pos 0)) ps
unfolding end_others
end_others-clean [] rc keeps h = (h, tt)
end_others-clean (p ∷ ps) rc keeps h =
    let (now, rest) = end_others-clean ps (caught rc (p.end_test rc)) keeps.1 h in
    let answered = caught_zero (p.end_test rc) rc now in
    let came = keeps.0 rc answered in (came, (ap p.end_test (sym came) ∙ answered, rest))

kept_code :
    (b : Bool) (rc rc' : ℤ)
    → is_zero_code rc' ≡ b
    → (if b then rc else rc') ≡ pos 0
    → (rc' ≡ pos 0) × (rc ≡ pos 0)
kept_code true rc rc' e h = (zero_code rc' e, h)
kept_code false rc rc' e h = elim (true_false (sym (ap is_zero_code h) ∙ e)) [ ]
  where
    true_false : true ≡ false → ⊥
    true_false x = ground (arith, x)

end_monitoring-clean :
    (ms : List (ℤ → Result ℤ)) (rc : ℤ)
    → end_monitoring ms rc ≡ ok (pos 0)
    → (rc ≡ pos 0) × All (λ m. m (pos 0) ≡ ok (pos 0)) ms
unfolding end_monitoring
end_monitoring-clean [] rc h = let same : rc ≡ pos 0 = cc in (same, tt)
end_monitoring-clean (m ∷ ms) rc h =
    let (rc', answered, later) =
      >>=-eq-ok (m rc) (λ x. end_monitoring ms (if is_zero_code x then rc else x)) h in
    let (now, rest) = end_monitoring-clean ms (if is_zero_code rc' then rc else rc') later in
    let (zero', came) = kept_code (is_zero_code rc') rc rc' refl now in
    (came, (ap m (sym came) ∙ answered ∙ ap ok zero', rest))

-- Let neither the aggregator nor a plugin turn a return code other than 0 into 0. If the return code
-- of a test is 0 after `plugins_end_test`, then it was 0 before, and the aggregator, every monitoring
-- plugin and every other plugin ended the test without an exception and with return code 0.
pub plugins_end_test-clean :
    (aggregator : ℤ → Result ℤ) (monitoring : List (ℤ → Result ℤ)) (others : List Ended) (rc : ℤ)
    → KeepsFailure aggregator
    → All (λ p. KeepsFailure (Ended.end_test p)) others
    → plugins_end_test aggregator monitoring others rc ≡ ok (pos 0)
    → (rc ≡ pos 0)
      × (aggregator (pos 0) ≡ ok (pos 0))
      × All (λ m. m (pos 0) ≡ ok (pos 0)) monitoring
      × All (λ p. Ended.end_test p (pos 0) ≡ ok (pos 0)) others
unfolding plugins_end_test
plugins_end_test-clean aggregator monitoring others rc keeps_a keeps h =
    let (rc₁, e₁, h₁) =
      >>=-eq-ok (aggregator rc) (λ x. end_monitoring monitoring x >>= λ y. ok (end_others others y))
        h in
    let (rc₂, e₂, h₂) =
      >>=-eq-ok (end_monitoring monitoring rc₁) (λ y. ok (end_others others y)) h₁ in
    let last : end_others others rc₂ ≡ pos 0 = cc in
    let (now₂, clean) = end_others-clean others rc₂ keeps last in
    let (now₁, watched) = end_monitoring-clean monitoring rc₁ (e₂ ∙ ap ok now₂) in
    let came = keeps_a rc (e₁ ∙ ap ok now₁) in
    (came, ap aggregator (sym came) ∙ e₁ ∙ ap ok now₁, watched, clean)

-- Every error of every plugin, with the plugin's name.
abbrev pub all_errors : List Ended → List (Text × Text)
all_errors [] = []
all_errors (p ∷ ps) = map (λ e. (p.name, e)) p.errors ++ all_errors ps

-- Let no plugin turn a return code other than 0 into 0. If the return code is 0 after
-- `plugins_post_process`, then it was 0 before, every plugin was post-processed without an exception
-- and with return code 0, and the errors of every plugin are reported, in order.
pub plugins_post_process-clean :
    (ps : List Ended) (rc : ℤ)
    → All (λ p. KeepsFailure (Ended.post_process p)) ps
    → (plugins_post_process ps rc).0 ≡ pos 0
    → (rc ≡ pos 0)
      × All (λ p. Ended.post_process p (pos 0) ≡ ok (pos 0)) ps
      × ((plugins_post_process ps rc).1 ≡ all_errors ps)
unfolding plugins_post_process
plugins_post_process-clean [] rc keeps h = (h, tt, refl)
plugins_post_process-clean (p ∷ ps) rc keeps h =
    let (now, rest, reported) =
      plugins_post_process-clean ps (caught rc (p.post_process rc)) keeps.1 h in
    let answered = caught_zero (p.post_process rc) rc now in
    let came = keeps.0 rc answered in
    let fine : is_err (p.post_process rc) ≡ false = ap is_err answered in
    (
      came,
      (ap p.post_process (sym came) ∙ answered, rest),
      rw fine (ap (λ l. map (λ e. (p.name, e)) p.errors ++ l) reported),
    )

-- The names of the actions that fail, and the messages that the actions add.
abbrev pub failing : List Action → List Text
failing [] = []
failing (a ∷ rest) = if is_err a.outcome then a.name ∷ failing rest else failing rest

abbrev pub all_added : List Action → List Message
all_added [] = []
all_added (a ∷ rest) = a.adds ++ all_added rest

-- The last steps that are reached, the first exception among them, and whether the status is set.
abbrev pub reached : Closing → (retcode : ℤ) → List Message → List Effect
reached closing rc said = elim closing.save [
  | err e ↦ []
  | ok u ↦ saved_finish_status rc said ∷ elim closing.collect [
    | err e ↦ []
    | ok u ↦ collected_artifacts ∷ elim closing.close [ err e ↦ [] | ok u ↦ closed_core ∷ [] ]
  ]
]

abbrev pub status_set : Closing → Bool
status_set closing = not (is_err closing.save) && not (is_err closing.collect)

run_actions-all :
    (actions : List Action)
    → run_actions actions
      ≡ (map (λ a. ran (Action.name a)) actions, all_added actions, map in_action (failing actions))
unfolding run_actions
run_actions-all [] = refl
run_actions-all (a ∷ rest) = elim (Bool-cases (is_err a.outcome)) [
  | inl y ↦ rw (run_actions, run_actions-all rest, y) refl
  | inr n ↦ rw (run_actions, run_actions-all rest, n) refl
]

-- What `close_down` leaves of a worker.
abbrev ClosedDown : Closing → Worker → Worker × Result (Unit {0}) → Type 0
ClosedDown closing w (after, left) =
    (after.effects ≡ w.effects ++ reached closing w.retcode w.messages)
    × (after.messages ≡ w.messages)
    × (after.retcode ≡ w.retcode)
    × (after.status ≡ (if status_set closing then test_finished else w.status))
    × (left ≡ (closing.save >>= λ _. closing.collect >>= λ _. closing.close))

close_down_lem :
    (save collect close : Result (Unit {0})) (w : Worker)
    → let closing : Closing = record { save = save; collect = collect; close = close } in
      ClosedDown closing w (close_down closing w)
unfolding close_down
close_down_lem (err e) collect close w = (sym (append-nil w.effects), refl, refl, refl, refl)
close_down_lem (ok u) (err e) close w = (refl, refl, refl, refl, refl)
close_down_lem (ok u) (ok v) (err e) w = (
  append_assoc w.effects (saved_finish_status w.retcode w.messages ∷ []) _,
  refl,
  refl,
  refl,
  refl,
)
close_down_lem (ok u) (ok v) (ok x) w = (
  ap (λ l. l ++ closed_core ∷ [])
        (append_assoc w.effects (saved_finish_status w.retcode w.messages ∷ [])
          (collected_artifacts ∷ []))
      ∙ append_assoc w.effects _ (closed_core ∷ []),
  refl,
  refl,
  refl,
  refl,
)

-- The messages of the test's exception, and the return code with it.
abbrev pub told_first : Option Error → List Message
told_first none = []
told_first (some e) = occurred e ∷ []

abbrev pub final_code : Option Error → ℤ → ℤ
final_code none rc = rc
final_code (some e) rc = pos 1

-- Whether the test failed or not and whichever cleanup actions fail: every action is run once, the
-- last registered first, and then the finish status is saved, the artifacts are collected, the
-- status is set and the core is closed, up to the first of these that raises; its exception leaves,
-- and the rest is skipped. The messages, which are complete when they are saved, are those before,
-- then those that the actions add as they run, then that of the test's exception if there is one,
-- then one for each action that failed, in the order in which they ran. The return code is 1 if
-- there was an exception and is kept otherwise.
pub cleanup_complete :
    (actions : List Action) (closing : Closing) (raised : Option Error) (w : Worker)
    → let order = reverse actions in
      let code = final_code raised w.retcode in
      let said =
        (w.messages ++ all_added order) ++ (told_first raised ++ map in_action (failing order)) in
      let (after, left) = cleanup actions closing raised w in
      (after.effects
        ≡ (w.effects ++ map (λ a. ran (Action.name a)) order) ++ reached closing code said)
      × (after.messages ≡ said)
      × (after.retcode ≡ code)
      × (after.status ≡ (if status_set closing then test_finished else w.status))
      × (left ≡ (closing.save >>= λ _. closing.collect >>= λ _. closing.close))
unfolding cleanup
cleanup_complete actions closing none w =
    let done = close_down_lem closing.save closing.collect closing.close in
    rw (cleanup, run_actions-all (reverse actions)) (done _)
cleanup_complete actions closing (some e) w =
    let done = close_down_lem closing.save closing.collect closing.close in
    rw (cleanup, run_actions-all (reverse actions)) (done _)
