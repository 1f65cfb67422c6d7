-- ===== src/Autostop/Plugin.antt =====
-- `Plugin` and `AutostopWidget` of plugins/Autostop/plugin.py.
pub mod Laws
use yandex_tank.Prelude.{
  ℕ, Bool, true, false, Option, none, some, List, [], ◌∷◌, ◌++◌, map, ◌==◌, if◌then◌else◌,
}
use yandex_tank.Prelude.Int.{ℤ, pos, negsuc}
use yandex_tank.Prelude.Result.{Result, ok, ◌>>=◌}
use yandex_tank.Prelude.Text.{Text, insert}
use yandex_tank.Numbers.{Numbers}
use yandex_tank.Autostop.Sample.{Second}
use yandex_tank.Autostop.Criterion.{
  Criterion, limit, World, notify, explain, widget_explain, get_rc, cause_second, class_of, Class,
  create_criterion,
}

-- `criterions` is a dictionary in insertion order. `counting` holds the criteria as they were when
-- they called `add_counting`: they do not change before the list is emptied.
pub record Plugin (F : Type 0) : Type 0 where
  pub cause_criterion : Option (Criterion F)
  pub imbalance_rps : ℕ
  pub imbalance_timestamp : ℕ
  pub criterions : List (Text × Criterion F)
  pub counting : List (Criterion F)

abbrev pub new_plugin : {F : Type 0} → Plugin F
new_plugin = record {
  cause_criterion = none;
  imbalance_rps = 0;
  imbalance_timestamp = 0;
  criterions = [];
  counting = [];
}

-- What the plugin tells the core when a criterion triggers, in order: four values are published,
-- the report file is written and it is added to the artifacts.
pub data Event : Type 0 where
  publish_rps : ℕ → Event
  publish_reason : Text → Event
  publish_type : Class → Event
  publish_rc : ℕ → Event
  write_report : Text → Event
  add_artifact_file : Event

abbrev pub is_set : {F : Type 0} → Option (Criterion F) → Bool
is_set none = false
is_set (some c) = true

module _ {F : Type 0} ⦃n : Numbers F⦄ where
  unfoldable pub prepare_from : World F → List Text → Plugin F → Result (Plugin F)
  unfolding create_criterion
  prepare_from w [] p = ok p
  prepare_from w ([] ∷ rest) p = prepare_from w rest p
  prepare_from w ((c ∷ t) ∷ rest) p = create_criterion w (c ∷ t) >>= λ criterion.
      prepare_from w rest (record p { criterions = insert (c ∷ t) criterion p.criterions })

  -- The criteria of `prepare_test`; the widget that it adds is `render`.
  unfoldable pub prepare_test : World F → List Text → Plugin F → Result (Plugin F)
  unfolding prepare_from
  prepare_test = prepare_from

  started : F → Criterion F → Criterion F
  started now (limit c) = limit (record c { start_time = now })
  started now c = c

  unfoldable pub start_test : (now : F) → Plugin F → Plugin F
  unfolding started
  start_test now p = record p { criterions = map (λ (k, c). (k, started now c)) p.criterions }

  unfoldable pub is_test_finished : Plugin F → ℤ
  unfolding get_rc
  is_test_finished p = elim p.cause_criterion [ none ↦ negsuc 0 | some c ↦ pos (get_rc c) ]

  -- `imbalance_rps` and `imbalance_timestamp`, from the second that the criterion blames
  unfoldable pub imbalance : Option (Second F) → Plugin F → Plugin F
  imbalance none p = p
  imbalance (some (d, stat)) p = record p {
    imbalance_rps = if stat.reqps == 0 then d.overall.interval_real.len else stat.reqps;
    imbalance_timestamp = d.ts;
  }

  -- the branch of a criterion that triggers
  unfoldable pub blame : Text → Criterion F → Plugin F → Plugin F × List Event
  blame text c p =
      let p' = imbalance (cause_second c) (record p { cause_criterion = some c }) in
      (
        p',
        publish_rps p'.imbalance_rps
            ∷ publish_reason (explain c)
            ∷ publish_type (class_of c)
            ∷ publish_rc (get_rc c)
            ∷ write_report text
            ∷ add_artifact_file
            ∷ [],
      )

  -- One round of the loop of `on_aggregated_data`. The criterion goes back to its place.
  unfoldable pub visit :
      F → Second F → Text × Criterion F → Plugin F → Result (Plugin F × List Event)
  visit now s (text, c) p = notify now c s >>= λ (c', r).
      let p' = record p {
        criterions = p.criterions ++ (text, c') ∷ [];
        counting = if r.counting then p.counting ++ c' ∷ [] else p.counting;
      } in
      ok (if r.triggered then blame text c' p' else (p', []))

  unfoldable pub visit_all :
      F → Second F → List (Text × Criterion F) → Plugin F → Result (Plugin F × List Event)
  visit_all now s [] p = ok (p, [])
  visit_all now s (c ∷ cs) p =
      visit now s c p >>= λ (p', es). visit_all now s cs p' >>= λ (p'', es'). ok (p'', es ++ es')

  unfoldable pub on_aggregated_data : F → Second F → Plugin F → Result (Plugin F × List Event)
  on_aggregated_data now s p =
      if is_set p.cause_criterion
      then ok (record p { counting = [] }, [])
      else visit_all now s p.criterions (record p { counting = []; criterions = [] })

pub data Colour : Type 0 where
  red_dark red yellow plain : Colour

module _ {F : Type 0} ⦃n : Numbers F⦄ where
  unfoldable pub colour : F → Colour
  colour share =
      let at_least = λ (percent : ℕ). n.le (n.quot (n.of_ℕ percent) (n.of_ℕ 100)) share in
      if at_least 95
      then red_dark
      else if at_least 80
      then red
      else if at_least 50
      then yellow
      else plain

  -- The lines of the widget; none are shown if no criterion is counting.
  unfoldable pub render : List (Criterion F) → Result (List (Colour × Text))
  unfolding colour widget_explain
  render [] = ok []
  render (c ∷ cs) =
      widget_explain c >>= λ (text, share). render cs >>= λ rest. ok ((colour share, text) ∷ rest)
