-- ===== src/Core/Polling/Laws.antt =====
-- Who ends a test.
use yandex_tank.Prelude.{
  ℕ, zero, suc, Bool, true, false, ◌&&◌, List, [], ◌∷◌, map, Option, none, some, ltb, if◌then◌else◌,
  ◌≡◌, ◌⊎◌, refl, sym, ap, ◌∙◌, inl, inr, Bool-cases, ◌||◌,
}
use yandex_tank.Prelude.Int.{ℤ, pos, negsuc}
use yandex_tank.Prelude.Text.{Text}
use yandex_tank.Prelude.Result.{Result, Error, is_err, ok, err, ◌>>=◌}
use yandex_tank.Core.Polling.{
  Watched, Polled, before, disable, poll_plugins, wait_rounds, wait_for_finish,
}

-- The end of a test: what is reported, and the return code.
abbrev End : Type 0
End = List (Text × ℕ) × ℤ

-- What a plugin's answer means: nothing while it goes on, and nothing either if a plugin fails that
-- is no generator.
abbrev pub verdict : Watched → Result ℤ → Option End
verdict p (ok (pos c)) = some ((if ltb 0 c && p.is_generator then (p.name, c) ∷ [] else []), pos c)
verdict p (ok (negsuc j)) = none
verdict p (err e) = if p.is_generator then some ([], pos 1) else none

-- What a round decides: the first plugin with a verdict.
abbrev pub first_verdict : ℕ → List Watched → Option End
first_verdict round [] = none
first_verdict round (p ∷ ps) = elim (verdict p (p.answer round)) [
  | some v ↦ some v
  | none ↦ first_verdict round ps
]

abbrev pub failed_by : Watched → ℕ → Bool
failed_by p zero = false
failed_by p (suc round) = failed_by p round || is_err (p.answer round)

-- The plugin as round `round` finds it: a plugin that has failed in an earlier round goes on.
abbrev pub current : ℕ → Watched → Watched
current round p = if failed_by p round then disable p else p

-- The end of a test, read off the answers alone: in each round the aggregator comes first, and then
-- the plugins in order.
abbrev pub outcome : (aggregator : ℕ → Result ℤ) (rounds round : ℕ) → List Watched → Result End
outcome aggregator zero round ps = ok ([], pos 1)
outcome aggregator (suc k) round ps =
    let rest = outcome aggregator k (suc round) ps in
    aggregator round >>= λ code. elim code [
      | pos c ↦ ok ([], pos c)
      | negsuc _ ↦ elim (first_verdict round (map (current round) ps)) [
        | some v ↦ ok v
        | none ↦ rest
      ]
    ]

answer_cases :
    (m : Result ℤ)
    → ((c : ℕ) × (m ≡ ok (pos c))) ⊎ (((j : ℕ) × (m ≡ ok (negsuc j))) ⊎ ((e : Error) × (m ≡ err e)))
answer_cases (ok (pos c)) = inl (c, refl)
answer_cases (ok (negsuc j)) = inr (inl (j, refl))
answer_cases (err e) = inr (inr (e, refl))

-- A plugin that goes on, after its answer.
abbrev kept : Watched → Result ℤ → Watched
kept p (ok c) = p
kept p (err e) = disable p

Agrees : Polled → Option End → List Watched → Type 0
Agrees polled none ps = (polled.retcode ≡ none) × (polled.plugins ≡ ps)
Agrees polled (some v) ps = (polled.retcode ≡ some v.1) × (polled.errors ≡ v.0)

Agrees-before :
    (p : Watched) (rest : Polled) (v : Option End) (ps : List Watched)
    → Agrees rest v ps
    → Agrees (before p rest) v (p ∷ ps)
unfolding Agrees
Agrees-before p rest none ps (h, e) = (h, ap (λ l. p ∷ l) e)
Agrees-before p rest (some v) ps h = h

Agrees-kind :
    (b : Bool) (p₁ p₂ : Polled) (w : End) (v : Option End) (ps : List Watched)
    → Agrees p₁ (some w) ps
    → Agrees p₂ v ps
    → Agrees
        (if b then p₁ else p₂)
        (elim (if b then some w else none) [ some x ↦ some x | none ↦ v ])
        ps
Agrees-kind true p₁ p₂ w v ps h g = h
Agrees-kind false p₁ p₂ w v ps h g = g

poll_plugins-first :
    (round : ℕ) (ps : List Watched)
    → Agrees
        (poll_plugins round ps)
        (first_verdict round ps)
        (map (λ p. kept p (p.answer round)) ps)
unfolding Agrees poll_plugins
poll_plugins-first round [] = (refl, refl)
poll_plugins-first round (p ∷ ps) =
    let rest = poll_plugins-first round ps in
    elim (answer_cases (p.answer round)) [
      | inl (c, e) ↦ rw (poll_plugins, first_verdict, e) (refl, refl)
      | inr (inl (j, e)) ↦
          rw (poll_plugins, first_verdict, e)
            (Agrees-before p (poll_plugins round ps) (first_verdict round ps) _ rest)
      | inr (inr (e, raised)) ↦
          rw (poll_plugins, first_verdict, raised)
            (Agrees-kind p.is_generator
              (record { plugins = p ∷ ps; errors = []; retcode = some (pos 1) })
              (before (disable p) (poll_plugins round ps)) ([], pos 1) (first_verdict round ps) _
              (refl, refl)
              (Agrees-before (disable p) (poll_plugins round ps) (first_verdict round ps) _ rest))
    ]

-- One round later.
kept-current :
    (round : ℕ) (p : Watched)
    → kept (current round p) ((current round p).answer round) ≡ current (suc round) p
unfolding disable
kept-current round p = elim (Bool-cases (failed_by p round)) [
  | inl failed ↦ rw failed refl
  | inr fine ↦ rw fine (still (p.answer round))
]
  where
    still : (m : Result ℤ) → kept p m ≡ (if is_err m then disable p else p)
    still (ok c) = refl
    still (err e) = refl

kept-all :
    (round : ℕ) (ps : List Watched)
    → map (λ p. kept p (p.answer round)) (map (current round) ps) ≡ map (current (suc round)) ps
kept-all round [] = refl
kept-all round (p ∷ ps) = rw (kept-current round p, kept-all round ps) refl

round_end :
    (polled : Polled) (v : Option End) (ps : List Watched) (rest : List Watched → Result End)
    → Agrees polled v ps
    → (elim polled.retcode [ some c ↦ ok (polled.errors, c) | none ↦ rest polled.plugins ])
      ≡ (elim v [ some x ↦ ok x | none ↦ rest ps ])
unfolding Agrees
round_end polled none ps rest (h, e) = rw h (ap rest e)
round_end polled (some v) ps rest (h, e) = rw h (ap (λ es. ok (es, v.1)) e)

wait_rounds-outcome :
    (aggregator : ℕ → Result ℤ) (k round : ℕ) (ps : List Watched)
    → wait_rounds aggregator k round (map (current round) ps) ≡ outcome aggregator k round ps
unfolding wait_rounds
wait_rounds-outcome aggregator zero round ps = refl
wait_rounds-outcome aggregator (suc k) round ps =
    let polled = poll_plugins round (map (current round) ps) in
    let agrees = poll_plugins-first round (map (current round) ps) in
    let ended = round_end polled _ _ (wait_rounds aggregator k (suc round)) agrees in
    let later =
      ap (wait_rounds aggregator k (suc round)) (kept-all round ps)
      ∙ wait_rounds-outcome aggregator k (suc round) ps in
    elim (answer_cases (aggregator round)) [
      | inl (c, e) ↦ rw (wait_rounds, outcome, e) refl
      | inr (inl (j, e)) ↦
          rw (wait_rounds, outcome, e)
            (ended
              ∙ ap
                  (λ r. elim (first_verdict round (map (current round) ps)) [
                    | some x ↦ ok x
                    | none ↦ r
                  ])
                  later)
      | inr (inr (x, e)) ↦ rw (wait_rounds, outcome, e) refl
    ]

nothing_failed : (ps : List Watched) → map (current 0) ps ≡ ps
nothing_failed [] = refl
nothing_failed (p ∷ ps) = ap (λ l. p ∷ l) (nothing_failed ps)

-- Let at least one plugin be loaded and the test be interrupted after k rounds. Then the loop of
-- `wait_for_finish`, which disables failing plugins as it goes, ends as the answers alone say: in the
-- first round in which the aggregator has a return code, or else the first plugin in order that has
-- one or is a generator that fails, with that return code (1 for the failure), and with a message if
-- a generator returned a code other than 0. A plugin that is no generator never ends the test by
-- failing, nor is it asked again. If nobody ends the test, the return code is 1. An exception of the
-- aggregator leaves the loop.
pub wait_for_finish-outcome :
    (aggregator : ℕ → Result ℤ) (k : ℕ) (p : Watched) (ps : List Watched)
    → wait_for_finish aggregator k (p ∷ ps) ≡ outcome aggregator k 0 (p ∷ ps)
unfolding wait_for_finish
wait_for_finish-outcome aggregator zero p ps = refl
wait_for_finish-outcome aggregator (suc k) p ps =
    ap (wait_rounds aggregator (suc k) 0) (sym (nothing_failed (p ∷ ps)))
    ∙ wait_rounds-outcome aggregator (suc k) 0 (p ∷ ps)
