-- ===== src/Aggregator/TankAggregator/Laws.antt =====
-- The caches of `_collect_data` and the notices of the listeners.
use mathlib.Core.Path.{subst}
use mathlib.Core.List.{append-nil, append_assoc}
use yandex_tank.Prelude.{
  ℕ, false, Option, none, some, List, [], ◌∷◌, ◌++◌, ◌==◌, ==_iff, if◌then◌else◌, ◌≡◌, refl, ◌∙◌,
  inl, inr, Bool-cases, Option-cases, arith,
}
use yandex_tank.Prelude.Dict.{lookup, lookup-insert, lookup-remove}
use yandex_tank.Autostop.Sample.{Stat}
use yandex_tank.Aggregator.TankAggregator.{
  TankAggregator, Notices, take_data, take_stat, each, collect_data,
}

module _ {V : Type 0} where
  -- No key occurs twice.
  abbrev pub Once : List (ℕ × V) → Type 0
  Once [] = Unit
  Once ((k, v) ∷ d) = (lookup k d ≡ none) × Once d

  abbrev pub or_else : Option V → Option V → Option V
  or_else none o = o
  or_else (some v) o = some v

  pub lookup-append :
      (k : ℕ) (xs ys : List (ℕ × V)) → lookup k (xs ++ ys) ≡ or_else (lookup k xs) (lookup k ys)
  lookup-append k [] ys = refl
  lookup-append k ((j, v) ∷ xs) ys = ground (arith, lookup-append k xs ys)

  pub lookup-snoc :
      (k j : ℕ) (v : V) (d : List (ℕ × V))
      → lookup j d ≡ none
      → lookup k (d ++ (j, v) ∷ []) ≡ (if k == j then some v else lookup k d)
  lookup-snoc k j v [] h = refl
  lookup-snoc k j v ((k', v') ∷ d) h = ground (arith, lookup-snoc k j v d)

  distinct :
      (k k' : ℕ) (v v' : V) (h xs : List (ℕ × V))
      → lookup k' (h ++ (k, v) ∷ xs) ≡ none
      → lookup k h ≡ none
      → (if k == k' then some v' else lookup k h) ≡ none
  distinct k k' v v' h xs absent fresh = ground (arith, lookup-append k' h ((k, v) ∷ xs))

  Once-fresh :
      (h : List (ℕ × V)) (k : ℕ) (v : V) (xs : List (ℕ × V))
      → Once (h ++ (k, v) ∷ xs)
      → lookup k h ≡ none
  Once-fresh [] k v xs once = refl
  Once-fresh ((k', v') ∷ h) k v xs once =
      distinct k k' v v' h xs once.0 (Once-fresh h k v xs once.1)

  distinct_snoc :
      (k k' : ℕ) (v v' : V) (d : List (ℕ × V))
      → lookup k' d ≡ none
      → (if k == k' then some v' else lookup k d) ≡ none
      → (lookup k' (d ++ (k, v) ∷ []) ≡ none) × (lookup k d ≡ none)
  distinct_snoc k k' v v' d absent fresh = ground (arith, lookup-append k' d ((k, v) ∷ []))

  Once-snoc :
      (d : List (ℕ × V)) (k : ℕ) (v : V) → Once d → lookup k d ≡ none → Once (d ++ (k, v) ∷ [])
  Once-snoc [] k v once fresh = (refl, tt)
  Once-snoc ((k', v') ∷ d) k v once fresh =
      let (absent, later) = distinct_snoc k k' v v' d once.0 fresh in
      (absent, Once-snoc d k v once.1 later)

abbrev pub waiting : {A B : Type 0} → Option A → Option B → Option A
waiting a none = a
waiting a (some b) = none

abbrev pub met : {A B : Type 0} → Option A → Option B → Option (A × B)
met (some a) (some b) = some (a, b)
met (some a) none = none
met none b = none

module _ {D : Type 0} where
  -- When the results `ds` and the statistics `ss` have come, the listeners were told of the seconds
  -- that both have, no second twice, and the caches hold the seconds that one of them has.
  abbrev pub Joined : List (ℕ × D) → List (ℕ × Stat) → TankAggregator D → Notices D → Type 0
  Joined ds ss a sent =
      ((t : ℕ)
        → (lookup t a.data_cache ≡ waiting (lookup t ds) (lookup t ss))
          × (lookup t a.stat_cache ≡ waiting (lookup t ss) (lookup t ds))
          × (lookup t sent ≡ met (lookup t ds) (lookup t ss)))
      × Once sent

  take_data-Joined :
      (ts : ℕ) (d : D) (ds : List (ℕ × D)) (ss : List (ℕ × Stat)) (a : TankAggregator D)
      (sent : Notices D)
      → lookup ts ds ≡ none
      → Joined ds ss a sent
      → let (a', out) = take_data (ts, d) a in Joined (ds ++ (ts, d) ∷ []) ss a' (sent ++ out)
  unfolding take_data
  take_data-Joined ts d ds ss a sent fresh (now, once) = elim (Option-cases (lookup ts ss)) [
    | inl missing ↦
        let idle : lookup ts a.stat_cache ≡ none = (now ts).1 ∙ rw (missing, fresh) refl in
        rw (take_data, idle)
          (
            (λ t. elim (Bool-cases (t == ts)) [
              | inl same ↦
                  let e : t ≡ ts = (==_iff t ts).0 same in
                  let no_stat : lookup t ss ≡ none = rw e missing in
                  let no_data : lookup t ds ≡ none = rw e fresh in
                  let (x, y, z) = now t in
                  let y' : lookup t a.stat_cache ≡ none = y ∙ rw (no_stat, no_data) refl in
                  let z' : lookup t sent ≡ none = z ∙ rw (no_stat, no_data) refl in
                  rw (lookup-insert, lookup-snoc t ts d ds fresh, same, no_stat, append-nil sent)
                    (refl, y', z')
              | inr other ↦
                  rw (lookup-insert, lookup-snoc t ts d ds fresh, other, append-nil sent) (now t)
            ]),
            rw append-nil once,
          )
    | inr (s, present) ↦
        let found : lookup ts a.stat_cache ≡ some s = (now ts).1 ∙ rw (present, fresh) refl in
        let unsent : lookup ts sent ≡ none = (now ts).2 ∙ rw fresh refl in
        rw (take_data, found)
          (
            (λ t. elim (Bool-cases (t == ts)) [
              | inl same ↦
                  let e : t ≡ ts = (==_iff t ts).0 same in
                  let stat : lookup t ss ≡ some s = rw e present in
                  let x' : lookup t a.data_cache ≡ none = (now t).0 ∙ rw stat refl in
                  rw
                    (
                      lookup-remove,
                      lookup-snoc t ts d ds fresh,
                      lookup-snoc t ts (d, s) sent unsent,
                      same,
                      stat,
                    )
                    (x', refl, refl)
              | inr other ↦
                  rw
                    (
                      lookup-remove,
                      lookup-snoc t ts d ds fresh,
                      lookup-snoc t ts (d, s) sent unsent,
                      other,
                    )
                    (now t)
            ]),
            Once-snoc sent ts (d, s) once unsent,
          )
  ]

  take_stat-Joined :
      (ts : ℕ) (s : Stat) (ds : List (ℕ × D)) (ss : List (ℕ × Stat)) (a : TankAggregator D)
      (sent : Notices D)
      → lookup ts ss ≡ none
      → Joined ds ss a sent
      → let (a', out) = take_stat (ts, s) a in Joined ds (ss ++ (ts, s) ∷ []) a' (sent ++ out)
  unfolding take_stat
  take_stat-Joined ts s ds ss a sent fresh (now, once) = elim (Option-cases (lookup ts ds)) [
    | inl missing ↦
        let idle : lookup ts a.data_cache ≡ none = (now ts).0 ∙ rw (missing, fresh) refl in
        rw (take_stat, idle)
          (
            (λ t. elim (Bool-cases (t == ts)) [
              | inl same ↦
                  let e : t ≡ ts = (==_iff t ts).0 same in
                  let no_stat : lookup t ss ≡ none = rw e fresh in
                  let no_data : lookup t ds ≡ none = rw e missing in
                  let (x, y, z) = now t in
                  let x' : lookup t a.data_cache ≡ none = x ∙ rw (no_stat, no_data) refl in
                  let z' : lookup t sent ≡ none = z ∙ rw no_data refl in
                  rw (lookup-insert, lookup-snoc t ts s ss fresh, same, no_data, append-nil sent)
                    (x', refl, z')
              | inr other ↦
                  rw (lookup-insert, lookup-snoc t ts s ss fresh, other, append-nil sent) (now t)
            ]),
            rw append-nil once,
          )
    | inr (d, present) ↦
        let found : lookup ts a.data_cache ≡ some d = (now ts).0 ∙ rw (present, fresh) refl in
        let unsent : lookup ts sent ≡ none = (now ts).2 ∙ rw (present, fresh) refl in
        rw (take_stat, found)
          (
            (λ t. elim (Bool-cases (t == ts)) [
              | inl same ↦
                  let e : t ≡ ts = (==_iff t ts).0 same in
                  let result : lookup t ds ≡ some d = rw e present in
                  let y' : lookup t a.stat_cache ≡ none = (now t).1 ∙ rw result refl in
                  rw
                    (
                      lookup-remove,
                      lookup-snoc t ts s ss fresh,
                      lookup-snoc t ts (d, s) sent unsent,
                      same,
                      result,
                    )
                    (refl, y', refl)
              | inr other ↦
                  rw
                    (
                      lookup-remove,
                      lookup-snoc t ts s ss fresh,
                      lookup-snoc t ts (d, s) sent unsent,
                      other,
                    )
                    (now t)
            ]),
            Once-snoc sent ts (d, s) once unsent,
          )
  ]

  all_data-Joined :
      (xs ds : List (ℕ × D)) (ss : List (ℕ × Stat)) (a : TankAggregator D) (sent : Notices D)
      → Once (ds ++ xs)
      → Joined ds ss a sent
      → let (a', out) = each take_data xs a in Joined (ds ++ xs) ss a' (sent ++ out)
  all_data-Joined [] ds ss a sent once h = rw (append-nil ds, append-nil sent) h
  all_data-Joined ((ts, d) ∷ xs) ds ss a sent once h =
      let (a₁, out₁) = take_data (ts, d) a in
      let (a₂, out₂) = each take_data xs a₁ in
      let first : Joined (ds ++ (ts, d) ∷ []) ss a₁ (sent ++ out₁) =
        take_data-Joined ts d ds ss a sent (Once-fresh ds ts d xs once) h in
      let regroup = append_assoc ds ((ts, d) ∷ []) xs in
      let rest =
        all_data-Joined xs (ds ++ (ts, d) ∷ []) ss a₁ (sent ++ out₁) (rw regroup once) first in
      subst (λ l. Joined l ss a₂ (sent ++ (out₁ ++ out₂))) regroup
        (subst (λ l. Joined ((ds ++ (ts, d) ∷ []) ++ xs) ss a₂ l) (append_assoc sent out₁ out₂)
          rest)

  all_stats-Joined :
      (xs : List (ℕ × Stat)) (ds : List (ℕ × D)) (ss : List (ℕ × Stat)) (a : TankAggregator D)
      (sent : Notices D)
      → Once (ss ++ xs)
      → Joined ds ss a sent
      → let (a', out) = each take_stat xs a in Joined ds (ss ++ xs) a' (sent ++ out)
  all_stats-Joined [] ds ss a sent once h = rw (append-nil ss, append-nil sent) h
  all_stats-Joined ((ts, s) ∷ xs) ds ss a sent once h =
      let (a₁, out₁) = take_stat (ts, s) a in
      let (a₂, out₂) = each take_stat xs a₁ in
      let first : Joined ds (ss ++ (ts, s) ∷ []) a₁ (sent ++ out₁) =
        take_stat-Joined ts s ds ss a sent (Once-fresh ss ts s xs once) h in
      let regroup = append_assoc ss ((ts, s) ∷ []) xs in
      let rest =
        all_stats-Joined xs ds (ss ++ (ts, s) ∷ []) a₁ (sent ++ out₁) (rw regroup once) first in
      subst (λ l. Joined ds l a₂ (sent ++ (out₁ ++ out₂))) regroup
        (subst (λ l. Joined ds ((ss ++ (ts, s) ∷ []) ++ xs) a₂ l) (append_assoc sent out₁ out₂)
          rest)

-- Let the results `ds` and the statistics `ss` have come so far and be joined: the listeners were
-- told, once each, of the seconds that both have, with the two items of that second, and the caches
-- hold exactly the seconds that only one of them has. Then this is so again after `collect_data`
-- has taken more results and statistics from the queues, as long as no second comes twice in the
-- results nor twice in the statistics.
pub collect_data-Joined :
    {D : Type 0} (results ds : List (ℕ × D)) (stats ss : List (ℕ × Stat)) (a : TankAggregator D)
    (sent : Notices D)
    → Once (ds ++ results)
    → Once (ss ++ stats)
    → Joined ds ss a sent
    → let (a', out) = collect_data false results stats a in
      Joined (ds ++ results) (ss ++ stats) a' (sent ++ out)
unfolding collect_data
collect_data-Joined results ds stats ss a sent once_d once_s h =
    let (a₁, out₁) = each take_data results a in
    let (a₂, out₂) = each take_stat stats a₁ in
    let after_data = all_data-Joined results ds ss a sent once_d h in
    let after_stats =
      all_stats-Joined stats (ds ++ results) ss a₁ (sent ++ out₁) once_s after_data in
    rw append-nil (
      subst (λ l. Joined (ds ++ results) (ss ++ stats) a₂ l) (append_assoc sent out₁ out₂)
        after_stats)
