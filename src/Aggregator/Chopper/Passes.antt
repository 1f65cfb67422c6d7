-- ===== src/Aggregator/Chopper/Passes.antt =====
-- A pass over sources that are in order.
use yandex_tank.Prelude.{
  ℕ, suc, ◌≤◌, ◌<◌, Option, none, some, List, [], ◌∷◌, All, ◌≡◌, ◌≢◌, refl, ◌∙◌, inl, inr,
  Option-cases, arith,
}
use yandex_tank.Prelude.Dict.{lookup, insert, remove, lookup-insert, lookup-remove}
use yandex_tank.Aggregator.Chopper.{
  Frames, keys, values, Source, Cache, take_group, take_groups, take_chunk, Reading, also,
  read_sources,
}
use yandex_tank.Aggregator.Chopper.Emitted.{Above}
use yandex_tank.Aggregator.Chopper.Recent.{value_ge, no_less, values-insert, values-remove, grown}

module _ (P : Frames) where
  -- The chunks of a source after the second `r`: no group is older than the last entry of the chunk
  -- before it.
  abbrev pub InOrder : ℕ → List (Option P.Frame) → Type 0
  InOrder r [] = Unit
  InOrder r (none ∷ cs) = InOrder r cs
  InOrder r (some f ∷ cs) =
      All (λ t. r ≤ t) (keys (P.groupby f)) × (r ≤ P.index_last f) × InOrder (P.index_last f) cs

  -- The sources stand in the order of their numbers, and each is in order after its recent second.
  abbrev pub Ready : ℕ → List (ℕ × ℕ) → List (Source P) → Type 0
  Ready i recent [] = Unit
  Ready i recent ((n, cs) ∷ ss) =
      (i ≤ n) × ((r : ℕ) × (lookup n recent ≡ some r) × InOrder r cs) × Ready (suc n) recent ss

  -- what the sources see of the recent seconds
  pub Ready-same :
      (i : ℕ) (recent recent' : List (ℕ × ℕ)) (ss : List (Source P))
      → ((j : ℕ) → i ≤ j → lookup j recent' ≡ lookup j recent)
      → Ready i recent ss
      → Ready i recent' ss
  Ready-same i recent recent' [] same ready = tt
  Ready-same i recent recent' ((n, cs) ∷ ss) same (low, (r, e, order), later) = (
    low,
    (r, same n low ∙ e, order),
    Ready-same (suc n) recent recent' ss (λ j h. same j (omega (arith, h, low))) later,
  )

  Ready-weaken :
      (i j : ℕ) (recent : List (ℕ × ℕ)) (ss : List (Source P))
      → j ≤ i
      → Ready i recent ss
      → Ready j recent ss
  Ready-weaken i j recent [] h ready = tt
  Ready-weaken i j recent ((n, cs) ∷ ss) h (low, now, later) = (omega (arith, h, low), now, later)

  take_group-Above :
      (b ts : ℕ) (f : P.Frame) (cache : Cache P)
      → b ≤ ts
      → Above b cache
      → Above b (take_group P (ts, f) cache)
  unfolding take_group
  take_group-Above b ts f cache low above j = elim (Option-cases (lookup ts cache)) [
    | inl e ↦
        rw (take_group, e, lookup-insert) (λ h. grown b ts j f (lookup j cache) low (above j) h)
    | inr (g, e) ↦
        rw (take_group, e, lookup-insert)
          (λ h. grown b ts j (P.concat g f) (lookup j cache) low (above j) h)
  ]

  take_groups-Above :
      (b : ℕ) (gs : List (ℕ × P.Frame)) (cache : Cache P)
      → All (λ t. b ≤ t) (keys gs)
      → Above b cache
      → Above b (take_groups P gs cache)
  take_groups-Above b [] cache low above = above
  take_groups-Above b ((ts, f) ∷ gs) cache low above =
      take_groups-Above b gs (take_group P (ts, f) cache) low.1
        (take_group-Above b ts f cache low.0 above)

  -- the recent seconds when the source that ended is gone
  abbrev pub recent_after : Reading P → List (ℕ × ℕ)
  recent_after r = elim r.ended [ none ↦ r.recent | some n ↦ remove n r.recent ]

  pub recent_after-same : (r : Reading P) → r.ended ≡ none → recent_after r ≡ r.recent
  recent_after-same r e = rw (recent_after, e) refl

  -- What holds before and after a pass, for the sources from the number `i` on.
  pub record Holds (b i : ℕ) (recent : List (ℕ × ℕ)) (cache : Cache P) (ss : List (Source P))
      : Type 0 where
    pub values_above : All (λ k. b ≤ k) (values recent)
    pub cache_above : Above b cache
    pub ready : Ready i recent ss

  -- The seconds of the sources under a number are as they were.
  abbrev Untouched : ℕ → List (ℕ × ℕ) → List (ℕ × ℕ) → Type 0
  Untouched i recent recent' = (j : ℕ) → j < i → lookup j recent' ≡ lookup j recent

  -- What a pass does, from the source `i` on.
  abbrev Done : ℕ → ℕ → List (ℕ × ℕ) → Reading P → Type 0
  Done b i recent r =
      Holds b i (recent_after r) r.cached r.left × Untouched i recent (recent_after r)

  lookup-insert_other :
      (j n r : ℕ) (d : List (ℕ × ℕ)) → j ≢ n → lookup j (insert n r d) ≡ lookup j d
  lookup-insert_other j n r d other = lookup-insert j n r d ∙ ground (arith, other)

  lookup-remove_other : (j n : ℕ) (d : List (ℕ × ℕ)) → j ≢ n → lookup j (remove n d) ≡ lookup j d
  lookup-remove_other j n d other = lookup-remove j n d ∙ ground (arith, other)

  -- a source that is exhausted
  ended-Done :
      (b i n : ℕ) (ss : List (Source P)) (recent : List (ℕ × ℕ)) (cache : Cache P)
      → Holds b i recent cache ((n, []) ∷ ss)
      → Done b i recent (record { left = ss; recent = recent; cached = cache; ended = some n })
  ended-Done b i n ss recent cache h = (
    record {
      values_above = values-remove b n recent h.values_above;
      cache_above = h.cache_above;
      ready = Ready-weaken (suc n) i (remove n recent) ss (omega (arith, h.ready.0)) (
          Ready-same (suc n) recent (remove n recent) ss
            (λ j later. lookup-remove_other j n recent (omega (arith, later))) h.ready.2);
    },
    λ j low. lookup-remove_other j n recent (omega (arith, low, h.ready.0)),
  )

  -- a source whose chunk was taken, and the rest of the pass
  also-Done :
      (b i n r : ℕ) (cs : List (Option P.Frame)) (recent recent' : List (ℕ × ℕ)) (rest : Reading P)
      → i ≤ n
      → lookup n recent' ≡ some r
      → InOrder r cs
      → Untouched n recent recent'
      → Done b (suc n) recent' rest
      → Done b i recent (also P (n, cs) rest)
  also-Done b i n r cs recent recent' rest low e order same (h, untouched) = (
    record {
      values_above = h.values_above;
      cache_above = h.cache_above;
      ready = (low, (r, untouched n (omega arith) ∙ e, order), h.ready);
    },
    λ j less. untouched j (omega (arith, less, low)) ∙ same j (omega (arith, less, low)),
  )

  pub read_sources-Done :
      (b i : ℕ) (ss : List (Source P)) (recent : List (ℕ × ℕ)) (cache : Cache P)
      → Holds b i recent cache ss
      → Done b i recent (read_sources P ss (recent, cache))
  unfolding read_sources take_chunk
  read_sources-Done b i [] recent cache h = (h, λ j low. refl)
  read_sources-Done b i ((n, []) ∷ ss) recent cache h = ended-Done b i n ss recent cache h
  read_sources-Done b i ((n, none ∷ cs) ∷ ss) recent cache h =
      let (low, (r, e, order), later) = h.ready in
      also-Done b i n r cs recent recent (read_sources P ss (recent, cache)) low e order
        (λ j less. refl)
        (read_sources-Done b (suc n) ss recent cache
          (record { values_above = h.values_above; cache_above = h.cache_above; ready = later }))
  read_sources-Done b i ((n, some f ∷ cs) ∷ ss) recent cache h =
      let (low, (r, e, order), later) = h.ready in
      let last = P.index_last f in
      let recent' = insert n last recent in
      let old : b ≤ r = value_ge b n r recent e h.values_above in
      also-Done b i n last cs recent recent'
        (read_sources P ss (recent', take_groups P (P.groupby f) cache)) low
        (lookup-insert n n last recent ∙ ground arith) order.2
        (λ j less. lookup-insert_other j n last recent (omega (arith, less)))
        (read_sources-Done b (suc n) ss recent' (take_groups P (P.groupby f) cache) (record {
          values_above = values-insert b n last recent (omega (arith, old, order.1)) h.values_above;
          cache_above =
              take_groups-Above b (P.groupby f) cache (no_less b r (keys (P.groupby f)) old order.0)
                h.cache_above;
          ready =
              Ready-same (suc n) recent recent' ss
                (λ j more. lookup-insert_other j n last recent (omega (arith, more))) later;
        }))
