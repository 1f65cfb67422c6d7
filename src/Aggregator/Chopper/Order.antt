-- ===== src/Aggregator/Chopper/Order.antt =====
-- The order of the seconds when the sources are in order.
use mathlib.Core.Path.{subst}
use yandex_tank.Prelude.{
  ℕ, zero, suc, ◌≤◌, Option, none, List, [], ◌∷◌, All, length, ◌≡◌, refl, sym, inl, inr,
  Option-cases, arith,
}
use yandex_tank.Prelude.Dict.{remove}
use yandex_tank.Aggregator.Chopper.{
  Frames, values, minimum, Source, Cache, take_chunk, Reading, read_sources, emit, chop_from,
  numbered, at_zero, new_chopper, chop,
}
use yandex_tank.Aggregator.Chopper.Rows.{follow, chop_from-suc}
use yandex_tank.Aggregator.Chopper.Emitted.{Rising, Rising-append, emit-Within, drain-Rising}
use yandex_tank.Aggregator.Chopper.Recent.{minimum_ge, values_from_minimum}
use yandex_tank.Aggregator.Chopper.Passes.{
  InOrder, Ready, Ready-same, recent_after, recent_after-same, Holds, read_sources-Done,
}

module _ (P : Frames) where
  -- What a round passes on, and what comes after it.
  follow-Rising :
      (b k i : ℕ) (r : Reading P)
      → Holds P b i (recent_after P r) r.cached r.left
      → (r.ended ≡ none → b ≤ minimum (values r.recent))
      → ((b' : ℕ) (recent : List (ℕ × ℕ)) (cache : Cache P)
          → Holds P b' i recent cache r.left
          → Rising P b' (chop_from P k r.left recent cache).0)
      → Rising P b (follow P k r).0
  follow-Rising b k i r h low later = elim (Option-cases r.ended) [
    | inl e ↦
        let m = minimum (values r.recent) in
        let all_left = recent_after-same P r e in
        let (out, rest) = emit P r.recent r.cached in
        let (within, above) = emit-Within P b r.recent r.cached (low e) h.cache_above in
        rw e (
          Rising-append P b m out _ within (
            later m r.recent rest (record {
              values_above = values_from_minimum r.recent;
              cache_above = above;
              ready = subst (λ recent. Ready P i recent r.left) all_left h.ready;
            })))
    | inr (n, e) ↦
        let one_gone : recent_after P r ≡ remove n r.recent = rw e refl in
        rw e (
          later b (remove n r.recent) r.cached
            (subst (λ recent. Holds P b i recent r.cached r.left) one_gone h))
  ]

  -- A pass that reads a chunk and ends no source knows a recent second.
  read_low :
      (b i n : ℕ) (c : Option P.Frame) (cs : List (Option P.Frame)) (ss : List (Source P))
      (known : List (ℕ × ℕ) × Cache P)
      → let r = read_sources P ((n, c ∷ cs) ∷ ss) known in
        Holds P b i (recent_after P r) r.cached r.left
        → r.ended ≡ none
        → b ≤ minimum (values r.recent)
  unfolding read_sources
  read_low b i n c cs ss known h e =
      let r = read_sources P ss (take_chunk P n c known) in
      let all_left = recent_after-same P r e in
      let (last, found, _) = h.ready.1 in
      subst (λ recent. b ≤ minimum (values recent)) all_left
        (minimum_ge b n last (recent_after P r) found h.values_above)

  read_low_any :
      (b i : ℕ) (s : Source P) (ss : List (Source P)) (known : List (ℕ × ℕ) × Cache P)
      → let r = read_sources P (s ∷ ss) known in
        Holds P b i (recent_after P r) r.cached r.left
        → r.ended ≡ none
        → b ≤ minimum (values r.recent)
  read_low_any b i (n, []) ss known h e = unfold read_sources in cc
  read_low_any b i (n, c ∷ cs) ss known h e = read_low b i n c cs ss known h e

  chop_from-Rising :
      (b k i : ℕ) (ss : List (Source P)) (recent : List (ℕ × ℕ)) (cache : Cache P)
      → Holds P b i recent cache ss
      → Rising P b (chop_from P k ss recent cache).0
  chop_from-Rising b k i [] recent cache h =
      unfold chop_from in drain-Rising P (length cache) b cache h.cache_above
  chop_from-Rising b zero i (s ∷ ss) recent cache h = unfold chop_from in tt
  chop_from-Rising b (suc k) i (s ∷ ss) recent cache h =
      let r = read_sources P (s ∷ ss) (recent, cache) in
      let (held, _) = read_sources-Done P b i (s ∷ ss) recent cache h in
      subst (λ x. Rising P b x.0) (sym (chop_from-suc P k s ss recent cache))
        (follow-Rising b k i r held (read_low_any b i s ss (recent, cache) held)
          (λ b' recent' cache'. chop_from-Rising b' k i r.left recent' cache'))

  new_chopper-Ready :
      (i : ℕ) (sources : List (List (Option P.Frame)))
      → All (InOrder P 0) sources
      → Ready P i (at_zero P (numbered P i sources)) (numbered P i sources)
  new_chopper-Ready i [] order = tt
  new_chopper-Ready i (cs ∷ sources) order =
      let d = at_zero P (numbered P (suc i) sources) in
      (
        omega arith,
        (0, ground arith, order.0),
        Ready-same P (suc i) d ((i, 0) ∷ d) (numbered P (suc i) sources)
            (λ j later. ground (arith, later)) (new_chopper-Ready (suc i) sources order.1),
      )

  at_zero-values : (ss : List (Source P)) → All (λ k. 0 ≤ k) (values (at_zero P ss))
  at_zero-values [] = tt
  at_zero-values ((n, cs) ∷ ss) = (omega arith, at_zero-values ss)

  -- When no source goes back in time, the seconds are passed on in strictly rising order, so that
  -- none is passed on in two parts, whatever the sources' lengths and however far they are apart.
  pub chop-Rising :
      (k : ℕ) (sources : List (List (Option P.Frame)))
      → All (InOrder P 0) sources
      → Rising P 0 (chop P k (new_chopper P sources)).0
  unfolding chop new_chopper
  chop-Rising k sources order =
      let ss = numbered P 0 sources in
      chop_from-Rising 0 k 0 ss (at_zero P ss) [] (record {
        values_above = at_zero-values ss;
        cache_above = λ j h. omega arith;
        ready = new_chopper-Ready 0 sources order;
      })
