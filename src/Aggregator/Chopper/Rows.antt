-- ===== src/Aggregator/Chopper/Rows.antt =====
-- How many rows of a second go through the chopper.
use mathlib.Core.Path.{subst}
use yandex_tank.Prelude.{
  ℕ, zero, suc, ◌+◌, ◌≤◌, ◌<◌, Bool, true, Option, none, some, List, [], ◌∷◌, ◌++◌, length, ltb,
  if◌then◌else◌, ◌≡◌, refl, sym, ap, ◌∙◌, ◌⊎◌, inl, inr, Option-cases, is_some, arith,
}
use yandex_tank.Prelude.Dict.{lookup, remove}
use yandex_tank.Aggregator.Chopper.{
  Frames, least, keys, Source, Yield, Cache, take_chunk, Reading, read_sources, pop_keys, emit,
  drain, before, chop_from, numbered, at_zero, new_chopper, chop,
}
use yandex_tank.Aggregator.Chopper.Cached.{
  cached_rows, passed_rows, source_rows, passed_rows-append, Additive, rows-remove, pop_keys-rows,
  read_sources-rows,
}

module _ (P : Frames) where
  least_in :
      {V : Type 0} (m : ℕ) (d : List (ℕ × V))
      → (least m (keys d) ≡ m) ⊎ (is_some (lookup (least m (keys d)) d) ≡ true)
  least_in m [] = inl refl
  least_in m ((k, v) ∷ d) = ground (arith, least_in (if ltb k m then k else m) d)

  length-remove : (t : ℕ) (cache : Cache P) → length (remove t cache) ≤ length cache
  length-remove t [] = omega arith
  length-remove t ((k, f) ∷ cache) = ground (arith, length-remove t cache)

  length-remove_some :
      (t : ℕ) (cache : Cache P)
      → is_some (lookup t cache) ≡ true
      → length (remove t cache) < length cache
  length-remove_some t [] h = cc
  length-remove_some t ((k, f) ∷ cache) h =
      ground (arith, length-remove t cache, length-remove_some t cache)

  -- what `drain` does with a key
  abbrev drained : ℕ → ℕ → Cache P → List (Yield P)
  drained k first cache = let (out, rest) = pop_keys P (first ∷ []) cache in out ++ drain P k rest

  drained-found :
      (k first : ℕ) (f : P.Frame) (cache : Cache P)
      → lookup first cache ≡ some f
      → drained k first cache ≡ (first, f, P.len f) ∷ drain P k (remove first cache)
  drained-found k first f cache e = rw (pop_keys, e) refl

  -- The least key is one of the cache.
  first_found :
      (ts : ℕ) (f : P.Frame) (cache : Cache P)
      → (g : P.Frame) × (lookup (least ts (keys cache)) ((ts, f) ∷ cache) ≡ some g)
  first_found ts f cache = elim (Option-cases (lookup (least ts (keys cache)) ((ts, f) ∷ cache))) [
    | inl e ↦ absurd (ground (arith, least_in ts cache))
    | inr (g, e) ↦ (g, e)
  ]

  -- A round of `drain`, on a cache with an entry.
  pub drain-suc :
      (k ts : ℕ) (f : P.Frame) (cache : Cache P)
      → let first = least ts (keys cache) in
        (g : P.Frame) × (lookup first ((ts, f) ∷ cache) ≡ some g)
        × (drain P (suc k) ((ts, f) ∷ cache)
            ≡ (first, g, P.len g) ∷ drain P k (remove first ((ts, f) ∷ cache)))
  unfolding drain
  drain-suc k ts f cache =
      let (g, e) = first_found ts f cache in
      (g, e, drained-found k (least ts (keys cache)) g ((ts, f) ∷ cache) e)

  -- A round takes an entry at least.
  pub length-remove_found :
      (t : ℕ) (g : P.Frame) (cache : Cache P)
      → lookup t cache ≡ some g
      → length (remove t cache) < length cache
  length-remove_found t g cache e = length-remove_some t cache (ap is_some e)

  -- The end passes on all that is left.
  drain-rows :
      (t k : ℕ) (cache : Cache P)
      → length cache ≤ k
      → passed_rows P t (drain P k cache) ≡ cached_rows P t cache
  drain-rows t zero [] enough = unfold drain in refl
  drain-rows t zero (e ∷ cache) enough = absurd (omega (arith, enough))
  drain-rows t (suc k) [] enough = unfold drain in refl
  drain-rows t (suc k) ((ts, f) ∷ cache) enough =
      let first = least ts (keys cache) in
      let whole : Cache P = (ts, f) ∷ cache in
      let (g, e, round) = drain-suc k ts f cache in
      let shorter = length-remove_found first g whole e in
      ap (passed_rows P t) round
      ∙ omega (
        arith,
        drain-rows t k (remove first whole) (omega (arith, enough, shorter)),
        rows-remove P t first g whole e,
      )

  emit-rows :
      (t : ℕ) (recent : List (ℕ × ℕ)) (cache : Cache P)
      → passed_rows P t (emit P recent cache).0 + cached_rows P t (emit P recent cache).1
        ≡ cached_rows P t cache
  unfolding emit
  emit-rows t recent cache = pop_keys-rows P t _ cache

  -- What is left to read.
  abbrev pub size : List (Source P) → ℕ
  size [] = 0
  size ((_, cs) ∷ ss) = suc (length cs) + size ss

  -- A pass reads a chunk, or leaves a source out.
  pub read_sources-size :
      (ss : List (Source P)) (known : List (ℕ × ℕ) × Cache P)
      → size (read_sources P ss known).left ≤ size ss
  unfolding read_sources
  read_sources-size [] known = omega arith
  read_sources-size ((n, []) ∷ ss) known = omega arith
  read_sources-size ((n, c ∷ cs) ∷ ss) known =
      omega (arith, read_sources-size ss (take_chunk P n c known))

  pub read_sources-size_less :
      (s : Source P) (ss : List (Source P)) (known : List (ℕ × ℕ) × Cache P)
      → size (read_sources P (s ∷ ss) known).left < size (s ∷ ss)
  unfolding read_sources
  read_sources-size_less (n, []) ss known = omega arith
  read_sources-size_less (n, c ∷ cs) ss known =
      omega (arith, read_sources-size ss (take_chunk P n c known))

  -- what a round does with what it has read
  abbrev pub follow : ℕ → Reading P → List (Yield P) × Bool
  follow k r = elim r.ended [
    | some n ↦ chop_from P k r.left (remove n r.recent) r.cached
    | none ↦
        let (out, rest) = emit P r.recent r.cached in
        before P out (chop_from P k r.left r.recent rest)
  ]

  pub chop_from-suc :
      (k : ℕ) (s : Source P) (ss : List (Source P)) (recent : List (ℕ × ℕ)) (cache : Cache P)
      → chop_from P (suc k) (s ∷ ss) recent cache
        ≡ follow k (read_sources P (s ∷ ss) (recent, cache))
  unfolding chop_from
  chop_from-suc k s ss recent cache = refl

  -- All rows that a second has left are passed on.
  abbrev Passes : ℕ → ℕ → List (Yield P) × Bool → Type 0
  Passes t rows (out, done) = (done ≡ true) × (passed_rows P t out ≡ rows)

  before-Passes :
      (t rows later : ℕ) (out : List (Yield P)) (r : List (Yield P) × Bool)
      → passed_rows P t out + later ≡ rows
      → Passes t later r
      → Passes t rows (before P out r)
  before-Passes t rows later out (yields, done) total (ends, passed) =
      (ends, passed_rows-append P t out yields ∙ omega (arith, passed, total))

  follow-Passes :
      (t k : ℕ) (r : Reading P)
      → ((recent : List (ℕ × ℕ)) (cache : Cache P)
          → Passes t
              (cached_rows P t cache + source_rows P t r.left)
              (chop_from P k r.left recent cache))
      → Passes t (cached_rows P t r.cached + source_rows P t r.left) (follow k r)
  follow-Passes t k r later = elim (Option-cases r.ended) [
    | inl e ↦
        let (out, rest) = emit P r.recent r.cached in
        rw e (
          before-Passes t _ (cached_rows P t rest + source_rows P t r.left) out
            (chop_from P k r.left r.recent rest) (omega (arith, emit-rows t r.recent r.cached))
            (later r.recent rest))
    | inr (n, e) ↦ rw e (later (remove n r.recent) r.cached)
  ]

  chop_from-Passes :
      (t k : ℕ) (ss : List (Source P)) (recent : List (ℕ × ℕ)) (cache : Cache P)
      → Additive P
      → size ss ≤ k
      → Passes t (cached_rows P t cache + source_rows P t ss) (chop_from P k ss recent cache)
  chop_from-Passes t k [] recent cache additive enough =
      unfold chop_from in (refl, drain-rows t (length cache) cache (omega arith) ∙ omega arith)
  chop_from-Passes t zero (s ∷ ss) recent cache additive enough = absurd (omega (arith, enough))
  chop_from-Passes t (suc k) (s ∷ ss) recent cache additive enough =
      let r = read_sources P (s ∷ ss) (recent, cache) in
      let smaller = read_sources-size_less s ss (recent, cache) in
      let total = read_sources-rows P t (s ∷ ss) recent cache additive in
      subst (Passes t (cached_rows P t cache + source_rows P t (s ∷ ss)))
        (sym (chop_from-suc k s ss recent cache))
        (subst (λ rows. Passes t rows (follow k r)) total
          (follow-Passes t k r (λ recent' cache'.
            chop_from-Passes t k r.left recent' cache' additive (omega (arith, enough, smaller)))))

  -- When `concat` keeps the rows of both frames, the iteration comes to its end in as many rounds as
  -- the sources have chunks and ends, and for each second passes on exactly the rows that the chunks
  -- of all the sources have for it: none is lost or doubled, in whatever order they come.
  pub chop-rows :
      (t k : ℕ) (sources : List (List (Option P.Frame)))
      → Additive P
      → size (numbered P 0 sources) ≤ k
      → let (out, done) = chop P k (new_chopper P sources) in
        (done ≡ true) × (passed_rows P t out ≡ source_rows P t (numbered P 0 sources))
  unfolding chop new_chopper
  chop-rows t k sources additive enough =
      let ss = numbered P 0 sources in
      let (ends, passed) = chop_from-Passes t k ss (at_zero P ss) [] additive enough in
      (ends, passed ∙ omega arith)
