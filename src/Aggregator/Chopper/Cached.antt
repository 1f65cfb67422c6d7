-- ===== src/Aggregator/Chopper/Cached.antt =====
-- How many rows of a second are in the cache, and what a pass over the sources adds.
use yandex_tank.Prelude.{
  ℕ, ◌+◌, Option, none, some, List, [], ◌∷◌, ◌++◌, ◌==◌, ==_iff, if◌then◌else◌, ◌≡◌, refl, ap, ◌∙◌,
  inl, inr, Bool-cases, Option-cases, arith,
}
use yandex_tank.Prelude.Dict.{lookup, insert, remove, lookup-insert, lookup-remove}
use yandex_tank.Aggregator.Chopper.{
  Frames, Source, Yield, Cache, take_group, take_groups, take_chunk, read_sources, pop_keys,
}

module _ (P : Frames) where
  abbrev rows_of : Option P.Frame → ℕ
  rows_of none = 0
  rows_of (some f) = P.len f

  -- The rows of a second in the cache, in what was passed on, in the groups, and in the sources.
  abbrev pub cached_rows : ℕ → Cache P → ℕ
  cached_rows t cache = rows_of (lookup t cache)

  abbrev pub passed_rows : ℕ → List (Yield P) → ℕ
  passed_rows t [] = 0
  passed_rows t ((ts, _, cardinality) ∷ out) =
      (if t == ts then cardinality else 0) + passed_rows t out

  abbrev pub group_rows : ℕ → List (ℕ × P.Frame) → ℕ
  group_rows t [] = 0
  group_rows t ((ts, f) ∷ gs) = (if t == ts then P.len f else 0) + group_rows t gs

  abbrev pub chunk_rows : ℕ → List (Option P.Frame) → ℕ
  chunk_rows t [] = 0
  chunk_rows t (none ∷ cs) = chunk_rows t cs
  chunk_rows t (some f ∷ cs) = group_rows t (P.groupby f) + chunk_rows t cs

  abbrev pub source_rows : ℕ → List (Source P) → ℕ
  source_rows t [] = 0
  source_rows t ((_, cs) ∷ ss) = chunk_rows t cs + source_rows t ss

  pub passed_rows-append :
      (t : ℕ) (xs ys : List (Yield P))
      → passed_rows t (xs ++ ys) ≡ passed_rows t xs + passed_rows t ys
  passed_rows-append t [] ys = omega arith
  passed_rows-append t ((ts, f, c) ∷ xs) ys = omega (arith, passed_rows-append t xs ys)

  -- `pd.concat` keeps the rows of both.
  abbrev pub Additive : Type 0
  Additive = (f g : P.Frame) → P.len (P.concat f g) ≡ P.len f + P.len g

  -- the rows of a second in a cache where another has gone, or has changed
  rows-insert :
      (t ts : ℕ) (o : Option P.Frame) (f g : P.Frame) (cache : Cache P)
      → lookup ts cache ≡ o
      → P.len g ≡ P.len f + rows_of o
      → cached_rows t (insert ts g cache) ≡ (if t == ts then P.len f else 0) + cached_rows t cache
  rows-insert t ts o f g cache e size = elim (Bool-cases (t == ts)) [
    | inl same ↦
        let there : lookup t cache ≡ o = ap (λ x. lookup x cache) ((==_iff t ts).0 same) ∙ e in
        rw (lookup-insert, same, there) (omega (arith, size))
    | inr other ↦ rw (lookup-insert, other) (omega arith)
  ]

  pub rows-remove :
      (t ts : ℕ) (f : P.Frame) (cache : Cache P)
      → lookup ts cache ≡ some f
      → (if t == ts then P.len f else 0) + cached_rows t (remove ts cache) ≡ cached_rows t cache
  rows-remove t ts f cache e = elim (Bool-cases (t == ts)) [
    | inl same ↦
        let there : lookup t cache ≡ some f = ap (λ x. lookup x cache) ((==_iff t ts).0 same) ∙ e in
        rw (lookup-remove, same, there) (omega arith)
    | inr other ↦ rw (lookup-remove, other) (omega arith)
  ]

  take_group-rows :
      (t ts : ℕ) (f : P.Frame) (cache : Cache P)
      → Additive
      → cached_rows t (take_group P (ts, f) cache)
        ≡ (if t == ts then P.len f else 0) + cached_rows t cache
  unfolding take_group
  take_group-rows t ts f cache additive = elim (Option-cases (lookup ts cache)) [
    | inl e ↦ rw (take_group, e) (rows-insert t ts none f f cache e (omega arith))
    | inr (g, e) ↦
        rw (take_group, e)
          (rows-insert t ts (some g) f (P.concat g f) cache e (omega (arith, additive g f)))
  ]

  pub pop_keys-rows :
      (t : ℕ) (ks : List ℕ) (cache : Cache P)
      → passed_rows t (pop_keys P ks cache).0 + cached_rows t (pop_keys P ks cache).1
        ≡ cached_rows t cache
  pop_keys-rows t [] cache = omega arith
  pop_keys-rows t (ts ∷ ks) cache = elim (Option-cases (lookup ts cache)) [
    | inl e ↦ rw (pop_keys, e) (pop_keys-rows t ks cache)
    | inr (f, e) ↦
        rw (pop_keys, e)
          (omega (arith, pop_keys-rows t ks (remove ts cache), rows-remove t ts f cache e))
  ]

  take_groups-rows :
      (t : ℕ) (gs : List (ℕ × P.Frame)) (cache : Cache P)
      → Additive
      → cached_rows t (take_groups P gs cache) ≡ group_rows t gs + cached_rows t cache
  take_groups-rows t [] cache additive = omega arith
  take_groups-rows t ((ts, f) ∷ gs) cache additive = omega (
    arith,
    take_groups-rows t gs (take_group P (ts, f) cache) additive,
    take_group-rows t ts f cache additive,
  )

  -- A pass over the sources loses no row.
  pub read_sources-rows :
      (t : ℕ) (ss : List (Source P)) (recent : List (ℕ × ℕ)) (cache : Cache P)
      → Additive
      → let r = read_sources P ss (recent, cache) in
        cached_rows t r.cached + source_rows t r.left ≡ cached_rows t cache + source_rows t ss
  unfolding read_sources take_chunk
  read_sources-rows t [] recent cache additive = refl
  read_sources-rows t ((n, []) ∷ ss) recent cache additive = omega arith
  read_sources-rows t ((n, none ∷ cs) ∷ ss) recent cache additive =
      omega (arith, read_sources-rows t ss recent cache additive)
  read_sources-rows t ((n, some f ∷ cs) ∷ ss) recent cache additive = omega (
    arith,
    read_sources-rows t ss (insert n (P.index_last f) recent) (take_groups P (P.groupby f) cache)
        additive,
    take_groups-rows t (P.groupby f) cache additive,
  )
