-- ===== src/Aggregator/TankAggregator/Ending.antt =====
-- The last call of `_collect_data`, with `end` set.
use mathlib.Core.List.{append-nil, append_assoc}
use yandex_tank.Prelude.{
  ℕ, Bool, true, false, Option, none, some, List, [], ◌∷◌, ◌++◌, map, ◌==◌, ==_iff, if◌then◌else◌,
  ◌≡◌, ◌⊎◌, refl, sym, ap, ◌∙◌, inl, inr, Bool-cases, Option-cases, leb, arith,
}
use mathlib.Core.Option
use yandex_tank.Prelude.Dict.{lookup, insert, remove, lookup-insert, lookup-remove}
use yandex_tank.Autostop.Sample.{Stat}
use yandex_tank.Aggregator.TankAggregator.{
  TankAggregator, Notices, stats_item, take_data, take_stat, each, put_sorted, sorted, flush,
  collect_data,
}
use yandex_tank.Aggregator.TankAggregator.Laws.{
  Once, or_else, waiting, met, lookup-append, Joined, collect_data-Joined,
}

module _ {V : Type 0} where
  shift_fresh :
      (k j : ℕ) (v v' : V) (d : List (ℕ × V))
      → (j == k) ≡ false
      → lookup j d ≡ none
      → lookup j (insert k v d) ≡ none
  shift_fresh k j v v' d other fresh = lookup-insert j k v d ∙ rw other fresh

  Once-insert : (k : ℕ) (v : V) (d : List (ℕ × V)) → Once d → Once (insert k v d)
  Once-insert k v [] once = (refl, tt)
  Once-insert k v ((j, u) ∷ d) once = elim (Bool-cases (k == j)) [
    | inl same ↦ let e : k ≡ j = (==_iff k j).0 same in rw same (rw e once.0, once.1)
    | inr other ↦
        rw other (shift_fresh k j v v d (ground (arith, other)) once.0, Once-insert k v d once.1)
  ]

  absent-remove : (k j : ℕ) (d : List (ℕ × V)) → lookup j d ≡ none → lookup j (remove k d) ≡ none
  absent-remove k j d fresh = ground (arith, lookup-remove j k d)

  Once-remove : (k : ℕ) (d : List (ℕ × V)) → Once d → Once (remove k d)
  Once-remove k [] once = tt
  Once-remove k ((j, u) ∷ d) once = elim (Bool-cases (k == j)) [
    | inl same ↦ rw same (Once-remove k d once.1)
    | inr other ↦ rw other (absent-remove k j d once.0, Once-remove k d once.1)
  ]

  apart :
      (k j : ℕ) (u : V) (d : List (ℕ × V))
      → (if k == j then some u else lookup k d) ≡ none
      → ((k == j) ≡ false) × ((j == k) ≡ false) × (lookup k d ≡ none)
  apart k j u d fresh = ground arith

  swap_tests :
      (t k j : ℕ) (v u : V) (o : Option V)
      → (k == j) ≡ false
      → (if t == j then some u else (if t == k then some v else o))
        ≡ (if t == k then some v else (if t == j then some u else o))
  swap_tests t k j v u o other = ground arith

  lookup-put_sorted :
      (t k : ℕ) (v : V) (d : List (ℕ × V))
      → lookup k d ≡ none
      → lookup t (put_sorted (k, v) d) ≡ (if t == k then some v else lookup t d)
  unfolding put_sorted
  lookup-put_sorted t k v [] fresh = refl
  lookup-put_sorted t k v ((j, u) ∷ d) fresh =
      let (other, _, later) = apart k j u d fresh in
      elim (Bool-cases (leb k j)) [
        | inl first ↦ rw first refl
        | inr after ↦
            rw (after, lookup-put_sorted t k v d later) (swap_tests t k j v u (lookup t d) other)
      ]

  lookup-sorted : (t : ℕ) (d : List (ℕ × V)) → Once d → lookup t (sorted d) ≡ lookup t d
  unfolding sorted
  lookup-sorted t [] once = refl
  lookup-sorted t ((j, u) ∷ d) once =
      lookup-put_sorted t j u (sorted d) (lookup-sorted j d once.1 ∙ once.0)
      ∙ ap (λ o. if t == j then some u else o) (lookup-sorted t d once.1)

  Once-put_sorted :
      (k : ℕ) (v : V) (d : List (ℕ × V)) → lookup k d ≡ none → Once d → Once (put_sorted (k, v) d)
  unfolding put_sorted
  Once-put_sorted k v [] fresh once = (refl, tt)
  Once-put_sorted k v ((j, u) ∷ d) fresh once =
      let (_, other, later) = apart k j u d fresh in
      let stays : lookup j (put_sorted (k, v) d) ≡ none =
        lookup-put_sorted j k v d later ∙ rw other once.0 in
      elim (Bool-cases (leb k j)) [
        | inl first ↦ rw first (fresh, once)
        | inr after ↦ rw after (stays, Once-put_sorted k v d later once.1)
      ]

  Once-sorted : (d : List (ℕ × V)) → Once d → Once (sorted d)
  unfolding sorted
  Once-sorted [] once = tt
  Once-sorted ((j, u) ∷ d) once =
      Once-put_sorted j u (sorted d) (lookup-sorted j d once.1 ∙ once.0) (Once-sorted d once.1)

  absent-append :
      (t : ℕ) (xs ys : List (ℕ × V))
      → lookup t xs ≡ none
      → lookup t ys ≡ none
      → lookup t (xs ++ ys) ≡ none
  absent-append t xs ys h g = lookup-append t xs ys ∙ rw (h, g) refl

  behead :
      (t k : ℕ) (v : V) (o o' : Option V)
      → ((if t == k then some v else o) ≡ none) ⊎ (o' ≡ none)
      → (o ≡ none) ⊎ (o' ≡ none)
  behead t k v o o' (inr h) = inr h
  behead t k v o o' (inl h) = inl (ground (arith, h))

  clashing :
      (k : ℕ) (v : V) (o o' : Option V)
      → ((if k == k then some v else o) ≡ none) ⊎ (o' ≡ none)
      → o' ≡ none
  clashing k v o o' (inr h) = h
  clashing k v o o' (inl h) = ground (arith, h)

  -- Two lists without a common key.
  Once-append :
      (xs ys : List (ℕ × V))
      → Once xs
      → Once ys
      → ((t : ℕ) → (lookup t xs ≡ none) ⊎ (lookup t ys ≡ none))
      → Once (xs ++ ys)
  Once-append [] ys hx hy disjoint = hy
  Once-append ((k, v) ∷ xs) ys hx hy disjoint = (
    absent-append k xs ys hx.0 (clashing k v (lookup k xs) (lookup k ys) (disjoint k)),
    Once-append xs ys hx.1 hy (λ t. behead t k v (lookup t xs) (lookup t ys) (disjoint t)),
  )

abbrev pub told : {D : Type 0} → Option D → Option Stat → Option (D × Stat)
told (some d) (some s) = some (d, s)
told (some d) none = some (d, stats_item 0 0)
told none s = none

module _ {D : Type 0} where
  abbrev closing : ℕ × D → ℕ × (D × Stat)
  closing (ts, d) = (ts, (d, stats_item 0 0))

  lookup-closing :
      (t : ℕ) (d : List (ℕ × D))
      → lookup t (map closing d) ≡ Option.map (λ x. (x, stats_item 0 0)) (lookup t d)
  lookup-closing t [] = refl
  lookup-closing t ((k, x) ∷ d) = elim (Bool-cases (t == k)) [
    | inl same ↦ rw same refl
    | inr other ↦ rw other (lookup-closing t d)
  ]

  Once-closing : (d : List (ℕ × D)) → Once d → Once (map closing d)
  Once-closing [] once = tt
  Once-closing ((k, x) ∷ d) once = (lookup-closing k d ∙ rw once.0 refl, Once-closing d once.1)

  keep_data :
      (x : ℕ × D) (a : TankAggregator D) → Once a.data_cache → Once (take_data x a).0.data_cache
  unfolding take_data
  keep_data (ts, d) a once = elim (Option-cases (lookup ts a.stat_cache)) [
    | inl e ↦ rw (take_data, e) (Once-insert ts d a.data_cache once)
    | inr (s, e) ↦ rw (take_data, e) once
  ]

  keep_stat :
      (x : ℕ × Stat) (a : TankAggregator D) → Once a.data_cache → Once (take_stat x a).0.data_cache
  unfolding take_stat
  keep_stat (ts, s) a once = elim (Option-cases (lookup ts a.data_cache)) [
    | inl e ↦ rw (take_stat, e) once
    | inr (d, e) ↦ rw (take_stat, e) (Once-remove ts a.data_cache once)
  ]

  keep_each :
      {A : Type 0} (take : A → TankAggregator D → TankAggregator D × Notices D)
      → ((x : A) (a : TankAggregator D) → Once a.data_cache → Once (take x a).0.data_cache)
      → (xs : List A) (a : TankAggregator D) → Once a.data_cache
      → Once (each take xs a).0.data_cache
  keep_each take keeps [] a once = once
  keep_each take keeps (x ∷ xs) a once = keep_each take keeps xs (take x a).0 (keeps x a once)

  -- The cache stays a dictionary.
  pub collect_data-Once :
      (end : Bool) (results : List (ℕ × D)) (stats : List (ℕ × Stat)) (a : TankAggregator D)
      → Once a.data_cache
      → Once (collect_data end results stats a).0.data_cache
  unfolding collect_data
  collect_data-Once end results stats a once =
      keep_each take_stat keep_stat stats (each take_data results a).0
        (keep_each take_data keep_data results a once)

  collect_end :
      (results : List (ℕ × D)) (stats : List (ℕ × Stat)) (a : TankAggregator D)
      → let (a', out) = collect_data false results stats a in
        collect_data true results stats a ≡ (a', out ++ flush a')
  unfolding collect_data
  collect_end results stats a =
      let (a₁, out₁) = each take_data results a in
      let (a₂, out₂) = each take_stat stats a₁ in ap (λ l. (a₂, l)) (rw append-nil refl)

  settle :
      (d : Option D) (s : Option Stat)
      → or_else (met d s) (Option.map (λ x. (x, stats_item 0 0)) (waiting d s)) ≡ told d s
  settle none none = refl
  settle none (some s) = refl
  settle (some d) none = refl
  settle (some d) (some s) = refl

  apart_of :
      (d : Option D) (s : Option Stat)
      → (met d s ≡ none)
        ⊎ (Option.map {B = D × Stat} (λ x. (x, stats_item 0 0)) (waiting d s) ≡ none)
  apart_of none s = inl refl
  apart_of (some d) none = inl refl
  apart_of (some d) (some s) = inr refl

  lookup-flush :
      (t : ℕ) (a : TankAggregator D)
      → Once a.data_cache
      → lookup t (flush a) ≡ Option.map (λ x. (x, stats_item 0 0)) (lookup t a.data_cache)
  unfolding flush
  lookup-flush t a once =
      lookup-closing t (sorted a.data_cache)
      ∙ ap (λ o. Option.map (λ x. (x, stats_item 0 0)) o) (lookup-sorted t a.data_cache once)

  Once-flush : (a : TankAggregator D) → Once a.data_cache → Once (flush a)
  unfolding flush
  Once-flush a once = Once-closing (sorted a.data_cache) (Once-sorted a.data_cache once)

-- Let the results `ds` and the statistics `ss` have come so far and be joined, and let the cache be a
-- dictionary. Once `collect_data` has taken the last results and statistics with `end` set, the
-- listeners were told of every second of the results, once each and of no other second: with the
-- statistics of that second where they came, and with 0 instances and 0 requests where they did not.
-- No second comes twice in the results nor twice in the statistics.
pub collect_data_complete :
    {D : Type 0} (results ds : List (ℕ × D)) (stats ss : List (ℕ × Stat)) (a : TankAggregator D)
    (sent : Notices D)
    → Once (ds ++ results)
    → Once (ss ++ stats)
    → Once a.data_cache
    → Joined ds ss a sent
    → let out = (collect_data true results stats a).1 in
      ((t : ℕ) → lookup t (sent ++ out) ≡ told (lookup t (ds ++ results)) (lookup t (ss ++ stats)))
      × Once (sent ++ out)
collect_data_complete results ds stats ss a sent once_d once_s dict h =
    let (a', out) = collect_data false results stats a in
    let (now, once) = collect_data-Joined results ds stats ss a sent once_d once_s h in
    let dict' = collect_data-Once false results stats a dict in
    let flushed = λ (t : ℕ).
      lookup-flush t a' dict' ∙ ap (λ o. Option.map (λ x. (x, stats_item 0 0)) o) (now t).0 in
    let regroup : (sent ++ out) ++ flush a' ≡ sent ++ (collect_data true results stats a).1 =
      append_assoc sent out (flush a')
      ∙ ap (λ p. sent ++ p.1) (sym (collect_end results stats a)) in
    rw (← regroup) (
      λ t. lookup-append t (sent ++ out) (flush a') ∙ rw ((now t).2, flushed t) (settle _ _),
      Once-append (sent ++ out) (flush a') once (Once-flush a' dict')
          (λ t. rw ((now t).2, flushed t) (apart_of _ _)),
    )
