-- ===== src/Aggregator/Chopper/Emitted.antt =====
-- The seconds that leave the cache, in their order.
use mathlib.Core.Path.{subst}
use yandex_tank.Prelude.{
  ℕ, zero, suc, ◌≤◌, ◌<◌, Bool, true, false, ◌&&◌, Option, none, some, List, [], ◌∷◌, ◌++◌, All,
  filterb, ltb, ltb→le, leb, ◌==◌, ==_iff, if◌then◌else◌, ◌≡◌, ◌≢◌, refl, sym, ap, ◌∙◌, inl, inr,
  Bool-cases, Option-cases, is_some, arith,
}
use yandex_tank.Prelude.Dict.{lookup, remove, lookup-remove}
use yandex_tank.Aggregator.Chopper.{
  Frames, least, put_key, sort_keys, keys, Yield, Cache, pop_keys, values, minimum, emit, drain,
}
use yandex_tank.Aggregator.Chopper.Rows.{drain-suc}

-- The keys of the cache are no less than a bound.
abbrev pub Above : {V : Type 0} → ℕ → List (ℕ × V) → Type 0
Above b d = (j : ℕ) → is_some (lookup j d) ≡ true → b ≤ j

pub least_le : (m : ℕ) (ks : List ℕ) → least m ks ≤ m
least_le m [] = omega arith
least_le m (k ∷ ks) = ground (arith, least_le (if ltb k m then k else m) ks)

pub least_le_keys :
    {V : Type 0} (j m : ℕ) (d : List (ℕ × V)) → is_some (lookup j d) ≡ true → least m (keys d) ≤ j
least_le_keys j m [] h = cc
least_le_keys j m ((k, v) ∷ d) h = ground (
  arith,
  least_le_keys j (if ltb k m then k else m) d,
  least_le (if ltb k m then k else m) (keys d),
)

least_le_whole :
    {V : Type 0} (j ts : ℕ) (f : V) (d : List (ℕ × V))
    → is_some (lookup j ((ts, f) ∷ d)) ≡ true
    → least ts (keys d) ≤ j
least_le_whole j ts f d h = ground (arith, least_le_keys j ts d, least_le ts (keys d))

absent_found : {A : Type 0} {a : A} → none ≡ some a → ⊥
absent_found e = cc

-- In order, and within bounds.
abbrev Sorted : ℕ → ℕ → List ℕ → Type 0
Sorted b m [] = Unit
Sorted b m (k ∷ ks) = (b ≤ k) × (k < m) × Sorted k m ks

Sorted-weaken : (b c m : ℕ) (ks : List ℕ) → c ≤ b → Sorted b m ks → Sorted c m ks
Sorted-weaken b c m [] h s = tt
Sorted-weaken b c m (k ∷ ks) h s = (omega (arith, s.0), s.1, s.2)

put_key-Sorted :
    (b m k : ℕ) (ks : List ℕ) → b ≤ k → k < m → Sorted b m ks → Sorted b m (put_key k ks)
put_key-Sorted b m k [] low high s = (low, high, tt)
put_key-Sorted b m k (j ∷ js) low high s = elim (Bool-cases (leb k j)) [
  | inl y ↦ rw y (low, high, (ground (arith, y), s.1, s.2))
  | inr n ↦ rw n (s.0, s.1, put_key-Sorted j m k js (ground (arith, n)) high s.2)
]

sort_keys-Sorted :
    (b m : ℕ) (ks : List ℕ) → All (λ k. (b ≤ k) × (k < m)) ks → Sorted b m (sort_keys ks)
sort_keys-Sorted b m [] h = tt
sort_keys-Sorted b m (k ∷ ks) h =
    put_key-Sorted b m k (sort_keys ks) h.0.0 h.0.1 (sort_keys-Sorted b m ks h.1)

abbrev member : ℕ → List ℕ → Bool
member j [] = false
member j (k ∷ ks) = if j == k then true else member j ks

member-put_key :
    (j k : ℕ) (ks : List ℕ) → member j (put_key k ks) ≡ (if j == k then true else member j ks)
member-put_key j k [] = refl
member-put_key j k (i ∷ is) = ground (arith, member-put_key j k is)

member-sort_keys : (j : ℕ) (ks : List ℕ) → member j (sort_keys ks) ≡ member j ks
member-sort_keys j [] = refl
member-sort_keys j (k ∷ ks) =
    member-put_key j k (sort_keys ks) ∙ ap (λ b. if j == k then true else b) (member-sort_keys j ks)

-- The ready keys are the keys of the cache under the limit.
member_ready :
    {V : Type 0} (j m : ℕ) (d : List (ℕ × V))
    → member j (filterb (λ ts. ltb ts m) (keys d)) ≡ (ltb j m && is_some (lookup j d))
member_ready j m [] = ground arith
member_ready j m ((k, v) ∷ d) = ground (arith, member_ready j m d)

ready_within :
    {V : Type 0} (b m : ℕ) (d : List (ℕ × V))
    → All (λ k. b ≤ k) (keys d)
    → All (λ k. (b ≤ k) × (k < m)) (filterb (λ ts. ltb ts m) (keys d))
ready_within b m [] h = tt
ready_within b m ((k, v) ∷ d) h = elim (Bool-cases (ltb k m)) [
  | inl y ↦ rw y ((h.0, ground (arith, y)), ready_within b m d h.1)
  | inr n ↦ rw n (ready_within b m d h.1)
]

Above-keys : {V : Type 0} (b : ℕ) (d : List (ℕ × V)) → Above b d → All (λ k. b ≤ k) (keys d)
Above-keys b [] h = tt
Above-keys b ((k, v) ∷ d) h = (h k (ground arith), Above-keys b d (λ j e. h j (ground (arith, e))))

module _ (P : Frames) where
  -- The seconds rise, from a bound on.
  abbrev pub Rising : ℕ → List (Yield P) → Type 0
  Rising b [] = Unit
  Rising b ((t, _, _) ∷ out) = (b ≤ t) × Rising (suc t) out

  -- They also stay under a limit.
  abbrev pub Within : ℕ → ℕ → List (Yield P) → Type 0
  Within b m [] = b ≤ m
  Within b m ((t, _, _) ∷ out) = (b ≤ t) × Within (suc t) m out

  Rising-weaken : (b c : ℕ) (out : List (Yield P)) → c ≤ b → Rising b out → Rising c out
  Rising-weaken b c [] h r = tt
  Rising-weaken b c ((t, f, n) ∷ out) h r = (omega (arith, r.0), r.1)

  pub Rising-append :
      (b m : ℕ) (xs ys : List (Yield P)) → Within b m xs → Rising m ys → Rising b (xs ++ ys)
  Rising-append b m [] ys w r = Rising-weaken m b ys w r
  Rising-append b m ((t, f, n) ∷ xs) ys w r = (w.0, Rising-append (suc t) m xs ys w.1 r)

  known_none :
      (same other : Bool) (o : Option P.Frame)
      → (same ≡ true → o ≡ none)
      → (if other then none else o) ≡ (if (if same then true else other) then none else o)
  known_none true true o h = refl
  known_none true false o h = h refl
  known_none false other o h = refl

  removed_none :
      (same other : Bool) (o : Option P.Frame)
      → (if other then none else (if same then none else o))
        ≡ (if (if same then true else other) then none else o)
  removed_none true true o = refl
  removed_none true false o = refl
  removed_none false other o = refl

  pop_keys-lookup :
      (j : ℕ) (ks : List ℕ) (cache : Cache P)
      → lookup j (pop_keys P ks cache).1 ≡ (if member j ks then none else lookup j cache)
  pop_keys-lookup j [] cache = refl
  pop_keys-lookup j (k ∷ ks) cache = elim (Option-cases (lookup k cache)) [
    | inl e ↦
        rw (pop_keys, e)
          (pop_keys-lookup j ks cache
            ∙ known_none (j == k) (member j ks) (lookup j cache)
                (λ same. ap (λ x. lookup x cache) ((==_iff j k).0 same) ∙ e))
    | inr (f, e) ↦
        rw (pop_keys, e)
          (pop_keys-lookup j ks (remove k cache)
            ∙ ap (λ o. if member j ks then none else o) (lookup-remove j k cache)
            ∙ removed_none (j == k) (member j ks) (lookup j cache))
  ]

  found_later :
      (t k : ℕ) (f : P.Frame) (cache : Cache P)
      → lookup t cache ≡ none
      → lookup k cache ≡ some f
      → t ≢ k
  found_later t k f cache gone e same = absent_found (sym gone ∙ ap (λ x. lookup x cache) same ∙ e)

  not_ready :
      (ready : Bool) (o : Option P.Frame)
      → is_some (if ready && is_some o then none else o) ≡ true
      → ready ≡ false
  not_ready true none h = sym h
  not_ready true (some f) h = sym h
  not_ready false o h = refl

  after_first :
      (j first : ℕ) (cache : Cache P)
      → is_some (lookup j (remove first cache)) ≡ true
      → (is_some (lookup j cache) ≡ true → first ≤ j)
      → suc first ≤ j
  after_first j first cache h low = ground (arith, lookup-remove j first cache)

  -- After the second `t` has gone.
  pop_keys-Within :
      (t m : ℕ) (ks : List ℕ) (cache : Cache P)
      → t < m
      → lookup t cache ≡ none
      → Sorted t m ks
      → Within (suc t) m (pop_keys P ks cache).0
  pop_keys-Within t m [] cache low gone s = omega (arith, low)
  pop_keys-Within t m (k ∷ ks) cache low gone s = elim (Option-cases (lookup k cache)) [
    | inl e ↦
        rw (pop_keys, e) (pop_keys-Within t m ks cache low gone (Sorted-weaken k t m ks s.0 s.2))
    | inr (f, e) ↦
        rw (pop_keys, e)
          (
            omega (arith, s.0, found_later t k f cache gone e),
            pop_keys-Within k m ks (remove k cache) s.1 (lookup-remove k k cache ∙ ground arith)
                s.2,
          )
  ]

  -- From the start.
  pop_keys-Within_all :
      (b m : ℕ) (ks : List ℕ) (cache : Cache P)
      → b ≤ m
      → Sorted b m ks
      → Within b m (pop_keys P ks cache).0
  pop_keys-Within_all b m [] cache low s = low
  pop_keys-Within_all b m (k ∷ ks) cache low s = elim (Option-cases (lookup k cache)) [
    | inl e ↦
        rw (pop_keys, e) (pop_keys-Within_all b m ks cache low (Sorted-weaken k b m ks s.0 s.2))
    | inr (f, e) ↦
        rw (pop_keys, e)
          (
            s.0,
            pop_keys-Within k m ks (remove k cache) s.1 (lookup-remove k k cache ∙ ground arith)
                s.2,
          )
  ]

  -- The seconds that are ready rise, and those that stay are no less than the limit.
  pub emit-Within :
      (b : ℕ) (recent : List (ℕ × ℕ)) (cache : Cache P)
      → let m = minimum (values recent) in
        b ≤ m → Above b cache → Within b m (emit P recent cache).0 × Above m (emit P recent cache).1
  unfolding emit
  emit-Within b recent cache low above =
      let m = minimum (values recent) in
      let ks = filterb (λ ts. ltb ts m) (keys cache) in
      (
        pop_keys-Within_all b m (sort_keys ks) cache low
            (sort_keys-Sorted b m ks (ready_within b m cache (Above-keys b cache above))),
        λ j h. ltb→le j m (
            not_ready (ltb j m) (lookup j cache) (
              ap is_some (
                sym (
                  pop_keys-lookup j (sort_keys ks) cache
                  ∙ ap (λ x. if x then none else lookup j cache)
                      (member-sort_keys j ks ∙ member_ready j m cache)))
              ∙ h)),
      )

  -- The end passes the rest on in order.
  pub drain-Rising : (k b : ℕ) (cache : Cache P) → Above b cache → Rising b (drain P k cache)
  drain-Rising zero b cache above = unfold drain in tt
  drain-Rising (suc k) b [] above = unfold drain in tt
  drain-Rising (suc k) b ((ts, f) ∷ cache) above =
      let first = least ts (keys cache) in
      let whole : Cache P = (ts, f) ∷ cache in
      let (g, e, round) = drain-suc P k ts f cache in
      subst (Rising b) (sym round) (
        above first (ap is_some e),
        drain-Rising k (suc first) (remove first whole)
            (λ j h. after_first j first whole h (λ there. least_le_whole j ts f cache there)),
      )
