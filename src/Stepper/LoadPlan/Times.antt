-- ===== src/Stepper/LoadPlan/Times.antt =====
-- The order of the times of a composite plan.
use mathlib.Core.Path.{subst}
use yandex_tank.Prelude.{ℕ, ◌+◌, ◌≤◌, List, [], ◌∷◌, ◌++◌, map, All, ◌≡◌, refl, arith}
use yandex_tank.Prelude.Result.{ok}
use yandex_tank.Stepper.LoadPlan.{Plan, composite_times, total, composite}

-- Times in order, none before `b` and none after `d`.
abbrev pub Between : ℕ → ℕ → List ℕ → Type 0
Between b d [] = b ≤ d
Between b d (t ∷ ts) = (b ≤ t) × Between t d ts

-- A step whose times are in order, within its duration.
abbrev pub InStep : {F : Type 0} → Plan F → Type 0
InStep p = (ts : List ℕ) × (p.times ≡ ok ts) × Between 0 p.duration ts

zero_add : (k : ℕ) → 0 + k ≡ k
zero_add k = omega arith

swapped : (a b : ℕ) → a + b ≡ b + a
swapped a b = omega arith

regroup : (a b c : ℕ) → a + b + c ≡ a + (b + c)
regroup a b c = omega arith

Between-shift :
    (k b d : ℕ) (ts : List ℕ) → Between b d ts → Between (b + k) (d + k) (map (λ t. t + k) ts)
Between-shift k b d [] h = omega (arith, h)
Between-shift k b d (t ∷ ts) h = (omega (arith, h.0), Between-shift k t d ts h.1)

Between-weaken : (b c d : ℕ) (ts : List ℕ) → c ≤ b → Between b d ts → Between c d ts
Between-weaken b c d [] low h = omega (arith, low, h)
Between-weaken b c d (t ∷ ts) low h = (omega (arith, low, h.0), h.1)

Between-append :
    (b m d : ℕ) (xs ys : List ℕ) → Between b m xs → Between m d ys → Between b d (xs ++ ys)
Between-append b m d [] ys h later = Between-weaken m b d ys h later
Between-append b m d (x ∷ xs) ys h later = (h.0, Between-append x m d xs ys h.1 later)

composite_times-Between :
    {F : Type 0} (base : ℕ) (steps : List (Plan F))
    → All InStep steps
    → (ts : List ℕ) × (composite_times base steps ≡ ok ts)
      × Between base (base + total (λ p. p.duration) steps) ts
unfolding composite_times
composite_times-Between base [] fits = ([], refl, omega arith)
composite_times-Between base (p ∷ ps) ((xs, e, fit), fits) =
    let (ys, e', later) = composite_times-Between (base + p.duration) ps fits in
    let d = p.duration in
    let rest = total (λ q. q.duration) ps in
    let here : Between base (base + d) (map (λ t. t + base) xs) =
      subst (λ x. Between x (base + d) (map (λ t. t + base) xs)) (zero_add base)
        (subst (λ x. Between (0 + base) x (map (λ t. t + base) xs)) (swapped d base)
          (Between-shift base 0 d xs fit)) in
    (
      map (λ t. t + base) xs ++ ys,
      rw (composite_times, e, e') refl,
      subst (λ x. Between base x (map (λ t. t + base) xs ++ ys)) (regroup base d rest)
          (Between-append base (base + d) (base + d + rest) (map (λ t. t + base) xs) ys here later),
    )

-- When the times of each step are in order and within the step's duration, those of the composite
-- plan are in order and within the sum of the durations.
pub composite-InStep :
    {F : Type 0} (steps : List (Plan F)) → All InStep steps → InStep (composite steps)
unfolding composite
composite-InStep steps fits =
    let d = total (λ p. p.duration) steps in
    let (ts, e, between) = composite_times-Between 0 steps fits in
    (ts, e, subst (λ x. Between 0 x ts) (zero_add d) between)
