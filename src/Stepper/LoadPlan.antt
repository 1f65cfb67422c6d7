-- ===== src/Stepper/LoadPlan.antt =====
-- The load plans of stepper/load_plan.py: when each request is sent, in milliseconds. A plan stands
-- by what its `__iter__`, `get_duration`, `__len__` and `get_rps_list` return.
pub mod Times
pub mod Parsing
mod Tests
use yandex_tank.Prelude.{ℕ, suc, ◌+◌, List, [], ◌∷◌, ◌++◌, map, ◌==◌, ◌&&◌, if◌then◌else◌}
use yandex_tank.Prelude.Result.{Result, ok, err, zero_division_error, ◌>>=◌, map_ok}
use yandex_tank.Numbers.{Numbers, is_zero, divide, square_root}
use yandex_tank.Stepper.InstancePlan.{tabulate}

-- `rps_list` is the rps with how many seconds it lasts.
pub record Plan (F : Type 0) : Type 0 where
  pub times : Result (List ℕ)
  pub duration : ℕ
  pub count : ℕ
  pub rps_list : List (ℕ × F)

-- `Composite.__iter__`
unfoldable pub composite_times : {F : Type 0} (base : ℕ) → List (Plan F) → Result (List ℕ)
composite_times base [] = ok []
composite_times base (p ∷ ps) = p.times >>= λ ts.
    composite_times (base + p.duration) ps >>= λ later. ok (map (λ t. t + base) ts ++ later)

abbrev concat_map : {A B : Type 0} → (A → List B) → List A → List B
concat_map f [] = []
concat_map f (a ∷ rest) = f a ++ concat_map f rest

abbrev pub total : {F : Type 0} → (Plan F → ℕ) → List (Plan F) → ℕ
total of_plan [] = 0
total of_plan (p ∷ ps) = of_plan p + total of_plan ps

unfoldable pub composite : {F : Type 0} → List (Plan F) → Plan F
composite steps = record {
  times = composite_times 0 steps;
  duration = total (λ p. p.duration) steps;
  count = total (λ p. p.count) steps;
  rps_list = concat_map (λ p. p.rps_list) steps;
}

-- The runs of equal numbers that `groupby` gives, with their lengths.
unfoldable pub runs : List ℕ → List (ℕ × ℕ)
runs [] = []
runs (x ∷ xs) = elim (runs xs) [
  | [] ↦ (x, 1) ∷ []
  | (y, k) ∷ later ↦ if x == y then (y, suc k) ∷ later else (x, 1) ∷ (y, k) ∷ later
]

module _ {F : Type 0} ⦃n : Numbers F⦄ where
  -- `int(i * interval)` for each request
  unfoldable pub const_times : (rps : F) (duration : ℕ) → List ℕ
  const_times rps duration =
      if is_zero rps
      then []
      else let interval = n.quot (n.of_ℕ 1000) rps in
        let requests = n.trunc (n.quot (n.mul rps (n.of_ℕ duration)) (n.of_ℕ 1000)) in
        tabulate (λ i. n.trunc (n.mul (n.of_ℕ i) interval)) 0 requests

  -- Const, whose length is computed in another order than its number of times
  unfoldable pub const_plan : (rps : F) (duration : ℕ) → Plan F
  const_plan rps duration = record {
    times = ok (const_times rps duration);
    duration = duration;
    count = n.trunc (n.mul (n.quot (n.of_ℕ duration) (n.of_ℕ 1000)) rps);
    rps_list = (n.trunc rps, n.quot (n.of_ℕ duration) (n.of_ℕ 1000)) ∷ [];
  }

  abbrev neg : F → F
  neg x = n.sub (n.of_ℕ 0) x

  -- the second root of `solve_quadratic`; both have the divisor
  unfoldable pub solve_quadratic : (a b c : F) → Result F
  solve_quadratic a b c = square_root (n.sub (n.mul b b) (n.mul (n.mul (n.of_ℕ 4) a) c)) >>= λ disc.
      divide (n.add (neg b) disc) (n.mul (n.of_ℕ 2) a)

  -- `except ZeroDivisionError`
  abbrev or_else : Result F → Result F → Result F
  or_else (ok r) other = ok r
  or_else (err zero_division_error) other = other
  or_else (err e) other = err e

  -- `Line.ts`
  unfoldable pub line_ts : (minrps slope : F) → ℕ → Result ℕ
  line_ts minrps slope i =
      or_else (solve_quadratic (n.quot slope (n.of_ℕ 2)) minrps (neg (n.of_ℕ i)))
        (divide (n.of_ℕ i) minrps)
      >>= λ r. ok (n.trunc (n.mul r (n.of_ℕ 1000)))

  -- `Line.rps_at`; `seconds` is the attribute `duration`, which is not zero
  unfoldable pub line_rps_at : (minrps maxrps seconds t : F) → F
  line_rps_at minrps maxrps seconds t =
      if n.le (n.of_ℕ 0) t && n.le t seconds
      then n.add minrps (n.quot (n.mul (n.sub maxrps minrps) t) seconds)
      else n.of_ℕ 0

  -- `proper_round`, for x that is not negative
  unfoldable pub proper_round : F → ℕ
  proper_round x =
      if is_zero x
      then 0
      else let half = n.quot (n.of_ℕ 1) (n.of_ℕ 2) in
        n.trunc x + (if n.le half (n.sub x (n.of_ℕ (n.trunc x))) then 1 else 0)

  -- `Line.get_rps_list`
  unfoldable pub line_rps_list : (minrps maxrps seconds : F) → List (ℕ × F)
  line_rps_list minrps maxrps seconds =
      let rps_of = λ (t : ℕ). proper_round (line_rps_at minrps maxrps seconds (n.of_ℕ t)) in
      map (λ (rps, times). (rps, n.of_ℕ times))
        (runs (map rps_of (tabulate (λ i. i) 0 (suc (n.trunc seconds)))))

  unfoldable pub line_plan : (minrps maxrps : F) (duration : ℕ) → Result (Plan F)
  line_plan minrps maxrps duration =
      let seconds = n.quot (n.of_ℕ duration) (n.of_ℕ 1000) in
      divide (n.sub maxrps minrps) seconds >>= λ slope.
      let requests = n.trunc (n.mul (n.quot (n.add maxrps minrps) (n.of_ℕ 2)) seconds) in
      ok (record {
        times = map_ok (line_ts minrps slope) (tabulate (λ i. i) 0 requests);
        duration = n.trunc (n.mul seconds (n.of_ℕ 1000));
        count = requests;
        rps_list = line_rps_list minrps maxrps seconds;
      })

  -- the last stair of Stairway, if the others do not reach the end
  unfoldable pub last_step : (increment reached maxrps : F) (duration : ℕ) → List (Plan F)
  last_step increment reached maxrps duration =
      if n.lt (n.of_ℕ 0) increment
      then (if n.lt reached maxrps then const_plan maxrps duration ∷ [] else [])
      else if n.lt increment (n.of_ℕ 0)
      then (if n.lt maxrps reached then const_plan maxrps duration ∷ [] else [])
      else []

  unfoldable pub stairway_plan : (minrps maxrps increment : F) (duration : ℕ) → Result (Plan F)
  stairway_plan minrps maxrps increment duration =
      let step = if n.lt maxrps minrps then neg increment else increment in
      divide (n.sub maxrps minrps) step >>= λ steps.
      let stairs = n.trunc steps in
      let rps_of = λ (i : ℕ). n.add minrps (n.mul (n.of_ℕ i) step) in
      ok (
        composite (
          tabulate (λ i. const_plan (rps_of i) duration) 0 (suc stairs)
          ++ last_step step (rps_of stairs) maxrps duration))
