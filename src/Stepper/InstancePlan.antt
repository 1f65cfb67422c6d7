-- ===== src/Stepper/InstancePlan.antt =====
-- `LoadPlanBuilder` of stepper/instance_plan.py: when each instance starts, in milliseconds. The
-- arguments are the numbers that `add_step` reads from a step of the schedule.
pub mod Laws
pub mod Success
use yandex_tank.Prelude.{
  ℕ, zero, suc, ◌+◌, ◌-◌, ◌/◌, none, some, List, [], ◌∷◌, ◌++◌, ◌==◌, if◌then◌else◌, get_elem?,
}
use yandex_tank.Prelude.Int.{ℤ, pos, negsuc, ◌+ℤ◌, ◌-ℤ◌}
use yandex_tank.Prelude.Result.{
  Result, ok, err, ◌>>=◌, configuration_error, type_error, zero_division_error,
}
use yandex_tank.Numbers.{Numbers}

pub record Builder : Type 0 where
  pub generators : List (List ℕ)
  pub steps : List (ℕ × ℕ)
  pub instances : ℕ
  pub duration : ℕ

abbrev pub new_builder : Builder
new_builder = record { generators = []; steps = []; instances = 0; duration = 0 }

-- `itertools.repeat(x, count)`
abbrev pub repeat : ℕ → ℕ → List ℕ
repeat x zero = []
repeat x (suc k) = x ∷ repeat x k

-- `[f(i) for i in range(from, from + count)]`
abbrev pub tabulate {ℓ} : {A : Type ℓ} → (ℕ → A) → (from count : ℕ) → List A
tabulate f from zero = []
tabulate f from (suc count) = f from ∷ tabulate f (suc from) count

abbrev pub concat : List (List ℕ) → List ℕ
concat [] = []
concat (xs ∷ rest) = xs ++ concat rest

unfoldable pub start : ℤ → Builder → Result Builder
start (negsuc k) b = err configuration_error
start (pos count) b = ok (record b {
  generators = b.generators ++ repeat b.duration count ∷ [];
  instances = b.instances + count;
})

unfoldable pub wait : ℕ → Builder → Builder
wait duration b = record b {
  duration = b.duration + duration;
  steps = b.steps ++ (b.instances, duration / 1000) ∷ [];
}

unfoldable pub const : (instances duration : ℕ) → Builder → Result Builder
const instances duration b =
    start (pos instances -ℤ pos b.instances) b >>= λ b'. ok (wait duration b')

-- the loop of `stairway`: so many times `wait(step_duration).start(step_size)`
unfoldable pub stairs : (count step_size step_duration : ℕ) → Builder → Result Builder
unfolding start wait
stairs zero step_size step_duration b = ok b
stairs (suc k) step_size step_duration b =
    start (pos step_size) (wait step_duration b) >>= stairs k step_size step_duration

-- `(final - initial) // step_size` where that is positive; the loop has no round otherwise
unfoldable pub step_count : (initial final step_size : ℕ) → Result ℕ
step_count initial final zero = err zero_division_error
step_count initial final (suc k) = ok ((final - initial) / suc k)

-- the last stair, which may be lower
unfoldable pub last_stair : (final step_duration : ℕ) → Builder → Result Builder
unfolding start wait
last_stair final step_duration b =
    if final == b.instances
    then ok b
    else start (pos final -ℤ pos b.instances) (wait step_duration b)

unfoldable pub stairway : (initial final step_size step_duration : ℕ) → Builder → Result Builder
stairway initial final step_size step_duration b = step_count initial final step_size >>= λ count.
    start (pos initial -ℤ pos b.instances) b >>= λ b₁.
    stairs count step_size step_duration b₁ >>= λ b₂.
    last_stair final step_duration b₂ >>= λ b₃. ok (wait step_duration b₃)

-- `create`: the timestamps, and then zeros without end
unfoldable pub create : Builder → ℕ → ℕ
create b i = elim (get_elem? (concat b.generators) i) [ none ↦ 0 | some ts ↦ ts ]

module _ {F : Type 0} ⦃n : Numbers F⦄ where
  -- `float(duration) / (count - 1)`
  unfoldable pub interval_of : (count duration : ℕ) → Result F
  interval_of zero duration = ok (n.quot (n.of_ℕ duration) (n.sub (n.of_ℕ 0) (n.of_ℕ 1)))
  interval_of (suc zero) duration = err zero_division_error
  interval_of (suc (suc k)) duration = ok (n.quot (n.of_ℕ duration) (n.of_ℕ (suc k)))

-- `start(5)` never starts an instance: `add_step` passes the tuple `groups()` itself to `int`.
pub data Step : Type 0 where
  ramp_step const_step : (instances duration : ℕ) → Step
  line_step : (initial final duration : ℕ) → Step
  stairs_step : (initial final size duration : ℕ) → Step
  wait_step start_step : ℕ → Step

module _ (F : Type 0) ⦃n : Numbers F⦄ where
  unfoldable pub ramp : ℤ → (duration : ℕ) → Builder → Result Builder
  ramp (negsuc k) duration b = err configuration_error
  ramp (pos count) duration b = interval_of {F = F} count duration >>= λ interval.
      let ts = λ (i : ℕ). n.trunc (n.add (n.of_ℕ b.duration) (n.mul (n.of_ℕ i) interval)) in
      let pause = n.trunc (n.quot interval (n.of_ℕ 1000)) in
      ok (record {
        generators = b.generators ++ tabulate ts 0 count ∷ [];
        steps = b.steps ++ tabulate (λ i. (b.instances + i + 1, pause)) 0 count;
        instances = b.instances + count;
        duration = b.duration + duration;
      })

  unfoldable pub line : (initial final duration : ℕ) → Builder → Result Builder
  line initial final duration b = start (pos initial -ℤ pos b.instances -ℤ pos 1) b >>= λ b'.
      ramp (pos final -ℤ pos initial +ℤ pos 1) duration b'

  -- A step of the schedule, with the numbers that its pattern finds in it.
  unfoldable pub add_step : Step → Builder → Result Builder
  unfolding const wait stairway
  add_step (ramp_step count duration) = ramp (pos count) duration
  add_step (const_step instances duration) = const instances duration
  add_step (line_step initial final duration) = line initial final duration
  add_step (stairs_step initial final size duration) = stairway initial final size duration
  add_step (wait_step duration) = λ b. ok (wait duration b)
  add_step (start_step count) = λ b. err type_error

  unfoldable pub add_all_steps : List Step → Builder → Result Builder
  unfolding add_step
  add_all_steps [] b = ok b
  add_all_steps (s ∷ rest) b = add_step s b >>= add_all_steps rest
