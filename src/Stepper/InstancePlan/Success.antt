-- ===== src/Stepper/InstancePlan/Success.antt =====
-- Which steps of an instance schedule can be added.
use native.Mathlib.Nat.{div-add-mod}
use yandex_tank.Prelude.{
  ℕ, zero, suc, ◌+◌, ◌-◌, ◌*◌, ◌/◌, ◌%◌, ◌≤◌, ◌<◌, [], ◌∷◌, ◌++◌, ◌==◌, ◌≡◌, refl, ◌∙◌, inl, inr,
  Bool-cases, arith,
}
use yandex_tank.Prelude.Int.{pos, ◌+ℤ◌, ◌-ℤ◌}
use yandex_tank.Prelude.Result.{ok}
use yandex_tank.Numbers.{Numbers}
use yandex_tank.Stepper.InstancePlan.{
  Builder, repeat, start, wait, const, stairs, step_count, last_stair, stairway, interval_of, ramp,
  line, Step, ramp_step, const_step, line_step, stairs_step, wait_step, start_step, add_step,
}

difference : (i k : ℕ) → i ≤ k → pos k -ℤ pos i ≡ pos (k - i)
unfolding ◌-ℤ◌
difference i k h = ground (arith, h)

started : ℕ → Builder → Builder
started k b = record b {
  generators = b.generators ++ repeat b.duration k ∷ [];
  instances = b.instances + k;
}

start-succeeds : (i k : ℕ) (b : Builder) → i ≤ k → start (pos k -ℤ pos i) b ≡ ok (started (k - i) b)
unfolding start started
start-succeeds i k b h = rw (difference i k h) refl

stairs-succeeds :
    (count m d : ℕ) (b : Builder)
    → (b' : Builder) × (stairs count m d b ≡ ok b') × (b'.instances ≡ b.instances + count * m)
unfolding stairs start wait
stairs-succeeds zero m d b = (b, refl, omega arith)
stairs-succeeds (suc k) m d b =
    let next = started m (wait d b) in
    let (b', e, total) = stairs-succeeds k m d (record b {
      generators = b.generators ++ repeat (b.duration + d) m ∷ [];
      steps = b.steps ++ (b.instances, d / 1000) ∷ [];
      instances = b.instances + m;
      duration = b.duration + d;
    }) in
    (b', e, total ∙ grind arith)

last_stair-succeeds :
    (k d : ℕ) (b : Builder) → b.instances ≤ k → (b' : Builder) × (last_stair k d b ≡ ok b')
unfolding last_stair wait
last_stair-succeeds k d b h = elim (Bool-cases (k == b.instances)) [
  | inl same ↦ (b, rw same refl)
  | inr other ↦ (
    started (k - b.instances) (wait d b),
    rw (other, start-succeeds b.instances k (wait d b) h) refl,
  )
]

multiple : (q r i k m : ℕ) → suc m * q + r ≡ k - i → i ≤ k → i + q * suc m ≤ k
multiple q r i k m e h = grind arith

whole_stairs : (i k m : ℕ) → i ≤ k → i + (k - i) / suc m * suc m ≤ k
whole_stairs i k m h =
    multiple ((k - i) / suc m) ((k - i) % suc m) i k m (div-add-mod (k - i) (suc m)) h

stairway-succeeds :
    (i k m d : ℕ) (b : Builder)
    → b.instances ≤ i
    → i ≤ k
    → (b' : Builder) × (stairway i k (suc m) d b ≡ ok b')
unfolding stairway step_count started
stairway-succeeds i k m d b h h' =
    let b₁ = started (i - b.instances) b in
    let (b₂, e₂, total) = stairs-succeeds ((k - i) / suc m) (suc m) d b₁ in
    let (b₃, e₃) = last_stair-succeeds k d b₂ (omega (arith, total, whole_stairs i k m h')) in
    (wait d b₃, rw (start-succeeds b.instances i b h, e₂, e₃) refl)

-- What a step needs: not fewer instances than are planned, a stairway with stairs that go up, and
-- more than one instance on a ramp. No step "start" fits.
abbrev pub Fits : Step → Builder → Type 0
Fits (const_step k d) b = b.instances ≤ k
Fits (line_step i k d) b = (b.instances < i) × (i < k)
Fits (stairs_step i k m d) b = (0 < m) × (b.instances ≤ i) × (i ≤ k)
Fits (ramp_step k d) b = 1 < k
Fits (wait_step d) b = Unit
Fits (start_step k) b = ⊥

ramp-succeeds :
    (F : Type 0) ⦃n : Numbers F⦄ (k d : ℕ) (b : Builder)
    → 1 < k
    → (b' : Builder) × (ramp F (pos k) d b ≡ ok b')
unfolding ramp interval_of
ramp-succeeds F zero d b h = ground (arith, h)
ramp-succeeds F (suc zero) d b h = ground (arith, h)
ramp-succeeds F (suc (suc k)) d b h = (_, refl)

up_to : (i b₀ : ℕ) → b₀ < i → pos i -ℤ pos b₀ -ℤ pos 1 ≡ pos (i - b₀ - 1)
unfolding ◌-ℤ◌
up_to i b₀ h = ground (arith, h)

on_ramp : (i k : ℕ) → i < k → pos k -ℤ pos i +ℤ pos 1 ≡ pos (k - i + 1)
unfolding ◌-ℤ◌ ◌+ℤ◌
on_ramp i k h = ground (arith, h)

line-succeeds :
    (F : Type 0) ⦃n : Numbers F⦄ (i k d : ℕ) (b : Builder)
    → b.instances < i
    → i < k
    → (b' : Builder) × (line F i k d b ≡ ok b')
unfolding line start started
line-succeeds F i k d b h h' =
    let (b', e) = ramp-succeeds F (k - i + 1) d (started (i - b.instances - 1) b) (omega arith) in
    (b', rw (up_to i b.instances h, on_ramp i k h', e) refl)

-- A step can be added whenever it asks for no fewer instances than are planned already, a stairway
-- goes up by stairs of at least one instance, a line goes up from above what is planned, and a ramp
-- has at least two instances. A step "wait" can always be added.
pub add_step-succeeds :
    (F : Type 0) ⦃n : Numbers F⦄ (s : Step) (b : Builder)
    → Fits s b
    → (b' : Builder) × (add_step F s b ≡ ok b')
unfolding add_step const wait started
add_step-succeeds F (const_step k d) b h =
    (wait d (started (k - b.instances) b), rw (start-succeeds b.instances k b h) refl)
add_step-succeeds F (line_step i k d) b h = line-succeeds F i k d b h.0 h.1
add_step-succeeds F (stairs_step i k zero d) b h = ground (arith, h.0)
add_step-succeeds F (stairs_step i k (suc m) d) b h = stairway-succeeds i k m d b h.1 h.2
add_step-succeeds F (ramp_step k d) b h = ramp-succeeds F k d b h
add_step-succeeds F (wait_step d) b h = (wait d b, refl)
add_step-succeeds F (start_step k) b h = elim h [ ]
