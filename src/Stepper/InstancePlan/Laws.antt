-- ===== src/Stepper/InstancePlan/Laws.antt =====
-- The start times and the number of instances of a schedule.
use mathlib.Core.Path.{subst}
use yandex_tank.Prelude.{
  ℕ, zero, suc, ◌+◌, Option, none, some, List, [], ◌∷◌, ◌++◌, ◌==◌, ==_iff, length, length-append,
  get_elem?, ◌≤◌, ◌≡◌, refl, sym, ap, ◌∙◌, inl, inr, Bool-cases, arith,
}
use yandex_tank.Prelude.Int.{ℤ, pos, negsuc, pos_part, neg_part, ◌+ℤ◌, ◌-ℤ◌, -ℤ_parts, +ℤ_parts}
use yandex_tank.Prelude.Result.{ok, >>=-eq-ok}
use yandex_tank.Numbers.{Numbers}
use yandex_tank.Stepper.InstancePlan.{
  Builder, new_builder, repeat, tabulate, concat, start, wait, const, stairs, step_count,
  last_stair, stairway, create, interval_of, ramp, line, Step, ramp_step, const_step, line_step,
  stairs_step, wait_step, start_step, add_step, add_all_steps,
}

-- Every instance has one start time.
abbrev pub Counted : Builder → Type 0
Counted b = length (concat b.generators) ≡ b.instances

length-repeat : (x k : ℕ) → length (repeat x k) ≡ k
length-repeat x zero = refl
length-repeat x (suc k) = omega (arith, length-repeat x k)

length-tabulate : (f : ℕ → ℕ) (from k : ℕ) → length (tabulate f from k) ≡ k
length-tabulate f from zero = refl
length-tabulate f from (suc k) = omega (arith, length-tabulate f (suc from) k)

length-concat_snoc :
    (g : List (List ℕ)) (xs : List ℕ)
    → length (concat (g ++ xs ∷ [])) ≡ length (concat g) + length xs
length-concat_snoc [] xs = omega (arith, length-append xs [])
length-concat_snoc (ys ∷ g) xs = omega (
  arith,
  length-concat_snoc g xs,
  length-append ys (concat g),
  length-append ys (concat (g ++ xs ∷ [])),
)

-- What each operation makes of a builder, where it succeeds.
record Becomes (b b' : Builder) (instances : ℤ) (duration : ℕ) : Type 0 where
  counted : Counted b → Counted b'
  reached : pos b'.instances ≡ instances
  lasted : b'.duration ≡ duration

pos_of : {a b : ℕ} → pos a ≡ pos b → a ≡ b
pos_of e = ap pos_part e

ok_same : {A : Type 0} {a b : A} → ok a ≡ ok b → a ≡ b
ok_same e = cc

some_same : {A : Type 0} {a b : A} → some a ≡ some b → a ≡ b
some_same e = cc

-- adding a list of `k` start times
counted_more :
    (g : List (List ℕ)) (xs : List ℕ) (i k : ℕ)
    → length xs ≡ k
    → length (concat g) ≡ i
    → length (concat (g ++ xs ∷ [])) ≡ i + k
counted_more g xs i k e h = omega (arith, length-concat_snoc g xs)

sum_pos : (i k : ℕ) → pos (i + k) ≡ pos i +ℤ pos k
unfolding ◌+ℤ◌
sum_pos i k = ground arith

start-Becomes :
    (k : ℤ) (b b' : Builder) → start k b ≡ ok b' → Becomes b b' (pos b.instances +ℤ k) b.duration
unfolding start
start-Becomes (negsuc k) b b' h = cc
start-Becomes (pos k) b b' h =
    let made = record b {
      generators = b.generators ++ repeat b.duration k ∷ [];
      instances = b.instances + k;
    } in
    let r : Becomes b made (pos b.instances +ℤ pos k) b.duration = record {
      counted = λ c.
          counted_more b.generators (repeat b.duration k) b.instances k (length-repeat b.duration k)
            c;
      reached = sum_pos b.instances k;
      lasted = refl;
    } in
    subst (λ x. Becomes b x (pos b.instances +ℤ pos k) b.duration) {x = made} {y = b'} (ok_same h) r

wait-Becomes : (d : ℕ) (b : Builder) → Becomes b (wait d b) (pos b.instances) (b.duration + d)
unfolding wait
wait-Becomes d b = record { counted = λ h. h; reached = refl; lasted = refl }

ramp-Becomes :
    (F : Type 0) ⦃n : Numbers F⦄ (k : ℤ) (d : ℕ) (b b' : Builder)
    → ramp F k d b ≡ ok b'
    → Becomes b b' (pos b.instances +ℤ k) (b.duration + d)
unfolding ramp
ramp-Becomes F (negsuc k) d b b' h = cc
ramp-Becomes F ⦃n⦄ (pos k) d b b' h =
    let (interval, e, same) = >>=-eq-ok (interval_of {F = F} k d) _ h in
    let ts = λ (i : ℕ). n.trunc (n.add (n.of_ℕ b.duration) (n.mul (n.of_ℕ i) interval)) in
    subst (λ x. Becomes b x (pos b.instances +ℤ pos k) (b.duration + d)) {y = b'} (ok_same same)
      (record {
        counted = λ c.
            counted_more b.generators (tabulate ts 0 k) b.instances k (length-tabulate ts 0 k) c;
        reached = sum_pos b.instances k;
        lasted = refl;
      })

-- starting what is missing gives the number asked for
fill : (i k l : ℕ) → pos l ≡ pos i +ℤ (pos k -ℤ pos i) → l ≡ k
fill i k l e = omega (
  arith,
  ap pos_part e,
  ap neg_part e,
  +ℤ_parts (pos i) (pos k -ℤ pos i),
  -ℤ_parts (pos k) (pos i),
)

const-sets :
    (k d : ℕ) (b b' : Builder)
    → const k d b ≡ ok b'
    → (b'.instances ≡ k) × (b'.duration ≡ b.duration + d) × (Counted b → Counted b')
unfolding const wait
const-sets k d b b' h =
    let (b₁, e, same) = >>=-eq-ok (start (pos k -ℤ pos b.instances) b) _ h in
    let started = start-Becomes _ b b₁ e in
    rw (← ok_same same) (
      fill b.instances k b₁.instances started.reached,
      ap (λ x. x + d) started.lasted,
      started.counted,
    )

stairs-Counted : (k m d : ℕ) (b b' : Builder) → stairs k m d b ≡ ok b' → Counted b → Counted b'
unfolding stairs
stairs-Counted zero m d b b' h c = rw (← ok_same h) c
stairs-Counted (suc k) m d b b' h c =
    let (b₁, e, later) = >>=-eq-ok (start (pos m) (wait d b)) (stairs k m d) h in
    let started = start-Becomes (pos m) (wait d b) b₁ e in
    stairs-Counted k m d b₁ b' later (started.counted ((wait-Becomes d b).counted c))

last_stair-sets :
    (k d : ℕ) (b b' : Builder)
    → last_stair k d b ≡ ok b'
    → (b'.instances ≡ k) × (Counted b → Counted b')
unfolding last_stair
last_stair-sets k d b b' h = elim (Bool-cases (k == b.instances)) [
  | inl same ↦
      let stays : b ≡ b' = ok_same (rw same at h) in
      rw (← stays) (sym ((==_iff k b.instances).0 same), λ c. c)
  | inr other ↦
      let started = start-Becomes (pos k -ℤ pos b.instances) (wait d b) b' (rw other at h) in
      let waited = wait-Becomes d b in
      (
        fill b.instances k b'.instances (started.reached ∙ rw waited.reached refl),
        λ c. started.counted (waited.counted c),
      )
]

stairway-sets :
    (i k m d : ℕ) (b b' : Builder)
    → stairway i k m d b ≡ ok b'
    → (b'.instances ≡ k) × (Counted b → Counted b')
unfolding stairway
stairway-sets i k m d b b' h =
    let (count, _, h₁) = >>=-eq-ok (step_count i k m) _ h in
    let (b₁, e₁, h₂) = >>=-eq-ok (start (pos i -ℤ pos b.instances) b) _ h₁ in
    let (b₂, e₂, h₃) = >>=-eq-ok (stairs count m d b₁) _ h₂ in
    let (b₃, e₃, same) = >>=-eq-ok (last_stair k d b₂) _ h₃ in
    let (reached, counted) = last_stair-sets k d b₂ b₃ e₃ in
    let waited = wait-Becomes d b₃ in
    rw (← ok_same same) (
      pos_of waited.reached ∙ reached,
      λ c.
          waited.counted
            (counted (stairs-Counted count m d b₁ b₂ e₂ ((start-Becomes _ b b₁ e₁).counted c))),
    )

line_fill :
    (i k b₀ b₁ b₂ : ℕ)
    → pos b₁ ≡ pos b₀ +ℤ (pos i -ℤ pos b₀ -ℤ pos 1)
    → pos b₂ ≡ pos b₁ +ℤ (pos k -ℤ pos i +ℤ pos 1)
    → b₂ ≡ k
line_fill i k b₀ b₁ b₂ e e' = omega (
  arith,
  ap pos_part e,
  ap neg_part e,
  ap pos_part e',
  ap neg_part e',
  +ℤ_parts (pos b₀) (pos i -ℤ pos b₀ -ℤ pos 1),
  -ℤ_parts (pos i -ℤ pos b₀) (pos 1),
  -ℤ_parts (pos i) (pos b₀),
  +ℤ_parts (pos b₁) (pos k -ℤ pos i +ℤ pos 1),
  +ℤ_parts (pos k -ℤ pos i) (pos 1),
  -ℤ_parts (pos k) (pos i),
)

line-sets :
    (F : Type 0) ⦃n : Numbers F⦄ (i k d : ℕ) (b b' : Builder)
    → line F i k d b ≡ ok b'
    → (b'.instances ≡ k) × (b'.duration ≡ b.duration + d) × (Counted b → Counted b')
unfolding line
line-sets F i k d b b' h =
    let (b₁, e, later) = >>=-eq-ok (start (pos i -ℤ pos b.instances -ℤ pos 1) b) _ h in
    let started = start-Becomes _ b b₁ e in
    let ramped = ramp-Becomes F _ d b₁ b' later in
    (
      line_fill i k b.instances b₁.instances b'.instances started.reached ramped.reached,
      ramped.lasted ∙ ap (λ x. x + d) started.lasted,
      λ c. ramped.counted (started.counted c),
    )

length_get : (xs : List ℕ) (i : ℕ) → length xs ≤ i → get_elem? xs i ≡ none
length_get [] i h = refl
length_get (x ∷ xs) zero h = ground (arith, h)
length_get (x ∷ xs) (suc i) h = length_get xs i (omega (arith, h))

add_step-Counted :
    (F : Type 0) ⦃n : Numbers F⦄ (s : Step) (b b' : Builder)
    → add_step F s b ≡ ok b'
    → Counted b
    → Counted b'
unfolding add_step
add_step-Counted F (ramp_step k d) b b' h = (ramp-Becomes F (pos k) d b b' h).counted
add_step-Counted F (const_step k d) b b' h = (const-sets k d b b' h).2
add_step-Counted F (line_step i k d) b b' h = (line-sets F i k d b b' h).2
add_step-Counted F (stairs_step i k m d) b b' h = (stairway-sets i k m d b b' h).1
add_step-Counted F (wait_step d) b b' h = λ c. rw (← ok_same h) ((wait-Becomes d b).counted c)
add_step-Counted F (start_step k) b b' h = cc

all-Counted :
    (F : Type 0) ⦃n : Numbers F⦄ (ss : List Step) (b b' : Builder)
    → add_all_steps F ss b ≡ ok b'
    → Counted b
    → Counted b'
unfolding add_all_steps
all-Counted F [] b b' h c = rw (← ok_same h) c
all-Counted F (s ∷ ss) b b' h c =
    let (b₁, e, later) = >>=-eq-ok (add_step F s b) (add_all_steps F ss) h in
    all-Counted F ss b₁ b' later (add_step-Counted F s b b₁ e c)

-- Whatever steps an instance schedule has, if all of them are added then the load plan has one start
-- time for each instance of its total, and after those it gives zeros without end.
pub add_all_steps-Counted :
    (F : Type 0) ⦃n : Numbers F⦄ (ss : List Step) (b : Builder) (i : ℕ)
    → add_all_steps F ss new_builder ≡ ok b
    → b.instances ≤ i
    → Counted b × (create b i ≡ 0)
unfolding create
add_all_steps-Counted F ss b i h past =
    let counted = all-Counted F ss new_builder b h refl in
    (counted, rw (create, length_get (concat b.generators) i (omega (arith, counted, past))) refl)

-- The number of instances that a step of the schedule names, if it names one.
abbrev pub target : Step → Option ℕ
target (const_step k d) = some k
target (line_step i k d) = some k
target (stairs_step i k m d) = some k
target s = none

-- A step "const", "line" or "step" that is added without an exception leaves as many instances
-- planned as its last number of instances says, whatever was planned before.
pub add_step-target :
    (F : Type 0) ⦃n : Numbers F⦄ (s : Step) (b b' : Builder) (k : ℕ)
    → add_step F s b ≡ ok b'
    → target s ≡ some k
    → b'.instances ≡ k
unfolding add_step
add_step-target F (const_step i d) b b' k h e = (const-sets i d b b' h).0 ∙ some_same e
add_step-target F (line_step i j d) b b' k h e = (line-sets F i j d b b' h).0 ∙ some_same e
add_step-target F (stairs_step i j m d) b b' k h e = (stairway-sets i j m d b b' h).0 ∙ some_same e
add_step-target F (ramp_step j d) b b' k h e = cc
add_step-target F (wait_step d) b b' k h e = cc
add_step-target F (start_step j) b b' k h e = cc
