-- ===== src/Stepper/Missile/Loops.antt =====
-- Loops over a file of ammo up to the limit of loops.
use mathlib.Core.Path.{subst}
use yandex_tank.Prelude.{
  ℕ, zero, suc, ◌+◌, ◌<◌, true, false, Option, none, some, List, [], ◌++◌, leb, ◌==◌, if◌then◌else◌,
  ◌≡◌, refl, sym, ap, ◌∙◌, inl, inr, Bool-cases, arith,
}
use yandex_tank.Numbers.{Numbers}
use yandex_tank.Stepper.Status.{
  Status, Stop, loop_count_limit, limits, update_view, af_percent, set_af_position, set_loop_count,
  inc_loop_count,
}
use yandex_tank.Stepper.Missile.{Missile, loops_done, Run, after, next_loop}

abbrev pub repeated : ℕ → List Missile → List Missile
repeated zero ms = []
repeated (suc k) ms = ms ++ repeated k ms

-- The loops that were made and their limit.
abbrev pub SameLoops : {F : Type 0} → Status F → Status F → Type 0
SameLoops s s' = (s'.loop_count ≡ s.loop_count) × (s'.loop_limit ≡ s.loop_limit)

pub SameLoops-trans :
    {F : Type 0} (s s' s'' : Status F) → SameLoops s s' → SameLoops s' s'' → SameLoops s s''
SameLoops-trans s s' s'' (a, b) (c, d) = (c ∙ a, d ∙ b)

-- A consumer that does not count loops.
abbrev pub KeepsLoops : {F : Type 0} → (Missile → Status F → Status F) → Type 0
KeepsLoops {F} consume = (m : Missile) (s : Status F) → SameLoops s (consume m s)

module _ {F : Type 0} ⦃n : Numbers F⦄ where
  pub set_af_position-SameLoops :
      (now : F) (position : ℕ) (s : Status F) → SameLoops s (set_af_position now position s)
  unfolding set_af_position update_view
  set_af_position-SameLoops now position s =
      elim (Bool-cases (s.af_progress == af_percent (record s { af_position = some position }))) [
        | inl same ↦ rw (set_af_position, same) (refl, refl)
        | inr other ↦ rw (set_af_position, other) (refl, refl)
      ]

  -- the limit that `inc_loop_count` meets
  inc_loop_count-limit :
      (s : Status F) (l : ℕ)
      → s.loop_limit ≡ some (suc l)
      → inc_loop_count s ≡ (
        record s { loop_count = s.loop_count + 1 },
        if leb (suc l) (s.loop_count + 1) then some loop_count_limit else none,
      )
  unfolding inc_loop_count set_loop_count
  inc_loop_count-limit s l limit =
      let v = s.loop_count + 1 in
      let stop : Option ℕ → Option Stop =
        λ o. if limits o (λ m. leb m v) then some loop_count_limit else none in
      ap (λ o. (record s { loop_count = v }, stop o)) limit

  pub inc_loop_count-goes_on :
      (s : Status F) (l : ℕ)
      → s.loop_limit ≡ some (suc l)
      → suc s.loop_count < suc l
      → inc_loop_count s ≡ (record s { loop_count = s.loop_count + 1 }, none)
  inc_loop_count-goes_on s l limit more =
      let below : leb (suc l) (s.loop_count + 1) ≡ false = ground (arith, more) in
      inc_loop_count-limit s l limit
      ∙ ap
          (λ b.
            (record s { loop_count = s.loop_count + 1 }, if b then some loop_count_limit else none))
          below

  pub inc_loop_count-stops :
      (s : Status F) (l : ℕ)
      → s.loop_limit ≡ some (suc l)
      → s.loop_count ≡ l
      → inc_loop_count s ≡ (record s { loop_count = s.loop_count + 1 }, some loop_count_limit)
  inc_loop_count-stops s l limit last =
      let reached : leb (suc l) (s.loop_count + 1) ≡ true = ground (arith, last) in
      inc_loop_count-limit s l limit
      ∙ ap
          (λ b.
            (record s { loop_count = s.loop_count + 1 }, if b then some loop_count_limit else none))
          reached

  abbrev done_or : (Status F → Run F) → Status F × Option Stop → Run F
  done_or again (s, none) = again s
  done_or again (s, some _) = record { missiles = []; status = s; end = loops_done }

  -- What the loop yields when it may be made `suc m` times.
  pub record Looped (ms : List Missile) (m l : ℕ) (r : Run F) : Type 0 where
    pub all_missiles : r.missiles ≡ repeated m ms
    pub all_loops : r.status.loop_count ≡ l
    pub at_limit : r.end ≡ loops_done

  pub Looped-after :
      (ms ms' : List Missile) (m l : ℕ) (r : Run F)
      → ms' ≡ ms
      → Looped ms m l r
      → Looped ms (suc m) l (after ms' r)
  Looped-after ms ms' m l r same w = record {
    all_missiles = ap (λ xs. xs ++ r.missiles) same ∙ ap (λ xs. ms ++ xs) w.all_missiles;
    all_loops = w.all_loops;
    at_limit = w.at_limit;
  }

  -- the end of a reading, whether it was the last or not
  pub next_loop-Looped :
      (m l : ℕ) (ms : List Missile) (s : Status F) (again : Status F → Run F)
      → s.loop_limit ≡ some (suc l)
      → s.loop_count + m ≡ l
      → ((s' : Status F) (m' : ℕ)
          → m ≡ suc m'
          → s'.loop_limit ≡ some (suc l)
          → s'.loop_count + m' ≡ l
          → Looped ms m (suc l) (again s'))
      → Looped ms m (suc l) (next_loop s again)
  next_loop-Looped zero l ms s again limit left later =
      subst (Looped ms zero (suc l))
        (ap (done_or again) (sym (inc_loop_count-stops s l limit (omega (arith, left)))))
        (record { all_missiles = refl; all_loops = omega (arith, left); at_limit = refl })
  next_loop-Looped (suc m) l ms s again limit left later =
      subst (Looped ms (suc m) (suc l))
        (ap (done_or again) (sym (inc_loop_count-goes_on s l limit (omega (arith, left)))))
        (later (record s { loop_count = s.loop_count + 1 }) m refl limit (omega (arith, left)))
