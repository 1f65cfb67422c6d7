-- ===== src/Stepper/Missile/Uris/Loops.antt =====
-- The cycle of URIs up to the limit of loops.
use mathlib.Core.Path.{subst}
use yandex_tank.Prelude.{ℕ, zero, suc, ◌+◌, ◌<◌, some, List, [], ◌∷◌, ◌≡◌, refl, sym, ◌∙◌, arith}
use yandex_tank.Numbers.{Numbers}
use yandex_tank.Stepper.Status.{Status}
use yandex_tank.Stepper.Missile.{Missile}
use yandex_tank.Stepper.Missile.Loops.{
  SameLoops, SameLoops-trans, KeepsLoops, Looped, Looped-after, next_loop-Looped,
}
use yandex_tank.Stepper.Missile.Uris.{consume_all, cycle_missiles}

module _ {F : Type 0} ⦃n : Numbers F⦄ (consume : Missile → Status F → Status F)
    (keeps : KeepsLoops consume) where
  consume_all-SameLoops :
      (ms : List Missile) (s : Status F) → SameLoops s (consume_all consume ms s)
  consume_all-SameLoops [] s = (refl, refl)
  consume_all-SameLoops (m ∷ ms) s =
      SameLoops-trans s (consume m s) (consume_all consume ms (consume m s)) (keeps m s)
        (consume_all-SameLoops ms (consume m s))

  pub cycle_missiles-Looped :
      (m k l : ℕ) (ms : List Missile) (s : Status F)
      → m < k
      → s.loop_limit ≡ some (suc l)
      → s.loop_count + m ≡ l
      → Looped ms (suc m) (suc l) (cycle_missiles consume k ms s)
  unfolding cycle_missiles
  cycle_missiles-Looped m zero l ms s enough limit left = absurd (omega (arith, enough))
  cycle_missiles-Looped m (suc k) l ms s enough limit left =
      let s₁ = consume_all consume ms s in
      let same = consume_all-SameLoops ms s in
      Looped-after ms ms m (suc l) _ refl (
        next_loop-Looped m l ms s₁ (cycle_missiles consume k ms) (same.1 ∙ limit)
          (omega (arith, same.0, left))
          (λ s' m' e limit' left'.
            subst (λ x. Looped ms x (suc l) (cycle_missiles consume k ms s')) (sym e)
              (cycle_missiles-Looped m' k l ms s' (omega (arith, e, enough)) limit' left')))
