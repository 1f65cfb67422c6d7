-- ===== src/Autostop/Criterion/Feed.antt =====
-- Histories of seconds under the constructors of `Criterion`.
use yandex_tank.Prelude.{◌≡◌, ap, ◌∙◌, List, [], ◌∷◌}
use yandex_tank.Prelude.Result.{Result, ok, >>=-eq-ok}
use yandex_tank.Numbers.{Numbers}
use yandex_tank.Autostop.Sample.{Second}
use yandex_tank.Autostop.Streak.{Notified}
use yandex_tank.Autostop.Streak.Laws.{feed}
use yandex_tank.Autostop.Criterion.{Criterion, under, notify}

module _ {F : Type 0} ⦃n : Numbers F⦄ where
  feed-step :
      {C : Type 0} (f : C → Second F → Result (C × Notified)) (c : C) (r : Notified) (s : Second F)
      (ss : List (Second F)) (c' : C) (r' : Notified) {x : C × Notified}
      → f c s ≡ ok (c', r')
      → feed f c' r' ss ≡ ok x
      → feed f c r (s ∷ ss) ≡ ok x
  feed-step f c r s ss c' r' e h = rw e h

  -- A history fed to a class is the same history fed to the criterion.
  pub feed-under :
      {C : Type 0} (now : F) (con : C → Criterion F) (one : C → Second F → Result (C × Notified))
      → ((c : C) (s : Second F) → notify now (con c) s ≡ under con (one c s))
      → (c : C) (r : Notified) (ss : List (Second F)) {c' : C} {r' : Notified}
      → feed one c r ss ≡ ok (c', r')
      → feed (notify now) (con c) r ss ≡ ok (con c', r')
  feed-under now con one same c r [] h = ap (under con) h
  feed-under now con one same c r (s ∷ ss) h =
      let (x, first, rest) = >>=-eq-ok (one c s) _ h in
      feed-step (notify now) (con c) r s ss (con x.0) x.1 (same c s ∙ ap (under con) first)
        (feed-under now con one same x.0 x.1 ss rest)
