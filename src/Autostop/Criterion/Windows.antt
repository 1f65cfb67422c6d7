-- ===== src/Autostop/Criterion/Windows.antt =====
-- The four cumulative code criteria: total_http, total_net, negative_http and negative_net.
use yandex_tank.Prelude.{
  ◌<◌, ◌≡◌, refl, Bool, true, false, Option, none, some, List, [], if◌then◌else◌, head?,
}
use mathlib.Core.Path.{subst}
use yandex_tank.Prelude.Result.{Result, ok, err, not_implemented_error, ◌>>=◌, map_ok}
use yandex_tank.Prelude.Queue.{last_n}
use yandex_tank.Numbers.{Numbers}
use yandex_tank.Autostop.Sample.{Data, Second}
use yandex_tank.Autostop.Streak.{quiet}
use yandex_tank.Autostop.Streak.Laws.{feed}
use yandex_tank.Autostop.Window.{Window, window_step}
use yandex_tank.Autostop.Window.Laws.{IsCounting, reaches, answer, moved, feed-SeesWindow}
use yandex_tank.Autostop.TotalHttp
use yandex_tank.Autostop.TotalNet
use yandex_tank.Autostop.NegativeHttp
use yandex_tank.Autostop.NegativeNet
use yandex_tank.Autostop.Criterion.{
  Criterion, total_http, total_net, negative_http, negative_net, under, notify,
}
use yandex_tank.Autostop.Criterion.Feed.{feed-under}

only_if {ℓ} :
    {A : Type ℓ} (b : Bool) (o o' : Option A)
    → (b ≡ true → o ≡ o')
    → (if b then o else none) ≡ (if b then o' else none)
only_if true o o' h = h refl
only_if false o o' h = refl

abbrev pub window_of : {F : Type 0} → Criterion F → Option (Window F)
window_of (total_http w) = some w
window_of (total_net w) = some w
window_of (negative_http w) = some w
window_of (negative_net w) = some w
window_of _ = none

module _ {F : Type 0} ⦃n : Numbers F⦄ where
  -- What a second adds to the window; the other criteria add nothing.
  unfoldable pub measure : Criterion F → Second F → Result F
  measure (total_http w) s = TotalHttp.measure w s.0
  measure (total_net w) s = TotalNet.measure w s.0
  measure (negative_http w) s = NegativeHttp.measure w s.0
  measure (negative_net w) s = NegativeNet.measure w s.0
  measure _ s = err not_implemented_error

  -- What the history of a criterion whose window was `w` leaves behind.
  abbrev pub SlidesWindow : F → Criterion F → Window F → List (Second F) → List F → Type 0
  SlidesWindow now c w ss xs =
      (c' : Criterion F) × (w' : Window F) × (feed (notify now) c quiet ss
        ≡ ok (c', answer (reaches w xs)))
      × (window_of c' ≡ some w')
      × (w'.measured ≡ last_n w.seconds_limit xs)
      × (w'.second_window ≡ last_n w.seconds_limit ss)
      × ((if reaches w xs then w'.cause_second else none)
          ≡ (if reaches w xs then head? (last_n w.seconds_limit ss) else none))

  module _ (counting : IsCounting F) (now : F) (con : Window F → Criterion F) (w : Window F)
      (f : Window F → Data F → Result F)
      (stable : (cause : Option (Second F)) (xs : List F) (ss : List (Second F)) (d : Data F)
        → f (moved cause xs ss w) d ≡ f w d)
      (same : (v : Window F) (s : Second F)
        → notify now (con v) s ≡ under con (f v s.0 >>= λ x. window_step x s v))
      (shown : (v : Window F) → window_of (con v) ≡ some v) where
    lift-SlidesWindow :
        0 < w.seconds_limit
        → w.measured ≡ []
        → w.second_window ≡ []
        → (ss : List (Second F)) (xs : List F) → map_ok (λ (s : Second F). f w s.0) ss ≡ ok xs
        → SlidesWindow now (con w) w ss xs
    lift-SlidesWindow positive none_measured none_seen ss xs measured =
        let (cause, fed, blame) =
          feed-SeesWindow counting w positive f stable none_measured none_seen ss xs measured in
        let w' = moved cause (last_n w.seconds_limit xs) (last_n w.seconds_limit ss) w in
        (
          con w',
          w',
          feed-under now con _ same w quiet ss fed,
          shown w',
          refl,
          refl,
          only_if (reaches w xs) cause (head? (last_n w.seconds_limit ss)) blame,
        )

  abbrev Claim : F → Criterion F → Window F → List (Second F) → List F → Type 0
  Claim now c w ss xs =
      w.measured ≡ []
      → w.second_window ≡ []
      → 0 < w.seconds_limit
      → map_ok (measure c) ss ≡ ok xs
      → SlidesWindow now c w ss xs

  -- On a runtime where a positive int is not zero, take a criterion total_http, total_net,
  -- negative_http or negative_net with empty queues and a positive `seconds_limit`, and any history
  -- of seconds that are all measured without an exception. No call of `notify` raises one. Then
  -- the queues hold the last `seconds_limit` measurements and the last `seconds_limit` seconds, and
  -- the last call returned True exactly if there were at least `seconds_limit` seconds and the
  -- average of those measurements (their sum, for an absolute level) is at least the level; in that
  -- case `cause_second` is the first second of the window. Nothing is ever added to the counting
  -- criteria.
  pub notify-SlidesWindow :
      IsCounting F
      → (now : F) (c : Criterion F) (w : Window F) (ss : List (Second F)) (xs : List F)
      → window_of c ≡ some w
      → w.measured ≡ []
      → w.second_window ≡ []
      → 0 < w.seconds_limit
      → map_ok (measure c) ss ≡ ok xs
      → SlidesWindow now c w ss xs
  unfolding measure notify TotalHttp.measure TotalNet.measure NegativeHttp.measure
      NegativeNet.measure TotalHttp.notify TotalNet.notify NegativeHttp.notify NegativeNet.notify
  notify-SlidesWindow counting now (total_http v) w ss xs e =
      subst (λ u. Claim now (total_http v) u ss xs) {x = v} {y = w} (cc)
        (λ hm hs p m.
          lift-SlidesWindow counting now total_http v TotalHttp.measure (λ _ _ _ _. refl)
            (λ _ _. refl) (λ _. refl) p hm hs ss xs m)
  notify-SlidesWindow counting now (total_net v) w ss xs e =
      subst (λ u. Claim now (total_net v) u ss xs) {x = v} {y = w} (cc)
        (λ hm hs p m.
          lift-SlidesWindow counting now total_net v TotalNet.measure (λ _ _ _ _. refl)
            (λ _ _. refl) (λ _. refl) p hm hs ss xs m)
  notify-SlidesWindow counting now (negative_http v) w ss xs e =
      subst (λ u. Claim now (negative_http v) u ss xs) {x = v} {y = w} (cc)
        (λ hm hs p m.
          lift-SlidesWindow counting now negative_http v NegativeHttp.measure (λ _ _ _ _. refl)
            (λ _ _. refl) (λ _. refl) p hm hs ss xs m)
  notify-SlidesWindow counting now (negative_net v) w ss xs e =
      subst (λ u. Claim now (negative_net v) u ss xs) {x = v} {y = w} (cc)
        (λ hm hs p m.
          lift-SlidesWindow counting now negative_net v NegativeNet.measure (λ _ _ _ _. refl)
            (λ _ _. refl) (λ _. refl) p hm hs ss xs m)
  notify-SlidesWindow counting now _ w ss xs e = cc
