-- ===== src/Autostop/Criterion/Streaks.antt =====
-- The criteria that count a streak: time, http, net, quantile and instances.
use yandex_tank.Prelude.{ℕ, ◌≡◌, refl, Bool, Option, none, some, List}
use yandex_tank.Prelude.Result.{Result, ok, err, not_implemented_error, map_ok}
use yandex_tank.Numbers.{Numbers}
use yandex_tank.Autostop.Sample.{Second}
use yandex_tank.Autostop.Streak.{Streak, no_streak, Notified, quiet}
use yandex_tank.Autostop.Streak.Laws.{Streaking, feed, Ends, feed-Ends}
use yandex_tank.Autostop.Criterion.Feed.{feed-under}
use yandex_tank.Autostop.AvgTime
use yandex_tank.Autostop.HttpCodes
use yandex_tank.Autostop.NetCodes
use yandex_tank.Autostop.Quantile
use yandex_tank.Autostop.UsedInstances
use yandex_tank.Autostop.Criterion.{
  Criterion, avg_time, http, net, quantile, instances, under, notify,
}

-- The streak of a criterion, if it counts one.
abbrev pub streak_of : {F : Type 0} → Criterion F → Option (Streak F)
streak_of (avg_time c) = some c.streak
streak_of (http c) = some c.streak
streak_of (net c) = some c.streak
streak_of (quantile c) = some c.streak
streak_of (instances c) = some c.streak
streak_of _ = none

abbrev pub limit_of : {F : Type 0} → Criterion F → ℕ
limit_of (avg_time c) = c.seconds_limit
limit_of (http c) = c.seconds_limit
limit_of (net c) = c.seconds_limit
limit_of (quantile c) = c.seconds_limit
limit_of (instances c) = c.seconds_limit
limit_of _ = 0

module _ {F : Type 0} ⦃n : Numbers F⦄ where
  -- The test of a second; the other criteria have none.
  unfoldable pub exceeds : Criterion F → Second F → Result Bool
  exceeds (avg_time c) s = AvgTime.exceeds c s
  exceeds (http c) s = HttpCodes.exceeds c s
  exceeds (net c) s = NetCodes.exceeds c s
  exceeds (quantile c) s = Quantile.exceeds c s
  exceeds (instances c) s = UsedInstances.exceeds c s
  exceeds _ s = err not_implemented_error

  abbrev avg_time_streaking : Streaking (AvgTime.AvgTime F) F
  unfolding AvgTime.notify
  avg_time_streaking = record {
    streak = λ c. c.streak;
    put = λ k c. record c { streak = k };
    limit = λ c. c.seconds_limit;
    exceeds = AvgTime.exceeds;
    notify = AvgTime.notify;
    limit-put = λ k c. refl;
    streak-put = λ k c. refl;
    exceeds-put = λ k c s. refl;
    notify_lem = λ c s. refl;
  }

  abbrev http_streaking : Streaking (HttpCodes.HttpCodes F) F
  unfolding HttpCodes.notify
  http_streaking = record {
    streak = λ c. c.streak;
    put = λ k c. record c { streak = k };
    limit = λ c. c.seconds_limit;
    exceeds = HttpCodes.exceeds;
    notify = HttpCodes.notify;
    limit-put = λ k c. refl;
    streak-put = λ k c. refl;
    exceeds-put = λ k c s. refl;
    notify_lem = λ c s. refl;
  }

  abbrev net_streaking : Streaking (NetCodes.NetCodes F) F
  unfolding NetCodes.notify
  net_streaking = record {
    streak = λ c. c.streak;
    put = λ k c. record c { streak = k };
    limit = λ c. c.seconds_limit;
    exceeds = NetCodes.exceeds;
    notify = NetCodes.notify;
    limit-put = λ k c. refl;
    streak-put = λ k c. refl;
    exceeds-put = λ k c s. refl;
    notify_lem = λ c s. refl;
  }

  abbrev quantile_streaking : Streaking (Quantile.Quantile F) F
  unfolding Quantile.notify
  quantile_streaking = record {
    streak = λ c. c.streak;
    put = λ k c. record c { streak = k };
    limit = λ c. c.seconds_limit;
    exceeds = Quantile.exceeds;
    notify = Quantile.notify;
    limit-put = λ k c. refl;
    streak-put = λ k c. refl;
    exceeds-put = λ k c s. refl;
    notify_lem = λ c s. refl;
  }

  abbrev instances_streaking : Streaking (UsedInstances.UsedInstances F) F
  unfolding UsedInstances.notify
  instances_streaking = record {
    streak = λ c. c.streak;
    put = λ k c. record c { streak = k };
    limit = λ c. c.seconds_limit;
    exceeds = UsedInstances.exceeds;
    notify = UsedInstances.notify;
    limit-put = λ k c. refl;
    streak-put = λ k c. refl;
    exceeds-put = λ k c s. refl;
    notify_lem = λ c s. refl;
  }

  -- What the history of a criterion leaves behind.
  abbrev pub EndsInRun : F → Criterion F → List (Second F) → List Bool → Type 0
  EndsInRun now c ss bs =
      (c' : Criterion F) × (k : Streak F) × (r : Notified) × (feed (notify now) c quiet ss
        ≡ ok (c', r))
      × (streak_of c' ≡ some k)
      × Ends (limit_of c) ss bs k r

  module _ {C : Type 0} (i : Streaking C F) (now : F) (con : C → Criterion F) where
    open i use {streak, limit, exceeds as test, notify as one}

    lift-Ends :
        ((c : C) (s : Second F) → notify now (con c) s ≡ under con (one c s))
        → ((c : C) → streak_of (con c) ≡ some (streak c))
        → (c : C) (ss : List (Second F)) (bs : List Bool) → limit_of (con c) ≡ limit c
        → streak c ≡ no_streak
        → map_ok (test c) ss ≡ ok bs
        → EndsInRun now (con c) ss bs
    lift-Ends same shown c ss bs limits fresh judged =
        let (c', r, fed, ends) = feed-Ends i c ss bs fresh judged in
        (con c', streak c', r, feed-under now con one same c quiet ss fed, shown c', rw limits ends)

  -- After any history of seconds on which its test raises no exception, a criterion of the classes
  -- time, http, net, quantile or instances that starts with no streak has raised none either. Its
  -- streak is then the longest run of exceeding seconds that the history ends in: the run's length
  -- is `seconds_count`, and its first second, if any, is `cause_second`. The last call of `notify`
  -- added the criterion to the counting ones exactly if the run is not empty, and returned True
  -- exactly if moreover the run's length has reached `seconds_limit`.
  pub notify-EndsInRun :
      (now : F) (c : Criterion F) (ss : List (Second F)) (bs : List Bool)
      → streak_of c ≡ some no_streak
      → map_ok (exceeds c) ss ≡ ok bs
      → EndsInRun now c ss bs
  unfolding exceeds notify avg_time_streaking http_streaking net_streaking quantile_streaking
      instances_streaking AvgTime.notify HttpCodes.notify NetCodes.notify Quantile.notify
      UsedInstances.notify
  notify-EndsInRun now (avg_time c) ss bs fresh judged =
      lift-Ends avg_time_streaking now avg_time (λ _ _. refl) (λ _. refl) c ss bs refl (cc) judged
  notify-EndsInRun now (http c) ss bs fresh judged =
      lift-Ends http_streaking now http (λ _ _. refl) (λ _. refl) c ss bs refl (cc) judged
  notify-EndsInRun now (net c) ss bs fresh judged =
      lift-Ends net_streaking now net (λ _ _. refl) (λ _. refl) c ss bs refl (cc) judged
  notify-EndsInRun now (quantile c) ss bs fresh judged =
      lift-Ends quantile_streaking now quantile (λ _ _. refl) (λ _. refl) c ss bs refl (cc) judged
  notify-EndsInRun now (instances c) ss bs fresh judged =
      lift-Ends instances_streaking now instances (λ _ _. refl) (λ _. refl) c ss bs refl (cc) judged
  notify-EndsInRun now _ ss bs fresh judged = cc
