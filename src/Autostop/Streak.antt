-- ===== src/Autostop/Streak.antt =====
-- The counting that the `notify` methods of criterions.py share: a run of seconds over the limit.
pub mod Laws
use yandex_tank.Prelude.{ℕ, ◌+◌, Bool, true, false, Option, none, some, leb, ◌==◌, if◌then◌else◌}
use yandex_tank.Autostop.Sample.{Second}

-- `seconds_count` and `cause_second`
pub record Streak (F : Type 0) : Type 0 where
  pub seconds_count : ℕ
  pub cause_second : Option (Second F)

abbrev pub no_streak : {F : Type 0} → Streak F
no_streak = record { seconds_count = 0; cause_second = none }

-- What a call of `notify` does besides changing the criterion: its result, and whether it called
-- `autostop.add_counting`.
pub record Notified : Type 0 where
  pub triggered : Bool
  pub counting : Bool

abbrev pub quiet : Notified
quiet = record { triggered = false; counting = false }

unfoldable pub streak_step :
    {F : Type 0} (exceeded : Bool) (seconds_limit : ℕ) → Second F → Streak F → Streak F × Notified
streak_step true limit s k =
    let cause = if k.seconds_count == 0 then some s else k.cause_second in
    (
      record { seconds_count = k.seconds_count + 1; cause_second = cause },
      record { triggered = leb limit (k.seconds_count + 1); counting = true },
    )
streak_step false limit s k = (record k { seconds_count = 0 }, quiet)
