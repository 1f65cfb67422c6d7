-- ===== src/Core/LockTests.antt =====
-- A directory of lock files.
use yandex_tank.Prelude.{ℕ, ◌≡◌, refl, ◌==◌, true, false, Bool, some, [], ◌∷◌}
use yandex_tank.Prelude.Result.{err, lock_error}
use yandex_tank.Prelude.Text.{codes}
use yandex_tank.Core.Locks.{
  info, unreadable, File, is_lock_name, judge, is_locked, acquire, release, not_locked,
}
use yandex_tank.Core.Locks.Exclusion.{acquire-release, acquire_excludes}

abbrev alive : ℕ → Bool
alive p = p == 41

abbrev always : File → Bool
always f = true

abbrev other : File
other = record { name = codes "other.txt"; content = unreadable }

abbrev mine : File
mine = record { name = codes "lunapark_a.lock"; content = info (some 41) }

abbrev stale : File
stale = record { name = codes "lunapark_0.lock"; content = info (some 7) }

acquire-release_example :
    release (some (codes "lunapark_a.lock")) (other ∷ mine ∷ [])
    ≡ (is_locked 9 alive always (other ∷ [])).0
acquire-release_example =
    acquire-release 9 alive always 41 (codes "lunapark_a.lock") false (other ∷ [])
      (other ∷ mine ∷ []) (some (codes "lunapark_a.lock")) refl
      (unfold acquire is_locked is_lock_name in refl)

acquire_excludes_example :
    acquire 9 alive always 9 (codes "lunapark_b.lock") false (other ∷ mine ∷ []) ≡ err lock_error
acquire_excludes_example =
    acquire_excludes 9 alive always 40 9 (codes "lunapark_a.lock") (codes "lunapark_b.lock") false
      (other ∷ []) (other ∷ mine ∷ []) (some (codes "lunapark_a.lock"))
      (unfold is_lock_name in (refl, tt)) (unfold is_lock_name in refl) refl
      (unfold acquire is_locked is_lock_name in refl)

-- the lock of a dead process hides the one of a running test
hidden : is_locked 9 alive always (stale ∷ mine ∷ []) ≡ (mine ∷ [], not_locked)
unfolding is_locked is_lock_name judge
hidden = refl
