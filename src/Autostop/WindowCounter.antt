-- ===== src/Autostop/WindowCounter.antt =====
-- `WindowCounter` of plugins/Autostop/cumulative_criterions.py: a running sum over the last seconds.
pub mod Laws
use yandex_tank.Prelude.{ℕ, List, [], ◌∷◌, ◌++◌, ltb, if◌then◌else◌, length}
use yandex_tank.Numbers.{Numbers}

-- The values pushed are counts; `value` is the float that `push` keeps up to date.
pub record WindowCounter (F : Type 0) : Type 0 where
  pub window_size : ℕ
  pub value : F
  pub q : List ℕ

module _ {F : Type 0} ⦃n : Numbers F⦄ where
  -- `self.value -= self.q.popleft()`
  unfoldable pub pop_left : WindowCounter F → WindowCounter F
  pop_left w = elim w.q [
    | [] ↦ w
    | x ∷ rest ↦ record w { value = n.sub w.value (n.of_ℕ x); q = rest }
  ]

  unfoldable pub push : ℕ → WindowCounter F → WindowCounter F
  unfolding pop_left
  push x w =
      let grown = record w { value = n.add w.value (n.of_ℕ x); q = w.q ++ x ∷ [] } in
      if ltb w.window_size (length grown.q) then pop_left grown else grown

  unfoldable pub new_counter : ℕ → WindowCounter F
  new_counter size = record { window_size = size; value = n.of_ℕ 0; q = [] }
