-- ===== src/Stepper/Status/Laws.antt =====
-- What an increment of the counter of missiles does under a limit.
use yandex_tank.Prelude.{
  ℕ, suc, zero, ◌+◌, false, Option, none, some, ltb, leb, ◌==◌, if◌then◌else◌, ◌≡◌, ◌≢◌, refl, ap,
  ◌∙◌, inl, inr, Bool-cases,
}
use yandex_tank.Prelude.Result.{ok}
use yandex_tank.Numbers.{Numbers, is_zero}
use yandex_tank.Stepper.Status.{
  Status, stop_iteration, limits, smaller, max_ammo, update_view, calculate_lp_progress,
  update_lp_progress, set_ammo_count, inc_ammo_count,
}

smaller_positive :
    (l : ℕ) (o : Option ℕ) → o ≢ some 0 → (m : ℕ) × (smaller (some (suc l)) o ≡ some (suc m))
smaller_positive l none h = (l, refl)
smaller_positive l (some zero) h = elim (h refl) [ ]
smaller_positive l (some (suc k)) h = elim (Bool-cases (leb (suc l) (suc k))) [
  | inl t ↦ (l, rw t refl)
  | inr f ↦ (k, rw f refl)
]

module _ {F : Type 0} ⦃n : Numbers F⦄ where
  calculated :
      (s : Status F) (m : ℕ)
      → is_zero (n.of_ℕ (suc m)) ≡ false
      → max_ammo s ≡ some (suc m)
      → (x : F) × (calculate_lp_progress s ≡ ok x)
  unfolding calculate_lp_progress
  calculated s m positive e =
      (n.quot (n.of_ℕ s.ammo_count) (n.of_ℕ (suc m)), rw (calculate_lp_progress, e, positive) refl)

  updated :
      (now : F) (s : Status F) (x : F)
      → calculate_lp_progress s ≡ ok x
      → (s' : Status F) × (update_lp_progress now s ≡ ok s')
        × (s'.ammo_count ≡ s.ammo_count)
        × (s'.ammo_limit ≡ s.ammo_limit)
        × (s'.lp_len ≡ s.lp_len)
  unfolding update_lp_progress update_view
  updated now s x e = elim (Bool-cases (s.lp_progress == n.trunc (n.mul x (n.of_ℕ 100)))) [
    | inl same ↦ (s, rw (e, same) refl, refl, refl, refl)
    | inr other ↦ (
      update_view now (record s { lp_progress = n.trunc (n.mul x (n.of_ℕ 100)) }),
      rw (e, other) refl,
      refl,
      refl,
      refl,
    )
  ]

  pub inc_ammo_count_lem :
      (now : F) (s : Status F) (l : ℕ)
      → ((m : ℕ) → is_zero (n.of_ℕ (suc m)) ≡ false)
      → s.ammo_limit ≡ some (suc l)
      → s.lp_len ≢ some 0
      → let (s', stop) = inc_ammo_count now s in
        (s'.ammo_count ≡ s.ammo_count + 1)
        × (s'.ammo_limit ≡ some (suc l))
        × (s'.lp_len ≡ s.lp_len)
        × (stop ≡ (if ltb (suc l) (s.ammo_count + 1) then some stop_iteration else none))
  unfolding inc_ammo_count set_ammo_count max_ammo
  inc_ammo_count_lem now s l positive limited planned =
      let counted = record s { ammo_count = s.ammo_count + 1 } in
      let (m, e) = smaller_positive l s.lp_len planned in
      let most : max_ammo counted ≡ some (suc m) = ap (λ o. smaller o s.lp_len) limited ∙ e in
      let (x, ex) = calculated counted m (positive m) most in
      let (s', es, count, limit, len) = updated now counted x ex in
      let same_limit : s'.ammo_limit ≡ some (suc l) = limit ∙ limited in
      rw (set_ammo_count, es)
        (
          count,
          same_limit,
          len,
          ap (λ o. if limits o (λ k. ltb k (s.ammo_count + 1)) then some stop_iteration else none)
              same_limit,
        )
