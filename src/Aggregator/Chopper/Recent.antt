-- ===== src/Aggregator/Chopper/Recent.antt =====
-- The recent seconds of the sources.
use yandex_tank.Prelude.{
  ℕ, ◌≤◌, true, Option, some, List, [], ◌∷◌, All, ltb, ◌==◌, if◌then◌else◌, ◌≡◌, inl, inr,
  Bool-cases, is_some, arith,
}
use yandex_tank.Prelude.Dict.{lookup, insert, remove}
use yandex_tank.Aggregator.Chopper.{least, values, minimum}
use yandex_tank.Aggregator.Chopper.Emitted.{least_le}

least_ge : (b m : ℕ) (ks : List ℕ) → b ≤ m → All (λ k. b ≤ k) ks → b ≤ least m ks
least_ge b m [] low h = low
least_ge b m (k ∷ ks) low h = least_ge b (if ltb k m then k else m) ks (ground (arith, h.0)) h.1

-- The least of the values is no more than any of them.
least_le_value : (n r m : ℕ) (d : List (ℕ × ℕ)) → lookup n d ≡ some r → least m (values d) ≤ r
least_le_value n r m [] e = cc
least_le_value n r m ((k, v) ∷ d) e = ground (
  arith,
  least_le_value n r (if ltb v m then v else m) d,
  least_le (if ltb v m then v else m) (values d),
)

minimum_le : (n r : ℕ) (d : List (ℕ × ℕ)) → lookup n d ≡ some r → minimum (values d) ≤ r
minimum_le n r [] e = cc
minimum_le n r ((k, v) ∷ d) e = ground (arith, least_le_value n r v d, least_le v (values d))

pub minimum_ge :
    (b n r : ℕ) (d : List (ℕ × ℕ))
    → lookup n d ≡ some r
    → All (λ k. b ≤ k) (values d)
    → b ≤ minimum (values d)
minimum_ge b n r [] e h = cc
minimum_ge b n r ((k, v) ∷ d) e h = least_ge b v (values d) h.0 h.1

below : (m : ℕ) (d : List (ℕ × ℕ)) → All (λ k. least m (values d) ≤ k) (values d)
below m [] = tt
below m ((k, v) ∷ d) =
    let x = if ltb v m then v else m in (ground (arith, least_le x (values d)), below x d)

pub value_ge :
    (b n r : ℕ) (d : List (ℕ × ℕ)) → lookup n d ≡ some r → All (λ k. b ≤ k) (values d) → b ≤ r
value_ge b n r d e h = omega (arith, minimum_ge b n r d e h, minimum_le n r d e)

pub no_less : (b r : ℕ) (ks : List ℕ) → b ≤ r → All (λ k. r ≤ k) ks → All (λ k. b ≤ k) ks
no_less b r [] low h = tt
no_less b r (k ∷ ks) low h = (omega (arith, low, h.0), no_less b r ks low h.1)

pub values_from_minimum : (d : List (ℕ × ℕ)) → All (λ k. minimum (values d) ≤ k) (values d)
values_from_minimum [] = tt
values_from_minimum ((k, v) ∷ d) = (least_le v (values d), below v d)

pub values-insert :
    (b n r : ℕ) (d : List (ℕ × ℕ))
    → b ≤ r
    → All (λ k. b ≤ k) (values d)
    → All (λ k. b ≤ k) (values (insert n r d))
values-insert b n r [] low h = (low, tt)
values-insert b n r ((k, v) ∷ d) low h = elim (Bool-cases (n == k)) [
  | inl y ↦ rw y (low, h.1)
  | inr o ↦ rw o (h.0, values-insert b n r d low h.1)
]

pub values-remove :
    (b n : ℕ) (d : List (ℕ × ℕ))
    → All (λ k. b ≤ k) (values d)
    → All (λ k. b ≤ k) (values (remove n d))
values-remove b n [] h = tt
values-remove b n ((k, v) ∷ d) h = elim (Bool-cases (n == k)) [
  | inl y ↦ rw y (values-remove b n d h.1)
  | inr o ↦ rw o (h.0, values-remove b n d h.1)
]

pub grown :
    {A : Type 0} (b ts j : ℕ) (f : A) (o : Option A)
    → b ≤ ts
    → (is_some o ≡ true → b ≤ j)
    → is_some (if j == ts then some f else o) ≡ true
    → b ≤ j
grown b ts j f o low above h = ground arith
