-- ===== src/Prelude/Dict.antt =====
-- A dictionary keyed by numbers, in insertion order.
use yandex_tank.Prelude.{
  ℕ, Option, none, some, List, [], ◌∷◌, ◌==◌, if◌then◌else◌, ◌≡◌, refl, arith,
}

module _ {ℓ} {V : Type ℓ} where
  abbrev pub lookup : ℕ → List (ℕ × V) → Option V
  lookup k [] = none
  lookup k ((k', v) ∷ d) = if k == k' then some v else lookup k d

  abbrev pub insert : ℕ → V → List (ℕ × V) → List (ℕ × V)
  insert k v [] = (k, v) ∷ []
  insert k v ((k', v') ∷ d) = if k == k' then (k, v) ∷ d else (k', v') ∷ insert k v d

  -- `d.pop(k)`: every entry of the key goes
  abbrev pub remove : ℕ → List (ℕ × V) → List (ℕ × V)
  remove k [] = []
  remove k ((k', v) ∷ d) = if k == k' then remove k d else (k', v) ∷ remove k d

  pub lookup-insert :
      (k j : ℕ) (v : V) (d : List (ℕ × V))
      → lookup k (insert j v d) ≡ (if k == j then some v else lookup k d)
  lookup-insert k j v [] = refl
  lookup-insert k j v ((k', v') ∷ d) = ground (arith, lookup-insert k j v d)

  pub lookup-remove :
      (k j : ℕ) (d : List (ℕ × V)) → lookup k (remove j d) ≡ (if k == j then none else lookup k d)
  lookup-remove k j [] = ground arith
  lookup-remove k j ((k', v') ∷ d) = ground (arith, lookup-remove k j d)
