-- ===== src/Prelude/Result.antt =====
-- What a Python call ends in: a value, or one of the exceptions that the modelled code raises.
use yandex_tank.Prelude.{
  Bool, true, false, Option, none, some, List, [], ◌∷◌, ◌≡◌, ◌⊎◌, inl, inr, refl, ap,
}

pub data Error : Type 0 where
  value_error zero_division_error index_error key_error not_implemented_error : Error
  runtime_error lock_error configuration_error type_error attribute_error generator_not_found :
      Error
  -- no exception: a loop of the model has used up its rounds
  out_of_rounds : Error

-- `err` is an exception that leaves the call.
pub data Result {ℓ} (X : Type ℓ) : Type ℓ where
  err : Error → Result X
  ok : X → Result X

infixl 5 ◌>>=◌
-- What follows a call happens if the call returns.
abbrev pub ◌>>=◌ {κ ℓ} :
    {X : Type κ} {Y : Type ℓ} (call : Result X) (next : X → Result Y) → Result Y
ok x >>= next = next x
err raised >>= next = err raised

abbrev pub require {ℓ} : {A : Type ℓ} → Error → Option A → Result A
require e none = err e
require e (some a) = ok a

abbrev pub is_err {ℓ} : {A : Type ℓ} → Result A → Bool
is_err (ok a) = false
is_err (err e) = true

-- A fallible function on each entry, from the left.
abbrev pub map_ok {ℓ κ} : {A : Type ℓ} {B : Type κ} → (A → Result B) → List A → Result (List B)
map_ok f [] = ok []
map_ok f (x ∷ xs) = f x >>= λ y. map_ok f xs >>= λ ys. ok (y ∷ ys)

-- A call that is followed by another returns if both do.
pub >>=-eq-ok {κ ℓ} :
    {X : Type κ} {Y : Type ℓ} (call : Result X) (next : X → Result Y) {y : Y}
    → (call >>= next) ≡ ok y
    → (x : X) × (call ≡ ok x) × (next x ≡ ok y)
>>=-eq-ok (err raised) next returned = cc
>>=-eq-ok (ok x) next returned = (x, refl, returned)

-- It raises if the first does, or the second after it.
pub >>=-eq-err {κ ℓ} :
    {X : Type κ} {Y : Type ℓ} (call : Result X) (next : X → Result Y) {e : Error}
    → (call >>= next) ≡ err e
    → (call ≡ err e) ⊎ ((x : X) × (call ≡ ok x) × (next x ≡ err e))
>>=-eq-err (err raised) next {e} h = let same : raised ≡ e = cc in inl (ap err same)
>>=-eq-err (ok x) next h = inr (x, refl, h)
