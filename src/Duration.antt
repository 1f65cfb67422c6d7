-- ===== src/Duration.antt =====
-- Time strings: `expand_time`, `expand_to_seconds` and `expand_to_milliseconds` of
-- yandextank/common/util.py. The pattern `(\d+)([a-zA-Z]*)` under `findall` is a scanner: it skips
-- to the next digit, takes the digits, and then the letters.
pub mod Laws
mod Tests
use yandex_tank.Prelude.{
  ℕ, ◌*◌, true, false, List, [], ◌∷◌, ◌++◌, Option, none, some, if◌then◌else◌,
}
use yandex_tank.Prelude.Result.{Result, ok, err, value_error, ◌>>=◌}
use yandex_tank.Prelude.Text.{Text, codes, text_eq, is_digit, is_letter, lower, digits_value}
use yandex_tank.Numbers.{Numbers}

-- One match of the pattern: the digits and the letters behind them.
pub record Part : Type 0 where
  pub digits : Text
  pub letters : Text

-- The scanner is between two matches, in the digits of one, or in its letters.
pub data Scan : Type 0 where
  idle : Scan
  in_digits : Text → Scan
  in_letters : Text → Text → Scan

unfoldable pub findall : Scan → Text → List Part
unfolding is_digit is_letter
findall idle [] = []
findall (in_digits ds) [] = record { digits = ds; letters = [] } ∷ []
findall (in_letters ds ls) [] = record { digits = ds; letters = ls } ∷ []
findall idle (c ∷ s) = findall (if is_digit c then in_digits (c ∷ []) else idle) s
findall (in_digits ds) (c ∷ s) = elim (is_digit c) [
  | true ↦ findall (in_digits (ds ++ c ∷ [])) s
  | false ↦ elim (is_letter c) [
    | true ↦ findall (in_letters ds (c ∷ [])) s
    | false ↦ record { digits = ds; letters = [] } ∷ findall idle s
  ]
]
findall (in_letters ds ls) (c ∷ s) = elim (is_letter c) [
  | true ↦ findall (in_letters ds (ls ++ c ∷ [])) s
  | false ↦
      record { digits = ds; letters = ls }
      ∷ findall (if is_digit c then in_digits (c ∷ []) else idle) s
]

-- Seconds in a unit; none is a unit that the loop refuses. `ms` is apart: it adds a float.
unfoldable pub unit_seconds : Text → Option ℕ
unit_seconds u =
    if text_eq u (codes "s")
    then some 1
    else if text_eq u (codes "m")
    then some 60
    else if text_eq u (codes "h")
    then some 3600
    else if text_eq u (codes "d")
    then some 86400
    else if text_eq u (codes "w")
    then some 604800
    else none

module _ {F : Type 0} ⦃n : Numbers F⦄ where
  -- The body of the loop: the new `result`.
  unfoldable pub add_part : (default_unit : Text) → F → Part → Result F
  unfolding digits_value lower unit_seconds
  add_part default_unit result p =
      let value = digits_value 0 p.digits in
      let unit = if text_eq p.letters [] then default_unit else lower p.letters in
      if text_eq unit (codes "ms")
      then ok (n.add result (n.mul (n.of_ℕ value) n.thousandth))
      else elim (unit_seconds unit) [
        | none ↦ err value_error
        | some k ↦ ok (n.add result (n.of_ℕ (value * k)))
      ]

  unfoldable pub add_parts : Text → F → List Part → Result F
  unfolding add_part
  add_parts default_unit result [] = ok result
  add_parts default_unit result (p ∷ ps) =
      add_part default_unit result p >>= λ r. add_parts default_unit r ps

-- `F` is the type of the floats that the sum runs over.
module _ (F : Type 0) ⦃n : Numbers F⦄ where
  unfoldable pub expand_time : Text → Text → ℕ → Result ℕ
  unfolding add_parts findall
  expand_time str_time default_unit multiplier = do
    result ← add_parts default_unit (n.of_ℕ 0) (findall idle str_time)
    ok (n.trunc (n.mul result (n.of_ℕ multiplier)))

  unfoldable pub expand_to_milliseconds : Text → Result ℕ
  unfolding expand_time
  expand_to_milliseconds str_time = expand_time str_time (codes "ms") 1000

  unfoldable pub expand_to_seconds : Text → Result ℕ
  unfolding expand_time
  expand_to_seconds str_time = expand_time str_time (codes "s") 1
