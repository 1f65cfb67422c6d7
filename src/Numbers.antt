-- ===== src/Numbers.antt =====
-- Python's numbers where the program computes with floats (or with ints and floats mixed): a type
-- `F` with the runtime's operations, which are not part of the repository. `quot` is `/` at a
-- divisor that is not zero, `sqrt` the root of a number that is not negative; `divide` and
-- `square_root` below add the exceptions.
pub mod Rational
use yandex_tank.Prelude.{ℕ, Bool, Option, List, [], ◌∷◌, if◌then◌else◌}
use yandex_tank.Prelude.Result.{Result, ok, err, zero_division_error, value_error}
use yandex_tank.Prelude.Text.{Text}

pub record Numbers (F : Type 0) : Type 0 where
  -- an int as a number
  pub of_ℕ : ℕ → F
  -- the literal 0.001
  pub thousandth : F
  pub add : F → F → F
  pub sub : F → F → F
  pub mul : F → F → F
  pub quot : F → F → F
  -- `/` of numpy, which gives an infinity or nan at 0 and raises nothing
  pub numpy_quot : F → F → F
  pub sqrt : F → F
  -- `int(a // b)` for a not negative and b positive
  pub floor_div : F → F → ℕ
  pub lt : F → F → Bool
  pub le : F → F → Bool
  -- numeric equality, `50 == 50.0`
  pub eq : F → F → Bool
  -- `int(x)` for x that is not negative
  pub trunc : F → ℕ
  -- `float(s)` and `int(s)`; none is ValueError
  pub float_of : Text → Option F
  pub int_of : Text → Option F
  -- `str(x)`, and the conversions `%d` and `%.2f`
  pub str : F → Text
  pub str_ℕ : ℕ → Text
  pub str2 : F → Text

module _ {F : Type 0} ⦃n : Numbers F⦄ where
  abbrev pub is_zero : F → Bool
  is_zero x = n.eq x (n.of_ℕ 0)

  -- `a / b`
  abbrev pub divide : F → F → Result F
  divide a b = if is_zero b then err zero_division_error else ok (n.quot a b)

  -- `math.sqrt`
  abbrev pub square_root : F → Result F
  square_root x = if n.lt x (n.of_ℕ 0) then err value_error else ok (n.sqrt x)

  -- `sum(xs)`: from the left, starting at the int 0
  abbrev sum_from : F → List F → F
  sum_from acc [] = acc
  sum_from acc (x ∷ xs) = sum_from (n.add acc x) xs

  abbrev pub sum_of : List F → F
  sum_of = sum_from (n.of_ℕ 0)
