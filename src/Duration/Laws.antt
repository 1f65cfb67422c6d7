-- ===== src/Duration/Laws.antt =====
-- What a time string that is written from numbers and units means.
use yandex_tank.Prelude.{
  ℕ, ◌*◌, Bool, true, false, Option, none, some, List, [], ◌∷◌, ◌++◌, All, if◌then◌else◌, ◌≡◌, ◌≢◌,
  refl, sym, ap, ◌∙◌, arith,
}
use yandex_tank.Prelude.Result.{Result, ok, err, ◌>>=◌, value_error}
use yandex_tank.Prelude.Text.{
  Text, codes, text_eq, is_digit, is_letter, is_upper, lower, digits_value,
}
use yandex_tank.Numbers.{Numbers}
use mathlib.Core.List.{append-nil, append_assoc}
use yandex_tank.Duration.{
  Part, idle, in_digits, in_letters, findall, unit_seconds, add_part, add_parts, expand_time,
}

-- What a number is to be taken for: milliseconds, or so many seconds.
pub data Worth : Type 0 where
  millisecond : Worth
  seconds : ℕ → Worth

abbrev pub units : List (Text × Worth)
units =
    (codes "ms", millisecond)
    ∷ (codes "s", seconds 1)
    ∷ (codes "m", seconds 60)
    ∷ (codes "h", seconds (60 * 60))
    ∷ (codes "d", seconds (24 * 60 * 60))
    ∷ (codes "w", seconds (7 * 24 * 60 * 60))
    ∷ []

abbrev pub worth_of : Text → List (Text × Worth) → Option Worth
worth_of unit [] = none
worth_of unit ((name, worth) ∷ rest) = if text_eq unit name then some worth else worth_of unit rest

-- The string of the parts, one behind the other.
abbrev pub print : List Part → Text
print [] = []
print (p ∷ ps) = p.digits ++ (p.letters ++ print ps)

-- Digits, and letters behind them, which only the last part may lack.
abbrev pub IsPart : Part → Type 0
IsPart p =
    (p.digits ≢ [])
    × All (λ c. is_digit c ≡ true) p.digits
    × All (λ c. is_letter c ≡ true) p.letters

abbrev pub IsWritten : List Part → Type 0
IsWritten [] = Unit
IsWritten (p ∷ []) = IsPart p
IsWritten (p ∷ q ∷ ps) = IsPart p × (p.letters ≢ []) × IsWritten (q ∷ ps)

letter_no_digit : (c : ℕ) → is_letter c ≡ true → is_digit c ≡ false
unfolding is_letter is_digit is_upper
letter_no_digit c h = ground arith

digit_no_letter : (c : ℕ) → is_digit c ≡ true → is_letter c ≡ false
unfolding is_letter is_digit is_upper
digit_no_letter c h = ground arith

in_digits_on :
    (acc ds s : Text)
    → All (λ c. is_digit c ≡ true) ds
    → findall (in_digits acc) (ds ++ s) ≡ findall (in_digits (acc ++ ds)) s
unfolding findall
in_digits_on acc [] s digits = ap (λ x. findall (in_digits x) s) (sym (append-nil acc))
in_digits_on acc (c ∷ ds) s (digit, digits) =
    rw (findall, digit) (in_digits_on (acc ++ c ∷ []) ds s digits)
    ∙ ap (λ x. findall (in_digits x) s) (append_assoc acc (c ∷ []) ds)

in_letters_on :
    (ds acc ls s : Text)
    → All (λ c. is_letter c ≡ true) ls
    → findall (in_letters ds acc) (ls ++ s) ≡ findall (in_letters ds (acc ++ ls)) s
unfolding findall
in_letters_on ds acc [] s letters = ap (λ x. findall (in_letters ds x) s) (sym (append-nil acc))
in_letters_on ds acc (c ∷ ls) s (letter, letters) =
    rw (findall, letter) (in_letters_on ds (acc ++ c ∷ []) ls s letters)
    ∙ ap (λ x. findall (in_letters ds x) s) (append_assoc acc (c ∷ []) ls)

-- What stands behind a part: nothing, or a digit; and nothing behind a part without letters.
abbrev Follows : (letters rest : Text) → Type 0
Follows ls [] = Unit
Follows [] (c ∷ s) = ⊥
Follows (l ∷ ls) (c ∷ s) = is_digit c ≡ true

letters_end :
    (ds ls s : Text) (l : ℕ)
    → Follows (l ∷ ls) s
    → findall (in_letters ds (l ∷ ls)) s ≡ record { digits = ds; letters = l ∷ ls } ∷ findall idle s
unfolding findall
letters_end ds ls [] l follows = refl
letters_end ds ls (c ∷ s) l follows = rw (findall, digit_no_letter c follows) refl

digits_end :
    (ds ls s : Text)
    → All (λ c. is_letter c ≡ true) ls
    → Follows ls s
    → findall (in_digits ds) (ls ++ s) ≡ record { digits = ds; letters = ls } ∷ findall idle s
unfolding findall
digits_end ds [] [] letters follows = refl
digits_end ds [] (c ∷ s) letters follows = elim follows [ ]
digits_end ds (l ∷ ls) s (letter, letters) follows =
    rw (findall, letter_no_digit l letter, letter) (in_letters_on ds (l ∷ []) ls s letters)
    ∙ letters_end ds ls s l follows

part_found :
    (ds ls s : Text)
    → IsPart (record { digits = ds; letters = ls })
    → Follows ls s
    → findall idle (ds ++ (ls ++ s)) ≡ record { digits = ds; letters = ls } ∷ findall idle s
unfolding findall
part_found [] ls s (some_digit, _, _) follows = absurd (some_digit refl)
part_found (d ∷ ds) ls s (_, (digit, digits), letters) follows =
    rw (findall, digit) (in_digits_on (d ∷ []) ds (ls ++ s) digits)
    ∙ digits_end (d ∷ ds) ls s letters follows

next-Follows :
    (ls ds s : Text) → ls ≢ [] → ds ≢ [] → All (λ c. is_digit c ≡ true) ds → Follows ls (ds ++ s)
next-Follows [] ds s some_letter some_digit digits = absurd (some_letter refl)
next-Follows (l ∷ ls) [] s some_letter some_digit digits = absurd (some_digit refl)
next-Follows (l ∷ ls) (d ∷ ds) s some_letter some_digit digits = digits.0

IsWritten-IsPart : (p : Part) (ps : List Part) → IsWritten (p ∷ ps) → IsPart p
IsWritten-IsPart p [] h = h
IsWritten-IsPart p (q ∷ ps) h = h.0

-- The pattern finds the parts of what was written.
findall-print : (ps : List Part) → IsWritten ps → findall idle (print ps) ≡ ps
unfolding findall
findall-print [] h = refl
findall-print (p ∷ []) h = part_found p.digits p.letters [] h tt
findall-print (p ∷ q ∷ ps) (part, some_letter, rest) =
    let next = IsWritten-IsPart q ps rest in
    part_found p.digits p.letters (print (q ∷ ps)) part
      (next-Follows p.letters q.digits (q.letters ++ print ps) some_letter next.0 next.1)
    ∙ ap (λ x. p ∷ x) (findall-print (q ∷ ps) rest)

abbrev pub unit_of : (default_unit : Text) → Part → Text
unit_of default_unit p = if text_eq p.letters [] then default_unit else lower p.letters

then_same :
    {A B : Type 0} (r : Result A) (f g : A → Result B)
    → ((a : A) → f a ≡ g a)
    → (r >>= f) ≡ (r >>= g)
then_same (ok a) f g same = same a
then_same (err e) f g same = refl

module _ {F : Type 0} ⦃n : Numbers F⦄ where
  abbrev pub add_worth : F → ℕ → Option Worth → Result F
  add_worth x value none = err value_error
  add_worth x value (some millisecond) = ok (n.add x (n.mul (n.of_ℕ value) n.thousandth))
  add_worth x value (some (seconds k)) = ok (n.add x (n.of_ℕ (value * k)))

  -- The sum of the parts, in the order of the string; none if a unit is not in the table.
  abbrev pub sum_worth : (default_unit : Text) → F → List Part → Result F
  sum_worth default_unit x [] = ok x
  sum_worth default_unit x (p ∷ ps) =
      add_worth x (digits_value 0 p.digits) (worth_of (unit_of default_unit p) units) >>= λ y.
      sum_worth default_unit y ps

  add_unit : F → ℕ → Text → Result F
  add_unit x value unit =
      if text_eq unit (codes "ms")
      then ok (n.add x (n.mul (n.of_ℕ value) n.thousandth))
      else elim (unit_seconds unit) [
        | none ↦ err value_error
        | some k ↦ ok (n.add x (n.of_ℕ (value * k)))
      ]

  -- The two tables agree, whichever name it is.
  tables_agree :
      (x : F) (value : ℕ) (is_ms is_s is_m is_h is_d is_w : Bool)
      → (if is_ms
          then ok (n.add x (n.mul (n.of_ℕ value) n.thousandth))
          else elim (if is_s
              then some 1
              else if is_m
              then some 60
              else if is_h
              then some 3600
              else if is_d
              then some 86400
              else if is_w
              then some 604800
              else none) [ none ↦ err value_error | some k ↦ ok (n.add x (n.of_ℕ (value * k))) ])
        ≡ add_worth x value (
            if is_ms
            then some millisecond
            else if is_s
            then some (seconds 1)
            else if is_m
            then some (seconds 60)
            else if is_h
            then some (seconds 3600)
            else if is_d
            then some (seconds 86400)
            else if is_w
            then some (seconds 604800)
            else none)
  tables_agree x value true s m h d w = refl
  tables_agree x value false true m h d w = refl
  tables_agree x value false false true h d w = refl
  tables_agree x value false false false true d w = refl
  tables_agree x value false false false false true w = refl
  tables_agree x value false false false false false true = refl
  tables_agree x value false false false false false false = refl

  add_unit-worth :
      (x : F) (value : ℕ) (u : Text) → add_unit x value u ≡ add_worth x value (worth_of u units)
  unfolding add_unit unit_seconds
  add_unit-worth x value u =
      tables_agree x value (text_eq u (codes "ms")) (text_eq u (codes "s")) (text_eq u (codes "m"))
        (text_eq u (codes "h")) (text_eq u (codes "d")) (text_eq u (codes "w"))

  sum_parts : (d : Text) (x : F) (ps : List Part) → add_parts d x ps ≡ sum_worth d x ps
  unfolding add_parts add_part add_unit
  sum_parts d x [] = refl
  sum_parts d x (p ∷ ps) =
      ap (λ r. r >>= λ y. add_parts d y ps)
        (add_unit-worth x (digits_value 0 p.digits) (unit_of d p))
      ∙ then_same (add_worth x (digits_value 0 p.digits) (worth_of (unit_of d p) units))
          (λ y. add_parts d y ps) (λ y. sum_worth d y ps) (λ y. sum_parts d y ps)

-- A string of numbers with units behind them (in small or capital letters; the last one may lack
-- its unit, and has the default one) gives the sum of the numbers times what their units are worth
-- (ms, s, m, h, d and w; in the order of the string, from 0), times the multiplier, as an int. If one
-- of the units is another, it is refused with ValueError.
pub expand_time-print :
    (F : Type 0) ⦃n : Numbers F⦄ (ps : List Part) (default_unit : Text) (multiplier : ℕ)
    → IsWritten ps
    → expand_time F (print ps) default_unit multiplier
      ≡ (sum_worth default_unit (n.of_ℕ 0) ps >>= λ x. ok (n.trunc (n.mul x (n.of_ℕ multiplier))))
unfolding expand_time
expand_time-print F ⦃n⦄ ps default_unit multiplier written =
    ap
      (λ found.
        add_parts default_unit (n.of_ℕ 0) found >>= λ x. ok (n.trunc (n.mul x (n.of_ℕ multiplier))))
      (findall-print ps written)
    ∙ ap (λ r. r >>= λ x. ok (n.trunc (n.mul x (n.of_ℕ multiplier))))
        (sum_parts default_unit (n.of_ℕ 0) ps)
