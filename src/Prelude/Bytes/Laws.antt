-- ===== src/Prelude/Bytes/Laws.antt =====
-- Reading back what was written.
use mathlib.Core.Path.{subst}
use yandex_tank.Prelude.{
  ℕ, zero, suc, ◌+◌, ◌-◌, ◌*◌, ◌/◌, ◌%◌, ◌<◌, Bool, true, false, some, [], ◌∷◌, ◌++◌, All,
  if◌then◌else◌, ◌≡◌, refl, ap, ◌⊎◌, inl, inr, arith,
}
use yandex_tank.Prelude.Int.{pos}
use yandex_tank.Prelude.Result.{ok}
use yandex_tank.Prelude.Text.{Text, is_digit}
use yandex_tank.Prelude.Bytes.{int_digits, int_of, show_from, show, signed}

int_digits-snoc :
    (after : Bool) (acc : ℕ) (s : Text) (v d : ℕ)
    → int_digits after acc s ≡ some v
    → d < 10
    → int_digits after acc (s ++ (48 + d) ∷ []) ≡ some (v * 10 + d)
unfolding int_digits is_digit
int_digits-snoc after acc [] v d h small = ground arith
int_digits-snoc after acc (c ∷ s) v d h small =
    ground
      (arith, int_digits-snoc (is_digit c) (if is_digit c then acc * 10 + (c - 48) else acc) s v d)

abbrev pub IsDigits : Text → Type 0
IsDigits = All (λ c. is_digit c ≡ true)

-- what `show` writes: digits, the first of them one
record Shown (n : ℕ) (s : Text) : Type 0 where
  value : int_digits false 0 s ≡ some n
  digits : IsDigits s
  first : ℕ
  rest : Text
  splits : s ≡ first ∷ rest

IsDigits-snoc : (s : Text) (d : ℕ) → IsDigits s → d < 10 → IsDigits (s ++ (48 + d) ∷ [])
unfolding is_digit
IsDigits-snoc [] d h small = (ground arith, tt)
IsDigits-snoc (c ∷ s) d h small = (h.0, IsDigits-snoc s d h.1 small)

pub ℕ-cases : (n : ℕ) → (n ≡ 0) ⊎ ((m : ℕ) × (n ≡ suc m))
ℕ-cases zero = inl refl
ℕ-cases (suc m) = inr (m, refl)

one_digit : (d : ℕ) → d < 10 → Shown d ((48 + d) ∷ [])
unfolding int_digits is_digit
one_digit d h = record {
  value = ground arith;
  digits = (ground arith, tt);
  first = 48 + d;
  rest = [];
  splits = refl;
}

Shown-snoc :
    {n : ℕ} {s : Text} (d : ℕ) → Shown n s → d < 10 → Shown (n * 10 + d) (s ++ (48 + d) ∷ [])
Shown-snoc {n} {s} d shown h = record {
  value = int_digits-snoc false 0 s n d shown.value h;
  digits = IsDigits-snoc s d shown.digits h;
  first = shown.first;
  rest = shown.rest ++ (48 + d) ∷ [];
  splits = ap (λ t. t ++ (48 + d) ∷ []) shown.splits;
}

show_from-Shown : (k n : ℕ) → n < k → Shown n (show_from k n)
show_from-Shown zero n h = absurd (omega (arith, h))
show_from-Shown (suc k) n h = elim (ℕ-cases (n / 10)) [
  | inl one ↦
      let e : n % 10 ≡ n = omega (arith, one) in
      rw (show_from, one, e) (one_digit n (omega (arith, one)))
  | inr (m, more) ↦
      let e : suc m * 10 + n % 10 ≡ n = omega (arith, more) in
      rw (show_from, more)
        (subst (λ x. Shown x (show_from k (suc m) ++ (48 + n % 10) ∷ [])) e
          (Shown-snoc (n % 10) (show_from-Shown k (suc m) (omega (arith, more))) (omega arith)))
]

int_of-digit :
    (c : ℕ) (s : Text)
    → is_digit c ≡ true
    → int_of (c ∷ s) ≡ signed pos (int_digits false 0 (c ∷ s))
unfolding int_of is_digit
int_of-digit c s h = ground arith

int_of-Shown : {n : ℕ} {s : Text} → Shown n s → int_of s ≡ ok (pos n)
int_of-Shown {n} {s} shown =
    let digits : IsDigits (shown.first ∷ shown.rest) = subst IsDigits shown.splits shown.digits in
    let value : int_digits false 0 (shown.first ∷ shown.rest) ≡ some n =
      rw (← shown.splits) shown.value in
    rw (shown.splits, int_of-digit shown.first shown.rest digits.0, value) refl

-- A number reads back.
pub int_of-show : (n : ℕ) → int_of (show n) ≡ ok (pos n)
unfolding show
int_of-show n = int_of-Shown (show_from-Shown (suc n) n (omega arith))

pub show-IsDigits : (n : ℕ) → IsDigits (show n)
unfolding show
show-IsDigits n = (show_from-Shown (suc n) n (omega arith)).digits

pub show_cons : (n : ℕ) → (c : ℕ) × (s : Text) × (show n ≡ c ∷ s)
unfolding show
show_cons n =
    let shown = show_from-Shown (suc n) n (omega arith) in (shown.first, shown.rest, shown.splits)
