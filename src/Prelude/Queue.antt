-- ===== src/Prelude/Queue.antt =====
-- A queue that keeps the last entries: append, and drop the first once it is over the limit.
use yandex_tank.Prelude.{
  ℕ, zero, suc, ◌-◌, ◌≤◌, ◌<◌, ◌≡◌, refl, ap, ◌∙◌, inl, inr, List, [], ◌∷◌, ◌++◌, arith, ltb,
  if◌then◌else◌, Bool-cases, ltb_iff, ltb→le, length, length-append, length-drop, drop, tail,
}

module _ {ℓ} {A : Type ℓ} where
  -- the last `k` entries
  abbrev pub last_n : ℕ → List A → List A
  last_n k xs = drop (length xs - k) xs

  abbrev pub bounded : ℕ → A → List A → List A
  bounded limit x q = if ltb limit (length (q ++ x ∷ [])) then tail (q ++ x ∷ []) else q ++ x ∷ []

  drop-append : (k : ℕ) (xs ys : List A) → k ≤ length xs → drop k xs ++ ys ≡ drop k (xs ++ ys)
  drop-append zero xs ys h = refl
  drop-append (suc k) [] ys h = elim h [ ]
  drop-append (suc k) (x ∷ xs) ys h = drop-append k xs ys (omega arith)

  tail-drop : (k : ℕ) (xs : List A) → tail (drop k xs) ≡ drop (suc k) xs
  tail-drop zero [] = refl
  tail-drop zero (x ∷ xs) = refl
  tail-drop (suc k) [] = refl
  tail-drop (suc k) (x ∷ xs) = tail-drop k xs

  drop-nil : (k : ℕ) → drop {A = A} k [] ≡ []
  drop-nil zero = refl
  drop-nil (suc k) = refl

  pub last_n-nil : (k : ℕ) → last_n k [] ≡ []
  last_n-nil k = drop-nil (0 - k)

  pub length-last_n : (k : ℕ) (xs : List A) → length (last_n k xs) ≡ length xs - (length xs - k)
  length-last_n k xs = length-drop (length xs - k) xs

  -- Appending keeps one entry more.
  pub last_n-concat :
      (k : ℕ) (xs : List A) (x : A) → last_n k xs ++ x ∷ [] ≡ last_n (suc k) (xs ++ x ∷ [])
  last_n-concat k xs x =
      drop-append (length xs - k) xs (x ∷ []) (omega arith)
      ∙ ap (λ j. drop j (xs ++ x ∷ [])) (omega (arith, length-append xs (x ∷ [])))

  trim-drop :
      (limit k : ℕ) (zs : List A)
      → 0 < length zs
      → k ≡ length zs - 1 - limit
      → (if ltb limit (length (drop k zs)) then tail (drop k zs) else drop k zs)
        ≡ drop (length zs - limit) zs
  trim-drop limit k zs h e = elim (Bool-cases (ltb limit (length (drop k zs)))) [
    | inl t ↦
        rw (t, tail-drop)
          (ap (λ j. drop j zs) {x = suc k} (omega (arith, length-drop k zs, (ltb_iff limit _).0 t)))
    | inr f ↦ rw f (ap (λ j. drop j zs) {x = k} (omega (arith, length-drop k zs, ltb→le _ _ f)))
  ]

  -- The queue of the last entries stays that.
  pub bounded-last_n :
      (limit : ℕ) (x : A) (xs : List A)
      → bounded limit x (last_n limit xs) ≡ last_n limit (xs ++ x ∷ [])
  bounded-last_n limit x xs = rw (drop-append (length xs - limit) xs (x ∷ []) (omega arith)) (
      trim-drop limit (length xs - limit) (xs ++ x ∷ []) (omega (arith, length-append xs (x ∷ [])))
        (omega (arith, length-append xs (x ∷ []))))
