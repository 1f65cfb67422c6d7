-- ===== src/Autostop/WindowCounter/Laws.antt =====
-- Lemmas on the running sum of `WindowCounter`.
use mathlib.Core.List.{append-nil, append_assoc}
use yandex_tank.Prelude.{
  ℕ, ◌+◌, ◌-◌, ◌≤◌, ◌<◌, ◌≡◌, refl, sym, ◌∙◌, inl, inr, List, [], ◌∷◌, ◌++◌, arith, ltb, Bool-cases,
  length, sum, sum-append, tail, drop, zero, suc,
}
use yandex_tank.Prelude.Queue.{bounded, last_n, last_n-nil, bounded-last_n}
use yandex_tank.Numbers.{Numbers}
use yandex_tank.Autostop.WindowCounter.{WindowCounter, pop_left, push, new_counter}

abbrev pub exact_limit : ℕ
exact_limit = 9007199254740992

-- Whole numbers below 2^53 are added and subtracted exactly, as IEEE 754 doubles are.
pub record ExactCounts (F : Type 0) ⦃n : Numbers F⦄ : Type 0 where
  pub add-of_ℕ : (a b : ℕ) → a + b < exact_limit → n.add (n.of_ℕ a) (n.of_ℕ b) ≡ n.of_ℕ (a + b)
  pub sub-of_ℕ : (a b : ℕ) → a + b < exact_limit → n.sub (n.of_ℕ (a + b)) (n.of_ℕ a) ≡ n.of_ℕ b

module _ {F : Type 0} ⦃n : Numbers F⦄ (exact : ExactCounts F) where
  open exact use {add-of_ℕ, sub-of_ℕ}

  -- `value` is the sum of the queue.
  abbrev IsSummed : WindowCounter F → Type 0
  IsSummed w = w.value ≡ n.of_ℕ (sum w.q)

  pop_parts :
      (size : ℕ) (v : F) (q : List ℕ)
      → v ≡ n.of_ℕ (sum q)
      → sum q < exact_limit
      → IsSummed (pop_left (record { window_size = size; value = v; q = q }))
  unfolding pop_left
  pop_parts size v [] h small = h
  pop_parts size v (x ∷ rest) h small = rw h (sub-of_ℕ x (sum rest) small)

  push-IsSummed :
      (x : ℕ) (w : WindowCounter F) → IsSummed w → sum w.q + x < exact_limit → IsSummed (push x w)
  unfolding push
  push-IsSummed x w h small =
      let total : sum (w.q ++ x ∷ []) ≡ sum w.q + x = rw sum-append (omega arith) in
      let grown : n.add w.value (n.of_ℕ x) ≡ n.of_ℕ (sum (w.q ++ x ∷ [])) =
        rw (h, total) (add-of_ℕ (sum w.q) x small) in
      elim (Bool-cases (ltb w.window_size (length (w.q ++ x ∷ [])))) [
        | inl t ↦ rw t (pop_parts w.window_size _ (w.q ++ x ∷ []) grown (omega (arith, total)))
        | inr f ↦ rw f grown
      ]

module _ {F : Type 0} ⦃n : Numbers F⦄ where
  pop_left-q :
      (size : ℕ) (v : F) (q : List ℕ)
      → (pop_left (record { window_size = size; value = v; q = q })).q ≡ tail q
  unfolding pop_left
  pop_left-q size v [] = refl
  pop_left-q size v (x ∷ rest) = refl

  pop_left-size :
      (size : ℕ) (v : F) (q : List ℕ)
      → (pop_left (record { window_size = size; value = v; q = q })).window_size ≡ size
  unfolding pop_left
  pop_left-size size v [] = refl
  pop_left-size size v (x ∷ rest) = refl

  -- `push` moves the queue on, and keeps its size.
  pub push-q :
      (x : ℕ) (w : WindowCounter F)
      → ((push x w).q ≡ bounded w.window_size x w.q) × ((push x w).window_size ≡ w.window_size)
  unfolding push
  push-q x w = elim (Bool-cases (ltb w.window_size (length (w.q ++ x ∷ [])))) [
    | inl t ↦
        rw t (
          pop_left-q w.window_size _ (w.q ++ x ∷ []),
          pop_left-size w.window_size _ (w.q ++ x ∷ []),
        )
    | inr f ↦ rw f (refl, refl)
  ]

  abbrev pub push_all : List ℕ → WindowCounter F → WindowCounter F
  push_all [] w = w
  push_all (x ∷ xs) w = push_all xs (push x w)

sum-drop : (k : ℕ) (xs : List ℕ) → sum (drop k xs) ≤ sum xs
sum-drop zero xs = omega arith
sum-drop (suc k) [] = omega arith
sum-drop (suc k) (x ∷ xs) = omega (arith, sum-drop k xs)

module _ {F : Type 0} ⦃n : Numbers F⦄ (exact : ExactCounts F) (size : ℕ) where
  push_all-from :
      (done xs : List ℕ) (w : WindowCounter F)
      → sum (done ++ xs) < exact_limit
      → w.window_size ≡ size
      → w.q ≡ last_n size done
      → w.value ≡ n.of_ℕ (sum w.q)
      → ((push_all xs w).q ≡ last_n size (done ++ xs))
        × ((push_all xs w).value ≡ n.of_ℕ (sum (last_n size (done ++ xs))))
  push_all-from done [] w small fits holds summed = rw append-nil (holds, rw (← holds) summed)
  push_all-from done (x ∷ xs) w small fits holds summed =
      let (q', size') = push-q x w in
      let holds' : (push x w).q ≡ last_n size (done ++ x ∷ []) =
        q' ∙ rw (fits, holds) (bounded-last_n size x done) in
      let room : sum w.q + x < exact_limit =
        rw holds (omega (arith, sum-drop (length done - size) done, sum-append done (x ∷ xs))) in
      rw append_assoc at (
        push_all-from (done ++ x ∷ []) xs (push x w) (rw append_assoc small) (size' ∙ fits) holds'
          (push-IsSummed exact x w summed room))

  -- After any pushes whose sum is below 2^53, on a runtime that computes such numbers exactly, the
  -- queue of a new counter holds the last `window_size` values, and `value` is their sum.
  pub push_all-sum :
      (xs : List ℕ)
      → sum xs < exact_limit
      → let w = push_all {F = F} xs (new_counter size) in
        (w.q ≡ last_n size xs) × (w.value ≡ n.of_ℕ (sum (last_n size xs)))
  unfolding new_counter
  push_all-sum xs small =
      push_all-from [] xs (new_counter {F = F} size) small refl (sym (last_n-nil size)) refl
