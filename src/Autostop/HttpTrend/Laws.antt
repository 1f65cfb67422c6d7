-- ===== src/Autostop/HttpTrend/Laws.antt =====
-- The two queues of the trend criterion, and the exceptions of its `notify`.
use yandex_tank.Prelude.{
  ℕ, zero, suc, ◌+◌, ◌-◌, ◌≤◌, ◌<◌, ◌≡◌, refl, inl, inr, true, false, some, List, [], ◌∷◌, ◌++◌,
  arith, ltb, Bool-cases, ltb_iff, ltb→le, length, length-append, tail,
}
use yandex_tank.Prelude.Result.{ok, err, index_error}
use yandex_tank.Numbers.{Numbers, divide, sum_of}
use yandex_tank.Autostop.Sample.{Second}
use yandex_tank.Autostop.Streak.{Notified, quiet}
use yandex_tank.Autostop.Streak.Laws.{feed}
use yandex_tank.Autostop.Window.Laws.{IsCounting, head?-length}
use yandex_tank.Autostop.HttpTrend.{
  HttpTrend, parse_data, calc_measurement_error, squares_from, slide, decide, notify,
}

length-tail {ℓ} : {A : Type ℓ} (xs : List A) → length (tail xs) ≡ length xs - 1
length-tail [] = omega arith
length-tail (x ∷ xs) = omega arith

grown {ℓ} : {A : Type ℓ} (x : A) (xs : List A) → length (xs ++ x ∷ []) ≡ length xs + 1
grown x xs = rw length-append

long {ℓ} :
    {A : Type ℓ} (x : A) (xs : List A)
    → 2 < length (xs ++ x ∷ [])
    → 2 ≤ length (tail (xs ++ x ∷ []))
long x xs h = omega (arith, length-tail (xs ++ x ∷ []))

tails :
    {A B : Type 0} (x : A) (y : B) (xs : List A) (ys : List B)
    → (length (tail (xs ++ x ∷ [])) ≡ length xs) × (length (tail (ys ++ y ∷ [])) ≡ length ys)
tails x y xs ys =
    omega (arith, length-tail (xs ++ x ∷ []), length-tail (ys ++ y ∷ []), grown x xs, grown y ys)

-- Which numbers are not below 0.
abbrev pub NotBelow : (F : Type 0) ⦃n : Numbers F⦄ → F → Type 0
NotBelow F ⦃n⦄ x = n.lt x (n.of_ℕ 0) ≡ false

-- What the runtime's floats keep: 0 and squares are not below 0, and neither are sums and quotients
-- by positive ints of what is not below 0.
pub record KeepsSigns (F : Type 0) ⦃n : Numbers F⦄ : Type 0 where
  pub zero_sign : NotBelow F (n.of_ℕ 0)
  pub square_sign : (x : F) → NotBelow F (n.mul x x)
  pub add_sign : (x y : F) → NotBelow F x → NotBelow F y → NotBelow F (n.add x y)
  pub quot_sign : (x : F) (k : ℕ) → NotBelow F x → NotBelow F (n.quot x (n.of_ℕ (suc k)))

module _ {F : Type 0} ⦃n : Numbers F⦄ where
  squares_from-NotBelow :
      KeepsSigns F
      → (avg acc : F) (xs : List F) → NotBelow F acc
      → NotBelow F (squares_from avg acc xs)
  unfolding squares_from
  squares_from-NotBelow signs avg acc [] h = h
  squares_from-NotBelow signs avg acc (x ∷ xs) h =
      let d = n.sub x avg in
      squares_from-NotBelow signs avg (n.add acc (n.mul d d)) xs
        (signs.add_sign acc (n.mul d d) h (signs.square_sign d))

  quot-NotBelow :
      KeepsSigns F → (x : F) (k : ℕ) → 0 < k → NotBelow F x → NotBelow F (n.quot x (n.of_ℕ k))
  quot-NotBelow signs x zero more h = elim more [ ]
  quot-NotBelow signs x (suc k) more h = signs.quot_sign x k h

  -- One second for each tangent but the first.
  abbrev pub IsAligned : HttpTrend F → Type 0
  IsAligned c = length c.second_window + 1 ≡ length c.tangents

  slide-IsAligned :
      (x : F) (s : Second F) (c : HttpTrend F)
      → IsAligned c
      → 2 ≤ c.seconds_limit
      → IsAligned (slide x s c)
        × (2 ≤ length (slide x s c).tangents)
        × ((slide x s c).seconds_limit ≡ c.seconds_limit)
  unfolding slide
  slide-IsAligned x s c h two =
      elim (Bool-cases (ltb c.seconds_limit (length (c.tangents ++ n.sub x c.last ∷ [])))) [
        | inl t ↦ rw t (
          omega (arith, tails s (n.sub x c.last) c.second_window c.tangents),
          long (n.sub x c.last) c.tangents (omega (arith, (ltb_iff _ _).0 t)),
          refl,
        )
        | inr f ↦ rw f (
          omega (arith, grown s c.second_window, grown (n.sub x c.last) c.tangents),
          omega (arith, grown (n.sub x c.last) c.tangents),
          refl,
        )
      ]

  -- The average of the tangents.
  abbrev pub trend : HttpTrend F → F
  trend c = n.quot (sum_of c.tangents) (n.of_ℕ (length c.tangents))

  module _ (counting : IsCounting F) where
    divide-of_ℕ : (a : F) (k : ℕ) → 0 < k → divide a (n.of_ℕ k) ≡ ok (n.quot a (n.of_ℕ k))
    divide-of_ℕ a zero h = elim h [ ]
    divide-of_ℕ a (suc k) h = rw (counting k)

    calc_measurement_error_total :
        KeepsSigns F → (xs : List F) → (x : F) × (calc_measurement_error xs ≡ ok x)
    unfolding calc_measurement_error
    calc_measurement_error_total signs xs = elim (Bool-cases (ltb (length xs) 2)) [
      | inl t ↦ (n.of_ℕ 0, rw t)
      | inr f ↦
          let two = ltb→le (length xs) 2 f in
          let avg = n.quot (sum_of xs) (n.of_ℕ (length xs)) in
          let x = n.quot (squares_from avg (n.of_ℕ 0) xs) (n.of_ℕ (length xs)) in
          let some : 0 < length xs = omega (arith, two) in
          let more : 0 < length xs - 1 = omega (arith, two) in
          let y = n.quot x (n.of_ℕ (length xs - 1)) in
          let squares = squares_from-NotBelow signs avg (n.of_ℕ 0) xs signs.zero_sign in
          let sign : NotBelow F y =
            quot-NotBelow signs x (length xs - 1) more
              (quot-NotBelow signs (squares_from avg (n.of_ℕ 0) xs) (length xs) some squares) in
          (
            n.sqrt y,
            rw (
              f,
              divide-of_ℕ (sum_of xs) (length xs) (omega arith),
              divide-of_ℕ (squares_from avg (n.of_ℕ 0) xs) (length xs) (omega arith),
              divide-of_ℕ x (length xs - 1) (omega arith),
              sign,
            ),
          )
    ]

    decide_total :
        KeepsSigns F
        → (c : HttpTrend F) → IsAligned c
        → 2 ≤ length c.tangents
        → (c' : HttpTrend F) × (r : Notified) × (decide c ≡ ok (c', r))
          × IsAligned c'
          × (c'.seconds_limit ≡ c.seconds_limit)
    unfolding decide
    decide_total signs c aligned two =
        let (error, e) = calc_measurement_error_total signs c.tangents in
        let t = divide-of_ℕ (sum_of c.tangents) (length c.tangents) (omega arith) in
        let (s, first) = head?-length c.second_window (length c.tangents - 2) (omega arith) in
        let c' = record c { measurement_error = error; total_tan = trend c } in
        elim (Bool-cases (n.lt (n.add (trend c) error) (n.of_ℕ 0))) [
          | inl falling ↦ (
            record c' { cause_second = some s },
            record { triggered = true; counting = false },
            rw (e, t, falling, first),
            aligned,
            refl,
          )
          | inr steady ↦ (c', quiet, rw (e, t, steady), aligned, refl)
        ]

    -- On a runtime where a positive int is not zero and where sums of squares, and their quotients
    -- by positive ints, are not below 0: for a criterion http_trend with a `seconds_limit` of at
    -- least 2 that holds one second fewer than tangents, as a new one does, no history of seconds
    -- makes a call of `notify` raise (neither a division by zero, nor the root of a negative
    -- number, nor an empty queue), and the criterion holds one second fewer than tangents after it.
    pub notify-total :
        KeepsSigns F
        → (c : HttpTrend F) (r : Notified) (ss : List (Second F)) → IsAligned c
        → 2 ≤ c.seconds_limit
        → (c' : HttpTrend F) × (r' : Notified) × (feed notify c r ss ≡ ok (c', r')) × IsAligned c'
    unfolding notify
    notify-total signs c r [] aligned two = (c, r, refl, aligned)
    notify-total signs c r (s ∷ ss) aligned two =
        let (a, long, same) = slide-IsAligned (n.of_ℕ (parse_data c s.0)) s c aligned two in
        let (c₁, r₁, e, a₁, same₁) =
          decide_total signs (slide (n.of_ℕ (parse_data c s.0)) s c) a long in
        let (c', r', fed, a') = notify-total signs c₁ r₁ ss a₁ (rw (same₁, same) two) in
        (c', r', rw e fed, a')

    -- On the same runtime, with a `seconds_limit` of 1 (one tangent and no second are held between
    -- two calls): if the count of matching codes has changed by an amount whose trend is negative,
    -- `notify` raises IndexError and does not stop the test.
    pub notify-index_error :
        (c : HttpTrend F) (s : Second F) (t : F)
        → c.seconds_limit ≡ 1
        → c.tangents ≡ t ∷ []
        → c.second_window ≡ []
        → (let change = n.sub (n.of_ℕ (parse_data c s.0)) c.last in
            n.lt (n.add (n.quot (n.add (n.of_ℕ 0) change) (n.of_ℕ 1)) (n.of_ℕ 0)) (n.of_ℕ 0) ≡ true)
        → notify c s ≡ err index_error
    unfolding notify
    notify-index_error c s t one tangents none_seen falling =
        rw (one, tangents, none_seen, counting 0, falling)
