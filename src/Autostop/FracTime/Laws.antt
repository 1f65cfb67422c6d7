-- ===== src/Autostop/FracTime/Laws.antt =====
-- The failed responses of the windowed time criterion, and its window of seconds.
use yandex_tank.Prelude.{
  ℕ, zero, suc, ◌+◌, ◌≤◌, ◌<◌, ◌≡◌, refl, sym, ap, ◌∙◌, inl, inr, true, false, some, List, [], ◌∷◌,
  ◌++◌, arith, ◌||◌, ◌==◌, ==_iff, ==→ne, Bool-cases, length, get_elem?, head?, last?, drop, sum,
  leb, if◌then◌else◌,
}
use yandex_tank.Prelude.Result.{Result, ok, err, >>=-eq-ok}
use yandex_tank.Prelude.Queue.{last_n, bounded-last_n, last_n-concat}
use yandex_tank.Numbers.{Numbers}
use yandex_tank.Autostop.Sample.{Data, Second, Section, view, View}
use yandex_tank.Autostop.Streak.{Notified}
use yandex_tank.Autostop.WindowCounter
use yandex_tank.Autostop.FracTime.{
  FracTime, is_numpy_count, ratio_of, cumsum, count_from, count_view, fail_count, parse_data,
  record_second, decide, notify,
}

length-cumsum : (acc : ℕ) (xs : List ℕ) → length (cumsum acc xs) ≡ length xs
unfolding cumsum
length-cumsum acc [] = refl
length-cumsum acc (x ∷ xs) = ap suc (length-cumsum (acc + x) xs)

last?-cumsum : (acc x : ℕ) (xs : List ℕ) → last? (cumsum acc (x ∷ xs)) ≡ some (acc + x + sum xs)
unfolding cumsum
last?-cumsum acc x [] = ap some (omega arith)
last?-cumsum acc x (y ∷ ys) = last?-cumsum (acc + x) y ys ∙ ap some (omega arith)

-- Entry `i` of the running sums, by what is behind it.
get_elem?-cumsum :
    (acc i : ℕ) (xs : List ℕ)
    → i < length xs
    → (k : ℕ) × (get_elem? (cumsum acc xs) i ≡ some k) × (k + sum (drop (suc i) xs) ≡ acc + sum xs)
unfolding cumsum
get_elem?-cumsum acc i [] h = elim h [ ]
get_elem?-cumsum acc zero (x ∷ xs) h = (acc + x, refl, omega arith)
get_elem?-cumsum acc (suc i) (x ∷ xs) h =
    let (k, e, s) = get_elem?-cumsum (acc + x) i xs (omega arith) in (k, e, omega arith)

-- The responses that count as slow: all of them if the limit is not above the first edge, else
-- those of the bins behind the one that holds the limit.
abbrev pub slow : ℕ → List ℕ → ℕ
slow zero xs = sum xs
slow (suc i) xs = sum (drop (suc (suc i)) xs)

drop-all {ℓ} : {A : Type ℓ} (k : ℕ) (xs : List A) → length xs ≤ k → drop k xs ≡ []
drop-all zero [] h = refl
drop-all zero (x ∷ xs) h = elim h [ ]
drop-all (suc k) [] h = refl
drop-all (suc k) (x ∷ xs) h = drop-all k xs (omega arith)

suc-ne_zero : (i : ℕ) → (suc i == 0) ≡ false
suc-ne_zero i = ground arith

count_from-cumsum :
    (x : ℕ) (xs : List ℕ) (i : ℕ)
    → i ≤ length (x ∷ xs)
    → count_from (cumsum 0 (x ∷ xs)) i ≡ ok (slow i (x ∷ xs))
unfolding count_from
count_from-cumsum x xs zero h = rw (last?-cumsum 0 x xs) (ap ok (omega arith))
count_from-cumsum x xs (suc i) h = elim (Bool-cases (suc i == length (cumsum 0 (x ∷ xs)))) [
  | inl end ↦
      rw
        (
          suc-ne_zero i,
          end,
          drop-all (suc i) xs (
              omega (
                arith,
                length-cumsum 0 (x ∷ xs),
                (==_iff (suc i) (length (cumsum 0 (x ∷ xs)))).0 end,
              )),
        )
        refl
  | inr inside ↦
      let (k, e, split) = get_elem?-cumsum 0 (suc i) (x ∷ xs) (
        omega
          (arith, length-cumsum 0 (x ∷ xs), ==→ne (suc i) (length (cumsum 0 (x ∷ xs))) inside)) in
      rw (suc-ne_zero i, inside, last?-cumsum 0 x xs, e) (ap ok (omega arith))
]

-- The edges of the bins do not fall.
abbrev pub IsAscending : List ℕ → Type 0
IsAscending [] = Unit
IsAscending (b ∷ []) = Unit
IsAscending (b ∷ b' ∷ bs) = (b ≤ b') × IsAscending (b' ∷ bs)

-- The responses of the bins whose lower edge, which is the edge of the bin before, is not below the
-- limit.
abbrev pub behind : (limit lower : ℕ) (edges counts : List ℕ) → ℕ
behind limit lower [] counts = 0
behind limit lower (b ∷ bs) [] = 0
behind limit lower (b ∷ bs) (x ∷ xs) = (if leb limit lower then x else 0) + behind limit b bs xs

-- The same for a whole histogram: the first bin, which has no lower edge, goes by its own edge.
abbrev pub over_limit : (limit : ℕ) (edges counts : List ℕ) → ℕ
over_limit limit [] counts = 0
over_limit limit (b ∷ bs) [] = 0
over_limit limit (b ∷ bs) (x ∷ xs) = (if leb limit b then x else 0) + behind limit b bs xs

-- What the criterion reads of a second: the tag's part or the overall one.
abbrev pub part_of : {F : Type 0} → View F → Data F → Section F
part_of View.overall d = d.overall
part_of (View.tagged s) d = s
part_of View.absent d = d.overall

module _ {F : Type 0} ⦃n : Numbers F⦄ where
  -- A criterion with a tag, in a second without that tag: every response of the second counts as
  -- failed, and the number of all responses is that of the second.
  pub fail_count-absent :
      (c : FracTime F) (d : Data F) (x : ℕ) (xs : List ℕ)
      → view c.tag d ≡ View.absent
      → d.overall.interval_real.hist_data ≡ x ∷ xs
      → (fail_count c d ≡ ok (sum d.overall.interval_real.hist_data))
        × (parse_data c d ≡ d.overall.interval_real.len)
  unfolding fail_count parse_data count_view
  fail_count-absent c d x xs absent hist =
      (rw absent (rw hist (count_from-cumsum x xs 0 (omega arith))), rw (absent, parse_data))

  seconds_of : FracTime F → Result (FracTime F) → List (Second F)
  seconds_of c (ok c') = c'.seconds
  seconds_of c (err e) = c.seconds

  window_of : FracTime F → Result (FracTime F) → ℕ
  window_of c (ok c') = c'.window_size
  window_of c (err e) = c.window_size

  record_second-seconds :
      (c : FracTime F) (s : Second F) {c₁ : FracTime F}
      → record_second c s ≡ ok c₁
      → (c₁.seconds ≡ c.seconds ++ s ∷ []) × (c₁.window_size ≡ c.window_size)
  unfolding record_second seconds_of window_of
  record_second-seconds c s h =
      let (fails, _, rest) = >>=-eq-ok (fail_count c s.0) _ h in
      let (ratio, _, done) =
        >>=-eq-ok
          (ratio_of (c.is_numpy || is_numpy_count c.rt_limit s.0 (view c.tag s.0))
            (WindowCounter.push fails c.fail_counter).value
            (WindowCounter.push (parse_data c s.0) c.total_counter).value)
          _ rest in
      (ap (λ r. seconds_of c r) (sym done), ap (λ r. window_of c r) (sym done))

  -- The answer after the counters have moved on.
  decide-blames :
      (c : FracTime F) (old : List (Second F)) (s : Second F) {c' : FracTime F} {r : Notified}
      → c.seconds ≡ last_n c.window_size old ++ s ∷ []
      → decide c ≡ ok (c', r)
      → (r.triggered ≡ false → c'.seconds ≡ last_n c.window_size (old ++ s ∷ []))
        × (r.triggered ≡ true
            → c'.cause_second ≡ head? (last_n (suc c.window_size) (old ++ s ∷ [])))
  unfolding decide
  decide-blames c old s e h =
      ground (arith, bounded-last_n c.window_size s old, last_n-concat c.window_size old s)

  notify_split :
      (c : FracTime F) (s : Second F) {x : FracTime F × Notified}
      → notify c s ≡ ok x
      → (c₁ : FracTime F) × (record_second c s ≡ ok c₁) × (decide c₁ ≡ ok x)
  unfolding notify
  notify_split c s h = >>=-eq-ok (record_second c s) decide h

  answered :
      (c : FracTime F) (old : List (Second F)) (s : Second F) {c' : FracTime F} {r : Notified}
      → c.seconds ≡ last_n c.window_size old
      → notify c s ≡ ok (c', r)
      → (r.triggered ≡ false → c'.seconds ≡ last_n c.window_size (old ++ s ∷ []))
        × (r.triggered ≡ true
            → c'.cause_second ≡ head? (last_n (suc c.window_size) (old ++ s ∷ [])))
  answered c old s holds h =
      let (c₁, recorded, decided) = notify_split c s h in
      let (grown, same) = record_second-seconds c s recorded in
      rw same at (decide-blames c₁ old s (grown ∙ rw (same, holds)) decided)

  -- Let the criterion hold the last `window_size` seconds, as a new one does, and let `notify`
  -- answer False. Then it again holds the last `window_size` seconds.
  pub notify-slides :
      (c : FracTime F) (old : List (Second F)) (s : Second F) (c' : FracTime F) (r : Notified)
      → c.seconds ≡ last_n c.window_size old
      → notify c s ≡ ok (c', r)
      → r.triggered ≡ false
      → c'.seconds ≡ last_n c.window_size (old ++ s ∷ [])
  notify-slides c old s c' r holds h = (answered c old s holds h).0

  -- Let the criterion hold the last `window_size` seconds, as a new one does, and let `notify`
  -- answer True. Then the second that it blames is the first of the last `window_size + 1`: with
  -- more seconds seen than the window holds, that is a second which is not among those counted.
  pub notify-blames :
      (c : FracTime F) (old : List (Second F)) (s : Second F) (c' : FracTime F) (r : Notified)
      → c.seconds ≡ last_n c.window_size old
      → notify c s ≡ ok (c', r)
      → r.triggered ≡ true
      → c'.cause_second ≡ head? (last_n (suc c.window_size) (old ++ s ∷ []))
  notify-blames c old s c' r holds h = (answered c old s holds h).1
