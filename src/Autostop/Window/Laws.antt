-- ===== src/Autostop/Window/Laws.antt =====
-- Lemmas on the window of the cumulative code criteria and on whole histories of seconds.
use mathlib.Core.Path.{subst}
use mathlib.Core.List.{append-nil, append_assoc}
use yandex_tank.Prelude.{
  ℕ, suc, ◌+◌, ◌-◌, ◌<◌, ◌≡◌, refl, sym, ◌∙◌, inl, inr, Bool, true, false, ◌&&◌, Option, some, List,
  [], ◌∷◌, ◌++◌, arith, ltb, leb, if◌then◌else◌, Bool-cases, length, length-append, head?,
}
use yandex_tank.Prelude.Result.{Result, ok, ◌>>=◌, >>=-eq-ok, map_ok}
use yandex_tank.Prelude.Queue.{bounded, last_n, last_n-nil, bounded-last_n, length-last_n}
use yandex_tank.Numbers.{Numbers, is_zero, sum_of}
use yandex_tank.Autostop.Sample.{Data, Second}
use yandex_tank.Autostop.Streak.{Notified, quiet}
use yandex_tank.Autostop.Streak.Laws.{feed}
use yandex_tank.Autostop.Window.{Window, slide, average, decide, window_step}

-- A positive int is not zero.
abbrev pub IsCounting : (F : Type 0) ⦃n : Numbers F⦄ → Type 0
IsCounting F ⦃n⦄ = (k : ℕ) → is_zero (n.of_ℕ (suc k)) ≡ false

abbrev pub answer : Bool → Notified
answer b = record { triggered = b; counting = false }

pub head?-length {ℓ} :
    {A : Type ℓ} (xs : List A) (k : ℕ) → length xs ≡ suc k → (a : A) × (head? xs ≡ some a)
head?-length [] k h = absurd (omega (arith, h))
head?-length (x ∷ xs) k h = (x, refl)

and_false : (a b : Bool) → b ≡ false → (a && b) ≡ false
and_false a b h = ground arith

module _ {F : Type 0} ⦃n : Numbers F⦄ where
  -- The average of the measurements: their sum over their number if the level is a share, and the
  -- sum itself if it is absolute.
  abbrev pub mean : Bool → List F → F
  mean relative xs = n.quot (sum_of xs) (n.of_ℕ (if relative then length xs else 1))

  -- The answer that the last seconds call for.
  abbrev pub reaches : Window F → List F → Bool
  reaches c xs =
      n.le c.level.level (mean c.level.is_relative (last_n c.seconds_limit xs))
      && leb c.seconds_limit (length xs)

  -- The criterion with its queues and its blamed second replaced.
  abbrev pub moved : Option (Second F) → List F → List (Second F) → Window F → Window F
  moved cause xs ss c = record c { cause_second = cause; measured = xs; second_window = ss }

  abbrev pub blamed : Bool → Option (Second F) → List (Second F) → Option (Second F)
  blamed b old ss = if b then head? ss else old

  slide_lem :
      (x : F) (s : Second F) (c : Window F)
      → length c.measured ≡ length c.second_window
      → slide x s c
        ≡ moved c.cause_second
            (bounded c.seconds_limit x c.measured)
            (bounded c.seconds_limit s c.second_window)
            c
  unfolding slide
  slide_lem x s c same =
      let e : length (c.second_window ++ s ∷ []) ≡ length (c.measured ++ x ∷ []) =
        omega (arith, length-append c.second_window (s ∷ []), length-append c.measured (x ∷ [])) in
      elim (Bool-cases (ltb c.seconds_limit (length (c.measured ++ x ∷ [])))) [
        | inl t ↦ rw (e, t) refl
        | inr f ↦ rw (e, f) refl
      ]

  average_lem :
      IsCounting F
      → (c : Window F) (k : ℕ) → length c.measured ≡ suc k
      → average c ≡ ok (mean c.level.is_relative c.measured)
  unfolding average
  average_lem counting c k h = elim (Bool-cases c.level.is_relative) [
    | inl t ↦
        let z : is_zero (n.of_ℕ (length c.measured)) ≡ false = rw h (counting k) in rw (t, z) refl
    | inr f ↦ rw (f, counting 0) refl
  ]

  decide_lem :
      IsCounting F
      → (c : Window F) (k : ℕ) → length c.measured ≡ suc k
      → length c.second_window ≡ suc k
      → let b =
          n.le c.level.level (mean c.level.is_relative c.measured)
          && leb c.seconds_limit (length c.measured) in
        decide c
        ≡ ok
            (moved (blamed b c.cause_second c.second_window) c.measured c.second_window c, answer b)
  unfolding decide
  decide_lem counting c k h h' =
      let (s, first) = head?-length c.second_window k h' in
      let b : Bool =
        n.le c.level.level (mean c.level.is_relative c.measured)
        && leb c.seconds_limit (length c.measured) in
      elim (Bool-cases b) [
        | inl t ↦ rw (average_lem counting c k h, t, first) refl
        | inr f ↦ rw (average_lem counting c k h, f) refl
      ]

  full-last_n :
      (limit : ℕ) (xs : List F) → leb limit (length (last_n limit xs)) ≡ leb limit (length xs)
  full-last_n limit xs = ground (arith, length-last_n limit xs)

module _ {F : Type 0} ⦃n : Numbers F⦄ (counting : IsCounting F) (c : Window F)
    (positive : 0 < c.seconds_limit) where
  length-last_n_concat :
      {A : Type 0} (xs : List A) (x : A)
      → length (last_n c.seconds_limit (xs ++ x ∷ []))
        ≡ suc (length xs - (length xs + 1 - c.seconds_limit))
  length-last_n_concat xs x =
      omega (arith, length-last_n c.seconds_limit (xs ++ x ∷ []), length-append xs (x ∷ []))

  window_step_lem :
      (cause : Option (Second F)) (xs : List F) (ss : List (Second F)) (x : F) (s : Second F)
      → length xs ≡ length ss
      → let xs' = xs ++ x ∷ [] in
        let ss' = last_n c.seconds_limit (ss ++ s ∷ []) in
        window_step x s (moved cause (last_n c.seconds_limit xs) (last_n c.seconds_limit ss) c)
        ≡ ok (
          moved (blamed (reaches c xs') cause ss') (last_n c.seconds_limit xs') ss' c,
          answer (reaches c xs'),
        )
  unfolding window_step
  window_step_lem cause xs ss x s same =
      let L = c.seconds_limit in
      rw
        (
          slide_lem x s (moved cause (last_n L xs) (last_n L ss) c)
              (omega (arith, length-last_n L xs, length-last_n L ss, same)),
          bounded-last_n L x xs,
          bounded-last_n L s ss,
          decide_lem counting (moved cause (last_n L (xs ++ x ∷ [])) (last_n L (ss ++ s ∷ [])) c)
              (length xs - (length xs + 1 - L)) (length-last_n_concat xs x)
              (omega (arith, length-last_n_concat ss s, same)),
          full-last_n L (xs ++ x ∷ []),
        )
        refl

  module _ (measure : Window F → Data F → Result F)
      (stable : (cause : Option (Second F)) (xs : List F) (ss : List (Second F)) (d : Data F)
        → measure (moved cause xs ss c) d ≡ measure c d) where
    abbrev one : Window F → Second F → Result (Window F × Notified)
    one c' s = measure c' s.0 >>= λ x. window_step x s c'

    abbrev at : Option (Second F) → List F → List (Second F) → Window F
    at cause xs ss = moved cause (last_n c.seconds_limit xs) (last_n c.seconds_limit ss) c

    -- What a history with these measurements leaves behind.
    abbrev SeesWindow : Result (Window F × Notified) → List F → List (Second F) → Type 0
    SeesWindow r xs ss =
        (cause : Option (Second F)) × (r ≡ ok (at cause xs ss, answer (reaches c xs)))
        × (reaches c xs ≡ true → cause ≡ head? (last_n c.seconds_limit ss))

    one_lem :
        (cause : Option (Second F)) (xs : List F) (ss : List (Second F)) (x : F) (s : Second F)
        → length xs ≡ length ss
        → measure c s.0 ≡ ok x
        → let b = reaches c (xs ++ x ∷ []) in
          one (at cause xs ss) s
          ≡ ok (
            at
                (blamed b cause (last_n c.seconds_limit (ss ++ s ∷ [])))
                (xs ++ x ∷ [])
                (ss ++ s ∷ []),
            answer b,
          )
    one_lem cause xs ss x s same e = rw (stable, e) (window_step_lem cause xs ss x s same)

    blamed-head :
        (b : Bool) (cause : Option (Second F)) (ss : List (Second F))
        → b ≡ true
        → blamed b cause ss ≡ head? ss
    blamed-head b cause ss h = rw h

    feed-SeesWindow_cons :
        (cause : Option (Second F)) (xs₀ : List F) (ss₀ : List (Second F)) (xs : List F)
        (ss : List (Second F)) (s : Second F) (x : F) (xs' : List F)
        → length xs₀ ≡ length ss₀
        → measure c s.0 ≡ ok x
        → x ∷ xs' ≡ xs
        → ((cause' : Option (Second F))
            → (reaches c (xs₀ ++ x ∷ []) ≡ true
                → cause' ≡ head? (last_n c.seconds_limit (ss₀ ++ s ∷ [])))
            → SeesWindow
                (feed one
                  (at cause' (xs₀ ++ x ∷ []) (ss₀ ++ s ∷ []))
                  (answer (reaches c (xs₀ ++ x ∷ [])))
                  ss)
                ((xs₀ ++ x ∷ []) ++ xs')
                ((ss₀ ++ s ∷ []) ++ ss))
        → SeesWindow
            (feed one (at cause xs₀ ss₀) (answer (reaches c xs₀)) (s ∷ ss))
            (xs₀ ++ xs)
            (ss₀ ++ s ∷ ss)
    feed-SeesWindow_cons cause xs₀ ss₀ xs ss s x xs' same ex cons rest =
        let blame =
          blamed (reaches c (xs₀ ++ x ∷ [])) cause (last_n c.seconds_limit (ss₀ ++ s ∷ [])) in
        let (cause'', fed, h) = rest blame (
          blamed-head (reaches c (xs₀ ++ x ∷ [])) cause (last_n c.seconds_limit (ss₀ ++ s ∷ []))) in
        let to_xs : (xs₀ ++ x ∷ []) ++ xs' ≡ xs₀ ++ xs = rw (append_assoc, cons) refl in
        let to_ss : (ss₀ ++ s ∷ []) ++ ss ≡ ss₀ ++ s ∷ ss = append_assoc ss₀ (s ∷ []) ss in
        (
          cause'',
          rw (one_lem cause xs₀ ss₀ x s same ex) (rw (to_xs, to_ss) at fed),
          rw (to_xs, to_ss) at h,
        )

    feed-SeesWindow_from :
        (cause : Option (Second F)) (xs₀ : List F) (ss₀ : List (Second F)) (xs : List F)
        (ss : List (Second F))
        → length xs₀ ≡ length ss₀
        → map_ok (λ (s : Second F). measure c s.0) ss ≡ ok xs
        → (reaches c xs₀ ≡ true → cause ≡ head? (last_n c.seconds_limit ss₀))
        → SeesWindow
            (feed one (at cause xs₀ ss₀) (answer (reaches c xs₀)) ss)
            (xs₀ ++ xs)
            (ss₀ ++ ss)
    feed-SeesWindow_from cause xs₀ ss₀ xs [] same m h =
        let none_left : [] ≡ xs = cc in rw (← none_left, append-nil, append-nil) (cause, refl, h)
    feed-SeesWindow_from cause xs₀ ss₀ xs (s ∷ ss) same m h =
        let (x, ex, m₁) = >>=-eq-ok (measure c s.0) _ m in
        let (xs', exs, m₂) = >>=-eq-ok (map_ok (λ (t : Second F). measure c t.0) ss) _ m₁ in
        feed-SeesWindow_cons cause xs₀ ss₀ xs ss s x xs' same ex (cc) (λ cause' h'.
          feed-SeesWindow_from cause' (xs₀ ++ x ∷ []) (ss₀ ++ s ∷ []) xs' ss
            (omega (arith, length-append xs₀ (x ∷ []), length-append ss₀ (s ∷ []))) exs h')

    starts-empty : c.measured ≡ [] → c.second_window ≡ [] → at c.cause_second [] [] ≡ c
    starts-empty hm hs = λ i. record c {
      measured = (last_n-nil c.seconds_limit ∙ sym hm) i;
      second_window = (last_n-nil c.seconds_limit ∙ sym hs) i;
    }

    reaches-nil : reaches c [] ≡ false
    reaches-nil = and_false _ (leb c.seconds_limit 0) (ground arith)

    pub feed-SeesWindow :
        c.measured ≡ []
        → c.second_window ≡ []
        → (ss : List (Second F)) (xs : List F) → map_ok (λ (s : Second F). measure c s.0) ss ≡ ok xs
        → SeesWindow (feed one c quiet ss) xs ss
    feed-SeesWindow hm hs ss xs m =
        let from = feed-SeesWindow_from c.cause_second [] [] xs ss refl m (λ h. cc reaches-nil) in
        subst (λ v. SeesWindow (feed one v quiet ss) xs ss) (starts-empty hm hs)
          (subst (λ b. SeesWindow (feed one (at c.cause_second [] []) (answer b) ss) xs ss)
            reaches-nil from)
