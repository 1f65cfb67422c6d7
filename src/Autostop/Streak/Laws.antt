-- ===== src/Autostop/Streak/Laws.antt =====
-- The run of exceeding seconds that a history ends in, and the counting of a streak.
use mathlib.Core.Path.{fun_ext}
use mathlib.Core.List.{append-nil, append_assoc, map-append}
use yandex_tank.Prelude.{
  ℕ, suc, ◌≡◌, refl, sym, ap, ◌⊎◌, inl, inr, Bool, true, false, ◌&&◌, none, some, List, [], ◌∷◌,
  ◌++◌, map, arith, leb, if◌then◌else◌, length, length-append, head?, last?,
}
use yandex_tank.Prelude.Result.{Result, ok, ◌>>=◌, >>=-eq-ok, map_ok}
use yandex_tank.Autostop.Sample.{Second}
use yandex_tank.Autostop.Streak.{Streak, no_streak, Notified, quiet, streak_step}

abbrev pub is_cons {ℓ} : {A : Type ℓ} → List A → Bool
is_cons [] = false
is_cons (_ ∷ _) = true

abbrev trues {ℓ} : {A : Type ℓ} → List A → List Bool
trues = map (λ _. true)

-- The seconds `ss`, judged by `bs`, end in `run`: all of it exceeds, and the second before it, if
-- there is one, does not. The streak `k` counts the run and blames its first second, and `r` is
-- the answer for a limit.
pub record Ends {F : Type 0} (limit : ℕ) (ss : List (Second F)) (bs : List Bool) (k : Streak F)
    (r : Notified) : Type 0 where
  pub front : List (Second F)
  pub run : List (Second F)
  pub judged : List Bool
  pub seconds_split : ss ≡ front ++ run
  pub verdicts_split : bs ≡ judged ++ trues run
  pub same_length : length judged ≡ length front
  pub broken : (front ≡ []) ⊎ (last? judged ≡ some false)
  pub counted : k.seconds_count ≡ length run
  pub cause : (if is_cons run then k.cause_second else none) ≡ head? run
  pub triggered : r.triggered ≡ (is_cons run && leb limit (length run))
  pub counting : r.counting ≡ is_cons run

last?-concat {ℓ} : {A : Type ℓ} (xs : List A) (x : A) → last? (xs ++ x ∷ []) ≡ some x
last?-concat [] x = refl
last?-concat (y ∷ []) x = refl
last?-concat (y ∷ z ∷ zs) x = last?-concat (z ∷ zs) x

is_cons-concat {ℓ} : {A : Type ℓ} (xs : List A) (x : A) → is_cons (xs ++ x ∷ []) ≡ true
is_cons-concat [] x = refl
is_cons-concat (y ∷ ys) x = refl

length-trues {ℓ} : {A : Type ℓ} (xs : List A) → length (trues xs) ≡ length xs
length-trues [] = refl
length-trues (x ∷ xs) = ap suc (length-trues xs)

module _ {F : Type 0} (limit : ℕ) where
  pub Ends-nil : Ends limit [] [] (no_streak {F = F}) quiet
  Ends-nil = record {
    front = [];
    run = [];
    judged = [];
    seconds_split = refl;
    verdicts_split = refl;
    same_length = refl;
    broken = inl refl;
    counted = refl;
    cause = refl;
    triggered = refl;
    counting = refl;
  }

  Ends-length :
      {ss : List (Second F)} {bs : List Bool} {k : Streak F} {r : Notified}
      → Ends limit ss bs k r
      → length bs ≡ length ss
  Ends-length e =
      rw (
        e.seconds_split, e.verdicts_split, length-append, length-append, length-trues,
        e.same_length,
      )

  cause-step :
      (s : Second F) (k : Streak F) (run : List (Second F))
      → k.seconds_count ≡ length run
      → (if is_cons run then k.cause_second else none) ≡ head? run
      → (streak_step true limit s k).0.cause_second ≡ head? (run ++ s ∷ [])
  unfolding streak_step
  cause-step s k [] counted cause = ground arith
  cause-step s k (x ∷ run) counted cause = ground (arith, cause)

  Ends-step :
      {ss : List (Second F)} {bs : List Bool} {k : Streak F} {r : Notified} (b : Bool)
      (s : Second F)
      → Ends limit ss bs k r
      → let (k', r') = streak_step b limit s k in Ends limit (ss ++ s ∷ []) (bs ++ b ∷ []) k' r'
  unfolding streak_step
  Ends-step {k = k} true s e = record {
    front = e.front;
    run = e.run ++ s ∷ [];
    judged = e.judged;
    seconds_split = rw (e.seconds_split, append_assoc);
    verdicts_split = rw (e.verdicts_split, map-append, append_assoc);
    same_length = e.same_length;
    broken = e.broken;
    counted = rw (length-append, e.counted);
    cause = rw (is_cons-concat e.run s) (cause-step s k e.run e.counted e.cause);
    triggered = rw (is_cons-concat e.run s, length-append, e.counted);
    counting = sym (is_cons-concat e.run s);
  }
  Ends-step {ss} {bs} false s e = record {
    front = ss ++ s ∷ [];
    run = [];
    judged = bs ++ false ∷ [];
    seconds_split = sym (append-nil (ss ++ s ∷ []));
    verdicts_split = sym (append-nil (bs ++ false ∷ []));
    same_length = rw (length-append, length-append) (omega (arith, Ends-length e));
    broken = inr (last?-concat bs false);
    counted = refl;
    cause = refl;
    triggered = refl;
    counting = refl;
  }

-- A class of criteria that count a streak: where the streak and the limit are, the test, and how
-- `notify` is made of them.
pub record Streaking (C F : Type 0) : Type 0 where
  pub streak : C → Streak F
  pub put : Streak F → C → C
  pub limit : C → ℕ
  pub exceeds : C → Second F → Result Bool
  pub notify : C → Second F → Result (C × Notified)
  pub limit-put : (k : Streak F) (c : C) → limit (put k c) ≡ limit c
  pub streak-put : (k : Streak F) (c : C) → streak (put k c) ≡ k
  pub exceeds-put : (k : Streak F) (c : C) (s : Second F) → exceeds (put k c) s ≡ exceeds c s
  pub notify_lem :
      (c : C) (s : Second F)
      → notify c s ≡ (
          exceeds c s >>= λ b. let (k, r) = streak_step b (limit c) s (streak c) in ok (put k c, r))

-- One call of `notify` for each second; the answer is the last one.
abbrev pub feed :
    {C F : Type 0}
    → (C → Second F → Result (C × Notified))
    → C
    → Notified
    → List (Second F)
    → Result (C × Notified)
feed notify c r [] = ok (c, r)
feed notify c r (s ∷ ss) = notify c s >>= λ (c', r'). feed notify c' r' ss

module _ {C F : Type 0} (i : Streaking C F) where
  open i use {streak, put, limit, exceeds, notify, limit-put, streak-put, exceeds-put, notify_lem}

  exceeds-all_put :
      (k : Streak F) (c : C) (ss : List (Second F))
      → map_ok (exceeds (put k c)) ss ≡ map_ok (exceeds c) ss
  exceeds-all_put k c ss = rw (fun_ext (exceeds-put k c))

  feed-cons :
      (c : C) (r : Notified) (s : Second F) (ss : List (Second F)) (b : Bool) {x : C × Notified}
      → exceeds c s ≡ ok b
      → (let (k, r') = streak_step b (limit c) s (streak c) in feed notify (put k c) r' ss ≡ ok x)
      → feed notify c r (s ∷ ss) ≡ ok x
  feed-cons c r s ss b e h = rw (notify_lem, e) h

  feed-Ends_from :
      (c : C) (r : Notified) (done : List (Second F)) (old : List Bool) (ss : List (Second F))
      (bs : List Bool)
      → map_ok (exceeds c) ss ≡ ok bs
      → Ends (limit c) done old (streak c) r
      → (c' : C) × (r' : Notified) × (feed notify c r ss ≡ ok (c', r'))
        × Ends (limit c) (done ++ ss) (old ++ bs) (streak c') r'
  feed-Ends_from c r done old [] bs j e =
      let no_more : [] ≡ bs = cc in (c, r, refl, rw (← no_more, append-nil, append-nil) e)
  feed-Ends_from c r done old (s ∷ ss) bs j e =
      let (b, eb, j₁) = >>=-eq-ok (exceeds c s) _ j in
      let (bs', ebs, j₂) = >>=-eq-ok (map_ok (exceeds c) ss) _ j₁ in
      let same : b ∷ bs' ≡ bs = cc in
      let (k, r') = streak_step b (limit c) s (streak c) in
      let next : Ends (limit (put k c)) (done ++ s ∷ []) (old ++ b ∷ []) (streak (put k c)) r' =
        rw (limit-put, streak-put) (Ends-step (limit c) b s e) in
      let (c', r'', fed, ends) =
        feed-Ends_from (put k c) r' (done ++ s ∷ []) (old ++ b ∷ []) ss bs' (rw exceeds-all_put ebs)
          next in
      (
        c',
        r'',
        feed-cons c r s ss b eb fed,
        rw (limit-put, append_assoc, append_assoc, same) at ends,
      )

  pub feed-Ends :
      (c : C) (ss : List (Second F)) (bs : List Bool)
      → streak c ≡ no_streak
      → map_ok (exceeds c) ss ≡ ok bs
      → (c' : C) × (r : Notified) × (feed notify c quiet ss ≡ ok (c', r))
        × Ends (limit c) ss bs (streak c') r
  feed-Ends c ss bs fresh j = feed-Ends_from c quiet [] [] ss bs j (rw fresh (Ends-nil (limit c)))
