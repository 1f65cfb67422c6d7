-- ===== src/Autostop/Plugin/Laws.antt =====
-- One second told to the plugin: who is notified, who counts, who is blamed and what is reported.
use mathlib.Core.Path.{subst}
use mathlib.Core.List.{append-nil, append_assoc}
use yandex_tank.Prelude.{
  ◌≡◌, refl, sym, ap, ◌∙◌, inl, inr, Bool, true, false, Option, none, some, List, [], ◌∷◌, ◌++◌,
  map, if◌then◌else◌, Bool-cases,
}
use yandex_tank.Prelude.Int.{pos}
use yandex_tank.Prelude.Result.{Result, Error, ok, err, ◌>>=◌, >>=-eq-ok, >>=-eq-err, map_ok}
use yandex_tank.Prelude.Text.{Text}
use yandex_tank.Numbers.{Numbers}
use yandex_tank.Autostop.Sample.{Second}
use yandex_tank.Autostop.Streak.{Notified}
use yandex_tank.Autostop.Criterion.{Criterion, cause_second, notify, get_rc}
use yandex_tank.Autostop.Plugin.{
  Plugin, Event, publish_rps, publish_reason, publish_type, publish_rc, write_report,
  add_artifact_file, is_set, imbalance, blame, visit, visit_all, on_aggregated_data,
  is_test_finished,
}

-- A criterion after it was notified, with its answer.
abbrev pub Told : Type 0 → Type 0
Told F = Text × Criterion F × Notified

abbrev pub kept : {F : Type 0} → List (Told F) → List (Text × Criterion F)
kept ts = map (λ (text, c, r). (text, c)) ts

abbrev pub counting_of : {F : Type 0} → List (Told F) → List (Criterion F)
counting_of [] = []
counting_of ((text, c, r) ∷ ts) = if r.counting then c ∷ counting_of ts else counting_of ts

-- The last criterion that answered True, or else `old`.
abbrev pub last_triggered :
    {F : Type 0} → Option (Criterion F) → List (Told F) → Option (Criterion F)
last_triggered old [] = old
last_triggered old ((text, c, r) ∷ ts) = last_triggered (if r.triggered then some c else old) ts

abbrev pub triggered_texts : {F : Type 0} → List (Told F) → List Text
triggered_texts [] = []
triggered_texts ((text, c, r) ∷ ts) =
    if r.triggered then text ∷ triggered_texts ts else triggered_texts ts

-- The texts written to the report file.
abbrev pub reports : List Event → List Text
reports [] = []
reports (write_report t ∷ es) = t ∷ reports es
reports (_ ∷ es) = reports es

reports-append : (es fs : List Event) → reports (es ++ fs) ≡ reports es ++ reports fs
reports-append [] fs = refl
reports-append (write_report t ∷ es) fs = ap (λ l. t ∷ l) (reports-append es fs)
reports-append (publish_rps k ∷ es) fs = reports-append es fs
reports-append (publish_reason k ∷ es) fs = reports-append es fs
reports-append (publish_type k ∷ es) fs = reports-append es fs
reports-append (publish_rc k ∷ es) fs = reports-append es fs
reports-append (add_artifact_file ∷ es) fs = reports-append es fs

if_append {ℓ} :
    {A : Type ℓ} (b : Bool) (x : A) (xs : List A)
    → ((if b then x ∷ [] else []) ++ xs) ≡ (if b then x ∷ xs else xs)
if_append true x xs = refl
if_append false x xs = refl

module _ {F : Type 0} ⦃n : Numbers F⦄ (now : F) (s : Second F) where
  abbrev pub tell : Text × Criterion F → Result (Told F)
  tell (text, c) = notify now c s >>= λ (c', r). ok (text, c', r)

  -- What has become of a plugin `p` when the criteria answered `ts`.
  abbrev Reports : Plugin F → List (Told F) → Result (Plugin F × List Event) → Type 0
  Reports p ts result =
      (p' : Plugin F) × (es : List Event) × (result ≡ ok (p', es))
      × (p'.criterions ≡ p.criterions ++ kept ts)
      × (p'.counting ≡ p.counting ++ counting_of ts)
      × (p'.cause_criterion ≡ last_triggered p.cause_criterion ts)
      × (reports es ≡ triggered_texts ts)

  imbalance_keeps :
      (o : Option (Second F)) (p : Plugin F)
      → ((imbalance o p).criterions ≡ p.criterions)
        × ((imbalance o p).counting ≡ p.counting)
        × ((imbalance o p).cause_criterion ≡ p.cause_criterion)
  unfolding imbalance
  imbalance_keeps none p = (refl, refl, refl)
  imbalance_keeps (some (d, stat)) p = (refl, refl, refl)

  blame_keeps :
      (text : Text) (c : Criterion F) (p : Plugin F)
      → let (p', es) = blame text c p in
        (p'.criterions ≡ p.criterions)
        × (p'.counting ≡ p.counting)
        × (p'.cause_criterion ≡ some c)
        × (reports es ≡ text ∷ [])
  unfolding blame
  blame_keeps text c p =
      let (a, b, d) = imbalance_keeps (cause_second c) (record p { cause_criterion = some c }) in
      (a, b, d, refl)

  snoc_if :
      (b : Bool) (c : Criterion F) (cs : List (Criterion F))
      → (if b then cs ++ c ∷ [] else cs) ≡ cs ++ (if b then c ∷ [] else [])
  snoc_if true c cs = refl
  snoc_if false c cs = sym (append-nil cs)

  visit-Reports :
      (text : Text) (c c' : Criterion F) (r : Notified) (p : Plugin F)
      → notify now c s ≡ ok (c', r)
      → Reports p ((text, c', r) ∷ []) (visit now s (text, c) p)
  unfolding visit
  visit-Reports text c c' r p e =
      let q = record p {
        criterions = p.criterions ++ (text, c') ∷ [];
        counting = if r.counting then p.counting ++ c' ∷ [] else p.counting;
      } in
      let counted = snoc_if r.counting c' p.counting in
      elim (Bool-cases r.triggered) [
        | inl t ↦
            let (a, b, d, x) = blame_keeps text c' q in
            ((blame text c' q).0, (blame text c' q).1, rw (e, t), a, b ∙ counted, rw t d, rw t x)
        | inr f ↦ (q, [], rw (e, f), refl, counted, rw f refl, rw f refl)
      ]

  Reports-append :
      (p : Plugin F) (t : Told F) (ts : List (Told F)) (p₁ : Plugin F) (es₁ : List Event)
      {result : Result (Plugin F × List Event)}
      → (p₁.criterions ≡ p.criterions ++ kept (t ∷ []))
        × (p₁.counting ≡ p.counting ++ counting_of (t ∷ []))
        × (p₁.cause_criterion ≡ last_triggered p.cause_criterion (t ∷ []))
        × (reports es₁ ≡ triggered_texts (t ∷ []))
      → Reports p₁ ts result
      → Reports p (t ∷ ts) (result >>= λ (p'', es'). ok (p'', es₁ ++ es'))
  Reports-append p (text, c, r) ts p₁ es₁ (k, co, ca, re) (p', es, e, k', co', ca', re') = (
    p',
    es₁ ++ es,
    rw e,
    k' ∙ rw k (append_assoc p.criterions ((text, c) ∷ []) (kept ts)),
    co'
        ∙ rw co (
            append_assoc p.counting _ (counting_of ts)
            ∙ ap (λ l. p.counting ++ l) (if_append r.counting c (counting_of ts))),
    ca' ∙ rw ca refl,
    reports-append es₁ es ∙ rw (re, re') (if_append r.triggered text (triggered_texts ts)),
  )

  visit_all-step :
      (text : Text) (c c' : Criterion F) (r : Notified) (p : Plugin F)
      (cs : List (Text × Criterion F)) (ts : List (Told F))
      → notify now c s ≡ ok (c', r)
      → ((p₁ : Plugin F) → Reports p₁ ts (visit_all now s cs p₁))
      → Reports p ((text, c', r) ∷ ts) (visit_all now s ((text, c) ∷ cs) p)
  unfolding visit_all
  visit_all-step text c c' r p cs ts e rest =
      let (p₁, es₁, visited, k, co, ca, re) = visit-Reports text c c' r p e in
      rw visited (Reports-append p (text, c', r) ts p₁ es₁ (k, co, ca, re) (rest p₁))

  visit-raises :
      (text : Text) (c : Criterion F) (p : Plugin F) (e : Error)
      → tell (text, c) ≡ err e
      → visit now s (text, c) p ≡ err e
  unfolding visit
  visit-raises text c p e h = elim (>>=-eq-err (notify now c s) _ h) [
    | inl raised ↦ rw raised
    | inr (x, answered, impossible) ↦ cc
  ]

  visit_all-raises :
      (cs : List (Text × Criterion F)) (p : Plugin F) (e : Error)
      → map_ok tell cs ≡ err e
      → visit_all now s cs p ≡ err e
  unfolding visit_all
  visit_all-raises [] p e h = cc
  visit_all-raises ((text, c) ∷ cs) p e h = elim (>>=-eq-err (tell (text, c)) _ h) [
    | inl raised ↦
        let stopped = visit-raises text c p e raised in
        let goal : visit_all now s ((text, c) ∷ cs) p ≡ err e = rw stopped in goal
    | inr (t, answered, later) ↦ elim (>>=-eq-err (map_ok tell cs) _ later) [
      | inl raised ↦
          let (x, ex, same) = >>=-eq-ok (notify now c s) _ answered in
          let (p₁, es₁, visited, _, _, _, _) = visit-Reports text c x.0 x.1 p ex in
          rw (visited, visit_all-raises cs p₁ e raised)
      | inr (ts, all_answered, impossible) ↦ cc
    ]
  ]

  visit_all-Reports :
      (cs : List (Text × Criterion F)) (p : Plugin F) (ts : List (Told F))
      → map_ok tell cs ≡ ok ts
      → Reports p ts (visit_all now s cs p)
  unfolding visit_all
  visit_all-Reports [] p ts h =
      let none_told : [] ≡ ts = cc in
      rw (← none_told)
        (p, [], refl, sym (append-nil p.criterions), sym (append-nil p.counting), refl, refl)
  visit_all-Reports ((text, c) ∷ cs) p ts h =
      let (t, et, h₁) = >>=-eq-ok (tell (text, c)) _ h in
      let (ts', ets, h₂) = >>=-eq-ok (map_ok tell cs) _ h₁ in
      let (x, ex, same) = >>=-eq-ok (notify now c s) _ et in
      let told : (text, x.0, x.1) ∷ ts' ≡ ts = cc in
      subst (λ l. Reports p l (visit_all now s ((text, c) ∷ cs) p)) told
        (visit_all-step text c x.0 x.1 p cs ts' ex (λ p₁. visit_all-Reports cs p₁ ts' ets))

  to_all :
      (p : Plugin F)
      → p.cause_criterion ≡ none
      → on_aggregated_data now s p
        ≡ visit_all now s p.criterions (record p { counting = []; criterions = [] })
  unfolding on_aggregated_data
  to_all p e =
      let quiet = record p { counting = []; criterions = [] } in
      ap
        (λ o.
          if is_set o
          then ok (record p { counting = [] }, [])
          else visit_all now s p.criterions quiet)
        e

-- Let no criterion have triggered, and let every criterion answer the second without an exception.
-- Then the plugin raises none, every criterion has been notified of the second exactly once and
-- stands in its old place, the counting criteria are those that counted in this second, in order,
-- the blamed criterion is the last one that answered True (none if none did), and the report file is
-- written once for each that did, with its criterion string, in order.
pub on_aggregated_data-tells :
    {F : Type 0} ⦃n : Numbers F⦄ (now : F) (s : Second F) (p : Plugin F) (ts : List (Told F))
    → p.cause_criterion ≡ none
    → map_ok (tell now s) p.criterions ≡ ok ts
    → (p' : Plugin F) × (es : List Event) × (on_aggregated_data now s p ≡ ok (p', es))
      × (p'.criterions ≡ kept ts)
      × (p'.counting ≡ counting_of ts)
      × (p'.cause_criterion ≡ last_triggered none ts)
      × (reports es ≡ triggered_texts ts)
on_aggregated_data-tells now s p ts quiet_so_far told =
    let fresh = record p { counting = []; criterions = [] } in
    let (p', es, e, k, co, ca, re) = visit_all-Reports now s p.criterions fresh ts told in
    (
      p',
      es,
      to_all now s p quiet_so_far ∙ e,
      k,
      co,
      ca ∙ ap (λ o. last_triggered o ts) quiet_so_far,
      re,
    )

-- The seconds of a test, one after the other, with the time at which each is told.
abbrev pub tell_seconds :
    {F : Type 0} ⦃n : Numbers F⦄ → Plugin F → List (F × Second F) → Result (Plugin F × List Event)
tell_seconds p [] = ok (p, [])
tell_seconds p ((now, s) ∷ seconds) = on_aggregated_data now s p >>= λ (p', es).
    tell_seconds p' seconds >>= λ (p'', es'). ok (p'', es ++ es')

latched :
    {F : Type 0} ⦃n : Numbers F⦄ (now : F) (s : Second F) (p : Plugin F) (c : Criterion F)
    → p.cause_criterion ≡ some c
    → on_aggregated_data now s p ≡ ok (record p { counting = [] }, [])
unfolding on_aggregated_data
latched now s p c e = rw e refl

-- What a plugin that has triggered does with any further seconds.
later_quiet :
    {F : Type 0} ⦃n : Numbers F⦄ (p : Plugin F) (c : Criterion F) (seconds : List (F × Second F))
    → p.cause_criterion ≡ some c
    → (p' : Plugin F) × (tell_seconds p seconds ≡ ok (p', []))
      × (p'.criterions ≡ p.criterions)
      × (p'.cause_criterion ≡ some c)
later_quiet p c [] e = (p, refl, refl, e)
later_quiet p c ((now, s) ∷ seconds) e =
    let (p', told, same, blamed) = later_quiet (record p { counting = [] }) c seconds e in
    (p', rw (latched now s p c e, told) refl, same, blamed)

finished_with :
    {F : Type 0} ⦃n : Numbers F⦄ (p : Plugin F) (c : Criterion F)
    → p.cause_criterion ≡ some c
    → is_test_finished p ≡ pos (get_rc c)
unfolding is_test_finished
finished_with p c e = rw (is_test_finished, e) refl

-- Let every criterion answer a second without an exception, at least one of them with True, when
-- none has triggered before. Then whatever seconds follow, how many and at which times, they are all
-- taken without an exception; each criterion stays as that second left it, for none is notified
-- again; the reports are those of that second and no more; and the test is over with the return code
-- of the last criterion that answered True in that second.
pub on_aggregated_data-latches :
    {F : Type 0} ⦃n : Numbers F⦄ (now : F) (s : Second F) (p : Plugin F) (ts : List (Told F))
    (c : Criterion F) (later : List (F × Second F))
    → p.cause_criterion ≡ none
    → map_ok (tell now s) p.criterions ≡ ok ts
    → last_triggered none ts ≡ some c
    → (p' : Plugin F) × (es : List Event) × (tell_seconds p ((now, s) ∷ later) ≡ ok (p', es))
      × (p'.criterions ≡ kept ts)
      × (reports es ≡ triggered_texts ts)
      × (is_test_finished p' ≡ pos (get_rc c))
on_aggregated_data-latches now s p ts c later quiet_so_far told blamed =
    let (p₁, es, e, k, _, ca, re) = on_aggregated_data-tells now s p ts quiet_so_far told in
    let (p₂, e₂, same, ca₂) = later_quiet p₁ c later (ca ∙ blamed) in
    (
      p₂,
      es ++ [],
      rw (e, e₂) refl,
      same ∙ k,
      ap reports (append-nil es) ∙ re,
      finished_with p₂ c ca₂,
    )

-- If a criterion raises while all before it answer, the exception leaves `on_aggregated_data`.
pub on_aggregated_data-raises :
    {F : Type 0} ⦃n : Numbers F⦄ (now : F) (s : Second F) (p : Plugin F) (e : Error)
    → p.cause_criterion ≡ none
    → map_ok (tell now s) p.criterions ≡ err e
    → on_aggregated_data now s p ≡ err e
on_aggregated_data-raises now s p e quiet_so_far raised =
    to_all now s p quiet_so_far ∙ visit_all-raises now s p.criterions _ e raised
