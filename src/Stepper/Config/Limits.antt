-- ===== src/Stepper/Config/Limits.antt =====
-- The limits of a list of URIs and what its generator yields.
use yandex_tank.Prelude.{
  ℕ, zero, suc, ◌*◌, ◌<◌, true, Option, some, List, [], ◌∷◌, length, length-append, is_some, ◌≡◌,
  refl, sym, ap, ◌∙◌, inl, inr, Bool-cases, arith,
}
use yandex_tank.Prelude.Result.{Error, runtime_error, ok, err, >>=-eq-ok}
use yandex_tank.Prelude.Text.{Text, codes, lookup, insert}
use yandex_tank.Prelude.Bytes.{Bytes}
use yandex_tank.Numbers.{Numbers}
use yandex_tank.Stepper.Status.{Status, Value, number, publish}
use yandex_tank.Stepper.Missile.{Missile, loops_done}
use yandex_tank.Stepper.Missile.Loops.{repeated, SameLoops, KeepsLoops}
use yandex_tank.Stepper.Missile.Uris.{uri_missiles, uri_style_generator}
use yandex_tank.Stepper.Missile.Uris.Loops.{cycle_missiles-Looped}
use yandex_tank.Stepper.Config.{Config, nonempty, loops_of, limit_uris, set_limits}

length-repeated : (k : ℕ) (ms : List Missile) → length (repeated k ms) ≡ length ms * k
length-repeated zero ms = grind arith
length-repeated (suc k) ms = grind (arith, length-append ms (repeated k ms), length-repeated k ms)

length-uri_missiles :
    (headers : List Text) (ver : Text) (uris : List Bytes)
    → length (uri_missiles headers ver uris) ≡ length uris
unfolding uri_missiles
length-uri_missiles headers ver [] = refl
length-uri_missiles headers ver (u ∷ uris) = ap suc (length-uri_missiles headers ver uris)

ok_no_err : {A : Type 0} {a : A} {e : Error} → ok a ≡ err e → ⊥
ok_no_err e = cc

ok_same : {A : Type 0} {a b : A} → ok a ≡ ok b → a ≡ b
ok_same e = cc

module _ {F : Type 0} where
  publish-SameLoops :
      (key : Text) (v : Value) (s s' : Status F) → publish key v s ≡ ok s' → SameLoops s s'
  unfolding publish
  publish-SameLoops key v s s' e = elim (Bool-cases (is_some (lookup key s.info))) [
    | inl known ↦
        let done = record s { info = insert key (some v) s.info } in
        let found : publish key v s ≡ ok done = rw (publish, known) refl in
        let same : s' ≡ done = sym (ok_same (sym found ∙ e)) in
        (ap (λ x. x.loop_count) same, ap (λ x. x.loop_limit) same)
    | inr unknown ↦
        let failed : publish key v s ≡ err runtime_error = rw (publish, unknown) refl in
        absurd (ok_no_err (sym e ∙ failed))
  ]

  limit_uris-some :
      (uris : List Bytes) (loops : Option ℕ) (l : ℕ) (s : Status F)
      → nonempty uris ≡ true
      → loops ≡ some (suc l)
      → limit_uris uris loops s ≡ record s { ammo_limit = some (length uris * suc l) }
  unfolding limit_uris
  limit_uris-some uris loops l s some_uri e = rw (limit_uris, some_uri, e) refl

  -- What the constructor leaves for a list of URIs.
  set_limits-uris :
      (c : Config) (s s' : Status F) (l : ℕ)
      → nonempty c.uris ≡ true
      → loops_of c ≡ some (suc l)
      → set_limits c s ≡ ok s'
      → (s'.loop_limit ≡ some (suc l))
        × (s'.loop_count ≡ s.loop_count)
        × (s'.ammo_limit ≡ some (length c.uris * suc l))
  unfolding set_limits limit_uris
  set_limits-uris c s s' l some_uri loops e =
      let limited = record s { loop_limit = loops_of c; ammo_limit = c.ammo_limit } in
      let (s₁, published, e') =
        >>=-eq-ok (publish (codes "instances") (number c.instances) limited) _ e in
      let (count, limit) =
        publish-SameLoops (codes "instances") (number c.instances) limited s₁ published in
      let set : limit_uris c.uris (loops_of c) s₁
          ≡ record s₁ { ammo_limit = some (length c.uris * suc l) } =
        limit_uris-some c.uris (loops_of c) l s₁ some_uri loops in
      let same : s' ≡ record s₁ { ammo_limit = some (length c.uris * suc l) } =
        sym (ok_same e') ∙ set in
      (
        ap (λ x. x.loop_limit) same ∙ limit ∙ loops,
        ap (λ x. x.loop_count) same ∙ count,
        ap (λ x. x.ammo_limit) same,
      )

-- With a list of URIs and a limit of loops, configured or the one that is set where nothing limits
-- the ammo, the limit of missiles that the constructor leaves does not depend on the configured
-- `ammo_limit`, which it overwrites, be it the lower one: it is the number of missiles that the
-- generator yields in all its loops before it stops, if the consumer counts no loops.
pub uri_style_generator-set_limits :
    {F : Type 0} ⦃n : Numbers F⦄ (consume : Missile → Status F → Status F) (c : Config)
    (s s' : Status F) (l rounds : ℕ) (headers : List Text) (ver : Text)
    → KeepsLoops consume
    → nonempty c.uris ≡ true
    → loops_of c ≡ some (suc l)
    → s.loop_count ≡ 0
    → l < rounds
    → set_limits c s ≡ ok s'
    → let r = uri_style_generator consume rounds c.uris headers ver s' in
      (s'.ammo_limit ≡ some (length r.missiles)) × (r.end ≡ loops_done)
unfolding uri_style_generator
uri_style_generator-set_limits consume c s s' l rounds headers ver keeps some_uri loops start enough
      e =
    let (limit, count, ammo) = set_limits-uris c s s' l some_uri loops e in
    let ms = uri_missiles headers ver c.uris in
    let r =
      cycle_missiles-Looped consume keeps l rounds l ms s' enough limit
        (omega (arith, count, start)) in
    (
      ammo
          ∙ ap some (
              sym (
                ap length r.all_missiles
                ∙ length-repeated (suc l) ms
                ∙ ap (λ k. k * suc l) (length-uri_missiles headers ver c.uris))),
      r.at_limit,
    )
