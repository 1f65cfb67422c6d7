-- ===== src/Autostop/Criterion/Creation.antt =====
-- The class that a criterion string asks for.
use yandex_tank.Prelude.{
  ℕ, false, All, ◌++◌, ◌==◌, ==_iff, ◌≡◌, refl, sym, ap, ◌∙◌, none, some, List, [], ◌∷◌,
}
use yandex_tank.Prelude.Result.{Result, ok, err, value_error, ◌>>=◌}
use yandex_tank.Prelude.Text.{Text, text_eq, split, strip, lower}
use yandex_tank.Prelude.Bytes.Lines.{All-append}
use yandex_tank.Numbers.{Numbers}
use yandex_tank.Autostop.AvgTime
use yandex_tank.Autostop.HttpCodes
use yandex_tank.Autostop.NetCodes
use yandex_tank.Autostop.Quantile
use yandex_tank.Autostop.TimeLimit
use yandex_tank.Autostop.UsedInstances
use yandex_tank.Autostop.FracTime
use yandex_tank.Autostop.TotalHttp
use yandex_tank.Autostop.TotalNet
use yandex_tank.Autostop.NegativeHttp
use yandex_tank.Autostop.NegativeNet
use yandex_tank.Autostop.HttpTrend
use yandex_tank.Autostop.Criterion.{
  Criterion, Class, World, get_type_string, class_of, registered, find_class, construct, parse_call,
  create_criterion, avg_time, http, net, quantile, limit, instances, total_time, total_http,
  total_net, negative_http, negative_net, http_trend, avg_time_class, net_class, http_class,
  quantile_class, steady_class, limit_class, instances_class, total_time_class, total_http_class,
  total_net_class, negative_http_class, negative_net_class, http_trend_class,
}

some_same : {A : Type 0} {x y : A} → some x ≡ some y → x ≡ y
some_same e = cc

ok_same : {A : Type 0} {x y : A} → ok x ≡ ok y → x ≡ y
ok_same e = cc

-- A text without a character.
abbrev pub IsFreeOf : ℕ → Text → Type 0
IsFreeOf sep = All (λ c. (c == sep) ≡ false)

split-IsFreeOf : (sep : ℕ) (s : Text) → IsFreeOf sep s → split sep s ≡ s ∷ []
unfolding split
split-IsFreeOf sep [] h = refl
split-IsFreeOf sep (c ∷ s) (other, h) = rw (split, other, split-IsFreeOf sep s h) refl

split_first : (sep : ℕ) (s t : Text) → IsFreeOf sep s → split sep (s ++ (sep ∷ t)) ≡ s ∷ split sep t
unfolding split
split_first sep [] t h = rw (split, (==_iff sep sep).1 refl) refl
split_first sep (c ∷ s) t (other, h) = rw (split, other, split_first sep s t h) refl

parse_call_parts :
    (before arguments : Text)
    → IsFreeOf b'(' before
    → IsFreeOf b'(' arguments
    → IsFreeOf b')' arguments
    → parse_call (before ++ (b'(' ∷ (arguments ++ (b')' ∷ []))))
      ≡ ok (lower (strip before), strip arguments)
unfolding parse_call
parse_call_parts before arguments free open_free close_free =
    let rest = arguments ++ (b')' ∷ []) in
    let whole : split b'(' (before ++ (b'(' ∷ rest)) ≡ before ∷ rest ∷ [] =
      split_first b'(' before rest free
      ∙ ap (λ l. before ∷ l)
          (split-IsFreeOf b'(' rest (All-append _ arguments (b')' ∷ []) open_free (refl, tt))) in
    let inner : split b')' rest ≡ arguments ∷ split b')' [] =
      split_first b')' arguments [] close_free in
    rw (parse_call, whole, inner) refl

-- The loop over the registered classes finds the class of each type string.
found_class : (k : Class) → find_class (get_type_string k) registered ≡ some k
unfolding find_class registered get_type_string
found_class k = elim k as (λ x. find_class (get_type_string x) registered ≡ some x) [
  | avg_time_class ↦ refl
  | net_class ↦ refl
  | http_class ↦ refl
  | quantile_class ↦ refl
  | steady_class ↦ refl
  | limit_class ↦ refl
  | instances_class ↦ refl
  | total_time_class ↦ refl
  | total_http_class ↦ refl
  | total_net_class ↦ refl
  | negative_http_class ↦ refl
  | negative_net_class ↦ refl
  | http_trend_class ↦ refl
]

unknown_class :
    (t : Text) (ks : List Class)
    → ((k : Class) → text_eq (get_type_string k) t ≡ false)
    → find_class t ks ≡ none
unfolding find_class
unknown_class t [] unknown = refl
unknown_class t (k ∷ ks) unknown = rw (find_class, unknown k, unknown_class t ks unknown) refl

module _ {F : Type 0} ⦃n : Numbers F⦄ where
  made :
      {C : Type 0} (m : Result C) (con : C → Criterion F) (k : Class) (c : Criterion F)
      → ((x : C) → class_of (con x) ≡ k)
      → (m >>= λ x. ok (con x)) ≡ ok c
      → class_of c ≡ k
  made (ok x) con k c of_class h = ap class_of (sym (ok_same h)) ∙ of_class x
  made (err e) con k c of_class h = cc

  construct-class_of :
      (w : World F) (k : Class) (p : Text) (c : Criterion F)
      → construct w k p ≡ ok c
      → class_of c ≡ k
  unfolding construct class_of
  construct-class_of w avg_time_class p c h = made (AvgTime.init p) avg_time _ c (λ _. refl) h
  construct-class_of w net_class p c h = made (NetCodes.init w.compile p) net _ c (λ _. refl) h
  construct-class_of w http_class p c h = made (HttpCodes.init w.compile p) http _ c (λ _. refl) h
  construct-class_of w quantile_class p c h = made (Quantile.init p) quantile _ c (λ _. refl) h
  construct-class_of w steady_class p c h = cc
  construct-class_of w limit_class p c h =
      made (TimeLimit.init w.now w.later p) limit _ c (λ _. refl) h
  construct-class_of w instances_class p c h =
      made (UsedInstances.init w.guns p) instances _ c (λ _. refl) h
  construct-class_of w total_time_class p c h = made (FracTime.init p) total_time _ c (λ _. refl) h
  construct-class_of w total_http_class p c h =
      made (TotalHttp.init w.compile p) total_http _ c (λ _. refl) h
  construct-class_of w total_net_class p c h =
      made (TotalNet.init w.compile p) total_net _ c (λ _. refl) h
  construct-class_of w negative_http_class p c h =
      made (NegativeHttp.init w.compile p) negative_http _ c (λ _. refl) h
  construct-class_of w negative_net_class p c h =
      made (NegativeNet.init w.compile p) negative_net _ c (λ _. refl) h
  construct-class_of w http_trend_class p c h =
      made (HttpTrend.init w.compile p) http_trend _ c (λ _. refl) h

  -- A criterion string is a type, in capital or small letters and with white space around it, and
  -- arguments in parentheses, which are the only ones in the string. If the type is the type string
  -- of a class, the class is constructed with the stripped arguments, and what is made is of this
  -- class; the constructor's exception leaves. If it is the type string of no class, ValueError is
  -- raised.
  pub create_criterion-class_of :
      (w : World F) (before arguments : Text)
      → IsFreeOf b'(' before
      → IsFreeOf b'(' arguments
      → IsFreeOf b')' arguments
      → let made = create_criterion w (before ++ (b'(' ∷ (arguments ++ (b')' ∷ [])))) in
        ((k : Class)
          → lower (strip before) ≡ get_type_string k
          → (made ≡ construct w k (strip arguments))
            × ((c : Criterion F) → made ≡ ok c → class_of c ≡ k))
        × (((k : Class) → text_eq (get_type_string k) (lower (strip before)) ≡ false)
            → made ≡ err value_error)
  unfolding create_criterion
  create_criterion-class_of w before arguments free open_free close_free =
      let parsed = parse_call_parts before arguments free open_free close_free in
      (
        λ k same.
            let chosen = construct_chosen w before arguments k parsed same in
            (chosen, λ c it. construct-class_of w k (strip arguments) c (sym chosen ∙ it)),
        λ unknown.
            rw (create_criterion, parsed, unknown_class (lower (strip before)) registered unknown)
              refl,
      )
    where
      construct_chosen :
          (w : World F) (before arguments : Text) (k : Class)
          → parse_call (before ++ (b'(' ∷ (arguments ++ (b')' ∷ []))))
            ≡ ok (lower (strip before), strip arguments)
          → lower (strip before) ≡ get_type_string k
          → create_criterion w (before ++ (b'(' ∷ (arguments ++ (b')' ∷ []))))
            ≡ construct w k (strip arguments)
      construct_chosen w before arguments k parsed same =
          rw (create_criterion, parsed, same, found_class k) refl
