-- ===== src/Stepper/Status.antt =====
-- `StepperStatus` of stepper/info.py: the counters of the stepper, its limits and its progress.
-- The clock is an argument. What `update_view` prints is left out; what it publishes is kept.
pub mod Laws
use yandex_tank.Prelude.{
  ℕ, suc, zero, ◌+◌, ◌-◌, ◌*◌, Bool, true, false, ◌&&◌, Option, none, some, List, [], ◌∷◌, ◌++◌,
  ltb, leb, ◌==◌, if◌then◌else◌, is_some,
}
use yandex_tank.Prelude.Result.{Result, ok, err, ◌>>=◌, runtime_error}
use yandex_tank.Prelude.Text.{Text, codes, lookup, insert}
use yandex_tank.Numbers.{Numbers, divide}

-- A value published to `info`.
pub data Value : Type 0 where
  number : ℕ → Value
  text : Text → Value
  texts : List Text → Value
  steps : List (ℕ × ℕ) → Value

-- A value published to the core.
pub data Publication : Type 0 where
  progress loop_count speed : ℕ → Publication

-- The exceptions that leave a setter; what it had changed before stays changed.
pub data Stop : Type 0 where
  stop_iteration loop_count_limit zero_division : Stop

pub record Status (F : Type 0) : Type 0 where
  pub has_core : Bool
  pub info : List (Text × Option Value)
  pub ammo_count : ℕ
  pub old_ammo_count : ℕ
  pub loop_count : ℕ
  pub af_position : Option ℕ
  pub af_size : Option ℕ
  pub loop_limit : Option ℕ
  pub ammo_limit : Option ℕ
  pub lp_len : Option ℕ
  pub lp_progress : ℕ
  pub af_progress : ℕ
  pub timer : F
  pub published : List Publication

abbrev pub keys : List Text
keys =
    codes "loop_count"
    ∷ codes "steps"
    ∷ codes "loadscheme"
    ∷ codes "duration"
    ∷ codes "ammo_count"
    ∷ codes "instances"
    ∷ []

abbrev pub new_info : List (Text × Option Value)
new_info =
    (codes "loop_count", some (number 0))
    ∷ (codes "steps", none)
    ∷ (codes "loadscheme", none)
    ∷ (codes "duration", none)
    ∷ (codes "ammo_count", some (number 0))
    ∷ (codes "instances", none)
    ∷ []

abbrev pub new_status : {F : Type 0} → F → Status F
new_status now = record {
  has_core = false;
  info = new_info;
  ammo_count = 0;
  old_ammo_count = 0;
  loop_count = 0;
  af_position = none;
  af_size = none;
  loop_limit = none;
  ammo_limit = none;
  lp_len = none;
  lp_progress = 0;
  af_progress = 0;
  timer = now;
  published = [];
}

-- `limit and test(limit)`: neither None nor 0 is a limit.
abbrev pub limits : Option ℕ → (ℕ → Bool) → Bool
limits none test = false
limits (some zero) test = false
limits (some (suc l)) test = test (suc l)

abbrev pub nonzero : Option ℕ → Bool
nonzero o = limits o (λ _. true)

abbrev pub value_of : Option ℕ → ℕ
value_of none = 0
value_of (some v) = v

-- The smaller limit, and `a or b` if one of the two is None.
abbrev pub smaller : Option ℕ → Option ℕ → Option ℕ
smaller none b = b
smaller (some a) none = if nonzero (some a) then some a else none
smaller (some a) (some b) = some (if leb a b then a else b)

abbrev all_set : List (Text × Option Value) → Result (List (Text × Value))
all_set [] = ok []
all_set ((k, none) ∷ rest) = err runtime_error
all_set ((k, some v) ∷ rest) = all_set rest >>= λ vs. ok ((k, v) ∷ vs)

module _ {F : Type 0} where
  unfoldable pub publish : Text → Value → Status F → Result (Status F)
  publish key value s =
      if is_some (lookup key s.info)
      then ok (record s { info = insert key (some value) s.info })
      else err runtime_error

  unfoldable pub get_info : Status F → Status F × Result (List (Text × Value))
  get_info s =
      let counted = insert (codes "ammo_count") (some (number s.ammo_count)) s.info in
      let info = insert (codes "loop_count") (some (number s.loop_count)) counted in
      (record s { info = info }, all_set info)

  unfoldable pub max_ammo : Status F → Option ℕ
  max_ammo s = smaller s.ammo_limit s.lp_len

module _ {F : Type 0} ⦃n : Numbers F⦄ where
  unfoldable pub update_view : (now : F) → Status F → Status F
  update_view now s =
      let generated = n.of_ℕ (s.ammo_count - s.old_ammo_count) in
      let delta = n.sub now s.timer in
      let speed_now = n.trunc (n.quot (n.quot generated delta) (n.of_ℕ 1000)) in
      let shown = progress s.lp_progress ∷ loop_count s.loop_count ∷ speed speed_now ∷ [] in
      record s {
        old_ammo_count = s.ammo_count;
        timer = now;
        published =
            if n.lt (n.of_ℕ 0) delta && s.has_core then s.published ++ shown else s.published;
      }

  -- The quotient is by `af_size * loop_limit`, which is not 0 in this branch.
  unfoldable pub af_percent : Status F → ℕ
  af_percent s =
      if nonzero s.af_size && nonzero s.loop_limit && is_some s.af_position
      then n.trunc (
          n.mul
            (n.quot (n.of_ℕ (value_of s.af_size * s.loop_count + value_of s.af_position))
              (n.of_ℕ (value_of s.af_size * value_of s.loop_limit)))
            (n.of_ℕ 100))
      else 100

  unfoldable pub update_af_progress : (now : F) → Status F → Status F
  update_af_progress now s =
      let percent = af_percent s in
      if s.af_progress == percent then s else update_view now (record s { af_progress = percent })

  unfoldable pub set_af_position : (now : F) → ℕ → Status F → Status F
  unfolding update_af_progress
  set_af_position now position s = update_af_progress now (record s { af_position = some position })

  unfoldable pub calculate_lp_progress : Status F → Result F
  unfolding max_ammo
  calculate_lp_progress s = elim (max_ammo s) [
    | none ↦ ok (n.of_ℕ 1)
    | some m ↦ divide (n.of_ℕ s.ammo_count) (n.of_ℕ m)
  ]

  unfoldable pub update_lp_progress : (now : F) → Status F → Result (Status F)
  update_lp_progress now s = calculate_lp_progress s >>= λ share.
      let percent = n.trunc (n.mul share (n.of_ℕ 100)) in
      ok (
        if s.lp_progress == percent
        then s
        else update_view now (record s { lp_progress = percent }))

  unfoldable pub set_ammo_count : (now : F) → ℕ → Status F → Status F × Option Stop
  set_ammo_count now value s =
      let counted = record s { ammo_count = value } in
      elim (update_lp_progress now counted) [
        | err e ↦ (counted, some zero_division)
        | ok s' ↦
            (s', if limits s'.ammo_limit (λ l. ltb l value) then some stop_iteration else none)
      ]

  unfoldable pub inc_ammo_count : (now : F) → Status F → Status F × Option Stop
  inc_ammo_count now s = set_ammo_count now (s.ammo_count + 1) s

  unfoldable pub set_loop_count : ℕ → Status F → Status F × Option Stop
  set_loop_count value s = (
    record s { loop_count = value },
    if limits s.loop_limit (λ l. leb l value) then some loop_count_limit else none,
  )

  unfoldable pub inc_loop_count : Status F → Status F × Option Stop
  inc_loop_count s = set_loop_count (s.loop_count + 1) s
