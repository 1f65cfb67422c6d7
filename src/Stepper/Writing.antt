-- ===== src/Stepper/Writing.antt =====
-- `AmmoFactory` and `Stepper.write` of stepper/main.py: the missiles get their markers and times,
-- are formatted and written. Of the file system only the free space is seen.
pub mod Factory
pub mod Limit
pub mod AmmoLimit
use yandex_tank.Prelude.{
  ℕ, ◌*◌, Bool, true, false, not, Option, none, some, List, [], ◌∷◌, ◌++◌, length, ◌==◌,
  if◌then◌else◌,
}
use yandex_tank.Prelude.Result.{
  Error, Result, ok, err, ◌>>=◌, type_error, configuration_error, zero_division_error,
}
use yandex_tank.Prelude.Text.{Text, text_eq}
use yandex_tank.Prelude.Bytes.{Bytes}
use yandex_tank.Numbers.{Numbers, divide}
use yandex_tank.Stepper.Status.{
  Status, Stop, zero_division, max_ammo, calculate_lp_progress, inc_ammo_count,
}
use yandex_tank.Stepper.Stpd.{Shot}
use yandex_tank.Stepper.Mark.{Marker, in_bytes, in_text, Marking, apply_marker}
use yandex_tank.Stepper.Missile.{Missile}

abbrev pub one_of : Bytes → List Bytes → Bool
one_of m [] = false
one_of m (c ∷ cs) = if text_eq m c then true else one_of m cs

-- `get_filter`: a text is none of the cases, which are bytes.
unfoldable pub is_chosen : (chosen_cases : List Bytes) → Marker → Bool
is_chosen [] marker = true
is_chosen (c ∷ cs) (in_bytes m) = one_of m (c ∷ cs)
is_chosen (c ∷ cs) (in_text t) = false

-- `b"%s" % marker`
unfoldable pub shot_of : (timestamp : ℕ) → Marker → Bytes → Result Shot
shot_of timestamp (in_bytes m) missile =
    ok (record { timestamp = timestamp; marker = m; missile = missile })
shot_of timestamp (in_text t) missile = err type_error

abbrev pub shot_before : Shot → List Shot × Option Error → List Shot × Option Error
shot_before shot (shots, e) = (shot ∷ shots, e)

module _ (uuid : Bytes → Text) where
  -- `marker or self.marker(missile)`
  unfoldable pub marked : Marker → Bytes → Marking → Result (Marker × Marking)
  marked (in_bytes []) missile marking = apply_marker uuid marking missile
  marked (in_text []) missile marking = apply_marker uuid marking missile
  marked (in_bytes (c ∷ m)) missile marking = ok (in_bytes (c ∷ m), marking)
  marked (in_text (c ∷ m)) missile marking = ok (in_text (c ∷ m), marking)

  -- the marker that the ammo has, or the one it gets
  unfoldable pub first_marker : Missile → Marking → Result (Marker × Marking)
  first_marker m marking = elim m.marker [
    | none ↦ apply_marker uuid marking m.missile
    | some b ↦ marked (in_bytes b) m.missile marking
  ]

  -- The missile at a time of the plan: chosen or not, and the marking after it.
  unfoldable pub shoot :
      (chosen_cases : List Bytes) (timestamp : ℕ)
      → Missile
      → Marking
      → Result (Option Shot × Marking)
  shoot chosen_cases timestamp m marking = first_marker m marking >>= λ (marker, marking₁).
      if is_chosen chosen_cases marker
      then (marked marker m.missile marking₁ >>= λ (marker', marking₂).
          shot_of timestamp marker' m.missile >>= λ shot. ok (some shot, marking₂))
      else ok (none, marking₁)

  -- `AmmoFactory.__iter__`: the plan's times with the chosen missiles, up to the end of either
  unfoldable pub make_ammo :
      (chosen_cases : List Bytes) (load_plan : List ℕ)
      → List Missile
      → Marking
      → List Shot × Option Error
  make_ammo chosen_cases [] ms marking = ([], none)
  make_ammo chosen_cases (t ∷ ts) [] marking = ([], none)
  make_ammo chosen_cases (t ∷ ts) (m ∷ ms) marking = elim (shoot chosen_cases t m marking) [
    | err e ↦ ([], some e)
    | ok (found, marking') ↦ elim found [
      | none ↦ make_ammo chosen_cases (t ∷ ts) ms marking'
      | some shot ↦ shot_before shot (make_ammo chosen_cases ts ms marking')
    ]
  ]

pub record Writer (F : Type 0) : Type 0 where
  pub file : Bytes
  pub first_loop_done : Bool
  pub status : Status F

-- How the writing of a missile ends: it goes on, stops at the limit, or raises.
pub data Verdict : Type 0 where
  goes_on at_limit disk_limit_error : Verdict
  raises : Error → Verdict

-- A missile that comes when the reader has made so many loops.
abbrev pub Coming : Type 0
Coming = ℕ × Bytes

module _ {F : Type 0} ⦃n : Numbers F⦄ (clock : Status F → F) (free : Bytes → ℕ) where
  -- `_check_whole_file_can_be_written`; the reserve is `10 * 000 * 000`, which is 0
  unfoldable pub check_space : Bytes → Status F → Verdict
  check_space file s = elim (calculate_lp_progress s >>= divide (n.of_ℕ 1)) [
    | err e ↦ raises e
    | ok share ↦
        let written = n.of_ℕ (length file) in
        let need = n.sub (n.mul share written) written in
        if n.lt (n.of_ℕ (free file)) (n.add need (n.of_ℕ 0)) then disk_limit_error else goes_on
  ]

  -- `if info.status.max_ammo is None`
  unfoldable pub set_limit : Status F → Result (Status F)
  set_limit s = elim (max_ammo s) [
    | some _ ↦ ok s
    | none ↦ elim s.loop_limit [
      | none ↦ err configuration_error
      | some l ↦ ok (record s { ammo_limit = some (l * s.ammo_count) })
    ]
  ]

  -- after the first loop
  unfoldable pub first_loop : Writer F → Writer F × Verdict
  first_loop w =
      let done = record w { first_loop_done = true } in
      elim (set_limit w.status) [
        | err e ↦ (done, raises e)
        | ok s ↦ (record done { status = s }, check_space w.file s)
      ]

  -- a missile that was written, when it is counted or the count has raised
  unfoldable pub after_count :
      (text : Bytes) → Writer F → Status F × Option Stop → Writer F × Verdict
  after_count text w (s, stop) =
      let w₁ = record w { file = w.file ++ text; status = s } in
      elim stop [
        | some zero_division ↦ (w₁, raises zero_division_error)
        | some _ ↦ (w₁, at_limit)
        | none ↦
            if not w.first_loop_done
            then (if s.loop_count == 1 then first_loop w₁ else (w₁, goes_on))
            else (w₁, goes_on)
      ]

  -- the body of the loop of `write`
  unfoldable pub write_missile : Coming → Writer F → Writer F × Verdict
  write_missile (loops, text) w =
      let now = record w.status { loop_count = loops } in
      after_count text w (inc_ammo_count (clock now) now)

  -- `write`
  unfoldable pub write : List Coming → Writer F → Writer F × Verdict
  write [] w = (w, goes_on)
  write (c ∷ cs) w =
      let (w₁, verdict) = write_missile c w in
      let rest = write cs w₁ in
      elim verdict [
        | goes_on ↦ rest
        | at_limit ↦ (w₁, goes_on)
        | disk_limit_error ↦ (w₁, disk_limit_error)
        | raises e ↦ (w₁, raises e)
      ]
