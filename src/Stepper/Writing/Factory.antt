-- ===== src/Stepper/Writing/Factory.antt =====
-- The missiles that `AmmoFactory` yields.
use yandex_tank.Prelude.{
  ℕ, Bool, Option, none, some, List, [], ◌∷◌, map, All, filterb, if◌then◌else◌, ◌≡◌, ◌≢◌, refl, ap,
  inl, inr, Bool-cases, Option-cases,
}
use yandex_tank.Prelude.Result.{ok, err, type_error}
use yandex_tank.Prelude.Text.{Text}
use yandex_tank.Prelude.Bytes.{Bytes}
use yandex_tank.Stepper.Stpd.{Shot, stpd_file, read_stpd, finished}
use yandex_tank.Stepper.Stpd.RoundTrip.{IsMarker, loaded, read_stpd-stpd_file}
use yandex_tank.Stepper.Mark.{in_bytes, in_text, uniq, Marking, mark, numbered, apply_marker}
use yandex_tank.Stepper.Missile.{Missile}
use yandex_tank.Stepper.Writing.{
  is_chosen, shot_of, shot_before, marked, first_marker, shoot, make_ammo,
}

-- A missile with a marker of its own, and the marker.
abbrev pub HasMarker : Missile → Type 0
HasMarker m = (c : ℕ) × (b : Bytes) × (m.marker ≡ some (c ∷ b))

abbrev pub marker_bytes : Option Bytes → Bytes
marker_bytes none = []
marker_bytes (some b) = b

abbrev pub shot_at : ℕ → Missile → Shot
shot_at t m = record { timestamp = t; marker = marker_bytes m.marker; missile = m.missile }

-- The missiles at the times, up to the end of either.
abbrev pub shots_at : List ℕ → List Missile → List Shot
shots_at [] ms = []
shots_at (t ∷ ts) [] = []
shots_at (t ∷ ts) (m ∷ ms) = shot_at t m ∷ shots_at ts ms

abbrev pub chosen_in : List Bytes → Missile → Bool
chosen_in cases m = is_chosen cases (in_bytes (marker_bytes m.marker))

module _ (uuid : Bytes → Text) (cases : List Bytes) (marking : Marking) where
  shoot_chosen :
      (t : ℕ) (m : Missile)
      → HasMarker m
      → shoot uuid cases t m marking
        ≡ ok (if chosen_in cases m then some (shot_at t m) else none, marking)
  unfolding shoot first_marker marked shot_of
  shoot_chosen t m (c, b, e) = elim (Bool-cases (is_chosen cases (in_bytes (c ∷ b)))) [
    | inl y ↦ rw (shoot, first_marker, e, marked, y) refl
    | inr n ↦ rw (shoot, first_marker, e, marked, n) refl
  ]

  make_ammo_chosen :
      (ts : List ℕ) (ms : List Missile)
      → All HasMarker ms
      → make_ammo uuid cases ts ms marking ≡ (shots_at ts (filterb (chosen_in cases) ms), none)
  unfolding make_ammo
  make_ammo_chosen [] ms has = refl
  make_ammo_chosen (t ∷ ts) [] has = refl
  make_ammo_chosen (t ∷ ts) (m ∷ ms) has = elim (Bool-cases (chosen_in cases m)) [
    | inl y ↦
        rw (make_ammo, shoot_chosen t m has.0, y)
          (ap (shot_before (shot_at t m)) (make_ammo_chosen ts ms has.1))
    | inr n ↦ rw (make_ammo, shoot_chosen t m has.0, n) (make_ammo_chosen (t ∷ ts) ms has.1)
  ]

-- A missile with a marker of its own that is a word of ASCII characters.
abbrev pub HasWord : Missile → Type 0
HasWord m = HasMarker m × IsMarker (marker_bytes m.marker)

words_are_markers : (ms : List Missile) → All HasWord ms → All HasMarker ms
words_are_markers [] has = tt
words_are_markers (m ∷ ms) has = (has.0.0, words_are_markers ms has.1)

filterb-All :
    (test : Missile → Bool) (ms : List Missile) → All HasWord ms → All HasWord (filterb test ms)
filterb-All test [] has = tt
filterb-All test (m ∷ ms) has = elim (Bool-cases (test m)) [
  | inl y ↦ rw y (has.0, filterb-All test ms has.1)
  | inr n ↦ rw n (filterb-All test ms has.1)
]

shots_at-IsMarker :
    (ts : List ℕ) (ms : List Missile)
    → All HasWord ms
    → All (λ shot. IsMarker shot.marker) (shots_at ts ms)
shots_at-IsMarker [] ms has = tt
shots_at-IsMarker (t ∷ ts) [] has = tt
shots_at-IsMarker (t ∷ ts) (m ∷ ms) has = (has.0.1, shots_at-IsMarker ts ms has.1)

-- The file that is written for ammo with markers reads back as the chosen missiles at the times of
-- the load plan, in order, up to the end of either, if each missile has a marker of its own that
-- is a word of ASCII characters.
pub read_stpd-make_ammo :
    (uuid : Bytes → Text) (cases : List Bytes) (marking : Marking) (load_plan : List ℕ)
    (ms : List Missile)
    → All HasWord ms
    → let (shots, failure) = make_ammo uuid cases load_plan ms marking in
      (read_stpd (stpd_file shots)
        ≡ (map loaded (shots_at load_plan (filterb (chosen_in cases) ms)), finished))
      × (failure ≡ none)
read_stpd-make_ammo uuid cases marking load_plan ms has =
    let chosen = filterb (chosen_in cases) ms in
    rw (make_ammo_chosen uuid cases marking load_plan ms (words_are_markers ms has)) (
      read_stpd-stpd_file (shots_at load_plan chosen)
          (shots_at-IsMarker load_plan chosen (filterb-All (chosen_in cases) ms has)),
      refl,
    )

text_marker :
    (uuid : Bytes → Text) (marking : Marking) (missile : Bytes) (o : Option ℕ)
    → marking.kind ≡ uniq
    → marking.number ≡ o
    → apply_marker uuid marking missile
      ≡ (elim o [ none ↦ ok (in_text (uuid missile), marking) | some i ↦ err type_error ])
unfolding apply_marker mark numbered
text_marker uuid marking missile none kind number = simp (apply_marker, kind, number)
text_marker uuid marking missile (some i) kind number = simp (apply_marker, kind, number)

shoot-uniq :
    (uuid : Bytes → Text) (marking : Marking) (t : ℕ) (m : Missile) (u : Text)
    → marking.kind ≡ uniq
    → m.marker ≡ none
    → uuid m.missile ≡ u
    → u ≢ []
    → shoot uuid [] t m marking ≡ err type_error
unfolding shoot first_marker marked shot_of is_chosen
shoot-uniq uuid marking t m [] kind bare e some_char = absurd (some_char refl)
shoot-uniq uuid marking t m (c ∷ u) kind bare e some_char = elim (Option-cases marking.number) [
  | inl o ↦ rw (shoot, first_marker, bare, text_marker uuid marking m.missile none kind o, e) refl
  | inr (i, o) ↦
      rw (shoot, first_marker, bare, text_marker uuid marking m.missile (some i) kind o) refl
]

-- With `autocases: uniq`, no chosen cases, and a load plan that has a time left: if the missile that
-- comes next has no marker of its own, TypeError is raised and nothing is written for it or for those
-- behind it, as no text goes into bytes, whether the missiles are numbered or not and whatever
-- `uuid4` returns but an empty text.
pub make_ammo-uniq :
    (uuid : Bytes → Text) (marking : Marking) (t : ℕ) (ts : List ℕ) (m : Missile)
    (ms : List Missile)
    → marking.kind ≡ uniq
    → m.marker ≡ none
    → uuid m.missile ≢ []
    → make_ammo uuid [] (t ∷ ts) (m ∷ ms) marking ≡ ([], some type_error)
unfolding make_ammo
make_ammo-uniq uuid marking t ts m ms kind bare some_char =
    rw (make_ammo, shoot-uniq uuid marking t m (uuid m.missile) kind bare refl some_char) refl
