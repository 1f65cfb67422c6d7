-- ===== src/Stepper/LoadPlan/Parsing.antt =====
-- `StepFactory` of stepper/load_plan.py with `parse_duration` of stepper/util.py. The patterns are
-- matched from the left without going back: no part of them begins with what the part before it
-- repeats. Digits and white space are the ASCII ones.
use yandex_tank.Prelude.{
  ℕ, zero, suc, ◌+◌, Bool, ◌&&◌, ◌||◌, List, [], ◌∷◌, ◌++◌, Option, none, some, ◌==◌, if◌then◌else◌,
}
use yandex_tank.Prelude.Result.{
  Result, ok, err, ◌>>=◌, map_ok, require, value_error, index_error, attribute_error,
  not_implemented_error,
}
use yandex_tank.Prelude.Text.{Text, codes, text_eq, is_digit, is_space, strip, split, truthy}
use yandex_tank.Numbers.{Numbers}
use yandex_tank.Stepper.LoadPlan.{Plan, composite, const_plan, line_plan, stairway_plan}

-- `[0-9.]`
unfoldable in_number : ℕ → Bool
unfolding is_digit
in_number c = is_digit c || (c == b'.')

-- `[0-9.]*`, and what follows
unfoldable pub take_number : Text → Text × Text
unfolding in_number
take_number [] = ([], [])
take_number (c ∷ s) =
    let (run, rest) = take_number s in if in_number c then (c ∷ run, rest) else ([], c ∷ s)

unfoldable skip_spaces : Text → Text
unfolding is_space
skip_spaces [] = []
skip_spaces (c ∷ s) = let rest = skip_spaces s in if is_space c then rest else c ∷ s

-- `([0-9.]+),\s*`
unfoldable argument : Text → Option (Text × Text)
unfolding take_number skip_spaces
argument s =
    let (run, rest) = take_number s in
    elim rest [
      | [] ↦ none
      | d ∷ after ↦ if truthy run && d == b',' then some (run, skip_spaces after) else none
    ]

-- `([0-9.]+u)?` for each of the units, and `([0-9.]+s?)?`
unfoldable duration_text : (units : List ℕ) → Text → Text × Text
unfolding take_number
duration_text [] s =
    let (run, rest) = take_number s in
    elim rest [
      | [] ↦ (run, [])
      | d ∷ after ↦ if truthy run && d == b's' then (run ++ d ∷ [], after) else (run, d ∷ after)
    ]
duration_text (u ∷ units) s =
    let (run, rest) = take_number s in
    let without = duration_text units s in
    elim rest [
      | [] ↦ without
      | d ∷ after ↦
          let (later, end) = duration_text units after in
          if truthy run && d == u then (run ++ (d ∷ later), end) else without
    ]

-- The last group, `(DURATION_RE)\)`.
unfoldable last_argument : Text → Option Text
unfolding duration_text
last_argument s =
    let (found, rest) = duration_text (b'd' ∷ b'h' ∷ b'm' ∷ []) s in
    elim rest [ [] ↦ none | c ∷ after ↦ if c == b')' then some found else none ]

-- `template.match` for a pattern with so many numbers before the duration
unfoldable match_arguments : (numbers : ℕ) → Text → Option (List Text)
unfolding argument last_argument
match_arguments zero s = elim (last_argument s) [ none ↦ none | some found ↦ some (found ∷ []) ]
match_arguments (suc k) s = elim (argument s) [
  | none ↦ none
  | some (found, rest) ↦ elim (match_arguments k rest) [
    | none ↦ none
    | some later ↦ some (found ∷ later)
  ]
]

-- `template.search`
unfoldable pub search_arguments : (numbers : ℕ) → Text → Option (List Text)
unfolding match_arguments
search_arguments k [] = match_arguments k []
search_arguments k (c ∷ s) = elim (match_arguments k (c ∷ s)) [
  | none ↦ search_arguments k s
  | some groups ↦ some groups
]

-- The matches of `([0-9.]+)([dhms]?)`, with the number that is being read and the factor of the unit.
unfoldable pub duration_parts : (run : Text) → Text → List (Text × ℕ)
unfolding in_number
duration_parts [] [] = []
duration_parts (r ∷ run) [] = (r ∷ run, 1) ∷ []
duration_parts [] (c ∷ s) =
    let next = duration_parts (c ∷ []) s in
    let after = duration_parts [] s in if in_number c then next else after
duration_parts (r ∷ run) (c ∷ s) =
    let next = duration_parts ((r ∷ run) ++ c ∷ []) s in
    let after = duration_parts [] s in
    if in_number c
    then next
    else if c == b'd'
    then (r ∷ run, 86400) ∷ after
    else if c == b'h'
    then (r ∷ run, 3600) ∷ after
    else if c == b'm'
    then (r ∷ run, 60) ∷ after
    else (r ∷ run, 1) ∷ after

abbrev sum : List ℕ → ℕ
sum [] = 0
sum (k ∷ ks) = k + sum ks

-- `float(s)`
abbrev float : {F : Type 0} ⦃n : Numbers F⦄ → Text → Result F
float ⦃n⦄ s = require value_error (n.float_of s)

module _ (F : Type 0) ⦃n : Numbers F⦄ where
  -- `parse_token`; a factor of 1 does not change a float
  unfoldable pub parse_token : Text × ℕ → Result ℕ
  parse_token (time, factor) =
      float time >>= λ x. ok (n.trunc (n.mul (n.mul x (n.of_ℕ factor)) (n.of_ℕ 1000)))

  -- milliseconds
  unfoldable pub parse_duration : Text → Result ℕ
  unfolding duration_parts parse_token
  parse_duration duration = map_ok parse_token (duration_parts [] duration) >>= λ ks. ok (sum ks)

module _ {F : Type 0} ⦃n : Numbers F⦄ where
  -- `StepFactory.const`; None has no `groups`
  unfoldable pub const_step : Text → Result (Plan F)
  unfolding search_arguments parse_duration
  const_step params = elim (search_arguments 1 params) [
    | some (rps ∷ duration ∷ []) ↦
        float rps >>= λ r. parse_duration F duration >>= λ d. ok (const_plan r d)
    | _ ↦ err attribute_error
  ]

  unfoldable pub line_step : Text → Result (Plan F)
  unfolding search_arguments parse_duration
  line_step params = elim (search_arguments 2 params) [
    | some (from ∷ to ∷ duration ∷ []) ↦
        float from >>= λ lo. float to >>= λ hi. parse_duration F duration >>= λ d. line_plan lo hi d
    | _ ↦ err attribute_error
  ]

  unfoldable pub stairway_step : Text → Result (Plan F)
  unfolding search_arguments parse_duration
  stairway_step params = elim (search_arguments 3 params) [
    | some (from ∷ to ∷ by ∷ duration ∷ []) ↦ float from >>= λ lo. float to >>= λ hi.
        float by >>= λ step. parse_duration F duration >>= λ d. stairway_plan lo hi step d
    | _ ↦ err attribute_error
  ]

  unfoldable pub produce : Text → Result (Plan F)
  unfolding split strip const_step line_step stairway_step
  produce step_config = elim (split b'(' step_config) [
    | load_type ∷ params ∷ [] ↦
        let kind = strip load_type in
        if text_eq kind (codes "line")
        then line_step params
        else if text_eq kind (codes "const")
        then const_step params
        else if text_eq kind (codes "step")
        then stairway_step params
        else err not_implemented_error
    | _ ↦ err value_error
  ]

  -- The plan that `create` makes and publishes.
  unfoldable pub created : (rps_schedule : List Text) → Result (Plan F)
  unfolding produce
  created [] = err index_error
  created (step ∷ []) = produce step
  created (step ∷ next ∷ steps) =
      map_ok produce (step ∷ next ∷ steps) >>= λ plans. ok (composite plans)
