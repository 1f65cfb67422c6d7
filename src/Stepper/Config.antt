-- ===== src/Stepper/Config.antt =====
-- `ComponentFactory` of stepper/config.py: the limits it sets, the source of the ammo and the kind of
-- the load plan. Netort opens the ammo file: its first line is an argument where it is read.
pub mod Limits
use yandex_tank.Prelude.{
  ℕ, ◌*◌, Bool, true, false, not, ◌&&◌, Option, none, some, List, [], ◌∷◌, length, is_some,
  if◌then◌else◌,
}
use yandex_tank.Prelude.Result.{
  Result, ok, err, ◌>>=◌, configuration_error, not_implemented_error, runtime_error, index_error,
}
use yandex_tank.Prelude.Text.{Text, codes, text_eq, is_digit, truthy}
use yandex_tank.Prelude.Bytes.{Bytes, decode}
use yandex_tank.Stepper.Status.{Status, number, texts, nonzero, value_of, publish}

-- The arguments of the constructor that the modelled parts read. A limit of -1 is none; other
-- negative limits, which no configuration has a use for, are left out.
pub record Config : Type 0 where
  pub rps_schedule : List Text
  pub instances_schedule : List Text
  pub ammo_file : Text
  pub instances : ℕ
  pub loop_limit : Option ℕ
  pub ammo_limit : Option ℕ
  pub uris : List Bytes
  pub ammo_type : Text

abbrev pub nonempty {ℓ} : {A : Type ℓ} → List A → Bool
nonempty [] = false
nonempty (x ∷ xs) = true

-- one loop if nothing else limits the ammo
unfoldable pub loops_of : Config → Option ℕ
loops_of c =
    if not (is_some c.loop_limit) && not (is_some c.ammo_limit) && not (nonempty c.rps_schedule)
    then some 1
    else c.loop_limit

-- `len(self.uris) * loop_limit`
unfoldable pub limit_uris :
    {F : Type 0} → (uris : List Bytes) (loops : Option ℕ) → Status F → Status F
limit_uris uris loops s =
    if nonempty uris && nonzero loops
    then record s { ammo_limit = some (length uris * value_of loops) }
    else s

-- `ComponentFactory.__init__`
unfoldable pub set_limits : {F : Type 0} → Config → Status F → Result (Status F)
unfolding loops_of limit_uris
set_limits c s =
    let limited = record s { loop_limit = loops_of c; ammo_limit = c.ammo_limit } in
    publish (codes "instances") (number c.instances) limited >>= λ s'.
    ok (limit_uris c.uris (loops_of c) s')

-- The load plan that is created: `load_plan.create` or `instance_plan.create`.
pub data Plan : Type 0 where
  rps_plan instances_plan : List Text → Plan

unfoldable pub get_load_plan : {F : Type 0} → Config → Status F → Result (Plan × Status F)
get_load_plan c s =
    if nonempty c.rps_schedule && nonempty c.instances_schedule
    then err configuration_error
    else if nonempty c.rps_schedule
    then (publish (codes "loadscheme") (texts c.rps_schedule) s >>= λ s'.
        ok (rps_plan c.rps_schedule, s'))
    else (publish (codes "loadscheme") (texts c.instances_schedule) s >>= λ s'.
        ok (instances_plan c.instances_schedule, s'))

-- `_check_exactly_one_source_specified`
unfoldable pub check_source : Config → Result (Unit {0})
check_source c =
    if nonempty c.uris && not (truthy c.ammo_file)
    then ok tt
    else if not (nonempty c.uris) && truthy c.ammo_file
    then ok tt
    else err configuration_error

abbrev starts_with_digit : Text → Result Bool
starts_with_digit [] = err index_error
starts_with_digit (c ∷ s) = ok (is_digit c)

-- `ammo_type`: a file of the default type that does not start with a digit is one of URIs.
unfoldable pub ammo_type_of : Config → (first_line : Option Bytes) → Result Text
ammo_type_of c first_line =
    if not (text_eq c.ammo_type (codes "phantom")) then ok c.ammo_type else elim first_line [
      | none ↦ err runtime_error
      | some line ↦ decode line >>= starts_with_digit >>= λ digit.
          ok (if digit then c.ammo_type else codes "uri")
    ]

pub data Reader : Type 0 where
  phantom slowlog line uri uripost access caseline : Reader

-- `FILE_READERS`
unfoldable pub reader_of : Text → Result Reader
reader_of t =
    if text_eq t (codes "phantom")
    then ok phantom
    else if text_eq t (codes "slowlog")
    then ok slowlog
    else if text_eq t (codes "line")
    then ok line
    else if text_eq t (codes "uri")
    then ok uri
    else if text_eq t (codes "uripost")
    then ok uripost
    else if text_eq t (codes "access")
    then ok access
    else if text_eq t (codes "caseline")
    then ok caseline
    else err not_implemented_error

pub data Source : Type 0 where
  from_uris : List Bytes → Source
  from_file : Reader → Source

-- `_get_ammo_generator`
unfoldable pub get_ammo_generator : Config → (first_line : Option Bytes) → Result Source
get_ammo_generator c first_line = check_source c >>= λ _.
    if nonempty c.uris
    then ok (from_uris c.uris)
    else (ammo_type_of c first_line >>= λ t. reader_of t >>= λ r. ok (from_file r))
