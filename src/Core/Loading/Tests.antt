-- ===== src/Core/Loading/Tests.antt =====
-- A generator and an uploader; a plugin is its name with whether it is a generator.
use yandex_tank.Prelude.{Bool, true, false, [], ◌∷◌, if◌then◌else◌, ◌≡◌, refl}
use yandex_tank.Prelude.Result.{Result, ok, err, key_error, runtime_error, generator_not_found}
use yandex_tank.Prelude.Text.{Text, codes, text_eq}
use yandex_tank.Core.Loading.{
  get_plugin_of_type, get_plugins_of_type, load_configured, load_extra, load_plugins, call_stage,
  corrected,
}

abbrev Loaded : Type 0
Loaded = Text × Bool

abbrev is_gun : Loaded → Bool
is_gun (name, gun) = gun

abbrev make : (path name : Text) → Result Loaded
make path name = ok (name, text_eq path (codes "yandextank.plugins.Phantom"))

abbrev phantom : Text × Text
phantom = (codes "phantom", codes "yandextank.plugins.Phantom")

abbrev uploader : Text × Text
uploader = (codes "uploader", codes "yandextank.plugins.DataUploader")

loaded :
    load_plugins is_gun make (uploader ∷ phantom ∷ []) [] false
    ≡ ok (
        (codes "plugin_uploader", (codes "uploader", false))
        ∷ (codes "plugin_phantom", (codes "phantom", true))
        ∷ [])
unfolding load_plugins load_configured load_extra corrected
loaded = refl

no_generator : load_plugins is_gun make (uploader ∷ []) [] false ≡ err generator_not_found
unfolding load_plugins load_configured load_extra corrected
no_generator = refl

check_skipped :
    load_plugins is_gun make (uploader ∷ []) [] true
    ≡ ok ((codes "plugin_uploader", (codes "uploader", false)) ∷ [])
unfolding load_plugins load_configured load_extra corrected
check_skipped = refl

-- a plugin from outside takes the generator's name
replaced :
    load_plugins is_gun make
      (phantom ∷ [])
      ((codes "phantom", ok (codes "other", false)) ∷ [])
      false
    ≡ ok ((codes "plugin_phantom", (codes "other", false)) ∷ [])
unfolding load_plugins load_configured load_extra corrected
replaced = refl

none_of_type :
    get_plugin_of_type is_gun ((codes "plugin_phantom", (codes "other", false)) ∷ [])
    ≡ err key_error
unfolding get_plugin_of_type
none_of_type = refl

first_of_type :
    get_plugin_of_type is_gun (
      (codes "a", (codes "a", false))
      ∷ (codes "b", (codes "b", true))
      ∷ (codes "c", (codes "c", true))
      ∷ [])
    ≡ ok (codes "b", true)
unfolding get_plugin_of_type
first_of_type = refl

all_of_type :
    get_plugins_of_type is_gun (
      (codes "b", (codes "b", true))
      ∷ (codes "a", (codes "a", false))
      ∷ (codes "c", (codes "c", true))
      ∷ [])
    ≡ ok ((codes "b", true) ∷ (codes "c", true) ∷ [])
unfolding get_plugins_of_type
all_of_type = refl

-- the test is interrupted while the first plugin is configured
interrupted_stage :
    call_stage {P = Loaded}
      ((false, (codes "a", false)) ∷ (true, (codes "b", true)) ∷ [])
      (λ p. ok tt)
    ≡ ok ((codes "a", false) ∷ [])
unfolding call_stage
interrupted_stage = refl

failed_stage :
    call_stage
      ((false, (codes "a", false)) ∷ (false, (codes "b", true)) ∷ [])
      (λ p. if is_gun p then err runtime_error else ok tt)
    ≡ err runtime_error
unfolding call_stage
failed_stage = refl
