-- ===== src/Core/Loading.antt =====
-- The loading of the plugins in core/tankcore.py, and the stages before the test polls them. A
-- plugin is code of its own, of type `P`: `make` imports a path and makes the plugin of a name, and
-- the stages are what its methods return or raise.
mod Tests
use yandex_tank.Prelude.{ℕ, zero, suc, Bool, List, [], ◌∷◌, ◌++◌, map, filterb, if◌then◌else◌}
use yandex_tank.Prelude.Result.{Result, ok, err, ◌>>=◌, key_error, generator_not_found}
use yandex_tank.Prelude.Text.{Text, codes, text_eq, insert}

-- The deprecated path is replaced, by one that has a blank in it.
unfoldable pub corrected : Text → Text
corrected path =
    if text_eq path (codes "yandextank.plugins.Overload")
    then codes "yandextank.plugins.DataUploader overload"
    else path

-- `register_plugin`: a plugin of the same name is replaced
abbrev pub register_plugin : {P : Type 0} → Text → P → List (Text × P) → List (Text × P)
register_plugin name plugin plugins = insert (codes "plugin_" ++ name) plugin plugins

-- `get_plugins_of_type` and `get_plugin_of_type`
unfoldable pub get_plugins_of_type :
    {P : Type 0} → (is_of_type : P → Bool) → List (Text × P) → Result (List P)
get_plugins_of_type is_of_type plugins = elim (filterb is_of_type (map (λ (name, p). p) plugins)) [
  | [] ↦ err key_error
  | p ∷ ps ↦ ok (p ∷ ps)
]

unfoldable pub get_plugin_of_type :
    {P : Type 0} → (is_of_type : P → Bool) → List (Text × P) → Result P
get_plugin_of_type is_of_type plugins = elim (filterb is_of_type (map (λ (name, p). p) plugins)) [
  | [] ↦ err key_error
  | p ∷ ps ↦ ok p
]

-- The names and paths of the configuration; the number counts the generators.
unfoldable pub load_configured :
    {P : Type 0}
    → (is_generator : P → Bool) (make : (path name : Text) → Result P) → List (Text × Text)
    → List (Text × P)
    → ℕ
    → Result (List (Text × P) × ℕ)
unfolding corrected
load_configured is_generator make [] plugins generators = ok (plugins, generators)
load_configured is_generator make ((name, path) ∷ config) plugins generators =
    make (corrected path) name >>= λ p.
    load_configured is_generator make config (register_plugin name p plugins)
      (if is_generator p then suc generators else generators)

-- The plugins of `register_external_plugin`: what the factories return.
unfoldable pub load_extra :
    {P : Type 0} → List (Text × Result P) → List (Text × P) → Result (List (Text × P))
load_extra [] plugins = ok plugins
load_extra ((name, factory) ∷ extra) plugins =
    factory >>= λ p. load_extra extra (register_plugin name p plugins)

unfoldable pub load_plugins :
    {P : Type 0}
    → (is_generator : P → Bool) (make : (path name : Text) → Result P)
    → (config : List (Text × Text)) (extra : List (Text × Result P)) (skip_generator_check : Bool)
    → Result (List (Text × P))
unfolding load_configured load_extra
load_plugins is_generator make config extra skip_generator_check =
    load_configured is_generator make config [] 0 >>= λ (configured, generators).
    load_extra extra configured >>= λ plugins. elim generators [
      | zero ↦ if skip_generator_check then ok plugins else err generator_not_found
      | suc k ↦ ok plugins
    ]

-- The loop of `plugins_configure` and `plugins_prepare_test`: for each plugin whether the test is
-- interrupted when its turn comes, and its method. The plugins that were called are returned.
unfoldable pub call_stage :
    {P : Type 0} → List (Bool × P) → (method : P → Result (Unit {0})) → Result (List P)
call_stage [] method = ok []
call_stage ((interrupted, p) ∷ plugins) method =
    if interrupted
    then call_stage plugins method
    else method p >>= λ _. call_stage plugins method >>= λ called. ok (p ∷ called)
