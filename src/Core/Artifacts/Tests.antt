-- ===== src/Core/Artifacts/Tests.antt =====
-- Two logs of one name, and a configuration that is kept.
use yandex_tank.Prelude.{
  true, false, List, [], ◌∷◌, Option, none, some, Bool, if◌then◌else◌, ◌≡◌, refl,
}
use yandex_tank.Prelude.Text.{Text, codes, text_eq, split}
use yandex_tank.Core.Artifacts.{Files, add_artifact_file, collect_file, collect_artifacts}
use yandex_tank.Core.Artifacts.Kept.{Has, collect_artifacts-Has}

abbrev dir : Text
dir = codes "logs/t1"

abbrev allowed : Text → Bool
allowed name = false

abbrev disk : Files
disk f =
    if text_eq f (codes "a/tank.log")
    then some (codes "one")
    else if text_eq f (codes "b/tank.log")
    then some (codes "two")
    else if text_eq f (codes "load.yaml")
    then some (codes "cfg")
    else none

abbrev artifacts : List (Text × Bool)
artifacts =
    (codes "a/tank.log", false) ∷ (codes "b/tank.log", false) ∷ (codes "load.yaml", true) ∷ []

registered :
    add_artifact_file (codes "load.yaml") true (
      add_artifact_file [] false (
        add_artifact_file
          (codes "b/tank.log")
          false
          (add_artifact_file (codes "a/tank.log") false [])))
    ≡ artifacts
unfolding add_artifact_file
registered = refl

abbrev after : Text → Option Text
after f = collect_artifacts dir allowed artifacts disk f

-- the second log stays where it was
where_they_are :
    (after (codes "a/tank.log") ≡ none)
    × (after (codes "logs/t1/tank.log") ≡ some (codes "one"))
    × (after (codes "b/tank.log") ≡ some (codes "two"))
    × (after (codes "load.yaml") ≡ some (codes "cfg"))
    × (after (codes "logs/t1/load.yaml") ≡ some (codes "cfg"))
unfolding collect_artifacts collect_file split
where_they_are = (refl, refl, refl, refl, refl)

collect_artifacts-Has_example : Has (collect_artifacts dir allowed artifacts disk) (codes "two")
collect_artifacts-Has_example =
    collect_artifacts-Has dir allowed artifacts disk (codes "b/tank.log", refl)
