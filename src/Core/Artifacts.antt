-- ===== src/Core/Artifacts.antt =====
-- The artifact files of core/tankcore.py: the files that plugins register, and their collection into
-- the directory of the test. The file system is a function from paths to contents; modes of files
-- are left out.
pub mod Kept
mod Tests
use yandex_tank.Prelude.{Bool, List, [], ◌∷◌, ◌++◌, Option, none, some, if◌then◌else◌}
use yandex_tank.Prelude.Text.{Text, text_eq, split, truthy, insert}
use yandex_tank.Prelude.Bytes.{Bytes}
use yandex_tank.Scanner.{last_of}

abbrev pub Files : Type 0
Files = Text → Option Bytes

abbrev pub write_file : Text → Option Bytes → Files → Files
write_file name content files = λ f. if text_eq f name then content else files f

-- `os.path.basename`
abbrev pub basename : Text → Text
basename name = last_of (split b'/' name)

-- `add_artifact_file`; the flag is `keep_original`
unfoldable pub add_artifact_file : Text → Bool → List (Text × Bool) → List (Text × Bool)
add_artifact_file name keep artifacts =
    if truthy name then insert name keep artifacts else artifacts

-- The rest of `__collect_file`, for what is at the two paths. `denied` says that copying or moving
-- raises, which leaves all as it was.
abbrev pub place :
    (name dest : Text) (denied keep : Bool) (source old : Option Bytes) → Files → Files
place name dest denied keep none old files = files
place name dest denied keep (some content) (some old) files = files
place name dest denied keep (some content) none files =
    let copied = write_file dest (some content) files in
    if denied then files else if keep then copied else write_file name none copied

unfoldable pub collect_file :
    (artifacts_dir : Text) (denied : Text → Bool) → Text → (keep : Bool) → Files → Files
collect_file artifacts_dir denied [] keep files = files
collect_file artifacts_dir denied (c ∷ s) keep files =
    let name = c ∷ s in
    let dest = artifacts_dir ++ (b'/' ∷ basename name) in
    place name dest (denied name) keep (files name) (files dest) files

-- `_collect_artifacts`, which catches every exception
unfoldable pub collect_artifacts :
    (artifacts_dir : Text) (denied : Text → Bool) → List (Text × Bool) → Files → Files
unfolding collect_file
collect_artifacts artifacts_dir denied [] files = files
collect_artifacts artifacts_dir denied ((name, keep) ∷ artifacts) files =
    collect_artifacts artifacts_dir denied artifacts
      (collect_file artifacts_dir denied name keep files)
