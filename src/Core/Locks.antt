-- ===== src/Core/Locks.antt =====
-- `Lock` and `JobsStorage` of core/tankcore.py: the lock files of running tests and the file of the
-- jobs. A directory is the list of its files, in the order of `os.listdir`; a new file is taken to
-- stand last. Pids are not negative. YAML, the process table and the permissions are arguments or
-- what was read by them.
pub mod Exclusion
use yandex_tank.Prelude.{
  ℕ, zero, suc, Bool, true, false, not, ◌&&◌, ◌||◌, Option, none, some, List, [], ◌∷◌, ◌++◌, ◌==◌,
  if◌then◌else◌,
}
use yandex_tank.Prelude.Result.{Result, ok, err, lock_error}
use yandex_tank.Prelude.Text.{Text, codes, text_eq}

-- What `yaml.load` finds in a lock file: nothing that has fields or a pid that is no number, or the
-- pid, if any.
pub data Content : Type 0 where
  unreadable : Content
  info : (pid : Option ℕ) → Content

pub record File : Type 0 where
  pub name : Text
  pub content : Content

abbrev pub Directory : Type 0
Directory = List File

abbrev pub after_prefix : Text → Text → Option Text
after_prefix [] t = some t
after_prefix (c ∷ p) [] = none
after_prefix (c ∷ p) (d ∷ t) = let rest = after_prefix p t in if c == d then rest else none

abbrev pub ends_with : Text → Text → Bool
ends_with suffix [] = text_eq suffix []
ends_with suffix (c ∷ t) = let rest = ends_with suffix t in text_eq suffix (c ∷ t) || rest

-- `fnmatch(filename, 'lunapark_*.lock')`
unfoldable pub is_lock_name : Text → Bool
is_lock_name name = elim (after_prefix (codes "lunapark_") name) [
  | none ↦ false
  | some rest ↦ ends_with (codes ".lock") rest
]

-- What `is_locked` returns: False, or a message about a file.
pub data Verdict : Type 0 where
  not_locked : Verdict
  no_pid cannot_load test_is_running : File → Verdict

unfoldable pub remove_file : Text → Directory → Directory
remove_file name [] = []
remove_file name (f ∷ d) =
    let rest = remove_file name d in if text_eq f.name name then d else f ∷ rest

abbrev pub behind : File → Directory × Verdict → Directory × Verdict
behind f (d, v) = (f ∷ d, v)

-- A lock that is held: the name of its file.
abbrev pub Held : Type 0
Held = Option Text

abbrev pub locks : Verdict → Bool
locks not_locked = false
locks (no_pid f) = true
locks (cannot_load f) = true
locks (test_is_running f) = true

module _ (own : ℕ) (pid_exists : ℕ → Bool) (removable : File → Bool) where
  abbrev pub judge_pid : File → ℕ → Option Verdict
  judge_pid f zero = some (no_pid f)
  judge_pid f (suc p) = if pid_exists (suc p) then some (test_is_running f) else none

  abbrev pub judge_content : File → Content → Option Verdict
  judge_content f unreadable = some (cannot_load f)
  judge_content f (info none) = judge_pid f own
  judge_content f (info (some pid)) = judge_pid f pid

  -- What a lock file says; none if its process is dead. `Lock.load` takes the pid of this process,
  -- `own`, for a pid that is missing.
  unfoldable pub judge : File → Option Verdict
  judge f = judge_content f f.content

  -- The first lock file decides. That of a dead process is removed, if it can be.
  unfoldable pub is_locked : Directory → Directory × Verdict
  is_locked [] = ([], not_locked)
  is_locked (f ∷ d) =
      let rest = is_locked d in
      if is_lock_name f.name
      then elim (judge f) [
        | some v ↦ (f ∷ d, v)
        | none ↦ (if removable f then d else f ∷ d, not_locked)
      ]
      else behind f rest

  -- `acquire`, where `mkstemp` gives the name
  unfoldable pub acquire :
      (pid : ℕ) (name : Text) (ignore : Bool) → Directory → Result (Directory × Held)
  acquire pid name ignore d =
      let (d', verdict) = is_locked d in
      if not ignore && locks verdict
      then err lock_error
      else ok (d' ++ record { name = name; content = info (some pid) } ∷ [], some name)

abbrev pub exists_file : Text → Directory → Bool
exists_file name [] = false
exists_file name (f ∷ d) = text_eq f.name name || exists_file name d

unfoldable pub release : Held → Directory → Directory
unfolding remove_file
release none d = d
release (some name) d = if exists_file name d then remove_file name d else d

-- A job of the storage: the id in the cloud and that of the tank.
pub record Job : Type 0 where
  pub cloud : Text
  pub tank : Option Text

abbrev pub same_id : Option Text → Option Text → Bool
same_id none none = true
same_id none (some b) = false
same_id (some a) none = false
same_id (some a) (some b) = text_eq a b

-- `push_job`: YAML appends a list of one job to the list in the file.
unfoldable pub push_job : (cloud : Text) (tank : Option Text) → List Job → List Job
push_job cloud tank jobs = jobs ++ record { cloud = cloud; tank = tank } ∷ []

-- the loop of `get_cloud_job_id`
unfoldable pub find_job : Option Text → List Job → Option Text
find_job id [] = none
find_job id (j ∷ js) = let rest = find_job id js in if same_id j.tank id then some j.cloud else rest

-- `get_cloud_job_id`, on the file if there is one
unfoldable pub get_cloud_job_id : Option Text → Option (List Job) → Option Text
unfolding find_job
get_cloud_job_id id none = none
get_cloud_job_id id (some jobs) = find_job id jobs
