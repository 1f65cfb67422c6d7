-- ===== src/Core/Locks/Exclusion.antt =====
-- Which locks exclude one another, and what the storage of jobs returns.
use yandex_tank.Prelude.{
  ℕ, zero, suc, Bool, true, false, not, ◌&&◌, ◌||◌, Option, none, some, List, [], ◌∷◌, ◌++◌, All,
  if◌then◌else◌, ◌≡◌, ◌⊎◌, refl, sym, ap, ◌∙◌, inl, inr, Bool-cases, Option-cases, is_some, arith,
}
use yandex_tank.Prelude.Result.{ok, err, lock_error}
use yandex_tank.Prelude.Text.{Text, text_eq, text_eq_refl}
use yandex_tank.Core.Locks.{
  Content, info, unreadable, File, Directory, is_lock_name, Verdict, no_pid, cannot_load,
  test_is_running, remove_file, judge, judge_pid, judge_content, is_locked, locks, Held, acquire,
  exists_file, release, Job, same_id, push_job, find_job, get_cloud_job_id,
}

exists-append :
    (name : Text) (d : Directory) (f : File)
    → exists_file name (d ++ f ∷ []) ≡ (exists_file name d || text_eq f.name name)
exists-append name [] f = ground arith
exists-append name (g ∷ d) f = ground (arith, exists-append name d f)

remove_file-append :
    (name : Text) (d : Directory) (f : File)
    → exists_file name d ≡ false
    → text_eq f.name name ≡ true
    → remove_file name (d ++ f ∷ []) ≡ d
unfolding remove_file
remove_file-append name [] f absent same = rw same refl
remove_file-append name (g ∷ d) f absent same = ground (arith, remove_file-append name d f)

find_job-append :
    (id : Option Text) (jobs : List Job) (j : Job)
    → find_job id (jobs ++ j ∷ []) ≡ (elim (find_job id jobs) [
      | some c ↦ some c
      | none ↦ if same_id j.tank id then some j.cloud else none
    ])
unfolding find_job
find_job-append id [] j = refl
find_job-append id (k ∷ jobs) j = elim (Bool-cases (same_id k.tank id)) [
  | inl y ↦ rw y refl
  | inr n ↦ rw n (find_job-append id jobs j)
]

true_not_false : true ≡ false → ⊥
true_not_false e = cc

running :
    (b : Bool) (f : File) (v : Verdict)
    → (if b then some (test_is_running f) else none) ≡ some v
    → locks v ≡ true
running true f v e = let same : test_is_running f ≡ v = cc in ap locks (sym same)
running false f v e = cc

allowed :
    (refused : Bool) {made : Directory × Held} (d : Directory) (h : Held)
    → (if refused then err lock_error else ok made) ≡ ok (d, h)
    → (d ≡ made.0) × (h ≡ made.1)
allowed true d h e = cc
allowed false {made} d h e =
    let same : made ≡ (d, h) = cc in (ap (λ x. x.0) (sym same), ap (λ x. x.1) (sym same))

module _ (own : ℕ) (pid_exists : ℕ → Bool) (removable : File → Bool) where
  -- A lock file of a dead process.
  abbrev pub dead : File → Bool
  dead f = is_lock_name f.name && not (is_some (judge own pid_exists removable f))

  abbrev pub NoneDead : Directory → Type 0
  NoneDead = All (λ f. dead f ≡ false)

  abbrev looked : Directory → Directory × Verdict
  looked = is_locked own pid_exists removable

  judge_pid-locks :
      (f : File) (p : ℕ) (v : Verdict)
      → judge_pid own pid_exists removable f p ≡ some v
      → locks v ≡ true
  judge_pid-locks f zero v e = let same : no_pid f ≡ v = cc in ap locks (sym same)
  judge_pid-locks f (suc q) v e = running (pid_exists (suc q)) f v e

  judge_content-locks :
      (f : File) (c : Content) (v : Verdict)
      → judge_content own pid_exists removable f c ≡ some v
      → locks v ≡ true
  judge_content-locks f unreadable v e = let same : cannot_load f ≡ v = cc in ap locks (sym same)
  judge_content-locks f (info none) v e = judge_pid-locks f own v e
  judge_content-locks f (info (some pid)) v e = judge_pid-locks f pid v e

  -- What a lock file says is no leave.
  judge-locks :
      (f : File) (v : Verdict) → judge own pid_exists removable f ≡ some v → locks v ≡ true
  unfolding judge
  judge-locks f v found = judge_content-locks f f.content v found

  -- A file that is no lock is passed over, and one that is no dead one's locks.
  is_locked-cons :
      (f : File) (d : Directory)
      → dead f ≡ false
      → (locks (looked (f ∷ d)).1 ≡ true)
        ⊎ ((locks (looked (f ∷ d)).1 ≡ locks (looked d).1)
            × ((looked (f ∷ d)).0 ≡ f ∷ (looked d).0))
  unfolding is_locked
  is_locked-cons f d alive = elim (Bool-cases (is_lock_name f.name)) [
    | inr other ↦ inr (rw (is_locked, other) refl, rw (is_locked, other) refl)
    | inl named ↦ elim (Option-cases (judge own pid_exists removable f)) [
      | inr (v, e) ↦ inl (rw (is_locked, named, e) (judge-locks f v e))
      | inl e ↦ absurd (true_not_false (rw (named, e) at alive))
    ]
  ]

  -- A directory without dead locks is left as it is.
  is_locked-same : (d : Directory) → NoneDead d → (looked d).0 ≡ d
  unfolding is_locked
  is_locked-same [] alive = refl
  is_locked-same (f ∷ d) alive = elim (Bool-cases (is_lock_name f.name)) [
    | inr other ↦ rw (is_locked, other) (ap (◌∷◌ f) (is_locked-same d alive.1))
    | inl named ↦ elim (Option-cases (judge own pid_exists removable f)) [
      | inr (v, e) ↦ rw (is_locked, named, e) refl
      | inl e ↦ absurd (true_not_false (rw (named, e) at alive.0))
    ]
  ]

  is_locked-append :
      (d : Directory) (f : File)
      → NoneDead d
      → is_lock_name f.name ≡ true
      → judge own pid_exists removable f ≡ some (test_is_running f)
      → locks (looked (d ++ f ∷ [])).1 ≡ true
  is_locked-append [] f alive named running =
      unfold is_locked in rw (is_locked, named, running) refl
  is_locked-append (g ∷ d) f alive named running = elim (is_locked-cons g (d ++ f ∷ []) alive.0) [
    | inl locked ↦ locked
    | inr (same, _) ↦ same ∙ is_locked-append d f alive.1 named running
  ]

  absent_cons :
      (name : Text) (f : File) (d : Directory)
      → exists_file name (f ∷ d) ≡ false
      → (text_eq f.name name ≡ false) × (exists_file name d ≡ false)
  absent_cons name f d h = ground (arith, h)

  -- Looking for locks adds no file.
  is_locked-absent :
      (name : Text) (d : Directory)
      → exists_file name d ≡ false
      → exists_file name (looked d).0 ≡ false
  unfolding is_locked
  is_locked-absent name [] absent = refl
  is_locked-absent name (f ∷ d) absent =
      let (other_name, later) = absent_cons name f d absent in
      elim (Bool-cases (is_lock_name f.name)) [
        | inr other ↦ rw (is_locked, other, other_name) (is_locked-absent name d later)
        | inl named ↦ elim (Option-cases (judge own pid_exists removable f)) [
          | inr (v, e) ↦ rw (is_locked, named, e) absent
          | inl e ↦ elim (Bool-cases (removable f)) [
            | inl gone ↦ rw (is_locked, named, e, gone) later
            | inr kept ↦ rw (is_locked, named, e, kept) absent
          ]
        ]
      ]

  -- What `acquire` has done where it returns.
  acquire-ok :
      (pid : ℕ) (name : Text) (ignore : Bool) (d d' : Directory) (h : Held)
      → acquire own pid_exists removable pid name ignore d ≡ ok (d', h)
      → (d' ≡ (looked d).0 ++ record { name = name; content = info (some pid) } ∷ [])
        × (h ≡ some name)
  unfolding acquire
  acquire-ok pid name ignore d d' h returned =
      allowed (not ignore && locks (looked d).1) d' h returned

  -- `release` takes away just the file that `acquire` made: the directory is as `is_locked` left it,
  -- if no file of that name was there.
  pub acquire-release :
      (pid : ℕ) (name : Text) (ignore : Bool) (d d' : Directory) (h : Held)
      → exists_file name d ≡ false
      → acquire own pid_exists removable pid name ignore d ≡ ok (d', h)
      → release h d' ≡ (is_locked own pid_exists removable d).0
  unfolding release
  acquire-release pid name ignore d d' h absent returned =
      let (made, held) = acquire-ok pid name ignore d d' h returned in
      let f : File = record { name = name; content = info (some pid) } in
      let before = (looked d).0 in
      let none_there = is_locked-absent name d absent in
      let there : exists_file name (before ++ f ∷ []) ≡ true =
        exists-append name before f ∙ rw (none_there, text_eq_refl name) refl in
      rw (made, held, there) (remove_file-append name before f none_there (text_eq_refl name))

  -- When a running process holds a lock and no lock file is that of a dead process, nobody else
  -- acquires one that does not ask to ignore the locks.
  pub acquire_excludes :
      (p pid : ℕ) (name name' : Text) (ignore : Bool) (d d' : Directory) (h : Held)
      → NoneDead d
      → is_lock_name name ≡ true
      → pid_exists (suc p) ≡ true
      → acquire own pid_exists removable (suc p) name ignore d ≡ ok (d', h)
      → acquire own pid_exists removable pid name' false d' ≡ err lock_error
  unfolding acquire judge
  acquire_excludes p pid name name' ignore d d' h alive named runs returned =
      let (made, _) = acquire-ok (suc p) name ignore d d' h returned in
      let f : File = record { name = name; content = info (some (suc p)) } in
      let whole : d' ≡ d ++ f ∷ [] = made ∙ ap (λ x. x ++ f ∷ []) (is_locked-same d alive) in
      let locked : locks (looked (d ++ f ∷ [])).1 ≡ true =
        is_locked-append d f alive named (rw runs refl) in
      rw (whole, locked) refl

-- A job is found by the tank's id, and one that was pushed before with the same id is found first.
pub push_job-get_cloud_job_id :
    (cloud : Text) (tank id : Option Text) (jobs : List Job)
    → get_cloud_job_id id (some (push_job cloud tank jobs))
      ≡ (elim (get_cloud_job_id id (some jobs)) [
        | some found ↦ some found
        | none ↦ if same_id tank id then some cloud else none
      ])
unfolding get_cloud_job_id push_job
push_job-get_cloud_job_id cloud tank id jobs =
    find_job-append id jobs (record { cloud = cloud; tank = tank })
