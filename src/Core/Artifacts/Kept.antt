-- ===== src/Core/Artifacts/Kept.antt =====
-- No file's content is lost.
use yandex_tank.Prelude.{
  Bool, true, false, List, [], ◌∷◌, ◌++◌, Option, none, some, ◌≡◌, refl, sym, ap, ◌∙◌, inl, inr,
  Bool-cases,
}
use yandex_tank.Prelude.Text.{Text, text_eq, text_eq_iff, text_eq_refl}
use yandex_tank.Prelude.Bytes.{Bytes}
use yandex_tank.Core.Artifacts.{Files, write_file, basename, place, collect_file, collect_artifacts}

-- Some file has the content.
abbrev pub Has : Files → Bytes → Type 0
Has files b = (f : Text) × (files f ≡ some b)

write_file_there : (f : Text) (v : Option Bytes) (files : Files) → write_file f v files f ≡ v
write_file_there f v files = rw (text_eq_refl f) refl

write_file_elsewhere :
    (f g : Text) (v : Option Bytes) (files : Files)
    → text_eq f g ≡ false
    → write_file g v files f ≡ files f
write_file_elsewhere f g v files differ = rw differ refl

absent_found : {A : Type 0} {a : A} → none ≡ some a → ⊥
absent_found e = cc

-- A file that is there and one that is not have different names.
differ_by : (f g : Text) → (f ≡ g → ⊥) → text_eq f g ≡ false
differ_by f g apart = elim (Bool-cases (text_eq f g)) [
  | inl y ↦ elim (apart ((text_eq_iff f g).0 y)) [ ]
  | inr n ↦ n
]

taken_apart :
    (f g : Text) (files : Files) {b : Bytes} → files f ≡ some b → files g ≡ none → f ≡ g → ⊥
taken_apart f g files here absent same = absent_found (sym absent ∙ ap files (sym same) ∙ here)

copy-Has :
    (dest : Text) (content : Bytes) (files : Files) (f : Text) {b : Bytes}
    → files dest ≡ none
    → files f ≡ some b
    → write_file dest (some content) files f ≡ some b
copy-Has dest content files f absent here =
    write_file_elsewhere f dest (some content) files
      (differ_by f dest (taken_apart f dest files here absent))
    ∙ here

move-Has :
    (name dest : Text) (content : Bytes) (files : Files) (f : Text) {b : Bytes}
    → files name ≡ some content
    → files dest ≡ none
    → files f ≡ some b
    → Has (write_file name none (write_file dest (some content) files)) b
move-Has name dest content files f there absent here =
    let copied = write_file dest (some content) files in
    let apart = differ_by dest name (λ e. taken_apart name dest files there absent (sym e)) in
    elim (Bool-cases (text_eq f name)) [
      | inl y ↦ (
        dest,
        write_file_elsewhere dest name none copied apart
            ∙ write_file_there dest (some content) files
            ∙ sym there
            ∙ ap files (sym ((text_eq_iff f name).0 y))
            ∙ here,
      )
      | inr n ↦
          (f, write_file_elsewhere f name none copied n ∙ copy-Has dest content files f absent here)
    ]

place-Has :
    (name dest : Text) (denied keep : Bool) (source old : Option Bytes) (files : Files) (f : Text)
    {b : Bytes}
    → files name ≡ source
    → files dest ≡ old
    → files f ≡ some b
    → Has (place name dest denied keep source old files) b
place-Has name dest denied keep none old files f there taken here = (f, here)
place-Has name dest denied keep (some content) (some old) files f there taken here = (f, here)
place-Has name dest true keep (some content) none files f there absent here = (f, here)
place-Has name dest false true (some content) none files f there absent here =
    (f, copy-Has dest content files f absent here)
place-Has name dest false false (some content) none files f there absent here =
    move-Has name dest content files f there absent here

-- One artifact: whatever the branch, the content of each file is still in a file.
collect_file-Has :
    (dir : Text) (denied : Text → Bool) (name : Text) (keep : Bool) (files : Files) {b : Bytes}
    → Has files b
    → Has (collect_file dir denied name keep files) b
unfolding collect_file
collect_file-Has dir denied [] keep files has = has
collect_file-Has dir denied (c ∷ s) keep files (f, here) =
    let name = c ∷ s in
    let dest = dir ++ (b'/' ∷ basename name) in
    place-Has name dest (denied name) keep (files name) (files dest) files f refl refl here

-- Collecting the artifacts loses no file's content: a content that some file has before is in some
-- file afterwards, also when files have one name in different directories, when an artifact is
-- missing or its destination is there, and when copying fails.
pub collect_artifacts-Has :
    (dir : Text) (denied : Text → Bool) (artifacts : List (Text × Bool)) (files : Files) {b : Bytes}
    → Has files b
    → Has (collect_artifacts dir denied artifacts files) b
unfolding collect_artifacts
collect_artifacts-Has dir denied [] files has = has
collect_artifacts-Has dir denied ((name, keep) ∷ artifacts) files has =
    collect_artifacts-Has dir denied artifacts (collect_file dir denied name keep files)
      (collect_file-Has dir denied name keep files has)
