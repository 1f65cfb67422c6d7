-- ===== src/Core/TankInfo/Tests.antt =====
-- A small info dictionary.
use yandex_tank.Prelude.{inl, Bool, true, false, List, [], ◌∷◌, some, none, ◌≡◌, refl}
use yandex_tank.Prelude.Result.{ok, err, attribute_error}
use yandex_tank.Prelude.Text.{Text, codes, text_eq}
use yandex_tank.Core.TankInfo.{
  Value, other, dict, walk, Entries, empty, entry, find, get_value, update, first_level,
  merge_entries, recursive_dict_update,
}
use yandex_tank.Core.TankInfo.Paths.{PartsFrom, get_value-update}
use yandex_tank.Core.TankInfo.Merging.{
  Distinct, DistinctKeys, object, read_path, read_over, recursive_dict_update-read_over,
}

abbrev text : Text → Bool
text [] = false
text (c ∷ s) = true

abbrev info : Entries Text
info =
    entry (codes "uploader") (dict (entry (codes "job_no") (other (codes "17")) empty))
      (entry (codes "status") (other (codes "ok")) empty)

abbrev path : List Text
path = codes "uploader" ∷ codes "web_link" ∷ []

through_a_text :
    update text info (codes "status" ∷ codes "web_link" ∷ codes "url" ∷ []) (other (codes "x"))
    ≡ err attribute_error
unfolding update first_level
through_a_text = refl

-- the number of the job stands beside the link, and keeps its value
beside : PartsFrom (codes "web_link" ∷ []) (codes "job_no" ∷ [])
beside = inl refl

get_value-update_example :
    (after : Entries Text) × (update text info path (other (codes "url")) ≡ ok after)
    × (get_value text after path none ≡ ok (some (other (codes "url"))))
    × ((i : Text) → text_eq i (codes "uploader") ≡ false → find i after ≡ find i info)
    × ((js : List Text)
        → PartsFrom (codes "web_link" ∷ []) js
        → walk (dict after) (codes "uploader" ∷ js)
          ≡ walk (first_level text info (codes "uploader")) js)
unfolding first_level
get_value-update_example =
    get_value-update text info (codes "uploader") (codes "web_link" ∷ []) (other (codes "url")) none
      tt refl

job_number_kept :
    walk (dict info) (codes "uploader" ∷ codes "job_no" ∷ []) ≡ ok (other (codes "17"))
unfolding walk
job_number_kept = refl

abbrev changes : Entries Text
changes =
    entry (codes "uploader") (dict (entry (codes "web_link") (other (codes "url")) empty))
      (entry (codes "status") (dict (entry (codes "code") (other (codes "0")) empty)) empty)

-- nested dictionaries are joined, and a text gives way to a dictionary
joined :
    recursive_dict_update text (dict info) (dict changes)
    ≡ ok (
        dict (
          entry
            (codes "uploader")
            (dict (
              entry
                (codes "job_no")
                (other (codes "17"))
                (entry (codes "web_link") (other (codes "url")) empty)))
            (entry (codes "status") (dict (entry (codes "code") (other (codes "0")) empty)) empty)))
unfolding recursive_dict_update merge_entries
joined = refl

changes-DistinctKeys : DistinctKeys changes
unfolding Distinct find
changes-DistinctKeys = (refl, (refl, tt, tt), (refl, (refl, tt, tt), tt))

recursive_dict_update-read_over_example :
    (after : Value Text) × (recursive_dict_update (λ t. false) (dict info) (dict changes)
      ≡ ok after)
    × ((ks : List Text)
        → read_path (some after) ks ≡ read_over (some (dict info)) (some (dict changes)) ks)
recursive_dict_update-read_over_example =
    recursive_dict_update-read_over (λ t. false) (dict info) changes changes-DistinctKeys

-- the job's number is the first dictionary's
number_stays :
    read_over (some (dict info)) (some (dict changes)) (codes "uploader" ∷ codes "job_no" ∷ [])
    ≡ object (codes "17")
unfolding read_over read_path find
number_stays = refl
