-- ===== src/Core/TankInfo/Paths.antt =====
-- What is written at a path of keys is read there, and nothing changes at the paths that part from it.
use mathlib.Core.Path.{subst}
use yandex_tank.Prelude.{
  Bool, true, false, List, [], ◌∷◌, Option, some, ◌≡◌, ◌⊎◌, refl, sym, ap, ◌∙◌, inl, inr,
  Bool-cases,
}
use yandex_tank.Prelude.Result.{ok}
use yandex_tank.Prelude.Text.{Text, text_eq, text_eq_refl, text_eq_iff}
use yandex_tank.Core.TankInfo.{
  Value, other, dict, Entries, empty, entry, find, put, get, update_dict, walk, is_true, get_value,
  first_level, update,
}

-- The second path has, at some place, another key than the first.
abbrev pub PartsFrom : List Text → List Text → Type 0
PartsFrom [] js = ⊥
PartsFrom (k ∷ ks) [] = ⊥
PartsFrom (k ∷ ks) (j ∷ js) = (text_eq j k ≡ false) ⊎ ((j ≡ k) × PartsFrom ks js)

module _ {A : Type 0} where
  -- No object but a dictionary stands on the way to the last key.
  abbrev pub IsOpen : Value A → List Text → Type 0
  IsOpen v [] = Unit
  IsOpen (other a) (k ∷ ks) = ⊥
  IsOpen (dict d) (k ∷ ks) = IsOpen (get k d) ks

  pub find-put : (k : Text) (v : Value A) (d : Entries A) → find k (put k v d) ≡ some v
  unfolding find put
  find-put k v empty = rw (text_eq_refl k) refl
  find-put k v (entry j w d) = elim (Bool-cases (text_eq k j)) [
    | inl y ↦ rw (y, y) refl
    | inr n ↦ rw (n, n) (find-put k v d)
  ]

  pub find-put_other :
      (i k : Text) (v : Value A) (d : Entries A)
      → text_eq i k ≡ false
      → find i (put k v d) ≡ find i d
  unfolding find put
  find-put_other i k v empty differ = rw differ refl
  find-put_other i k v (entry j w d) differ = elim (Bool-cases (text_eq k j)) [
    | inl y ↦
        let missed : text_eq i j ≡ false =
          subst (λ x. text_eq i x ≡ false) ((text_eq_iff k j).0 y) differ in
        rw (y, missed) refl
    | inr n ↦ rw (n, find-put_other i k v d differ) refl
  ]

  get-put : (k : Text) (v : Value A) (d : Entries A) → get k (put k v d) ≡ v
  unfolding get
  get-put k v d = rw (get, find-put k v d) refl

  get-put_other :
      (i k : Text) (v : Value A) (d : Entries A) → text_eq i k ≡ false → get i (put k v d) ≡ get i d
  unfolding get
  get-put_other i k v d differ = rw (get, find-put_other i k v d differ) refl

  -- What `update_dict` leaves: the value at its path, and all others as they were.
  abbrev Updated : Value A → List Text → Value A → Value A → Type 0
  Updated before ks value after =
      (walk after ks ≡ ok value)
      × ((js : List Text) → PartsFrom ks js → walk after js ≡ walk before js)

  Updated-put :
      (d : Entries A) (k : Text) (ks : List Text) (value w : Value A)
      → Updated (get k d) ks value w
      → Updated (dict d) (k ∷ ks) value (dict (put k w d))
  unfolding walk
  Updated-put d k ks value w (there, others) =
      (rw (walk, get-put k w d) there, λ js parts. kept js parts)
    where
      kept :
          (js : List Text) → PartsFrom (k ∷ ks) js → walk (dict (put k w d)) js ≡ walk (dict d) js
      kept [] parts = elim parts [ ]
      kept (j ∷ js) (inl differ) = ap (λ x. walk x js) (get-put_other j k w d differ)
      kept (j ∷ js) (inr (same, parts)) =
          ap (λ x. walk (get x (put k w d)) js) same
          ∙ ap (λ x. walk x js) (get-put k w d)
          ∙ others js parts
          ∙ ap (λ x. walk (get x d) js) (sym same)

  Updated-here : (before value : Value A) → Updated before [] value value
  unfolding walk
  Updated-here before value = (refl, λ js parts. elim parts [ ])

  update_dict-Updated :
      (v : Value A) (k : Text) (ks : List Text) (value : Value A)
      → IsOpen v (k ∷ ks)
      → (w : Value A) × (update_dict v k ks value ≡ ok w) × Updated v (k ∷ ks) value w
  unfolding update_dict
  update_dict-Updated (other a) k ks value way = elim way [ ]
  update_dict-Updated (dict d) k [] value way =
      (dict (put k value d), refl, Updated-put d k [] value value (Updated-here (get k d) value))
  update_dict-Updated (dict d) k (j ∷ ks) value way =
      let (w, e, updated) = update_dict-Updated (get k d) j ks value way in
      (dict (put k w d), rw (update_dict, e) refl, Updated-put d k (j ∷ ks) value w updated)

module _ {A : Type 0} (truthy : A → Bool) where
  get_value-walk :
      (info : Entries A) (keys : List Text) (value : Value A) (default : Option (Value A))
      → walk (dict info) keys ≡ ok value
      → is_true truthy value ≡ true
      → get_value truthy info keys default ≡ ok (some value)
  unfolding get_value
  get_value-walk info keys value default e y = rw (e, y) refl

  -- When no object but a dictionary stands on the way (or one that is false, at the first key, where
  -- an empty dictionary takes its place), `update` returns; `get_value` at the same keys gives the
  -- value that was set, if it is not false; the other keys of the first level keep what they had;
  -- and so does every path of keys that starts with the same key and parts from the updated one
  -- later, at any depth.
  pub get_value-update :
      (info : Entries A) (k : Text) (ks : List Text) (value : Value A) (default : Option (Value A))
      → IsOpen (first_level truthy info k) ks
      → is_true truthy value ≡ true
      → (after : Entries A) × (update truthy info (k ∷ ks) value ≡ ok after)
        × (get_value truthy after (k ∷ ks) default ≡ ok (some value))
        × ((i : Text) → text_eq i k ≡ false → find i after ≡ find i info)
        × ((js : List Text)
            → PartsFrom ks js
            → walk (dict after) (k ∷ js) ≡ walk (first_level truthy info k) js)
  unfolding update walk
  get_value-update info k [] value default way y =
      let after = put k value info in
      (
        after,
        refl,
        get_value-walk after (k ∷ []) value default (rw (walk, get-put k value info) refl) y,
        λ i differ. find-put_other i k value info differ,
        λ js parts. elim parts [ ],
      )
  get_value-update info k (j ∷ ks) value default way y =
      let (w, e, (there, others)) =
        update_dict-Updated (first_level truthy info k) j ks value way in
      let after = put k w info in
      (
        after,
        rw (update, e) refl,
        get_value-walk after (k ∷ j ∷ ks) value default (rw (walk, get-put k w info) there) y,
        λ i differ. find-put_other i k w info differ,
        λ js parts. ap (λ x. walk x js) (get-put k w info) ∙ others js parts,
      )
