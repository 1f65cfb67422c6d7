-- ===== src/Core/TankInfo.antt =====
-- `TankInfo` of common/interfaces.py: a dictionary of dictionaries that the plugins of a test fill.
-- A nested dictionary is changed in place, and the outer one refers to it: the new one stands at
-- its key. `recursive_dict_update` is of common/util.py.
pub mod Paths
pub mod Merging
mod Tests
use yandex_tank.Prelude.{Bool, true, false, List, [], ◌∷◌, Option, none, some, if◌then◌else◌}
use yandex_tank.Prelude.Result.{Result, ok, err, ◌>>=◌, index_error, type_error, attribute_error}
use yandex_tank.Prelude.Text.{Text, text_eq}

-- A dictionary, or any other object; `truthy` is `bool` of such an object.
mutual
  pub data Value (A : Type 0) : Type 0 where
    other : A → Value A
    dict : Entries A → Value A

  pub data Entries (A : Type 0) : Type 0 where
    empty : Entries A
    entry : Text → Value A → Entries A → Entries A

module _ {A : Type 0} where
  unfoldable pub find : Text → Entries A → Option (Value A)
  find k empty = none
  find k (entry j v d) = if text_eq k j then some v else find k d

  -- `d[k] = v`
  unfoldable pub put : Text → Value A → Entries A → Entries A
  put k v empty = entry k v empty
  put k v (entry j w d) =
      let rest = put k v d in if text_eq k j then entry j v d else entry j w rest

  abbrev pub or_new : Option (Value A) → Value A
  or_new none = dict empty
  or_new (some v) = v

  -- `d.get(k, {})`, and `d.setdefault(k, {})`
  unfoldable pub get : Text → Entries A → Value A
  unfolding find
  get k d = or_new (find k d)

  -- `_update_dict`; the keys are not empty
  unfoldable pub update_dict : Value A → Text → List Text → Value A → Result (Value A)
  unfolding get put
  update_dict (other a) k [] value = err type_error
  update_dict (other a) k (j ∷ ks) value = err attribute_error
  update_dict (dict d) k [] value = ok (dict (put k value d))
  update_dict (dict d) k (j ∷ ks) value =
      update_dict (get k d) j ks value >>= λ w. ok (dict (put k w d))

  -- The values that the loop of `get_value` runs through.
  unfoldable pub walk : Value A → List Text → Result (Value A)
  unfolding get
  walk v [] = ok v
  walk (other a) (k ∷ ks) = err attribute_error
  walk (dict d) (k ∷ ks) = walk (get k d) ks

module _ {A : Type 0} (truthy : A → Bool) where
  unfoldable pub is_true : Value A → Bool
  is_true (other a) = truthy a
  is_true (dict empty) = false
  is_true (dict (entry k v d)) = true

  -- `value or default`, where the default may be None
  unfoldable pub get_value : Entries A → List Text → Option (Value A) → Result (Option (Value A))
  unfolding walk is_true
  get_value info keys default =
      walk (dict info) keys >>= λ value. ok (if is_true value then some value else default)

  -- `self.get_value([key], {})`
  unfoldable pub first_level : Entries A → Text → Value A
  unfolding get is_true
  first_level info k = let value = get k info in if is_true value then value else dict empty

  unfoldable pub update : Entries A → List Text → Value A → Result (Entries A)
  unfolding first_level update_dict put
  update info [] value = err index_error
  update info (k ∷ []) value = ok (put k value info)
  update info (k ∷ j ∷ ks) value =
      update_dict (first_level info k) j ks value >>= λ w. ok (put k w info)

-- The two branches of the loop of `recursive_dict_update`, for a value `v` at its key.
module _ {A : Type 0} where
  mutual
    unfolding get put

    pub merged : (old v : Value A) → Value A
    merged old (other a) = other a
    merged (other b) (dict e) = dict e
    merged (dict d) (dict e) = dict (merge_entries d e)

    pub merge_entries : Entries A → Entries A → Entries A
    merge_entries d empty = d
    merge_entries d (entry k v e) = merge_entries (put k (merged (get k d) v) d) e

-- `is_none` is `is None`
unfoldable pub recursive_dict_update :
    {A : Type 0} → (is_none : A → Bool) → Value A → Value A → Result (Value A)
unfolding merge_entries
recursive_dict_update is_none (other b) (dict e) = ok (dict e)
recursive_dict_update is_none (other b) (other a) = ok (other (if is_none a then b else a))
recursive_dict_update is_none (dict d) (other a) = err attribute_error
recursive_dict_update is_none (dict d) (dict e) = ok (dict (merge_entries d e))
