-- ===== src/Core/TankInfo/Merging.antt =====
-- What each path of a merged dictionary has.
use mathlib.Core.Path.{subst}
use yandex_tank.Prelude.{
  Bool, List, [], ◌∷◌, ap, Option, none, some, ◌≡◌, refl, sym, ◌∙◌, inl, inr, Bool-cases,
}
use yandex_tank.Prelude.Result.{ok}
use yandex_tank.Prelude.Text.{Text, text_eq, text_eq_iff}
use yandex_tank.Core.TankInfo.{
  Value, other, dict, recursive_dict_update, Entries, empty, entry, find, put, get, or_new, merged,
  merge_entries,
}
use yandex_tank.Core.TankInfo.Paths.{find-put, find-put_other}

some_same : {A : Type 0} {x y : A} → some x ≡ some y → x ≡ y
some_same e = cc

-- What stands at a path: nothing, a dictionary, or another object.
pub data Content (A : Type 0) : Type 0 where
  absent dictionary : Content A
  object : A → Content A

module _ {A : Type 0} where
  -- Every dictionary in the value has a key once.
  unfoldable mutual
    pub Distinct : Value A → Type 0
    Distinct (other a) = Unit
    Distinct (dict d) = DistinctKeys d

    pub DistinctKeys : Entries A → Type 0
    DistinctKeys empty = Unit
    DistinctKeys (entry k v d) = (find k d ≡ none) × Distinct v × DistinctKeys d

  -- What the two dictionaries have at a key, as one value.
  abbrev combine : Option (Value A) → Option (Value A) → Option (Value A)
  combine before none = before
  combine (some old) (some v) = some (merged old v)
  combine none (some v) = some (merged (dict empty) v)

  unfoldable pub read_path : Option (Value A) → List Text → Content A
  read_path none ks = absent
  read_path (some (other a)) [] = object a
  read_path (some (other a)) (k ∷ ks) = absent
  read_path (some (dict d)) [] = dictionary
  read_path (some (dict d)) (k ∷ ks) = read_path (find k d) ks

  -- What is to stand at a path when the second value is laid over the first: what the second has;
  -- but while both are dictionaries, the question goes on with what each has at the next key, and
  -- where the second has nothing, the first counts.
  unfoldable pub read_over : Option (Value A) → Option (Value A) → List Text → Content A
  read_over before none ks = read_path before ks
  read_over before (some (other a)) ks = read_path (some (other a)) ks
  read_over none (some (dict e)) ks = read_path (some (dict e)) ks
  read_over (some (other b)) (some (dict e)) ks = read_path (some (dict e)) ks
  read_over (some (dict d)) (some (dict e)) [] = dictionary
  read_over (some (dict d)) (some (dict e)) (k ∷ ks) = read_over (find k d) (find k e) ks

  combine-or_new :
      (before : Option (Value A)) (v : Value A)
      → combine before (some v) ≡ some (merged (or_new before) v)
  combine-or_new none v = refl
  combine-or_new (some old) v = refl

  found_there :
      (j : Text) (d e : Entries A) (v : Value A)
      → find j e ≡ none
      → find j (merge_entries (put j (merged (get j d) v) d) e)
        ≡ combine (find j (put j (merged (get j d) v) d)) (find j e)
      → find j (merge_entries (put j (merged (get j d) v) d) e) ≡ combine (find j d) (some v)
  unfolding get
  found_there j d e v new found =
      found ∙ rw (find-put j (merged (get j d) v) d, new) refl ∙ sym (combine-or_new (find j d) v)

  find-merge_entries :
      (k : Text) (d e : Entries A)
      → DistinctKeys e
      → find k (merge_entries d e) ≡ combine (find k d) (find k e)
  unfolding find merge_entries Distinct
  find-merge_entries k d empty distinct = refl
  find-merge_entries k d (entry j v e) (new, _, distinct) =
      let w = merged (get j d) v in
      let ih = find-merge_entries k (put j w d) e distinct in
      elim (Bool-cases (text_eq k j)) [
        | inl y ↦
            let same : k ≡ j = (text_eq_iff k j).0 y in
            let at_j = found_there j d e v new (find-merge_entries j (put j w d) e distinct) in
            rw y (
              subst (λ x. find x (merge_entries (put j w d) e) ≡ combine (find x d) (some v))
                (sym same) at_j)
        | inr n ↦ ih ∙ rw (find-put_other k j w d n, n) refl
      ]

  Distinct-find :
      (k : Text) (d : Entries A) (v : Value A) → DistinctKeys d → find k d ≡ some v → Distinct v
  unfolding find Distinct
  Distinct-find k empty v distinct found = cc
  Distinct-find k (entry j w d) v (new, here, distinct) found = elim (Bool-cases (text_eq k j)) [
    | inl y ↦ subst Distinct (some_same (rw y at found)) here
    | inr n ↦ Distinct-find k d v distinct (rw n at found)
  ]

  -- Where the first has nothing, the second is read; so is it over an empty dictionary.
  read_over-none : (v : Option (Value A)) (ks : List Text) → read_over none v ks ≡ read_path v ks
  unfolding read_over read_path
  read_over-none none ks = refl
  read_over-none (some (other a)) ks = refl
  read_over-none (some (dict e)) ks = refl

  read_over-empty :
      (v : Value A) (ks : List Text)
      → read_over (some (dict empty)) (some v) ks ≡ read_over none (some v) ks
  unfolding read_over read_path find
  read_over-empty (other a) ks = refl
  read_over-empty (dict e) [] = refl
  read_over-empty (dict e) (k ∷ ks) = read_over-none (find k e) ks

  read_combined :
      (ks : List Text)
      → ((old v : Value A)
          → Distinct v
          → read_path (some (merged old v)) ks ≡ read_over (some old) (some v) ks)
      → (before after : Option (Value A)) → ((v : Value A) → after ≡ some v → Distinct v)
      → read_path (combine before after) ks ≡ read_over before after ks
  unfolding read_over
  read_combined ks ih before none distinct = refl
  read_combined ks ih (some old) (some v) distinct = ih old v (distinct v refl)
  read_combined ks ih none (some v) distinct =
      ih (dict empty) v (distinct v refl) ∙ read_over-empty v ks

  read_path-merged :
      (ks : List Text) (old v : Value A)
      → Distinct v
      → read_path (some (merged old v)) ks ≡ read_over (some old) (some v) ks
  unfolding read_path read_over merged Distinct
  read_path-merged ks old (other a) distinct = refl
  read_path-merged ks (other b) (dict e) distinct = refl
  read_path-merged [] (dict d) (dict e) distinct = refl
  read_path-merged (k ∷ ks) (dict d) (dict e) distinct =
      ap (λ o. read_path o ks) (find-merge_entries k d e distinct)
      ∙ read_combined ks (read_path-merged ks) (find k d) (find k e)
          (λ v found. Distinct-find k e v distinct found)

  -- When the second argument is a dictionary in which no key stands twice, at any depth,
  -- `recursive_dict_update` returns, and every path of keys in the result has what the two arguments
  -- have at it, the second laid over the first: the second's objects win, dictionaries are merged at
  -- every depth, and what only one of them has is kept.
  pub recursive_dict_update-read_over :
      (is_none : A → Bool) (old : Value A) (e : Entries A)
      → DistinctKeys e
      → (after : Value A) × (recursive_dict_update is_none old (dict e) ≡ ok after)
        × ((ks : List Text) → read_path (some after) ks ≡ read_over (some old) (some (dict e)) ks)
  unfolding recursive_dict_update merged Distinct
  recursive_dict_update-read_over is_none (other b) e distinct =
      (dict e, refl, λ ks. read_path-merged ks (other b) (dict e) distinct)
  recursive_dict_update-read_over is_none (dict d) e distinct =
      (dict (merge_entries d e), refl, λ ks. read_path-merged ks (dict d) (dict e) distinct)
