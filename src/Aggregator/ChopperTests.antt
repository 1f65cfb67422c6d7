-- ===== src/Aggregator/ChopperTests.antt =====
-- Two sources of a few rows; a frame is the list of its rows' seconds.
use yandex_tank.Prelude.{
  ℕ, ◌≡◌, refl, true, Option, none, some, List, [], ◌∷◌, ◌++◌, length, length-append, arith,
}
use yandex_tank.Prelude.Dict.{lookup, insert}
use yandex_tank.Aggregator.Chopper.{
  Frames, numbered, new_chopper, chop, chop_from, read_sources, take_chunk, take_group, emit, drain,
}
use yandex_tank.Aggregator.Chopper.Cached.{passed_rows, source_rows}
use yandex_tank.Aggregator.Chopper.Rows.{chop-rows}
use yandex_tank.Aggregator.Chopper.Emitted.{Rising}
use yandex_tank.Aggregator.Chopper.Order.{chop-Rising}

abbrev last_of : List ℕ → ℕ
last_of [] = 0
last_of (x ∷ []) = x
last_of (x ∷ y ∷ ys) = last_of (y ∷ ys)

abbrev add_row : ℕ → List (ℕ × List ℕ) → List (ℕ × List ℕ)
add_row t groups = elim (lookup t groups) [
  | none ↦ insert t (t ∷ []) groups
  | some g ↦ insert t (t ∷ g) groups
]

abbrev group_all : List ℕ → List (ℕ × List ℕ)
group_all [] = []
group_all (t ∷ ts) = add_row t (group_all ts)

abbrev seconds : Frames
seconds = record {
  Frame = List ℕ;
  groupby = group_all;
  index_last = last_of;
  concat = λ f g. f ++ g;
  len = length;
}

abbrev sources : List (List (Option (List ℕ)))
sources =
    (some (1 ∷ 1 ∷ 2 ∷ []) ∷ none ∷ some (2 ∷ 3 ∷ []) ∷ [])
    ∷ (some (1 ∷ []) ∷ some (3 ∷ 3 ∷ []) ∷ [])
    ∷ []

chopped :
    (chop seconds 7 (new_chopper seconds sources)).0
    ≡ (1, 1 ∷ 1 ∷ 1 ∷ [], 3) ∷ (2, 2 ∷ 2 ∷ [], 2) ∷ (3, 3 ∷ 3 ∷ 3 ∷ [], 3) ∷ []
unfolding chop chop_from new_chopper read_sources take_chunk take_group emit drain
chopped = refl

chop-rows_example :
    let (out, done) = chop seconds 7 (new_chopper seconds sources) in
    (done ≡ true) × (passed_rows seconds 3 out ≡ source_rows seconds 3 (numbered seconds 0 sources))
chop-rows_example = chop-rows seconds 3 7 sources (λ f g. length-append f g) (omega arith)

chop-Rising_example : Rising seconds 0 (chop seconds 7 (new_chopper seconds sources)).0
chop-Rising_example = chop-Rising seconds 7 sources (ground arith)
