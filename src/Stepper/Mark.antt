-- ===== src/Stepper/Mark.antt =====
-- stepper/mark.py: the marker that a missile gets if it has none. `uuid` stands for the hexadecimal
-- text of `uuid4()` for a missile.
use yandex_tank.Prelude.{
  ℕ, zero, suc, ◌+◌, ◌-◌, Bool, Option, none, some, List, [], ◌∷◌, ◌++◌, length, if◌then◌else◌,
}
use yandex_tank.Prelude.Int.{ℤ, pos, negsuc}
use yandex_tank.Prelude.Result.{
  Result, ok, err, ◌>>=◌, require, index_error, type_error, not_implemented_error,
}
use yandex_tank.Prelude.Text.{Text, codes, text_eq, split}
use yandex_tank.Prelude.Bytes.{Bytes, take, decode, int_of, show}

-- Python keeps bytes and texts apart.
pub data Marker : Type 0 where
  in_bytes : Bytes → Marker
  in_text : Text → Marker

-- `b'_'.join(parts)`
unfoldable pub join : List Text → Text
join [] = []
join (p ∷ []) = p
join (p ∷ q ∷ ps) = p ++ (b'_' ∷ join (q ∷ ps))

abbrev pub first : List Text → Text
first [] = []
first (p ∷ ps) = p

abbrev pub second : List Text → Option Text
second (p ∷ q ∷ ps) = some q
second (p ∷ []) = none
second [] = none

-- the path of the URI of a request, in its parts
unfoldable pub uri_parts : Text → Result (List Text)
uri_parts missile =
    require index_error (second (split b' ' (first (split b'\n' missile)))) >>= λ uri.
    ok (split b'/' (first (split b'?' uri)))

unfoldable pub mark_by_uri : Bytes → Result Marker
mark_by_uri missile =
    decode missile >>= λ text. uri_parts text >>= λ parts. ok (in_text (join parts))

-- `parts[0 : limit + 1]`
unfoldable pub first_parts : ℤ → List Text → List Text
first_parts (pos limit) parts = take (limit + 1) parts
first_parts (negsuc zero) parts = []
first_parts (negsuc (suc k)) parts = take (length parts - suc k) parts

unfoldable pub uri_marker : (limit : ℤ) → Bytes → Result Marker
uri_marker limit missile =
    uri_parts missile >>= λ parts. ok (in_bytes (join (first_parts limit parts)))

pub data Kind : Type 0 where
  empty_marker uniq by_uri : Kind
  limited : ℤ → Kind

-- A marker function, with the number of the next missile if it counts them.
pub record Marking : Type 0 where
  pub kind : Kind
  pub number : Option ℕ

-- What the option `autocases` holds.
pub data MarkerType : Type 0 where
  is_number : ℤ → MarkerType
  is_text : Text → MarkerType

abbrev pub limit_kind : ℤ → Kind
limit_kind (pos zero) = empty_marker
limit_kind (pos (suc n)) = limited (pos (suc n))
limit_kind (negsuc n) = limited (negsuc n)

unfoldable pub kind_of : MarkerType → Result Kind
kind_of (is_number n) = ok (limit_kind n)
kind_of (is_text t) = elim (int_of t) [
  | ok n ↦ ok (limit_kind n)
  | err _ ↦
      if text_eq t (codes "uniq")
      then ok uniq
      else if text_eq t (codes "uri")
      then ok by_uri
      else err not_implemented_error
]

unfoldable pub get_marker : MarkerType → (enum_ammo : Bool) → Result Marking
get_marker marker_type enum_ammo = kind_of marker_type >>= λ kind.
    ok (record { kind = kind; number = if enum_ammo then some 0 else none })

-- `b"%s#%d" % (marker, number)`
unfoldable pub numbered : Marker → ℕ → Result Marker
numbered (in_bytes m) number = ok (in_bytes (m ++ (b'#' ∷ show number)))
numbered (in_text t) number = err type_error

module _ (uuid : Bytes → Text) where
  unfoldable pub mark : Kind → Bytes → Result Marker
  mark empty_marker missile = ok (in_bytes [])
  mark uniq missile = ok (in_text (uuid missile))
  mark by_uri missile = mark_by_uri missile
  mark (limited limit) missile = uri_marker limit missile

  -- `marker(missile)`
  unfoldable pub apply_marker : Marking → Bytes → Result (Marker × Marking)
  apply_marker marking missile = mark marking.kind missile >>= λ m. elim marking.number [
    | none ↦ ok (m, marking)
    | some i ↦ numbered m i >>= λ m'. ok (m', record marking { number = some (i + 1) })
  ]
