-- ===== src/Stepper/Stpd.antt =====
-- `Stpd` and `StpdReader` of stepper/format.py: the file of ammo with the time of each missile, as
-- it is written and as it is read. Other modules' readers share `chunk_header`.
pub mod Headers
pub mod RoundTrip
pub mod Ends
use yandex_tank.Prelude.{
  ℕ, zero, suc, Option, none, some, List, [], ◌∷◌, ◌++◌, length, if◌then◌else◌,
}
use yandex_tank.Prelude.Int.{ℤ, pos, ltb_ℤ}
use yandex_tank.Prelude.Result.{
  Result, ok, err, ◌>>=◌, Error, require, index_error, value_error, out_of_rounds,
}
use yandex_tank.Prelude.Text.{Text}
use yandex_tank.Prelude.Bytes.{
  Bytes, readline, read, strip_newlines, words, is_str_space, int_of, show, decode,
}

-- timestamp, marker, missile
pub record Shot : Type 0 where
  pub timestamp : ℕ
  pub marker : Bytes
  pub missile : Bytes

-- the first line of a missile, without its newline
abbrev pub header_of : Shot → Bytes
header_of shot =
    show (length shot.missile) ++ (b' ' ∷ (show shot.timestamp ++ (b' ' ∷ shot.marker)))

unfoldable pub stpd : Shot → Bytes
stpd shot = header_of shot ++ (b'\n' ∷ (shot.missile ++ (b'\n' ∷ [])))

-- what is written to the file
unfoldable pub stpd_file : List Shot → Bytes
stpd_file [] = []
stpd_file (shot ∷ shots) = stpd shot ++ stpd_file shots

-- The first line that is not empty, without its newline, and what is left of the file; at the end
-- of the file the empty one. Each round reads a byte at least.
abbrev pub chunk_header :
    (decoded : Bytes → Result Text) (rounds : ℕ) → Bytes → Result (Text × Bytes)
chunk_header decoded zero s = err out_of_rounds
chunk_header decoded (suc k) s =
    let (raw, rest) = readline s in
    decoded raw >>= λ line. elim line [
      | [] ↦ ok ([], rest)
      | b ∷ bs ↦ elim (strip_newlines (b ∷ bs)) [
        | [] ↦ chunk_header decoded k rest
        | c ∷ header ↦ ok (c ∷ header, rest)
      ]
    ]

unfoldable pub read_chunk_header : Bytes → Result (Text × Bytes)
read_chunk_header s = chunk_header decode (suc (length s)) s

-- A missile that is read: timestamp, missile, marker.
pub record Loaded : Type 0 where
  pub timestamp : ℤ
  pub missile : Bytes
  pub marker : Text

abbrev pub nth : List Text → ℕ → Option Text
nth [] i = none
nth (x ∷ xs) zero = some x
nth (x ∷ xs) (suc i) = nth xs i

abbrev pub or_empty : Option Text → Text
or_empty none = []
or_empty (some t) = t

-- The body of the loop up to its `yield`. A short read raises StpdFileError itself; the other
-- errors are turned into it.
unfoldable pub read_missile : (chunk_header : Text) → Bytes → Result (Loaded × Bytes)
read_missile header s =
    let fields = words is_str_space header in
    require index_error (nth fields 0) >>= int_of >>= λ chunk_size.
    require index_error (nth fields 1) >>= int_of >>= λ timestamp.
    let marker = or_empty (nth fields 2) in
    read chunk_size s >>= λ chunk.
    let (missile, rest) = chunk in
    if ltb_ℤ (pos (length missile)) chunk_size
    then err value_error
    else ok (record { timestamp = timestamp; missile = missile; marker = marker }, rest)

-- How a reader ends: at the end of the file, by StpdFileError, by an exception of its own, or not
-- in so many rounds.
pub data End : Type 0 where
  finished stpd_file_error unicode_error not_yet : End

abbrev pub ended_by : Error → End
ended_by out_of_rounds = not_yet
ended_by e = unicode_error

abbrev pub then_yield : Loaded → List Loaded × End → List Loaded × End
then_yield x (xs, e) = (x ∷ xs, e)

-- `while chunk_header != ''`
unfoldable pub read_missiles : (rounds : ℕ) (chunk_header : Text) → Bytes → List Loaded × End
read_missiles rounds [] s = ([], finished)
read_missiles zero (c ∷ header) s = ([], not_yet)
read_missiles (suc k) (c ∷ header) s = elim (read_missile (c ∷ header) s) [
  | err e ↦ ([], stpd_file_error)
  | ok (loaded, rest) ↦ then_yield loaded (elim (read_chunk_header rest) [
    | err e ↦ ([], ended_by e)
    | ok (next, rest') ↦ read_missiles k next rest'
  ])
]

unfoldable pub read_stpd : Bytes → List Loaded × End
unfolding read_chunk_header
read_stpd file = elim (read_chunk_header file) [
  | err e ↦ ([], ended_by e)
  | ok (header, rest) ↦ read_missiles (length file) header rest
]
