-- ===== src/Stepper/Missile/Lines.antt =====
-- The readers of stepper/missile.py that take a missile from a line: LineReader, CaseLineReader,
-- SlowLogReader and AccessLogReader.
pub mod Loops
use yandex_tank.Prelude.{
  ℕ, Bool, false, Option, none, some, List, [], ◌∷◌, ◌++◌, ◌==◌, if◌then◌else◌,
}
use yandex_tank.Prelude.Result.{Result, ok, err, ◌>>=◌, require, value_error, index_error}
use yandex_tank.Prelude.Text.{Text, codes, text_eq, split, truthy}
use yandex_tank.Prelude.Bytes.{Bytes, rstrip_newlines, words, is_str_space, decode, encode}
use yandex_tank.Numbers.{Numbers}
use yandex_tank.Stepper.Status.{Status}
use yandex_tank.Stepper.Missile.Http.{http_ammo, to_s}
use yandex_tank.Stepper.Missile.{Missile, Run, read_file}

-- LineReader
unfoldable pub on_line : Unit {0} → Bytes → Result (Option Missile × Unit {0})
on_line kept line = ok (some (record { missile = rstrip_newlines line; marker = none }), kept)

-- `line.split(b'\t', 1)`, the part before the separator apart
unfoldable pub split_once : (sep : ℕ) → Bytes → Option (Bytes × Bytes)
split_once sep [] = none
split_once sep (c ∷ s) =
    let rest = split_once sep s in
    if c == sep
    then some ([], s)
    else elim rest [ none ↦ none | some (before, later) ↦ some (c ∷ before, later) ]

-- CaseLineReader
unfoldable pub case_of_line : Bytes → Missile
case_of_line line = elim (split_once b'\t' line) [
  | some (case, missile) ↦ record { missile = missile; marker = some case }
  | none ↦ record { missile = line; marker = none }
]

unfoldable pub on_case_line : Unit {0} → Bytes → Result (Option Missile × Unit {0})
on_case_line kept line = ok (some (case_of_line (rstrip_newlines line)), kept)

abbrev pub starts_with : ℕ → Text → Bool
starts_with c [] = false
starts_with c (d ∷ s) = d == c

-- SlowLogReader, whose missiles are texts: the request so far is kept from line to line, and from loop to loop.
unfoldable pub on_slow_line : (request : Text) → Bytes → Result (Option Missile × Text)
on_slow_line request raw = decode raw >>= λ line.
    if starts_with b'#' line
    then ok
        (if truthy request then some (record { missile = request; marker = none }) else none, [])
    else ok (none, request ++ line)

abbrev pub second : List Text → Option Text
second (x ∷ y ∷ rest) = some y
second (x ∷ []) = none
second [] = none

abbrev pub three : List Text → Result (Text × Text × Text)
three (x ∷ y ∷ z ∷ []) = ok (x, y, z)
three _ = err value_error

-- method, uri and version of a line of an access log
unfoldable pub request_of : Text → Result (Text × Text × Text)
request_of line = require index_error (second (split b'"' line)) >>= λ request.
    three (words is_str_space request) >>= λ (method, uri, proto).
    require index_error (second (split b'/' proto)) >>= λ http_ver. ok (method, uri, http_ver)

-- AccessLogReader: a line that is no request is skipped, and so is a method other than GET.
unfoldable pub on_access_line :
    (headers : List Text) → Unit {0} → Bytes → Result (Option Missile × Unit {0})
on_access_line headers kept raw = decode raw >>= λ line. elim (request_of line) [
  | err e ↦ ok (none, kept)
  | ok (method, uri, http_ver) ↦ ok (
    if text_eq method (codes "GET")
        then some (record {
          missile = to_s (http_ammo (encode uri) headers (codes "GET") http_ver []);
          marker = none;
        })
        else none,
    kept,
  )
]

module _ {F : Type 0} ⦃n : Numbers F⦄ (clock : Status F → F)
    (consume : Missile → Status F → Status F) where
  unfoldable pub line_reader : (rounds data_length : ℕ) → Bytes → Status F → Run F
  line_reader rounds size file = read_file clock consume on_line (λ s. none) rounds size file tt

  unfoldable pub case_line_reader : (rounds data_length : ℕ) → Bytes → Status F → Run F
  case_line_reader rounds size file =
      read_file clock consume on_case_line (λ s. none) rounds size file tt

  unfoldable pub slow_log_reader : (rounds data_length : ℕ) → Bytes → Status F → Run F
  slow_log_reader rounds size file =
      read_file clock consume on_slow_line (λ s. none) rounds size file []

  unfoldable pub access_log_reader : List Text → (rounds data_length : ℕ) → Bytes → Status F → Run F
  access_log_reader headers rounds size file =
      read_file clock consume (on_access_line headers) (λ s. none) rounds size file tt
