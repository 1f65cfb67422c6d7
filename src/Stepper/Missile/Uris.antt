-- ===== src/Stepper/Missile/Uris.antt =====
-- UriStyleGenerator and UriReader of stepper/missile.py: the requests for a list of URIs, and for a
-- file of URIs and headers.
pub mod Loops
use yandex_tank.Prelude.{
  ℕ, zero, suc, Bool, ◌||◌, Option, none, some, List, [], ◌∷◌, ◌++◌, map, ◌==◌, if◌then◌else◌,
}
use yandex_tank.Prelude.Result.{
  Error, Result, ok, ◌>>=◌, require, value_error, index_error, runtime_error,
}
use yandex_tank.Prelude.Text.{Text, codes, strip, insert, is_space, truthy}
use yandex_tank.Prelude.Bytes.{Bytes, rstrip_newlines, words, decode}
use yandex_tank.Numbers.{Numbers}
use yandex_tank.Stepper.Status.{Status}
use yandex_tank.Stepper.Missile.Http.{http_ammo, to_s}
use yandex_tank.Stepper.Missile.{Missile, Run, after, not_yet, next_loop, read_file}
use yandex_tank.Stepper.Missile.Lines.{split_once, starts_with}
use mathlib.Core.List.{reverse}

-- the missiles between two ends of the loop
unfoldable pub uri_missiles : (headers : List Text) (http_ver : Text) → List Bytes → List Missile
uri_missiles headers http_ver = map λ uri. record {
  missile = to_s (http_ammo uri headers (codes "GET") http_ver []);
  marker = none;
}

module _ {F : Type 0} ⦃n : Numbers F⦄ (consume : Missile → Status F → Status F) where
  abbrev pub consume_all : List Missile → Status F → Status F
  consume_all [] s = s
  consume_all (m ∷ ms) s = consume_all ms (consume m s)

  -- UriStyleGenerator: the cycle of the missiles and the end of the loop
  unfoldable pub cycle_missiles : (rounds : ℕ) → List Missile → Status F → Run F
  cycle_missiles zero ms s = record { missiles = []; status = s; end = not_yet }
  cycle_missiles (suc k) ms s = after ms (next_loop (consume_all ms s) (cycle_missiles k ms))

  unfoldable pub uri_style_generator :
      (rounds : ℕ) (uris : List Bytes) (headers : List Text) (http_ver : Text) → Status F → Run F
  uri_style_generator rounds uris headers http_ver =
      cycle_missiles rounds (uri_missiles headers http_ver uris)

abbrev in_header_strip : ℕ → Bool
in_header_strip c = c == 13 || c == 10 || c == b'[' || c == b']' || c == 9 || c == 32

lstrip_header : Bytes → Bytes
lstrip_header [] = []
lstrip_header (c ∷ s) = if in_header_strip c then lstrip_header s else c ∷ s

-- `line.strip(b'\r\n[]\t ')`
unfoldable pub strip_header : Bytes → Bytes
unfolding lstrip_header
strip_header s = reverse (lstrip_header (reverse (lstrip_header s)))

-- `_parse_header`, a name and a value
unfoldable pub parse_header : Bytes → Result (Text × Text)
parse_header header = require value_error (split_once b':' header) >>= λ (name, value).
    decode (strip name) >>= λ n. decode (strip value) >>= λ v. ok (n, v)

abbrev pub Headers : Type 0
Headers = List (Text × Text)

-- `': '.join(header)` of each
abbrev pub joined : Headers → List Text
joined [] = []
joined ((name, value) ∷ hs) = (name ++ codes ": " ++ value) ∷ joined hs

abbrev pub nth_word : List Bytes → ℕ → Option Bytes
nth_word [] i = none
nth_word (w ∷ ws) zero = some w
nth_word (w ∷ ws) (suc i) = nth_word ws i

unfoldable pub uri_of_line : (http_ver : Text) → Headers → Bytes → Result Missile
uri_of_line http_ver headers line =
    let fields = words is_space line in
    require index_error (nth_word fields 0) >>= λ uri. ok (record {
      missile = to_s (http_ammo uri (joined headers) (codes "GET") http_ver []);
      marker = nth_word fields 1;
    })

unfoldable pub on_uri_line : (http_ver : Text) → Headers → Bytes → Result (Option Missile × Headers)
on_uri_line http_ver headers line =
    if starts_with b'[' line
    then (parse_header (strip_header line) >>= λ (name, value).
        ok (none, insert name value headers))
    else if truthy (rstrip_newlines line)
    then (uri_of_line http_ver headers line >>= λ m. ok (some m, headers))
    else ok (none, headers)

module _ {F : Type 0} ⦃n : Numbers F⦄ (clock : Status F → F)
    (consume : Missile → Status F → Status F) where
  -- AmmoFileError if no missile was counted when the file was read
  abbrev pub no_ammo : Status F → Option Error
  no_ammo s = if s.ammo_count == 0 then some runtime_error else none

  -- `headers` are the pairs that the constructor makes of the configured ones.
  unfoldable pub uri_reader :
      Headers → (http_ver : Text) (rounds data_length : ℕ) → Bytes → Status F → Run F
  uri_reader headers http_ver rounds size file =
      read_file clock consume (on_uri_line http_ver) no_ammo rounds size file headers
