-- ===== src/Stepper/Missile/Http.antt =====
-- `HttpAmmo` of stepper/missile.py.
use yandex_tank.Prelude.{
  Bool, true, false, List, [], ◌∷◌, ◌++◌, map, length, ltb, ◌==◌, if◌then◌else◌,
}
use yandex_tank.Prelude.Text.{Text, codes, text_eq}
use yandex_tank.Prelude.Bytes.{Bytes, show, encode}

abbrev less : Bytes → Bytes → Bool
less [] [] = false
less [] (c ∷ t) = true
less (b ∷ s) [] = false
less (b ∷ s) (c ∷ t) = let rest = less s t in if b == c then rest else ltb b c

-- `sorted` puts a header in its place; the set has it once.
unfoldable pub put_header : Bytes → List Bytes → List Bytes
put_header h [] = h ∷ []
put_header h (g ∷ gs) =
    let rest = put_header h gs in
    if text_eq h g then g ∷ gs else if less h g then h ∷ g ∷ gs else g ∷ rest

unfoldable pub sorted_headers : List Bytes → List Bytes
unfolding put_header
sorted_headers [] = []
sorted_headers (h ∷ hs) = put_header h (sorted_headers hs)

abbrev pub newline : Bytes
newline = b'\r' ∷ b'\n' ∷ []

-- each header with its line end
abbrev pub header_lines : List Bytes → Bytes
header_lines [] = []
header_lines (h ∷ hs) = h ++ newline ++ header_lines hs

pub record HttpAmmo : Type 0 where
  pub method : Text
  pub uri : Bytes
  pub proto : Text
  pub headers : List Text
  pub body : Bytes

-- the set of headers that the constructor makes, in no order
abbrev pub with_length : List Text → Bytes → List Text
with_length headers [] = headers
with_length headers (c ∷ body) = (codes "Content-Length: " ++ show (length (c ∷ body))) ∷ headers

unfoldable pub http_ammo :
    (uri : Bytes) (headers : List Text) (method http_ver : Text) (body : Bytes) → HttpAmmo
http_ammo uri headers method http_ver body = record {
  method = method;
  uri = uri;
  proto = codes "HTTP/" ++ http_ver;
  headers = with_length headers body;
  body = body;
}

unfoldable pub to_s : HttpAmmo → Bytes
unfolding sorted_headers
to_s ammo =
    encode ammo.method
    ++ (b' ' ∷ ammo.uri)
    ++ (b' ' ∷ encode ammo.proto)
    ++ newline
    ++ header_lines (sorted_headers (map encode ammo.headers))
    ++ newline
    ++ ammo.body
