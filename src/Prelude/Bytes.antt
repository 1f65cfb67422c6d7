-- ===== src/Prelude/Bytes.antt =====
-- Python's `bytes` and binary files: lines, chunks, decimal numbers and UTF-8. A file is the bytes
-- after its position.
pub mod Laws
pub mod Lines
use yandex_tank.Prelude.{
  ℕ, zero, suc, ◌+◌, ◌-◌, ◌*◌, ◌/◌, ◌%◌, Bool, true, false, not, ◌&&◌, ◌||◌, Option, none, some,
  List, [], ◌∷◌, ◌++◌, drop, ltb, leb, ◌==◌, if◌then◌else◌,
}
use yandex_tank.Prelude.Int.{ℤ, pos, negsuc}
use yandex_tank.Prelude.Result.{Result, ok, err, value_error}
use yandex_tank.Prelude.Text.{Text, is_digit, is_space}
use mathlib.Core.List.{reverse}

abbrev pub Bytes : Type 0
Bytes = List ℕ

-- `f.readline()`, with what is left of the file
unfoldable pub readline : Bytes → Bytes × Bytes
readline [] = ([], [])
readline (c ∷ s) =
    let (line, rest) = readline s in if c == b'\n' then (c ∷ [], s) else (c ∷ line, rest)

abbrev pub take {ℓ} : {A : Type ℓ} → ℕ → List A → List A
take zero xs = []
take (suc n) [] = []
take (suc n) (x ∷ xs) = x ∷ take n xs

-- `f.read(size)` of a buffered file
unfoldable pub read : ℤ → Bytes → Result (Bytes × Bytes)
read (pos size) s = ok (take size s, drop size s)
read (negsuc zero) s = ok (s, [])
read (negsuc (suc _)) s = err value_error

-- `for line in f`: the lines, each with its newline
abbrev begin_line : ℕ → List Bytes → List Bytes
begin_line c [] = (c ∷ []) ∷ []
begin_line c (l ∷ ls) = (c ∷ l) ∷ ls

unfoldable pub lines : Bytes → List Bytes
lines [] = []
lines (c ∷ s) = if c == b'\n' then (c ∷ []) ∷ lines s else begin_line c (lines s)

abbrev pub is_newline : ℕ → Bool
is_newline c = c == b'\r' || c == b'\n'

unfoldable pub lstrip_newlines : Bytes → Bytes
lstrip_newlines [] = []
lstrip_newlines (c ∷ s) = if is_newline c then lstrip_newlines s else c ∷ s

-- `s.rstrip('\r\n')`
unfoldable pub rstrip_newlines : Bytes → Bytes
unfolding lstrip_newlines
rstrip_newlines s = reverse (lstrip_newlines (reverse s))

-- `s.strip('\r\n')`
unfoldable pub strip_newlines : Bytes → Bytes
unfolding rstrip_newlines
strip_newlines s = rstrip_newlines (lstrip_newlines s)

-- The characters that `str.split()` splits at; `bytes.split()` splits at those of `is_space`.
unfoldable pub is_str_space : ℕ → Bool
unfolding is_space
is_str_space c =
    is_space c
    || (leb 28 c && leb c 31)
    || c == 133
    || c == 160
    || c == 5760
    || (leb 8192 c && leb c 8202)
    || c == 8232
    || c == 8233
    || c == 8239
    || c == 8287
    || c == 12288

module _ (space : ℕ → Bool) where
  abbrev pub goes_on : Bytes → Bool
  goes_on [] = false
  goes_on (c ∷ s) = not (space c)

  abbrev pub begin_word : Bool → ℕ → List Bytes → List Bytes
  begin_word true c (w ∷ ws) = (c ∷ w) ∷ ws
  begin_word true c [] = (c ∷ []) ∷ []
  begin_word false c ws = (c ∷ []) ∷ ws

  -- `s.split()`
  unfoldable pub words : Bytes → List Bytes
  words [] = []
  words (c ∷ s) = let ws = words s in if space c then ws else begin_word (goes_on s) c ws

-- `after` tells whether a digit was the last character: single underscores stand between digits.
unfoldable pub int_digits : (after : Bool) (acc : ℕ) → Text → Option ℕ
unfolding is_digit
int_digits after acc [] = if after then some acc else none
int_digits after acc (c ∷ s) =
    let rest = int_digits (is_digit c) (if is_digit c then acc * 10 + (c - 48) else acc) s in
    if is_digit c || (c == b'_' && after) then rest else none

abbrev pub minus : ℕ → ℤ
minus zero = pos 0
minus (suc n) = negsuc n

abbrev pub signed : (ℕ → ℤ) → Option ℕ → Result ℤ
signed sign none = err value_error
signed sign (some n) = ok (sign n)

-- `int(s)` for a text without white space, its digits the ASCII ones
unfoldable pub int_of : Text → Result ℤ
unfolding int_digits
int_of [] = err value_error
int_of (c ∷ s) =
    if c == b'-'
    then signed minus (int_digits false 0 s)
    else if c == b'+'
    then signed pos (int_digits false 0 s)
    else signed pos (int_digits false 0 (c ∷ s))

abbrev pub show_from : (fuel n : ℕ) → Text
show_from zero n = []
show_from (suc k) n =
    let last = 48 + n % 10 in
    elim (n / 10) [ zero ↦ last ∷ [] | suc m ↦ show_from k (suc m) ++ last ∷ [] ]

-- `str(n)`
unfoldable pub show : ℕ → Text
show n = show_from (suc n) n

-- How many bytes follow the first of a character, the bounds of the next one, and the first's bits.
pub record Lead : Type 0 where
  pub follow : ℕ
  pub low : ℕ
  pub high : ℕ
  pub bits : ℕ

abbrev pub lead : ℕ → Option Lead
lead c =
    if ltb c 128
    then some (record { follow = 0; low = 0; high = 0; bits = c })
    else if ltb c 194
    then none
    else if ltb c 224
    then some (record { follow = 1; low = 128; high = 191; bits = c - 192 })
    else if c == 224
    then some (record { follow = 2; low = 160; high = 191; bits = 0 })
    else if c == 237
    then some (record { follow = 2; low = 128; high = 159; bits = 13 })
    else if ltb c 240
    then some (record { follow = 2; low = 128; high = 191; bits = c - 224 })
    else if c == 240
    then some (record { follow = 3; low = 144; high = 191; bits = 0 })
    else if ltb c 244
    then some (record { follow = 3; low = 128; high = 191; bits = c - 240 })
    else if c == 244
    then some (record { follow = 3; low = 128; high = 143; bits = 4 })
    else none

abbrev pub follow_on : (low high : ℕ) → (c bits : ℕ) → Option ℕ
follow_on low high c bits = if leb low c && leb c high then some (bits * 64 + (c - 128)) else none

abbrev pub cons_ok : ℕ → Result Text → Result Text
cons_ok c (ok s) = ok (c ∷ s)
cons_ok c (err e) = err e

abbrev pub decode_from : (follow low high bits : ℕ) → Bytes → Result Text
decode_from zero low high bits [] = ok []
decode_from (suc k) low high bits [] = err value_error
decode_from zero low high bits (c ∷ s) = elim (lead c) [
  | none ↦ err value_error
  | some l ↦ elim l.follow [
    | zero ↦ cons_ok l.bits (decode_from 0 0 0 0 s)
    | suc k ↦ decode_from (suc k) l.low l.high l.bits s
  ]
]
decode_from (suc k) low high bits (c ∷ s) = elim (follow_on low high c bits) [
  | none ↦ err value_error
  | some b ↦ elim k [
    | zero ↦ cons_ok b (decode_from 0 0 0 0 s)
    | suc j ↦ decode_from (suc j) 128 191 b s
  ]
]

-- `s.decode('utf8')`; the error is UnicodeDecodeError, a ValueError
unfoldable pub decode : Bytes → Result Text
decode = decode_from 0 0 0 0

abbrev pub encode_char : ℕ → Bytes
encode_char c =
    if ltb c 128
    then c ∷ []
    else if ltb c 2048
    then (192 + c / 64) ∷ (128 + c % 64) ∷ []
    else if ltb c 65536
    then (224 + c / 4096) ∷ (128 + c / 64 % 64) ∷ (128 + c % 64) ∷ []
    else (240 + c / 262144) ∷ (128 + c / 4096 % 64) ∷ (128 + c / 64 % 64) ∷ (128 + c % 64) ∷ []

-- `s.encode('utf8')` of a text without surrogates
unfoldable pub encode : Text → Bytes
encode [] = []
encode (c ∷ s) = encode_char c ++ encode s
