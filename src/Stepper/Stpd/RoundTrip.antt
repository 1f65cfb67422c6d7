-- ===== src/Stepper/Stpd/RoundTrip.antt =====
-- Reading the file that was written.
use mathlib.Core.List.{append_assoc}
use yandex_tank.Prelude.{
  ℕ, zero, suc, ◌≤◌, Bool, true, false, not, List, [], ◌∷◌, ◌++◌, map, All, length, length-append,
  ltb, ◌≡◌, ◌≢◌, refl, ap, ◌∙◌, arith,
}
use yandex_tank.Prelude.Int.{pos}
use yandex_tank.Prelude.Result.{Result, ok, err}
use yandex_tank.Prelude.Text.{Text, is_digit, is_space}
use yandex_tank.Prelude.Bytes.{Bytes, read, readline, words, is_str_space, is_newline, show, decode}
use yandex_tank.Prelude.Bytes.Laws.{int_of-show, show-IsDigits, show_cons}
use yandex_tank.Prelude.Bytes.Lines.{
  All-append, All-map, take-length, drop-length, Plain, IsAscii, IsWord, words_more, words_last,
  decode_ascii,
}
use yandex_tank.Stepper.Stpd.Headers.{chunk_header_line, chunk_header_newline}
use yandex_tank.Stepper.Stpd.{
  Shot, header_of, stpd, stpd_file, read_chunk_header, Loaded, nth, or_empty, read_missile, End,
  finished, ended_by, then_yield, read_missiles, read_stpd,
}

-- A marker of ASCII characters without white space.
abbrev pub IsMarker : Bytes → Type 0
IsMarker = All (λ c. (is_str_space c ≡ false) × (ltb c 128 ≡ true))

abbrev pub loaded : Shot → Loaded
loaded shot = record {
  timestamp = pos shot.timestamp;
  missile = shot.missile;
  marker = shot.marker;
}

show-IsWord : (n : ℕ) → IsWord is_str_space (show n)
show-IsWord n =
    All-map (λ c. is_digit c ≡ true) (λ c. is_str_space c ≡ false)
      (λ c h. unfold is_digit is_str_space in ground arith) (show n) (show-IsDigits n)

show-ne : (n : ℕ) → show n ≢ []
show-ne n e = let (c, s, splits) = show_cons n in cc

marker_field : (m a b : Bytes) → IsMarker m → or_empty (nth (a ∷ b ∷ words is_str_space m) 2) ≡ m
marker_field [] a b marker = unfold words in refl
marker_field (c ∷ m) a b marker =
    let word = All-map _ (λ x. is_str_space x ≡ false) (λ x h. h.0) (c ∷ m) marker in
    rw (words_last is_str_space c m word) refl

blank : is_str_space b' ' ≡ true
unfolding is_str_space is_space
blank = refl

-- the words of a header
header_words :
    (shot : Shot)
    → words is_str_space (header_of shot)
      ≡ show (length shot.missile) ∷ show shot.timestamp ∷ words is_str_space shot.marker
header_words shot =
    words_more is_str_space (show (length shot.missile)) b' ' _ (show-IsWord _) (show-ne _) blank
    ∙ ap (◌∷◌ (show (length shot.missile)))
        (words_more is_str_space (show shot.timestamp) b' ' _ (show-IsWord _) (show-ne _) blank)

read_missile-stpd :
    (shot : Shot) (rest : Bytes)
    → IsMarker shot.marker
    → read_missile (header_of shot) (shot.missile ++ rest) ≡ ok (loaded shot, rest)
unfolding read_missile read
read_missile-stpd shot rest marker =
    rw
      (
        header_words shot,
        int_of-show (length shot.missile),
        int_of-show shot.timestamp,
        marker_field shot.marker _ _ marker,
        take-length,
        drop-length,
      )
      (ground arith)

header_of-All :
    (P : ℕ → Bool) (shot : Shot)
    → ((c : ℕ) → is_digit c ≡ true → P c ≡ true)
    → P b' ' ≡ true
    → All (λ c. P c ≡ true) shot.marker
    → All (λ c. P c ≡ true) (header_of shot)
header_of-All P shot digit space marker =
    let number : (n : ℕ) → All (λ c. P c ≡ true) (show n) =
      λ n. All-map (λ c. is_digit c ≡ true) (λ c. P c ≡ true) digit (show n) (show-IsDigits n) in
    All-append _ (show (length shot.missile)) _ (number (length shot.missile))
      (space, All-append _ (show shot.timestamp) _ (number shot.timestamp) (space, marker))

header_of-Plain : (shot : Shot) → IsMarker shot.marker → Plain (header_of shot)
header_of-Plain shot marker =
    All-map _ (λ c. is_newline c ≡ false) (λ c h. ground arith) (header_of shot)
      (header_of-All (λ c. not (is_newline c)) shot (λ c h. unfold is_digit in ground arith) refl
        (All-map _ (λ c. not (is_newline c) ≡ true)
          (λ c h. let (x, y) = h in unfold is_str_space is_space in ground arith) shot.marker
          marker))

header_of-IsAscii : (shot : Shot) → IsMarker shot.marker → IsAscii (header_of shot)
header_of-IsAscii shot marker =
    header_of-All (λ c. ltb c 128) shot (λ c h. unfold is_digit in ground arith) refl
      (All-map _ (λ c. ltb c 128 ≡ true) (λ c h. h.1) shot.marker marker)

append_ne : (xs ys : Bytes) → xs ≢ [] → xs ++ ys ≢ []
append_ne [] ys some_byte e = some_byte refl
append_ne (x ∷ xs) ys some_byte e = cc

abbrev on_header : ℕ → Result (Text × Bytes) → List Loaded × End
on_header k (err e) = ([], ended_by e)
on_header k (ok (header, rest)) = read_missiles k header rest

abbrev reads : ℕ → Bytes → List Loaded × End
reads k s = on_header k (read_chunk_header s)

newline_decodes : decode (b'\n' ∷ []) ≡ ok (b'\n' ∷ [])
newline_decodes = decode_ascii (b'\n' ∷ []) (refl, tt)

-- An empty line is skipped.
reads_newline : (k : ℕ) (rest : Bytes) → reads k (b'\n' ∷ rest) ≡ reads k rest
unfolding read_chunk_header
reads_newline k rest =
    ap (on_header k) (chunk_header_newline decode (length (b'\n' ∷ rest)) rest newline_decodes)

read_line :
    (w rest : Bytes)
    → w ≢ []
    → Plain w
    → IsAscii w
    → read_chunk_header (w ++ (b'\n' ∷ rest)) ≡ ok (w, rest)
unfolding read_chunk_header
read_line [] rest some_byte plain ascii = absurd (some_byte refl)
read_line (c ∷ w) rest some_byte plain ascii =
    chunk_header_line decode (length ((c ∷ w) ++ (b'\n' ∷ rest))) c w rest plain
      (decode_ascii (c ∷ (w ++ (b'\n' ∷ []))) (All-append _ (c ∷ w) (b'\n' ∷ []) ascii (refl, tt)))

read_missiles-read_missile :
    (k : ℕ) (w s rest : Bytes) (l : Loaded)
    → w ≢ []
    → read_missile w s ≡ ok (l, rest)
    → read_missiles (suc k) w s ≡ then_yield l (reads k rest)
unfolding read_missiles
read_missiles-read_missile k [] s rest l some_byte e = absurd (some_byte refl)
read_missiles-read_missile k (c ∷ w) s rest l some_byte e = rw (read_missiles, e) refl

-- The first missile of the file, and what follows it.
reads-stpd :
    (k : ℕ) (shot : Shot) (rest : Bytes)
    → IsMarker shot.marker
    → reads (suc k) (stpd shot ++ rest) ≡ then_yield (loaded shot) (reads k rest)
unfolding stpd
reads-stpd k shot rest marker =
    let w = header_of shot in
    let some_byte = append_ne (show (length shot.missile)) _ (show-ne (length shot.missile)) in
    let body = shot.missile ++ (b'\n' ∷ rest) in
    let whole : stpd shot ++ rest ≡ w ++ (b'\n' ∷ body) =
      append_assoc w _ rest
      ∙ ap (λ t. w ++ (b'\n' ∷ t)) (append_assoc shot.missile (b'\n' ∷ []) rest) in
    ap (reads (suc k)) whole
    ∙ ap (on_header (suc k))
        (read_line w body some_byte (header_of-Plain shot marker) (header_of-IsAscii shot marker))
    ∙ read_missiles-read_missile k w body (b'\n' ∷ rest) (loaded shot) some_byte
        (read_missile-stpd shot (b'\n' ∷ rest) marker)
    ∙ ap (then_yield (loaded shot)) (reads_newline k rest)

reads-stpd_file :
    (k : ℕ) (shots : List Shot)
    → length shots ≤ k
    → All (λ shot. IsMarker shot.marker) shots
    → reads k (stpd_file shots) ≡ (map loaded shots, finished)
unfolding stpd_file
reads-stpd_file k [] enough marker = unfold read_chunk_header readline decode read_missiles in refl
reads-stpd_file zero (shot ∷ shots) enough marker = absurd (omega (arith, enough))
reads-stpd_file (suc k) (shot ∷ shots) enough marker =
    reads-stpd k shot (stpd_file shots) marker.0
    ∙ ap (then_yield (loaded shot)) (reads-stpd_file k shots (omega (arith, enough)) marker.1)

length-stpd_file : (shots : List Shot) → length shots ≤ length (stpd_file shots)
unfolding stpd_file stpd
length-stpd_file [] = omega arith
length-stpd_file (shot ∷ shots) = omega (
  arith,
  length-stpd_file shots,
  length-append (stpd shot) (stpd_file shots),
  length-append (header_of shot) (b'\n' ∷ (shot.missile ++ (b'\n' ∷ []))),
)

-- `StpdReader` reads from the file that `Stpd` wrote every missile with its time and its marker, in
-- order, and then finishes, if the markers are of ASCII characters without white space; a missile
-- is any bytes.
pub read_stpd-stpd_file :
    (shots : List Shot)
    → All (λ shot. IsMarker shot.marker) shots
    → read_stpd (stpd_file shots) ≡ (map loaded shots, finished)
unfolding read_stpd
read_stpd-stpd_file shots marker =
    reads-stpd_file (length (stpd_file shots)) shots (length-stpd_file shots) marker
