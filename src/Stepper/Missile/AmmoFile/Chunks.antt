-- ===== src/Stepper/Missile/AmmoFile/Chunks.antt =====
-- A file of chunks as the ammo generators write it, and how each chunk is read.
use mathlib.Core.List.{append-nil, append_assoc}
use yandex_tank.Prelude.{
  suc, ℕ, true, false, Option, none, some, List, [], ◌∷◌, ◌++◌, length, ◌≡◌, ◌≢◌, refl, ap, ◌∙◌,
  arith,
}
use yandex_tank.Prelude.Int.{pos}
use yandex_tank.Prelude.Result.{ok, err, out_of_rounds}
use yandex_tank.Prelude.Text.{is_digit, is_space}
use yandex_tank.Prelude.Bytes.{Bytes, read, words, is_newline, show}
use yandex_tank.Prelude.Bytes.Laws.{int_of-show, show-IsDigits, show_cons}
use yandex_tank.Prelude.Bytes.Lines.{
  All-append, All-map, take-length, drop-length, Plain, IsWord, words_more, words_last,
}
use yandex_tank.Stepper.Stpd.Headers.{chunk_header_line, chunk_header_newline, chunk_header_ends}
use yandex_tank.Stepper.Stpd.{chunk_header}
use yandex_tank.Stepper.Missile.Uris.{nth_word}
use yandex_tank.Stepper.Missile.AmmoFile.{
  returned, next_header, chunk, size_of, read_sized, read_chunk,
}
use yandex_tank.Stepper.Missile.{Missile}

abbrev pub IsMarked : Option Bytes → Type 0
IsMarked none = Unit
IsMarked (some w) = (w ≢ []) × IsWord is_space w

-- A missile that a chunk can hold: it has a byte, and its marker, if any, is a word.
abbrev pub IsAmmo : Missile → Type 0
IsAmmo m = (m.missile ≢ []) × IsMarked m.marker

abbrev pub marker_text : Option Bytes → Bytes
marker_text none = []
marker_text (some w) = b' ' ∷ w

abbrev pub header_of : Missile → Bytes
header_of m = show (length m.missile) ++ marker_text m.marker

abbrev pub chunk_text : Missile → Bytes
chunk_text m = header_of m ++ (b'\n' ∷ (m.missile ++ (b'\n' ∷ [])))

abbrev pub ammo_file : List Missile → Bytes
ammo_file [] = []
ammo_file (m ∷ ms) = chunk_text m ++ ammo_file ms

show-IsWord : (n : ℕ) → IsWord is_space (show n)
show-IsWord n =
    All-map (λ c. is_digit c ≡ true) (λ c. is_space c ≡ false)
      (λ c h. unfold is_digit is_space in ground arith) (show n) (show-IsDigits n)

show-ne : (n : ℕ) → show n ≢ []
show-ne n e = let (c, s, splits) = show_cons n in cc

words_one : (w : Bytes) → w ≢ [] → IsWord is_space w → words is_space w ≡ w ∷ []
words_one [] some_byte word = absurd (some_byte refl)
words_one (c ∷ w) some_byte word = words_last is_space c w word

blank : is_space b' ' ≡ true
unfolding is_space
blank = refl

abbrev marker_words : Option Bytes → List Bytes
marker_words none = []
marker_words (some w) = w ∷ []

header_words :
    (n : ℕ) (o : Option Bytes)
    → IsMarked o
    → words is_space (show n ++ marker_text o) ≡ show n ∷ marker_words o
header_words n none ammo = rw append-nil (words_one (show n) (show-ne n) (show-IsWord n))
header_words n (some w) ammo =
    words_more is_space (show n) b' ' w (show-IsWord n) (show-ne n) blank
    ∙ ap (◌∷◌ (show n)) (words_one w ammo.0 ammo.1)

nth-marker_words : (a : Bytes) (o : Option Bytes) → nth_word (a ∷ marker_words o) 1 ≡ o
nth-marker_words a none = refl
nth-marker_words a (some w) = refl

size_of-header_of : (m : Missile) → IsAmmo m → size_of (header_of m) ≡ ok (pos (length m.missile))
unfolding size_of
size_of-header_of m ammo =
    rw (header_words (length m.missile) m.marker ammo.1) (int_of-show (length m.missile))

-- the chunk after a header of the right size
read_sized-append :
    (missile rest : Bytes) (o : Option Bytes)
    → missile ≢ []
    → IsMarked o
    → read_sized (pos (length missile)) (show (length missile) ++ marker_text o) (missile ++ rest)
      ≡ ok (chunk (record { missile = missile; marker = o }) rest)
unfolding read_sized read
read_sized-append [] rest o some_byte marked = absurd (some_byte refl)
read_sized-append (c ∷ s) rest o some_byte marked =
    rw
      (
        header_words (length (c ∷ s)) o marked,
        take-length s rest,
        drop-length s rest,
        nth-marker_words (show (length (c ∷ s))) o,
      )
      (ground arith)

pub read_chunk-header_of :
    (m : Missile) (rest : Bytes)
    → IsAmmo m
    → read_chunk (header_of m) (m.missile ++ rest) ≡ ok (chunk m rest)
unfolding read_chunk
read_chunk-header_of m rest ammo =
    rw (size_of-header_of m ammo) (read_sized-append m.missile rest m.marker ammo.0 ammo.1)

space_free : (c : ℕ) → is_space c ≡ false → is_newline c ≡ false
unfolding is_space
space_free c h = ground arith

append_ne : (xs ys : Bytes) → xs ≢ [] → xs ++ ys ≢ []
append_ne [] ys some_byte e = some_byte refl
append_ne (x ∷ xs) ys some_byte e = cc

marker_text-Plain : (o : Option Bytes) → IsMarked o → Plain (marker_text o)
marker_text-Plain none marked = tt
marker_text-Plain (some w) marked = (refl, All-map _ _ space_free w marked.1)

header_of-Plain : (m : Missile) → IsAmmo m → Plain (header_of m)
header_of-Plain m ammo =
    All-append _ (show (length m.missile)) (marker_text m.marker)
      (All-map _ _ space_free (show (length m.missile)) (show-IsWord (length m.missile)))
      (marker_text-Plain m.marker ammo.1)

pub next_header_newline : (rest : Bytes) → next_header (b'\n' ∷ rest) ≡ next_header rest
unfolding next_header
next_header_newline rest = ap returned (chunk_header_newline ok (length (b'\n' ∷ rest)) rest refl)

-- The loop of `read_chunk_header` comes to an end in the rounds that `next_header` gives it.
pub next_header_ends : (s : Bytes) → chunk_header ok (suc (length s)) s ≢ err out_of_rounds
next_header_ends s = chunk_header_ends ok (suc (length s)) s refl (λ t. cc) (omega arith)

next_header_line :
    (w rest : Bytes) → w ≢ [] → Plain w → next_header (w ++ (b'\n' ∷ rest)) ≡ (w, rest)
unfolding next_header
next_header_line [] rest some_byte plain = absurd (some_byte refl)
next_header_line (c ∷ w) rest some_byte plain =
    ap returned (chunk_header_line ok (length ((c ∷ w) ++ (b'\n' ∷ rest))) c w rest plain refl)

pub header_of-ne : (m : Missile) → header_of m ≢ []
header_of-ne m e =
    append_ne (show (length m.missile)) (marker_text m.marker) (show-ne (length m.missile)) e

-- the header of the next chunk
pub next_header-chunk_text :
    (m : Missile) (rest : Bytes)
    → IsAmmo m
    → next_header (chunk_text m ++ rest) ≡ (header_of m, m.missile ++ (b'\n' ∷ rest))
next_header-chunk_text m rest ammo =
    let w = header_of m in
    let body = m.missile ++ (b'\n' ∷ rest) in
    let whole : chunk_text m ++ rest ≡ w ++ (b'\n' ∷ body) =
      append_assoc w _ rest
      ∙ ap (λ t. w ++ (b'\n' ∷ t)) (append_assoc m.missile (b'\n' ∷ []) rest) in
    ap next_header whole ∙ next_header_line w body (header_of-ne m) (header_of-Plain m ammo)
