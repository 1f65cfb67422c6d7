-- ===== src/Prelude/Bytes/Lines.antt =====
-- Lines, words and characters of a text that was put together.
use mathlib.Core.List.{reverse, reverse-cons, reverse-append, reverse-reverse}
use yandex_tank.Prelude.{
  ℕ, Bool, true, false, List, [], ◌∷◌, ◌++◌, All, drop, length, ltb, ◌≡◌, ◌≢◌, refl, ap, arith,
}
use yandex_tank.Prelude.Result.{ok}
use yandex_tank.Prelude.Bytes.{
  Bytes, readline, take, decode, decode_from, lead, words, is_newline, lstrip_newlines,
  rstrip_newlines, strip_newlines,
}

module _ {ℓ κ} {A : Type ℓ} (P : A → Type κ) where
  pub All-append : (xs ys : List A) → All P xs → All P ys → All P (xs ++ ys)
  All-append [] ys h k = k
  All-append (x ∷ xs) ys h k = (h.0, All-append xs ys h.1 k)

  pub All-map {μ} : (Q : A → Type μ) → ((a : A) → P a → Q a) → (xs : List A) → All P xs → All Q xs
  All-map Q f [] h = tt
  All-map Q f (x ∷ xs) h = (f x h.0, All-map Q f xs h.1)

pub take-length : (xs ys : Bytes) → take (length xs) (xs ++ ys) ≡ xs
take-length [] ys = refl
take-length (x ∷ xs) ys = ap (◌∷◌ x) (take-length xs ys)

pub drop-length : (xs ys : Bytes) → drop (length xs) (xs ++ ys) ≡ ys
drop-length [] ys = refl
drop-length (x ∷ xs) ys = drop-length xs ys

abbrev pub Plain : Bytes → Type 0
Plain = All (λ c. is_newline c ≡ false)

pub readline-append :
    (line rest : Bytes) → Plain line → readline (line ++ b'\n' ∷ rest) ≡ (line ++ b'\n' ∷ [], rest)
unfolding readline
readline-append [] rest plain = refl
readline-append (c ∷ line) rest plain = ground (arith, readline-append line rest plain.1)

lstrip_newlines-Plain : (s : Bytes) → Plain s → lstrip_newlines s ≡ s
unfolding lstrip_newlines
lstrip_newlines-Plain [] plain = refl
lstrip_newlines-Plain (c ∷ s) plain = rw plain.0 refl

module _ (space : ℕ → Bool) where
  abbrev pub IsWord : Bytes → Type 0
  IsWord = All (λ c. space c ≡ false)

  -- A word ends at the first white space.
  pub words-append :
      (c : ℕ) (w : Bytes) (b : ℕ) (rest : Bytes)
      → IsWord (c ∷ w)
      → space b ≡ true
      → words space (c ∷ w ++ b ∷ rest) ≡ (c ∷ w) ∷ words space rest
  unfolding words
  words-append c [] b rest word blank = ground arith
  words-append c (d ∷ w) b rest word blank = ground (arith, words-append d w b rest word.1 blank)

  pub words_more :
      (w : Bytes) (b : ℕ) (rest : Bytes)
      → IsWord w
      → w ≢ []
      → space b ≡ true
      → words space (w ++ (b ∷ rest)) ≡ w ∷ words space rest
  words_more [] b rest word some_char blank = absurd (some_char refl)
  words_more (c ∷ w) b rest word some_char blank = words-append c w b rest word blank

  pub words_last : (c : ℕ) (w : Bytes) → IsWord (c ∷ w) → words space (c ∷ w) ≡ (c ∷ w) ∷ []
  unfolding words
  words_last c [] word = ground arith
  words_last c (d ∷ w) word = ground (arith, words_last d w word.1)

abbrev pub IsAscii : Bytes → Type 0
IsAscii = All (λ c. ltb c 128 ≡ true)

from_ascii : (s : Bytes) → IsAscii s → decode_from 0 0 0 0 s ≡ ok s
from_ascii [] ascii = refl
from_ascii (c ∷ s) ascii = rw (decode_from, lead, ascii.0, from_ascii s ascii.1) refl

pub decode_ascii : (s : Bytes) → IsAscii s → decode s ≡ ok s
unfolding decode
decode_ascii = from_ascii

reverse-Plain : (s : Bytes) → Plain s → Plain (reverse s)
reverse-Plain [] plain = tt
reverse-Plain (c ∷ s) plain = rw reverse-cons (
    All-append (λ d. is_newline d ≡ false) (reverse s) (c ∷ []) (reverse-Plain s plain.1)
      (plain.0, tt))

rstrip_newlines-Plain : (s : Bytes) → Plain s → rstrip_newlines (s ++ b'\n' ∷ []) ≡ s
unfolding rstrip_newlines
rstrip_newlines-Plain s plain =
    rw (reverse-append s (b'\n' ∷ []), lstrip_newlines-Plain (reverse s) (reverse-Plain s plain))
      (reverse-reverse s)

-- A line without its newline.
pub strip_newlines-Plain : (s : Bytes) → Plain s → strip_newlines (s ++ b'\n' ∷ []) ≡ s
unfolding strip_newlines lstrip_newlines
strip_newlines-Plain [] plain = refl
strip_newlines-Plain (c ∷ s) plain = rw plain.0 (rstrip_newlines-Plain (c ∷ s) plain)
