-- ===== src/Stepper/Stpd/Ends.antt =====
-- The reader comes to an end.
use mathlib.Core.Path.{subst}
use yandex_tank.Prelude.{
  ℕ, zero, suc, ◌≤◌, ◌<◌, Bool, true, false, List, [], ◌∷◌, drop, length, length-drop,
  if◌then◌else◌, ◌≡◌, ◌≢◌, refl, sym, ap, ◌∙◌, Option, none, some, arith,
}
use yandex_tank.Prelude.Int.{ℤ, pos, negsuc}
use yandex_tank.Prelude.Result.{
  Result, Error, out_of_rounds, ok, err, require, index_error, value_error, ◌>>=◌, >>=-eq-ok,
}
use yandex_tank.Prelude.Text.{Text}
use yandex_tank.Prelude.Bytes.{
  Bytes, read, words, is_str_space, int_of, decode, decode_from, cons_ok, Lead, lead, follow_on,
}
use yandex_tank.Stepper.Stpd.Headers.{chunk_header_shorter, chunk_header_ends}
use yandex_tank.Stepper.Stpd.{
  read_chunk_header, Loaded, nth, read_missile, End, stpd_file_error, not_yet, then_yield, ended_by,
  read_missiles, read_stpd,
}

pub read-shorter :
    (size : ℤ) (s chunk rest : Bytes) → read size s ≡ ok (chunk, rest) → length rest ≤ length s
unfolding read
read-shorter (pos n) s chunk rest e =
    let same : drop n s ≡ rest = cc in omega (arith, length-drop n s, ap length same)
read-shorter (negsuc zero) s chunk rest e =
    let same : [] ≡ rest = cc in omega (arith, ap length same)
read-shorter (negsuc (suc k)) s chunk rest e = cc

guarded :
    (short : Bool) {item : Loaded × Bytes} {l : Loaded} {rest : Bytes}
    → (if short then err value_error else ok item) ≡ ok (l, rest)
    → item ≡ (l, rest)
guarded true e = cc
guarded false e = cc

read_missile-shorter :
    (header : Text) (s rest : Bytes) (l : Loaded)
    → read_missile header s ≡ ok (l, rest)
    → length rest ≤ length s
unfolding read_missile
read_missile-shorter header s rest l e =
    let fields = words is_str_space header in
    let (size, _, e₁) = >>=-eq-ok (require index_error (nth fields 0) >>= int_of) _ e in
    let (time, _, e₂) = >>=-eq-ok (require index_error (nth fields 1) >>= int_of) _ e₁ in
    let ((chunk, rest'), chunk_read, e₃) = >>=-eq-ok (read size s) _ e₂ in
    let same : rest' ≡ rest = ap (λ item. item.1) (guarded _ e₃) in
    subst (λ t. length t ≤ length s) same (read-shorter size s chunk rest' chunk_read)

empty_decodes : decode [] ≡ ok []
unfolding decode
empty_decodes = refl

cons_ok_ends : (b : ℕ) (r : Result Text) → r ≢ err out_of_rounds → cons_ok b r ≢ err out_of_rounds
cons_ok_ends b (ok t) h = cc
cons_ok_ends b (err e) h = λ same. h (cc)

-- After the first byte of a character, and after the next one.
abbrev after_lead : Option Lead → Bytes → Result Text
after_lead none s = err value_error
after_lead (some l) s = elim l.follow [
  | zero ↦ cons_ok l.bits (decode_from 0 0 0 0 s)
  | suc k ↦ decode_from (suc k) l.low l.high l.bits s
]

abbrev after_follow : (k : ℕ) → Option ℕ → Bytes → Result Text
after_follow k none s = err value_error
after_follow k (some b) s = elim k [
  | zero ↦ cons_ok b (decode_from 0 0 0 0 s)
  | suc j ↦ decode_from (suc j) 128 191 b s
]

abbrev DecodesEnds : Bytes → Type 0
DecodesEnds s = (follow low high bits : ℕ) → decode_from follow low high bits s ≢ err out_of_rounds

after_lead_ends : (o : Option Lead) (s : Bytes) → DecodesEnds s → after_lead o s ≢ err out_of_rounds
after_lead_ends none s later = cc
after_lead_ends (some l) s later = go l.follow
  where
    go :
        (k : ℕ)
        → (elim k [
          | zero ↦ cons_ok l.bits (decode_from 0 0 0 0 s)
          | suc k ↦ decode_from (suc k) l.low l.high l.bits s
        ])
          ≢ err out_of_rounds
    go zero = cons_ok_ends l.bits _ (later 0 0 0 0)
    go (suc k) = later (suc k) l.low l.high l.bits

after_follow_ends :
    (k : ℕ) (o : Option ℕ) (s : Bytes) → DecodesEnds s → after_follow k o s ≢ err out_of_rounds
after_follow_ends k none s later = cc
after_follow_ends zero (some b) s later = cons_ok_ends b _ (later 0 0 0 0)
after_follow_ends (suc j) (some b) s later = later (suc j) 128 191 b

follow_step :
    (k low high bits c : ℕ) (s : Bytes)
    → decode_from (suc k) low high bits (c ∷ s) ≡ after_follow k (follow_on low high c bits) s
follow_step k low high bits c s = go (follow_on low high c bits)
  where
    go :
        (o : Option ℕ)
        → (elim o [
          | none ↦ err value_error
          | some b ↦ elim k [
            | zero ↦ cons_ok b (decode_from 0 0 0 0 s)
            | suc j ↦ decode_from (suc j) 128 191 b s
          ]
        ])
          ≡ after_follow k o s
    go none = refl
    go (some b) = refl

lead_step :
    (low high bits c : ℕ) (s : Bytes) → decode_from 0 low high bits (c ∷ s) ≡ after_lead (lead c) s
lead_step low high bits c s = go (lead c)
  where
    go :
        (o : Option Lead)
        → (elim o [
          | none ↦ err value_error
          | some l ↦ elim l.follow [
            | zero ↦ cons_ok l.bits (decode_from 0 0 0 0 s)
            | suc k ↦ decode_from (suc k) l.low l.high l.bits s
          ]
        ])
          ≡ after_lead o s
    go none = refl
    go (some l) = refl

decode_from_ends : (s : Bytes) → DecodesEnds s
decode_from_ends [] zero low high bits = cc
decode_from_ends [] (suc k) low high bits = cc
decode_from_ends (c ∷ s) zero low high bits =
    λ e. after_lead_ends (lead c) s (decode_from_ends s) (sym (lead_step low high bits c s) ∙ e)
decode_from_ends (c ∷ s) (suc k) low high bits = λ e.
    after_follow_ends k (follow_on low high c bits) s (decode_from_ends s)
      (sym (follow_step k low high bits c s) ∙ e)

decode_ends : (s : Bytes) → decode s ≢ err out_of_rounds
unfolding decode
decode_ends s = decode_from_ends s 0 0 0 0

ended_by_ends : (e : Error) → e ≢ out_of_rounds → ended_by e ≢ not_yet
ended_by_ends out_of_rounds h = absurd (h refl)
ended_by_ends _ h = cc

yields_ends : (l : Loaded) (r : List Loaded × End) → r.1 ≢ not_yet → (then_yield l r).1 ≢ not_yet
yields_ends l r h = h

-- What follows a `yield`.
abbrev go_on : ℕ → Result (Text × Bytes) → List Loaded × End
go_on k (err e) = ([], ended_by e)
go_on k (ok (header, rest)) = read_missiles k header rest

header_ends :
    (k : ℕ) (s : Bytes)
    → length s ≤ k
    → ((c : ℕ) (header rest : Bytes)
        → length rest < k
        → (read_missiles k (c ∷ header) rest).1 ≢ not_yet)
    → (found : Result (Text × Bytes)) → read_chunk_header s ≡ found
    → (go_on k found).1 ≢ not_yet
unfolding read_chunk_header read_missiles
header_ends k s enough later (err e) found = ended_by_ends e (λ same.
    chunk_header_ends decode (suc (length s)) s empty_decodes decode_ends (omega arith)
      (found ∙ ap err same))
header_ends k s enough later (ok ([], rest)) found = cc
header_ends k s enough later (ok (c ∷ header, rest)) found = later c header rest (
    omega (arith, chunk_header_shorter decode (suc (length s)) c s header rest empty_decodes found))

abbrev go_read : ℕ → Result (Loaded × Bytes) → List Loaded × End
go_read k (err e) = ([], stpd_file_error)
go_read k (ok (loaded, rest)) = then_yield loaded (go_on k (read_chunk_header rest))

read_ends :
    (k c : ℕ) (header s : Bytes)
    → length s ≤ k
    → ((c : ℕ) (header rest : Bytes)
        → length rest < k
        → (read_missiles k (c ∷ header) rest).1 ≢ not_yet)
    → (found : Result (Loaded × Bytes)) → read_missile (c ∷ header) s ≡ found
    → (go_read k found).1 ≢ not_yet
read_ends k c header s enough later (err e) found = cc
read_ends k c header s enough later (ok (loaded, rest)) found =
    header_ends k rest (omega (arith, read_missile-shorter (c ∷ header) s rest loaded found)) later
      (read_chunk_header rest) refl

read_missiles_end :
    (k c : ℕ) (header s : Bytes) → length s < k → (read_missiles k (c ∷ header) s).1 ≢ not_yet
unfolding read_missiles
read_missiles_end zero c header s enough = absurd (omega (arith, enough))
read_missiles_end (suc k) c header s enough =
    read_ends k c header s (omega (arith, enough)) (read_missiles_end k)
      (read_missile (c ∷ header) s) refl

-- `StpdReader` comes to an end on every file, whatever its bytes: it finishes or raises.
pub read_stpd_ends : (file : Bytes) → (read_stpd file).1 ≢ not_yet
unfolding read_stpd
read_stpd_ends file =
    header_ends (length file) file (omega arith) (read_missiles_end (length file))
      (read_chunk_header file) refl
