-- ===== src/Stepper/Stpd/Headers.antt =====
-- How `chunk_header` reads a file that begins with a given line.
use yandex_tank.Prelude.{
  ℕ, zero, suc, ◌≤◌, ◌<◌, [], ◌∷◌, ◌++◌, length, ◌≡◌, ◌≢◌, refl, sym, ap, ◌∙◌, arith,
}
use yandex_tank.Prelude.Result.{Result, Error, ok, err, out_of_rounds, ◌>>=◌, >>=-eq-ok}
use yandex_tank.Prelude.Text.{Text}
use yandex_tank.Prelude.Bytes.{Bytes, readline, strip_newlines, lstrip_newlines, rstrip_newlines}
use yandex_tank.Prelude.Bytes.Lines.{Plain, readline-append, strip_newlines-Plain}
use yandex_tank.Stepper.Stpd.{chunk_header}

-- What is left after a line is shorter, unless the file was at its end.
pub length-readline : (s : Bytes) → length (readline s).1 ≤ length s
unfolding readline
length-readline [] = omega arith
length-readline (c ∷ s) = ground (arith, length-readline s)

pub length-readline_more : (c : ℕ) (s : Bytes) → length (readline (c ∷ s)).1 < length (c ∷ s)
unfolding readline
length-readline_more c s = ground (arith, length-readline s)

no_header :
    {c : ℕ} {s t out : Bytes} → ◌≡◌ {A = Result (Text × Bytes)} (ok ([], s)) (ok (c ∷ t, out)) → ⊥
no_header e = cc

ok_no_err : {A : Type 0} {a : A} {e : Error} → ok a ≡ err e → ⊥
ok_no_err e = cc

out_same : {s s' t t' : Bytes} → ◌≡◌ {A = Result (Text × Bytes)} (ok (s, t)) (ok (s', t')) → t' ≡ t
out_same e = cc

module _ (decoded : Bytes → Result Text) where
  abbrev header_in : ℕ → Bytes → Text → Result (Text × Bytes)
  header_in k rest [] = ok ([], rest)
  header_in k rest (b ∷ bs) = elim (strip_newlines (b ∷ bs)) [
    | [] ↦ chunk_header decoded k rest
    | c ∷ header ↦ ok (c ∷ header, rest)
  ]

  header_in_plain :
      (k c b : ℕ) (bs header rest : Bytes)
      → strip_newlines (b ∷ bs) ≡ c ∷ header
      → header_in k rest (b ∷ bs) ≡ ok (c ∷ header, rest)
  header_in_plain k c b bs header rest e = rw (header_in, e) refl

  -- A line is read as it stands.
  pub chunk_header_line :
      (k c : ℕ) (header rest : Bytes)
      → Plain (c ∷ header)
      → decoded (c ∷ (header ++ (b'\n' ∷ []))) ≡ ok (c ∷ (header ++ (b'\n' ∷ [])))
      → chunk_header decoded (suc k) (c ∷ (header ++ (b'\n' ∷ rest))) ≡ ok (c ∷ header, rest)
  chunk_header_line k c header rest plain decodes =
      let whole = c ∷ (header ++ (b'\n' ∷ rest)) in
      let read : readline whole ≡ (c ∷ (header ++ (b'\n' ∷ [])), rest) =
        readline-append (c ∷ header) rest plain in
      let line : decoded (readline whole).0 ≡ ok (c ∷ (header ++ (b'\n' ∷ []))) = rw read decodes in
      ap (λ d. d >>= header_in k (readline whole).1) line
      ∙ header_in_plain k c c (header ++ (b'\n' ∷ [])) header (readline whole).1
          (strip_newlines-Plain (c ∷ header) plain)
      ∙ ap (λ r. ok (c ∷ header, r.1)) read

  -- An empty line is skipped.
  pub chunk_header_newline :
      (k : ℕ) (rest : Bytes)
      → decoded (b'\n' ∷ []) ≡ ok (b'\n' ∷ [])
      → chunk_header decoded (suc k) (b'\n' ∷ rest) ≡ chunk_header decoded k rest
  unfolding readline strip_newlines lstrip_newlines rstrip_newlines
  chunk_header_newline k rest decodes = rw (chunk_header, decodes) refl

  none_left : (k : ℕ) → decoded [] ≡ ok [] → chunk_header decoded (suc k) [] ≡ ok ([], [])
  unfolding readline
  none_left k empty = rw (chunk_header, empty) refl

  stripped_shorter :
      (k c : ℕ) (header rest out : Bytes) (t : Text)
      → ((h : Text) → chunk_header decoded k rest ≡ ok (c ∷ h, out) → length out ≤ length rest)
      → (elim t [ [] ↦ chunk_header decoded k rest | c' ∷ h' ↦ ok (c' ∷ h', rest) ])
        ≡ ok (c ∷ header, out)
      → length out ≤ length rest
  stripped_shorter k c header rest out [] later e = later header e
  stripped_shorter k c header rest out (c' ∷ h') later e = omega (arith, ap length (out_same e))

  -- What is left after a header is no longer than what was left after its first line.
  header_in-shorter :
      (k c : ℕ) (line header rest out : Bytes)
      → ((h : Text) → chunk_header decoded k rest ≡ ok (c ∷ h, out) → length out ≤ length rest)
      → header_in k rest line ≡ ok (c ∷ header, out)
      → length out ≤ length rest
  header_in-shorter k c [] header rest out later e = cc
  header_in-shorter k c (b ∷ bs) header rest out later e =
      stripped_shorter k c header rest out (strip_newlines (b ∷ bs)) later e

  chunk_header_weakly :
      (k c : ℕ) (s header out : Bytes)
      → chunk_header decoded k s ≡ ok (c ∷ header, out)
      → length out ≤ length s
  chunk_header_weakly zero c s header out e = cc
  chunk_header_weakly (suc k) c s header out e =
      let (line, _, e') = >>=-eq-ok (decoded (readline s).0) (header_in k (readline s).1) e in
      omega (
        arith,
        header_in-shorter k c line header (readline s).1 out
            (λ h. chunk_header_weakly k c (readline s).1 h out) e',
        length-readline s,
      )

  -- A header shortens the file.
  pub chunk_header_shorter :
      (k c : ℕ) (s header out : Bytes)
      → decoded [] ≡ ok []
      → chunk_header decoded k s ≡ ok (c ∷ header, out)
      → length out < length s
  chunk_header_shorter zero c s header out empty e = cc
  chunk_header_shorter (suc k) c [] header out empty e =
      absurd (no_header (sym (none_left k empty) ∙ e))
  chunk_header_shorter (suc k) c (a ∷ s) header out empty e =
      let (line, _, e') =
        >>=-eq-ok (decoded (readline (a ∷ s)).0) (header_in k (readline (a ∷ s)).1) e in
      omega (
        arith,
        header_in-shorter k c line header (readline (a ∷ s)).1 out
            (λ h. chunk_header_weakly k c (readline (a ∷ s)).1 h out) e',
        length-readline_more a s,
      )

  -- The loop of `read_chunk_header` comes to an end within as many rounds as bytes, and one more.
  header_in_ends :
      (k : ℕ) (line : Text) (rest : Bytes)
      → chunk_header decoded k rest ≢ err out_of_rounds
      → header_in k rest line ≢ err out_of_rounds
  header_in_ends k [] rest later = cc
  header_in_ends k (b ∷ bs) rest later = stripped_ends (strip_newlines (b ∷ bs))
    where
      stripped_ends :
          (t : Text)
          → (elim t [ [] ↦ chunk_header decoded k rest | c ∷ h ↦ ok (c ∷ h, rest) ])
            ≢ err out_of_rounds
      stripped_ends [] = later
      stripped_ends (c ∷ h) = cc

  decoded_ends :
      (k : ℕ) (line : Result Text) (rest : Bytes)
      → line ≢ err out_of_rounds
      → chunk_header decoded k rest ≢ err out_of_rounds
      → (line >>= header_in k rest) ≢ err out_of_rounds
  decoded_ends k (ok line) rest decodes later = header_in_ends k line rest later
  decoded_ends k (err e) rest decodes later = λ same. decodes (cc)

  pub chunk_header_ends :
      (k : ℕ) (s : Bytes)
      → decoded [] ≡ ok []
      → ((t : Bytes) → decoded t ≢ err out_of_rounds)
      → length s < k
      → chunk_header decoded k s ≢ err out_of_rounds
  chunk_header_ends zero s empty decodes enough = absurd (omega (arith, enough))
  chunk_header_ends (suc k) [] empty decodes enough =
      λ e. absurd (ok_no_err (sym (none_left k empty) ∙ e))
  chunk_header_ends (suc k) (a ∷ s) empty decodes enough =
      decoded_ends k (decoded (readline (a ∷ s)).0) (readline (a ∷ s)).1 (decodes _) (
        chunk_header_ends k (readline (a ∷ s)).1 empty decodes
          (omega (arith, enough, length-readline_more a s)))
