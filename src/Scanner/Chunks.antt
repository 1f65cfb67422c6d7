-- ===== src/Scanner/Chunks.antt =====
-- The lines do not depend on where the chunks are cut.
use mathlib.Core.Path.{subst}
use mathlib.Core.List.{append-nil, append_assoc}
use yandex_tank.Prelude.{
  ℕ, true, false, List, [], ◌∷◌, ◌++◌, ◌==◌, ◌≡◌, refl, sym, ap, ◌∙◌, inl, inr, Bool-cases,
}
use yandex_tank.Prelude.Text.{Text, split}
use yandex_tank.Scanner.{but_last, last_of, read_lines, scan}

abbrev pub concat : List Text → Text
concat [] = []
concat (t ∷ ts) = t ++ concat ts

module _ (sep : ℕ) where
  -- A split that is taken apart at its last portion.
  split-cons : (s : Text) → (p : Text) × (ps : List Text) × (split sep s ≡ p ∷ ps)
  unfolding split
  split-cons [] = ([], [], refl)
  split-cons (c ∷ s) =
      let (p, ps, e) = split-cons s in
      elim (Bool-cases (c == sep)) [
        | inl y ↦ ([], split sep s, rw (split, y) refl)
        | inr n ↦ (c ∷ p, ps, rw (split, n, e) refl)
      ]

  unfoldable Known : (s t : Text) (ps : List Text) → Type 0
  Known s t ps = split sep (s ++ t) ≡ but_last ps ++ split sep (last_of ps ++ t)

  Known-prepend :
      (c : ℕ) (s t p : Text) (ps : List Text)
      → (c == sep) ≡ false
      → Known s t (p ∷ ps)
      → Known (c ∷ s) t ((c ∷ p) ∷ ps)
  unfolding split Known
  Known-prepend c s t p [] n h = rw (n, h) refl
  Known-prepend c s t p (q ∷ qs) n h = rw (n, h) refl

  Known-separator :
      (c : ℕ) (s t p : Text) (ps : List Text)
      → (c == sep) ≡ true
      → Known s t (p ∷ ps)
      → Known (c ∷ s) t ([] ∷ p ∷ ps)
  unfolding split Known
  Known-separator c s t p ps y h = rw (y, h) refl

  -- The text before the last separator does not change when more is read.
  split-append : (s t : Text) → Known s t (split sep s)
  unfolding split Known
  split-append [] t = refl
  split-append (c ∷ s) t =
      let (p, ps, e) = split-cons s in
      let known : Known s t (p ∷ ps) = subst (Known s t) e (split-append s t) in
      elim (Bool-cases (c == sep)) [
        | inl y ↦
            let cut : [] ∷ p ∷ ps ≡ split sep (c ∷ s) = rw (split, y, e) refl in
            subst (Known (c ∷ s) t) cut (Known-separator c s t p ps y known)
        | inr n ↦
            let kept : (c ∷ p) ∷ ps ≡ split sep (c ∷ s) = rw (split, n, e) refl in
            subst (Known (c ∷ s) t) kept (Known-prepend c s t p ps n known)
      ]

  -- A text without a separator.
  unfoldable Whole : Text → Type 0
  Whole t = split sep t ≡ t ∷ []

  Whole-prepend :
      (c : ℕ) (p : Text) (ps : List Text)
      → (c == sep) ≡ false
      → Whole (last_of (p ∷ ps))
      → Whole (last_of ((c ∷ p) ∷ ps))
  unfolding split Whole
  Whole-prepend c p [] n h = rw (n, h) refl
  Whole-prepend c p (q ∷ qs) n h = h

  Whole-last_of : (s : Text) → Whole (last_of (split sep s))
  unfolding split Whole
  Whole-last_of [] = refl
  Whole-last_of (c ∷ s) =
      let (p, ps, e) = split-cons s in
      let last : Whole (last_of (p ∷ ps)) = subst (λ x. Whole (last_of x)) e (Whole-last_of s) in
      elim (Bool-cases (c == sep)) [
        | inl y ↦ rw (split, y, e) last
        | inr n ↦ rw (split, n, e) (Whole-prepend c p ps n last)
      ]

  split_again :
      (s t : Text)
      → split sep (s ++ t) ≡ but_last (split sep s) ++ split sep (last_of (split sep s) ++ t)
  unfolding Known
  split_again s t = split-append s t

  scan_from :
      (buffer : Text) (chunks : List Text)
      → Whole buffer
      → (scan sep buffer chunks).0 ++ ((scan sep buffer chunks).1 ∷ [])
        ≡ split sep (buffer ++ concat chunks)
  unfolding scan read_lines Whole
  scan_from buffer [] whole = sym whole ∙ ap (split sep) (sym (append-nil buffer))
  scan_from buffer (chunk ∷ chunks) whole =
      let s = buffer ++ chunk in
      let portions = split sep s in
      let next = scan sep (last_of portions) chunks in
      append_assoc (but_last portions) next.0 (next.1 ∷ [])
      ∙ ap (λ x. but_last portions ++ x) (scan_from (last_of portions) chunks (Whole-last_of s))
      ∙ sym (split_again s (concat chunks))
      ∙ ap (split sep) (append_assoc buffer chunk (concat chunks))

-- However a file is cut into chunks, the lines that the scanner gives, followed by what stays in its
-- buffer, are the file's text split at the separators.
pub scan-split :
    (sep : ℕ) (chunks : List Text)
    → (scan sep [] chunks).0 ++ ((scan sep [] chunks).1 ∷ []) ≡ split sep (concat chunks)
unfolding split Whole
scan-split sep chunks = scan_from sep [] chunks refl
