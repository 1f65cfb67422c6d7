-- ===== src/Aggregator/Poller/Laws.antt =====
-- When the poller closes a source.
use yandex_tank.Prelude.{
  ℕ, zero, suc, ◌+◌, ◌≤◌, ◌<◌, true, List, [], ◌∷◌, ◌++◌, Option, none, some, ltb, ◌≡◌, refl, ap,
  ◌∙◌, inl, inr, Bool-cases, arith,
}
use yandex_tank.Aggregator.Poller.{data_poller}

below : (a b : ℕ) → a < b → ltb a b ≡ true
below a b h = ground (arith, h)

module _ {ℓ} {A : Type ℓ} where
  -- The source is never silent for more than `most` rounds on end, `silent` of which have passed.
  abbrev pub NeverSilent : (most silent : ℕ) → List (Option A) → Type 0
  NeverSilent most silent [] = silent ≤ most
  NeverSilent most silent (some chunk ∷ source) = NeverSilent most 0 source
  NeverSilent most silent (none ∷ source) = (silent < most) × NeverSilent most (silent + 1) source

  abbrev pub chunks : List (Option A) → List A
  chunks [] = []
  chunks (some chunk ∷ source) = chunk ∷ chunks source
  chunks (none ∷ source) = chunks source

  -- So many rounds without data.
  abbrev pub silence : ℕ → List (Option A)
  silence zero = []
  silence (suc k) = none ∷ silence k

  gives_up :
      (most silent k : ℕ) (after : List (Option A))
      → most < silent + k
      → silent ≤ most
      → data_poller most silent (silence k ++ after) ≡ []
  unfolding data_poller
  gives_up most silent zero after h g = ground (arith, h, g)
  gives_up most silent (suc k) after h g = elim (Bool-cases (ltb silent most)) [
    | inl t ↦ rw t (gives_up most (silent + 1) k after (omega (arith, h)) (ground (arith, t)))
    | inr f ↦ rw f refl
  ]

  passes :
      (most silent : ℕ) (before : List (Option A)) (chunk : A) (after : List (Option A))
      → NeverSilent most silent before
      → data_poller most silent (before ++ some chunk ∷ after)
        ≡ chunks before ++ chunk ∷ data_poller most 0 after
  unfolding data_poller
  passes most silent [] chunk after h = refl
  passes most silent (some x ∷ before) chunk after h =
      ap (λ l. x ∷ l) (passes most 0 before chunk after h)
  passes most silent (none ∷ before) chunk after h =
      rw (below silent most h.0) (passes most (silent + 1) before chunk after h.1)

  all_of :
      (most silent : ℕ) (source : List (Option A))
      → NeverSilent most silent source
      → data_poller most silent source ≡ chunks source
  unfolding data_poller
  all_of most silent [] h = refl
  all_of most silent (some x ∷ source) h = ap (λ l. x ∷ l) (all_of most 0 source h)
  all_of most silent (none ∷ source) h =
      rw (below silent most h.0) (all_of most (silent + 1) source h.1)

-- A source that is never silent for more than `wait_cntr_max` rounds on end is read to its end. If it
-- is silent for longer after some chunk, every chunk up to that one comes through in order, and
-- nothing that follows.
pub data_poller-closes {ℓ} :
    {A : Type ℓ} (most k : ℕ) (before after : List (Option A)) (chunk : A)
    → NeverSilent most 0 before
    → most < k
    → (data_poller most 0 before ≡ chunks before)
      × (data_poller most 0 (before ++ some chunk ∷ (silence k ++ after))
          ≡ chunks before ++ chunk ∷ [])
data_poller-closes most k before after chunk h long = (
  all_of most 0 before h,
  passes most 0 before chunk (silence k ++ after) h
      ∙ ap (λ l. chunks before ++ chunk ∷ l)
          (gives_up most 0 k after (omega (arith, long)) (omega arith)),
)
